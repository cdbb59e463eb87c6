-- ===== src/Command/Topology/Search.antt =====
-- The search ends with the fuel that it is given, and what it finds.
use drone_swarm_lab.Base.{
  ℕ, zero, suc, ◌+◌, ◌≤◌, ◌<◌, String, ◌≡◌, refl, true, false, not, ◌&&◌, ◌||◌, ◌==◌, eq_iff,
  if◌then◌else◌, Option, none, some, List, [], ◌∷◌, ◌++◌, arith, contains, contains-append, length,
  length-append, Bool-cases, inl, inr,
}
use drone_swarm_lab.HashMap.{HashMap, insert}
use drone_swarm_lab.Connectivity.{Adjacency, neighbors, all_neighbors, enough}
use drone_swarm_lab.Connectivity.Mesh.{has_edge}
use drone_swarm_lab.Connectivity.Visits.{neighbors-within}
use drone_swarm_lab.Command.Topology.{visit_neighbors, bfs_loop}
use drone_swarm_lab.Command.Topology.Paths.{
  Route, arrived, hop, Known, Known-start, Known-visit, reconstruct_path-Route,
}

seen-visit :
    (id : String) (ns : List String) (previous : HashMap String) (seen queue : List String)
    (v : String)
    → contains (visit_neighbors id ns (previous, seen, queue)).1 v
      ≡ (contains seen v || contains ns v)
unfolding visit_neighbors contains
seen-visit id [] previous seen queue v = ground arith
seen-visit id (n ∷ ns) previous seen queue v = elim (Bool-cases (contains seen n)) [
  | inl old ↦ rw old (ground (arith, eq_iff n v, seen-visit id ns previous seen queue v))
  | inr fresh ↦ rw fresh (
      ground (
        arith,
        eq_iff n v,
        contains-append seen (n ∷ []) v,
        seen-visit id ns (insert n id previous) (seen ++ n ∷ []) (queue ++ n ∷ []) v,
      ))
]

queue-visit :
    (id : String) (ns : List String) (previous : HashMap String) (seen queue : List String)
    (v : String)
    → contains (visit_neighbors id ns (previous, seen, queue)).2 v
      ≡ (contains queue v || (contains ns v && not (contains seen v)))
unfolding visit_neighbors contains
queue-visit id [] previous seen queue v = ground arith
queue-visit id (n ∷ ns) previous seen queue v = elim (Bool-cases (contains seen n)) [
  | inl old ↦ rw old (ground (arith, eq_iff n v, queue-visit id ns previous seen queue v))
  | inr fresh ↦ rw fresh (
      ground (
        arith,
        eq_iff n v,
        contains-append seen (n ∷ []) v,
        contains-append queue (n ∷ []) v,
        queue-visit id ns (insert n id previous) (seen ++ n ∷ []) (queue ++ n ∷ []) v,
      ))
]

-- How many of the ids have not been seen.
unfoldable pub missing : List String → List String → ℕ
missing [] seen = 0
missing (x ∷ xs) seen = let rest = missing xs seen in if contains seen x then rest else suc rest

pub missing-le : (xs seen : List String) → missing xs seen ≤ length xs
unfolding missing
missing-le [] seen = omega arith
missing-le (x ∷ xs) seen = ground (arith, missing-le xs seen)

missing-see-le :
    (xs seen : List String) (n : String) → missing xs (seen ++ n ∷ []) ≤ missing xs seen
unfolding missing contains
missing-see-le [] seen n = omega arith
missing-see-le (x ∷ xs) seen n =
    ground (arith, contains-append seen (n ∷ []) x, missing-see-le xs seen n)

missing-see :
    (xs seen : List String) (n : String)
    → contains xs n ≡ true
    → contains seen n ≡ false
    → suc (missing xs (seen ++ n ∷ [])) ≤ missing xs seen
unfolding missing contains
missing-see [] seen n c h = ground arith
missing-see (x ∷ xs) seen n c h = ground (
  arith,
  eq_iff x n,
  eq_iff n x,
  contains-append seen (n ∷ []) x,
  missing-see xs seen n,
  missing-see-le xs seen n,
)

visit-work :
    (all : List String) (id : String) (ns : List String) (previous : HashMap String)
    (seen queue : List String)
    → ((n : String) → contains ns n ≡ true → contains all n ≡ true)
    → missing all (visit_neighbors id ns (previous, seen, queue)).1
        + length (visit_neighbors id ns (previous, seen, queue)).2
      ≤ missing all seen + length queue
unfolding visit_neighbors contains
visit-work all id [] previous seen queue within = omega arith
visit-work all id (n ∷ ns) previous seen queue within = elim (Bool-cases (contains seen n)) [
  | inl old ↦ rw old (visit-work all id ns previous seen queue (λ k c. within k (ground arith)))
  | inr fresh ↦ rw fresh (
      omega (
        arith,
        visit-work all id ns (insert n id previous) (seen ++ n ∷ []) (queue ++ n ∷ [])
            (λ k c. within k (ground arith)),
        missing-see all seen n (within n (ground (arith, eq_iff n n))) fresh,
        length-append queue (n ∷ []),
      ))
]

module _ (m : Adjacency) (from : String) where
  -- What has been seen and left the queue has only neighbours that have been seen.
  record Inv (previous : HashMap String) (seen queue : List String) : Type 0 where
    known : Known m from previous seen
    waits : (v : String) → contains queue v ≡ true → contains seen v ≡ true
    closed :
        (u v : String)
        → contains seen u ≡ true
        → has_edge m u v ≡ true
        → (contains queue u || contains seen v) ≡ true

  Inv-start : Inv [] (from ∷ []) (from ∷ [])
  unfolding contains
  Inv-start = record {
    known = Known-start m from;
    waits = λ v h. h;
    closed = λ u v h edge. ground arith;
  }

  Inv-expand :
      (id : String) (previous : HashMap String) (seen queue : List String)
      → Inv previous seen (id ∷ queue)
      → Inv
          (visit_neighbors id (neighbors m id) (previous, seen, queue)).0
          (visit_neighbors id (neighbors m id) (previous, seen, queue)).1
          (visit_neighbors id (neighbors m id) (previous, seen, queue)).2
  unfolding contains
  Inv-expand id previous seen queue i =
      let ns = neighbors m id in
      let here : contains seen id ≡ true = i.waits id (ground (arith, eq_iff id id)) in
      let sees = λ (v : String). seen-visit id ns previous seen queue v in
      let queues = λ (v : String). queue-visit id ns previous seen queue v in
      record {
        known = Known-visit m from id ns previous seen queue here (λ n h. h) i.known;
        waits = λ v h. ground (arith, sees v, queues v, i.waits v);
        closed = λ u v h edge. elim (Bool-cases (id == u)) [
          | inl same ↦
              let near : contains ns v ≡ true = rw ((eq_iff id u).0 same) edge in
              ground (arith, sees v)
          | inr other ↦ ground (arith, sees u, sees v, queues u, i.closed u v)
        ];
      }

  -- With an empty queue everything that a route leads to has been seen.
  closed_end :
      (previous : HashMap String) (seen : List String)
      → Inv previous seen []
      → {u v : String} {path : List String} → Route m u v path
      → contains seen u ≡ true
      → contains seen v ≡ true
  unfolding contains
  closed_end previous seen i arrived h = h
  closed_end previous seen i (hop {u = u} {v = v} edge r) h =
      closed_end previous seen i r (ground (arith, i.closed u v))

  -- The answer is a route, or there is none.
  abbrev pub Answer : String → Option (List String) → Type 0
  Answer to none = (path : List String) → ¬ Route m from to path
  Answer to (some path) = Route m from to path

  bfs_loop-ends :
      (to : String) (fuel : ℕ) (previous : HashMap String) (seen queue : List String)
      → Inv previous seen queue
      → (contains seen to ≡ true → contains queue to ≡ true)
      → missing (all_neighbors m) seen + length queue < fuel
      → (r : Option (List String)) × (bfs_loop m from to fuel (previous, seen, queue) ≡ some r)
        × Answer to r
  unfolding bfs_loop contains
  bfs_loop-ends to zero previous seen queue i w le = absurd (omega arith)
  bfs_loop-ends to (suc fuel) previous seen [] i w le = (
    none,
    refl,
    λ path r.
        let e : false ≡ true = w (closed_end previous seen i r i.known.source) in
        absurd (ground arith),
  )
  bfs_loop-ends to (suc fuel) previous seen (id ∷ queue) i w le = elim (Bool-cases (id == to)) [
    | inl found ↦
        let (p, e, r) =
          reconstruct_path-Route m from previous seen to i.known (i.waits to (ground arith)) in
        (some p, rw (found, e) refl, r)
    | inr other ↦
        let ns = neighbors m id in
        let (r, e, ans) =
          bfs_loop-ends to fuel (visit_neighbors id ns (previous, seen, queue)).0
            (visit_neighbors id ns (previous, seen, queue)).1
            (visit_neighbors id ns (previous, seen, queue)).2 (Inv-expand id previous seen queue i)
            (λ h. ground (
              arith,
              seen-visit id ns previous seen queue to,
              queue-visit id ns previous seen queue to,
            ))
            (omega (
              arith,
              visit-work (all_neighbors m) id ns previous seen queue (neighbors-within m id),
            )) in
        (r, rw other e, ans)
  ]

  pub bfs_loop-Answer :
      (to : String)
      → (r : Option (List String)) × (bfs_loop m from to (enough m) ([], from ∷ [], from ∷ [])
          ≡ some r)
        × Answer to r
  unfolding enough
  bfs_loop-Answer to =
      bfs_loop-ends to (enough m) [] (from ∷ []) (from ∷ []) Inv-start (λ h. h)
        (omega (arith, missing-le (all_neighbors m) (from ∷ [])))
