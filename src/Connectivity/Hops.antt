-- ===== src/Connectivity/Hops.antt =====
-- The two searches end with the fuel that they are given, and what they find.
use drone_swarm_lab.Base.{
  ℕ, zero, suc, ◌+◌, ◌≤◌, ◌<◌, String, ◌≡◌, refl, subst, Bool, true, false, Option, none, some,
  List, [], ◌∷◌, arith, eq_iff, nat_eq_iff, ◌==◌, inl, inr, ◌⊎◌, Bool-cases, length, contains,
}
use drone_swarm_lab.HashMap.{HashMap, get}
use drone_swarm_lab.Reallocation.{ConnectivitySnapshot}
use drone_swarm_lab.Connectivity.{
  Queue, Adjacency, Floats, neighbors, visit_all, all_neighbors, hop_loop, reach_loop, enough,
  build_adjacency, hop_count_between, reachability_from_base,
}
use drone_swarm_lab.Connectivity.Visits.{
  keys, enqueue_all-keys, unseen, visit_all-work, neighbors-within,
}
use drone_swarm_lab.Connectivity.Shortest.{
  Walk, has_entry, Inv, Inv-start, Inv-reached, Inv-expand, has_entry-visit_all, get-visit_all,
  Ascending-low, relabel, relabel-cases,
}

unseen-le : (xs : List String) (m : HashMap ℕ) → unseen xs m ≤ length xs
unfolding unseen
unseen-le [] m = omega arith
unseen-le (x ∷ xs) m = ground (arith, unseen-le xs m)

module _ (a : Adjacency) (src : String) where
  -- No shorter walk than the one of `h` hops leads to `v`.
  abbrev Shortest : String → ℕ → Type 0
  Shortest v h = Walk a src h v × ((n : ℕ) → Walk a src n v → h ≤ n)

  work-expand :
      (x : String) (h : ℕ) (m : HashMap ℕ) (q : Queue)
      → unseen (all_neighbors a) (visit_all (neighbors a x) (suc h) (m, q)).0
          + length (visit_all (neighbors a x) (suc h) (m, q)).1
        ≤ unseen (all_neighbors a) m + length q
  work-expand x h m q =
      visit_all-work (all_neighbors a) (neighbors a x) (suc h) m q (neighbors-within a x)

  -- With an empty queue each walk ends at a node that has a label within its hops.
  closed_end :
      (level : ℕ) (m : HashMap ℕ)
      → Inv a src level m []
      → {n : ℕ} {v : String} → Walk a src n v
      → (k : ℕ) × (get v m ≡ some k) × (k ≤ n)
  unfolding has_entry
  closed_end level m i {n} {v} w =
      elim (Inv-reached a src level (suc n) m [] i (λ u k e. ground arith) w) [
        | inl found ↦ found
        | inr past ↦ absurd (omega arith)
      ]

  -- A node is taken from the queue with the length of a shortest walk to it.
  popped-Shortest :
      (level h : ℕ) (x : String) (m : HashMap ℕ) (q : Queue)
      → Inv a src level m ((x, h) ∷ q)
      → Shortest x h
  unfolding has_entry
  popped-Shortest level h x m q i =
      let label : get x m ≡ some h = i.queued x h (ground (arith, eq_iff x x, nat_eq_iff h h)) in
      let low = λ (u : String) (k : ℕ) (e : has_entry ((x, h) ∷ q) u k ≡ true).
        Ascending-low h (suc level) ((x, h) ∷ q) u k (omega arith, i.ascending.1) e in
      (
        i.walked x h label,
        λ n w. elim (Inv-reached a src level h m ((x, h) ∷ q) i low w) [
          | inl (k, e, near) ↦ ground arith
          | inr past ↦ past
        ],
      )

  -- What the target's label has to do with the queue, while the search goes on.
  abbrev Waits : String → HashMap ℕ → Queue → Type 0
  Waits to m q = (k : ℕ) → get to m ≡ some k → has_entry q to k ≡ true

  Waits-expand :
      (to x : String) (h : ℕ) (m : HashMap ℕ) (q : Queue)
      → (x == to) ≡ false
      → Waits to m ((x, h) ∷ q)
      → Waits to
          (visit_all (neighbors a x) (suc h) (m, q)).0
          (visit_all (neighbors a x) (suc h) (m, q)).1
  unfolding has_entry
  Waits-expand to x h m q other w k e =
      elim (relabel-cases (get to m) ns_to (suc h) k (rw label at e)) [
        | inl old ↦ ground (arith, w k old, has_entry-visit_all (neighbors a x) (suc h) m q to k)
        | inr (unseen_to, edge, z) ↦
            ground
              (arith, has_entry-visit_all (neighbors a x) (suc h) m q to k, nat_eq_iff (suc h) k)
      ]
    where
      ns_to : Bool
      ns_to = contains (neighbors a x) to

      label : get to (visit_all (neighbors a x) (suc h) (m, q)).0 ≡ relabel (get to m) ns_to (suc h)
      label = get-visit_all (neighbors a x) (suc h) m q to

  abbrev Answer : String → Option ℕ → Type 0
  Answer to none = (n : ℕ) → ¬ Walk a src n to
  Answer to (some h) = Shortest to h

  hop_loop-ends :
      (to : String) (fuel level : ℕ) (m : HashMap ℕ) (q : Queue)
      → Inv a src level m q
      → Waits to m q
      → unseen (all_neighbors a) m + length q < fuel
      → (r : Option ℕ) × (hop_loop a to fuel (keys m, q) ≡ some r) × Answer to r
  unfolding hop_loop has_entry
  hop_loop-ends to zero level m q i w le = absurd (omega arith)
  hop_loop-ends to (suc fuel) level m [] i w le = (
    none,
    refl,
    λ n walk. let (k, e, near) = closed_end level m i walk in absurd (ground (arith, w k)),
  )
  hop_loop-ends to (suc fuel) level m ((x, h) ∷ q) i w le = elim (Bool-cases (x == to)) [
    | inl found ↦ (
      some h,
      rw found refl,
      subst (λ v. Shortest v h) ((eq_iff x to).0 found) (popped-Shortest level h x m q i),
    )
    | inr other ↦
        let (r, e, ans) =
          hop_loop-ends to fuel h (visit_all (neighbors a x) (suc h) (m, q)).0
            (visit_all (neighbors a x) (suc h) (m, q)).1 (Inv-expand a src level h x m q i)
            (Waits-expand to x h m q other w) (omega (arith, work-expand x h m q)) in
        (r, rw (other, enqueue_all-keys (neighbors a x) (suc h) m q) e, ans)
  ]

  reach_loop-ends :
      (fuel level : ℕ) (m : HashMap ℕ) (q : Queue)
      → Inv a src level m q
      → unseen (all_neighbors a) m + length q < fuel
      → (r : HashMap ℕ) × (reach_loop a fuel (m, q) ≡ some r) × (l : ℕ) × Inv a src l r []
  unfolding reach_loop
  reach_loop-ends zero level m q i le = absurd (omega arith)
  reach_loop-ends (suc fuel) level m [] i le = (m, refl, level, i)
  reach_loop-ends (suc fuel) level m ((x, h) ∷ q) i le =
      reach_loop-ends fuel h (visit_all (neighbors a x) (suc h) (m, q)).0
        (visit_all (neighbors a x) (suc h) (m, q)).1 (Inv-expand a src level h x m q i)
        (omega (arith, work-expand x h m q))

module _ {F : Type 0} (floats : Floats F) (s : ConnectivitySnapshot F) where
  search_answers :
      (from to : String)
      → (r : Option ℕ) × (hop_count_between floats s from to ≡ some r)
        × Answer (build_adjacency floats s) from to r
  unfolding hop_count_between enough get has_entry
  search_answers from to =
      let a = build_adjacency floats s in
      hop_loop-ends a from to (enough a) 0 ((from, 0) ∷ []) ((from, 0) ∷ []) (Inv-start a from)
        (λ k e. ground (arith, nat_eq_iff 0 k))
        (omega (arith, unseen-le (all_neighbors a) ((from, 0) ∷ [])))

  ends_of_found :
      (from to : String) (r : Option ℕ)
      → hop_count_between floats s from to ≡ some r
      → Answer (build_adjacency floats s) from to r
      → (hop_count_between floats s from to ≡ some none)
        ⊎ ((h : ℕ) × (hop_count_between floats s from to ≡ some (some h))
            × Walk (build_adjacency floats s) from h to)
  ends_of_found from to none e ans = inl e
  ends_of_found from to (some h) e ans = inr (h, e, ans.0)

  shortest_of_found :
      (from to : String) {n : ℕ} (r : Option ℕ)
      → hop_count_between floats s from to ≡ some r
      → Answer (build_adjacency floats s) from to r
      → Walk (build_adjacency floats s) from n to
      → (h : ℕ) × (hop_count_between floats s from to ≡ some (some h))
        × Walk (build_adjacency floats s) from h to
        × (h ≤ n)
  shortest_of_found from to {n} none e ans w = absurd (ans n w)
  shortest_of_found from to {n} (some h) e ans w = (h, e, ans.0, ans.1 n w)

  -- `hop_count_between` ends, whatever the mesh: it returns the length of a walk that there is, or
  -- that there is none.
  pub hop_count_between_ends :
      (from to : String)
      → (hop_count_between floats s from to ≡ some none)
        ⊎ ((h : ℕ) × (hop_count_between floats s from to ≡ some (some h))
            × Walk (build_adjacency floats s) from h to)
  hop_count_between_ends from to =
      let (r, e, ans) = search_answers from to in ends_of_found from to r e ans

  -- If some walk of `n` hops leads from one node to the other, then `hop_count_between` returns
  -- the length of a walk, and it is at most `n`.
  pub hop_count_between_shortest :
      (from to : String) {n : ℕ}
      → Walk (build_adjacency floats s) from n to
      → (h : ℕ) × (hop_count_between floats s from to ≡ some (some h))
        × Walk (build_adjacency floats s) from h to
        × (h ≤ n)
  hop_count_between_shortest from to {n} w =
      let (r, e, ans) = search_answers from to in shortest_of_found from to r e ans w

  reach_answers :
      (r : HashMap ℕ) × (reachability_from_base floats s ≡ some r)
      × (l : ℕ) × Inv (build_adjacency floats s) s.base_id l r []
  unfolding reachability_from_base enough
  reach_answers =
      let a = build_adjacency floats s in
      reach_loop-ends a s.base_id (enough a) 0 ((s.base_id, 0) ∷ []) ((s.base_id, 0) ∷ [])
        (Inv-start a s.base_id) (omega (arith, unseen-le (all_neighbors a) ((s.base_id, 0) ∷ [])))

  -- If some walk of `n` hops leads from the base to a node, then `reachability_from_base` returns
  -- a table in which the node has a number of hops that is at most `n` and is the length of a walk.
  pub reachability_from_base_reaches :
      {n : ℕ} {v : String}
      → Walk (build_adjacency floats s) s.base_id n v
      → (r : HashMap ℕ) × (reachability_from_base floats s ≡ some r)
        × (k : ℕ) × (get v r ≡ some k)
        × (k ≤ n)
        × Walk (build_adjacency floats s) s.base_id k v
  reachability_from_base_reaches {n} {v} w =
      let (r, e, l, i) = reach_answers in
      let (k, label, near) = closed_end (build_adjacency floats s) s.base_id l r i w in
      (r, e, k, label, near, i.walked v k label)

  -- `reachability_from_base` ends, whatever the mesh.
  pub reachability_from_base_ends : (r : HashMap ℕ) × (reachability_from_base floats s ≡ some r)
  reachability_from_base_ends = let (r, e, l, i) = reach_answers in (r, e)
