-- ===== src/Command/Topology/Paths.antt =====
-- The table of predecessors: following it from a node that has been seen leads back to the start
-- over edges of the graph.
use drone_swarm_lab.Base.{
  ℕ, zero, suc, ◌≤◌, ◌<◌, String, ◌≡◌, refl, subst, true, false, ◌==◌, eq_iff, eq_refl, none, some,
  List, [], ◌∷◌, ◌++◌, arith, contains, contains-append, length, Bool-cases, inl, inr,
}
use drone_swarm_lab.HashMap.{HashMap, get, insert}
use drone_swarm_lab.HashMap.Laws.{get-insert}
use drone_swarm_lab.Connectivity.{Adjacency}
use drone_swarm_lab.Connectivity.Mesh.{has_edge}
use drone_swarm_lab.Command.Topology.{follow, reconstruct_path, visit_neighbors}

-- A path in the graph, with its ends.
pub data Route (m : Adjacency) : String → String → List String → Type 0 where
  arrived : {u : String} → Route m u u (u ∷ [])
  hop :
      {u v w : String} {path : List String}
      → has_edge m u v ≡ true
      → Route m v w path
      → Route m u w (u ∷ path)

-- Predecessors lead from a node to the start, in so many steps.
pub data Chain (m : Adjacency) (from : String) (previous : HashMap String)
    : ℕ → String → Type 0 where
  start : Chain m from previous 0 from
  back :
      {n : ℕ} {u v : String}
      → get v previous ≡ some u
      → (v == from) ≡ false
      → has_edge m u v ≡ true
      → Chain m from previous n u
      → Chain m from previous (suc n) v

module _ (m : Adjacency) (from : String) where
  pub follow-Route :
      (previous : HashMap String) (fuel : ℕ) {k : ℕ} {cursor to : String} {path : List String}
      → Chain m from previous k cursor
      → Route m cursor to path
      → k < fuel
      → (p : List String) × (follow from previous fuel cursor path ≡ some p) × Route m from to p
  unfolding follow
  follow-Route previous zero c r lt = absurd (omega arith)
  follow-Route previous (suc fuel) {path = path} start r lt = (path, rw (eq_refl from) refl, r)
  follow-Route previous (suc fuel) (back e ne edge c) r lt =
      rw (ne, e) (follow-Route previous fuel c (hop edge r) (omega arith))

  Chain-insert :
      (previous : HashMap String) (n p : String) {k : ℕ} {v : String}
      → get n previous ≡ none
      → Chain m from previous k v
      → Chain m from (insert n p previous) k v
  Chain-insert previous n p h start = start
  Chain-insert previous n p h (back {n = k} {u = u} {v = v} e ne edge c) =
      back (ground (arith, get-insert n v p previous, eq_iff n v)) ne edge
        (Chain-insert previous n p h c)

  -- Each node that has been seen has a chain, and no other has a predecessor.
  pub record Known (previous : HashMap String) (seen : List String) : Type 0 where
    pub source : contains seen from ≡ true
    pub chains :
        (v : String)
        → contains seen v ≡ true
        → (k : ℕ) × Chain m from previous k v × (k ≤ length previous)
    pub unknown : (v : String) → contains seen v ≡ false → get v previous ≡ none

  length-insert :
      (n p : String) (t : HashMap String) → get n t ≡ none → length (insert n p t) ≡ suc (length t)
  unfolding insert get
  length-insert n p [] h = refl
  length-insert n p ((k, v) ∷ t) h = ground (arith, length-insert n p t)

  pub Known-start : Known [] (from ∷ [])
  unfolding contains get
  Known-start = record {
    source = rw (eq_refl from) refl;
    chains = λ v h. (0, only v (ground arith), omega arith);
    unknown = λ v h. refl;
  }
    where
      only : (v : String) → (from == v) ≡ true → Chain m from [] 0 v
      only v h = subst (λ w. Chain m from [] 0 w) ((eq_iff from v).0 h) start

  Known-see :
      (previous : HashMap String) (seen : List String) (id n : String)
      → contains seen id ≡ true
      → contains seen n ≡ false
      → has_edge m id n ≡ true
      → Known previous seen
      → Known (insert n id previous) (seen ++ n ∷ [])
  unfolding contains
  Known-see previous seen id n here fresh edge known = record {
    source = ground (arith, contains-append seen (n ∷ []) from, known.source);
    chains = λ v h. elim (Bool-cases (contains seen v)) [
      | inl old ↦
          let (k, c, le) = known.chains v old in
          (k, Chain-insert previous n id none_yet c, omega (arith, longer))
      | inr new ↦
          let (k, c, le) = known.chains id here in
          (suc k, last v (ground (arith, contains-append seen (n ∷ []) v)) c, omega (arith, longer))
    ];
    unknown = λ v h.
        ground
          (arith, contains-append seen (n ∷ []) v, get-insert n v id previous, known.unknown v);
  }
    where
      none_yet : get n previous ≡ none
      none_yet = known.unknown n fresh

      longer : length (insert n id previous) ≡ suc (length previous)
      longer = length-insert n id previous none_yet

      last :
          (v : String) {k : ℕ}
          → (n == v) ≡ true
          → Chain m from previous k id
          → Chain m from (insert n id previous) (suc k) v
      last v {k} same c =
          subst (λ w. Chain m from (insert n id previous) (suc k) w) ((eq_iff n v).0 same)
            (back (ground (arith, get-insert n n id previous, eq_iff n n))
              (ground (arith, eq_iff n from, known.source)) edge
              (Chain-insert previous n id none_yet c))

  pub Known-visit :
      (id : String) (ns : List String) (previous : HashMap String) (seen queue : List String)
      → contains seen id ≡ true
      → ((n : String) → contains ns n ≡ true → has_edge m id n ≡ true)
      → Known previous seen
      → Known
          (visit_neighbors id ns (previous, seen, queue)).0
          (visit_neighbors id ns (previous, seen, queue)).1
  unfolding visit_neighbors contains
  Known-visit id [] previous seen queue here edges known = known
  Known-visit id (n ∷ ns) previous seen queue here edges known =
      elim (Bool-cases (contains seen n)) [
        | inl old ↦
            rw old
              (Known-visit id ns previous seen queue here (λ k h. edges k (ground arith)) known)
        | inr fresh ↦ rw fresh (
            Known-visit id ns (insert n id previous) (seen ++ n ∷ []) (queue ++ n ∷ [])
              (ground (arith, contains-append seen (n ∷ []) id)) (λ k h. edges k (ground arith))
              (Known-see previous seen id n here fresh (edges n (ground (arith, eq_iff n n)))
                known))
      ]

  -- From a node that has been seen, the path back is found with the fuel given.
  pub reconstruct_path-Route :
      (previous : HashMap String) (seen : List String) (to : String)
      → Known previous seen
      → contains seen to ≡ true
      → (p : List String) × (reconstruct_path from to previous ≡ some p) × Route m from to p
  unfolding reconstruct_path
  reconstruct_path-Route previous seen to known h =
      let (k, c, le) = known.chains to h in
      follow-Route previous (suc (length previous)) c arrived (omega arith)
