-- ===== src/Command/Topology/Acyclic.antt =====
-- The search for a cycle ends: it comes back from a node on the way, or every way from the ids that
-- it leaves as visited ends.
use drone_swarm_lab.Base.{
  ℕ, zero, suc, ◌<◌, String, ◌≡◌, refl, subst, Bool, true, false, not, ◌==◌, eq_iff, Option, none,
  some, List, [], ◌∷◌, arith, map, filter, contains, contains-append, length, Bool-cases, inl, inr,
  false≢true,
}
use drone_swarm_lab.Connectivity.{Adjacency, neighbors, all_neighbors}
use drone_swarm_lab.Connectivity.Mesh.{has_edge}
use drone_swarm_lab.Connectivity.Visits.{neighbors-within}
use drone_swarm_lab.Command.Topology.{sort_ids}
use drone_swarm_lab.Command.Topology.Links.{contains-sort_ids}
use drone_swarm_lab.Command.Topology.Search.{missing, missing-le}
use drone_swarm_lab.Command.Topology.Cycles.{
  Marks, dfs_children, leave, dfs_cycle, find_cycle, graph_ids,
}
use drone_swarm_lab.Command.Topology.Ways.{
  Way, one, Way-snoc, Grounded, grounded, missing-cons, filter-top,
}

module _ (m : Adjacency) where
  abbrev pub Good : List String → Type 0
  Good visited = (v : String) → contains visited v ≡ true → Grounded (has_edge m) v

  abbrev pub Cycle : Type 0
  Cycle = (v : String) × Way (has_edge m) v v

  -- What a search over the given ids leaves behind.
  Post : List String → Marks → Bool × Marks → Type 0
  Post ids (visiting, visited) (true, s) = Cycle
  Post ids (visiting, visited) (false, (visiting', visited')) =
      (visiting' ≡ visiting)
      × Good visited'
      × ((v : String) → contains ids v ≡ true → contains visited' v ≡ true)
      × ((v : String) → contains visited v ≡ true → contains visited' v ≡ true)

  abbrev Searches : (String → Marks → Option (Bool × Marks)) → List String → String → Type 0
  Searches dfs visiting id =
      (visited : List String)
      → Good visited
      → (r : Bool × Marks) × (dfs id (visiting, visited) ≡ some r)
        × Post (id ∷ []) (visiting, visited) r

  -- What a search of more children sees is what the whole search sees.
  Post-widen :
      (c : String) (ns visiting visited visited' : List String) (r : Bool × Marks)
      → ((v : String) → contains (c ∷ []) v ≡ true → contains visited' v ≡ true)
      → ((v : String) → contains visited v ≡ true → contains visited' v ≡ true)
      → Post ns (visiting, visited') r
      → Post (c ∷ ns) (visiting, visited) r
  unfolding contains Post
  Post-widen c ns visiting visited visited' (true, s) new old cycle = cycle
  Post-widen c ns visiting visited visited' (false, s) new old (same2, good2, new2, old2) =
      (same2, good2, λ v h. ground (arith, new v, new2 v, old2 v), λ v h. old2 v (old v h))

  next_child :
      (dfs : String → Marks → Option (Bool × Marks)) (c : String)
      (visiting ns visited : List String)
      → ((visited' : List String)
          → Good visited'
          → (r : Bool × Marks) × (dfs_children dfs ns (visiting, visited') ≡ some r)
            × Post ns (visiting, visited') r)
      → (r : Bool × Marks) × (dfs c (visiting, visited) ≡ some r)
        × Post (c ∷ []) (visiting, visited) r
      → (r : Bool × Marks) × (dfs_children dfs (c ∷ ns) (visiting, visited) ≡ some r)
        × Post (c ∷ ns) (visiting, visited) r
  unfolding dfs_children Post
  next_child dfs c visiting ns visited later ((true, s), e, cycle) =
      ((true, s), rw (dfs_children, e) refl, cycle)
  next_child dfs c visiting ns visited later ((false, (v', visited')), e, (same, good, new, old)) =
      let (r, e2, post) = later visited' good in
      (r, rw (dfs_children, e, same) e2, Post-widen c ns visiting visited visited' r new old post)

  dfs_children-Post :
      (dfs : String → Marks → Option (Bool × Marks)) (visiting ns visited : List String)
      → ((c : String) → contains ns c ≡ true → Searches dfs visiting c)
      → Good visited
      → (r : Bool × Marks) × (dfs_children dfs ns (visiting, visited) ≡ some r)
        × Post ns (visiting, visited) r
  unfolding dfs_children contains Post
  dfs_children-Post dfs visiting [] visited ih good =
      ((false, (visiting, visited)), refl, (refl, good, λ v h. absurd (false≢true h), λ v h. h))
  dfs_children-Post dfs visiting (c ∷ ns) visited ih good =
      next_child dfs c visiting ns visited
        (λ visited' good'.
          dfs_children-Post dfs visiting ns visited' (λ k h. ih k (ground arith)) good')
        (ih c (ground (arith, eq_iff c c)) visited good)

  child_within : (id c : String) → has_edge m id c ≡ true → contains (graph_ids m) c ≡ true
  unfolding graph_ids
  child_within id c h =
      ground
        (arith, neighbors-within m id c, contains-append (map (λ e. e.0) m) (all_neighbors m) c)

  leave-Post :
      (id : String) (visiting visited : List String)
      → contains visiting id ≡ false
      → (o : Option (Bool × Marks)) (r : Bool × Marks) → o ≡ some r
      → Post (sort_ids (neighbors m id)) (id ∷ visiting, visited) r
      → (r' : Bool × Marks) × (leave id o ≡ some r') × Post (id ∷ []) (visiting, visited) r'
  unfolding leave Post contains
  leave-Post id visiting visited fresh o (true, s) e cycle = ((true, s), rw (leave, e) refl, cycle)
  leave-Post id visiting visited fresh o (false, (visiting', visited')) e (same, good, new, old) = (
    (false, (filter (λ v. not (v == id)) visiting', id ∷ visited')),
    rw (leave, e) refl,
    (
      rw same (filter-top id visiting fresh),
      λ v h. elim (Bool-cases (id == v)) [
        | inl here ↦
            subst (λ w. Grounded (has_edge m) w) ((eq_iff id v).0 here)
              (grounded (λ c edge. good c (new c (rw (contains-sort_ids (neighbors m id) c) edge))))
        | inr there ↦ good v (ground arith)
      ],
      λ v h. ground arith,
      λ v h. ground (arith, old v),
    ),
  )

  Way-onward :
      (id c v : String) (visiting : List String)
      → has_edge m id c ≡ true
      → (contains visiting v ≡ true → Way (has_edge m) v id)
      → contains (id ∷ visiting) v ≡ true
      → Way (has_edge m) v c
  unfolding contains
  Way-onward id c v visiting edge ways h = elim (Bool-cases (id == v)) [
    | inl here ↦ subst (λ w. Way (has_edge m) w c) ((eq_iff id v).0 here) (one edge)
    | inr there ↦ Way-snoc (ways (ground arith)) edge
  ]

  -- One call, when the calls for the children keep the promise.
  dfs_cycle-step :
      (fuel : ℕ) (id : String) (visiting visited : List String)
      → ((v : String) → contains visiting v ≡ true → Way (has_edge m) v id)
      → (contains visiting id ≡ false
          → (c : String) → has_edge m id c ≡ true
          → Searches (dfs_cycle m fuel) (id ∷ visiting) c)
      → Good visited
      → (r : Bool × Marks) × (dfs_cycle m (suc fuel) id (visiting, visited) ≡ some r)
        × Post (id ∷ []) (visiting, visited) r
  unfolding Post contains dfs_cycle
  dfs_cycle-step fuel id visiting visited ways ih good = elim (Bool-cases (contains visited id)) [
    | inl done ↦ (
      (false, (visiting, visited)),
      rw (dfs_cycle, done) refl,
      (
        refl,
        good,
        λ v h. subst (λ w. contains visited w ≡ true) ((eq_iff id v).0 (ground arith)) done,
        λ v h. h,
      ),
    )
    | inr todo ↦ elim (Bool-cases (contains visiting id)) [
      | inl back ↦
          ((true, (visiting, visited)), rw (dfs_cycle, todo, back) refl, (id, ways id back))
      | inr fresh ↦
          let children = sort_ids (neighbors m id) in
          let (r, e1, post) =
            dfs_children-Post (dfs_cycle m fuel) (id ∷ visiting) children visited
              (λ c h. ih fresh c (rw (contains-sort_ids (neighbors m id) c) at h)) good in
          let (r', e2, post') =
            leave-Post id visiting visited fresh
              (dfs_children (dfs_cycle m fuel) children (id ∷ visiting, visited)) r e1 post in
          (r', rw (dfs_cycle, todo, fresh) e2, post')
    ]
  ]

  dfs_cycle-Post :
      (fuel : ℕ) (id : String) (visiting : List String)
      → contains (graph_ids m) id ≡ true
      → missing (graph_ids m) visiting < fuel
      → ((v : String) → contains visiting v ≡ true → Way (has_edge m) v id)
      → Searches (dfs_cycle m fuel) visiting id
  dfs_cycle-Post zero id visiting inside lt ways visited good = absurd (omega arith)
  dfs_cycle-Post (suc fuel) id visiting inside lt ways visited good =
      dfs_cycle-step fuel id visiting visited ways
        (λ fresh c edge.
          dfs_cycle-Post fuel c (id ∷ visiting) (child_within id c edge)
            (omega (arith, missing-cons (graph_ids m) visiting id inside fresh))
            (λ v h. Way-onward id c v visiting edge (ways v) h))
        good

  -- The answer of the loop over the starts.
  abbrev pub Verdict : List String → Option String → Type 0
  Verdict starts none = (v : String) → contains starts v ≡ true → Grounded (has_edge m) v
  Verdict starts (some _) = Cycle

  find_cycle-step :
      (fuel : ℕ) (start : String) (starts visited : List String)
      → ((visited' : List String)
          → Good visited'
          → (r : Option String) × (find_cycle m fuel starts ([], visited') ≡ some r)
            × Verdict starts r)
      → (r : Bool × Marks) × (dfs_cycle m fuel start ([], visited) ≡ some r)
        × Post (start ∷ []) ([], visited) r
      → Good visited
      → (r : Option String) × (find_cycle m fuel (start ∷ starts) ([], visited) ≡ some r)
        × Verdict (start ∷ starts) r
  unfolding find_cycle Post contains
  find_cycle-step fuel start starts visited later ((true, s), e, cycle) good =
      (some start, rw (find_cycle, e) refl, cycle)
  find_cycle-step fuel start starts visited later ((false, (v', visited')), e, post) good =
      let (same, good', new, old) = post in
      let (r, e2, verdict) = later visited' good' in
      (r, rw (find_cycle, e, same) e2, widen good' new r verdict)
    where
      widen :
          Good visited'
          → ((v : String) → contains (start ∷ []) v ≡ true → contains visited' v ≡ true)
          → (r : Option String) → Verdict starts r
          → Verdict (start ∷ starts) r
      widen good2 new2 none verdict = λ v h. elim (Bool-cases (start == v)) [
        | inl here ↦ good2 v (new2 v (rw here refl))
        | inr there ↦ verdict v (ground arith)
      ]
      widen good2 new2 (some id) cycle = cycle

  pub find_cycle-Verdict :
      (fuel : ℕ) (starts visited : List String)
      → ((v : String) → contains starts v ≡ true → contains (graph_ids m) v ≡ true)
      → length (graph_ids m) < fuel
      → Good visited
      → (r : Option String) × (find_cycle m fuel starts ([], visited) ≡ some r) × Verdict starts r
  unfolding find_cycle contains
  find_cycle-Verdict fuel [] visited inside lt good = (none, refl, λ v h. absurd (false≢true h))
  find_cycle-Verdict fuel (start ∷ starts) visited inside lt good =
      find_cycle-step fuel start starts visited
        (λ visited' good'.
          find_cycle-Verdict fuel starts visited' (λ v h. inside v (ground arith)) lt good')
        (dfs_cycle-Post fuel start [] (inside start (ground (arith, eq_iff start start)))
          (omega (arith, lt, missing-le (graph_ids m) [])) (λ v h. absurd (false≢true h)) visited
          good)
        good
