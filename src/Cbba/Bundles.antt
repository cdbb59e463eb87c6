-- ===== src/Cbba/Bundles.antt =====
-- The size of the bundles.
use drone_swarm_lab.Base.{
  ℕ, ◌+◌, ◌≤◌, String, ◌≡◌, refl, sym, ap, subst, ◌∙◌, eq_iff, false, Option, none, some, List, [],
  ◌∷◌, ◌++◌, arith, leb, length, length-append, if_both, Bool-cases, Option-cases, inl, inr,
}
use drone_swarm_lab.HashMap.{HashMap, get, insert}
use drone_swarm_lab.HashMap.Laws.{AllEntries, AllEntries-insert, get-insert, AllEntries-modify}
use drone_swarm_lab.Types.{Task}
use drone_swarm_lab.Reallocation.{AllocationAgent}
use drone_swarm_lab.Cbba.{
  BidFloats, CbbaAllocator, bundle_of, or_default, best_task, win_task, build_bundle, build_all,
  build_bundles,
}

-- No bundle has more tasks than the limit.
abbrev pub IsBounded : ℕ → HashMap (List String) → Type 0
IsBounded limit m = AllEntries (λ id bundle. length bundle ≤ limit) m

or_default-IsBounded :
    (limit : ℕ) (id : String) (m : HashMap (List String))
    → IsBounded limit m
    → IsBounded limit (or_default id m)
unfolding or_default
or_default-IsBounded limit id m h = elim (Option-cases (get id m)) [
  | inl gone ↦
      rw (or_default, gone)
        (AllEntries-insert (λ _ bundle. length bundle ≤ limit) id [] m (omega arith) h)
  | inr (bundle, known) ↦ rw (or_default, known) h
]

module _ {F : Type 0} (fl : BidFloats F) where
  win_task-IsBounded :
      (limit : ℕ) (agent : AllocationAgent F) (best : F × Option String) (c : CbbaAllocator F)
      → ((bundle : List String) → get agent.id c.bundles ≡ some bundle → length bundle + 1 ≤ limit)
      → IsBounded limit c.bundles
      → IsBounded limit (win_task fl agent best c).bundles
  unfolding win_task
  win_task-IsBounded limit agent (score, none) c room h = h
  win_task-IsBounded limit agent (score, some task_id) c room h =
      elim (Bool-cases (fl.floats.lt fl.neg_infinity score)) [
        | inr low ↦ rw low h
        | inl won ↦ rw won (
            AllEntries-modify (λ _ bundle. length bundle ≤ limit) agent.id
              (λ bundle. bundle ++ task_id ∷ []) c.bundles
              (λ bundle known le.
                omega (arith, room bundle known, length-append bundle (task_id ∷ [])))
              h)
      ]

  room_of :
      (limit : ℕ) (id : String) (m : HashMap (List String)) (bundle : List String)
      → leb limit (length (bundle_of id m)) ≡ false
      → get id (or_default id m) ≡ some bundle
      → length bundle + 1 ≤ limit
  unfolding or_default bundle_of
  room_of limit id m bundle small e = elim (Option-cases (get id m)) [
    | inl gone ↦
        let fresh : get id (insert id [] m) ≡ some bundle = rw (or_default, gone) at e in
        let empty : length (bundle_of id m) ≡ 0 = rw (bundle_of, gone) refl in
        ground (arith, get-insert id id [] m, eq_iff id id)
    | inr (old, known) ↦
        let same : get id m ≡ some bundle = rw (or_default, known) at e in
        let size : length (bundle_of id m) ≡ length old = rw (bundle_of, known) refl in ground arith
  ]

  build_bundle-IsBounded :
      (tasks : List (Task F)) (agent : AllocationAgent F) (c : CbbaAllocator F)
      → IsBounded c.config.max_bundle_size c.bundles
      → IsBounded c.config.max_bundle_size (build_bundle fl tasks agent c).bundles
  unfolding build_bundle
  build_bundle-IsBounded tasks agent c h =
      let limit = c.config.max_bundle_size in
      let entered : CbbaAllocator F = record c { bundles = or_default agent.id c.bundles } in
      let kept = or_default-IsBounded limit agent.id c.bundles h in
      elim (Bool-cases (leb limit (length (bundle_of agent.id c.bundles)))) [
        | inl full ↦ rw (build_bundle, full) kept
        | inr small ↦
            rw (build_bundle, small)
              (win_task-IsBounded limit agent
                (best_task fl entered agent (bundle_of agent.id c.bundles) tasks
                  (fl.neg_infinity, none))
                entered (λ bundle e. room_of limit agent.id c.bundles bundle small e) kept)
      ]

  build_bundle-config :
      (tasks : List (Task F)) (agent : AllocationAgent F) (c : CbbaAllocator F)
      → (build_bundle fl tasks agent c).config ≡ c.config
  unfolding build_bundle
  build_bundle-config tasks agent c =
      let entered : CbbaAllocator F = record c { bundles = or_default agent.id c.bundles } in
      elim (Bool-cases (leb c.config.max_bundle_size (length (bundle_of agent.id c.bundles)))) [
        | inl full ↦ rw (build_bundle, full) refl
        | inr small ↦
            rw (build_bundle, small)
              (win_task-config
                (best_task fl entered agent (bundle_of agent.id c.bundles) tasks
                  (fl.neg_infinity, none))
                entered)
      ]
    where
      win_task-config :
          (best : F × Option String) (d : CbbaAllocator F)
          → (win_task fl agent best d).config ≡ d.config
      win_task-config (score, none) d = unfold win_task in refl
      win_task-config (score, some id) d =
          unfold win_task in
          elim (Bool-cases (fl.floats.lt fl.neg_infinity score)) [
            | inl won ↦ rw won refl
            | inr low ↦ rw low refl
          ]

  build_all-IsBounded :
      (limit : ℕ) (tasks : List (Task F)) (agents : List (AllocationAgent F)) (c : CbbaAllocator F)
      → c.config.max_bundle_size ≡ limit
      → IsBounded limit c.bundles
      → IsBounded limit (build_all fl tasks agents c).bundles
  unfolding build_all
  build_all-IsBounded limit tasks [] c e h = h
  build_all-IsBounded limit tasks (agent ∷ agents) c e h =
      build_all-IsBounded limit tasks agents (build_bundle fl tasks agent c)
        (ap (λ config. config.max_bundle_size) (build_bundle-config tasks agent c) ∙ e)
        (subst (λ n. IsBounded n (build_bundle fl tasks agent c).bundles) e
          (build_bundle-IsBounded tasks agent c (subst (λ n. IsBounded n c.bundles) (sym e) h)))

  -- If no bundle has more tasks than max_bundle_size, then none has after build_bundles.
  pub build_bundles-IsBounded :
      (agents : List (AllocationAgent F)) (tasks : List (Task F)) (c : CbbaAllocator F)
      → IsBounded c.config.max_bundle_size c.bundles
      → IsBounded c.config.max_bundle_size (build_bundles fl agents tasks c).bundles
  unfolding build_bundles
  build_bundles-IsBounded agents tasks c h =
      if_both (λ (d : CbbaAllocator F). IsBounded c.config.max_bundle_size d.bundles) c.converged h
        (build_all-IsBounded c.config.max_bundle_size tasks agents c refl h)
