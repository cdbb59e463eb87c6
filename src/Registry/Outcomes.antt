-- ===== src/Registry/Outcomes.antt =====
-- task_registry.rs: the results of `assign` and of the transitions, errors included.
use drone_swarm_lab.Base.{
  String, ◌≡◌, ◌∙◌, subst, ◌⊎◌, inl, inr, true, false, not, ◌||◌, none, some, arith, ok, err,
  is_some, eq_refl, Option-cases, Bool-cases,
}
use drone_swarm_lab.HashMap
use drone_swarm_lab.HashMap.Laws.{get-modify, modify-modify, modify_same}
use drone_swarm_lab.Types.{Task, status_eq}
use drone_swarm_lab.Types.TaskStatus.{unassigned, assigned}
use drone_swarm_lab.Registry.{
  TaskRegistry, task_not_found, invalid_transition, assign, write, task_mut, take_owner,
  release_task,
}

module _ {F : Type 0} where
  -- The registry after an assignment.
  abbrev pub assign_write : String → String → TaskRegistry F → TaskRegistry F
  assign_write k agent = write k (λ t. record t { status = assigned; assigned_to = some agent })

  abbrev pub IsOpen : Task F → Type 0
  IsOpen t = (t.status ≡ unassigned) × (t.assigned_to ≡ none)

  IsOpen-test :
      (t : Task F)
      → (not (status_eq t.status unassigned) || is_some t.assigned_to) ≡ false
      → IsOpen t
  unfolding status_eq
  IsOpen-test t h = ground arith

  closed_test :
      (t : Task F)
      → (not (status_eq t.status unassigned) || is_some t.assigned_to) ≡ true
      → ¬ IsOpen t
  unfolding status_eq
  closed_test t h o = ground arith

  -- The three outcomes of `assign`.
  abbrev pub Assigns : String → String → TaskRegistry F → Type 0
  Assigns k agent r =
      ((HashMap.get k r.tasks ≡ none) × (assign k agent r ≡ err (task_not_found k)))
      ⊎ (((t : Task F) × (HashMap.get k r.tasks ≡ some t)
            × (¬ IsOpen t)
            × (assign k agent r ≡ err (invalid_transition t.status assigned)))
          ⊎ ((t : Task F) × (HashMap.get k r.tasks ≡ some t)
              × IsOpen t
              × (assign k agent r ≡ ok (assign_write k agent r))))

  pub assign_outcomes : (k agent : String) (r : TaskRegistry F) → Assigns k agent r
  unfolding assign
  assign_outcomes k agent r = elim (Option-cases (HashMap.get k r.tasks)) [
    | inl f ↦ inl (f, rw (f, task_mut, assign))
    | inr (u, f) ↦
        inr (elim (Bool-cases (not (status_eq u.status unassigned) || is_some u.assigned_to)) [
          | inl closed ↦ inl (u, f, closed_test u closed, rw (f, task_mut, assign, closed))
          | inr open_task ↦ inr (u, f, IsOpen-test u open_task, rw (f, task_mut, assign, open_task))
        ])
  ]

  release_after_write :
      (k agent : String) (r : TaskRegistry F) (t : Task F)
      → HashMap.get k r.tasks ≡ some t
      → IsOpen t
      → release_task k (assign_write k agent r) ≡ (r, some agent)
  unfolding release_task
  release_after_write k agent r t f o =
      rw (get-modify, eq_refl k, f, take_owner) (λ i. (record { tasks = restored i }, some agent))
    where
      released : Task F → Task F
      released x = record x { status = unassigned; assigned_to = none }

      restored :
          HashMap.modify k released (
            HashMap.modify k
              (λ x. record x { status = assigned; assigned_to = some agent })
              r.tasks)
          ≡ r.tasks
      restored = modify-modify k _ _ r.tasks ∙ modify_same k _ r.tasks t f (ground arith)

  -- A released assignment leaves the registry as it was before, and names the agent.
  pub release-assign :
      (k agent : String) (r s : TaskRegistry F)
      → assign k agent r ≡ ok s
      → release_task k s ≡ (r, some agent)
  release-assign k agent r s h = elim (assign_outcomes k agent r) [
    | inl (f, e) ↦ ground (arith, e)
    | inr (inl (t, f, c, e)) ↦ ground (arith, e)
    | inr (inr (t, f, o, e)) ↦
        subst (λ x. release_task k x ≡ (r, some agent)) (ground (arith, e))
          (release_after_write k agent r t f o)
  ]
