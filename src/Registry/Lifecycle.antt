-- ===== src/Registry/Lifecycle.antt =====
-- task_registry.rs: the life of a task.
use drone_swarm_lab.Base.{
  ℕ, String, ◌≡◌, ◌≢◌, inl, inr, true, false, Option, none, some, List, [], ◌∷◌, arith, after, ◌==◌,
  eq_iff, Option-cases, Bool-cases, subst,
}
use drone_swarm_lab.HashMap
use drone_swarm_lab.HashMap.{HashMap}
use drone_swarm_lab.HashMap.Laws.{get-modify, get-map_values, get-insert}
use drone_swarm_lab.Types.{Task, TaskStatus}
use drone_swarm_lab.Types.TaskStatus.{unassigned, assigned, in_progress, completed, failed}
use drone_swarm_lab.Registry.Ops.{
  Op, insert_op, assign_op, start_op, complete_op, fail_op, release_op, finish_op, release_agent_op,
  expire_op, apply, inserts,
}
use drone_swarm_lab.Registry.Outcomes.{assign_outcomes}
use drone_swarm_lab.Registry.Keys.{IsKeyed, get-expire_tasks}
use drone_swarm_lab.Registry.{
  TaskRegistry, insert, is_active, assign, start, complete, fail_task, transition, is_held_by,
  release_agent_tasks, release_task, complete_assigned_task, take_owner, is_expired, expire_tasks,
  task_mut, contains_status,
}

-- The transitions between statuses.
pub data Step : TaskStatus → TaskStatus → Type 0 where
  assigns : Step unassigned assigned
  starts : Step assigned in_progress
  completes : Step in_progress completed
  fails : {s : TaskStatus} → is_active s ≡ true → Step s failed
  releases : {s : TaskStatus} → is_active s ≡ true → Step s unassigned
  finishes : {s : TaskStatus} → is_active s ≡ true → Step s completed

-- A task after an operation: as it was, one transition on with no field changed but the status
-- and the owner, or gone if it was not in progress.
pub data Evolves {F : Type 0} (t : Task F) : Option (Task F) → Type 0 where
  stays : Evolves t (some t)
  moves :
      (s : TaskStatus) (o : Option String)
      → Step t.status s
      → Evolves t (some (record t { status = s; assigned_to = o }))
  expires : t.status ≢ in_progress → Evolves t none

allowed_start : (x : TaskStatus) → contains_status (assigned ∷ []) x ≡ true → Step x in_progress
unfolding contains_status
allowed_start assigned h = starts
allowed_start _ h = ground arith

allowed_complete : (x : TaskStatus) → contains_status (in_progress ∷ []) x ≡ true → Step x completed
unfolding contains_status
allowed_complete in_progress h = completes
allowed_complete _ h = ground arith

allowed_fail :
    (x : TaskStatus) → contains_status (assigned ∷ in_progress ∷ []) x ≡ true → Step x failed
unfolding contains_status
allowed_fail x h = fails (ground arith)

module _ {F : Type 0} where
  -- A write to one task that moves it along the lifecycle, where it is there.
  write-Evolves :
      (k id : String) (s : TaskStatus) (o : Task F → Option String) (r : TaskRegistry F)
      (t u : Task F)
      → HashMap.get id r.tasks ≡ some t
      → HashMap.get k r.tasks ≡ some u
      → Step u.status s
      → Evolves t (
          HashMap.get id
            (HashMap.modify k (λ x. record x { status = s; assigned_to = o x }) r.tasks))
  write-Evolves k id s o r t u e f st = elim (Bool-cases (k == id)) [
    | inl same ↦
        rw (get-modify, same, e)
          (moves s (o t) (subst (λ x. Step x s) (ground (arith, eq_iff k id)) st))
    | inr other ↦ rw (get-modify, other, e) stays
  ]

  transition-Evolves :
      (k id : String) (allowed : List TaskStatus) (s : TaskStatus) (r : TaskRegistry F) (t : Task F)
      → ((x : TaskStatus) → contains_status allowed x ≡ true → Step x s)
      → HashMap.get id r.tasks ≡ some t
      → Evolves t (HashMap.get id (after r (transition k allowed s r)).tasks)
  unfolding transition
  transition-Evolves k id allowed s r t ok_step e = elim (Option-cases (HashMap.get k r.tasks)) [
    | inl f ↦ rw (f, task_mut, transition) (rw e stays)
    | inr (u, f) ↦ elim (Bool-cases (contains_status allowed u.status)) [
      | inl yes_allowed ↦
          rw (f, task_mut, transition, yes_allowed)
            (write-Evolves k id s (λ x. x.assigned_to) r t u e f (ok_step u.status yes_allowed))
      | inr not_allowed ↦ rw (f, task_mut, transition, not_allowed) (rw e stays)
    ]
  ]

  take_owner-Evolves :
      (k id : String) (s : TaskStatus) (r : TaskRegistry F) (t : Task F)
      → ((x : TaskStatus) → is_active x ≡ true → Step x s)
      → HashMap.get id r.tasks ≡ some t
      → Evolves t (HashMap.get id (take_owner s k r).0.tasks)
  unfolding take_owner
  take_owner-Evolves k id s r t ok_step e = elim (Option-cases (HashMap.get k r.tasks)) [
    | inl f ↦ rw (f, take_owner) (rw e stays)
    | inr (u, f) ↦ elim (Bool-cases (is_active u.status)) [
      | inl active ↦
          rw (f, take_owner, active)
            (write-Evolves k id s (λ _. none) r t u e f (ok_step u.status active))
      | inr idle ↦ rw (f, take_owner, idle) (rw e stays)
    ]
  ]

  assign-Evolves :
      (k agent id : String) (r : TaskRegistry F) (t : Task F)
      → HashMap.get id r.tasks ≡ some t
      → Evolves t (HashMap.get id (after r (assign k agent r)).tasks)
  assign-Evolves k agent id r t e = elim (assign_outcomes k agent r) [
    | inl (f, a) ↦ rw a (rw e stays)
    | inr (inl (u, f, c, a)) ↦ rw a (rw e stays)
    | inr (inr (u, f, o, a)) ↦
        rw a (write-Evolves k id assigned (λ _. some agent) r t u e f (rw o.0 assigns))
  ]

  release_agent-Evolves :
      (agent id : String) (r : TaskRegistry F) (t : Task F)
      → HashMap.get id r.tasks ≡ some t
      → Evolves t (HashMap.get id (release_agent_tasks agent r).0.tasks)
  unfolding release_agent_tasks
  release_agent-Evolves agent id r t e = elim (Bool-cases (is_held_by agent t)) [
    | inl held ↦ rw (get-map_values, e, held) (moves unassigned none (releases ground arith))
    | inr free ↦ rw (get-map_values, e, free) stays
  ]

  expired_not_busy : (now : ℕ) (t : Task F) → is_expired now t ≡ true → t.status ≢ in_progress
  unfolding is_expired
  expired_not_busy now t h = ground arith

  expire-Evolves :
      (now : ℕ) (id : String) (r : TaskRegistry F) (t : Task F)
      → IsKeyed r
      → HashMap.get id r.tasks ≡ some t
      → Evolves t (HashMap.get id (expire_tasks now r).0.tasks)
  expire-Evolves now id r t h e =
      rw ((get-expire_tasks now id r h).0, e)
        (elim (Bool-cases (is_expired now t)) [
          | inl due ↦ rw due (expires (expired_not_busy now t due))
          | inr kept ↦ rw kept stays
        ])

  -- In a registry with one entry for each key, which is the id of its task: every operation but an
  -- insert of a task with the same id moves a task at most one transition along its life, changes no
  -- field of it but the status and the owner, and drops no task that is in progress.
  pub apply-Evolves :
      (op : Op F) (r : TaskRegistry F) (id : String) (t : Task F)
      → IsKeyed r
      → HashMap.get id r.tasks ≡ some t
      → inserts id op ≡ false
      → Evolves t (HashMap.get id (apply op r).tasks)
  unfolding apply insert start complete fail_task release_task complete_assigned_task
  apply-Evolves (insert_op task) r id t h e i = rw (get-insert, i, e) stays
  apply-Evolves (assign_op k agent) r id t h e i = assign-Evolves k agent id r t e
  apply-Evolves (start_op k) r id t h e i =
      transition-Evolves k id (assigned ∷ []) in_progress r t allowed_start e
  apply-Evolves (complete_op k) r id t h e i =
      transition-Evolves k id (in_progress ∷ []) completed r t allowed_complete e
  apply-Evolves (fail_op k) r id t h e i =
      transition-Evolves k id (assigned ∷ in_progress ∷ []) failed r t allowed_fail e
  apply-Evolves (release_op k) r id t h e i =
      take_owner-Evolves k id unassigned r t (λ x a. releases a) e
  apply-Evolves (finish_op k) r id t h e i =
      take_owner-Evolves k id completed r t (λ x a. finishes a) e
  apply-Evolves (release_agent_op agent) r id t h e i = release_agent-Evolves agent id r t e
  apply-Evolves (expire_op now) r id t h e i = expire-Evolves now id r t h e
