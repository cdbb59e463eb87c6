-- ===== src/Registry/Ownership.antt =====
-- task_registry.rs: who owns a task.
use drone_swarm_lab.Base.{
  String, ◌≡◌, refl, inl, inr, true, false, none, List, [], ◌∷◌, arith, after, is_some,
  Option-cases, Bool-cases,
}
use drone_swarm_lab.HashMap
use drone_swarm_lab.HashMap.{HashMap}
use drone_swarm_lab.HashMap.Laws.{
  AllEntries, AllEntries-modify, AllEntries-map_values, AllEntries-remove, AllEntries-insert,
}
use drone_swarm_lab.Types.{Task, TaskStatus}
use drone_swarm_lab.Types.TaskStatus.{unassigned, assigned, in_progress, completed, failed}
use drone_swarm_lab.Registry.{
  TaskRegistry, insert, is_active, assign, start, complete, fail_task, transition, task_mut,
  contains_status, take_owner, release_task, complete_assigned_task, release_agent_tasks,
  release_if_held, expire_tasks, expired_ids, remove_all,
}
use drone_swarm_lab.Registry.Ops.{
  Op, insert_op, assign_op, start_op, complete_op, fail_op, release_op, finish_op, release_agent_op,
  expire_op, apply, run,
}
use drone_swarm_lab.Registry.Outcomes.{assign_outcomes}

module _ {F : Type 0} where
  -- The owner that the status of a task calls for.
  pub record IsOwned (t : Task F) : Type 0 where
    pub free : t.status ≡ unassigned → t.assigned_to ≡ none
    pub held : is_active t.status ≡ true → is_some t.assigned_to ≡ true

  abbrev pub Owned : String → Task F → Type 0
  Owned k t = IsOwned t

  transition-Owned :
      (k : String) (allowed : List TaskStatus) (s : TaskStatus) (r : TaskRegistry F)
      → ((t : Task F)
          → contains_status allowed t.status ≡ true
          → IsOwned t
          → IsOwned (record t { status = s }))
      → AllEntries Owned r.tasks
      → AllEntries Owned (after r (transition k allowed s r)).tasks
  unfolding transition
  transition-Owned k allowed s r keep a = elim (Option-cases (HashMap.get k r.tasks)) [
    | inl f ↦ rw (f, task_mut, transition) a
    | inr (u, f) ↦ elim (Bool-cases (contains_status allowed u.status)) [
      | inl fits ↦
          rw (f, task_mut, transition, fits)
            (AllEntries-modify Owned k _ r.tasks (λ v g o. keep v (ground (arith, g)) o) a)
      | inr misfit ↦ rw (f, task_mut, transition, misfit) a
    ]
  ]

  take_owner-Owned :
      (k : String) (s : TaskStatus) (r : TaskRegistry F)
      → is_active s ≡ false
      → AllEntries Owned r.tasks
      → AllEntries Owned (take_owner s k r).0.tasks
  unfolding take_owner
  take_owner-Owned k s r idle a = ground (
    arith,
    AllEntries-modify Owned k (λ t. record t { status = s; assigned_to = none }) r.tasks
        (λ v g o. record { free = λ e. refl; held = λ e. ground (arith, e) }) a,
  )

  assign-Owned :
      (k agent : String) (r : TaskRegistry F)
      → AllEntries Owned r.tasks
      → AllEntries Owned (after r (assign k agent r)).tasks
  assign-Owned k agent r a = elim (assign_outcomes k agent r) [
    | inl (f, e) ↦ rw e a
    | inr (inl (u, f, c, e)) ↦ rw e a
    | inr (inr (u, f, o, e)) ↦ rw e (
        AllEntries-modify Owned k _ r.tasks
          (λ v g o. record { free = λ x. ground (arith, x); held = λ x. refl }) a)
  ]

  release_agent-Owned :
      (agent : String) (r : TaskRegistry F)
      → AllEntries Owned r.tasks
      → AllEntries Owned (release_agent_tasks agent r).0.tasks
  unfolding release_agent_tasks
  release_agent-Owned agent r a =
      AllEntries-map_values Owned (release_if_held agent) r.tasks
        (λ k t o. record { free = ground (arith, o.free); held = ground (arith, o.held) }) a

  remove_all-Owned :
      (ids : List String) (m : HashMap (Task F))
      → AllEntries Owned m
      → AllEntries Owned (remove_all ids m)
  unfolding remove_all
  remove_all-Owned [] m a = a
  remove_all-Owned (i ∷ ids) m a =
      remove_all-Owned ids (HashMap.remove i m) (AllEntries-remove Owned i m a)

  -- A task that the operation inserts has the owner that its status calls for.
  abbrev pub InsertsOwned : Op F → Type 0
  InsertsOwned (insert_op task) = IsOwned task
  InsertsOwned _ = Unit

  abbrev pub AllInsertsOwned : List (Op F) → Type 0
  AllInsertsOwned [] = Unit
  AllInsertsOwned (op ∷ ops) = InsertsOwned op × AllInsertsOwned ops

  -- Every operation keeps the owners that the statuses call for.
  pub apply-Owned :
      (op : Op F) (r : TaskRegistry F)
      → InsertsOwned op
      → AllEntries Owned r.tasks
      → AllEntries Owned (apply op r).tasks
  unfolding apply insert start complete fail_task release_task complete_assigned_task expire_tasks
      contains_status
  apply-Owned (insert_op task) r g a = AllEntries-insert Owned task.id task r.tasks g a
  apply-Owned (assign_op k agent) r g a = assign-Owned k agent r a
  apply-Owned (start_op k) r g a =
      transition-Owned k (assigned ∷ []) in_progress r (λ t s o. ground (arith, o.held)) a
  apply-Owned (complete_op k) r g a =
      transition-Owned k (in_progress ∷ []) completed r (λ t s o. ground (arith)) a
  apply-Owned (fail_op k) r g a =
      transition-Owned k (assigned ∷ in_progress ∷ []) failed r (λ t s o. ground (arith)) a
  apply-Owned (release_op k) r g a = take_owner-Owned k unassigned r refl a
  apply-Owned (finish_op k) r g a = take_owner-Owned k completed r refl a
  apply-Owned (release_agent_op agent) r g a = release_agent-Owned agent r a
  apply-Owned (expire_op now) r g a = remove_all-Owned (expired_ids now r) r.tasks a

  -- If no task that is unassigned has an owner, if every assigned task and every one in progress has
  -- one, and if the same holds of the tasks that are inserted, then it holds after any sequence of
  -- operations of the registry, inserts included.
  pub run-Owned :
      (ops : List (Op F)) (r : TaskRegistry F)
      → AllInsertsOwned ops
      → AllEntries Owned r.tasks
      → AllEntries Owned (run ops r).tasks
  unfolding run
  run-Owned [] r g a = a
  run-Owned (op ∷ ops) r g a = run-Owned ops (apply op r) g.1 (apply-Owned op r g.0 a)
