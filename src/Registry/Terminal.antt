-- ===== src/Registry/Terminal.antt =====
-- task_registry.rs: completed and failed tasks.
use drone_swarm_lab.Base.{
  String, ◌≡◌, refl, ◌⊎◌, inl, inr, Bool, true, false, Option, none, some, List, [], ◌∷◌, arith,
  false≢true, sym, ◌∙◌, any,
}
use drone_swarm_lab.HashMap
use drone_swarm_lab.HashMap.{HashMap}
use drone_swarm_lab.HashMap.Laws.{get-modify, get-map_values, get-insert}
use drone_swarm_lab.Types.{Task, TaskStatus}
use drone_swarm_lab.Types.TaskStatus.{unassigned, assigned, in_progress, completed, failed}
use drone_swarm_lab.Registry.{
  TaskRegistry, insert, assign, start, complete, fail_task, transition, take_owner, release_task,
  complete_assigned_task, release_agent_tasks, expire_tasks,
}
use drone_swarm_lab.Registry.Ops.{
  Op, insert_op, assign_op, start_op, complete_op, fail_op, release_op, finish_op, release_agent_op,
  expire_op, apply, run, inserts, inserts_any,
}
use drone_swarm_lab.Registry.Keys.{IsKeyed, apply-IsKeyed, get-remove_all}
use drone_swarm_lab.Registry.Lifecycle.{
  Step, assigns, starts, completes, fails, releases, finishes, Evolves, stays, moves, expires,
  apply-Evolves,
}

-- Completed and failed tasks have no transition.
abbrev pub is_terminal : TaskStatus → Bool
is_terminal completed = true
is_terminal failed = true
is_terminal _ = false

Step-source : {s t : TaskStatus} → Step s t → is_terminal s ≡ false
Step-source assigns = refl
Step-source starts = refl
Step-source completes = refl
Step-source (fails {s} h) = ground arith
Step-source (releases {s} h) = ground arith
Step-source (finishes {s} h) = ground arith

module _ {F : Type 0} where
  -- No operation but an insert makes a task.
  pub apply-none :
      (op : Op F) (r : TaskRegistry F) (id : String)
      → HashMap.get id r.tasks ≡ none
      → inserts id op ≡ false
      → HashMap.get id (apply op r).tasks ≡ none
  unfolding apply insert start complete fail_task release_task complete_assigned_task expire_tasks
      release_agent_tasks assign transition take_owner
  apply-none (insert_op task) r id e i = rw (get-insert, i, e) refl
  apply-none (assign_op k agent) r id e i = ground (
    arith,
    get-modify k id (λ t. record t { status = assigned; assigned_to = some agent }) r.tasks,
  )
  apply-none (start_op k) r id e i =
      ground (arith, get-modify k id (λ t. record t { status = in_progress }) r.tasks)
  apply-none (complete_op k) r id e i =
      ground (arith, get-modify k id (λ t. record t { status = completed }) r.tasks)
  apply-none (fail_op k) r id e i =
      ground (arith, get-modify k id (λ t. record t { status = failed }) r.tasks)
  apply-none (release_op k) r id e i =
      ground
        (arith, get-modify k id (λ t. record t { status = unassigned; assigned_to = none }) r.tasks)
  apply-none (finish_op k) r id e i =
      ground
        (arith, get-modify k id (λ t. record t { status = completed; assigned_to = none }) r.tasks)
  apply-none (release_agent_op agent) r id e i = rw (get-map_values, e)
  apply-none (expire_op now) r id e i = rw (get-remove_all, e) (ground arith)

  terminal-Evolves :
      (t : Task F) (o : Option (Task F))
      → is_terminal t.status ≡ true
      → Evolves t o
      → (o ≡ none) ⊎ (o ≡ some t)
  terminal-Evolves t o h stays = inr refl
  terminal-Evolves t o h (moves s w st) = absurd (false≢true (sym (Step-source st) ∙ h))
  terminal-Evolves t o h (expires n) = inl refl

  first_free :
      (id : String) (op : Op F) (ops : List (Op F))
      → inserts_any id (op ∷ ops) ≡ false
      → inserts id op ≡ false
  unfolding any
  first_free id op ops h = ground arith

  rest_free :
      (id : String) (op : Op F) (ops : List (Op F))
      → inserts_any id (op ∷ ops) ≡ false
      → inserts_any id ops ≡ false
  unfolding any
  rest_free id op ops h = ground arith

  run-none :
      (ops : List (Op F)) (r : TaskRegistry F) (id : String)
      → HashMap.get id r.tasks ≡ none
      → inserts_any id ops ≡ false
      → HashMap.get id (run ops r).tasks ≡ none
  unfolding run
  run-none [] r id e i = e
  run-none (op ∷ ops) r id e i =
      run-none ops (apply op r) id (apply-none op r id e (first_free id op ops i))
        (rest_free id op ops i)

  -- In a registry with one entry for each key, which is the id of its task: once a task is completed
  -- or failed, no sequence of operations that inserts no task with its id changes it: it stays as it
  -- is, owner included, or it has expired for good.
  pub terminal_forever :
      (ops : List (Op F)) (r : TaskRegistry F) (id : String) (t : Task F)
      → IsKeyed r
      → HashMap.get id r.tasks ≡ some t
      → is_terminal t.status ≡ true
      → inserts_any id ops ≡ false
      → (HashMap.get id (run ops r).tasks ≡ none) ⊎ (HashMap.get id (run ops r).tasks ≡ some t)
  unfolding run
  terminal_forever [] r id t h e d i = inr e
  terminal_forever (op ∷ ops) r id t h e d i =
      elim (terminal-Evolves t _ d (apply-Evolves op r id t h e (first_free id op ops i))) [
        | inl gone ↦ inl (run-none ops (apply op r) id gone (rest_free id op ops i))
        | inr same ↦
            terminal_forever ops (apply op r) id t (apply-IsKeyed op r h) same d
              (rest_free id op ops i)
      ]
