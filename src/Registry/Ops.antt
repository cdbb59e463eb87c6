-- ===== src/Registry/Ops.antt =====
-- task_registry.rs: the methods that change the tasks of the registry, as one type.
use drone_swarm_lab.Base.{ℕ, String, ◌≡◌, refl, Bool, false, ◌==◌, any, List, [], ◌∷◌, ◌++◌, after}
use drone_swarm_lab.Types.{Task}
use drone_swarm_lab.Registry.{
  TaskRegistry, insert, assign, start, complete, fail_task, release_agent_tasks, release_task,
  complete_assigned_task, expire_tasks,
}

pub data Op (F : Type 0) : Type 0 where
  insert_op : Task F → Op F
  assign_op : String → String → Op F
  start_op : String → Op F
  complete_op : String → Op F
  fail_op : String → Op F
  release_op : String → Op F
  finish_op : String → Op F
  release_agent_op : String → Op F
  expire_op : ℕ → Op F

module _ {F : Type 0} where
  unfoldable pub apply : Op F → TaskRegistry F → TaskRegistry F
  apply (insert_op task) r = insert task r
  apply (assign_op id agent) r = after r (assign id agent r)
  apply (start_op id) r = after r (start id r)
  apply (complete_op id) r = after r (complete id r)
  apply (fail_op id) r = after r (fail_task id r)
  apply (release_op id) r = (release_task id r).0
  apply (finish_op id) r = (complete_assigned_task id r).0
  apply (release_agent_op agent) r = (release_agent_tasks agent r).0
  apply (expire_op now) r = (expire_tasks now r).0

  unfoldable pub run : List (Op F) → TaskRegistry F → TaskRegistry F
  run [] r = r
  run (op ∷ ops) r = run ops (apply op r)

  pub run-append : (xs ys : List (Op F)) (r : TaskRegistry F) → run (xs ++ ys) r ≡ run ys (run xs r)
  unfolding run
  run-append [] ys r = refl
  run-append (op ∷ xs) ys r = run-append xs ys (apply op r)

  -- The operation inserts a task with the given id.
  abbrev pub inserts : String → Op F → Bool
  inserts id (insert_op task) = task.id == id
  inserts id _ = false

  abbrev pub inserts_any : String → List (Op F) → Bool
  inserts_any id ops = any (inserts id) ops
