-- ===== src/Registry/Release.antt =====
-- task_registry.rs: `release_agent_tasks` and `unassigned`, task by task.
use drone_swarm_lab.Base.{
  String, ◌≡◌, refl, true, false, Option, none, some, arith, err, contains, map, eq_refl,
}
use drone_swarm_lab.HashMap
use drone_swarm_lab.HashMap.Laws.{map_option, get-map_values, get-modify}
use drone_swarm_lab.Types.{Task}
use drone_swarm_lab.Types.TaskStatus.{completed, assigned}
use drone_swarm_lab.Registry.{
  TaskRegistry, is_active, is_held_by, release_if_held, release_agent_tasks, unassigned_tasks,
  is_open, complete_assigned_task, take_owner, assign, task_mut, invalid_transition,
}
use drone_swarm_lab.Registry.Keys.{IsKeyed, test_at, contains-ids, take_owner-IsKeyed}

module _ {F : Type 0} where
  released_free : (agent : String) (t : Task F) → is_held_by agent (release_if_held agent t) ≡ false
  unfolding release_if_held
  released_free agent t = ground arith

  pub get-release_agent_tasks :
      (agent k : String) (r : TaskRegistry F)
      → HashMap.get k (release_agent_tasks agent r).0.tasks
        ≡ map_option (release_if_held agent) (HashMap.get k r.tasks)
  unfolding release_agent_tasks
  get-release_agent_tasks agent k r = get-map_values k (release_if_held agent) r.tasks

  test_released :
      (agent : String) (o : Option (Task F))
      → test_at (is_held_by agent) (map_option (release_if_held agent) o) ≡ false
  test_released agent none = refl
  test_released agent (some t) = released_free agent t

  -- Releasing an agent's tasks reports exactly the ids of the active tasks that it held, frees
  -- those tasks and leaves every other task as it was; afterwards the agent holds none.
  pub release_agent_tasks_lem :
      (agent k : String) (r : TaskRegistry F)
      → IsKeyed r
      → (contains (release_agent_tasks agent r).1 k
          ≡ test_at (is_held_by agent) (HashMap.get k r.tasks))
        × (HashMap.get k (release_agent_tasks agent r).0.tasks
            ≡ map_option (release_if_held agent) (HashMap.get k r.tasks))
        × (test_at (is_held_by agent) (HashMap.get k (release_agent_tasks agent r).0.tasks) ≡ false)
  release_agent_tasks_lem agent k r h = (
    unfold release_agent_tasks in contains-ids (is_held_by agent) k r.tasks h.unique h.keyed,
    get-release_agent_tasks agent k r,
    rw (get-release_agent_tasks agent k r) (test_released agent (HashMap.get k r.tasks)),
  )

  -- `unassigned` lists exactly the tasks that pass its test.
  pub contains-unassigned_tasks :
      (k : String) (r : TaskRegistry F)
      → IsKeyed r
      → contains (map (λ t. t.id) (unassigned_tasks r)) k ≡ test_at is_open (HashMap.get k r.tasks)
  unfolding unassigned_tasks
  contains-unassigned_tasks k r h = contains-ids is_open k r.tasks h.unique h.keyed

  finished : Task F → Task F
  finished t = record t { status = completed; assigned_to = none }

  get-complete_assigned_task :
      (k : String) (r : TaskRegistry F) (t : Task F)
      → HashMap.get k r.tasks ≡ some t
      → is_active t.status ≡ true
      → HashMap.get k (complete_assigned_task k r).0.tasks ≡ some (finished t)
  unfolding complete_assigned_task
  get-complete_assigned_task k r t e a =
      rw (e, take_owner, complete_assigned_task, a)
        (rw (get-modify, eq_refl k, e) (unfold finished in refl))

  -- A task that `complete_assigned_task` has completed is still listed by `unassigned`, and every
  -- attempt to assign it fails.
  pub completed_still_listed :
      (k agent : String) (r : TaskRegistry F) (t : Task F)
      → IsKeyed r
      → HashMap.get k r.tasks ≡ some t
      → is_active t.status ≡ true
      → (contains (map (λ x. x.id) (unassigned_tasks (complete_assigned_task k r).0)) k ≡ true)
        × (assign k agent (complete_assigned_task k r).0
            ≡ err (invalid_transition completed assigned))
  unfolding complete_assigned_task assign
  completed_still_listed k agent r t h e a = (
    rw
        (
          contains-unassigned_tasks k _ (take_owner-IsKeyed k completed r h),
          get-complete_assigned_task k r t e a,
        )
        (unfold is_open finished in refl),
    rw (get-complete_assigned_task k r t e a, task_mut, assign) (unfold finished in refl),
  )
