-- ===== src/Registry.antt =====
-- crates/swarm-runtime/src/task_registry.rs: the registry of tasks. Each method that returns a
-- `Result` checks before it writes, so its error carries no new state.
pub mod Ops
pub mod Outcomes
pub mod Keys
pub mod Lifecycle
pub mod Ownership
pub mod Terminal
pub mod Release
use drone_swarm_lab.Base.{
  ℕ, String, Bool, true, false, ◌&&◌, ◌||◌, not, Option, none, some, List, [], ◌∷◌, map, Result, ok,
  err, ◌>>=◌, leb, ◌==◌, option_eq, is_some, if◌then◌else◌, filter,
}
use drone_swarm_lab.HashMap
use drone_swarm_lab.HashMap.{HashMap}
use drone_swarm_lab.Types.{Task, TaskStatus, status_eq}
use drone_swarm_lab.Types.TaskStatus.{unassigned, assigned, in_progress, completed, failed}

pub data RuntimeError : Type 0 where
  task_not_found : String → RuntimeError
  invalid_transition : TaskStatus → TaskStatus → RuntimeError

pub record TaskRegistry (F : Type 0) : Type 0 where
  pub tasks : HashMap (Task F)

-- `matches!(task.status, Assigned | InProgress)`
abbrev pub is_active : TaskStatus → Bool
is_active assigned = true
is_active in_progress = true
is_active _ = false

-- `allowed.contains(&status)`
unfoldable pub contains_status : List TaskStatus → TaskStatus → Bool
unfolding status_eq
contains_status [] s = false
contains_status (t ∷ ts) s = status_eq t s || contains_status ts s

-- `task.expires_at.is_some_and(|t| t <= current_tick)`
abbrev pub is_due : Option ℕ → ℕ → Bool
is_due none now = false
is_due (some t) now = leb t now

module _ {F : Type 0} where
  unfoldable pub collect : List (Task F) → HashMap (Task F) → HashMap (Task F)
  collect [] m = m
  collect (t ∷ ts) m = collect ts (HashMap.insert t.id t m)

  unfoldable pub new : List (Task F) → TaskRegistry F
  unfolding collect
  new tasks = record { tasks = collect tasks [] }

  unfoldable pub insert : Task F → TaskRegistry F → TaskRegistry F
  insert task r = record { tasks = HashMap.insert task.id task r.tasks }

  -- The task under a mutable borrow, or the error of `task_mut`.
  unfoldable pub task_mut : TaskRegistry F → String → Result RuntimeError (Task F)
  task_mut r task_id = elim (HashMap.get task_id r.tasks) [
    | none ↦ err (task_not_found task_id)
    | some task ↦ ok task
  ]

  -- A write through the borrow.
  abbrev pub write : String → (Task F → Task F) → TaskRegistry F → TaskRegistry F
  write task_id f r = record { tasks = HashMap.modify task_id f r.tasks }

  unfoldable pub assign : String → String → TaskRegistry F → Result RuntimeError (TaskRegistry F)
  unfolding task_mut status_eq
  assign task_id agent_id r = do
    task ← task_mut r task_id
    if not (status_eq task.status unassigned) || is_some task.assigned_to
        then err (invalid_transition task.status assigned)
        else ok (write task_id (λ t. record t { status = assigned; assigned_to = some agent_id }) r)

  unfoldable pub transition :
      String → List TaskStatus → TaskStatus → TaskRegistry F → Result RuntimeError (TaskRegistry F)
  unfolding task_mut contains_status
  transition task_id allowed_from to r = do
    task ← task_mut r task_id
    if not (contains_status allowed_from task.status)
        then err (invalid_transition task.status to)
        else ok (write task_id (λ t. record t { status = to }) r)

  unfoldable pub start : String → TaskRegistry F → Result RuntimeError (TaskRegistry F)
  unfolding transition
  start task_id = transition task_id (assigned ∷ []) in_progress

  unfoldable pub complete : String → TaskRegistry F → Result RuntimeError (TaskRegistry F)
  unfolding transition
  complete task_id = transition task_id (in_progress ∷ []) completed

  unfoldable pub fail_task : String → TaskRegistry F → Result RuntimeError (TaskRegistry F)
  unfolding transition
  fail_task task_id = transition task_id (assigned ∷ in_progress ∷ []) failed

  -- The test of the loop in `release_agent_tasks`.
  unfoldable pub is_held_by : String → Task F → Bool
  is_held_by agent_id task = option_eq task.assigned_to (some agent_id) && is_active task.status

  -- The writes of that loop to one task.
  unfoldable pub release_if_held : String → Task F → Task F
  unfolding is_held_by
  release_if_held agent_id task =
      if is_held_by agent_id task
      then record task { status = unassigned; assigned_to = none }
      else task

  unfoldable pub release_agent_tasks : String → TaskRegistry F → TaskRegistry F × List String
  unfolding release_if_held
  release_agent_tasks agent_id r = (
    record { tasks = HashMap.map_values (release_if_held agent_id) r.tasks },
    map (λ t. t.id) (filter (is_held_by agent_id) (HashMap.values r.tasks)),
  )

  -- Both single-task methods take the owner and set a status; a task that is not active stays.
  unfoldable pub take_owner : TaskStatus → String → TaskRegistry F → TaskRegistry F × Option String
  take_owner to task_id r = elim (HashMap.get task_id r.tasks) [
    | none ↦ (r, none)
    | some task ↦
        if not (is_active task.status)
        then (r, none)
        else (write task_id (λ t. record t { status = to; assigned_to = none }) r, task.assigned_to)
  ]

  unfoldable pub release_task : String → TaskRegistry F → TaskRegistry F × Option String
  unfolding take_owner
  release_task = take_owner unassigned

  unfoldable pub complete_assigned_task : String → TaskRegistry F → TaskRegistry F × Option String
  unfolding take_owner
  complete_assigned_task = take_owner completed

  unfoldable pub is_expired : ℕ → Task F → Bool
  unfolding status_eq
  is_expired now task = is_due task.expires_at now && not (status_eq task.status in_progress)

  unfoldable pub remove_all : List String → HashMap (Task F) → HashMap (Task F)
  remove_all [] m = m
  remove_all (id ∷ ids) m = remove_all ids (HashMap.remove id m)

  unfoldable pub expired_ids : ℕ → TaskRegistry F → List String
  unfolding is_expired
  expired_ids now r = map (λ t. t.id) (filter (is_expired now) (HashMap.values r.tasks))

  unfoldable pub expire_tasks : ℕ → TaskRegistry F → TaskRegistry F × List String
  unfolding expired_ids remove_all
  expire_tasks now r =
      let expired = expired_ids now r in (record { tasks = remove_all expired r.tasks }, expired)

  -- The test of `unassigned`.
  unfoldable pub is_open : Task F → Bool
  unfolding status_eq
  is_open task = status_eq task.status unassigned || not (is_some task.assigned_to)

  unfoldable pub unassigned_tasks : TaskRegistry F → List (Task F)
  unfolding is_open
  unassigned_tasks r = filter is_open (HashMap.values r.tasks)

  -- The test of `all_assigned_or_completed`.
  unfoldable pub is_settled : Task F → Bool
  unfolding status_eq
  is_settled task =
      status_eq task.status completed
      || (not (status_eq task.status unassigned) && is_some task.assigned_to)

  unfoldable pub every_settled : List (Task F) → Bool
  unfolding is_settled
  every_settled [] = true
  every_settled (t ∷ ts) = is_settled t && every_settled ts

  unfoldable pub all_assigned_or_completed : TaskRegistry F → Bool
  unfolding every_settled
  all_assigned_or_completed r = every_settled (HashMap.values r.tasks)
