-- ===== src/Reallocation.antt =====
-- crates/swarm-runtime/src/node/reallocation.rs: the unassigned tasks and the live agents, sorted by
-- id, go to an allocator, and its decisions are applied one by one. The allocator is a parameter:
-- any type with the trait `Allocator`.
pub mod Outcome
pub mod Keyed
use drone_swarm_lab.Base.{
  ℕ, ◌+◌, String, Bool, Option, none, some, List, [], ◌∷◌, ◌++◌, map, contains, if◌then◌else◌,
  Result, ok, err,
}
use drone_swarm_lab.HashMap.{HashMap}
use drone_swarm_lab.Types.{Task, Pose, Role, Health}
use drone_swarm_lab.Types.Health.{alive}
use drone_swarm_lab.Registry
use drone_swarm_lab.Registry.{TaskRegistry}
use drone_swarm_lab.Membership
use drone_swarm_lab.Membership.{MembershipView, AgentEntry}
use drone_swarm_lab.Coordinator.{Coordinator}
use drone_swarm_lab.Gossip.{sort_by_id}

pub record AssignmentChange : Type 0 where
  pub task_id : String
  pub agent_id : String

pub record AllocationOutcome : Type 0 where
  pub assignments : List AssignmentChange
  pub conflicting_assignments : ℕ

-- swarm-alloc: what the allocator is told of an agent.
pub record AllocationAgent (F : Type 0) : Type 0 where
  pub id : String
  pub pose : Pose F
  pub battery : F
  pub capabilities : List String
  pub role : Role
  pub comms_range : F
  pub speed : F
  pub max_range : F
  pub battery_drain_rate : F

-- swarm-comms: the snapshot of the mesh, and the base that allocation is relative to.
pub record ConnectivitySnapshot (F : Type 0) : Type 0 where
  pub agent_entries : List (String × Pose F × F × Health)
  pub ground_nodes : List (String × Pose F × F)
  pub base_id : String
  pub base_pose : Pose F

count_conflict : AllocationOutcome → AllocationOutcome
count_conflict out = record out { conflicting_assignments = out.conflicting_assignments + 1 }

count_assignment : String → String → AllocationOutcome → AllocationOutcome
count_assignment task_id agent_id out = record out {
  assignments = out.assignments ++ record { task_id = task_id; agent_id = agent_id } ∷ [];
}

-- `seen.insert(..)`
abbrev pub see : List String → String → List String
see seen task_id = if contains seen task_id then seen else task_id ∷ seen

module _ {F : Type 0} where
  -- `sort_by(|left, right| left.id.cmp(right.id))`, by way of the ids.
  sorted_tasks : List (Task F) → List (Task F)
  sorted_tasks tasks = map (λ e. e.1) (sort_by_id (map (λ (t : Task F). (t.id, t)) tasks))

  unfoldable pub allocation_agent : F → String × AgentEntry F → AllocationAgent F
  allocation_agent zero_float (id, entry) = record {
    id = id;
    pose = entry.pose;
    battery = entry.battery;
    capabilities = entry.capabilities;
    role = entry.role;
    comms_range = entry.comms_range;
    speed = zero_float;
    max_range = zero_float;
    battery_drain_rate = zero_float;
  }

  first_id : List (AllocationAgent F) → String
  first_id [] = "base"
  first_id (a ∷ agents) = a.id

  first_pose : F → List (AllocationAgent F) → Pose F
  first_pose zero_float [] = record { x = zero_float; y = zero_float; z = zero_float }
  first_pose zero_float (a ∷ agents) = a.pose

  -- The body of the loop over the decisions. `seen` holds the tasks of the earlier ones.
  unfoldable pub apply_decision :
      List String
      → String
      → String
      → TaskRegistry F
      → AllocationOutcome
      → TaskRegistry F × AllocationOutcome
  unfolding count_conflict count_assignment
  apply_decision seen task_id agent_id r out =
      if contains seen task_id
      then (r, count_conflict out)
      else elim (Registry.assign task_id agent_id r) [
        | err e ↦ (r, count_conflict out)
        | ok r' ↦ (r', count_assignment task_id agent_id out)
      ]

  unfoldable pub apply_decisions :
      List String
      → List (String × String)
      → TaskRegistry F
      → AllocationOutcome
      → TaskRegistry F × AllocationOutcome
  apply_decisions seen [] r out = (r, out)
  apply_decisions seen ((task_id, agent_id) ∷ rest) r out =
      let (r', out') = apply_decision seen task_id agent_id r out in
      apply_decisions (see seen task_id) rest r' out'

  -- The arguments of the allocator: the tasks, the agents and the connectivity.
  unfoldable pub allocation_tasks : Coordinator F → List (Task F)
  unfolding sorted_tasks
  allocation_tasks c = sorted_tasks (Registry.unassigned_tasks c.registry)

  unfoldable pub allocation_agents : F → Coordinator F → List (AllocationAgent F)
  unfolding allocation_agent
  allocation_agents zero_float c =
      map (allocation_agent zero_float) (sort_by_id (Membership.alive_agents c.membership))

  unfoldable pub connectivity : F → Coordinator F → ConnectivitySnapshot F
  unfolding first_id first_pose
  connectivity zero_float c = record {
    agent_entries =
        map (λ e. (e.0, e.1.pose, e.1.comms_range, alive)) (Membership.alive_agents c.membership);
    ground_nodes = [];
    base_id = first_id (allocation_agents zero_float c);
    base_pose = first_pose zero_float (allocation_agents zero_float c);
  }

-- `Allocator::allocate_with_connectivity`, with the state that `&mut self` holds.
abbrev pub Allocator : Type 0 → Type 0 → Type 0
Allocator F S =
    S
    → List (Task F)
    → List (AllocationAgent F)
    → ConnectivitySnapshot F
    → S × List (String × String)

module _ {F : Type 0} where
  unfoldable pub allocate_unassigned :
      {S : Type 0} → F → Allocator F S → Coordinator F × S → (Coordinator F × S) × AllocationOutcome
  allocate_unassigned zero_float allocate (c, s) =
      let (s', decisions) =
        allocate s (allocation_tasks c) (allocation_agents zero_float c)
          (connectivity zero_float c) in
      let (r, out) =
        apply_decisions [] decisions c.registry
          (record { assignments = []; conflicting_assignments = 0 }) in
      ((record c { registry = r }, s'), out)
