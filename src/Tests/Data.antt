-- ===== src/Tests/Data.antt =====
-- A small fleet: two agents, and tasks in each stage. The `f64`s are natural numbers here.
use drone_swarm_lab.Base.{ℕ, String, Option, none, some, [], ◌∷◌}
use drone_swarm_lab.Types.{Task, TaskStatus, Role, Health}
use drone_swarm_lab.Types.TaskStatus.{unassigned, assigned, in_progress, completed}
use drone_swarm_lab.Types.Health.{alive}
use drone_swarm_lab.Registry.{TaskRegistry}
use drone_swarm_lab.Membership.{AgentEntry, MembershipView}
use drone_swarm_lab.Coordinator.{Coordinator}

abbrev pub task : String → TaskStatus → Option String → Option ℕ → Task ℕ
task id status owner expires_at = record {
  id = id;
  status = status;
  assigned_to = owner;
  priority = 1;
  required_capabilities = [];
  required_role = none;
  preferred_role = none;
  expires_at = expires_at;
  pose = none;
  grid_cell = none;
  edge_id = none;
  kind = none;
}

abbrev pub entry : Health → ℕ → ℕ → AgentEntry ℕ
entry health tick generation = record {
  role = Role.scout;
  health = health;
  capabilities = [];
  last_heartbeat_tick = tick;
  battery = 100;
  pose = record { x = 0; y = 0; z = 0 };
  comms_range = 50;
  generation = generation;
  speed = 0;
  max_range = 0;
  battery_drain_rate = 0;
  battery_model = none;
}

-- t0 is flown by a1, t1 is free, t2 expires at tick 5, t3 is done.
abbrev pub busy : Task ℕ
busy = task "t0" in_progress (some "a1") none

abbrev pub free : Task ℕ
free = task "t1" unassigned none none

abbrev pub due : Task ℕ
due = task "t2" assigned (some "a0") (some 5)

abbrev pub done : Task ℕ
done = task "t3" completed (some "a0") none

abbrev pub registry : TaskRegistry ℕ
registry = record { tasks = ("t0", busy) ∷ ("t1", free) ∷ ("t2", due) ∷ ("t3", done) ∷ [] }

-- a0 was heard at tick 9, a1 at tick 1.
abbrev pub view : MembershipView ℕ
view = record { agents = ("a0", entry alive 9 1) ∷ ("a1", entry alive 1 1) ∷ [] }

abbrev pub coordinator : Coordinator ℕ
coordinator = record {
  membership = view;
  detector = record { timeout_ticks = 3 };
  registry = registry;
}
