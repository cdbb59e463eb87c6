-- ===== src/Tests/CoordinationRuns.antt =====
-- Nodes and coordinators at concrete inputs.
use mathlib.Core.List.Permᴰ.{swap}
use drone_swarm_lab.Base.{
  ℕ, ◌+◌, ◌≡◌, ◌↔◌, refl, true, false, none, some, List, [], ◌∷◌, contains, filter, if◌then◌else◌,
  All, Distinct, length,
}
use drone_swarm_lab.HashMap
use drone_swarm_lab.HashMap.Laws.{map_option, UniqueKeys}
use drone_swarm_lab.HashMap.Keys.{test_value}
use drone_swarm_lab.Types.{Task, is_alive_health}
use drone_swarm_lab.Types.TaskStatus.{assigned}
use drone_swarm_lab.Types.Health.{dead}
use drone_swarm_lab.Registry.{TaskRegistry, release_agent_tasks, expire_tasks}
use drone_swarm_lab.Registry.Keys.{test_at}
use drone_swarm_lab.Membership.{AgentEntry, detect, mark_dead}
use drone_swarm_lab.Membership.Heartbeats.{Heartbeat, receive_all, receive_all-perm}
use drone_swarm_lab.Membership.Detection.{is_silent, contains-detect}
use drone_swarm_lab.Coordinator.{process_tick, fail_agent}
use drone_swarm_lab.Coordinator.Failures.{IsWellFormed, held_by_any, release_if_lost}
use drone_swarm_lab.Coordinator.Tick.{process_tick_agents, process_tick_tasks, injected, Lapsed}
use drone_swarm_lab.Gossip.{RuntimeMessage, gossip, heartbeat, Merge}
use drone_swarm_lab.Reallocation.{
  Allocator, allocate_unassigned, allocation_tasks, allocation_agents, connectivity,
}
use drone_swarm_lab.Reallocation.Outcome.{Shows, task_ids, decided, allocate_unassigned_sound}
use drone_swarm_lab.Tests.Data.{task, registry, view, coordinator}
use drone_swarm_lab.Tests.RegistryRuns.{registry-IsKeyed}

abbrev early : Heartbeat
early = record { sender = "a1"; tick = 7; generation = 1 }

abbrev late : Heartbeat
late = record { sender = "a1"; tick = 2; generation = 2 }

receive_all-perm_example :
    receive_all (early ∷ late ∷ []) view ≡ receive_all (late ∷ early ∷ []) view
receive_all-perm_example =
    receive_all-perm {xs = early ∷ late ∷ []} {ys = late ∷ early ∷ []} (swap refl refl) view

view-UniqueKeys : UniqueKeys view.agents
unfolding HashMap.get
view-UniqueKeys = (refl, (refl, tt))

contains-detect_example :
    contains (detect coordinator.detector view 10) "a1"
    ≡ test_value (is_silent coordinator.detector 10) (HashMap.get "a1" view.agents)
contains-detect_example = contains-detect coordinator.detector view 10 "a1" view-UniqueKeys

pub coordinator-IsWellFormed : IsWellFormed coordinator
coordinator-IsWellFormed = record { agents = view-UniqueKeys; tasks = registry-IsKeyed }

-- At tick 10 only a1 has been silent too long, its task comes back, and t2 has expired.
tick_reports : (process_tick 10 [] coordinator).1 ≡ record {
  newly_failed = "a1" ∷ [];
  failure_releases =
      record { failed_agent_id = "a1"; released_tasks = "t0" ∷ []; detected_at_tick = 10 } ∷ [];
  released_tasks = "t0" ∷ [];
  expired_task_ids = "t2" ∷ [];
}
unfolding process_tick fail_agent release_agent_tasks expire_tasks detect mark_dead is_alive_health
    HashMap.get HashMap.modify HashMap.map_values HashMap.remove HashMap.values filter
tick_reports = refl

process_tick_agents_example :
    (contains (process_tick 10 [] coordinator).1.newly_failed "a1"
      ≡ test_value
          (is_silent coordinator.detector 10)
          (HashMap.get "a1" coordinator.membership.agents))
    × (HashMap.get "a1" (process_tick 10 [] coordinator).0.membership.agents ≡ (
        if contains (process_tick 10 [] coordinator).1.newly_failed "a1"
        then map_option {A = AgentEntry ℕ}
            (λ e. record e { health = dead })
            (HashMap.get "a1" coordinator.membership.agents)
        else HashMap.get "a1" coordinator.membership.agents))
    × (test_value
          (is_silent coordinator.detector 10)
          (HashMap.get "a1" (process_tick 10 [] coordinator).0.membership.agents)
        ≡ false)
process_tick_agents_example = process_tick_agents 10 [] coordinator coordinator-IsWellFormed "a1"

process_tick_tasks_example :
    (HashMap.get "t0" (process_tick 10 [] coordinator).0.registry.tasks ≡ (
      if contains (process_tick 10 [] coordinator).1.expired_task_ids "t0"
      then none
      else map_option
          (release_if_lost (process_tick 10 [] coordinator).1.newly_failed)
          (HashMap.get "t0" (injected [] coordinator).registry.tasks)))
    × (contains (process_tick 10 [] coordinator).1.released_tasks "t0"
        ≡ test_at
            (held_by_any (process_tick 10 [] coordinator).1.newly_failed)
            (HashMap.get "t0" (injected [] coordinator).registry.tasks))
    × ((contains (process_tick 10 [] coordinator).1.expired_task_ids "t0" ≡ true)
        ↔ Lapsed 10 (
            map_option
              (release_if_lost (process_tick 10 [] coordinator).1.newly_failed)
              (HashMap.get "t0" (injected [] coordinator).registry.tasks)))
process_tick_tasks_example = process_tick_tasks 10 [] coordinator coordinator-IsWellFormed "t0"

-- The other node holds t0 for a0.
abbrev rival : Task ℕ
rival = task "t0" assigned (some "a0") none

abbrev rival_registry : TaskRegistry ℕ
rival_registry = record { tasks = ("t0", rival) ∷ [] }

abbrev merge_of : TaskRegistry ℕ → Merge ℕ
merge_of r = record { registry = r; merged = 0; stale = 0 }

abbrev buffer : List (RuntimeMessage ℕ)
buffer = gossip (("t1", "a0") ∷ ("t0", "a0") ∷ []) (("a0", 2) ∷ []) ∷ heartbeat 3 1 ∷ []

-- An allocator that gives t1 away twice, and then a task that is done.
abbrev careless : Allocator ℕ ℕ
careless n tasks agents mesh = (n + 1, ("t1", "a0") ∷ ("t1", "a1") ∷ ("t3", "a1") ∷ [])

allocate_unassigned_sound_example :
    All
      (Shows (allocate_unassigned 0 careless (coordinator, 0)).0.0.registry)
      (allocate_unassigned 0 careless (coordinator, 0)).1.assignments
    × Distinct (task_ids (allocate_unassigned 0 careless (coordinator, 0)).1.assignments)
    × (decided (allocate_unassigned 0 careless (coordinator, 0)).1
        ≡ length
            (careless 0
              (allocation_tasks coordinator)
              (allocation_agents 0 coordinator)
              (connectivity 0 coordinator)).1)
allocate_unassigned_sound_example = allocate_unassigned_sound 0 careless coordinator 0
