-- ===== src/Coordinator.antt =====
-- crates/swarm-runtime/src/coordinator.rs: failure detection, release of the tasks of failed
-- agents, injection and expiry of tasks.
pub mod Failures
pub mod Tick
use drone_swarm_lab.Base.{ℕ, String, List, [], ◌∷◌, ◌++◌}
use drone_swarm_lab.Types.{Agent, Task}
use drone_swarm_lab.Registry
use drone_swarm_lab.Registry.{TaskRegistry}
use drone_swarm_lab.Membership
use drone_swarm_lab.Membership.{MembershipView, FailureDetector, FloatOps}

pub record FailureRelease : Type 0 where
  pub failed_agent_id : String
  pub released_tasks : List String
  pub detected_at_tick : ℕ

pub record CoordinatorOutput : Type 0 where
  pub newly_failed : List String
  pub failure_releases : List FailureRelease
  pub released_tasks : List String
  pub expired_task_ids : List String

pub record Coordinator (F : Type 0) : Type 0 where
  pub membership : MembershipView F
  pub detector : FailureDetector
  pub registry : TaskRegistry F

module _ {F : Type 0} where
  unfoldable pub new : FloatOps F → List (Agent F) → List (Task F) → ℕ → Coordinator F
  new fl agents tasks timeout_ticks = record {
    membership = Membership.new fl agents;
    detector = record { timeout_ticks = timeout_ticks };
    registry = Registry.new tasks;
  }

  unfoldable pub inject_task : Task F → Coordinator F → Coordinator F
  inject_task task c = record c { registry = Registry.insert task c.registry }

  unfoldable pub inject_all : List (Task F) → Coordinator F → Coordinator F
  inject_all [] c = c
  inject_all (t ∷ ts) c = inject_all ts (record c { registry = Registry.insert t c.registry })

  -- One round of the loop over the failed agents.
  unfoldable pub fail_agent : ℕ → String → Coordinator F → Coordinator F × FailureRelease
  fail_agent now agent_id c =
      let (registry, released) = Registry.release_agent_tasks agent_id c.registry in
      (
        record c { membership = Membership.mark_dead agent_id c.membership; registry = registry },
        record { failed_agent_id = agent_id; released_tasks = released; detected_at_tick = now },
      )

  unfoldable pub fail_agents :
      ℕ → List String → Coordinator F → Coordinator F × (List String) × (List FailureRelease)
  fail_agents now [] c = (c, [], [])
  fail_agents now (a ∷ agents) c =
      let (c', release) = fail_agent now a c in
      let (c'', tasks, releases) = fail_agents now agents c' in
      (c'', release.released_tasks ++ tasks, release ∷ releases)

  unfoldable pub process_tick :
      ℕ → List (Task F) → Coordinator F → Coordinator F × CoordinatorOutput
  unfolding inject_all fail_agents
  process_tick current_tick injected_tasks c0 =
      let c1 = inject_all injected_tasks c0 in
      let newly_failed = Membership.detect c1.detector c1.membership current_tick in
      let (c2, released, releases) = fail_agents current_tick newly_failed c1 in
      let (registry, expired) = Registry.expire_tasks current_tick c2.registry in
      (
        record c2 { registry = registry },
        record {
          newly_failed = newly_failed;
          failure_releases = releases;
          released_tasks = released;
          expired_task_ids = expired;
        },
      )
