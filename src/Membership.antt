-- ===== src/Membership.antt =====
-- crates/swarm-runtime/src/membership.rs and failure.rs: what a node knows of the agents, and the
-- detection of failures by missed heartbeats. Ticks and generations are `u64`s that are only
-- compared and subtracted with saturation, so they are natural numbers here.
pub mod Heartbeats
pub mod Detection
use drone_swarm_lab.Base.{
  ℕ, ◌-◌, String, Bool, Option, none, some, List, [], ◌∷◌, map, ltb, if◌then◌else◌, filter,
}
use drone_swarm_lab.HashMap
use drone_swarm_lab.HashMap.{HashMap}
use drone_swarm_lab.Types.{Pose, Health, Role, Agent, BatteryModel, is_alive_health}
use drone_swarm_lab.Types.Health.{alive, degraded, dead}

pub record AgentEntry (F : Type 0) : Type 0 where
  pub role : Role
  pub health : Health
  pub capabilities : List String
  pub last_heartbeat_tick : ℕ
  pub battery : F
  pub pose : Pose F
  pub comms_range : F
  pub generation : ℕ
  pub speed : F
  pub max_range : F
  pub battery_drain_rate : F
  pub battery_model : Option (BatteryModel F)

pub record MembershipView (F : Type 0) : Type 0 where
  pub agents : HashMap (AgentEntry F)

-- The arithmetic of `f64` that `MembershipView::new` uses.
pub record FloatOps (F : Type 0) : Type 0 where
  pub float_zero : F
  pub hundred : F
  pub float_gt : F → F → Bool
  pub float_div : F → F → F

-- `if entry.health != Alive { entry.health = Alive }`
revived : Health → Health
revived h = if is_alive_health h then h else alive

module _ {F : Type 0} where
  drain_rate : FloatOps F → Agent F → F
  drain_rate fl agent =
      if fl.float_gt agent.battery_drain_rate fl.float_zero
      then agent.battery_drain_rate
      else if fl.float_gt agent.max_range fl.float_zero
      then fl.float_div fl.hundred agent.max_range
      else fl.float_zero

  unfoldable pub entry_of : FloatOps F → Agent F → AgentEntry F
  unfolding drain_rate
  entry_of fl agent = record {
    role = agent.role;
    health = agent.health;
    capabilities = agent.capabilities;
    last_heartbeat_tick = 0;
    battery = agent.battery;
    pose = agent.pose;
    comms_range = agent.comms_range;
    generation = agent.generation;
    speed = agent.speed;
    max_range = agent.max_range;
    battery_drain_rate = drain_rate fl agent;
    battery_model = agent.battery_model;
  }

  unfoldable pub collect :
      FloatOps F → List (Agent F) → HashMap (AgentEntry F) → HashMap (AgentEntry F)
  collect fl [] m = m
  collect fl (a ∷ agents) m = collect fl agents (HashMap.insert a.id (entry_of fl a) m)

  unfoldable pub new : FloatOps F → List (Agent F) → MembershipView F
  unfolding collect
  new fl agents = record { agents = collect fl agents [] }

  -- What a heartbeat does to the entry of its sender.
  unfoldable pub beat : ℕ → ℕ → AgentEntry F → AgentEntry F
  unfolding revived is_alive_health
  beat sender_tick generation entry =
      if ltb generation entry.generation
      then entry
      else if ltb entry.generation generation
      then record entry {
        generation = generation;
        last_heartbeat_tick = sender_tick;
        health = revived entry.health;
      }
      else if ltb entry.last_heartbeat_tick sender_tick
      then record entry { last_heartbeat_tick = sender_tick; health = revived entry.health }
      else entry

  unfoldable pub record_heartbeat : String → ℕ → ℕ → MembershipView F → MembershipView F
  record_heartbeat agent_id sender_tick generation view = record {
    agents = HashMap.modify agent_id (beat sender_tick generation) view.agents;
  }

  unfoldable pub mark_dead : String → MembershipView F → MembershipView F
  mark_dead agent_id view = record {
    agents = HashMap.modify agent_id (λ e. record e { health = dead }) view.agents;
  }

  unfoldable pub update_pose : String → Pose F → MembershipView F → MembershipView F
  update_pose agent_id new_pose view = record {
    agents =
        HashMap.modify agent_id
          (λ e. if is_alive_health e.health then record e { pose = new_pose } else e) view.agents;
  }

  unfoldable pub alive_agents : MembershipView F → HashMap (AgentEntry F)
  alive_agents view = filter (λ e. is_alive_health e.1.health) view.agents

  unfoldable pub is_alive : String → MembershipView F → Bool
  is_alive agent_id view = elim (HashMap.get agent_id view.agents) [
    | none ↦ Bool.false
    | some entry ↦ is_alive_health entry.health
  ]

  unfoldable pub generation_of : String → MembershipView F → ℕ
  generation_of agent_id view = elim (HashMap.get agent_id view.agents) [
    | none ↦ 0
    | some entry ↦ entry.generation
  ]

  unfoldable pub all_generations : MembershipView F → HashMap ℕ
  all_generations view = map (λ e. (e.0, e.1.generation)) view.agents

-- failure.rs
pub record FailureDetector : Type 0 where
  pub timeout_ticks : ℕ

module _ {F : Type 0} where
  unfoldable pub is_timed_out : FailureDetector → ℕ → AgentEntry F → Bool
  is_timed_out detector current_tick entry =
      ltb detector.timeout_ticks (current_tick - entry.last_heartbeat_tick)

  unfoldable pub detect : FailureDetector → MembershipView F → ℕ → List String
  unfolding alive_agents is_timed_out
  detect detector view current_tick =
      map (λ e. e.0) (filter (λ e. is_timed_out detector current_tick e.1) (alive_agents view))
