-- ===== src/Mission.antt =====
-- crates/swarm-comms/src/swarm_protocol.rs: leases and the mission states of an agent. `T` stands
-- for `DateTime<Utc>` of chrono. Lease and edge ids are newtypes over `String` there.
use drone_swarm_lab.Base.{ℕ, String, Bool}

pub record Lease (T : Type 0) : Type 0 where
  pub lease_id : String
  pub holder : String
  pub resource_id : String
  pub resource_kind : String
  pub granted_at : T
  pub expires_at : T

-- `now < self.expires_at`, with the order of chrono.
unfoldable pub is_valid_at : {T : Type 0} → (T → T → Bool) → Lease T → T → Bool
is_valid_at time_lt lease now = time_lt now lease.expires_at

pub data ReplanReason : Type 0 where
  segment_blocked mission_reassigned gcs_command lease_expired : ReplanReason

-- The arguments are in the order of the source's fields.
pub data AgentMissionState (T : Type 0) : Type 0 where
  idle waiting_for_mission : AgentMissionState T
  executing_segment : String → String → ℕ → AgentMissionState T
  waiting_for_segment : String → String → ℕ → AgentMissionState T
  waiting_for_neighbor_reconnect : String → ℕ → ℕ → AgentMissionState T
  continuing_under_lease : String → T → AgentMissionState T
  replanning : ReplanReason → AgentMissionState T
  gcs_lost : ℕ → String → AgentMissionState T
  aborting : String → AgentMissionState T
  completed : String → ℕ → AgentMissionState T
  failed : String → AgentMissionState T
