-- ===== src/Protocol.antt =====
-- crates/swarm-comms/src/swarm_protocol.rs and transport.rs: the messages of the swarm protocol,
-- their envelopes, and the suppression of duplicates. Mission plans and execution outcomes are
-- only carried, so their types are parameters, as are `f64` (`F`) and `DateTime<Utc>` (`T`). The
-- JSON text of an envelope is written and read by serde.
pub mod Duplicates
use drone_swarm_lab.Base.{
  ℕ, String, Bool, true, false, Option, none, some, List, [], ◌∷◌, ◌++◌, length, leb, any, ◌==◌,
  if◌then◌else◌,
}
use drone_swarm_lab.Mission.{Lease, AgentMissionState}

pub record CommandPosition (F : Type 0) : Type 0 where
  pub lat_deg : F
  pub lon_deg : F
  pub alt_m : F

pub data AbortAction : Type 0 where
  return_to_launch hover_in_place land continue : AbortAction

pub data ProtocolRole : Type 0 where
  scout observer relay leader coordinator mothership carrier reserve recovery : ProtocolRole

pub data MissionRejectReason : Type 0 where
  overloaded incompatible_role lease_expired duplicate_offer : MissionRejectReason

pub data ReleaseReason : Type 0 where
  completed aborted lease_expired agent_failed reassigned : ReleaseReason

pub data SegmentDenyReason : Type 0 where
  already_held policy_denied coordinator_unavailable : SegmentDenyReason

pub data DegradedReason : Type 0 where
  gcs_unavailable coordinator_unavailable mothership_unavailable : DegradedReason
  partition_detected lease_expiry_soon : DegradedReason

-- The arguments of a variant are in the order of the source's fields.
pub data SwarmMessage (F T Plan Outcome : Type 0) : Type 0 where
  heartbeat : ℕ → ℕ → AgentMissionState T → SwarmMessage F T Plan Outcome
  presence : ProtocolRole → List String → SwarmMessage F T Plan Outcome
  mission_offer : String → Plan → ℕ → SwarmMessage F T Plan Outcome
  mission_accept : String → String → SwarmMessage F T Plan Outcome
  mission_reject : String → MissionRejectReason → SwarmMessage F T Plan Outcome
  mission_result : String → Outcome → List String → SwarmMessage F T Plan Outcome
  ownership_claim : String → String → String → T → SwarmMessage F T Plan Outcome
  ownership_release : String → String → ReleaseReason → SwarmMessage F T Plan Outcome
  lease_renew : String → T → SwarmMessage F T Plan Outcome
  lease_expired : String → String → SwarmMessage F T Plan Outcome
  segment_reserve : String → ℕ → String → ℕ → SwarmMessage F T Plan Outcome
  segment_grant : String → String → Lease T → SwarmMessage F T Plan Outcome
  segment_deny : String → String → String → SegmentDenyReason → SwarmMessage F T Plan Outcome
  segment_release : String → String → SwarmMessage F T Plan Outcome
  progress_update : String → ℕ → Option (CommandPosition F) → ℕ → SwarmMessage F T Plan Outcome
  replacement_offer : String → Plan → SwarmMessage F T Plan Outcome
  abort_notice : String → String → AbortAction → SwarmMessage F T Plan Outcome
  degraded_notice : DegradedReason → List String → SwarmMessage F T Plan Outcome
  topology_update : String → List String → SwarmMessage F T Plan Outcome
  state_request : String → String → SwarmMessage F T Plan Outcome
  state_response :
      AgentMissionState T → List (Lease T) → List String → ℕ → SwarmMessage F T Plan Outcome

pub record SwarmMessageEnvelope (F T Plan Outcome : Type 0) : Type 0 where
  pub schema_version : String
  pub envelope_id : String
  pub correlation_id : Option String
  pub from : String
  pub to : String
  pub sent_at : T
  pub ttl_ticks : ℕ
  pub message : SwarmMessage F T Plan Outcome

-- The payload holds bytes.
pub record RawMessage : Type 0 where
  pub from : String
  pub to : String
  pub payload : List ℕ

abbrev pub schema_version_v1 : String
schema_version_v1 = "swarm_protocol.v1"

module _ {F T Plan Outcome : Type 0} where
  -- `render` is `serde_json::to_vec`.
  unfoldable pub into_raw_message :
      (SwarmMessageEnvelope F T Plan Outcome → List ℕ)
      → SwarmMessageEnvelope F T Plan Outcome
      → RawMessage
  into_raw_message render e = record { from = e.from; to = e.to; payload = render e }

  -- `parse` is `serde_json::from_slice(..).ok()`.
  unfoldable pub from_raw_message :
      (List ℕ → Option (SwarmMessageEnvelope F T Plan Outcome))
      → RawMessage
      → Option (SwarmMessageEnvelope F T Plan Outcome)
  from_raw_message parse raw = elim (parse raw.payload) [
    | none ↦ none
    | some e ↦ if e.schema_version == schema_version_v1 then some e else none
  ]

-- The ids in the order in which they came, and how many are kept.
pub record DuplicateSuppressor : Type 0 where
  pub seen : List String
  pub window : ℕ

unfoldable pub new : ℕ → DuplicateSuppressor
new window = record { seen = []; window = window }

unfoldable pub with_default_window : DuplicateSuppressor
unfolding new
with_default_window = new 256

pop_front : List String → List String
pop_front [] = []
pop_front (x ∷ xs) = xs

unfoldable pub is_duplicate : String → DuplicateSuppressor → DuplicateSuppressor × Bool
unfolding pop_front
is_duplicate envelope_id d = if any (λ id. id == envelope_id) d.seen then (d, true) else (
  record d {
    seen = (if leb d.window (length d.seen) then pop_front d.seen else d.seen) ++ envelope_id ∷ [];
  },
  false,
)
