-- ===== src/Segments.antt =====
-- crates/swarm-sim/src/urban/segment_coordinator.rs: the coordinator that grants the segments of
-- urban routes to agents by leases. Its transport, the JSON text, the printing of numbers and the
-- calendar of chrono are parameters, gathered in `World`.
pub mod Handlers
use Prim.Native.String.{◌++◌ as text_append}
use drone_swarm_lab.Base.{
  ℕ, ◌+◌, String, Bool, true, false, ◌||◌, not, Option, none, some, List, [], ◌∷◌, ◌++◌, map,
  filter, max, ltb, ◌==◌, if◌then◌else◌, Result, ok, err,
}
use drone_swarm_lab.HashMap
use drone_swarm_lab.HashMap.{HashMap}
use drone_swarm_lab.Mission.{Lease, is_valid_at}
use drone_swarm_lab.Autonomy.{saturating_add, unwrap_or}
use drone_swarm_lab.Protocol.{
  SwarmMessage, SwarmMessageEnvelope, RawMessage, SegmentDenyReason, already_held, policy_denied,
  segment_reserve, segment_release, segment_grant, segment_deny, into_raw_message, from_raw_message,
  schema_version_v1,
}

-- crates/swarm-types/src/urban.rs
pub data UrbanRightOfWayPolicy : Type 0 where
  first_come priority round_robin mission_critical_override : UrbanRightOfWayPolicy

-- crates/swarm-sim/src/urban/deconfliction.rs
pub record UrbanSegmentLock : Type 0 where
  pub edge_id : String
  pub holder_agent_id : String
  pub acquired_at_tick : ℕ
  pub segment_index : ℕ

-- What the code calls outside the repository: a transport with state `S` and errors `E`.
pub record World (F T Plan Outcome S E : Type 0) : Type 0 where
  pub send : RawMessage → S → S × Result E (Unit {0})
  pub parse : List ℕ → Option (SwarmMessageEnvelope F T Plan Outcome)
  pub render : SwarmMessageEnvelope F T Plan Outcome → List ℕ
  pub show_number : ℕ → String
  pub timestamp_opt : ℕ → Option T
  pub unix_epoch : T
  pub time_lt : T → T → Bool

pub record SegmentCoordinator (T S : Type 0) : Type 0 where
  pub transport : S
  pub coordinator_id : String
  pub active_locks : HashMap (UrbanSegmentLock × Lease T)
  pub policy : UrbanRightOfWayPolicy
  pub priorities : HashMap ℕ
  pub default_lease_ticks : ℕ

pub data CoordinatorEvent : Type 0 where
  grant_sent : String → String → CoordinatorEvent
  deny_sent : String → String → SegmentDenyReason → CoordinatorEvent
  released lease_expired : String → String → CoordinatorEvent

pub data SegmentCoordinatorError (E : Type 0) : Type 0 where
  transport_error : E → SegmentCoordinatorError E

abbrev i64_max : ℕ
i64_max = 9223372036854775807

-- `matches!(policy, Priority | MissionCriticalOverride)`
abbrev pub is_ranked : UrbanRightOfWayPolicy → Bool
is_ranked priority = true
is_ranked mission_critical_override = true
is_ranked _ = false

-- `map_err(SegmentCoordinatorError::Transport)`
abbrev pub map_error :
    {E : Type 0} → Result E (Unit {0}) → Result (SegmentCoordinatorError E) (Unit {0})
map_error (ok u) = ok u
map_error (err e) = err (transport_error e)

unfoldable pub remove_edges :
    {T : Type 0}
    → List (String × String)
    → HashMap (UrbanSegmentLock × Lease T)
    → HashMap (UrbanSegmentLock × Lease T)
remove_edges [] m = m
remove_edges ((edge_id, agent_id) ∷ rest) m = remove_edges rest (HashMap.remove edge_id m)

module _ {T S : Type 0} where
  unfoldable pub new : String → S → UrbanRightOfWayPolicy → HashMap ℕ → SegmentCoordinator T S
  new coordinator_id transport policy priorities = record {
    transport = transport;
    coordinator_id = coordinator_id;
    active_locks = [];
    policy = policy;
    priorities = priorities;
    default_lease_ticks = 30;
  }

  unfoldable pub with_default_lease_ticks : ℕ → SegmentCoordinator T S → SegmentCoordinator T S
  with_default_lease_ticks n c = record c { default_lease_ticks = max n 1 }

  unfoldable pub deny_reason : String → String → SegmentCoordinator T S → SegmentDenyReason
  deny_reason requester holder c =
      let requester_priority = unwrap_or 0 (HashMap.get requester c.priorities) in
      let holder_priority = unwrap_or 0 (HashMap.get holder c.priorities) in
      if is_ranked c.policy
      then if ltb requester_priority holder_priority then policy_denied else already_held
      else already_held

  unfoldable pub handle_release :
      String
      → String
      → String
      → SegmentCoordinator T S
      → SegmentCoordinator T S × List CoordinatorEvent
  handle_release edge_id lease_id from c = elim (HashMap.get edge_id c.active_locks) [
    | none ↦ (c, [])
    | some (lock, lease) ↦
        if not (lock.holder_agent_id == from) || not (lease.lease_id == lease_id)
        then (c, [])
        else (
          record c { active_locks = HashMap.remove edge_id c.active_locks },
          released edge_id from ∷ [],
        )
  ]

module _ {F T Plan Outcome S E : Type 0} where
  unfoldable pub tick_to_time : World F T Plan Outcome S E → ℕ → T
  tick_to_time w tick =
      unwrap_or w.unix_epoch (w.timestamp_opt (if ltb i64_max tick then i64_max else tick))

  unfoldable pub expired_edges :
      World F T Plan Outcome S E → ℕ → SegmentCoordinator T S → List (String × String)
  unfolding tick_to_time is_valid_at
  expired_edges w tick c =
      map (λ e. (e.0, e.1.0.holder_agent_id))
        (filter (λ e. not (is_valid_at w.time_lt e.1.1 (tick_to_time w tick))) c.active_locks)

  unfoldable pub expire_leases :
      World F T Plan Outcome S E
      → ℕ
      → SegmentCoordinator T S
      → SegmentCoordinator T S × List CoordinatorEvent
  unfolding expired_edges remove_edges
  expire_leases w tick c =
      let expired = expired_edges w tick c in
      (
        record c { active_locks = remove_edges expired c.active_locks },
        map (λ e. lease_expired e.0 e.1) expired,
      )

  unfoldable pub lease_for :
      World F T Plan Outcome S E → ℕ → String → String → SegmentCoordinator T S → Lease T
  unfolding tick_to_time saturating_add
  lease_for w tick edge_id holder c = record {
    lease_id = text_append "lease-" (
        text_append edge_id
          (text_append "-" (text_append holder (text_append "-" (w.show_number tick)))));
    holder = holder;
    resource_id = edge_id;
    resource_kind = "urban_edge";
    granted_at = tick_to_time w tick;
    expires_at = tick_to_time w (saturating_add tick c.default_lease_ticks);
  }
