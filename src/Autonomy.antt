-- ===== src/Autonomy.antt =====
-- crates/swarm-runtime/src/autonomy.rs and the last part of `process_inbox_and_allocate` in
-- node/runtime.rs: what an agent does when its ground station (GCS), its mothership or a peer
-- falls silent. The state is the part of `AgentNode` that this code reads or writes.
pub mod Fsm
use Prim.Native.String.{◌++◌ as text_append}
use drone_swarm_lab.Base.{
  ℕ, ◌+◌, ◌*◌, ◌-◌, String, Bool, true, false, ◌&&◌, ◌||◌, not, Option, none, some, List, [], ◌∷◌,
  ◌++◌, map, filter, find, contains, any, leb, ltb, option_eq, is_some, ◌==◌, if◌then◌else◌,
}
use drone_swarm_lab.HashMap
use drone_swarm_lab.HashMap.{HashMap}
use drone_swarm_lab.Mission.{
  Lease, AgentMissionState, idle, waiting_for_neighbor_reconnect, continuing_under_lease, gcs_lost,
  aborting,
}

pub data GcsLostPolicy : Type 0 where
  continue_mission hover_in_place return_to_launch : ℕ → GcsLostPolicy
  abort_immediate : GcsLostPolicy

pub data MothershipLostPolicy : Type 0 where
  wait_at_staging : ℕ → MothershipLostPolicy
  proceed_autonomously return_to_launch : MothershipLostPolicy

pub data NeighborLostPolicy : Type 0 where
  release_locks_and_continue : NeighborLostPolicy
  wait_for_reconnect : ℕ → NeighborLostPolicy
  abort_mission : NeighborLostPolicy

pub record AgentAutonomyConfig : Type 0 where
  pub gcs_lost_policy : GcsLostPolicy
  pub mothership_lost_policy : MothershipLostPolicy
  pub neighbor_lost_policy : NeighborLostPolicy
  pub gcs_heartbeat_timeout_ticks : ℕ
  pub peer_heartbeat_timeout_ticks : ℕ

abbrev pub default_config : AgentAutonomyConfig
default_config = record {
  gcs_lost_policy = hover_in_place 30;
  mothership_lost_policy = wait_at_staging 50;
  neighbor_lost_policy = release_locks_and_continue;
  gcs_heartbeat_timeout_ticks = 10;
  peer_heartbeat_timeout_ticks = 15;
}

pub record StateReconcileReport (T : Type 0) : Type 0 where
  pub agent_id : String
  pub gcs_lost_ticks : ℕ
  pub policy_applied : String
  pub completed_resources : List String
  pub active_leases_at_reconnect : List (Lease T)
  pub mission_state_at_reconnect : AgentMissionState T

pub record ActiveLeaseRecord : Type 0 where
  pub lease_id : String
  pub resource_id : String
  pub resource_kind : String
  pub granted_tick : ℕ
  pub expiry_tick : ℕ

-- The autonomy part of `AgentNode`. The field `waiting_for_neighbor_reconnect` of the source has
-- `_until` added, since a mission state has that name.
pub record AgentNode (T : Type 0) : Type 0 where
  pub own_id : String
  pub peer_ids : List String
  pub tick_duration_ms : ℕ
  pub autonomy : AgentAutonomyConfig
  pub mission_state : AgentMissionState T
  pub gcs_id : Option String
  pub last_gcs_heartbeat_tick : Option ℕ
  pub continuing_lease_expiry_tick : Option ℕ
  pub pre_gcs_loss_mission_state : Option (AgentMissionState T)
  pub last_peer_heartbeat_ticks : HashMap ℕ
  pub gcs_lost_since_tick : Option ℕ
  pub lost_peers_detected : List String
  pub active_leases : List ActiveLeaseRecord
  pub mothership_id : Option String
  pub last_mothership_heartbeat_tick : Option ℕ
  pub pre_neighbor_wait_mission_state : Option (AgentMissionState T)
  pub waiting_for_neighbor_reconnect_until : Option (String × ℕ)

-- The autonomy part of `NodeTickOutput`.
pub record AutonomyOutput (T : Type 0) : Type 0 where
  pub gcs_lost_this_tick : Bool
  pub gcs_lost_policy_name : Option String
  pub gcs_reconnected_this_tick : Bool
  pub gcs_recovered_lost_ticks : ℕ
  pub reconcile_report : Option (StateReconcileReport T)
  pub neighbors_lost_this_tick : List String
  pub lease_expired_in_gcs_loss : Option (String × String)
  pub continuing_under_lease_this_tick : Option String
  pub mothership_lost_this_tick : Bool

abbrev pub u64_max : ℕ
u64_max = 18446744073709551615

unfoldable pub saturating_mul : ℕ → ℕ → ℕ
saturating_mul a b = if ltb u64_max (a * b) then u64_max else a * b

unfoldable pub saturating_add : ℕ → ℕ → ℕ
saturating_add a b = if ltb u64_max (a + b) then u64_max else a + b

unfoldable pub policy_name : GcsLostPolicy → String
policy_name (continue_mission n) = "continue_mission"
policy_name (hover_in_place n) = "hover_in_place"
policy_name (return_to_launch n) = "return_to_launch"
policy_name abort_immediate = "abort_immediate"

timeout_of : GcsLostPolicy → ℕ → ℕ
timeout_of (return_to_launch after_ticks) n = after_ticks
timeout_of abort_immediate n = 1
timeout_of _ n = n

unfoldable pub gcs_timeout : AgentAutonomyConfig → ℕ
unfolding timeout_of
gcs_timeout a = timeout_of a.gcs_lost_policy a.gcs_heartbeat_timeout_ticks

unfoldable pub mothership_timeout : MothershipLostPolicy → ℕ
mothership_timeout (wait_at_staging max_ticks) = max_ticks
mothership_timeout return_to_launch = 1
mothership_timeout proceed_autonomously = u64_max

unfoldable pub is_valid_at_tick : ℕ → ActiveLeaseRecord → Bool
is_valid_at_tick current_tick lease = ltb current_tick lease.expiry_tick

-- `match last { Some(last) => current_tick.saturating_sub(last), None => current_tick }`
abbrev pub ticks_since : ℕ → Option ℕ → ℕ
ticks_since now none = now
ticks_since now (some last) = now - last

-- `unwrap_or`
abbrev pub unwrap_or {ℓ} : {A : Type ℓ} → A → Option A → A
unwrap_or d none = d
unwrap_or d (some a) = a

-- `hb_list.iter().any(|(id, _, _)| *id == other)`
unfoldable pub sent_heartbeat : String → List String → Bool
sent_heartbeat id senders = any (λ s. s == id) senders

without : String → List String → List String
without p ps = filter (λ q. not (q == p)) ps

-- Whether the wait is for this peer.
unfoldable pub awaits : String → Option (String × ℕ) → Bool
awaits peer none = false
awaits peer (some (p, until)) = p == peer

module _ {T : Type 0} where
  -- `matches!(state, Aborting { .. })`
  abbrev pub is_aborting : AgentMissionState T → Bool
  is_aborting (aborting reason) = true
  is_aborting _ = false

  -- `matches!(state, GcsLost { .. } | ContinuingUnderLease { .. })`
  abbrev pub is_autonomous : AgentMissionState T → Bool
  is_autonomous (gcs_lost since policy) = true
  is_autonomous (continuing_under_lease l t) = true
  is_autonomous _ = false

  -- `as_lease`. `at_millis` is `epoch + Duration::milliseconds(_ as i64)` of chrono.
  unfoldable pub as_lease : (ℕ → T) → String → ℕ → ActiveLeaseRecord → Lease T
  as_lease at_millis holder tick_duration_ms l = record {
    lease_id = l.lease_id;
    holder = holder;
    resource_id = l.resource_id;
    resource_kind = l.resource_kind;
    granted_at = at_millis (saturating_mul l.granted_tick tick_duration_ms);
    expires_at = at_millis (saturating_mul l.expiry_tick tick_duration_ms);
  }

  -- The body of the loop over the senders of heartbeats, for a peer.
  unfoldable pub hear_peer : ℕ → String → AgentNode T → AgentNode T
  unfolding without awaits
  hear_peer now from n =
      let heard = record n {
        last_peer_heartbeat_ticks = HashMap.insert from now n.last_peer_heartbeat_ticks;
        lost_peers_detected = without from n.lost_peers_detected;
      } in
      if awaits from n.waiting_for_neighbor_reconnect_until
      then record heard {
        waiting_for_neighbor_reconnect_until = none;
        mission_state = unwrap_or idle n.pre_neighbor_wait_mission_state;
        pre_neighbor_wait_mission_state = none;
      }
      else heard

  unfoldable pub is_peer : AgentNode T → String → Bool
  is_peer n from =
      not (option_eq n.gcs_id (some from))
      && (not (option_eq n.mothership_id (some from)) && not (from == n.own_id))

  unfoldable pub track_peers : ℕ → List String → AgentNode T → AgentNode T
  unfolding is_peer hear_peer
  track_peers now [] n = n
  track_peers now (from ∷ senders) n =
      track_peers now senders (if is_peer n from then hear_peer now from n else n)

  -- The policy branch when the mothership is silent past its timeout.
  abbrev pub lose_mothership : MothershipLostPolicy → AgentNode T → AgentNode T × Bool
  lose_mothership proceed_autonomously n = (n, false)
  lose_mothership _ n =
      if is_aborting n.mission_state
      then (n, false)
      else (record n { mission_state = aborting "mothership_lost" }, true)

  unfoldable pub track_mothership : ℕ → List String → AgentNode T → AgentNode T × Bool
  unfolding sent_heartbeat mothership_timeout
  track_mothership now senders n = elim n.mothership_id [
    | none ↦ (n, false)
    | some id ↦
        if sent_heartbeat id senders
        then (record n { last_mothership_heartbeat_tick = some now }, false)
        else if leb (mothership_timeout n.autonomy.mothership_lost_policy)
            (ticks_since now n.last_mothership_heartbeat_tick)
        then lose_mothership n.autonomy.mothership_lost_policy n
        else (n, false)
  ]
