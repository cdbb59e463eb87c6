-- ===== src/Autonomy/Fsm.antt =====
-- node/runtime.rs: the GCS link, the wait for a neighbor, the loss of peers, and the whole
-- autonomy step of a tick.
pub mod Gcs
pub mod Silence
pub mod Neighbors
use Prim.Native.String.{◌++◌ as text_append}
use drone_swarm_lab.Base.{
  ℕ, ◌-◌, String, Bool, true, false, ◌&&◌, not, Option, none, some, List, [], ◌∷◌, ◌++◌, map,
  filter, find, contains, leb, ltb, is_some, if◌then◌else◌,
}
use drone_swarm_lab.HashMap
use drone_swarm_lab.HashMap.{HashMap}
use drone_swarm_lab.Mission.{
  Lease, AgentMissionState, idle, waiting_for_neighbor_reconnect, continuing_under_lease, gcs_lost,
  aborting,
}
use drone_swarm_lab.Autonomy.{
  AgentNode, AutonomyOutput, ActiveLeaseRecord, NeighborLostPolicy, release_locks_and_continue,
  wait_for_reconnect, abort_mission, as_lease, policy_name, gcs_timeout, is_valid_at_tick,
  is_autonomous, ticks_since, unwrap_or, sent_heartbeat, saturating_add, track_peers,
  track_mothership,
}

-- `continuing_lease_expiry_tick.map(|exp| current_tick < exp).unwrap_or(false)`
abbrev pub still_valid : ℕ → Option ℕ → Bool
still_valid now none = false
still_valid now (some expiry) = ltb now expiry

module _ {T : Type 0} where
  -- The GCS is heard: an autonomous agent reports, and goes back to its earlier state.
  unfoldable pub hear_gcs :
      (ℕ → T) → ℕ → AgentNode T → AutonomyOutput T → AgentNode T × AutonomyOutput T
  unfolding is_valid_at_tick as_lease policy_name
  hear_gcs at_millis now n out =
      let lost_ticks = now - unwrap_or now n.gcs_lost_since_tick in
      let heard = record n { last_gcs_heartbeat_tick = some now } in
      if is_autonomous n.mission_state
      then (
        record heard {
          mission_state = unwrap_or idle n.pre_gcs_loss_mission_state;
          pre_gcs_loss_mission_state = none;
          gcs_lost_since_tick = none;
          continuing_lease_expiry_tick = none;
        },
        record out {
          gcs_reconnected_this_tick = true;
          gcs_recovered_lost_ticks = lost_ticks;
          reconcile_report = some (record {
            agent_id = n.own_id;
            gcs_lost_ticks = lost_ticks;
            policy_applied = policy_name n.autonomy.gcs_lost_policy;
            completed_resources = [];
            active_leases_at_reconnect =
                map (as_lease at_millis n.own_id n.tick_duration_ms)
                  (filter (is_valid_at_tick now) n.active_leases);
            mission_state_at_reconnect = n.mission_state;
          });
        },
      )
      else (heard, out)

  -- `if pre_gcs_loss_mission_state.is_none() { .. = Some(mission_state.clone()) }`
  unfoldable pub remembered : AgentNode T → Option (AgentMissionState T)
  remembered n =
      if is_some n.pre_gcs_loss_mission_state
      then n.pre_gcs_loss_mission_state
      else some n.mission_state

  -- The branch of a state that is not autonomous, with the first valid lease if there is one.
  unfoldable pub lose_gcs :
      (ℕ → T)
      → ℕ
      → Option ActiveLeaseRecord
      → AgentNode T
      → AutonomyOutput T
      → AgentNode T × AutonomyOutput T
  unfolding as_lease policy_name remembered
  lose_gcs at_millis now (some l) n out = (
    record n {
      continuing_lease_expiry_tick = some l.expiry_tick;
      gcs_lost_since_tick = some now;
      pre_gcs_loss_mission_state = remembered n;
      mission_state =
          continuing_under_lease l.lease_id
            (as_lease at_millis n.own_id n.tick_duration_ms l).expires_at;
    },
    record out { continuing_under_lease_this_tick = some l.lease_id },
  )
  lose_gcs at_millis now none n out = (
    record n {
      gcs_lost_since_tick = some now;
      pre_gcs_loss_mission_state = remembered n;
      mission_state = gcs_lost now (policy_name n.autonomy.gcs_lost_policy);
    },
    record out {
      gcs_lost_this_tick = true;
      gcs_lost_policy_name = some (policy_name n.autonomy.gcs_lost_policy);
    },
  )

  -- The match on the mission state when the GCS has been silent for too long.
  unfoldable pub miss_gcs :
      (ℕ → T)
      → ℕ
      → AgentMissionState T
      → AgentNode T
      → AutonomyOutput T
      → AgentNode T × AutonomyOutput T
  unfolding policy_name lose_gcs
  miss_gcs at_millis now (gcs_lost since policy) n out = (n, out)
  miss_gcs at_millis now (continuing_under_lease lease_id t) n out =
      if still_valid now n.continuing_lease_expiry_tick then (n, out) else (
        record n {
          mission_state =
              gcs_lost (unwrap_or now n.gcs_lost_since_tick)
                (policy_name n.autonomy.gcs_lost_policy);
          continuing_lease_expiry_tick = none;
        },
        record out {
          lease_expired_in_gcs_loss = some (lease_id, policy_name n.autonomy.gcs_lost_policy);
        },
      )
  miss_gcs at_millis now _ n out =
      lose_gcs at_millis now (find (is_valid_at_tick now) n.active_leases) n out

  unfoldable pub track_gcs :
      (ℕ → T) → ℕ → List String → AgentNode T → AutonomyOutput T → AgentNode T × AutonomyOutput T
  unfolding hear_gcs miss_gcs sent_heartbeat gcs_timeout
  track_gcs at_millis now senders n out = elim n.gcs_id [
    | none ↦ (n, out)
    | some id ↦
        if sent_heartbeat id senders
        then hear_gcs at_millis now n out
        else if leb (gcs_timeout n.autonomy) (ticks_since now n.last_gcs_heartbeat_tick)
        then miss_gcs at_millis now n.mission_state n out
        else (n, out)
  ]

  unfoldable pub check_wait : ℕ → AgentNode T → AgentNode T
  check_wait now n = elim n.waiting_for_neighbor_reconnect_until [
    | none ↦ n
    | some w ↦
        if leb w.1 now
        then record n {
          waiting_for_neighbor_reconnect_until = none;
          pre_neighbor_wait_mission_state = none;
          mission_state = aborting (text_append "neighbor_reconnect_timeout:" w.0);
        }
        else n
  ]

  -- The policy branch when a peer is declared lost.
  abbrev pub lose_peer : ℕ → String → NeighborLostPolicy → AgentNode T → AgentNode T
  lose_peer now peer abort_mission n = record n {
    mission_state = aborting (text_append "neighbor_lost:" peer);
  }
  lose_peer now peer release_locks_and_continue n = n
  lose_peer now peer (wait_for_reconnect max_ticks) n =
      if is_some n.waiting_for_neighbor_reconnect_until then n else record n {
        pre_neighbor_wait_mission_state = some n.mission_state;
        waiting_for_neighbor_reconnect_until = some (peer, saturating_add now max_ticks);
        mission_state = waiting_for_neighbor_reconnect peer now (saturating_add now max_ticks);
      }

  unfoldable pub is_newly_lost : ℕ → String → AgentNode T → Bool
  is_newly_lost now peer n =
      leb n.autonomy.peer_heartbeat_timeout_ticks
        (ticks_since now (HashMap.get peer n.last_peer_heartbeat_ticks))
      && not (contains n.lost_peers_detected peer)

  unfoldable pub detect_peer : ℕ → String → AgentNode T → AgentNode T
  detect_peer now peer n =
      lose_peer now peer n.autonomy.neighbor_lost_policy
        (record n { lost_peers_detected = peer ∷ n.lost_peers_detected })

  -- The loop over the peers, with the peers that it declares lost.
  unfoldable pub check_peers : ℕ → List String → AgentNode T → AgentNode T × List String
  unfolding is_newly_lost detect_peer
  check_peers now [] n = (n, [])
  check_peers now (peer ∷ peers) n =
      let next =
        check_peers now peers (if is_newly_lost now peer n then detect_peer now peer n else n) in
      (next.0, if is_newly_lost now peer n then peer ∷ next.1 else next.1)

  -- The outputs before the autonomy step.
  abbrev pub no_output : AutonomyOutput T
  no_output = record {
    gcs_lost_this_tick = false;
    gcs_lost_policy_name = none;
    gcs_reconnected_this_tick = false;
    gcs_recovered_lost_ticks = 0;
    reconcile_report = none;
    neighbors_lost_this_tick = [];
    lease_expired_in_gcs_loss = none;
    continuing_under_lease_this_tick = none;
    mothership_lost_this_tick = false;
  }

  -- The whole step. `senders` are the senders of the tick's heartbeats in their order.
  unfoldable pub autonomy_step :
      (ℕ → T) → ℕ → List String → AgentNode T → AgentNode T × AutonomyOutput T
  unfolding track_peers track_mothership track_gcs check_wait check_peers
  autonomy_step at_millis now senders n0 =
      let n1 = track_peers now senders n0 in
      let (n2, mothership_lost) = track_mothership now senders n1 in
      let (n3, out) = track_gcs at_millis now senders n2 no_output in
      let n4 = check_wait now n3 in
      let (n5, lost) = check_peers now n4.peer_ids n4 in
      (
        n5,
        record out { mothership_lost_this_tick = mothership_lost; neighbors_lost_this_tick = lost },
      )
