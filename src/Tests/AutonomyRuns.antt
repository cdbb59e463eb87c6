-- ===== src/Tests/AutonomyRuns.antt =====
-- Runs of the autonomy step on concrete agents. Times are milliseconds.
use drone_swarm_lab.Base.{ℕ, ◌≡◌, refl, none, some, [], ◌∷◌, contains, filter, find, any, arith}
use drone_swarm_lab.HashMap
use drone_swarm_lab.Mission.{waiting_for_mission, continuing_under_lease, gcs_lost, aborting}
use drone_swarm_lab.Autonomy.{
  AgentNode, ActiveLeaseRecord, default_config, wait_for_reconnect, gcs_timeout, saturating_mul,
  track_mothership, sent_heartbeat,
}
use drone_swarm_lab.Autonomy.Fsm.{track_gcs, autonomy_step, no_output}
use drone_swarm_lab.Autonomy.Fsm.Gcs.{gcs_return_restores, run_gcs}
use drone_swarm_lab.Autonomy.Fsm.Silence.{
  IsGuarded, silent_gcs-IsGuarded, mothership_abort_forgotten, parent_steps,
}

abbrev one_lease : ActiveLeaseRecord
one_lease = record {
  lease_id = "lease-1";
  resource_id = "edge-1";
  resource_kind = "edge";
  granted_tick = 0;
  expiry_tick = 20;
}

abbrev scout_node : AgentNode ℕ
scout_node = record {
  own_id = "a1";
  peer_ids = "a2" ∷ "a3" ∷ [];
  tick_duration_ms = 100;
  autonomy = record default_config { neighbor_lost_policy = wait_for_reconnect 5 };
  mission_state = waiting_for_mission;
  gcs_id = some "gcs";
  last_gcs_heartbeat_tick = some 2;
  continuing_lease_expiry_tick = none;
  pre_gcs_loss_mission_state = none;
  last_peer_heartbeat_ticks = ("a2", 14) ∷ [];
  gcs_lost_since_tick = none;
  lost_peers_detected = [];
  active_leases = one_lease ∷ [];
  mothership_id = some "ship";
  last_mothership_heartbeat_tick = none;
  pre_neighbor_wait_mission_state = none;
  waiting_for_neighbor_reconnect_until = none;
}

abbrev lost_node : AgentNode ℕ
lost_node = record scout_node {
  mission_state = gcs_lost 12 "hover_in_place";
  gcs_lost_since_tick = some 12;
  pre_gcs_loss_mission_state = some waiting_for_mission;
}

abbrev as_millis : ℕ → ℕ
as_millis ms = ms

continues_under_lease :
    (track_gcs as_millis 12 [] scout_node no_output).0.mission_state
    ≡ continuing_under_lease "lease-1" 2000
unfolding track_gcs find any saturating_mul
continues_under_lease = refl

lease_runs_out :
    (run_gcs as_millis ((12, []) ∷ (19, "a2" ∷ []) ∷ (20, []) ∷ []) scout_node).mission_state
    ≡ gcs_lost 12 "hover_in_place"
unfolding run_gcs track_gcs find any
lease_runs_out = refl

step_reports :
    (autonomy_step as_millis 16 ("gcs" ∷ []) scout_node).1.neighbors_lost_this_tick ≡ "a3" ∷ []
unfolding autonomy_step HashMap.get HashMap.insert filter find any contains
step_reports = refl

gcs_return_restores_example :
    ((track_gcs as_millis 23
        ("gcs" ∷ [])
        (run_gcs as_millis ((12, []) ∷ (20, []) ∷ []) scout_node)
        no_output).0.mission_state
      ≡ waiting_for_mission)
    × ((track_gcs as_millis 23
          ("gcs" ∷ [])
          (run_gcs as_millis ((12, []) ∷ (20, []) ∷ []) scout_node)
          no_output).0.pre_gcs_loss_mission_state
        ≡ none)
unfolding sent_heartbeat any
gcs_return_restores_example =
    gcs_return_restores as_millis ((12, []) ∷ (20, []) ∷ []) 23 ("gcs" ∷ []) "gcs" scout_node
      no_output refl refl refl refl

silent_gcs-IsGuarded_example : IsGuarded 12 (track_gcs as_millis 12 [] scout_node no_output).0
unfolding sent_heartbeat any gcs_timeout
silent_gcs-IsGuarded_example =
    silent_gcs-IsGuarded as_millis 12 [] "gcs" scout_node no_output refl refl (ground arith)

mothership_abort_forgotten_example :
    ((track_mothership 60 [] lost_node).0.mission_state ≡ aborting "mothership_lost")
    × ((parent_steps as_millis 61
          ("gcs" ∷ "ship" ∷ [])
          (parent_steps as_millis 60 [] lost_node)).mission_state
        ≡ waiting_for_mission)
unfolding sent_heartbeat any track_mothership gcs_timeout
mothership_abort_forgotten_example =
    mothership_abort_forgotten as_millis 60 61 [] ("gcs" ∷ "ship" ∷ []) "gcs" "ship" lost_node
      waiting_for_mission refl refl refl refl refl (ground arith) refl refl
