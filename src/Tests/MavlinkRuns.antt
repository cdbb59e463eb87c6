-- ===== src/Tests/MavlinkRuns.antt =====
-- Runs of mission uploads, with the natural numbers for `f32`, `f64` and the results of a mission.
use drone_swarm_lab.Base.{
  ℕ, zero, suc, ◌+◌, ◌<◌, String, ◌≡◌, refl, true, nat_eq, Option, none, some, List, [], ◌∷◌, ◌++◌,
  length, Result, ok, arith,
}
use drone_swarm_lab.Mavlink.{
  pos, Waypoint, MissionFrame, MissionUploadOptions, MissionUploadReport, CommonMessage,
  MavlinkMissionError, MavCmd, MavFrame,
}
use drone_swarm_lab.Mavlink.CommonMessage.{
  heartbeat, mission_request_int, mission_ack, mission_clear_all, mission_count, mission_item_int,
}
use drone_swarm_lab.Mavlink.MavlinkMissionError.{heartbeat_timeout, mission_request_timeout}
use drone_swarm_lab.Mavlink.MavlinkMissionEvent.{
  heartbeat_seen, mission_clear_sent, mission_count_sent, mission_item_requested, mission_item_sent,
  mission_ack_received,
}
use drone_swarm_lab.Mavlink.Session.{
  Vehicle, Session, recv_matching, recv_loop, ◌>>=◌, lift, on_event, send_message,
}
use drone_swarm_lab.Mavlink.Session.Waits.{recv_matching_ends, recv_matching_starves}
use drone_swarm_lab.Mavlink.Items.{
  Numbers, waypoint_to_mission_item_int, waypoint_to_mavlink_coordinate, to_mav_frame,
}
use drone_swarm_lab.Mavlink.Upload.{
  is_heartbeat, requested_seq, validate_requested_seq, ack_result, wait_for_heartbeat,
  wait_for_mission_request, wait_for_mission_ack, send_item, send_items, clear_mission,
  finish_upload, upload_attempt, attempts, upload,
}
use drone_swarm_lab.Mavlink.Upload.Trace.{encode_all, transaction, upload_sends_mission}
use drone_swarm_lab.Mavlink.Upload.Success.{upload_succeeds}

abbrev Message : Type 0
Message = CommonMessage ℕ ℕ

abbrev numbers : Numbers ℕ ℕ
numbers = record {
  local_to_mavlink_int =
      λ x y z home. ok (record { lat_e7 = pos x; lon_e7 = pos y; relative_alt_m = z });
  as_f32 = λ a. a;
  zero_f64 = 0;
  nan_f64 = 999;
  zero_f32 = 0;
  nan_f32 = 999;
}

abbrev options : MissionUploadOptions ℕ
options = record {
  target_system = 1;
  target_component = 1;
  timeout = 3;
  retry_count = 0;
  clear_existing = true;
  home_origin = record { lat_deg = 0; lon_deg = 0; alt_m = 0 };
  frame = MissionFrame.global_relative_alt;
}

abbrev waypoint : ℕ → Waypoint ℕ
waypoint x = record { x = x; y = 2; z = 3; seq = 0 }

-- The message that `upload_mission_with_connection_observed` sends for a waypoint.
abbrev encode : ℕ → Waypoint ℕ → Result (MavlinkMissionError ℕ) Message
encode seq w = waypoint_to_mission_item_int numbers options (record w { seq = seq })

-- The answers of a vehicle that follows the protocol, and is quiet afterwards.
abbrev answer : ℕ → Result String (Option Message)
answer zero = ok (some heartbeat)
answer (suc zero) = ok (some (mission_request_int 0))
answer (suc (suc zero)) = ok (some (mission_request_int 1))
answer (suc (suc (suc zero))) = ok (some (mission_ack 0))
answer _ = ok none

abbrev vehicle_of : (ℕ → Result String (Option Message)) → Vehicle ℕ ℕ
vehicle_of reads = record {
  try_recv = reads;
  send_error = λ i. none;
  now = λ j. j;
  is_accepted = λ ack. nat_eq ack 0;
  show = λ ack. "ack";
}

abbrev idle_session : Session ℕ ℕ
idle_session = record { received = 0; writes = 0; clock_reads = 0; sent = []; events = [] }

abbrev item_message : ℕ → ℕ → ℕ → Message
item_message x seq current = mission_item_int record {
  param1 = 0;
  param2 = 0;
  param3 = 0;
  param4 = 999;
  x = pos x;
  y = pos 2;
  z = 3;
  seq = seq;
  command = MavCmd.nav_waypoint;
  target_system = 1;
  target_component = 1;
  frame = MavFrame.global_relative_alt_int;
  current = current;
  autocontinue = 1;
}

abbrev item_messages : List Message
item_messages = item_message 10 0 1 ∷ item_message 20 1 0 ∷ []

items_encoded : encode_all encode 0 (waypoint 10 ∷ waypoint 20 ∷ []) ≡ ok item_messages
unfolding encode_all waypoint_to_mission_item_int waypoint_to_mavlink_coordinate to_mav_frame
items_encoded = refl

asks :
    (i : ℕ)
    → i < length (waypoint 10 ∷ waypoint 20 ∷ [])
    → (vehicle_of answer).try_recv (1 + i) ≡ ok (some (mission_request_int i))
asks zero h = refl
asks (suc zero) h = refl
asks (suc (suc i)) h = absurd (omega arith)

upload_succeeds_example :
    (report : MissionUploadReport ℕ) × (s' : Session ℕ ℕ) × (upload
        (vehicle_of answer)
        1
        encode
        options
        (waypoint 10 ∷ waypoint 20 ∷ [])
        idle_session
      ≡ some (ok report, s'))
    × (report.ack ≡ 0)
    × (report.uploaded_count ≡ 2)
upload_succeeds_example =
    upload_succeeds (vehicle_of answer) 0 (λ i. refl) encode options (waypoint 10)
      (waypoint 20 ∷ []) item_messages 0 idle_session (omega arith) items_encoded refl asks refl
      refl

abbrev report : MissionUploadReport ℕ
report = record {
  uploaded_count = 2;
  target_system = 1;
  target_component = 1;
  ack = 0;
  cleared_existing = true;
}

abbrev finish : Session ℕ ℕ
finish = record {
  received = 4;
  writes = 4;
  clock_reads = 4;
  sent = mission_clear_all 1 1 ∷ mission_count 2 1 1 ∷ item_messages;
  events =
      heartbeat_seen
      ∷ mission_clear_sent
      ∷ mission_count_sent 2
      ∷ mission_item_requested 0
      ∷ mission_item_sent 0
      ∷ mission_item_requested 1
      ∷ mission_item_sent 1
      ∷ mission_ack_received "ack" true
      ∷ [];
}

uploads :
    upload (vehicle_of answer) 1 encode options (waypoint 10 ∷ waypoint 20 ∷ []) idle_session
    ≡ some (ok report, finish)
unfolding upload attempts upload_attempt wait_for_heartbeat wait_for_mission_request
    wait_for_mission_ack send_items send_item clear_mission finish_upload is_heartbeat requested_seq
    validate_requested_seq ack_result recv_matching recv_loop ◌>>=◌ lift on_event send_message
    waypoint_to_mission_item_int waypoint_to_mavlink_coordinate to_mav_frame
uploads = refl

upload_sends_mission_example :
    (before item_msgs : List Message) × (finish.sent ≡ before ++ transaction options 2 item_msgs)
    × (encode_all encode 0 (waypoint 10 ∷ waypoint 20 ∷ []) ≡ ok item_msgs)
    × (report.uploaded_count ≡ 2)
    × (nat_eq report.ack 0 ≡ true)
upload_sends_mission_example =
    upload_sends_mission (vehicle_of answer) 1 encode options (waypoint 10 ∷ waypoint 20 ∷ [])
      idle_session finish report uploads

-- A vehicle that says nothing.
recv_matching_ends_example :
    (r : Result (MavlinkMissionError ℕ) (Unit {0}) × Session ℕ ℕ) × (recv_matching
        (vehicle_of (λ i. ok none))
        4
        3
        is_heartbeat
        heartbeat_timeout
        idle_session
      ≡ some r)
recv_matching_ends_example =
    recv_matching_ends (vehicle_of (λ i. ok none)) is_heartbeat heartbeat_timeout 0 3 3 idle_session
      (λ i h. refl) (λ j h. omega arith) 4 (omega arith)

-- Heartbeats while the upload waits for a request.
recv_matching_starves_example :
    recv_matching
      (vehicle_of (λ i. ok (some heartbeat)))
      9
      3
      (requested_seq 0)
      (mission_request_timeout 0)
      idle_session
    ≡ none
unfolding requested_seq
recv_matching_starves_example =
    recv_matching_starves (vehicle_of (λ i. ok (some heartbeat))) (requested_seq 0)
      (mission_request_timeout 0) (λ i. heartbeat) (λ i. refl) (λ i. refl) 9 3 idle_session
