-- ===== src/Mavlink/Upload.antt =====
-- crates/swarm-comms/src/mavlink/mission_upload.rs: the upload of a mission, which answers the
-- vehicle's requests for its items, and its retries. The three kinds of items have one text in the
-- code but for the message of an item, which is the argument `encode` here. Every wait has the fuel
-- of the section.
pub mod Trace
pub mod Success
use drone_swarm_lab.Base.{
  ℕ, zero, suc, ◌%◌, ◌^◌, String, Bool, true, false, nat_eq, ltb, is_empty, if◌then◌else◌, Option,
  none, some, List, [], ◌∷◌, ◌++◌, length, Result, ok, err,
}
use drone_swarm_lab.Mavlink.{
  Waypoint, MissionUploadOptions, MissionUploadReport, MissionItem, CommonMessage,
  MavlinkMissionError, MavlinkMissionEvent,
}
use drone_swarm_lab.Mavlink.CommonMessage.{
  heartbeat, mission_request_int, mission_request, mission_ack, mission_clear_all, mission_count,
}
use drone_swarm_lab.Mavlink.MavlinkMissionError.{
  empty_mission, heartbeat_timeout, mission_ack_timeout, too_many_waypoints,
  mission_request_timeout, unexpected_request_seq, mission_rejected, write_failed, read_failed,
}
use drone_swarm_lab.Mavlink.MavlinkMissionEvent.{
  heartbeat_seen, mission_clear_sent, mission_count_sent, mission_item_requested, mission_item_sent,
  mission_ack_received,
}
use drone_swarm_lab.Mavlink.Session.{
  Vehicle, Session, M, ◌>>=◌, ◌>>◌, lift, on_event, send_message, recv_matching,
}
use drone_swarm_lab.Mavlink.Items.{
  Numbers, MavlinkCommonMissionItem, sequenced, waypoint_to_mission_item_int, mission_item_to_int,
  precompiled_mission_item_to_int,
}

-- `as u16`
abbrev pub as_u16 : ℕ → ℕ
as_u16 n = n % 65536

module _ {Ack : Type 0} where
  unfoldable pub is_retryable : MavlinkMissionError Ack → Bool
  is_retryable heartbeat_timeout = true
  is_retryable (mission_request_timeout seq) = true
  is_retryable mission_ack_timeout = true
  is_retryable (write_failed e) = true
  is_retryable (read_failed e) = true
  is_retryable _ = false

  unfoldable pub validate_requested_seq :
      ℕ → ℕ → Option (Result (MavlinkMissionError Ack) (Unit {0}))
  validate_requested_seq expected actual =
      if nat_eq actual expected
      then some (ok tt)
      else some (err (unexpected_request_seq expected actual))

module _ {G Ack : Type 0} where
  -- What the three waits look for.
  unfoldable pub is_heartbeat : CommonMessage G Ack → Option (Unit {0})
  is_heartbeat heartbeat = some tt
  is_heartbeat _ = none

  unfoldable pub requested_seq :
      ℕ → CommonMessage G Ack → Option (Result (MavlinkMissionError Ack) (Unit {0}))
  unfolding validate_requested_seq
  requested_seq expected (mission_request_int seq) = validate_requested_seq expected seq
  requested_seq expected (mission_request seq) = validate_requested_seq expected seq
  requested_seq expected _ = none

  unfoldable pub ack_result : CommonMessage G Ack → Option Ack
  ack_result (mission_ack ack) = some ack
  ack_result _ = none

  module _ (vehicle : Vehicle G Ack) (fuel : ℕ) where
    unfoldable pub wait_for_heartbeat : ℕ → M G Ack (Unit {0})
    unfolding recv_matching is_heartbeat
    wait_for_heartbeat timeout = recv_matching vehicle fuel timeout is_heartbeat heartbeat_timeout

    unfoldable pub wait_for_mission_request : ℕ → ℕ → M G Ack (Unit {0})
    unfolding recv_matching requested_seq
    wait_for_mission_request expected_seq timeout = do
      answer ←
          recv_matching vehicle fuel timeout (requested_seq expected_seq)
            (mission_request_timeout expected_seq)
      lift answer

    unfoldable pub wait_for_mission_ack : ℕ → M G Ack Ack
    unfolding recv_matching ack_result
    wait_for_mission_ack timeout = recv_matching vehicle fuel timeout ack_result mission_ack_timeout

    module _ {F A : Type 0}
        (encode : ℕ → A → Result (MavlinkMissionError Ack) (CommonMessage G Ack))
        (options : MissionUploadOptions F) where
      -- The body of the loop over the items.
      unfoldable pub send_item : ℕ → A → M G Ack (Unit {0})
      unfolding wait_for_mission_request on_event send_message
      send_item seq item = do
        wait_for_mission_request seq options.timeout
        on_event (mission_item_requested seq)
        msg ← lift (encode seq item)
        send_message vehicle msg
        on_event (mission_item_sent seq)

      -- The items from the given index on.
      unfoldable pub send_items : ℕ → List A → M G Ack (Unit {0})
      unfolding send_item
      send_items index [] = lift (ok tt)
      send_items index (item ∷ items) = do
        send_item (as_u16 index) item
        send_items (suc index) items

      unfoldable pub clear_mission : M G Ack (Unit {0})
      unfolding send_message on_event
      clear_mission =
          if options.clear_existing
          then send_message vehicle
              (mission_clear_all options.target_system options.target_component)
            >> on_event mission_clear_sent
          else lift (ok tt)

      unfoldable pub finish_upload :
          ℕ → Ack → Result (MavlinkMissionError Ack) (MissionUploadReport Ack)
      finish_upload count ack =
          if vehicle.is_accepted ack
          then ok record {
            uploaded_count = count;
            target_system = options.target_system;
            target_component = options.target_component;
            ack = ack;
            cleared_existing = options.clear_existing;
          }
          else err (mission_rejected ack)

      unfoldable pub upload_attempt : List A → M G Ack (MissionUploadReport Ack)
      unfolding wait_for_heartbeat on_event clear_mission send_message send_items
          wait_for_mission_ack finish_upload
      upload_attempt items = do
        wait_for_heartbeat options.timeout
        on_event heartbeat_seen
        clear_mission
        send_message vehicle
            (mission_count (as_u16 (length items)) options.target_system options.target_component)
        on_event (mission_count_sent (length items))
        send_items 0 items
        ack ← wait_for_mission_ack options.timeout
        on_event (mission_ack_received (vehicle.show ack) (vehicle.is_accepted ack))
        lift (finish_upload (length items) ack)

      -- So many attempts, with the error of the last one.
      unfoldable pub attempts :
          List A → ℕ → Option (MavlinkMissionError Ack) → M G Ack (MissionUploadReport Ack)
      unfolding upload_attempt is_retryable
      attempts items zero none s = some (err mission_ack_timeout, s)
      attempts items zero (some e) s = some (err e, s)
      attempts items (suc n) last s = elim (upload_attempt items s) [
        | none ↦ none
        | some (ok report, s') ↦ some (ok report, s')
        | some (err e, s') ↦
            let rest = attempts items n (some e) s' in
            if is_retryable e then rest else some (err e, s')
      ]

      unfoldable pub upload : List A → M G Ack (MissionUploadReport Ack)
      unfolding attempts
      upload items =
          if is_empty items
          then lift (err empty_mission)
          else if ltb 65535 (length items)
          then lift (err (too_many_waypoints (length items)))
          else attempts items (suc options.retry_count) none

    module _ {F : Type 0} (numbers : Numbers F G) (options : MissionUploadOptions F) where
      unfoldable pub upload_mission_with_connection_observed :
          List (Waypoint F) → M G Ack (MissionUploadReport Ack)
      unfolding upload waypoint_to_mission_item_int
      upload_mission_with_connection_observed =
          upload (λ seq w. waypoint_to_mission_item_int numbers options (record w { seq = seq }))
            options

      unfoldable pub upload_mission_items_with_connection_observed :
          List (MissionItem F G) → M G Ack (MissionUploadReport Ack)
      unfolding upload mission_item_to_int sequenced
      upload_mission_items_with_connection_observed =
          upload (λ seq item. mission_item_to_int numbers options (sequenced seq item)) options

      unfoldable pub upload_precompiled_mission_items_with_connection_observed :
          List (MavlinkCommonMissionItem F G) → M G Ack (MissionUploadReport Ack)
      unfolding upload precompiled_mission_item_to_int
      upload_precompiled_mission_items_with_connection_observed =
          upload (λ seq item. precompiled_mission_item_to_int numbers options item seq) options
