-- ===== src/Mavlink/Items.antt =====
-- crates/swarm-comms/src/mavlink/mission_items.rs, and the items of mission_upload.rs: the messages
-- that carry the items of a mission. The conversion of coordinates (mavlink_coords.rs) and the
-- numbers of `f32` are arguments.
use drone_swarm_lab.Base.{
  ℕ, String, Bool, nat_eq, ◌==◌, if◌then◌else◌, Option, none, some, Result, ok, err, ◌>>=◌,
}
use drone_swarm_lab.Mavlink.{
  ℤ, pos, Waypoint, MissionHomeOrigin, MissionFrame, MissionUploadOptions, MissionItem, MavCmd,
  MavFrame, CommonMessage, MavlinkMissionError,
}
use drone_swarm_lab.Mavlink.MissionFrame.{global_relative_alt, local_ned}
use drone_swarm_lab.Mavlink.MissionItem.{goto, loiter_time, loiter_turns, land}
use drone_swarm_lab.Mavlink.CommonMessage.{mission_item_int}
use drone_swarm_lab.Mavlink.MavlinkMissionError.{unsupported_frame, conversion}

pub record MavlinkIntCoordinate (G : Type 0) : Type 0 where
  pub lat_e7 : ℤ
  pub lon_e7 : ℤ
  pub relative_alt_m : G

pub data MavlinkCommonCommandName : Type 0 where
  component_arm_disarm nav_takeoff nav_land nav_return_to_launch : MavlinkCommonCommandName
  nav_waypoint nav_loiter_time mission_start : MavlinkCommonCommandName
  fence_circle_inclusion fence_circle_exclusion : MavlinkCommonCommandName
  fence_polygon_vertex_inclusion fence_polygon_vertex_exclusion : MavlinkCommonCommandName
  do_fence_enable : MavlinkCommonCommandName

-- `params` is an array of four.
pub record MavlinkCommonMissionItem (F G : Type 0) : Type 0 where
  pub seq : ℕ
  pub command_id : String
  pub command : MavlinkCommonCommandName
  pub frame : String
  pub lat_e7 : ℤ
  pub lon_e7 : ℤ
  pub relative_alt_m : G
  pub params : Option F × Option F × Option F × Option F
  pub current : Bool
  pub autocontinue : Bool
  pub source_task_id : Option String
  pub source_route_id : Option String

-- `local_to_mavlink_int`, and what the code uses of the floats.
pub record Numbers (F G : Type 0) : Type 0 where
  pub local_to_mavlink_int :
      F → F → F → MissionHomeOrigin F → Result String (MavlinkIntCoordinate G)
  pub as_f32 : F → G
  pub zero_f64 : F
  pub nan_f64 : F
  pub zero_f32 : G
  pub nan_f32 : G

unfoldable pub to_mav_frame :
    {Ack : Type 0} → MissionFrame → Result (MavlinkMissionError Ack) MavFrame
to_mav_frame global_relative_alt = ok MavFrame.global_relative_alt_int
to_mav_frame local_ned = err unsupported_frame

unfoldable pub position : {F G : Type 0} → MissionItem F G → Waypoint F
position (goto p) = p
position (loiter_time p hold radius) = p
position (loiter_turns p turns radius) = p
position (land p) = p

-- The copy of an item with another sequence number.
unfoldable pub sequenced : {F G : Type 0} → ℕ → MissionItem F G → MissionItem F G
sequenced n (goto p) = goto (record p { seq = n })
sequenced n (loiter_time p hold radius) = loiter_time (record p { seq = n }) hold radius
sequenced n (loiter_turns p turns radius) = loiter_turns (record p { seq = n }) turns radius
sequenced n (land p) = land (record p { seq = n })

unfoldable pub common_mission_command_to_mavcmd :
    {Ack : Type 0} → MavlinkCommonCommandName → Result (MavlinkMissionError Ack) MavCmd
common_mission_command_to_mavcmd MavlinkCommonCommandName.nav_waypoint = ok MavCmd.nav_waypoint
common_mission_command_to_mavcmd MavlinkCommonCommandName.nav_loiter_time =
    ok MavCmd.nav_loiter_time
common_mission_command_to_mavcmd MavlinkCommonCommandName.nav_land = ok MavCmd.nav_land
common_mission_command_to_mavcmd MavlinkCommonCommandName.fence_circle_inclusion =
    ok MavCmd.nav_fence_circle_inclusion
common_mission_command_to_mavcmd MavlinkCommonCommandName.fence_circle_exclusion =
    ok MavCmd.nav_fence_circle_exclusion
common_mission_command_to_mavcmd MavlinkCommonCommandName.fence_polygon_vertex_inclusion =
    ok MavCmd.nav_fence_polygon_vertex_inclusion
common_mission_command_to_mavcmd MavlinkCommonCommandName.fence_polygon_vertex_exclusion =
    ok MavCmd.nav_fence_polygon_vertex_exclusion
common_mission_command_to_mavcmd _ = err unsupported_frame

param_or : {F G : Type 0} → Numbers F G → F → Option F → G
param_or numbers default none = numbers.as_f32 default
param_or numbers default (some p) = numbers.as_f32 p

module _ {F G Ack : Type 0} (numbers : Numbers F G) (options : MissionUploadOptions F) where
  unfoldable pub waypoint_to_mavlink_coordinate :
      Waypoint F → Result (MavlinkMissionError Ack) (MavlinkIntCoordinate G)
  waypoint_to_mavlink_coordinate w =
      elim (numbers.local_to_mavlink_int w.x w.y w.z options.home_origin) [
        | ok coord ↦ ok coord
        | err e ↦ err (conversion e)
      ]

  -- The message with its four parameters, position and command, in the options' frame.
  item_data :
      G
      → G
      → G
      → G
      → ℤ
      → ℤ
      → G
      → ℕ
      → MavCmd
      → Result (MavlinkMissionError Ack) (CommonMessage G Ack)
  unfolding to_mav_frame
  item_data p1 p2 p3 p4 x y z seq command = elim (to_mav_frame options.frame) [
    | err e ↦ err e
    | ok frame ↦ ok (
        mission_item_int record {
          param1 = p1;
          param2 = p2;
          param3 = p3;
          param4 = p4;
          x = x;
          y = y;
          z = z;
          seq = seq;
          command = command;
          target_system = options.target_system;
          target_component = options.target_component;
          frame = frame;
          current = if nat_eq seq 0 then 1 else 0;
          autocontinue = 1;
        })
  ]

  unfoldable pub waypoint_to_mission_item_int :
      Waypoint F → Result (MavlinkMissionError Ack) (CommonMessage G Ack)
  unfolding item_data waypoint_to_mavlink_coordinate
  waypoint_to_mission_item_int w = do
    coord ← waypoint_to_mavlink_coordinate w
    item_data numbers.zero_f32 numbers.zero_f32 numbers.zero_f32 numbers.nan_f32 coord.lat_e7
        coord.lon_e7 coord.relative_alt_m w.seq MavCmd.nav_waypoint

  -- The message of an item at a converted position.
  placed_item :
      MavlinkIntCoordinate G
      → MissionItem F G
      → Result (MavlinkMissionError Ack) (CommonMessage G Ack)
  unfolding item_data
  placed_item coord item = elim item [
    | goto p ↦
        item_data numbers.zero_f32 numbers.zero_f32 numbers.zero_f32 numbers.nan_f32 coord.lat_e7
          coord.lon_e7 coord.relative_alt_m p.seq MavCmd.nav_waypoint
    | loiter_time p hold_seconds radius_m ↦
        item_data hold_seconds radius_m numbers.zero_f32 numbers.zero_f32 coord.lat_e7 coord.lon_e7
          coord.relative_alt_m p.seq MavCmd.nav_loiter_time
    | loiter_turns p turns radius_m ↦
        item_data turns numbers.zero_f32 radius_m numbers.zero_f32 coord.lat_e7 coord.lon_e7
          coord.relative_alt_m p.seq MavCmd.nav_loiter_turns
    | land p ↦
        item_data numbers.zero_f32 numbers.zero_f32 numbers.zero_f32 numbers.nan_f32 (pos 0) (pos 0)
          numbers.zero_f32 p.seq MavCmd.nav_land
  ]

  unfoldable pub mission_item_to_int :
      MissionItem F G → Result (MavlinkMissionError Ack) (CommonMessage G Ack)
  unfolding placed_item waypoint_to_mavlink_coordinate position
  mission_item_to_int item = do
    coord ← waypoint_to_mavlink_coordinate (position item)
    placed_item coord item

  -- This one does not look at the frame of the options.
  unfoldable pub precompiled_mission_item_to_int :
      MavlinkCommonMissionItem F G → ℕ → Result (MavlinkMissionError Ack) (CommonMessage G Ack)
  unfolding param_or common_mission_command_to_mavcmd
  precompiled_mission_item_to_int item seq =
      if item.frame == "MAV_FRAME_GLOBAL_RELATIVE_ALT_INT"
      then elim (common_mission_command_to_mavcmd item.command) [
        | err e ↦ err e
        | ok command ↦ ok (
            mission_item_int record {
              param1 = param_or numbers numbers.zero_f64 item.params.0;
              param2 = param_or numbers numbers.zero_f64 item.params.1;
              param3 = param_or numbers numbers.zero_f64 item.params.2;
              param4 = param_or numbers numbers.nan_f64 item.params.3;
              x = item.lat_e7;
              y = item.lon_e7;
              z = item.relative_alt_m;
              seq = seq;
              command = command;
              target_system = options.target_system;
              target_component = options.target_component;
              frame = MavFrame.global_relative_alt_int;
              current = if nat_eq seq 0 then 1 else 0;
              autocontinue = if item.autocontinue then 1 else 0;
            })
      ]
      else err unsupported_frame
