-- ===== src/Mavlink.antt =====
-- crates/swarm-comms/src/mavlink/{types, errors, observer}.rs: what the upload of a mission
-- handles. Of the MAVLink dialect there are the messages that the code builds or reads, with the
-- fields that it fills in; all others are `other`. `G` stands for `f32`, and `Ack` for the
-- dialect's results of a mission.
pub mod Session
pub mod Items
pub mod Upload
use drone_swarm_lab.Base.{ℕ, String, Bool, Option, List}

pub data ℤ : Type 0 where
  pos : ℕ → ℤ
  negsuc : ℕ → ℤ

pub record Waypoint (F : Type 0) : Type 0 where
  pub x : F
  pub y : F
  pub z : F
  pub seq : ℕ

pub record MissionHomeOrigin (F : Type 0) : Type 0 where
  pub lat_deg : F
  pub lon_deg : F
  pub alt_m : F

pub data MissionFrame : Type 0 where
  global_relative_alt local_ned : MissionFrame

pub record MissionUploadOptions (F : Type 0) : Type 0 where
  pub target_system : ℕ
  pub target_component : ℕ
  pub timeout : ℕ
  pub retry_count : ℕ
  pub clear_existing : Bool
  pub home_origin : MissionHomeOrigin F
  pub frame : MissionFrame

pub record MissionUploadReport (Ack : Type 0) : Type 0 where
  pub uploaded_count : ℕ
  pub target_system : ℕ
  pub target_component : ℕ
  pub ack : Ack
  pub cleared_existing : Bool

pub data MissionItem (F G : Type 0) : Type 0 where
  goto : Waypoint F → MissionItem F G
  loiter_time : Waypoint F → G → G → MissionItem F G
  loiter_turns : Waypoint F → G → G → MissionItem F G
  land : Waypoint F → MissionItem F G

-- The commands of the dialect that the code names.
pub data MavCmd : Type 0 where
  nav_waypoint nav_loiter_time nav_loiter_turns nav_land : MavCmd
  nav_fence_circle_inclusion nav_fence_circle_exclusion : MavCmd
  nav_fence_polygon_vertex_inclusion nav_fence_polygon_vertex_exclusion : MavCmd

pub data MavFrame : Type 0 where
  global_relative_alt_int : MavFrame

pub record MissionItemInt (G : Type 0) : Type 0 where
  pub param1 : G
  pub param2 : G
  pub param3 : G
  pub param4 : G
  pub x : ℤ
  pub y : ℤ
  pub z : G
  pub seq : ℕ
  pub command : MavCmd
  pub target_system : ℕ
  pub target_component : ℕ
  pub frame : MavFrame
  pub current : ℕ
  pub autocontinue : ℕ

pub data CommonMessage (G Ack : Type 0) : Type 0 where
  heartbeat other : CommonMessage G Ack
  mission_request_int mission_request : ℕ → CommonMessage G Ack
  mission_ack : Ack → CommonMessage G Ack
  mission_clear_all : ℕ → ℕ → CommonMessage G Ack
  mission_count : ℕ → ℕ → ℕ → CommonMessage G Ack
  mission_item_int : MissionItemInt G → CommonMessage G Ack

pub data MavlinkMissionError (Ack : Type 0) : Type 0 where
  empty_mission heartbeat_timeout mission_ack_timeout unsupported_frame : MavlinkMissionError Ack
  too_many_waypoints mission_request_timeout : ℕ → MavlinkMissionError Ack
  unexpected_request_seq : ℕ → ℕ → MavlinkMissionError Ack
  mission_rejected : Ack → MavlinkMissionError Ack
  conversion write_failed read_failed : String → MavlinkMissionError Ack

pub data MavlinkMissionEvent : Type 0 where
  heartbeat_seen mission_clear_sent : MavlinkMissionEvent
  mission_count_sent mission_item_requested mission_item_sent : ℕ → MavlinkMissionEvent
  mission_ack_received : String → Bool → MavlinkMissionEvent
  command_sent : String → MavlinkMissionEvent
  command_ack_received : String → String → Bool → MavlinkMissionEvent
  abort_requested : String → MavlinkMissionEvent
