-- ===== src/Types.antt =====
-- crates/swarm-types/src/{pose, task, agent}.rs: the data that the components share. Ids and
-- capabilities are newtypes over `String` there, and texts here. `F` stands for `f64`, of which
-- nothing is computed here.
use drone_swarm_lab.Base.{ℕ, String, ◌≡◌, ◌↔◌, Bool, true, Option, List, arith, nat_eq}

-- 3D position.
pub record Pose (F : Type 0) : Type 0 where
  pub x : F
  pub y : F
  pub z : F

pub data TaskStatus : Type 0 where
  unassigned assigned in_progress completed failed : TaskStatus

pub data TaskKind : Type 0 where
  coverage_cell sar_scan sar_confirmation_scan inspection_edge relay_placement waypoint : TaskKind
  mapping_zone : TaskKind

pub data Health : Type 0 where
  alive degraded dead : Health

pub data Role : Type 0 where
  scout relay mapper inspector carrier thermal : Role

pub record Task (F : Type 0) : Type 0 where
  pub id : String
  pub status : TaskStatus
  pub assigned_to : Option String
  pub priority : ℕ
  pub required_capabilities : List String
  pub required_role : Option Role
  pub preferred_role : Option Role
  pub expires_at : Option ℕ
  pub pose : Option (Pose F)
  pub grid_cell : Option (ℕ × ℕ)
  pub edge_id : Option String
  pub kind : Option TaskKind

-- Drain rates for each activity.
pub record BatteryModel (F : Type 0) : Type 0 where
  pub hover_drain_per_tick : F
  pub climb_drain_per_meter : F
  pub cruise_drain_per_meter : F
  pub reserve_fraction : F

pub record Agent (F : Type 0) : Type 0 where
  pub id : String
  pub role : Role
  pub health : Health
  pub pose : Pose F
  pub capabilities : List String
  pub current_task : Option String
  pub battery : F
  pub comms_range : F
  pub generation : ℕ
  pub speed : F
  pub max_range : F
  pub battery_drain_rate : F
  pub battery_model : Option (BatteryModel F)

-- The discriminant, by which the derived equality compares.
status_index : TaskStatus → ℕ
status_index TaskStatus.unassigned = 0
status_index TaskStatus.assigned = 1
status_index TaskStatus.in_progress = 2
status_index TaskStatus.completed = 3
status_index TaskStatus.failed = 4

-- The derived `PartialEq` of `TaskStatus`.
unfoldable pub status_eq : TaskStatus → TaskStatus → Bool
unfolding status_index
status_eq s t = nat_eq (status_index s) (status_index t)

pub status_eq_iff : (s t : TaskStatus) → (status_eq s t ≡ true) ↔ (s ≡ t)
unfolding status_eq
status_eq_iff s t = ground arith

-- The derived equality of `Health`, against `Alive`.
unfoldable pub is_alive_health : Health → Bool
is_alive_health Health.alive = true
is_alive_health _ = Bool.false
