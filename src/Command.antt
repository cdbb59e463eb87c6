-- ===== src/Command.antt =====
-- crates/swarm-command-plane/src/types.rs: the command plan of a swarm. Of the plan of an agent
-- there are the parts that the command plane reads: the MAVLink plan, its acknowledgements and its
-- milestones are only carried along, and left out. `F` stands for `f64`.
pub mod Policy
pub mod Sync
pub mod Validation
pub mod Summary
pub mod Topology
pub mod Fanout
use drone_swarm_lab.Base.{ℕ, String, Bool, Option, List, nat_eq, ◌≡◌, ◌↔◌, true, arith}

pub data SwarmCommandRole : Type 0 where
  scout observer relay leader coordinator mothership carrier reserve recovery : SwarmCommandRole

pub data SwarmSupervisorState : Type 0 where
  planned dispatched active degraded replacing aborting completed failed : SwarmSupervisorState

pub data SwarmAbortPolicy : Type 0 where
  abort_agent_only abort_mission continue_degraded replace_from_reserve : SwarmAbortPolicy

pub data SwarmOwnershipKind : Type 0 where
  task route_segment target replacement_mission : SwarmOwnershipKind

pub data SwarmOwnershipStatus : Type 0 where
  active released : SwarmOwnershipStatus

pub record SwarmOwnershipRef : Type 0 where
  pub kind : SwarmOwnershipKind
  pub resource_id : String

pub record SwarmOwnershipRecord : Type 0 where
  pub agent_id : String
  pub kind : SwarmOwnershipKind
  pub resource_id : String
  pub status : SwarmOwnershipStatus
  pub tick : ℕ
  pub reason : String

pub record SwarmOwnershipHandoff : Type 0 where
  pub from_agent_id : String
  pub to_agent_id : String
  pub kind : SwarmOwnershipKind
  pub resource_id : String
  pub tick : ℕ
  pub reason : String

pub data SynchronizedCommandKind : Type 0 where
  arm_all takeoff_all start_all abort_all : SynchronizedCommandKind

pub data PartialSuccessPolicy : Type 0 where
  require_all : PartialSuccessPolicy
  at_least : ℕ → PartialSuccessPolicy

pub record SynchronizedCommandWindow : Type 0 where
  pub kind : SynchronizedCommandKind
  pub agent_ids : List String
  pub timeout_ms : ℕ
  pub partial_success_policy : PartialSuccessPolicy

pub record SynchronizedCommandResult : Type 0 where
  pub kind : SynchronizedCommandKind
  pub succeeded : List String
  pub failed : List String
  pub timed_out : List String
  pub accepted : Bool

pub data SwarmTopologyKind : Type 0 where
  centralized_gcs p2p_logical mothership relay mesh : SwarmTopologyKind

pub data SwarmTopologyNodeKind : Type 0 where
  gcs agent relay mothership carrier : SwarmTopologyNodeKind

pub data SwarmTransportDeliveryModel : Type 0 where
  in_memory logical legacy_udp future_mavlink_router : SwarmTransportDeliveryModel

pub record SwarmTransportAssumptions (F : Type 0) : Type 0 where
  pub delivery_model : SwarmTransportDeliveryModel
  pub max_delay_ms : Option ℕ
  pub drop_rate : Option F
  pub hardware_boundary : String

pub record SwarmTopologyNode : Type 0 where
  pub node_id : String
  pub agent_id : Option String
  pub kind : SwarmTopologyNodeKind
  pub available : Bool

pub record SwarmTopologyLink (F : Type 0) : Type 0 where
  pub from_node_id : String
  pub to_node_id : String
  pub available : Bool
  pub delay_ms : Option ℕ
  pub drop_rate : Option F
  pub reason : Option String

pub record SwarmMothershipDependency : Type 0 where
  pub parent_agent_id : String
  pub child_agent_id : String
  pub dependency_kind : String
  pub reason : String

pub record SwarmTopologyConfig (F : Type 0) : Type 0 where
  pub kind : SwarmTopologyKind
  pub gcs_node_id : String
  pub nodes : List SwarmTopologyNode
  pub links : List (SwarmTopologyLink F)
  pub transport : SwarmTransportAssumptions F
  pub mothership_dependencies : List SwarmMothershipDependency

pub record SwarmCommandRoute : Type 0 where
  pub route_id : String
  pub from_node_id : String
  pub to_agent_id : String
  pub via_node_ids : List String
  pub allowed : Bool
  pub degraded : Bool
  pub reason : String

-- The entries of a mission plan, with the parts that the command plane reads.
pub record MissionCommandEntry : Type 0 where
  pub command_id : String
  pub source_agent_id : Option String

pub record SwarmAgentCommandPlan : Type 0 where
  pub agent_id : String
  pub role : SwarmCommandRole
  pub commands : List MissionCommandEntry
  pub abort_policy : SwarmAbortPolicy
  pub ownership_refs : List SwarmOwnershipRef

pub record SwarmCommandArtifactSummary : Type 0 where
  pub schema_version : String
  pub plan_id : String
  pub agent_plan_count : ℕ
  pub active_ownership_count : ℕ
  pub handoff_count : ℕ
  pub sync_operation_count : ℕ
  pub topology_kind : Option SwarmTopologyKind
  pub topology_node_count : ℕ
  pub topology_link_count : ℕ
  pub command_route_count : ℕ
  pub degraded_route_count : ℕ
  pub mothership_dependency_count : ℕ

pub record SwarmCommandPlan (F : Type 0) : Type 0 where
  pub schema_version : String
  pub plan_id : String
  pub supervisor_state : SwarmSupervisorState
  pub agents : List SwarmAgentCommandPlan
  pub ownership : List SwarmOwnershipRecord
  pub handoffs : List SwarmOwnershipHandoff
  pub global_abort_policy : SwarmAbortPolicy
  pub sync_operations : List SynchronizedCommandWindow
  pub sync_results : List SynchronizedCommandResult
  pub topology : Option (SwarmTopologyConfig F)
  pub command_routes : List SwarmCommandRoute
  pub summary : SwarmCommandArtifactSummary

abbrev pub swarm_command_plane_schema_version : String
swarm_command_plane_schema_version = "swarm_command_plane.v1"

-- The tests that the code makes with the derived equalities and with `matches!`.
unfoldable pub kind_index : SwarmOwnershipKind → ℕ
kind_index SwarmOwnershipKind.task = 0
kind_index SwarmOwnershipKind.route_segment = 1
kind_index SwarmOwnershipKind.target = 2
kind_index SwarmOwnershipKind.replacement_mission = 3

unfoldable pub is_active : SwarmOwnershipStatus → Bool
is_active SwarmOwnershipStatus.active = true
is_active SwarmOwnershipStatus.released = Bool.false

unfoldable pub is_reserve : SwarmCommandRole → Bool
is_reserve SwarmCommandRole.reserve = true
is_reserve SwarmCommandRole.recovery = true
is_reserve _ = Bool.false

unfoldable pub is_replacing : SwarmAbortPolicy → Bool
is_replacing SwarmAbortPolicy.replace_from_reserve = true
is_replacing _ = Bool.false

unfoldable pub is_mission_abort : SwarmAbortPolicy → Bool
is_mission_abort SwarmAbortPolicy.abort_mission = true
is_mission_abort _ = Bool.false
