-- ===== src/Command/Fanout.antt =====
-- crates/swarm-command-plane/src/fanout.rs, with the default topology and the routes of a plan
-- (topology.rs): the building of a command plan. The MAVLink compiler is an argument: whether it
-- accepts the commands of an agent, and if not, its error as a text; its plan is only carried along
-- in the program. `none` is a search that the fuel did not suffice for.
pub mod Ends
pub mod Central
use Prim.Native.String.{◌++◌ as text_append}
use drone_swarm_lab.Base.{
  ℕ, String, Bool, true, false, not, ◌&&◌, ◌==◌, if◌then◌else◌, is_some, text_le, Option, none,
  some, List, [], ◌∷◌, ◌++◌, map, filter, any, Result, ok, err, ◌>>=◌,
}
use drone_swarm_lab.HashMap.Laws.{map_option}
use drone_swarm_lab.Connectivity.{Floats}
use drone_swarm_lab.Command.{
  SwarmCommandRole, SwarmSupervisorState, SwarmAbortPolicy, SwarmOwnershipRef, SwarmOwnershipRecord,
  SynchronizedCommandWindow, SwarmTopologyKind, SwarmTopologyNodeKind, SwarmTopologyNode,
  SwarmTopologyLink, SwarmTopologyConfig, SwarmTransportAssumptions, SwarmTransportDeliveryModel,
  SwarmCommandRoute, SwarmAgentCommandPlan, SwarmCommandPlan, SwarmCommandArtifactSummary,
  MissionCommandEntry, swarm_command_plane_schema_version,
}
use drone_swarm_lab.Command.Policy.{SwarmCommandPlaneError}
use drone_swarm_lab.Command.Summary.{summarize_swarm_command_plan}
use drone_swarm_lab.Command.Topology.{route_between}
use drone_swarm_lab.Command.Validation.{Checked, validate_swarm_command_plan}
use drone_swarm_lab.Command.Validation.Topology.{validate_topology}

abbrev pub default_gcs_node_id : String
default_gcs_node_id = "gcs"

unfoldable pub agent_node_id : String → String
agent_node_id agent_id = text_append "agent:" agent_id

unfoldable pub gcs_node : SwarmTopologyNode
gcs_node = record {
  node_id = default_gcs_node_id;
  agent_id = none;
  kind = SwarmTopologyNodeKind.gcs;
  available = true;
}

unfoldable pub agent_node : SwarmAgentCommandPlan → SwarmTopologyNode
unfolding agent_node_id
agent_node agent = record {
  node_id = agent_node_id agent.agent_id;
  agent_id = some agent.agent_id;
  kind = SwarmTopologyNodeKind.agent;
  available = true;
}

-- `sort_by` on the node ids, which keeps the order of equal ones.
unfoldable pub insert_node : SwarmTopologyNode → List SwarmTopologyNode → List SwarmTopologyNode
insert_node n [] = n ∷ []
insert_node n (k ∷ ks) =
    let rest = insert_node n ks in if text_le n.node_id k.node_id then n ∷ k ∷ ks else k ∷ rest

unfoldable pub sort_nodes : List SwarmTopologyNode → List SwarmTopologyNode
unfolding insert_node
sort_nodes [] = []
sort_nodes (n ∷ ns) = insert_node n (sort_nodes ns)

abbrev pub is_p2p : SwarmTopologyKind → Bool
is_p2p SwarmTopologyKind.p2p_logical = true
is_p2p _ = false

-- A route that is pushed if no other has its id.
unfoldable pub push_route : List SwarmCommandRoute → SwarmCommandRoute → List SwarmCommandRoute
unfolding any
push_route routes route =
    if any (λ existing. existing.route_id == route.route_id) routes
    then routes
    else routes ++ route ∷ []

module _ {F : Type 0} (floats : Floats F) where
  unfoldable pub central_link : String → String → String → SwarmTopologyLink F
  central_link from to reason = record {
    from_node_id = from;
    to_node_id = to;
    available = true;
    delay_ms = some 0;
    drop_rate = some (floats.of_usize 0);
    reason = some reason;
  }

  unfoldable pub central_links : List SwarmAgentCommandPlan → List (SwarmTopologyLink F)
  unfolding central_link agent_node_id
  central_links [] = []
  central_links (agent ∷ agents) =
      let node_id = agent_node_id agent.agent_id in
      central_link default_gcs_node_id node_id "centralized_gcs_command_path"
      ∷ central_link node_id default_gcs_node_id "centralized_gcs_ack_path"
      ∷ central_links agents

  unfoldable pub in_memory_logical : SwarmTransportAssumptions F
  in_memory_logical = record {
    delivery_model = SwarmTransportDeliveryModel.in_memory;
    max_delay_ms = some 0;
    drop_rate = some (floats.of_usize 0);
    hardware_boundary =
        "logical command-plane routing only; no RF mesh or hardware transport guarantee";
  }

  unfoldable pub centralized_gcs_for_agents : List SwarmAgentCommandPlan → SwarmTopologyConfig F
  unfolding gcs_node agent_node central_links in_memory_logical
  centralized_gcs_for_agents agents = record {
    kind = SwarmTopologyKind.centralized_gcs;
    gcs_node_id = default_gcs_node_id;
    nodes = gcs_node ∷ map agent_node agents;
    links = central_links agents;
    transport = in_memory_logical;
    mothership_dependencies = [];
  }

  unfoldable pub gcs_routes :
      SwarmTopologyConfig F → List SwarmAgentCommandPlan → Option (List SwarmCommandRoute)
  unfolding route_between
  gcs_routes t [] = some []
  gcs_routes t (agent ∷ agents) = elim (route_between floats t t.gcs_node_id agent.agent_id) [
    | none ↦ none
    | some route ↦ map_option (λ routes. route ∷ routes) (gcs_routes t agents)
  ]

  unfoldable pub add_peer_route :
      SwarmTopologyConfig F
      → SwarmTopologyNode
      → SwarmTopologyNode
      → List SwarmCommandRoute
      → Option (List SwarmCommandRoute)
  unfolding route_between push_route
  add_peer_route t source target routes =
      if source.node_id == target.node_id then some routes else elim target.agent_id [
        | none ↦ some routes
        | some id ↦ map_option (push_route routes) (route_between floats t source.node_id id)
      ]

  unfoldable pub add_targets :
      SwarmTopologyConfig F
      → SwarmTopologyNode
      → List SwarmTopologyNode
      → List SwarmCommandRoute
      → Option (List SwarmCommandRoute)
  unfolding add_peer_route
  add_targets t source [] routes = some routes
  add_targets t source (target ∷ targets) routes = elim (add_peer_route t source target routes) [
    | none ↦ none
    | some routes' ↦ add_targets t source targets routes'
  ]

  unfoldable pub add_sources :
      SwarmTopologyConfig F
      → List SwarmTopologyNode
      → List SwarmTopologyNode
      → List SwarmCommandRoute
      → Option (List SwarmCommandRoute)
  unfolding add_targets
  add_sources t nodes [] routes = some routes
  add_sources t nodes (source ∷ sources) routes = elim (add_targets t source nodes routes) [
    | none ↦ none
    | some routes' ↦ add_sources t nodes sources routes'
  ]

  unfoldable pub route_command_plan :
      SwarmTopologyConfig F → List SwarmAgentCommandPlan → Option (List SwarmCommandRoute)
  unfolding gcs_routes add_sources sort_nodes filter
  route_command_plan t agents =
      let nodes = sort_nodes (filter (λ n. is_some n.agent_id) t.nodes) in
      elim (gcs_routes t agents) [
        | none ↦ none
        | some routes ↦ if is_p2p t.kind then add_sources t nodes nodes routes else some routes
      ]

-- One command-plane input assignment for an agent.
pub record AgentCommandAssignment : Type 0 where
  pub agent_id : String
  pub role : SwarmCommandRole
  pub commands : List MissionCommandEntry
  pub abort_policy : SwarmAbortPolicy
  pub ownership_refs : List SwarmOwnershipRef

pub record SwarmCommandFanoutInput (F : Type 0) : Type 0 where
  pub plan_id : String
  pub assignments : List AgentCommandAssignment
  pub ownership : List SwarmOwnershipRecord
  pub global_abort_policy : SwarmAbortPolicy
  pub sync_operations : List SynchronizedCommandWindow
  pub topology : Option (SwarmTopologyConfig F)

abbrev pub Compiler : Type 0
Compiler = List MissionCommandEntry → Result String (Unit {0})

unfoldable pub agent_plan : AgentCommandAssignment → SwarmAgentCommandPlan
agent_plan a = record {
  agent_id = a.agent_id;
  role = a.role;
  commands = a.commands;
  abort_policy = a.abort_policy;
  ownership_refs = a.ownership_refs;
}

unfoldable pub agent_plans :
    Compiler
    → List AgentCommandAssignment
    → Result SwarmCommandPlaneError (List SwarmAgentCommandPlan)
unfolding agent_plan
agent_plans compile [] = ok []
agent_plans compile (a ∷ as_) = elim (compile a.commands) [
  | err error ↦ err (SwarmCommandPlaneError.unsupported_schema error)
  | ok _ ↦ agent_plans compile as_ >>= λ plans. ok (agent_plan a ∷ plans)
]

unfoldable pub default_summary : SwarmCommandArtifactSummary
default_summary = record {
  schema_version = "";
  plan_id = "";
  agent_plan_count = 0;
  active_ownership_count = 0;
  handoff_count = 0;
  sync_operation_count = 0;
  topology_kind = none;
  topology_node_count = 0;
  topology_link_count = 0;
  command_route_count = 0;
  degraded_route_count = 0;
  mothership_dependency_count = 0;
}

module _ {F : Type 0} where
  unfoldable pub planned :
      SwarmCommandFanoutInput F
      → List SwarmAgentCommandPlan
      → SwarmTopologyConfig F
      → List SwarmCommandRoute
      → SwarmCommandPlan F
  unfolding default_summary summarize_swarm_command_plan
  planned input agents topology routes =
      let plan : SwarmCommandPlan F = record {
        schema_version = swarm_command_plane_schema_version;
        plan_id = input.plan_id;
        supervisor_state = SwarmSupervisorState.planned;
        agents = agents;
        ownership = input.ownership;
        handoffs = [];
        global_abort_policy = input.global_abort_policy;
        sync_operations = input.sync_operations;
        sync_results = [];
        topology = some topology;
        command_routes = routes;
        summary = default_summary;
      } in
      record plan { summary = summarize_swarm_command_plan plan }

module _ {F : Type 0} (floats : Floats F) where
  -- validate_swarm_command_plan with the check of its topology.
  unfoldable pub validate_whole_plan : SwarmCommandPlan F → Option Checked
  unfolding validate_swarm_command_plan validate_topology
  validate_whole_plan plan = elim plan.topology [
    | none ↦ some (validate_swarm_command_plan (λ p t. ok tt) plan)
    | some topology ↦
        map_option (λ checked. validate_swarm_command_plan (λ p t. checked) plan)
          (validate_topology floats plan topology)
  ]

  unfoldable pub build_with :
      SwarmCommandFanoutInput F
      → List SwarmAgentCommandPlan
      → Option (Result SwarmCommandPlaneError (SwarmCommandPlan F))
  unfolding centralized_gcs_for_agents route_command_plan planned validate_whole_plan
  build_with input agents =
      let topology : SwarmTopologyConfig F = elim input.topology [
        | none ↦ centralized_gcs_for_agents floats agents
        | some t ↦ t
      ] in
      elim (route_command_plan floats topology agents) [
        | none ↦ none
        | some routes ↦
            let plan = planned input agents topology routes in
            map_option (λ (checked : Checked). checked >>= λ _. ok plan) (validate_whole_plan plan)
      ]

  unfoldable pub build_swarm_command_plan :
      Compiler
      → SwarmCommandFanoutInput F
      → Option (Result SwarmCommandPlaneError (SwarmCommandPlan F))
  unfolding agent_plans build_with
  build_swarm_command_plan compile input = elim (agent_plans compile input.assignments) [
    | err e ↦ some (err e)
    | ok agents ↦ build_with input agents
  ]
