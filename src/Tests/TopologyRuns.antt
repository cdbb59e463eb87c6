-- ===== src/Tests/TopologyRuns.antt =====
-- Runs of the routes of a command plan, on a topology with two agents behind the GCS.
use drone_swarm_lab.Base.{
  ℕ, ◌≡◌, refl, true, none, some, List, [], ◌∷◌, filter, find, any, contains, Result, ok, err,
  String, ◌⊎◌,
}
use drone_swarm_lab.HashMap.{get, insert, map_values}
use drone_swarm_lab.Connectivity.{neighbors, push_neighbor, all_neighbors, enough}
use drone_swarm_lab.Command.{
  SwarmTopologyKind, SwarmTopologyNodeKind, SwarmTopologyNode, SwarmTopologyLink,
  SwarmTransportDeliveryModel, SwarmMothershipDependency, SwarmTopologyConfig, SwarmCommandRoute,
  SwarmCommandRole, SwarmAbortPolicy, SwarmAgentCommandPlan, SwarmCommandPlan,
}
use drone_swarm_lab.Command.Policy.{SwarmCommandPlaneError}
use drone_swarm_lab.Command.Topology.{
  insert_id, sort_ids, dedup_after, dedup, visit_neighbors, follow, reconstruct_path, bfs_loop,
  available_nodes, add_link, add_links, adjacency, bfs_path, agent_node_id_in_topology,
  mothership_parent_node_id, is_open_link, available_link_exists, path_over, route_path_for_kind,
  route_over, route_reason, is_lossy, route_path_degraded, route_between,
}
use drone_swarm_lab.Command.Topology.Cycles.{
  dependency_graph, dfs_children, leave, dfs_cycle, find_cycle, graph_ids, has_mothership_cycle,
}
use drone_swarm_lab.Command.Topology.Ways.{Way}
use drone_swarm_lab.Command.Topology.Verdict.{depends, has_mothership_cycle_decides}
use drone_swarm_lab.Command.Topology.Routes.{OpenPath, stay, move}
use drone_swarm_lab.Command.Topology.Answers.{
  Allows, route_between-Allows, route_between_finds, route_between_finds_by_parent,
}
use drone_swarm_lab.Command.Validation.Topology.{
  first, last, ids_eq, all_linked, check_parent, check_expected, validate_command_route,
}
use drone_swarm_lab.Command.Validation.Topology.Own.{
  ParentsNeeded, validate_command_route-route_between,
}
use drone_swarm_lab.Command.Fanout.{
  default_gcs_node_id, Compiler, SwarmCommandFanoutInput, centralized_gcs_for_agents,
  build_swarm_command_plan,
}
use drone_swarm_lab.Command.Fanout.Ends.{build_swarm_command_plan_ends}
use drone_swarm_lab.Command.Fanout.Central.{centralized_gcs_for_agents_routes}
use drone_swarm_lab.Tests.NetworkRuns.{numbers}

abbrev link : String → String → SwarmTopologyLink ℕ
link from to = record {
  from_node_id = from;
  to_node_id = to;
  available = true;
  delay_ms = some 0;
  drop_rate = some 0;
  reason = none;
}

abbrev node : String → String → SwarmTopologyNode
node id agent_id = record {
  node_id = id;
  agent_id = some agent_id;
  kind = SwarmTopologyNodeKind.agent;
  available = true;
}

abbrev under : String → String → SwarmMothershipDependency
under parent child = record {
  parent_agent_id = parent;
  child_agent_id = child;
  dependency_kind = "mothership";
  reason = "";
}

-- The second agent is the child of the first, and the GCS has a link to each.
abbrev topology : SwarmTopologyKind → SwarmTopologyConfig ℕ
topology kind = record {
  kind = kind;
  gcs_node_id = "gcs";
  nodes =
      record {
        node_id = "gcs";
        agent_id = none;
        kind = SwarmTopologyNodeKind.gcs;
        available = true;
      }
      ∷ node "n1" "a1"
      ∷ node "n2" "a2"
      ∷ [];
  links = link "gcs" "n1" ∷ link "gcs" "n2" ∷ link "n1" "n2" ∷ [];
  transport = record {
    delivery_model = SwarmTransportDeliveryModel.in_memory;
    max_delay_ms = none;
    drop_rate = none;
    hardware_boundary = "logical";
  };
  mothership_dependencies = under "a1" "a2" ∷ [];
}

abbrev meshed : SwarmTopologyConfig ℕ
meshed = topology SwarmTopologyKind.mesh

abbrev parented : SwarmTopologyConfig ℕ
parented = topology SwarmTopologyKind.mothership

-- A mesh takes the direct link, a mothership topology the way by the parent.
bfs_path_test : bfs_path meshed "gcs" "n2" ≡ some (some ("gcs" ∷ "n2" ∷ []))
unfolding bfs_path bfs_loop visit_neighbors reconstruct_path follow adjacency add_links add_link
    available_nodes push_neighbor neighbors all_neighbors enough sort_ids insert_id dedup
    dedup_after get insert map_values filter contains
bfs_path_test = refl

route_path_for_kind_test :
    route_path_for_kind parented "gcs" "n2" "a2" ≡ some (some ("gcs" ∷ "n1" ∷ "n2" ∷ []))
unfolding route_path_for_kind path_over mothership_parent_node_id agent_node_id_in_topology bfs_path
    bfs_loop visit_neighbors reconstruct_path follow adjacency add_links add_link available_nodes
    push_neighbor neighbors all_neighbors enough sort_ids insert_id dedup dedup_after get insert
    map_values filter contains find
route_path_for_kind_test = refl

has_mothership_cycle_test :
    has_mothership_cycle (under "a1" "a2" ∷ under "a2" "a1" ∷ []) ≡ some (some "a1")
unfolding has_mothership_cycle dependency_graph find_cycle dfs_cycle dfs_children leave graph_ids
    all_neighbors push_neighbor neighbors sort_ids insert_id get insert contains filter
has_mothership_cycle_test = refl

route_between-Allows_example :
    (r : SwarmCommandRoute) × (route_between numbers parented "gcs" "a2" ≡ some r)
    × (r.allowed ≡ true → Allows parented r)
route_between-Allows_example = route_between-Allows numbers parented "gcs" "a2"

direct : OpenPath meshed "gcs" "n2" ("gcs" ∷ "n2" ∷ [])
unfolding available_link_exists available_nodes is_open_link any filter contains
direct = move refl (stay refl)

route_between_finds_example :
    (r : SwarmCommandRoute) × (route_between numbers meshed "gcs" "a2" ≡ some r)
    × (r.allowed ≡ true)
unfolding agent_node_id_in_topology find
route_between_finds_example =
    route_between_finds numbers meshed "gcs" "a2" "n2" ("gcs" ∷ "n2" ∷ []) refl refl direct

to_parent : OpenPath parented "gcs" "n1" ("gcs" ∷ "n1" ∷ [])
unfolding available_link_exists available_nodes is_open_link any filter contains
to_parent = move refl (stay refl)

to_child : OpenPath parented "n1" "n2" ("n1" ∷ "n2" ∷ [])
unfolding available_link_exists available_nodes is_open_link any filter contains
to_child = move refl (stay refl)

route_between_finds_by_parent_example :
    (r : SwarmCommandRoute) × (route_between numbers parented "gcs" "a2" ≡ some r)
    × (r.allowed ≡ true)
unfolding agent_node_id_in_topology mothership_parent_node_id find
route_between_finds_by_parent_example =
    route_between_finds_by_parent numbers parented "gcs" "a2" "n2" "n1" ("gcs" ∷ "n1" ∷ [])
      ("n1" ∷ "n2" ∷ []) refl refl to_parent to_child

has_mothership_cycle_decides_example :
    ((id : String) × (has_mothership_cycle (under "a1" "a2" ∷ []) ≡ some (some id))
      × (v : String) × Way (depends (under "a1" "a2" ∷ [])) v v)
    ⊎ ((has_mothership_cycle (under "a1" "a2" ∷ []) ≡ some none)
        × ((v : String) → ¬ Way (depends (under "a1" "a2" ∷ [])) v v))
has_mothership_cycle_decides_example = has_mothership_cycle_decides (under "a1" "a2" ∷ [])

needed : ParentsNeeded parented "a2"
needed parent h = refl

validate_command_route-route_between_example :
    (route : SwarmCommandRoute) × (route_between numbers parented "gcs" "a2" ≡ some route)
    × (validate_command_route numbers parented ("gcs" ∷ "n1" ∷ "n2" ∷ []) route ≡ some (ok tt))
unfolding agent_node_id_in_topology find contains
validate_command_route-route_between_example =
    validate_command_route-route_between numbers parented "gcs" "a2" "n2" refl refl needed

-- In a mesh the route that route_between computes for a child fails the validation.
own_route_refused :
    elim (route_between numbers meshed "gcs" "a2") [
      | none ↦ none
      | some route ↦ validate_command_route numbers meshed ("gcs" ∷ "n1" ∷ "n2" ∷ []) route
    ]
    ≡ some (err (SwarmCommandPlaneError.mothership_route_bypasses_parent "route:gcs:a2" "n1"))
unfolding route_between route_path_for_kind mothership_parent_node_id agent_node_id_in_topology
    bfs_path bfs_loop visit_neighbors reconstruct_path follow adjacency add_links add_link
    available_nodes push_neighbor neighbors all_neighbors enough sort_ids insert_id dedup
    dedup_after get insert map_values filter contains find any route_over route_reason
    route_path_degraded is_lossy is_open_link validate_command_route check_expected check_parent
    all_linked available_link_exists ids_eq first last
own_route_refused = refl

abbrev scouts : List SwarmAgentCommandPlan
scouts =
    record {
      agent_id = "a1";
      role = SwarmCommandRole.scout;
      commands = [];
      abort_policy = SwarmAbortPolicy.abort_agent_only;
      ownership_refs = [];
    }
    ∷ []

centralized_gcs_for_agents_routes_example :
    (r : SwarmCommandRoute) × (route_between numbers
        (centralized_gcs_for_agents numbers scouts)
        default_gcs_node_id
        "a1"
      ≡ some r)
    × (r.allowed ≡ true)
unfolding contains
centralized_gcs_for_agents_routes_example =
    centralized_gcs_for_agents_routes numbers scouts "a1" refl

abbrev no_compiler : Compiler
no_compiler commands = err "no plan"

abbrev compiler : Compiler
compiler commands = ok tt

abbrev input : SwarmCommandFanoutInput ℕ
input = record {
  plan_id = "p";
  assignments =
      record {
        agent_id = "a1";
        role = SwarmCommandRole.scout;
        commands = [];
        abort_policy = SwarmAbortPolicy.abort_agent_only;
        ownership_refs = [];
      }
      ∷ [];
  ownership = [];
  global_abort_policy = SwarmAbortPolicy.abort_agent_only;
  sync_operations = [];
  topology = none;
}

build_swarm_command_plan_ends_example :
    (r : Result SwarmCommandPlaneError (SwarmCommandPlan ℕ)) × (build_swarm_command_plan numbers
        compiler input
      ≡ some r)
build_swarm_command_plan_ends_example = build_swarm_command_plan_ends numbers compiler input
