-- ===== src/Command/Validation/Topology.antt =====
-- crates/swarm-command-plane/src/validation.rs: validate_topology and validate_command_route. The
-- result is `none` if the fuel of a search did not suffice.
pub mod Own
use Prim.Native.Char.{Char, code}
use Prim.Native.String.{◌++◌ as text_append}
use drone_swarm_lab.Base.{
  ℕ, String, Bool, true, false, not, ◌&&◌, ◌||◌, nat_eq, leb, ◌==◌, if◌then◌else◌, option_eq,
  Option, none, some, List, [], ◌∷◌, map, find, any, contains, ok, err,
}
use drone_swarm_lab.HashMap.Laws.{map_option}
use drone_swarm_lab.Connectivity.{Floats}
use drone_swarm_lab.Command.{
  SwarmAgentCommandPlan, SwarmCommandPlan, SwarmTopologyConfig, SwarmTopologyNode,
  SwarmTopologyLink, SwarmCommandRoute, SwarmMothershipDependency,
}
use drone_swarm_lab.Command.Policy.{SwarmCommandPlaneError}
use drone_swarm_lab.Command.Topology.{
  agent_node_id_in_topology, mothership_parent_node_id, available_link_exists, route_between,
}
use drone_swarm_lab.Command.Topology.Cycles.{has_mothership_cycle}
use drone_swarm_lab.Command.Validation.{Checked}

-- `char::is_whitespace`
unfoldable pub is_whitespace : Char → Bool
is_whitespace c =
    let n = code c in
    (leb 9 n && leb n 13)
    || nat_eq n 32
    || nat_eq n 133
    || nat_eq n 160
    || nat_eq n 5760
    || (leb 8192 n && leb n 8202)
    || nat_eq n 8232
    || nat_eq n 8233
    || nat_eq n 8239
    || nat_eq n 8287
    || nat_eq n 12288

-- `trim().is_empty()`
unfoldable pub is_blank : String → Bool
unfolding is_whitespace
is_blank String.[] = true
is_blank (String.◌∷◌ c s) = let rest = is_blank s in if is_whitespace c then rest else false

unfoldable pub first : List String → Option String
first [] = none
first (x ∷ xs) = some x

unfoldable pub last : List String → Option String
last [] = none
last (x ∷ []) = some x
last (x ∷ y ∷ xs) = last (y ∷ xs)

unfoldable pub ids_eq : List String → List String → Bool
ids_eq [] [] = true
ids_eq (x ∷ xs) (y ∷ ys) = let rest = ids_eq xs ys in x == y && rest
ids_eq _ _ = false

-- The `?` of one check before the next.
abbrev pub checked_then : Option Checked → Option Checked → Option Checked
checked_then none rest = none
checked_then (some (err e)) rest = some (err e)
checked_then (some (ok _)) rest = rest

abbrev pub unknown_node : SwarmCommandRoute → String → Option Checked
unknown_node route node_id =
    some (err (SwarmCommandPlaneError.unknown_command_route_node route.route_id node_id))

unfoldable pub check_nodes : List String → List SwarmTopologyNode → Checked
unfolding contains
check_nodes node_ids [] = ok tt
check_nodes node_ids (node ∷ nodes) =
    let rest = check_nodes (node.node_id ∷ node_ids) nodes in
    if contains node_ids node.node_id
    then err (SwarmCommandPlaneError.duplicate_topology_node node.node_id)
    else rest

unfoldable pub check_dependencies : List String → List SwarmMothershipDependency → Checked
unfolding contains
check_dependencies agent_ids [] = ok tt
check_dependencies agent_ids (d ∷ ds) =
    let rest = check_dependencies agent_ids ds in
    if not (contains agent_ids d.parent_agent_id)
    then err (SwarmCommandPlaneError.unknown_mothership_dependency_agent d.parent_agent_id)
    else if not (contains agent_ids d.child_agent_id)
    then err (SwarmCommandPlaneError.unknown_mothership_dependency_agent d.child_agent_id)
    else rest

module _ {F : Type 0} where
  unfoldable pub check_links : List String → List (SwarmTopologyLink F) → Checked
  unfolding contains
  check_links node_ids [] = ok tt
  check_links node_ids (l ∷ ls) =
      let rest = check_links node_ids ls in
      if not (contains node_ids l.from_node_id)
      then err (SwarmCommandPlaneError.unknown_topology_link_endpoint l.from_node_id)
      else if not (contains node_ids l.to_node_id)
      then err (SwarmCommandPlaneError.unknown_topology_link_endpoint l.to_node_id)
      else rest

  -- `via_node_ids.windows(2)`
  unfoldable pub all_linked : SwarmTopologyConfig F → List String → Bool
  unfolding available_link_exists
  all_linked t [] = true
  all_linked t (a ∷ []) = true
  all_linked t (a ∷ b ∷ path) =
      let rest = all_linked t (b ∷ path) in if available_link_exists t a b then rest else false

  unfoldable pub check_parent : SwarmTopologyConfig F → SwarmCommandRoute → Checked
  unfolding mothership_parent_node_id contains
  check_parent t route = elim (mothership_parent_node_id t route.to_agent_id) [
    | none ↦ ok tt
    | some parent ↦
        if contains route.via_node_ids parent
        then ok tt
        else err (SwarmCommandPlaneError.mothership_route_bypasses_parent route.route_id parent)
  ]

  unfoldable pub check_expected :
      SwarmTopologyConfig F → SwarmCommandRoute → String → SwarmCommandRoute → Checked
  unfolding is_blank ids_eq first last all_linked check_parent
  check_expected t route target expected =
      let mismatch = err (SwarmCommandPlaneError.command_route_path_mismatch route.route_id) in
      if not route.allowed
      then (if is_blank route.reason
          then err (SwarmCommandPlaneError.blocked_route_without_reason route.route_id)
          else if expected.allowed
          then mismatch
          else ok tt)
      else if not expected.allowed
          || not (ids_eq route.via_node_ids expected.via_node_ids)
          || not (option_eq (first route.via_node_ids) (some route.from_node_id))
          || not (option_eq (last route.via_node_ids) (some target))
      then mismatch
      else if all_linked t route.via_node_ids
      then check_parent t route
      else mismatch

  unfoldable pub check_agent_routes :
      SwarmTopologyConfig F → List SwarmCommandRoute → List SwarmAgentCommandPlan → Checked
  unfolding any find is_blank
  check_agent_routes t routes [] = ok tt
  check_agent_routes t routes (agent ∷ agents) =
      let rest = check_agent_routes t routes agents in
      let to_agent = λ (route : SwarmCommandRoute).
        route.to_agent_id == agent.agent_id && route.from_node_id == t.gcs_node_id in
      if not (any (λ node. option_eq node.agent_id (some agent.agent_id)) t.nodes)
      then err (SwarmCommandPlaneError.missing_topology_node (text_append "agent:" agent.agent_id))
      else elim (find to_agent routes) [
        | none ↦ err (SwarmCommandPlaneError.missing_command_route agent.agent_id)
        | some route ↦
            if not route.allowed && is_blank route.reason
            then err (SwarmCommandPlaneError.blocked_route_without_reason route.route_id)
            else rest
      ]

  unfoldable pub check_cycle : SwarmTopologyConfig F → Option Checked
  unfolding has_mothership_cycle
  check_cycle t = elim (has_mothership_cycle t.mothership_dependencies) [
    | none ↦ none
    | some none ↦ some (ok tt)
    | some (some agent_id) ↦
        some (err (SwarmCommandPlaneError.mothership_dependency_cycle agent_id))
  ]

module _ {F : Type 0} (floats : Floats F) where
  unfoldable pub validate_command_route :
      SwarmTopologyConfig F → List String → SwarmCommandRoute → Option Checked
  unfolding find contains agent_node_id_in_topology check_expected route_between
  validate_command_route t node_ids route =
      if not (contains node_ids route.from_node_id)
      then unknown_node route route.from_node_id
      else elim (find (λ node_id. not (contains node_ids node_id)) route.via_node_ids) [
        | some node_id ↦ unknown_node route node_id
        | none ↦ elim (agent_node_id_in_topology t route.to_agent_id) [
          | none ↦ some (
              err (
                SwarmCommandPlaneError.missing_topology_node
                  (text_append "agent:" route.to_agent_id)))
          | some target ↦
              map_option (check_expected t route target)
                (route_between floats t route.from_node_id route.to_agent_id)
        ]
      ]

  unfoldable pub check_routes :
      SwarmTopologyConfig F → List String → List SwarmCommandRoute → Option Checked
  unfolding validate_command_route
  check_routes t node_ids [] = some (ok tt)
  check_routes t node_ids (route ∷ routes) =
      checked_then (validate_command_route t node_ids route) (check_routes t node_ids routes)

  unfoldable pub validate_topology : SwarmCommandPlan F → SwarmTopologyConfig F → Option Checked
  unfolding is_blank check_nodes contains check_links check_agent_routes check_routes
      check_dependencies check_cycle
  validate_topology plan t =
      let node_ids = map (λ (n : SwarmTopologyNode). n.node_id) t.nodes in
      let agent_ids = map (λ (a : SwarmAgentCommandPlan). a.agent_id) plan.agents in
      if is_blank t.transport.hardware_boundary
      then some (err SwarmCommandPlaneError.missing_transport_assumption)
      else checked_then (some (check_nodes [] t.nodes)) (
          if not (contains node_ids t.gcs_node_id)
          then some (err (SwarmCommandPlaneError.missing_topology_node t.gcs_node_id))
          else checked_then (some (check_links node_ids t.links)) (
              checked_then (some (check_agent_routes t plan.command_routes plan.agents)) (
                checked_then (check_routes t node_ids plan.command_routes) (
                  checked_then (some (check_dependencies agent_ids t.mothership_dependencies))
                    (check_cycle t)))))
