-- ===== src/Command/Topology.antt =====
-- crates/swarm-command-plane/src/topology.rs: the routes of commands over the logical topology.
-- The two `while let` loops of a search run on fuel: as much as there are entries in the lists of
-- neighbours, and entries in the table of predecessors. `none` is a loop that the fuel did not
-- suffice for, `some none` is a search that finds no path.
pub mod Links
pub mod Paths
pub mod Search
pub mod Routes
pub mod Answers
pub mod Cycles
pub mod Ways
pub mod Acyclic
pub mod Verdict
use Prim.Native.String.{◌++◌ as text_append}
use drone_swarm_lab.Base.{
  ℕ, zero, suc, ◌+◌, String, Bool, true, false, ◌&&◌, ◌==◌, option_eq, if◌then◌else◌, Option, none,
  some, List, [], ◌∷◌, ◌++◌, map, filter, find, any, contains, length, text_le,
}
use drone_swarm_lab.HashMap.{HashMap, get, insert, map_values}
use drone_swarm_lab.HashMap.Laws.{map_option}
use drone_swarm_lab.Connectivity.{
  Floats, Adjacency, neighbors, push_neighbor, all_neighbors, enough,
}
use drone_swarm_lab.Command.{
  SwarmTopologyKind, SwarmTopologyNode, SwarmTopologyLink, SwarmTopologyConfig, SwarmCommandRoute,
}

abbrev pub Search : Type 0 → Type 0
Search A = Option (Option A)

-- `?` on the result of a search
abbrev pub and_then : {A B : Type 0} → Search A → (A → Search B) → Search B
and_then none f = none
and_then (some none) f = some none
and_then (some (some a)) f = f a

-- `sort()` and `dedup()`
unfoldable pub insert_id : String → List String → List String
insert_id x [] = x ∷ []
insert_id x (y ∷ ys) = let rest = insert_id x ys in if text_le x y then x ∷ y ∷ ys else y ∷ rest

unfoldable pub sort_ids : List String → List String
unfolding insert_id
sort_ids [] = []
sort_ids (x ∷ xs) = insert_id x (sort_ids xs)

unfoldable pub dedup_after : String → List String → List String
dedup_after x [] = []
dedup_after x (y ∷ ys) =
    let same = dedup_after x ys in
    let other = dedup_after y ys in if y == x then same else y ∷ other

unfoldable pub dedup : List String → List String
unfolding dedup_after
dedup [] = []
dedup (x ∷ xs) = x ∷ dedup_after x xs

abbrev pub SearchState : Type 0
SearchState = HashMap String × List String × List String

-- The loop over the neighbours of a node: the predecessors, the ids seen and the queue.
unfoldable pub visit_neighbors : String → List String → SearchState → SearchState
unfolding insert contains
visit_neighbors id [] s = s
visit_neighbors id (n ∷ ns) (previous, seen, queue) =
    if contains seen n
    then visit_neighbors id ns (previous, seen, queue)
    else visit_neighbors id ns (insert n id previous, seen ++ n ∷ [], queue ++ n ∷ [])

-- The path is built from its end, so that it needs no reversal.
unfoldable pub follow : String → HashMap String → ℕ → String → List String → Option (List String)
unfolding get
follow from previous zero cursor path = none
follow from previous (suc fuel) cursor path =
    if cursor == from then some path else elim (get cursor previous) [
      | none ↦ some path
      | some parent ↦ follow from previous fuel parent (parent ∷ path)
    ]

unfoldable pub reconstruct_path : String → String → HashMap String → Option (List String)
unfolding follow
reconstruct_path from to previous = follow from previous (suc (length previous)) to (to ∷ [])

unfoldable pub bfs_loop : Adjacency → String → String → ℕ → SearchState → Search (List String)
unfolding neighbors visit_neighbors reconstruct_path
bfs_loop m from to zero s = none
bfs_loop m from to (suc fuel) (previous, seen, []) = some none
bfs_loop m from to (suc fuel) (previous, seen, id ∷ queue) =
    let rest =
      bfs_loop m from to fuel (visit_neighbors id (neighbors m id) (previous, seen, queue)) in
    if id == to then map_option some (reconstruct_path from to previous) else rest

abbrev pub is_mothership : SwarmTopologyKind → Bool
is_mothership SwarmTopologyKind.mothership = true
is_mothership _ = false

-- `path.extend(child_path.into_iter().skip(1))`
abbrev pub extend_path : List String → List String → List String
extend_path path [] = path
extend_path path (_ ∷ rest) = path ++ rest

module _ {F : Type 0} where
  unfoldable pub available_nodes : SwarmTopologyConfig F → List String
  unfolding filter
  available_nodes t = map (λ n. n.node_id) (filter (λ n. n.available) t.nodes)

  unfoldable pub add_link : List String → SwarmTopologyLink F → Adjacency → Adjacency
  unfolding push_neighbor contains
  add_link nodes l m =
      if l.available && (contains nodes l.from_node_id && contains nodes l.to_node_id)
      then push_neighbor l.from_node_id l.to_node_id m
      else m

  unfoldable pub add_links : List String → List (SwarmTopologyLink F) → Adjacency → Adjacency
  unfolding add_link
  add_links nodes [] m = m
  add_links nodes (l ∷ ls) m = add_links nodes ls (add_link nodes l m)

  unfoldable pub adjacency : SwarmTopologyConfig F → Adjacency
  unfolding available_nodes add_links sort_ids dedup map_values
  adjacency t = map_values (λ ns. dedup (sort_ids ns)) (add_links (available_nodes t) t.links [])

  unfoldable pub bfs_path : SwarmTopologyConfig F → String → String → Search (List String)
  unfolding available_nodes adjacency bfs_loop enough contains
  bfs_path t from to =
      let m = adjacency t in
      if contains (available_nodes t) from && contains (available_nodes t) to
      then bfs_loop m from to (enough m) ([], from ∷ [], from ∷ [])
      else some none

  unfoldable pub agent_node_id_in_topology : SwarmTopologyConfig F → String → Option String
  unfolding find
  agent_node_id_in_topology t agent_id =
      map_option (λ n. n.node_id) (find (λ n. option_eq n.agent_id (some agent_id)) t.nodes)

  unfoldable pub mothership_parent_node_id : SwarmTopologyConfig F → String → Option String
  unfolding find agent_node_id_in_topology
  mothership_parent_node_id t child =
      elim (find (λ d. d.child_agent_id == child) t.mothership_dependencies) [
        | none ↦ none
        | some d ↦ agent_node_id_in_topology t d.parent_agent_id
      ]

  unfoldable pub is_open_link : String → String → SwarmTopologyLink F → Bool
  is_open_link from to l = l.available && (l.from_node_id == from && l.to_node_id == to)

  unfoldable pub available_link_exists : SwarmTopologyConfig F → String → String → Bool
  unfolding any is_open_link
  available_link_exists t from to = any (is_open_link from to) t.links

  unfoldable pub path_over : SwarmTopologyConfig F → String → String → String → Search (List String)
  unfolding bfs_path
  path_over t from parent target = and_then (bfs_path t from parent) (λ path.
      and_then (bfs_path t parent target) (λ child_path. some (some (extend_path path child_path))))

  unfoldable pub route_path_for_kind :
      SwarmTopologyConfig F → String → String → String → Search (List String)
  unfolding mothership_parent_node_id path_over bfs_path
  route_path_for_kind t from target to_agent =
      if is_mothership t.kind
      then elim (mothership_parent_node_id t to_agent) [
        | none ↦ bfs_path t from target
        | some parent ↦
            if parent == target then bfs_path t from target else path_over t from parent target
      ]
      else bfs_path t from target

unfoldable pub route_reason : SwarmTopologyKind → String
route_reason SwarmTopologyKind.centralized_gcs = "centralized_gcs_route"
route_reason SwarmTopologyKind.p2p_logical = "p2p_logical_route"
route_reason SwarmTopologyKind.mothership = "mothership_dependency_route"
route_reason SwarmTopologyKind.relay = "relay_route"
route_reason SwarmTopologyKind.mesh = "mesh_route"

unfoldable pub blocked_reason : SwarmTopologyKind → String
blocked_reason SwarmTopologyKind.centralized_gcs = "centralized_gcs_route_unavailable"
blocked_reason SwarmTopologyKind.p2p_logical = "p2p_logical_link_missing"
blocked_reason SwarmTopologyKind.mothership = "mothership_dependency_route_unavailable"
blocked_reason SwarmTopologyKind.relay = "relay_unavailable_or_partitioned"
blocked_reason SwarmTopologyKind.mesh = "mesh_partition_or_blocked_link"

abbrev pub value_or : {F : Type 0} → Option F → F → F
value_or none d = d
value_or (some f) d = f

unfoldable pub blocked_route : String → String → String → SwarmCommandRoute
blocked_route from to_agent reason = record {
  route_id = text_append "route:" (text_append from (text_append ":" to_agent));
  from_node_id = from;
  to_agent_id = to_agent;
  via_node_ids = [];
  allowed = false;
  degraded = true;
  reason = reason;
}

module _ {F : Type 0} (floats : Floats F) where
  unfoldable pub is_lossy : String → String → SwarmTopologyLink F → Bool
  unfolding is_open_link
  is_lossy from to l =
      let zero_rate = floats.of_usize 0 in
      is_open_link from to l && floats.lt zero_rate (value_or l.drop_rate zero_rate)

  -- `path.windows(2).any(..)`
  unfoldable pub route_path_degraded : SwarmTopologyConfig F → List String → Bool
  unfolding any is_lossy
  route_path_degraded t [] = false
  route_path_degraded t (a ∷ []) = false
  route_path_degraded t (a ∷ b ∷ path) =
      let rest = route_path_degraded t (b ∷ path) in
      if any (is_lossy a b) t.links then true else rest

  unfoldable pub route_over :
      SwarmTopologyConfig F → String → String → Option (List String) → SwarmCommandRoute
  unfolding blocked_route blocked_reason route_reason route_path_degraded
  route_over t from to_agent none = blocked_route from to_agent (blocked_reason t.kind)
  route_over t from to_agent (some path) = record {
    route_id = text_append "route:" (text_append from (text_append ":" to_agent));
    from_node_id = from;
    to_agent_id = to_agent;
    via_node_ids = path;
    allowed = true;
    degraded = route_path_degraded t path;
    reason = route_reason t.kind;
  }

  unfoldable pub route_between : SwarmTopologyConfig F → String → String → Option SwarmCommandRoute
  unfolding agent_node_id_in_topology route_path_for_kind route_over blocked_route
  route_between t from to_agent = elim (agent_node_id_in_topology t to_agent) [
    | none ↦ some (blocked_route from to_agent "missing_agent_topology_node")
    | some target ↦
        map_option (route_over t from to_agent) (route_path_for_kind t from target to_agent)
  ]
