-- ===== src/Command/Validation/Topology/Own.antt =====
-- The routes that the command plane computes pass its own validation.
use drone_swarm_lab.Base.{
  String, ◌≡◌, refl, true, false, not, eq_refl, Option, none, some, List, [], ◌∷◌, arith, map, find,
  filter, contains, Option-cases, inl, inr, ok,
}
use drone_swarm_lab.Connectivity.{Floats}
use drone_swarm_lab.Command.{
  SwarmTopologyConfig, SwarmTopologyNode, SwarmTopologyKind, SwarmCommandRoute,
}
use drone_swarm_lab.Command.Topology.{
  available_nodes, agent_node_id_in_topology, mothership_parent_node_id, is_mothership,
  blocked_reason, blocked_route, route_over, route_path_for_kind, route_between,
}
use drone_swarm_lab.Command.Topology.Routes.{OpenPath, stay, move}
use drone_swarm_lab.Command.Topology.Answers.{Outcome, route_path_for_kind-Outcome}
use drone_swarm_lab.Command.Validation.Topology.{
  is_blank, first, last, ids_eq, all_linked, check_parent, check_expected, validate_command_route,
}

blocked_reason_told : (k : SwarmTopologyKind) → is_blank (blocked_reason k) ≡ false
unfolding is_blank blocked_reason
blocked_reason_told SwarmTopologyKind.centralized_gcs = refl
blocked_reason_told SwarmTopologyKind.p2p_logical = refl
blocked_reason_told SwarmTopologyKind.mothership = refl
blocked_reason_told SwarmTopologyKind.relay = refl
blocked_reason_told SwarmTopologyKind.mesh = refl

ids_eq_refl : (xs : List String) → ids_eq xs xs ≡ true
unfolding ids_eq
ids_eq_refl [] = refl
ids_eq_refl (x ∷ xs) = rw (eq_refl x, ids_eq_refl xs) refl

module _ {F : Type 0} (t : SwarmTopologyConfig F) where
  abbrev pub node_ids : List String
  node_ids = map (λ (n : SwarmTopologyNode). n.node_id) t.nodes

  available_is_node :
      (ns : List SwarmTopologyNode) (id : String)
      → contains (map (λ n. n.node_id) (filter (λ n. n.available) ns)) id ≡ true
      → contains (map (λ n. n.node_id) ns) id ≡ true
  unfolding filter contains
  available_is_node [] id h = h
  available_is_node (n ∷ ns) id h = ground (arith, available_is_node ns id)

  within :
      {u w : String} {path : List String}
      → OpenPath t u w path
      → find (λ id. not (contains node_ids id)) path ≡ none
  unfolding find available_nodes
  within (stay {u} a) = rw (available_is_node t.nodes u a) refl
  within (move {u} {v} h p) = rw (available_is_node t.nodes u (ground arith), within p) refl

  starts : {u w : String} {path : List String} → OpenPath t u w path → first path ≡ some u
  unfolding first
  starts (stay a) = refl
  starts (move h p) = refl

  stops : {u w : String} {path : List String} → OpenPath t u w path → last path ≡ some w
  unfolding last
  stops (stay a) = refl
  stops (move h (stay a)) = refl
  stops (move h (move g p)) = stops (move g p)

  linked : {u w : String} {path : List String} → OpenPath t u w path → all_linked t path ≡ true
  unfolding all_linked
  linked (stay a) = refl
  linked (move {u} {v} h (stay a)) = ground arith
  linked (move {u} {v} h (move g p)) = ground (arith, linked (move g p))

  -- In a topology of another kind, an agent with a parent may be reached past it.
  abbrev pub ParentsNeeded : String → Type 0
  ParentsNeeded to_agent =
      (parent : String)
      → mothership_parent_node_id t to_agent ≡ some parent
      → is_mothership t.kind ≡ true

module _ {F : Type 0} (floats : Floats F) (t : SwarmTopologyConfig F) where
  parent_passed :
      (route : SwarmCommandRoute)
      → ((parent : String)
          → mothership_parent_node_id t route.to_agent_id ≡ some parent
          → contains route.via_node_ids parent ≡ true)
      → check_parent t route ≡ ok tt
  unfolding check_parent
  parent_passed route passes = elim (Option-cases (mothership_parent_node_id t route.to_agent_id)) [
    | inl free ↦ rw (check_parent, free) refl
    | inr (parent, known) ↦ rw (check_parent, known, passes parent known) refl
  ]

  own_expected :
      (from to_agent target : String) (r : Option (List String))
      → ParentsNeeded t to_agent
      → Outcome t from target to_agent r
      → check_expected t
          (route_over floats t from to_agent r)
          target
          (route_over floats t from to_agent r)
        ≡ ok tt
  unfolding check_expected route_over blocked_route
  own_expected from to_agent target none needed out = rw (blocked_reason_told t.kind) refl
  own_expected from to_agent target (some path) needed out =
      let p = out.sound path refl in
      rw (ids_eq_refl path, starts t p, stops t p, eq_refl from, eq_refl target, linked t p)
        (parent_passed (route_over floats t from to_agent (some path))
          (λ parent known. out.by_parent path parent refl (needed parent known) known))

  own_route :
      (from to_agent target : String) (r : Option (List String))
      → contains (node_ids t) from ≡ true
      → agent_node_id_in_topology t to_agent ≡ some target
      → ParentsNeeded t to_agent
      → Outcome t from target to_agent r
      → route_path_for_kind t from target to_agent ≡ some r
      → validate_command_route floats t (node_ids t) (route_over floats t from to_agent r)
        ≡ some (ok tt)
  unfolding validate_command_route route_between
  own_route from to_agent target none inside known needed out e =
      rw (inside, known, route_between, known, e, own_expected from to_agent target none needed out)
        refl
  own_route from to_agent target (some path) inside known needed out e =
      rw
        (
          inside,
          within t (out.sound path refl),
          known,
          route_between,
          known,
          e,
          own_expected from to_agent target (some path) needed out,
        )
        refl

  -- The route that route_between computes from a node of the topology to an agent with a node
  -- passes validate_command_route, if the topology is of kind Mothership or the agent has no
  -- parent.
  pub validate_command_route-route_between :
      (from to_agent target : String)
      → contains (node_ids t) from ≡ true
      → agent_node_id_in_topology t to_agent ≡ some target
      → ParentsNeeded t to_agent
      → (route : SwarmCommandRoute) × (route_between floats t from to_agent ≡ some route)
        × (validate_command_route floats t (node_ids t) route ≡ some (ok tt))
  unfolding route_between
  validate_command_route-route_between from to_agent target inside known needed =
      let (r, e, out) = route_path_for_kind-Outcome t from target to_agent in
      (
        route_over floats t from to_agent r,
        rw (route_between, known, e) refl,
        own_route from to_agent target r inside known needed out e,
      )
