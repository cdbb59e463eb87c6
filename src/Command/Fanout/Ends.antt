-- ===== src/Command/Fanout/Ends.antt =====
-- The building of a plan ends.
use Prim.Native.String.{◌++◌ as text_append}
use drone_swarm_lab.Base.{
  not, is_some, filter, contains, find, String, ◌≡◌, refl, Bool, true, false, ◌==◌, if◌then◌else◌,
  Option, none, some, List, [], ◌∷◌, Bool-cases, Option-cases, inl, inr, Result, ok, err, map,
}
use drone_swarm_lab.HashMap.Laws.{map_option}
use drone_swarm_lab.Connectivity.{Floats}
use drone_swarm_lab.Command.{
  SwarmTopologyNode, SwarmTopologyConfig, SwarmCommandRoute, SwarmAgentCommandPlan,
  SwarmCommandPlan,
}
use drone_swarm_lab.Command.Policy.{SwarmCommandPlaneError}
use drone_swarm_lab.Command.Topology.Answers.{route_between-Allows}
use drone_swarm_lab.Command.Topology.Verdict.{has_mothership_cycle_decides}
use drone_swarm_lab.Command.Topology.{route_between, agent_node_id_in_topology}
use drone_swarm_lab.Command.Validation.{Checked, validate_swarm_command_plan}
use drone_swarm_lab.Command.Validation.Topology.{
  checked_then, unknown_node, is_blank, check_expected, check_nodes, check_links,
  check_agent_routes, check_dependencies, validate_command_route, check_routes, check_cycle,
  validate_topology,
}
use drone_swarm_lab.Command.Fanout.{
  is_p2p, sort_nodes, planned, centralized_gcs_for_agents, Compiler, SwarmCommandFanoutInput,
  gcs_routes, push_route, add_peer_route, add_targets, add_sources, route_command_plan,
  validate_whole_plan, build_with, agent_plans, build_swarm_command_plan,
}

-- The fuel of every search sufficed.
abbrev pub Ends : {A : Type 0} → Option A → Type 0
Ends {A} o = (a : A) × (o ≡ some a)

Ends-map : {A B : Type 0} (f : A → B) (o : Option A) → Ends o → Ends (map_option f o)
Ends-map f o (a, e) = (f a, rw e refl)

Ends-option :
    {A B : Type 0} (o : Option A) (n : Option B) (s : A → Option B)
    → Ends n
    → ((a : A) → Ends (s a))
    → Ends (elim o [ none ↦ n | some a ↦ s a ])
Ends-option none n s h k = h
Ends-option (some a) n s h k = k a

Ends-bind :
    {A B : Type 0} (o : Option A) (s : A → Option B)
    → Ends o
    → ((a : A) → Ends (s a))
    → Ends (elim o [ none ↦ none | some a ↦ s a ])
Ends-bind none s (x, e) k = absurd (cc)
Ends-bind (some a) s h k = k a

Ends-then : (a b : Option Checked) → Ends a → Ends b → Ends (checked_then a b)
Ends-then none b (x, e) h = absurd (cc)
Ends-then (some (ok _)) b h k = k
Ends-then (some (err e)) b h k = (err e, refl)

module _ {F : Type 0} (floats : Floats F) (t : SwarmTopologyConfig F) where
  Ends-route : (from to_agent : String) → Ends (route_between floats t from to_agent)
  Ends-route from to_agent = let (r, e, _) = route_between-Allows floats t from to_agent in (r, e)

  Ends-gcs_routes : (agents : List SwarmAgentCommandPlan) → Ends (gcs_routes floats t agents)
  unfolding gcs_routes
  Ends-gcs_routes [] = ([], refl)
  Ends-gcs_routes (agent ∷ agents) =
      let (route, e) = Ends-route t.gcs_node_id agent.agent_id in
      let (routes, e2) = Ends-gcs_routes agents in (route ∷ routes, rw (gcs_routes, e, e2) refl)

  Ends-add_peer_route :
      (source target : SwarmTopologyNode) (routes : List SwarmCommandRoute)
      → Ends (add_peer_route floats t source target routes)
  unfolding add_peer_route
  Ends-add_peer_route source target routes = elim (Bool-cases (source.node_id == target.node_id)) [
    | inl same ↦ (routes, rw (add_peer_route, same) refl)
    | inr other ↦ elim (Option-cases target.agent_id) [
      | inl gone ↦ (routes, rw (add_peer_route, other, gone) refl)
      | inr (id, known) ↦
          let (route, e) = Ends-route source.node_id id in
          (push_route routes route, rw (add_peer_route, other, known, e) refl)
    ]
  ]

  Ends-add_targets :
      (source : SwarmTopologyNode) (targets : List SwarmTopologyNode)
      (routes : List SwarmCommandRoute)
      → Ends (add_targets floats t source targets routes)
  unfolding add_targets
  Ends-add_targets source [] routes = (routes, refl)
  Ends-add_targets source (target ∷ targets) routes =
      let (more, e) = Ends-add_peer_route source target routes in
      let (all, e2) = Ends-add_targets source targets more in (all, rw (add_targets, e) e2)

  Ends-add_sources :
      (nodes sources : List SwarmTopologyNode) (routes : List SwarmCommandRoute)
      → Ends (add_sources floats t nodes sources routes)
  unfolding add_sources
  Ends-add_sources nodes [] routes = (routes, refl)
  Ends-add_sources nodes (source ∷ sources) routes =
      let (more, e) = Ends-add_targets source nodes routes in
      let (all, e2) = Ends-add_sources nodes sources more in (all, rw (add_sources, e) e2)

  Ends-route_command_plan :
      (agents : List SwarmAgentCommandPlan) → Ends (route_command_plan floats t agents)
  unfolding route_command_plan
  Ends-route_command_plan agents =
      let nodes = sort_nodes (filter (λ n. is_some n.agent_id) t.nodes) in
      let (routes, e) = Ends-gcs_routes agents in
      elim (Bool-cases (is_p2p t.kind)) [
        | inl peers ↦
            let (all, e2) = Ends-add_sources nodes nodes routes in
            (all, rw (route_command_plan, e, peers) e2)
        | inr no_peers ↦ (routes, rw (route_command_plan, e, no_peers) refl)
      ]

  Ends-validate_command_route :
      (node_ids : List String) (route : SwarmCommandRoute)
      → Ends (validate_command_route floats t node_ids route)
  unfolding validate_command_route
  Ends-validate_command_route node_ids route =
      go (not (contains node_ids route.from_node_id))
        (find (λ node_id. not (contains node_ids node_id)) route.via_node_ids)
        (agent_node_id_in_topology t route.to_agent_id)
    where
      go :
          (b : Bool) (o p : Option String)
          → Ends (
              if b then unknown_node route route.from_node_id else elim o [
                | some node_id ↦ unknown_node route node_id
                | none ↦ elim p [
                  | none ↦ some (
                      err (
                        SwarmCommandPlaneError.missing_topology_node
                          (text_append "agent:" route.to_agent_id)))
                  | some target ↦
                      map_option
                        (check_expected t route target)
                        (route_between floats t route.from_node_id route.to_agent_id)
                ]
              ])
      go true o p = (_, refl)
      go false (some node_id) p = (_, refl)
      go false none none = (_, refl)
      go false none (some target) =
          Ends-map (check_expected t route target)
            (route_between floats t route.from_node_id route.to_agent_id)
            (Ends-route route.from_node_id route.to_agent_id)

  Ends-check_routes :
      (node_ids : List String) (routes : List SwarmCommandRoute)
      → Ends (check_routes floats t node_ids routes)
  unfolding check_routes
  Ends-check_routes node_ids [] = (ok tt, refl)
  Ends-check_routes node_ids (route ∷ routes) =
      Ends-then (validate_command_route floats t node_ids route)
        (check_routes floats t node_ids routes) (Ends-validate_command_route node_ids route)
        (Ends-check_routes node_ids routes)

  Ends-check_cycle : Ends (check_cycle t)
  unfolding check_cycle
  Ends-check_cycle = elim (has_mothership_cycle_decides t.mothership_dependencies) [
    | inl (id, e, _, _) ↦
        (err (SwarmCommandPlaneError.mothership_dependency_cycle id), rw (check_cycle, e) refl)
    | inr (e, _) ↦ (ok tt, rw (check_cycle, e) refl)
  ]

  Ends-if : {A : Type 0} (b : Bool) (x : A) (o : Option A) → Ends o → Ends (if b then some x else o)
  Ends-if true x o h = (x, refl)
  Ends-if false x o h = h

  Ends-validate_topology : (plan : SwarmCommandPlan F) → Ends (validate_topology floats plan t)
  unfolding validate_topology
  Ends-validate_topology plan =
      let node_ids = map (λ (n : SwarmTopologyNode). n.node_id) t.nodes in
      let agent_ids = map (λ (a : SwarmAgentCommandPlan). a.agent_id) plan.agents in
      Ends-if (is_blank t.transport.hardware_boundary) _ _ (
        Ends-then _ _ (check_nodes [] t.nodes, refl)
          (Ends-if (not (contains node_ids t.gcs_node_id)) _ _ (
            Ends-then _ _ (check_links node_ids t.links, refl)
              (Ends-then _ _ (check_agent_routes t plan.command_routes plan.agents, refl)
                (Ends-then _ _ (Ends-check_routes node_ids plan.command_routes) (
                  Ends-then _ _ (check_dependencies agent_ids t.mothership_dependencies, refl)
                    Ends-check_cycle))))))

module _ {F : Type 0} (floats : Floats F) where
  Ends-validate_whole_plan : (plan : SwarmCommandPlan F) → Ends (validate_whole_plan floats plan)
  unfolding validate_whole_plan
  Ends-validate_whole_plan plan =
      Ends-option plan.topology _ _ (validate_swarm_command_plan (λ p t. ok tt) plan, refl)
        (λ t. Ends-map _ _ (Ends-validate_topology floats t plan))

  Ends-build_with :
      (input : SwarmCommandFanoutInput F) (agents : List SwarmAgentCommandPlan)
      → Ends (build_with floats input agents)
  unfolding build_with
  Ends-build_with input agents =
      let topology : SwarmTopologyConfig F = elim input.topology [
        | none ↦ centralized_gcs_for_agents floats agents
        | some t ↦ t
      ] in
      Ends-bind (route_command_plan floats topology agents) _
        (Ends-route_command_plan floats topology agents)
        (λ routes. Ends-map _ _ (Ends-validate_whole_plan (planned input agents topology routes)))

  -- build_swarm_command_plan ends, whatever its input and the compiler: no search of a route and
  -- no search for a cycle runs out of fuel.
  pub build_swarm_command_plan_ends :
      (compile : Compiler) (input : SwarmCommandFanoutInput F)
      → (r : Result SwarmCommandPlaneError (SwarmCommandPlan F)) × (build_swarm_command_plan floats
            compile input
          ≡ some r)
  unfolding build_swarm_command_plan
  build_swarm_command_plan_ends compile input = go (agent_plans compile input.assignments)
    where
      go :
          (agents : Result SwarmCommandPlaneError (List SwarmAgentCommandPlan))
          → Ends (elim agents [ err e ↦ some (err e) | ok as_ ↦ build_with floats input as_ ])
      go (err e) = (err e, refl)
      go (ok agents) = Ends-build_with input agents
