-- ===== src/Command/Fanout/Central.antt =====
-- The topology that a plan gets when none is given.
use drone_swarm_lab.Base.{
  String, ◌≡◌, refl, true, eq_iff, eq_refl, option_eq, some, List, [], ◌∷◌, arith, map, filter,
  find, any, contains,
}
use drone_swarm_lab.HashMap.Laws.{map_option}
use drone_swarm_lab.Connectivity.{Floats}
use drone_swarm_lab.Command.{SwarmAgentCommandPlan, SwarmTopologyNode, SwarmCommandRoute}
use drone_swarm_lab.Command.Topology.{
  available_nodes, available_link_exists, is_open_link, agent_node_id_in_topology, route_between,
}
use drone_swarm_lab.Command.Topology.Links.{is_hop}
use drone_swarm_lab.Command.Topology.Routes.{stay, move}
use drone_swarm_lab.Command.Topology.Answers.{route_between_finds}
use drone_swarm_lab.Command.Fanout.{
  default_gcs_node_id, agent_node_id, agent_node, gcs_node, central_link, central_links,
  centralized_gcs_for_agents,
}

module _ {F : Type 0} (floats : Floats F) where
  node_of :
      (agents : List SwarmAgentCommandPlan) (id : String)
      → contains (map (λ a. a.agent_id) agents) id ≡ true
      → map_option
          (λ (n : SwarmTopologyNode). n.node_id)
          (find (λ n. option_eq n.agent_id (some id)) (map agent_node agents))
        ≡ some (agent_node_id id)
  unfolding find contains agent_node
  node_of [] id h = absurd (ground arith)
  node_of (a ∷ agents) id h = ground (arith, eq_iff a.agent_id id, node_of agents id)

  link_of :
      (agents : List SwarmAgentCommandPlan) (id : String)
      → contains (map (λ a. a.agent_id) agents) id ≡ true
      → any (is_open_link default_gcs_node_id (agent_node_id id)) (central_links floats agents)
        ≡ true
  unfolding any contains central_links central_link is_open_link
  link_of [] id h = absurd (ground arith)
  link_of (a ∷ agents) id h =
      ground (arith, eq_iff a.agent_id id, eq_refl (agent_node_id id), link_of agents id)

  available_of :
      (agents : List SwarmAgentCommandPlan) (id : String)
      → contains (map (λ a. a.agent_id) agents) id ≡ true
      → contains
          (map (λ n. n.node_id) (filter (λ n. n.available) (map agent_node agents)))
          (agent_node_id id)
        ≡ true
  unfolding contains filter agent_node
  available_of [] id h = absurd (ground arith)
  available_of (a ∷ agents) id h =
      ground (arith, eq_iff a.agent_id id, eq_refl (agent_node_id id), available_of agents id)

  -- In the topology that build_swarm_command_plan makes when it is given none, route_between
  -- allows a route from the GCS to each agent that has a plan.
  pub centralized_gcs_for_agents_routes :
      (agents : List SwarmAgentCommandPlan) (id : String)
      → contains (map (λ a. a.agent_id) agents) id ≡ true
      → (r : SwarmCommandRoute) × (route_between floats
            (centralized_gcs_for_agents floats agents)
            default_gcs_node_id
            id
          ≡ some r)
        × (r.allowed ≡ true)
  unfolding centralized_gcs_for_agents agent_node_id_in_topology gcs_node find available_nodes
      available_link_exists filter contains
  centralized_gcs_for_agents_routes agents id h =
      let t = centralized_gcs_for_agents floats agents in
      let known : agent_node_id_in_topology t id ≡ some (agent_node_id id) = node_of agents id h in
      let target : contains (available_nodes t) (agent_node_id id) ≡ true =
        ground (arith, available_of agents id h) in
      let linked : available_link_exists t default_gcs_node_id (agent_node_id id) ≡ true =
        link_of agents id h in
      let step : is_hop t default_gcs_node_id (agent_node_id id) ≡ true =
        rw (linked, target) refl in
      route_between_finds floats t default_gcs_node_id id (agent_node_id id)
        (default_gcs_node_id ∷ agent_node_id id ∷ []) known refl (move step (stay target))
