-- ===== src/Command/Summary.antt =====
-- crates/swarm-command-plane/src/summary.rs: the summary of a plan.
use drone_swarm_lab.Base.{none, some, filter, length}
use drone_swarm_lab.HashMap.Laws.{map_option}
use drone_swarm_lab.Command.{
  SwarmCommandPlan, SwarmCommandArtifactSummary, swarm_command_plane_schema_version, is_active,
}

unfoldable pub summarize_swarm_command_plan :
    {F : Type 0} → SwarmCommandPlan F → SwarmCommandArtifactSummary
unfolding is_active
summarize_swarm_command_plan plan = record {
  schema_version = swarm_command_plane_schema_version;
  plan_id = plan.plan_id;
  agent_plan_count = length plan.agents;
  active_ownership_count = length (filter (λ r. is_active r.status) plan.ownership);
  handoff_count = length plan.handoffs;
  sync_operation_count = length plan.sync_operations;
  topology_kind = map_option (λ t. t.kind) plan.topology;
  topology_node_count = elim plan.topology [ none ↦ 0 | some t ↦ length t.nodes ];
  topology_link_count = elim plan.topology [ none ↦ 0 | some t ↦ length t.links ];
  command_route_count = length plan.command_routes;
  degraded_route_count = length (filter (λ route. route.degraded) plan.command_routes);
  mothership_dependency_count = elim plan.topology [
    | none ↦ 0
    | some t ↦ length t.mothership_dependencies
  ];
}
