-- ===== src/Command/Policy.antt =====
-- crates/swarm-command-plane/src/policy.rs, with the errors of validation.rs and its search for a
-- replacement: what follows from the failure of an agent.
pub mod Replacement
use drone_swarm_lab.Base.{
  ℕ, String, Bool, true, false, not, ◌&&◌, ◌==◌, if◌then◌else◌, Option, none, some, List, map,
  filter, find, any, Result, ok, err,
}
use drone_swarm_lab.Command.{
  SwarmAgentCommandPlan, SwarmAbortPolicy, SwarmOwnershipKind, SwarmOwnershipRecord,
  SwarmOwnershipHandoff, SwarmCommandPlan, is_active, is_reserve,
}

pub data SwarmCommandPlaneError : Type 0 where
  unsupported_schema : String → SwarmCommandPlaneError
  duplicate_agent_plan missing_failed_agent : String → SwarmCommandPlaneError
  duplicate_ownership : SwarmOwnershipKind → String → SwarmCommandPlaneError
  source_agent_mismatch : String → String → String → SwarmCommandPlaneError
  missing_active_ownership : String → SwarmOwnershipKind → String → SwarmCommandPlaneError
  missing_replacement_agent missing_abort_targets : SwarmCommandPlaneError
  missing_handoff_evidence : SwarmOwnershipKind → String → String → String → SwarmCommandPlaneError
  missing_topology_node duplicate_topology_node : String → SwarmCommandPlaneError
  unknown_topology_link_endpoint missing_command_route : String → SwarmCommandPlaneError
  unknown_command_route_node : String → String → SwarmCommandPlaneError
  command_route_path_mismatch blocked_route_without_reason : String → SwarmCommandPlaneError
  mothership_route_bypasses_parent : String → String → SwarmCommandPlaneError
  mothership_dependency_cycle : String → SwarmCommandPlaneError
  unknown_mothership_dependency_agent : String → SwarmCommandPlaneError
  missing_transport_assumption : SwarmCommandPlaneError

pub data SwarmFailureDecision : Type 0 where
  abort_agent_only : String → SwarmFailureDecision
  abort_mission : String → List String → SwarmFailureDecision
  continue_degraded : String → List SwarmOwnershipRecord → SwarmFailureDecision
  replace_from_reserve : String → String → List SwarmOwnershipHandoff → SwarmFailureDecision

unfoldable pub is_other_reserve : String → SwarmAgentCommandPlan → Bool
unfolding is_reserve
is_other_reserve failed_agent_id agent =
    not (agent.agent_id == failed_agent_id) && is_reserve agent.role

unfoldable pub owns_active : String → SwarmOwnershipRecord → Bool
unfolding is_active
owns_active agent_id r = r.agent_id == agent_id && is_active r.status

unfoldable pub handoff_to : String → String → SwarmOwnershipRecord → SwarmOwnershipHandoff
handoff_to failed_agent_id replacement r = record {
  from_agent_id = failed_agent_id;
  to_agent_id = replacement;
  kind = r.kind;
  resource_id = r.resource_id;
  tick = r.tick;
  reason = "agent_failure_replacement";
}

module _ {F : Type 0} where
  unfoldable pub ensure_replacement_candidate :
      SwarmCommandPlan F → Result SwarmCommandPlaneError (Unit {0})
  unfolding is_reserve
  ensure_replacement_candidate plan =
      if any (λ agent. is_reserve agent.role) plan.agents
      then ok tt
      else err SwarmCommandPlaneError.missing_replacement_agent

  unfoldable pub ensure_replacement_candidate_for_agent :
      SwarmCommandPlan F → String → Result SwarmCommandPlaneError (Unit {0})
  unfolding is_other_reserve
  ensure_replacement_candidate_for_agent plan failed_agent_id =
      if any (is_other_reserve failed_agent_id) plan.agents
      then ok tt
      else err SwarmCommandPlaneError.missing_replacement_agent

  unfoldable pub released_ownership : SwarmCommandPlan F → String → List SwarmOwnershipRecord
  unfolding owns_active
  released_ownership plan failed_agent_id = filter (owns_active failed_agent_id) plan.ownership

  unfoldable pub replace_failed :
      SwarmCommandPlan F → String → Result SwarmCommandPlaneError SwarmFailureDecision
  unfolding ensure_replacement_candidate_for_agent is_other_reserve owns_active handoff_to
  replace_failed plan failed_agent_id =
      elim (ensure_replacement_candidate_for_agent plan failed_agent_id) [
        | err e ↦ err e
        | ok _ ↦ elim (find (is_other_reserve failed_agent_id) plan.agents) [
          | none ↦ err SwarmCommandPlaneError.missing_replacement_agent
          | some agent ↦ ok (
              SwarmFailureDecision.replace_from_reserve failed_agent_id agent.agent_id (
                map (handoff_to failed_agent_id agent.agent_id)
                  (filter (owns_active failed_agent_id) plan.ownership)))
        ]
      ]

  unfoldable pub decide_failure :
      SwarmCommandPlan F
      → String
      → SwarmAbortPolicy
      → Result SwarmCommandPlaneError SwarmFailureDecision
  unfolding replace_failed released_ownership
  decide_failure plan id SwarmAbortPolicy.abort_agent_only =
      ok (SwarmFailureDecision.abort_agent_only id)
  decide_failure plan id SwarmAbortPolicy.abort_mission =
      ok (SwarmFailureDecision.abort_mission id (map (λ agent. agent.agent_id) plan.agents))
  decide_failure plan id SwarmAbortPolicy.continue_degraded =
      ok (SwarmFailureDecision.continue_degraded id (released_ownership plan id))
  decide_failure plan id SwarmAbortPolicy.replace_from_reserve = replace_failed plan id

  unfoldable pub apply_agent_failure :
      SwarmCommandPlan F → String → Result SwarmCommandPlaneError SwarmFailureDecision
  unfolding decide_failure
  apply_agent_failure plan failed_agent_id =
      elim (find (λ agent. agent.agent_id == failed_agent_id) plan.agents) [
        | none ↦ err (SwarmCommandPlaneError.missing_failed_agent failed_agent_id)
        | some agent ↦ decide_failure plan failed_agent_id agent.abort_policy
      ]
