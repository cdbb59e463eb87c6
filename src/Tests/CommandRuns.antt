-- ===== src/Tests/CommandRuns.antt =====
-- Runs of the command plane on a plan with two agents, one of them in reserve.
use drone_swarm_lab.Base.{
  ℕ, ◌≡◌, refl, true, none, some, List, [], ◌∷◌, map, filter, find, any, contains, Distinct, All,
  ok,
}
use drone_swarm_lab.HashMap.{HashMap}
use drone_swarm_lab.Command.{
  SwarmCommandRole, SwarmSupervisorState, SwarmAbortPolicy, SwarmOwnershipKind,
  SwarmOwnershipStatus, SwarmOwnershipRecord, SwarmOwnershipHandoff, SynchronizedCommandKind,
  PartialSuccessPolicy, SynchronizedCommandWindow, SwarmAgentCommandPlan, SwarmCommandPlan,
  SwarmTopologyConfig, is_active, is_reserve, is_replacing, is_mission_abort, kind_index,
}
use drone_swarm_lab.Command.Policy.{
  SwarmFailureDecision, is_other_reserve, owns_active, handoff_to,
  ensure_replacement_candidate_for_agent, replace_failed, decide_failure, apply_agent_failure,
}
use drone_swarm_lab.Command.Policy.Replacement.{Replaces, apply_agent_failure-Replaces}
use drone_swarm_lab.Command.Sync.{SyncAgentOutcome}
use drone_swarm_lab.Command.Validation.{
  Checked, resource_eq, lookup, check_sources, check_agents, collect_owners,
  validate_handoff_evidence, check_refs, check_agent_refs, check_global_policy, check_replacements,
  check_plan, validate_swarm_command_plan,
}
use drone_swarm_lab.Command.Validation.Accepted.{
  UniqueActive, RefsOwned, HasReserve, validate_swarm_command_plan_accepts,
}
use drone_swarm_lab.Command.Validation.Failures.{apply_agent_failure_decides}

abbrev owned : SwarmOwnershipRecord
owned = record {
  agent_id = "a1";
  kind = SwarmOwnershipKind.task;
  resource_id = "t1";
  status = SwarmOwnershipStatus.active;
  tick = 4;
  reason = "assigned";
}

abbrev agents : List SwarmAgentCommandPlan
agents =
    record {
      agent_id = "a1";
      role = SwarmCommandRole.scout;
      commands = record { command_id = "c1"; source_agent_id = some "a1" } ∷ [];
      abort_policy = SwarmAbortPolicy.replace_from_reserve;
      ownership_refs = record { kind = SwarmOwnershipKind.task; resource_id = "t1" } ∷ [];
    }
    ∷ record {
      agent_id = "a2";
      role = SwarmCommandRole.reserve;
      commands = [];
      abort_policy = SwarmAbortPolicy.abort_agent_only;
      ownership_refs = [];
    }
    ∷ []

abbrev plan : SwarmCommandPlan ℕ
plan = record {
  schema_version = "swarm_command_plane.v1";
  plan_id = "p1";
  supervisor_state = SwarmSupervisorState.planned;
  agents = agents;
  ownership = owned ∷ [];
  handoffs = [];
  global_abort_policy = SwarmAbortPolicy.abort_mission;
  sync_operations = [];
  sync_results = [];
  topology = none;
  command_routes = [];
  summary = record {
    schema_version = "swarm_command_plane.v1";
    plan_id = "p1";
    agent_plan_count = 2;
    active_ownership_count = 1;
    handoff_count = 0;
    sync_operation_count = 0;
    topology_kind = none;
    topology_node_count = 0;
    topology_link_count = 0;
    command_route_count = 0;
    degraded_route_count = 0;
    mothership_dependency_count = 0;
  };
}

abbrev any_topology : SwarmCommandPlan ℕ → SwarmTopologyConfig ℕ → Checked
any_topology p t = ok tt

plan_accepted : validate_swarm_command_plan any_topology plan ≡ ok tt
unfolding validate_swarm_command_plan check_plan check_agents check_sources collect_owners lookup
    resource_eq kind_index validate_handoff_evidence check_agent_refs check_refs check_global_policy
    check_replacements ensure_replacement_candidate_for_agent is_other_reserve is_reserve
    is_replacing is_mission_abort is_active contains any
plan_accepted = refl

validate_swarm_command_plan_accepts_example :
    Distinct (map (λ a. a.agent_id) agents)
    × UniqueActive (owned ∷ [])
    × All (RefsOwned (owned ∷ [])) agents
    × All (HasReserve plan) agents
validate_swarm_command_plan_accepts_example =
    validate_swarm_command_plan_accepts plan any_topology plan_accepted

a1_planned : contains (map (λ a. a.agent_id) agents) "a1" ≡ true
unfolding contains
a1_planned = refl

apply_agent_failure_decides_example :
    (d : SwarmFailureDecision) × (apply_agent_failure plan "a1" ≡ ok d)
apply_agent_failure_decides_example =
    apply_agent_failure_decides plan any_topology "a1" plan_accepted a1_planned

abbrev handoffs : List SwarmOwnershipHandoff
handoffs =
    record {
      from_agent_id = "a1";
      to_agent_id = "a2";
      kind = SwarmOwnershipKind.task;
      resource_id = "t1";
      tick = 4;
      reason = "agent_failure_replacement";
    }
    ∷ []

a1_replaced :
    apply_agent_failure plan "a1"
    ≡ ok (SwarmFailureDecision.replace_from_reserve "a1" "a2" handoffs)
unfolding apply_agent_failure decide_failure replace_failed ensure_replacement_candidate_for_agent
    is_other_reserve is_reserve owns_active handoff_to is_active find filter any
a1_replaced = refl

apply_agent_failure-Replaces_example : Replaces plan "a1" "a1" "a2" handoffs
apply_agent_failure-Replaces_example =
    apply_agent_failure-Replaces plan "a1" "a1" "a2" handoffs a1_replaced

-- One agent fails, and one has no outcome.
abbrev window : SynchronizedCommandWindow
window = record {
  kind = SynchronizedCommandKind.takeoff_all;
  agent_ids = "a1" ∷ "a2" ∷ "a1" ∷ [];
  timeout_ms = 500;
  partial_success_policy = PartialSuccessPolicy.require_all;
}

abbrev outcomes : HashMap SyncAgentOutcome
outcomes = ("a2", SyncAgentOutcome.failed) ∷ []
