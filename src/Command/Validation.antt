-- ===== src/Command/Validation.antt =====
-- crates/swarm-command-plane/src/validation.rs: the validation of a command plan. The check of its
-- topology is an argument: Validation/Topology has it. The tables of owners are keyed by the kind and the
-- id of a resource; their order stands for the unspecified order of the program's tables.
pub mod Accepted
pub mod Failures
pub mod Topology
use drone_swarm_lab.Base.{
  ℕ, String, Bool, true, false, not, ◌&&◌, nat_eq, ◌==◌, if◌then◌else◌, is_empty, option_eq, Option,
  none, some, List, [], ◌∷◌, ◌++◌, any, contains, Result, ok, err, ◌>>=◌,
}
use drone_swarm_lab.Command.{
  SwarmAgentCommandPlan, SwarmAbortPolicy, SwarmOwnershipKind, SwarmOwnershipRecord,
  SwarmOwnershipRef, SwarmOwnershipHandoff, SwarmCommandPlan, SwarmTopologyConfig,
  MissionCommandEntry, swarm_command_plane_schema_version, is_active, is_replacing,
  is_mission_abort, kind_index,
}
use drone_swarm_lab.Command.Policy.{
  SwarmCommandPlaneError, ensure_replacement_candidate, ensure_replacement_candidate_for_agent,
}

abbrev pub Checked : Type 0
Checked = Result SwarmCommandPlaneError (Unit {0})

abbrev pub Resource : Type 0
Resource = SwarmOwnershipKind × String

unfoldable pub resource_eq : Resource → Resource → Bool
unfolding kind_index
resource_eq a b = nat_eq (kind_index a.0) (kind_index b.0) && a.1 == b.1

-- `HashMap<(SwarmOwnershipKind, String), V>`
unfoldable pub lookup : {V : Type 0} → Resource → List (Resource × V) → Option V
unfolding resource_eq
lookup r [] = none
lookup r ((q, v) ∷ m) = let rest = lookup r m in if resource_eq q r then some v else rest

unfoldable pub push_owner :
    Resource → String → List (Resource × List String) → List (Resource × List String)
unfolding resource_eq
push_owner r id [] = (r, id ∷ []) ∷ []
push_owner r id ((q, ids) ∷ m) =
    let rest = push_owner r id m in
    if resource_eq q r then (q, ids ++ id ∷ []) ∷ m else (q, ids) ∷ rest

-- The loop over the commands of an agent.
unfoldable pub check_sources : String → List MissionCommandEntry → Checked
check_sources agent_id [] = ok tt
check_sources agent_id (entry ∷ entries) =
    let rest = check_sources agent_id entries in
    elim entry.source_agent_id [
      | none ↦ rest
      | some source ↦
          if source == agent_id
          then rest
          else err (SwarmCommandPlaneError.source_agent_mismatch entry.command_id source agent_id)
    ]

unfoldable pub check_agents : List String → List SwarmAgentCommandPlan → Checked
unfolding check_sources
check_agents agent_ids [] = ok tt
check_agents agent_ids (agent ∷ agents) =
    let rest = check_agents (agent.agent_id ∷ agent_ids) agents in
    if contains agent_ids agent.agent_id
    then err (SwarmCommandPlaneError.duplicate_agent_plan agent.agent_id)
    else check_sources agent.agent_id agent.commands >>= λ _. rest

-- The active owner of each resource, and the agents that released it.
pub record Owners : Type 0 where
  pub active : List (Resource × String)
  pub released : List (Resource × List String)

unfoldable pub collect_owners :
    Owners → List SwarmOwnershipRecord → Result SwarmCommandPlaneError Owners
unfolding lookup push_owner is_active
collect_owners o [] = ok o
collect_owners o (r ∷ rs) =
    let key : Resource = (r.kind, r.resource_id) in
    let freed = collect_owners (record o { released = push_owner key r.agent_id o.released }) rs in
    let taken = collect_owners (record o { active = (key, r.agent_id) ∷ o.active }) rs in
    if is_active r.status
    then elim (lookup key o.active) [
      | none ↦ taken
      | some _ ↦ err (SwarmCommandPlaneError.duplicate_ownership r.kind r.resource_id)
    ]
    else freed

unfoldable pub is_handoff : Resource → String → String → SwarmOwnershipHandoff → Bool
unfolding resource_eq
is_handoff key from to h =
    resource_eq (h.kind, h.resource_id) key && (h.from_agent_id == from && h.to_agent_id == to)

unfoldable pub check_releases :
    List SwarmOwnershipHandoff → Resource → String → List String → Checked
unfolding is_handoff
check_releases handoffs key to [] = ok tt
check_releases handoffs key to (from ∷ froms) =
    let rest = check_releases handoffs key to froms in
    if from == to
    then rest
    else if any (is_handoff key from to) handoffs
    then rest
    else err (SwarmCommandPlaneError.missing_handoff_evidence key.0 key.1 from to)

unfoldable pub validate_handoff_evidence :
    List SwarmOwnershipHandoff → List (Resource × String) → List (Resource × List String) → Checked
unfolding check_releases lookup
validate_handoff_evidence handoffs active [] = ok tt
validate_handoff_evidence handoffs active ((key, froms) ∷ m) =
    let rest = validate_handoff_evidence handoffs active m in
    elim (lookup key active) [
      | none ↦ rest
      | some to ↦ check_releases handoffs key to froms >>= λ _. rest
    ]

unfoldable pub check_refs : List (Resource × String) → String → List SwarmOwnershipRef → Checked
unfolding lookup
check_refs active agent_id [] = ok tt
check_refs active agent_id (r ∷ rs) =
    let rest = check_refs active agent_id rs in
    if option_eq (lookup (r.kind, r.resource_id) active) (some agent_id)
    then rest
    else err (SwarmCommandPlaneError.missing_active_ownership agent_id r.kind r.resource_id)

unfoldable pub check_agent_refs : List (Resource × String) → List SwarmAgentCommandPlan → Checked
unfolding check_refs
check_agent_refs active [] = ok tt
check_agent_refs active (agent ∷ agents) =
    let rest = check_agent_refs active agents in
    check_refs active agent.agent_id agent.ownership_refs >>= λ _. rest

module _ {F : Type 0} where
  unfoldable pub check_global_policy : SwarmCommandPlan F → Checked
  unfolding is_mission_abort is_replacing ensure_replacement_candidate
  check_global_policy plan =
      if is_mission_abort plan.global_abort_policy && is_empty plan.agents
      then err SwarmCommandPlaneError.missing_abort_targets
      else if is_replacing plan.global_abort_policy
      then ensure_replacement_candidate plan
      else ok tt

  unfoldable pub check_replacements : SwarmCommandPlan F → List SwarmAgentCommandPlan → Checked
  unfolding is_replacing ensure_replacement_candidate_for_agent
  check_replacements plan [] = ok tt
  check_replacements plan (agent ∷ agents) =
      let rest = check_replacements plan agents in
      if is_replacing agent.abort_policy
      then (ensure_replacement_candidate_for_agent plan agent.agent_id >>= λ _. rest)
      else rest

  -- What follows the check of the schema.
  unfoldable pub check_plan :
      (SwarmCommandPlan F → SwarmTopologyConfig F → Checked) → SwarmCommandPlan F → Checked
  unfolding check_agents collect_owners validate_handoff_evidence check_agent_refs
      check_global_policy check_replacements
  check_plan validate_topology plan = do
    _ ← check_agents [] plan.agents
    owners ← collect_owners (record { active = []; released = [] }) plan.ownership
    _ ← validate_handoff_evidence plan.handoffs owners.active owners.released
    _ ← check_agent_refs owners.active plan.agents
    _ ← check_global_policy plan
    _ ← check_replacements plan plan.agents
    elim plan.topology [ none ↦ ok tt | some topology ↦ validate_topology plan topology ]

  unfoldable pub validate_swarm_command_plan :
      (SwarmCommandPlan F → SwarmTopologyConfig F → Checked) → SwarmCommandPlan F → Checked
  unfolding check_plan
  validate_swarm_command_plan validate_topology plan =
      if plan.schema_version == swarm_command_plane_schema_version
      then check_plan validate_topology plan
      else err (SwarmCommandPlaneError.unsupported_schema plan.schema_version)
