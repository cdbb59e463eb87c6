-- ===== src/Command/Validation/Failures.antt =====
-- The failure of an agent of a plan that the validation accepts.
use drone_swarm_lab.Base.{
  String, ◌≡◌, refl, true, if◌then◌else◌, ◌==◌, eq_iff, some, List, [], ◌∷◌, map, find, any,
  contains, All, ok, arith, Bool-cases, inl, inr,
}
use drone_swarm_lab.Command.{
  SwarmAgentCommandPlan, SwarmAbortPolicy, SwarmCommandPlan, SwarmTopologyConfig, is_replacing,
}
use drone_swarm_lab.Command.SwarmAbortPolicy.{
  abort_agent_only, abort_mission, continue_degraded, replace_from_reserve,
}
use drone_swarm_lab.Command.Policy.{
  SwarmFailureDecision, is_other_reserve, released_ownership, decide_failure, apply_agent_failure,
}
use drone_swarm_lab.Command.Policy.Replacement.{replace_failed-succeeds}
use drone_swarm_lab.Command.Validation.{Checked, validate_swarm_command_plan}
use drone_swarm_lab.Command.Validation.Accepted.{HasReserve, validate_swarm_command_plan_accepts}

-- An agent of the plan is found, with what holds of all of them.
find-All :
    (P : SwarmAgentCommandPlan → Type 0) (id : String) (agents : List SwarmAgentCommandPlan)
    → All P agents
    → contains (map (λ a. a.agent_id) agents) id ≡ true
    → (agent : SwarmAgentCommandPlan) × (find (λ a. a.agent_id == id) agents ≡ some agent)
      × (agent.agent_id ≡ id)
      × P agent
unfolding contains find
find-All P id [] h c = absurd (ground arith)
find-All P id (a ∷ agents) h c = elim (Bool-cases (a.agent_id == id)) [
  | inl here ↦ (a, rw (find, here) refl, (eq_iff a.agent_id id).0 here, h.0)
  | inr later ↦
      let (agent, e, same, p) = find-All P id agents h.1 (rw (contains, later) at c) in
      (agent, rw (find, later) e, same, p)
]

module _ {F : Type 0} (plan : SwarmCommandPlan F) where
  decide_failure-succeeds :
      (id : String) (policy : SwarmAbortPolicy)
      → (if is_replacing policy then any (is_other_reserve id) plan.agents else true) ≡ true
      → (d : SwarmFailureDecision) × (decide_failure plan id policy ≡ ok d)
  unfolding decide_failure is_replacing
  decide_failure-succeeds id abort_agent_only h = (SwarmFailureDecision.abort_agent_only id, refl)
  decide_failure-succeeds id abort_mission h =
      (SwarmFailureDecision.abort_mission id (map (λ agent. agent.agent_id) plan.agents), refl)
  decide_failure-succeeds id continue_degraded h =
      (SwarmFailureDecision.continue_degraded id (released_ownership plan id), refl)
  decide_failure-succeeds id replace_from_reserve h = replace_failed-succeeds plan id h

  -- In an accepted plan the failure of any of its agents is answered by a decision, never by an
  -- error.
  pub apply_agent_failure_decides :
      (validate_topology : SwarmCommandPlan F → SwarmTopologyConfig F → Checked) (id : String)
      → validate_swarm_command_plan validate_topology plan ≡ ok tt
      → contains (map (λ a. a.agent_id) plan.agents) id ≡ true
      → (d : SwarmFailureDecision) × (apply_agent_failure plan id ≡ ok d)
  unfolding apply_agent_failure
  apply_agent_failure_decides validate_topology id accepted member =
      let (_, _, _, reserves) =
        validate_swarm_command_plan_accepts plan validate_topology accepted in
      let (agent, e, same, reserve) = find-All (HasReserve plan) id plan.agents reserves member in
      let (d, decided) = decide_failure-succeeds id agent.abort_policy (rw same at reserve) in
      (d, rw (apply_agent_failure, e) decided)
