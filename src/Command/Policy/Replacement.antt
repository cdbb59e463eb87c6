-- ===== src/Command/Policy/Replacement.antt =====
-- What the replacement of a failed agent hands over, and to whom.
use drone_swarm_lab.Base.{
  String, ◌≡◌, ◌≢◌, ◌⊎◌, refl, sym, subst, true, false, ◌==◌, eq_iff, eq_refl, some, List, [], ◌∷◌,
  filter, map, find, any, find-any, find-holds, Result, ok, arith, Bool-cases, Option-cases, inl,
  inr,
}
use drone_swarm_lab.Command.{
  SwarmAgentCommandPlan, SwarmOwnershipRecord, SwarmOwnershipStatus, SwarmAbortPolicy,
  SwarmOwnershipHandoff, SwarmCommandPlan, is_active, is_reserve,
}
use drone_swarm_lab.Command.SwarmAbortPolicy.{
  abort_agent_only, abort_mission, continue_degraded, replace_from_reserve,
}
use drone_swarm_lab.Command.Policy.{
  SwarmCommandPlaneError, SwarmFailureDecision, is_other_reserve, owns_active, handoff_to,
  released_ownership, ensure_replacement_candidate_for_agent, replace_failed, decide_failure,
  apply_agent_failure,
}

abbrev decided : SwarmFailureDecision → Result SwarmCommandPlaneError SwarmFailureDecision
decided d = ok d

replacement-parts :
    {a b c d : String} {hs ks : List SwarmOwnershipHandoff}
    → decided (SwarmFailureDecision.replace_from_reserve a b hs)
      ≡ decided (SwarmFailureDecision.replace_from_reserve c d ks)
    → (a ≡ c) × (b ≡ d) × (hs ≡ ks)
replacement-parts h = (cc, cc, cc)

other_reserve-parts :
    (id : String) (agent : SwarmAgentCommandPlan)
    → is_other_reserve id agent ≡ true
    → ((agent.agent_id == id) ≡ false) × (is_reserve agent.role ≡ true)
unfolding is_other_reserve
other_reserve-parts id agent h = ground arith

-- The handoffs of an agent's resources to another, one for each active record of the agent, in the
-- order of the records.
pub data Handed (id new : String)
    : List SwarmOwnershipRecord → List SwarmOwnershipHandoff → Type 0 where
  nothing_owned : Handed id new [] []
  hands :
      {rs : List SwarmOwnershipRecord} {hs : List SwarmOwnershipHandoff} (r : SwarmOwnershipRecord)
      (h : SwarmOwnershipHandoff)
      → (r.agent_id ≡ id) × (r.status ≡ SwarmOwnershipStatus.active)
      → (h.from_agent_id ≡ id) × (h.to_agent_id ≡ new)
      → (h.kind ≡ r.kind) × (h.resource_id ≡ r.resource_id) × (h.tick ≡ r.tick)
      → Handed id new rs hs
      → Handed id new (r ∷ rs) (h ∷ hs)
  passes :
      {rs : List SwarmOwnershipRecord} {hs : List SwarmOwnershipHandoff} (r : SwarmOwnershipRecord)
      → (r.agent_id ≢ id) ⊎ (r.status ≡ SwarmOwnershipStatus.released)
      → Handed id new rs hs
      → Handed id new (r ∷ rs) hs

owned-parts :
    (id : String) (r : SwarmOwnershipRecord)
    → owns_active id r ≡ true
    → (r.agent_id ≡ id) × (r.status ≡ SwarmOwnershipStatus.active)
unfolding owns_active is_active
owned-parts id r h = ground (arith, eq_iff r.agent_id id)

unowned-parts :
    (id : String) (r : SwarmOwnershipRecord)
    → owns_active id r ≡ false
    → (r.agent_id ≢ id) ⊎ (r.status ≡ SwarmOwnershipStatus.released)
unfolding owns_active is_active
unowned-parts id r h = ground (arith, eq_refl id)

released-Handed :
    (id new : String) (rs : List SwarmOwnershipRecord)
    → Handed id new rs (map (handoff_to id new) (filter (owns_active id) rs))
unfolding filter handoff_to
released-Handed id new [] = nothing_owned
released-Handed id new (r ∷ rs) = elim (Bool-cases (owns_active id r)) [
  | inl on ↦
      rw (on) (
        hands r _ (owned-parts id r on) (refl, refl) (refl, refl, refl) (released-Handed id new rs))
  | inr off ↦ rw (off) (passes r (unowned-parts id r off) (released-Handed id new rs))
]

module _ {F : Type 0} (plan : SwarmCommandPlan F) where
  -- The replacement is the first other agent of the plan in reserve, and it is handed what the failed
  -- agent owns.
  abbrev pub Replaces : String → String → String → List SwarmOwnershipHandoff → Type 0
  Replaces id failed new handoffs =
      (failed ≡ id)
      × ((agent : SwarmAgentCommandPlan) × (find (is_other_reserve id) plan.agents ≡ some agent)
          × (agent.agent_id ≡ new)
          × ((new == id) ≡ false)
          × (is_reserve agent.role ≡ true))
      × Handed id new plan.ownership handoffs

  replace_failed-Replaces :
      (id failed new : String) (handoffs : List SwarmOwnershipHandoff)
      → replace_failed plan id ≡ ok (SwarmFailureDecision.replace_from_reserve failed new handoffs)
      → Replaces id failed new handoffs
  unfolding replace_failed ensure_replacement_candidate_for_agent released_ownership
  replace_failed-Replaces id failed new handoffs h =
      elim (Bool-cases (any (is_other_reserve id) plan.agents)) [
        | inr off ↦ absurd (cc (rw (replace_failed, off) at h))
        | inl on ↦
            let (agent, f) = find-any (is_other_reserve id) plan.agents on in
            let same : decided (
                  SwarmFailureDecision.replace_from_reserve id agent.agent_id
                    (map (handoff_to id agent.agent_id) (released_ownership plan id)))
                ≡ decided (SwarmFailureDecision.replace_from_reserve failed new handoffs) =
              rw (replace_failed, on, f) at h in
            let (id_same, new_same, handoffs_same) = replacement-parts same in
            let (other, reserve) =
              other_reserve-parts id agent
                (find-holds (is_other_reserve id) plan.agents agent f).0 in
            (
              sym id_same,
              (agent, f, new_same, rw (sym new_same) other, reserve),
              subst (λ w. Handed id w plan.ownership handoffs) new_same
                  (subst (Handed id agent.agent_id plan.ownership) handoffs_same
                    (released-Handed id agent.agent_id plan.ownership)),
            )
      ]

  decide_failure-Replaces :
      (id failed new : String) (handoffs : List SwarmOwnershipHandoff) (policy : SwarmAbortPolicy)
      → decide_failure plan id policy
        ≡ ok (SwarmFailureDecision.replace_from_reserve failed new handoffs)
      → Replaces id failed new handoffs
  unfolding decide_failure
  decide_failure-Replaces id failed new handoffs abort_agent_only h = absurd cc
  decide_failure-Replaces id failed new handoffs abort_mission h = absurd cc
  decide_failure-Replaces id failed new handoffs continue_degraded h = absurd cc
  decide_failure-Replaces id failed new handoffs replace_from_reserve h =
      replace_failed-Replaces id failed new handoffs h

  pub replace_failed-succeeds :
      (id : String)
      → any (is_other_reserve id) plan.agents ≡ true
      → (d : SwarmFailureDecision) × (replace_failed plan id ≡ ok d)
  unfolding replace_failed ensure_replacement_candidate_for_agent released_ownership
  replace_failed-succeeds id h =
      let (agent, e) = find-any (is_other_reserve id) plan.agents h in
      (
        SwarmFailureDecision.replace_from_reserve id agent.agent_id
            (map (handoff_to id agent.agent_id) (released_ownership plan id)),
        rw (replace_failed, ensure_replacement_candidate_for_agent, h, e, released_ownership) refl,
      )

  -- If the failure of an agent is answered by a replacement, then the replacement is the first other
  -- agent of the plan in reserve, and the handoffs are one for each ownership record of the failed
  -- agent that is active and not released, in the order of the records, from the failed agent to the
  -- replacement, with the kind, the resource and the tick of the record.
  pub apply_agent_failure-Replaces :
      (id failed new : String) (handoffs : List SwarmOwnershipHandoff)
      → apply_agent_failure plan id
        ≡ ok (SwarmFailureDecision.replace_from_reserve failed new handoffs)
      → Replaces id failed new handoffs
  unfolding apply_agent_failure
  apply_agent_failure-Replaces id failed new handoffs h =
      elim (Option-cases (find (λ agent. agent.agent_id == id) plan.agents)) [
        | inl f ↦ absurd (cc (rw (apply_agent_failure, f) at h))
        | inr (agent, f) ↦
            decide_failure-Replaces id failed new handoffs agent.abort_policy
              (rw (apply_agent_failure, f) at h)
      ]
