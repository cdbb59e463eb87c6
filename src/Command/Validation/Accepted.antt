-- ===== src/Command/Validation/Accepted.antt =====
-- What holds of a plan that the validation accepts.
use drone_swarm_lab.Base.{
  String, ◌≡◌, refl, ◌∙◌, ap, Bool, true, false, ◌&&◌, ◌==◌, eq_iff, eq_refl, if◌then◌else◌, none,
  some, List, [], ◌∷◌, map, any, contains, Distinct, All, ok, ◌>>=◌, bind-ok, arith, Bool-cases,
  Option-cases, inl, inr, ◌⊎◌, nat_eq_iff,
}
use mathlib.Core.Logic.{⊎_elim}
use drone_swarm_lab.Command.{
  SwarmAgentCommandPlan, SwarmOwnershipRecord, SwarmOwnershipRef, SwarmCommandPlan,
  SwarmTopologyConfig, is_active, is_replacing, kind_index, swarm_command_plane_schema_version,
}
use drone_swarm_lab.Command.Policy.{is_other_reserve, ensure_replacement_candidate_for_agent}
use drone_swarm_lab.Command.Validation.{
  Checked, Resource, resource_eq, lookup, check_sources, check_agents, Owners, collect_owners,
  push_owner, check_refs, check_agent_refs, check_global_policy, check_replacements, check_plan,
  validate_handoff_evidence, validate_swarm_command_plan,
}

check_agents-Distinct :
    (seen : List String) (agents : List SwarmAgentCommandPlan)
    → check_agents seen agents ≡ ok tt
    → Distinct (map (λ a. a.agent_id) agents)
      × ((k : String) → contains seen k ≡ true → contains (map (λ a. a.agent_id) agents) k ≡ false)
unfolding check_agents contains
check_agents-Distinct seen [] h = (tt, λ k c. refl)
check_agents-Distinct seen (agent ∷ agents) h = elim (Bool-cases (contains seen agent.agent_id)) [
  | inl twice ↦ absurd (cc (rw (check_agents, twice) at h))
  | inr new ↦
      let (u, e, e') =
        bind-ok (check_sources agent.agent_id agent.commands)
          (λ _. check_agents (agent.agent_id ∷ seen) agents) tt (rw (check_agents, new) at h) in
      let (distinct, fresh) = check_agents-Distinct (agent.agent_id ∷ seen) agents e' in
      (
        (fresh agent.agent_id (ground (arith, eq_refl agent.agent_id)), distinct),
        λ k c. ground (arith, fresh k, eq_iff agent.agent_id k),
      )
]

-- An active record of a resource.
abbrev pub holds_active : Resource → SwarmOwnershipRecord → Bool
holds_active key r = is_active r.status && resource_eq (r.kind, r.resource_id) key

-- No resource has two active records.
abbrev pub UniqueActive : List SwarmOwnershipRecord → Type 0
UniqueActive [] = Unit
UniqueActive (r ∷ rs) =
    (if is_active r.status then any (holds_active (r.kind, r.resource_id)) rs else false) ≡ false
    × UniqueActive rs

abbrev pub owned_by : Resource → String → SwarmOwnershipRecord → Bool
owned_by key agent_id r = holds_active key r && r.agent_id == agent_id

resource_eq_refl : (a : Resource) → resource_eq a a ≡ true
unfolding resource_eq
resource_eq_refl a = ground (arith, eq_refl a.1, nat_eq_iff (kind_index a.0) (kind_index a.0))

lookup_cong :
    {V : Type 0} (a b : Resource) (m : List (Resource × V))
    → resource_eq a b ≡ true
    → lookup a m ≡ lookup b m
unfolding lookup resource_eq
lookup_cong a b [] h = refl
lookup_cong a b ((q, v) ∷ m) h = ground (
  arith,
  lookup_cong a b m,
  eq_iff a.1 b.1,
  eq_iff q.1 a.1,
  eq_iff q.1 b.1,
  nat_eq_iff (kind_index a.0) (kind_index b.0),
  nat_eq_iff (kind_index q.0) (kind_index a.0),
  nat_eq_iff (kind_index q.0) (kind_index b.0),
)

-- The records that are still to be read, and the owners that are known.
record Collected (o : Owners) (rs : List SwarmOwnershipRecord) (last : Owners) : Type 0 where
  unique : UniqueActive rs
  untaken :
      (key : Resource) (a : String)
      → lookup key o.active ≡ some a
      → any (holds_active key) rs ≡ false
  origin :
      (key : Resource) (a : String)
      → lookup key last.active ≡ some a
      → (lookup key o.active ≡ some a) ⊎ (any (owned_by key a) rs ≡ true)

module _ (o last : Owners) (r : SwarmOwnershipRecord) (rs : List SwarmOwnershipRecord) where
  abbrev key_of : Resource
  key_of = (r.kind, r.resource_id)

  abbrev taken : Owners
  taken = record { active = (key_of, r.agent_id) ∷ o.active; released = o.released }

  Collected-taken :
      is_active r.status ≡ true
      → lookup key_of o.active ≡ none
      → Collected taken rs last
      → Collected o (r ∷ rs) last
  unfolding any lookup
  Collected-taken on free h = record {
    unique =
        (rw on (h.untaken key_of r.agent_id (rw (lookup, resource_eq_refl key_of) refl)), h.unique);
    untaken = λ key a e. ground (arith, on, h.untaken key a, lookup_cong key_of key o.active, free);
    origin = λ key a e. ground (arith, on, h.origin key a e, eq_iff r.agent_id a);
  }

  Collected-freed :
      (now : Owners)
      → now.active ≡ o.active
      → is_active r.status ≡ false
      → Collected now rs last
      → Collected o (r ∷ rs) last
  unfolding any
  Collected-freed now same off h = record {
    unique = (rw off refl, h.unique);
    untaken = λ key a e. ground (arith, off, same, h.untaken key a);
    origin = λ key a e. ground (arith, off, same, h.origin key a e);
  }

collect_owners-Collected :
    (o last : Owners) (rs : List SwarmOwnershipRecord)
    → collect_owners o rs ≡ ok last
    → Collected o rs last
unfolding collect_owners any
collect_owners-Collected o last [] h = record {
  unique = tt;
  untaken = λ key a e. refl;
  origin = λ key a e. inl (ground arith);
}
collect_owners-Collected o last (r ∷ rs) h = elim (Bool-cases (is_active r.status)) [
  | inr off ↦
      let freed : Owners = record o {
        released = push_owner (r.kind, r.resource_id) r.agent_id o.released;
      } in
      Collected-freed o last r rs freed refl off
        (collect_owners-Collected freed last rs (rw (collect_owners, off) at h))
  | inl on ↦ elim (Option-cases (lookup (r.kind, r.resource_id) o.active)) [
    | inr (a, f) ↦ absurd (cc (rw (collect_owners, on, f) at h))
    | inl f ↦
        Collected-taken o last r rs on f
          (collect_owners-Collected (taken o last r rs) last rs (rw (collect_owners, on, f) at h))
  ]
]

lookup-none : (key : Resource) (a : String) → ¬ (lookup key [] ≡ some a)
unfolding lookup
lookup-none key a e = cc

check_refs-All :
    (active : List (Resource × String)) (agent_id : String) (Q : SwarmOwnershipRef → Type 0)
    (refs : List SwarmOwnershipRef)
    → ((r : SwarmOwnershipRef) → lookup (r.kind, r.resource_id) active ≡ some agent_id → Q r)
    → check_refs active agent_id refs ≡ ok tt
    → All Q refs
unfolding check_refs
check_refs-All active agent_id Q [] owned h = tt
check_refs-All active agent_id Q (r ∷ refs) owned h =
    elim (Option-cases (lookup (r.kind, r.resource_id) active)) [
      | inl f ↦ absurd (cc (rw (check_refs, f) at h))
      | inr (a, f) ↦ elim (Bool-cases (a == agent_id)) [
        | inr other ↦ absurd (cc (rw (check_refs, f, other) at h))
        | inl same ↦ (
          owned r (f ∙ ap some ((eq_iff a agent_id).0 same)),
          check_refs-All active agent_id Q refs owned (rw (check_refs, f, same) at h),
        )
      ]
    ]

-- Each resource that an agent refers to has an active record of the agent.
abbrev pub RefsOwned : List SwarmOwnershipRecord → SwarmAgentCommandPlan → Type 0
RefsOwned ownership agent =
    All (λ r. any (owned_by (r.kind, r.resource_id) agent.agent_id) ownership ≡ true)
      agent.ownership_refs

check_agent_refs-All :
    (active : List (Resource × String)) (ownership : List SwarmOwnershipRecord)
    (agents : List SwarmAgentCommandPlan)
    → ((key : Resource) (a : String)
        → lookup key active ≡ some a
        → any (owned_by key a) ownership ≡ true)
    → check_agent_refs active agents ≡ ok tt
    → All (RefsOwned ownership) agents
unfolding check_agent_refs
check_agent_refs-All active ownership [] owned h = tt
check_agent_refs-All active ownership (agent ∷ agents) owned h =
    let (u, e, e') =
      bind-ok (check_refs active agent.agent_id agent.ownership_refs)
        (λ _. check_agent_refs active agents) tt h in
    (
      check_refs-All active agent.agent_id
          (λ r. any (owned_by (r.kind, r.resource_id) agent.agent_id) ownership ≡ true)
          agent.ownership_refs (λ r f. owned (r.kind, r.resource_id) agent.agent_id f) e,
      check_agent_refs-All active ownership agents owned e',
    )

module _ {F : Type 0} (plan : SwarmCommandPlan F) where
  -- An agent that is to be replaced has another agent in reserve.
  abbrev pub HasReserve : SwarmAgentCommandPlan → Type 0
  HasReserve agent =
      (if is_replacing agent.abort_policy
        then any (is_other_reserve agent.agent_id) plan.agents
        else true)
      ≡ true

  check_replacements-All :
      (agents : List SwarmAgentCommandPlan)
      → check_replacements plan agents ≡ ok tt
      → All HasReserve agents
  unfolding check_replacements ensure_replacement_candidate_for_agent
  check_replacements-All [] h = tt
  check_replacements-All (agent ∷ agents) h = elim (Bool-cases (is_replacing agent.abort_policy)) [
    | inr off ↦ (rw off refl, check_replacements-All agents (rw (check_replacements, off) at h))
    | inl on ↦
        let (u, e, e') =
          bind-ok (ensure_replacement_candidate_for_agent plan agent.agent_id)
            (λ _. check_replacements plan agents) tt (rw (check_replacements, on) at h) in
        (rw on (ground arith), check_replacements-All agents e')
  ]

  check_plan-parts :
      (validate_topology : SwarmCommandPlan F → SwarmTopologyConfig F → Checked)
      → check_plan validate_topology plan ≡ ok tt
      → Distinct (map (λ a. a.agent_id) plan.agents)
        × UniqueActive plan.ownership
        × All (RefsOwned plan.ownership) plan.agents
        × All HasReserve plan.agents
  unfolding check_plan
  check_plan-parts validate_topology h =
      let none_yet : Owners = record { active = []; released = [] } in
      let topology : Checked = elim plan.topology [
        | none ↦ ok tt
        | some t ↦ validate_topology plan t
      ] in
      let f6 = λ (_ : Unit {0}). topology in
      let f5 = λ (_ : Unit {0}). check_replacements plan plan.agents >>= f6 in
      let f4 = λ (_ : Unit {0}). check_global_policy plan >>= f5 in
      let f3 = λ (o : Owners) (_ : Unit {0}). check_agent_refs o.active plan.agents >>= f4 in
      let f2 =
        λ (o : Owners). validate_handoff_evidence plan.handoffs o.active o.released >>= f3 o in
      let f1 = λ (_ : Unit {0}). collect_owners none_yet plan.ownership >>= f2 in
      let (_, e1, h1) = bind-ok (check_agents [] plan.agents) f1 tt h in
      let (owners, e2, h2) = bind-ok (collect_owners none_yet plan.ownership) f2 tt h1 in
      let (_, e3, h3) =
        bind-ok (validate_handoff_evidence plan.handoffs owners.active owners.released) (f3 owners)
          tt h2 in
      let (_, e4, h4) = bind-ok (check_agent_refs owners.active plan.agents) f4 tt h3 in
      let (_, e5, h5) = bind-ok (check_global_policy plan) f5 tt h4 in
      let (_, e6, h6) = bind-ok (check_replacements plan plan.agents) f6 tt h5 in
      let c = collect_owners-Collected none_yet owners plan.ownership e2 in
      (
        (check_agents-Distinct [] plan.agents e1).0,
        c.unique,
        check_agent_refs-All owners.active plan.ownership plan.agents
            (λ key a e.
              ⊎_elim (λ old. absurd (lookup-none key a old)) (λ new. new) (c.origin key a e))
            e4,
        check_replacements-All plan.agents e6,
      )

  -- In a plan that is accepted no agent has two plans, no resource has two active records, each
  -- resource that an agent refers to has an active record of the agent, and each agent that is to
  -- be replaced has another agent in reserve.
  pub validate_swarm_command_plan_accepts :
      (validate_topology : SwarmCommandPlan F → SwarmTopologyConfig F → Checked)
      → validate_swarm_command_plan validate_topology plan ≡ ok tt
      → Distinct (map (λ a. a.agent_id) plan.agents)
        × UniqueActive plan.ownership
        × All (RefsOwned plan.ownership) plan.agents
        × All HasReserve plan.agents
  unfolding validate_swarm_command_plan
  validate_swarm_command_plan_accepts validate_topology h =
      elim (Bool-cases (plan.schema_version == swarm_command_plane_schema_version)) [
        | inr other ↦ absurd (cc (rw (validate_swarm_command_plan, other) at h))
        | inl same ↦
            check_plan-parts validate_topology (rw (validate_swarm_command_plan, same) at h)
      ]
