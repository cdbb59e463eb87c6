-- ===== src/Command/Sync/Outcome.antt =====
-- Which agents of a window the result lists where, and when the command is accepted.
use drone_swarm_lab.Base.{
  ◌+◌, String, ◌≡◌, refl, ◌∙◌, Bool, true, false, ◌&&◌, ◌||◌, nat_eq, is_empty, List, [], ◌∷◌, ◌++◌,
  contains, contains-append, length, length-append, eq_iff, nat_eq_iff, eq_refl, ◌==◌, arith,
  Bool-cases, inl, inr,
}
use drone_swarm_lab.HashMap.{HashMap}
use drone_swarm_lab.Command.{SynchronizedCommandWindow}
use drone_swarm_lab.Command.PartialSuccessPolicy.{require_all}
use drone_swarm_lab.Command.Sync.{
  SyncAgentOutcome, outcome_of, Tally, tally_outcome, tally_agent, tally_all, is_accepted,
  no_agents, evaluate_synchronized_command,
}

abbrev pub outcome_is : SyncAgentOutcome → SyncAgentOutcome → Bool
outcome_is SyncAgentOutcome.succeeded SyncAgentOutcome.succeeded = true
outcome_is SyncAgentOutcome.failed SyncAgentOutcome.failed = true
outcome_is SyncAgentOutcome.timed_out SyncAgentOutcome.timed_out = true
outcome_is _ _ = false

module _ (outcomes : HashMap SyncAgentOutcome) where
  -- The lists of a tally hold the seen agents, each by its outcome.
  record IsSorted (t : Tally) : Type 0 where
    in_succeeded :
        (k : String)
        → contains t.succeeded k
          ≡ (contains t.seen k && outcome_is SyncAgentOutcome.succeeded (outcome_of outcomes k))
    in_failed :
        (k : String)
        → contains t.failed k
          ≡ (contains t.seen k && outcome_is SyncAgentOutcome.failed (outcome_of outcomes k))
    in_timed_out :
        (k : String)
        → contains t.timed_out k
          ≡ (contains t.seen k && outcome_is SyncAgentOutcome.timed_out (outcome_of outcomes k))
    counted : length t.succeeded + length t.failed + length t.timed_out ≡ length t.seen

  tally_outcome-IsSorted :
      (id : String) (o : SyncAgentOutcome) (t : Tally)
      → outcome_of outcomes id ≡ o
      → IsSorted t
      → IsSorted (tally_outcome id o (record t { seen = t.seen ++ id ∷ [] }))
  unfolding tally_outcome contains
  tally_outcome-IsSorted id _ t e h = record {
    in_succeeded = λ k. ground (
      arith,
      eq_iff id k,
      h.in_succeeded k,
      contains-append t.seen (id ∷ []) k,
      contains-append t.succeeded (id ∷ []) k,
    );
    in_failed = λ k. ground (
      arith,
      eq_iff id k,
      h.in_failed k,
      contains-append t.seen (id ∷ []) k,
      contains-append t.failed (id ∷ []) k,
    );
    in_timed_out = λ k. ground (
      arith,
      eq_iff id k,
      h.in_timed_out k,
      contains-append t.seen (id ∷ []) k,
      contains-append t.timed_out (id ∷ []) k,
    );
    counted = ground (
      arith,
      h.counted,
      length-append t.seen (id ∷ []),
      length-append t.succeeded (id ∷ []),
      length-append t.failed (id ∷ []),
      length-append t.timed_out (id ∷ []),
    );
  }

  tally_agent-IsSorted :
      (id : String) (t : Tally) → IsSorted t → IsSorted (tally_agent outcomes id t)
  unfolding tally_agent
  tally_agent-IsSorted id t h = elim (Bool-cases (contains t.seen id)) [
    | inl old ↦ rw old h
    | inr new ↦ rw new (tally_outcome-IsSorted id (outcome_of outcomes id) t refl h)
  ]

  tally_all-IsSorted :
      (ids : List String) (t : Tally) → IsSorted t → IsSorted (tally_all outcomes ids t)
  unfolding tally_all
  tally_all-IsSorted [] t h = h
  tally_all-IsSorted (id ∷ ids) t h =
      tally_all-IsSorted ids (tally_agent outcomes id t) (tally_agent-IsSorted id t h)

  tally_agent-seen :
      (id k : String) (t : Tally)
      → contains (tally_agent outcomes id t).seen k ≡ (contains t.seen k || id == k)
  unfolding tally_agent tally_outcome contains
  tally_agent-seen id k t = ground (arith, eq_iff id k, contains-append t.seen (id ∷ []) k)

  tally_all-seen :
      (ids : List String) (k : String) (t : Tally)
      → contains (tally_all outcomes ids t).seen k ≡ (contains t.seen k || contains ids k)
  unfolding tally_all contains
  tally_all-seen [] k t = ground arith
  tally_all-seen (id ∷ ids) k t =
      ground (arith, tally_all-seen ids k (tally_agent outcomes id t), tally_agent-seen id k t)

-- `p` holds for each of the ids.
abbrev pub every : (String → Bool) → List String → Bool
every p [] = true
every p (x ∷ xs) = p x && every p xs

every-at :
    (p : String → Bool) (xs : List String) (k : String)
    → every p xs ≡ true
    → contains xs k ≡ true
    → p k ≡ true
unfolding contains
every-at p [] k h c = absurd (ground arith)
every-at p (x ∷ xs) k h c = ground (arith, eq_iff x k, every-at p xs k)

every-intro :
    (p : String → Bool) (xs : List String)
    → ((k : String) → contains xs k ≡ true → p k ≡ true)
    → every p xs ≡ true
unfolding contains
every-intro p [] h = refl
every-intro p (x ∷ xs) h =
    let first : p x ≡ true = h x (ground (arith, eq_refl x)) in
    let rest = every-intro p xs (λ k c. h k (ground arith)) in ground arith

is_empty-contains : (xs : List String) → ((k : String) → contains xs k ≡ false) → is_empty xs ≡ true
unfolding contains
is_empty-contains [] h = refl
is_empty-contains (x ∷ xs) h = ground (arith, eq_refl x, h x)

length-empty : (xs : List String) → is_empty xs ≡ true → length xs ≡ 0
length-empty [] h = refl
length-empty (x ∷ xs) h = absurd (ground arith)

Bool-ext : (a b : Bool) → (a ≡ true → b ≡ true) → (b ≡ true → a ≡ true) → a ≡ b
Bool-ext a b f g = ground arith

contains-is_empty : (xs : List String) (k : String) → is_empty xs ≡ true → contains xs k ≡ false
unfolding contains
contains-is_empty [] k h = refl
contains-is_empty (x ∷ xs) k h = absurd (ground arith)

no_agents-IsSorted : (outcomes : HashMap SyncAgentOutcome) → IsSorted outcomes no_agents
unfolding contains
no_agents-IsSorted outcomes = record {
  in_succeeded = λ k. refl;
  in_failed = λ k. refl;
  in_timed_out = λ k. refl;
  counted = omega arith;
}

some_outcome :
    (o : SyncAgentOutcome)
    → (outcome_is SyncAgentOutcome.succeeded o
        || (outcome_is SyncAgentOutcome.failed o || outcome_is SyncAgentOutcome.timed_out o))
      ≡ true
some_outcome SyncAgentOutcome.succeeded = refl
some_outcome SyncAgentOutcome.failed = refl
some_outcome SyncAgentOutcome.timed_out = refl

one_outcome :
    (o : SyncAgentOutcome)
    → outcome_is SyncAgentOutcome.succeeded o ≡ true
    → (outcome_is SyncAgentOutcome.failed o ≡ false)
      × (outcome_is SyncAgentOutcome.timed_out o ≡ false)
one_outcome SyncAgentOutcome.succeeded e = (refl, refl)
one_outcome _ e = absurd (ground arith)

empty_lists :
    (t : Tally)
    → length t.succeeded + length t.failed + length t.timed_out ≡ length t.seen
    → (nat_eq (length t.succeeded) (length t.seen) && (is_empty t.failed && is_empty t.timed_out))
      ≡ (is_empty t.failed && is_empty t.timed_out)
empty_lists t e = ground (
  arith,
  nat_eq_iff (length t.succeeded) (length t.seen),
  length-empty t.failed,
  length-empty t.timed_out,
)

module _ (window : SynchronizedCommandWindow) (outcomes : HashMap SyncAgentOutcome) where
  abbrev final : Tally
  final = tally_all outcomes window.agent_ids no_agents

  sorted : IsSorted outcomes final
  sorted = tally_all-IsSorted outcomes window.agent_ids no_agents (no_agents-IsSorted outcomes)

  final-seen : (k : String) → contains final.seen k ≡ contains window.agent_ids k
  unfolding contains
  final-seen k = tally_all-seen outcomes window.agent_ids k no_agents

  -- Each list of the result holds exactly the agents of the window with that outcome, where an
  -- agent without an outcome succeeds.
  pub evaluate_synchronized_command_lists :
      (k : String)
      → (contains (evaluate_synchronized_command window outcomes).succeeded k ≡ (
          contains window.agent_ids k
          && outcome_is SyncAgentOutcome.succeeded (outcome_of outcomes k)))
        × (contains (evaluate_synchronized_command window outcomes).failed k ≡ (
            contains window.agent_ids k
            && outcome_is SyncAgentOutcome.failed (outcome_of outcomes k)))
        × (contains (evaluate_synchronized_command window outcomes).timed_out k ≡ (
            contains window.agent_ids k
            && outcome_is SyncAgentOutcome.timed_out (outcome_of outcomes k)))
  unfolding evaluate_synchronized_command
  evaluate_synchronized_command_lists k =
      let h = sorted in
      (
        ground (arith, final-seen k, h.in_succeeded k),
        ground (arith, final-seen k, h.in_failed k),
        ground (arith, final-seen k, h.in_timed_out k),
      )

  accepted_of_lists :
      window.partial_success_policy ≡ require_all
      → (evaluate_synchronized_command window outcomes).accepted
        ≡ (is_empty final.failed && is_empty final.timed_out)
  unfolding evaluate_synchronized_command is_accepted
  accepted_of_lists policy = rw policy (empty_lists final sorted.counted)

  -- Under the policy that requires all, the command is accepted exactly if each agent of the window
  -- succeeds.
  pub accepts_all :
      window.partial_success_policy ≡ require_all
      → (evaluate_synchronized_command window outcomes).accepted
        ≡ every
            (λ id. outcome_is SyncAgentOutcome.succeeded (outcome_of outcomes id))
            window.agent_ids
  accepts_all policy =
      let succeeds =
        λ (id : String). outcome_is SyncAgentOutcome.succeeded (outcome_of outcomes id) in
      let lists = λ (k : String). evaluate_synchronized_command_lists k in
      accepted_of_lists policy
      ∙ Bool-ext (is_empty final.failed && is_empty final.timed_out)
          (every succeeds window.agent_ids)
          (λ e. every-intro succeeds window.agent_ids λ k c. ground (
            arith,
            final-seen k,
            sorted.in_failed k,
            sorted.in_timed_out k,
            contains-is_empty final.failed k,
            contains-is_empty final.timed_out k,
            some_outcome (outcome_of outcomes k),
          ))
          (λ e.
            let none_failed : is_empty final.failed ≡ true = is_empty-contains final.failed (λ k.
              ground (
                arith,
                final-seen k,
                sorted.in_failed k,
                every-at succeeds window.agent_ids k,
                one_outcome (outcome_of outcomes k),
              )) in
            let none_late : is_empty final.timed_out ≡ true =
              is_empty-contains final.timed_out (λ k. ground (
                arith,
                final-seen k,
                sorted.in_timed_out k,
                every-at succeeds window.agent_ids k,
                one_outcome (outcome_of outcomes k),
              )) in
            ground arith)
