-- ===== src/Command/Sync.antt =====
-- crates/swarm-command-plane/src/sync.rs: the outcome of a command that all agents of a window get.
pub mod Outcome
use drone_swarm_lab.Base.{
  ℕ, String, Bool, ◌&&◌, nat_eq, leb, is_empty, if◌then◌else◌, Option, none, some, List, [], ◌∷◌,
  ◌++◌, contains, length,
}
use drone_swarm_lab.HashMap.{HashMap, get}
use drone_swarm_lab.Command.{
  PartialSuccessPolicy, SynchronizedCommandWindow, SynchronizedCommandResult,
}
use drone_swarm_lab.Command.PartialSuccessPolicy.{require_all, at_least}

pub data SyncAgentOutcome : Type 0 where
  succeeded failed timed_out : SyncAgentOutcome

-- `.copied().unwrap_or(SyncAgentOutcome::Succeeded)`
unfoldable pub outcome_of : HashMap SyncAgentOutcome → String → SyncAgentOutcome
outcome_of outcomes id = elim (get id outcomes) [ none ↦ SyncAgentOutcome.succeeded | some o ↦ o ]

pub record Tally : Type 0 where
  pub succeeded : List String
  pub failed : List String
  pub timed_out : List String
  pub seen : List String

unfoldable pub tally_outcome : String → SyncAgentOutcome → Tally → Tally
tally_outcome id SyncAgentOutcome.succeeded t = record t { succeeded = t.succeeded ++ id ∷ [] }
tally_outcome id SyncAgentOutcome.failed t = record t { failed = t.failed ++ id ∷ [] }
tally_outcome id SyncAgentOutcome.timed_out t = record t { timed_out = t.timed_out ++ id ∷ [] }

unfoldable pub tally_agent : HashMap SyncAgentOutcome → String → Tally → Tally
unfolding tally_outcome outcome_of
tally_agent outcomes id t =
    if contains t.seen id
    then t
    else tally_outcome id (outcome_of outcomes id) (record t { seen = t.seen ++ id ∷ [] })

unfoldable pub tally_all : HashMap SyncAgentOutcome → List String → Tally → Tally
unfolding tally_agent
tally_all outcomes [] t = t
tally_all outcomes (id ∷ ids) t = tally_all outcomes ids (tally_agent outcomes id t)

unfoldable pub is_accepted : PartialSuccessPolicy → Tally → Bool
is_accepted require_all t =
    nat_eq (length t.succeeded) (length t.seen) && (is_empty t.failed && is_empty t.timed_out)
is_accepted (at_least agents) t = leb agents (length t.succeeded)

abbrev pub no_agents : Tally
no_agents = record { succeeded = []; failed = []; timed_out = []; seen = [] }

unfoldable pub evaluate_synchronized_command :
    SynchronizedCommandWindow → HashMap SyncAgentOutcome → SynchronizedCommandResult
unfolding tally_all is_accepted
evaluate_synchronized_command window outcomes =
    let t = tally_all outcomes window.agent_ids no_agents in
    record {
      kind = window.kind;
      succeeded = t.succeeded;
      failed = t.failed;
      timed_out = t.timed_out;
      accepted = is_accepted window.partial_success_policy t;
    }
