-- ===== src/Gossip/Keyed.antt =====
-- A merge keeps one entry for each key.
use drone_swarm_lab.Base.{ℕ, String, sym, subst, List, [], ◌∷◌, ltb, if_both}
use drone_swarm_lab.HashMap.{HashMap}
use drone_swarm_lab.HashMap.Laws.{UniqueKeys, modify-UniqueKeys}
use drone_swarm_lab.Registry.{TaskRegistry}
use drone_swarm_lab.Registry.Ops.{Op, apply, run}
use drone_swarm_lab.Registry.Keys.{IsKeyed, apply-IsKeyed}
use drone_swarm_lab.Membership.{MembershipView, generation_of, record_heartbeat, beat}
use drone_swarm_lab.Coordinator.{Coordinator}
use drone_swarm_lab.Coordinator.Failures.{IsWellFormed}
use drone_swarm_lab.Gossip.{
  RuntimeMessage, heartbeat, gossip, cbba, merge_generations, apply_message, apply_all,
  apply_gossip_messages, sort_by_id,
}
use drone_swarm_lab.Gossip.Runs.{Runs, apply_gossip_messages-Runs}

module _ {F : Type 0} where
  run-IsKeyed : (ops : List (Op F)) (r : TaskRegistry F) → IsKeyed r → IsKeyed (run ops r)
  unfolding run
  run-IsKeyed [] r h = h
  run-IsKeyed (op ∷ ops) r h = run-IsKeyed ops (apply op r) (apply-IsKeyed op r h)

  pub Runs-IsKeyed : (r s : TaskRegistry F) → Runs r s → IsKeyed r → IsKeyed s
  Runs-IsKeyed r s (ops, e) h = subst IsKeyed (sym e) (run-IsKeyed ops r h)

  pub record_heartbeat-UniqueKeys :
      (id : String) (tick generation : ℕ) (view : MembershipView F)
      → UniqueKeys view.agents
      → UniqueKeys (record_heartbeat id tick generation view).agents
  unfolding record_heartbeat
  record_heartbeat-UniqueKeys id tick generation view u =
      modify-UniqueKeys id (beat tick generation) view.agents u

  merge_generations-UniqueKeys :
      (l : HashMap ℕ) (view : MembershipView F)
      → UniqueKeys view.agents
      → UniqueKeys (merge_generations l view).agents
  unfolding merge_generations
  merge_generations-UniqueKeys [] view u = u
  merge_generations-UniqueKeys ((id, g) ∷ l) view u = merge_generations-UniqueKeys l _ (
      if_both (λ (v : MembershipView F). UniqueKeys v.agents) (ltb (generation_of id view) g)
        (record_heartbeat-UniqueKeys id 0 g view u) u)

  apply_all-UniqueKeys :
      (buffer : List (RuntimeMessage F)) (c : Coordinator F) (a b : ℕ)
      → UniqueKeys c.membership.agents
      → UniqueKeys (apply_all buffer (c, a, b)).0.membership.agents
  unfolding apply_all apply_message
  apply_all-UniqueKeys [] c a b u = u
  apply_all-UniqueKeys (heartbeat t g ∷ buffer) c a b u = apply_all-UniqueKeys buffer c a b u
  apply_all-UniqueKeys (gossip l g ∷ buffer) c a b u =
      apply_all-UniqueKeys buffer _ _ _ (merge_generations-UniqueKeys (sort_by_id g) c.membership u)
  apply_all-UniqueKeys (cbba n bids bundle ∷ buffer) c a b u = apply_all-UniqueKeys buffer c a b u

  pub apply_gossip_messages-IsWellFormed :
      (buffer : List (RuntimeMessage F)) (c : Coordinator F)
      → IsWellFormed c
      → IsWellFormed (apply_gossip_messages buffer c).0
  unfolding apply_gossip_messages
  apply_gossip_messages-IsWellFormed buffer c w = record {
    agents = apply_all-UniqueKeys buffer c 0 0 w.agents;
    tasks = Runs-IsKeyed c.registry _ (apply_gossip_messages-Runs buffer c) w.tasks;
  }
