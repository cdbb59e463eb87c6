-- ===== src/Node/Tick.antt =====
-- The whole coordination of a tick.
use drone_swarm_lab.Base.{
  ℕ, suc, String, ◌≡◌, refl, Bool, not, ◌&&◌, ◌==◌, leb, if◌then◌else◌, if_both, is_empty, is_some,
  Option, none, some, List, [], ◌∷◌, any, Option-cases, inl, inr,
}
use drone_swarm_lab.HashMap.{HashMap, values}
use drone_swarm_lab.HashMap.Laws.{UniqueKeys}
use drone_swarm_lab.Types.{Task}
use drone_swarm_lab.Registry.{TaskRegistry}
use drone_swarm_lab.Registry.Keys.{IsKeyed}
use drone_swarm_lab.Membership.{MembershipView}
use drone_swarm_lab.Coordinator.{Coordinator, CoordinatorOutput, process_tick}
use drone_swarm_lab.Coordinator.Failures.{IsWellFormed}
use drone_swarm_lab.Coordinator.Tick.{process_tick-IsWellFormed}
use drone_swarm_lab.Protocol.{RawMessage}
use drone_swarm_lab.Gossip.{RuntimeMessage, CbbaBid, heartbeat, gossip, cbba}
use drone_swarm_lab.Gossip.Keyed.{apply_gossip_messages-IsWellFormed, record_heartbeat-UniqueKeys}
use drone_swarm_lab.Reallocation.{Allocator}
use drone_swarm_lab.Reallocation.Keyed.{assign-after-IsKeyed, allocate_unassigned-IsWellFormed}
use drone_swarm_lab.Cbba.{BidFloats, CbbaAllocator, current_assignments}
use drone_swarm_lab.Node.{
  AgentNode, World, Inbox, assign_bids, assign_own, record_all, with_registry, needs_allocation,
  send_gossip, send_cbba_bids, maybe_send_gossip, sort_message, sort_inbox, next_round, build_phase,
  run_cbba, allocate_if, hear_all, merge_gossip, coordinate,
}

module _ {F : Type 0} where
  assign_bids-IsKeyed :
      (bids : HashMap (CbbaBid F)) (r : TaskRegistry F) → IsKeyed r → IsKeyed (assign_bids bids r)
  unfolding assign_bids
  assign_bids-IsKeyed [] r h = h
  assign_bids-IsKeyed ((task_id, bid) ∷ bids) r h = assign_bids-IsKeyed bids _ (
      if_both IsKeyed (any (λ t. t.id == task_id) (values r.tasks))
        (assign-after-IsKeyed task_id bid.agent_id r h) h)

  assign_own-IsKeyed :
      (own_id : String) (l : List (String × String)) (r : TaskRegistry F)
      → IsKeyed r
      → IsKeyed (assign_own own_id l r)
  unfolding assign_own
  assign_own-IsKeyed own_id [] r h = h
  assign_own-IsKeyed own_id ((task_id, agent_id) ∷ l) r h =
      assign_own-IsKeyed own_id l _
        (if_both IsKeyed (agent_id == own_id) (assign-after-IsKeyed task_id agent_id r h) h)

  record_all-UniqueKeys :
      (l : List (String × ℕ × ℕ)) (view : MembershipView F)
      → UniqueKeys view.agents
      → UniqueKeys (record_all l view).agents
  unfolding record_all
  record_all-UniqueKeys [] view u = u
  record_all-UniqueKeys ((from, tick, generation) ∷ l) view u =
      record_all-UniqueKeys l _ (record_heartbeat-UniqueKeys from tick generation view u)

  merge_gossip-IsWellFormed :
      (buffer : List (RuntimeMessage F)) (c : Coordinator F)
      → IsWellFormed c
      → IsWellFormed (merge_gossip buffer c).0
  unfolding merge_gossip
  merge_gossip-IsWellFormed buffer c w =
      if_both (λ (s : Coordinator F × ℕ). IsWellFormed s.0) (is_empty buffer) w
        (apply_gossip_messages-IsWellFormed buffer c w)

module _ {F Tr : Type 0} (fl : BidFloats F) (world : World F Tr) where
  -- The coordinator of the node is well formed.
  abbrev Fine : AgentNode F Tr → Type 0
  Fine n = IsWellFormed n.coordinator

  sort_message-Fine :
      (msg : RawMessage) (box : Inbox F) (n : AgentNode F Tr)
      → Fine n
      → Fine (sort_message fl world msg (box, n)).1
  unfolding sort_message with_registry
  sort_message-Fine msg box n w = of_payload (world.from_payload msg.payload) refl
    where
      of_cbba :
          (round : ℕ) (bids : HashMap (CbbaBid F)) (bundle : List String)
          (o : Option (CbbaAllocator F))
          → world.from_payload msg.payload ≡ some (cbba round bids bundle)
          → n.cbba_allocator ≡ o
          → Fine (sort_message fl world msg (box, n)).1
      of_cbba round bids bundle none e f = rw (sort_message, e, f) w
      of_cbba round bids bundle (some c) e f =
          rw (sort_message, e, f)
            (record {
              agents = w.agents;
              tasks = assign_bids-IsKeyed bids n.coordinator.registry w.tasks;
            })

      of_payload :
          (o : Option (RuntimeMessage F))
          → world.from_payload msg.payload ≡ o
          → Fine (sort_message fl world msg (box, n)).1
      of_payload none e = rw (sort_message, e) w
      of_payload (some (heartbeat t g)) e = rw (sort_message, e) w
      of_payload (some (gossip l g)) e = rw (sort_message, e) w
      of_payload (some (cbba round bids bundle)) e =
          of_cbba round bids bundle n.cbba_allocator e refl

  pub sort_inbox-IsWellFormed :
      (inbox : List RawMessage) (box : Inbox F) (n : AgentNode F Tr)
      → Fine n
      → Fine (sort_inbox fl world inbox (box, n)).1
  unfolding sort_inbox
  sort_inbox-IsWellFormed [] box n w = w
  sort_inbox-IsWellFormed (msg ∷ inbox) box n w =
      sort_inbox-IsWellFormed inbox _ _ (sort_message-Fine msg box n w)

  allocate_if-Fine :
      {S : Type 0} (zero_float : F) (allocate : Allocator F S) (out : CoordinatorOutput)
      (n : AgentNode F Tr) (s : S)
      → Fine n
      → Fine (allocate_if zero_float allocate out (n, s)).0.0
  unfolding allocate_if
  allocate_if-Fine zero_float allocate out n s w =
      if_both (λ (r : (AgentNode F Tr × _) × _). Fine r.0.0)
        (needs_allocation out n.coordinator && not (is_some n.cbba_allocator))
        (allocate_unassigned-IsWellFormed zero_float allocate n.coordinator s w) w

  build_phase-Fine :
      (zero_float : F) (c : CbbaAllocator F) (n : AgentNode F Tr)
      → Fine n
      → Fine (build_phase fl world zero_float c n)
  unfolding build_phase with_registry
  build_phase-Fine zero_float c n w = record {
    agents = w.agents;
    tasks =
        assign_own-IsKeyed n.own_id
          (current_assignments (next_round fl world zero_float c n.coordinator).bundles)
          n.coordinator.registry w.tasks;
  }

  run_cbba-Fine :
      (zero_float : F) (n : AgentNode F Tr) → Fine n → Fine (run_cbba fl world zero_float n)
  unfolding run_cbba
  run_cbba-Fine zero_float n w = elim (Option-cases n.cbba_allocator) [
    | inl gone ↦ rw (run_cbba, gone) w
    | inr (c, active) ↦ rw (run_cbba, active) (build_phase-Fine zero_float c n w)
  ]

  send_cbba_bids-Fine : (n : AgentNode F Tr) → Fine n → Fine (send_cbba_bids fl world n)
  unfolding send_cbba_bids
  send_cbba_bids-Fine n w = elim (Option-cases n.cbba_allocator) [
    | inl gone ↦ rw (send_cbba_bids, gone) w
    | inr (c, active) ↦ rw (send_cbba_bids, active) w
  ]

  maybe_send_gossip-Fine : (n : AgentNode F Tr) → Fine n → Fine (maybe_send_gossip fl world n)
  unfolding maybe_send_gossip send_gossip
  maybe_send_gossip-Fine n w =
      let counted : AgentNode F Tr = record n {
        ticks_since_last_gossip = suc n.ticks_since_last_gossip;
      } in
      let gossiped : AgentNode F Tr = (send_gossip fl world counted).0 in
      let reset : AgentNode F Tr = record gossiped { ticks_since_last_gossip = 0 } in
      let bids : AgentNode F Tr = send_cbba_bids fl world reset in
      let sent : Bool = (send_gossip fl world counted).1 in
      if_both Fine (leb n.gossip_interval_ticks counted.ticks_since_last_gossip)
        {x = if sent then bids else gossiped} {y = counted}
        (if_both Fine sent {x = bids} {y = gossiped} (send_cbba_bids-Fine reset w) w) w

  pub hear_all-IsWellFormed :
      (now : ℕ) (l : List (String × ℕ × ℕ)) (m : AgentNode F Tr) → Fine m → Fine (hear_all now l m)
  unfolding hear_all
  hear_all-IsWellFormed now l m v = record {
    agents =
        record_all-UniqueKeys l _
          (record_heartbeat-UniqueKeys m.own_id now m.generation m.coordinator.membership v.agents);
    tasks = v.tasks;
  }

  -- If the coordinator of a node has one entry for each key in both tables, and task keys equal to
  -- task ids, then it has after the coordination of a tick: whatever the messages, the injected
  -- tasks, the decisions of the allocator and the bids, and whether or not the gossip is sent.
  pub coordinate-IsWellFormed :
      {S : Type 0} (zero_float : F) (allocate : Allocator F S) (now : ℕ) (injected : List (Task F))
      (inbox : List RawMessage) (n : AgentNode F Tr) (s : S)
      → IsWellFormed n.coordinator
      → IsWellFormed
          (coordinate fl world zero_float allocate now injected inbox (n, s)).0.0.coordinator
  unfolding coordinate hear_all
  coordinate-IsWellFormed zero_float allocate now injected inbox n s w =
      let start : AgentNode F Tr = record n { discarded_this_tick = 0 } in
      let empty_box : Inbox F = record { heartbeats = []; gossip_buffer = [] } in
      let sorted = sort_inbox fl world inbox (empty_box, start) in
      let heard : AgentNode F Tr = hear_all now sorted.0.heartbeats sorted.1 in
      let ticked = process_tick now injected heard.coordinator in
      let merged = merge_gossip sorted.0.gossip_buffer ticked.0 in
      let gossiped : AgentNode F Tr = record heard { coordinator = merged.0 } in
      let allocated = allocate_if zero_float allocate ticked.1 (gossiped, s) in
      let bundled : AgentNode F Tr = run_cbba fl world zero_float allocated.0.0 in
      maybe_send_gossip-Fine bundled (
        run_cbba-Fine zero_float allocated.0.0 (
          allocate_if-Fine zero_float allocate ticked.1 gossiped s (
            merge_gossip-IsWellFormed sorted.0.gossip_buffer ticked.0 (
              process_tick-IsWellFormed now injected heard.coordinator (
                hear_all-IsWellFormed now sorted.0.heartbeats sorted.1
                  (sort_inbox-IsWellFormed inbox empty_box start w))))))
