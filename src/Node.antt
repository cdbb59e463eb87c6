-- ===== src/Node.antt =====
-- crates/swarm-runtime/src/node/runtime.rs: the coordination in the tick of a node, from the
-- messages that its transport gives to the gossip that it sends. Autonomy has the rest of the tick
-- but the movement. The inbox is what the transport gives until it has no more or fails. JSON and
-- the sending are arguments.
pub mod Tick
pub mod Detection
pub mod Sends
use drone_swarm_lab.Base.{
  ℕ, suc, ◌+◌, String, Bool, true, false, not, ◌&&◌, ◌||◌, ◌==◌, leb, if◌then◌else◌, option_eq,
  is_empty, is_some, Option, none, some, List, [], ◌∷◌, ◌++◌, map, filter, any, contains, length,
  after,
}
use drone_swarm_lab.HashMap.{HashMap, get, values}
use drone_swarm_lab.Types.{Task}
use drone_swarm_lab.Registry
use drone_swarm_lab.Registry.{TaskRegistry}
use drone_swarm_lab.Membership
use drone_swarm_lab.Coordinator.{Coordinator, CoordinatorOutput, process_tick}
use drone_swarm_lab.Protocol.{RawMessage}
use drone_swarm_lab.Gossip.{
  RuntimeMessage, CbbaBid, heartbeat, gossip, cbba, apply_gossip_messages, sort_by_id,
}
use drone_swarm_lab.Reallocation.{
  Allocator, AllocationOutcome, AssignmentChange, allocation_agent, allocate_unassigned,
}
use drone_swarm_lab.Cbba.{
  BidFloats, CbbaAllocator, WinningBids, apply_remote_bids, check_convergence, build_bundles,
  current_assignments,
}

-- The fields of a node that its coordination uses; `Tr` stands for its transport.
pub record AgentNode (F Tr : Type 0) : Type 0 where
  pub coordinator : Coordinator F
  pub transport : Tr
  pub own_id : String
  pub peer_ids : List String
  pub gossip_interval_ticks : ℕ
  pub generation : ℕ
  pub ticks_since_last_gossip : ℕ
  pub discarded_this_tick : ℕ
  pub cbba_allocator : Option (CbbaAllocator F)

-- JSON by serde, and `Transport::send`, with whether it succeeded.
pub record World (F Tr : Type 0) : Type 0 where
  pub from_payload : List ℕ → Option (RuntimeMessage F)
  pub to_payload : RuntimeMessage F → List ℕ
  pub send : RawMessage → Tr → Tr × Bool

pub record Inbox (F : Type 0) : Type 0 where
  pub heartbeats : List (String × ℕ × ℕ)
  pub gossip_buffer : List (RuntimeMessage F)

-- The part of NodeTickOutput that the coordination fills.
pub record CoordinationOutput : Type 0 where
  pub coordinator_output : CoordinatorOutput
  pub reassigned_tasks : List AssignmentChange
  pub tasks_recovered : List String
  pub reassignment_count : ℕ
  pub reallocation_latency_ticks : Option ℕ
  pub conflicting_assignments : ℕ
  pub discarded_messages : ℕ

module _ {F : Type 0} where
  unfoldable pub winning_bids_of : HashMap (CbbaBid F) → WinningBids F
  winning_bids_of [] = []
  winning_bids_of ((id, bid) ∷ bids) = (id, (bid.agent_id, bid.value)) ∷ winning_bids_of bids

  unfoldable pub assign_bids : HashMap (CbbaBid F) → TaskRegistry F → TaskRegistry F
  unfolding any values
  assign_bids [] r = r
  assign_bids ((task_id, bid) ∷ bids) r = assign_bids bids (
      if any (λ t. t.id == task_id) (values r.tasks)
      then after r (Registry.assign task_id bid.agent_id r)
      else r)

  -- `for (task_id, agent_id) in cbba.current_assignments()`
  unfoldable pub assign_own : String → List (String × String) → TaskRegistry F → TaskRegistry F
  assign_own own_id [] r = r
  assign_own own_id ((task_id, agent_id) ∷ assignments) r =
      assign_own own_id assignments
        (if agent_id == own_id then after r (Registry.assign task_id agent_id r) else r)

  unfoldable pub record_all :
      List (String × ℕ × ℕ) → Membership.MembershipView F → Membership.MembershipView F
  record_all [] view = view
  record_all ((from, sender_tick, generation) ∷ heartbeats) view =
      record_all heartbeats (Membership.record_heartbeat from sender_tick generation view)

  -- Some live agent has no task.
  unfoldable pub has_idle_agents : Coordinator F → Bool
  unfolding any values
  has_idle_agents c =
      any (λ e. not (any (λ t. option_eq t.assigned_to (some e.0)) (values c.registry.tasks)))
        (Membership.alive_agents c.membership)

  unfoldable pub needs_allocation : CoordinatorOutput → Coordinator F → Bool
  unfolding has_idle_agents
  needs_allocation out c =
      not (is_empty out.released_tasks)
      || not (is_empty out.expired_task_ids)
      || not (is_empty (Registry.unassigned_tasks c.registry))
      || has_idle_agents c

  unfoldable pub with_registry : TaskRegistry F → Coordinator F → Coordinator F
  with_registry r c = record c { registry = r }

  unfoldable pub assignments_of : List (Task F) → HashMap String
  assignments_of [] = []
  assignments_of (t ∷ ts) = elim t.assigned_to [
    | none ↦ assignments_of ts
    | some agent ↦ (t.id, agent) ∷ assignments_of ts
  ]

  unfoldable pub cbba_bids_of : WinningBids F → HashMap (CbbaBid F)
  cbba_bids_of [] = []
  cbba_bids_of ((id, (agent_id, value)) ∷ bids) =
      (id, record { agent_id = agent_id; value = value }) ∷ cbba_bids_of bids

  unfoldable pub merge_gossip : List (RuntimeMessage F) → Coordinator F → Coordinator F × ℕ
  merge_gossip buffer c =
      let (c', merged, stale) = apply_gossip_messages buffer c in
      if is_empty buffer then (c, 0) else (c', merged)

module _ {F Tr : Type 0} where
  unfoldable pub hear_all : ℕ → List (String × ℕ × ℕ) → AgentNode F Tr → AgentNode F Tr
  unfolding record_all
  hear_all now heartbeats n =
      let c = n.coordinator in
      record n {
        coordinator = record c {
          membership =
              record_all heartbeats
                (Membership.record_heartbeat n.own_id now n.generation c.membership);
        };
      }

  -- `allocate_unassigned`, if something is to allocate and CBBA is not active.
  unfoldable pub allocate_if :
      {S : Type 0}
      → F
      → Allocator F S
      → CoordinatorOutput
      → AgentNode F Tr × S
      → (AgentNode F Tr × S) × AllocationOutcome
  unfolding needs_allocation
  allocate_if zero_float allocate out (n, s) =
      let nothing : AllocationOutcome = record { assignments = []; conflicting_assignments = 0 } in
      let ((c, s'), outcome) = allocate_unassigned zero_float allocate (n.coordinator, s) in
      if needs_allocation out n.coordinator && not (is_some n.cbba_allocator)
      then ((record n { coordinator = c }, s'), outcome)
      else ((n, s), nothing)

-- The ids of the reassigned tasks that had been released, sorted.
unfoldable pub recovered : List String → List AssignmentChange → List String
unfolding filter contains
recovered released changes =
    map (λ e. e.0)
      (sort_by_id (
        map (λ (a : AssignmentChange). (a.task_id, a.task_id))
          (filter (λ a. contains released a.task_id) changes)))

module _ {F Tr : Type 0} (fl : BidFloats F) (world : World F Tr) where
  -- `for peer_id in &self.peer_ids { self.transport.send(m)?; }`
  unfoldable pub send_all : List String → String → List ℕ → Tr → Tr × Bool
  send_all [] own_id payload tr = (tr, true)
  send_all (peer ∷ peers) own_id payload tr =
      let (tr', sent) = world.send (record { from = own_id; to = peer; payload = payload }) tr in
      elim sent [ true ↦ send_all peers own_id payload tr' | false ↦ (tr', false) ]

  unfoldable pub send_heartbeats : ℕ → AgentNode F Tr → AgentNode F Tr × Bool
  unfolding send_all
  send_heartbeats now n =
      let (tr, sent) =
        send_all n.peer_ids n.own_id (world.to_payload (heartbeat now n.generation)) n.transport in
      (record n { transport = tr }, sent)

  unfoldable pub send_gossip : AgentNode F Tr → AgentNode F Tr × Bool
  unfolding send_all assignments_of values
  send_gossip n =
      let message =
        gossip (assignments_of (values n.coordinator.registry.tasks))
          (Membership.all_generations n.coordinator.membership) in
      let (tr, sent) = send_all n.peer_ids n.own_id (world.to_payload message) n.transport in
      (record n { transport = tr }, sent)

  unfoldable pub send_cbba_bids : AgentNode F Tr → AgentNode F Tr
  unfolding send_all cbba_bids_of get
  send_cbba_bids n = elim n.cbba_allocator [
    | none ↦ n
    | some c ↦
        let bundle : List String = elim (get n.own_id c.bundles) [ none ↦ [] | some b ↦ b ] in
        let message = cbba c.current_round (cbba_bids_of c.winning_bids) bundle in
        record n {
          transport = (send_all n.peer_ids n.own_id (world.to_payload message) n.transport).0;
        }
  ]

  unfoldable pub maybe_send_gossip : AgentNode F Tr → AgentNode F Tr
  unfolding send_gossip send_cbba_bids
  maybe_send_gossip n =
      let counted : AgentNode F Tr = record n {
        ticks_since_last_gossip = suc n.ticks_since_last_gossip;
      } in
      let (gossiped, sent) = send_gossip counted in
      if leb n.gossip_interval_ticks counted.ticks_since_last_gossip
      then (if sent
          then send_cbba_bids (record gossiped { ticks_since_last_gossip = 0 })
          else gossiped)
      else counted

  -- The body of the loop over the messages.
  unfoldable pub sort_message : RawMessage → Inbox F × AgentNode F Tr → Inbox F × AgentNode F Tr
  unfolding winning_bids_of assign_bids with_registry
  sort_message msg (box, n) = elim (world.from_payload msg.payload) [
    | none ↦ (box, record n { discarded_this_tick = suc n.discarded_this_tick })
    | some (heartbeat sender_tick generation) ↦
        (record box { heartbeats = box.heartbeats ++ (msg.from, sender_tick, generation) ∷ [] }, n)
    | some (gossip assignments generations) ↦
        (record box { gossip_buffer = box.gossip_buffer ++ gossip assignments generations ∷ [] }, n)
    | some (cbba round bids bundle) ↦ elim n.cbba_allocator [
      | none ↦ (box, n)
      | some c ↦ (
        box,
        record n {
          cbba_allocator = some (apply_remote_bids fl ((msg.from, winning_bids_of bids) ∷ []) c);
          coordinator = with_registry (assign_bids bids n.coordinator.registry) n.coordinator;
        },
      )
    ]
  ]

  unfoldable pub sort_inbox : List RawMessage → Inbox F × AgentNode F Tr → Inbox F × AgentNode F Tr
  unfolding sort_message
  sort_inbox [] s = s
  sort_inbox (msg ∷ msgs) s = sort_inbox msgs (sort_message msg s)

  -- Phase 1 of CBBA, in a node that has it: the round, and what the node then assigns to itself.
  unfoldable pub next_round : F → CbbaAllocator F → Coordinator F → CbbaAllocator F
  unfolding values
  next_round zero_float c coordinator =
      let agents =
        map (allocation_agent zero_float) (Membership.alive_agents coordinator.membership) in
      let round : CbbaAllocator F = record c { current_round = suc c.current_round } in
      build_bundles fl agents (values coordinator.registry.tasks) (check_convergence fl round).0

  unfoldable pub build_phase : F → CbbaAllocator F → AgentNode F Tr → AgentNode F Tr
  unfolding assign_own with_registry
  build_phase zero_float c n =
      let built : CbbaAllocator F = next_round zero_float c n.coordinator in
      record n {
        cbba_allocator = some built;
        coordinator =
            with_registry
              (assign_own n.own_id (current_assignments built.bundles) n.coordinator.registry)
              n.coordinator;
      }

  unfoldable pub run_cbba : F → AgentNode F Tr → AgentNode F Tr
  unfolding build_phase
  run_cbba zero_float n = elim n.cbba_allocator [ none ↦ n | some c ↦ build_phase zero_float c n ]

  -- process_inbox_and_allocate, up to the gossip.
  unfoldable pub coordinate :
      {S : Type 0}
      → F
      → Allocator F S
      → ℕ
      → List (Task F)
      → List RawMessage
      → AgentNode F Tr × S
      → (AgentNode F Tr × S) × CoordinationOutput
  unfolding sort_inbox hear_all merge_gossip allocate_if run_cbba maybe_send_gossip recovered
  coordinate zero_float allocate now injected inbox (n0, s0) =
      let (box, n1) =
        sort_inbox inbox
          (record { heartbeats = []; gossip_buffer = [] }, record n0 { discarded_this_tick = 0 }) in
      let n2 = hear_all now box.heartbeats n1 in
      let (c3, out) = process_tick now injected n2.coordinator in
      let (c4, merged) = merge_gossip box.gossip_buffer c3 in
      let ((n5, s5), allocation) =
        allocate_if zero_float allocate out (record n2 { coordinator = c4 }, s0) in
      let tasks_recovered = recovered out.released_tasks allocation.assignments in
      let n6 = maybe_send_gossip (run_cbba zero_float n5) in
      (
        (n6, s5),
        record {
          coordinator_output = out;
          reassigned_tasks = allocation.assignments;
          tasks_recovered = tasks_recovered;
          reassignment_count = length tasks_recovered;
          reallocation_latency_ticks = if is_empty tasks_recovered then none else some 0;
          conflicting_assignments = merged + allocation.conflicting_assignments;
          discarded_messages = n1.discarded_this_tick;
        },
      )
