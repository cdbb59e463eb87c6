-- ===== src/Deconfliction/Batches.antt =====
-- deconfliction.rs: the decisions on a batch of requests, and the release of a lock. What the code
-- indexes or expects out of range or empty is `none` here, which stands for a panic.
pub mod Totality
pub mod Truth
use drone_swarm_lab.Base.{
  ℕ, ◌+◌, ◌%◌, String, Bool, true, false, not, Option, none, some, List, [], ◌∷◌, ◌++◌, map, filter,
  length, max, nat_eq, ◌==◌, if◌then◌else◌,
}
use drone_swarm_lab.HashMap
use drone_swarm_lab.HashMap.{HashMap}
use drone_swarm_lab.Gossip.{sort_by_id}
use drone_swarm_lab.Segments.{UrbanSegmentLock, UrbanRightOfWayPolicy, round_robin}
use drone_swarm_lab.Deconfliction.{
  SegmentLockRequest, SegmentLockDecision, acquired, already_held, conflict,
  UrbanSegmentLockRegistry, Decisions, Groups, sort_requests, group_requests, record_conflict,
  get_elem?, winner_index,
}

-- The loop over the requests for a segment that is locked.
unfoldable pub decide_held :
    ℕ
    → String
    → UrbanSegmentLock
    → UrbanRightOfWayPolicy
    → List SegmentLockRequest
    → UrbanSegmentLockRegistry
    → UrbanSegmentLockRegistry × Decisions
unfolding record_conflict
decide_held tick edge lock policy [] reg = (reg, [])
decide_held tick edge lock policy (r ∷ rs) reg =
    let (reg', c) =
      record_conflict tick edge lock.holder_agent_id r.agent_id policy "segment already locked"
        reg in
    let is_holder = r.agent_id == lock.holder_agent_id in
    let (reg'', rest) = decide_held tick edge lock policy rs (if is_holder then reg else reg') in
    (reg'', (r.agent_id, if is_holder then already_held lock else conflict c) ∷ rest)

-- The loop over the requests for a free segment, which the request at `winner` has won.
unfoldable pub decide_free :
    ℕ
    → String
    → UrbanSegmentLock
    → UrbanRightOfWayPolicy
    → ℕ
    → ℕ
    → List SegmentLockRequest
    → UrbanSegmentLockRegistry
    → UrbanSegmentLockRegistry × Decisions
unfolding record_conflict
decide_free tick edge lock policy winner i [] reg = (reg, [])
decide_free tick edge lock policy winner i (r ∷ rs) reg =
    let (reg', c) =
      record_conflict tick edge lock.holder_agent_id r.agent_id policy "right-of-way loser" reg in
    let wins = nat_eq i winner in
    let (reg'', rest) =
      decide_free tick edge lock policy winner (i + 1) rs (if wins then reg else reg') in
    (reg'', (r.agent_id, if wins then acquired lock else conflict c) ∷ rest)

abbrev pub lock_of : ℕ → String → SegmentLockRequest → UrbanSegmentLock
lock_of tick edge winner = record {
  edge_id = edge;
  holder_agent_id = winner.agent_id;
  acquired_at_tick = tick;
  segment_index = winner.segment_index;
}

-- The write of the cursor under the policy RoundRobin.
abbrev pub next_cursor : UrbanRightOfWayPolicy → String → ℕ → ℕ → HashMap ℕ → HashMap ℕ
next_cursor round_robin edge winner size m = HashMap.insert edge ((winner + 1) % max size 1) m
next_cursor _ edge winner size m = m

-- The lock that the winner gets, and the cursor after it.
unfoldable pub take_lock :
    ℕ
    → UrbanRightOfWayPolicy
    → String
    → List SegmentLockRequest
    → ℕ
    → SegmentLockRequest
    → UrbanSegmentLockRegistry
    → UrbanSegmentLockRegistry × Decisions
unfolding decide_free
take_lock tick policy edge group index winner reg =
    decide_free tick edge (lock_of tick edge winner) policy index 0 group (record reg {
      active_locks = HashMap.insert edge (lock_of tick edge winner) reg.active_locks;
      round_robin_next = next_cursor policy edge index (length group) reg.round_robin_next;
    })

unfoldable pub handle_group :
    ℕ
    → UrbanRightOfWayPolicy
    → HashMap ℕ
    → String
    → List SegmentLockRequest
    → UrbanSegmentLockRegistry
    → Option (UrbanSegmentLockRegistry × Decisions)
unfolding decide_held take_lock winner_index get_elem?
handle_group tick policy priorities edge group reg = elim (HashMap.get edge reg.active_locks) [
  | some lock ↦ some (decide_held tick edge lock policy group reg)
  | none ↦
      let index = winner_index edge group policy priorities reg in
      elim (get_elem? group index) [
        | none ↦ none
        | some winner ↦ some (take_lock tick policy edge group index winner reg)
      ]
]

unfoldable pub handle_groups :
    ℕ
    → UrbanRightOfWayPolicy
    → HashMap ℕ
    → Groups
    → UrbanSegmentLockRegistry
    → Option (UrbanSegmentLockRegistry × Decisions)
unfolding handle_group
handle_groups tick policy priorities [] reg = some (reg, [])
handle_groups tick policy priorities ((edge, group) ∷ groups) reg =
    elim (handle_group tick policy priorities edge group reg) [
      | none ↦ none
      | some (reg', decisions) ↦ elim (handle_groups tick policy priorities groups reg') [
        | none ↦ none
        | some (reg'', more) ↦ some (reg'', decisions ++ more)
      ]
    ]

unfoldable pub request_batch :
    List SegmentLockRequest
    → ℕ
    → UrbanRightOfWayPolicy
    → HashMap ℕ
    → UrbanSegmentLockRegistry
    → Option (UrbanSegmentLockRegistry × Decisions)
unfolding handle_groups group_requests sort_requests
request_batch requests tick policy priorities reg =
    elim (handle_groups tick policy priorities (group_requests [] (sort_requests requests)) reg) [
      | none ↦ none
      | some (reg', decisions) ↦ some (reg', sort_by_id decisions)
    ]

-- `decisions.into_iter().next().map(|(_, decision)| decision).expect(..)`
first_decision :
    UrbanSegmentLockRegistry × Decisions → Option (UrbanSegmentLockRegistry × SegmentLockDecision)
first_decision (reg, []) = none
first_decision (reg, (agent, decision) ∷ more) = some (reg, decision)

unfoldable pub request_lock :
    SegmentLockRequest
    → ℕ
    → UrbanRightOfWayPolicy
    → HashMap ℕ
    → UrbanSegmentLockRegistry
    → Option (UrbanSegmentLockRegistry × SegmentLockDecision)
unfolding request_batch first_decision
request_lock request tick policy priorities reg =
    elim (request_batch (request ∷ []) tick policy priorities reg) [
      | none ↦ none
      | some out ↦ first_decision out
    ]

unfoldable pub release :
    String → String → UrbanSegmentLockRegistry → UrbanSegmentLockRegistry × Option UrbanSegmentLock
release edge agent reg = elim (HashMap.get edge reg.active_locks) [
  | none ↦ (reg, none)
  | some lock ↦
      if not (lock.holder_agent_id == agent)
      then (reg, none)
      else (record reg { active_locks = HashMap.remove edge reg.active_locks }, some lock)
]
