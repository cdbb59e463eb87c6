-- ===== src/Deconfliction/Batches/Truth.antt =====
-- deconfliction.rs: the decisions on a batch, and the registry afterwards.
use drone_swarm_lab.Base.{
  ℕ, suc, ◌+◌, ◌-◌, ◌≤◌, String, true, false, ◌≡◌, refl, sym, ap, ◌∙◌, subst, none, some, List, [],
  ◌∷◌, ◌++◌, length, All, All-append, nat_eq, nat_eq_iff, ◌==◌, eq_iff, eq_refl, if◌then◌else◌,
  Bool-cases, Option-cases, ◌⊎◌, inl, inr, text_le, arith,
}
use drone_swarm_lab.HashMap
use drone_swarm_lab.HashMap.{HashMap}
use drone_swarm_lab.HashMap.Laws.{get-insert}
use drone_swarm_lab.Gossip.{sort_by_id, insert_sorted}
use drone_swarm_lab.Segments.{UrbanSegmentLock, UrbanRightOfWayPolicy}
use drone_swarm_lab.Deconfliction.{
  SegmentLockRequest, SegmentLockDecision, acquired, already_held, conflict,
  UrbanSegmentLockRegistry, Decisions, Groups, sort_requests, group_requests, get_elem?,
  winner_index, record_conflict,
}
use drone_swarm_lab.Deconfliction.Batches.{
  decide_held, decide_free, take_lock, lock_of, handle_group, handle_groups, request_batch,
}
use drone_swarm_lab.Deconfliction.Batches.Totality.{
  get_elem?-in, winner-bound, HasRequest, group-HasRequest, KeepsLocks, take-KeepsLocks, held-locks,
  free-locks,
}

-- A granted lock is in the registry and is the agent's own; a conflict names the holder.
abbrev pub IsTrue : UrbanSegmentLockRegistry → String × SegmentLockDecision → Type 0
IsTrue reg (agent, acquired lock) =
    (edge : String) × (HashMap.get edge reg.active_locks ≡ some lock)
    × (lock.holder_agent_id ≡ agent)
IsTrue reg (agent, already_held lock) =
    (edge : String) × (HashMap.get edge reg.active_locks ≡ some lock)
    × (lock.holder_agent_id ≡ agent)
IsTrue reg (agent, conflict c) =
    (lock : UrbanSegmentLock) × (HashMap.get c.edge_id reg.active_locks ≡ some lock)
    × (lock.holder_agent_id ≡ c.holder_agent_id)

keeps-IsTrue :
    (before later : UrbanSegmentLockRegistry) (d : String × SegmentLockDecision)
    → KeepsLocks before later
    → IsTrue before d
    → IsTrue later d
keeps-IsTrue before later (agent, acquired lock) k (e, h, a) = (e, k e lock h, a)
keeps-IsTrue before later (agent, already_held lock) k (e, h, a) = (e, k e lock h, a)
keeps-IsTrue before later (agent, conflict c) k (lock, h, a) = (lock, k c.edge_id lock h, a)

keeps-All :
    (before later : UrbanSegmentLockRegistry) (ds : Decisions)
    → KeepsLocks before later
    → All (IsTrue before) ds
    → All (IsTrue later) ds
keeps-All before later [] k h = tt
keeps-All before later (d ∷ ds) k h =
    (keeps-IsTrue before later d k h.0, keeps-All before later ds k h.1)

held-IsTrue :
    (tick : ℕ) (edge : String) (lock : UrbanSegmentLock) (policy : UrbanRightOfWayPolicy)
    (rs : List SegmentLockRequest) (reg later : UrbanSegmentLockRegistry)
    → HashMap.get edge later.active_locks ≡ some lock
    → All (IsTrue later) (decide_held tick edge lock policy rs reg).1
unfolding decide_held record_conflict
held-IsTrue tick edge lock policy [] reg later h = tt
held-IsTrue tick edge lock policy (r ∷ rs) reg later h =
    elim (Bool-cases (r.agent_id == lock.holder_agent_id)) [
      | inl b ↦ rw (b) (
        (edge, h, sym ((eq_iff r.agent_id lock.holder_agent_id).0 b)),
        held-IsTrue tick edge lock policy rs reg later h,
      )
      | inr b ↦ rw (b) ((lock, h, refl), held-IsTrue tick edge lock policy rs _ later h)
    ]

elem_head :
    (r w : SegmentLockRequest) (rs : List SegmentLockRequest) (n : ℕ)
    → get_elem? (r ∷ rs) n ≡ some w
    → nat_eq n 0 ≡ true
    → w.agent_id ≡ r.agent_id
unfolding get_elem?
elem_head r w rs n h b = ground (arith, h, b)

elem-past :
    (r w : SegmentLockRequest) (rs : List SegmentLockRequest) (n : ℕ)
    → get_elem? (r ∷ rs) n ≡ some w
    → nat_eq n 0 ≡ false
    → get_elem? rs (n - 1) ≡ some w
unfolding get_elem?
elem-past r w rs n h b = ground (arith, h, b)

elem_tail :
    (r w : SegmentLockRequest) (rs : List SegmentLockRequest) (n m : ℕ)
    → get_elem? (r ∷ rs) n ≡ some w
    → n ≡ suc m
    → get_elem? rs m ≡ some w
unfolding get_elem?
elem_tail r w rs n m h e =
    subst (λ k. get_elem? rs k ≡ some w) (omega (arith, e))
      (elem-past r w rs n h (ground (arith, e)))

free-IsTrue :
    (tick : ℕ) (edge : String) (w : SegmentLockRequest) (policy : UrbanRightOfWayPolicy)
    (index i : ℕ) (rs : List SegmentLockRequest) (reg later : UrbanSegmentLockRegistry)
    → (i ≤ index → get_elem? rs (index - i) ≡ some w)
    → HashMap.get edge later.active_locks ≡ some (lock_of tick edge w)
    → All (IsTrue later) (decide_free tick edge (lock_of tick edge w) policy index i rs reg).1
unfolding decide_free record_conflict get_elem?
free-IsTrue tick edge w policy index i [] reg later k h = tt
free-IsTrue tick edge w policy index i (r ∷ rs) reg later k h = elim (Bool-cases (nat_eq i index)) [
  | inl b ↦ rw (b) (
    (
      edge,
      h,
      elem_head r w rs (index - i) (k (omega (arith, (nat_eq_iff i index).0 b)))
          (ground (arith, (nat_eq_iff i index).0 b)),
    ),
    free-IsTrue tick edge w policy index (i + 1) rs reg later
        (λ le. absurd (omega (arith, le, (nat_eq_iff i index).0 b))) h,
  )
  | inr b ↦ rw (b) (
    (lock_of tick edge w, h, refl),
    free-IsTrue tick edge w policy index (i + 1) rs _ later
        (λ le.
          elem_tail r w rs (index - i) (index - (i + 1)) (k (omega (arith, le)))
            (omega (arith, le)))
        h,
  )
]

take-IsTrue :
    (tick : ℕ) (policy : UrbanRightOfWayPolicy) (edge : String) (group : List SegmentLockRequest)
    (index : ℕ) (winner : SegmentLockRequest) (reg : UrbanSegmentLockRegistry)
    → get_elem? group index ≡ some winner
    → All
        (IsTrue (take_lock tick policy edge group index winner reg).0)
        (take_lock tick policy edge group index winner reg).1
unfolding take_lock
take-IsTrue tick policy edge group index winner reg w =
    free-IsTrue tick edge winner policy index 0 group _
      (take_lock tick policy edge group index winner reg).0
      (λ _. subst (λ n. get_elem? group n ≡ some winner) (omega arith) w)
      (ap (HashMap.get edge)
          (free-locks tick edge (lock_of tick edge winner) policy index 0 group _)
        ∙ get-insert edge edge (lock_of tick edge winner) reg.active_locks
        ∙ ap (λ b. if b then some (lock_of tick edge winner) else HashMap.get edge reg.active_locks)
            (eq_refl edge))

group-IsTrue :
    (tick : ℕ) (policy : UrbanRightOfWayPolicy) (p : HashMap ℕ) (edge : String)
    (group : List SegmentLockRequest) (reg : UrbanSegmentLockRegistry)
    → 1 ≤ length group
    → (out : UrbanSegmentLockRegistry × Decisions) × (handle_group tick policy p edge group reg
        ≡ some out)
      × KeepsLocks reg out.0
      × All (IsTrue out.0) out.1
unfolding handle_group
group-IsTrue tick policy p edge group reg h =
    elim (Option-cases (HashMap.get edge reg.active_locks)) [
      | inr (lock, f) ↦
          let same = held-locks tick edge lock policy group reg in
          (
            decide_held tick edge lock policy group reg,
            rw (handle_group, f) refl,
            λ e l k. ap (HashMap.get e) same ∙ k,
            held-IsTrue tick edge lock policy group reg
                (decide_held tick edge lock policy group reg).0 (ap (HashMap.get edge) same ∙ f),
          )
      | inl f ↦
          let index = winner_index edge group policy p reg in
          let (winner, w) = get_elem?-in group index (winner-bound edge group policy p reg h) in
          (
            take_lock tick policy edge group index winner reg,
            rw (handle_group, f, w) refl,
            take-KeepsLocks tick policy edge group index winner reg f,
            take-IsTrue tick policy edge group index winner reg w,
          )
    ]

groups-IsTrue :
    (tick : ℕ) (policy : UrbanRightOfWayPolicy) (p : HashMap ℕ) (groups : Groups)
    (reg : UrbanSegmentLockRegistry)
    → All HasRequest groups
    → (out : UrbanSegmentLockRegistry × Decisions) × (handle_groups tick policy p groups reg
        ≡ some out)
      × KeepsLocks reg out.0
      × All (IsTrue out.0) out.1
unfolding handle_groups
groups-IsTrue tick policy p [] reg h = ((reg, []), refl, λ e l k. k, tt)
groups-IsTrue tick policy p ((edge, group) ∷ groups) reg h =
    let (out, e, keeps, t) = group-IsTrue tick policy p edge group reg h.0 in
    let (out', e', keeps', t') = groups-IsTrue tick policy p groups out.0 h.1 in
    (
      (out'.0, out.1 ++ out'.1),
      rw (handle_groups, e) (rw (e') refl),
      λ i l k. keeps' i l (keeps i l k),
      All-append (IsTrue out'.0) out.1 out'.1 (keeps-All out.0 out'.0 out.1 keeps' t) t',
    )

All-insert_sorted {κ} :
    {V : Type 0} (P : String × V → Type κ) (e : String × V) (m : HashMap V)
    → P e
    → All P m
    → All P (insert_sorted e m)
unfolding insert_sorted
All-insert_sorted P e [] p h = (p, tt)
All-insert_sorted P e (f ∷ m) p h = elim (Bool-cases (text_le e.0 f.0)) [
  | inl b ↦ rw (b) (p, h)
  | inr b ↦ rw (b) (h.0, All-insert_sorted P e m p h.1)
]

All-sort_by_id {κ} :
    {V : Type 0} (P : String × V → Type κ) (m : HashMap V) → All P m → All P (sort_by_id m)
unfolding sort_by_id
All-sort_by_id P [] h = tt
All-sort_by_id P (e ∷ m) h = All-insert_sorted P e (sort_by_id m) h.0 (All-sort_by_id P m h.1)

-- A batch of requests always yields decisions, whatever the policy, the priorities and the cursors
-- are, and each is true of the registry afterwards: an agent that is told of a lock holds it, and a
-- conflict names the agent that holds the segment. A segment that was locked stays as it was.
pub request_batch-IsTrue :
    (requests : List SegmentLockRequest) (tick : ℕ) (policy : UrbanRightOfWayPolicy)
    (priorities : HashMap ℕ) (reg : UrbanSegmentLockRegistry) (edge : String)
    → (out : UrbanSegmentLockRegistry × Decisions) × (request_batch requests tick policy priorities
          reg
        ≡ some out)
      × All (IsTrue out.0) out.1
      × ((HashMap.get edge reg.active_locks ≡ none)
          ⊎ (HashMap.get edge out.0.active_locks ≡ HashMap.get edge reg.active_locks))
unfolding request_batch
request_batch-IsTrue requests tick policy priorities reg edge =
    let (out, e, keeps, t) =
      groups-IsTrue tick policy priorities (group_requests [] (sort_requests requests)) reg
        (group-HasRequest [] (sort_requests requests) tt) in
    (
      (out.0, sort_by_id out.1),
      rw (request_batch, e) refl,
      All-sort_by_id (IsTrue out.0) out.1 t,
      elim (Option-cases (HashMap.get edge reg.active_locks)) [
        | inl f ↦ inl f
        | inr (lock, f) ↦ inr (keeps edge lock f ∙ sym f)
      ],
    )
