-- ===== src/Deconfliction/Batches/Totality.antt =====
-- deconfliction.rs: the index of the winner, and the locks after the decisions on a group.
use native.Mathlib.Nat.{mod-lt}
use drone_swarm_lab.Base.{
  ℕ, ◌+◌, ◌-◌, ◌%◌, ◌≤◌, ◌<◌, String, Bool, true, false, ◌≡◌, refl, ap, ◌∙◌, none, some, List, [],
  ◌∷◌, length, length-append, max, All, nat_eq, ◌==◌, eq_iff, if◌then◌else◌, subst, Bool-cases, inl,
  inr, arith,
}
use drone_swarm_lab.HashMap
use drone_swarm_lab.HashMap.{HashMap}
use drone_swarm_lab.HashMap.Laws.{get-insert}
use drone_swarm_lab.Autonomy.{unwrap_or}
use drone_swarm_lab.Segments.{
  UrbanSegmentLock, UrbanRightOfWayPolicy, first_come, priority, round_robin,
  mission_critical_override,
}
use drone_swarm_lab.Deconfliction.{
  SegmentLockRequest, UrbanSegmentLockRegistry, Groups, group_requests, push_request,
  record_conflict, get_elem?, winner_index, max_index,
}
use drone_swarm_lab.Deconfliction.Batches.{decide_held, decide_free, take_lock, lock_of}

conflict-locks :
    (b : Bool) (tick : ℕ) (edge holder requester : String) (policy : UrbanRightOfWayPolicy)
    (reason : String) (reg : UrbanSegmentLockRegistry)
    → (if b
        then reg
        else (record_conflict tick edge holder requester policy reason reg).0).active_locks
      ≡ reg.active_locks
unfolding record_conflict
conflict-locks true tick edge holder requester policy reason reg = refl
conflict-locks false tick edge holder requester policy reason reg = refl

pub held-locks :
    (tick : ℕ) (edge : String) (lock : UrbanSegmentLock) (policy : UrbanRightOfWayPolicy)
    (rs : List SegmentLockRequest) (reg : UrbanSegmentLockRegistry)
    → (decide_held tick edge lock policy rs reg).0.active_locks ≡ reg.active_locks
unfolding decide_held
held-locks tick edge lock policy [] reg = refl
held-locks tick edge lock policy (r ∷ rs) reg =
    held-locks tick edge lock policy rs _
    ∙ conflict-locks (r.agent_id == lock.holder_agent_id) tick edge lock.holder_agent_id r.agent_id
        policy "segment already locked" reg

pub free-locks :
    (tick : ℕ) (edge : String) (lock : UrbanSegmentLock) (policy : UrbanRightOfWayPolicy)
    (winner i : ℕ) (rs : List SegmentLockRequest) (reg : UrbanSegmentLockRegistry)
    → (decide_free tick edge lock policy winner i rs reg).0.active_locks ≡ reg.active_locks
unfolding decide_free
free-locks tick edge lock policy winner i [] reg = refl
free-locks tick edge lock policy winner i (r ∷ rs) reg =
    free-locks tick edge lock policy winner (i + 1) rs _
    ∙ conflict-locks (nat_eq i winner) tick edge lock.holder_agent_id r.agent_id policy
        "right-of-way loser" reg

pub get_elem?-in {ℓ} :
    {A : Type ℓ} (xs : List A) (n : ℕ) → n < length xs → (x : A) × (get_elem? xs n ≡ some x)
unfolding get_elem?
get_elem?-in [] n h = absurd (omega (arith, h))
get_elem?-in (x ∷ xs) n h = elim (Bool-cases (nat_eq n 0)) [
  | inl b ↦ (x, rw (b) refl)
  | inr b ↦ let (y, e) = get_elem?-in xs (n - 1) (ground (arith, h, b)) in (y, rw (b) e)
]

max_index-bound :
    (p : HashMap ℕ) (best : ℕ) (b : SegmentLockRequest) (i : ℕ) (rs : List SegmentLockRequest)
    → best < i
    → max_index p best b i rs < i + length rs
unfolding max_index
max_index-bound p best b i [] h = omega (arith, h)
max_index-bound p best b i (r ∷ rs) h = ground (
  arith,
  h,
  max_index-bound p i r (i + 1) rs (omega arith),
  max_index-bound p best b (i + 1) rs (omega (arith, h)),
)

mod_bound : (a n : ℕ) → 1 ≤ n → a % max n 1 < n
mod_bound a n h = subst (λ k. a % k < n) (omega (arith, h)) (mod-lt a (omega (arith, h)))

-- The winner is one of the requests.
pub winner-bound :
    (edge : String) (group : List SegmentLockRequest) (policy : UrbanRightOfWayPolicy)
    (p : HashMap ℕ) (reg : UrbanSegmentLockRegistry)
    → 1 ≤ length group
    → winner_index edge group policy p reg < length group
unfolding winner_index
winner-bound edge group first_come p reg h = omega (arith, h)
winner-bound edge group mission_critical_override p reg h = omega (arith, h)
winner-bound edge [] priority p reg h = h
winner-bound edge (r ∷ rs) priority p reg h =
    omega (arith, max_index-bound p 0 r 1 rs (omega arith))
winner-bound edge group round_robin p reg h =
    mod_bound (unwrap_or 0 (HashMap.get edge reg.round_robin_next)) (length group) h

abbrev pub HasRequest : String × List SegmentLockRequest → Type 0
HasRequest g = 1 ≤ length g.1

push-HasRequest :
    (groups : Groups) (r : SegmentLockRequest)
    → All HasRequest groups
    → All HasRequest (push_request groups r)
unfolding push_request
push-HasRequest [] r h = (omega arith, tt)
push-HasRequest ((e, g) ∷ []) r h = elim (Bool-cases (e == r.edge_id)) [
  | inl b ↦ rw (b) (omega (arith, length-append g (r ∷ [])), tt)
  | inr b ↦ rw (b) (h.0, (omega arith, tt))
]
push-HasRequest (g ∷ k ∷ more) r h = (h.0, push-HasRequest (k ∷ more) r h.1)

pub group-HasRequest :
    (groups : Groups) (rs : List SegmentLockRequest)
    → All HasRequest groups
    → All HasRequest (group_requests groups rs)
unfolding group_requests
group-HasRequest groups [] h = h
group-HasRequest groups (r ∷ rs) h =
    group-HasRequest (push_request groups r) rs (push-HasRequest groups r h)

-- The registry still has each lock of the earlier one.
abbrev pub KeepsLocks : UrbanSegmentLockRegistry → UrbanSegmentLockRegistry → Type 0
KeepsLocks before later =
    (e : String) (lock : UrbanSegmentLock)
    → HashMap.get e before.active_locks ≡ some lock
    → HashMap.get e later.active_locks ≡ some lock

pub take-KeepsLocks :
    (tick : ℕ) (policy : UrbanRightOfWayPolicy) (edge : String) (group : List SegmentLockRequest)
    (index : ℕ) (winner : SegmentLockRequest) (reg : UrbanSegmentLockRegistry)
    → HashMap.get edge reg.active_locks ≡ none
    → KeepsLocks reg (take_lock tick policy edge group index winner reg).0
unfolding take_lock
take-KeepsLocks tick policy edge group index winner reg f e lock h =
    ap (HashMap.get e) (free-locks tick edge (lock_of tick edge winner) policy index 0 group _)
    ∙ ground
        (arith, h, f, eq_iff edge e, get-insert edge e (lock_of tick edge winner) reg.active_locks)
