-- ===== src/Deconfliction.antt =====
-- crates/swarm-sim/src/urban/deconfliction.rs: the locks of route segments in shared memory. A
-- batch of requests is sorted and grouped by segment; in each group one agent wins by the
-- right-of-way policy.
pub mod Batches
use drone_swarm_lab.Base.{
  ℕ, ◌+◌, ◌-◌, ◌%◌, String, Bool, true, false, ◌&&◌, ◌||◌, not, Option, none, some, List, [], ◌∷◌,
  ◌++◌, map, filter, length, max, ltb, nat_eq, ◌==◌, if◌then◌else◌, text_lt, text_le,
}
use drone_swarm_lab.HashMap
use drone_swarm_lab.HashMap.{HashMap}
use drone_swarm_lab.Autonomy.{unwrap_or}
use drone_swarm_lab.Segments.{
  UrbanSegmentLock, UrbanRightOfWayPolicy, first_come, priority, round_robin,
  mission_critical_override,
}

pub record SegmentLockRequest : Type 0 where
  pub agent_id : String
  pub edge_id : String
  pub segment_index : ℕ
  pub request_order : ℕ

pub record UrbanSegmentConflictRecord : Type 0 where
  pub tick : ℕ
  pub edge_id : String
  pub holder_agent_id : String
  pub requester_agent_id : String
  pub policy : UrbanRightOfWayPolicy
  pub reason : String

pub data SegmentLockDecision : Type 0 where
  acquired already_held : UrbanSegmentLock → SegmentLockDecision
  conflict : UrbanSegmentConflictRecord → SegmentLockDecision

pub record UrbanSegmentLockRegistry : Type 0 where
  pub active_locks : HashMap UrbanSegmentLock
  pub conflict_history : List UrbanSegmentConflictRecord
  pub round_robin_next : HashMap ℕ

-- The order of the triples (edge, order, agent).
unfoldable pub request_le : SegmentLockRequest → SegmentLockRequest → Bool
request_le l r =
    text_lt l.edge_id r.edge_id
    || ((l.edge_id == r.edge_id)
        && (ltb l.request_order r.request_order
            || (nat_eq l.request_order r.request_order && text_le l.agent_id r.agent_id)))

insert_request : SegmentLockRequest → List SegmentLockRequest → List SegmentLockRequest
insert_request r [] = r ∷ []
insert_request r (s ∷ rs) =
    let rest = insert_request r rs in if request_le r s then r ∷ s ∷ rs else s ∷ rest

unfoldable pub sort_requests : List SegmentLockRequest → List SegmentLockRequest
unfolding insert_request
sort_requests [] = []
sort_requests (r ∷ rs) = insert_request r (sort_requests rs)

abbrev pub Groups : Type 0
Groups = List (String × List SegmentLockRequest)

-- A request joins the last group if that is its segment's, and else starts a group.
unfoldable pub push_request : Groups → SegmentLockRequest → Groups
push_request [] r = (r.edge_id, r ∷ []) ∷ []
push_request ((edge, group) ∷ []) r =
    if edge == r.edge_id
    then (edge, group ++ r ∷ []) ∷ []
    else (edge, group) ∷ (r.edge_id, r ∷ []) ∷ []
push_request (g ∷ h ∷ more) r = let rest = push_request (h ∷ more) r in g ∷ rest

unfoldable pub group_requests : Groups → List SegmentLockRequest → Groups
unfolding push_request
group_requests groups [] = groups
group_requests groups (r ∷ rs) = group_requests (push_request groups r) rs

unfoldable pub record_conflict :
    ℕ
    → String
    → String
    → String
    → UrbanRightOfWayPolicy
    → String
    → UrbanSegmentLockRegistry
    → UrbanSegmentLockRegistry × UrbanSegmentConflictRecord
record_conflict tick edge holder requester policy reason reg =
    let c : UrbanSegmentConflictRecord = record {
      tick = tick;
      edge_id = edge;
      holder_agent_id = holder;
      requester_agent_id = requester;
      policy = policy;
      reason = reason;
    } in
    (record reg { conflict_history = reg.conflict_history ++ c ∷ [] }, c)

-- `group[index]`, which panics out of range.
unfoldable pub get_elem? {ℓ} : {A : Type ℓ} → List A → ℕ → Option A
get_elem? [] n = none
get_elem? (x ∷ xs) n = let rest = get_elem? xs (n - 1) in if nat_eq n 0 then some x else rest

-- Whether the right key `(priority, Reverse(agent))` is at least the left one.
unfoldable pub rank_le : HashMap ℕ → SegmentLockRequest → SegmentLockRequest → Bool
rank_le priorities l r =
    let p = unwrap_or 0 (HashMap.get l.agent_id priorities) in
    let q = unwrap_or 0 (HashMap.get r.agent_id priorities) in
    ltb p q || (nat_eq p q && text_le r.agent_id l.agent_id)

-- `enumerate().max_by(..)` past the first request: the last of the greatest.
unfoldable pub max_index : HashMap ℕ → ℕ → SegmentLockRequest → ℕ → List SegmentLockRequest → ℕ
max_index priorities best b i [] = best
max_index priorities best b i (r ∷ rs) =
    if rank_le priorities b r
    then max_index priorities i r (i + 1) rs
    else max_index priorities best b (i + 1) rs

abbrev pub top_index : HashMap ℕ → List SegmentLockRequest → ℕ
top_index priorities [] = 0
top_index priorities (r ∷ rs) = max_index priorities 0 r 1 rs

unfoldable pub winner_index :
    String
    → List SegmentLockRequest
    → UrbanRightOfWayPolicy
    → HashMap ℕ
    → UrbanSegmentLockRegistry
    → ℕ
unfolding max_index rank_le
winner_index edge group first_come priorities reg = 0
winner_index edge group mission_critical_override priorities reg = 0
winner_index edge group priority priorities reg = top_index priorities group
winner_index edge group round_robin priorities reg =
    unwrap_or 0 (HashMap.get edge reg.round_robin_next) % max (length group) 1

abbrev pub Decisions : Type 0
Decisions = List (String × SegmentLockDecision)
