-- ===== src/Tests/DeconflictionRuns.antt =====
-- Runs of the shared-memory locks of route segments.
use drone_swarm_lab.Base.{ℕ, String, ◌≡◌, refl, none, some, List, [], ◌∷◌, map, All, ◌⊎◌}
use drone_swarm_lab.HashMap
use drone_swarm_lab.HashMap.Laws.{map_option}
use drone_swarm_lab.Gossip.{sort_by_id}
use drone_swarm_lab.Segments.{UrbanSegmentLock, priority, round_robin}
use drone_swarm_lab.Deconfliction.{
  SegmentLockRequest, acquired, UrbanSegmentLockRegistry, Decisions, sort_requests, group_requests,
  request_le, winner_index,
}
use drone_swarm_lab.Deconfliction.Batches.{request_batch, request_lock, release}
use drone_swarm_lab.Deconfliction.Batches.Truth.{IsTrue, request_batch-IsTrue}

abbrev request : String → String → ℕ → SegmentLockRequest
request agent edge order = record {
  agent_id = agent;
  edge_id = edge;
  segment_index = 0;
  request_order = order;
}

abbrev held_lock : UrbanSegmentLock
held_lock = record {
  edge_id = "e1";
  holder_agent_id = "a1";
  acquired_at_tick = 1;
  segment_index = 0;
}

abbrev locks : UrbanSegmentLockRegistry
locks = record {
  active_locks = ("e1", held_lock) ∷ [];
  conflict_history = [];
  round_robin_next = ("e2", 1) ∷ [];
}

abbrev batch : List SegmentLockRequest
batch = request "a3" "e2" 2 ∷ request "a2" "e1" 0 ∷ request "a1" "e2" 1 ∷ []

groups_by_edge : map (λ g. g.0) (group_requests [] (sort_requests batch)) ≡ "e1" ∷ "e2" ∷ []
unfolding group_requests sort_requests request_le
groups_by_edge = refl

priority_wins :
    winner_index "e2"
      (request "a1" "e2" 1 ∷ request "a3" "e2" 2 ∷ [])
      priority
      (("a3", 5) ∷ [])
      locks
    ≡ 1
unfolding winner_index HashMap.get
priority_wins = refl

lock_free_edge :
    map_option (λ p. p.1) (request_lock (request "a2" "e3" 0) 7 priority [] locks)
    ≡ some (
        acquired (record {
          edge_id = "e3";
          holder_agent_id = "a2";
          acquired_at_tick = 7;
          segment_index = 0;
        }))
unfolding request_lock HashMap.get HashMap.insert sort_by_id
lock_free_edge = refl

release_by_holder : (release "e1" "a1" locks).1 ≡ some held_lock
unfolding release HashMap.get
release_by_holder = refl

request_batch-IsTrue_example :
    (out : UrbanSegmentLockRegistry × Decisions) × (request_batch batch 4 round_robin [] locks
      ≡ some out)
    × All (IsTrue out.0) out.1
    × ((HashMap.get "e1" locks.active_locks ≡ none)
        ⊎ (HashMap.get "e1" out.0.active_locks ≡ HashMap.get "e1" locks.active_locks))
request_batch-IsTrue_example = request_batch-IsTrue batch 4 round_robin [] locks "e1"
