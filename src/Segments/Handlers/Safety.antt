-- ===== src/Segments/Handlers/Safety.antt =====
-- segment_coordinator.rs: what a message does to a lock that is there.
use drone_swarm_lab.Base.{
  ℕ, String, Bool, false, ◌≡◌, refl, ap, ◌&&◌, none, some, ◌==◌, eq_iff, if◌then◌else◌, Bool-cases,
  Option-cases, ◌⊎◌, inl, inr, Result, ok, err, arith,
}
use drone_swarm_lab.HashMap
use drone_swarm_lab.HashMap.{HashMap}
use drone_swarm_lab.HashMap.Laws.{get-insert, get-remove}
use drone_swarm_lab.Mission.{Lease}
use drone_swarm_lab.Protocol.{SwarmMessage, segment_reserve, segment_release}
use drone_swarm_lab.Segments.{
  World, UrbanSegmentLock, SegmentCoordinator, SegmentCoordinatorError, CoordinatorEvent, lease_for,
  handle_release,
}
use drone_swarm_lab.Segments.Handlers.{
  push_sent, send_message, send_grant, send_deny, handle_reserve, handle_message,
}

pub push-coordinator :
    {T S E : Type 0} (event : CoordinatorEvent)
    (p : SegmentCoordinator T S × Result (SegmentCoordinatorError E) (Unit {0}))
    → (push_sent event p).0 ≡ p.0
unfolding push_sent
push-coordinator event (c, ok u) = refl
push-coordinator event (c, err e) = refl

-- Whether the message is the release, by the holder, of the lease that it holds of `edge`.
abbrev pub gives_up :
    {F T Plan Outcome : Type 0}
    → String
    → UrbanSegmentLock
    → Lease T
    → String
    → SwarmMessage F T Plan Outcome
    → Bool
gives_up edge lock lease from (segment_release e lease_id) =
    (e == edge) && ((lock.holder_agent_id == from) && (lease.lease_id == lease_id))
gives_up edge lock lease from _ = false

release_lock :
    {T S : Type 0} (e edge lease_id from : String) (c : SegmentCoordinator T S)
    (lock : UrbanSegmentLock) (lease : Lease T)
    → HashMap.get e c.active_locks ≡ some (lock, lease)
    → HashMap.get e (handle_release edge lease_id from c).0.active_locks ≡ (
        if (edge == e) && ((lock.holder_agent_id == from) && (lease.lease_id == lease_id))
        then none
        else some (lock, lease))
unfolding handle_release
release_lock e edge lease_id from c lock lease h =
    ground (arith, h, get-remove edge e c.active_locks, eq_iff edge e)

-- The lock that a request for a free segment enters.
abbrev pub lock_for : ℕ → ℕ → String → String → UrbanSegmentLock
lock_for tick i edge requester = record {
  edge_id = edge;
  holder_agent_id = requester;
  acquired_at_tick = tick;
  segment_index = i;
}

module _ {F T Plan Outcome S E : Type 0} where
  grant-locks :
      (w : World F T Plan Outcome S E) (tick : ℕ) (edge to : String) (lease : Lease T)
      (c : SegmentCoordinator T S)
      → (send_grant w tick edge to lease c).0.active_locks ≡ c.active_locks
  unfolding send_grant send_message
  grant-locks w tick edge to lease c = refl

  deny-locks :
      (w : World F T Plan Outcome S E) (tick : ℕ) (edge to holder : String) (r : _)
      (c : SegmentCoordinator T S)
      → (send_deny w tick edge to holder r c).0.active_locks ≡ c.active_locks
  unfolding send_deny send_message
  deny-locks w tick edge to holder r c = refl

  -- A request for a free segment enters a lock, and any other leaves the locks as they are.
  pub reserve_locks :
      (w : World F T Plan Outcome S E) (tick i : ℕ) (edge requester : String)
      (c : SegmentCoordinator T S)
      → ((HashMap.get edge c.active_locks ≡ none)
          × ((handle_reserve w tick edge i requester c).0.active_locks
              ≡ HashMap.insert edge
                  (lock_for tick i edge requester, lease_for w tick edge requester c)
                  c.active_locks))
        ⊎ ((v : UrbanSegmentLock × Lease T) × (HashMap.get edge c.active_locks ≡ some v)
            × ((handle_reserve w tick edge i requester c).0.active_locks ≡ c.active_locks))
  unfolding handle_reserve send_grant send_deny send_message
  reserve_locks w tick i edge requester c = elim (Option-cases (HashMap.get edge c.active_locks)) [
    | inl f ↦ inl (f, rw (handle_reserve, f) (ap (λ d. d.active_locks) (push-coordinator _ _)))
    | inr ((lock, lease), f) ↦ elim (Bool-cases (lock.holder_agent_id == requester)) [
      | inl b ↦
          inr (_, f, rw (handle_reserve, f, b) (ap (λ d. d.active_locks) (push-coordinator _ _)))
      | inr b ↦
          inr (_, f, rw (handle_reserve, f, b) (ap (λ d. d.active_locks) (push-coordinator _ _)))
    ]
  ]

  reserve_kept :
      (w : World F T Plan Outcome S E) (tick i : ℕ) (e edge requester : String)
      (c : SegmentCoordinator T S) (v : UrbanSegmentLock × Lease T)
      → HashMap.get e c.active_locks ≡ some v
      → HashMap.get e (handle_reserve w tick edge i requester c).0.active_locks ≡ some v
  reserve_kept w tick i e edge requester c v h = elim (reserve_locks w tick i edge requester c) [
    | inr (u, f, l) ↦ rw (l) h
    | inl (f, l) ↦ rw (l) (
        ground (
          arith,
          h,
          f,
          eq_iff edge e,
          get-insert edge e (lock_for tick i edge requester, lease_for w tick edge requester c)
              c.active_locks,
        ))
  ]

  -- What one message does to a lock that is there.
  pub message_lock :
      (w : World F T Plan Outcome S E) (tick : ℕ) (e from : String)
      (m : SwarmMessage F T Plan Outcome) (c : SegmentCoordinator T S) (lock : UrbanSegmentLock)
      (lease : Lease T)
      → HashMap.get e c.active_locks ≡ some (lock, lease)
      → HashMap.get e (handle_message w tick from m c).0.active_locks
        ≡ (if gives_up e lock lease from m then none else some (lock, lease))
  unfolding handle_message
  message_lock w tick e from (segment_reserve edge i requester at) c lock lease h =
      reserve_kept w tick i e edge requester c (lock, lease) h
  message_lock w tick e from (segment_release edge lease_id) c lock lease h =
      release_lock e edge lease_id from c lock lease h
  message_lock w tick e from _ c lock lease h = h
