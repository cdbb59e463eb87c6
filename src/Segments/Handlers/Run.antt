-- ===== src/Segments/Handlers/Run.antt =====
-- segment_coordinator.rs: a whole call of handle_incoming.
use drone_swarm_lab.Base.{
  ℕ, String, Bool, true, false, ◌≡◌, refl, sym, ap, ◌∙◌, ◌&&◌, not, none, some, List, [], ◌∷◌, ◌++◌,
  map, filter, contains, eq_iff, if◌then◌else◌, Option-cases, ◌⊎◌, inl, inr, Result, ok, err, arith,
}
use drone_swarm_lab.HashMap
use drone_swarm_lab.HashMap.{HashMap}
use drone_swarm_lab.HashMap.Laws.{get-remove, UniqueKeys}
use drone_swarm_lab.HashMap.Keys.{test_value, contains-keys}
use drone_swarm_lab.Mission.{Lease, is_valid_at}
use drone_swarm_lab.Protocol.{SwarmMessageEnvelope, RawMessage, from_raw_message}
use drone_swarm_lab.Segments.{
  World, UrbanSegmentLock, SegmentCoordinator, SegmentCoordinatorError, CoordinatorEvent,
  tick_to_time, expire_leases, expired_edges, remove_edges,
}
use drone_swarm_lab.Segments.Handlers.{handle_message, handle_raw, poll_all, handle_incoming}
use drone_swarm_lab.Segments.Handlers.Safety.{gives_up, message_lock}

get-remove_edges :
    {T : Type 0} (e : String) (ids : List (String × String))
    (m : HashMap (UrbanSegmentLock × Lease T))
    → HashMap.get e (remove_edges ids m)
      ≡ (if contains (map (λ i. i.0) ids) e then none else HashMap.get e m)
unfolding remove_edges contains
get-remove_edges e [] m = refl
get-remove_edges e ((i, a) ∷ ids) m =
    ground (arith, get-remove_edges e ids (HashMap.remove i m), get-remove i e m, eq_iff i e)

firsts-map :
    {A : Type 0} (f : A → String) (xs : List (String × A))
    → map (λ (e : String × String). e.0) (map (λ (e : String × A). (e.0, f e.1)) xs)
      ≡ map (λ (e : String × A). e.0) xs
firsts-map f [] = refl
firsts-map f (x ∷ xs) = ap (λ l. x.0 ∷ l) (firsts-map f xs)

Result-cases : {E A : Type 0} (r : Result E A) → ((x : E) × (r ≡ err x)) ⊎ ((a : A) × (r ≡ ok a))
Result-cases (err x) = inl (x, refl)
Result-cases (ok a) = inr (a, refl)

module _ {F T Plan Outcome S E : Type 0} where
  -- Whether the lease of a lock has expired at a tick.
  abbrev pub is_over : World F T Plan Outcome S E → ℕ → UrbanSegmentLock × Lease T → Bool
  is_over w tick v = not (is_valid_at w.time_lt v.1 (tick_to_time w tick))

  -- In a table with one entry for each segment, expiry drops exactly the locks whose lease is over.
  pub get-expire_leases :
      (w : World F T Plan Outcome S E) (tick : ℕ) (e : String) (c : SegmentCoordinator T S)
      → UniqueKeys c.active_locks
      → HashMap.get e (expire_leases w tick c).0.active_locks ≡ (
          if test_value (is_over w tick) (HashMap.get e c.active_locks)
          then none
          else HashMap.get e c.active_locks)
  unfolding expire_leases expired_edges
  get-expire_leases w tick e c u =
      let over = filter (λ x. is_over w tick x.1) c.active_locks in
      get-remove_edges e (expired_edges w tick c) c.active_locks
      ∙ ap (λ b. if b then none else HashMap.get e c.active_locks)
          (ap (λ ids. contains ids e) (firsts-map (λ v. v.0.holder_agent_id) over)
            ∙ contains-keys (is_over w tick) e c.active_locks u)

  abbrev pub raw_gives_up :
      World F T Plan Outcome S E → String → UrbanSegmentLock → Lease T → RawMessage → Bool
  raw_gives_up w e lock lease raw = elim (from_raw_message w.parse raw) [
    | none ↦ false
    | some envelope ↦ gives_up e lock lease envelope.from envelope.message
  ]

  -- No message is the release of this lock by its holder.
  abbrev pub none_gives_up :
      World F T Plan Outcome S E
      → String
      → UrbanSegmentLock
      → Lease T
      → List (Result E RawMessage)
      → Bool
  none_gives_up w e lock lease [] = true
  none_gives_up w e lock lease (err x ∷ polled) = true
  none_gives_up w e lock lease (ok raw ∷ polled) =
      let rest = none_gives_up w e lock lease polled in
      not (raw_gives_up w e lock lease raw) && rest

  raw-none :
      (w : World F T Plan Outcome S E) (tick : ℕ) (raw : RawMessage) (c : SegmentCoordinator T S)
      → from_raw_message w.parse raw ≡ none
      → handle_raw w tick raw c ≡ (c, ok [])
  unfolding handle_raw
  raw-none w tick raw c f = rw (handle_raw, f) refl

  raw-some :
      (w : World F T Plan Outcome S E) (tick : ℕ) (raw : RawMessage) (c : SegmentCoordinator T S)
      (env : SwarmMessageEnvelope F T Plan Outcome)
      → from_raw_message w.parse raw ≡ some env
      → handle_raw w tick raw c ≡ handle_message w tick env.from env.message c
  unfolding handle_raw
  raw-some w tick raw c env f = rw (handle_raw, f) refl

  gives_up-some :
      (w : World F T Plan Outcome S E) (e : String) (lock : UrbanSegmentLock) (lease : Lease T)
      (raw : RawMessage) (env : SwarmMessageEnvelope F T Plan Outcome)
      → from_raw_message w.parse raw ≡ some env
      → raw_gives_up w e lock lease raw ≡ gives_up e lock lease env.from env.message
  gives_up-some w e lock lease raw env f = rw (raw_gives_up, f) refl

  raw_lock :
      (w : World F T Plan Outcome S E) (tick : ℕ) (e : String) (raw : RawMessage)
      (c : SegmentCoordinator T S) (lock : UrbanSegmentLock) (lease : Lease T)
      → HashMap.get e c.active_locks ≡ some (lock, lease)
      → raw_gives_up w e lock lease raw ≡ false
      → HashMap.get e (handle_raw w tick raw c).0.active_locks ≡ some (lock, lease)
  raw_lock w tick e raw c lock lease h n = elim (Option-cases (from_raw_message w.parse raw)) [
    | inl f ↦ rw (raw-none w tick raw c f) h
    | inr (env, f) ↦ rw (raw-some w tick raw c env f) (
        message_lock w tick e env.from env.message c lock lease h
        ∙ ap (λ b. if b then none else some (lock, lease))
            (sym (gives_up-some w e lock lease raw env f) ∙ n))
  ]

  poll-err :
      (w : World F T Plan Outcome S E) (tick : ℕ) (raw : RawMessage)
      (polled : List (Result E RawMessage)) (events : List CoordinatorEvent)
      (c : SegmentCoordinator T S) (x : SegmentCoordinatorError E)
      → (handle_raw w tick raw c).1 ≡ err x
      → poll_all w tick (ok raw ∷ polled) events c ≡ ((handle_raw w tick raw c).0, err x)
  unfolding poll_all
  poll-err w tick raw polled events c x f = rw (poll_all, f) refl

  poll-ok :
      (w : World F T Plan Outcome S E) (tick : ℕ) (raw : RawMessage)
      (polled : List (Result E RawMessage)) (events more : List CoordinatorEvent)
      (c : SegmentCoordinator T S)
      → (handle_raw w tick raw c).1 ≡ ok more
      → poll_all w tick (ok raw ∷ polled) events c
        ≡ poll_all w tick polled (events ++ more) (handle_raw w tick raw c).0
  unfolding poll_all
  poll-ok w tick raw polled events more c f = rw (poll_all, f) refl

  poll_lock :
      (w : World F T Plan Outcome S E) (tick : ℕ) (e : String) (polled : List (Result E RawMessage))
      (events : List CoordinatorEvent) (c : SegmentCoordinator T S) (lock : UrbanSegmentLock)
      (lease : Lease T)
      → HashMap.get e c.active_locks ≡ some (lock, lease)
      → none_gives_up w e lock lease polled ≡ true
      → HashMap.get e (poll_all w tick polled events c).0.active_locks ≡ some (lock, lease)
  unfolding poll_all
  poll_lock w tick e [] events c lock lease h n = h
  poll_lock w tick e (err x ∷ polled) events c lock lease h n = h
  poll_lock w tick e (ok raw ∷ polled) events c lock lease h n =
      let stays = raw_lock w tick e raw c lock lease h (ground (arith, n)) in
      elim (Result-cases (handle_raw w tick raw c).1) [
        | inl (x, f) ↦ rw (poll-err w tick raw polled events c x f) stays
        | inr (more, f) ↦ rw (poll-ok w tick raw polled events more c f) (
            poll_lock w tick e polled (events ++ more) (handle_raw w tick raw c).0 lock lease stays
              (ground (arith, n)))
      ]

  -- Let the table have one entry for each segment. In a call of `handle_incoming`, however many requests, releases and transport errors it sees, an
  -- agent keeps a lock whose lease is valid at the tick, unless a message polled before an error is
  -- the agent's own release of that lease.
  pub handle_incoming-keeps :
      (w : World F T Plan Outcome S E) (tick : ℕ) (e : String) (polled : List (Result E RawMessage))
      (c : SegmentCoordinator T S) (lock : UrbanSegmentLock) (lease : Lease T)
      → UniqueKeys c.active_locks
      → HashMap.get e c.active_locks ≡ some (lock, lease)
      → is_valid_at w.time_lt lease (tick_to_time w tick) ≡ true
      → none_gives_up w e lock lease polled ≡ true
      → HashMap.get e (handle_incoming w tick polled c).0.active_locks ≡ some (lock, lease)
  unfolding handle_incoming
  handle_incoming-keeps w tick e polled c lock lease u h v n =
      poll_lock w tick e polled (expire_leases w tick c).1 (expire_leases w tick c).0 lock lease
        (get-expire_leases w tick e c u ∙ rw (h) (rw (v) refl)) n
