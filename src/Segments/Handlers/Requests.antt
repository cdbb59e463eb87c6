-- ===== src/Segments/Handlers/Requests.antt =====
-- segment_coordinator.rs: the answers to requests for a segment.
use drone_swarm_lab.Base.{
  ℕ, String, true, false, ◌≡◌, refl, sym, ap, ◌∙◌, none, some, List, [], ◌∷◌, ◌==◌, eq_refl, eq_iff,
  if◌then◌else◌, Bool-cases, Option-cases, ◌⊎◌, inl, inr, Result, ok, err, arith,
}
use drone_swarm_lab.HashMap
use drone_swarm_lab.HashMap.{HashMap}
use drone_swarm_lab.HashMap.Laws.{get-insert}
use drone_swarm_lab.Mission.{Lease}
use drone_swarm_lab.Protocol.{SegmentDenyReason}
use drone_swarm_lab.Segments.{
  World, UrbanSegmentLock, SegmentCoordinator, SegmentCoordinatorError, CoordinatorEvent,
  grant_sent, deny_sent, lease_for, deny_reason,
}
use drone_swarm_lab.Segments.Handlers.{
  push_sent, send_message, send_grant, send_deny, handle_reserve,
}
use drone_swarm_lab.Segments.Handlers.Safety.{push-coordinator, lock_for}

push-event :
    {T S E : Type 0} (event : CoordinatorEvent) (events : List CoordinatorEvent)
    (p : SegmentCoordinator T S × Result (SegmentCoordinatorError E) (Unit {0}))
    → (push_sent event p).1 ≡ ok events
    → events ≡ event ∷ []
unfolding push_sent
push-event event events (c, ok u) h = ground (arith, h)
push-event event events (c, err e) h = ground (arith, h)

-- The agent holds the segment.
abbrev pub IsHolder : {T S : Type 0} → String → String → SegmentCoordinator T S → Type 0
IsHolder {T = T} edge agent c =
    (lock : UrbanSegmentLock) × (lease : Lease T) × ((HashMap.get edge c.active_locks
        ≡ some (lock, lease))
      × (lock.holder_agent_id ≡ agent))

get-inserted :
    {V : Type 0} (k : String) (v : V) (m : HashMap V)
    → HashMap.get k (HashMap.insert k v m) ≡ some v
get-inserted k v m =
    get-insert k k v m ∙ ap (λ b. if b then some v else HashMap.get k m) (eq_refl k)

module _ {F T Plan Outcome S E : Type 0} where
  -- The three branches.
  reserve-free :
      (w : World F T Plan Outcome S E) (tick i : ℕ) (edge requester : String)
      (c : SegmentCoordinator T S)
      → HashMap.get edge c.active_locks ≡ none
      → handle_reserve w tick edge i requester c
        ≡ push_sent (grant_sent edge requester) (
            send_grant w tick edge requester (lease_for w tick edge requester c) (record c {
              active_locks =
                  HashMap.insert edge
                    (lock_for tick i edge requester, lease_for w tick edge requester c)
                    c.active_locks;
            }))
  unfolding handle_reserve
  reserve-free w tick i edge requester c f = rw (handle_reserve, f) refl

  reserve-again :
      (w : World F T Plan Outcome S E) (tick i : ℕ) (edge requester : String)
      (c : SegmentCoordinator T S) (lock : UrbanSegmentLock) (lease : Lease T)
      → HashMap.get edge c.active_locks ≡ some (lock, lease)
      → (lock.holder_agent_id == requester) ≡ true
      → handle_reserve w tick edge i requester c
        ≡ push_sent (grant_sent edge requester) (send_grant w tick edge requester lease c)
  unfolding handle_reserve
  reserve-again w tick i edge requester c lock lease f b = rw (handle_reserve, f, b) refl

  reserve-held :
      (w : World F T Plan Outcome S E) (tick i : ℕ) (edge requester : String)
      (c : SegmentCoordinator T S) (lock : UrbanSegmentLock) (lease : Lease T)
      → HashMap.get edge c.active_locks ≡ some (lock, lease)
      → (lock.holder_agent_id == requester) ≡ false
      → handle_reserve w tick edge i requester c
        ≡ push_sent (deny_sent edge requester (deny_reason requester lock.holder_agent_id c)) (
            send_deny w tick edge requester lock.holder_agent_id
              (deny_reason requester lock.holder_agent_id c)
              c)
  unfolding handle_reserve
  reserve-held w tick i edge requester c lock lease f b = rw (handle_reserve, f, b) refl

  -- Sending leaves the locks as they are.
  grant-locks :
      (w : World F T Plan Outcome S E) (tick : ℕ) (edge to : String) (lease : Lease T)
      (c : SegmentCoordinator T S) (event : CoordinatorEvent)
      → (push_sent event (send_grant w tick edge to lease c)).0.active_locks ≡ c.active_locks
  unfolding send_grant send_message
  grant-locks w tick edge to lease c event =
      ap (λ d. d.active_locks) (push-coordinator event (send_grant w tick edge to lease c))

  deny-locks :
      (w : World F T Plan Outcome S E) (tick : ℕ) (edge to holder : String)
      (reason : SegmentDenyReason) (c : SegmentCoordinator T S) (event : CoordinatorEvent)
      → (push_sent event (send_deny w tick edge to holder reason c)).0.active_locks ≡ c.active_locks
  unfolding send_deny send_message
  deny-locks w tick edge to holder reason c event =
      ap (λ d. d.active_locks) (push-coordinator event (send_deny w tick edge to holder reason c))

  -- A request that is answered is either granted, and then the requester holds the segment, or
  -- denied, and then another agent holds it and no lock has changed.
  pub reserve_outcomes :
      (w : World F T Plan Outcome S E) (tick i : ℕ) (edge requester : String)
      (c : SegmentCoordinator T S) (events : List CoordinatorEvent)
      → (handle_reserve w tick edge i requester c).1 ≡ ok events
      → ((events ≡ grant_sent edge requester ∷ [])
          × IsHolder edge requester (handle_reserve w tick edge i requester c).0)
        ⊎ ((holder : String) × IsHolder edge holder c
            × ((holder == requester) ≡ false)
            × (events ≡ deny_sent edge requester (deny_reason requester holder c) ∷ [])
            × ((handle_reserve w tick edge i requester c).0.active_locks ≡ c.active_locks))
  reserve_outcomes w tick i edge requester c events h =
      elim (Option-cases (HashMap.get edge c.active_locks)) [
        | inl f ↦
            let e = reserve-free w tick i edge requester c f in
            inl (
              push-event _ events _ (sym (ap (λ p. p.1) e) ∙ h),
              (
                lock_for tick i edge requester,
                lease_for w tick edge requester c,
                (
                  ap (λ p. HashMap.get edge p.0.active_locks) e
                      ∙ ap (HashMap.get edge) (grant-locks w tick edge requester _ _ _)
                      ∙ get-inserted edge _ c.active_locks,
                  refl,
                ),
              ),
            )
        | inr ((lock, lease), f) ↦ elim (Bool-cases (lock.holder_agent_id == requester)) [
          | inl b ↦
              let e = reserve-again w tick i edge requester c lock lease f b in
              inl (
                push-event _ events _ (sym (ap (λ p. p.1) e) ∙ h),
                (
                  lock,
                  lease,
                  (
                    ap (λ p. HashMap.get edge p.0.active_locks) e
                        ∙ ap (HashMap.get edge) (grant-locks w tick edge requester lease c _)
                        ∙ f,
                    (eq_iff lock.holder_agent_id requester).0 b,
                  ),
                ),
              )
          | inr b ↦
              let e = reserve-held w tick i edge requester c lock lease f b in
              inr (
                lock.holder_agent_id,
                (lock, lease, (f, refl)),
                b,
                push-event _ events _ (sym (ap (λ p. p.1) e) ∙ h),
                ap (λ p. p.0.active_locks) e
                    ∙ deny-locks w tick edge requester lock.holder_agent_id _ c _,
              )
        ]
      ]
