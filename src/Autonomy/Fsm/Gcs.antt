-- ===== src/Autonomy/Fsm/Gcs.antt =====
-- node/runtime.rs: the loss and the return of the GCS link.
use drone_swarm_lab.Base.{
  ℕ, String, Bool, true, false, ◌≡◌, refl, ap, ◌∙◌, Option, none, some, List, [], ◌∷◌, ◌⊎◌, inl,
  inr, Bool-cases, find, arith,
}
use drone_swarm_lab.Mission.{
  AgentMissionState, idle, waiting_for_mission, executing_segment, waiting_for_segment,
  waiting_for_neighbor_reconnect, continuing_under_lease, replanning, gcs_lost, aborting, completed,
  failed,
}
use drone_swarm_lab.Autonomy.{
  AgentNode, AutonomyOutput, ActiveLeaseRecord, is_autonomous, is_valid_at_tick, sent_heartbeat,
}
use drone_swarm_lab.Autonomy.Fsm.{
  track_gcs, hear_gcs, miss_gcs, lose_gcs, remembered, still_valid, no_output,
}

pub find-holds {ℓ} :
    {A : Type ℓ} (p : A → Bool) (xs : List A) (x : A) → find p xs ≡ some x → p x ≡ true
unfolding find
find-holds p [] x h = ground arith
find-holds p (y ∷ xs) x h = ground (arith, find-holds p xs x)

module _ {T : Type 0} where
  -- A state that is not autonomous takes the last branch.
  pub miss-lose :
      (at_millis : ℕ → T) (now : ℕ) (m : AgentMissionState T) (n : AgentNode T)
      (out : AutonomyOutput T)
      → is_autonomous m ≡ false
      → miss_gcs at_millis now m n out
        ≡ lose_gcs at_millis now (find (is_valid_at_tick now) n.active_leases) n out
  unfolding miss_gcs
  miss-lose at_millis now idle n out h = refl
  miss-lose at_millis now waiting_for_mission n out h = refl
  miss-lose at_millis now (executing_segment a b c) n out h = refl
  miss-lose at_millis now (waiting_for_segment a b c) n out h = refl
  miss-lose at_millis now (waiting_for_neighbor_reconnect a b c) n out h = refl
  miss-lose at_millis now (continuing_under_lease l t) n out h = ground (arith, h)
  miss-lose at_millis now (replanning r) n out h = refl
  miss-lose at_millis now (gcs_lost a b) n out h = ground (arith, h)
  miss-lose at_millis now (aborting a) n out h = refl
  miss-lose at_millis now (completed a b) n out h = refl
  miss-lose at_millis now (failed a) n out h = refl

  -- Either the mission goes on as `s`, or the agent is autonomous and remembers `s`.
  abbrev pub Remembers : AgentMissionState T → AgentNode T → Type 0
  Remembers s n =
      ((n.mission_state ≡ s)
        × (is_autonomous n.mission_state ≡ false)
        × (n.pre_gcs_loss_mission_state ≡ none))
      ⊎ ((is_autonomous n.mission_state ≡ true) × (n.pre_gcs_loss_mission_state ≡ some s))

  pub remembered_lem :
      (n : AgentNode T) (s : AgentMissionState T)
      → n.mission_state ≡ s
      → n.pre_gcs_loss_mission_state ≡ none
      → remembered n ≡ some s
  unfolding remembered
  remembered_lem n s h k = rw (k) (ap some h)

  lose-Remembers :
      (at_millis : ℕ → T) (now : ℕ) (l : Option ActiveLeaseRecord) (s : AgentMissionState T)
      (n : AgentNode T) (out : AutonomyOutput T)
      → n.mission_state ≡ s
      → n.pre_gcs_loss_mission_state ≡ none
      → Remembers s (lose_gcs at_millis now l n out).0
  unfolding lose_gcs
  lose-Remembers at_millis now none s n out h k = inr (refl, remembered_lem n s h k)
  lose-Remembers at_millis now (some l) s n out h k = inr (refl, remembered_lem n s h k)

  -- The last branch is taken from a state `m` that is not autonomous.
  miss-Remembers :
      (at_millis : ℕ → T) (now : ℕ) (m s : AgentMissionState T) (n : AgentNode T)
      (out : AutonomyOutput T)
      → n.mission_state ≡ m
      → is_autonomous m ≡ true
      → n.pre_gcs_loss_mission_state ≡ some s
      → Remembers s (miss_gcs at_millis now m n out).0
  unfolding miss_gcs
  miss-Remembers at_millis now (gcs_lost a b) s n out h a' k = inr (rw (h) refl, k)
  miss-Remembers at_millis now (continuing_under_lease l t) s n out h a' k =
      elim (Bool-cases (still_valid now n.continuing_lease_expiry_tick)) [
        | inl v ↦ rw (v) (inr (rw (h) refl, k))
        | inr v ↦ rw (v) (inr (refl, k))
      ]
  miss-Remembers at_millis now idle s n out h a' k = ground (arith, a')
  miss-Remembers at_millis now waiting_for_mission s n out h a' k = ground (arith, a')
  miss-Remembers at_millis now (executing_segment a b c) s n out h a' k = ground (arith, a')
  miss-Remembers at_millis now (waiting_for_segment a b c) s n out h a' k = ground (arith, a')
  miss-Remembers at_millis now (waiting_for_neighbor_reconnect a b c) s n out h a' k =
      ground (arith, a')
  miss-Remembers at_millis now (replanning r) s n out h a' k = ground (arith, a')
  miss-Remembers at_millis now (aborting a) s n out h a' k = ground (arith, a')
  miss-Remembers at_millis now (completed a b) s n out h a' k = ground (arith, a')
  miss-Remembers at_millis now (failed a) s n out h a' k = ground (arith, a')

  hear-restores :
      (at_millis : ℕ → T) (now : ℕ) (s : AgentMissionState T) (n : AgentNode T)
      (out : AutonomyOutput T)
      → Remembers s n
      → ((hear_gcs at_millis now n out).0.mission_state ≡ s)
        × ((hear_gcs at_millis now n out).0.pre_gcs_loss_mission_state ≡ none)
  unfolding hear_gcs
  hear-restores at_millis now s n out (inl (h, a, k)) = rw (a) (h, k)
  hear-restores at_millis now s n out (inr (a, k)) = rw (a) (rw (k) refl, refl)

  -- What a step does: nothing, or the branch of a GCS that is heard, or of one that is missed.
  track-cases :
      (at_millis : ℕ → T) (now : ℕ) (senders : List String) (n : AgentNode T)
      (out : AutonomyOutput T)
      → (track_gcs at_millis now senders n out ≡ (n, out))
        ⊎ ((track_gcs at_millis now senders n out ≡ hear_gcs at_millis now n out)
            ⊎ (track_gcs at_millis now senders n out
                ≡ miss_gcs at_millis now n.mission_state n out))
  unfolding track_gcs
  track-cases at_millis now senders n out = ground arith

  -- Any step keeps the memory of a mission that is not autonomous.
  track-Remembers :
      (at_millis : ℕ → T) (now : ℕ) (senders : List String) (s : AgentMissionState T)
      (n : AgentNode T) (out : AutonomyOutput T)
      → is_autonomous s ≡ false
      → Remembers s n
      → Remembers s (track_gcs at_millis now senders n out).0
  track-Remembers at_millis now senders s n out a r =
      elim (track-cases at_millis now senders n out) [
        | inl e ↦ rw (e) r
        | inr (inl e) ↦ rw (e) (
            inl (
              (hear-restores at_millis now s n out r).0,
              ap is_autonomous (hear-restores at_millis now s n out r).0 ∙ a,
              (hear-restores at_millis now s n out r).1,
            ))
        | inr (inr e) ↦ elim r [
          | inl (h, a', k) ↦
              rw (e, miss-lose at_millis now n.mission_state n out a')
                (lose-Remembers at_millis now (find (is_valid_at_tick now) n.active_leases) s n out
                  h k)
          | inr (a', k) ↦ rw (e) (miss-Remembers at_millis now n.mission_state s n out refl a' k)
        ]
      ]

  hear-gcs_id :
      (at_millis : ℕ → T) (now : ℕ) (n : AgentNode T) (out : AutonomyOutput T)
      → (hear_gcs at_millis now n out).0.gcs_id ≡ n.gcs_id
  unfolding hear_gcs
  hear-gcs_id at_millis now n out = ground arith

  miss-gcs_id :
      (at_millis : ℕ → T) (now : ℕ) (m : AgentMissionState T) (n : AgentNode T)
      (out : AutonomyOutput T)
      → (miss_gcs at_millis now m n out).0.gcs_id ≡ n.gcs_id
  unfolding miss_gcs lose_gcs
  miss-gcs_id at_millis now m n out = ground arith

  track-gcs_id :
      (at_millis : ℕ → T) (now : ℕ) (senders : List String) (n : AgentNode T)
      (out : AutonomyOutput T)
      → (track_gcs at_millis now senders n out).0.gcs_id ≡ n.gcs_id
  track-gcs_id at_millis now senders n out = elim (track-cases at_millis now senders n out) [
    | inl e ↦ rw (e) refl
    | inr (inl e) ↦ rw (e) (hear-gcs_id at_millis now n out)
    | inr (inr e) ↦ rw (e) (miss-gcs_id at_millis now n.mission_state n out)
  ]

  -- The GCS steps of several ticks, each with its heartbeats.
  unfoldable pub run_gcs : (ℕ → T) → List (ℕ × List String) → AgentNode T → AgentNode T
  run_gcs at_millis [] n = n
  run_gcs at_millis ((now, senders) ∷ ticks) n =
      run_gcs at_millis ticks (track_gcs at_millis now senders n no_output).0

  run-Remembers :
      (at_millis : ℕ → T) (ticks : List (ℕ × List String)) (s : AgentMissionState T)
      (n : AgentNode T)
      → is_autonomous s ≡ false
      → Remembers s n
      → Remembers s (run_gcs at_millis ticks n) × ((run_gcs at_millis ticks n).gcs_id ≡ n.gcs_id)
  unfolding run_gcs
  run-Remembers at_millis [] s n a r = (r, refl)
  run-Remembers at_millis ((now, senders) ∷ ticks) s n a r =
      let n' = (track_gcs at_millis now senders n no_output).0 in
      let rest =
        run-Remembers at_millis ticks s n' a
          (track-Remembers at_millis now senders s n no_output a r) in
      (rest.0, rest.1 ∙ track-gcs_id at_millis now senders n no_output)

  pub heard :
      (at_millis : ℕ → T) (now : ℕ) (senders : List String) (id : String) (n : AgentNode T)
      (out : AutonomyOutput T)
      → n.gcs_id ≡ some id
      → sent_heartbeat id senders ≡ true
      → track_gcs at_millis now senders n out ≡ hear_gcs at_millis now n out
  unfolding track_gcs
  heard at_millis now senders id n out g h = ground (arith, g, h)

  -- Start from an agent that is not autonomous and remembers no mission state, and run the GCS steps
  -- of any ticks. However long the GCS was silent in them and whatever leases ran out: a further step
  -- that hears it puts the agent back into the mission state of the start, and it remembers none.
  pub gcs_return_restores :
      (at_millis : ℕ → T) (ticks : List (ℕ × List String)) (now : ℕ) (senders : List String)
      (id : String) (n : AgentNode T) (out : AutonomyOutput T)
      → n.gcs_id ≡ some id
      → is_autonomous n.mission_state ≡ false
      → n.pre_gcs_loss_mission_state ≡ none
      → sent_heartbeat id senders ≡ true
      → ((track_gcs at_millis now senders (run_gcs at_millis ticks n) out).0.mission_state
          ≡ n.mission_state)
        × ((track_gcs at_millis now senders
              (run_gcs at_millis ticks n)
              out).0.pre_gcs_loss_mission_state
            ≡ none)
  gcs_return_restores at_millis ticks now senders id n out g a k h =
      let (r, i) = run-Remembers at_millis ticks n.mission_state n a (inl (refl, a, k)) in
      rw (heard at_millis now senders id (run_gcs at_millis ticks n) out (i ∙ g) h)
        (hear-restores at_millis now n.mission_state (run_gcs at_millis ticks n) out r)
