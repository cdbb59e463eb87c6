-- ===== src/Autonomy/Fsm/Silence.antt =====
-- node/runtime.rs: the GCS step of a tick in which the GCS has been silent for too long, and the
-- mothership step before it.
use drone_swarm_lab.Base.{
  ℕ, String, true, false, ◌≡◌, refl, sym, ap, ◌∙◌, Option, none, some, List, ◌⊎◌, inl, inr, ◌≤◌,
  ◌<◌, ltb→lt, le→leb, Bool-cases, find, arith,
}
use drone_swarm_lab.Mission.{
  AgentMissionState, idle, waiting_for_mission, executing_segment, waiting_for_segment,
  waiting_for_neighbor_reconnect, continuing_under_lease, replanning, gcs_lost, aborting, completed,
  failed,
}
use drone_swarm_lab.Autonomy.{
  AgentNode, AutonomyOutput, ActiveLeaseRecord, is_autonomous, is_valid_at_tick, sent_heartbeat,
  gcs_timeout, ticks_since, track_mothership,
}
use drone_swarm_lab.Autonomy.Fsm.{
  track_gcs, no_output, hear_gcs, miss_gcs, lose_gcs, remembered, still_valid,
}
use drone_swarm_lab.Autonomy.Fsm.Gcs.{miss-lose, heard, find-holds}

valid_lease :
    (now : ℕ) (l : ActiveLeaseRecord) → is_valid_at_tick now l ≡ true → now < l.expiry_tick
unfolding is_valid_at_tick
valid_lease now l h = ltb→lt now l.expiry_tick h

still_valid_lem :
    (now : ℕ) (o : Option ℕ) → still_valid now o ≡ true → (e : ℕ) × (o ≡ some e) × (now < e)
still_valid_lem now none h = ground (arith, h)
still_valid_lem now (some e) h = (e, refl, ltb→lt now e h)

module _ {T : Type 0} where
  -- The agent is autonomous: it acts under a lease that is valid now, or it holds the GCS lost.
  abbrev pub IsGuarded : ℕ → AgentNode T → Type 0
  IsGuarded now n =
      ((lease_id : String) × (t : T) × (expiry : ℕ) × ((n.mission_state
            ≡ continuing_under_lease lease_id t)
          × ((n.continuing_lease_expiry_tick ≡ some expiry) × (now < expiry))))
      ⊎ ((since : ℕ) × (policy : String) × (n.mission_state ≡ gcs_lost since policy))

  lose-IsGuarded :
      (at_millis : ℕ → T) (now : ℕ) (l : Option ActiveLeaseRecord) (n : AgentNode T)
      (out : AutonomyOutput T)
      → l ≡ find (is_valid_at_tick now) n.active_leases
      → IsGuarded now (lose_gcs at_millis now l n out).0
  unfolding lose_gcs
  lose-IsGuarded at_millis now none n out h = inr (_, _, refl)
  lose-IsGuarded at_millis now (some l) n out h = inl (
    _,
    _,
    l.expiry_tick,
    (refl, (refl, valid_lease now l (find-holds (is_valid_at_tick now) n.active_leases l (sym h)))),
  )

  miss-IsGuarded :
      (at_millis : ℕ → T) (now : ℕ) (m : AgentMissionState T) (n : AgentNode T)
      (out : AutonomyOutput T)
      → n.mission_state ≡ m
      → IsGuarded now (miss_gcs at_millis now m n out).0
  unfolding miss_gcs
  miss-IsGuarded at_millis now (gcs_lost a b) n out h = inr (a, b, h)
  miss-IsGuarded at_millis now (continuing_under_lease l t) n out h =
      elim (Bool-cases (still_valid now n.continuing_lease_expiry_tick)) [
        | inl v ↦ rw (v) (
            let (e, k, lt) = still_valid_lem now n.continuing_lease_expiry_tick v in
            inl (l, t, e, (h, (k, lt))))
        | inr v ↦ rw (v) (inr (_, _, refl))
      ]
  miss-IsGuarded at_millis now idle n out h = lose-IsGuarded at_millis now _ n out refl
  miss-IsGuarded at_millis now waiting_for_mission n out h =
      lose-IsGuarded at_millis now _ n out refl
  miss-IsGuarded at_millis now (executing_segment a b c) n out h =
      lose-IsGuarded at_millis now _ n out refl
  miss-IsGuarded at_millis now (waiting_for_segment a b c) n out h =
      lose-IsGuarded at_millis now _ n out refl
  miss-IsGuarded at_millis now (waiting_for_neighbor_reconnect a b c) n out h =
      lose-IsGuarded at_millis now _ n out refl
  miss-IsGuarded at_millis now (replanning r) n out h = lose-IsGuarded at_millis now _ n out refl
  miss-IsGuarded at_millis now (aborting a) n out h = lose-IsGuarded at_millis now _ n out refl
  miss-IsGuarded at_millis now (completed a b) n out h = lose-IsGuarded at_millis now _ n out refl
  miss-IsGuarded at_millis now (failed a) n out h = lose-IsGuarded at_millis now _ n out refl

  missed :
      (at_millis : ℕ → T) (now : ℕ) (senders : List String) (id : String) (n : AgentNode T)
      (out : AutonomyOutput T)
      → n.gcs_id ≡ some id
      → sent_heartbeat id senders ≡ false
      → gcs_timeout n.autonomy ≤ ticks_since now n.last_gcs_heartbeat_tick
      → track_gcs at_millis now senders n out ≡ miss_gcs at_millis now n.mission_state n out
  unfolding track_gcs
  missed at_millis now senders id n out g h le =
      ground (
        arith,
        g,
        h,
        le→leb (gcs_timeout n.autonomy) (ticks_since now n.last_gcs_heartbeat_tick) le,
      )

  -- After the GCS step of a tick, if the GCS has been silent for its timeout, the agent has declared
  -- it lost, or goes on under a lease that has not expired at that tick. The steps of the tick that
  -- come later may still change the mission state.
  pub silent_gcs-IsGuarded :
      (at_millis : ℕ → T) (now : ℕ) (senders : List String) (id : String) (n : AgentNode T)
      (out : AutonomyOutput T)
      → n.gcs_id ≡ some id
      → sent_heartbeat id senders ≡ false
      → gcs_timeout n.autonomy ≤ ticks_since now n.last_gcs_heartbeat_tick
      → IsGuarded now (track_gcs at_millis now senders n out).0
  silent_gcs-IsGuarded at_millis now senders id n out g h le =
      rw (missed at_millis now senders id n out g h le)
        (miss-IsGuarded at_millis now n.mission_state n out refl)

  -- A mothership that is declared lost leaves an agent that is aborting, all else as it was.
  mothership_lost_lem :
      (now : ℕ) (senders : List String) (n : AgentNode T)
      → (track_mothership now senders n).1 ≡ true
      → (track_mothership now senders n).0 ≡ record n { mission_state = aborting "mothership_lost" }
  unfolding track_mothership
  mothership_lost_lem now senders n h = ground (arith, h)

  lose-pre :
      (at_millis : ℕ → T) (now : ℕ) (l : Option ActiveLeaseRecord) (n : AgentNode T)
      (out : AutonomyOutput T) (s : AgentMissionState T)
      → n.pre_gcs_loss_mission_state ≡ some s
      → ((lose_gcs at_millis now l n out).0.pre_gcs_loss_mission_state ≡ some s)
        × ((is_autonomous (lose_gcs at_millis now l n out).0.mission_state ≡ true)
            × ((lose_gcs at_millis now l n out).0.gcs_id ≡ n.gcs_id)
            × ((lose_gcs at_millis now l n out).0.mothership_id ≡ n.mothership_id))
  unfolding lose_gcs remembered
  lose-pre at_millis now none n out s h = (rw (h) refl, (refl, refl, refl))
  lose-pre at_millis now (some l) n out s h = (rw (h) refl, (refl, refl, refl))

  hear-pre :
      (at_millis : ℕ → T) (now : ℕ) (n : AgentNode T) (out : AutonomyOutput T)
      (s : AgentMissionState T)
      → is_autonomous n.mission_state ≡ true
      → n.pre_gcs_loss_mission_state ≡ some s
      → (hear_gcs at_millis now n out).0.mission_state ≡ s
  unfolding hear_gcs
  hear-pre at_millis now n out s a h = rw (a) (rw (h) refl)

  -- A mothership that is heard is noted, and no more.
  mothership_heard :
      (now : ℕ) (senders : List String) (mothership : String) (n : AgentNode T)
      → n.mothership_id ≡ some mothership
      → sent_heartbeat mothership senders ≡ true
      → (track_mothership now senders n).0 ≡ record n { last_mothership_heartbeat_tick = some now }
  unfolding track_mothership
  mothership_heard now senders mothership n m h = ground (arith, m, h)

  -- The mothership step of a tick and the GCS step after it.
  abbrev pub parent_steps : (ℕ → T) → ℕ → List String → AgentNode T → AgentNode T
  parent_steps at_millis now senders n =
      (track_gcs at_millis now senders (track_mothership now senders n).0 no_output).0

  -- An abort ordered in an agent that remembers a mission: a silent GCS and its return with the
  -- mothership undo it.
  abort-undone :
      (at_millis : ℕ → T) (now now' : ℕ) (senders senders' : List String)
      (id mothership reason : String) (n : AgentNode T) (s : AgentMissionState T)
      → n.mission_state ≡ aborting reason
      → n.gcs_id ≡ some id
      → n.mothership_id ≡ some mothership
      → n.pre_gcs_loss_mission_state ≡ some s
      → sent_heartbeat id senders ≡ false
      → gcs_timeout n.autonomy ≤ ticks_since now n.last_gcs_heartbeat_tick
      → sent_heartbeat id senders' ≡ true
      → sent_heartbeat mothership senders' ≡ true
      → (parent_steps at_millis now' senders'
          (track_gcs at_millis now senders n no_output).0).mission_state
        ≡ s
  abort-undone at_millis now now' senders senders' id mothership reason n s m g mo p h le h' mh =
      let o = find (is_valid_at_tick now) n.active_leases in
      let lost = (lose_gcs at_millis now o n no_output).0 in
      let noted : AgentNode T = record lost { last_mothership_heartbeat_tick = some now' } in
      let (p', (a', g', mo')) = lose-pre at_millis now o n no_output s p in
      ap (λ r. (parent_steps at_millis now' senders' r.0).mission_state)
        (missed at_millis now senders id n no_output g h le
          ∙ miss-lose at_millis now n.mission_state n no_output (ap is_autonomous m))
      ∙ ap (λ r. (track_gcs at_millis now' senders' r no_output).0.mission_state)
          (mothership_heard now' senders' mothership lost (mo' ∙ mo) mh)
      ∙ ap (λ r. r.0.mission_state) (heard at_millis now' senders' id noted no_output (g' ∙ g) h')
      ∙ hear-pre at_millis now' noted no_output s a' p'

  -- If an agent that remembers a mission state declares its mothership lost in a tick in which the
  -- GCS has been silent for its timeout, then it is aborting after the mothership step of that tick;
  -- but if the GCS and the mothership are both heard in the next tick, then the mothership and GCS
  -- steps of the two ticks leave it in the remembered mission state.
  pub mothership_abort_forgotten :
      (at_millis : ℕ → T) (now now' : ℕ) (senders senders' : List String) (id mothership : String)
      (n : AgentNode T) (s : AgentMissionState T)
      → n.gcs_id ≡ some id
      → n.mothership_id ≡ some mothership
      → n.pre_gcs_loss_mission_state ≡ some s
      → (track_mothership now senders n).1 ≡ true
      → sent_heartbeat id senders ≡ false
      → gcs_timeout n.autonomy ≤ ticks_since now n.last_gcs_heartbeat_tick
      → sent_heartbeat id senders' ≡ true
      → sent_heartbeat mothership senders' ≡ true
      → ((track_mothership now senders n).0.mission_state ≡ aborting "mothership_lost")
        × ((parent_steps at_millis now' senders'
              (parent_steps at_millis now senders n)).mission_state
            ≡ s)
  mothership_abort_forgotten at_millis now now' senders senders' id mothership n s g mo p lost h le
        h' mh =
      let aborted : AgentNode T = record n { mission_state = aborting "mothership_lost" } in
      let abort = mothership_lost_lem now senders n lost in
      (
        ap (λ m. m.mission_state) abort,
        ap
              (λ m.
                (parent_steps at_millis now' senders'
                  (track_gcs at_millis now senders m no_output).0).mission_state)
              abort
            ∙ abort-undone at_millis now now' senders senders' id mothership "mothership_lost"
                aborted s refl g mo p h le h' mh,
      )
