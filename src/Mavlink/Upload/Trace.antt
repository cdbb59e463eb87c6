-- ===== src/Mavlink/Upload/Trace.antt =====
-- What a successful upload has sent.
use drone_swarm_lab.Base.{
  ℕ, zero, suc, ◌+◌, ◌≤◌, ◌≡◌, refl, sym, ◌∙◌, ap, ◌⊎◌, inl, inr, true, Bool-cases, Option, none,
  some, List, [], ◌∷◌, ◌++◌, length, Result, ok, err, arith, ltb, if◌then◌else◌, append-nil,
}
use drone_swarm_lab.Mavlink.{
  MissionUploadOptions, MissionUploadReport, CommonMessage, MavlinkMissionError,
  MavlinkMissionEvent,
}
use drone_swarm_lab.Mavlink.CommonMessage.{mission_clear_all, mission_count}
use drone_swarm_lab.Mavlink.MavlinkMissionError.{
  mission_request_timeout, heartbeat_timeout, mission_ack_timeout,
}
use drone_swarm_lab.Mavlink.MavlinkMissionEvent.{
  heartbeat_seen, mission_clear_sent, mission_item_requested, mission_item_sent,
}
use drone_swarm_lab.Mavlink.Session.{
  Vehicle, Session, M, ◌>>=◌, lift, on_event, send_message, recv_matching,
}
use drone_swarm_lab.Mavlink.Session.Waits.{recv_matching-sent}
use drone_swarm_lab.Mavlink.Upload.{
  as_u16, is_heartbeat, requested_seq, ack_result, wait_for_heartbeat, wait_for_mission_request,
  wait_for_mission_ack, send_item, send_items, clear_mission, finish_upload, upload_attempt,
  attempts, upload, is_retryable,
}

-- The messages of a whole upload: the clearing if asked for, the number of items, and the items.
abbrev pub transaction :
    {F G Ack : Type 0}
    → MissionUploadOptions F
    → ℕ
    → List (CommonMessage G Ack)
    → List (CommonMessage G Ack)
transaction options count msgs =
    (if options.clear_existing
      then mission_clear_all options.target_system options.target_component ∷ []
      else [])
    ++ mission_count count options.target_system options.target_component ∷ msgs

module _ {G Ack : Type 0} where
  -- Each success of the step sends messages as `P` says of them and of the step's value.
  pub record Sends {A : Type 0} (m : M G Ack A) (P : A → List (CommonMessage G Ack) → Type 0)
      : Type 0 where
    pub trace :
        (s s' : Session G Ack) (a : A)
        → m s ≡ some (ok a, s')
        → (msgs : List (CommonMessage G Ack)) × P a msgs × (s'.sent ≡ s.sent ++ msgs)

  -- A success sends nothing.
  record Silent {A : Type 0} (m : M G Ack A) : Type 0 where
    kept : (s s' : Session G Ack) (a : A) → m s ≡ some (ok a, s') → s'.sent ≡ s.sent

  bind-ok-of :
      {A B : Type 0} (r : Option (Result (MavlinkMissionError Ack) A × Session G Ack))
      (m : M G Ack A) (f : A → M G Ack B) (s s' : Session G Ack) (b : B)
      → m s ≡ r
      → (m >>= f) s ≡ some (ok b, s')
      → (a : A) × (t : Session G Ack) × (m s ≡ some (ok a, t)) × (f a t ≡ some (ok b, s'))
  unfolding ◌>>=◌
  bind-ok-of none m f s s' b e h = absurd (ground arith)
  bind-ok-of (some (err x, t)) m f s s' b e h = absurd (ground arith)
  bind-ok-of (some (ok a, t)) m f s s' b e h = (a, t, e, rw (◌>>=◌, e) at h)

  -- The parts of a step that succeeds.
  pub bind-ok :
      {A B : Type 0} (m : M G Ack A) (f : A → M G Ack B) (s s' : Session G Ack) (b : B)
      → (m >>= f) s ≡ some (ok b, s')
      → (a : A) × (t : Session G Ack) × (m s ≡ some (ok a, t)) × (f a t ≡ some (ok b, s'))
  bind-ok m f s s' b h = bind-ok-of (m s) m f s s' b refl h

  append_assoc : (xs ys zs : List (CommonMessage G Ack)) → (xs ++ ys) ++ zs ≡ xs ++ (ys ++ zs)
  append_assoc [] ys zs = refl
  append_assoc (x ∷ xs) ys zs = ap (λ l. x ∷ l) (append_assoc xs ys zs)

  -- The messages of two steps follow each other.
  bind-Sends :
      {A B : Type 0} {m : M G Ack A} {f : A → M G Ack B}
      {P : A → List (CommonMessage G Ack) → Type 0} {Q : B → List (CommonMessage G Ack) → Type 0}
      → Sends m P
      → ((a : A) (before : List (CommonMessage G Ack))
          → P a before
          → Sends (f a) (λ b msgs. Q b (before ++ msgs)))
      → Sends (m >>= f) Q
  bind-Sends {A} {B} {m} {f} first next = record {
    trace = λ s s' b h.
        let (a, t, e, e') = bind-ok m f s s' b h in
        let (before, p, sent) = first.trace s t a e in
        let (msgs, q, sent') = (next a before p).trace t s' b e' in
        (before ++ msgs, q, sent' ∙ ap (λ l. l ++ msgs) sent ∙ append_assoc s.sent before msgs);
  }

  bind-Silent :
      {A B : Type 0} {m : M G Ack A} {f : A → M G Ack B}
      {Q : B → List (CommonMessage G Ack) → Type 0}
      → Silent m
      → ((a : A) → Sends (f a) Q)
      → Sends (m >>= f) Q
  bind-Silent {A} {B} {m} {f} first next = record {
    trace = λ s s' b h.
        let (a, t, e, e') = bind-ok m f s s' b h in
        let (msgs, q, sent') = (next a).trace t s' b e' in
        (msgs, q, sent' ∙ ap (λ l. l ++ msgs) (first.kept s t a e));
  }

  on_event-Silent : (event : MavlinkMissionEvent) → Silent (on_event event)
  unfolding on_event
  on_event-Silent event = record { kept = λ s s' a h. ground arith }

  lift-Sends :
      {A : Type 0} (r : Result (MavlinkMissionError Ack) A)
      → Sends (lift r) (λ a msgs. (r ≡ ok a) × (msgs ≡ []))
  unfolding lift
  lift-Sends (ok a') = record {
    trace = λ s s' a h. ([], (ground arith, refl), ground (arith, append-nil s.sent));
  }
  lift-Sends (err e) = record { trace = λ s s' a h. absurd (ground arith) }

  Sends-map :
      {A : Type 0} {m : M G Ack A} {P Q : A → List (CommonMessage G Ack) → Type 0}
      → ((a : A) (msgs : List (CommonMessage G Ack)) → P a msgs → Q a msgs)
      → Sends m P
      → Sends m Q
  Sends-map f p = record {
    trace = λ s s' a h. let (msgs, x, e) = p.trace s s' a h in (msgs, f a msgs x, e);
  }

  Silent-Sends :
      {A : Type 0} {m : M G Ack A} {Q : A → List (CommonMessage G Ack) → Type 0}
      → Silent m
      → ((a : A) → Q a [])
      → Sends m Q
  Silent-Sends p q = record {
    trace = λ s s' a h. ([], q a, p.kept s s' a h ∙ sym (append-nil s.sent));
  }

  Sends-Silent : {A : Type 0} {m : M G Ack A} → Sends m (λ _ msgs. msgs ≡ []) → Silent m
  Sends-Silent p = record {
    kept = λ s s' a h.
        let (msgs, e, sent) = p.trace s s' a h in
        sent ∙ ap (λ l. s.sent ++ l) e ∙ append-nil s.sent;
  }

  -- Reference: the messages of the items from the given index on.
  unfoldable pub encode_all :
      {A : Type 0}
      → (ℕ → A → Result (MavlinkMissionError Ack) (CommonMessage G Ack))
      → ℕ
      → List A
      → Result (MavlinkMissionError Ack) (List (CommonMessage G Ack))
  encode_all encode index [] = ok []
  encode_all encode index (item ∷ items) =
      let rest = encode_all encode (suc index) items in
      elim (encode index item) [
        | err e ↦ err e
        | ok msg ↦ elim rest [ err e ↦ err e | ok msgs ↦ ok (msg ∷ msgs) ]
      ]

  Outcome-cases :
      {A : Type 0} (r : Option (Result (MavlinkMissionError Ack) A × Session G Ack))
      → (r ≡ none)
        ⊎ (((a : A) × (t : Session G Ack) × (r ≡ some (ok a, t)))
            ⊎ ((e : MavlinkMissionError Ack) × (t : Session G Ack) × (r ≡ some (err e, t))))
  Outcome-cases none = inl refl
  Outcome-cases (some (ok a, t)) = inr (inl (a, t, refl))
  Outcome-cases (some (err e, t)) = inr (inr (e, t, refl))

  encode_all-cons :
      {A : Type 0} (encode : ℕ → A → Result (MavlinkMissionError Ack) (CommonMessage G Ack))
      (index : ℕ) (item : A) (items : List A) (msg : CommonMessage G Ack)
      (msgs : List (CommonMessage G Ack))
      → encode index item ≡ ok msg
      → encode_all encode (suc index) items ≡ ok msgs
      → encode_all encode index (item ∷ items) ≡ ok (msg ∷ msgs)
  unfolding encode_all
  encode_all-cons encode index item items msg msgs e h = rw (encode_all, e, h) refl

  module _ (vehicle : Vehicle G Ack) where
    send_message-Sends :
        (msg : CommonMessage G Ack) → Sends (send_message vehicle msg) (λ _ msgs. msgs ≡ msg ∷ [])
    unfolding send_message
    send_message-Sends msg = record { trace = λ s s' a h. (msg ∷ [], refl, ground arith) }

    recv_matching-Silent :
        {A : Type 0} (fuel timeout : ℕ) (predicate : CommonMessage G Ack → Option A)
        (timed_out : MavlinkMissionError Ack)
        → Silent (recv_matching vehicle fuel timeout predicate timed_out)
    recv_matching-Silent fuel timeout predicate timed_out = record {
      kept = λ s s' a h. recv_matching-sent vehicle predicate timed_out fuel timeout s s' (ok a) h;
    }

    wait_for_mission_request-Silent :
        (fuel seq timeout : ℕ) → Silent (wait_for_mission_request vehicle fuel seq timeout)
    unfolding wait_for_mission_request
    wait_for_mission_request-Silent fuel seq timeout = Sends-Silent (
        bind-Silent
          (recv_matching-Silent fuel timeout (requested_seq seq) (mission_request_timeout seq))
          (λ answer. Sends-map (λ _ _ p. p.1) (lift-Sends answer)))

    module _ {F A : Type 0} (fuel : ℕ)
        (encode : ℕ → A → Result (MavlinkMissionError Ack) (CommonMessage G Ack))
        (options : MissionUploadOptions F) where
      send_item-Sends :
          (seq : ℕ) (item : A)
          → Sends (send_item vehicle fuel encode options seq item) (λ _ msgs.
            (msg : CommonMessage G Ack) × (encode seq item ≡ ok msg) × (msgs ≡ msg ∷ []))
      unfolding send_item
      send_item-Sends seq item =
          bind-Silent (wait_for_mission_request-Silent fuel seq options.timeout) λ _.
            bind-Silent (on_event-Silent (mission_item_requested seq)) λ _.
              bind-Sends (lift-Sends (encode seq item)) λ msg none_yet p.
                bind-Sends (send_message-Sends msg) λ _ now q.
                  Silent-Sends (on_event-Silent (mission_item_sent seq))
                    λ _. (msg, p.0, rw (p.1, q) refl)

      send_items-Sends :
          (index : ℕ) (items : List A)
          → index + length items ≤ 65536
          → Sends
              (send_items vehicle fuel encode options index items)
              (λ _ msgs. encode_all encode index items ≡ ok msgs)
      unfolding send_items encode_all
      send_items-Sends index [] h = Sends-map (λ _ msgs p. rw p.1 refl) (lift-Sends (ok tt))
      send_items-Sends index (item ∷ items) h =
          let small : as_u16 index ≡ index = omega arith in
          bind-Sends (send_item-Sends (as_u16 index) item) λ _ msgs p.
            let (msg, e, one) = p in
            let e' : encode index item ≡ ok msg = rw small at e in
            Sends-map (λ _ more q. rw one (encode_all-cons encode index item items msg more e' q))
              (send_items-Sends (suc index) items (omega arith))

      clear_mission-Sends : Sends (clear_mission vehicle fuel encode options) (λ _ msgs. msgs ≡ (
          if options.clear_existing
          then mission_clear_all options.target_system options.target_component ∷ []
          else []))
      unfolding clear_mission
      clear_mission-Sends = elim (Bool-cases options.clear_existing) [
        | inl on ↦ rw on (
            bind-Sends
              (send_message-Sends
                (mission_clear_all options.target_system options.target_component))
              λ _ now q. Silent-Sends (on_event-Silent mission_clear_sent) (λ _. rw q refl))
        | inr off ↦ rw off (Sends-map (λ _ msgs p. p.1) (lift-Sends (ok tt)))
      ]

      finish_upload-ok :
          (count : ℕ) (ack : Ack) (report : MissionUploadReport Ack)
          → finish_upload vehicle fuel encode options count ack ≡ ok report
          → (report.uploaded_count ≡ count) × (vehicle.is_accepted report.ack ≡ true)
      unfolding finish_upload
      finish_upload-ok count ack report h = ground arith

      upload_attempt-Sends :
          (items : List A)
          → length items ≤ 65535
          → Sends (upload_attempt vehicle fuel encode options items) (λ report msgs.
            (item_msgs : List (CommonMessage G Ack)) × (encode_all encode 0 items ≡ ok item_msgs)
            × (msgs ≡ transaction options (length items) item_msgs)
            × (report.uploaded_count ≡ length items)
            × (vehicle.is_accepted report.ack ≡ true))
      unfolding upload_attempt wait_for_heartbeat wait_for_mission_ack
      upload_attempt-Sends items h =
          let small : as_u16 (length items) ≡ length items = omega arith in
          bind-Silent (recv_matching-Silent fuel options.timeout is_heartbeat heartbeat_timeout)
            λ _. bind-Silent (on_event-Silent heartbeat_seen) λ _.
              bind-Sends clear_mission-Sends λ _ cleared c.
                bind-Sends (send_message-Sends _) λ _ counted n.
                  bind-Silent (on_event-Silent _) λ _.
                    bind-Sends (send_items-Sends 0 items (omega arith)) λ _ item_msgs m.
                      bind-Silent
                        (recv_matching-Silent fuel options.timeout ack_result mission_ack_timeout)
                        λ ack. bind-Silent (on_event-Silent _) λ _.
                          Sends-map
                            (λ report rest p.
                              let (count, accepted) =
                                finish_upload-ok (length items) ack report p.0 in
                              (
                                item_msgs,
                                m,
                                rw (c, n, p.1, append-nil item_msgs, small) refl,
                                count,
                                accepted,
                              ))
                            (lift-Sends
                              (finish_upload vehicle fuel encode options (length items) ack))

      -- The attempt that succeeds.
      attempts-ok :
          (items : List A) (n : ℕ) (last : Option (MavlinkMissionError Ack)) (s s' : Session G Ack)
          (report : MissionUploadReport Ack)
          → attempts vehicle fuel encode options items n last s ≡ some (ok report, s')
          → (t : Session G Ack) × (upload_attempt vehicle fuel encode options items t
              ≡ some (ok report, s'))
      unfolding attempts
      attempts-ok items zero none s s' report h = absurd (ground arith)
      attempts-ok items zero (some e) s s' report h = absurd (ground arith)
      attempts-ok items (suc n) last s s' report h =
          elim (Outcome-cases (upload_attempt vehicle fuel encode options items s)) [
            | inl e ↦ absurd (cc (rw (attempts, e) at h))
            | inr (inl (r, t, e)) ↦
                let same : some (ok r, t) ≡ some (ok report, s') = rw (attempts, e) at h in
                (s, e ∙ same)
            | inr (inr (x, t, e)) ↦ elim (Bool-cases (is_retryable x)) [
              | inl again ↦ attempts-ok items n (some x) t s' report (rw (attempts, e, again) at h)
              | inr final ↦ absurd (cc (rw (attempts, e, final) at h))
            ]
          ]

      -- If an upload succeeds, then what it sent last is the whole transaction of one attempt: the
      -- clearing if asked for, the number of items, and all items in their order, each with its
      -- index. The report counts the items, and the vehicle accepted the mission.
      pub upload_sends_mission :
          (items : List A) (s s' : Session G Ack) (report : MissionUploadReport Ack)
          → upload vehicle fuel encode options items s ≡ some (ok report, s')
          → (before item_msgs : List (CommonMessage G Ack)) × (s'.sent
              ≡ before ++ transaction options (length items) item_msgs)
            × (encode_all encode 0 items ≡ ok item_msgs)
            × (report.uploaded_count ≡ length items)
            × (vehicle.is_accepted report.ack ≡ true)
      unfolding upload lift
      upload_sends_mission [] s s' report h = absurd (ground arith)
      upload_sends_mission (item ∷ items) s s' report h =
          elim (Bool-cases (ltb 65535 (length (item ∷ items)))) [
            | inl many ↦ absurd (cc (rw (upload, many) at h))
            | inr few ↦
                let (t, e) =
                  attempts-ok (item ∷ items) (suc options.retry_count) none s s' report
                    (rw (upload, few) at h) in
                let (msgs, (item_msgs, m, same, count, accepted), sent) =
                  (upload_attempt-Sends (item ∷ items) (ground arith)).trace t s' report e in
                (t.sent, item_msgs, sent ∙ ap (λ l. t.sent ++ l) same, m, count, accepted)
          ]
