-- ===== src/Mavlink/Upload/Success.antt =====
-- An upload to a vehicle that follows the protocol.
use drone_swarm_lab.Base.{
  ℕ, suc, ◌+◌, ◌≤◌, ◌<◌, ◌≡◌, refl, ◌∙◌, true, false, ◌⊎◌, inl, inr, Bool-cases, Option, none, some,
  List, [], ◌∷◌, ◌++◌, length, Result, ok, err, arith, nat_eq_iff, ltb,
}
use drone_swarm_lab.Mavlink.{
  MissionUploadOptions, MissionUploadReport, CommonMessage, MavlinkMissionError,
  MavlinkMissionEvent,
}
use drone_swarm_lab.Mavlink.CommonMessage.{
  heartbeat, mission_request_int, mission_ack, mission_clear_all,
}
use drone_swarm_lab.Mavlink.MavlinkMissionError.{
  mission_request_timeout, heartbeat_timeout, mission_ack_timeout,
}
use drone_swarm_lab.Mavlink.MavlinkMissionEvent.{
  heartbeat_seen, mission_clear_sent, mission_item_requested, mission_item_sent,
}
use drone_swarm_lab.Mavlink.Session.{
  Vehicle, Session, M, ◌>>=◌, lift, on_event, send_message, recv_matching, recv_loop,
}
use drone_swarm_lab.Mavlink.Upload.{
  as_u16, is_heartbeat, requested_seq, validate_requested_seq, ack_result, wait_for_heartbeat,
  wait_for_mission_request, wait_for_mission_ack, send_item, send_items, clear_mission,
  finish_upload, upload_attempt, attempts, upload,
}
use drone_swarm_lab.Mavlink.Upload.Trace.{encode_all}

Result-cases : {E A : Type 0} (r : Result E A) → ((a : A) × (r ≡ ok a)) ⊎ ((e : E) × (r ≡ err e))
Result-cases (ok a) = inl (a, refl)
Result-cases (err e) = inr (e, refl)

module _ {G Ack : Type 0} where
  -- The step succeeds, with a value and a session for which `P` holds.
  record Runs {A : Type 0} (m : M G Ack A) (s : Session G Ack) (P : A → Session G Ack → Type 0)
      : Type 0 where
    value : A
    after : Session G Ack
    steps : m s ≡ some (ok value, after)
    holds : P value after

  bind-Runs :
      {A B : Type 0} {m : M G Ack A} {f : A → M G Ack B} {s : Session G Ack}
      {P : A → Session G Ack → Type 0} {Q : B → Session G Ack → Type 0}
      → Runs m s P
      → ((a : A) (t : Session G Ack) → P a t → Runs (f a) t Q)
      → Runs (m >>= f) s Q
  unfolding ◌>>=◌
  bind-Runs first next =
      let rest = next first.value first.after first.holds in
      record {
        value = rest.value;
        after = rest.after;
        steps = rw (◌>>=◌, first.steps) rest.steps;
        holds = rest.holds;
      }

  Runs-map :
      {A : Type 0} {m : M G Ack A} {s : Session G Ack} {P Q : A → Session G Ack → Type 0}
      → ((a : A) (t : Session G Ack) → P a t → Q a t)
      → Runs m s P
      → Runs m s Q
  Runs-map f p = record {
    value = p.value;
    after = p.after;
    steps = p.steps;
    holds = f p.value p.after p.holds;
  }

  -- All items have messages if the first one and the others have.
  encode_all-parts :
      {A : Type 0} (encode : ℕ → A → Result (MavlinkMissionError Ack) (CommonMessage G Ack))
      (index : ℕ) (item : A) (items : List A) (msgs : List (CommonMessage G Ack))
      → encode_all encode index (item ∷ items) ≡ ok msgs
      → ((msg : CommonMessage G Ack) × (encode index item ≡ ok msg))
        × ((rest : List (CommonMessage G Ack)) × (encode_all encode (suc index) items ≡ ok rest))
  unfolding encode_all
  encode_all-parts encode index item items msgs h = elim (Result-cases (encode index item)) [
    | inr (e, f) ↦ absurd (cc (rw (encode_all, f) at h))
    | inl (msg, f) ↦ elim (Result-cases (encode_all encode (suc index) items)) [
      | inr (e, g) ↦ absurd (cc (rw (encode_all, f, g) at h))
      | inl (rest, g) ↦ ((msg, f), (rest, g))
    ]
  ]

  on_event-Runs :
      (event : MavlinkMissionEvent) (s : Session G Ack)
      → Runs (on_event event) s (λ _ t. t.received ≡ s.received)
  unfolding on_event
  on_event-Runs event s = record { value = tt; after = _; steps = refl; holds = refl }

  lift-Runs :
      {A : Type 0} (r : Result (MavlinkMissionError Ack) A) (a : A) (s : Session G Ack)
      → r ≡ ok a
      → Runs (lift r) s (λ b t. (b ≡ a) × (t.received ≡ s.received))
  unfolding lift
  lift-Runs r a s e = record { value = a; after = s; steps = rw e refl; holds = (refl, refl) }

  module _ (vehicle : Vehicle G Ack) (fuel : ℕ) where
    recv_matching-Runs :
        {A : Type 0} (timeout : ℕ) (predicate : CommonMessage G Ack → Option A)
        (timed_out : MavlinkMissionError Ack) (s : Session G Ack) (msg : CommonMessage G Ack)
        (a : A)
        → vehicle.try_recv s.received ≡ ok (some msg)
        → predicate msg ≡ some a
        → Runs
            (recv_matching vehicle (suc fuel) timeout predicate timed_out)
            s
            (λ b t. (b ≡ a) × (t.received ≡ suc s.received))
    unfolding recv_matching recv_loop
    recv_matching-Runs timeout predicate timed_out s msg a e h = record {
      value = a;
      after = record s { received = suc s.received; clock_reads = suc s.clock_reads };
      steps = rw (recv_loop, e, h) refl;
      holds = (refl, refl);
    }

    module _ (open_line : (i : ℕ) → vehicle.send_error i ≡ none) where
      send_message-Runs :
          (msg : CommonMessage G Ack) (s : Session G Ack)
          → Runs (send_message vehicle msg) s (λ _ t. t.received ≡ s.received)
      unfolding send_message
      send_message-Runs msg s = record {
        value = tt;
        after = record s { writes = suc s.writes; sent = s.sent ++ msg ∷ [] };
        steps = rw (send_message, open_line s.writes) refl;
        holds = refl;
      }

      module _ {F A : Type 0}
          (encode : ℕ → A → Result (MavlinkMissionError Ack) (CommonMessage G Ack))
          (options : MissionUploadOptions F) where
        send_item-Runs :
            (seq : ℕ) (item : A) (msg : CommonMessage G Ack) (s : Session G Ack)
            → vehicle.try_recv s.received ≡ ok (some (mission_request_int seq))
            → encode seq item ≡ ok msg
            → Runs
                (send_item vehicle (suc fuel) encode options seq item)
                s
                (λ _ t. t.received ≡ suc s.received)
        unfolding send_item wait_for_mission_request requested_seq validate_requested_seq
        send_item-Runs seq item msg s e h =
            bind-Runs
              (bind-Runs
                (recv_matching-Runs options.timeout (requested_seq seq)
                  (mission_request_timeout seq) s (mission_request_int seq) (ok tt) e
                  (ground (arith, nat_eq_iff seq seq)))
                λ answer t (a, r). Runs-map (λ _ _ q. q.1 ∙ r) (lift-Runs answer tt t a))
              λ _ t r. bind-Runs (on_event-Runs (mission_item_requested seq) t) λ _ t2 r2.
                bind-Runs (lift-Runs (encode seq item) msg t2 h) λ m t3 (_, r3).
                  bind-Runs (send_message-Runs m t3) λ _ t4 r4.
                    Runs-map (λ _ _ r5. r5 ∙ r4 ∙ r3 ∙ r2 ∙ r)
                      (on_event-Runs (mission_item_sent seq) t4)

        -- The vehicle asks for the items from the given index on, one after the other.
        send_items-Runs :
            (index : ℕ) (items : List A) (msgs : List (CommonMessage G Ack)) (s : Session G Ack)
            → index + length items ≤ 65536
            → ((i j n : ℕ)
                → i < length items
                → j ≡ s.received + i
                → n ≡ index + i
                → vehicle.try_recv j ≡ ok (some (mission_request_int n)))
            → encode_all encode index items ≡ ok msgs
            → Runs
                (send_items vehicle (suc fuel) encode options index items)
                s
                (λ _ t. t.received ≡ s.received + length items)
        unfolding send_items
        send_items-Runs index [] msgs s small asks h =
            Runs-map (λ _ _ q. q.1 ∙ omega arith) (lift-Runs (ok tt) tt s refl)
        send_items-Runs index (item ∷ items) msgs s small asks h =
            let ((msg, e), (rest, e')) = encode_all-parts encode index item items msgs h in
            let same : as_u16 index ≡ index = omega arith in
            let first : vehicle.try_recv s.received ≡ ok (some (mission_request_int index)) =
              asks 0 s.received index (omega arith) (omega arith) (omega arith) in
            bind-Runs (send_item-Runs (as_u16 index) item msg s (rw same first) (rw same e))
              λ _ t r.
                Runs-map (λ _ _ q. omega (arith, q, r))
                  (send_items-Runs (suc index) items rest t (omega arith)
                    (λ i j n lt p q.
                      asks (suc i) j n (omega arith) (omega (arith, p, r)) (omega (arith, q)))
                    e')

        clear_mission-Runs :
            (s : Session G Ack)
            → Runs
                (clear_mission vehicle (suc fuel) encode options)
                s
                (λ _ t. t.received ≡ s.received)
        unfolding clear_mission
        clear_mission-Runs s = elim (Bool-cases options.clear_existing) [
          | inl on ↦ rw on (
              bind-Runs
                (send_message-Runs
                  (mission_clear_all options.target_system options.target_component) s)
                λ _ t r. Runs-map (λ _ _ q. q ∙ r) (on_event-Runs mission_clear_sent t))
          | inr off ↦ rw off (Runs-map (λ _ _ q. q.1) (lift-Runs (ok tt) tt s refl))
        ]

        accepted-Runs :
            (count : ℕ) (ack a : Ack) (s : Session G Ack)
            → a ≡ ack
            → vehicle.is_accepted ack ≡ true
            → Runs
                (lift (finish_upload vehicle (suc fuel) encode options count a))
                s
                (λ report _. (report.ack ≡ ack) × (report.uploaded_count ≡ count))
        unfolding finish_upload lift
        accepted-Runs count ack a s same accepted = record {
          value = record {
            uploaded_count = count;
            target_system = options.target_system;
            target_component = options.target_component;
            ack = a;
            cleared_existing = options.clear_existing;
          };
          after = s;
          steps = rw (same, accepted) refl;
          holds = (same, refl);
        }

        -- What the vehicle gives: a heartbeat, a request for each item, and an acceptance.
        upload_attempt-Runs :
            (items : List A) (msgs : List (CommonMessage G Ack)) (ack : Ack) (s : Session G Ack)
            → length items ≤ 65535
            → encode_all encode 0 items ≡ ok msgs
            → vehicle.try_recv s.received ≡ ok (some heartbeat)
            → ((i : ℕ)
                → i < length items
                → vehicle.try_recv (suc s.received + i) ≡ ok (some (mission_request_int i)))
            → vehicle.try_recv (suc s.received + length items) ≡ ok (some (mission_ack ack))
            → vehicle.is_accepted ack ≡ true
            → Runs
                (upload_attempt vehicle (suc fuel) encode options items)
                s
                (λ report _. (report.ack ≡ ack) × (report.uploaded_count ≡ length items))
        unfolding upload_attempt wait_for_heartbeat is_heartbeat wait_for_mission_ack ack_result
            finish_upload
        upload_attempt-Runs items msgs ack s small h beat asks acks accepted =
            bind-Runs
              (recv_matching-Runs options.timeout is_heartbeat heartbeat_timeout s heartbeat tt beat
                refl)
              λ _ t1 (_, r1). bind-Runs (on_event-Runs heartbeat_seen t1) λ _ t2 r2.
                bind-Runs (clear_mission-Runs t2) λ _ t3 r3.
                  bind-Runs (send_message-Runs _ t3) λ _ t4 r4.
                    bind-Runs (on_event-Runs _ t4) λ _ t5 r5.
                      bind-Runs
                        (send_items-Runs 0 items msgs t5 (omega arith)
                          (λ i j n lt p q.
                            let q' : n ≡ i = omega (arith, q) in
                            rw (p, q', r5, r4, r3, r2, r1) (asks i lt))
                          h)
                        λ _ t6 r6.
                          bind-Runs
                            (recv_matching-Runs options.timeout ack_result mission_ack_timeout t6
                              (mission_ack ack) ack (rw (r6, r5, r4, r3, r2, r1) acks) refl)
                            λ a t7 (same, _).
                              bind-Runs (on_event-Runs _ t7)
                                λ _ t8 _. accepted-Runs (length items) ack a t8 same accepted

        -- An upload of 1 to 65535 items, all of which have messages, over a line whose writes do not
        -- fail, succeeds at the first attempt with the report of the acceptance, if the next reads of
        -- the line give, one directly after the other with no empty read and no other message among
        -- them, a heartbeat, a mission_request_int for each item in turn, and an accepting
        -- mission_ack.
        pub upload_succeeds :
            (item : A) (items : List A) (msgs : List (CommonMessage G Ack)) (ack : Ack)
            (s : Session G Ack)
            → length (item ∷ items) ≤ 65535
            → encode_all encode 0 (item ∷ items) ≡ ok msgs
            → vehicle.try_recv s.received ≡ ok (some heartbeat)
            → ((i : ℕ)
                → i < length (item ∷ items)
                → vehicle.try_recv (suc s.received + i) ≡ ok (some (mission_request_int i)))
            → vehicle.try_recv (suc s.received + length (item ∷ items))
              ≡ ok (some (mission_ack ack))
            → vehicle.is_accepted ack ≡ true
            → (report : MissionUploadReport Ack) × (s' : Session G Ack) × (upload vehicle
                  (suc fuel)
                  encode
                  options
                  (item ∷ items)
                  s
                ≡ some (ok report, s'))
              × (report.ack ≡ ack)
              × (report.uploaded_count ≡ length (item ∷ items))
        unfolding upload attempts
        upload_succeeds item items msgs ack s small h beat asks acks accepted =
            let run =
              upload_attempt-Runs (item ∷ items) msgs ack s small h beat asks acks accepted in
            let few : ltb 65535 (length (item ∷ items)) ≡ false = ground arith in
            (
              run.value,
              run.after,
              rw (upload, few, attempts, run.steps) refl,
              run.holds.0,
              run.holds.1,
            )
