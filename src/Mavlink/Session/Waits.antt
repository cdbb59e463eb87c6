-- ===== src/Mavlink/Session/Waits.antt =====
-- When a wait for a message ends, and what it leaves unchanged.
use drone_swarm_lab.Base.{
  ℕ, zero, suc, ◌+◌, ◌-◌, ◌≤◌, ◌<◌, String, ◌≡◌, refl, ◌⊎◌, inl, inr, Bool-cases, Option-cases,
  Option, none, some, Result, ok, err, arith, leb, false,
}
use drone_swarm_lab.Mavlink.{CommonMessage, MavlinkMissionError}
use drone_swarm_lab.Mavlink.MavlinkMissionError.{read_failed}
use drone_swarm_lab.Mavlink.Session.{Vehicle, Session, recv_loop, recv_matching}

Read-cases :
    {B : Type 0} (r : Result String (Option B))
    → ((e : String) × (r ≡ err e)) ⊎ (((b : B) × (r ≡ ok (some b))) ⊎ (r ≡ ok none))
Read-cases (err e) = inl (e, refl)
Read-cases (ok (some b)) = inr (inl (b, refl))
Read-cases (ok none) = inr (inr refl)

module _ {G Ack A : Type 0} (vehicle : Vehicle G Ack) (predicate : CommonMessage G Ack → Option A)
    (timed_out : MavlinkMissionError Ack) where
  -- A message arrives only before the silence, and the deadline is open only before it passes.
  message-lt :
      (n i : ℕ) (msg : CommonMessage G Ack)
      → ((i : ℕ) → n ≤ i → vehicle.try_recv i ≡ ok none)
      → vehicle.try_recv i ≡ ok (some msg)
      → i < n
  message-lt n i msg quiet f = elim (Bool-cases (leb n i)) [
    | inl past ↦ absurd (ground (arith, quiet i))
    | inr before ↦ ground arith
  ]

  pending-lt :
      (deadline k j : ℕ)
      → ((j : ℕ) → k ≤ j → deadline ≤ vehicle.now j)
      → leb deadline (vehicle.now j) ≡ false
      → j < k
  pending-lt deadline k j late f = elim (Bool-cases (leb k j)) [
    | inl past ↦ absurd (ground (arith, late j))
    | inr before ↦ ground arith
  ]

  recv_loop-ends :
      (deadline n k : ℕ)
      → ((i : ℕ) → n ≤ i → vehicle.try_recv i ≡ ok none)
      → ((j : ℕ) → k ≤ j → deadline ≤ vehicle.now j)
      → (fuel : ℕ) (s : Session G Ack) → (n - s.received) + (k - s.clock_reads) < fuel
      → (r : Result (MavlinkMissionError Ack) A × Session G Ack) × (recv_loop vehicle fuel deadline
            predicate timed_out s
          ≡ some r)
  unfolding recv_loop
  recv_loop-ends deadline n k quiet late zero s h = absurd (omega arith)
  recv_loop-ends deadline n k quiet late (suc fuel) s h =
      elim (Read-cases (vehicle.try_recv s.received)) [
        | inl (e, f) ↦
            ((err (read_failed e), record s { received = suc s.received }), rw (recv_loop, f) refl)
        | inr (inl (msg, f)) ↦ elim (Option-cases (predicate msg)) [
          | inr (value, g) ↦
              ((ok value, record s { received = suc s.received }), rw (recv_loop, f, g) refl)
          | inl g ↦
              let early : s.received < n = message-lt n s.received msg quiet f in
              let (r, e) =
                recv_loop-ends deadline n k quiet late fuel (record s { received = suc s.received })
                  (omega arith) in
              (r, rw (recv_loop, f, g) e)
        ]
        | inr (inr f) ↦ elim (Bool-cases (leb deadline (vehicle.now s.clock_reads))) [
          | inl over ↦ (
            (
              err timed_out,
              record s { received = suc s.received; clock_reads = suc s.clock_reads },
            ),
            rw (recv_loop, f, over) refl,
          )
          | inr on ↦
              let early : s.clock_reads < k = pending-lt deadline k s.clock_reads late on in
              let (r, e) =
                recv_loop-ends deadline n k quiet late fuel
                  (record s { received = suc s.received; clock_reads = suc s.clock_reads })
                  (omega arith) in
              (r, rw (recv_loop, f, on) e)
        ]
      ]

  recv_loop-starves :
      (msgs : ℕ → CommonMessage G Ack)
      → ((i : ℕ) → vehicle.try_recv i ≡ ok (some (msgs i)))
      → ((i : ℕ) → predicate (msgs i) ≡ none)
      → (fuel deadline : ℕ) (s : Session G Ack)
      → recv_loop vehicle fuel deadline predicate timed_out s ≡ none
  unfolding recv_loop
  recv_loop-starves msgs busy others zero deadline s = refl
  recv_loop-starves msgs busy others (suc fuel) deadline s =
      rw (recv_loop, busy s.received, others s.received)
        (recv_loop-starves msgs busy others fuel deadline (record s { received = suc s.received }))

  recv_loop-sent :
      (fuel deadline : ℕ) (s s' : Session G Ack) (r : Result (MavlinkMissionError Ack) A)
      → recv_loop vehicle fuel deadline predicate timed_out s ≡ some (r, s')
      → s'.sent ≡ s.sent
  unfolding recv_loop
  recv_loop-sent zero deadline s s' r h = ground arith
  recv_loop-sent (suc fuel) deadline s s' r h = ground (
    arith,
    recv_loop-sent fuel deadline (record s { received = suc s.received }) s' r,
    recv_loop-sent fuel deadline
        (record s { received = suc s.received; clock_reads = suc s.clock_reads }) s' r,
  )

  -- A wait sends nothing.
  pub recv_matching-sent :
      (fuel timeout : ℕ) (s s' : Session G Ack) (r : Result (MavlinkMissionError Ack) A)
      → recv_matching vehicle fuel timeout predicate timed_out s ≡ some (r, s')
      → s'.sent ≡ s.sent
  unfolding recv_matching
  recv_matching-sent fuel timeout s s' r h =
      recv_loop-sent fuel (vehicle.now s.clock_reads + timeout)
        (record s { clock_reads = suc s.clock_reads }) s' r h

  -- If from some read on no message arrives, and from some look at the clock on the timeout has
  -- passed, then a wait ends, with the fuel for these reads and looks and one more.
  pub recv_matching_ends :
      (n k timeout : ℕ) (s : Session G Ack)
      → ((i : ℕ) → n ≤ i → vehicle.try_recv i ≡ ok none)
      → ((j : ℕ) → k ≤ j → vehicle.now s.clock_reads + timeout ≤ vehicle.now j)
      → (fuel : ℕ) → n + k < fuel
      → (r : Result (MavlinkMissionError Ack) A × Session G Ack) × (recv_matching vehicle fuel
            timeout predicate timed_out s
          ≡ some r)
  unfolding recv_matching
  recv_matching_ends n k timeout s quiet late fuel h =
      recv_loop-ends (vehicle.now s.clock_reads + timeout) n k quiet late fuel
        (record s { clock_reads = suc s.clock_reads }) (omega arith)

  -- If other messages keep arriving, a wait never ends, whatever its timeout and the clock.
  pub recv_matching_starves :
      (msgs : ℕ → CommonMessage G Ack)
      → ((i : ℕ) → vehicle.try_recv i ≡ ok (some (msgs i)))
      → ((i : ℕ) → predicate (msgs i) ≡ none)
      → (fuel timeout : ℕ) (s : Session G Ack)
      → recv_matching vehicle fuel timeout predicate timed_out s ≡ none
  unfolding recv_matching
  recv_matching_starves msgs busy others fuel timeout s =
      recv_loop-starves msgs busy others fuel (vehicle.now s.clock_reads + timeout)
        (record s { clock_reads = suc s.clock_reads })
