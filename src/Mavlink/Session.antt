-- ===== src/Mavlink/Session.antt =====
-- crates/swarm-comms/src/mavlink/mission_upload.rs: the connection and the waiting for a message.
-- The connection and the clock are the parameter `Vehicle`: what the n-th read, the n-th write and
-- the n-th look at the clock give. The loop that waits runs on fuel, and `none` is a wait that
-- goes on.
pub mod Waits
use drone_swarm_lab.Base.{
  ℕ, zero, suc, ◌+◌, String, Bool, leb, if◌then◌else◌, Option, none, some, List, [], ◌∷◌, ◌++◌,
  Result, ok, err, ◌≡◌,
}
use drone_swarm_lab.Mavlink.{CommonMessage, MavlinkMissionError, MavlinkMissionEvent}
use drone_swarm_lab.Mavlink.MavlinkMissionError.{write_failed, read_failed}

pub record Vehicle (G Ack : Type 0) : Type 0 where
  pub try_recv : ℕ → Result String (Option (CommonMessage G Ack))
  pub send_error : ℕ → Option String
  pub now : ℕ → ℕ
  pub is_accepted : Ack → Bool
  pub show : Ack → String

-- How often the vehicle was used, what was sent, and what the observer saw.
pub record Session (G Ack : Type 0) : Type 0 where
  pub received : ℕ
  pub writes : ℕ
  pub clock_reads : ℕ
  pub sent : List (CommonMessage G Ack)
  pub events : List MavlinkMissionEvent

abbrev pub M : Type 0 → Type 0 → Type 0 → Type 0
M G Ack A = Session G Ack → Option (Result (MavlinkMissionError Ack) A × Session G Ack)

module _ {G Ack : Type 0} where
  infixl 5 ◌>>=◌ ◌>>◌
  unfoldable pub ◌>>=◌ : {A B : Type 0} → M G Ack A → (A → M G Ack B) → M G Ack B
  ◌>>=◌ m f s = elim (m s) [
    | none ↦ none
    | some (ok a, s') ↦ f a s'
    | some (err e, s') ↦ some (err e, s')
  ]

  abbrev pub ◌>>◌ : {A B : Type 0} → M G Ack A → M G Ack B → M G Ack B
  m >> k = m >>= λ _. k

  -- A `Result` without effects, and its `?`.
  unfoldable pub lift : {A : Type 0} → Result (MavlinkMissionError Ack) A → M G Ack A
  lift r s = some (r, s)

  -- `observer.on_event(event)`
  unfoldable pub on_event : MavlinkMissionEvent → M G Ack (Unit {0})
  on_event event s = some (ok tt, record s { events = s.events ++ event ∷ [] })

  module _ (vehicle : Vehicle G Ack) where
    unfoldable pub send_message : CommonMessage G Ack → M G Ack (Unit {0})
    send_message msg s = elim (vehicle.send_error s.writes) [
      | none ↦ some (ok tt, record s { writes = suc s.writes; sent = s.sent ++ msg ∷ [] })
      | some e ↦ some (err (write_failed e), record s { writes = suc s.writes })
    ]

    -- The `loop` of `recv_matching`.
    unfoldable pub recv_loop :
        {A : Type 0}
        → ℕ
        → ℕ
        → (CommonMessage G Ack → Option A)
        → MavlinkMissionError Ack
        → M G Ack A
    recv_loop zero deadline predicate timed_out s = none
    recv_loop (suc fuel) deadline predicate timed_out s =
        let s' = record s { received = suc s.received } in
        let looked = record s' { clock_reads = suc s.clock_reads } in
        let again = recv_loop fuel deadline predicate timed_out s' in
        let later = recv_loop fuel deadline predicate timed_out looked in
        elim (vehicle.try_recv s.received) [
          | err e ↦ some (err (read_failed e), s')
          | ok (some msg) ↦ elim (predicate msg) [ some value ↦ some (ok value, s') | none ↦ again ]
          | ok none ↦
              if leb deadline (vehicle.now s.clock_reads)
              then some (err timed_out, looked)
              else later
        ]

    unfoldable pub recv_matching :
        {A : Type 0}
        → ℕ
        → ℕ
        → (CommonMessage G Ack → Option A)
        → MavlinkMissionError Ack
        → M G Ack A
    recv_matching fuel timeout predicate timed_out s =
        recv_loop fuel (vehicle.now s.clock_reads + timeout) predicate timed_out
          (record s { clock_reads = suc s.clock_reads })
