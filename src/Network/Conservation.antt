-- ===== src/Network/Conservation.antt =====
-- Runs of operations on the network, and what became of each message that was sent.
use drone_swarm_lab.Base.{
  ℕ, suc, ◌+◌, String, ◌≡◌, ap, ◌∙◌, inl, inr, Bool, List, [], ◌∷◌, ◌++◌, arith, length,
  length-append, map, map-append, if◌then◌else◌, ltb,
}
use drone_swarm_lab.Reallocation.{ConnectivitySnapshot}
use drone_swarm_lab.Protocol.{RawMessage}
use drone_swarm_lab.Connectivity.{Floats}
use drone_swarm_lab.Network.{
  Rng, NetworkConfig, InMemNetwork, new, set_connectivity_snapshot, advance_tick, drain_ready,
  add_partition, remove_partition, queue_of, InFlight, send, deliver, count_attempt,
}
use drone_swarm_lab.Network.Queues.{
  count, count-append, addressed, waiting, waiting-insert, later, count-due-later,
  drain_ready-cases,
}
use drone_swarm_lab.Network.Delivery.{delivery_at, send_outcomes}

pub data NetworkOp (F : Type 0) : Type 0 where
  transmit : RawMessage → NetworkOp F
  drain_queue : String → NetworkOp F
  next_tick : NetworkOp F
  observe : ConnectivitySnapshot F → NetworkOp F
  cut_link : String → String → NetworkOp F
  join_link : String → String → NetworkOp F

-- The messages that are sent, and their bytes.
abbrev pub sent : {F : Type 0} → List (NetworkOp F) → List RawMessage
sent [] = []
sent (NetworkOp.transmit msg ∷ ops) = msg ∷ sent ops
sent (_ ∷ ops) = sent ops

abbrev pub bytes : List RawMessage → ℕ
bytes [] = 0
bytes (msg ∷ msgs) = length msg.payload + bytes msgs

-- A message with its recipient.
abbrev pub labelled : List RawMessage → List (String × RawMessage)
labelled msgs = map (λ msg. (msg.to, msg)) msgs

module _ {F S : Type 0} where
  drain-counters :
      (id : String) (n : InMemNetwork F S)
      → ((drain_ready id n).1.messages_attempted ≡ n.messages_attempted)
        × ((drain_ready id n).1.bytes_sent ≡ n.bytes_sent)
        × ((drain_ready id n).1.messages_dropped ≡ n.messages_dropped)
  unfolding drain_ready
  drain-counters id n = ground arith

  drain-balance :
      (p : String × RawMessage → Bool) (id : String) (n : InMemNetwork F S)
      → waiting p (drain_ready id n).1.in_flight
          + count p (map (λ msg. (id, msg)) (drain_ready id n).0)
        ≡ waiting p n.in_flight
  drain-balance p id n = elim (drain_ready-cases id n) [
    | inl (_, e) ↦ rw e (omega arith)
    | inr (q, same, e) ↦
        let moved = waiting-insert p id (later n.current_tick q) n.in_flight in
        let old = ap (λ w. count p (addressed id w)) same in
        rw e (omega (arith, old, moved, count-due-later p id n.current_tick q))
  ]

module _ {F S : Type 0} (floats : Floats F) (clamp : F → F) (rng : Rng F S) where
  -- The network after an operation, and the messages that it hands over, each with the agent that it
  -- hands it to.
  unfoldable pub apply :
      NetworkOp F → InMemNetwork F S → List (String × RawMessage) × InMemNetwork F S
  apply (NetworkOp.transmit msg) n = ([], send floats clamp rng msg n)
  apply (NetworkOp.drain_queue id) n =
      let (ready, n') = drain_ready id n in (map (λ msg. (id, msg)) ready, n')
  apply NetworkOp.next_tick n = ([], advance_tick n)
  apply (NetworkOp.observe s) n = ([], set_connectivity_snapshot s n)
  apply (NetworkOp.cut_link a b) n = ([], add_partition a b n)
  apply (NetworkOp.join_link a b) n = ([], remove_partition a b n)

  unfoldable pub run :
      List (NetworkOp F) → InMemNetwork F S → List (String × RawMessage) × InMemNetwork F S
  run [] n = ([], n)
  run (op ∷ ops) n =
      let (received, n') = apply op n in let (more, last) = run ops n' in (received ++ more, last)

  -- The messages at which the counter of the drops goes up.
  abbrev pub lost_by : NetworkOp F → InMemNetwork F S → List RawMessage
  lost_by (NetworkOp.transmit msg) n =
      if ltb n.messages_dropped (send floats clamp rng msg n).messages_dropped then msg ∷ [] else []
  lost_by _ n = []

  abbrev pub lost : List (NetworkOp F) → InMemNetwork F S → List RawMessage
  lost [] n = []
  lost (op ∷ ops) n = lost_by op n ++ lost ops (apply op n).1

  send-attempted :
      (msg : RawMessage) (n : InMemNetwork F S)
      → ((send floats clamp rng msg n).messages_attempted ≡ suc n.messages_attempted)
        × ((send floats clamp rng msg n).bytes_sent ≡ n.bytes_sent + length msg.payload)
  unfolding send deliver count_attempt
  send-attempted msg n = ground arith

  send-balance :
      (p : String × RawMessage → Bool) (msg : RawMessage) (n : InMemNetwork F S)
      → ((send floats clamp rng msg n).messages_dropped
          ≡ n.messages_dropped + length (lost_by (NetworkOp.transmit msg) n))
        × (waiting p (send floats clamp rng msg n).in_flight
              + count p (labelled (lost_by (NetworkOp.transmit msg) n))
            ≡ waiting p n.in_flight + count p (labelled (msg ∷ [])))
  send-balance p msg n = elim (send_outcomes floats clamp rng msg n) [
    | inl ((kept, dropped), _) ↦ rw (kept, dropped) (ground arith)
    | inr (hops, jitter, (queued, same), _, _, _, _) ↦
        let q = queue_of msg.to n.in_flight in
        let t = delivery_at n hops jitter in
        let put = waiting-insert p msg.to (q ++ (t, msg) ∷ []) n.in_flight in
        let parts = addressed-append p msg.to q t msg in
        rw (queued, same) (ground (arith, put, parts))
  ]
    where
      addressed-append :
          (p : String × RawMessage → Bool) (k : String) (q : InFlight) (t : ℕ) (msg : RawMessage)
          → count p (addressed k (q ++ (t, msg) ∷ []))
            ≡ count p (addressed k q) + count p ((k, msg) ∷ [])
      addressed-append p k q t msg =
          ap (count p) (map-append (λ e. (k, e.1)) q ((t, msg) ∷ []))
          ∙ count-append p (addressed k q) ((k, msg) ∷ [])

  -- An operation's share in the counters, and in what became of the messages.
  step-balance :
      (p : String × RawMessage → Bool) (op : NetworkOp F) (n : InMemNetwork F S)
      → ((apply op n).1.messages_attempted ≡ n.messages_attempted + length (sent (op ∷ [])))
        × ((apply op n).1.bytes_sent ≡ n.bytes_sent + bytes (sent (op ∷ [])))
        × ((apply op n).1.messages_dropped ≡ n.messages_dropped + length (lost_by op n))
        × (waiting p (apply op n).1.in_flight
              + count p (labelled (lost_by op n))
              + count p (apply op n).0
            ≡ waiting p n.in_flight + count p (labelled (sent (op ∷ []))))
  unfolding apply advance_tick set_connectivity_snapshot add_partition remove_partition
  step-balance p (NetworkOp.transmit msg) n =
      let (a, b) = send-attempted msg n in
      let (d, w) = send-balance p msg n in (omega (arith, a), omega (arith, b), d, omega (arith, w))
  step-balance p (NetworkOp.drain_queue id) n =
      let (a, b, d) = drain-counters id n in
      (omega (arith, a), omega (arith, b), omega (arith, d), omega (arith, drain-balance p id n))
  step-balance p NetworkOp.next_tick n = (omega arith, omega arith, omega arith, omega arith)
  step-balance p (NetworkOp.observe s) n = (omega arith, omega arith, omega arith, omega arith)
  step-balance p (NetworkOp.cut_link a b) n = ground arith
  step-balance p (NetworkOp.join_link a b) n = (omega arith, omega arith, omega arith, omega arith)

  sent-cons :
      (p : String × RawMessage → Bool) (op : NetworkOp F) (ops : List (NetworkOp F))
      → (length (sent (op ∷ ops)) ≡ length (sent (op ∷ [])) + length (sent ops))
        × (bytes (sent (op ∷ ops)) ≡ bytes (sent (op ∷ [])) + bytes (sent ops))
        × (count p (labelled (sent (op ∷ ops)))
            ≡ count p (labelled (sent (op ∷ []))) + count p (labelled (sent ops)))
  sent-cons p (NetworkOp.transmit msg) ops = (omega arith, omega arith, omega arith)
  sent-cons p (NetworkOp.drain_queue id) ops = (omega arith, omega arith, omega arith)
  sent-cons p NetworkOp.next_tick ops = (omega arith, omega arith, omega arith)
  sent-cons p (NetworkOp.observe s) ops = (omega arith, omega arith, omega arith)
  sent-cons p (NetworkOp.cut_link a b) ops = (omega arith, omega arith, omega arith)
  sent-cons p (NetworkOp.join_link a b) ops = (omega arith, omega arith, omega arith)

  labelled-append :
      (p : String × RawMessage → Bool) (xs ys : List RawMessage)
      → count p (labelled (xs ++ ys)) ≡ count p (labelled xs) + count p (labelled ys)
  labelled-append p xs ys =
      ap (count p) (map-append (λ msg. (msg.to, msg)) xs ys)
      ∙ count-append p (labelled xs) (labelled ys)

  run-balance :
      (p : String × RawMessage → Bool) (ops : List (NetworkOp F)) (n : InMemNetwork F S)
      → ((run ops n).1.messages_attempted ≡ n.messages_attempted + length (sent ops))
        × ((run ops n).1.bytes_sent ≡ n.bytes_sent + bytes (sent ops))
        × ((run ops n).1.messages_dropped ≡ n.messages_dropped + length (lost ops n))
        × (waiting p (run ops n).1.in_flight
              + count p (labelled (lost ops n))
              + count p (run ops n).0
            ≡ waiting p n.in_flight + count p (labelled (sent ops)))
  unfolding run
  run-balance p [] n = (omega arith, omega arith, omega arith, omega arith)
  run-balance p (op ∷ ops) n =
      let n' = (apply op n).1 in
      let (a, b, d, w) = step-balance p op n in
      let (a', b', d', w') = run-balance p ops n' in
      let (l, k, c) = sent-cons p op ops in
      (
        omega (arith, a, a', l),
        omega (arith, b, b', k),
        omega (arith, d, d', length-append (lost_by op n) (lost ops n')),
        omega (
          arith,
          w,
          w',
          c,
          labelled-append p (lost_by op n) (lost ops n'),
          count-append p (apply op n).0 (run ops n').0,
        ),
      )

  -- After any operations on a new network, the counters are the number of the messages sent, their
  -- bytes, and the number of those dropped. For every test on a message and an agent, as many of the
  -- messages sent, each with its recipient, pass it as of the dropped ones with theirs, of the ones
  -- that wait in the queue of an agent, and of the ones that were handed over to an agent: so no
  -- message is lost otherwise, doubled, or given to an agent that is not its recipient.
  pub run-new :
      (p : String × RawMessage → Bool) (ops : List (NetworkOp F)) (config : NetworkConfig F)
      → ((run ops (new rng config)).1.messages_attempted ≡ length (sent ops))
        × ((run ops (new rng config)).1.bytes_sent ≡ bytes (sent ops))
        × ((run ops (new rng config)).1.messages_dropped ≡ length (lost ops (new rng config)))
        × (count p (labelled (sent ops))
            ≡ count p (labelled (lost ops (new rng config)))
              + waiting p (run ops (new rng config)).1.in_flight
              + count p (run ops (new rng config)).0)
  unfolding new
  run-new p ops config =
      let (a, b, d, w) = run-balance p ops (new rng config) in
      (omega (arith, a), omega (arith, b), omega (arith, d), omega (arith, w))
