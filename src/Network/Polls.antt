-- ===== src/Network/Polls.antt =====
-- Polling an agent's transport until it gives no message.
use drone_swarm_lab.Base.{
  ℕ, suc, ◌+◌, ◌-◌, ◌<◌, String, ◌≡◌, refl, ◌∙◌, subst, none, some, List, [], ◌∷◌, ◌++◌, append-nil,
  ap, arith, filter, length, inl, inr,
}
use drone_swarm_lab.Protocol.{RawMessage}
use drone_swarm_lab.Network.{
  InMemNetwork, InMemAgentTransport, drain_ready, queue_of, poll, poll_until_empty,
}
use drone_swarm_lab.Network.Queues.{
  due, later, due-later, drain_ready-cases, later-later, queue_of-insert,
}

-- Fuel for so many messages, and `k` more.
abbrev plus : List RawMessage → ℕ → ℕ
plus [] k = k
plus (msg ∷ msgs) k = suc (plus msgs k)

plus-length : (msgs : List RawMessage) (k : ℕ) → plus msgs k ≡ length msgs + k
plus-length [] k = omega arith
plus-length (msg ∷ msgs) k = omega (arith, plus-length msgs k)

module _ {F S : Type 0} where
  -- The messages for the agent that are due.
  abbrev pub ready : InMemAgentTransport F S → List RawMessage
  ready t = due t.bus.current_tick (queue_of t.own_id t.bus.in_flight)

  -- `drain_ready` hands over what is due, in the order of the queue, and keeps the rest.
  pub drain_ready_lem :
      (id : String) (n : InMemNetwork F S)
      → ((drain_ready id n).0 ≡ due n.current_tick (queue_of id n.in_flight))
        × (queue_of id (drain_ready id n).1.in_flight
            ≡ later n.current_tick (queue_of id n.in_flight))
        × ((drain_ready id n).1.current_tick ≡ n.current_tick)
  unfolding filter
  drain_ready_lem id n = elim (drain_ready-cases id n) [
    | inl (empty, e) ↦ rw (e, empty) (refl, refl, refl)
    | inr (q, here, e) ↦
        rw (e, here) (refl, queue_of-insert id (later n.current_tick q) n.in_flight, refl)
  ]

  abbrev at : InMemNetwork F S → String → List RawMessage → InMemAgentTransport F S
  at bus id msgs = record { bus = bus; own_id = id; buffer = msgs }

  poll-none :
      (bus : InMemNetwork F S) (id : String)
      → (drain_ready id bus).0 ≡ []
      → poll (at bus id []) ≡ (none, at (drain_ready id bus).1 id [])
  unfolding poll
  poll-none bus id h = rw (poll, h) refl

  poll-some :
      (bus : InMemNetwork F S) (id : String) (msg : RawMessage) (msgs : List RawMessage)
      → (drain_ready id bus).0 ≡ msg ∷ msgs
      → poll (at bus id []) ≡ (some msg, at (drain_ready id bus).1 id msgs)
  unfolding poll
  poll-some bus id msg msgs h = rw (poll, h) refl

  poll_until_empty-none :
      (k : ℕ) (t t' : InMemAgentTransport F S)
      → poll t ≡ (none, t')
      → poll_until_empty (suc k) t ≡ some ([], t')
  unfolding poll_until_empty
  poll_until_empty-none k t t' e = rw (poll_until_empty, ap (λ r. r.0) e, ap (λ r. r.1) e) refl

  poll_until_empty-some :
      (k : ℕ) (t t' last : InMemAgentTransport F S) (msg : RawMessage) (msgs : List RawMessage)
      → poll t ≡ (some msg, t')
      → poll_until_empty k t' ≡ some (msgs, last)
      → poll_until_empty (suc k) t ≡ some (msg ∷ msgs, last)
  unfolding poll_until_empty
  poll_until_empty-some k t t' last msg msgs e h =
      rw (poll_until_empty, ap (λ r. r.0) e, ap (λ r. r.1) e, h) refl

  -- The buffered messages come first.
  poll_until_empty-buffer :
      (bus : InMemNetwork F S) (id : String) (msgs out : List RawMessage) (k : ℕ)
      (t' : InMemAgentTransport F S)
      → poll_until_empty k (at bus id []) ≡ some (out, t')
      → poll_until_empty (plus msgs k) (at bus id msgs) ≡ some (msgs ++ out, t')
  unfolding poll_until_empty poll
  poll_until_empty-buffer bus id [] out k t' h = h
  poll_until_empty-buffer bus id (msg ∷ msgs) out k t' h =
      rw (poll_until_empty-buffer bus id msgs out k t' h) refl

  -- A transport without messages gives none.
  poll_until_empty-empty :
      (bus : InMemNetwork F S) (id : String) (k : ℕ)
      → (drain_ready id bus).0 ≡ []
      → poll_until_empty (suc k) (at bus id []) ≡ some ([], at (drain_ready id bus).1 id [])
  poll_until_empty-empty bus id k h =
      poll_until_empty-none k (at bus id []) (at (drain_ready id bus).1 id []) (poll-none bus id h)

  poll_until_empty-refill :
      (bus : InMemNetwork F S) (id : String) (msg : RawMessage) (msgs out : List RawMessage) (k : ℕ)
      (t' : InMemAgentTransport F S)
      → (drain_ready id bus).0 ≡ msg ∷ msgs
      → poll_until_empty k (at (drain_ready id bus).1 id []) ≡ some (out, t')
      → poll_until_empty (plus (msg ∷ msgs) k) (at bus id []) ≡ some (msg ∷ msgs ++ out, t')
  poll_until_empty-refill bus id msg msgs out k t' e h =
      let next = (drain_ready id bus).1 in
      poll_until_empty-some (plus msgs k) (at bus id []) (at next id msgs) t' msg (msgs ++ out)
        (poll-some bus id msg msgs e) (poll_until_empty-buffer next id msgs out k t' h)

  -- With an empty buffer the messages that are due are given.
  poll_until_empty-due :
      (bus : InMemNetwork F S) (id : String) (k : ℕ) (msgs : List RawMessage)
      → due bus.current_tick (queue_of id bus.in_flight) ≡ msgs
      → (t' : InMemAgentTransport F S) × (poll_until_empty (plus msgs (suc k)) (at bus id [])
          ≡ some (msgs, t'))
        × (t'.buffer ≡ [])
        × (queue_of id t'.bus.in_flight ≡ later bus.current_tick (queue_of id bus.in_flight))
  poll_until_empty-due bus id k [] h =
      let (e, kept, _) = drain_ready_lem id bus in
      (at (drain_ready id bus).1 id [], poll_until_empty-empty bus id k (e ∙ h), refl, kept)
  poll_until_empty-due bus id k (msg ∷ msgs) h =
      let next = (drain_ready id bus).1 in
      let (e, kept, same) = drain_ready_lem id bus in
      let (e', kept', _) = drain_ready_lem id next in
      let nothing : (drain_ready id next).0 ≡ [] =
        e' ∙ rw (same, kept) (due-later bus.current_tick (queue_of id bus.in_flight)) in
      (
        at (drain_ready id next).1 id [],
        subst
            (λ out.
              poll_until_empty (plus (msg ∷ msgs) (suc k)) (at bus id [])
              ≡ some (out, at (drain_ready id next).1 id []))
            (append-nil (msg ∷ msgs))
            (poll_until_empty-refill bus id msg msgs [] (suc k) (at (drain_ready id next).1 id [])
              (e ∙ h) (poll_until_empty-empty next id k nothing)),
        refl,
        kept' ∙ rw (same, kept) (later-later bus.current_tick (queue_of id bus.in_flight)),
      )

  -- One loop of polls returns the buffered messages and then those that are due, in their order,
  -- and leaves what is not due yet. It ends, with fuel for one poll more than there are messages.
  pub poll_until_empty_lem :
      (t : InMemAgentTransport F S) (fuel : ℕ)
      → length t.buffer + length (ready t) < fuel
      → (t' : InMemAgentTransport F S) × (poll_until_empty fuel t ≡ some (t.buffer ++ ready t, t'))
        × (t'.buffer ≡ [])
        × (queue_of t.own_id t'.bus.in_flight
            ≡ later t.bus.current_tick (queue_of t.own_id t.bus.in_flight))
  poll_until_empty_lem t fuel h =
      let k = fuel - (length t.buffer + length (ready t)) - 1 in
      let (t', e, empty, kept) = poll_until_empty-due t.bus t.own_id k (ready t) refl in
      let run =
        poll_until_empty-buffer t.bus t.own_id t.buffer (ready t) (plus (ready t) (suc k)) t' e in
      let enough : plus t.buffer (plus (ready t) (suc k)) ≡ fuel =
        omega
          (arith, plus-length t.buffer (plus (ready t) (suc k)), plus-length (ready t) (suc k)) in
      (
        t',
        subst (λ n. poll_until_empty n t ≡ some (t.buffer ++ ready t, t')) enough run,
        empty,
        kept,
      )
