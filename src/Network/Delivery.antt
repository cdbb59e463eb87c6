-- ===== src/Network/Delivery.antt =====
-- What `send` does to a message, and what `drain_ready` hands over.
use drone_swarm_lab.Base.{
  ℕ, suc, ◌+◌, ◌*◌, ◌%◌, ◌^◌, ◌≤◌, ◌<◌, String, ◌≡◌, ◌⊎◌, inl, inr, refl, Bool, true, false, none,
  some, [], ◌∷◌, ◌++◌, arith, eq_iff, eq_refl, any, flip-compare, Bool-cases, Option-cases,
}
use drone_swarm_lab.HashMap.{insert}
use drone_swarm_lab.Protocol.{RawMessage}
use drone_swarm_lab.Connectivity.{Floats}
use drone_swarm_lab.Network.{
  Rng, InMemNetwork, pair_eq, ordered_pair, queue_of, add_partition, hops_to, draw_jitter, deliver,
  count_attempt, send, u64_mod,
}
use native.Mathlib.Nat.{mod-lt, mod-le}

-- The pair does not depend on the direction.
ordered_pair_comm : (a b : String) → ordered_pair a b ≡ ordered_pair b a
unfolding ordered_pair
ordered_pair_comm a b = ground (arith, flip-compare a b, eq_iff a b)

odd-pos : (j : ℕ) → 0 < (j * 2 + 1) % u64_mod
odd-pos j = omega arith

module _ {F S : Type 0} where
  -- In the network after a send the message was dropped.
  abbrev pub Dropped : InMemNetwork F S → InMemNetwork F S → Type 0
  Dropped n n' = (n'.in_flight ≡ n.in_flight) × (n'.messages_dropped ≡ suc n.messages_dropped)

  -- The message was queued last for its recipient, for the given tick.
  abbrev pub Queued : RawMessage → ℕ → InMemNetwork F S → InMemNetwork F S → Type 0
  Queued msg t n n' =
      (n'.in_flight ≡ insert msg.to (queue_of msg.to n.in_flight ++ (t, msg) ∷ []) n.in_flight)
      × (n'.messages_dropped ≡ n.messages_dropped)

  draw_jitter-bound : (rng : Rng F S) (j : ℕ) (s : S) → (draw_jitter rng j s).0 ≤ 2 * j
  unfolding draw_jitter
  draw_jitter-bound rng j s =
      let m = (j * 2 + 1) % u64_mod in
      let small : m ≤ j * 2 + 1 = mod-le (j * 2 + 1) u64_mod in
      let bound : (rng.gen_u64 s).0 % m < m = mod-lt (rng.gen_u64 s).0 (odd-pos j) in ground arith

  -- The tick of a delivery over so many hops with so much jitter, in 64 bits.
  abbrev pub delivery_at : InMemNetwork F S → ℕ → ℕ → ℕ
  delivery_at n hops jitter =
      (n.current_tick + n.config.latency_ticks + hops * n.config.latency_per_hop + jitter) % 2 ^ 64

  add_partition-cuts :
      (a b : String) (n : InMemNetwork F S)
      → any (pair_eq (ordered_pair a b)) (add_partition a b n).partitions ≡ true
  unfolding add_partition any pair_eq
  add_partition-cuts a b n = elim (Bool-cases (any (pair_eq (ordered_pair a b)) n.partitions)) [
    | inl old ↦ rw (old) old
    | inr new ↦ rw (new, eq_refl (ordered_pair a b).0, eq_refl (ordered_pair a b).1) refl
  ]

  module _ (floats : Floats F) (clamp : F → F) (rng : Rng F S) where
    -- The draw of the generator is below the loss rate of the configuration.
    abbrev pub is_lost : InMemNetwork F S → Bool
    is_lost n = floats.lt (rng.gen_f64 n.rng).0 (clamp n.config.packet_loss_rate)

    -- What keeps a message from its recipient: a partition, no route, or a loss.
    abbrev pub Hindered : RawMessage → InMemNetwork F S → Type 0
    Hindered msg n =
        (any (pair_eq (ordered_pair msg.from msg.to)) n.partitions ≡ true)
        ⊎ (hops_to floats n msg ≡ none)
        ⊎ (is_lost n ≡ true)

    deliver_outcomes :
        (hops : ℕ) (msg : RawMessage) (n : InMemNetwork F S)
        → Dropped n (deliver floats clamp rng hops msg n) × (is_lost n ≡ true)
          ⊎ ((jitter : ℕ) × Queued msg
                (delivery_at n hops jitter)
                n
                (deliver floats clamp rng hops msg n)
              × (jitter ≤ 2 * n.config.comms_jitter_ticks)
              × (is_lost n ≡ false))
    unfolding deliver
    deliver_outcomes hops msg n =
        let s = (rng.gen_f64 n.rng).1 in
        elim (Bool-cases (is_lost n)) [
          | inl lost ↦ rw lost (inl ((refl, refl), refl))
          | inr kept ↦ rw kept (
              inr (
                (draw_jitter rng n.config.comms_jitter_ticks s).0,
                (refl, refl),
                draw_jitter-bound rng n.config.comms_jitter_ticks s,
                refl,
              ))
        ]

    -- `send` drops the message, and then a partition separates the two agents, the recipient is out
    -- of reach, or the generator drew a loss; or none of the three holds and the message is queued
    -- last for its recipient, for the tick that the current tick, the latency, the hops and the
    -- jitter add up to in 64 bits, with a jitter of at most twice the configured one.
    pub send_outcomes :
        (msg : RawMessage) (n : InMemNetwork F S)
        → Dropped n (send floats clamp rng msg n) × Hindered msg n
          ⊎ ((hops jitter : ℕ) × Queued msg
                (delivery_at n hops jitter)
                n
                (send floats clamp rng msg n)
              × (jitter ≤ 2 * n.config.comms_jitter_ticks)
              × (hops_to floats n msg ≡ some hops)
              × (any (pair_eq (ordered_pair msg.from msg.to)) n.partitions ≡ false)
              × (is_lost n ≡ false))
    unfolding send hops_to count_attempt
    send_outcomes msg n =
        elim (Bool-cases (any (pair_eq (ordered_pair msg.from msg.to)) n.partitions)) [
          | inl cut ↦ rw cut (inl ((refl, refl), inl refl))
          | inr open_link ↦ elim (Option-cases (hops_to floats n msg)) [
            | inl far ↦ rw (open_link, far) (inl ((refl, refl), inr (inl refl)))
            | inr (hops, near) ↦ elim (deliver_outcomes hops msg (count_attempt msg n)) [
              | inl (dropped, lost) ↦ rw (open_link, near) (inl (dropped, inr (inr lost)))
              | inr (jitter, queued, bound, kept) ↦
                  rw (open_link, near) (inr (hops, jitter, queued, bound, refl, refl, kept))
            ]
          ]
        ]

    send-cut :
        (msg : RawMessage) (n : InMemNetwork F S)
        → any (pair_eq (ordered_pair msg.from msg.to)) n.partitions ≡ true
        → Dropped n (send floats clamp rng msg n)
    unfolding send count_attempt
    send-cut msg n cut = rw cut (refl, refl)

    -- After `add_partition` of two agents, a message of either to the other is dropped.
    pub send-add_partition :
        (a b : String) (msg : RawMessage) (n : InMemNetwork F S)
        → ((msg.from ≡ a) × (msg.to ≡ b)) ⊎ ((msg.from ≡ b) × (msg.to ≡ a))
        → Dropped (add_partition a b n) (send floats clamp rng msg (add_partition a b n))
    send-add_partition a b msg n ends = send-cut msg (add_partition a b n) (elim ends [
      | inl (f, t) ↦ rw (f, t) (add_partition-cuts a b n)
      | inr (f, t) ↦ rw (f, t, ordered_pair_comm b a) (add_partition-cuts a b n)
    ])
