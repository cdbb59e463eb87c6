-- ===== src/Network.antt =====
-- crates/swarm-comms/src/network.rs: the simulated network, which delays and drops messages, and
-- an agent's transport over it. The random generator is the parameter `Rng`; `rng.gen::<u64>()`
-- gives any number. The sums of configured values wrap at 2 ^ 64, as a release build computes them
-- (a debug build panics there); counters that go up by one for a call are unbounded.
pub mod Queues
pub mod Delivery
pub mod Conservation
pub mod Polls
use drone_swarm_lab.Base.{
  ℕ, zero, suc, ◌+◌, ◌*◌, ◌%◌, ◌^◌, String, Bool, true, false, not, ◌&&◌, ◌==◌, if◌then◌else◌, ltb,
  leb, text_le, Option, none, some, List, [], ◌∷◌, ◌++◌, any, filter, length,
}
use drone_swarm_lab.HashMap.{HashMap, get, insert}
use drone_swarm_lab.Reallocation.{ConnectivitySnapshot}
use drone_swarm_lab.Protocol.{RawMessage}
use drone_swarm_lab.Connectivity.{Floats, hop_count_between}

-- What the network uses of a random generator with states `S`.
pub record Rng (F S : Type 0) : Type 0 where
  pub seed_from_u64 : ℕ → S
  pub gen_f64 : S → F × S
  pub gen_u64 : S → ℕ × S

pub record NetworkConfig (F : Type 0) : Type 0 where
  pub packet_loss_rate : F
  pub latency_ticks : ℕ
  pub latency_per_hop : ℕ
  pub seed : ℕ
  pub partitions : List (String × String)
  pub comms_jitter_ticks : ℕ

-- A message with the tick of its delivery.
abbrev pub InFlight : Type 0
InFlight = List (ℕ × RawMessage)

pub record InMemNetwork (F S : Type 0) : Type 0 where
  pub in_flight : HashMap InFlight
  pub config : NetworkConfig F
  pub rng : S
  pub current_tick : ℕ
  pub messages_attempted : ℕ
  pub messages_dropped : ℕ
  pub bytes_sent : ℕ
  pub partitions : List (String × String)
  pub connectivity : Option (ConnectivitySnapshot F)

-- The number of values of a u64.
abbrev pub u64_mod : ℕ
u64_mod = 2 ^ 64

unfoldable pub pair_eq : String × String → String × String → Bool
pair_eq p q = p.0 == q.0 && p.1 == q.1

unfoldable pub ordered_pair : String → String → String × String
ordered_pair a b = if text_le a b then (a, b) else (b, a)

unfoldable pub queue_of : String → HashMap InFlight → InFlight
queue_of id m = elim (get id m) [ none ↦ [] | some q ↦ q ]

-- The `while let` loop of `drain_ready`: what is due, and what is not.
unfoldable pub split_due : ℕ → InFlight → List RawMessage × InFlight
split_due now [] = ([], [])
split_due now ((t, msg) ∷ q) =
    let (ready, delayed) = split_due now q in
    if leb t now then (msg ∷ ready, delayed) else (ready, (t, msg) ∷ delayed)

module _ {F S : Type 0} where
  unfoldable pub new : Rng F S → NetworkConfig F → InMemNetwork F S
  new rng config = record {
    in_flight = [];
    config = config;
    rng = rng.seed_from_u64 config.seed;
    current_tick = 0;
    messages_attempted = 0;
    messages_dropped = 0;
    bytes_sent = 0;
    partitions = config.partitions;
    connectivity = none;
  }

  unfoldable pub set_connectivity_snapshot :
      ConnectivitySnapshot F → InMemNetwork F S → InMemNetwork F S
  set_connectivity_snapshot snapshot n = record n { connectivity = some snapshot }

  unfoldable pub advance_tick : InMemNetwork F S → InMemNetwork F S
  advance_tick n = record n { current_tick = suc n.current_tick }

  unfoldable pub drain_ready : String → InMemNetwork F S → List RawMessage × InMemNetwork F S
  drain_ready recipient n = elim (get recipient n.in_flight) [
    | none ↦ ([], n)
    | some queue ↦
        let (ready, delayed) = split_due n.current_tick queue in
        (ready, record n { in_flight = insert recipient delayed n.in_flight })
  ]

  unfoldable pub add_partition : String → String → InMemNetwork F S → InMemNetwork F S
  add_partition a b n =
      let pair = ordered_pair a b in
      if any (pair_eq pair) n.partitions then n else record n { partitions = pair ∷ n.partitions }

  unfoldable pub remove_partition : String → String → InMemNetwork F S → InMemNetwork F S
  remove_partition a b n = record n {
    partitions = filter (λ p. not (pair_eq (ordered_pair a b) p)) n.partitions;
  }

  drop_message : InMemNetwork F S → InMemNetwork F S
  drop_message n = record n { messages_dropped = suc n.messages_dropped }

  -- `None` is a recipient out of reach.
  unfoldable pub hops_to : Floats F → InMemNetwork F S → RawMessage → Option ℕ
  hops_to floats n msg = elim n.connectivity [
    | none ↦ some 1
    | some snapshot ↦ elim (hop_count_between floats snapshot msg.from msg.to) [
      | none ↦ none
      | some hops ↦ hops
    ]
  ]

  unfoldable pub draw_jitter : Rng F S → ℕ → S → ℕ × S
  draw_jitter rng ticks s =
      let (word, s') = rng.gen_u64 s in
      if ltb 0 ticks then (word % ((ticks * 2 + 1) % u64_mod), s') else (0, s)

  unfoldable pub count_attempt : RawMessage → InMemNetwork F S → InMemNetwork F S
  count_attempt msg n = record n {
    messages_attempted = suc n.messages_attempted;
    bytes_sent = n.bytes_sent + length msg.payload;
  }

  module _ (floats : Floats F) (clamp : F → F) (rng : Rng F S) where
    -- From the draw of the loss on.
    unfoldable pub deliver : ℕ → RawMessage → InMemNetwork F S → InMemNetwork F S
    unfolding drop_message
    deliver hop_count msg n =
        let (draw, s) = rng.gen_f64 n.rng in
        let (jitter, s') = draw_jitter rng n.config.comms_jitter_ticks s in
        let delivery_tick =
          (n.current_tick + n.config.latency_ticks + hop_count * n.config.latency_per_hop + jitter)
          % u64_mod in
        if floats.lt draw (clamp n.config.packet_loss_rate)
        then drop_message (record n { rng = s })
        else record n {
          rng = s';
          in_flight =
              insert msg.to (queue_of msg.to n.in_flight ++ (delivery_tick, msg) ∷ []) n.in_flight;
        }

    unfoldable pub send : RawMessage → InMemNetwork F S → InMemNetwork F S
    unfolding drop_message
    send msg before =
        let n = count_attempt msg before in
        if any (pair_eq (ordered_pair msg.from msg.to)) n.partitions
        then drop_message n
        else elim (hops_to floats n msg) [
          | none ↦ drop_message n
          | some hop_count ↦ deliver hop_count msg n
        ]

-- `InMemAgentTransport` of one agent, with the bus that it shares.
pub record InMemAgentTransport (F S : Type 0) : Type 0 where
  pub bus : InMemNetwork F S
  pub own_id : String
  pub buffer : List RawMessage

module _ {F S : Type 0} where
  unfoldable pub poll : InMemAgentTransport F S → Option RawMessage × InMemAgentTransport F S
  poll t = elim t.buffer [
    | msg ∷ rest ↦ (some msg, record t { buffer = rest })
    | [] ↦
        let (ready, bus) = drain_ready t.own_id t.bus in
        elim ready [
          | [] ↦ (none, record t { bus = bus })
          | first ∷ rest ↦ (some first, record t { bus = bus; buffer = rest })
        ]
  ]

  -- `while let Some(message) = transport.poll()`: what is polled, with the transport after it.
  -- `none` is a loop that the fuel did not suffice for.
  unfoldable pub poll_until_empty :
      ℕ → InMemAgentTransport F S → Option (List RawMessage × InMemAgentTransport F S)
  poll_until_empty zero t = none
  poll_until_empty (suc fuel) t =
      let (polled, t') = poll t in
      let rest = poll_until_empty fuel t' in
      elim polled [
        | none ↦ some ([], t')
        | some msg ↦ elim rest [ none ↦ none | some (msgs, last) ↦ some (msg ∷ msgs, last) ]
      ]
