-- ===== src/Tests/NetworkRuns.antt =====
-- Runs of the mesh and of the simulated network, with the natural numbers for `f64`.
use Prim.Native.Nat.{ℕ, ◌+◌, ◌-◌, ◌<◌, ◌≤◌, ◌*◌, min}
use drone_swarm_lab.Base.{
  String, Bool, ◌≡◌, ◌==◌, refl, ◌⊎◌, false, some, List, [], ◌∷◌, ◌++◌, arith, ltb, leb, nat_eq,
  any, contains, filter, length,
}
use drone_swarm_lab.HashMap.{HashMap, get, insert}
use drone_swarm_lab.Types.{Pose, alive, is_alive_health}
use drone_swarm_lab.Reallocation.{ConnectivitySnapshot}
use drone_swarm_lab.Protocol.{RawMessage}
use drone_swarm_lab.Connectivity.{
  Floats, neighbors, push_neighbor, direct_link, link_pair, link_row, link_all, alive_nodes,
  mesh_nodes, build_adjacency, hop_count_between, reachability_from_base,
}
use drone_swarm_lab.Connectivity.Shortest.{Walk, here, step}
use drone_swarm_lab.Connectivity.Hops.{hop_count_between_shortest, reachability_from_base_reaches}
use drone_swarm_lab.Network.{
  Rng, NetworkConfig, InMemNetwork, InMemAgentTransport, new, send, hops_to, poll_until_empty,
  queue_of, pair_eq, ordered_pair,
}
use drone_swarm_lab.Network.Queues.{count, waiting, later}
use drone_swarm_lab.Network.Delivery.{
  Dropped, Queued, Hindered, is_lost, delivery_at, send_outcomes,
}
use drone_swarm_lab.Network.Conservation.{
  NetworkOp, transmit, drain_queue, next_tick, run, sent, bytes, labelled, lost, run-new,
}
use drone_swarm_lab.Network.Polls.{ready, poll_until_empty_lem}

-- Distances are sums, and 1000 is beyond all ranges.
abbrev pub numbers : Floats ℕ
numbers = record {
  add = λ a b. a + b;
  sub = λ a b. (a - b) + (b - a);
  mul = λ a b. a;
  div = λ a b. a;
  min = min;
  sqrt = λ a. a;
  infinity = 1000;
  is_infinite = λ a. nat_eq a 1000;
  le = leb;
  lt = ltb;
  of_usize = λ n. n;
}

abbrev at_x : ℕ → Pose ℕ
at_x x = record { x = x; y = 0; z = 0 }

-- The base reaches the first agent, and the first agent the second.
abbrev mesh : ConnectivitySnapshot ℕ
mesh = record {
  agent_entries = ("a1", at_x 10, 10, alive) ∷ ("a2", at_x 20, 10, alive) ∷ [];
  ground_nodes = [];
  base_id = "base";
  base_pose = at_x 0;
}

two_hops : Walk (build_adjacency numbers mesh) "base" 2 "a2"
unfolding build_adjacency mesh_nodes alive_nodes is_alive_health link_all link_row link_pair
    direct_link push_neighbor neighbors get insert contains
two_hops = step {u = "a1"} (step here refl) refl

hop_count_between_shortest_example :
    (h : ℕ) × (hop_count_between numbers mesh "base" "a2" ≡ some (some h))
    × Walk (build_adjacency numbers mesh) "base" h "a2"
    × (h ≤ 2)
hop_count_between_shortest_example = hop_count_between_shortest numbers mesh "base" "a2" two_hops

reachability_from_base_reaches_example :
    (r : HashMap ℕ) × (reachability_from_base numbers mesh ≡ some r)
    × (k : ℕ) × (get "a2" r ≡ some k)
    × (k ≤ 2)
    × Walk (build_adjacency numbers mesh) "base" k "a2"
reachability_from_base_reaches_example = reachability_from_base_reaches numbers mesh two_hops

-- A generator that gives the same numbers again and again.
abbrev steady : Rng ℕ Unit
steady = record { seed_from_u64 = λ s. tt; gen_f64 = λ s. (5, s); gen_u64 = λ s. (7, s) }

abbrev config : NetworkConfig ℕ
config = record {
  packet_loss_rate = 0;
  latency_ticks = 1;
  latency_per_hop = 1;
  seed = 3;
  partitions = [];
  comms_jitter_ticks = 2;
}

abbrev clamp : ℕ → ℕ
clamp a = a

abbrev ping : RawMessage
ping = record { from = "a1"; to = "a2"; payload = 80 ∷ 73 ∷ [] }

abbrev fresh : InMemNetwork ℕ Unit
fresh = new steady config

abbrev ops : List (NetworkOp ℕ)
ops =
    transmit ping
    ∷ next_tick
    ∷ transmit ping
    ∷ next_tick
    ∷ next_tick
    ∷ next_tick
    ∷ drain_queue "a2"
    ∷ []

-- The messages that a2 gets.
abbrev to_a2 : String × RawMessage → Bool
to_a2 e = e.0 == "a2"

run-new_example :
    ((run numbers clamp steady ops fresh).1.messages_attempted ≡ length (sent ops))
    × ((run numbers clamp steady ops fresh).1.bytes_sent ≡ bytes (sent ops))
    × ((run numbers clamp steady ops fresh).1.messages_dropped
        ≡ length (lost numbers clamp steady ops fresh))
    × (count to_a2 (labelled (sent ops))
        ≡ count to_a2 (labelled (lost numbers clamp steady ops fresh))
          + waiting to_a2 (run numbers clamp steady ops fresh).1.in_flight
          + count to_a2 (run numbers clamp steady ops fresh).0)
run-new_example = run-new numbers clamp steady to_a2 ops config

send_outcomes_example :
    Dropped fresh (send numbers clamp steady ping fresh) × Hindered numbers clamp steady ping fresh
    ⊎ ((hops jitter : ℕ) × Queued ping
          (delivery_at fresh hops jitter)
          fresh
          (send numbers clamp steady ping fresh)
        × (jitter ≤ 2 * fresh.config.comms_jitter_ticks)
        × (hops_to numbers fresh ping ≡ some hops)
        × (any (pair_eq (ordered_pair "a1" "a2")) fresh.partitions ≡ false)
        × (is_lost numbers clamp steady fresh ≡ false))
send_outcomes_example = send_outcomes numbers clamp steady ping fresh

-- A message in the buffer, one that is due and one that is not.
abbrev transport : InMemAgentTransport ℕ Unit
transport = record {
  bus = record fresh { in_flight = ("a2", (0, ping) ∷ (9, ping) ∷ []) ∷ [] };
  own_id = "a2";
  buffer = ping ∷ [];
}

poll_fuel : length transport.buffer + length (ready transport) < 3
unfolding new queue_of get filter
poll_fuel = omega arith

poll_until_empty_lem_example :
    (t' : InMemAgentTransport ℕ Unit) × (poll_until_empty 3 transport
      ≡ some (transport.buffer ++ ready transport, t'))
    × (t'.buffer ≡ [])
    × (queue_of "a2" t'.bus.in_flight
        ≡ later transport.bus.current_tick (queue_of "a2" transport.bus.in_flight))
poll_until_empty_lem_example = poll_until_empty_lem transport 3 poll_fuel
