-- ===== src/Tests/NodeRuns.antt =====
-- Runs of the bundle algorithm and of the coordination of a node.
use drone_swarm_lab.Base.{
  ℕ, ◌≡◌, refl, String, true, false, nat_eq, Option, none, some, List, [], ◌∷◌, ◌++◌, any, contains,
}
use drone_swarm_lab.HashMap.{get, insert, modify}
use drone_swarm_lab.Types.{Role, Task}
use drone_swarm_lab.Reallocation.{AllocationAgent, Allocator}
use drone_swarm_lab.Gossip.{RuntimeMessage, heartbeat}
use drone_swarm_lab.Cbba.{
  BidFloats, CbbaAllocator, bundle_of, or_default, current_assignments, distance_to, pose_or_origin,
  has_all_capabilities, has_required_role, marginal_score, is_outbid, consider, best_task, win_task,
  build_bundle, build_all, build_bundles, apply_remote_bids,
}
use drone_swarm_lab.Cbba.Bundles.{IsBounded, build_bundles-IsBounded}
use drone_swarm_lab.Cbba.Bids.{Rises, apply_remote_bids-Rises}
use drone_swarm_lab.Node.{AgentNode, World, maybe_send_gossip}
use drone_swarm_lab.Node.Sends.{round_of, maybe_send_gossip-sends}
use drone_swarm_lab.Node.Detection.{heartbeats_in, coordinate_all}
use drone_swarm_lab.Protocol.{RawMessage}
use drone_swarm_lab.Tests.Data.{free, coordinator}
use drone_swarm_lab.Tests.NetworkRuns.{numbers}

-- A bid is the battery, as all distances are 0; 0 stands for the negative infinity.
abbrev bid_numbers : BidFloats ℕ
bid_numbers = record {
  floats = record numbers { mul = λ a b. b };
  neg = λ a. 0;
  neg_infinity = 0;
  tenth = 0;
  eq = nat_eq;
}

abbrev bidder : String → ℕ → AllocationAgent ℕ
bidder id battery = record {
  id = id;
  pose = record { x = 0; y = 0; z = 0 };
  battery = battery;
  capabilities = [];
  role = Role.scout;
  comms_range = 0;
  speed = 0;
  max_range = 0;
  battery_drain_rate = 0;
}

abbrev bidders : List (AllocationAgent ℕ)
bidders = bidder "a1" 5 ∷ bidder "a2" 9 ∷ []

abbrev start : CbbaAllocator ℕ
start = record {
  config = record {
    max_bundle_size = 2;
    max_rounds = 20;
    score_weight_distance = 1;
    score_weight_battery = 7;
  };
  bundles = [];
  winning_bids = ("t0", ("a1", 4)) ∷ [];
  prev_winning_bids = [];
  current_round = 0;
  converged = false;
  messages_exchanged = 0;
}

build_bundles-IsBounded_example :
    IsBounded 2 (build_bundles bid_numbers bidders (free ∷ []) start).bundles
build_bundles-IsBounded_example = build_bundles-IsBounded bid_numbers bidders (free ∷ []) start tt

apply_remote_bids-Rises_example :
    Rises bid_numbers
      (("t0", ("a1", 4)) ∷ [])
      (apply_remote_bids bid_numbers (("a2", ("t0", ("a2", 6)) ∷ []) ∷ []) start).winning_bids
apply_remote_bids-Rises_example =
    apply_remote_bids-Rises bid_numbers (("a2", ("t0", ("a2", 6)) ∷ []) ∷ []) start

-- The second agent outbids the first for the same task, which stays in the bundle of the first.
outbid_keeps_task :
    current_assignments (build_bundles bid_numbers bidders (free ∷ []) start).bundles
    ≡ ("t1", "a1") ∷ ("t1", "a2") ∷ []
unfolding build_bundles build_all build_bundle bundle_of or_default best_task consider win_task
    marginal_score distance_to pose_or_origin has_all_capabilities has_required_role is_outbid
    current_assignments get insert modify any contains
outbid_keeps_task = refl

-- An empty payload does not decode, and any other is a heartbeat. The transport counts nothing.
abbrev decode : List ℕ → Option (RuntimeMessage ℕ)
decode [] = none
decode (_ ∷ _) = some (heartbeat 9 1)

abbrev wire : World ℕ ℕ
wire = record {
  from_payload = decode;
  to_payload = λ message. [];
  send = λ message sent. (sent, true);
}

abbrev node : AgentNode ℕ ℕ
node = record {
  coordinator = coordinator;
  transport = 0;
  own_id = "a0";
  peer_ids = "a1" ∷ [];
  gossip_interval_ticks = 3;
  generation = 1;
  ticks_since_last_gossip = 0;
  discarded_this_tick = 0;
  cbba_allocator = some start;
}

abbrev hello : RawMessage
hello = record { from = "a1"; to = "a0"; payload = 1 ∷ [] }

abbrev junk : RawMessage
junk = record { from = "a2"; to = "a0"; payload = [] }

abbrev give_first : Allocator ℕ ℕ
give_first s tasks agents c = (s, ("t1", "a0") ∷ [])

heartbeat_decoded : heartbeats_in wire (hello ∷ junk ∷ []) ≡ ("a1", 9, 1) ∷ []
heartbeat_decoded = refl

abbrev one_tick : List (ℕ × List (Task ℕ) × List RawMessage)
one_tick = (4, [], junk ∷ []) ∷ []

abbrev ran : AgentNode ℕ ℕ × ℕ
ran = coordinate_all bid_numbers wire 0 give_first one_tick (node, 0)

-- A transport that logs what it sends, and a node whose gossip is due.
abbrev logged : World ℕ (List RawMessage)
logged = record {
  from_payload = decode;
  to_payload = λ message. [];
  send = λ message sent. (sent ++ message ∷ [], true);
}

abbrev gossiper : AgentNode ℕ (List RawMessage)
gossiper = record {
  coordinator = coordinator;
  transport = [];
  own_id = "a0";
  peer_ids = "a1" ∷ "a2" ∷ [];
  gossip_interval_ticks = 1;
  generation = 1;
  ticks_since_last_gossip = 0;
  discarded_this_tick = 0;
  cbba_allocator = some start;
}

maybe_send_gossip-sends_example :
    ((maybe_send_gossip bid_numbers logged gossiper).transport
      ≡ round_of bid_numbers logged gossiper)
    × ((maybe_send_gossip bid_numbers logged gossiper).ticks_since_last_gossip ≡ 0)
maybe_send_gossip-sends_example =
    maybe_send_gossip-sends bid_numbers logged (λ sent. sent) (λ m tr. refl) (λ m tr. refl) gossiper
