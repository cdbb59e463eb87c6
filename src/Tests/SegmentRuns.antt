-- ===== src/Tests/SegmentRuns.antt =====
-- Runs of the segment coordinator and of the duplicate suppressor. Times are ticks, and the
-- transport counts what it sends.
use drone_swarm_lab.Base.{
  ℕ, ◌+◌, String, true, false, ◌≡◌, refl, Option, none, some, List, [], ◌∷◌, ltb, leb,
  if◌then◌else◌, filter, any, Result, ok, err, arith,
}
use drone_swarm_lab.HashMap
use drone_swarm_lab.Mission.{Lease, is_valid_at}
use drone_swarm_lab.Protocol.{
  SwarmMessage, SwarmMessageEnvelope, RawMessage, DuplicateSuppressor, is_duplicate,
  segment_reserve, segment_release, schema_version_v1, from_raw_message,
}
use drone_swarm_lab.Protocol.Duplicates.{feed, recorded_suppressed}
use drone_swarm_lab.Segments.{
  World, UrbanSegmentLock, SegmentCoordinator, first_come, handle_release, tick_to_time,
}
use drone_swarm_lab.Segments.Handlers.{handle_incoming}
use drone_swarm_lab.Segments.Handlers.Run.{handle_incoming-keeps}

abbrev envelope : String → SwarmMessage ℕ ℕ ℕ ℕ → SwarmMessageEnvelope ℕ ℕ ℕ ℕ
envelope from message = record {
  schema_version = schema_version_v1;
  envelope_id = "e";
  correlation_id = none;
  from = from;
  to = "coordinator";
  sent_at = 0;
  ttl_ticks = 10;
  message = message;
}

abbrev parse_bytes : List ℕ → Option (SwarmMessageEnvelope ℕ ℕ ℕ ℕ)
parse_bytes [] = none
parse_bytes (b ∷ bytes) = some (
    if leb 2 b
    then envelope "a1" (segment_release "edge-1" "lease-1")
    else envelope "a2" (segment_reserve "edge-1" 0 "a2" 5))

abbrev counting : World ℕ ℕ ℕ ℕ ℕ String
counting = record {
  send = λ raw n. (n + 1, ok tt);
  parse = parse_bytes;
  render = λ e. [];
  show_number = λ n. "n";
  timestamp_opt = λ n. some n;
  unix_epoch = 0;
  time_lt = ltb;
}

abbrev edge_lock : UrbanSegmentLock
edge_lock = record {
  edge_id = "edge-1";
  holder_agent_id = "a1";
  acquired_at_tick = 1;
  segment_index = 0;
}

abbrev edge_lease : Lease ℕ
edge_lease = record {
  lease_id = "lease-1";
  holder = "a1";
  resource_id = "edge-1";
  resource_kind = "urban_edge";
  granted_at = 1;
  expires_at = 31;
}

abbrev one_lock : SegmentCoordinator ℕ ℕ
one_lock = record {
  transport = 0;
  coordinator_id = "coordinator";
  active_locks = ("edge-1", (edge_lock, edge_lease)) ∷ [];
  policy = first_come;
  priorities = [];
  default_lease_ticks = 30;
}

abbrev raw : ℕ → RawMessage
raw b = record { from = "a"; to = "coordinator"; payload = b ∷ [] }

abbrev requests : List (Result String RawMessage)
requests = ok (raw 1) ∷ ok (raw 1) ∷ err "closed" ∷ ok (raw 2) ∷ []

release_then_grant :
    HashMap.get "edge-1"
      (handle_incoming counting 5 (ok (raw 2) ∷ ok (raw 1) ∷ []) one_lock).0.active_locks
    ≡ some (
      record {
        edge_id = "edge-1";
        holder_agent_id = "a2";
        acquired_at_tick = 5;
        segment_index = 0;
      },
      record {
        lease_id = "lease-edge-1-a2-n";
        holder = "a2";
        resource_id = "edge-1";
        resource_kind = "urban_edge";
        granted_at = 5;
        expires_at = 35;
      },
    )
unfolding handle_incoming handle_release HashMap.get HashMap.insert HashMap.remove filter
release_then_grant = refl

handle_incoming-keeps_example :
    HashMap.get "edge-1" (handle_incoming counting 5 requests one_lock).0.active_locks
    ≡ some (edge_lock, edge_lease)
unfolding HashMap.get tick_to_time is_valid_at from_raw_message
handle_incoming-keeps_example =
    handle_incoming-keeps counting 5 "edge-1" requests one_lock edge_lock edge_lease (refl, tt) refl
      refl refl

abbrev small : DuplicateSuppressor
small = record { seen = "m0" ∷ "m1" ∷ []; window = 2 }

forgets_oldest : (is_duplicate "m0" (feed ("m2" ∷ []) small)).1 ≡ false
unfolding is_duplicate feed any
forgets_oldest = refl

recorded_suppressed_example :
    (is_duplicate "m2" (feed ("m1" ∷ []) (is_duplicate "m2" small).0)).1 ≡ true
unfolding is_duplicate any
recorded_suppressed_example = recorded_suppressed "m2" ("m1" ∷ []) small refl (omega arith)
