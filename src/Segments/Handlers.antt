-- ===== src/Segments/Handlers.antt =====
-- segment_coordinator.rs: the messages that the coordinator sends, and its handlers.
pub mod Safety
pub mod Run
pub mod Requests
use Prim.Native.String.{◌++◌ as text_append}
use drone_swarm_lab.Base.{
  ℕ, String, Bool, Option, none, some, List, [], ◌∷◌, ◌++◌, ◌==◌, if◌then◌else◌, Result, ok, err,
}
use drone_swarm_lab.HashMap
use drone_swarm_lab.Mission.{Lease}
use drone_swarm_lab.Protocol.{
  SwarmMessage, SwarmMessageEnvelope, RawMessage, SegmentDenyReason, segment_reserve,
  segment_release, segment_grant, segment_deny, into_raw_message, from_raw_message,
  schema_version_v1,
}
use drone_swarm_lab.Segments.{
  World, UrbanSegmentLock, SegmentCoordinator, SegmentCoordinatorError, transport_error, map_error,
  CoordinatorEvent, grant_sent, deny_sent, tick_to_time, lease_for, deny_reason, handle_release,
  expire_leases,
}

-- `send(..)?; events.push(event)`
unfoldable pub push_sent :
    {T S E : Type 0}
    → CoordinatorEvent
    → SegmentCoordinator T S × Result (SegmentCoordinatorError E) (Unit {0})
    → SegmentCoordinator T S × Result (SegmentCoordinatorError E) (List CoordinatorEvent)
push_sent event (c, ok u) = (c, ok (event ∷ []))
push_sent event (c, err e) = (c, err e)

module _ {F T Plan Outcome S E : Type 0} where
  -- The transport's new state is kept, whether it failed or not.
  unfoldable pub send_message :
      World F T Plan Outcome S E
      → ℕ
      → String
      → SwarmMessage F T Plan Outcome
      → SegmentCoordinator T S
      → SegmentCoordinator T S × Result (SegmentCoordinatorError E) (Unit {0})
  unfolding tick_to_time into_raw_message
  send_message w tick to message c =
      let envelope : SwarmMessageEnvelope F T Plan Outcome = record {
        schema_version = schema_version_v1;
        envelope_id = text_append "segment-coordinator-" (
            text_append c.coordinator_id
              (text_append "-" (text_append to (text_append "-" (w.show_number tick)))));
        correlation_id = none;
        from = c.coordinator_id;
        to = to;
        sent_at = tick_to_time w tick;
        ttl_ticks = 10;
        message = message;
      } in
      let (s, r) = w.send (into_raw_message w.render envelope) c.transport in
      (record c { transport = s }, map_error r)

  unfoldable pub send_grant :
      World F T Plan Outcome S E
      → ℕ
      → String
      → String
      → Lease T
      → SegmentCoordinator T S
      → SegmentCoordinator T S × Result (SegmentCoordinatorError E) (Unit {0})
  unfolding send_message
  send_grant w tick edge_id to lease = send_message w tick to (segment_grant edge_id to lease)

  unfoldable pub send_deny :
      World F T Plan Outcome S E
      → ℕ
      → String
      → String
      → String
      → SegmentDenyReason
      → SegmentCoordinator T S
      → SegmentCoordinator T S × Result (SegmentCoordinatorError E) (Unit {0})
  unfolding send_message
  send_deny w tick edge_id to holder reason =
      send_message w tick to (segment_deny edge_id to holder reason)

  -- The events that a handler pushes are its result.
  unfoldable pub handle_reserve :
      World F T Plan Outcome S E
      → ℕ
      → String
      → ℕ
      → String
      → SegmentCoordinator T S
      → SegmentCoordinator T S × Result (SegmentCoordinatorError E) (List CoordinatorEvent)
  unfolding push_sent send_grant send_deny lease_for
  handle_reserve w tick edge_id segment_index requester c =
      elim (HashMap.get edge_id c.active_locks) [
        | some (lock, lease) ↦
            if lock.holder_agent_id == requester
            then push_sent (grant_sent edge_id requester)
                (send_grant w tick edge_id requester lease c)
            else push_sent
                (deny_sent edge_id requester (deny_reason requester lock.holder_agent_id c))
                (send_deny w tick edge_id requester lock.holder_agent_id
                  (deny_reason requester lock.holder_agent_id c) c)
        | none ↦
            let lease = lease_for w tick edge_id requester c in
            let lock : UrbanSegmentLock = record {
              edge_id = edge_id;
              holder_agent_id = requester;
              acquired_at_tick = tick;
              segment_index = segment_index;
            } in
            push_sent (grant_sent edge_id requester) (
              send_grant w tick edge_id requester lease
                (record c { active_locks = HashMap.insert edge_id (lock, lease) c.active_locks }))
      ]

  -- The match on the message of an envelope.
  unfoldable pub handle_message :
      World F T Plan Outcome S E
      → ℕ
      → String
      → SwarmMessage F T Plan Outcome
      → SegmentCoordinator T S
      → SegmentCoordinator T S × Result (SegmentCoordinatorError E) (List CoordinatorEvent)
  unfolding handle_reserve
  handle_message w tick from (segment_reserve edge_id segment_index requester request_tick) c =
      handle_reserve w tick edge_id segment_index requester c
  handle_message w tick from (segment_release edge_id lease_id) c =
      let (c', events) = handle_release edge_id lease_id from c in (c', ok events)
  handle_message w tick from _ c = (c, ok [])

  unfoldable pub handle_raw :
      World F T Plan Outcome S E
      → ℕ
      → RawMessage
      → SegmentCoordinator T S
      → SegmentCoordinator T S × Result (SegmentCoordinatorError E) (List CoordinatorEvent)
  unfolding from_raw_message handle_message
  handle_raw w tick raw c = elim (from_raw_message w.parse raw) [
    | none ↦ (c, ok [])
    | some envelope ↦ handle_message w tick envelope.from envelope.message c
  ]

  -- The loop over what `poll` returns before it returns `None`, and the first error ends it.
  unfoldable pub poll_all :
      World F T Plan Outcome S E
      → ℕ
      → List (Result E RawMessage)
      → List CoordinatorEvent
      → SegmentCoordinator T S
      → SegmentCoordinator T S × Result (SegmentCoordinatorError E) (List CoordinatorEvent)
  unfolding handle_raw
  poll_all w tick [] events c = (c, ok events)
  poll_all w tick (err e ∷ polled) events c = (c, err (transport_error e))
  poll_all w tick (ok raw ∷ polled) events c =
      let (c', r) = handle_raw w tick raw c in
      elim r [ err e ↦ (c', err e) | ok more ↦ poll_all w tick polled (events ++ more) c' ]

  unfoldable pub handle_incoming :
      World F T Plan Outcome S E
      → ℕ
      → List (Result E RawMessage)
      → SegmentCoordinator T S
      → SegmentCoordinator T S × Result (SegmentCoordinatorError E) (List CoordinatorEvent)
  unfolding poll_all expire_leases
  handle_incoming w tick polled c =
      let (c', events) = expire_leases w tick c in poll_all w tick polled events c'
