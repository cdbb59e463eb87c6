-- ===== src/Node/Detection.antt =====
-- The failures that a node detects in a tick, from the heartbeats in its inbox.
use drone_swarm_lab.Base.{ℕ, ◌+◌, String, ◌≡◌, none, some, Option, List, [], ◌∷◌, ◌++◌}
use drone_swarm_lab.HashMap
use drone_swarm_lab.HashMap.{HashMap}
use drone_swarm_lab.Types.{Task}
use drone_swarm_lab.Membership.{MembershipView, AgentEntry, record_heartbeat}
use drone_swarm_lab.Protocol.{RawMessage}
use drone_swarm_lab.Gossip.{heartbeat, gossip, cbba}
use drone_swarm_lab.Reallocation.{Allocator}
use drone_swarm_lab.Cbba.{BidFloats}
use drone_swarm_lab.Node.{AgentNode, World, CoordinationOutput, record_all, coordinate}

module _ {F Tr : Type 0} (world : World F Tr) where
  -- The heartbeat that a message decodes to, with its sender.
  abbrev pub heartbeat_of : RawMessage → List (String × ℕ × ℕ)
  heartbeat_of msg = elim (world.from_payload msg.payload) [
    | none ↦ []
    | some (heartbeat tick generation) ↦ (msg.from, tick, generation) ∷ []
    | some (gossip _ _) ↦ []
    | some (cbba _ _ _) ↦ []
  ]

  -- The heartbeats of an inbox, in its order.
  abbrev pub heartbeats_in : List RawMessage → List (String × ℕ × ℕ)
  heartbeats_in [] = []
  heartbeats_in (msg ∷ inbox) = heartbeat_of msg ++ heartbeats_in inbox

  abbrev pub undecoded : List RawMessage → ℕ
  undecoded [] = 0
  undecoded (msg ∷ inbox) =
      elim (world.from_payload msg.payload) [ none ↦ 1 | some _ ↦ 0 ] + undecoded inbox

module _ {F Tr : Type 0} (fl : BidFloats F) (world : World F Tr) where
  -- What the membership of a node and its detector depend on is the same in both.
  record IsSameView (m n : AgentNode F Tr) : Type 0 where
    membership : m.coordinator.membership ≡ n.coordinator.membership
    detector : m.coordinator.detector ≡ n.coordinator.detector
    own_id : m.own_id ≡ n.own_id
    generation : m.generation ≡ n.generation

  abbrev pub entry_in : String → MembershipView F → Option (AgentEntry F)
  entry_in k view = HashMap.get k view.agents

  -- The membership of a node after its own heartbeat and those of an inbox.
  abbrev pub heard_by : ℕ → List RawMessage → AgentNode F Tr → MembershipView F
  heard_by now inbox n =
      record_all (heartbeats_in world inbox)
        (record_heartbeat n.own_id now n.generation n.coordinator.membership)

module _ {F Tr S : Type 0} (fl : BidFloats F) (world : World F Tr) (zero_float : F)
    (allocate : Allocator F S) where
  -- What a coordination reports.
  abbrev pub report : ℕ → List (Task F) → List RawMessage → AgentNode F Tr × S → CoordinationOutput
  report now injected inbox state =
      (coordinate fl world zero_float allocate now injected inbox state).1

  -- Coordinations one after another, each at a tick and with its injected tasks and its inbox.
  unfoldable pub coordinate_all :
      List (ℕ × List (Task F) × List RawMessage) → AgentNode F Tr × S → AgentNode F Tr × S
  coordinate_all [] state = state
  coordinate_all ((now, injected, inbox) ∷ ticks) state =
      coordinate_all ticks (coordinate fl world zero_float allocate now injected inbox state).0
