-- ===== src/Lib.antt =====
-- The coordination core of the drone swarm laboratory: how a swarm of agents shares out tasks,
-- notices that agents have failed, and comes back to one view of who does what after messages
-- were lost, repeated or reordered.
--
-- Each agent node keeps a coordinator. It holds the registry of tasks, the membership view of the
-- other agents and a failure detector. In a tick the node takes in heartbeats and gossip, runs the
-- coordinator's tick (injection, detection, release, expiry), and lets an allocator hand out the
-- open tasks again.
--
-- At the end of a tick the node's autonomy step watches the links to its peers, its mothership and
-- its ground station, and changes the mission state when one falls silent or returns. In urban
-- missions the segments of a route are locked: over the network by leases of a segment coordinator,
-- which speaks the swarm protocol, or in shared memory by a registry of locks.
--
-- Which file models what (paths from the repository's root, below crates/):
--   Types                swarm-types/src/{pose, task, agent}.rs: the shared data.
--   HashMap              std's HashMap keyed by ids, as an association list. Its order stands for
--                        the unspecified order of the program's tables.
--   Registry             swarm-runtime/src/task_registry.rs and error.rs: every method of
--                        TaskRegistry that changes tasks. Ops gathers them in one type, insert
--                        among them, and the other children hold the theorems.
--   Membership           swarm-runtime/src/membership.rs and failure.rs: MembershipView without
--                        movement and environment effects, and FailureDetector.
--   Coordinator          swarm-runtime/src/coordinator.rs: process_tick and inject_task.
--   Gossip               swarm-runtime/src/message.rs and node/gossip.rs: the merge of gossip.
--   Reallocation         swarm-runtime/src/node/reallocation.rs: allocate_unassigned.
--   Autonomy             swarm-runtime/src/autonomy.rs and the autonomy part of
--                        process_inbox_and_allocate in node/runtime.rs: peers, mothership, GCS.
--   Mission, Protocol    swarm-comms/src/swarm_protocol.rs and transport.rs: leases, mission states,
--                        messages, envelopes and the suppression of duplicates.
--   Segments             swarm-sim/src/urban/segment_coordinator.rs: the leases of route segments.
--   Deconfliction        swarm-sim/src/urban/deconfliction.rs: the locks of route segments in shared
--                        memory, with the right-of-way policies. A panic is the value none.
--   Connectivity         swarm-comms/src/connectivity.rs: the radio mesh and its two searches.
--   Network              swarm-comms/src/network.rs: the simulated network and an agent's transport.
--   Mavlink              swarm-comms/src/mavlink/{types, errors, observer, mission_items,
--                        mission_upload}.rs: the upload of a mission to a vehicle. Session has the
--                        connection and the waits, Items the messages, Upload the handshake.
--   Command              swarm-command-plane/src: the command plan of a swarm, its validation, what
--                        follows from a failed agent, and synchronized commands. Topology has the
--                        routes over the logical topology and the cycles of its dependencies,
--                        Validation/Topology their validation, Fanout the building of a plan.
--   Cbba                 swarm-alloc/src/cbba.rs: the consensus-based bundle algorithm.
--   Node                 swarm-runtime/src/node/runtime.rs: the coordination in the tick of a node, in
--                        which the components above meet.
--   Tests                runs on concrete data.
--
-- How code corresponds to definitions: a method with &mut self takes the state last and returns
-- the new state, with its result beside it; a Result is the type Result of Base/Results; a method
-- that checks before it writes returns its error without a state. A loop is a recursion on the
-- list it runs over, and its body is a definition of its own. The loop of handle_incoming polls a
-- transport; the list is what the transport returns in that call before it has no more.
--
-- Fuel: the searches of Connectivity run on as much fuel as the lists of neighbours have entries,
-- and two more, since a node is queued only when it is first seen; so do those of
-- Command/Topology. The way back along the predecessors is at most as long as their table, and the
-- search for a cycle at most as deep as there are ids, since an agent on the way is not entered
-- again. The loop of polls of Network runs on any fuel above the number of messages that the
-- transport holds. A wait of Mavlink has no bound of its own, as the code has none: it runs on the
-- fuel it is given. A loop that its fuel does not suffice for is the value none.
--
-- Numbers: ticks and generations are u64 in the code and natural numbers here. Mostly the code
-- compares them and subtracts with saturation, which is what subtraction of natural numbers does,
-- so no bound on them is needed; where it saturates at the top, saturating_mul and saturating_add
-- write the bound out. The network adds and multiplies configured values without a check: there the
-- sums are taken modulo 2 ^ 64, as a release build computes them (a debug build panics). Counters
-- and clocks that go up by one at a time have no bound here. f64 is a type parameter F, and what the code computes with it is an
-- operation given as an argument (FloatOps of Membership, Floats of Connectivity, BidFloats of
-- Cbba).
--
-- Parameters: the allocator of Reallocation, with its own state, is any function of the type
-- Allocator. The transport, the JSON text, the calendar of chrono and the printing of numbers are
-- arguments too (World of Segments, at_millis of Autonomy), and so is the random generator of the
-- network (Rng). So are a vehicle, its clock and the conversion of coordinates (Vehicle, Numbers),
-- and whether the MAVLink compiler accepts the commands of an agent, in the fan-out of a command
-- plan. What a theorem needs of one of them stands among its hypotheses.
--
-- Not modelled: movement and battery effects (floating point), allocators, the rest of MAVLink,
-- simulation drivers, replay and reports. Of a node's tick the movement is left out, and of CBBA
-- its allocation for the benchmark harness. The iteration order of HashMap is not specified by
-- std; theorems speak of lookups, of memberships and of counts.
pub mod Base
pub mod HashMap
pub mod Types
pub mod Registry
pub mod Membership
pub mod Coordinator
pub mod Gossip
pub mod Reallocation
pub mod Mission
pub mod Autonomy
pub mod Protocol
pub mod Segments
pub mod Deconfliction
pub mod Connectivity
pub mod Network
pub mod Mavlink
pub mod Command
pub mod Cbba
pub mod Node
mod Tests
