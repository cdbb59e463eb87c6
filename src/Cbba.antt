-- ===== src/Cbba.antt =====
-- crates/swarm-alloc/src/cbba.rs: the consensus-based bundle algorithm, as the node uses it: the
-- building of bundles, the merge of remote bids, and convergence. The allocation of the benchmark
-- harness (allocate), with its fields, is left out. The arithmetic of `f64` is the parameter
-- `BidFloats`.
pub mod Bundles
pub mod Bids
use drone_swarm_lab.Base.{
  ℕ, ◌+◌, String, Bool, true, false, not, ◌&&◌, ◌||◌, ◌==◌, nat_eq, leb, if◌then◌else◌, is_empty,
  Option, none, some, List, [], ◌∷◌, ◌++◌, map, filter, any, contains, length,
}
use drone_swarm_lab.HashMap.{HashMap, get, insert, modify}
use drone_swarm_lab.Types.{Pose, Role, Task}
use drone_swarm_lab.Connectivity.{Floats}
use drone_swarm_lab.Reallocation.{AllocationAgent}

-- What the crate uses of `f64`, with `-`, `NEG_INFINITY` and the literal 0.1.
pub record BidFloats (F : Type 0) : Type 0 where
  pub floats : Floats F
  pub neg : F → F
  pub neg_infinity : F
  pub tenth : F
  pub eq : F → F → Bool

pub record CbbaConfig (F : Type 0) : Type 0 where
  pub max_bundle_size : ℕ
  pub max_rounds : ℕ
  pub score_weight_distance : F
  pub score_weight_battery : F

-- The winner of each task, with its bid.
abbrev pub WinningBids : Type 0 → Type 0
WinningBids F = HashMap (String × F)

pub record CbbaAllocator (F : Type 0) : Type 0 where
  pub config : CbbaConfig F
  pub bundles : HashMap (List String)
  pub winning_bids : WinningBids F
  pub prev_winning_bids : WinningBids F
  pub current_round : ℕ
  pub converged : Bool
  pub messages_exchanged : ℕ

role_index : Role → ℕ
role_index Role.scout = 0
role_index Role.relay = 1
role_index Role.mapper = 2
role_index Role.inspector = 3
role_index Role.carrier = 4
role_index Role.thermal = 5

-- `bundles.entry(id).or_default()`, read and written
unfoldable pub bundle_of : String → HashMap (List String) → List String
bundle_of id m = elim (get id m) [ none ↦ [] | some bundle ↦ bundle ]

unfoldable pub or_default : String → HashMap (List String) → HashMap (List String)
or_default id m = elim (get id m) [ none ↦ insert id [] m | some bundle ↦ m ]

unfoldable pub current_assignments : HashMap (List String) → List (String × String)
current_assignments [] = []
current_assignments ((agent_id, bundle) ∷ m) =
    map (λ task_id. (task_id, agent_id)) bundle ++ current_assignments m

module _ {F : Type 0} where
  unfoldable pub has_all_capabilities : AllocationAgent F → List String → Bool
  unfolding any contains
  has_all_capabilities agent required =
      not (any (λ cap. not (contains agent.capabilities cap)) required)

  unfoldable pub has_required_role : AllocationAgent F → Option Role → Bool
  unfolding role_index
  has_required_role agent none = true
  has_required_role agent (some r) = nat_eq (role_index agent.role) (role_index r)

  -- `new`, but for the fields that are left out
  unfoldable pub new : CbbaConfig F → CbbaAllocator F
  new config = record {
    config = config;
    bundles = [];
    winning_bids = [];
    prev_winning_bids = [];
    current_round = 0;
    converged = false;
    messages_exchanged = 0;
  }

module _ {F : Type 0} (fl : BidFloats F) where
  unfoldable pub distance_to : Pose F → Pose F → F
  distance_to a b =
      let f = fl.floats in
      let dx = f.sub a.x b.x in
      let dy = f.sub a.y b.y in
      let dz = f.sub a.z b.z in f.sqrt (f.add (f.add (f.mul dx dx) (f.mul dy dy)) (f.mul dz dz))

  -- `task.pose.unwrap_or(..)`
  unfoldable pub pose_or_origin : Option (Pose F) → Pose F
  pose_or_origin none = let o = fl.floats.of_usize 0 in record { x = o; y = o; z = o }
  pose_or_origin (some p) = p

  unfoldable pub marginal_score : CbbaConfig F → AllocationAgent F → Task F → List String → F
  unfolding distance_to pose_or_origin has_all_capabilities has_required_role
  marginal_score config agent task bundle =
      let f = fl.floats in
      let dist = distance_to agent.pose (pose_or_origin task.pose) in
      let base =
        f.add (f.mul (fl.neg config.score_weight_distance) dist)
          (f.mul config.score_weight_battery agent.battery) in
      if not (has_all_capabilities agent task.required_capabilities)
        || not (has_required_role agent task.required_role)
        || f.le agent.battery (f.of_usize 0)
      then fl.neg_infinity
      else if is_empty bundle
      then base
      else f.sub base (f.mul (f.mul (f.of_usize (length bundle)) fl.tenth) dist)

  -- Another agent's bid is at least as high.
  unfoldable pub is_outbid : Option (String × F) → String → F → Bool
  is_outbid none agent_id score = false
  is_outbid (some (winner, existing_bid)) agent_id score =
      not (winner == agent_id) && fl.floats.le score existing_bid

  -- The body of the loop over the tasks: the best score and the best task so far.
  unfoldable pub consider :
      CbbaAllocator F
      → AllocationAgent F
      → List String
      → Task F
      → F × Option String
      → F × Option String
  unfolding marginal_score is_outbid contains
  consider c agent bundle task (best_score, best) =
      let score = marginal_score c.config agent task bundle in
      if contains bundle task.id
      then (best_score, best)
      else if fl.floats.le score (fl.floats.add fl.neg_infinity (fl.floats.of_usize 1))
      then (best_score, best)
      else if is_outbid (get task.id c.winning_bids) agent.id score
      then (best_score, best)
      else if fl.floats.lt best_score score
      then (score, some task.id)
      else (best_score, best)

  unfoldable pub best_task :
      CbbaAllocator F
      → AllocationAgent F
      → List String
      → List (Task F)
      → F × Option String
      → F × Option String
  unfolding consider
  best_task c agent bundle [] s = s
  best_task c agent bundle (task ∷ tasks) s =
      best_task c agent bundle tasks (consider c agent bundle task s)

  unfoldable pub win_task :
      AllocationAgent F → F × Option String → CbbaAllocator F → CbbaAllocator F
  win_task agent (score, none) c = c
  win_task agent (score, some task_id) c =
      if fl.floats.lt fl.neg_infinity score
      then record c {
        bundles = modify agent.id (λ bundle. bundle ++ task_id ∷ []) c.bundles;
        winning_bids = insert task_id (agent.id, score) c.winning_bids;
      }
      else c

  -- The body of the loop over the agents.
  unfoldable pub build_bundle :
      List (Task F) → AllocationAgent F → CbbaAllocator F → CbbaAllocator F
  unfolding bundle_of or_default best_task win_task
  build_bundle tasks agent c =
      let bundle = bundle_of agent.id c.bundles in
      let entered : CbbaAllocator F = record c { bundles = or_default agent.id c.bundles } in
      if leb c.config.max_bundle_size (length bundle)
      then entered
      else win_task agent (best_task entered agent bundle tasks (fl.neg_infinity, none)) entered

  unfoldable pub build_all :
      List (Task F) → List (AllocationAgent F) → CbbaAllocator F → CbbaAllocator F
  unfolding build_bundle
  build_all tasks [] c = c
  build_all tasks (agent ∷ agents) c = build_all tasks agents (build_bundle tasks agent c)

  unfoldable pub build_bundles :
      List (AllocationAgent F) → List (Task F) → CbbaAllocator F → CbbaAllocator F
  unfolding build_all
  build_bundles agents tasks c = if c.converged then c else build_all tasks agents c

  -- `if !bundle.contains(task_id) { bundle.push(task_id) }`
  unfoldable pub push_new : String → List String → List String
  unfolding contains
  push_new task_id bundle = if contains bundle task_id then bundle else bundle ++ task_id ∷ []

  -- One remote bid.
  unfoldable pub apply_bid : String → String × F → CbbaAllocator F → CbbaAllocator F
  unfolding push_new filter
  apply_bid task_id (remote_agent, remote_bid) c = elim (get task_id c.winning_bids) [
    | none ↦ record c { winning_bids = insert task_id (remote_agent, remote_bid) c.winning_bids }
    | some (local_agent, local_bid) ↦
        if fl.floats.lt local_bid remote_bid
        then record c {
          bundles =
              modify remote_agent (push_new task_id)
                (modify local_agent (filter (λ t. not (t == task_id))) c.bundles);
          winning_bids = insert task_id (remote_agent, remote_bid) c.winning_bids;
        }
        else c
  ]

  unfoldable pub apply_bids : WinningBids F → CbbaAllocator F → CbbaAllocator F
  unfolding apply_bid
  apply_bids [] c = c
  apply_bids ((task_id, bid) ∷ bids) c = apply_bids bids (apply_bid task_id bid c)

  unfoldable pub apply_senders : List (String × WinningBids F) → CbbaAllocator F → CbbaAllocator F
  unfolding apply_bids
  apply_senders [] c = c
  apply_senders ((sender, bids) ∷ remote) c = apply_senders remote (apply_bids bids c)

  unfoldable pub apply_remote_bids :
      List (String × WinningBids F) → CbbaAllocator F → CbbaAllocator F
  unfolding apply_senders
  apply_remote_bids remote c =
      let applied = apply_senders remote c in
      if c.converged
      then c
      else record applied { messages_exchanged = applied.messages_exchanged + length remote }

  -- Each bid of the one table is in the other.
  unfoldable pub bids_within : WinningBids F → WinningBids F → Bool
  bids_within [] m = true
  bids_within ((task_id, (agent_id, bid)) ∷ bids) m =
      let rest = bids_within bids m in
      elim (get task_id m) [
        | none ↦ false
        | some (other, value) ↦ (agent_id == other && fl.eq bid value) && rest
      ]

  -- The derived equality of tables with an entry for each key.
  unfoldable pub bids_eq : WinningBids F → WinningBids F → Bool
  unfolding bids_within
  bids_eq a b = nat_eq (length a) (length b) && bids_within a b

  unfoldable pub check_convergence : CbbaAllocator F → CbbaAllocator F × Bool
  unfolding bids_eq
  check_convergence c =
      if c.converged
      then (c, true)
      else if bids_eq c.prev_winning_bids c.winning_bids && not (is_empty c.winning_bids)
      then (record c { converged = true }, true)
      else if leb c.config.max_rounds c.current_round
      then (record c { prev_winning_bids = c.winning_bids; converged = true }, true)
      else (record c { prev_winning_bids = c.winning_bids }, false)
