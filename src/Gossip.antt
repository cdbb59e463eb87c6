-- ===== src/Gossip.antt =====
-- crates/swarm-runtime/src/message.rs and node/gossip.rs: the messages between nodes, and the merge
-- of gossiped assignments and generations. The JSON payload is written and read by serde, which is
-- a parameter where it is used.
pub mod Runs
pub mod Conflicts
pub mod Keyed
use drone_swarm_lab.Base.{
  ℕ, ◌+◌, String, Bool, true, false, ◌&&◌, ◌||◌, not, Option, none, some, List, [], ◌∷◌, ◌==◌, ltb,
  nat_eq, if◌then◌else◌, find, after, text_lt, text_le,
}
use drone_swarm_lab.HashMap
use drone_swarm_lab.HashMap.{HashMap}
use drone_swarm_lab.Types.{Task}
use drone_swarm_lab.Registry
use drone_swarm_lab.Registry.{TaskRegistry}
use drone_swarm_lab.Membership
use drone_swarm_lab.Membership.{MembershipView}
use drone_swarm_lab.Coordinator.{Coordinator}

-- A winning bid; its value is an `f64`.
pub record CbbaBid (F : Type 0) : Type 0 where
  pub agent_id : String
  pub value : F

pub data RuntimeMessage (F : Type 0) : Type 0 where
  heartbeat : ℕ → ℕ → RuntimeMessage F
  gossip : HashMap String → HashMap ℕ → RuntimeMessage F
  cbba : ℕ → HashMap (CbbaBid F) → List String → RuntimeMessage F

-- `sort_by(|(left, _), (right, _)| left.cmp(right))` on the entries of a table.
module _ {ℓ} {V : Type ℓ} where
  unfoldable pub insert_sorted : String × V → HashMap V → HashMap V
  insert_sorted e [] = e ∷ []
  insert_sorted e (f ∷ m) =
      let rest = insert_sorted e m in if text_le e.0 f.0 then e ∷ f ∷ m else f ∷ rest

  unfoldable pub sort_by_id : HashMap V → HashMap V
  unfolding insert_sorted
  sort_by_id [] = []
  sort_by_id (e ∷ m) = insert_sorted e (sort_by_id m)

-- What the loop changes: the registry, and the counts of merged and of stale assignments.
pub record Merge (F : Type 0) : Type 0 where
  pub registry : TaskRegistry F
  pub merged : ℕ
  pub stale : ℕ

-- `unwrap_or(1)`
abbrev pub or_one : Option ℕ → ℕ
or_one none = 1
or_one (some g) = g

module _ {F : Type 0} where
  -- `registry.tasks().find(|task| task.id == id).and_then(|task| task.assigned_to)`
  unfoldable pub local_owner : String → TaskRegistry F → Option String
  local_owner task_id r = elim (find (λ t. t.id == task_id) (HashMap.values r.tasks)) [
    | none ↦ none
    | some t ↦ t.assigned_to
  ]

  -- Whether a remote claim beats the local one: by generation, then by id.
  unfoldable pub remote_wins : MembershipView F → HashMap ℕ → String → String → Bool
  remote_wins view generations remote owner =
      let local_generation = Membership.generation_of owner view in
      let remote_generation = or_one (HashMap.get remote generations) in
      ltb local_generation remote_generation
      || (nat_eq remote_generation local_generation && text_lt owner remote)

  -- `let _ = registry.assign(..); merged += 1`
  unfoldable pub merge_claim : String → String → Merge F → Merge F
  merge_claim task_id remote m = record m {
    registry = after m.registry (Registry.assign task_id remote m.registry);
    merged = m.merged + 1;
  }

  unfoldable pub count_stale : Merge F → Merge F
  count_stale m = record m { stale = m.stale + 1 }

  -- The body of the loop over the assignments of a message.
  unfoldable pub resolve : MembershipView F → HashMap ℕ → String → String → Merge F → Merge F
  resolve view generations task_id remote m = elim (local_owner task_id m.registry) [
    | none ↦ if Membership.is_alive remote view then merge_claim task_id remote m else count_stale m
    | some owner ↦
        if owner == remote
        then m
        else if not (Membership.is_alive remote view)
        then count_stale m
        else if remote_wins view generations remote owner
        then merge_claim task_id remote
            (record m { registry = (Registry.release_task task_id m.registry).0 })
        else count_stale m
  ]

  unfoldable pub resolve_all : MembershipView F → HashMap ℕ → HashMap String → Merge F → Merge F
  resolve_all view generations [] m = m
  resolve_all view generations ((task_id, remote) ∷ rest) m =
      resolve_all view generations rest (resolve view generations task_id remote m)

  -- The loop over the generations of a message.
  unfoldable pub merge_generations : HashMap ℕ → MembershipView F → MembershipView F
  merge_generations [] view = view
  merge_generations ((agent_id, g) ∷ rest) view = merge_generations rest (
      if ltb (Membership.generation_of agent_id view) g
      then Membership.record_heartbeat agent_id 0 g view
      else view)

  -- One message of the buffer; what is no gossip is passed over.
  unfoldable pub apply_message : RuntimeMessage F → Coordinator F × ℕ × ℕ → Coordinator F × ℕ × ℕ
  unfolding resolve_all merge_generations
  apply_message (heartbeat tick generation) s = s
  apply_message (gossip assignments generations) (c, merged, stale) =
      let m =
        resolve_all c.membership generations (sort_by_id assignments)
          (record { registry = c.registry; merged = merged; stale = stale }) in
      (
        record c {
          registry = m.registry;
          membership = merge_generations (sort_by_id generations) c.membership;
        },
        m.merged,
        m.stale,
      )
  apply_message (cbba round winning_bids bundle) s = s

  apply_all : List (RuntimeMessage F) → Coordinator F × ℕ × ℕ → Coordinator F × ℕ × ℕ
  apply_all [] s = s
  apply_all (msg ∷ buffer) s = apply_all buffer (apply_message msg s)

  unfoldable pub apply_gossip_messages :
      List (RuntimeMessage F) → Coordinator F → Coordinator F × ℕ × ℕ
  unfolding apply_all
  apply_gossip_messages buffer c = apply_all buffer (c, 0, 0)
