-- ===== src/Gossip/Runs.antt =====
-- node/gossip.rs: a merge as a sequence of registry operations, and its counts.
use drone_swarm_lab.Base.{
  ℕ, ◌+◌, ◌≤◌, String, ◌≡◌, refl, ◌∙◌, sym, ap, none, some, List, [], ◌∷◌, ◌++◌, arith, length, suc,
  ◌&&◌, if◌then◌else◌, ◌==◌,
}
use drone_swarm_lab.HashMap.{HashMap}
use drone_swarm_lab.Registry.{TaskRegistry}
use drone_swarm_lab.Registry.Ops.{Op, assign_op, release_op, apply, run, run-append}
use drone_swarm_lab.Membership.{MembershipView, is_alive}
use drone_swarm_lab.Coordinator.{Coordinator}
use drone_swarm_lab.Gossip.{
  RuntimeMessage, heartbeat, gossip, cbba, Merge, local_owner, remote_wins, merge_claim,
  count_stale, resolve, resolve_all, apply_message, apply_all, apply_gossip_messages, sort_by_id,
  insert_sorted,
}

module _ {F : Type 0} where
  -- The second registry comes from the first by assignments and releases.
  abbrev pub Runs : TaskRegistry F → TaskRegistry F → Type 0
  Runs r s = (ops : List (Op F)) × (s ≡ run ops r)

  pub Runs-refl : (r : TaskRegistry F) → Runs r r
  unfolding run
  Runs-refl r = ([], refl)

  pub Runs-trans : (r s t : TaskRegistry F) → Runs r s → Runs s t → Runs r t
  Runs-trans r s t (xs, e) (ys, f) = (xs ++ ys, f ∙ ap (run ys) e ∙ sym (run-append xs ys r))

  -- The operations by which `resolve` changes the registry.
  resolve_ops : MembershipView F → HashMap ℕ → String → String → Merge F → List (Op F)
  resolve_ops v g task_id remote m = elim (local_owner task_id m.registry) [
    | none ↦ if is_alive remote v then assign_op task_id remote ∷ [] else []
    | some owner ↦
        if owner == remote
        then []
        else if is_alive remote v && remote_wins v g remote owner
        then release_op task_id ∷ assign_op task_id remote ∷ []
        else []
  ]

  resolve-Runs :
      (v : MembershipView F) (g : HashMap ℕ) (task_id remote : String) (m : Merge F)
      → Runs m.registry (resolve v g task_id remote m).registry
  unfolding resolve resolve_ops merge_claim count_stale run apply
  resolve-Runs v g task_id remote m = (resolve_ops v g task_id remote m, ground arith)

  resolve_all-Runs :
      (v : MembershipView F) (g : HashMap ℕ) (l : HashMap String) (m : Merge F)
      → Runs m.registry (resolve_all v g l m).registry
  unfolding resolve_all
  resolve_all-Runs v g [] m = Runs-refl m.registry
  resolve_all-Runs v g ((task_id, remote) ∷ l) m =
      Runs-trans m.registry _ _ (resolve-Runs v g task_id remote m)
        (resolve_all-Runs v g l (resolve v g task_id remote m))

  apply_all-Runs :
      (buffer : List (RuntimeMessage F)) (c : Coordinator F) (a b : ℕ)
      → Runs c.registry (apply_all buffer (c, a, b)).0.registry
  unfolding apply_all apply_message
  apply_all-Runs [] c a b = Runs-refl c.registry
  apply_all-Runs (heartbeat t g ∷ buffer) c a b = apply_all-Runs buffer c a b
  apply_all-Runs (gossip l g ∷ buffer) c a b =
      Runs-trans c.registry _ _ (resolve_all-Runs c.membership g (sort_by_id l) _)
        (apply_all-Runs buffer _ _ _)
  apply_all-Runs (cbba n bids bundle ∷ buffer) c a b = apply_all-Runs buffer c a b

  -- Whatever is gossiped, the registry changes by a sequence of the registry's own operations.
  pub apply_gossip_messages-Runs :
      (buffer : List (RuntimeMessage F)) (c : Coordinator F)
      → Runs c.registry (apply_gossip_messages buffer c).0.registry
  unfolding apply_gossip_messages
  apply_gossip_messages-Runs buffer c = apply_all-Runs buffer c 0 0

  resolve_count :
      (v : MembershipView F) (g : HashMap ℕ) (task_id remote : String) (m : Merge F)
      → (resolve v g task_id remote m).merged + (resolve v g task_id remote m).stale
        ≤ m.merged + m.stale + 1
  unfolding resolve merge_claim count_stale
  resolve_count v g task_id remote m = ground arith

  resolve_all_count :
      (v : MembershipView F) (g : HashMap ℕ) (l : HashMap String) (m : Merge F)
      → (resolve_all v g l m).merged + (resolve_all v g l m).stale ≤ m.merged + m.stale + length l
  unfolding resolve_all
  resolve_all_count v g [] m = omega arith
  resolve_all_count v g ((task_id, remote) ∷ l) m = omega (
    arith,
    resolve_count v g task_id remote m,
    resolve_all_count v g l (resolve v g task_id remote m),
  )

module _ {ℓ} {V : Type ℓ} where
  length-insert_sorted :
      (e : String × V) (m : HashMap V) → length (insert_sorted e m) ≡ suc (length m)
  unfolding insert_sorted
  length-insert_sorted e [] = refl
  length-insert_sorted e (f ∷ m) = ground (arith, length-insert_sorted e m)

  pub length-sort_by_id : (m : HashMap V) → length (sort_by_id m) ≡ length m
  unfolding sort_by_id
  length-sort_by_id [] = refl
  length-sort_by_id (e ∷ m) = length-insert_sorted e (sort_by_id m) ∙ ap suc (length-sort_by_id m)

module _ {F : Type 0} where
  -- The assignments that a message carries.
  abbrev pub claims : List (RuntimeMessage F) → ℕ
  claims [] = 0
  claims (gossip l g ∷ buffer) = length l + claims buffer
  claims (_ ∷ buffer) = claims buffer

  apply_all_count :
      (buffer : List (RuntimeMessage F)) (c : Coordinator F) (a b : ℕ)
      → (apply_all buffer (c, a, b)).1 + (apply_all buffer (c, a, b)).2 ≤ a + b + claims buffer
  unfolding apply_all apply_message
  apply_all_count [] c a b = omega arith
  apply_all_count (heartbeat t g ∷ buffer) c a b = apply_all_count buffer c a b
  apply_all_count (gossip l g ∷ buffer) c a b = omega (
    arith,
    resolve_all_count c.membership g (sort_by_id l)
        (record { registry = c.registry; merged = a; stale = b }),
    length-sort_by_id l,
    apply_all_count buffer _ _ _,
  )
  apply_all_count (cbba n bids bundle ∷ buffer) c a b = apply_all_count buffer c a b

  -- Each gossiped assignment is counted at most once, as merged or as stale.
  pub apply_gossip_messages_count :
      (buffer : List (RuntimeMessage F)) (c : Coordinator F)
      → (apply_gossip_messages buffer c).1 + (apply_gossip_messages buffer c).2 ≤ claims buffer
  unfolding apply_gossip_messages
  apply_gossip_messages_count buffer c = omega (arith, apply_all_count buffer c 0 0)
