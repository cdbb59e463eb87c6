-- ===== src/Connectivity.antt =====
-- crates/swarm-comms/src/connectivity.rs: the radio mesh of a snapshot, and the breadth-first
-- searches in it. The arithmetic of `f64` is the parameter `Floats`. The two `while let` loops run
-- on fuel: as much as the mesh has entries in its lists of neighbours, and one more.
pub mod Mesh
pub mod Visits
pub mod Shortest
pub mod Hops
use drone_swarm_lab.Base.{
  ℕ, zero, suc, ◌+◌, String, Bool, true, ◌==◌, if◌then◌else◌, is_empty, is_some, Option, none, some,
  List, [], ◌∷◌, ◌++◌, map, filter, contains, length,
}
use drone_swarm_lab.HashMap.{HashMap, get, insert, values}
use drone_swarm_lab.Types.{Pose, Health, is_alive_health}
use drone_swarm_lab.Reallocation.{ConnectivitySnapshot}

-- What the crate uses of `f64`.
pub record Floats (F : Type 0) : Type 0 where
  pub add : F → F → F
  pub sub : F → F → F
  pub mul : F → F → F
  pub div : F → F → F
  pub min : F → F → F
  pub sqrt : F → F
  pub infinity : F
  pub is_infinite : F → Bool
  pub le : F → F → Bool
  pub lt : F → F → Bool
  pub of_usize : ℕ → F

-- An id, with the pose and the range of its radio.
abbrev pub Node : Type 0 → Type 0
Node F = String × (Pose F × F)

abbrev pub Adjacency : Type 0
Adjacency = HashMap (List String)

-- `.entry(id).or_default()` and `adjacency.get(id)`, read as a list
unfoldable pub neighbors : Adjacency → String → List String
neighbors m id = elim (get id m) [ none ↦ [] | some ns ↦ ns ]

unfoldable pub push_neighbor : String → String → Adjacency → Adjacency
unfolding neighbors
push_neighbor a b m = insert a (neighbors m a ++ b ∷ []) m

module _ {F : Type 0} (floats : Floats F) where
  unfoldable pub direct_link : Pose F → F → Pose F → F → Bool
  direct_link a range_a b range_b =
      let dx = floats.sub a.x b.x in
      let dy = floats.sub a.y b.y in
      let distance = floats.sqrt (floats.add (floats.mul dx dx) (floats.mul dy dy)) in
      let min_range = floats.min range_a range_b in
      if floats.is_infinite min_range then true else floats.le distance min_range

  -- The body of the loop over `j`.
  unfoldable pub link_pair : Node F → Node F → Adjacency → Adjacency
  link_pair (a, (pose_a, range_a)) (b, (pose_b, range_b)) m =
      if direct_link pose_a range_a pose_b range_b
      then push_neighbor b a (push_neighbor a b m)
      else m

  unfoldable pub link_row : Node F → List (Node F) → Adjacency → Adjacency
  link_row n [] m = m
  link_row n (k ∷ ks) m = link_row n ks (link_pair n k m)

  unfoldable pub link_all : List (Node F) → Adjacency → Adjacency
  link_all [] m = m
  link_all (n ∷ ns) m = link_all ns (link_row n ns m)

  unfoldable pub alive_nodes : List (String × Pose F × F × Health) → List (Node F)
  alive_nodes [] = []
  alive_nodes ((id, pose, range, health) ∷ es) =
      let rest = alive_nodes es in
      if is_alive_health health then (id, (pose, range)) ∷ rest else rest

  unfoldable pub mesh_nodes : ConnectivitySnapshot F → List (Node F)
  mesh_nodes s =
      (s.base_id, (s.base_pose, floats.infinity))
      ∷ (alive_nodes s.agent_entries ++ map (λ g. (g.0, (g.1, g.2))) s.ground_nodes)

  unfoldable pub build_adjacency : ConnectivitySnapshot F → Adjacency
  build_adjacency s = link_all (mesh_nodes s) []

abbrev pub Queue : Type 0
Queue = List (String × ℕ)

-- The loop over the neighbours of a node in `reachability_from_base`: `hops` is one more than the
-- node's.
unfoldable pub visit_all : List String → ℕ → HashMap ℕ × Queue → HashMap ℕ × Queue
visit_all [] hops s = s
visit_all (n ∷ ns) hops (visited, queue) =
    if is_some (get n visited)
    then visit_all ns hops (visited, queue)
    else visit_all ns hops (insert n hops visited, queue ++ (n, hops) ∷ [])

-- The same loop in `hop_count_between`, where `visited` is a set.
unfoldable pub enqueue_all : List String → ℕ → List String × Queue → List String × Queue
enqueue_all [] hops s = s
enqueue_all (n ∷ ns) hops (visited, queue) =
    if contains visited n
    then enqueue_all ns hops (visited, queue)
    else enqueue_all ns hops (visited ++ n ∷ [], queue ++ (n, hops) ∷ [])

-- The entries of all lists of neighbours.
unfoldable pub all_neighbors : Adjacency → List String
all_neighbors [] = []
all_neighbors ((k, ns) ∷ m) = ns ++ all_neighbors m

-- `none` is a loop that the fuel did not suffice for.
unfoldable pub reach_loop : Adjacency → ℕ → HashMap ℕ × Queue → Option (HashMap ℕ)
reach_loop m zero s = none
reach_loop m (suc fuel) (visited, []) = some visited
reach_loop m (suc fuel) (visited, (id, hops) ∷ queue) =
    reach_loop m fuel (visit_all (neighbors m id) (suc hops) (visited, queue))

-- `some none` is a search that ends without a path.
unfoldable pub hop_loop : Adjacency → String → ℕ → List String × Queue → Option (Option ℕ)
hop_loop m to zero s = none
hop_loop m to (suc fuel) (visited, []) = some none
hop_loop m to (suc fuel) (visited, (id, hops) ∷ queue) =
    let rest = hop_loop m to fuel (enqueue_all (neighbors m id) (suc hops) (visited, queue)) in
    if id == to then some (some hops) else rest

unfoldable pub enough : Adjacency → ℕ
unfolding all_neighbors
enough m = length (all_neighbors m) + 2

module _ {F : Type 0} (floats : Floats F) where
  unfoldable pub reachability_from_base : ConnectivitySnapshot F → Option (HashMap ℕ)
  reachability_from_base s =
      let m = build_adjacency floats s in
      reach_loop m (enough m) ((s.base_id, 0) ∷ [], (s.base_id, 0) ∷ [])

  unfoldable pub hop_count_between : ConnectivitySnapshot F → String → String → Option (Option ℕ)
  hop_count_between s from to =
      let m = build_adjacency floats s in hop_loop m to (enough m) (from ∷ [], (from, 0) ∷ [])

  unfoldable pub availability_fraction : HashMap ℕ → List String → F
  availability_fraction reachability agent_ids =
      if is_empty agent_ids
      then floats.of_usize 1
      else floats.div
          (floats.of_usize (length (filter (λ id. is_some (get id reachability)) agent_ids)))
          (floats.of_usize (length agent_ids))
