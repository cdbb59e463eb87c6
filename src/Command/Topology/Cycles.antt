-- ===== src/Command/Topology/Cycles.antt =====
-- The search for a cycle among the mothership dependencies (has_mothership_cycle, dfs_cycle). The
-- recursion runs on fuel: one more than the graph has ids; `none` is a search that the fuel did not
-- suffice for. The sets are lists, of which `visiting` holds the agents on the way to the current
-- one.
use drone_swarm_lab.Base.{
  ℕ, zero, suc, String, Bool, true, false, not, ◌==◌, Option, none, some, List, [], ◌∷◌, ◌++◌, map,
  filter, contains, length,
}
use drone_swarm_lab.Connectivity.{Adjacency, neighbors, push_neighbor, all_neighbors}
use drone_swarm_lab.Command.{SwarmMothershipDependency}
use drone_swarm_lab.Command.Topology.{sort_ids}

-- `visiting` and `visited`
abbrev pub Marks : Type 0
Marks = List String × List String

unfoldable pub dependency_graph : List SwarmMothershipDependency → Adjacency → Adjacency
unfolding push_neighbor
dependency_graph [] m = m
dependency_graph (d ∷ ds) m =
    dependency_graph ds (push_neighbor d.parent_agent_id d.child_agent_id m)

-- The loop over the children.
unfoldable pub dfs_children :
    (String → Marks → Option (Bool × Marks)) → List String → Marks → Option (Bool × Marks)
dfs_children dfs [] s = some (false, s)
dfs_children dfs (child ∷ children) s = elim (dfs child s) [
  | none ↦ none
  | some (true, s') ↦ some (true, s')
  | some (false, s') ↦ dfs_children dfs children s'
]

-- `visiting.remove(id)` and `visited.insert(id)`, when no child has found a cycle
unfoldable pub leave : String → Option (Bool × Marks) → Option (Bool × Marks)
unfolding filter
leave id none = none
leave id (some (true, s)) = some (true, s)
leave id (some (false, (visiting, visited))) =
    some (false, (filter (λ v. not (v == id)) visiting, id ∷ visited))

unfoldable pub dfs_cycle : Adjacency → ℕ → String → Marks → Option (Bool × Marks)
unfolding contains sort_ids neighbors dfs_children leave
dfs_cycle m zero id s = none
dfs_cycle m (suc fuel) id (visiting, visited) = elim (contains visited id) [
  | true ↦ some (false, (visiting, visited))
  | false ↦ elim (contains visiting id) [
    | true ↦ some (true, (visiting, visited))
    | false ↦
        leave id
          (dfs_children (dfs_cycle m fuel) (sort_ids (neighbors m id)) (id ∷ visiting, visited))
  ]
]

-- `starts.into_iter().find(..)`
unfoldable pub find_cycle : Adjacency → ℕ → List String → Marks → Option (Option String)
unfolding dfs_cycle
find_cycle m fuel [] s = some none
find_cycle m fuel (start ∷ starts) s = elim (dfs_cycle m fuel start s) [
  | none ↦ none
  | some (true, s') ↦ some (some start)
  | some (false, s') ↦ find_cycle m fuel starts s'
]

unfoldable pub graph_ids : Adjacency → List String
unfolding all_neighbors
graph_ids m = map (λ e. e.0) m ++ all_neighbors m

unfoldable pub has_mothership_cycle : List SwarmMothershipDependency → Option (Option String)
unfolding dependency_graph graph_ids find_cycle sort_ids
has_mothership_cycle dependencies =
    let m = dependency_graph dependencies [] in
    find_cycle m (suc (length (graph_ids m))) (sort_ids (map (λ e. e.0) m)) ([], [])
