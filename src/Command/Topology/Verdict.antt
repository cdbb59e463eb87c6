-- ===== src/Command/Topology/Verdict.antt =====
-- has_mothership_cycle finds a cycle exactly if the dependencies have one.
use drone_swarm_lab.Base.{
  suc, String, ◌≡◌, Bool, true, ◌&&◌, ◌||◌, ◌==◌, Option, none, some, List, [], ◌∷◌, arith, any,
  map, contains, contains-append, length, inl, inr, ◌⊎◌, false≢true,
}
use drone_swarm_lab.HashMap.{get}
use drone_swarm_lab.Connectivity.{Adjacency, neighbors, push_neighbor, all_neighbors}
use drone_swarm_lab.Connectivity.Mesh.{has_edge, has_edge-push_neighbor}
use drone_swarm_lab.Command.{SwarmMothershipDependency}
use drone_swarm_lab.Command.Topology.{sort_ids}
use drone_swarm_lab.Command.Topology.Links.{contains-sort_ids}
use drone_swarm_lab.Command.Topology.Cycles.{dependency_graph, graph_ids, has_mothership_cycle}
use drone_swarm_lab.Command.Topology.Ways.{Way, one, more, Way-map, Grounded-no_cycle}
use drone_swarm_lab.Command.Topology.Acyclic.{Verdict, find_cycle-Verdict}

-- Some dependency makes the one agent the parent of the other.
abbrev pub depends : List SwarmMothershipDependency → String → String → Bool
depends ds parent child = any (λ d. d.parent_agent_id == parent && d.child_agent_id == child) ds

has_edge-dependency_graph :
    (ds : List SwarmMothershipDependency) (m : Adjacency) (a b : String)
    → has_edge (dependency_graph ds m) a b ≡ (has_edge m a b || depends ds a b)
unfolding dependency_graph any
has_edge-dependency_graph [] m a b = ground arith
has_edge-dependency_graph (d ∷ ds) m a b = ground (
  arith,
  has_edge-dependency_graph ds (push_neighbor d.parent_agent_id d.child_agent_id m) a b,
  has_edge-push_neighbor d.parent_agent_id d.child_agent_id a b m,
)

contains-key :
    (m : Adjacency) (a b : String) → has_edge m a b ≡ true → contains (map (λ e. e.0) m) a ≡ true
unfolding neighbors get contains
contains-key [] a b h = absurd (ground arith)
contains-key ((k, ns) ∷ m) a b h = ground (arith, contains-key m a b)

Way-starts :
    {edge : String → String → Bool} {u v : String} → Way edge u v → (w : String) × (edge u w ≡ true)
Way-starts (one {u} {v} h) = (v, h)
Way-starts (more {u} {v} h w) = (v, h)

module _ (ds : List SwarmMothershipDependency) where
  graph : Adjacency
  unfolding dependency_graph
  graph = dependency_graph ds []

  edge-depends : (a b : String) → has_edge graph a b ≡ depends ds a b
  unfolding graph neighbors get contains
  edge-depends a b = has_edge-dependency_graph ds [] a b

  -- has_mothership_cycle ends: it returns an agent, and then some agent is its own parent over one
  -- or more dependencies, or it returns none, and then no agent is.
  pub has_mothership_cycle_decides :
      ((id : String) × (has_mothership_cycle ds ≡ some (some id))
        × (v : String) × Way (depends ds) v v)
      ⊎ ((has_mothership_cycle ds ≡ some none) × ((v : String) → ¬ Way (depends ds) v v))
  unfolding has_mothership_cycle graph_ids graph contains
  has_mothership_cycle_decides =
      let keys = map (λ e. e.0) graph in
      let (r, e, verdict) =
        find_cycle-Verdict graph (suc (length (graph_ids graph))) (sort_ids keys) []
          (λ v h.
            ground (arith, contains-sort_ids keys v, contains-append keys (all_neighbors graph) v))
          (omega arith) (λ v h. absurd (false≢true h)) in
      go r e verdict
    where
      go :
          (r : Option String)
          → has_mothership_cycle ds ≡ some r
          → Verdict graph (sort_ids (map (λ e. e.0) graph)) r
          → ((id : String) × (has_mothership_cycle ds ≡ some (some id))
              × (v : String) × Way (depends ds) v v)
            ⊎ ((has_mothership_cycle ds ≡ some none) × ((v : String) → ¬ Way (depends ds) v v))
      go (some id) e (v, w) = inl (id, e, v, Way-map (λ a b h. rw (edge-depends a b) at h) w)
      go none e verdict = inr (
        e,
        λ v w.
            let back : Way (has_edge graph) v v = Way-map (λ a b h. rw (edge-depends a b) h) w in
            let (x, edge) = Way-starts back in
            Grounded-no_cycle
              (verdict v
                (rw (contains-sort_ids (map (λ e. e.0) graph) v) (contains-key graph v x edge)))
              back,
      )
