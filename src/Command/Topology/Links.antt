-- ===== src/Command/Topology/Links.antt =====
-- The lists of neighbours that a search walks over hold exactly the open links between available
-- nodes.
use drone_swarm_lab.Base.{
  String, ◌≡◌, refl, ◌∙◌, Bool, ◌&&◌, ◌||◌, ◌==◌, eq_iff, List, [], ◌∷◌, arith, any, contains,
}
use drone_swarm_lab.HashMap.{get, map_values}
use drone_swarm_lab.Connectivity.{Adjacency, neighbors}
use drone_swarm_lab.Connectivity.Mesh.{has_edge, has_edge-push_neighbor}
use drone_swarm_lab.Command.{SwarmTopologyLink, SwarmTopologyConfig}
use drone_swarm_lab.Command.Topology.{
  insert_id, sort_ids, dedup_after, dedup, is_open_link, available_link_exists, available_nodes,
  add_link, add_links, adjacency,
}

contains-insert_id :
    (x : String) (ys : List String) (v : String)
    → contains (insert_id x ys) v ≡ (x == v || contains ys v)
unfolding insert_id contains
contains-insert_id x [] v = ground arith
contains-insert_id x (y ∷ ys) v = ground (arith, contains-insert_id x ys v)

pub contains-sort_ids : (xs : List String) (v : String) → contains (sort_ids xs) v ≡ contains xs v
unfolding sort_ids contains
contains-sort_ids [] v = refl
contains-sort_ids (x ∷ xs) v =
    ground (arith, contains-sort_ids xs v, contains-insert_id x (sort_ids xs) v)

contains-dedup_after :
    (x : String) (ys : List String) (v : String)
    → (x == v || contains (dedup_after x ys) v) ≡ (x == v || contains ys v)
unfolding dedup_after contains
contains-dedup_after x [] v = refl
contains-dedup_after x (y ∷ ys) v =
    ground (arith, eq_iff y x, contains-dedup_after x ys v, contains-dedup_after y ys v)

contains-dedup : (xs : List String) (v : String) → contains (dedup xs) v ≡ contains xs v
unfolding dedup contains
contains-dedup [] v = refl
contains-dedup (x ∷ xs) v = ground (arith, contains-dedup_after x xs v)

-- Some link leads openly from `a` to `b`, and both are available.
abbrev pub is_hop : {F : Type 0} → SwarmTopologyConfig F → String → String → Bool
is_hop t a b =
    available_link_exists t a b
    && (contains (available_nodes t) a && contains (available_nodes t) b)

module _ {F : Type 0} (nodes : List String) (a b : String) where
  has_edge-add_link :
      (l : SwarmTopologyLink F) (m : Adjacency)
      → has_edge (add_link nodes l m) a b
        ≡ (has_edge m a b || (is_open_link a b l && (contains nodes a && contains nodes b)))
  unfolding add_link is_open_link
  has_edge-add_link l m = ground (
    arith,
    has_edge-push_neighbor l.from_node_id l.to_node_id a b m,
    eq_iff l.from_node_id a,
    eq_iff l.to_node_id b,
  )

  has_edge-add_links :
      (ls : List (SwarmTopologyLink F)) (m : Adjacency)
      → has_edge (add_links nodes ls m) a b
        ≡ (has_edge m a b || (any (is_open_link a b) ls && (contains nodes a && contains nodes b)))
  unfolding add_links any
  has_edge-add_links [] m = ground arith
  has_edge-add_links (l ∷ ls) m =
      ground (arith, has_edge-add_links ls (add_link nodes l m), has_edge-add_link l m)

has_edge-dedup :
    (m : Adjacency) (a b : String)
    → has_edge (map_values (λ ns. dedup (sort_ids ns)) m) a b ≡ has_edge m a b
unfolding neighbors contains get map_values
has_edge-dedup [] a b = refl
has_edge-dedup ((k, ns) ∷ m) a b =
    ground (arith, contains-dedup (sort_ids ns) b, contains-sort_ids ns b, has_edge-dedup m a b)

pub has_edge-adjacency :
    {F : Type 0} (t : SwarmTopologyConfig F) (a b : String)
    → has_edge (adjacency t) a b ≡ is_hop t a b
unfolding adjacency available_link_exists neighbors get contains
has_edge-adjacency t a b =
    has_edge-dedup (add_links (available_nodes t) t.links []) a b
    ∙ has_edge-add_links (available_nodes t) a b t.links []
