-- ===== src/Connectivity/Mesh.antt =====
-- The mesh that `build_adjacency` builds.
use drone_swarm_lab.Base.{
  String, ◌≡◌, Bool, false, ◌&&◌, ◌||◌, List, [], ◌∷◌, ◌++◌, arith, eq_iff, ◌==◌, any, contains,
  contains-append, if◌then◌else◌,
}
use drone_swarm_lab.HashMap.{get}
use drone_swarm_lab.HashMap.Laws.{get-insert}
use drone_swarm_lab.Reallocation.{ConnectivitySnapshot}
use drone_swarm_lab.Connectivity.{
  Floats, Node, Adjacency, neighbors, push_neighbor, direct_link, link_pair, link_row, link_all,
  mesh_nodes, build_adjacency,
}

-- There is an entry for `b` among the neighbours of `a`.
abbrev pub has_edge : Adjacency → String → String → Bool
has_edge m a b = contains (neighbors m a) b

neighbors-push_neighbor :
    (a b k : String) (m : Adjacency)
    → neighbors (push_neighbor a b m) k
      ≡ (if a == k then neighbors m a ++ b ∷ [] else neighbors m k)
unfolding neighbors push_neighbor
neighbors-push_neighbor a b k m = ground (arith, get-insert a k (neighbors m a ++ b ∷ []) m)

pub has_edge-push_neighbor :
    (a b k l : String) (m : Adjacency)
    → has_edge (push_neighbor a b m) k l ≡ (has_edge m k l || (a == k && b == l))
unfolding contains
has_edge-push_neighbor a b k l m =
    ground (
      arith,
      neighbors-push_neighbor a b k m,
      contains-append (neighbors m a) (b ∷ []) l,
      eq_iff a k,
    )

-- Reference: two nodes whose ids are `a` and `b` stand in each other's range.
abbrev pub joins : {F : Type 0} → Floats F → String → String → Node F → Node F → Bool
joins floats a b (i, (p, r)) (j, (q, s)) =
    direct_link floats p r q s && ((i == a && j == b) || (j == a && i == b))

abbrev pub is_linked : {F : Type 0} → Floats F → String → String → List (Node F) → Bool
is_linked floats a b [] = false
is_linked floats a b (n ∷ ns) = any (joins floats a b n) ns || is_linked floats a b ns

module _ {F : Type 0} (floats : Floats F) (a b : String) where
  has_edge-link_pair :
      (n k : Node F) (m : Adjacency)
      → has_edge (link_pair floats n k m) a b ≡ (has_edge m a b || joins floats a b n k)
  unfolding link_pair
  has_edge-link_pair (i, (p, r)) (j, (q, s)) m = ground (
    arith,
    has_edge-push_neighbor j i a b (push_neighbor i j m),
    has_edge-push_neighbor i j a b m,
  )

  has_edge-link_row :
      (n : Node F) (ks : List (Node F)) (m : Adjacency)
      → has_edge (link_row floats n ks m) a b ≡ (has_edge m a b || any (joins floats a b n) ks)
  unfolding link_row any
  has_edge-link_row n [] m = ground arith
  has_edge-link_row n (k ∷ ks) m =
      ground (arith, has_edge-link_row n ks (link_pair floats n k m), has_edge-link_pair n k m)

  has_edge-link_all :
      (ns : List (Node F)) (m : Adjacency)
      → has_edge (link_all floats ns m) a b ≡ (has_edge m a b || is_linked floats a b ns)
  unfolding link_all
  has_edge-link_all [] m = ground arith
  has_edge-link_all (n ∷ ns) m =
      ground (arith, has_edge-link_all ns (link_row floats n ns m), has_edge-link_row n ns m)

  -- The lists of neighbours hold exactly the pairs of ids of two nodes in range of each other.
  pub has_edge-build_adjacency :
      (s : ConnectivitySnapshot F)
      → has_edge (build_adjacency floats s) a b ≡ is_linked floats a b (mesh_nodes floats s)
  unfolding build_adjacency neighbors contains get
  has_edge-build_adjacency s = has_edge-link_all (mesh_nodes floats s) []
