-- ===== src/Command/Topology/Routes.antt =====
-- A route that is computed exists, and a route that exists is found.
use drone_swarm_lab.Base.{
  String, ◌≡◌, refl, true, ◌&&◌, eq_iff, Option, none, some, List, [], ◌∷◌, arith, contains,
  Bool-cases, inl, inr,
}
use drone_swarm_lab.Command.{SwarmTopologyConfig}
use drone_swarm_lab.Command.Topology.{adjacency, available_nodes, bfs_path, extend_path}
use drone_swarm_lab.Command.Topology.Links.{is_hop, has_edge-adjacency}
use drone_swarm_lab.Command.Topology.Paths.{Route, arrived, hop}
use drone_swarm_lab.Command.Topology.Search.{Answer, bfs_loop-Answer}

-- A path over open links between available nodes, with its ends.
pub data OpenPath {F : Type 0} (t : SwarmTopologyConfig F)
    : String → String → List String → Type 0 where
  stay : {u : String} → contains (available_nodes t) u ≡ true → OpenPath t u u (u ∷ [])
  move :
      {u v w : String} {path : List String}
      → is_hop t u v ≡ true
      → OpenPath t v w path
      → OpenPath t u w (u ∷ path)

module _ {F : Type 0} (t : SwarmTopologyConfig F) where
  OpenPath-Route :
      {u w : String} {path : List String} → OpenPath t u w path → Route (adjacency t) u w path
  OpenPath-Route (stay h) = arrived
  OpenPath-Route (move {u} {v} h p) = hop (rw (has_edge-adjacency t u v) h) (OpenPath-Route p)

  Route-OpenPath :
      {u w : String} {path : List String}
      → contains (available_nodes t) u ≡ true
      → Route (adjacency t) u w path
      → OpenPath t u w path
  Route-OpenPath a arrived = stay a
  Route-OpenPath a (hop {u} {v} edge r) =
      let h : is_hop t u v ≡ true = rw (has_edge-adjacency t u v) at edge in
      move h (Route-OpenPath (ground arith) r)

  pub OpenPath-starts :
      {u w : String} {path : List String}
      → OpenPath t u w path
      → contains (available_nodes t) u ≡ true
  OpenPath-starts (stay a) = a
  OpenPath-starts (move {u} {v} h p) = ground arith

  pub OpenPath-stops :
      {u w : String} {path : List String}
      → OpenPath t u w path
      → contains (available_nodes t) w ≡ true
  OpenPath-stops (stay a) = a
  OpenPath-stops (move h p) = OpenPath-stops p

  pub OpenPath-join :
      {u v w : String} {path rest : List String}
      → OpenPath t u v path
      → OpenPath t v w rest
      → OpenPath t u w (extend_path path rest)
  OpenPath-join (stay a) (stay b) = stay a
  OpenPath-join (stay a) (move h q) = move h q
  OpenPath-join (move h p) (stay b) = move h (OpenPath-join p (stay b))
  OpenPath-join (move h p) (move g q) = move h (OpenPath-join p (move g q))

  abbrev pub Found : String → String → Option (List String) → Type 0
  Found from to none = (path : List String) → ¬ OpenPath t from to path
  Found from to (some path) = OpenPath t from to path

  Answer-Found :
      (from to : String) (r : Option (List String))
      → contains (available_nodes t) from ≡ true
      → Answer (adjacency t) from to r
      → Found from to r
  Answer-Found from to none a ans = λ path p. ans path (OpenPath-Route p)
  Answer-Found from to (some path) a ans = Route-OpenPath a ans

  -- A search ends: it finds a path over open links, or there is none.
  pub bfs_path-Found :
      (from to : String)
      → (r : Option (List String)) × (bfs_path t from to ≡ some r) × Found from to r
  unfolding bfs_path
  bfs_path-Found from to =
      elim (Bool-cases (contains (available_nodes t) from && contains (available_nodes t) to)) [
        | inl both ↦
            let (r, e, ans) = bfs_loop-Answer (adjacency t) from to in
            (r, rw (both, e) refl, Answer-Found from to r (ground arith) ans)
        | inr gone ↦
            (none, rw gone refl, λ path p. ground (arith, OpenPath-starts p, OpenPath-stops p))
      ]

  pub OpenPath-visits :
      {u w : String} {path : List String} → OpenPath t u w path → contains path w ≡ true
  unfolding contains
  OpenPath-visits (stay {u} a) = ground (arith, eq_iff u u)
  OpenPath-visits (move h p) = ground (arith, OpenPath-visits p)
