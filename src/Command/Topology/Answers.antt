-- ===== src/Command/Topology/Answers.antt =====
-- What route_between answers: a route that it allows is open, and one that is open is allowed.
use drone_swarm_lab.Base.{
  false≢true, String, ◌≡◌, refl, sym, subst, true, false, ◌==◌, eq_iff, Option, none, some, List,
  [], ◌∷◌, arith, contains, contains-append, Bool-cases, Option-cases, inl, inr, is_some,
}
use drone_swarm_lab.Connectivity.{Floats}
use drone_swarm_lab.Command.{SwarmTopologyConfig, SwarmCommandRoute}
use drone_swarm_lab.Command.Topology.{
  and_then, agent_node_id_in_topology, mothership_parent_node_id, is_mothership, extend_path,
  path_over, route_path_for_kind, route_over, blocked_route, route_between,
}
use drone_swarm_lab.Command.Topology.Routes.{
  OpenPath, OpenPath-join, OpenPath-visits, Found, bfs_path-Found,
}

module _ {F : Type 0} (t : SwarmTopologyConfig F) where
  contains-extend_path :
      (path rest : List String) (v : String)
      → contains path v ≡ true
      → contains (extend_path path rest) v ≡ true
  contains-extend_path path [] v h = h
  contains-extend_path path (x ∷ rest) v h = rw (contains-append path rest v, h) refl

  -- What the answer of a search for a route to an agent tells.
  pub record Outcome (from target to_agent : String) (r : Option (List String)) : Type 0 where
    pub sound : (path : List String) → r ≡ some path → OpenPath t from target path
    pub by_parent :
        (path : List String) (parent : String)
        → r ≡ some path
        → is_mothership t.kind ≡ true
        → mothership_parent_node_id t to_agent ≡ some parent
        → contains path parent ≡ true
    pub complete :
        (path : List String)
        → is_mothership t.kind ≡ false
        → OpenPath t from target path
        → is_some r ≡ true
    pub complete_by :
        (parent : String) (path rest : List String)
        → mothership_parent_node_id t to_agent ≡ some parent
        → OpenPath t from parent path
        → OpenPath t parent target rest
        → is_some r ≡ true

  Found-some :
      {from to : String} (r : Option (List String)) {path : List String}
      → Found t from to r
      → OpenPath t from to path
      → is_some r ≡ true
  Found-some none ans p = absurd (ans _ p)
  Found-some (some path) ans p = refl

  Found-path :
      {from to : String} (r : Option (List String)) {path : List String}
      → Found t from to r
      → r ≡ some path
      → OpenPath t from to path
  Found-path {from} {to} none ans e = absurd (ground arith)
  Found-path {from} {to} (some p) {path} ans e =
      let same : p ≡ path = ground arith in subst (λ q. OpenPath t from to q) same ans

  -- The search that goes straight to the target.
  straight :
      (from target to_agent : String) (r : Option (List String))
      → Found t from target r
      → ((parent : String)
          → is_mothership t.kind ≡ true
          → mothership_parent_node_id t to_agent ≡ some parent
          → parent ≡ target)
      → Outcome from target to_agent r
  straight from target to_agent r ans own = record {
    sound = λ path e. Found-path r ans e;
    by_parent = λ path parent e kind known.
        subst (λ v. contains path v ≡ true) (sym (own parent kind known))
          (OpenPath-visits t (Found-path r ans e));
    complete = λ path kind p. Found-some r ans p;
    complete_by = λ parent path rest known p q. Found-some r ans (OpenPath-join t p q);
  }

  -- The search that goes by way of the parent.
  detour :
      (from parent target to_agent : String) (first second : Option (List String))
      → is_mothership t.kind ≡ true
      → mothership_parent_node_id t to_agent ≡ some parent
      → Found t from parent first
      → Found t parent target second
      → (r : Option (List String)) × (and_then
            (some first)
            (λ path. and_then (some second) (λ rest. some (some (extend_path path rest))))
          ≡ some r)
        × Outcome from target to_agent r
  detour from parent target to_agent none second kind known no_first ans2 = (
    none,
    refl,
    record {
      sound = λ path e. absurd (ground arith);
      by_parent = λ path q e. absurd (ground arith);
      complete = λ path other. absurd (ground arith);
      complete_by = λ q path rest other p.
          let same : q ≡ parent = ground arith in
          absurd (no_first path (subst (λ v. OpenPath t from v path) same p));
    },
  )
  detour from parent target to_agent (some path1) none kind known ans1 no_second = (
    none,
    refl,
    record {
      sound = λ path e. absurd (ground arith);
      by_parent = λ path q e. absurd (ground arith);
      complete = λ path other. absurd (ground arith);
      complete_by = λ q path rest other p p2.
          let same : q ≡ parent = ground arith in
          absurd (no_second rest (subst (λ v. OpenPath t v target rest) same p2));
    },
  )
  detour from parent target to_agent (some path1) (some rest1) kind known ans1 ans2 = (
    some (extend_path path1 rest1),
    refl,
    record {
      sound = λ path e. Found-path (some (extend_path path1 rest1)) (OpenPath-join t ans1 ans2) e;
      by_parent = λ path q e k other.
          let same : parent ≡ q = ground arith in
          let whole : extend_path path1 rest1 ≡ path = ground arith in
          subst (λ p. contains p q ≡ true) whole
            (contains-extend_path path1 rest1 q
              (subst (λ v. contains path1 v ≡ true) same (OpenPath-visits t ans1)));
      complete = λ path other p. refl;
      complete_by = λ q path rest other p p2. refl;
    },
  )

  pub route_path_for_kind-Outcome :
      (from target to_agent : String)
      → (r : Option (List String)) × (route_path_for_kind t from target to_agent ≡ some r)
        × Outcome from target to_agent r
  unfolding route_path_for_kind path_over
  route_path_for_kind-Outcome from target to_agent =
      let (r, e, ans) = bfs_path-Found t from target in
      elim (Bool-cases (is_mothership t.kind)) [
        | inr other ↦
            (r, rw other e, straight from target to_agent r ans (λ p k q. absurd (ground arith)))
        | inl kind ↦ elim (Option-cases (mothership_parent_node_id t to_agent)) [
          | inl free ↦ (
            r,
            rw (kind, free) e,
            straight from target to_agent r ans (λ p k q. absurd (ground arith)),
          )
          | inr (parent, known) ↦ elim (Bool-cases (parent == target)) [
            | inl same ↦ (
              r,
              rw (kind, known, same) e,
              straight from target to_agent r ans (λ p k q. ground (arith, eq_iff parent target)),
            )
            | inr apart ↦
                let (first, e1, ans1) = bfs_path-Found t from parent in
                let (second, e2, ans2) = bfs_path-Found t parent target in
                let (joined, e3, out) =
                  detour from parent target to_agent first second kind known ans1 ans2 in
                (joined, rw (kind, known, apart, e1, e2) e3, out)
          ]
        ]
      ]

-- A route that is allowed leads over open links to the node of the agent, in a topology of kind
-- Mothership by way of the node of the agent's parent.
abbrev pub Allows : {F : Type 0} → SwarmTopologyConfig F → SwarmCommandRoute → Type 0
Allows t r =
    (target : String) × (agent_node_id_in_topology t r.to_agent_id ≡ some target)
    × OpenPath t r.from_node_id target r.via_node_ids
    × ((parent : String)
        → is_mothership t.kind ≡ true
        → mothership_parent_node_id t r.to_agent_id ≡ some parent
        → contains r.via_node_ids parent ≡ true)

module _ {F : Type 0} (floats : Floats F) (t : SwarmTopologyConfig F) where
  -- route_between ends, whatever the topology, and a route that it allows leads over open links
  -- between available nodes to the node of the agent: in a topology of kind Mothership by way of
  -- the node of the agent's parent, if the agent has one.
  pub route_between-Allows :
      (from to_agent : String)
      → (r : SwarmCommandRoute) × (route_between floats t from to_agent ≡ some r)
        × (r.allowed ≡ true → Allows t r)
  unfolding route_between blocked_route route_over
  route_between-Allows from to_agent = by_node (agent_node_id_in_topology t to_agent) refl
    where
      allowed_of :
          (target : String)
          → agent_node_id_in_topology t to_agent ≡ some target
          → (r : Option (List String)) → Outcome t from target to_agent r
          → (route_over floats t from to_agent r).allowed ≡ true
          → Allows t (route_over floats t from to_agent r)
      allowed_of target known none out h = absurd (ground arith)
      allowed_of target known (some path) out h = (
        target,
        known,
        out.sound path refl,
        λ parent kind has. out.by_parent path parent refl kind has,
      )

      by_node :
          (o : Option String)
          → agent_node_id_in_topology t to_agent ≡ o
          → (r : SwarmCommandRoute) × (route_between floats t from to_agent ≡ some r)
            × (r.allowed ≡ true → Allows t r)
      by_node none gone = (
        blocked_route from to_agent "missing_agent_topology_node",
        rw (route_between, gone) refl,
        λ h. absurd (false≢true h),
      )
      by_node (some target) known =
          let (r, e, out) = route_path_for_kind-Outcome t from target to_agent in
          (
            route_over floats t from to_agent r,
            rw (route_between, known, e) refl,
            allowed_of target known r out,
          )

  allowed_if :
      (from to_agent : String) (r : Option (List String))
      → is_some r ≡ true
      → (route_over floats t from to_agent r).allowed ≡ true
  unfolding route_over
  allowed_if from to_agent none h = absurd (ground arith)
  allowed_if from to_agent (some path) h = refl

  -- If the agent has a node to which some path over open links leads, then route_between allows a
  -- route, unless the topology is of kind Mothership.
  pub route_between_finds :
      (from to_agent target : String) (path : List String)
      → agent_node_id_in_topology t to_agent ≡ some target
      → is_mothership t.kind ≡ false
      → OpenPath t from target path
      → (r : SwarmCommandRoute) × (route_between floats t from to_agent ≡ some r)
        × (r.allowed ≡ true)
  unfolding route_between
  route_between_finds from to_agent target path known kind p =
      let (r, e, out) = route_path_for_kind-Outcome t from target to_agent in
      (
        route_over floats t from to_agent r,
        rw (route_between, known, e) refl,
        allowed_if from to_agent r (out.complete path kind p),
      )

  -- If some path over open links leads to the node of the agent's parent and one from there to
  -- the node of the agent, then route_between allows a route, whatever the kind of the topology.
  pub route_between_finds_by_parent :
      (from to_agent target parent : String) (path rest : List String)
      → agent_node_id_in_topology t to_agent ≡ some target
      → mothership_parent_node_id t to_agent ≡ some parent
      → OpenPath t from parent path
      → OpenPath t parent target rest
      → (r : SwarmCommandRoute) × (route_between floats t from to_agent ≡ some r)
        × (r.allowed ≡ true)
  unfolding route_between
  route_between_finds_by_parent from to_agent target parent path rest known has p q =
      let (r, e, out) = route_path_for_kind-Outcome t from target to_agent in
      (
        route_over floats t from to_agent r,
        rw (route_between, known, e) refl,
        allowed_if from to_agent r (out.complete_by parent path rest has p q),
      )
