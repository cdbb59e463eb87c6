-- ===== src/Connectivity/Shortest.antt =====
-- The invariant of the breadth-first searches, on the table of labels.
use drone_swarm_lab.Base.{
  ℕ, suc, ◌≤◌, String, ◌≡◌, refl, sym, Bool, true, false, ◌&&◌, ◌||◌, Option, none, some, List, [],
  ◌∷◌, ◌++◌, arith, eq_iff, nat_eq, nat_eq_iff, ◌==◌, contains, if◌then◌else◌, is_some, inl, inr,
  ◌⊎◌, Option-cases, Bool-cases, subst,
}
use drone_swarm_lab.HashMap.{HashMap, get, insert}
use drone_swarm_lab.HashMap.Laws.{get-insert}
use drone_swarm_lab.Connectivity.{Queue, Adjacency, neighbors, visit_all}
use drone_swarm_lab.Connectivity.Mesh.{has_edge}

-- A walk of so many hops from `src`.
pub data Walk (m : Adjacency) (src : String) : ℕ → String → Type 0 where
  here : Walk m src 0 src
  step : {n : ℕ} {u v : String} → Walk m src n u → has_edge m u v ≡ true → Walk m src (suc n) v

unfoldable pub has_entry : Queue → String → ℕ → Bool
has_entry [] v k = false
has_entry ((x, h) ∷ q) v k = (x == v && nat_eq h k) || has_entry q v k

-- The hops in a queue ascend from `lo` to `hi`.
abbrev pub Ascending : ℕ → ℕ → Queue → Type 0
Ascending lo hi [] = lo ≤ hi
Ascending lo hi ((x, h) ∷ q) = (lo ≤ h) × Ascending h hi q

Ascending-widen : (lo hi top : ℕ) (q : Queue) → hi ≤ top → Ascending lo hi q → Ascending lo top q
Ascending-widen lo hi top [] up a = omega arith
Ascending-widen lo hi top ((x, h) ∷ q) up a = (a.0, Ascending-widen h hi top q up a.1)

Ascending-snoc :
    (lo hi : ℕ) (q : Queue) (n : String) → Ascending lo hi q → Ascending lo hi (q ++ (n, hi) ∷ [])
Ascending-snoc lo hi [] n a = (a, omega arith)
Ascending-snoc lo hi ((x, h) ∷ q) n a = (a.0, Ascending-snoc h hi q n a.1)

pub Ascending-bounds : (lo hi : ℕ) (q : Queue) → Ascending lo hi q → lo ≤ hi
Ascending-bounds lo hi [] a = a
Ascending-bounds lo hi ((x, h) ∷ q) a = omega (arith, a.0, Ascending-bounds h hi q a.1)

pub Ascending-low :
    (lo hi : ℕ) (q : Queue) (v : String) (k : ℕ)
    → Ascending lo hi q
    → has_entry q v k ≡ true
    → lo ≤ k
unfolding has_entry
Ascending-low lo hi [] v k a e = ground arith
Ascending-low lo hi ((x, h) ∷ q) v k a e =
    ground (arith, Ascending-low h hi q v k a.1, nat_eq_iff h k)

has_entry-snoc :
    (q : Queue) (n v : String) (h k : ℕ)
    → has_entry (q ++ (n, h) ∷ []) v k ≡ (has_entry q v k || (n == v && nat_eq h k))
unfolding has_entry
has_entry-snoc [] n v h k = ground arith
has_entry-snoc ((x, j) ∷ q) n v h k = ground (arith, has_entry-snoc q n v h k)

-- A label stays, and a neighbour without one gets the new one.
abbrev pub relabel : Option ℕ → Bool → ℕ → Option ℕ
relabel none b h = if b then some h else none
relabel (some k) b h = some k

pub relabel-cases :
    (o : Option ℕ) (b : Bool) (h k : ℕ)
    → relabel o b h ≡ some k
    → (o ≡ some k) ⊎ ((o ≡ none) × (b ≡ true) × (h ≡ k))
relabel-cases none b h k e = ground arith
relabel-cases (some j) b h k e = inl e

pub get-visit_all :
    (ns : List String) (h : ℕ) (m : HashMap ℕ) (q : Queue) (v : String)
    → get v (visit_all ns h (m, q)).0 ≡ relabel (get v m) (contains ns v) h
unfolding visit_all contains
get-visit_all [] h m q v = ground arith
get-visit_all (n ∷ ns) h m q v = elim (Option-cases (get n m)) [
  | inl f ↦ rw f (
      ground (
        arith,
        eq_iff n v,
        get-insert n v h m,
        get-visit_all ns h (insert n h m) (q ++ (n, h) ∷ []) v,
      ))
  | inr (k, f) ↦ rw f (ground (arith, eq_iff n v, get-visit_all ns h m q v))
]

-- What is queued is what gets a label.
pub has_entry-visit_all :
    (ns : List String) (h : ℕ) (m : HashMap ℕ) (q : Queue) (v : String) (k : ℕ)
    → has_entry (visit_all ns h (m, q)).1 v k ≡ (
        has_entry q v k
        || (nat_eq h k && (contains ns v && (if is_some (get v m) then false else true))))
unfolding visit_all contains
has_entry-visit_all [] h m q v k = ground arith
has_entry-visit_all (n ∷ ns) h m q v k = elim (Option-cases (get n m)) [
  | inl f ↦ rw f (
      ground (
        arith,
        eq_iff n v,
        get-insert n v h m,
        has_entry-snoc q n v h k,
        has_entry-visit_all ns h (insert n h m) (q ++ (n, h) ∷ []) v k,
      ))
  | inr (j, f) ↦ rw f (ground (arith, eq_iff n v, has_entry-visit_all ns h m q v k))
]

pub Ascending-visit_all :
    (ns : List String) (lo h : ℕ) (m : HashMap ℕ) (q : Queue)
    → Ascending lo h q
    → Ascending lo h (visit_all ns h (m, q)).1
unfolding visit_all
Ascending-visit_all [] lo h m q a = a
Ascending-visit_all (n ∷ ns) lo h m q a = elim (Option-cases (get n m)) [
  | inl f ↦
      rw f
        (Ascending-visit_all ns lo h (insert n h m) (q ++ (n, h) ∷ []) (Ascending-snoc lo h q n a))
  | inr (j, f) ↦ rw f (Ascending-visit_all ns lo h m q a)
]

-- `level` is the number of hops of the node that was taken from the queue last.
pub record Inv (a : Adjacency) (src : String) (level : ℕ) (m : HashMap ℕ) (q : Queue) : Type 0 where
  pub source : get src m ≡ some 0
  pub walked : (v : String) (k : ℕ) → get v m ≡ some k → Walk a src k v
  pub queued : (v : String) (k : ℕ) → has_entry q v k ≡ true → get v m ≡ some k
  pub ascending : Ascending level (suc level) q
  pub labels : (v : String) (k : ℕ) → get v m ≡ some k → k ≤ suc level
  pub closed :
      (u v : String) (k : ℕ)
      → get u m ≡ some k
      → has_edge a u v ≡ true
      → (has_entry q u k ≡ true) ⊎ ((j : ℕ) × (get v m ≡ some j) × (j ≤ suc k))

Walk-start : (a : Adjacency) (src v : String) (k : ℕ) → src ≡ v → 0 ≡ k → Walk a src k v
Walk-start a src v k same z = rw (sym same, sym z) here

pub Inv-start : (a : Adjacency) (src : String) → Inv a src 0 ((src, 0) ∷ []) ((src, 0) ∷ [])
unfolding get has_entry
Inv-start a src = record {
  source = ground (arith, eq_iff src src);
  walked = λ v k e. Walk-start a src v k (ground (arith, eq_iff src v)) (ground arith);
  queued = λ v k e. ground (arith, nat_eq_iff 0 k);
  ascending = (omega arith, omega arith);
  labels = λ v k e. ground arith;
  closed = λ u v k e edge. ground (arith, nat_eq_iff 0 k);
}

module _ (a : Adjacency) (src : String) where
  -- A node is labelled within the hops of a walk to it, unless the walk leads past the queue.
  pub Inv-reached :
      (level low : ℕ) (m : HashMap ℕ) (q : Queue)
      → Inv a src level m q
      → ((u : String) (k : ℕ) → has_entry q u k ≡ true → low ≤ k)
      → {n : ℕ} {v : String} → Walk a src n v
      → ((k : ℕ) × (get v m ≡ some k) × (k ≤ n)) ⊎ (low ≤ n)
  Inv-reached level low m q i h here = inl (0, i.source, omega arith)
  Inv-reached level low m q i h (step {n} {u} {v} w edge) = elim (Inv-reached level low m q i h w) [
    | inr past ↦ inr (omega arith)
    | inl (k, e, le) ↦ elim (i.closed u v k e edge) [
      | inl waits ↦ inr (omega (arith, h u k waits))
      | inr (j, f, near) ↦ inl (j, f, omega arith)
    ]
  ]

  -- After the visit each neighbour has a label, if the labels were at most `h + 1`.
  labelled :
      (h : ℕ) (x u v : String) (m : HashMap ℕ) (q : Queue)
      → ((k : ℕ) → get v m ≡ some k → k ≤ suc h)
      → x ≡ u
      → has_edge a u v ≡ true
      → (j : ℕ) × (get v (visit_all (neighbors a x) (suc h) (m, q)).0 ≡ some j) × (j ≤ suc h)
  labelled h x u v m q bound same edge =
      let label = get-visit_all (neighbors a x) (suc h) m q v in
      let near : contains (neighbors a x) v ≡ true = rw same edge in
      elim (Option-cases (get v m)) [
        | inl f ↦ (suc h, rw (label, f, near) refl, omega arith)
        | inr (j, f) ↦ (j, rw (label, f) refl, bound j f)
      ]

  -- A node leaves the queue and its neighbours are visited.
  pub Inv-expand :
      (level h : ℕ) (x : String) (m : HashMap ℕ) (q : Queue)
      → Inv a src level m ((x, h) ∷ q)
      → Inv a src h
          (visit_all (neighbors a x) (suc h) (m, q)).0
          (visit_all (neighbors a x) (suc h) (m, q)).1
  unfolding has_entry
  Inv-expand level h x m q i =
      let ns = neighbors a x in
      let label = λ (v : String). get-visit_all ns (suc h) m q v in
      let entry = λ (v : String) (k : ℕ). has_entry-visit_all ns (suc h) m q v k in
      let here_x : get x m ≡ some h = i.queued x h (ground (arith, eq_iff x x, nat_eq_iff h h)) in
      let high : Ascending h (suc h) q =
        Ascending-widen h (suc level) (suc h) q (omega (arith, i.ascending.0)) i.ascending.1 in
      let fresh = λ (v : String) (k : ℕ) (e : get v (visit_all ns (suc h) (m, q)).0 ≡ some k).
        relabel-cases (get v m) (contains ns v) (suc h) k (rw label at e) in
      record {
        source = ground (arith, label src, i.source);
        walked = λ v k e. elim (fresh v k e) [
          | inl old ↦ i.walked v k old
          | inr (_, edge, z) ↦ subst (λ n. Walk a src n v) z (step (i.walked x h here_x) edge)
        ];
        queued = λ v k e. ground (arith, label v, entry v k, i.queued v k, nat_eq_iff (suc h) k);
        ascending = Ascending-visit_all ns h (suc h) m q high;
        labels = λ v k e. ground (arith, label v, i.labels v k, i.ascending.0);
        closed = λ u v k e edge. elim (fresh u k e) [
          | inr (unseen, edge, z) ↦ inl (ground (arith, entry u k, nat_eq_iff (suc h) k))
          | inl old ↦ elim (i.closed u v k old edge) [
            | inl waits ↦ elim (Bool-cases (has_entry q u k)) [
              | inl still ↦ inl (rw (entry u k, still) refl)
              | inr gone ↦
                  let same : x ≡ u = ground (arith, eq_iff x u) in
                  let z : h ≡ k = ground (arith, nat_eq_iff h k) in
                  inr (
                    subst
                      (λ n.
                        (j : ℕ) × (get v (visit_all ns (suc h) (m, q)).0 ≡ some j) × (j ≤ suc n))
                      z
                      (labelled h x u v m q (λ j f. omega (arith, i.labels v j f, i.ascending.0))
                        same edge))
            ]
            | inr (j, f, near) ↦ inr (j, rw (label v, f) refl, near)
          ]
        ];
      }
