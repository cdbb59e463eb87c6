-- ===== src/Connectivity/Visits.antt =====
-- The loop over the neighbours of a node: what it visits, and what is left to visit.
use drone_swarm_lab.Base.{
  ℕ, suc, ◌+◌, ◌≤◌, String, ◌≡◌, refl, true, none, List, [], ◌∷◌, ◌++◌, arith, eq_iff, map,
  contains, contains-append, if◌then◌else◌, is_some, length, length-append, inl, inr, Option-cases,
}
use drone_swarm_lab.HashMap.{HashMap, get, insert}
use drone_swarm_lab.HashMap.Laws.{get-insert}
use drone_swarm_lab.Connectivity.{
  Queue, Adjacency, neighbors, visit_all, enqueue_all, all_neighbors,
}

abbrev pub keys : HashMap ℕ → List String
keys m = map (λ e. e.0) m

contains-keys : (m : HashMap ℕ) (n : String) → contains (keys m) n ≡ is_some (get n m)
unfolding contains get
contains-keys [] n = refl
contains-keys ((k, v) ∷ m) n = ground (arith, contains-keys m n)

keys-insert :
    (n : String) (h : ℕ) (m : HashMap ℕ) → get n m ≡ none → keys (insert n h m) ≡ keys m ++ n ∷ []
unfolding get insert
keys-insert n h [] e = refl
keys-insert n h ((k, v) ∷ m) e = ground (arith, keys-insert n h m)

-- The set of `hop_count_between` is the set of keys of the table of `reachability_from_base`.
pub enqueue_all-keys :
    (ns : List String) (h : ℕ) (m : HashMap ℕ) (q : Queue)
    → enqueue_all ns h (keys m, q) ≡ (keys (visit_all ns h (m, q)).0, (visit_all ns h (m, q)).1)
unfolding enqueue_all visit_all
enqueue_all-keys [] h m q = refl
enqueue_all-keys (n ∷ ns) h m q = elim (Option-cases (get n m)) [
  | inl f ↦
      let e = contains-keys m n in
      let k = keys-insert n h m f in
      let ih = enqueue_all-keys ns h (insert n h m) (q ++ (n, h) ∷ []) in rw (e, f) (rw k at ih)
  | inr (v, f) ↦ rw (contains-keys m n, f) (enqueue_all-keys ns h m q)
]

-- How many of the ids have no label yet.
unfoldable pub unseen : List String → HashMap ℕ → ℕ
unseen [] m = 0
unseen (x ∷ xs) m = let rest = unseen xs m in if is_some (get x m) then rest else suc rest

unseen-insert-le :
    (xs : List String) (n : String) (h : ℕ) (m : HashMap ℕ) → unseen xs (insert n h m) ≤ unseen xs m
unfolding unseen
unseen-insert-le [] n h m = omega arith
unseen-insert-le (x ∷ xs) n h m = ground (arith, get-insert n x h m, unseen-insert-le xs n h m)

unseen-insert :
    (xs : List String) (n : String) (h : ℕ) (m : HashMap ℕ)
    → contains xs n ≡ true
    → get n m ≡ none
    → suc (unseen xs (insert n h m)) ≤ unseen xs m
unfolding unseen contains
unseen-insert [] n h m c e = ground arith
unseen-insert (x ∷ xs) n h m c e = ground (
  arith,
  eq_iff x n,
  eq_iff n x,
  get-insert n x h m,
  unseen-insert xs n h m,
  unseen-insert-le xs n h m,
)

-- A node that is queued was unseen.
pub visit_all-work :
    (all ns : List String) (h : ℕ) (m : HashMap ℕ) (q : Queue)
    → ((n : String) → contains ns n ≡ true → contains all n ≡ true)
    → unseen all (visit_all ns h (m, q)).0 + length (visit_all ns h (m, q)).1
      ≤ unseen all m + length q
unfolding visit_all contains
visit_all-work all [] h m q within = omega arith
visit_all-work all (n ∷ ns) h m q within = elim (Option-cases (get n m)) [
  | inl f ↦ rw f (
      omega (
        arith,
        visit_all-work all ns h (insert n h m) (q ++ (n, h) ∷ []) (λ k c. within k (ground arith)),
        unseen-insert all n h m (within n (ground (arith, eq_iff n n))) f,
        length-append q ((n, h) ∷ []),
      ))
  | inr (v, f) ↦ rw f (visit_all-work all ns h m q (λ k c. within k (ground arith)))
]

pub neighbors-within :
    (m : Adjacency) (id n : String)
    → contains (neighbors m id) n ≡ true
    → contains (all_neighbors m) n ≡ true
unfolding neighbors contains get all_neighbors
neighbors-within [] id n h = ground arith
neighbors-within ((k, ns) ∷ m) id n h =
    ground (arith, contains-append ns (all_neighbors m) n, neighbors-within m id n)
