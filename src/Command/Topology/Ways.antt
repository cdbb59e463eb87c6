-- ===== src/Command/Topology/Ways.antt =====
-- Ways in a graph, and nodes from which every way ends; with the counts of the searches.
use drone_swarm_lab.Base.{
  suc, ◌≤◌, String, ◌≡◌, refl, Bool, true, false, not, ◌==◌, eq_iff, List, [], ◌∷◌, arith, filter,
  contains,
}
use drone_swarm_lab.Command.Topology.Search.{missing}

-- A way of at least one edge.
pub data Way (edge : String → String → Bool) : String → String → Type 0 where
  one : {u v : String} → edge u v ≡ true → Way edge u v
  more : {u v w : String} → edge u v ≡ true → Way edge v w → Way edge u w

pub Way-snoc :
    {edge : String → String → Bool} {u v w : String} → Way edge u v → edge v w ≡ true → Way edge u w
Way-snoc (one e) h = more e (one h)
Way-snoc (more e w) h = more e (Way-snoc w h)

pub Way-map :
    {e f : String → String → Bool} {u v : String}
    → ((a b : String) → e a b ≡ true → f a b ≡ true)
    → Way e u v
    → Way f u v
Way-map up (one {u} {v} h) = one (up u v h)
Way-map up (more {u} {v} h w) = more (up u v h) (Way-map up w)

-- Every way from the node ends.
pub data Grounded (edge : String → String → Bool) : String → Type 0 where
  grounded : {u : String} → ((v : String) → edge u v ≡ true → Grounded edge v) → Grounded edge u

pub Grounded-no_cycle :
    {edge : String → String → Bool} {u : String} → Grounded edge u → ¬ Way edge u u
Grounded-no_cycle {u = u} (grounded g) (one h) = Grounded-no_cycle (g u h) (one h)
Grounded-no_cycle (grounded g) (more {v = v} h w) = Grounded-no_cycle (g v h) (Way-snoc w h)

missing-cons-le : (xs seen : List String) (n : String) → missing xs (n ∷ seen) ≤ missing xs seen
unfolding missing contains
missing-cons-le [] seen n = omega arith
missing-cons-le (x ∷ xs) seen n = ground (arith, missing-cons-le xs seen n)

pub missing-cons :
    (xs seen : List String) (n : String)
    → contains xs n ≡ true
    → contains seen n ≡ false
    → suc (missing xs (n ∷ seen)) ≤ missing xs seen
unfolding missing contains
missing-cons [] seen n c h = ground arith
missing-cons (x ∷ xs) seen n c h =
    ground (arith, eq_iff x n, eq_iff n x, missing-cons xs seen n, missing-cons-le xs seen n)

filter-absent :
    (id : String) (xs : List String) → contains xs id ≡ false → filter (λ v. not (v == id)) xs ≡ xs
unfolding filter contains
filter-absent id [] h = refl
filter-absent id (x ∷ xs) h = ground (arith, filter-absent id xs)

pub filter-top :
    (id : String) (xs : List String)
    → contains xs id ≡ false
    → filter (λ v. not (v == id)) (id ∷ xs) ≡ xs
unfolding filter
filter-top id xs h = ground (arith, eq_iff id id, filter-absent id xs h)
