-- ===== src/HashMap/Keys.antt =====
-- Lists of keys: `m.iter().filter(p).map(|(k, _)| k)`.
use drone_swarm_lab.Base.{
  String, ◌≡◌, refl, Bool, false, ◌&&◌, Option, none, some, List, [], ◌∷◌, arith, map, eq_iff,
  filter, contains,
}
use drone_swarm_lab.HashMap.{HashMap, get}
use drone_swarm_lab.HashMap.Laws.{UniqueKeys}

module _ {ℓ} {V : Type ℓ} where
  abbrev pub test_value : (V → Bool) → Option V → Bool
  test_value p none = false
  test_value p (some v) = p v

  pub contains-keys :
      (p : V → Bool) (k : String) (m : HashMap V)
      → UniqueKeys m
      → contains (map (λ e. e.0) (filter (λ e. p e.1) m)) k ≡ test_value p (get k m)
  unfolding filter contains get
  contains-keys p k [] u = refl
  contains-keys p k ((i, w) ∷ m) u = ground (arith, contains-keys p k m u.1, eq_iff i k)

pub filter-filter {ℓ} :
    {A : Type ℓ} (p q : A → Bool) (xs : List A)
    → filter p (filter q xs) ≡ filter (λ x. q x && p x) xs
unfolding filter
filter-filter p q [] = refl
filter-filter p q (x ∷ xs) = ground (arith, filter-filter p q xs)
