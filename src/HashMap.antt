-- ===== src/HashMap.antt =====
-- `std::collections::HashMap` keyed by ids, as the runtime uses it: an association list with an
-- entry for each key. The iteration order of the list stands for the unspecified order of the
-- program's tables, and no theorem fixes the list.
pub mod Laws
pub mod Keys
use drone_swarm_lab.Base.{String, Bool, Option, none, some, List, [], ◌∷◌, ◌==◌, if◌then◌else◌}

abbrev pub HashMap {ℓ} : Type ℓ → Type ℓ
HashMap V = List (String × V)

module _ {ℓ} {V : Type ℓ} where
  unfoldable pub get : String → HashMap V → Option V
  get k [] = none
  get k ((j, v) ∷ m) = let rest = get k m in if j == k then some v else rest

  -- `insert`: replaces the value of a key that is there.
  unfoldable pub insert : String → V → HashMap V → HashMap V
  insert k v [] = (k, v) ∷ []
  insert k v ((j, w) ∷ m) = let rest = insert k v m in if j == k then (j, v) ∷ m else (j, w) ∷ rest

  unfoldable pub remove : String → HashMap V → HashMap V
  remove k [] = []
  remove k ((j, w) ∷ m) = let rest = remove k m in if j == k then rest else (j, w) ∷ rest

  -- `if let Some(entry) = m.get_mut(k) { *entry = f(entry) }`
  unfoldable pub modify : String → (V → V) → HashMap V → HashMap V
  modify k f [] = []
  modify k f ((j, w) ∷ m) =
      let rest = modify k f m in if j == k then (j, f w) ∷ m else (j, w) ∷ rest

  -- `for entry in m.values_mut() { *entry = f(entry) }`
  unfoldable pub map_values : (V → V) → HashMap V → HashMap V
  map_values f [] = []
  map_values f ((j, w) ∷ m) = (j, f w) ∷ map_values f m

  unfoldable pub values : HashMap V → List V
  values [] = []
  values ((j, w) ∷ m) = w ∷ values m
