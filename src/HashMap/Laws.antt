-- ===== src/HashMap/Laws.antt =====
-- Laws of the tables: what each operation does to each key, and predicates on entries.
use drone_swarm_lab.Base.{
  String, ◌≡◌, refl, sym, subst, inl, inr, false, Option, none, some, [], ◌∷◌, arith, ◌==◌, eq_iff,
  if◌then◌else◌, Bool-cases,
}
use drone_swarm_lab.HashMap.{HashMap, get, insert, remove, modify, map_values}

abbrev pub map_option {ℓ κ} : {A : Type ℓ} {B : Type κ} → (A → B) → Option A → Option B
map_option f none = none
map_option f (some a) = some (f a)

module _ {ℓ} {V : Type ℓ} where
  pub get-insert :
      (k j : String) (v : V) (m : HashMap V)
      → get j (insert k v m) ≡ (if k == j then some v else get j m)
  unfolding get insert
  get-insert k j v [] = refl
  get-insert k j v ((i, w) ∷ m) =
      ground (arith, eq_iff k j, eq_iff i k, eq_iff i j, get-insert k j v m)

  pub get-remove :
      (k j : String) (m : HashMap V) → get j (remove k m) ≡ (if k == j then none else get j m)
  unfolding get remove
  get-remove k j [] = ground arith
  get-remove k j ((i, w) ∷ m) = ground (arith, eq_iff k j, eq_iff i k, eq_iff i j, get-remove k j m)

  pub get-modify :
      (k j : String) (f : V → V) (m : HashMap V)
      → get j (modify k f m) ≡ (if k == j then map_option f (get j m) else get j m)
  unfolding get modify
  get-modify k j f [] = ground arith
  get-modify k j f ((i, w) ∷ m) =
      ground (arith, eq_iff k j, eq_iff i k, eq_iff i j, get-modify k j f m)

  pub get-map_values :
      (j : String) (f : V → V) (m : HashMap V) → get j (map_values f m) ≡ map_option f (get j m)
  unfolding get map_values
  get-map_values j f [] = refl
  get-map_values j f ((i, w) ∷ m) = ground (arith, get-map_values j f m)

  -- Changes of one entry compose.
  pub modify-modify :
      (k : String) (f g : V → V) (m : HashMap V)
      → modify k f (modify k g m) ≡ modify k (λ v. f (g v)) m
  unfolding modify
  modify-modify k f g [] = refl
  modify-modify k f g ((i, w) ∷ m) = ground (arith, modify-modify k f g m)

  -- Changes of two entries commute.
  pub modify_comm :
      (k j : String) (f g : V → V) (m : HashMap V)
      → (k == j) ≡ false
      → modify k f (modify j g m) ≡ modify j g (modify k f m)
  unfolding modify
  modify_comm k j f g [] h = refl
  modify_comm k j f g ((i, w) ∷ m) h =
      ground (arith, eq_iff k j, eq_iff i k, eq_iff i j, modify_comm k j f g m)

  -- What leaves the value that is there unchanged leaves the table unchanged.
  pub modify_same :
      (k : String) (f : V → V) (m : HashMap V) (v : V)
      → get k m ≡ some v
      → f v ≡ v
      → modify k f m ≡ m
  unfolding get modify
  modify_same k f [] v h e = refl
  modify_same k f ((i, w) ∷ m) v h e = ground (arith, modify_same k f m v)

  pub modify_absent : (k : String) (f : V → V) (m : HashMap V) → get k m ≡ none → modify k f m ≡ m
  unfolding get modify
  modify_absent k f [] h = refl
  modify_absent k f ((i, w) ∷ m) h = ground (arith, modify_absent k f m)

  -- No key has two entries.
  abbrev pub UniqueKeys : HashMap V → Type ℓ
  UniqueKeys [] = Unit
  UniqueKeys ((k, v) ∷ m) = (get k m ≡ none) × UniqueKeys m

  -- Each entry, with its key, satisfies `P`.
  abbrev pub AllEntries {κ} : (String → V → Type κ) → HashMap V → Type κ
  AllEntries P [] = Unit
  AllEntries P ((k, v) ∷ m) = P k v × AllEntries P m

  pub insert-UniqueKeys :
      (k : String) (v : V) (m : HashMap V) → UniqueKeys m → UniqueKeys (insert k v m)
  unfolding insert
  insert-UniqueKeys k v [] u = (unfold get in refl, tt)
  insert-UniqueKeys k v ((i, w) ∷ m) u =
      ground (arith, insert-UniqueKeys k v m, get-insert k i v m, eq_iff i k, eq_iff k i)

  pub remove-UniqueKeys : (k : String) (m : HashMap V) → UniqueKeys m → UniqueKeys (remove k m)
  unfolding remove
  remove-UniqueKeys k [] u = tt
  remove-UniqueKeys k ((i, w) ∷ m) u = ground (arith, remove-UniqueKeys k m, get-remove k i m)

  pub modify-UniqueKeys :
      (k : String) (f : V → V) (m : HashMap V) → UniqueKeys m → UniqueKeys (modify k f m)
  unfolding modify
  modify-UniqueKeys k f [] u = tt
  modify-UniqueKeys k f ((i, w) ∷ m) u =
      ground (arith, modify-UniqueKeys k f m, get-modify k i f m, eq_iff i k, eq_iff k i)

  pub map_values-UniqueKeys :
      (f : V → V) (m : HashMap V) → UniqueKeys m → UniqueKeys (map_values f m)
  unfolding map_values
  map_values-UniqueKeys f [] u = tt
  map_values-UniqueKeys f ((i, w) ∷ m) u =
      ground (arith, map_values-UniqueKeys f m u.1, get-map_values i f m)

module _ {ℓ κ} {V : Type ℓ} (P : String → V → Type κ) where
  pub AllEntries-get :
      (k : String) (v : V) (m : HashMap V) → AllEntries P m → get k m ≡ some v → P k v
  unfolding get
  AllEntries-get k v [] a h = ground arith
  AllEntries-get k v ((i, w) ∷ m) a h = ground (arith, eq_iff i k, AllEntries-get k v m)

  pub AllEntries-insert :
      (k : String) (v : V) (m : HashMap V) → P k v → AllEntries P m → AllEntries P (insert k v m)
  unfolding insert
  AllEntries-insert k v [] p a = (p, tt)
  AllEntries-insert k v ((i, w) ∷ m) p a = ground (arith, eq_iff i k, AllEntries-insert k v m p)

  pub AllEntries-remove : (k : String) (m : HashMap V) → AllEntries P m → AllEntries P (remove k m)
  unfolding remove
  AllEntries-remove k [] a = tt
  AllEntries-remove k ((i, w) ∷ m) a = ground (arith, AllEntries-remove k m)

  -- `f` need only keep `P` at the value that is there.
  pub AllEntries-modify :
      (k : String) (f : V → V) (m : HashMap V)
      → ((v : V) → get k m ≡ some v → P k v → P k (f v))
      → AllEntries P m
      → AllEntries P (modify k f m)
  unfolding modify get
  AllEntries-modify k f [] keep a = tt
  AllEntries-modify k f ((i, w) ∷ m) keep a = elim (Bool-cases (i == k)) [
    | inl same ↦
        let e : i ≡ k = (eq_iff i k).0 same in
        rw same
          (subst (λ j. P j (f w)) (sym e) (keep w (rw same refl) (subst (λ j. P j w) e a.0)), a.1)
    | inr other ↦ rw other (a.0, AllEntries-modify k f m (λ v h. keep v (rw other h)) a.1)
  ]

  pub AllEntries-map_values :
      (f : V → V) (m : HashMap V)
      → ((k : String) (v : V) → P k v → P k (f v))
      → AllEntries P m
      → AllEntries P (map_values f m)
  unfolding map_values
  AllEntries-map_values f [] keep a = tt
  AllEntries-map_values f ((i, w) ∷ m) keep a = (keep i w a.0, AllEntries-map_values f m keep a.1)
