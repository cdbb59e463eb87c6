-- ===== src/Protocol/Duplicates.antt =====
-- swarm_protocol.rs: what the sliding window of DuplicateSuppressor remembers.
use drone_swarm_lab.Base.{
  ℕ, suc, ◌+◌, ◌≤◌, ◌<◌, String, Bool, true, false, ◌≡◌, ◌≢◌, refl, sym, ap, List, [], ◌∷◌, ◌++◌,
  length, length-append, leb, any, ◌==◌, eq_refl, if◌then◌else◌, Bool-cases, inl, inr, max, subst,
  leb→le, arith,
}
use drone_swarm_lab.Protocol.{DuplicateSuppressor, is_duplicate, pop_front}

-- The ids given to the suppressor one after the other.
unfoldable pub feed : List String → DuplicateSuppressor → DuplicateSuppressor
feed [] d = d
feed (x ∷ xs) d = feed xs (is_duplicate x d).0

-- The id is among the last `k + 1` ids that were recorded.
abbrev pub IsRecent : ℕ → String → List String → Type 0
IsRecent k id seen =
    (older : List String) × (newer : List String) × ((seen ≡ older ++ id ∷ newer)
      × (length newer ≤ k))

any-append : (p : String → Bool) (xs ys : List String) → any p ys ≡ true → any p (xs ++ ys) ≡ true
unfolding any
any-append p [] ys h = h
any-append p (x ∷ xs) ys h = ground (arith, any-append p xs ys h)

any_self : (id : String) (xs : List String) → any (λ s. s == id) (id ∷ xs) ≡ true
unfolding any
any_self id xs = rw (eq_refl id) refl

recent-any :
    (k : ℕ) (id : String) (seen : List String) → IsRecent k id seen → any (λ s. s == id) seen ≡ true
recent-any k id seen (older, newer, (e, h)) =
    rw (e) (any-append (λ s. s == id) older (id ∷ newer) (any_self id newer))

append_assoc : (xs ys zs : List String) → (xs ++ ys) ++ zs ≡ xs ++ (ys ++ zs)
append_assoc [] ys zs = refl
append_assoc (x ∷ xs) ys zs = ap (λ l. x ∷ l) (append_assoc xs ys zs)

longer :
    (k : ℕ) (newer : List String) (x : String) → length newer ≤ k → length (newer ++ x ∷ []) ≤ suc k
longer k newer x h = omega (arith, h, length-append newer (x ∷ []))

popped :
    (k w : ℕ) (id x : String) (older newer : List String)
    → suc k < w
    → length newer ≤ k
    → w ≤ length (older ++ id ∷ newer)
    → IsRecent (suc k) id (pop_front (older ++ id ∷ newer) ++ x ∷ [])
unfolding pop_front
popped k w id x [] newer lt h le = absurd (omega (arith, lt, h, le))
popped k w id x (o ∷ older) newer lt h le =
    (older, newer ++ x ∷ [], (append_assoc older (id ∷ newer) (x ∷ []), longer k newer x h))

-- Recording one more id, with the oldest dropped if the window is full.
push-IsRecent :
    (k w : ℕ) (id x : String) (older newer : List String)
    → suc k < w
    → length newer ≤ k
    → IsRecent (suc k) id (
        (if leb w (length (older ++ id ∷ newer))
          then pop_front (older ++ id ∷ newer)
          else (older ++ id ∷ newer))
        ++ x ∷ [])
unfolding pop_front
push-IsRecent k w id x older newer lt h = elim (Bool-cases (leb w (length (older ++ id ∷ newer)))) [
  | inr b ↦
      rw (b)
        (older, newer ++ x ∷ [], (append_assoc older (id ∷ newer) (x ∷ []), longer k newer x h))
  | inl b ↦ rw (b) (popped k w id x older newer lt h (leb→le w (length (older ++ id ∷ newer)) b))
]

record-IsRecent :
    (k : ℕ) (id x : String) (d : DuplicateSuppressor)
    → suc k < d.window
    → IsRecent k id d.seen
    → IsRecent (suc k) id (is_duplicate x d).0.seen
unfolding is_duplicate
record-IsRecent k id x d lt (older, newer, (e, h)) = elim (Bool-cases (any (λ s. s == x) d.seen)) [
  | inl b ↦ rw (b) (older, newer, (e, omega (arith, h)))
  | inr b ↦ rw (b, e) (push-IsRecent k d.window id x older newer lt h)
]

record-window : (x : String) (d : DuplicateSuppressor) → (is_duplicate x d).0.window ≡ d.window
unfolding is_duplicate
record-window x d = ground arith

feed-IsRecent :
    (k : ℕ) (id : String) (xs : List String) (d : DuplicateSuppressor)
    → k + length xs < d.window
    → IsRecent k id d.seen
    → IsRecent (k + length xs) id (feed xs d).seen
unfolding feed
feed-IsRecent k id [] d lt r = subst (λ n. IsRecent n id d.seen) (omega arith) r
feed-IsRecent k id (x ∷ xs) d lt r =
    subst (λ n. IsRecent n id (feed xs (is_duplicate x d).0).seen) (omega arith)
      (feed-IsRecent (suc k) id xs (is_duplicate x d).0 (omega (arith, lt, record-window x d))
        (record-IsRecent k id x d (omega (arith, lt)) r))

known :
    (id : String) (d : DuplicateSuppressor)
    → any (λ s. s == id) d.seen ≡ true
    → (is_duplicate id d).1 ≢ false
unfolding is_duplicate
known id d b h = ground (arith, b, h)

recorded :
    (id : String) (d : DuplicateSuppressor)
    → (is_duplicate id d).1 ≡ false
    → IsRecent 0 id (is_duplicate id d).0.seen
unfolding is_duplicate
recorded id d h = elim (Bool-cases (any (λ s. s == id) d.seen)) [
  | inl b ↦ absurd (known id d b h)
  | inr b ↦ rw (b) (_, [], (refl, omega arith))
]

-- An id that was recorded is reported as a duplicate as long as fewer ids than the window holds
-- have been given since, whether they were duplicates or not.
pub recorded_suppressed :
    (id : String) (xs : List String) (d : DuplicateSuppressor)
    → (is_duplicate id d).1 ≡ false
    → length xs < d.window
    → (is_duplicate id (feed xs (is_duplicate id d).0)).1 ≡ true
unfolding is_duplicate
recorded_suppressed id xs d h lt =
    rw
      (recent-any (length xs) id (feed xs (is_duplicate id d).0).seen (
        subst (λ n. IsRecent n id (feed xs (is_duplicate id d).0).seen) (omega arith)
          (feed-IsRecent 0 id xs (is_duplicate id d).0 (omega (arith, lt, record-window id d))
            (recorded id d h))))
      refl

length-pop_empty : (xs : List String) → length xs ≡ 0 → length (pop_front xs) ≡ 0
unfolding pop_front
length-pop_empty [] h = refl
length-pop_empty (x ∷ xs) h = ground (arith, h)

length-pop_front : (xs : List String) → 1 ≤ length xs → suc (length (pop_front xs)) ≡ length xs
unfolding pop_front
length-pop_front [] h = ground (arith, h)
length-pop_front (x ∷ xs) h = refl

record-bound :
    (x : String) (d : DuplicateSuppressor)
    → length d.seen ≤ max 1 d.window
    → length (is_duplicate x d).0.seen ≤ max 1 d.window
unfolding is_duplicate
record-bound x d h = ground (
  arith,
  h,
  length-append d.seen (x ∷ []),
  length-append (pop_front d.seen) (x ∷ []),
  length-pop_front d.seen,
  length-pop_empty d.seen,
)

-- The suppressor never holds more ids than its window, or one if the window is empty.
pub feed-bound :
    (xs : List String) (d : DuplicateSuppressor)
    → length d.seen ≤ max 1 d.window
    → length (feed xs d).seen ≤ max 1 d.window
unfolding feed
feed-bound [] d h = h
feed-bound (x ∷ xs) d h =
    let w = record-window x d in
    subst (λ n. length (feed xs (is_duplicate x d).0).seen ≤ max 1 n) w
      (feed-bound xs (is_duplicate x d).0
        (subst (λ n. length (is_duplicate x d).0.seen ≤ max 1 n) (sym w) (record-bound x d h)))
