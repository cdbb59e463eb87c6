-- ===== src/Base/TextOrder.antt =====
-- The order of ids, `str`'s `Ord`, and sorting by it.
use Prim.Native.Nat.{ℕ, compare as compare_nat, Ordering}
use Prim.Native.Char.{code}
use Prim.Native.String.{String, compare, then as order_then}
use Prim.Native.String.compare as text_compare
use mathlib.Core.Path.{◌≡◌, refl, sym}
use mathlib.Core.Bool.{Bool, true, false}
use native.Mathlib.Omega.{arith}
use drone_swarm_lab.Base.Tests.{if◌then◌else◌, ◌==◌}

-- `s < t`
abbrev pub text_lt : String → String → Bool
text_lt s t = elim (compare s t) [ Ordering.lt ↦ true | _ ↦ false ]

-- `s <= t`
abbrev pub text_le : String → String → Bool
text_le s t = elim (compare s t) [ Ordering.gt ↦ false | _ ↦ true ]

abbrev flip : Ordering → Ordering
flip Ordering.lt = Ordering.gt
flip Ordering.eq = Ordering.eq
flip Ordering.gt = Ordering.lt

flip-compare_nat : (m n : ℕ) → compare_nat n m ≡ flip (compare_nat m n)
flip-compare_nat m n = ground arith

flip-then : (a b : Ordering) → flip (order_then a b) ≡ order_then (flip a) (flip b)
flip-then Ordering.lt b = refl
flip-then Ordering.eq b = refl
flip-then Ordering.gt b = refl

pub flip-compare : (s t : String) → compare t s ≡ flip (compare s t)
flip-compare String.[] String.[] = refl
flip-compare String.[] (String.◌∷◌ d t) = rw (text_compare.nil-cons, text_compare.cons-nil)
flip-compare (String.◌∷◌ c s) String.[] = rw (text_compare.nil-cons, text_compare.cons-nil)
flip-compare (String.◌∷◌ c s) (String.◌∷◌ d t) =
    rw
      (
        text_compare.cons-cons d c t s,
        text_compare.cons-cons c d s t,
        flip-compare s t,
        flip-compare_nat (code c) (code d),
      )
      (sym (flip-then (compare_nat (code c) (code d)) (compare s t)))

-- Of two different ids one is less, and not the other.
pub text_lt_total :
    (s t : String) → (s == t) ≡ false → text_lt t s ≡ (if text_lt s t then false else true)
text_lt_total s t h = ground (arith, flip-compare s t)
