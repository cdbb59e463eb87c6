-- ===== src/Base.antt =====
-- Names that every module shares: the libraries' names passed on, Boolean tests on the native
-- numbers and on texts, result values, and lists with native lengths.
pub mod Tests
pub mod Results
pub mod Lists
pub mod TextOrder
pub use Tests.*
pub use Results.*
pub use TextOrder.{text_lt, text_le, text_lt_total, flip-compare}
unfoldable pub use Lists.{filter, find, any, contains}
pub use Lists.{
  length, length-append, append-nil, find-any, find-holds, is_empty, All, All-append,
  length-filter-le, Distinct, contains-append, Distinct-snoc,
}
pub use Prim.Native.Nat.{ℕ, zero, suc, ◌+◌, ◌-◌, ◌*◌, ◌%◌, ◌^◌, ◌≤◌, ◌<◌, max}
pub use Prim.Native.String.{String}
pub use mathlib.Core.Path.{◌≡◌, refl, sym, ap, ◌∙◌, subst, fun_ext}
pub use mathlib.Core.Logic.{◌≢◌, ◌↔◌, ◌⊎◌, inl, inr}
pub use mathlib.Core.Bool.{Bool, true, false, not, ◌&&◌, ◌||◌, false≢true}
pub use mathlib.Core.Option.{Option, none, some}
pub use mathlib.Core.List.{List, [], ◌∷◌, ◌++◌, map, reverse, map-append}
pub use native.Mathlib.Omega.{arith}
pub use text.Mathlib.TextEquality.{eq_iff}
