-- ===== src/Prelude.antt =====
-- The names that the other modules share: the libraries', passed on, and those of the children.
mod Tests
mod Lists
mod Strings
mod Maps
mod Results
pub mod Sort
pub mod Numbers
pub mod Splits
pub use Results.*
pub use Tests.*
pub use Lists.*
unfoldable pub use Strings.{◌==◌, less, split, join, contains, to_lower, equal_fold, has_prefix}
pub use Strings.{
  Text, codes, ==_iff, ==_refl, ==_ne, less_irrefl, less_trans, less_total, to_lower-to_lower,
  contains-append,
}
unfoldable pub use Maps.{lookup, insert, text_at}
pub use Maps.{TextMap, lookup-insert, text_at-nil, text_at-cons, text_at-insert}
pub use Prim.Native.Nat.{ℕ, zero, suc, ◌+◌, ◌-◌, ◌*◌, ◌/◌, ◌%◌, ◌^◌, ◌≤◌, ◌<◌}
pub use mathlib.Core.Path.{◌≡◌, refl, sym, ap, ◌∙◌}
pub use mathlib.Core.Logic.{◌≢◌, ◌↔◌, ◌⊎◌, inl, inr}
pub use mathlib.Core.Bool.{Bool, true, false, ◌&&◌, ◌||◌, not}
pub use mathlib.Core.Option.{Option, none, some}
pub use mathlib.Core.List.{List, [], ◌∷◌, ◌++◌, map}
pub use native.Mathlib.Omega.{arith}
