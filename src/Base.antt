-- ===== src/Base.antt =====
-- The names that the other modules share: the libraries', passed on, and those of the children.
mod Tests
mod Lists
mod Texts
pub mod Map
mod Sort
mod Integers
pub use Tests.*
pub use Lists.*
unfoldable pub use Integers.{difference, min_int}
pub use Integers.{ℤ, pos, negsuc}
unfoldable pub use Sort.{sort_on}
pub use Sort.{Ascends, sort_on-perm, sort_on-Ascends, some_of-sort_on}
unfoldable pub use Texts.{text_discrete, is_space, drop_spaces, trim}
pub use Texts.{
  Text, ◌==◌, txt, starts_with, is_empty, contains, add, contains-add, text_eq_refl, sort_texts,
  contains-sort_texts,
}
pub use Prim.Native.Nat.{ℕ, zero, suc, ◌+◌, ◌-◌, ◌*◌, ◌/◌, ◌%◌, ◌^◌, ◌≤◌, ◌<◌, min, max}
pub use mathlib.Core.Path.{◌≡◌, refl, sym, ap, ◌∙◌, subst}
pub use mathlib.Core.Logic.{◌≢◌, ◌↔◌, ◌⊎◌, inl, inr}
pub use mathlib.Core.Bool.{Bool, true, false, not, ◌&&◌, ◌||◌}
pub use mathlib.Core.Option.{Option, none, some}
pub use mathlib.Core.List.{List, [], ◌∷◌, ◌++◌, map, reverse}
pub use native.Mathlib.Omega.{arith}
