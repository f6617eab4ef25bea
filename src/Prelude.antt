-- ===== src/Prelude.antt =====
-- Names that the other modules share: those of the libraries, passed on, and those of the children.
mod Tests
mod Lists
mod Dicts
mod Texts
pub mod Decimal
pub mod Value
pub mod Exec
pub mod Triple
pub mod Checks
pub mod Python
pub use Tests.*
pub use Lists.*
unfoldable pub use Dicts.{lookup, insert, remove, merge}
pub use Dicts.{
  Dict, IsDict, lookup-insert, lookup-remove, lookup-merge, lookup-insert_self, insert-IsDict,
  first_of_two, remove-IsDict, dict_laws, keys,
}
pub use Texts.*
unfoldable pub use Texts.{strip}
pub use Prim.Native.Nat.{ℕ, zero, suc, ◌+◌, ◌-◌, ◌*◌, ◌/◌, ◌%◌, ◌^◌, ◌≤◌, ◌<◌}
pub use Prim.Native.String.{String}
pub use mathlib.Core.Path.{◌≡◌, refl, sym, ap, ◌∙◌, subst}
pub use mathlib.Core.Logic.{◌≢◌, ◌↔◌, ◌⊎◌, inl, inr}
pub use mathlib.Core.Bool.{Bool, true, false, not, ◌&&◌, ◌||◌}
pub use mathlib.Core.Option.{Option, none, some}
pub use mathlib.Core.List.{List, [], ◌∷◌, ◌++◌, map, append_assoc, append-nil}
pub use native.Mathlib.Omega.{arith}
pub use text.Mathlib.Text.{◌==◌}
pub use text.Mathlib.TextEquality.{eq_iff}
pub use text.Mathlib.TextPositions.{eq_refl}
