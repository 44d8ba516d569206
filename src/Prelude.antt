-- ===== src/Prelude.antt =====
-- The names that the other modules share: the libraries', passed on, and those of the children.
mod Tests
mod Lists
mod EqTests
mod Int
mod Tables
mod Texts
mod Results
mod Transactions
mod Events
mod Checks
pub use Tests.*
pub use Lists.*
pub use Int.*
unfoldable pub use Tables.*
pub use Results.*
pub use Transactions.*
pub use Events.*
pub use Checks.*
unfoldable pub use Texts.*
pub use EqTests.{
  Eq, ◌==◌, nat_eq, string_eq, eq_refl, contains, contains-keep_if, all_of-contains,
  contains-append,
}
pub use Prim.Native.Nat.{ℕ, zero, suc, ◌+◌, ◌-◌, ◌*◌, ◌≤◌, ◌<◌, min, max}
pub use Prim.Native.String.{String}
pub use mathlib.Core.Path.{◌≡◌, refl, sym, ap, ◌∙◌, subst}
pub use mathlib.Core.Logic.{◌≢◌, ◌↔◌, ◌⊎◌, inl, inr}
pub use mathlib.Core.Bool.{Bool, true, false, ◌&&◌, ◌||◌, not}
pub use mathlib.Core.Option.{Option, none, some}
pub use mathlib.Core.List.{List, [], ◌∷◌, ◌++◌, map}
pub use native.Mathlib.Omega.{arith}
pub use text.Mathlib.TextEquality.{eq_iff}
