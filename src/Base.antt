-- ===== src/Base.antt =====
-- The names that the components share: the libraries', passed on, and those of the children.
mod Tests
mod Lists
mod Text
mod Int
mod Actions
mod Surroundings
mod Sql
mod Triples
mod Settling
mod Ending
mod Paging
mod Keeping
mod Leaving
mod Silent
mod Pages
unfoldable pub use Tests.*
pub use Lists.*
unfoldable pub use Text.*
pub use Int.*
unfoldable pub use Paging.*
unfoldable pub use Actions.*
unfoldable pub use Surroundings.*
unfoldable pub use Sql.*
pub use Triples.*
pub use Settling.*
pub use Ending.*
pub use Keeping.*
pub use Leaving.*
pub use Silent.*
pub use Pages.*
pub use Prim.Native.Nat.{ℕ, zero, suc, ◌+◌, ◌-◌, ◌*◌, ◌/◌, ◌%◌, ◌^◌, ◌≤◌, ◌<◌}
pub use Prim.Native.String.{String}
pub use mathlib.Core.Path.{◌≡◌, refl, sym, ap, ◌∙◌, subst, fun_ext}
pub use mathlib.Core.Logic.{◌≢◌, ◌↔◌, ◌⊎◌, inl, inr}
pub use mathlib.Core.Bool.{Bool, true, false, not, ◌&&◌, ◌||◌}
pub use mathlib.Core.Option.{Option, none, some}
pub use mathlib.Core.List.{List, [], ◌∷◌, ◌++◌, map, reverse, reverse_aux, reverse_aux-eq}
pub use native.Mathlib.Omega.{arith}
pub use text.Mathlib.Text.{◌==◌ as str_eq}
pub use text.Mathlib.TextEquality.{eq_iff}
pub use text.Mathlib.TextPositions.{eq_refl}
