-- ===== src/Prelude.antt =====
-- Names that all modules share: the libraries' names, passed on, and the children's.
mod Tests
mod Lists
mod Select
mod Arrays
mod Keys
mod Evolution
mod Chosen
mod Cells
mod Tables
pub use Tests.*
pub use Lists.*
unfoldable pub use Select.*
pub use Arrays.*
pub use Keys.*
pub use Evolution.*
pub use Chosen.*
pub use Cells.*
pub use Tables.*
pub use Prim.Native.Nat.{ℕ, zero, suc, ◌+◌, ◌-◌, ◌*◌, ◌/◌, ◌%◌, ◌^◌, ◌≤◌, ◌<◌, max, min}
pub use Prim.Native.String.{String}
pub use mathlib.Core.Path.{◌≡◌, refl, sym, ap, ◌∙◌, subst}
pub use mathlib.Core.Logic.{◌≢◌, ◌↔◌, ◌⊎◌, inl, inr}
pub use mathlib.Core.Bool.{Bool, true, false, ◌&&◌, ◌||◌, not}
pub use mathlib.Core.Option.{Option, none, some}
pub use mathlib.Core.List.{List, [], ◌∷◌, ◌++◌, map}
pub use native.Mathlib.Omega.{arith}
pub use text.Mathlib.TextEquality.{eq_iff}
pub use text.Mathlib.TextPositions.{eq_refl}
