-- ===== src/Common.antt =====
-- The names that the other modules share: library names passed on, and those of the children.
mod Tests
mod Lists
pub mod Map
pub mod Result
pub mod Clock
pub mod Text
pub mod Index
pub mod Sort
pub mod Int
pub mod Bytes
pub use Tests.*
pub use text.Mathlib.TextEquality.{eq_iff}
unfoldable pub use Lists.*
pub use Prim.Native.Nat.{ℕ, zero, suc, ◌+◌, ◌-◌, ◌*◌, ◌/◌, ◌%◌, ◌^◌, ◌≤◌, ◌<◌}
pub use Prim.Native.String.{String}
pub use mathlib.Core.Path.{◌≡◌, refl, sym, ap, ap₂, ◌∙◌, subst}
pub use mathlib.Core.Logic.{◌≢◌, ◌↔◌, ◌⊎◌, inl, inr}
pub use mathlib.Core.Bool.{Bool, true, false, not, ◌&&◌, ◌||◌}
pub use mathlib.Core.Option.{Option, none, some}
pub use mathlib.Core.List.{List, [], ◌∷◌, ◌++◌, map, reverse, Memᴰ}
pub use native.Mathlib.Omega.{arith}
