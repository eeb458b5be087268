-- ===== src/Base.antt =====
-- The names that the other modules share: the libraries', passed on, and those of the children.
mod Tests
mod Lists
mod Ends
mod Elements
mod Strings
mod Options
mod Maps
mod Order
pub use Tests.*
pub use Lists.*
pub use Ends.*
pub use Elements.*
unfoldable pub use Strings.*
pub use Options.*
unfoldable pub use Maps.*
unfoldable pub use Order.*
pub use Prim.Native.Nat.{compare, Ordering}
pub use Prim.Native.Nat.Ordering.{lt, eq, gt}
pub use Prim.Native.Nat.{ℕ, zero, suc, ◌+◌, ◌-◌, ◌*◌, ◌/◌, ◌%◌, ◌^◌, ◌≤◌, ◌<◌, min, max}
pub use mathlib.Core.Path.{◌≡◌, refl, sym, ap, ◌∙◌, subst}
pub use mathlib.Core.Logic.{◌≢◌, ◌↔◌, ◌⊎◌, inl, inr}
pub use mathlib.Core.Bool.{Bool, true, false, ◌&&◌, ◌||◌, not}
pub use mathlib.Core.Option.{Option, none, some}
pub use mathlib.Core.List.{List, [], ◌∷◌, ◌++◌, map}
pub use native.Mathlib.Omega.{arith}
