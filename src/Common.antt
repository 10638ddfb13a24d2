-- ===== src/Common.antt =====
-- Names that the whole development shares: the libraries' names passed on, Boolean tests on
-- numbers, lists, signed integers, text and results.
mod Tests
mod Lists
pub mod Counting
pub mod Updates
pub mod Keys
pub mod Pairs
pub mod Int
pub mod Text
pub mod Decimal
pub mod Results
pub mod Rounding
pub mod Scale
pub use Tests.*
pub use Lists.*
pub use Prim.Native.Nat.{ℕ, zero, suc, ◌+◌, ◌-◌, ◌*◌, ◌/◌, ◌%◌, ◌≤◌, ◌<◌}
pub use mathlib.Core.Path.{◌≡◌, refl, sym, ap, subst, ◌∙◌}
pub use mathlib.Core.Logic.{◌≢◌, ◌⊎◌, inl, inr, ◌↔◌}
pub use mathlib.Core.Bool.{Bool, true, false, not, ◌&&◌, ◌||◌}
pub use mathlib.Core.Option.{Option, none, some}
pub use mathlib.Core.List.{List, [], ◌∷◌, ◌++◌, map}
pub use native.Mathlib.Omega.{arith}
