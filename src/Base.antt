-- ===== src/Base.antt =====
-- Names that every module shares: the libraries', passed on, and those of the children.
-- They model C's arrays (lists with native indices), its tests and its `int`.
mod Tests
mod Lists
mod Products
pub mod Find
pub mod Int
pub mod Text
pub use Tests.*
pub use Lists.*
pub use Products.*
pub use Prim.Native.Nat.{ℕ, zero, suc, ◌+◌, ◌-◌, ◌*◌, ◌/◌, ◌%◌, ◌^◌, ◌≤◌, ◌<◌, min}
pub use mathlib.Core.Path.{◌≡◌, refl, sym, ap, ◌∙◌}
pub use mathlib.Core.Logic.{◌≢◌, ◌↔◌, ◌⊎◌, inl, inr}
pub use mathlib.Core.Bool.{Bool, true, false, not, ◌&&◌, ◌||◌}
pub use mathlib.Core.Option.{Option, none, some}
pub use mathlib.Core.List.{List, [], ◌∷◌, ◌++◌, map}
pub use native.Mathlib.Omega.{arith}
