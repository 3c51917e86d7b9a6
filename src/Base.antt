-- ===== src/Base.antt =====
-- What every module shares: names of the libraries passed on, Boolean tests and lists over the
-- native numbers, unsigned machine integers, and the sorted containers of Rust's standard library.
mod Tests
mod Lists
mod Words
mod Sorted
mod Texts
mod Decimal
pub mod Result
unfoldable pub use Tests.*
pub use Lists.*
pub use Words.*
pub use Sorted.*
unfoldable pub use Texts.*
unfoldable pub use Decimal.*
pub use Prim.Native.Nat.{ℕ, zero, suc, ◌+◌, ◌-◌, ◌*◌, ◌/◌, ◌%◌, ◌^◌, ◌≤◌, ◌<◌, min, max}
pub use mathlib.Core.Path.{◌≡◌, refl, sym, ap, ◌∙◌}
pub use mathlib.Core.Logic.{◌≢◌, ◌↔◌, ◌⊎◌, inl, inr}
pub use mathlib.Core.Bool.{Bool, true, false, not, ◌&&◌, ◌||◌}
pub use mathlib.Core.Option.{Option, none, some}
pub use mathlib.Core.List.{List, [], ◌∷◌, ◌++◌, map}
pub use native.Mathlib.Omega.{arith}
