-- ===== src/Base.antt =====
-- The names that every component shares: the libraries', passed on, and those of the children:
-- Boolean tests and lawful equality (Tests), lists over the native numbers (Lists), the checked
-- u64 and Duration additions of the Rust standard library (Checked) f64 values
-- (Float), and results with the state of a method that fails (Fallible).
mod Tests
mod Lists
mod Checked
mod Float
mod Arithmetic
mod Rings
mod Fallible
pub use Tests.*
pub use Lists.*
unfoldable pub use Checked.*
unfoldable pub use Float.*
unfoldable pub use Arithmetic.*
unfoldable pub use Rings.*
pub use Fallible.*
pub use Prim.Native.Nat.{ℕ, zero, suc, ◌+◌, ◌-◌, ◌*◌, ◌/◌, ◌%◌, ◌^◌, ◌≤◌, ◌<◌, min}
pub use Prim.Native.String.{String}
pub use mathlib.Core.Path.{◌≡◌, refl, sym, ap, ◌∙◌, subst}
pub use mathlib.Core.Logic.{◌≢◌, ◌↔◌, ◌⊎◌, inl, inr}
pub use mathlib.Core.Bool.{Bool, true, false, ◌&&◌, ◌||◌, not}
pub use mathlib.Core.Option.{Option, none, some}
pub use mathlib.Core.List.{List, [], ◌∷◌, ◌++◌, map}
pub use native.Mathlib.Omega.{arith}
