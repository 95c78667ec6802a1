-- ===== src/Base.antt =====
-- The names that all modules share: the libraries' names passed on, Boolean tests, lists measured
-- by native numbers, Go's signed integers and slices.
mod Tests
mod Lists
mod Elements
mod Signed
mod Slices
mod Index
mod Keys
mod Maps
mod Hash
mod Sets
pub use Tests.*
pub use Lists.*
pub use Elements.*
pub use Signed.*
unfoldable pub use Slices.*
pub use Index.*
pub use Keys.*
pub use Maps.*
pub use Sets.*
unfoldable pub use Hash.*
pub use Prim.Native.Nat.{ℕ, zero, suc, ◌+◌, ◌-◌, ◌*◌, ◌/◌, ◌%◌, ◌^◌, ◌≤◌, ◌<◌, min}
pub use mathlib.Core.Path.{◌≡◌, refl, sym, ap, ap₂, ◌∙◌, subst}
pub use mathlib.Core.Logic.{◌≢◌, ◌↔◌, ◌⊎◌, inl, inr}
pub use mathlib.Core.Bool.{Bool, true, false, ◌&&◌, ◌||◌, not}
pub use mathlib.Core.Option.{Option, none, some}
pub use mathlib.Core.List.{List, [], ◌∷◌, ◌++◌, map}
pub use native.Mathlib.Omega.{arith}
