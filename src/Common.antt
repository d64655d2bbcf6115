-- ===== src/Common.antt =====
-- The names that the other modules share: the library's, Boolean tests on numbers, lists measured
-- by native numbers, memory as a function of the address, and chains of `next` pointers.
mod Tests
mod Lists
pub mod Chain
pub mod ChainEdit
pub mod Bytes
pub mod Bits
pub mod Tally
pub use Tests.*
unfoldable pub use Lists.*
pub use Prim.Native.Nat.{ℕ, zero, suc, ◌+◌, ◌-◌, ◌*◌, ◌/◌, ◌%◌, ◌^◌, ◌≤◌, ◌<◌}
pub use mathlib.Core.Path.{◌≡◌, refl, sym, ap, ◌∙◌}
pub use mathlib.Core.Logic.{◌≢◌, ◌↔◌, ◌⊎◌, inl, inr}
pub use mathlib.Core.Bool.{Bool, true, false, not, ◌&&◌, ◌||◌}
pub use mathlib.Core.Option.{Option, none, some}
pub use mathlib.Core.List.{List, [], ◌∷◌, ◌++◌, foldl}
pub use native.Mathlib.Omega.{arith}
