-- ===== src/Common.antt =====
-- The names that the other modules share: those of the libraries, passed on, Boolean tests and
-- arrays over the native numbers, and the laws of `&` and `|` on fields of bits.
mod Tests
mod Arrays
mod Bits
mod Outcome
mod Text
mod Ints
pub use Tests.*
pub use Arrays.*
pub use Bits.*
pub use Outcome.*
pub use Text.*
pub use Ints.*
pub use Prim.Native.Nat.{ℕ, zero, suc, ◌+◌, ◌-◌, ◌*◌, ◌/◌, ◌%◌, ◌^◌, ◌≤◌, ◌<◌, min, max}
pub use Prim.Native.Nat.{bit_and, bit_or, bit_xor}
pub use mathlib.Core.Path.{◌≡◌, refl, sym, ap, ap₂, subst, ◌∙◌, fun_ext}
pub use mathlib.Core.Logic.{◌≢◌, ◌↔◌, ◌⊎◌, inl, inr}
pub use mathlib.Core.Bool.{Bool, true, false, not, ◌&&◌, ◌||◌}
pub use mathlib.Core.Option.{Option, none, some}
pub use mathlib.Core.List.{List, [], ◌∷◌, ◌++◌, map}
pub use native.Mathlib.Omega.{arith}
