-- ===== src/Common/Ints.antt =====
-- The integers of C over the native numbers, and arrays as functions.
use Prim.Native.Nat.{ℕ}
use mathlib.Core.Path.{◌≡◌}
use mathlib.Core.Logic.{◌≢◌}
use minilua.Common.Tests.{◌==◌, if◌then◌else◌, ==_refl, ==_false}

-- `negsuc n` is -n - 1
pub data ℤ : Type 0 where
  pos : ℕ → ℤ
  negsuc : ℕ → ℤ

module _ {ℓ} {A : Type ℓ} where
  abbrev pub assign : (ℕ → A) → ℕ → A → ℕ → A
  assign f v a u = if u == v then a else f u

  pub assign_same : (f : ℕ → A) (v : ℕ) (a : A) → assign f v a v ≡ a
  assign_same f v a = rw (==_refl v)

  pub assign_other : (f : ℕ → A) (v : ℕ) (a : A) (u : ℕ) → u ≢ v → assign f v a u ≡ f u
  assign_other f v a u other = rw (==_false u v other)
