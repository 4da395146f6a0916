-- ===== src/Value/Ops.antt =====
-- The operations of value.c on two values. `none` says that `lua_error` jumped away.
use minilua.Common.{ℕ, Bool, not, ◌&&◌, ◌==◌, if◌then◌else◌, Option, none, some}

-- Arithmetic and order of doubles, on their bits, as the machine and its `libm` give them, and what
-- the compiler makes of `isnan`: false for every value with `-ffast-math`, as the Makefile has it.
pub record Fpu : Type 0 where
  pub add : ℕ → ℕ → ℕ
  pub sub : ℕ → ℕ → ℕ
  pub mul : ℕ → ℕ → ℕ
  pub div : ℕ → ℕ → ℕ
  pub power : ℕ → ℕ → ℕ
  pub floor : ℕ → ℕ
  pub le : ℕ → ℕ → Bool
  pub lt : ℕ → ℕ → Bool
  pub one : ℕ
  pub isnan : ℕ → Bool

module _ (fpu : Fpu) where
  unfoldable pub bv_add : ℕ → ℕ → Option ℕ
  bv_add a b = some (fpu.add a b)

  unfoldable pub bv_mul : ℕ → ℕ → Option ℕ
  bv_mul a b = if not (fpu.isnan a) && not (fpu.isnan b) then some (fpu.mul a b) else none

  unfoldable pub bv_sub : ℕ → ℕ → Option ℕ
  bv_sub a b = if not (fpu.isnan a) && not (fpu.isnan b) then some (fpu.sub a b) else none

  unfoldable pub bv_div : ℕ → ℕ → Option ℕ
  bv_div a b = if not (fpu.isnan a) && not (fpu.isnan b) then some (fpu.div a b) else none

  unfoldable pub bv_pow : ℕ → ℕ → Option ℕ
  bv_pow a b = if not (fpu.isnan a) && not (fpu.isnan b) then some (fpu.power a b) else none

  unfoldable pub bv_mod : ℕ → ℕ → Option ℕ
  bv_mod a b =
      if not (fpu.isnan a) && not (fpu.isnan b)
      then some (fpu.sub a (fpu.mul (fpu.floor (fpu.div a b)) b))
      else none

  unfoldable pub bv_le : ℕ → ℕ → ℕ
  bv_le a b = if fpu.le a b then 1 else 0

  unfoldable pub bv_lt : ℕ → ℕ → ℕ
  bv_lt a b = if fpu.lt a b then 1 else 0

  unfoldable pub bv_ge : ℕ → ℕ → ℕ
  bv_ge a b = if fpu.le b a then 1 else 0

  unfoldable pub bv_gt : ℕ → ℕ → ℕ
  bv_gt a b = if fpu.lt b a then 1 else 0

  unfoldable pub bv_inc : ℕ → ℕ
  bv_inc a = fpu.add a fpu.one

  unfoldable pub bv_dec : ℕ → ℕ
  bv_dec a = fpu.sub a fpu.one

unfoldable pub bv_eq : ℕ → ℕ → ℕ
bv_eq a b = if a == b then 1 else 0

unfoldable pub bv_ne : ℕ → ℕ → ℕ
bv_ne a b = if a == b then 0 else 1
