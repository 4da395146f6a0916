-- ===== src/Common/Outcome.antt =====
-- What a run of C code comes to.

-- `fault` is undefined behaviour (an access out of bounds, a null pointer) or an `abort`. `stuck`
-- is no behaviour of the code: it says that a loop has used up the rounds that the model gives it.
pub data Run {ℓ} (A : Type ℓ) : Type ℓ where
  done : A → Run A
  fault : Run A
  stuck : Run A

infixl 5 ◌>>=◌
abbrev pub ◌>>=◌ {ℓ κ} : {A : Type ℓ} {B : Type κ} → Run A → (A → Run B) → Run B
done a >>= f = f a
fault >>= f = fault
stuck >>= f = stuck
