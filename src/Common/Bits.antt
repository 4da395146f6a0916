-- ===== src/Common/Bits.antt =====
-- `&` and `|` on numbers that are two fields of bits, at every width. The native operations stand
-- for `bitwise`, a recursion on binary digits; dropping its fuel gives one law for the lowest digit.
use Prim.Native.Nat.{
  ℕ, zero, suc, ◌+◌, ◌-◌, ◌*◌, ◌/◌, ◌%◌, ◌^◌, ◌≤◌, ◌<◌, min, max, bit_and, bit_or, digits, bitwise,
  bit_and-bitwise, bit_or-bitwise,
}
use mathlib.Core.Path.{◌≡◌, refl, sym, ap, ◌∙◌}
use native.Mathlib.Nat.{pow-suc, one-le-pow, le_refl, mod-lt, div-add-mod'}
use native.Mathlib.Omega.{arith}

module _ (z : ℕ → ℕ) (f : ℕ → ℕ → ℕ) where
  -- enough fuel is enough
  digits_enough : (m n a b : ℕ) → a ≤ m → a ≤ n → digits z f m a b ≡ digits z f n a b
  digits_enough zero zero a b p q = refl
  digits_enough zero (suc n) zero b p q = refl
  digits_enough zero (suc n) (suc a) b p q = elim p [ ]
  digits_enough (suc m) zero zero b p q = refl
  digits_enough (suc m) zero (suc a) b p q = elim q [ ]
  digits_enough (suc m) (suc n) zero b p q = refl
  digits_enough (suc m) (suc n) (suc a) b p q =
      ap (λ t. t * 2 + f (suc a % 2) (b % 2))
        (digits_enough m n (suc a / 2) (b / 2) (omega arith) (omega arith))

  bitwise_lowest :
      (a b : ℕ)
      → bitwise z f (suc a) b ≡ bitwise z f (suc a / 2) (b / 2) * 2 + f (suc a % 2) (b % 2)
  bitwise_lowest a b =
      ap (λ t. t * 2 + f (suc a % 2) (b % 2))
        (digits_enough a (suc a / 2) (suc a / 2) (b / 2) (omega arith) (le_refl _))

bit_and_lowest : (a b : ℕ) → bit_and a b ≡ bit_and (a / 2) (b / 2) * 2 + min (a % 2) (b % 2)
bit_and_lowest zero b = simp bit_and-bitwise (omega arith)
bit_and_lowest (suc a) b = simp bit_and-bitwise (bitwise_lowest (λ y. 0) min a b)

bit_or_lowest : (a b : ℕ) → bit_or a b ≡ bit_or (a / 2) (b / 2) * 2 + max (a % 2) (b % 2)
bit_or_lowest zero b = simp bit_or-bitwise (omega arith)
bit_or_lowest (suc a) b = simp bit_or-bitwise (bitwise_lowest (λ y. y) max a b)

double_field : (q k : ℕ) → q * 2 ^ suc k ≡ 2 * (q * 2 ^ k)
double_field q k = omega (arith, ap (λ (t : ℕ). q * t) (pow-suc 2 k))

-- An operation that works digit by digit works field by field.
module _ (op : ℕ → ℕ → ℕ) (f : ℕ → ℕ → ℕ) (zeros : op 0 0 ≡ 0)
    (lowest : (a b : ℕ) → op a b ≡ op (a / 2) (b / 2) * 2 + f (a % 2) (b % 2)) where
  op_fields :
      (k p r q s : ℕ)
      → r < 2 ^ k
      → s < 2 ^ k
      → op (p * 2 ^ k + r) (q * 2 ^ k + s) ≡ op p q * 2 ^ k + op r s
  op_fields zero p r q s hr hs = ground (arith, zeros)
  op_fields (suc k) p r q s hr hs =
      let small : 2 ^ suc k ≡ 2 ^ k * 2 = pow-suc 2 k in
      ground (
        arith,
        lowest (p * 2 ^ suc k + r) (q * 2 ^ suc k + s),
        lowest r s,
        double_field p k,
        double_field q k,
        double_field (op p q) k,
        op_fields k p (r / 2) q (s / 2) (omega arith) (omega arith),
      )

pub bit_and_fields :
    (k p r q s : ℕ)
    → r < 2 ^ k
    → s < 2 ^ k
    → bit_and (p * 2 ^ k + r) (q * 2 ^ k + s) ≡ bit_and p q * 2 ^ k + bit_and r s
bit_and_fields = op_fields bit_and min refl bit_and_lowest

pub bit_or_fields :
    (k p r q s : ℕ)
    → r < 2 ^ k
    → s < 2 ^ k
    → bit_or (p * 2 ^ k + r) (q * 2 ^ k + s) ≡ bit_or p q * 2 ^ k + bit_or r s
bit_or_fields = op_fields bit_or max refl bit_or_lowest

pub zero-bit_and : (b : ℕ) → bit_and 0 b ≡ 0
zero-bit_and b = bit_and-bitwise 0 b

pub zero-bit_or : (b : ℕ) → bit_or 0 b ≡ b
zero-bit_or b = bit_or-bitwise 0 b

bounded : (m a b : ℕ) → a ≤ m → (bit_and a b ≤ a) × (bit_and a b ≤ b) × (bit_or a 0 ≡ a)
bounded zero zero b h = (omega (arith, zero-bit_and b), omega (arith, zero-bit_and b), refl)
bounded zero (suc a) b h = elim h [ ]
bounded (suc m) zero b h = (omega (arith, zero-bit_and b), omega (arith, zero-bit_and b), refl)
bounded (suc m) (suc a) b h =
    let (l, r, o) = bounded m (suc a / 2) (b / 2) (omega arith) in
    (
      omega (arith, bit_and_lowest (suc a) b),
      omega (arith, bit_and_lowest (suc a) b),
      omega (arith, bit_or_lowest (suc a) 0),
    )

pub bit_and-le_left : (a b : ℕ) → bit_and a b ≤ a
bit_and-le_left a b = (bounded a a b (le_refl _)).0

pub bit_and-le_right : (a b : ℕ) → bit_and a b ≤ b
bit_and-le_right a b = (bounded a a b (le_refl _)).1

pub bit_or-zero : (a : ℕ) → bit_or a 0 ≡ a
bit_or-zero a = (bounded a a 0 (le_refl _)).2

pub bit_and-zero : (a : ℕ) → bit_and a 0 ≡ 0
bit_and-zero a = omega (arith, bit_and-le_right a 0)

bit_and_low : (k p r : ℕ) → r < 2 ^ k → bit_and (p * 2 ^ k + r) (2 ^ k - 1) ≡ bit_and r (2 ^ k - 1)
bit_and_low k p r h =
    let pos : 1 ≤ 2 ^ k = one-le-pow k 2 (omega arith) in
    ground (arith, bit_and_fields k p r 0 (2 ^ k - 1) h (omega arith), bit_and-zero p)

bit_and_ones : (k r : ℕ) → r < 2 ^ k → bit_and r (2 ^ k - 1) ≡ r
bit_and_ones zero r h = ground arith
bit_and_ones (suc k) r h =
    let small : 2 ^ suc k ≡ 2 ^ k * 2 = pow-suc 2 k in
    let pos : 1 ≤ 2 ^ k = one-le-pow k 2 (omega arith) in
    ground (arith, bit_and_lowest r (2 ^ suc k - 1), bit_and_ones k (r / 2) (omega arith))

-- A mask of `k` low bits is the remainder by `2 ^ k`.
pub bit_and_mask : (k a : ℕ) → bit_and a (2 ^ k - 1) ≡ a % 2 ^ k
bit_and_mask k a =
    let pos : 1 ≤ 2 ^ k = one-le-pow k 2 (omega arith) in
    let low : a % 2 ^ k < 2 ^ k = mod-lt a pos in
    ap (λ t. bit_and t (2 ^ k - 1)) (sym (div-add-mod' a (2 ^ k)))
    ∙ bit_and_low k (a / 2 ^ k) (a % 2 ^ k) low
    ∙ bit_and_ones k (a % 2 ^ k) low
