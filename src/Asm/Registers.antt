-- ===== src/Asm/Registers.antt =====
-- The operands of the instructions on registers, read back from their bytes.
use minilua.Common.{
  ℕ, ◌+◌, ◌*◌, ◌/◌, ◌%◌, ◌^◌, ◌<◌, ◌≡◌, refl, ap, ◌∙◌, sym, arith, bit_and, bit_or, bit_and_mask,
  bit_and_fields, bit_or_fields, zero-bit_or, bit_or-zero, bit_and-zero,
}
use minilua.Asm.{Cc, poke, rex, modrm, rr, cc_mcode, cc_mov_rr, cc_xor_rr, cc_cmp_rr, cc_test_rr}

-- `|` of two numbers whose bits do not meet: a multiple of `2 ^ k` and a number below it
meet : (k p s : ℕ) → s < 2 ^ k → 0 < 2 ^ k → bit_or (p * 2 ^ k) s ≡ p * 2 ^ k + s
meet k p s h pos = ground (arith, bit_or_fields k p 0 0 s pos h, bit_or-zero p, zero-bit_or s)

bit_and_8 : (r : ℕ) → r < 16 → bit_and r 8 ≡ r / 8 * 8
bit_and_8 r lt =
    let fields = bit_and_fields 3 (r / 8) (r % 8) 1 0 (omega arith) (omega arith) in
    let whole : r / 8 * 8 + r % 8 ≡ r = omega arith in
    let one = bit_and_mask 1 (r / 8) in
    let low = bit_and-zero (r % 8) in
    ap (λ t. bit_and t 8) (sym whole) ∙ fields ∙ omega (arith, one, low)

pub rex-sum : (r b : ℕ) → r < 16 → b < 16 → rex 1 r 0 b ≡ 72 + r / 8 * 4 + b / 8
unfolding rex
rex-sum r b hr hb =
    let er : bit_and r 8 / 2 ≡ r / 8 * 4 = omega (arith, bit_and_8 r hr) in
    let eb : bit_and b 8 / 8 ≡ b / 8 = omega (arith, bit_and_8 b hb) in
    let w : bit_or 72 (r / 8 * 4) ≡ 72 + r / 8 * 4 =
      meet 3 9 (r / 8 * 4) (omega arith) (omega arith) in
    let x : bit_or (72 + r / 8 * 4) 0 ≡ 72 + r / 8 * 4 = bit_or-zero _ in
    let even : (18 + r / 8) * 2 ^ 2 ≡ 72 + r / 8 * 4 = omega arith in
    let last : bit_or (72 + r / 8 * 4) (b / 8) ≡ 72 + r / 8 * 4 + b / 8 =
      ap (λ t. bit_or t (b / 8)) (sym even)
      ∙ meet 2 (18 + r / 8) (b / 8) (omega arith) (omega arith)
      ∙ omega arith in
    rw (er, eb, w, x, last) refl

pub modrm-sum : (m reg rm : ℕ) → m < 4 → modrm m reg rm ≡ m * 64 + reg % 8 * 8 + rm % 8
unfolding modrm
modrm-sum m reg rm h =
    let em : bit_and m 7 ≡ m = bit_and_mask 3 m ∙ omega arith in
    let ea : bit_and reg 7 ≡ reg % 8 = bit_and_mask 3 reg in
    let eb : bit_and rm 7 ≡ rm % 8 = bit_and_mask 3 rm in
    let high : bit_or (m * 64) (reg % 8 * 8) ≡ m * 64 + reg % 8 * 8 =
      meet 6 m (reg % 8 * 8) (omega arith) (omega arith) in
    let all : bit_or (m * 64 + reg % 8 * 8) (rm % 8) ≡ m * 64 + reg % 8 * 8 + rm % 8 =
      ap (λ t. bit_or t (rm % 8)) (omega arith)
      ∙ meet 3 (m * 8 + reg % 8) (rm % 8) (omega arith) (omega arith)
      ∙ omega arith in
    rw (em, ea, eb, high, all) refl

-- The REX byte at `a` sets W and no X, the ModRM byte at `b` names two registers, and the register
-- fields of the two make `reg` and `rm`.
abbrev pub Operands : (ℕ → ℕ) → ℕ → ℕ → ℕ → ℕ → Type 0
Operands m a b reg rm =
    (m a / 8 ≡ 9)
    × (m a / 2 % 2 ≡ 0)
    × (m b / 64 ≡ 3)
    × (m a / 4 % 2 * 8 + m b / 8 % 8 ≡ reg)
    × (m a % 2 * 8 + m b % 8 ≡ rm)

operands :
    (m : ℕ → ℕ) (a b reg rm : ℕ)
    → reg < 16
    → rm < 16
    → m a ≡ rex 1 reg 0 rm
    → m b ≡ modrm 3 reg rm
    → Operands m a b reg rm
operands m a b reg rm hr hm ea eb =
    let sa = rex-sum reg rm hr hm in
    let sb = modrm-sum 3 reg rm (omega arith) in
    (omega arith, omega arith, omega arith, omega arith, omega arith)

-- the REX byte, the opcode, the ModRM byte
abbrev pub Encodes : ℕ → Cc → Cc → ℕ → ℕ → Type 0
Encodes op c c' dest src =
    (c'.p ≡ c.p + 3) × (c'.mem (c.p + 1) ≡ op) × Operands c'.mem c.p (c.p + 2) src dest

encodes :
    (op dest src : ℕ) (c : Cc)
    → dest < 16
    → src < 16
    → Encodes op c (cc_mcode (rr op dest src) c) dest src
unfolding rr cc_mcode poke
encodes op dest src c hd hs = (
  omega arith,
  ground arith,
  operands (cc_mcode (rr op dest src) c).mem c.p (c.p + 2) src dest hs hd (ground arith)
      (ground arith),
)

-- For two of the sixteen registers, `cc_mov_rr`, `cc_xor_rr`, `cc_cmp_rr` and `cc_test_rr` write
-- three bytes: the opcode of the operation, and a REX and a ModRM byte from which the 64-bit width
-- and the two registers can be read back, the source in the field `reg` and the destination in `rm`.
pub registers_roundtrip :
    (dest src : ℕ) (c : Cc)
    → dest < 16
    → src < 16
    → Encodes 137 c (cc_mov_rr dest src c) dest src
      × Encodes 49 c (cc_xor_rr dest src c) dest src
      × Encodes 57 c (cc_cmp_rr dest src c) dest src
      × Encodes 133 c (cc_test_rr dest src c) dest src
unfolding cc_mov_rr cc_xor_rr cc_cmp_rr cc_test_rr
registers_roundtrip dest src c hd hs = (
  encodes 137 dest src c hd hs,
  encodes 49 dest src c hd hs,
  encodes 57 dest src c hd hs,
  encodes 133 dest src c hd hs,
)
