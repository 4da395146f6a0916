-- ===== src/Asm/Stack.antt =====
-- Instructions that move the stack pointer or use a slot of the stack.
use minilua.Common.{
  ℕ, ◌+◌, ◌-◌, ◌*◌, ◌/◌, ◌%◌, ◌^◌, ◌<◌, ◌≡◌, refl, true, ◌==◌, ltb, if◌then◌else◌, [], ◌∷◌,
  Bool-cases, inl, inr, arith,
}
use minilua.Asm.{
  Cc, poke, bytes32, load32, cc_mcode, rsp, rex, modrm, slot_bytes, fits_byte, rsp_op, cc_subrsp,
  cc_addrsp, cc_mov_rs, cc_mov_sr,
}
use minilua.Asm.Registers.{rex-sum, modrm-sum}

-- an immediate byte as the processor extends it to 32 bits
abbrev pub sext8 : ℕ → ℕ
sext8 b = if ltb b 128 then b else b + (2 ^ 32 - 256)

-- the immediate operand behind the opcode 0x83 (one byte) or 0x81 (four) and the ModRM byte `m`
abbrev pub Immediate : Cc → Cc → ℕ → ℕ → Type 0
Immediate c c' m s =
    (c'.mem c.p ≡ 72)
    × (c'.mem (c.p + 2) ≡ m)
    × (if c'.mem (c.p + 1) == 131
        then (c'.p ≡ c.p + 4) × (sext8 (c'.mem (c.p + 3)) ≡ s)
        else (c'.mem (c.p + 1) ≡ 129) × (c'.p ≡ c.p + 7) × (load32 c'.mem (c.p + 3) ≡ s))

short-Immediate :
    (m s : ℕ) (c : Cc)
    → s < 2 ^ 32
    → fits_byte s ≡ true
    → Immediate c (cc_mcode (72 ∷ 131 ∷ m ∷ (s % 256) ∷ []) c) m s
unfolding fits_byte cc_mcode poke
short-Immediate m s c small fits =
    let op : (cc_mcode (72 ∷ 131 ∷ m ∷ (s % 256) ∷ []) c).mem (c.p + 1) ≡ 131 = ground arith in
    (ground arith, ground arith, rw op (omega arith, ground arith))

long-Immediate :
    (m s : ℕ) (c : Cc) → s < 2 ^ 32 → Immediate c (cc_mcode (72 ∷ 129 ∷ m ∷ bytes32 s) c) m s
unfolding cc_mcode poke bytes32 load32
long-Immediate m s c small =
    let op : (cc_mcode (72 ∷ 129 ∷ m ∷ bytes32 s) c).mem (c.p + 1) ≡ 129 = ground arith in
    (ground arith, ground arith, rw op (refl, omega arith, ground arith))

rsp_op-Immediate : (m s : ℕ) (c : Cc) → s < 2 ^ 32 → Immediate c (rsp_op m s c) m s
unfolding rsp_op
rsp_op-Immediate m s c small = elim (Bool-cases (fits_byte s)) [
  | inl fits ↦ rw fits (short-Immediate m s c small fits)
  | inr long ↦ rw long (long-Immediate m s c small)
]

-- For an `i32`, `cc_subrsp` and `cc_addrsp` write their instruction with the short immediate or the
-- long one, and the number that the processor reads is the one given, also if it is negative.
pub rsp-Immediate :
    (s : ℕ) (c : Cc)
    → s < 2 ^ 32
    → Immediate c (cc_subrsp s c) 236 s × Immediate c (cc_addrsp s c) 196 s
unfolding cc_subrsp cc_addrsp
rsp-Immediate s c small = (rsp_op-Immediate 236 s c small, rsp_op-Immediate 196 s c small)

-- A 64-bit move between `reg` and the memory at `rsp` plus a displacement of 32 bits: the register
-- is in the REX and the ModRM byte, the base is in the SIB byte.
abbrev pub MovesSlot : ℕ → Cc → Cc → ℕ → ℕ → Type 0
MovesSlot op c c' reg displacement =
    (c'.p ≡ c.p + 8)
    × (c'.mem c.p / 8 ≡ 9)
    × (c'.mem c.p % 4 ≡ 0)
    × (c'.mem (c.p + 1) ≡ op)
    × (c'.mem c.p / 4 % 2 * 8 + c'.mem (c.p + 2) / 8 % 8 ≡ reg)
    × (c'.mem (c.p + 2) / 64 ≡ 2)
    × (c'.mem (c.p + 2) % 8 ≡ 4)
    × (c'.mem (c.p + 3) ≡ 36)
    × (load32 c'.mem (c.p + 4) ≡ displacement)

moves :
    (op reg d : ℕ) (c : Cc)
    → reg < 16
    → d < 2 ^ 32
    → MovesSlot op c (cc_mcode (rex 1 reg 0 rsp ∷ op ∷ modrm 2 reg rsp ∷ 36 ∷ bytes32 d) c) reg d
unfolding cc_mcode poke bytes32 load32
moves op reg d c hr hd =
    let code = rex 1 reg 0 rsp ∷ op ∷ modrm 2 reg rsp ∷ 36 ∷ bytes32 d in
    let first : (cc_mcode code c).mem c.p ≡ rex 1 reg 0 rsp = ground arith in
    let third : (cc_mcode code c).mem (c.p + 2) ≡ modrm 2 reg rsp = ground arith in
    let sa = rex-sum reg rsp hr (omega arith) in
    let sb = modrm-sum 2 reg rsp (omega arith) in
    (
      omega arith,
      omega (arith, first, sa),
      omega (arith, first, sa),
      ground arith,
      omega (arith, first, third, sa, sb),
      omega (arith, third, sb),
      omega (arith, third, sb),
      ground arith,
      ground arith,
    )

-- For one of the sixteen registers and a slot whose offset in bytes is below 2 ^ 32, `cc_mov_rs` and
-- `cc_mov_sr` write a load and a store of that register at `rsp` plus eight bytes for each slot.
pub mov-MovesSlot :
    (reg n : ℕ) (c : Cc)
    → reg < 16
    → n * 8 < 2 ^ 32
    → MovesSlot 139 c (cc_mov_rs reg n c) reg (n * 8)
      × MovesSlot 137 c (cc_mov_sr n reg c) reg (n * 8)
unfolding cc_mov_rs cc_mov_sr slot_bytes
mov-MovesSlot reg n c hr hn =
    let d : n * 8 % 2 ^ 32 ≡ n * 8 = omega arith in
    (rw d (moves 139 reg (n * 8) c hr hn), rw d (moves 137 reg (n * 8) c hr hn))
