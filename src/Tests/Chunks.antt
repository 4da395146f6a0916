-- ===== src/Tests/Chunks.antt =====
-- Two variables in one register after another, and a chunk of three instructions with a jump ahead.
use minilua.Common.{
  ℕ, ◌+◌, ◌≤◌, ◌<◌, ◌≡◌, ◌≢◌, ◌⊎◌, refl, sym, List, [], ◌∷◌, ◌==◌, if◌then◌else◌, Run, done, fault,
  stuck, pos, negsuc, arith,
}
use minilua.Asm.{Cc}
use minilua.Rhhm.{null}
use minilua.Ir.{Ir, Tac}
use minilua.Ir.Ops.{ir_op_jmp, ir_op_noop, ir_op_max}
use minilua.Alloc.{allocate}
use minilua.Alloc.Places.{Registers}
use minilua.Alloc.Take.{pos-injective}
use minilua.Alloc.Loop.{Ordered, allocate-Apart}
use minilua.Alloc.Liveness.{extend}
use minilua.Alloc.Liveness.Order.{extend-first}
use minilua.Gen.Places.{regs}
use minilua.Gen.{Runtime, compile_chunk}

regs-Registers : Registers regs
regs-Registers = record { solid = λ j lt. ground arith; unlike = λ i j lt lt' e. ground arith }

-- 0 from instruction 1 to 4, 1 from 2 to 9, 2 from 6 to 7
abbrev starts : ℕ → ℕ
starts v = if v == 0 then 1 else if v == 1 then 2 else 6

abbrev ends : ℕ → ℕ
ends v = if v == 0 then 4 else if v == 1 then 9 else 7

abbrev words : List ℕ
words = 65536 ∷ 131073 ∷ 393218 ∷ []

words-are : Ordered starts 0 words
words-are = (omega arith, refl, (omega arith, refl, (omega arith, refl, tt)))

allocate-Apart_example :
    (let st = allocate regs words ends (λ v. pos 0) in
      ((u w r : ℕ)
        → st.assignment u ≡ pos r
        → st.assignment w ≡ pos r
        → r ≢ 0
        → u ≢ w
        → (ends u < starts w) ⊎ (ends w < starts u))
      × ((u k : ℕ) → pos 0 ≡ pos 0 → st.assignment u ≡ negsuc k → k < st.spills)
      × ((u w k : ℕ)
          → pos 0 ≡ pos 0
          → pos 0 ≡ pos 0
          → st.assignment u ≡ negsuc k
          → st.assignment w ≡ negsuc k
          → u ≡ w))
allocate-Apart_example =
    allocate-Apart regs ends starts (λ v. pos 0) words regs-Registers
      (λ u r e. sym (pos-injective 0 r e)) words-are

-- the second variable takes over the register of the first, 2 the one of 0
reused : (allocate regs words ends (λ v. pos 0)).assignment 2 ≡ pos 3
unfolding allocate
reused = refl

-- nothing in it is deeper in loops than its start
extend-first_example :
    ((extend (ir_op_max + 1) (λ i. if i == 5 then 0 else 1) 5 3 ≡ fault)
      × ((k : ℕ) → 3 ≤ k → k < ir_op_max → 0 < (if k == 5 then 0 else 1)))
    ⊎ ((e' : ℕ) × (extend (ir_op_max + 1) (λ i. if i == 5 then 0 else 1) 5 3 ≡ done e')
        × (3 ≤ e')
        × (e' < ir_op_max)
        × ((if e' == 5 then 0 else 1) ≤ 0)
        × ((k : ℕ) → 3 ≤ k → k < e' → 0 < (if k == 5 then 0 else 1)))
extend-first_example =
    extend-first (ir_op_max + 1) (λ i. if i == 5 then 0 else 1) 5 3 (omega arith) (omega arith)

-- a jump over instruction 1
abbrev code : ℕ → Tac
code i = record {
  op = if i == 0 then ir_op_jmp else if i == 1 then b'%' else ir_op_noop;
  a = 65535;
  b = 0;
  target = if i == 0 then 2 else 1;
}

abbrev program : Ir
program = record {
  ctt_map = null;
  ctts = 77 ∷ [];
  ops = code;
  size = 3;
  iv = 2;
  phi_join_pos = λ d. 0;
  phi_join_type = λ d. 0;
  iphi = 64;
  phidepth = 0;
}

abbrev runtime : Runtime
runtime = record {
  ml_indirect_call = 1;
  lua_newtable = 2;
  lua_setfield = 3;
  lua_getfield = 4;
  lua_setglobal = 5;
  lua_getglobal = 6;
  bv_eq = 7;
  bv_ne = 8;
}

abbrev block : Cc
block = record { p = 4096; mem = λ a. 0; op_addr = λ t. 0; fill = [] }

abbrev code_of : Run Cc → Cc
code_of (done c) = c
code_of fault = block
code_of stuck = block

abbrev compiled : Cc
compiled = code_of (compile_chunk runtime program 0 3 (65536 ∷ []) (λ v. 2) block)
