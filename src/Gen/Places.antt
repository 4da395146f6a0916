-- ===== src/Gen/Places.antt =====
-- The frame of a compiled function: registers, spilled variables, the state `L`, and parameters.
use minilua.Common.{
  ℕ, zero, suc, ◌+◌, ◌-◌, ◌%◌, ◌==◌, ltb, not, ◌||◌, ltb, if◌then◌else◌, List, [], ◌∷◌, length,
  take, Run, done, fault, ◌>>=◌, ℤ, pos, negsuc, assign,
}
use minilua.Ir.{Ir}
use minilua.Ir.Ops.{ir_function_begin}
use minilua.Alloc.{allocate}

abbrev pub rcx : ℕ
rcx = 1

abbrev pub rdx : ℕ
rdx = 2

abbrev pub rsi : ℕ
rsi = 6

abbrev pub rdi : ℕ
rdi = 7

abbrev pub xmm0 : ℕ
xmm0 = 0

abbrev pub xmm1 : ℕ
xmm1 = 1

-- rbx, rbp, r12, r13, r14, r15
abbrev pub regs : List ℕ
regs = 3 ∷ 5 ∷ 12 ∷ 13 ∷ 14 ∷ 15 ∷ []

-- `nparams` of the chunk: the `i16` in `IR_FUNCTION_BEGIN`, 0 rounds for a negative one
unfoldable pub param_count : Ir → ℕ → ℕ
param_count o begin =
    let t = o.ops begin in
    if t.op == ir_function_begin then (if ltb t.b 32768 then t.b else 0) else 0

-- The loops over the parameters, whose variables stand in the instructions before the chunk:
-- parameter `i` of `n` gets the place `place i`.
unfoldable pub param_loop : ℕ → ℕ → Ir → ℕ → (ℕ → ℤ) → (ℕ → ℤ) → Run (ℕ → ℤ)
param_loop zero i o begin place assignment = done assignment
param_loop (suc n) i o begin place assignment =
    if ltb begin i || not (ltb (o.ops (begin - i)).a 32768)
    then fault
    else param_loop n (i + 1) o begin place (assign assignment (o.ops (begin - i)).a (place i))

pub record Frame : Type 0 where
  pub assignment : ℕ → ℤ
  pub used : List ℕ
  pub nvars : ℕ
  pub lvar : ℕ

-- one more variable if the return address would not be followed by an odd number of words
unfoldable pub padded : ℕ → ℕ → ℕ
padded allocated nvars = if (allocated + nvars) % 2 == 0 then nvars + 1 else nvars

unfoldable pub frame : Ir → ℕ → List ℕ → (ℕ → ℕ) → Run Frame
unfolding param_count param_loop padded
frame o begin words live_end = do
  let nparams = param_count o begin
  fixed ← param_loop nparams 1 o begin (λ i. negsuc 0) (λ v. pos 0)
  let st = allocate regs words live_end fixed
  let allocated = length st.current
  let nvars = padded allocated (st.spills + 1)
  assignment ←
      param_loop nparams 1 o begin (λ i. negsuc (nvars + allocated + 1 + (nparams - i)))
        st.assignment
  done (record {
    assignment = assignment;
    used = take allocated regs;
    nvars = nvars;
    lvar = st.spills;
  })
