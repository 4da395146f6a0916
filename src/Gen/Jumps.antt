-- ===== src/Gen/Jumps.antt =====
-- Each instruction adds the mark of its forward jump.
use minilua.Common.{
  ℕ, zero, suc, ◌+◌, ◌-◌, ◌^◌, ◌<◌, Bool, Bool-cases, inl, inr, true, false, ◌==◌, leb, ltb,
  if◌then◌else◌, List, [], ◌∷◌, length, Run, done, fault, stuck, ◌>>=◌, ℤ, pos, negsuc,
}
use minilua.Asm.{Cc, cc_mov_rs, cc_mov_sr}
use minilua.Ir.{Tac, Ir}
use minilua.Ir.Ops.{ir_no_target}
use minilua.Alloc.{rax}
use minilua.Gen.{
  Runtime, ctt, load_place, load, load_reg, save_place, save_result, jump_to, load_arg, args_loop,
  is_var,
}
use minilua.Gen.Code.{
  Grows, Grows-refl, Grows-trans, then_quiet, Quiet, mov_rr-Quiet, mov_rs-Quiet, mov_sr-Quiet,
  mov_rl-Quiet, IsJump, jump-Quiet, mark-Grows,
}

-- the marks that a run adds, if it ends with code
abbrev pub Emits : List ℕ → Cc → Run Cc → Type 0
Emits ts c (done c') = Grows ts c c'
Emits ts c fault = Unit
Emits ts c stuck = ⊥

abbrev pub EmitsReg : Cc → Run (ℕ × Cc) → Type 0
EmitsReg c (done (r, c')) = Grows [] c c'
EmitsReg c fault = Unit
EmitsReg c stuck = ⊥

-- one more emitter behind those before
pub then-Quiet : (c c' : Cc) (f : Cc → Cc) → Quiet f → Grows [] c c' → Grows [] c (f c')
then-Quiet c c' f q g = then_quiet [] c c' (f c') g (q c')

pub bind_cc :
    (ts : List ℕ) (c : Cc) (r : Run Cc) (f : Cc → Run Cc)
    → Emits [] c r
    → ((c' : Cc) → Grows [] c c' → Emits ts c (f c'))
    → Emits ts c (r >>= f)
bind_cc ts c (done c') f h k = k c' h
bind_cc ts c fault f h k = tt
bind_cc ts c stuck f h k = h

pub bind_reg :
    (ts : List ℕ) (c : Cc) (r : Run (ℕ × Cc)) (f : ℕ × Cc → Run Cc)
    → EmitsReg c r
    → ((a : ℕ) (c' : Cc) → Grows [] c c' → Emits ts c (f (a, c')))
    → Emits ts c (r >>= f)
bind_reg ts c (done (a, c')) f h k = k a c' h
bind_reg ts c fault f h k = tt
bind_reg ts c stuck f h k = h

-- what runs behind code that added no marks
pub from : (ts : List ℕ) (c c' : Cc) (r : Run Cc) → Grows [] c c' → Emits ts c' r → Emits ts c r
from ts c c' (done c'') g h = Grows-trans [] ts c c' c'' g h
from ts c c' fault g h = tt
from ts c c' stuck g h = h

from_reg : (c c' : Cc) (r : Run (ℕ × Cc)) → Grows [] c c' → EmitsReg c' r → EmitsReg c r
from_reg c c' (done (a, c'')) g h = Grows-trans [] [] c c' c'' g h
from_reg c c' fault g h = tt
from_reg c c' stuck g h = h

pub ctt-cc :
    (ctts : List ℕ) (fld : ℕ) (ts : List ℕ) (c : Cc) (f : ℕ → Run Cc)
    → ((v : ℕ) → Emits ts c (f v))
    → Emits ts c (ctt ctts fld >>= f)
unfolding ctt
ctt-cc ctts fld ts c f h = elim (Bool-cases (ltb (2 ^ 16 - fld - 1) (length ctts))) [
  | inl inside ↦ rw inside (h _)
  | inr beyond ↦ rw beyond tt
]

ctt-reg :
    (ctts : List ℕ) (fld : ℕ) (c : Cc) (f : ℕ → Run (ℕ × Cc))
    → ((v : ℕ) → EmitsReg c (f v))
    → EmitsReg c (ctt ctts fld >>= f)
unfolding ctt
ctt-reg ctts fld c f h = elim (Bool-cases (ltb (2 ^ 16 - fld - 1) (length ctts))) [
  | inl inside ↦ rw inside (h _)
  | inr beyond ↦ rw beyond tt
]

-- the two branches of a test
pub if-Emits :
    (ts : List ℕ) (c : Cc) (b : Bool) (x y : Run Cc)
    → Emits ts c x
    → Emits ts c y
    → Emits ts c (if b then x else y)
if-Emits ts c true x y h k = h
if-Emits ts c false x y h k = k

if_reg :
    (c : Cc) (b : Bool) (x y : Run (ℕ × Cc))
    → EmitsReg c x
    → EmitsReg c y
    → EmitsReg c (if b then x else y)
if_reg c true x y h k = h
if_reg c false x y h k = k

-- the mark of a jump to `target` in instruction `i`
abbrev pub forward : ℕ → ℕ → List ℕ
forward target i = if leb target i then [] else target ∷ []

module _ (rt : Runtime) (o : Ir) (assignment : ℕ → ℤ) (lvar : ℕ) where
  pub load_place-Quiet : (reg : ℕ) (p : ℤ) → Quiet (load_place rt o assignment lvar reg p)
  unfolding load_place
  load_place-Quiet reg (negsuc n) c = mov_rs-Quiet reg n c
  load_place-Quiet reg (pos a) c = elim (Bool-cases (reg == a)) [
    | inl same ↦ rw same (Grows-refl c)
    | inr other ↦ rw other (mov_rr-Quiet reg a c)
  ]

  pub load-Emits : (fld reg : ℕ) (c : Cc) → Emits [] c (load rt o assignment lvar fld reg c)
  unfolding load
  load-Emits fld reg c = elim (Bool-cases (is_var fld)) [
    | inl var ↦ rw var (load_place-Quiet reg (assignment fld) c)
    | inr const ↦ rw const (ctt-cc o.ctts fld [] c _ (λ v. mov_rl-Quiet reg v c))
  ]

  with_reg :
      (r : Run Cc) (reg : ℕ) (c : Cc) → Emits [] c r → EmitsReg c (r >>= λ c'. done (reg, c'))
  with_reg (done c') reg c h = h
  with_reg fault reg c h = tt
  with_reg stuck reg c h = h

  pub load_reg-Emits : (fld reg : ℕ) (c : Cc) → EmitsReg c (load_reg rt o assignment lvar fld reg c)
  unfolding load_reg
  load_reg-Emits fld reg c = if_reg c (is_var fld) _ _ (at (assignment fld)) elsewhere
    where
      elsewhere : EmitsReg c (do c' ← load rt o assignment lvar fld reg c; done (reg, c'))
      elsewhere = with_reg (load rt o assignment lvar fld reg c) reg c (load-Emits fld reg c)

      at :
          (p : ℤ)
          → EmitsReg c (elim p [
            | pos r ↦ done (r, c)
            | negsuc n ↦ (do c' ← load rt o assignment lvar fld reg c; done (reg, c'))
          ])
      at (pos r) = Grows-refl c
      at (negsuc n) = elsewhere

  save_place-Quiet : (p : ℤ) → Quiet (save_place rt o assignment lvar p)
  unfolding save_place
  save_place-Quiet (negsuc n) c = mov_sr-Quiet n rax c
  save_place-Quiet (pos a) c = elim (Bool-cases (a == rax)) [
    | inl same ↦ rw same (Grows-refl c)
    | inr other ↦ rw other (mov_rr-Quiet a rax c)
  ]

  pub save_result-Quiet : (fld : ℕ) → Quiet (save_result rt o assignment lvar fld)
  unfolding save_result
  save_result-Quiet fld c = elim (Bool-cases (fld == ir_no_target)) [
    | inl none ↦ rw none (Grows-refl c)
    | inr some ↦ rw some (save_place-Quiet (assignment fld) c)
  ]

  pub jump_to-Grows :
      (jump : ℕ → Cc → Cc)
      → IsJump jump
      → (target i : ℕ) (c : Cc) → target < 2 ^ 32
      → Grows (forward target i) c (jump_to rt o assignment lvar jump target i c)
  unfolding jump_to
  jump_to-Grows jump is target i c small = elim (Bool-cases (leb target i)) [
    | inl back ↦ rw back (jump-Quiet jump is (c.op_addr target) c)
    | inr ahead ↦ rw ahead (mark-Grows jump is 0 target c small)
  ]

  load_arg-Emits :
      (arg : Tac) (align : ℕ) (c : Cc) → EmitsReg c (load_arg rt o assignment lvar arg align c)
  unfolding load_arg
  load_arg-Emits arg align c = elim (Bool-cases (is_var arg.a)) [
    | inr const ↦ rw const (ctt-reg o.ctts arg.a c _ (λ v. mov_rl-Quiet rax v c))
    | inl var ↦ rw var (at (assignment arg.a))
  ]
    where
      at :
          (p : ℤ)
          → EmitsReg c
              (elim p [ pos r ↦ done (r, c) | negsuc n ↦ done (rax, cc_mov_rs rax (n + align) c) ])
      at (pos r) = Grows-refl c
      at (negsuc n) = mov_rs-Quiet rax (n + align) c

  pub args_loop-Emits :
      (n j i nargs align : ℕ) (c : Cc)
      → Emits [] c (args_loop rt o assignment lvar n j i nargs align c)
  unfolding args_loop
  args_loop-Emits zero j i nargs align c = Grows-refl c
  args_loop-Emits (suc n) j i nargs align c = elim (Bool-cases (ltb i (j + 1))) [
    | inl before ↦ rw before tt
    | inr inside ↦ rw inside (
        bind_reg [] c (load_arg rt o assignment lvar (o.ops (i - j - 1)) align c) _
          (load_arg-Emits (o.ops (i - j - 1)) align c)
          (λ ra c' g.
            from [] c (cc_mov_sr (nargs - j - 1) ra c') _
              (then-Quiet c c' (cc_mov_sr (nargs - j - 1) ra) (mov_sr-Quiet (nargs - j - 1) ra) g)
              (args_loop-Emits n (j + 1) i nargs align (cc_mov_sr (nargs - j - 1) ra c'))))
  ]
