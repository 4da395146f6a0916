-- ===== src/Gen/Chunk.antt =====
-- The marks of a whole run of instructions: those of its forward jumps, in their order.
use minilua.Common.{
  ℕ, zero, suc, ◌+◌, ◌^◌, ◌<◌, ◌≡◌, refl, Bool, true, false, ◌||◌, ◌==◌, ==_iff, if◌then◌else◌,
  List, [], ◌++◌, Run, done, fault, stuck, ◌>>=◌, ℤ, arith,
}
use minilua.Asm.{
  Cc, cc_mov_rs, cc_test_rr, cc_call, cc_jmp, cc_jz, cc_jnz, cc_addsd, cc_subsd, cc_mulsd, cc_divsd,
}
use minilua.Asm.Marks.{Pending}
use minilua.Lex.Codes.{lex_eq, lex_ne}
use minilua.Ir.{Tac, Ir}
use minilua.Ir.Ops.{
  ir_op_call, ir_op_je, ir_op_jne, ir_op_jz, ir_op_jnz, ir_op_jmp, ir_op_newtbl, ir_op_tstore,
  ir_op_tload, ir_op_gstore, ir_op_gload, ir_op_lcopy,
}
use minilua.Alloc.{rax}
use minilua.Gen.Places.{rdi}
use minilua.Gen.{
  Runtime, save_result, jump_to, compile_tstore, call_two, compile_gload, compile_lcopy,
  compile_arith, compile_mod, compile_equal, compile_op,
}
use minilua.Gen.Code.{
  Adds, Adds-trans, Grows, Grows-refl, Grows-trans, test_rr-Quiet, mov_rs-Quiet, call-Quiet,
  addsd-Quiet, subsd-Quiet, mulsd-Quiet, divsd-Quiet, IsJump, jmp-IsJump, jz-IsJump, jnz-IsJump,
}
use minilua.Gen.Jumps.{Emits, if-Emits, forward, save_result-Quiet, jump_to-Grows, then-Quiet}
use minilua.Gen.Emits.{
  compile_compare-Emits, compile_tstore-Emits, call_two-Emits, compile_equal-Emits,
  compile_gload-Emits, compile_lcopy-Emits, compile_arith-Emits, compile_mod-Emits,
  compile_call-Emits, after_cc,
}
use minilua.Gen.{compile_loop, at_op}

abbrev is_branch : ℕ → Bool
is_branch op =
    op == ir_op_je || op == ir_op_jne || op == ir_op_jz || op == ir_op_jnz || op == ir_op_jmp

-- the targets of the forward jumps in an instruction, and in those of a run
abbrev pub op_targets : Tac → ℕ → List ℕ
op_targets t i = if is_branch t.op then forward t.target i else []

abbrev pub forward_targets : (ℕ → Tac) → ℕ → ℕ → List ℕ
forward_targets ops zero i = []
forward_targets ops (suc n) i = op_targets (ops i) i ++ forward_targets ops n (i + 1)

-- the two branches of a test, under its result
if-cases :
    (ts : List ℕ) (c : Cc) (b : Bool) (x y : Run Cc)
    → (b ≡ true → Emits ts c x)
    → (b ≡ false → Emits ts c y)
    → Emits ts c (if b then x else y)
if-cases ts c true x y h k = h refl
if-cases ts c false x y h k = k refl

op_targets-branch : (t : Tac) (i : ℕ) → is_branch t.op ≡ true → op_targets t i ≡ forward t.target i
op_targets-branch t i h = rw h refl

op_targets-other : (t : Tac) (i : ℕ) → is_branch t.op ≡ false → op_targets t i ≡ []
op_targets-other t i h = rw h refl

-- the marks that the code of several instructions adds, each of which has an address then
abbrev pub AddsRun : List ℕ → Cc → Run Cc → Type 0
AddsRun ts c (done c') = Adds ts c c'
AddsRun ts c fault = Unit
AddsRun ts c stuck = ⊥

-- code behind code, each with its marks
after :
    (ts vs : List ℕ) (c c' : Cc) (r : Run Cc)
    → Grows ts c c'
    → AddsRun vs c' r
    → AddsRun (ts ++ vs) c r
after ts vs c c' (done c'') g h = Adds-trans ts vs c c' c'' g.0 h
after ts vs c c' fault g h = tt
after ts vs c c' stuck g h = h

then_run :
    (ts vs : List ℕ) (c : Cc) (r : Run Cc) (f : Cc → Run Cc)
    → Emits ts c r
    → ((c' : Cc) → AddsRun vs c' (f c'))
    → AddsRun (ts ++ vs) c (r >>= f)
then_run ts vs c (done c') f g h = after ts vs c c' (f c') g (h c')
then_run ts vs c fault f g h = tt
then_run ts vs c stuck f g h = g

start_from :
    (ts : List ℕ) (c c' : Cc) (r : Run Cc)
    → ((us : List ℕ) → Pending c us → Pending c' us)
    → AddsRun ts c' r
    → AddsRun ts c r
start_from ts c c' (done c'') g h = λ us pending. h us (g us pending)
start_from ts c c' fault g h = tt
start_from ts c c' stuck g h = h

module _ (rt : Runtime) (o : Ir) (assignment : ℕ → ℤ) (lvar : ℕ) where
  jump-Emits :
      (jump : ℕ → Cc → Cc)
      → IsJump jump
      → (t : Tac) (i : ℕ) (c : Cc) → t.target < 2 ^ 32
      → Emits
          (forward t.target i)
          c
          (done (jump_to rt o assignment lvar jump t.target i (cc_test_rr rax rax c)))
  jump-Emits jump is t i c small =
      Grows-trans [] (forward t.target i) c (cc_test_rr rax rax c)
        (jump_to rt o assignment lvar jump t.target i (cc_test_rr rax rax c))
        (test_rr-Quiet rax rax c)
        (jump_to-Grows rt o assignment lvar jump is t.target i (cc_test_rr rax rax c) small)

  newtbl-Emits :
      (t : Tac) (c : Cc)
      → Emits [] c (
          done (
            save_result rt o assignment lvar t.target
              (cc_call rt.lua_newtable (cc_mov_rs rdi lvar c))))
  newtbl-Emits t c =
      let state = cc_mov_rs rdi lvar c in
      let called = cc_call rt.lua_newtable state in
      then-Quiet c called (save_result rt o assignment lvar t.target)
        (save_result-Quiet rt o assignment lvar t.target)
        (then-Quiet c state (cc_call rt.lua_newtable) (call-Quiet rt.lua_newtable)
          (mov_rs-Quiet rdi lvar c))

  -- the cases behind those of the jumps
  others-Emits :
      (t : Tac) (c : Cc)
      → Emits [] c (
          if t.op == ir_op_newtbl
          then done (
              save_result rt o assignment lvar t.target
                (cc_call rt.lua_newtable (cc_mov_rs rdi lvar c)))
          else if t.op == ir_op_tstore
          then compile_tstore rt o assignment lvar t c
          else if t.op == ir_op_tload
          then (do
            c' ← call_two rt o assignment lvar rt.lua_getfield t c
            done (save_result rt o assignment lvar t.target c'))
          else if t.op == ir_op_gstore
          then call_two rt o assignment lvar rt.lua_setglobal t c
          else if t.op == ir_op_gload
          then compile_gload rt o assignment lvar t c
          else if t.op == ir_op_lcopy
          then compile_lcopy rt o assignment lvar t c
          else if t.op == b'+'
          then compile_arith rt o assignment lvar cc_addsd t c
          else if t.op == b'*'
          then compile_arith rt o assignment lvar cc_mulsd t c
          else if t.op == b'-'
          then compile_arith rt o assignment lvar cc_subsd t c
          else if t.op == b'/'
          then compile_arith rt o assignment lvar cc_divsd t c
          else if t.op == b'%'
          then compile_mod rt o assignment lvar t c
          else if t.op == lex_eq
          then compile_equal rt o assignment lvar rt.bv_eq t c
          else if t.op == lex_ne
          then compile_equal rt o assignment lvar rt.bv_ne t c
          else done c)
  others-Emits t c = if-Emits [] c (t.op == ir_op_newtbl) _ _ (newtbl-Emits t c) (
      if-Emits [] c (t.op == ir_op_tstore) _ _ (compile_tstore-Emits rt o assignment lvar t c) (
        if-Emits [] c (t.op == ir_op_tload) _ _
          (after_cc [] c (call_two rt o assignment lvar rt.lua_getfield t c) _
            (call_two-Emits rt o assignment lvar rt.lua_getfield t c)
            (save_result-Quiet rt o assignment lvar t.target))
          (if-Emits [] c (t.op == ir_op_gstore) _ _
            (call_two-Emits rt o assignment lvar rt.lua_setglobal t c)
            (if-Emits [] c (t.op == ir_op_gload) _ _ (compile_gload-Emits rt o assignment lvar t c)
              (if-Emits [] c (t.op == ir_op_lcopy) _ _
                (compile_lcopy-Emits rt o assignment lvar t c)
                (if-Emits [] c (t.op == b'+') _ _
                  (compile_arith-Emits rt o assignment lvar cc_addsd addsd-Quiet t c)
                  (if-Emits [] c (t.op == b'*') _ _
                    (compile_arith-Emits rt o assignment lvar cc_mulsd mulsd-Quiet t c)
                    (if-Emits [] c (t.op == b'-') _ _
                      (compile_arith-Emits rt o assignment lvar cc_subsd subsd-Quiet t c)
                      (if-Emits [] c (t.op == b'/') _ _
                        (compile_arith-Emits rt o assignment lvar cc_divsd divsd-Quiet t c)
                        (if-Emits [] c (t.op == b'%') _ _
                          (compile_mod-Emits rt o assignment lvar t c)
                          (if-Emits [] c (t.op == lex_eq) _ _
                            (compile_equal-Emits rt o assignment lvar rt.bv_eq t c)
                            (if-Emits [] c (t.op == lex_ne) _ _
                              (compile_equal-Emits rt o assignment lvar rt.bv_ne t c)
                              (Grows-refl c)))))))))))))

  pub compile_op-Emits :
      (t : Tac) (i : ℕ) (c : Cc)
      → t.target < 2 ^ 32
      → Emits (op_targets t i) c (compile_op rt o assignment lvar t i c)
  unfolding compile_op
  compile_op-Emits t i c small =
      if-cases _ c (t.op == ir_op_call) _ _
        (λ h.
          rw (op_targets-other t i (rw ((==_iff t.op ir_op_call).0 h) refl))
            (compile_call-Emits rt o assignment lvar t i c))
        (λ h₀.
          if-cases _ c (t.op == ir_op_je) _ _
            (λ h.
              rw (op_targets-branch t i (rw (h) refl))
                (compile_compare-Emits rt o assignment lvar cc_jz jz-IsJump t i c small))
            (λ h₁.
              if-cases _ c (t.op == ir_op_jne) _ _
                (λ h.
                  rw (op_targets-branch t i (rw (h₁, h) refl))
                    (compile_compare-Emits rt o assignment lvar cc_jnz jnz-IsJump t i c small))
                (λ h₂.
                  if-cases _ c (t.op == ir_op_jz) _ _
                    (λ h.
                      rw (op_targets-branch t i (rw (h₁, h₂, h) refl))
                        (jump-Emits cc_jz jz-IsJump t i c small))
                    (λ h₃.
                      if-cases _ c (t.op == ir_op_jnz) _ _
                        (λ h.
                          rw (op_targets-branch t i (rw (h₁, h₂, h₃, h) refl))
                            (jump-Emits cc_jnz jnz-IsJump t i c small))
                        (λ h₄.
                          if-cases _ c (t.op == ir_op_jmp) _ _
                            (λ h. rw (op_targets-branch t i (rw (h₁, h₂, h₃, h₄, h) refl)) (
                              jump_to-Grows rt o assignment lvar cc_jmp jmp-IsJump t.target i c
                                small))
                            (λ h₅.
                              rw (op_targets-other t i (rw (h₁, h₂, h₃, h₄, h₅) refl))
                                (others-Emits t c)))))))

  pub compile_loop-Adds :
      (n i : ℕ) (c : Cc)
      → ((k : ℕ) → (o.ops k).target < 2 ^ 16)
      → AddsRun (forward_targets o.ops n i) c (compile_loop rt o assignment lvar n i c)
  unfolding compile_loop
  compile_loop-Adds zero i c small = (Grows-refl c).0
  compile_loop-Adds (suc n) i c small =
      let at = at_op rt o assignment lvar i c in
      start_from _ c at _ (λ us h. h)
        (then_run (op_targets (o.ops i) i) (forward_targets o.ops n (i + 1)) at
          (compile_op rt o assignment lvar (o.ops i) i at) _
          (compile_op-Emits (o.ops i) i at (omega (arith, small i)))
          (λ c'. compile_loop-Adds n (i + 1) c' small))
