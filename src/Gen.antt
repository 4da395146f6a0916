-- ===== src/Gen.antt =====
-- The code generator of cc.c, `compile_chunk`: machine code for the instructions of a function or of
-- the top level, after each variable has its place. A read of a constant that was not pushed, or of
-- an instruction before the first, is a fault.
pub mod Places
pub mod Code
pub mod Jumps
pub mod Emits
pub mod Chunk
pub mod Addresses
pub mod Resolve
pub mod Program
use minilua.Common.{
  ℕ, zero, suc, ◌+◌, ◌-◌, ◌*◌, ◌/◌, ◌%◌, ◌^◌, Bool, true, false, not, ◌&&◌, ◌||◌, ◌==◌, ltb, leb,
  if◌then◌else◌, List, [], ◌∷◌, length, get_or, Run, done, fault, stuck, ◌>>=◌, ℤ, pos, negsuc,
  assign,
}
use minilua.Asm.{
  Cc, cc_mcode, cc_mov_rl, cc_mov_rs, cc_mov_sr, cc_mov_rr, cc_movq_xr, cc_movq_rx, cc_push, cc_pop,
  cc_cmp_rr, cc_test_rr, cc_call, cc_jmp, cc_jz, cc_jnz, cc_subrsp, cc_addrsp, cc_ret, cc_addsd,
  cc_subsd, cc_mulsd, cc_divsd, cc_mark, cc_fill_marks,
}
use minilua.Lex.Codes.{lex_eq, lex_ne}
use minilua.Ir.{Tac, Ir, sext}
use minilua.Ir.Ops.{
  ir_op_call, ir_op_je, ir_op_jne, ir_op_jz, ir_op_jnz, ir_op_jmp, ir_op_newtbl, ir_op_tstore,
  ir_op_tload, ir_op_gstore, ir_op_gload, ir_op_lcopy, ir_no_target, ir_function_begin,
}
use minilua.Alloc.{rax, Alloc, allocate}
use Places.{Frame, frame, rcx, rdx, rsi, rdi, regs, xmm0, xmm1}

-- the addresses of the functions that the code calls
pub record Runtime : Type 0 where
  pub ml_indirect_call : ℕ
  pub lua_newtable : ℕ
  pub lua_setfield : ℕ
  pub lua_getfield : ℕ
  pub lua_setglobal : ℕ
  pub lua_getglobal : ℕ
  pub bv_eq : ℕ
  pub bv_ne : ℕ

-- an `i16` that is a variable, and the constant that another one is
abbrev pub is_var : ℕ → Bool
is_var fld = ltb fld 32768

unfoldable pub ctt : List ℕ → ℕ → Run ℕ
ctt ctts fld =
    let i = 2 ^ 16 - fld - 1 in if ltb i (length ctts) then done (get_or ctts i 0) else fault

module _ (rt : Runtime) (o : Ir) (assignment : ℕ → ℤ) (lvar : ℕ) where
  -- `LOAD`; `keep` is always the register that it is given
  unfoldable pub load_place : ℕ → ℤ → Cc → Cc
  load_place reg (negsuc n) c = cc_mov_rs reg n c
  load_place reg (pos a) c = if reg == a then c else cc_mov_rr reg a c

  unfoldable pub load : ℕ → ℕ → Cc → Run Cc
  unfolding ctt load_place
  load fld reg c =
      if is_var fld
      then done (load_place reg (assignment fld) c)
      else (do v ← ctt o.ctts fld; done (cc_mov_rl reg v c))

  -- `LOAD_RA` and `LOAD_RB`: the register of a variable that has one, else `reg`
  unfoldable pub load_reg : ℕ → ℕ → Cc → Run (ℕ × Cc)
  unfolding load
  load_reg fld reg c =
      let elsewhere = (do c' ← load fld reg c; done (reg, c')) in
      if is_var fld
      then elim (assignment fld) [ pos r ↦ done (r, c) | negsuc n ↦ elsewhere ]
      else elsewhere

  unfoldable pub save_place : ℤ → Cc → Cc
  save_place (pos a) c = if a == rax then c else cc_mov_rr a rax c
  save_place (negsuc n) c = cc_mov_sr n rax c

  -- `SAVE_RESULT`
  unfoldable pub save_result : ℕ → Cc → Cc
  unfolding save_place
  save_result fld c = if fld == ir_no_target then c else save_place (assignment fld) c

  -- a jump back to code that is there, or forward with a mark
  unfoldable pub jump_to : (ℕ → Cc → Cc) → ℕ → ℕ → Cc → Cc
  jump_to jump target i c =
      if leb target i then jump (c.op_addr target) c else cc_mark target (jump 0 c)

  -- the register that argument `arg` is in, or comes to
  unfoldable pub load_arg : Tac → ℕ → Cc → Run (ℕ × Cc)
  unfolding ctt
  load_arg arg align c =
      if is_var arg.a
      then elim (assignment arg.a) [
        | pos r ↦ done (r, c)
        | negsuc n ↦ done (rax, cc_mov_rs rax (n + align) c)
      ]
      else (do v ← ctt o.ctts arg.a; done (rax, cc_mov_rl rax v c))

  -- the rounds for the arguments `j` up to `j + n - 1`, which stand before instruction `i`
  unfoldable pub args_loop : ℕ → ℕ → ℕ → ℕ → ℕ → Cc → Run Cc
  unfolding load_arg
  args_loop zero j i nargs align c = done c
  args_loop (suc n) j i nargs align c = if ltb i (j + 1) then fault else (do
    (ra, c') ← load_arg (o.ops (i - j - 1)) align c
    args_loop n (j + 1) i nargs align (cc_mov_sr (nargs - j - 1) ra c'))

  abbrev pub unless_zero : ℕ → (Cc → Cc) → Cc → Cc
  unless_zero n f c = if n == 0 then c else f c

  -- The count of the arguments is an `i16`; a negative one is an `int` for the sums, and no rounds.
  unfoldable pub compile_call : Tac → ℕ → Cc → Run Cc
  unfolding sext load args_loop save_result
  compile_call t i c = do
    c₁ ← load t.a rcx c
    let v = (if is_var t.b then t.b else t.b + (2 ^ 64 - 2 ^ 16))
    let c₂ = cc_mov_rl rsi v (cc_mov_rs rdi lvar c₁)
    let align = (sext t.b + t.b % 2) % 2 ^ 32
    let bytes = 8 * align % 2 ^ 32
    let nargs = (if is_var t.b then t.b else 0)
    c₃ ← args_loop nargs 0 i nargs align (unless_zero t.b (cc_subrsp bytes) c₂)
    done (save_result t.target (unless_zero t.b (cc_addrsp bytes) (cc_call rt.ml_indirect_call c₃)))

  -- `IR_OP_JE` and `IR_OP_JNE`
  unfoldable pub compile_compare : (ℕ → Cc → Cc) → Tac → ℕ → Cc → Run Cc
  unfolding load_reg jump_to
  compile_compare jump t i c = do
    (ra, c₁) ← load_reg t.a rdi c
    (rb, c₂) ← load_reg t.b rsi c₁
    done (jump_to jump t.target i (cc_cmp_rr ra rb c₂))

  -- Operands of a store to a table are read from the slots with the variables' numbers.
  unfoldable pub load_slot : ℕ → ℕ → Cc → Run Cc
  unfolding ctt
  load_slot fld reg c =
      if is_var fld
      then done (cc_mov_rs reg fld c)
      else (do v ← ctt o.ctts fld; done (cc_mov_rl reg v c))

  unfoldable pub compile_tstore : Tac → Cc → Run Cc
  unfolding load_slot
  compile_tstore t c = do
    c₁ ← load_slot t.a rdx (cc_mov_rs rsi t.target (cc_mov_rs rdi lvar c))
    c₂ ← load_slot t.b rcx c₁
    done (cc_call rt.lua_setfield c₂)

  -- a call with `L` and two operands, of `IR_OP_TLOAD` and `IR_OP_GSTORE`
  unfoldable pub call_two : ℕ → Tac → Cc → Run Cc
  unfolding load
  call_two f t c = do
    c₁ ← load t.a rsi (cc_mov_rs rdi lvar c)
    c₂ ← load t.b rdx c₁
    done (cc_call f c₂)

  unfoldable pub compile_gload : Tac → Cc → Run Cc
  unfolding load save_result
  compile_gload t c = do
    c₁ ← load t.a rsi (cc_mov_rs rdi lvar c)
    done (save_result t.target (cc_call rt.lua_getglobal c₁))

  unfoldable pub compile_lcopy : Tac → Cc → Run Cc
  unfolding load save_result
  compile_lcopy t c = elim (assignment t.target) [
    | pos r ↦ load t.a r c
    | negsuc n ↦ do c' ← load t.a rax c; done (save_result t.target c')
  ]

  -- a double goes from `x` to the place of the target
  unfoldable pub save_double : ℕ → ℕ → Cc → Cc
  unfolding save_result
  save_double target x c = elim (assignment target) [
    | pos r ↦ cc_movq_rx r x c
    | negsuc n ↦ save_result target (cc_movq_rx rax x c)
  ]

  unfoldable pub compile_arith : (ℕ → ℕ → Cc → Cc) → Tac → Cc → Run Cc
  unfolding load_reg save_double
  compile_arith op t c = do
    (ra, c₁) ← load_reg t.a rdi c
    (rb, c₂) ← load_reg t.b rsi c₁
    done (save_double t.target xmm0 (op xmm0 xmm1 (cc_movq_xr xmm1 rb (cc_movq_xr xmm0 ra c₂))))

  -- `roundsd xmm0, xmm0, 9`
  abbrev pub roundsd : List ℕ
  roundsd = 102 ∷ 15 ∷ 58 ∷ 11 ∷ 192 ∷ 9 ∷ []

  unfoldable pub compile_mod : Tac → Cc → Run Cc
  unfolding load_reg save_double
  compile_mod t c = do
    (ra, c₁) ← load_reg t.a rdi c
    (rb, c₂) ← load_reg t.b rsi c₁
    let c₃ = cc_divsd xmm0 xmm1 (cc_movq_xr xmm1 rb (cc_movq_xr xmm0 ra c₂))
    let c₄ = cc_mulsd xmm0 xmm1 (cc_mcode roundsd c₃)
    done (save_double t.target xmm1 (cc_subsd xmm1 xmm0 (cc_movq_xr xmm1 ra c₄)))

  -- The result of the call is not saved.
  unfoldable pub compile_equal : ℕ → Tac → Cc → Run Cc
  unfolding load
  compile_equal f t c = do c₁ ← load t.a rdi c; c₂ ← load t.b rsi c₁; done (cc_call f c₂)

  -- the cases of the switch for instruction `i`; other codes emit nothing
  unfoldable pub compile_op : Tac → ℕ → Cc → Run Cc
  unfolding compile_call compile_compare compile_tstore call_two compile_gload compile_lcopy
      compile_arith compile_mod compile_equal jump_to save_result
  compile_op t i c =
      if t.op == ir_op_call
      then compile_call t i c
      else if t.op == ir_op_je
      then compile_compare cc_jz t i c
      else if t.op == ir_op_jne
      then compile_compare cc_jnz t i c
      else if t.op == ir_op_jz
      then done (jump_to cc_jz t.target i (cc_test_rr rax rax c))
      else if t.op == ir_op_jnz
      then done (jump_to cc_jnz t.target i (cc_test_rr rax rax c))
      else if t.op == ir_op_jmp
      then done (jump_to cc_jmp t.target i c)
      else if t.op == ir_op_newtbl
      then done (save_result t.target (cc_call rt.lua_newtable (cc_mov_rs rdi lvar c)))
      else if t.op == ir_op_tstore
      then compile_tstore t c
      else if t.op == ir_op_tload
      then (do c' ← call_two rt.lua_getfield t c; done (save_result t.target c'))
      else if t.op == ir_op_gstore
      then call_two rt.lua_setglobal t c
      else if t.op == ir_op_gload
      then compile_gload t c
      else if t.op == ir_op_lcopy
      then compile_lcopy t c
      else if t.op == b'+'
      then compile_arith cc_addsd t c
      else if t.op == b'*'
      then compile_arith cc_mulsd t c
      else if t.op == b'-'
      then compile_arith cc_subsd t c
      else if t.op == b'/'
      then compile_arith cc_divsd t c
      else if t.op == b'%'
      then compile_mod t c
      else if t.op == lex_eq
      then compile_equal rt.bv_eq t c
      else if t.op == lex_ne
      then compile_equal rt.bv_ne t c
      else done c

  abbrev pub at_op : ℕ → Cc → Cc
  at_op i c = record c { op_addr = assign c.op_addr i c.p }

  -- the instructions `i` up to `i + n - 1`
  unfoldable pub compile_loop : ℕ → ℕ → Cc → Run Cc
  unfolding compile_op
  compile_loop zero i c = done c
  compile_loop (suc n) i c = do c' ← compile_op (o.ops i) i (at_op i c); compile_loop n (i + 1) c'

-- `cc_push` of the first registers, and `cc_pop` of them, the last one first
unfoldable pub push_regs : List ℕ → Cc → Cc
push_regs [] c = c
push_regs (r ∷ rs) c = push_regs rs (cc_push r c)

unfoldable pub pop_regs : List ℕ → Cc → Cc
pop_regs [] c = c
pop_regs (r ∷ rs) c = cc_pop r (pop_regs rs c)

unfoldable pub prologue : Frame → Cc → Cc
unfolding push_regs
prologue f c =
    let c' = push_regs f.used c in
    cc_mov_sr f.lvar rdi (if f.nvars == 0 then c' else cc_subrsp (8 * f.nvars % 2 ^ 32) c')

unfoldable pub epilogue : Frame → Cc → Cc
unfolding pop_regs
epilogue f c =
    cc_ret (pop_regs f.used (if f.nvars == 0 then c else cc_addrsp (8 * f.nvars % 2 ^ 32) c))

-- from the fresh block `c` that `cc_init` maps; the arrays `ini` and `end` are those of `liveness`
unfoldable pub compile_chunk : Runtime → Ir → ℕ → ℕ → List ℕ → (ℕ → ℕ) → Cc → Run Cc
unfolding compile_loop prologue epilogue frame
compile_chunk rt o begin end words live_end c = do
  f ← frame o begin words live_end
  c₁ ← compile_loop rt o f.assignment f.lvar (end - begin) begin (prologue f c)
  let c₂ = record c₁ { op_addr = assign c₁.op_addr o.size c₁.p }
  done (epilogue f (cc_fill_marks c₂))
