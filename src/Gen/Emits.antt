-- ===== src/Gen/Emits.antt =====
-- What the cases of the switch emit adds the mark of a forward jump, and no other.
use minilua.Common.{
  ℕ, ◌+◌, ◌-◌, ◌*◌, ◌%◌, ◌^◌, ◌<◌, Bool, true, false, ◌==◌, if◌then◌else◌, List, [], Run, done,
  ◌>>=◌, ℤ, pos, negsuc,
}
use minilua.Asm.{
  Cc, cc_mcode, cc_mov_rl, cc_mov_rs, cc_movq_xr, cc_movq_rx, cc_cmp_rr, cc_call, cc_subrsp,
  cc_addrsp, cc_subsd, cc_mulsd, cc_divsd,
}
use minilua.Ir.{Tac, Ir, sext}
use minilua.Alloc.{rax}
use minilua.Gen.Places.{rcx, rdx, rsi, rdi, xmm0, xmm1}
use minilua.Gen.{
  Runtime, load, load_reg, save_result, jump_to, args_loop, compile_call, compile_compare,
  load_slot, compile_tstore, call_two, compile_gload, compile_lcopy, save_double, compile_arith,
  compile_mod, compile_equal, is_var,
}
use minilua.Gen.Code.{
  Grows, Grows-refl, Grows-trans, mcode, Quiet, cmp_rr-Quiet, movq_xr-Quiet, movq_rx-Quiet,
  mov_rs-Quiet, call-Quiet, mov_rl-Quiet, subrsp-Quiet, addrsp-Quiet, subsd-Quiet, mulsd-Quiet,
  divsd-Quiet, IsJump,
}
use minilua.Gen.{unless_zero, roundsd}
use minilua.Gen.Jumps.{
  Emits, EmitsReg, then-Quiet, bind_cc, bind_reg, from, ctt-cc, if-Emits, forward, load-Emits,
  load_reg-Emits, save_result-Quiet, jump_to-Grows, args_loop-Emits,
}

if-Quiet : (b : Bool) (f : Cc → Cc) → Quiet f → Quiet (λ c. if b then c else f c)
if-Quiet true f q c = Grows-refl c
if-Quiet false f q c = q c

-- what adds no mark, and then the rest
pub after_cc :
    (ts : List ℕ) (c : Cc) (r : Run Cc) (f : Cc → Run Cc)
    → Emits [] c r
    → ((c' : Cc) → Emits ts c' (f c'))
    → Emits ts c (r >>= f)
after_cc ts c r f h k = bind_cc ts c r f h (λ c' g. from ts c c' (f c') g (k c'))

after_reg :
    (ts : List ℕ) (c : Cc) (r : Run (ℕ × Cc)) (f : ℕ × Cc → Run Cc)
    → EmitsReg c r
    → ((a : ℕ) (c' : Cc) → Emits ts c' (f (a, c')))
    → Emits ts c (r >>= f)
after_reg ts c r f h k = bind_reg ts c r f h (λ a c' g. from ts c c' (f (a, c')) g (k a c'))

module _ (rt : Runtime) (o : Ir) (assignment : ℕ → ℤ) (lvar : ℕ) where
  two_regs :
      (ts : List ℕ) (t : Tac) (c : Cc) (f : ℕ → ℕ → Cc → Run Cc)
      → ((a b : ℕ) (c' : Cc) → Emits ts c' (f a b c'))
      → Emits ts c (do
        (ra, c₁) ← load_reg rt o assignment lvar t.a rdi c
        (rb, c₂) ← load_reg rt o assignment lvar t.b rsi c₁
        f ra rb c₂)
  two_regs ts t c f k =
      after_reg ts c (load_reg rt o assignment lvar t.a rdi c) _
        (load_reg-Emits rt o assignment lvar t.a rdi c)
        (λ a c₁.
          after_reg ts c₁ (load_reg rt o assignment lvar t.b rsi c₁) _
            (load_reg-Emits rt o assignment lvar t.b rsi c₁) (λ b c₂. k a b c₂))

  two_loads :
      (t : Tac) (reg reg' : ℕ) (c : Cc) (f : Cc → Cc)
      → Quiet f
      → Emits [] c (do
        c₁ ← load rt o assignment lvar t.a reg c
        c₂ ← load rt o assignment lvar t.b reg' c₁
        done (f c₂))
  two_loads t reg reg' c f q =
      after_cc [] c (load rt o assignment lvar t.a reg c) _
        (load-Emits rt o assignment lvar t.a reg c)
        (λ c₁.
          after_cc [] c₁ (load rt o assignment lvar t.b reg' c₁) _
            (load-Emits rt o assignment lvar t.b reg' c₁) q)

  pub compile_compare-Emits :
      (jump : ℕ → Cc → Cc)
      → IsJump jump
      → (t : Tac) (i : ℕ) (c : Cc) → t.target < 2 ^ 32
      → Emits (forward t.target i) c (compile_compare rt o assignment lvar jump t i c)
  unfolding compile_compare
  compile_compare-Emits jump is t i c small = two_regs (forward t.target i) t c _ (λ ra rb c'.
      Grows-trans [] (forward t.target i) c' (cc_cmp_rr ra rb c')
        (jump_to rt o assignment lvar jump t.target i (cc_cmp_rr ra rb c')) (cmp_rr-Quiet ra rb c')
        (jump_to-Grows rt o assignment lvar jump is t.target i (cc_cmp_rr ra rb c') small))

  load_slot-Emits : (fld reg : ℕ) (c : Cc) → Emits [] c (load_slot rt o assignment lvar fld reg c)
  unfolding load_slot
  load_slot-Emits fld reg c =
      if-Emits [] c (is_var fld) _ _ (mov_rs-Quiet reg fld c)
        (ctt-cc o.ctts fld [] c _ (λ v. mov_rl-Quiet reg v c))

  pub compile_tstore-Emits :
      (t : Tac) (c : Cc) → Emits [] c (compile_tstore rt o assignment lvar t c)
  unfolding compile_tstore
  compile_tstore-Emits t c =
      let state = cc_mov_rs rdi lvar c in
      let table = cc_mov_rs rsi t.target state in
      from [] c table _
        (then-Quiet c state (cc_mov_rs rsi t.target) (mov_rs-Quiet rsi t.target)
          (mov_rs-Quiet rdi lvar c))
        (after_cc [] table (load_slot rt o assignment lvar t.a rdx table) _
          (load_slot-Emits t.a rdx table)
          (λ c₁.
            after_cc [] c₁ (load_slot rt o assignment lvar t.b rcx c₁) _
              (load_slot-Emits t.b rcx c₁) (call-Quiet rt.lua_setfield)))

  pub call_two-Emits : (f : ℕ) (t : Tac) (c : Cc) → Emits [] c (call_two rt o assignment lvar f t c)
  unfolding call_two
  call_two-Emits f t c =
      from [] c (cc_mov_rs rdi lvar c) _ (mov_rs-Quiet rdi lvar c)
        (two_loads t rsi rdx (cc_mov_rs rdi lvar c) (cc_call f) (call-Quiet f))

  pub compile_equal-Emits :
      (f : ℕ) (t : Tac) (c : Cc) → Emits [] c (compile_equal rt o assignment lvar f t c)
  unfolding compile_equal
  compile_equal-Emits f t c = two_loads t rdi rsi c (cc_call f) (call-Quiet f)

  pub compile_gload-Emits : (t : Tac) (c : Cc) → Emits [] c (compile_gload rt o assignment lvar t c)
  unfolding compile_gload
  compile_gload-Emits t c = from [] c (cc_mov_rs rdi lvar c) _ (mov_rs-Quiet rdi lvar c) (
      after_cc [] (cc_mov_rs rdi lvar c) (load rt o assignment lvar t.a rsi (cc_mov_rs rdi lvar c))
        _ (load-Emits rt o assignment lvar t.a rsi (cc_mov_rs rdi lvar c))
        (λ c₁.
          then-Quiet c₁ (cc_call rt.lua_getglobal c₁) (save_result rt o assignment lvar t.target)
            (save_result-Quiet rt o assignment lvar t.target) (call-Quiet rt.lua_getglobal c₁)))

  pub compile_lcopy-Emits : (t : Tac) (c : Cc) → Emits [] c (compile_lcopy rt o assignment lvar t c)
  unfolding compile_lcopy
  compile_lcopy-Emits t c = at (assignment t.target)
    where
      at :
          (p : ℤ)
          → Emits [] c (elim p [
            | pos r ↦ load rt o assignment lvar t.a r c
            | negsuc n ↦ (do
              c' ← load rt o assignment lvar t.a rax c
              done (save_result rt o assignment lvar t.target c'))
          ])
      at (pos r) = load-Emits rt o assignment lvar t.a r c
      at (negsuc n) =
          after_cc [] c (load rt o assignment lvar t.a rax c) _
            (load-Emits rt o assignment lvar t.a rax c)
            (save_result-Quiet rt o assignment lvar t.target)

  save_double-Quiet : (target x : ℕ) → Quiet (save_double rt o assignment lvar target x)
  unfolding save_double
  save_double-Quiet target x c = at (assignment target)
    where
      at :
          (p : ℤ)
          → Grows [] c (elim p [
            | pos r ↦ cc_movq_rx r x c
            | negsuc n ↦ save_result rt o assignment lvar target (cc_movq_rx rax x c)
          ])
      at (pos r) = movq_rx-Quiet r x c
      at (negsuc n) =
          then-Quiet c (cc_movq_rx rax x c) (save_result rt o assignment lvar target)
            (save_result-Quiet rt o assignment lvar target) (movq_rx-Quiet rax x c)

  -- both operands in the registers of doubles, and an operation on them
  operate :
      (op : ℕ → ℕ → Cc → Cc)
      → ((d s : ℕ) → Quiet (op d s))
      → (ra rb : ℕ) (c : Cc) → Grows [] c (op xmm0 xmm1 (cc_movq_xr xmm1 rb (cc_movq_xr xmm0 ra c)))
  operate op q ra rb c =
      let one = cc_movq_xr xmm0 ra c in
      let both = cc_movq_xr xmm1 rb one in
      then-Quiet c both (op xmm0 xmm1) (q xmm0 xmm1)
        (then-Quiet c one (cc_movq_xr xmm1 rb) (movq_xr-Quiet xmm1 rb) (movq_xr-Quiet xmm0 ra c))

  pub compile_arith-Emits :
      (op : ℕ → ℕ → Cc → Cc)
      → ((d s : ℕ) → Quiet (op d s))
      → (t : Tac) (c : Cc) → Emits [] c (compile_arith rt o assignment lvar op t c)
  unfolding compile_arith
  compile_arith-Emits op q t c = two_regs [] t c _ (λ ra rb c'.
      let operated = op xmm0 xmm1 (cc_movq_xr xmm1 rb (cc_movq_xr xmm0 ra c')) in
      then-Quiet c' operated (save_double rt o assignment lvar t.target xmm0)
        (save_double-Quiet t.target xmm0) (operate op q ra rb c'))

  pub compile_mod-Emits : (t : Tac) (c : Cc) → Emits [] c (compile_mod rt o assignment lvar t c)
  unfolding compile_mod
  compile_mod-Emits t c = two_regs [] t c _ (λ ra rb c'.
      let floor = roundsd rt o assignment lvar in
      let divided = cc_divsd xmm0 xmm1 (cc_movq_xr xmm1 rb (cc_movq_xr xmm0 ra c')) in
      let rounded = cc_mcode floor divided in
      let product = cc_mulsd xmm0 xmm1 rounded in
      let again = cc_movq_xr xmm1 ra product in
      let rest = cc_subsd xmm1 xmm0 again in
      then-Quiet c' rest (save_double rt o assignment lvar t.target xmm1)
        (save_double-Quiet t.target xmm1)
        (then-Quiet c' again (cc_subsd xmm1 xmm0) (subsd-Quiet xmm1 xmm0) (
          then-Quiet c' product (cc_movq_xr xmm1 ra) (movq_xr-Quiet xmm1 ra) (
            then-Quiet c' rounded (cc_mulsd xmm0 xmm1) (mulsd-Quiet xmm0 xmm1) (
              then-Quiet c' divided (cc_mcode floor) (mcode floor)
                (operate cc_divsd divsd-Quiet ra rb c'))))))

  -- the call itself, behind the arguments
  calls-Quiet :
      (t : Tac) (bytes : ℕ) (c : Cc)
      → Grows [] c (
          save_result rt o assignment lvar t.target (
            unless_zero rt o assignment lvar t.b (cc_addrsp bytes) (cc_call rt.ml_indirect_call c)))
  calls-Quiet t bytes c =
      let called = cc_call rt.ml_indirect_call c in
      let restored = (if t.b == 0 then called else cc_addrsp bytes called) in
      then-Quiet c restored (save_result rt o assignment lvar t.target)
        (save_result-Quiet rt o assignment lvar t.target)
        (then-Quiet c called (λ x. if t.b == 0 then x else cc_addrsp bytes x)
          (if-Quiet (t.b == 0) (cc_addrsp bytes) (addrsp-Quiet bytes))
          (call-Quiet rt.ml_indirect_call c))

  pub compile_call-Emits :
      (t : Tac) (i : ℕ) (c : Cc) → Emits [] c (compile_call rt o assignment lvar t i c)
  unfolding compile_call
  compile_call-Emits t i c =
      let v = (if is_var t.b then t.b else t.b + (2 ^ 64 - 2 ^ 16)) in
      let align = (sext t.b + t.b % 2) % 2 ^ 32 in
      let bytes = 8 * align % 2 ^ 32 in
      let nargs = (if is_var t.b then t.b else 0) in
      after_cc [] c (load rt o assignment lvar t.a rcx c) _
        (load-Emits rt o assignment lvar t.a rcx c)
        (λ c₁.
          let state = cc_mov_rs rdi lvar c₁ in
          let counted = cc_mov_rl rsi v state in
          let room = (if t.b == 0 then counted else cc_subrsp bytes counted) in
          from [] c₁ room _
            (then-Quiet c₁ counted (λ x. if t.b == 0 then x else cc_subrsp bytes x)
              (if-Quiet (t.b == 0) (cc_subrsp bytes) (subrsp-Quiet bytes))
              (then-Quiet c₁ state (cc_mov_rl rsi v) (mov_rl-Quiet rsi v)
                (mov_rs-Quiet rdi lvar c₁)))
            (after_cc [] room (args_loop rt o assignment lvar nargs 0 i nargs align room) _
              (args_loop-Emits rt o assignment lvar nargs 0 i nargs align room)
              (λ c₃. calls-Quiet t bytes c₃)))
