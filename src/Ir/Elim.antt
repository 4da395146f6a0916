-- ===== src/Ir/Elim.antt =====
-- `ir_phi_elim` of ir.c: the operands of each phi function become the variable it defines, wherever
-- they are live.
use minilua.Common.{
  ℕ, zero, suc, ◌+◌, Bool, ◌&&◌, ◌||◌, not, ◌==◌, ltb, leb, if◌then◌else◌, Run, done, fault, ◌>>=◌,
}
use minilua.Ir.{Ir, Tac, write, ir_is_jmp}
use minilua.Ir.Commit.{upd}
use minilua.Ir.Ops.{
  ir_op_noop, ir_op_call, ir_op_phi, ir_no_arg, ir_no_target, ir_function_begin, ir_function_end,
}

-- `a != IR_NO_ARG` and then an index: a constant is one before the array, a fault
unfoldable pub use_var : ℕ → ℕ → (ℕ → ℕ) → Run (ℕ → ℕ)
unfolding upd
use_var a i live =
    if a == ir_no_arg then done live else if leb 32768 a then fault else done (upd live a i)

abbrev pub is_skipped : ℕ → Bool
is_skipped op = op == ir_op_noop || op == ir_function_begin || op == ir_function_end

abbrev pub defines : Tac → Bool
defines t = not (ir_is_jmp t.op) && not (t.target == ir_no_target)

unfoldable pub last_step : Tac → ℕ → (ℕ → ℕ) → Run (ℕ → ℕ)
unfolding use_var upd ir_is_jmp
last_step t i live =
    let live' = (if defines t then upd live t.target i else live) in
    if is_skipped t.op then done live else if t.op == ir_op_phi then done live' else (do
      live₁ ← use_var t.a i live'
      if t.op == ir_op_call then done live₁ else use_var t.b i live₁)

-- the last use of each variable, from instruction `i` on
unfoldable pub last_loop : ℕ → ℕ → (ℕ → Tac) → (ℕ → ℕ) → Run (ℕ → ℕ)
unfolding last_step
last_loop zero i ops live = done live
last_loop (suc n) i ops live = do live' ← last_step (ops i) i live; last_loop n (i + 1) ops live'

-- the first one, from instruction `n - 1` down
unfoldable pub first_loop : ℕ → (ℕ → Tac) → (ℕ → ℕ) → ℕ → ℕ
unfolding upd ir_is_jmp
first_loop zero ops live = live
first_loop (suc i) ops live =
    first_loop i ops
      (if not (is_skipped (ops i).op) && defines (ops i) then upd live (ops i).target i else live)

unfoldable pub sub_a : ℕ → ℕ → Tac → Tac
sub_a a target t = if t.a == a then record t { a = target } else t

unfoldable pub sub_b : ℕ → ℕ → Tac → Tac
sub_b a target t = if t.b == a then record t { b = target } else t

unfoldable pub sub_target : ℕ → ℕ → Tac → Tac
unfolding ir_is_jmp
sub_target a target t =
    if not (ir_is_jmp t.op) && t.target == a then record t { target = target } else t

-- one round of the loops over a live range
unfoldable pub sub_use : ℕ → ℕ → Tac → Tac
unfolding sub_a sub_b sub_target
sub_use a target t = sub_target a target (sub_b a target (sub_a a target t))

-- `while (ai <= ae)`, on the places one after another
unfoldable pub sub_uses : ℕ → ℕ → ℕ → ℕ → (ℕ → Tac) → ℕ → Tac
unfolding sub_use
sub_uses ai ae a target ops k = if leb ai k && leb k ae then sub_use a target (ops k) else ops k

-- `ai` after that loop
abbrev pub past : ℕ → ℕ → ℕ
past ai ae = if leb ai ae then ae + 1 else ai

pub record Elim : Type 0 where
  pub ops : ℕ → Tac
  pub live_ini : ℕ → ℕ
  pub live_end : ℕ → ℕ

abbrev pub when : Bool → ℕ → ℕ → (ℕ → ℕ) → ℕ → ℕ
when b v x f = if b then upd f v x else f

-- the four tests at the end of a round; `var_live_end` is not written there
unfoldable pub widen : ℕ → ℕ → ℕ → ℕ → ℕ → (ℕ → ℕ) → (ℕ → ℕ) → ℕ → ℕ
unfolding upd
widen target ai bi ae be live_ini live_end =
    let ini₁ = when (ltb ai (live_ini target)) target ai live_ini in
    let ini₂ = when (ltb bi (ini₁ target)) target bi ini₁ in
    let ini₃ = when (ltb (live_end target) ae) target ae ini₂ in
    when (ltb (live_end target) be) target be ini₃

unfoldable pub elim_step : ℕ → Elim → Run Elim
unfolding sub_uses widen
elim_step i s =
    let t = s.ops i in
    if not (t.op == ir_op_phi)
    then done s
    else if leb 32768 t.a || leb 32768 t.b
    then fault
    else (let ai = s.live_ini t.a in
        let ae = s.live_end t.a in
        let bi = s.live_ini t.b in
        let be = s.live_end t.b in
        let ops = sub_uses bi be t.b t.target (sub_uses ai ae t.a t.target s.ops) in
        done (record s {
          ops = write ops i (record (ops i) { op = ir_op_noop });
          live_ini = widen t.target (past ai ae) (past bi be) ae be s.live_ini s.live_end;
        }))

unfoldable pub elim_loop : ℕ → ℕ → Elim → Run Elim
unfolding elim_step
elim_loop zero i s = done s
elim_loop (suc n) i s = do s' ← elim_step i s; elim_loop n (i + 1) s'

unfoldable pub ir_phi_elim : Ir → Run Ir
unfolding last_loop first_loop elim_loop
ir_phi_elim c = do
  live_end ← last_loop c.size 0 c.ops (λ v. 0)
  s ←
      elim_loop c.size 0 (record {
        ops = c.ops;
        live_ini = first_loop c.size c.ops (λ v. 65535);
        live_end = live_end;
      })
  done (record c { ops = s.ops })
