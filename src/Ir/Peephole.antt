-- ===== src/Ir/Peephole.antt =====
-- `ir_opt`: where variables are last used, and the rewriting of two neighbouring instructions.
pub mod Fuse
pub mod Coalesce
use minilua.Common.{
  ℕ, zero, suc, ◌+◌, ◌-◌, ◌%◌, ◌^◌, Bool, true, false, ◌&&◌, ◌||◌, not, ◌==◌, ltb, if◌then◌else◌,
  List, [], ◌∷◌,
}
use minilua.Lex.Codes.{lex_eq, lex_ne}
use minilua.Ir.{Tac, Ir, write, ir_is_mark}
use minilua.Ir.Ops.{
  ir_op_noop, ir_op_call, ir_op_lcopy, ir_op_jz, ir_op_jnz, ir_op_je, ir_op_jne, ir_no_arg,
}

-- an `i16` that is not negative
abbrev pub is_var : ℕ → Bool
is_var a = ltb a 32768

-- an operand (`i16`) and a target (`u16`) as equal integers
abbrev pub same_var : ℕ → ℕ → Bool
same_var a t = a == t && is_var a

abbrev put : (ℕ → ℕ) → ℕ → ℕ → ℕ → ℕ
put live v i w = if w == v then i % 2 ^ 16 else live w

-- one instruction's uses; `IR_NO_ARG` is negative, so the test for it decides nothing
unfoldable pub live_step : Tac → ℕ → (ℕ → ℕ) → ℕ → ℕ
unfolding ir_is_mark
live_step t i live =
    if t.op == ir_op_noop || ir_is_mark t.op
    then live
    else (let live' = (if is_var t.a && not (t.a == ir_no_arg) then put live t.a i else live) in
        if is_var t.b && not (t.b == ir_no_arg) && not (t.op == ir_op_call)
        then put live' t.b i
        else live')

unfoldable pub live_loop : ℕ → ℕ → (ℕ → Tac) → (ℕ → ℕ) → ℕ → ℕ
unfolding live_step
live_loop zero i ops live = live
live_loop (suc n) i ops live = live_loop n (i + 1) ops (live_step (ops i) i live)

-- `var_live_end`, in 16 bits, -1 for a variable without a use
unfoldable pub var_live_end : Ir → ℕ → ℕ
unfolding live_loop
var_live_end c = live_loop c.size 0 c.ops (λ v. 2 ^ 16 - 1)

unfoldable pub as_jump : ℕ → Tac → Tac → Tac × Tac
as_jump jump x y = (record x { op = ir_op_noop }, record y { op = jump; a = x.a; b = x.b })

-- the chain of `if` for a comparison and a jump on its result
unfoldable pub fuse : Tac → Tac → Tac × Tac
unfolding as_jump
fuse x y =
    if x.op == lex_ne && y.op == ir_op_jz && same_var y.a x.target
    then as_jump ir_op_je x y
    else if x.op == lex_ne && y.op == ir_op_jnz && same_var y.a x.target
    then as_jump ir_op_jne x y
    else if x.op == lex_eq && y.op == ir_op_jz && same_var y.a x.target
    then as_jump ir_op_jne x y
    else if x.op == lex_eq && y.op == ir_op_jnz && same_var y.a x.target
    then as_jump ir_op_je x y
    else (x, y)

-- The result that is only copied is put where the copy goes. `x` and `y` are the instructions
-- before `fuse`, which changes neither of them where `y` is a copy.
unfoldable pub coalesce : (ℕ → ℕ) → ℕ → Tac → Tac → Tac × Tac → Tac × Tac
coalesce live i x y p =
    if y.op == ir_op_lcopy && same_var y.a x.target && live y.a == i
    then (record p.0 { target = y.target }, record p.1 { op = ir_op_noop })
    else p

unfoldable pub peephole_step : (ℕ → ℕ) → ℕ → (ℕ → Tac) → ℕ → Tac
unfolding fuse coalesce
peephole_step live i ops =
    let p = coalesce live i (ops (i - 1)) (ops i) (fuse (ops (i - 1)) (ops i)) in
    write (write ops (i - 1) p.0) i p.1

unfoldable pub peephole_loop : ℕ → (ℕ → ℕ) → ℕ → (ℕ → Tac) → ℕ → Tac
unfolding peephole_step
peephole_loop zero live i ops = ops
peephole_loop (suc n) live i ops = peephole_loop n live (i + 1) (peephole_step live i ops)

-- `stored` and `var_live_ini` are computed there too, and not used.
unfoldable pub ir_opt : Ir → Ir
unfolding var_live_end peephole_loop
ir_opt c = record c { ops = peephole_loop (c.size - 1) (var_live_end c) 1 c.ops }
