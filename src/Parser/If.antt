-- ===== src/Parser/If.antt =====
-- `parse_if` of parser.c: the phi functions that the first branch has recorded are put aside while
-- the second is parsed.
use minilua.Common.{
  ℕ, zero, suc, ◌+◌, ◌-◌, Bool, ◌||◌, not, ◌==◌, leb, if◌then◌else◌, Run, done, fault,
}
use minilua.Lex.Codes.{lex_end, lex_then, lex_else, lex_elseif}
use minilua.Ir.{Ir, Tac, write, sext}
use minilua.Ir.Ops.{ir_op_noop, ir_op_jmp, ir_op_jz, ir_no_arg, ir_op_max, phi_cond}
use minilua.Ir.Commit.{upd}
use minilua.Parser.{Parser, Parse, World, parsed, run, on_ir, emit, set_target}
use minilua.Parser.Do.{◌>>=◌, ◌>>◌, give}
use minilua.Parser.Scope.{parser_enter, parser_exit, parser_phi_begin, parser_phi_commit}
use minilua.Parser.Next.{next, expect, peek}
use minilua.Parser.Grammar.{Grammar}
use minilua.Parser.Function.{current}

-- what each of the entries in front of the mark becomes
unfoldable pub back_up : ℕ → Tac → Tac
back_up old t = record t { target = t.a; a = old }

unfoldable pub bring_back : Tac → Tac
bring_back t = record t { b = t.target; target = t.b }

-- From place `i` to the mark, with the places up to the end of the array as rounds; a fault is a read
-- behind it, or a write in front of `assignment`.
unfoldable pub back_up_loop : ℕ → ℕ → Parser → Run (Unit {0} × Parser)
unfolding back_up sext upd
back_up_loop zero i p = fault
back_up_loop (suc fuel) i p =
    let t = p.c.ops i in
    let old = t.b in
    let rest = back_up_loop fuel (i + 1) (record p {
      assignment = upd p.assignment old old;
      c = record p.c { ops = write p.c.ops i (back_up old t) };
    }) in
    if t.op == ir_op_noop then done (tt, p) else if leb 32768 old then fault else rest

unfoldable pub bring_back_loop : ℕ → ℕ → Ir → Run (Unit {0} × Ir)
unfolding bring_back
bring_back_loop zero i c = fault
bring_back_loop (suc fuel) i c =
    let t = c.ops i in
    let rest = bring_back_loop fuel (i + 1) (record c { ops = write c.ops i (bring_back t) }) in
    if t.op == ir_op_noop then done (tt, c) else rest

unfoldable pub frame : Parse ℕ
frame p = parsed p.c.iphi p

unfoldable pub back_up_phis : Parse ℕ
unfolding give frame run back_up_loop
back_up_phis = do i ← frame; run (λ p. back_up_loop (ir_op_max - i) i p); give i

unfoldable pub bring_back_phis : ℕ → Parse (Unit {0})
unfolding on_ir bring_back_loop
bring_back_phis i = on_ir (λ c. bring_back_loop (ir_op_max - i) i c)

-- the other branch, with `c` the jump over the first one; the jump to the end of it
unfoldable pub parse_else : Grammar → Bool → ℕ → Parse ℕ
unfolding give current back_up_phis emit set_target next bring_back_phis
parse_else g elif c = do
  i ← back_up_phis
  b ← current
  _ ← emit ir_op_jmp ir_no_arg ir_no_arg 0
  here ← current
  set_target c here
  _ ← if not elif then next >> g.chunk else g.cond
  bring_back_phis i
  give b

unfoldable pub branches : Grammar → ℕ → ℕ → Parse ℕ
unfolding give parse_else
branches g t c =
    if t == lex_else || t == lex_elseif then parse_else g (t == lex_elseif) c else give c

unfoldable pub parse_if : World → Grammar → Parse ℕ
unfolding give peek current next parser_enter parser_phi_begin emit expect branches set_target
    parser_phi_commit parser_exit
parse_if w g = do
  next
  parser_enter
  parser_phi_begin phi_cond
  r ← g.expr
  c ← current
  _ ← emit ir_op_jz r ir_no_arg 0
  expect lex_then
  _ ← g.chunk
  t ← peek
  c' ← branches g t c
  here ← current
  set_target c' here
  if not (t == lex_elseif) then expect lex_end else give tt
  _ ← parser_phi_commit
  parser_exit w
  give r
