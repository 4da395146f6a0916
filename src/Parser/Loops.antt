-- ===== src/Parser/Loops.antt =====
-- `parse_while`, `parse_repeat` and `parse_for` of parser.c.
use minilua.Common.{ℕ, ◌+◌, ◌^◌, ◌==◌, leb, if◌then◌else◌}
use minilua.Lex.Codes.{lex_id, lex_do, lex_end, lex_until}
use minilua.Ir.{ir_phi_ins}
use minilua.Ir.Ops.{
  ir_op_lcopy, ir_op_phi, ir_op_jmp, ir_op_jz, ir_op_jnz, ir_op_je, ir_op_jne, ir_loop_header,
  ir_loop_begin, ir_loop_end, ir_no_arg, ir_no_target, phi_loop_join, phi_repeat,
}
use minilua.Parser.{Parse, World, Name, on_ir, emit, newvar, ctt, assign, assigned, set_target}
use minilua.Parser.Do.{◌>>=◌, ◌>>◌, give}
use minilua.Parser.Scope.{
  parser_newsym, parser_enter, parser_exit, parser_phi_begin, parser_phi_commit,
}
use minilua.Parser.Next.{next, expect, parser_expect, peek}
use minilua.Parser.Grammar.{Grammar}
use minilua.Parser.Function.{tk, current}

unfoldable pub parse_while : World → Grammar → Parse ℕ
unfolding give current next parser_enter emit parser_phi_begin expect parser_phi_commit set_target
    parser_exit
parse_while w g = do
  next
  parser_enter
  _ ← emit ir_loop_header ir_no_arg ir_no_arg ir_no_target
  parser_phi_begin phi_loop_join
  a ← current
  r ← g.expr
  c ← current
  _ ← emit ir_op_jz r ir_no_arg 0
  expect lex_do
  _ ← emit ir_loop_begin ir_no_arg ir_no_arg ir_no_target
  r' ← g.chunk
  expect lex_end
  _ ← emit ir_op_jmp ir_no_arg ir_no_arg a
  shift ← parser_phi_commit
  here ← current
  set_target (c + shift) here
  _ ← emit ir_loop_end ir_no_arg ir_no_arg ir_no_target
  parser_exit w
  give r'

-- The frame of phi functions is not committed.
unfoldable pub parse_repeat : World → Grammar → Parse ℕ
unfolding give current next parser_enter parser_phi_begin newvar emit expect parser_exit
parse_repeat w g = do
  next
  parser_enter
  parser_phi_begin phi_repeat
  c ← current
  v ← newvar
  _ ← emit ir_op_phi ir_no_arg ir_no_arg v
  _ ← g.chunk
  expect lex_until
  r ← g.expr
  _ ← emit ir_op_jnz r ir_no_arg c
  parser_exit w
  give r

-- a constant is copied to a variable
unfoldable pub for_start : ℕ → Parse ℕ
unfolding give newvar emit
for_start a = if leb (2 ^ 31) a then (do v ← newvar; emit ir_op_lcopy a ir_no_arg v) else give a

-- 1.0, as the bits of a double
abbrev one : ℕ
one = 0x3ff0000000000000

unfoldable pub for_step : World → Grammar → Parse ℕ
unfolding peek next ctt
for_step w g = do t ← peek; if t == b',' then next >> g.expr else ctt w one

unfoldable pub for_symbol : World → Name → Parse ℕ
unfolding give parser_newsym assign
for_symbol w t = do v ← parser_newsym w t; assign v v; give v

-- the next round
unfoldable pub for_next : ℕ → ℕ → ℕ → ℕ → Parse (Unit {0})
unfolding give newvar assigned assign on_ir ir_phi_ins emit
for_next a b c header = do
  na ← newvar
  old ← assigned a
  assign na a
  _ ← on_ir (λ c. ir_phi_ins c na old)
  assign a na
  _ ← emit b'+' a c na
  _ ← emit ir_op_jne na b header
  give tt

unfoldable pub for_body : World → Grammar → Name → ℕ → ℕ → ℕ → Parse ℕ
unfolding give current for_symbol emit expect for_next parser_phi_commit set_target
for_body w g t a b c = do
  _ ← for_symbol w t
  fix ← current
  _ ← emit ir_op_je a b 0
  header ← current
  v ← for_symbol w t
  _ ← emit ir_op_lcopy a ir_no_arg v
  expect lex_do
  r ← g.chunk
  expect lex_end
  for_next a b c header
  shift ← parser_phi_commit
  here ← current
  set_target (fix + shift) here
  give r

unfoldable pub parse_for : World → Grammar → Parse ℕ
unfolding give tk next parser_enter parser_phi_begin parser_expect expect for_start assign for_step
    for_body parser_exit
parse_for w g = do
  next
  parser_enter
  parser_phi_begin phi_loop_join
  parser_expect lex_id
  t ← tk
  expect lex_id
  expect b'='
  a₀ ← g.expr
  a ← for_start a₀
  assign a a
  expect b','
  b ← g.expr
  c ← for_step w g
  r ← for_body w g t a b c
  parser_exit w
  give r
