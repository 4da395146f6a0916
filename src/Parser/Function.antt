-- ===== src/Parser/Function.antt =====
-- `parse_param` and `parse_function` of parser.c.
use minilua.Common.{ℕ, zero, suc, ◌+◌, Bool, not, ◌==◌, if◌then◌else◌}
use minilua.Value.{bv_nil}
use minilua.Lex.Codes.{lex_id, lex_end}
use minilua.Ir.{ir_current}
use minilua.Ir.Ops.{
  ir_op_param, ir_op_lcopy, ir_op_gstore, ir_no_arg, ir_no_target, ir_function_begin,
  ir_function_end,
}
use minilua.Parser.{
  Parser, Parse, World, Name, parsed, emit, newvar, ctt, ctt_string, assign, set_target,
}
use minilua.Parser.Do.{◌>>=◌, ◌>>◌, give, never}
use minilua.Parser.Scope.{parser_enter, parser_exit, parser_newsym}
use minilua.Parser.Next.{next, expect, parser_expect, peek}
use minilua.Parser.Grammar.{Grammar}

-- `TK`, as a name
abbrev pub token_name : Parser → Name
token_name p = record { start = p.start; size = p.current.length }

unfoldable pub tk : Parse Name
tk p = parsed (token_name p) p

-- the place of the next instruction
unfoldable pub current : Parse ℕ
current p = parsed (ir_current p.c) p

unfoldable pub parse_param : World → Parse ℕ
unfolding give tk parser_expect parser_newsym assign next
parse_param w = do parser_expect lex_id; t ← tk; r ← parser_newsym w t; assign r r; next; give r

-- the parameters up to `)`, of which `nparams` have been read
unfoldable pub params_loop : World → ℕ → ℕ → Parse ℕ
unfolding give never peek parse_param emit next
params_loop w zero nparams = never
params_loop w (suc rounds) nparams = do
  param ← parse_param w
  _ ← emit ir_op_param param ir_no_arg ir_no_target
  t ← peek
  let more = next >> params_loop w rounds (nparams + 1)
  if t == b',' then more else give (nparams + 1)

unfoldable pub function_params : World → ℕ → Parse ℕ
unfolding give peek params_loop
function_params w rounds = do t ← peek; if not (t == b')') then params_loop w rounds 0 else give 0

-- Both arguments of the last instruction stand on their own, in either order.
unfoldable pub function_body : World → Grammar → Parse ℕ
unfolding give current parser_enter function_params expect emit set_target ctt newvar parser_exit
function_body w g = do
  parser_enter
  nparams ← function_params w g.rounds
  expect b')'
  header ← current
  _ ← emit ir_function_begin ir_no_arg nparams ir_no_target
  _ ← g.chunk
  here ← current
  set_target header here
  _ ← emit ir_function_end ir_no_arg ir_no_arg header
  i ← ctt w bv_nil
  v ← newvar
  r ← emit ir_op_lcopy i ir_no_arg v
  parser_exit w
  give r

unfoldable pub function_store : World → Name → ℕ → Parse ℕ
unfolding ctt_string emit
function_store w t r = do
  field ← ctt_string w t.start t.size
  emit ir_op_gstore field r ir_no_target

unfoldable pub parse_function : World → Grammar → Bool → Bool → Parse ℕ
unfolding give tk next expect function_body function_store
parse_function w g is_local is_anon = do
  next
  t ← tk
  if is_anon then give tt else expect lex_id
  expect b'('
  r ← function_body w g
  expect lex_end
  if is_local then give r else function_store w t r
