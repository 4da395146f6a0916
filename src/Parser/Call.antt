-- ===== src/Parser/Call.antt =====
-- `parse_args` to `parse_id` of parser.c: a name, and the call of what it stands for.
use minilua.Common.{
  ℕ, zero, suc, ◌+◌, ◌-◌, ◌^◌, ◌||◌, ◌==◌, leb, if◌then◌else◌, List, [], ◌∷◌, ◌++◌, length, done,
  fault,
}
use minilua.Lex.Codes.{lex_str}
use minilua.Ir.Ops.{ir_op_gload, ir_op_arg, ir_op_call, ir_no_arg, ir_no_target, ir_no_target}
use minilua.Parser.{Parse, World, Name, run, emit, newvar, ctt_string, assigned}
use minilua.Parser.Do.{◌>>=◌, ◌>>◌, give, never}
use minilua.Parser.Scope.{parser_sym}
use minilua.Parser.Next.{next, expect, peek}
use minilua.Parser.Grammar.{Grammar, parse_none, no_token}
use minilua.Parser.Function.{tk}

unfoldable pub args_emit : List ℕ → Parse ℕ
unfolding give emit
args_emit [] = give 0
args_emit (a ∷ args) = do
  _ ← emit ir_op_arg a ir_no_arg ir_no_target
  n ← args_emit args
  give (n + 1)

-- `if (arg == PARSE_NONE) EXPECT(-1)`
unfoldable pub some_arg : ℕ → Parse (Unit {0})
unfolding give expect
some_arg arg = if arg == parse_none then expect no_token else give tt

-- the array `args` has 256 entries
unfoldable pub push_arg : List ℕ → ℕ → Parse (List ℕ)
unfolding run
push_arg args arg = run (λ p. if leb 256 (length args) then fault else done (args ++ arg ∷ [], p))

unfoldable pub args_loop : Grammar → ℕ → List ℕ → Parse ℕ
unfolding never peek some_arg next args_emit push_arg
args_loop g zero args = never
args_loop g (suc rounds) args = do
  arg ← g.expr
  some_arg arg
  args' ← push_arg args arg
  t ← peek
  let again = next >> args_loop g rounds args'
  if t == b',' then again else args_emit args'

unfoldable pub parse_args : Grammar → Parse ℕ
unfolding give peek args_loop
parse_args g = do t ← peek; if t == b')' then give 0 else args_loop g g.rounds []

unfoldable pub parse_call : Grammar → ℕ → Parse ℕ
unfolding next parse_args expect newvar emit
parse_call g id = do next; nargs ← parse_args g; expect b')'; v ← newvar; emit ir_op_call id nargs v

unfoldable pub parse_call_single_arg : Grammar → ℕ → Parse ℕ
unfolding some_arg emit newvar
parse_call_single_arg g id = do
  arg ← g.expr
  some_arg arg
  _ ← emit ir_op_arg arg ir_no_arg ir_no_target
  v ← newvar
  emit ir_op_call id 1 v

-- a name without a symbol is a global
unfoldable pub load_name : World → Name → Parse ℕ
unfolding parser_sym ctt_string newvar emit assigned
load_name w t = do
  r ← parser_sym w t
  if r == 2 ^ 32 - 1
      then (do field ← ctt_string w t.start t.size; v ← newvar; emit ir_op_gload field ir_no_arg v)
      else assigned r

unfoldable pub parse_id : World → Grammar → Parse ℕ
unfolding give peek tk load_name next parse_call parse_call_single_arg
parse_id w g = do
  t ← tk
  r ← load_name w t
  next
  t' ← peek
  if t' == b'('
      then parse_call g r
      else if t' == lex_str || t' == b'{'
      then parse_call_single_arg g r
      else give r
