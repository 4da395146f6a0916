-- ===== src/Parser/Statement.antt =====
-- `parse_statement` and `parse_chunk` of parser.c, and the functions of the grammar together.
use minilua.Common.{ℕ, zero, suc, Bool, true, false, ◌||◌, not, ◌==◌, if◌then◌else◌}
use minilua.Lex.Codes.{
  lex_id, lex_function, lex_while, lex_for, lex_repeat, lex_if, lex_return, lex_local, lex_do,
  lex_end,
}
use minilua.Ir.Ops.{ir_op_ret, ir_no_arg, ir_no_target}
use minilua.Parser.{Parse, World, crashed, emit}
use minilua.Parser.Do.{◌>>=◌, ◌>>◌, give, never}
use minilua.Parser.Scope.{parser_enter, parser_exit}
use minilua.Parser.Next.{next, expect, peek}
use minilua.Parser.Grammar.{Grammar, parse_none}
use minilua.Parser.Function.{parse_function}
use minilua.Parser.Assignment.{parse_assignment}
use minilua.Parser.Expr.{parse_expr}
use minilua.Parser.If.{parse_if}
use minilua.Parser.Loops.{parse_while, parse_for, parse_repeat}

unfoldable pub parse_return : Grammar → Parse ℕ
unfolding give next emit
parse_return g = do
  next
  r ← g.expr
  _ ← emit ir_op_ret (if not (r == parse_none) then r else ir_no_arg) ir_no_arg ir_no_target
  give r

-- The rest is an `abort`.
unfoldable pub parse_local : World → Grammar → Parse ℕ
unfolding peek next parse_function parse_assignment
parse_local w g = do
  next
  t ← peek
  if t == lex_function
      then parse_function w g true false
      else if t == lex_id
      then parse_assignment w g true
      else (λ p. crashed)

unfoldable pub parse_do : World → Grammar → Parse ℕ
unfolding give next parser_enter expect parser_exit
parse_do w g = do next; parser_enter; r ← g.chunk; expect lex_end; parser_exit w; give r

-- the cases of `TP`
unfoldable pub statement_of : World → Grammar → ℕ → Parse ℕ
unfolding give parse_function parse_assignment parse_while parse_for parse_repeat parse_if
    parse_return parse_local parse_do
statement_of w g t =
    if t == lex_function
    then parse_function w g false false
    else if t == lex_id
    then parse_assignment w g false
    else if t == lex_while
    then parse_while w g
    else if t == lex_for
    then parse_for w g
    else if t == lex_repeat
    then parse_repeat w g
    else if t == lex_if
    then parse_if w g
    else if t == lex_return
    then parse_return g
    else if t == lex_local
    then parse_local w g
    else if t == lex_do
    then parse_do w g
    else give parse_none

unfoldable pub parse_statement : World → Grammar → Parse ℕ
unfolding peek statement_of
parse_statement w g = do t ← peek; statement_of w g t

unfoldable pub is_statement : ℕ → Bool
is_statement t =
    t == lex_local
    || t == lex_function
    || t == lex_id
    || t == lex_do
    || t == lex_while
    || t == lex_for
    || t == lex_repeat
    || t == lex_if
    || t == lex_return

unfoldable pub chunk_loop : World → Grammar → ℕ → Parse ℕ
unfolding give never peek is_statement parse_statement
chunk_loop w g zero = never
chunk_loop w g (suc rounds) = do
  t ← peek
  let again = parse_statement w g >>= λ r. chunk_loop w g rounds
  if is_statement t then again else give 0

-- what the functions are with `n` rounds for the loops and the calls of one another
unfoldable pub grammar : World → ℕ → Grammar
unfolding never parse_expr chunk_loop parse_if
grammar w zero = record { expr = never; chunk = never; cond = never; rounds = 0 }
grammar w (suc n) =
    let g = grammar w n in
    record { expr = parse_expr w g; chunk = chunk_loop w g n; cond = parse_if w g; rounds = suc n }

unfoldable pub parse_chunk : World → ℕ → Parse ℕ
unfolding grammar
parse_chunk w n = (grammar w n).chunk
