-- ===== src/Parser/Expr.antt =====
-- The expressions of parser.c, `parse_primary` to `parse_expr`. Operators of one level are applied
-- from the left, each to the operand that follows it.
use minilua.Common.{
  ℕ, zero, suc, ◌+◌, ◌-◌, Bool, true, ◌||◌, ◌==◌, leb, if◌then◌else◌, Run, done, fault, stuck,
}
use minilua.Value.{bv_nil, bv_make_bool, bv_make_double}
use minilua.Lex.Codes.{
  lex_id, lex_nil, lex_false, lex_true, lex_str, lex_num, lex_function, lex_le, lex_ge, lex_eq,
  lex_ne, lex_or, lex_and,
}
use minilua.Ir.Ops.{ir_op_tload}
use minilua.Parser.{Parser, Parse, World, Name, run, bytes, emit, newvar, ctt, ctt_string}
use minilua.Parser.Do.{◌>>=◌, ◌>>◌, give, never}
use minilua.Parser.Next.{next, expect, peek}
use minilua.Parser.Grammar.{Grammar, parse_none}
use minilua.Parser.Function.{parse_function, tk}
use minilua.Parser.Table.{parse_table}
use minilua.Parser.Call.{parse_id}

-- a number of 512 characters or more is nil
unfoldable pub number : World → Name → Parser → Run (ℕ × Parser)
unfolding bytes bv_make_double
number w t p = if leb 512 t.size then done (bv_nil, p) else (elim (bytes p t.start t.size) [
  | done s ↦ done (bv_make_double (w.strtod s), p)
  | fault ↦ fault
  | stuck ↦ stuck
])

unfoldable pub parse_number : World → Parse ℕ
unfolding give tk run number ctt next
parse_number w = do t ← tk; v ← run (number w t); r ← ctt w v; next; give r

unfoldable pub parse_ctt : World → ℕ → Parse ℕ
unfolding give ctt next
parse_ctt w v = do r ← ctt w v; next; give r

unfoldable pub parse_string : World → Parse ℕ
unfolding give tk ctt_string next
parse_string w = do t ← tk; r ← ctt_string w (t.start + 1) (t.size - 2); next; give r

unfoldable pub parse_paren : Grammar → Parse ℕ
unfolding give next expect
parse_paren g = do next; r ← g.expr; expect b')'; give r

-- the cases of `TP`
unfoldable pub primary_of : World → Grammar → ℕ → Parse ℕ
unfolding give parse_id parse_ctt parse_string parse_number parse_table parse_paren parse_function
    bv_make_bool
primary_of w g t =
    if t == lex_id
    then parse_id w g
    else if t == lex_nil
    then parse_ctt w bv_nil
    else if t == lex_false
    then parse_ctt w (bv_make_bool 0)
    else if t == lex_true
    then parse_ctt w (bv_make_bool 1)
    else if t == lex_str
    then parse_string w
    else if t == lex_num
    then parse_number w
    else if t == b'{'
    then parse_table w g
    else if t == b'('
    then parse_paren g
    else if t == lex_function
    then parse_function w g true true
    else give parse_none

-- The field is named by the token behind the name that is expected.
unfoldable pub load_field : World → ℕ → Parse ℕ
unfolding give tk next expect ctt_string newvar emit
load_field w r = do
  next
  expect lex_id
  t ← tk
  field ← ctt_string w t.start t.size
  v ← newvar
  r' ← emit ir_op_tload r field v
  next
  give r'

unfoldable pub dot_loop : World → ℕ → ℕ → Parse ℕ
unfolding give never peek load_field
dot_loop w zero r = never
dot_loop w (suc rounds) r = do
  t ← peek
  let more = load_field w r >>= λ r'. dot_loop w rounds r'
  if t == b'.' then more else give r

unfoldable pub parse_primary : World → Grammar → Parse ℕ
unfolding peek primary_of dot_loop
parse_primary w g = do t ← peek; r ← primary_of w g t; dot_loop w g.rounds r

-- `operand(p)` and `ir_newvar(p->c)`, two arguments of one call
unfoldable pub operand_var : World → Parse ℕ → Parse (ℕ × ℕ)
unfolding give newvar
operand_var w operand =
    if w.from_right
    then (do v ← newvar; b ← operand; give (b, v))
    else (do b ← operand; v ← newvar; give (b, v))

-- the loop over the operators of one level
unfoldable pub operator_loop : World → (ℕ → Bool) → Parse ℕ → ℕ → ℕ → Parse ℕ
unfolding give never peek next operand_var emit
operator_loop w is_op operand zero r = never
operator_loop w is_op operand (suc rounds) r = do
  t ← peek
  let more = (do
    next
    (b, v) ← operand_var w operand
    r' ← emit t r b v
    operator_loop w is_op operand rounds r')
  if is_op t then more else give r

unfoldable pub is_factor_op : ℕ → Bool
is_factor_op t = t == b'*' || t == b'/' || t == b'^' || t == b'%'

unfoldable pub is_term_op : ℕ → Bool
is_term_op t = t == b'+' || t == b'-'

unfoldable pub is_cmp_op : ℕ → Bool
is_cmp_op t = t == b'<' || t == lex_le || t == b'>' || t == lex_ge || t == lex_eq || t == lex_ne

unfoldable pub is_logic_op : ℕ → Bool
is_logic_op t = t == lex_or || t == lex_and

unfoldable pub parse_factor : World → Grammar → Parse ℕ
unfolding parse_primary operator_loop is_factor_op
parse_factor w g = do
  r ← parse_primary w g
  operator_loop w is_factor_op (parse_primary w g) g.rounds r

unfoldable pub parse_term : World → Grammar → Parse ℕ
unfolding parse_factor operator_loop is_term_op
parse_term w g = do r ← parse_factor w g; operator_loop w is_term_op (parse_factor w g) g.rounds r

unfoldable pub parse_cmp : World → Grammar → Parse ℕ
unfolding parse_term operator_loop is_cmp_op
parse_cmp w g = do r ← parse_term w g; operator_loop w is_cmp_op (parse_term w g) g.rounds r

unfoldable pub parse_logic : World → Grammar → Parse ℕ
unfolding parse_cmp operator_loop is_logic_op
parse_logic w g = do r ← parse_cmp w g; operator_loop w is_logic_op (parse_cmp w g) g.rounds r

unfoldable pub parse_expr : World → Grammar → Parse ℕ
unfolding parse_logic
parse_expr w g = parse_logic w g
