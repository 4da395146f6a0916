-- ===== src/Parser/Table.antt =====
-- `parse_field` and `parse_table` of parser.c.
use minilua.Common.{ℕ, zero, suc, ◌&&◌, not, ◌==◌, if◌then◌else◌}
use minilua.Lex.Codes.{lex_id}
use minilua.Ir.Ops.{ir_op_newtbl, ir_op_tstore}
use minilua.Parser.{Parse, World, emit, newvar, ctt_string}
use minilua.Parser.Do.{◌>>=◌, ◌>>◌, give, never}
use minilua.Parser.Next.{next, expect, peek}
use minilua.Parser.Grammar.{Grammar}
use minilua.Parser.Function.{tk}

-- `pfield`: 2 for a field with a key `a`, 1 for one without
pub record Field : Type 0 where
  pub type : ℕ
  pub a : ℕ
  pub b : ℕ

unfoldable pub field_key : Grammar → Parse Field
unfolding give next expect
field_key g = do
  next
  a ← g.expr
  expect b']'
  expect b'='
  b ← g.expr
  give (record { type = 2; a = a; b = b })

unfoldable pub field_name : World → Grammar → Parse Field
unfolding give tk ctt_string next expect
field_name w g = do
  t ← tk
  a ← ctt_string w t.start t.size
  next
  expect b'='
  b ← g.expr
  give (record { type = 2; a = a; b = b })

-- `b` is not set, nor is it read
unfoldable pub field_plain : Grammar → Parse Field
unfolding give
field_plain g = do a ← g.expr; give (record { type = 1; a = a; b = 0 })

unfoldable pub parse_field : World → Grammar → Parse Field
unfolding peek field_key field_name field_plain
parse_field w g = do
  t ← peek
  if t == b'[' then field_key g else if t == lex_id then field_name w g else field_plain g

-- the store of a field; one without a key is dropped
unfoldable pub store_field : Field → ℕ → Parse ℕ
unfolding give emit
store_field f r = if f.type == 2 then emit ir_op_tstore f.a f.b r else give 0

unfoldable pub table_loop : World → Grammar → ℕ → ℕ → Parse ℕ
unfolding give never peek parse_field store_field expect next
table_loop w g zero r = never
table_loop w g (suc rounds) r = do
  f ← parse_field w g
  _ ← store_field f r
  t ← peek
  let again = table_loop w g rounds r
  if not (t == b',') && not (t == b';')
      then expect b'}' >> give r
      else (do next; t' ← peek; if not (t' == b'}') then again else next >> give r)

unfoldable pub parse_table : World → Grammar → Parse ℕ
unfolding give peek newvar emit expect next table_loop
parse_table w g = do
  v ← newvar
  r ← emit ir_op_newtbl 0 0 v
  expect b'{'
  t ← peek
  if t == b'}' then next >> give r else table_loop w g g.rounds r
