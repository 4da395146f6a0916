-- ===== src/Parser/Assignment.antt =====
-- `parser_save`, `parser_restore` and `parse_assignment` of parser.c: a definition, an assignment or
-- an expression.
use minilua.Common.{ℕ, ◌-◌, ◌%◌, ◌^◌, Bool, ◌&&◌, not, ◌==◌, leb, ltb, if◌then◌else◌, done, fault}
use minilua.Lex.Codes.{Token}
use minilua.Ir.{ir_phi_ins}
use minilua.Ir.Ops.{ir_op_lcopy, ir_op_gstore, ir_no_arg, ir_no_target, ir_op_max}
use minilua.Ir.Commit.{upd}
use minilua.Parser.{
  Parse, World, Name, parsed, run, on_ir, emit, newvar, ctt_string, assign, assigned,
}
use minilua.Parser.Do.{◌>>=◌, ◌>>◌, give}
use minilua.Parser.Scope.{parser_sym, parser_newsym}
use minilua.Parser.Next.{next, peek}
use minilua.Parser.Grammar.{Grammar}
use minilua.Parser.Function.{tk}

-- `parser_state`
pub record Saved : Type 0 where
  pub s : ℕ
  pub start : ℕ
  pub current : Token

unfoldable pub parser_save : Parse Saved
parser_save p = parsed (record { s = p.s; start = p.start; current = p.current }) p

unfoldable pub parser_restore : Saved → Parse (Unit {0})
parser_restore state p =
    parsed tt (record p { s = state.s; start = state.start; current = state.current })

unfoldable pub define_local : World → Grammar → Name → Parse ℕ
unfolding parser_newsym assign next emit
define_local w g t = do
  r ← parser_newsym w t
  assign r r
  next
  a ← g.expr
  emit ir_op_lcopy a ir_no_arg r

-- What else stands behind the name is not implemented.
unfoldable pub local_assignment : World → Grammar → Name → Parse ℕ
unfolding give peek define_local
local_assignment w g t = do t' ← peek; if t' == b'=' then define_local w g t else give 0

-- the copy to the new variable `n`, and whether it has been made
unfoldable pub copy_unless : ℕ → ℕ → ℕ → Parse ℕ
unfolding give emit
copy_unless a n r = if not (a == n) then emit ir_op_lcopy a ir_no_arg n else give r

unfoldable pub assign_global : World → Grammar → Name → Parse ℕ
unfolding ctt_string newvar assign next copy_unless emit
assign_global w g t = do
  field ← ctt_string w t.start t.size
  n ← newvar
  assign n n
  next
  a ← g.expr
  r ← copy_unless a n n
  emit ir_op_gstore field r ir_no_target

unfoldable pub sym_phi_depth : ℕ → Parse ℕ
unfolding run
sym_phi_depth v = run (λ p. if leb ir_op_max v then fault else done (p.sym_cdepth v, p))

unfoldable pub set_sym_cdepth : ℕ → ℕ → Parse (Unit {0})
unfolding run upd
set_sym_cdepth v d = run (λ p.
    if leb ir_op_max v
    then fault
    else done (tt, record p { sym_cdepth = upd p.sym_cdepth v (d % 256) }))

unfoldable pub phi_depth : Parse ℕ
phi_depth p = parsed p.cdepth p

unfoldable pub phi_ins : ℕ → ℕ → Parse ℕ
unfolding on_ir ir_phi_ins
phi_ins val old = on_ir (λ c. ir_phi_ins c val old)

-- A variable of an outer frame gets a phi function in this one.
unfoldable pub rename_phi : ℕ → ℕ → Parse (Unit {0})
unfolding give phi_depth sym_phi_depth phi_ins set_sym_cdepth
rename_phi n old = do
  cdepth ← phi_depth
  outer ← sym_phi_depth old
  if not (cdepth == 0) && ltb outer cdepth
      then (do _ ← phi_ins n old; set_sym_cdepth n outer)
      else give tt

unfoldable pub rename_local : ℕ → Parse ℕ
unfolding give phi_depth newvar assigned assign set_sym_cdepth rename_phi
rename_local r = do
  n ← newvar
  old ← assigned r
  assign n r
  cdepth ← phi_depth
  set_sym_cdepth n cdepth
  rename_phi n old
  assign r n
  give n

unfoldable pub assign_local : Grammar → ℕ → Parse ℕ
unfolding rename_local next copy_unless
assign_local g r = do n ← rename_local r; next; a ← g.expr; copy_unless a n r

unfoldable pub assign_name : World → Grammar → Name → Parse ℕ
unfolding parser_sym assign_global assign_local
assign_name w g t = do
  r ← parser_sym w t
  if r == 2 ^ 32 - 1 then assign_global w g t else assign_local g r

unfoldable pub assign_expr : Grammar → Saved → Parse ℕ
unfolding give peek parser_restore next emit
assign_expr g state = do
  parser_restore state
  r ← g.expr
  t ← peek
  if t == b'=' then (do next; a ← g.expr; emit ir_op_lcopy a ir_no_arg r) else give r

unfoldable pub parse_assignment : World → Grammar → Bool → Parse ℕ
unfolding peek tk parser_save next local_assignment assign_name assign_expr
parse_assignment w g is_local = do
  state ← parser_save
  t ← tk
  next
  t' ← peek
  if is_local
      then local_assignment w g t
      else if t' == b'='
      then assign_name w g t
      else assign_expr g state
