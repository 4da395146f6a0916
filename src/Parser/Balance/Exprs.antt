-- ===== src/Parser/Balance/Exprs.antt =====
-- Expressions stay in the scope and the frame where they are.
use minilua.Common.{ℕ, zero, suc, ◌+◌, ◌-◌, Bool, true, ◌==◌, leb, List, Run, done, fault, stuck}
use minilua.Value.{bv_nil, bv_make_bool, bv_make_double}
use minilua.Lex.Codes.{lex_id, lex_nil, lex_false, lex_true, lex_str, lex_num, lex_function}
use minilua.Ir.Ops.{ir_op_tload}
use minilua.Parser.{Parser, Parse, World, Name, bytes}
use minilua.Parser.Grammar.{Grammar, parse_none}
use minilua.Parser.Expr.{
  number, parse_number, parse_ctt, parse_string, parse_paren, primary_of, load_field, dot_loop,
  parse_primary, operand_var, operator_loop, is_factor_op, is_term_op, is_cmp_op, is_logic_op,
  parse_factor, parse_term, parse_cmp, parse_logic, parse_expr,
}
use minilua.Parser.Balance.{
  Stays, Leaves, Level, after, either, give-Moves, never-Moves, run-Moves, left, faulted, looped,
}
use minilua.Parser.Balance.Code.{emit-Moves, newvar-Moves, ctt-Moves, ctt_string-Moves, leaves-if}
use minilua.Parser.Balance.Tokens.{next-Moves, expect-Moves, peek-Moves}
use minilua.Parser.Balance.Functions.{Balanced, tk-Moves, parse_function-Moves}
use minilua.Parser.Balance.Tables.{parse_table-Moves, parse_id-Moves}

module _ {base : Parser} (w : World) where
  number-Leaves :
      (t : Name) (i k : ℕ) (p : Parser) → Level base i k p → Leaves (Level base i k) (number w t p)
  unfolding number
  number-Leaves t i k p lv = leaves-if (leb 512 t.size) (left lv) (value (bytes p t.start t.size))
    where
      value :
          (r : Run (List ℕ))
          → Leaves {A = ℕ} (Level base i k) (elim r [
            | done s ↦ done (bv_make_double (w.strtod s), p)
            | fault ↦ fault
            | stuck ↦ stuck
          ])
      value (done s) = left lv
      value fault = faulted
      value stuck = looped

  parse_number-Moves : Stays base (parse_number w)
  unfolding parse_number
  parse_number-Moves = after tk-Moves (λ t.
      after (λ i k. run-Moves (number w t) (number-Leaves t i k))
        (λ v. after (ctt-Moves w v) (λ r. after next-Moves (λ _. give-Moves r))))

  parse_ctt-Moves : (v : ℕ) → Stays base (parse_ctt w v)
  unfolding parse_ctt
  parse_ctt-Moves v = after (ctt-Moves w v) (λ r. after next-Moves (λ _. give-Moves r))

  parse_string-Moves : Stays base (parse_string w)
  unfolding parse_string
  parse_string-Moves = after tk-Moves (λ t.
      after (ctt_string-Moves w (t.start + 1) (t.size - 2))
        (λ r. after next-Moves (λ _. give-Moves r)))

  load_field-Moves : (r : ℕ) → Stays base (load_field w r)
  unfolding load_field
  load_field-Moves r = after next-Moves (λ _. after (expect-Moves lex_id) (λ _. after tk-Moves (λ t.
      after (ctt_string-Moves w t.start t.size) (λ field. after newvar-Moves (λ v.
        after (emit-Moves ir_op_tload r field v) (λ r'. after next-Moves (λ _. give-Moves r')))))))

  dot_loop-Moves : (n r : ℕ) → Stays base (dot_loop w n r)
  unfolding dot_loop
  dot_loop-Moves zero r = λ i k. never-Moves
  dot_loop-Moves (suc n) r = after peek-Moves (λ t.
      either (t == b'.') (after (load_field-Moves r) (λ r'. dot_loop-Moves n r')) (give-Moves r))

  operand_var-Moves : (operand : Parse ℕ) → Stays base operand → Stays base (operand_var w operand)
  unfolding operand_var
  operand_var-Moves operand h =
      either w.from_right (after newvar-Moves (λ v. after h (λ b. give-Moves (b, v))))
        (after h (λ b. after newvar-Moves (λ v. give-Moves (b, v))))

  operator_loop-Moves :
      (is_op : ℕ → Bool) (operand : Parse ℕ) (n r : ℕ)
      → Stays base operand
      → Stays base (operator_loop w is_op operand n r)
  unfolding operator_loop
  operator_loop-Moves is_op operand zero r h = λ i k. never-Moves
  operator_loop-Moves is_op operand (suc n) r h = after peek-Moves (λ t.
      either (is_op t)
        (after next-Moves (λ _.
          after (operand_var-Moves operand h)
            (λ x. after (emit-Moves t r x.0 x.1) (λ r'. operator_loop-Moves is_op operand n r' h))))
        (give-Moves r))

module _ {base : Parser} (w : World) (g : Grammar) (bal : Balanced base g) where
  parse_paren-Moves : Stays base (parse_paren g)
  unfolding parse_paren
  parse_paren-Moves =
      after next-Moves (λ _. after bal.expr (λ r. after (expect-Moves b')') (λ _. give-Moves r)))

  primary_of-Moves : (t : ℕ) → Stays base (primary_of w g t)
  unfolding primary_of
  primary_of-Moves t = either (t == lex_id) (parse_id-Moves w g bal) (
      either (t == lex_nil) (parse_ctt-Moves w bv_nil) (
        either (t == lex_false) (parse_ctt-Moves w (bv_make_bool 0)) (
          either (t == lex_true) (parse_ctt-Moves w (bv_make_bool 1)) (
            either (t == lex_str) (parse_string-Moves w) (
              either (t == lex_num) (parse_number-Moves w) (
                either (t == b'{') (parse_table-Moves w g bal) (
                  either (t == b'(') parse_paren-Moves (
                    either (t == lex_function) (parse_function-Moves w g true true bal)
                      (give-Moves parse_none)))))))))

  parse_primary-Moves : Stays base (parse_primary w g)
  unfolding parse_primary
  parse_primary-Moves =
      after peek-Moves (λ t. after (primary_of-Moves t) (λ r. dot_loop-Moves w g.rounds r))

  parse_factor-Moves : Stays base (parse_factor w g)
  unfolding parse_factor
  parse_factor-Moves =
      after parse_primary-Moves
        (λ r. operator_loop-Moves w is_factor_op (parse_primary w g) g.rounds r parse_primary-Moves)

  parse_term-Moves : Stays base (parse_term w g)
  unfolding parse_term
  parse_term-Moves =
      after parse_factor-Moves
        (λ r. operator_loop-Moves w is_term_op (parse_factor w g) g.rounds r parse_factor-Moves)

  parse_cmp-Moves : Stays base (parse_cmp w g)
  unfolding parse_cmp
  parse_cmp-Moves =
      after parse_term-Moves
        (λ r. operator_loop-Moves w is_cmp_op (parse_term w g) g.rounds r parse_term-Moves)

  parse_logic-Moves : Stays base (parse_logic w g)
  unfolding parse_logic
  parse_logic-Moves =
      after parse_cmp-Moves
        (λ r. operator_loop-Moves w is_logic_op (parse_cmp w g) g.rounds r parse_cmp-Moves)

  pub parse_expr-Moves : Stays base (parse_expr w g)
  unfolding parse_expr
  parse_expr-Moves = parse_logic-Moves
