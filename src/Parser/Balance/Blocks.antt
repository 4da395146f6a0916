-- ===== src/Parser/Balance/Blocks.antt =====
-- Loops, statements and chunks, and what a statement and a whole text leave behind: the scopes and
-- the frames of phi functions of the parser are balanced, but for `repeat`.
use minilua.Common.{ℕ, zero, suc, ◌+◌, ◌^◌, true, false, ◌==◌, leb, if◌then◌else◌, inl, arith}
use minilua.Lex.Codes.{
  lex_id, lex_function, lex_while, lex_for, lex_repeat, lex_if, lex_return, lex_local, lex_do,
  lex_end, lex_until,
}
use minilua.Ir.Ops.{
  ir_op_lcopy, ir_op_phi, ir_op_jmp, ir_op_jz, ir_op_jnz, ir_op_je, ir_op_jne, ir_op_ret,
  ir_loop_header, ir_loop_begin, ir_loop_end, ir_no_arg, ir_no_target, phi_loop_join, phi_repeat,
}
use minilua.Parser.{Parser, World, Name}
use minilua.Parser.Do.{give}
use minilua.Parser.Grammar.{Grammar, parse_none}
use minilua.Parser.Loops.{
  parse_while, parse_repeat, for_start, for_step, for_symbol, for_next, for_body, parse_for,
}
use minilua.Parser.Statement.{
  parse_return, parse_local, parse_do, statement_of, parse_statement, is_statement, chunk_loop,
  grammar,
}
use minilua.Parser.Balance.{Stays, Moves, seq, branch, after, either, shed, give-Moves, never-Moves}
use minilua.Parser.Balance.Code.{
  emit-Moves, newvar-Moves, ctt-Moves, assign-Moves, assigned-Moves, set_target-Moves, on_ir-Moves,
  phi_ins_keeps,
}
use minilua.Parser.Balance.Tokens.{next-Moves, expect-Moves, parser_expect-Moves, peek-Moves}
use minilua.Parser.Balance.Scopes.{Open, parser_enter-Moves, parser_exit-Moves, parser_newsym-Moves}
use minilua.Parser.Balance.Frames.{parser_phi_begin-Moves, parser_phi_commit-Moves}
use minilua.Parser.Balance.Functions.{Balanced, tk-Moves, current-Moves, parse_function-Moves}
use minilua.Parser.Balance.Exprs.{parse_expr-Moves}
use minilua.Parser.Balance.Statements.{reassignment-Moves, definition-Moves, parse_if-Moves}

module _ {base : Parser} (w : World) (g : Grammar) (bal : Balanced base g) where
  parse_while-Moves : Stays base (parse_while w g)
  unfolding parse_while
  parse_while-Moves i k = seq (next-Moves i k) (λ _. seq (parser_enter-Moves i k) (λ _.
      seq (emit-Moves ir_loop_header ir_no_arg ir_no_arg ir_no_target (suc i) k) (λ _.
        seq (parser_phi_begin-Moves phi_loop_join (suc i) k) (λ _.
          seq (current-Moves (suc i) (suc k)) (λ a. seq (bal.expr (suc i) (suc k)) (λ r.
            seq (current-Moves (suc i) (suc k)) (λ c.
              seq (emit-Moves ir_op_jz r ir_no_arg 0 (suc i) (suc k)) (λ _.
                seq (expect-Moves lex_do (suc i) (suc k)) (λ _.
                  seq (emit-Moves ir_loop_begin ir_no_arg ir_no_arg ir_no_target (suc i) (suc k))
                    (λ _. seq (bal.chunk (suc i) (suc k) (inl (omega arith))) (λ r'.
                      seq (expect-Moves lex_end (suc i) (suc k)) (λ _.
                        seq (emit-Moves ir_op_jmp ir_no_arg ir_no_arg a (suc i) (suc k)) (λ _.
                          seq (parser_phi_commit-Moves (suc i) k) (λ shift.
                            seq (current-Moves (suc i) k) (λ here.
                              seq (set_target-Moves (c + shift) here (suc i) k) (λ _.
                                seq
                                  (emit-Moves ir_loop_end ir_no_arg ir_no_arg ir_no_target (suc i)
                                    k)
                                  (λ _.
                                    seq (parser_exit-Moves w i k)
                                      (λ _. give-Moves r' i k))))))))))))))))))

  -- one frame more
  pub repeat-Moves : (i k : ℕ) → Moves base ℕ i k i (suc k) (parse_repeat w g)
  unfolding parse_repeat
  repeat-Moves i k = seq (next-Moves i k) (λ _. seq (parser_enter-Moves i k) (λ _.
      seq (parser_phi_begin-Moves phi_repeat (suc i) k) (λ _.
        seq (current-Moves (suc i) (suc k)) (λ c. seq (newvar-Moves (suc i) (suc k)) (λ v.
          seq (emit-Moves ir_op_phi ir_no_arg ir_no_arg v (suc i) (suc k)) (λ _.
            seq (bal.chunk (suc i) (suc k) (inl (omega arith))) (λ _.
              seq (expect-Moves lex_until (suc i) (suc k)) (λ _.
                seq (bal.expr (suc i) (suc k)) (λ r.
                  seq (emit-Moves ir_op_jnz r ir_no_arg c (suc i) (suc k)) (λ _.
                    seq (parser_exit-Moves w i (suc k)) (λ _. give-Moves r i (suc k))))))))))))

  for_start-Moves : (a : ℕ) → Stays base (for_start a)
  unfolding for_start
  for_start-Moves a =
      either (leb (2 ^ 31) a) (after newvar-Moves (λ v. emit-Moves ir_op_lcopy a ir_no_arg v))
        (give-Moves a)

  for_step-Moves : Stays base (for_step w g)
  unfolding for_step
  for_step-Moves =
      after peek-Moves (λ t. either (t == b',') (after next-Moves (λ _. bal.expr)) (ctt-Moves w _))

  for_symbol-Moves : (t : Name) (i k : ℕ) → Open base i → Moves base ℕ i k i k (for_symbol w t)
  unfolding for_symbol
  for_symbol-Moves t i k o =
      seq (parser_newsym-Moves w t i k o) (λ v. seq (assign-Moves v v i k) (λ _. give-Moves v i k))

  for_next-Moves : (a b c header : ℕ) → Stays base (for_next a b c header)
  unfolding for_next
  for_next-Moves a b c header = after newvar-Moves (λ na. after (assigned-Moves a) (λ old.
      after (assign-Moves na a) (λ _. after (on_ir-Moves _ (λ c. phi_ins_keeps c na old)) (λ _.
        after (assign-Moves a na) (λ _.
          after (emit-Moves b'+' a c na)
            (λ _. after (emit-Moves ir_op_jne na b header) (λ _. give-Moves tt)))))))

  for_body-Moves :
      (t : Name) (a b c i k : ℕ) → Open base i → Moves base ℕ i (suc k) i k (for_body w g t a b c)
  unfolding for_body
  for_body-Moves t a b c i k o = seq (for_symbol-Moves t i (suc k) o) (λ _.
      seq (current-Moves i (suc k)) (λ fix. seq (emit-Moves ir_op_je a b 0 i (suc k)) (λ _.
        seq (current-Moves i (suc k)) (λ header. seq (for_symbol-Moves t i (suc k) o) (λ v.
          seq (emit-Moves ir_op_lcopy a ir_no_arg v i (suc k)) (λ _.
            seq (expect-Moves lex_do i (suc k)) (λ _. seq (bal.chunk i (suc k) o) (λ r.
              seq (expect-Moves lex_end i (suc k)) (λ _.
                seq (for_next-Moves a b c header i (suc k)) (λ _.
                  seq (parser_phi_commit-Moves i k) (λ shift. seq (current-Moves i k) (λ here.
                    seq (set_target-Moves (fix + shift) here i k)
                      (λ _. give-Moves r i k)))))))))))))

  parse_for-Moves : Stays base (parse_for w g)
  unfolding parse_for
  parse_for-Moves i k = seq (next-Moves i k) (λ _. seq (parser_enter-Moves i k) (λ _.
      seq (parser_phi_begin-Moves phi_loop_join (suc i) k) (λ _.
        seq (parser_expect-Moves lex_id (suc i) (suc k)) (λ _. seq (tk-Moves (suc i) (suc k)) (λ t.
          seq (expect-Moves lex_id (suc i) (suc k)) (λ _.
            seq (expect-Moves b'=' (suc i) (suc k)) (λ _. seq (bal.expr (suc i) (suc k)) (λ a₀.
              seq (for_start-Moves a₀ (suc i) (suc k)) (λ a.
                seq (assign-Moves a a (suc i) (suc k)) (λ _.
                  seq (expect-Moves b',' (suc i) (suc k)) (λ _. seq (bal.expr (suc i) (suc k)) (λ b.
                    seq (for_step-Moves (suc i) (suc k)) (λ c.
                      seq (for_body-Moves t a b c (suc i) k (inl (omega arith)))
                        (λ r. seq (parser_exit-Moves w i k) (λ _. give-Moves r i k)))))))))))))))

  parse_return-Moves : Stays base (parse_return g)
  unfolding parse_return
  parse_return-Moves = after next-Moves (λ _.
      after bal.expr
        (λ r. after (emit-Moves ir_op_ret _ ir_no_arg ir_no_target) (λ _. give-Moves r)))

  parse_local-Moves : (i k : ℕ) → Open base i → Moves base ℕ i k i k (parse_local w g)
  unfolding parse_local
  parse_local-Moves i k o = seq (next-Moves i k) (λ _. seq (peek-Moves i k) (λ t.
      branch (t == lex_function) (parse_function-Moves w g true false bal i k)
        (branch (t == lex_id) (definition-Moves w g bal i k o) (record { apply = λ p lv. tt }))))

  parse_do-Moves : Stays base (parse_do w g)
  unfolding parse_do
  parse_do-Moves i k = seq (next-Moves i k) (λ _. seq (parser_enter-Moves i k) (λ _.
      seq (bal.chunk (suc i) k (inl (omega arith))) (λ r.
        seq (expect-Moves lex_end (suc i) k)
          (λ _. seq (parser_exit-Moves w i k) (λ _. give-Moves r i k)))))

  -- the cases of a statement, of which one may declare a name
  pub statement_of-Moves :
      (t i k : ℕ)
      → Moves base ℕ i k i k (
          if t == lex_local
          then parse_local w g
          else (if t == lex_do then parse_do w g else give parse_none))
      → Moves base ℕ i k i k (statement_of w g t)
  unfolding statement_of
  statement_of-Moves t i k h =
      branch (t == lex_function) (parse_function-Moves w g false false bal i k) (
        branch (t == lex_id) (reassignment-Moves w g bal i k) (
          branch (t == lex_while) (parse_while-Moves i k) (
            branch (t == lex_for) (parse_for-Moves i k) (
              branch (t == lex_repeat) (shed (repeat-Moves i k)) (
                branch (t == lex_if) (parse_if-Moves w g bal i k)
                  (branch (t == lex_return) (parse_return-Moves i k) h))))))

  pub rest-Moves : (t : ℕ) → Stays base (if t == lex_do then parse_do w g else give parse_none)
  rest-Moves t = either (t == lex_do) parse_do-Moves (give-Moves parse_none)

  parse_statement-Moves : (i k : ℕ) → Open base i → Moves base ℕ i k i k (parse_statement w g)
  unfolding parse_statement
  parse_statement-Moves i k o = seq (peek-Moves i k) (λ t.
      statement_of-Moves t i k
        (branch (t == lex_local) (parse_local-Moves i k o) (rest-Moves t i k)))

  chunk_loop-Moves : (n i k : ℕ) → Open base i → Moves base ℕ i k i k (chunk_loop w g n)
  unfolding chunk_loop
  chunk_loop-Moves zero i k o = never-Moves
  chunk_loop-Moves (suc n) i k o = seq (peek-Moves i k) (λ t.
      branch (is_statement t) (seq (parse_statement-Moves i k o) (λ r. chunk_loop-Moves n i k o))
        (give-Moves 0 i k))

pub grammar-Balanced : (base : Parser) (w : World) (n : ℕ) → Balanced base (grammar w n)
unfolding grammar
grammar-Balanced base w zero = record {
  expr = λ i k. never-Moves;
  cond = λ i k. never-Moves;
  chunk = λ i k o. never-Moves;
}
grammar-Balanced base w (suc n) =
    let bal = grammar-Balanced base w n in
    record {
      expr = parse_expr-Moves w (grammar w n) bal;
      cond = parse_if-Moves w (grammar w n) bal;
      chunk = chunk_loop-Moves w (grammar w n) bal n;
    }
