-- ===== src/Parser/Endless.antt =====
-- What parser.c does at a text that `lex` refuses, as at its end: the current token keeps its type.
use minilua.Common.{
  ℕ, zero, suc, ◌≡◌, refl, ◌∙◌, sym, ap, subst, if◌then◌else◌, none, length, Run, done, fault,
  stuck, Option, some,
}
use minilua.Lex.{lex}
use minilua.Lex.Codes.{Token}
use minilua.Parser.{Parser, World, parsed, endless, crashed, hung, bind, run}
use minilua.Parser.Do.{give, never}
use minilua.Parser.Next.{tp, peek, text, refused, taken, is_skipped, next_loop, parser_next, next}
use minilua.Parser.Grammar.{Grammar, parse_none}
use minilua.Parser.Table.{Field, field_plain, parse_field, store_field, table_loop}
use minilua.Parser.Expr.{
  primary_of, dot_loop, parse_primary, operator_loop, is_factor_op, is_term_op, is_cmp_op,
  is_logic_op, parse_factor, parse_term, parse_cmp, parse_logic, parse_expr,
}
use minilua.Parser.Statement.{grammar}

-- `NEXT` at a text that is refused
loop-refused :
    (fuel : ℕ) (p : Parser)
    → lex (text p) ≡ done none
    → next_loop (suc fuel) p ≡ done (1, refused p)
unfolding next_loop
loop-refused fuel p e = step (lex (text p)) e
  where
    step :
        (r : Run (Option Token))
        → r ≡ done none
        → (elim r [
          | done r ↦ elim r [
            | none ↦ done (1, refused p)
            | some t ↦
                let more = next_loop fuel (taken t p) in
                if is_skipped t.type then more else done (0, taken t p)
          ]
          | fault ↦ fault
          | stuck ↦ stuck
        ])
          ≡ (let out : Run (ℕ × Parser) = done (1, refused p) in out)
    step (done none) e = refl
    step (done (some t)) e = cc
    step fault e = cc
    step stuck e = cc

run-done :
    {A : Type 0} (f : Parser → Run (A × Parser)) (p p' : Parser) (a : A)
    → f p ≡ done (a, p')
    → run f p ≡ parsed a p'
unfolding run
run-done {A} f p p' a e =
    ap
      (λ (r : Run (A × Parser)). elim r [
        | done r ↦ parsed r.0 r.1
        | fault ↦ crashed
        | stuck ↦ hung
      ])
      e

next-refused : (p : Parser) → lex (text p) ≡ done none → next p ≡ parsed tt (refused p)
unfolding next parser_next give
next-refused p e =
    ap (λ r. bind r (λ status. give tt))
      (run-done (λ p. next_loop (suc (length (text p))) p) p (refused p) 1
        (loop-refused (length (text p)) p e))

-- No expression begins with a comma.
expr-comma :
    (w : World) (g : Grammar) (n : ℕ) (p : Parser)
    → tp p ≡ b','
    → g.rounds ≡ suc n
    → parse_expr w g p ≡ parsed parse_none p
unfolding parse_expr parse_logic parse_cmp parse_term parse_factor parse_primary primary_of dot_loop
    operator_loop is_factor_op is_term_op is_cmp_op is_logic_op peek give
expr-comma w g n p e rs = rw (rs, e)

no_rounds : (w : World) (p : Parser) → tp p ≡ b',' → parse_expr w (grammar w zero) p ≡ endless
unfolding parse_expr parse_logic parse_cmp parse_term parse_factor parse_primary primary_of dot_loop
    peek give never grammar
no_rounds w p e = rw e

abbrev comma : Parser → Parser
comma p = record p { current = record p.current { type = b',' } }

abbrev no_field : Field
no_field = record { type = 1; a = parse_none; b = 0 }

field-comma :
    (w : World) (g : Grammar) (p : Parser)
    → g.expr (comma p) ≡ parsed parse_none (comma p)
    → parse_field w g (comma p) ≡ parsed no_field (comma p)
unfolding parse_field field_plain peek give
field-comma w g p idle = rw idle

field-endless :
    (w : World) (g : Grammar) (p : Parser)
    → g.expr (comma p) ≡ endless
    → parse_field w g (comma p) ≡ endless
unfolding parse_field field_plain peek
field-endless w g p out = rw out

stop-comma :
    (w : World) (g : Grammar) (n r : ℕ) (p : Parser)
    → parse_field w g (comma p) ≡ endless
    → table_loop w g (suc n) r (comma p) ≡ endless
unfolding table_loop
stop-comma w g n r p out = rw out

round-comma :
    (w : World) (g : Grammar) (n r : ℕ) (p : Parser)
    → parse_field w g (comma p) ≡ parsed no_field (comma p)
    → next (comma p) ≡ parsed tt (refused (comma p))
    → table_loop w g (suc n) r (comma p) ≡ table_loop w g n r (comma (refused p))
unfolding table_loop store_field peek give refused
round-comma w g n r p field stay = rw (field, stay)

-- with too few rounds for an expression, with enough of them
again-comma :
    (w : World) (m n r : ℕ) (p : Parser)
    → lex (text p) ≡ done none
    → table_loop w (grammar w m) n r (comma p) ≡ endless
unfolding table_loop never text refused grammar
again-comma w m zero r p refuses = refl
again-comma w zero (suc n) r p refuses =
    stop-comma w (grammar w zero) n r p (field-endless w (grammar w zero) p refl)
again-comma w (suc zero) (suc n) r p refuses =
    stop-comma w (grammar w (suc zero)) n r p
      (field-endless w (grammar w (suc zero)) p (no_rounds w (comma p) refl))
again-comma w (suc (suc m)) (suc n) r p refuses =
    round-comma w (grammar w (suc (suc m))) n r p
      (field-comma w (grammar w (suc (suc m))) p
        (expr-comma w (grammar w (suc m)) m (comma p) refl refl))
      (next-refused (comma p) refuses)
    ∙ again-comma w (suc (suc m)) n r (refused p) refuses

-- In a table, a comma that `lex` cannot go behind, as at the end of the text, is read for ever: the
-- loop over the fields does not return, with whatever rounds.
pub table_loop-comma :
    (w : World) (m n r : ℕ) (p : Parser)
    → tp p ≡ b','
    → lex (text p) ≡ done none
    → table_loop w (grammar w m) n r p ≡ endless
table_loop-comma w m n r p e refuses =
    subst (λ q. table_loop w (grammar w m) n r q ≡ endless)
      (ap (λ t. record p { current = record p.current { type = t } }) (sym e))
      (again-comma w m n r p refuses)
