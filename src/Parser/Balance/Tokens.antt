-- ===== src/Parser/Balance/Tokens.antt =====
-- The steps that read tokens stay in the scope and the frame where they are.
use minilua.Common.{
  ℕ, zero, suc, refl, Bool, true, false, ◌==◌, not, if◌then◌else◌, length, Option, none, some, Run,
  done, fault, stuck,
}
use minilua.Lex.Codes.{Token}
use minilua.Lex.{lex}
use minilua.Parser.{Parser, parsed, exited}
use minilua.Parser.Next.{
  text, refused, taken, is_skipped, next_loop, parser_next, parser_expect, next, expect, peek, tp,
}
use minilua.Parser.Balance.{
  Level, Stays, Leaves, left, faulted, looped, run-Moves, seq, give-Moves, Ends,
}
use minilua.Parser.Balance.Code.{leaves-if, same-Level}

module _ {base : Parser} where
  -- tokens
  next_loop-Leaves :
      {i k : ℕ} (fuel : ℕ) (p : Parser)
      → Level base i k p
      → Leaves (Level base i k) (next_loop fuel p)
  unfolding next_loop taken refused
  next_loop-Leaves zero p lv = looped
  next_loop-Leaves {i} {k} (suc fuel) p lv =
      token_step (lex (text p))
        (λ t. next_loop-Leaves fuel (taken t p) (same-Level (taken t p) lv refl refl refl refl))
    where
      token_step :
          (r : Run (Option Token))
          → ((t : Token) → Leaves (Level base i k) (next_loop fuel (taken t p)))
          → Leaves {A = ℕ} (Level base i k) (elim r [
            | done r ↦ elim r [
              | none ↦ done (1, refused p)
              | some t ↦
                  let more = next_loop fuel (taken t p) in
                  if is_skipped t.type then more else done (0, taken t p)
            ]
            | fault ↦ fault
            | stuck ↦ stuck
          ])
      token_step (done none) h = left (same-Level (refused p) lv refl refl refl refl)
      token_step (done (some t)) h =
          leaves-if (is_skipped t.type) (h t) (left (same-Level (taken t p) lv refl refl refl refl))
      token_step fault h = faulted
      token_step stuck h = looped

  pub parser_next-Moves : Stays base parser_next
  unfolding parser_next
  parser_next-Moves i k = run-Moves _ (λ p lv. next_loop-Leaves (suc (length (text p))) p lv)

  pub next-Moves : Stays base next
  unfolding next
  next-Moves i k = seq (parser_next-Moves i k) (λ r. give-Moves tt i k)

  pub peek-Moves : Stays base peek
  unfolding peek
  peek-Moves i k = record { apply = λ p lv. lv }

  pub parser_expect-Moves : (t : ℕ) → Stays base (parser_expect t)
  unfolding parser_expect
  parser_expect-Moves t i k = record { apply = λ p lv. at_token (tp p == t) p lv }
    where
      at_token :
          (b : Bool) (p : Parser)
          → Level base i k p
          → Ends (Level base i k) (if not b then exited else parsed tt p)
      at_token true p lv = lv
      at_token false p lv = tt

  pub expect-Moves : (t : ℕ) → Stays base (expect t)
  unfolding expect
  expect-Moves t i k = seq (parser_expect-Moves t i k) (λ r. next-Moves i k)
