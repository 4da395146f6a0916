-- ===== src/Parser/Balance/Functions.antt =====
-- What is asked of the functions that the parser calls again, and the bodies of functions: their
-- parameters are names of a scope of its own, which is left at the end.
use minilua.Common.{ℕ, zero, suc, ◌+◌, Bool, not, ◌==◌, inl, arith}
use minilua.Value.{bv_nil}
use minilua.Lex.Codes.{lex_id, lex_end}
use minilua.Ir.Ops.{
  ir_op_param, ir_op_lcopy, ir_op_gstore, ir_no_arg, ir_no_target, ir_function_begin,
  ir_function_end,
}
use minilua.Parser.{Parser, World, Name}
use minilua.Parser.Grammar.{Grammar}
use minilua.Parser.Function.{
  tk, current, parse_param, params_loop, function_params, function_body, function_store,
  parse_function,
}
use minilua.Parser.Balance.{Stays, Moves, seq, branch, after, either, give-Moves, never-Moves}
use minilua.Parser.Balance.Code.{
  emit-Moves, newvar-Moves, ctt-Moves, ctt_string-Moves, assign-Moves, set_target-Moves,
}
use minilua.Parser.Balance.Tokens.{next-Moves, expect-Moves, parser_expect-Moves, peek-Moves}
use minilua.Parser.Balance.Scopes.{Open, parser_enter-Moves, parser_exit-Moves, parser_newsym-Moves}

pub record Balanced (base : Parser) (g : Grammar) : Type 0 where
  pub expr : Stays base g.expr
  pub cond : Stays base g.cond
  pub chunk : (i k : ℕ) → Open base i → Moves base ℕ i k i k g.chunk

module _ {base : Parser} where
  pub tk-Moves : Stays base tk
  unfolding tk
  tk-Moves i k = record { apply = λ p lv. lv }

  pub current-Moves : Stays base current
  unfolding current
  current-Moves i k = record { apply = λ p lv. lv }

  parse_param-Moves : (w : World) (i k : ℕ) → Open base i → Moves base ℕ i k i k (parse_param w)
  unfolding parse_param
  parse_param-Moves w i k o = seq (parser_expect-Moves lex_id i k) (λ _. seq (tk-Moves i k) (λ t.
      seq (parser_newsym-Moves w t i k o)
        (λ r. seq (assign-Moves r r i k) (λ _. seq (next-Moves i k) (λ _. give-Moves r i k)))))

  params_loop-Moves :
      (w : World) (n m i k : ℕ) → Open base i → Moves base ℕ i k i k (params_loop w n m)
  unfolding params_loop
  params_loop-Moves w zero m i k o = never-Moves
  params_loop-Moves w (suc n) m i k o = seq (parse_param-Moves w i k o) (λ param.
      seq (emit-Moves ir_op_param param ir_no_arg ir_no_target i k) (λ _. seq (peek-Moves i k) (λ t.
        branch (t == b',') (seq (next-Moves i k) (λ _. params_loop-Moves w n (m + 1) i k o))
          (give-Moves (m + 1) i k))))

  function_params-Moves :
      (w : World) (n i k : ℕ) → Open base i → Moves base ℕ i k i k (function_params w n)
  unfolding function_params
  function_params-Moves w n i k o =
      seq (peek-Moves i k)
        (λ t. branch (not (t == b')')) (params_loop-Moves w n 0 i k o) (give-Moves 0 i k))

  function_body-Moves : (w : World) (g : Grammar) → Balanced base g → Stays base (function_body w g)
  unfolding function_body
  function_body-Moves w g bal i k = seq (parser_enter-Moves i k) (λ _.
      seq (function_params-Moves w g.rounds (suc i) k (inl (omega arith))) (λ nparams.
        seq (expect-Moves b')' (suc i) k) (λ _. seq (current-Moves (suc i) k) (λ header.
          seq (emit-Moves ir_function_begin ir_no_arg nparams ir_no_target (suc i) k) (λ _.
            seq (bal.chunk (suc i) k (inl (omega arith))) (λ _.
              seq (current-Moves (suc i) k) (λ here.
                seq (set_target-Moves header here (suc i) k) (λ _.
                  seq (emit-Moves ir_function_end ir_no_arg ir_no_arg header (suc i) k) (λ _.
                    seq (ctt-Moves w bv_nil (suc i) k) (λ n. seq (newvar-Moves (suc i) k) (λ v.
                      seq (emit-Moves ir_op_lcopy n ir_no_arg v (suc i) k)
                        (λ r. seq (parser_exit-Moves w i k) (λ _. give-Moves r i k)))))))))))))

  function_store-Moves : (w : World) (t : Name) (r : ℕ) → Stays base (function_store w t r)
  unfolding function_store
  function_store-Moves w t r =
      after (ctt_string-Moves w t.start t.size)
        (λ field. emit-Moves ir_op_gstore field r ir_no_target)

  pub parse_function-Moves :
      (w : World) (g : Grammar) (is_local is_anon : Bool)
      → Balanced base g
      → Stays base (parse_function w g is_local is_anon)
  unfolding parse_function
  parse_function-Moves w g is_local is_anon bal = after next-Moves (λ _. after tk-Moves (λ t.
      after (either is_anon (give-Moves tt) (expect-Moves lex_id)) (λ _.
        after (expect-Moves b'(') (λ _. after (function_body-Moves w g bal) (λ r.
          after (expect-Moves lex_end)
            (λ _. either is_local (give-Moves r) (function_store-Moves w t r)))))))
