-- ===== src/Parser/Balance/Tables.antt =====
-- Tables, names and calls stay in the scope and the frame where they are.
use minilua.Common.{ℕ, zero, suc, ◌-◌, ◌+◌, ◌^◌, not, ◌==◌, ◌&&◌, ◌||◌, leb, List, [], ◌∷◌, length}
use minilua.Lex.Codes.{lex_id, lex_str}
use minilua.Ir.Ops.{
  ir_op_newtbl, ir_op_tstore, ir_op_gload, ir_op_arg, ir_op_call, ir_no_arg, ir_no_target,
}
use minilua.Parser.{Parser, World, Name}
use minilua.Parser.Grammar.{Grammar, parse_none, no_token}
use minilua.Parser.Table.{
  Field, field_key, field_name, field_plain, parse_field, store_field, table_loop, parse_table,
}
use minilua.Parser.Call.{
  args_emit, some_arg, push_arg, args_loop, parse_args, parse_call, parse_call_single_arg,
  load_name, parse_id,
}
use minilua.Parser.Balance.{Stays, after, either, give-Moves, never-Moves, run-Moves, left, faulted}
use minilua.Parser.Balance.Code.{
  emit-Moves, newvar-Moves, ctt_string-Moves, assigned-Moves, leaves-if,
}
use minilua.Parser.Balance.Tokens.{next-Moves, expect-Moves, peek-Moves}
use minilua.Parser.Balance.Scopes.{parser_sym-Moves}
use minilua.Parser.Balance.Functions.{Balanced, tk-Moves}

module _ {base : Parser} (w : World) (g : Grammar) (bal : Balanced base g) where
  field_key-Moves : Stays base (field_key g)
  unfolding field_key
  field_key-Moves = after next-Moves (λ _. after bal.expr (λ a.
      after (expect-Moves b']')
        (λ _. after (expect-Moves b'=') (λ _. after bal.expr (λ b. give-Moves _)))))

  field_name-Moves : Stays base (field_name w g)
  unfolding field_name
  field_name-Moves = after tk-Moves (λ t. after (ctt_string-Moves w t.start t.size) (λ a.
      after next-Moves (λ _.
        after (expect-Moves b'=')
          (λ _. after bal.expr (λ b. give-Moves (record { type = 2; a = a; b = b }))))))

  field_plain-Moves : Stays base (field_plain g)
  unfolding field_plain
  field_plain-Moves = after bal.expr (λ a. give-Moves _)

  parse_field-Moves : Stays base (parse_field w g)
  unfolding parse_field
  parse_field-Moves = after peek-Moves (λ t.
      either (t == b'[') field_key-Moves (either (t == lex_id) field_name-Moves field_plain-Moves))

  store_field-Moves : (f : Field) (r : ℕ) → Stays base (store_field f r)
  unfolding store_field
  store_field-Moves f r = either (f.type == 2) (emit-Moves ir_op_tstore f.a f.b r) (give-Moves 0)

  table_loop-Moves : (n r : ℕ) → Stays base (table_loop w g n r)
  unfolding table_loop
  table_loop-Moves zero r = λ i k. never-Moves
  table_loop-Moves (suc n) r = after parse_field-Moves (λ f. after (store_field-Moves f r) (λ _.
      after peek-Moves (λ t.
        either (not (t == b',') && not (t == b';')) (after (expect-Moves b'}') (λ _. give-Moves r))
          (after next-Moves (λ _. after peek-Moves (λ t'.
            either (not (t' == b'}')) (table_loop-Moves n r)
              (after next-Moves (λ _. give-Moves r))))))))

  pub parse_table-Moves : Stays base (parse_table w g)
  unfolding parse_table
  parse_table-Moves = after newvar-Moves (λ v. after (emit-Moves ir_op_newtbl 0 0 v) (λ r.
      after (expect-Moves b'{') (λ _. after peek-Moves (λ t.
        either (t == b'}') (after next-Moves (λ _. give-Moves r)) (table_loop-Moves g.rounds r)))))

  args_emit-Moves : (args : List ℕ) → Stays base (args_emit args)
  unfolding args_emit
  args_emit-Moves [] = give-Moves 0
  args_emit-Moves (a ∷ args) =
      after (emit-Moves ir_op_arg a ir_no_arg ir_no_target)
        (λ _. after (args_emit-Moves args) (λ n. give-Moves (n + 1)))

  some_arg-Moves : (arg : ℕ) → Stays base (some_arg arg)
  unfolding some_arg
  some_arg-Moves arg = either (arg == parse_none) (expect-Moves no_token) (give-Moves tt)

  push_arg-Moves : (args : List ℕ) (arg : ℕ) → Stays base (push_arg args arg)
  unfolding push_arg
  push_arg-Moves args arg i k =
      run-Moves _ (λ p lv. leaves-if (leb 256 (length args)) faulted (left lv))

  args_loop-Moves : (n : ℕ) (args : List ℕ) → Stays base (args_loop g n args)
  unfolding args_loop
  args_loop-Moves zero args = λ i k. never-Moves
  args_loop-Moves (suc n) args = after bal.expr (λ arg. after (some_arg-Moves arg) (λ _.
      after (push_arg-Moves args arg) (λ args'. after peek-Moves (λ t.
        either (t == b',') (after next-Moves (λ _. args_loop-Moves n args'))
          (args_emit-Moves args')))))

  parse_args-Moves : Stays base (parse_args g)
  unfolding parse_args
  parse_args-Moves =
      after peek-Moves (λ t. either (t == b')') (give-Moves 0) (args_loop-Moves g.rounds []))

  parse_call-Moves : (id : ℕ) → Stays base (parse_call g id)
  unfolding parse_call
  parse_call-Moves id = after next-Moves (λ _. after parse_args-Moves (λ nargs.
      after (expect-Moves b')') (λ _. after newvar-Moves (λ v. emit-Moves ir_op_call id nargs v))))

  parse_call_single_arg-Moves : (id : ℕ) → Stays base (parse_call_single_arg g id)
  unfolding parse_call_single_arg
  parse_call_single_arg-Moves id = after bal.expr (λ arg. after (some_arg-Moves arg) (λ _.
      after (emit-Moves ir_op_arg arg ir_no_arg ir_no_target)
        (λ _. after newvar-Moves (λ v. emit-Moves ir_op_call id 1 v))))

  load_name-Moves : (t : Name) → Stays base (load_name w t)
  unfolding load_name
  load_name-Moves t = after (parser_sym-Moves w t) (λ r.
      either (r == 2 ^ 32 - 1)
        (after (ctt_string-Moves w t.start t.size)
          (λ field. after newvar-Moves (λ v. emit-Moves ir_op_gload field ir_no_arg v)))
        (assigned-Moves r))

  pub parse_id-Moves : Stays base (parse_id w g)
  unfolding parse_id
  parse_id-Moves = after tk-Moves (λ t. after (load_name-Moves t) (λ r. after next-Moves (λ _.
      after peek-Moves (λ t'.
        either (t' == b'(') (parse_call-Moves r)
          (either (t' == lex_str || t' == b'{') (parse_call_single_arg-Moves r) (give-Moves r))))))
