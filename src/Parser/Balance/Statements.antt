-- ===== src/Parser/Balance/Statements.antt =====
-- Assignments, conditionals and loops: names are declared in the innermost scope only, and a scope
-- that is entered is left.
use minilua.Common.{
  ℕ, zero, suc, ◌+◌, ◌-◌, ◌^◌, Bool, true, false, not, ◌==◌, ◌&&◌, ◌||◌, leb, ltb, ◌≡◌, refl, inl,
  arith,
}
use minilua.Lex.Codes.{lex_end, lex_then, lex_else, lex_elseif}
use minilua.Ir.{Ir, write}
use minilua.Ir.Ops.{
  ir_op_lcopy, ir_op_gstore, ir_op_noop, ir_op_jmp, ir_op_jz, ir_no_arg, ir_no_target, phi_cond,
}
use minilua.Ir.Commit.{upd}
use minilua.Parser.{Parser, World, Name}
use minilua.Parser.Grammar.{Grammar}
use minilua.Parser.Assignment.{
  Saved, parser_save, parser_restore, define_local, local_assignment, copy_unless, assign_global,
  sym_phi_depth, set_sym_cdepth, phi_depth, phi_ins, rename_phi, rename_local, assign_local,
  assign_name, assign_expr, parse_assignment,
}
use minilua.Parser.If.{
  back_up, back_up_loop, bring_back_loop, frame, back_up_phis, bring_back_phis, parse_else,
  branches, parse_if,
}
use minilua.Parser.Balance.{
  Stays, Moves, Leaves, Level, seq, branch, after, either, give-Moves, run-Moves, left, faulted,
}
use minilua.Parser.Balance.Code.{
  InFrame, emit-Moves, newvar-Moves, ctt_string-Moves, assign-Moves, assigned-Moves,
  set_target-Moves, on_ir-Moves, phi_ins_keeps, leaves-if, same-Level,
}
use minilua.Parser.Balance.Tokens.{next-Moves, expect-Moves, peek-Moves}
use minilua.Parser.Balance.Scopes.{
  Open, parser_enter-Moves, parser_exit-Moves, parser_newsym-Moves, parser_sym-Moves,
}
use minilua.Parser.Balance.Frames.{parser_phi_begin-Moves, parser_phi_commit-Moves}
use minilua.Parser.Balance.Functions.{Balanced, tk-Moves, current-Moves}

module _ {base : Parser} where
  pub save-Moves : Stays base parser_save
  unfolding parser_save
  save-Moves i k = record { apply = λ p lv. lv }

  restore-Moves : (state : Saved) → Stays base (parser_restore state)
  unfolding parser_restore
  restore-Moves state i k = record { apply = λ p lv. same-Level _ lv refl refl refl refl }

  phi_depth-Moves : Stays base phi_depth
  unfolding phi_depth
  phi_depth-Moves i k = record { apply = λ p lv. lv }

  frame-Moves : Stays base frame
  unfolding frame
  frame-Moves i k = record { apply = λ p lv. lv }

  copy_unless-Moves : (a n r : ℕ) → Stays base (copy_unless a n r)
  unfolding copy_unless
  copy_unless-Moves a n r =
      either (not (a == n)) (emit-Moves ir_op_lcopy a ir_no_arg n) (give-Moves r)

  sym_phi_depth-Moves : (v : ℕ) → Stays base (sym_phi_depth v)
  unfolding sym_phi_depth
  sym_phi_depth-Moves v i k = run-Moves _ (λ p lv. leaves-if (leb 65536 v) faulted (left lv))

  set_sym_cdepth-Moves : (v d : ℕ) → Stays base (set_sym_cdepth v d)
  unfolding set_sym_cdepth
  set_sym_cdepth-Moves v d i k =
      run-Moves _
        (λ p lv. leaves-if (leb 65536 v) faulted (left (same-Level _ lv refl refl refl refl)))

  phi_ins-Moves : (v old : ℕ) → Stays base (phi_ins v old)
  unfolding phi_ins
  phi_ins-Moves v old = on_ir-Moves _ (λ c. phi_ins_keeps c v old)

  rename_phi-Moves : (n old : ℕ) → Stays base (rename_phi n old)
  unfolding rename_phi
  rename_phi-Moves n old = after phi_depth-Moves (λ cdepth.
      after (sym_phi_depth-Moves old) (λ outer.
        either (not (cdepth == 0) && ltb outer cdepth)
          (after (phi_ins-Moves n old) (λ _. set_sym_cdepth-Moves n outer)) (give-Moves tt)))

  rename_local-Moves : (r : ℕ) → Stays base (rename_local r)
  unfolding rename_local
  rename_local-Moves r = after newvar-Moves (λ n. after (assigned-Moves r) (λ old.
      after (assign-Moves n r) (λ _. after phi_depth-Moves (λ cdepth.
        after (set_sym_cdepth-Moves n cdepth) (λ _.
          after (rename_phi-Moves n old) (λ _. after (assign-Moves r n) (λ _. give-Moves n)))))))

module _ {base : Parser} (w : World) (g : Grammar) (bal : Balanced base g) where
  define_local-Moves :
      (t : Name) (i k : ℕ) → Open base i → Moves base ℕ i k i k (define_local w g t)
  unfolding define_local
  define_local-Moves t i k o = seq (parser_newsym-Moves w t i k o) (λ r.
      seq (assign-Moves r r i k) (λ _.
        seq (next-Moves i k)
          (λ _. seq (bal.expr i k) (λ a. emit-Moves ir_op_lcopy a ir_no_arg r i k))))

  local_assignment-Moves :
      (t : Name) (i k : ℕ) → Open base i → Moves base ℕ i k i k (local_assignment w g t)
  unfolding local_assignment
  local_assignment-Moves t i k o =
      seq (peek-Moves i k)
        (λ t'. branch (t' == b'=') (define_local-Moves t i k o) (give-Moves 0 i k))

  assign_global-Moves : (t : Name) → Stays base (assign_global w g t)
  unfolding assign_global
  assign_global-Moves t = after (ctt_string-Moves w t.start t.size) (λ field.
      after newvar-Moves (λ n. after (assign-Moves n n) (λ _. after next-Moves (λ _.
        after bal.expr (λ a.
          after (copy_unless-Moves a n n) (λ r. emit-Moves ir_op_gstore field r ir_no_target))))))

  assign_local-Moves : (r : ℕ) → Stays base (assign_local g r)
  unfolding assign_local
  assign_local-Moves r =
      after (rename_local-Moves r)
        (λ n. after next-Moves (λ _. after bal.expr (λ a. copy_unless-Moves a n r)))

  assign_name-Moves : (t : Name) → Stays base (assign_name w g t)
  unfolding assign_name
  assign_name-Moves t =
      after (parser_sym-Moves w t)
        (λ r. either (r == 2 ^ 32 - 1) (assign_global-Moves t) (assign_local-Moves r))

  assign_expr-Moves : (state : Saved) → Stays base (assign_expr g state)
  unfolding assign_expr
  assign_expr-Moves state = after (restore-Moves state) (λ _. after bal.expr (λ r.
      after peek-Moves (λ t.
        either (t == b'=')
          (after next-Moves (λ _. after bal.expr (λ a. emit-Moves ir_op_lcopy a ir_no_arg r)))
          (give-Moves r))))

  -- without `local`, nothing is declared
  pub reassignment-Moves : Stays base (parse_assignment w g false)
  unfolding parse_assignment
  reassignment-Moves = after save-Moves (λ state. after tk-Moves (λ t. after next-Moves (λ _.
      after peek-Moves
        (λ t'. either (t' == b'=') (assign_name-Moves t) (assign_expr-Moves state)))))

  pub definition-Moves : (i k : ℕ) → Open base i → Moves base ℕ i k i k (parse_assignment w g true)
  unfolding parse_assignment
  definition-Moves i k o = seq (save-Moves i k) (λ state. seq (tk-Moves i k) (λ t.
      seq (next-Moves i k) (λ _. seq (peek-Moves i k) (λ t'. local_assignment-Moves t i k o))))

  back_up_loop-Leaves :
      (i k fuel n : ℕ) (p : Parser)
      → Level base i k p
      → Leaves (Level base i k) (back_up_loop fuel n p)
  unfolding back_up_loop
  back_up_loop-Leaves i k zero n p lv = faulted
  back_up_loop-Leaves i k (suc fuel) n p lv = leaves-if ((p.c.ops n).op == ir_op_noop) (left lv) (
      leaves-if (leb 32768 (p.c.ops n).b) faulted (
        back_up_loop-Leaves i k fuel (n + 1) _ (
          same-Level
            (record p {
              assignment = upd p.assignment (p.c.ops n).b (p.c.ops n).b;
              c = record p.c { ops = write p.c.ops n (back_up (p.c.ops n).b (p.c.ops n)) };
            })
            lv refl refl refl refl)))

  back_up_phis-Moves : Stays base back_up_phis
  unfolding back_up_phis
  back_up_phis-Moves = after frame-Moves (λ n.
      after (λ i k. run-Moves _ (λ p lv. back_up_loop-Leaves i k (65536 - n) n p lv))
        (λ _. give-Moves n))

  bring_back_loop_keeps :
      (fuel n d : ℕ) (c : Ir) → c.phidepth ≡ d → InFrame d (bring_back_loop fuel n c)
  unfolding bring_back_loop
  bring_back_loop_keeps zero n d c e = faulted
  bring_back_loop_keeps (suc fuel) n d c e =
      leaves-if ((c.ops n).op == ir_op_noop) (left e) (bring_back_loop_keeps fuel (n + 1) d _ e)

  bring_back_phis-Moves : (n : ℕ) → Stays base (bring_back_phis n)
  unfolding bring_back_phis
  bring_back_phis-Moves n =
      on_ir-Moves _ (λ c. bring_back_loop_keeps (65536 - n) n c.phidepth c refl)

  parse_else-Moves :
      (elif : Bool) (c i k : ℕ) → Open base i → Moves base ℕ i k i k (parse_else g elif c)
  unfolding parse_else
  parse_else-Moves elif c i k o = seq (back_up_phis-Moves i k) (λ n. seq (current-Moves i k) (λ b.
      seq (emit-Moves ir_op_jmp ir_no_arg ir_no_arg 0 i k) (λ _. seq (current-Moves i k) (λ here.
        seq (set_target-Moves c here i k) (λ _.
          seq (branch (not elif) (seq (next-Moves i k) (λ _. bal.chunk i k o)) (bal.cond i k))
            (λ _. seq (bring_back_phis-Moves n i k) (λ _. give-Moves b i k)))))))

  branches-Moves : (t c i k : ℕ) → Open base i → Moves base ℕ i k i k (branches g t c)
  unfolding branches
  branches-Moves t c i k o =
      branch (t == lex_else || t == lex_elseif) (parse_else-Moves (t == lex_elseif) c i k o)
        (give-Moves c i k)

  pub parse_if-Moves : Stays base (parse_if w g)
  unfolding parse_if
  parse_if-Moves i k =
      let o : Open base (suc i) = inl (omega arith) in
      seq (next-Moves i k) (λ _. seq (parser_enter-Moves i k) (λ _.
        seq (parser_phi_begin-Moves phi_cond (suc i) k) (λ _. seq (bal.expr (suc i) (suc k)) (λ r.
          seq (current-Moves (suc i) (suc k)) (λ c.
            seq (emit-Moves ir_op_jz r ir_no_arg 0 (suc i) (suc k)) (λ _.
              seq (expect-Moves lex_then (suc i) (suc k)) (λ _.
                seq (bal.chunk (suc i) (suc k) o) (λ _. seq (peek-Moves (suc i) (suc k)) (λ t.
                  seq (branches-Moves t c (suc i) (suc k) o) (λ c'.
                    seq (current-Moves (suc i) (suc k)) (λ here.
                      seq (set_target-Moves c' here (suc i) (suc k)) (λ _.
                        seq
                          (branch (not (t == lex_elseif)) (expect-Moves lex_end (suc i) (suc k))
                            (give-Moves tt (suc i) (suc k)))
                          (λ _. seq (parser_phi_commit-Moves (suc i) k) (λ _.
                            seq (parser_exit-Moves w i k) (λ _. give-Moves r i k)))))))))))))))
