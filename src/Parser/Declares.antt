-- ===== src/Parser/Declares.antt =====
-- What a statement declares: a `local` one puts at most its one name on the undo stack of scopes.
use minilua.Common.{
  ℕ, ◌+◌, ◌-◌, ◌%◌, ◌≤◌, ◌≡◌, ◌⊎◌, inl, inr, refl, ◌∙◌, sym, ap, subst, Bool, true, false, ◌==◌,
  leb, ltb, if◌then◌else◌, ◌∷◌, length, some, done, fault, arith,
}
use minilua.Lex.Codes.{lex_local, lex_function, lex_id}
use minilua.Ir.{ir_newvar}
use minilua.Ir.Commit.{upd}
use minilua.Ir.Ops.{ir_op_lcopy, ir_no_arg}
use minilua.Rhhm.Strings.{rhhm_insert_str}
use minilua.Parser.{Parser, Parse, World, Name, parsed, run}
use minilua.Parser.Do.{◌>>=◌}
use minilua.Parser.Scope.{parser_newsym, parser_scope_push}
use minilua.Parser.Next.{peek, tp}
use minilua.Parser.Grammar.{Grammar}
use minilua.Parser.Assignment.{define_local, local_assignment, parse_assignment}
use minilua.Parser.Statement.{parse_local, statement_of, parse_statement, grammar}
use minilua.Parser.Balance.{
  Ends, Ends-bind, Ends-map, Ends-run, Stays, Moves, Level, left, faulted, after, give-Moves,
}
use minilua.Parser.Balance.Code.{emit-Moves, assign-Moves, leaves-bind, leaves-if}
use minilua.Parser.Balance.Tokens.{next-Moves, peek-Moves}
use minilua.Parser.Balance.Scopes.{Holds, leaves-state}
use minilua.Parser.Balance.Functions.{Balanced, tk-Moves, parse_function-Moves}
use minilua.Parser.Balance.Statements.{save-Moves}
use minilua.Parser.Balance.Blocks.{grammar-Balanced}

-- the scopes of `base`, and at most one name more
pub record Declares (base p : Parser) : Type 0 where
  pub depth : p.depth ≡ base.depth
  pub scope : (p.scope ≡ base.scope) ⊎ ((t : Name) × (p.scope ≡ some t ∷ base.scope))
  pub frames : base.cdepth ≤ p.cdepth
  pub in_step : p.cdepth ≡ p.c.phidepth

module _ (base : Parser) where
  -- a step from the level of `base` that declares one name at most
  record Gains (A : Type 0) (m : Parse A) : Type 0 where
    apply : (p : Parser) → Level base 0 0 p → Ends (Declares base) (m p)

module _ {base : Parser} where
  Level-Declares : {p : Parser} → Level base 0 0 p → Declares base p
  Level-Declares lv = record {
    depth = (let d = lv.depth in omega arith);
    scope = inl lv.stack;
    frames = (let f = lv.frames in omega arith);
    in_step = lv.in_step;
  }

  Gains-none : {A : Type 0} {m : Parse A} → Moves base A 0 0 0 0 m → Gains base A m
  Gains-none {m = m} h = record {
    apply = λ p lv.
        Ends-map (Level base 0 0) (Declares base) (m p) (λ p' e. Level-Declares e) (h.apply p lv);
  }

  Gains-after :
      {A B : Type 0} {m : Parse A} {f : A → Parse B}
      → Stays base m
      → ((a : A) → Gains base B (f a))
      → Gains base B (m >>= f)
  Gains-after {m = m} {f = f} h k = record {
    apply = λ p lv.
        Ends-bind (Level base 0 0) (Declares base) (m p) f ((h 0 0).apply p lv)
          (λ a p'. (k a).apply p');
  }

  Gains-if :
      {A : Type 0} (b : Bool) {m n : Parse A}
      → Gains base A m
      → Gains base A n
      → Gains base A (if b then m else n)
  Gains-if true hm hn = hm
  Gains-if false hm hn = hn

  -- what stays at the level of any parser adds nothing to what has been declared
  further : {p : Parser} {p' : Parser} → Declares base p → Level p 0 0 p' → Declares base p'
  further d lv = record {
    depth = (let x = d.depth in let y = lv.depth in omega arith);
    scope =
        (let same = lv.stack in
          elim d.scope [ inl e ↦ inl (same ∙ e) | inr (t, e) ↦ inr (t, same ∙ e) ]);
    frames = (let x = d.frames in let y = lv.frames in omega arith);
    in_step = lv.in_step;
  }

  Gains-then :
      {A B : Type 0} {m : Parse A} {f : A → Parse B}
      → Gains base A m
      → ((q : Parser) (a : A) → Stays q (f a))
      → Gains base B (m >>= f)
  Gains-then {m = m} {f = f} h k = record {
    apply = λ p lv. Ends-bind (Declares base) (Declares base) (m p) f (h.apply p lv) (λ a p' d.
        Ends-map (Level p' 0 0) (Declares base) (f a p') (λ p'' e. further d e)
          ((k p' a 0 0).apply p' (record {
            depth = omega arith;
            stack = refl;
            frames = omega arith;
            in_step = d.in_step;
          })));
  }

  pushed-Declares :
      (p : Parser) (t : Name)
      → Level base 0 0 p
      → Holds (Declares base) (if p.depth == 0 then done p else parser_scope_push (some t) p)
  unfolding parser_scope_push
  pushed-Declares p t lv = outside (p.depth == 0) (leb 128 (length p.scope))
    where
      outside :
          (b full : Bool)
          → Holds (Declares base) (
              if b
              then done p
              else if full
              then fault
              else done (record p { scope = some t ∷ p.scope }))
      outside true full = Level-Declares lv
      outside false true = tt
      outside false false = record {
        depth = (let d = lv.depth in omega arith);
        scope = inr (t, ap (λ s. some t ∷ s) lv.stack);
        frames = (let f = lv.frames in omega arith);
        in_step = lv.in_step;
      }

  parser_newsym-Gains : (w : World) (t : Name) → Gains base ℕ (parser_newsym w t)
  unfolding parser_newsym ir_newvar run
  parser_newsym-Gains w t = record {
    apply = λ p lv. Ends-run (Declares base) _ (
        leaves-if (ltb 256 (t.size + 1)) faulted (
          leaves-state (Declares base) (Declares base)
            (if p.depth == 0 then done p else parser_scope_push (some t) p) _
            (pushed-Declares p t lv)
            (λ p₁ d. leaves-if (leb 65536 p₁.c.iv) faulted (
              leaves-bind
                (rhhm_insert_str (upd p₁.mem (t.start - 1) (p₁.depth % 256)) w.has_memory p₁.sym
                  (t.start - 1) (t.size + 1) p₁.c.iv)
                (λ sym. left (record {
                  depth = d.depth;
                  scope = d.scope;
                  frames = d.frames;
                  in_step = d.in_step;
                }))))));
  }

module _ {base : Parser} (w : World) (g : Grammar) (bal : (b : Parser) → Balanced b g) where
  define_local-Gains : (t : Name) → Gains base ℕ (define_local w g t)
  unfolding define_local
  define_local-Gains t = Gains-then (parser_newsym-Gains w t) (λ q r. after (assign-Moves r r) (λ _.
      after next-Moves (λ _. after ((bal q).expr) (λ a. emit-Moves ir_op_lcopy a ir_no_arg r))))

  definition-Gains : Gains base ℕ (parse_assignment w g true)
  unfolding parse_assignment local_assignment
  definition-Gains = Gains-after save-Moves (λ state. Gains-after tk-Moves (λ t.
      Gains-after next-Moves (λ _. Gains-after peek-Moves (λ t'.
        Gains-after peek-Moves
          (λ t''. Gains-if (t'' == b'=') (define_local-Gains t) (Gains-none (give-Moves 0 0 0)))))))

  parse_local-Gains : Gains base ℕ (parse_local w g)
  unfolding parse_local
  parse_local-Gains = Gains-after next-Moves (λ _. Gains-after peek-Moves (λ t.
      Gains-if (t == lex_function) (Gains-none (parse_function-Moves w g true false (bal base) 0 0))
        (Gains-if (t == lex_id) definition-Gains (record { apply = λ p lv. tt }))))

local_first :
    (w : World) (g : Grammar) (t : ℕ) → t ≡ lex_local → statement_of w g t ≡ parse_local w g
unfolding statement_of
local_first w g t e = ap (statement_of w g) e

-- A `local` statement that returns leaves the depth as it was, puts at most one name on the undo
-- stack of scopes and takes nothing off it, and leaves no fewer frames of phi functions, if the
-- frames of the parser and of the code were as many; they are then as many again.
pub local-Declares :
    (w : World) (n : ℕ) (p : Parser) {r : ℕ} {p' : Parser}
    → tp p ≡ lex_local
    → p.cdepth ≡ p.c.phidepth
    → parse_statement w (grammar w n) p ≡ parsed r p'
    → Declares p p'
unfolding parse_statement peek
local-Declares w n p is_local e ran =
    let g = grammar w n in
    let m =
      (parse_local-Gains {base = p} w g (λ b. grammar-Balanced b w n)).apply p
        (record { depth = omega arith; stack = refl; frames = omega arith; in_step = e }) in
    subst (Ends (Declares p))
      (ap (λ (m : Parse ℕ). m p) (sym (local_first w g (tp p) is_local)) ∙ ran) m
