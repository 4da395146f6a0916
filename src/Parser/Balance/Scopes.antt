-- ===== src/Parser/Balance/Scopes.antt =====
-- The steps that enter and leave scopes and frames of phi functions, and those that declare symbols.
use minilua.Common.{
  ℕ, zero, suc, ◌+◌, ◌-◌, ◌≤◌, ◌<◌, ◌≡◌, ◌⊎◌, inl, inr, refl, ◌∙◌, sym, ap, Bool, true, false, ◌==◌,
  leb, ltb, if◌then◌else◌, List, [], ◌∷◌, length, Option, none, some, Run, done, fault, stuck,
  ◌>>=◌, Bool-cases, ◌%◌, arith,
}
use minilua.Rhhm.{Rhhm}
use minilua.Rhhm.Strings.{rhhm_remove_str, rhhm_insert_str}
use minilua.Ir.{ir_newvar}
use minilua.Ir.Commit.{upd}
use minilua.Parser.{Parser, World, Name}
use minilua.Parser.Scope.{
  parser_enter, parser_exit, parser_sym, parser_newsym, parser_scope_push, exit_loop, sym_loop,
  with_key,
}
use minilua.Parser.Balance.{Stack, Level, Stays, Moves, Leaves, left, faulted, looped, run-Moves}
use minilua.Parser.Balance.Code.{leaves-bind, leaves-if, same-Level}

-- Symbols are put on the stack inside of a scope only, or outside of all.
abbrev pub Open : Parser → ℕ → Type 0
Open base i = (0 < i) ⊎ (base.depth ≡ 0)

abbrev pub Holds : (Parser → Type 0) → Run Parser → Type 0
Holds R (done p) = R p
Holds R fault = Unit
Holds R stuck = Unit

pub leaves-state :
    {A : Type 0} (R Q : Parser → Type 0) (r : Run Parser) (f : Parser → Run (A × Parser))
    → Holds R r
    → ((p : Parser) → R p → Leaves Q (f p))
    → Leaves Q (r >>= f)
leaves-state R Q (done p) f e h = h p e
leaves-state R Q fault f e h = faulted
leaves-state R Q stuck f e h = looped

module _ {base : Parser} where
  pub parser_enter-Moves : (i k : ℕ) → Moves base (Unit {0}) i k (suc i) k parser_enter
  unfolding parser_enter parser_scope_push
  parser_enter-Moves i k = run-Moves _ (λ p lv. full (leb 128 (length p.scope)) p lv)
    where
      full :
          (b : Bool) (p : Parser)
          → Level base i k p
          → Leaves {A = Unit {0}} (Level base (suc i) k) (
              (if b then fault else done (record p { depth = p.depth + 1; scope = none ∷ p.scope }))
              >>= λ p'. done (tt, p'))
      full true p lv = faulted
      full false p lv = left (record {
        depth = ap (λ (n : ℕ). n + 1) lv.depth ∙ omega arith;
        stack = lv.stack;
        frames = lv.frames;
        in_step = lv.in_step;
      })

  -- `exit_loop` takes the names above the highest mark, and the mark.
  exit_loop-Leaves :
      (w : World) (i k d : ℕ) (p : Parser) (scope : List (Option Name))
      → p.depth ≡ base.depth + suc i
      → Stack base.scope (suc i) scope
      → base.cdepth + k ≤ p.cdepth
      → p.cdepth ≡ p.c.phidepth
      → Leaves {A = Unit {0}}
          (Level base i k)
          (exit_loop w p scope >>= λ p'. done (tt, record p' { depth = p'.depth - 1 }))
  unfolding exit_loop
  exit_loop-Leaves w i k d p [] de st fr is = faulted
  exit_loop-Leaves w i k d p (none ∷ scope) de st fr is = left (record {
    depth = ap (λ (n : ℕ). n - 1) de ∙ omega arith;
    stack = st;
    frames = fr;
    in_step = is;
  })
  exit_loop-Leaves w i k d p (some t ∷ scope) de st fr is =
      removed (rhhm_remove_str (with_key w p.mem p.depth t) p.sym w.key (t.size + 1))
        (λ sym. exit_loop-Leaves w i k d (record p { sym = sym }) scope de st fr is)
    where
      removed :
          (r : Run Rhhm)
          → ((sym : Rhhm)
              → Leaves {A = Unit {0}} (Level base i k) (
                  exit_loop w (record p { sym = sym }) scope >>= λ p'.
                  done (tt, record p' { depth = p'.depth - 1 })))
          → Leaves {A = Unit {0}} (Level base i k) (
              (r >>= λ sym. exit_loop w (record p { sym = sym }) scope) >>= λ p'.
              done (tt, record p' { depth = p'.depth - 1 }))
      removed (done sym) h = h sym
      removed fault h = faulted
      removed stuck h = looped

  pub parser_exit-Moves :
      (w : World) (i k : ℕ) → Moves base (Unit {0}) (suc i) k i k (parser_exit w)
  unfolding parser_exit
  parser_exit-Moves w i k =
      run-Moves _
        (λ p lv. exit_loop-Leaves w i k 0 p p.scope lv.depth lv.stack lv.frames lv.in_step)

  pub parser_sym-Moves : (w : World) (t : Name) → Stays base (parser_sym w t)
  unfolding parser_sym
  parser_sym-Moves w t i k = run-Moves _ (λ p lv. leaves-if (ltb 256 (t.size + 1)) faulted (
      leaves-if (ltb (p.end + 1) (t.start + t.size)) faulted
        (leaves-bind (sym_loop w p t p.depth) (λ r. left lv))))

  -- a name on the stack of an open scope
  push-Level :
      (i k : ℕ) (p : Parser) (t : Name)
      → Open base i
      → Level base i k p
      → (p.depth == 0) ≡ false
      → Level base i k (record p { scope = some t ∷ p.scope })
  push-Level zero k p t (inl lt) lv e = absurd (omega arith)
  push-Level zero k p t (inr top) lv e = absurd (absent (lv.depth ∙ ap (λ (n : ℕ). n + 0) top) e)
    where
      absent : p.depth ≡ 0 → (p.depth == 0) ≡ false → ⊥
      absent d e = ground arith
  push-Level (suc i) k p t o lv e = record {
    depth = lv.depth;
    stack = lv.stack;
    frames = lv.frames;
    in_step = lv.in_step;
  }

  pushed-Level :
      (i k : ℕ) (p : Parser) (t : Name)
      → Open base i
      → Level base i k p
      → Holds (Level base i k) (if p.depth == 0 then done p else parser_scope_push (some t) p)
  unfolding parser_scope_push
  pushed-Level i k p t o lv = elim (Bool-cases (p.depth == 0)) [
    | inl top ↦ rw top lv
    | inr inside ↦ rw inside (full (leb 128 (length p.scope)) (push-Level i k p t o lv inside))
  ]
    where
      full :
          (b : Bool)
          → Level base i k (record p { scope = some t ∷ p.scope })
          → Holds
              (Level base i k)
              (if b then fault else done (record p { scope = some t ∷ p.scope }))
      full true lv' = tt
      full false lv' = lv'

  pub parser_newsym-Moves :
      (w : World) (t : Name) (i k : ℕ) → Open base i → Moves base ℕ i k i k (parser_newsym w t)
  unfolding parser_newsym ir_newvar
  parser_newsym-Moves w t i k o = run-Moves _ (λ p lv. leaves-if (ltb 256 (t.size + 1)) faulted (
      leaves-state (Level base i k) _
        (if p.depth == 0 then done p else parser_scope_push (some t) p) _
        (pushed-Level i k p t o lv)
        (λ p₁ lv₁. leaves-if (leb 65536 p₁.c.iv) faulted (
          leaves-bind
            (rhhm_insert_str (upd p₁.mem (t.start - 1) (p₁.depth % 256)) w.has_memory p₁.sym
              (t.start - 1) (t.size + 1) p₁.c.iv)
            (λ sym. left (same-Level _ lv₁ refl refl refl refl))))))
