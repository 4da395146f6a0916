-- ===== src/Parser/Closed.antt =====
-- What a statement, a loop and a whole text leave behind in the parser.
use minilua.Common.{
  ℕ, ◌*◌, ◌≤◌, ◌<◌, ◌≡◌, ◌≢◌, refl, ◌∙◌, sym, subst, ◌==◌, ==_false, if◌then◌else◌, [], inr, arith,
}
use minilua.Lex.Codes.{lex_local, lex_do}
use minilua.Ir.{Ir}
use minilua.Rhhm.{rhhm_init}
use minilua.Strings.{Pool}
use minilua.Parser.{Parser, Parsed, World, parsed}
use minilua.Parser.Do.{give}
use minilua.Parser.Next.{tp, peek, parser_init, parser_next}
use minilua.Parser.Grammar.{parse_none}
use minilua.Parser.Loops.{parse_repeat}
use minilua.Parser.Statement.{
  parse_local, parse_do, parse_statement, statement_of, grammar, parse_chunk,
}
use minilua.Parser.Balance.{Ends, Moves, Level}
use minilua.Parser.Balance.Tokens.{parser_next-Moves}
use minilua.Parser.Balance.Blocks.{grammar-Balanced, repeat-Moves, statement_of-Moves, rest-Moves}

here : (p : Parser) → p.cdepth ≡ p.c.phidepth → Level p 0 0 p
here p e = record { depth = omega arith; stack = refl; frames = omega arith; in_step = e }

ended :
    {base : Parser} {k : ℕ} (m : Parsed ℕ) {r : ℕ} {p' : Parser}
    → m ≡ parsed r p'
    → Ends (Level base 0 k) m
    → Level base 0 k p'
ended {base} {k} m e h = subst (Ends (Level base 0 k)) e h

-- Every statement but a `local` one that returns has the depth, the undo stack of scopes and at
-- least as many frames of phi functions as there were before it, if the frames of the parser and of
-- the code were as many; they are then as many again.
pub statement_closes :
    (w : World) (n : ℕ) (p : Parser) {r : ℕ} {p' : Parser}
    → tp p ≢ lex_local
    → p.cdepth ≡ p.c.phidepth
    → parse_statement w (grammar w n) p ≡ parsed r p'
    → (p'.depth ≡ p.depth)
      × (p'.scope ≡ p.scope)
      × (p.cdepth ≤ p'.cdepth)
      × (p'.cdepth ≡ p'.c.phidepth)
unfolding parse_statement peek
statement_closes w n p other e ran =
    let g = grammar w n in
    let bal = grammar-Balanced p w n in
    let rest : Moves p ℕ 0 0 0 0 (
        if tp p == lex_local
        then parse_local w g
        else (if tp p == lex_do then parse_do w g else give parse_none)) =
      rw (==_false _ _ other) (rest-Moves w g bal (tp p) 0 0) in
    let m = statement_of-Moves w g bal (tp p) 0 0 rest in
    let lv = ended (statement_of w g (tp p) p) ran (m.apply p (here p e)) in
    (lv.depth ∙ omega arith, lv.stack, (let f = lv.frames in omega arith), lv.in_step)

-- A `repeat` loop that returns leaves more frames of phi functions than there were before it, in the
-- parser and in the code: `parser_phi_commit` is not called for it.
pub repeat_leaks :
    (w : World) (n : ℕ) (p : Parser) {r : ℕ} {p' : Parser}
    → p.cdepth ≡ p.c.phidepth
    → parse_repeat w (grammar w n) p ≡ parsed r p'
    → (p.cdepth < p'.cdepth) × (p.c.phidepth < p'.c.phidepth)
repeat_leaks w n p e ran =
    let m = repeat-Moves w (grammar w n) (grammar-Balanced p w n) 0 0 in
    let lv = ended (parse_repeat w (grammar w n) p) ran (m.apply p (here p e)) in
    let f = lv.frames in let st = lv.in_step in (omega arith, omega arith)

-- After a whole text, from `parser_init` on with code that has no frame, the parser is outside of
-- all scopes with an empty undo stack, and has as many frames as the code.
pub text_closes :
    (w : World) (n : ℕ) (l : Pool) (c : Ir) (s : ℕ) (p₀ : Parser) {r : ℕ} {p p' : Parser}
    → c.phidepth ≡ 0
    → parser_init l c s p₀ ≡ parsed 0 p
    → parse_chunk w n p ≡ parsed r p'
    → (p'.depth ≡ 0) × (p'.scope ≡ []) × (p'.cdepth ≡ p'.c.phidepth)
unfolding parser_init parse_chunk
text_closes w n l c s p₀ {p = p} none_yet started ran =
    let base = record p₀ {
      sym = rhhm_init (4096 * 2) 0;
      assignment = λ v. 0;
      c = c;
      s = s;
      pool = l;
      depth = 0;
      cdepth = 0;
      scope = [];
    } in
    let first =
      ended (parser_next base) started
        ((parser_next-Moves 0 0).apply base (here base (sym none_yet))) in
    let bal = grammar-Balanced base w n in
    let lv = ended ((grammar w n).chunk p) ran ((bal.chunk 0 0 (inr refl)).apply p first) in
    (lv.depth, lv.stack, lv.in_step)
