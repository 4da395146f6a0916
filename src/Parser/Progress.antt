-- ===== src/Parser/Progress.antt =====
-- `parser_next` of parser.c moves ahead in the text, up to a token or to where `lex` gives up.
use minilua.Common.{
  ℕ, zero, suc, ◌+◌, ◌-◌, ◌≤◌, ◌<◌, ◌≡◌, ◌≢◌, refl, ◌∙◌, ap, subst, if◌then◌else◌, length, Option,
  none, some, Run, done, fault, stuck, Bool-cases, inl, inr, arith,
}
use minilua.Rhhm.Strings.{read_str}
use minilua.Lex.{lex}
use minilua.Lex.Progress.{Fits, lex-Fits}
use minilua.Lex.Codes.{Token, lex_blanks, lex_comment}
use minilua.Parser.{Parser}
use minilua.Parser.Next.{text, refused, taken, is_skipped, next_loop, tp}

length-read_str : (mem : ℕ → ℕ) (s n : ℕ) → length (read_str mem s n) ≡ n
unfolding read_str
length-read_str mem s zero = refl
length-read_str mem s (suc n) = ap suc (length-read_str mem (s + 1) n)

length-text : (p : Parser) → length (text p) ≡ p.end - p.s
unfolding text
length-text p = length-read_str p.mem p.s (p.end - p.s)

-- a token behind what was skipped, a text that `lex` refuses, or one that it reads beyond
pub record Reads (p p' : Parser) : Type 0 where
  pub no_blanks : tp p' ≢ lex_blanks
  pub no_comment : tp p' ≢ lex_comment
  pub ahead : p.s < p'.s
  pub inside : p'.s ≤ p'.end
  pub same_end : p'.end ≡ p.end

pub record GivesUp (p p' : Parser) : Type 0 where
  pub refuses : lex (text p') ≡ done none
  pub ahead : p.s ≤ p'.s
  pub inside : p'.s ≤ p'.end
  pub same_end : p'.end ≡ p.end

abbrev pub Crashes : Parser → Type 0
Crashes p = (q : Parser) × (lex (text q) ≡ fault) × (p.s ≤ q.s) × (q.end ≡ p.end)

abbrev pub Advances : Parser → Run (ℕ × Parser) → Type 0
Advances p (done (zero, p')) = Reads p p'
Advances p (done (suc n, p')) = GivesUp p p'
Advances p fault = Crashes p
Advances p stuck = ⊥

later :
    (p q : Parser) (r : Run (ℕ × Parser)) → p.s ≤ q.s → q.end ≡ p.end → Advances q r → Advances p r
later p q (done (zero, p')) le e a = record {
  no_blanks = a.no_blanks;
  no_comment = a.no_comment;
  ahead = (let x = a.ahead in omega arith);
  inside = a.inside;
  same_end = a.same_end ∙ e;
}
later p q (done (suc n, p')) le e a = record {
  refuses = a.refuses;
  ahead = (let x = a.ahead in omega arith);
  inside = a.inside;
  same_end = a.same_end ∙ e;
}
later p q fault le e (x, faults, ge, same) = (x, faults, omega arith, same ∙ e)
later p q stuck le e a = a

pub next_loop-Advances :
    (fuel : ℕ) (p : Parser) → p.s ≤ p.end → p.end - p.s < fuel → Advances p (next_loop fuel p)
unfolding next_loop taken refused text
next_loop-Advances zero p le lt = elim lt [ ]
next_loop-Advances (suc fuel) p le lt =
    round (lex (text p)) refl
      (subst (λ n. Fits n (lex (text p))) (length-text p) (lex-Fits (text p)))
      (λ t. next_loop-Advances fuel (taken t p))
  where
    round :
        (r : Run (Option Token))
        → lex (text p) ≡ r
        → Fits (p.end - p.s) r
        → ((t : Token)
            → p.s + t.length ≤ p.end
            → p.end - (p.s + t.length) < fuel
            → Advances (taken t p) (next_loop fuel (taken t p)))
        → Advances p (elim r [
          | done r ↦ elim r [
            | none ↦ done (1, refused p)
            | some t ↦
                let more = next_loop fuel (taken t p) in
                if is_skipped t.type then more else done (0, taken t p)
          ]
          | fault ↦ fault
          | stuck ↦ stuck
        ])
    round (done none) e f ih = record {
      refuses = e;
      ahead = omega arith;
      inside = le;
      same_end = refl;
    }
    round (done (some t)) e f ih =
        let fits : p.s + t.length ≤ p.end = omega arith in
        elim (Bool-cases (is_skipped t.type)) [
          | inl skip ↦ rw skip (later p (taken t p) _ (omega arith) refl (ih t fits (omega arith)))
          | inr keep ↦ rw keep (record {
            no_blanks = ground arith;
            no_comment = ground arith;
            ahead = omega arith;
            inside = fits;
            same_end = refl;
          })
        ]
    round fault e f ih = (p, e, omega arith, refl)
    round stuck e f ih = f
