-- ===== src/Lex/Quotes.antt =====
-- Strings.
use minilua.Common.{
  ℕ, ◌+◌, ◌≡◌, refl, false, ◌==◌, List, [], ◌∷◌, ◌++◌, length, none, some, fault, ◌⊎◌, inl, inr,
  arith, ==_refl,
}
use minilua.Lex.{lex, lex_string, find_quote, quoted, bump}
use minilua.Lex.Chars.{is_digit, is_alpha, is_blank}
use minilua.Lex.Word.{is_word_start}
use minilua.Lex.Codes.{token, lex_str}

-- no byte of the text is `q`
abbrev pub Without : ℕ → List ℕ → Type 0
Without q [] = Unit
Without q (c ∷ s) = ((c == q) ≡ false) × Without q s

find_quote-first :
    (q : ℕ) (body rest : List ℕ)
    → Without q body
    → find_quote q (body ++ (q ∷ rest)) ≡ some (length body)
unfolding find_quote bump
find_quote-first q [] rest w = rw (==_refl q)
find_quote-first q (c ∷ body) rest w = rw (w.0, find_quote-first q body rest w.1) (ground arith)

find_quote-none : (q : ℕ) (body : List ℕ) → Without q body → find_quote q body ≡ none
unfolding find_quote bump
find_quote-none q [] w = refl
find_quote-none q (c ∷ body) w = rw (w.0, find_quote-none q body w.1) refl

lex-quote : (q : ℕ) (s : List ℕ) → (q ≡ b'\'') ⊎ (q ≡ b'"') → lex (q ∷ s) ≡ lex_string q s
unfolding lex is_blank is_digit is_word_start is_alpha
lex-quote q s (inl e) = rw e
lex-quote q s (inr e) = rw e

-- A quote, a body without that quote and the quote again are one string token that takes the whole
-- of them, whatever the body holds and follows; a quote with no second one behind it makes the scan
-- read beyond the end of the text.
pub lex_strings :
    (q : ℕ) (body rest : List ℕ)
    → (q ≡ b'\'') ⊎ (q ≡ b'"')
    → Without q body
    → (lex (q ∷ (body ++ (q ∷ rest))) ≡ token lex_str (length body + 2)) × (lex (q ∷ body) ≡ fault)
unfolding lex_string quoted
lex_strings q body rest is w = (
  rw (lex-quote q (body ++ (q ∷ rest)) is, find_quote-first q body rest w),
  rw (lex-quote q body is, find_quote-none q body w),
)
