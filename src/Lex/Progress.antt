-- ===== src/Lex/Progress.antt =====
-- Every token takes at least one byte, and none beyond the end of the text.
use minilua.Common.{
  ℕ, ◌+◌, ◌≤◌, ◌<◌, ◌≡◌, refl, Bool, true, false, not, ◌&&◌, ◌||◌, ◌==◌, if◌then◌else◌, List, [],
  ◌∷◌, length, length-drop, drop, Option, none, some, Run, done, fault, stuck, arith, Option-cases,
  subst, inl, inr,
}
use minilua.Lex.Names.{lex_word-table}
use minilua.Lex.Keywords.{length-ident}
use minilua.Lex.{
  in_comment, with_equals, lex, lex_dot, lex_number, lex_exponent, lex_string, find_quote, bump,
  lex_operator, is_single,
}
use minilua.Lex.Chars.{peek, peek_at, is_valid, is_digit, is_blank, span, span-le}
use minilua.Lex.Word.{lex_word, is_word_start}
use minilua.Lex.Codes.{Token, lex_le, lex_ge, lex_eq}

-- a result whose token, if there is one, has between 1 and `n` bytes
abbrev pub Fits : ℕ → Run (Option Token) → Type 0
Fits n (done (some t)) = (1 ≤ t.length) × (t.length ≤ n)
Fits n (done none) = Unit
Fits n fault = Unit
Fits n stuck = ⊥

if-Fits :
    (n : ℕ) (b : Bool) (x y : Run (Option Token))
    → (b ≡ true → Fits n x)
    → (b ≡ false → Fits n y)
    → Fits n (if b then x else y)
if-Fits n true x y f g = f refl
if-Fits n false x y f g = g refl

peek-le : (s : List ℕ) (a : ℕ) → 0 < a → (peek s == a) ≡ true → 1 ≤ length s
peek-le [] a pos h = absurd (ground arith)
peek-le (c ∷ s) a pos h = omega arith

-- the length behind a run that was skipped
rest : (p : ℕ → Bool) (s : List ℕ) → length (drop (span p s) s) + span p s ≡ length s
rest p s = omega (arith, length-drop (span p s) s, span-le p s)

lex_exponent-Fits : (n k : ℕ) (s : List ℕ) → 1 ≤ k → k + length s ≤ n → Fits n (lex_exponent k s)
unfolding lex_exponent
lex_exponent-Fits n k [] one le = (one, omega arith)
lex_exponent-Fits n k (a ∷ []) one le = unfold span in ground arith
lex_exponent-Fits n k (a ∷ b ∷ s) one le =
    ground (arith, span-le is_digit s, span-le is_digit (b ∷ s))

lex_number-Fits : (dot : Bool) (s : List ℕ) → Fits (1 + length s) (lex_number dot s)
unfolding lex_number
lex_number-Fits dot s =
    let k = span is_digit s in
    let s' = drop k s in
    let s'' = drop 1 s' in
    let m = span is_digit s'' in
    if-Fits (1 + length s) (peek s' == b'.' && not dot) _ _
      (λ dotted.
        let more = peek-le s' b'.' (omega arith) (ground arith) in
        lex_exponent-Fits (1 + length s) (1 + k + 1 + m) (drop m s'') (omega arith)
          (omega (arith, rest is_digit s, rest is_digit s'', length-drop 1 s')))
      (λ plain.
        lex_exponent-Fits (1 + length s) (1 + k) s' (omega arith) (omega (arith, rest is_digit s)))

lex_dot-Fits : (s : List ℕ) → Fits (1 + length s) (lex_dot s)
unfolding lex_dot
lex_dot-Fits s =
    if-Fits (1 + length s) (peek s == b'.' && peek_at s 1 == b'.') _ _ (λ _. omega arith)
      (λ _.
        if-Fits (1 + length s) (peek s == b'.') _ _ (λ _. omega arith)
          (λ _.
            if-Fits (1 + length s) (not (is_digit (peek s))) _ _ (λ _. omega arith)
              (λ _. lex_number-Fits true s)))

lex_word-Fits : (c : ℕ) (s : List ℕ) → Fits (1 + length s) (lex_word c s)
lex_word-Fits c s =
    rw (lex_word-table s c) (omega arith, omega (arith, length-ident s, span-le is_valid s))

find_quote-le : (q n : ℕ) (s : List ℕ) → find_quote q s ≡ some n → n + 1 ≤ length s
unfolding find_quote bump
find_quote-le q n [] h = cc
find_quote-le q n (c ∷ s) h = elim (Option-cases (find_quote q s)) [
  | inl end ↦ ground arith
  | inr (m, found) ↦ ground (arith, find_quote-le q m s found)
]

lex_string-Fits : (q : ℕ) (s : List ℕ) → Fits (1 + length s) (lex_string q s)
unfolding lex_string
lex_string-Fits q s = elim (Option-cases (find_quote q s)) [
  | inl end ↦ rw end tt
  | inr (n, found) ↦ rw found (omega arith, omega (arith, find_quote-le q n s found))
]

with_equals-Fits : (c two : ℕ) (s : List ℕ) → Fits (1 + length s) (with_equals c two s)
with_equals-Fits c two s =
    if-Fits (1 + length s) (peek s == b'=') _ _ (λ h. omega (arith, peek-le s b'=' (omega arith) h))
      (λ _. omega arith)

lex_operator-Fits : (c : ℕ) (s : List ℕ) → Fits (1 + length s) (lex_operator c s)
unfolding lex_operator
lex_operator-Fits c s =
    let n = 1 + length s in
    if-Fits n (c == b'-') _ _
      (λ _.
        if-Fits n (peek s == b'-') _ _ (λ _. omega (arith, span-le in_comment s))
          (λ _. omega arith))
      (λ _.
        if-Fits n (c == b'~') _ _
          (λ _.
            if-Fits n (peek s == b'=') _ _ (λ h. omega (arith, peek-le s b'=' (omega arith) h))
              (λ _. tt))
          (λ _.
            if-Fits n (c == b'<') _ _ (λ _. with_equals-Fits c lex_le s)
              (λ _.
                if-Fits n (c == b'>') _ _ (λ _. with_equals-Fits c lex_ge s)
                  (λ _.
                    if-Fits n (c == b'=') _ _ (λ _. with_equals-Fits c lex_eq s)
                      (λ _. if-Fits n (is_single c) _ _ (λ _. omega arith) (λ _. tt))))))

pub lex-Fits : (s : List ℕ) → Fits (length s) (lex s)
unfolding lex
lex-Fits [] = tt
lex-Fits (c ∷ s) = subst (λ n. Fits n (lex (c ∷ s))) (omega arith) fits
  where
    fits : Fits (1 + length s) (lex (c ∷ s))
    fits =
        let n = 1 + length s in
        if-Fits n (is_blank c) _ _ (λ _. omega (arith, span-le is_blank s))
          (λ _.
            if-Fits n (c == b'.') _ _ (λ _. lex_dot-Fits s)
              (λ _.
                if-Fits n (is_digit c) _ _ (λ _. lex_number-Fits false s)
                  (λ _.
                    if-Fits n (is_word_start c) _ _ (λ _. lex_word-Fits c s)
                      (λ _.
                        if-Fits n (c == b'\'' || c == b'"') _ _ (λ _. lex_string-Fits c s)
                          (λ _. lex_operator-Fits c s)))))

-- A token has at least one byte, and lies within the text.
pub lex_bounds :
    (s : List ℕ) {t : Token} → lex s ≡ done (some t) → (1 ≤ t.length) × (t.length ≤ length s)
lex_bounds s h = rw h at (lex-Fits s)
