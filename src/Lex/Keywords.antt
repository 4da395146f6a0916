-- ===== src/Lex/Keywords.antt =====
-- The nested tests of `lex_word` against a table: a name is the longest run of name characters, and
-- a keyword is a name that is in the table.
use minilua.Common.{
  ℕ, ◌+◌, ◌≡◌, refl, sym, Bool, true, false, not, ◌&&◌, ◌==◌, if◌then◌else◌, List, [], ◌∷◌, length,
  drop, Option, Run, arith, Bool-cases, inl, inr,
}
use minilua.Lex.Chars.{peek, is_valid, is_alpha, is_digit, span, starts}
use minilua.Lex.Word.{lex_name, keyword}
use minilua.Lex.Codes.{Token, token, lex_id}

-- the name characters at the front of a text
unfoldable pub ident : List ℕ → List ℕ
ident [] = []
ident (c ∷ s) = if is_valid c then c ∷ ident s else []

unfoldable pub same : List ℕ → List ℕ → Bool
same [] [] = true
same (a ∷ u) (b ∷ v) = a == b && same u v
same _ _ = false

unfoldable pub all_valid : List ℕ → Bool
all_valid [] = true
all_valid (c ∷ w) = is_valid c && all_valid w

pub length-ident : (s : List ℕ) → length (ident s) ≡ span is_valid s
unfolding ident span
length-ident [] = refl
length-ident (c ∷ s) = ground (arith, length-ident s)

pub same-eq : (u v : List ℕ) → same u v ≡ true → u ≡ v
unfolding same
same-eq [] [] h = refl
same-eq [] (b ∷ v) h = cc
same-eq (a ∷ u) [] h = cc
same-eq (a ∷ u) (b ∷ v) h = ground (arith, same-eq u v)

-- a keyword that is all there leaves a run of name characters that is shorter by it
pub span-starts :
    (w s : List ℕ)
    → all_valid w ≡ true
    → starts w s ≡ true
    → length w + span is_valid (drop (length w) s) ≡ span is_valid s
unfolding all_valid starts span
span-starts [] s v h = omega arith
span-starts (a ∷ w) [] v h = cc
span-starts (a ∷ w) (c ∷ s) v h = ground (arith, span-starts w s)

-- it is the whole name exactly if the next character is no name character
pub same-starts :
    (w s : List ℕ)
    → all_valid w ≡ true
    → same (ident s) w ≡ (starts w s && not (is_valid (peek (drop (length w) s))))
unfolding all_valid starts same ident
same-starts [] [] v = unfold is_valid is_alpha is_digit in refl
same-starts [] (c ∷ s) v = ground arith
same-starts (a ∷ w) [] v = refl
same-starts (a ∷ w) (c ∷ s) v = ground (arith, same-starts w s)

pub starts-ident :
    (w s : List ℕ) → all_valid w ≡ true → starts w s ≡ true → starts w (ident s) ≡ true
unfolding all_valid starts ident
starts-ident [] s v h = refl
starts-ident (a ∷ w) [] v h = cc
starts-ident (a ∷ w) (c ∷ s) v h = ground (arith, starts-ident w s)

pub span-stop : (s : List ℕ) → is_valid (peek s) ≡ false → span is_valid s ≡ 0
unfolding span
span-stop [] h = refl
span-stop (c ∷ s) h = rw h

-- the token that a table `r` gives for the name behind the first letter
abbrev pub by_table : (List ℕ → ℕ) → List ℕ → Run (Option Token)
by_table r s = token (r (ident s)) (1 + length (ident s))

abbrev pub first_of_table : List ℕ → ℕ → (List ℕ → ℕ) → List ℕ → ℕ
first_of_table w t r u = if same u w then t else r u

pub lex_name-table : (s : List ℕ) → lex_name 1 s ≡ by_table (λ u. lex_id) s
unfolding lex_name
lex_name-table s = rw (length-ident s)

pub token-eq : {t t' n n' : ℕ} → t ≡ t' → n ≡ n' → token t n ≡ token t' n'
token-eq p q = cc

module _ (w : List ℕ) (valid : all_valid w ≡ true) where
  pub keyword-table :
      (t : ℕ) (s : List ℕ) (other : Run (Option Token)) (r : List ℕ → ℕ)
      → other ≡ by_table r s
      → ((u : List ℕ) → starts w u ≡ true → r u ≡ lex_id)
      → keyword w t s other ≡ by_table (first_of_table w t r) s
  unfolding keyword lex_name
  keyword-table t s other r rest only = elim (Bool-cases (starts w s)) [
    | inr no_match ↦
        let not_same : same (ident s) w ≡ false = rw (same-starts w s valid, no_match) in
        rw (no_match, not_same) rest
    | inl match ↦ elim (Bool-cases (is_valid (peek (drop (length w) s)))) [
      | inl longer ↦
          let not_same : same (ident s) w ≡ false = rw (same-starts w s valid, match, longer) in
          rw (match, longer, not_same)
            (token-eq (sym (only (ident s) (starts-ident w s valid match)))
              (omega (arith, span-starts w s valid match, length-ident s)))
      | inr ends ↦
          let is_same : same (ident s) w ≡ true = rw (same-starts w s valid, match, ends) in
          rw (match, ends, is_same)
            (token-eq refl (
              omega (
                arith,
                span-starts w s valid match,
                span-stop (drop (length w) s) ends,
                length-ident s,
              )))
    ]
  ]

-- Two keywords of one letter differ in their second letter.
pub apart :
    (w v u : List ℕ) (t : ℕ) (r : List ℕ → ℕ)
    → starts w v ≡ false
    → (starts w u ≡ true → r u ≡ lex_id)
    → starts w u ≡ true
    → first_of_table v t r u ≡ lex_id
apart w v u t r differ rest match = elim (Bool-cases (same u v)) [
  | inl is ↦ cc (rw (same-eq u v is) at match, differ)
  | inr not ↦ rw not (rest match)
]
