-- ===== src/Lex/Names.antt =====
-- `lex_word` is the look-up of a name in the list of keywords.
use native.Mathlib.Decide.{ℕ_discrete}
use minilua.Common.{
  ℕ, ◌≡◌, ◌≢◌, refl, sym, ◌∙◌, ap, true, false, not, ◌&&◌, ◌==◌, ==_false, if◌then◌else◌, List, [],
  ◌∷◌, ◌++◌, length, drop, Option, Run, codes, arith, Bool-cases, inl, inr,
}
use minilua.Lex.{lex}
use minilua.Lex.Chars.{peek, peek_at, is_valid, is_alpha, is_digit, is_blank, starts}
use minilua.Lex.Word.{lex_name, else_keyword, lex_word, is_word_start}
use minilua.Lex.Keywords.{
  ident, same, all_valid, by_table, first_of_table, keyword-table, lex_name-table, apart,
  same-starts, span-starts, span-stop, starts-ident, length-ident, token-eq,
}
use minilua.Lex.Codes.{
  Token, token, lex_id, lex_not, lex_do, lex_end, lex_while, lex_repeat, lex_until, lex_if,
  lex_then, lex_elseif, lex_else, lex_for, lex_in, lex_function, lex_local, lex_return, lex_break,
  lex_nil, lex_false, lex_true, lex_and, lex_or,
}

-- The keywords that lex.c knows. The one for `LEX_NIL` is spelled `nif` there.
abbrev pub keywords : List (List ℕ × ℕ)
keywords =
    (codes "and", lex_and)
    ∷ (codes "break", lex_break)
    ∷ (codes "do", lex_do)
    ∷ (codes "elseif", lex_elseif)
    ∷ (codes "else", lex_else)
    ∷ (codes "end", lex_end)
    ∷ (codes "for", lex_for)
    ∷ (codes "false", lex_false)
    ∷ (codes "function", lex_function)
    ∷ (codes "if", lex_if)
    ∷ (codes "in", lex_in)
    ∷ (codes "local", lex_local)
    ∷ (codes "or", lex_or)
    ∷ (codes "not", lex_not)
    ∷ (codes "nif", lex_nil)
    ∷ (codes "repeat", lex_repeat)
    ∷ (codes "return", lex_return)
    ∷ (codes "then", lex_then)
    ∷ (codes "true", lex_true)
    ∷ (codes "until", lex_until)
    ∷ (codes "while", lex_while)
    ∷ []

abbrev pub lookup_in : List (List ℕ × ℕ) → List ℕ → ℕ
lookup_in [] name = lex_id
lookup_in ((w, t) ∷ ks) name = if same name w then t else lookup_in ks name

abbrev pub name_token : ℕ → List ℕ → Run (Option Token)
name_token c s = by_table (λ u. lookup_in keywords (c ∷ u)) s

starts-append : (w v s : List ℕ) → starts (w ++ v) s ≡ (starts w s && starts v (drop (length w) s))
unfolding starts
starts-append [] v s = refl
starts-append (a ∷ w) v [] = refl
starts-append (a ∷ w) v (c ∷ s) = ground (arith, starts-append w v s)

starts_if : (s : List ℕ) → starts (codes "if") s ≡ (peek s == b'i' && peek_at s 1 == b'f')
unfolding starts
starts_if [] = refl
starts_if (a ∷ []) = ground arith
starts_if (a ∷ b ∷ s) = ground arith

drop_five : (s : List ℕ) → peek (drop 5 s) ≡ peek_at (drop 3 s) 2
drop_five [] = refl
drop_five (a ∷ []) = refl
drop_five (a ∷ b ∷ []) = refl
drop_five (a ∷ b ∷ c ∷ []) = refl
drop_five (a ∷ b ∷ c ∷ e ∷ []) = refl
drop_five (a ∷ b ∷ c ∷ e ∷ f ∷ []) = refl
drop_five (a ∷ b ∷ c ∷ e ∷ f ∷ g ∷ s) = refl

valid_i : (c : ℕ) → (c == b'i') ≡ true → is_valid c ≡ true
unfolding is_valid
valid_i c h = ground arith

else_matched :
    (s : List ℕ) (other : Run (Option Token)) (r : List ℕ → ℕ)
    → starts (codes "lse") s ≡ true
    → r (ident s) ≡ lex_id
    → else_keyword s other
      ≡ by_table
          (first_of_table (codes "lseif") lex_elseif (first_of_table (codes "lse") lex_else r))
          s
unfolding else_keyword all_valid is_valid lex_name
else_matched s other r match named =
    let rest = drop 3 s in
    let both : starts (codes "lseif") s ≡ (peek rest == b'i' && peek_at rest 1 == b'f') =
      starts-append (codes "lse") (codes "if") s ∙ rw match (starts_if rest) in
    let long =
      same-starts (codes "lseif") s refl
      ∙ ap (λ x. starts (codes "lseif") s && not (is_valid x)) (drop_five s) in
    let short = same-starts (codes "lse") s refl in
    let size = length-ident s in
    let taken = span-starts (codes "lse") s refl match in
    elim (Bool-cases (peek rest == b'i' && peek_at rest 1 == b'f')) [
      | inl more ↦
          let valid = valid_i (peek rest) (ground arith) in
          let whole = both ∙ more in
          let taken' = span-starts (codes "lseif") s refl whole in
          elim (Bool-cases (is_valid (peek_at rest 2))) [
            | inl longer ↦
                let not_long : same (ident s) (codes "lseif") ≡ false = rw (long, whole, longer) in
                let not_short : same (ident s) (codes "lse") ≡ false = rw (short, match, valid) in
                rw (match, more, longer, valid, not_long, not_short)
                  (token-eq (sym named) (omega arith))
            | inr ends ↦
                let stop = span-stop (drop 5 s) (rw (drop_five s) ends) in
                let is_long : same (ident s) (codes "lseif") ≡ true = rw (long, whole, ends) in
                rw (match, more, ends, is_long) (token-eq refl (omega arith))
          ]
      | inr no_if ↦ elim (Bool-cases (is_valid (peek rest))) [
        | inl longer ↦
            let not_long : same (ident s) (codes "lseif") ≡ false = rw (long, both, no_if) in
            let not_short : same (ident s) (codes "lse") ≡ false = rw (short, match, longer) in
            rw (match, no_if, longer, not_long, not_short) (token-eq (sym named) (omega arith))
        | inr ends ↦
            let stop = span-stop rest ends in
            let not_long : same (ident s) (codes "lseif") ≡ false = rw (long, both, no_if) in
            let is_short : same (ident s) (codes "lse") ≡ true = rw (short, match, ends) in
            rw (match, no_if, ends, not_long, is_short) (token-eq refl (omega arith))
      ]
    ]

-- `case 'e'`
else-table :
    (s : List ℕ) (other : Run (Option Token)) (r : List ℕ → ℕ)
    → other ≡ by_table r s
    → ((u : List ℕ) → starts (codes "lse") u ≡ true → r u ≡ lex_id)
    → else_keyword s other
      ≡ by_table
          (first_of_table (codes "lseif") lex_elseif (first_of_table (codes "lse") lex_else r))
          s
unfolding else_keyword all_valid is_valid
else-table s other r rest only = elim (Bool-cases (starts (codes "lse") s)) [
  | inr no_match ↦
      let not_else : same (ident s) (codes "lse") ≡ false =
        rw (same-starts (codes "lse") s refl, no_match) in
      let not_elseif : same (ident s) (codes "lseif") ≡ false = rw (
        same-starts (codes "lseif") s refl,
        starts-append (codes "lse") (codes "if") s,
        no_match,
      ) in
      rw (no_match, not_elseif, not_else) rest
  | inl match ↦
      else_matched s other r match (only (ident s) (starts-ident (codes "lse") s refl match))
]

module _ (s : List ℕ) where
  word_a : lex_word b'a' s ≡ name_token b'a' s
  unfolding lex_word same starts all_valid is_valid
  word_a =
      keyword-table (codes "nd") refl lex_and s _ (lookup_in ([])) (lex_name-table s)
        (λ u. λ h. refl)

  word_b : lex_word b'b' s ≡ name_token b'b' s
  unfolding lex_word same starts all_valid is_valid
  word_b =
      keyword-table (codes "reak") refl lex_break s _ (lookup_in ([])) (lex_name-table s)
        (λ u. λ h. refl)

  word_d : lex_word b'd' s ≡ name_token b'd' s
  unfolding lex_word same starts all_valid is_valid
  word_d =
      keyword-table (codes "o") refl lex_do s _ (lookup_in ([])) (lex_name-table s) (λ u. λ h. refl)

  word_f : lex_word b'f' s ≡ name_token b'f' s
  unfolding lex_word same starts all_valid is_valid
  word_f =
      keyword-table (codes "or") refl lex_for s _
        (lookup_in ((codes "alse", lex_false) ∷ (codes "unction", lex_function) ∷ []))
        (keyword-table (codes "alse") refl lex_false s _
          (lookup_in ((codes "unction", lex_function) ∷ []))
          (keyword-table (codes "unction") refl lex_function s _ (lookup_in ([])) (lex_name-table s)
            (λ u. λ h. refl))
          (λ u.
            apart (codes "alse") (codes "unction") u lex_function (lookup_in ([])) refl
              (λ h. refl)))
        (λ u.
          apart (codes "or") (codes "alse") u lex_false
            (lookup_in ((codes "unction", lex_function) ∷ [])) refl
            (apart (codes "or") (codes "unction") u lex_function (lookup_in ([])) refl (λ h. refl)))

  word_i : lex_word b'i' s ≡ name_token b'i' s
  unfolding lex_word same starts all_valid is_valid
  word_i =
      keyword-table (codes "f") refl lex_if s _ (lookup_in ((codes "n", lex_in) ∷ []))
        (keyword-table (codes "n") refl lex_in s _ (lookup_in ([])) (lex_name-table s)
          (λ u. λ h. refl))
        (λ u. apart (codes "f") (codes "n") u lex_in (lookup_in ([])) refl (λ h. refl))

  word_l : lex_word b'l' s ≡ name_token b'l' s
  unfolding lex_word same starts all_valid is_valid
  word_l =
      keyword-table (codes "ocal") refl lex_local s _ (lookup_in ([])) (lex_name-table s)
        (λ u. λ h. refl)

  word_o : lex_word b'o' s ≡ name_token b'o' s
  unfolding lex_word same starts all_valid is_valid
  word_o =
      keyword-table (codes "r") refl lex_or s _ (lookup_in ([])) (lex_name-table s) (λ u. λ h. refl)

  word_n : lex_word b'n' s ≡ name_token b'n' s
  unfolding lex_word same starts all_valid is_valid
  word_n =
      keyword-table (codes "ot") refl lex_not s _ (lookup_in ((codes "if", lex_nil) ∷ []))
        (keyword-table (codes "if") refl lex_nil s _ (lookup_in ([])) (lex_name-table s)
          (λ u. λ h. refl))
        (λ u. apart (codes "ot") (codes "if") u lex_nil (lookup_in ([])) refl (λ h. refl))

  word_r : lex_word b'r' s ≡ name_token b'r' s
  unfolding lex_word same starts all_valid is_valid
  word_r =
      keyword-table (codes "epeat") refl lex_repeat s _
        (lookup_in ((codes "eturn", lex_return) ∷ []))
        (keyword-table (codes "eturn") refl lex_return s _ (lookup_in ([])) (lex_name-table s)
          (λ u. λ h. refl))
        (λ u. apart (codes "epeat") (codes "eturn") u lex_return (lookup_in ([])) refl (λ h. refl))

  word_t : lex_word b't' s ≡ name_token b't' s
  unfolding lex_word same starts all_valid is_valid
  word_t =
      keyword-table (codes "hen") refl lex_then s _ (lookup_in ((codes "rue", lex_true) ∷ []))
        (keyword-table (codes "rue") refl lex_true s _ (lookup_in ([])) (lex_name-table s)
          (λ u. λ h. refl))
        (λ u. apart (codes "hen") (codes "rue") u lex_true (lookup_in ([])) refl (λ h. refl))

  word_u : lex_word b'u' s ≡ name_token b'u' s
  unfolding lex_word same starts all_valid is_valid
  word_u =
      keyword-table (codes "ntil") refl lex_until s _ (lookup_in ([])) (lex_name-table s)
        (λ u. λ h. refl)

  word_w : lex_word b'w' s ≡ name_token b'w' s
  unfolding lex_word same starts all_valid is_valid
  word_w =
      keyword-table (codes "hile") refl lex_while s _ (lookup_in ([])) (lex_name-table s)
        (λ u. λ h. refl)

  word_e : lex_word b'e' s ≡ name_token b'e' s
  unfolding lex_word same starts all_valid is_valid
  word_e =
      else-table s _ (lookup_in ((codes "nd", lex_end) ∷ []))
        (keyword-table (codes "nd") refl lex_end s _ (lookup_in ([])) (lex_name-table s)
          (λ u. λ h. refl))
        (λ u. apart (codes "lse") (codes "nd") u lex_end (lookup_in []) refl (λ h. refl))

  at_letter : (a c : ℕ) → lex_word a s ≡ name_token a s → c ≡ a → lex_word c s ≡ name_token c s
  at_letter a c h e = rw e h

  other_letter :
      (c : ℕ)
      → c ≢ b'a'
      → c ≢ b'b'
      → c ≢ b'd'
      → c ≢ b'e'
      → c ≢ b'f'
      → c ≢ b'i'
      → c ≢ b'l'
      → c ≢ b'o'
      → c ≢ b'n'
      → c ≢ b'r'
      → c ≢ b't'
      → c ≢ b'u'
      → c ≢ b'w'
      → lex_word c s ≡ name_token c s
  unfolding lex_word same
  other_letter c not_a not_b not_d not_e not_f not_i not_l not_o not_n not_r not_t not_u not_w =
      simp
        (
          ==_false c b'a' not_a,
          ==_false c b'b' not_b,
          ==_false c b'd' not_d,
          ==_false c b'e' not_e,
          ==_false c b'f' not_f,
          ==_false c b'i' not_i,
          ==_false c b'l' not_l,
          ==_false c b'o' not_o,
          ==_false c b'n' not_n,
          ==_false c b'r' not_r,
          ==_false c b't' not_t,
          ==_false c b'u' not_u,
          ==_false c b'w' not_w,
        )
        (lex_name-table s)

  pub lex_word-table : (c : ℕ) → lex_word c s ≡ name_token c s
  lex_word-table c = elim (ℕ_discrete c b'a') [
    | yes e ↦ at_letter b'a' c word_a e
    | no not_a ↦ elim (ℕ_discrete c b'b') [
      | yes e ↦ at_letter b'b' c word_b e
      | no not_b ↦ elim (ℕ_discrete c b'd') [
        | yes e ↦ at_letter b'd' c word_d e
        | no not_d ↦ elim (ℕ_discrete c b'e') [
          | yes e ↦ at_letter b'e' c word_e e
          | no not_e ↦ elim (ℕ_discrete c b'f') [
            | yes e ↦ at_letter b'f' c word_f e
            | no not_f ↦ elim (ℕ_discrete c b'i') [
              | yes e ↦ at_letter b'i' c word_i e
              | no not_i ↦ elim (ℕ_discrete c b'l') [
                | yes e ↦ at_letter b'l' c word_l e
                | no not_l ↦ elim (ℕ_discrete c b'o') [
                  | yes e ↦ at_letter b'o' c word_o e
                  | no not_o ↦ elim (ℕ_discrete c b'n') [
                    | yes e ↦ at_letter b'n' c word_n e
                    | no not_n ↦ elim (ℕ_discrete c b'r') [
                      | yes e ↦ at_letter b'r' c word_r e
                      | no not_r ↦ elim (ℕ_discrete c b't') [
                        | yes e ↦ at_letter b't' c word_t e
                        | no not_t ↦ elim (ℕ_discrete c b'u') [
                          | yes e ↦ at_letter b'u' c word_u e
                          | no not_u ↦ elim (ℕ_discrete c b'w') [
                            | yes e ↦ at_letter b'w' c word_w e
                            | no not_w ↦
                                other_letter c not_a not_b not_d not_e not_f not_i not_l not_o not_n
                                  not_r not_t not_u not_w
                          ]
                        ]
                      ]
                    ]
                  ]
                ]
              ]
            ]
          ]
        ]
      ]
    ]
  ]

-- At a letter or `_` the token is the longest run of letters, digits and `_`; its type is that of
-- the keyword that the run is, and a name if it is none.
pub lex_names :
    (c : ℕ) (s : List ℕ)
    → is_word_start c ≡ true
    → lex (c ∷ s) ≡ token (lookup_in keywords (c ∷ ident s)) (length (c ∷ ident s))
unfolding lex is_alpha
lex_names c s start =
    let blank : is_blank c ≡ false = unfold is_blank in ground arith in
    let digit : is_digit c ≡ false = unfold is_digit in ground arith in
    let dot : (c == b'.') ≡ false = ground arith in
    rw (blank, dot, digit, start) (lex_word-table s c ∙ token-eq refl (omega arith))
