-- ===== src/Tests/Texts.antt =====
-- Tokens of short texts.
use minilua.Common.{◌≤◌, ◌≡◌, refl, inl, ◌∷◌, length, fault, codes}
use minilua.Lex.{lex, lex_operator}
use minilua.Lex.Chars.{is_digit, is_alpha, is_blank}
use minilua.Lex.Codes.{token, lex_str}
use minilua.Lex.Word.{is_word_start}
use minilua.Lex.Keywords.{ident}
use minilua.Lex.Names.{keywords, lookup_in, lex_names}
use minilua.Lex.Progress.{lex_bounds}
use minilua.Lex.Quotes.{lex_strings}

lex_names_example :
    lex (codes "nil = 1")
    ≡ token
        (lookup_in keywords (b'n' ∷ ident (codes "il = 1")))
        (length (b'n' ∷ ident (codes "il = 1")))
unfolding is_word_start is_alpha
lex_names_example = lex_names b'n' (codes "il = 1") refl

lex_bounds_example : (1 ≤ 2) × (2 ≤ length (codes "<=3"))
unfolding lex is_blank is_digit is_word_start is_alpha lex_operator
lex_bounds_example = lex_bounds (codes "<=3") refl

lex_strings_example : (lex (codes "'a\"'..") ≡ token lex_str 4) × (lex (codes "'a\"") ≡ fault)
lex_strings_example = lex_strings b'\'' (codes "a\"") (codes "..") (inl refl) (refl, (refl, tt))
