-- ===== src/Lex.antt =====
-- lex.h and lex.c: one token from the front of a text. A text is the list of its bytes up to the
-- terminating NUL, so a look-ahead past its end reads 0; `isalnum` and `isdigit` are those of the C
-- locale.
pub mod Chars
pub mod Word
pub mod Keywords
pub mod Names
pub mod Progress
pub mod Quotes
pub mod Codes
use minilua.Common.{
  ℕ, zero, suc, ◌+◌, Bool, true, false, not, ◌&&◌, ◌||◌, ◌==◌, ltb, if◌then◌else◌, List, [], ◌∷◌,
  length, drop, Option, none, some, Run, done, fault, codes,
}
use Chars.{peek, peek_at, is_digit, is_valid, is_blank, span, starts}
use Word.{lex_word, is_word_start}
use Codes.{
  Token, lex_num, lex_blanks, lex_comment, lex_str, lex_eq, lex_ne, lex_ge, lex_le, lex_cat,
  lex_vararg, token,
}

bump : Option ℕ → Option ℕ
bump none = none
bump (some n) = some (n + 1)

-- the rounds of `while (*s != *t->s) s++;`, which does not test for the end of the text: `none`
-- says that it reads beyond it
unfoldable pub find_quote : ℕ → List ℕ → Option ℕ
unfolding bump
find_quote q [] = none
find_quote q (c ∷ s) = if c == q then some 0 else bump (find_quote q s)

quoted : Option ℕ → Run (Option Token)
quoted none = fault
quoted (some n) = token lex_str (n + 2)

-- a string, from its opening quote `q`
unfoldable pub lex_string : ℕ → List ℕ → Run (Option Token)
unfolding find_quote quoted
lex_string q s = quoted (find_quote q s)

-- an exponent, with `n` bytes of the number read
unfoldable pub lex_exponent : ℕ → List ℕ → Run (Option Token)
lex_exponent n s =
    if peek s == b'e' || peek s == b'E'
    then (let s' = drop 1 s in
        let signed = peek s' == b'-' || peek s' == b'+' in
        let m = (if signed then n + 2 else n + 1) in
        let digits = (if signed then drop 1 s' else s') in token lex_num (m + span is_digit digits))
    else token lex_num n

-- a number, after its first byte; `dot` says whether that was a dot
unfoldable pub lex_number : Bool → List ℕ → Run (Option Token)
unfolding lex_exponent
lex_number dot s =
    let k = span is_digit s in
    let s' = drop k s in
    if peek s' == b'.' && not dot
    then (let s'' = drop 1 s' in
        let m = span is_digit s'' in lex_exponent (1 + k + 1 + m) (drop m s''))
    else lex_exponent (1 + k) s'

-- `case '.'`; `s` is not moved past the other dots
unfoldable pub lex_dot : List ℕ → Run (Option Token)
unfolding lex_number
lex_dot s =
    if peek s == b'.' && peek_at s 1 == b'.'
    then token lex_vararg 1
    else if peek s == b'.'
    then token lex_cat 1
    else if not (is_digit (peek s))
    then token b'.' 1
    else lex_number true s

-- inside a comment: not at the NUL or the end of the line
unfoldable pub in_comment : ℕ → Bool
in_comment c = (not (c == 0) && not (c == b'\r')) && not (c == b'\n')

-- one character, or two if the next is `=`
abbrev with_equals : ℕ → ℕ → List ℕ → Run (Option Token)
with_equals c two s = if peek s == b'=' then token two 2 else token c 1

one_of : List ℕ → ℕ → Bool
one_of [] c = false
one_of (x ∷ xs) c = c == x || one_of xs c

-- the characters that are tokens by themselves
unfoldable pub is_single : ℕ → Bool
unfolding one_of
is_single c = one_of (codes "^%+*/,;()[]{}#") c

unfoldable pub lex_operator : ℕ → List ℕ → Run (Option Token)
unfolding in_comment is_single
lex_operator c s =
    if c == b'-'
    then (if peek s == b'-' then token lex_comment (1 + span in_comment s) else token b'-' 1)
    else if c == b'~'
    then (if peek s == b'=' then token lex_ne 2 else done none)
    else if c == b'<'
    then with_equals c lex_le s
    else if c == b'>'
    then with_equals c lex_ge s
    else if c == b'='
    then with_equals c lex_eq s
    else if is_single c
    then token c 1
    else done none

-- `lex`: a token, `none` for the status 1, or a fault for a read beyond the text
unfoldable pub lex : List ℕ → Run (Option Token)
unfolding span starts is_valid is_digit is_blank is_word_start lex_word lex_string lex_dot
    lex_number lex_operator
lex [] = done none
lex (c ∷ s) =
    if is_blank c
    then token lex_blanks (1 + span is_blank s)
    else if c == b'.'
    then lex_dot s
    else if is_digit c
    then lex_number false s
    else if is_word_start c
    then lex_word c s
    else if c == b'\'' || c == b'"'
    then lex_string c s
    else lex_operator c s
