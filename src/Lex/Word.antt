-- ===== src/Lex/Word.antt =====
-- Names and keywords: the cases of the switch in `lex` for letters and `_`.
use minilua.Common.{
  ℕ, ◌+◌, Bool, not, ◌&&◌, ◌||◌, ◌==◌, if◌then◌else◌, List, length, drop, Option, Run, codes,
}
use minilua.Lex.Chars.{peek, peek_at, is_alpha, is_valid, span, starts}
use minilua.Lex.Codes.{
  Token, token, lex_id, lex_not, lex_do, lex_end, lex_while, lex_repeat, lex_until, lex_if,
  lex_then, lex_elseif, lex_else, lex_for, lex_in, lex_function, lex_local, lex_return, lex_break,
  lex_nil, lex_false, lex_true, lex_and, lex_or,
}

-- the label `lex_id`, reached with `n` bytes read and `s` left
unfoldable pub lex_name : ℕ → List ℕ → Run (Option Token)
lex_name n s = token lex_id (n + span is_valid s)

-- `if (*s == w[0] && …) { s += …; if (VALID(*s)) goto lex_id; t->type = type; break; }`, after the
-- first letter; `other` is what follows
unfoldable pub keyword : List ℕ → ℕ → List ℕ → Run (Option Token) → Run (Option Token)
unfolding lex_name
keyword w type s other =
    if starts w s
    then (let rest = drop (length w) s in
        if is_valid (peek rest) then lex_name (1 + length w) rest else token type (1 + length w))
    else other

-- After `else`, the source looks for `if` that ends a word before it looks for the end of `else`.
unfoldable pub else_keyword : List ℕ → Run (Option Token) → Run (Option Token)
unfolding lex_name
else_keyword s other =
    if starts (codes "lse") s
    then (let rest = drop 3 s in
        if peek rest == b'i' && peek_at rest 1 == b'f' && not (is_valid (peek_at rest 2))
        then token lex_elseif 6
        else if is_valid (peek rest)
        then lex_name 4 rest
        else token lex_else 4)
    else other

-- `case` by `case`; `s` is the text after the first letter `c`
unfoldable pub lex_word : ℕ → List ℕ → Run (Option Token)
unfolding keyword else_keyword
lex_word c s =
    let name = lex_name 1 s in
    if c == b'a'
    then keyword (codes "nd") lex_and s name
    else if c == b'b'
    then keyword (codes "reak") lex_break s name
    else if c == b'd'
    then keyword (codes "o") lex_do s name
    else if c == b'e'
    then else_keyword s (keyword (codes "nd") lex_end s name)
    else if c == b'f'
    then keyword (codes "or") lex_for s
        (keyword (codes "alse") lex_false s (keyword (codes "unction") lex_function s name))
    else if c == b'i'
    then keyword (codes "f") lex_if s (keyword (codes "n") lex_in s name)
    else if c == b'l'
    then keyword (codes "ocal") lex_local s name
    else if c == b'o'
    then keyword (codes "r") lex_or s name
    else if c == b'n'
    then keyword (codes "ot") lex_not s (keyword (codes "if") lex_nil s name)
    else if c == b'r'
    then keyword (codes "epeat") lex_repeat s (keyword (codes "eturn") lex_return s name)
    else if c == b't'
    then keyword (codes "hen") lex_then s (keyword (codes "rue") lex_true s name)
    else if c == b'u'
    then keyword (codes "ntil") lex_until s name
    else if c == b'w'
    then keyword (codes "hile") lex_while s name
    else name

-- the letters and `_`, which the cases of the switch list
unfoldable pub is_word_start : ℕ → Bool
unfolding is_alpha
is_word_start c = is_alpha c || c == b'_'
