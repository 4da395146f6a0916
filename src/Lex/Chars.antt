-- ===== src/Lex/Chars.antt =====
-- Bytes, look-ahead and the loops of lex.c that skip a run of bytes of one kind.
use minilua.Common.{
  ℕ, ◌+◌, ◌≤◌, ◌≡◌, Bool, true, false, ◌&&◌, ◌||◌, ◌==◌, leb, if◌then◌else◌, List, [], ◌∷◌, length,
  get_or, arith,
}

-- `s[i]`, with the NUL behind the text
abbrev pub peek_at : List ℕ → ℕ → ℕ
peek_at s i = get_or s i 0

abbrev pub peek : List ℕ → ℕ
peek s = get_or s 0 0

abbrev within : ℕ → ℕ → ℕ → Bool
within lo hi c = leb lo c && leb c hi

unfoldable pub is_digit : ℕ → Bool
is_digit c = within b'0' b'9' c

unfoldable pub is_alpha : ℕ → Bool
is_alpha c = within b'a' b'z' c || within b'A' b'Z' c

-- `VALID`
unfoldable pub is_valid : ℕ → Bool
unfolding is_digit is_alpha
is_valid c = (is_alpha c || is_digit c) || c == b'_'

unfoldable pub is_blank : ℕ → Bool
is_blank c = ((c == b' ' || c == b'\t') || c == b'\r') || c == b'\n'

-- the rounds of `while (test(*s)) s++;`, for a test that the NUL fails
unfoldable pub span : (ℕ → Bool) → List ℕ → ℕ
span p [] = 0
span p (c ∷ s) = if p c then span p s + 1 else 0

-- `*s == w[0] && s[1] == w[1] && …`
unfoldable pub starts : List ℕ → List ℕ → Bool
starts [] s = true
starts (a ∷ w) [] = false
starts (a ∷ w) (c ∷ s) = c == a && starts w s

pub span-le : (p : ℕ → Bool) (s : List ℕ) → span p s ≤ length s
unfolding span
span-le p [] = omega arith
span-le p (c ∷ s) = ground (arith, span-le p s)

pub starts-le : (w s : List ℕ) → starts w s ≡ true → length w ≤ length s
unfolding starts
starts-le [] s h = omega arith
starts-le (a ∷ w) [] h = cc
starts-le (a ∷ w) (c ∷ s) h = ground (arith, starts-le w s)
