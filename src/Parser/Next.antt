-- ===== src/Parser/Next.antt =====
-- `parser_init`, `parser_next`, `parser_check` and `parser_expect` of parser.c: the token that the
-- parser looks at. At a text that `lex` refuses, its type stays.
use minilua.Common.{
  ℕ, zero, suc, ◌+◌, ◌-◌, ◌*◌, Bool, ◌||◌, not, ◌==◌, if◌then◌else◌, List, [], length, none, some,
  Run, done, fault, stuck,
}
use minilua.Rhhm.{rhhm_init}
use minilua.Rhhm.Strings.{read_str}
use minilua.Lex.{lex}
use minilua.Lex.Codes.{Token, lex_blanks, lex_comment}
use minilua.Ir.{Ir}
use minilua.Strings.{Pool}
use minilua.Parser.{Parser, Parse, parsed, exited, run}
use minilua.Parser.Do.{◌>>=◌, ◌>>◌, give}

-- what is in front of the parser, up to the NUL
unfoldable pub text : Parser → List ℕ
unfolding read_str
text p = read_str p.mem p.s (p.end - p.s)

abbrev pub is_skipped : ℕ → Bool
is_skipped t = t == lex_blanks || t == lex_comment

-- `lex` has set the start of the token in any case.
unfoldable pub refused : Parser → Parser
refused p = record p { start = p.s }

unfoldable pub taken : Token → Parser → Parser
taken t p = record p { start = p.s; current = t; s = p.s + t.length }

unfoldable pub next_loop : ℕ → Parser → Run (ℕ × Parser)
unfolding text refused taken
next_loop zero p = stuck
next_loop (suc fuel) p = elim (lex (text p)) [
  | done r ↦ elim r [
    | none ↦ done (1, refused p)
    | some t ↦
        let more = next_loop fuel (taken t p) in
        if is_skipped t.type then more else done (0, taken t p)
  ]
  | fault ↦ fault
  | stuck ↦ stuck
]

-- the status. Each round takes a byte at least, so there are no more rounds than bytes, and one.
unfoldable pub parser_next : Parse ℕ
unfolding run next_loop
parser_next = run (λ p. next_loop (suc (length (text p))) p)

-- The status of `rhhm_init` is 0. `sym_cdepth` and the current token are not set.
unfoldable pub parser_init : Pool → Ir → ℕ → Parse ℕ
unfolding parser_next rhhm_init
parser_init l c s p = parser_next (record p {
  sym = rhhm_init (4096 * 2) 0;
  assignment = λ v. 0;
  c = c;
  s = s;
  pool = l;
  depth = 0;
  cdepth = 0;
  scope = [];
})

-- `TP`
abbrev pub tp : Parser → ℕ
tp p = p.current.type

unfoldable pub peek : Parse ℕ
peek p = parsed (tp p) p

unfoldable pub parser_check : ℕ → Parse ℕ
parser_check t p = parsed (if tp p == t then 0 else 1) p

-- The rest of it prints.
unfoldable pub parser_expect : ℕ → Parse (Unit {0})
parser_expect t p = if not (tp p == t) then exited else parsed tt p

-- `NEXT`, whose status is not looked at, and `EXPECT`
unfoldable pub next : Parse (Unit {0})
unfolding give parser_next
next = do status ← parser_next; give tt

unfoldable pub expect : ℕ → Parse (Unit {0})
unfolding parser_expect next
expect t = do parser_expect t; next
