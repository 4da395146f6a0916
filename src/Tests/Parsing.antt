-- ===== src/Tests/Parsing.antt =====
-- The parser on small texts.
use minilua.Common.{
  ℕ, ◌+◌, ◌-◌, ◌*◌, ◌^◌, List, [], length, get_or, codes, ltb, none, some, ◌∷◌, if◌then◌else◌, true,
  ◌≡◌, ◌≤◌, ◌<◌, refl, arith,
}
use minilua.Value.{bv_is_tbl, bv_make_sstr}
use minilua.Rhhm.{rhhm_init, rhhm_get, rhhm_set, distance}
use minilua.Rhhm
use minilua.Rhhm.Remove.{rhhm_remove}
use minilua.Rhhm.Keys.{rhhm_bb_hash, rhhm_bb_cmp, djb2}
use minilua.Ir.{ir_current}
use minilua.Parser.{Parser, Parsed, World, parsed, exited, crashed, hung, endless}
use minilua.Lex.{lex}
use minilua.Rhhm.Strings.{read_str, hm_key_hash, hm_key_cmp}
use minilua.Parser.Next.{parser_next, parser_init, text}
use minilua.Parser.Table.{table_loop}
use minilua.Parser.Loops.{parse_repeat}
use minilua.Parser.Statement.{parse_chunk, parse_statement, grammar}
use minilua.Parser.Declares.{Declares, local-Declares}
use minilua.Parser.Closed.{statement_closes, repeat_leaks, text_closes}
use minilua.Parser.Endless.{table_loop-comma}

abbrev world : World
world = record {
  has_memory = true;
  tbl_hash = λ a. 0;
  strtod = λ s. length s;
  heap = record { smalloc = λ n. some (2 ^ 42 + 64 * n); istr = 2 ^ 41; has_memory = true };
  key = 2 ^ 40;
  from_right = true;
}

-- a text at address 1000
abbrev at_start : List ℕ → Parser
at_start s = record {
  mem = λ a. if ltb a 1000 then 0 else get_or s (a - 1000) 0;
  end = 1000 + length s;
  pool = record { intern_pool = rhhm_init 8 0; strs = λ a. []; made = 0 };
  s = 1000;
  start = 1000;
  current = record { type = 0; length = 0 };
  sym = rhhm_init 8 0;
  scope = [];
  depth = 0;
  sym_cdepth = λ v. 0;
  cdepth = 0;
  assignment = λ v. 0;
  c = record {
    ctt_map = rhhm_init 8 0;
    ctts = [];
    ops = λ k. record { op = 0; a = 0; b = 0; target = 0 };
    size = 0;
    iv = 0;
    phi_join_pos = λ k. 0;
    phi_join_type = λ k. 0;
    iphi = 65536;
    phidepth = 0;
  };
}

-- what a run returns, and the parser after it
abbrev value : Parsed ℕ → ℕ
value (parsed r p) = r
value exited = 0
value crashed = 0
value hung = 0
value endless = 0

abbrev state : Parsed ℕ → Parser
state (parsed r p) = p
state exited = at_start []
state crashed = at_start []
state hung = at_start []
state endless = at_start []

-- the parser at the first token of a text
abbrev begun : List ℕ → Parser
begun s = state (parser_next (at_start s))

-- a conditional with a local variable in its first branch
abbrev branching : Parser
branching = begun (codes "if a then local b = 1 a = b else a = 2 end ")

statement_closes_example :
    (let p' = state (parse_statement world (grammar world 60) branching) in
      (p'.depth ≡ 0) × (p'.scope ≡ []) × (0 ≤ p'.cdepth) × (p'.cdepth ≡ p'.c.phidepth))
unfolding parser_next parse_statement grammar lex rhhm_get rhhm_init rhhm_set rhhm_bb_hash bv_is_tbl
    bv_make_sstr hm_key_hash hm_key_cmp djb2 distance rhhm_bb_cmp Rhhm.next ir_current rhhm_remove
statement_closes_example =
    statement_closes world 60 branching
      {r = value (parse_statement world (grammar world 60) branching)}
      {p' = state (parse_statement world (grammar world 60) branching)} (omega arith) refl refl

-- The body of the loop is empty.
abbrev looping : Parser
looping = begun (codes "repeat until a ")

repeat_leaks_example :
    (let p' = state (parse_repeat world (grammar world 60) looping) in
      (0 < p'.cdepth) × (0 < p'.c.phidepth))
unfolding parser_next parse_repeat grammar lex rhhm_get rhhm_init rhhm_set rhhm_bb_hash bv_is_tbl
    bv_make_sstr hm_key_hash hm_key_cmp djb2 distance
repeat_leaks_example =
    repeat_leaks world 60 looping {r = value (parse_repeat world (grammar world 60) looping)}
      {p' = state (parse_repeat world (grammar world 60) looping)} refl refl

abbrev raw : Parser
raw = at_start (codes "local x = 1 return x ")

abbrev ready : Parser
ready = state (parser_init raw.pool raw.c 1000 raw)

text_closes_example :
    (let p' = state (parse_chunk world 60 ready) in
      (p'.depth ≡ 0) × (p'.scope ≡ []) × (p'.cdepth ≡ p'.c.phidepth))
unfolding parser_init parse_chunk lex rhhm_get rhhm_init rhhm_set rhhm_bb_hash bv_is_tbl
    bv_make_sstr hm_key_hash hm_key_cmp djb2 distance
text_closes_example =
    text_closes world 60 raw.pool raw.c 1000 raw {r = value (parse_chunk world 60 ready)}
      {p = ready} {p' = state (parse_chunk world 60 ready)} refl refl refl

-- behind the comma of `,`, where the text ends
abbrev trailing : Parser
trailing = begun (codes ",")

table_loop-comma_example : table_loop world (grammar world 60) 1000 0 trailing ≡ endless
unfolding parser_next lex text read_str
table_loop-comma_example = table_loop-comma world 60 1000 0 trailing refl refl

-- a local variable in a scope
abbrev scoped : Parser
scoped = record (begun (codes "local b = 1 ")) { depth = 1; scope = none ∷ [] }

local-Declares_example : Declares scoped (state (parse_statement world (grammar world 60) scoped))
unfolding parser_next parse_statement grammar lex rhhm_get rhhm_init rhhm_set rhhm_bb_hash bv_is_tbl
    bv_make_sstr hm_key_hash hm_key_cmp djb2 distance rhhm_bb_cmp Rhhm.next ir_current rhhm_remove
local-Declares_example =
    local-Declares world 60 scoped {r = value (parse_statement world (grammar world 60) scoped)}
      {p' = state (parse_statement world (grammar world 60) scoped)} refl refl refl
