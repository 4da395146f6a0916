-- ===== src/Parser.antt =====
-- parser.h and parser.c: the state of the parser, and the outcome of its functions. The text is in
-- memory and ends at a NUL; a token is known by its address, type and length.
pub mod Do
pub mod Scope
pub mod Next
pub mod Grammar
pub mod Function
pub mod Table
pub mod Call
pub mod Expr
pub mod Assignment
pub mod If
pub mod Loops
pub mod Statement
pub mod Balance
pub mod Closed
pub mod Endless
pub mod Progress
pub mod Declares
use minilua.Common.{
  ℕ, ◌+◌, ◌-◌, ◌%◌, ◌^◌, Bool, List, ◌==◌, leb, ltb, if◌then◌else◌, Option, Run, done, fault, stuck,
  ◌>>=◌, false,
}
use minilua.Rhhm.{Rhhm}
use minilua.Lex.Codes.{Token}
use minilua.Ir.{Ir, Tac, ir_op, ir_newvar, ir_ctt, write}
use minilua.Ir.Ops.{ir_op_max}
use minilua.Strings.{Pool, Heap, lua_intern}
use minilua.Rhhm.Strings.{read_str}

-- the `s` and the `length` of a token
pub record Name : Type 0 where
  pub start : ℕ
  pub size : ℕ

-- `end` is the address of the NUL. The top of `scope` stands first; a mark is an entry without `s`.
pub record Parser : Type 0 where
  pub mem : ℕ → ℕ
  pub end : ℕ
  pub pool : Pool
  pub s : ℕ
  pub start : ℕ
  pub current : Token
  pub sym : Rhhm
  pub scope : List (Option Name)
  pub depth : ℕ
  pub sym_cdepth : ℕ → ℕ
  pub cdepth : ℕ
  pub assignment : ℕ → ℕ
  pub c : Ir

-- What is outside of the program: memory, the hash of tables, `strtod`, the addresses of strings
-- and of the buffer `key`, and whether the compiler evaluates arguments from the right.
pub record World : Type 0 where
  pub has_memory : Bool
  pub tbl_hash : ℕ → ℕ
  pub strtod : List ℕ → ℕ
  pub heap : Heap
  pub key : ℕ
  pub from_right : Bool

-- `exited` is the `exit(1)` of `parser_expect`, `crashed` undefined behaviour or an `abort`. A probe
-- of a map that does not end is `hung`; `endless` says that the rounds of the model ran out.
pub data Parsed (A : Type 0) : Type 0 where
  parsed : A → Parser → Parsed A
  exited : Parsed A
  crashed : Parsed A
  hung : Parsed A
  endless : Parsed A

abbrev pub Parse : Type 0 → Type 0
Parse A = Parser → Parsed A

abbrev pub bind : {A B : Type 0} → Parsed A → (A → Parse B) → Parsed B
bind (parsed a p) f = f a p
bind exited f = exited
bind crashed f = crashed
bind hung f = hung
bind endless f = endless

unfoldable pub run : {A : Type 0} → (Parser → Run (A × Parser)) → Parse A
run f p = elim (f p) [ done r ↦ parsed r.0 r.1 | fault ↦ crashed | stuck ↦ hung ]

-- an operation of the three-address code
unfoldable pub on_ir : {A : Type 0} → (Ir → Run (A × Ir)) → Parse A
unfolding run
on_ir f = run (λ p. do (a, c) ← f p.c; done (a, record p { c = c }))

-- `EMIT_OP`: the operands are cut to 16 bits
unfoldable pub emit : ℕ → ℕ → ℕ → ℕ → Parse ℕ
unfolding on_ir ir_op
emit op a b t = on_ir (λ c. ir_op c op (a % 2 ^ 16) (b % 2 ^ 16) (t % 2 ^ 16))

unfoldable pub newvar : Parse ℕ
unfolding on_ir ir_newvar
newvar = on_ir (λ c. done (ir_newvar c))

unfoldable pub ctt : World → ℕ → Parse ℕ
unfolding on_ir ir_ctt
ctt w v = on_ir (λ c. ir_ctt w.tbl_hash w.has_memory c v)

-- a write to an array of 2^16 entries; the number is one of 32 bits
unfoldable pub assign : ℕ → ℕ → Parse (Unit {0})
unfolding run
assign i v = run (λ p.
    if leb ir_op_max i
    then fault
    else done (tt, record p { assignment = λ j. if j == i then v % 2 ^ 16 else p.assignment j }))

unfoldable pub assigned : ℕ → Parse ℕ
unfolding run
assigned i = run (λ p. if leb ir_op_max i then fault else done (p.assignment i, p))

-- `vget(p->c->ops, i).target = v`
unfoldable pub set_target : ℕ → ℕ → Parse (Unit {0})
unfolding on_ir
set_target i v = on_ir (λ c.
    if leb ir_op_max i
    then fault
    else done (tt, record c { ops = write c.ops i (record (c.ops i) { target = v % 2 ^ 16 }) }))

-- Bytes of the text; one beyond the NUL is a fault.
unfoldable pub bytes : Parser → ℕ → ℕ → Run (List ℕ)
unfolding read_str
bytes p s n = if ltb (p.end + 1) (s + n) then fault else done (read_str p.mem s n)

-- `ir_ctt(p->c, lua_intern(p->L, s, len))`
unfoldable pub ctt_string : World → ℕ → ℕ → Parse ℕ
unfolding run bytes lua_intern ir_ctt
ctt_string w s n = run (λ p. do
  str ← bytes p s n
  (v, pool) ← lua_intern w.heap p.pool str
  (i, c) ← ir_ctt w.tbl_hash w.has_memory p.c v
  done (i, record p { pool = pool; c = c }))
