-- ===== src/Parser/Scope.antt =====
-- The scopes of parser.c, `parser_phi_begin` to `parser_newsym`. A symbol is known by one byte, its
-- depth, and its name; the byte is written in front of the name in the text.
use minilua.Common.{
  ℕ, zero, suc, ◌+◌, ◌-◌, ◌%◌, ◌^◌, ◌&&◌, List, [], ◌∷◌, length, ◌==◌, leb, ltb, if◌then◌else◌,
  Option, none, some, Run, done, fault, ◌>>=◌,
}
use minilua.Rhhm.Strings.{rhhm_get_str, rhhm_remove_str, rhhm_insert_str}
use minilua.Ir.{ir_phi_begin, ir_newvar}
use minilua.Ir.Ops.{ir_op_max}
use minilua.Ir.Commit.{ir_phi_commit, upd}
use minilua.Parser.{Parser, Parse, World, Name, run}

unfoldable pub parser_phi_begin : ℕ → Parse (Unit {0})
unfolding run ir_phi_begin
parser_phi_begin type = run (λ p. do
  (depth, c) ← ir_phi_begin p.c type
  done (tt, record p { c = c; cdepth = p.cdepth + 1 }))

-- `cdepth` is not below 0 after it: without a frame, `ir_phi_commit` is a fault.
unfoldable pub parser_phi_commit : Parse ℕ
unfolding run ir_phi_commit
parser_phi_commit = run (λ p. do
  (shift, s) ← ir_phi_commit p.c p.assignment
  done (shift, record p { cdepth = p.cdepth - 1; c = s.ir; assignment = s.assignment }))

-- the undo stack has 128 entries
unfoldable pub parser_scope_push : Option Name → Parser → Run Parser
parser_scope_push t p =
    if leb 128 (length p.scope) then fault else done (record p { scope = t ∷ p.scope })

unfoldable pub parser_enter : Parse (Unit {0})
unfolding run parser_scope_push
parser_enter =
    run (λ p. do p' ← parser_scope_push none (record p { depth = p.depth + 1 }); done (tt, p'))

-- the memory with `key`, a copy of the name behind its depth
unfoldable pub with_key : World → (ℕ → ℕ) → ℕ → Name → ℕ → ℕ
with_key w mem d t a =
    if a == w.key
    then d % 256
    else if leb (w.key + 1) a && ltb a (w.key + 1 + t.size)
    then mem (t.start + (a - w.key - 1))
    else mem a

-- the entries down to the mark, which is taken off too; a fault is a read below the stack
unfoldable pub exit_loop : World → Parser → List (Option Name) → Run Parser
unfolding with_key rhhm_remove_str
exit_loop w p [] = fault
exit_loop w p (none ∷ scope) = done (record p { scope = scope })
exit_loop w p (some t ∷ scope) = do
  sym ← rhhm_remove_str (with_key w p.mem p.depth t) p.sym w.key (t.size + 1)
  exit_loop w (record p { sym = sym }) scope

unfoldable pub parser_exit : World → Parse (Unit {0})
unfolding run exit_loop
parser_exit w =
    run (λ p. do p' ← exit_loop w p p.scope; done (tt, record p' { depth = p'.depth - 1 }))

-- from depth `d` down to 0; -1 in 32 bits if there is none
unfoldable pub sym_loop : World → Parser → Name → ℕ → Run ℕ
unfolding with_key rhhm_get_str
sym_loop w p t zero = rhhm_get_str (with_key w p.mem 0 t) p.sym w.key (t.size + 1)
sym_loop w p t (suc d) = do
  r ← rhhm_get_str (with_key w p.mem (suc d) t) p.sym w.key (t.size + 1)
  let rest = sym_loop w p t d
  if ltb r (2 ^ 31) then done r else rest

-- The assertion is on the length of the key; a name that ends beyond the NUL is not in the text.
unfoldable pub parser_sym : World → Name → Parse ℕ
unfolding run sym_loop
parser_sym w t = run (λ p.
    if ltb 256 (t.size + 1)
    then fault
    else if ltb (p.end + 1) (t.start + t.size)
    then fault
    else (do r ← sym_loop w p t p.depth; done (r, p)))

unfoldable pub parser_newsym : World → Name → Parse ℕ
unfolding run parser_scope_push ir_newvar upd rhhm_insert_str
parser_newsym w t = run (λ p. if ltb 256 (t.size + 1) then fault else (do
  p₁ ← if p.depth == 0 then done p else parser_scope_push (some t) p
  let mem = upd p₁.mem (t.start - 1) (p₁.depth % 256)
  let (r, c) = ir_newvar p₁.c
  if leb ir_op_max r then fault else (do
    sym ← rhhm_insert_str mem w.has_memory p₁.sym (t.start - 1) (t.size + 1) r
    done (
      r,
      record p₁ { mem = mem; c = c; sym_cdepth = upd p₁.sym_cdepth r (p₁.cdepth % 256); sym = sym },
    ))))
