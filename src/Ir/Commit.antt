-- ===== src/Ir/Commit.antt =====
-- `ir_phi_commit` of ir.c: the entries of the innermost frame of phi functions become code, at the
-- end of a conditional or in front of the body of a loop.
pub mod Rounds
pub mod Joins
use minilua.Common.{
  ℕ, zero, suc, ◌+◌, ◌-◌, ◌*◌, ◌%◌, ◌^◌, Bool, ◌&&◌, ◌||◌, not, ◌==◌, ltb, leb, if◌then◌else◌, Run,
  done, fault, stuck, ◌>>=◌,
}
use minilua.Ir.{Ir, Tac, write, sext, ir_is_jmp, ir_newvar, ir_phi_ins}
use minilua.Ir.Ops.{ir_op_noop, ir_op_call, ir_op_max, phi_cond}

-- the code, and the array `assignment` of the parser
pub record Commit : Type 0 where
  pub ir : Ir
  pub assignment : ℕ → ℕ

-- how many entries stand before the mark; a fault is a read behind the array
unfoldable pub phi_size : ℕ → (ℕ → Tac) → ℕ → Run ℕ
phi_size zero ops i = fault
phi_size (suc fuel) ops i =
    let rest = phi_size fuel ops (i + 1) in
    if (ops i).op == ir_op_noop then done 0 else (do n ← rest; done (n + 1))

-- one instruction of the loop in which `nv` is used for `old`
unfoldable pub replace_use : ℕ → ℕ → Tac → Tac
unfolding sext
replace_use old nv t =
    if t.op == ir_op_noop
    then t
    else (let t' = (if sext t.a == old then record t { a = nv % 2 ^ 16 } else t) in
        if sext t'.b == old && not (t'.op == ir_op_call) then record t' { b = nv % 2 ^ 16 } else t')

abbrev pub between : ℕ → ℕ → ℕ → Bool
between from until k = leb from k && ltb k until

-- the rounds over `joinpos` up to `until - 1`, each on its own place
unfoldable pub replace_uses : ℕ → ℕ → ℕ → ℕ → (ℕ → Tac) → ℕ → Tac
unfolding replace_use
replace_uses joinpos until old nv ops k =
    if between joinpos until k then replace_use old nv (ops k) else ops k

unfoldable pub upd : (ℕ → ℕ) → ℕ → ℕ → ℕ → ℕ
upd f v x w = if w == v then x else f w

-- `commit to upper level`
unfoldable pub commit_outer : Ir → ℕ → ℕ → Run Ir
unfolding ir_phi_ins
commit_outer c nv old =
    if c.phidepth == 0 then done c else (do (status, c') ← ir_phi_ins c nv old; done c')

-- The entry at `j`. An operand that is a constant is an index before `assignment`, a fault; as is a
-- variable or an instruction behind the arrays.
unfoldable pub commit_round : ℕ → ℕ → ℕ → ℕ → Commit → Run Commit
unfolding replace_uses upd commit_outer ir_newvar
commit_round jointype joinpos until j s =
    let c = s.ir in
    let t = c.ops j in
    let (nv, c₁) = ir_newvar c in
    if leb 32768 t.a || leb 32768 t.b || leb ir_op_max nv || leb ir_op_max c.size
    then fault
    else (do
      let ops =
          (if jointype == phi_cond then c.ops else replace_uses joinpos until t.target nv c.ops)
      let phi = record (ops j) { target = nv }
      let c₂ = record c₁ { ops = write (write ops j phi) c.size phi; size = c.size + 1 }
      let assignment =
          upd (upd (upd (upd s.assignment nv (s.assignment t.target)) t.target nv) t.a nv) t.b nv
      c₃ ← commit_outer c₂ nv t.target
      done (record { ir = c₃; assignment = assignment }))

-- the entries `i` up to `i + n - 1`, the last one first
unfoldable pub commit_loop : ℕ → ℕ → ℕ → ℕ → ℕ → Commit → Run Commit
unfolding commit_round
commit_loop zero jointype joinpos until i s = done s
commit_loop (suc n) jointype joinpos until i s = do
  s' ← commit_round jointype joinpos until (i + n) s
  commit_loop n jointype joinpos until i s'

-- `fix jumps`
unfoldable pub shift_jump : ℕ → ℕ → Tac → Tac
unfolding ir_is_jmp
shift_jump joinpos shift t =
    if ir_is_jmp t.op && ltb joinpos t.target
    then record t { target = (t.target + shift) % 2 ^ 16 }
    else t

abbrev pub fix_jumps : ℕ → ℕ → ℕ → (ℕ → Tac) → ℕ → Tac
fix_jumps joinpos until shift ops k =
    if between joinpos until k then shift_jump joinpos shift (ops k) else ops k

-- `memmove` of the code and the entries behind it, and `memcpy` of the entries before it
unfoldable pub move_block : ℕ → ℕ → ℕ → (ℕ → Tac) → ℕ → Tac
move_block joinpos until shift ops k =
    let moved = λ (j : ℕ).
      if between (joinpos + shift) (until + 2 * shift) j then ops (j - shift) else ops j in
    if between joinpos (joinpos + shift) k then moved (k + shift + (until - joinpos)) else moved k

-- the copies to the head of a loop
unfoldable pub commit_move : ℕ → ℕ → ℕ → ℕ → Commit → Run (ℕ × Commit)
unfolding shift_jump move_block
commit_move jointype joinpos until shift s =
    if jointype == phi_cond || shift == 0
    then done (shift, s)
    else if ltb ir_op_max (until + 2 * shift)
    then fault
    else (let ops = move_block joinpos until shift (fix_jumps joinpos until shift s.ir.ops) in
        done (shift, record s { ir = record s.ir { ops = ops } }))

-- Without a frame (`phidepth` 0) there is nothing to commit: a fault.
unfoldable pub ir_phi_commit : Ir → (ℕ → ℕ) → Run (ℕ × Commit)
unfolding phi_size commit_loop commit_move
ir_phi_commit c assignment = if c.phidepth == 0 then fault else (do
  let i = c.iphi
  shift ← phi_size (ir_op_max - i) c.ops i
  let jointype = c.phi_join_type c.phidepth
  let joinpos = c.phi_join_pos c.phidepth
  let until = c.size
  s ← commit_loop shift jointype joinpos until i (record {
    ir = record c { iphi = i + shift + 1; phidepth = c.phidepth - 1 };
    assignment = assignment;
  })
  commit_move jointype joinpos until shift s)
