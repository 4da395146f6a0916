-- ===== src/Alloc/Liveness.antt =====
-- `liveness` of cc.c: the first definition and the last use of each variable, over loops.
pub mod Order
use minilua.Common.{
  ℕ, zero, suc, ◌+◌, ◌-◌, ◌*◌, ◌/◌, ◌%◌, ◌^◌, Bool, true, false, not, ◌&&◌, ◌||◌, ◌==◌, ltb, leb,
  if◌then◌else◌, List, [], ◌∷◌, Run, done, fault, stuck, ◌>>=◌, bit_or, assign,
}
use minilua.Ir.{Tac, Ir, ir_is_jmp, ir_is_mark}
use minilua.Ir.Ops.{
  ir_op_noop, ir_op_call, ir_no_arg, ir_no_target, ir_op_max, ir_loop_begin, ir_loop_end,
}

-- (u32)-1
abbrev pub minus_one : ℕ
minus_one = 2 ^ 32 - 1

-- -1 in the first `size` places of an array on the stack
abbrev pub reset : ℕ → (ℕ → ℕ) → ℕ → ℕ
reset size junk v = if ltb v size then minus_one else junk v

unfoldable pub ini_step : Tac → ℕ → (ℕ → ℕ) → ℕ → ℕ
unfolding ir_is_jmp ir_is_mark
ini_step t i ini =
    if t.op == ir_op_noop || ir_is_mark t.op
    then ini
    else if not (ir_is_jmp t.op) && not (t.target == ir_no_target)
    then assign ini t.target (bit_or (i * 2 ^ 16) t.target)
    else ini

-- from instruction `n - 1` down to the first
unfoldable pub ini_loop : ℕ → (ℕ → Tac) → (ℕ → ℕ) → ℕ → ℕ
unfolding ini_step
ini_loop zero ops ini = ini
ini_loop (suc i) ops ini = ini_loop i ops (ini_step (ops i) i ini)

pub record Ends : Type 0 where
  pub depth : ℕ
  pub loop_depth : ℕ → ℕ
  pub end : ℕ → ℕ

-- the depth is a `u8`
unfoldable pub next_depth : ℕ → ℕ → ℕ
next_depth op depth =
    if op == ir_loop_begin
    then (depth + 1) % 256
    else if op == ir_loop_end
    then (depth + 255) % 256
    else depth

unfoldable pub use_step : Tac → ℕ → (ℕ → ℕ) → ℕ → ℕ
unfolding ir_is_mark
use_step t i end =
    if t.op == ir_op_noop || ir_is_mark t.op
    then end
    else (let end' = (if ltb t.a 32768 && not (t.a == ir_no_arg) then assign end t.a i else end) in
        if ltb t.b 32768 && not (t.b == ir_no_arg) && not (t.op == ir_op_call)
        then assign end' t.b i
        else end')

unfoldable pub end_step : Tac → ℕ → Ends → Ends
unfolding next_depth use_step
end_step t i s =
    let depth = next_depth t.op s.depth in
    record { depth = depth; loop_depth = assign s.loop_depth i depth; end = use_step t i s.end }

unfoldable pub end_loop : ℕ → ℕ → (ℕ → Tac) → Ends → Ends
unfolding end_step
end_loop zero i ops s = s
end_loop (suc n) i ops s = end_loop n (i + 1) ops (end_step (ops i) i s)

-- `while (loop_depth[e] > loop_depth[b]) e = ++end[j];` from an end `e`: -1, of a variable without
-- a use, is an index before the array
unfoldable pub extend : ℕ → (ℕ → ℕ) → ℕ → ℕ → Run ℕ
extend zero loop_depth b e = stuck
extend (suc fuel) loop_depth b e =
    let rest = extend fuel loop_depth b (e + 1) in
    if leb ir_op_max e then fault else if ltb (loop_depth b) (loop_depth e) then rest else done e

-- the rounds for the variables `j` up to `j + n - 1`
unfoldable pub extend_loop : ℕ → ℕ → (ℕ → ℕ) → (ℕ → ℕ) → (ℕ → ℕ) → Run (ℕ → ℕ)
unfolding extend
extend_loop zero j loop_depth ini end = done end
extend_loop (suc n) j loop_depth ini end = do
  e ← extend (ir_op_max + 1) loop_depth (ini j / 2 ^ 16) (end j)
  extend_loop n (j + 1) loop_depth ini (assign end j e)

unfoldable pub insert_word : ℕ → List ℕ → List ℕ
insert_word w [] = w ∷ []
insert_word w (v ∷ vs) = if leb w v then w ∷ v ∷ vs else v ∷ insert_word w vs

-- what `qsort` by `allocate_cmp` leaves in the first `n` places of `ini`
unfoldable pub sorted_words : ℕ → (ℕ → ℕ) → List ℕ
unfolding insert_word
sorted_words zero ini = []
sorted_words (suc n) ini = insert_word (ini n) (sorted_words n ini)

-- the words in order, the place of `ini` behind them, which is not sorted, and the ends
pub record Live : Type 0 where
  pub words : List ℕ
  pub behind : ℕ
  pub end : ℕ → ℕ

-- `junk` is what the arrays of the caller hold, `loop_depth` starts with zeros
unfoldable pub liveness : (ℕ → ℕ) → (ℕ → ℕ) → Ir → Run Live
unfolding ini_loop end_loop extend_loop sorted_words
liveness junk_ini junk_end c = do
  let ini = ini_loop c.size c.ops (reset c.size junk_ini)
  let s =
      end_loop c.size 0 c.ops
        (record { depth = 0; loop_depth = λ i. 0; end = reset c.size junk_end })
  end ← extend_loop c.iv 0 s.loop_depth ini s.end
  done (record { words = sorted_words c.size ini; behind = ini c.size; end = end })
