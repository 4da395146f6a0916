-- ===== src/Gen/Resolve.antt =====
-- The jumps of a whole chunk lead where they should: the epilogue is written behind the code whose
-- marks `cc_fill_marks` filled.
use minilua.Common.{ℕ, ◌+◌, ◌-◌, ◌⊎◌, ◌≢◌, ◌^◌, ◌≤◌, ◌<◌, ◌≡◌, List, Run, done, fault, stuck}
use minilua.Asm.{Cc}
use minilua.Asm.Marks.{Resolved}
use minilua.Ir.{Ir}
use minilua.Gen.Places.{Frame, frame}
use minilua.Gen.{Runtime, prologue}
use minilua.Gen.Addresses.{EndsAt}

-- `c'` is `c` with code behind it
record Later (c c' : Cc) : Type 0 where
  p_le : c.p ≤ c'.p
  same_fill : c'.fill ≡ c.fill
  same_addr : c'.op_addr ≡ c.op_addr
  same_mem : (x : ℕ) → x < c.p → c'.mem x ≡ c.mem x

-- the marks of a run that ends with code
abbrev Jumps : List ℕ → Run Cc → Type 0
Jumps ts (done c) = c.p ≤ 2 ^ 64 → Resolved c.op_addr c.mem c.fill ts
Jumps ts fault = Unit
Jumps ts stuck = Unit

module _ (rt : Runtime) (o : Ir) (begin end : ℕ) (words : List ℕ) (live_end : ℕ → ℕ) where
  -- what the chunk leaves in `op_addr`
  pub record Laid (c c' : Cc) : Type 0 where
    pub f : Frame
    pub framed : frame o begin words live_end ≡ done f
    pub each :
        (k : ℕ)
        → k < end - begin
        → EndsAt rt o f.assignment f.lvar k begin (prologue f c) (c'.op_addr (begin + k))
    pub last :
        EndsAt rt o f.assignment f.lvar (end - begin) begin (prologue f c) (c'.op_addr o.size)
    pub others : (t : ℕ) → (t < begin) ⊎ (end ≤ t) → t ≢ o.size → c'.op_addr t ≡ c.op_addr t

  abbrev LaidRun : Cc → Run Cc → Type 0
  LaidRun c (done c') = Laid c c'
  LaidRun c fault = Unit
  LaidRun c stuck = Unit
