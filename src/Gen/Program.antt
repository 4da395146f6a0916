-- ===== src/Gen/Program.antt =====
-- `compile` of cc.c: the functions of a program from the last to the first, then its top level.
use minilua.Common.{
  ℕ, zero, suc, ◌+◌, ◌%◌, ◌^◌, Bool, ◌&&◌, ◌==◌, leb, if◌then◌else◌, List, [], ◌∷◌, ◌++◌, length,
  Run, done, fault, ◌>>=◌,
}
use minilua.Asm.{Cc}
use minilua.Value.{box_cfunction}
use minilua.Ir.{Ir, Tac, write, ir_ctt}
use minilua.Ir.Ops.{ir_op_noop, ir_op_max, ir_function_begin}
use minilua.Ir.Peephole.{ir_opt}
use minilua.Ir.Elim.{ir_phi_elim}
use minilua.Alloc.Liveness.{Live, liveness}
use minilua.Gen.{Runtime, compile_chunk}

-- what the code depends on: the hash of tables, memory for the map of constants, what the two arrays
-- on the stack hold before, the blocks that `cc_init` maps one after
-- another, and whether `mprotect` succeeds on them
pub record Machine : Type 0 where
  pub runtime : Runtime
  pub tbl_hash : ℕ → ℕ
  pub alloc : Bool
  pub junk_ini : ℕ → ℕ
  pub junk_end : ℕ → ℕ
  pub blocks : ℕ → Cc
  pub protects : ℕ → Bool

unfoldable pub cc_done : Bool → ℕ → ℕ
cc_done ok start = if ok then start else 0

-- the code, and the blocks that were filled, the first one first
pub record Compiled : Type 0 where
  pub ir : Ir
  pub chunks : List Cc

-- the words that `allocate` reads: those that `liveness` sorts, and the one behind them, which a
-- variable with that number has written, or nobody
abbrev pub scanned : Live → List ℕ
scanned live = live.words ++ (live.behind ∷ [])

unfoldable pub compile_here : Machine → Live → ℕ → ℕ → Compiled → Run Cc
unfolding compile_chunk
compile_here w live begin end s =
    compile_chunk w.runtime s.ir begin end (scanned live) live.end (w.blocks (length s.chunks))

-- instructions `begin` up to `end` become no-ops
unfoldable pub erase : ℕ → ℕ → (ℕ → Tac) → ℕ → Tac
erase begin end ops k =
    if leb begin k && leb k end then record (ops k) { op = ir_op_noop } else ops k

-- A function whose code ends with the array has no instruction behind it: a fault.
unfoldable pub compile_function : Machine → Live → ℕ → Compiled → Run Compiled
unfolding compile_here erase ir_ctt cc_done box_cfunction
compile_function w live i s =
    let end = (s.ir.ops i).target in
    let block = length s.chunks in
    if leb ir_op_max (end + 1) then fault else (do
      c ← compile_here w live i end s
      let fn = cc_done (w.protects block) (w.blocks block).p
      let erased = record s.ir { ops = erase i end s.ir.ops }
      (n, ir) ← ir_ctt w.tbl_hash w.alloc erased (box_cfunction fn)
      let ops = write ir.ops (end + 1) (record (ir.ops (end + 1)) { a = n % 2 ^ 16 })
      done (record { ir = record ir { ops = ops }; chunks = s.chunks ++ (c ∷ []) }))

-- from instruction `n - 1` down to the first
unfoldable pub compile_functions : ℕ → Machine → Live → Compiled → Run Compiled
unfolding compile_function
compile_functions zero w live s = done s
compile_functions (suc i) w live s =
    let rest = λ (s' : Compiled). compile_functions i w live s' in
    if (s.ir.ops i).op == ir_function_begin
    then (do s' ← compile_function w live i s; rest s')
    else rest s

-- the chunks, the last of which is that of the top level, and what `compile` returns
unfoldable pub compile : Machine → Ir → Run (ℕ × Compiled)
unfolding ir_opt ir_phi_elim liveness compile_functions compile_here cc_done
compile w c = do
  c₁ ← ir_phi_elim (ir_opt c)
  live ← liveness w.junk_ini w.junk_end c₁
  s ← compile_functions c₁.size w live (record { ir = c₁; chunks = [] })
  top ← compile_here w live 0 s.ir.size s
  let block = length s.chunks
  done (cc_done (w.protects block) (w.blocks block).p, record s { chunks = s.chunks ++ (top ∷ []) })
