-- ===== src/Ir/Peephole/Coalesce.antt =====
-- A result that is only copied.
use minilua.Common.{ℕ, ◌||◌, ◌==◌, if◌then◌else◌}
use minilua.Ir.{Tac, ir_is_mark}
use minilua.Ir.Ops.{ir_op_noop, ir_op_lcopy, ir_op_tstore}

-- the values of variables after an instruction that is no jump; `eval` gives its result. Marks define
-- no variable, and a store to a table reads its target, which it stores to.
abbrev pub runs : (ℕ → ℕ → ℕ → (ℕ → ℕ) → ℕ) → Tac → (ℕ → ℕ) → ℕ → ℕ
runs eval t env v =
    if t.op == ir_op_noop || ir_is_mark t.op || t.op == ir_op_tstore
    then env v
    else if v == t.target
    then (if t.op == ir_op_lcopy then env t.a else eval t.op t.a t.b env)
    else env v
