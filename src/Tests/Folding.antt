-- ===== src/Tests/Folding.antt =====
-- The sum of a constant and itself.
use minilua.Common.{ℕ, ◌+◌, ◌<◌, ◌≡◌, refl, true, [], ◌∷◌, length, done, arith, inl, inr}
use minilua.Value.Ops.{bv_add}
use minilua.Ir.{Tac, Ir, ir_init, minus32}
use minilua.Ir.Intern.{Interned, ctt_at, init-Interned, ctt-Interned}
use minilua.Ir.Fold.{fold, calculate, fold-Interned}
use minilua.Tests.Tacs.{raw, tbl_hash}
use minilua.Tests.Words.{adder}

held : (c : Ir) × Interned tbl_hash c × (c.ctts ≡ 42 ∷ [])
unfolding ir_init
held =
    let (i, c, run, inv, inside, e, grown) =
      ctt-Interned tbl_hash (ir_init raw) (init-Interned tbl_hash raw) (omega arith) 42 in
    elim grown [
      | inl same ↦ absurd (let none : i < 0 = rw same at inside in omega arith)
      | inr (longer, _) ↦ (c, inv, longer)
    ]

abbrev sum : Tac
sum = record { op = b'+'; a = 65535; b = 65535; target = 3 }

fold-Interned_example :
    (k : ℕ) × (c' : Ir) × (fold adder tbl_hash true held.0 sum ≡ done (minus32 (k + 1), c'))
    × Interned tbl_hash c'
    × (k < length c'.ctts)
    × (ctt_at c'.ctts k ≡ 84)
unfolding calculate bv_add
fold-Interned_example =
    fold-Interned adder tbl_hash held.0 sum 0 0 84 held.1 (rw held.2 (omega arith))
      (rw held.2 (omega arith)) (rw held.2 (omega arith)) refl refl (inl (refl, rw held.2 refl))
