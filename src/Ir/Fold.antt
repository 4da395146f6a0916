-- ===== src/Ir/Fold.antt =====
-- `fold`: the constant that an operation on two constants comes to.
use minilua.Common.{
  ℕ, ◌+◌, ◌-◌, ◌^◌, ◌<◌, ◌≡◌, Bool, true, false, ◌==◌, ◌&&◌, ◌||◌, ltb, leb, if◌then◌else◌, List,
  ◌⊎◌, refl, length, Option, none, some, Run, done, fault, ◌>>=◌, arith, Bool-cases, inl, inr,
}
use minilua.Value.Ops.{Fpu, bv_add, bv_mul, bv_sub, bv_div}
use minilua.Ir.{Tac, Ir, ir_ctt, sext, minus32}
use minilua.Ir.Ops.{ir_op_lcopy, ir_ctt_max}
use minilua.Ir.Intern.{Interned, ctt_at, ctt-Interned}

-- `-a - 1`, for an `i16` below 0
abbrev pub ctt_index : ℕ → ℕ
ctt_index a = 2 ^ 16 - a - 1

-- a constant that was pushed
abbrev vget_ctt : List ℕ → ℕ → Run ℕ
vget_ctt ctts i = if ltb i (length ctts) then done (ctt_at ctts i) else fault

-- the cases of the switch: `none` is its default, `some none` a call of `lua_error`, which has no
-- state to jump to there
unfoldable pub calculate : Fpu → ℕ → ℕ → ℕ → Option (Option ℕ)
unfolding bv_add bv_mul bv_sub bv_div
calculate fpu op a b =
    if op == b'+'
    then some (bv_add fpu a b)
    else if op == b'*'
    then some (bv_mul fpu a b)
    else if op == b'-'
    then some (bv_sub fpu a b)
    else if op == b'/'
    then some (bv_div fpu a b)
    else none

-- what the language says of an operation on two numbers: addition adds, and the others take no NaN
abbrev pub Computes : Fpu → ℕ → ℕ → ℕ → ℕ → Type 0
Computes fpu op a b v =
    ((op ≡ b'+') × (v ≡ fpu.add a b))
    ⊎ ((fpu.isnan a ≡ false)
        × (fpu.isnan b ≡ false)
        × (((op ≡ b'-') × (v ≡ fpu.sub a b))
            ⊎ ((op ≡ b'*') × (v ≡ fpu.mul a b))
            ⊎ ((op ≡ b'/') × (v ≡ fpu.div a b))))

unfoldable pub fold_value : (ℕ → ℕ) → Bool → Ir → Option (Option ℕ) → Run (ℕ × Ir)
unfolding ir_ctt
fold_value tbl_hash alloc c none = done (0, c)
fold_value tbl_hash alloc c (some none) = fault
fold_value tbl_hash alloc c (some (some v)) = ir_ctt tbl_hash alloc c v

unfoldable pub fold : Fpu → (ℕ → ℕ) → Bool → Ir → Tac → Run (ℕ × Ir)
unfolding calculate fold_value sext
fold fpu tbl_hash alloc c t =
    if t.op == ir_op_lcopy && leb 32768 t.a
    then done (sext t.a, c)
    else if ltb t.a 32768 || ltb t.b 32768
    then done (0, c)
    else (do
      a ← vget_ctt c.ctts (ctt_index t.a)
      b ← vget_ctt c.ctts (ctt_index t.b)
      fold_value tbl_hash alloc c (calculate fpu t.op a b))

calculate-Computes :
    (fpu : Fpu) (op a b v : ℕ) → Computes fpu op a b v → calculate fpu op a b ≡ some (some v)
unfolding calculate bv_add bv_mul bv_sub bv_div
calculate-Computes fpu op a b v (inl (is, e)) = rw (is, e) refl
calculate-Computes fpu op a b v (inr (na, nb, inl (is, e))) = rw (is, e, na, nb) refl
calculate-Computes fpu op a b v (inr (na, nb, inr (inl (is, e)))) = rw (is, e, na, nb) refl
calculate-Computes fpu op a b v (inr (na, nb, inr (inr (is, e)))) = rw (is, e, na, nb) refl

not_copy :
    (fpu : Fpu) (op a b : ℕ) (r : Option ℕ)
    → calculate fpu op a b ≡ some r
    → (op == ir_op_lcopy) ≡ false
unfolding calculate
not_copy fpu op a b r h = elim (Bool-cases (op == ir_op_lcopy)) [
  | inl copy ↦ let e : op ≡ ir_op_lcopy = ground arith in cc (rw e at h)
  | inr other ↦ other
]

vget_ctt-at :
    (ctts : List ℕ) (a i : ℕ)
    → i < length ctts
    → length ctts < ir_ctt_max
    → a ≡ 2 ^ 16 - (i + 1)
    → vget_ctt ctts (ctt_index a) ≡ done (ctt_at ctts i)
vget_ctt-at ctts a i lt room e =
    let index : ctt_index a ≡ i = omega arith in
    let inside : ltb i (length ctts) ≡ true = ground arith in rw (index, inside)

-- An operation whose operands are the constants `i` and `j`, with room for one more constant: where
-- `v` is the sum of the two values, or, with neither a NaN, their difference, product or quotient, as
-- the code of the operation says, `fold` returns the number of a constant that is `v`, and keeps the
-- constants and their map in step.
pub fold-Interned :
    (fpu : Fpu) (tbl_hash : ℕ → ℕ) (c : Ir) (t : Tac) (i j v : ℕ)
    → Interned tbl_hash c
    → length c.ctts < ir_ctt_max
    → i < length c.ctts
    → j < length c.ctts
    → t.a ≡ 2 ^ 16 - (i + 1)
    → t.b ≡ 2 ^ 16 - (j + 1)
    → Computes fpu t.op (ctt_at c.ctts i) (ctt_at c.ctts j) v
    → (k : ℕ) × (c' : Ir) × (fold fpu tbl_hash true c t ≡ done (minus32 (k + 1), c'))
      × Interned tbl_hash c'
      × (k < length c'.ctts)
      × (ctt_at c'.ctts k ≡ v)
unfolding fold fold_value
fold-Interned fpu tbl_hash c t i j v inv room li lj ea eb computes =
    let value = calculate-Computes fpu t.op (ctt_at c.ctts i) (ctt_at c.ctts j) v computes in
    let (k, c', run, inv', inside, e, _) = ctt-Interned tbl_hash c inv room v in
    let copy = not_copy fpu t.op (ctt_at c.ctts i) (ctt_at c.ctts j) (some v) value in
    let below : (ltb t.a 32768 || ltb t.b 32768) ≡ false = ground arith in
    let first = vget_ctt-at c.ctts t.a i li room ea in
    let second = vget_ctt-at c.ctts t.b j lj room eb in
    (k, c', rw (copy, below, first, second, value, run), inv', inside, e)
