-- ===== src/Alloc/Liveness/Order.antt =====
-- The words of `liveness` come to `allocate` in order, and a live range is extended to the end of
-- the loops that it is used in.
use native.Mathlib.Decide.{ℕ_discrete}
use minilua.Common.{
  ℕ, zero, suc, ◌+◌, ◌*◌, ◌/◌, ◌%◌, ◌^◌, ◌≤◌, ◌<◌, ◌≡◌, ◌≢◌, ◌⊎◌, inl, inr, false, ◌==◌, ltb, leb,
  ltb→lt, ltb→ge, if◌then◌else◌, Bool-cases, List, [], ◌∷◌, done, fault, arith,
}
use minilua.Ir.{Tac, Ir, ir_is_jmp, ir_is_mark}
use minilua.Ir.Ops.{ir_op_noop, ir_no_target, ir_op_max}
use minilua.Alloc.Liveness.{minus_one, extend}

-- a word of `ini`: -1, or the number of its variable, which is not that for no target, below its start
abbrev pub IsWord : ℕ → ℕ → Type 0
IsWord w v = (w ≡ minus_one) ⊎ ((w % 2 ^ 16 ≡ v) × (v ≢ ir_no_target))

-- the start of each variable, from the array
abbrev pub start_of : (ℕ → ℕ) → ℕ → ℕ
start_of ini v = if v == ir_no_target then ir_no_target else ini v / 2 ^ 16

abbrev Sorted : (ℕ → ℕ) → ℕ → List ℕ → Type 0
Sorted start lo [] = Unit
Sorted start lo (w ∷ ws) = (lo ≤ w) × (start (w % 2 ^ 16) ≡ w / 2 ^ 16) × Sorted start w ws

-- an instruction that gives the variable `v` a value
abbrev pub Defines : Tac → ℕ → Type 0
Defines t v =
    (t.op ≢ ir_op_noop)
    × (ir_is_mark t.op ≡ false)
    × (ir_is_jmp t.op ≡ false)
    × (t.target ≡ v)
    × (v ≢ ir_no_target)

-- The word of a variable that none of the first `n` instructions defines is `other`, and that of
-- another variable has the number of the first one that does above its own.
abbrev pub StartsFirst : ℕ → (ℕ → Tac) → ℕ → ℕ → ℕ → Type 0
StartsFirst n ops other v w =
    ((w ≡ other) × ((k : ℕ) → k < n → ¬ Defines (ops k) v))
    ⊎ ((k : ℕ) × (k < n)
        × Defines (ops k) v
        × ((j : ℕ) → j < k → ¬ Defines (ops j) v)
        × (w ≡ k * 2 ^ 16 + v))

-- With rounds for the rest of the array and one more, the end of a live range moves on to the first
-- place that is no deeper in loops than its start; if there is none inside the array, as for a
-- variable without a use, the loop reads beyond it.
pub extend-first :
    (fuel : ℕ) (depth : ℕ → ℕ) (b e : ℕ)
    → 0 < fuel
    → ir_op_max < fuel + e
    → ((extend fuel depth b e ≡ fault) × ((k : ℕ) → e ≤ k → k < ir_op_max → depth b < depth k))
      ⊎ ((e' : ℕ) × (extend fuel depth b e ≡ done e')
          × (e ≤ e')
          × (e' < ir_op_max)
          × (depth e' ≤ depth b)
          × ((k : ℕ) → e ≤ k → k < e' → depth b < depth k))
unfolding extend
extend-first zero depth b e pos enough = elim pos [ ]
extend-first (suc fuel) depth b e pos enough = elim (Bool-cases (leb ir_op_max e)) [
  | inl beyond ↦ inl (rw beyond, λ k ge lt. absurd (ground arith))
  | inr inside ↦
      let small : e < ir_op_max = ground arith in
      elim (Bool-cases (ltb (depth b) (depth e))) [
        | inr here ↦ inr (
          e,
          rw (inside, here),
          omega arith,
          small,
          ltb→ge _ _ here,
          λ k ge lt. absurd (omega arith),
        )
        | inl deeper ↦
            let deep = ltb→lt (depth b) (depth e) deeper in
            let at = λ (k : ℕ) (ge : e ≤ k) (above : e + 1 ≤ k → depth b < depth k).
              let r : depth b < depth k = (elim (ℕ_discrete k e) [
                | yes is ↦ rw is deep
                | no other ↦ above (omega arith)
              ]) in
              r in
            elim (extend-first fuel depth b (e + 1) (omega arith) (omega arith)) [
              | inl (run, deeper_all) ↦
                  inl (rw (inside, deeper) run, λ k ge lt. at k ge (λ ge'. deeper_all k ge' lt))
              | inr (e', run, le, lt, ends, deeper_all) ↦ inr (
                e',
                rw (inside, deeper) run,
                omega arith,
                lt,
                ends,
                λ k ge below. at k ge (λ ge'. deeper_all k ge' below),
              )
            ]
      ]
]
