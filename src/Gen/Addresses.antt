-- ===== src/Gen/Addresses.antt =====
-- The addresses in `op_addr`: each instruction has that of the place where its code starts, behind the
-- code of those before it.
use minilua.Common.{
  ℕ, zero, suc, ◌+◌, ◌^◌, ◌≤◌, ◌<◌, ◌≡◌, ◌≢◌, refl, ◌∙◌, ap, Run, done, fault, stuck, ◌>>=◌, ℤ,
  assign_same, assign_other, arith, ◌⊎◌, inl, inr,
}
use minilua.Asm.{Cc}
use minilua.Ir.{Ir}
use minilua.Gen.{Runtime, compile_op, compile_loop, at_op}
use minilua.Gen.Jumps.{Emits}
use minilua.Gen.Chunk.{compile_op-Emits, op_targets}

module _ (rt : Runtime) (o : Ir) (assignment : ℕ → ℤ) (lvar : ℕ) where
  -- The code of the `k` instructions from `i` on ends at `a`.
  abbrev pub EndsAt : ℕ → ℕ → Cc → ℕ → Type 0
  EndsAt k i c a = (cₖ : Cc) × (compile_loop rt o assignment lvar k i c ≡ done cₖ) × (a ≡ cₖ.p)

  -- what the `n` instructions from `i` on leave in `op_addr`
  abbrev pub Addressed : ℕ → ℕ → Cc → Run Cc → Type 0
  Addressed n i c (done c') =
      ((t : ℕ) → (t < i) ⊎ (i + n ≤ t) → c'.op_addr t ≡ c.op_addr t)
      × ((k : ℕ) → k < n → EndsAt k i c (c'.op_addr (i + k)))
  Addressed n i c fault = Unit
  Addressed n i c stuck = Unit

  at_first :
      (i : ℕ) (c c₁ c' : Cc)
      → c₁.op_addr ≡ (at_op rt o assignment lvar i c).op_addr
      → c'.op_addr i ≡ c₁.op_addr i
      → c'.op_addr i ≡ c.p
  at_first i c c₁ c' same first = first ∙ ap (λ (f : ℕ → ℕ). f i) same ∙ assign_same c.op_addr i c.p

  -- the first instruction, and the others behind it
  step-Addressed :
      (n i : ℕ) (c c₁ : Cc) (r : Run Cc)
      → compile_op rt o assignment lvar (o.ops i) i (at_op rt o assignment lvar i c) ≡ done c₁
      → c₁.op_addr ≡ (at_op rt o assignment lvar i c).op_addr
      → Addressed n (i + 1) c₁ r
      → Addressed (suc n) i c r
  unfolding compile_loop
  step-Addressed n i c c₁ fault run same h = tt
  step-Addressed n i c c₁ stuck run same h = tt
  step-Addressed n i c c₁ (done c') run same (others, ends) = (
    λ t out.
        let far : (t < i + 1) ⊎ (i + 1 + n ≤ t) = (elim out [
          | inl before ↦ inl (omega arith)
          | inr behind ↦ inr (omega arith)
        ]) in
        let other : t ≢ i = (elim out [ inl before ↦ omega arith | inr behind ↦ omega arith ]) in
        others t far ∙ ap (λ (f : ℕ → ℕ). f t) same ∙ assign_other c.op_addr i c.p t other,
    at,
  )
    where
      at : (k : ℕ) → k < suc n → EndsAt k i c (c'.op_addr (i + k))
      at zero lt = (
        c,
        refl,
        ap c'.op_addr (omega arith) ∙ at_first i c c₁ c' same (others i (inl (omega arith))),
      )
      at (suc k) lt =
          let (cₖ, rest, e) = ends k (omega arith) in
          (cₖ, rw run rest, ap c'.op_addr (omega arith) ∙ e)

  pub compile_loop-Addressed :
      (n i : ℕ) (c : Cc)
      → ((k : ℕ) → (o.ops k).target < 2 ^ 16)
      → Addressed n i c (compile_loop rt o assignment lvar n i c)
  unfolding compile_loop
  compile_loop-Addressed zero i c small = (λ t out. refl, λ k lt. elim lt [ ])
  compile_loop-Addressed (suc n) i c small =
      by_run (compile_op rt o assignment lvar (o.ops i) i (at_op rt o assignment lvar i c)) refl
        (compile_op-Emits rt o assignment lvar (o.ops i) i (at_op rt o assignment lvar i c)
          (omega (arith, small i)))
        (λ c₁. compile_loop-Addressed n (i + 1) c₁ small)
    where
      by_run :
          (r : Run Cc)
          → compile_op rt o assignment lvar (o.ops i) i (at_op rt o assignment lvar i c) ≡ r
          → Emits (op_targets (o.ops i) i) (at_op rt o assignment lvar i c) r
          → ((c₁ : Cc) → Addressed n (i + 1) c₁ (compile_loop rt o assignment lvar n (i + 1) c₁))
          → Addressed (suc n) i c (r >>= λ c'. compile_loop rt o assignment lvar n (i + 1) c')
      by_run (done c₁) run h rest =
          step-Addressed n i c c₁ (compile_loop rt o assignment lvar n (i + 1) c₁) run h.1 (rest c₁)
      by_run fault run h rest = tt
      by_run stuck run h rest = tt
