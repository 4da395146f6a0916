-- ===== src/Gc/Hearts.antt =====
-- The objects that have been moved, counted.
use native.Mathlib.Decide.{ℕ_discrete}
use minilua.Common.{
  ℕ, zero, suc, ◌+◌, ◌*◌, ◌≤◌, ◌<◌, ◌≡◌, ◌≢◌, refl, sym, ◌∙◌, ap, ==_refl, ==_false, arith,
}
use minilua.Gc.{Object, live, heart, put}
use minilua.Rhhm.{Rhhm}

pub put_same : (heap : ℕ → Object) (a : ℕ) (o : Object) → put heap a o a ≡ o
unfolding put
put_same heap a o = rw (==_refl a) refl

pub put_other : (heap : ℕ → Object) (a : ℕ) (o : Object) (x : ℕ) → x ≢ a → put heap a o x ≡ heap x
unfolding put
put_other heap a o x other = rw (==_false x a other) refl

abbrev pub weight : Object → ℕ
weight (live h) = 0
weight (heart a) = 1

-- among the first `n` objects from `F` on
unfoldable pub hearts : ℕ → ℕ → (ℕ → Object) → ℕ
hearts zero F heap = 0
hearts (suc n) F heap = weight (heap (F + 8 * n)) + hearts n F heap

pub hearts-same :
    (n F : ℕ) (heap heap' : ℕ → Object)
    → ((i : ℕ) → i < n → heap' (F + 8 * i) ≡ heap (F + 8 * i))
    → hearts n F heap' ≡ hearts n F heap
unfolding hearts
hearts-same zero F heap heap' same = refl
hearts-same (suc n) F heap heap' same =
    let here = ap weight (same n (omega arith)) in
    omega (arith, here, hearts-same n F heap heap' (λ i lt. same i (omega arith)))

weight-le : (o : Object) → weight o ≤ 1
weight-le (live h) = omega arith
weight-le (heart a) = omega arith

pub hearts-le : (n F : ℕ) (heap : ℕ → Object) → hearts n F heap ≤ n
unfolding hearts
hearts-le zero F heap = omega arith
hearts-le (suc n) F heap = omega (arith, weight-le (heap (F + 8 * n)), hearts-le n F heap)

pub hearts-lt :
    (n F : ℕ) (heap : ℕ → Object) (i : ℕ) (h : Rhhm)
    → i < n
    → heap (F + 8 * i) ≡ live h
    → hearts n F heap < n
unfolding hearts
hearts-lt zero F heap i h lt e = elim lt [ ]
hearts-lt (suc n) F heap i h lt e = elim (ℕ_discrete i n) [
  | yes here ↦
      let none : weight (heap (F + 8 * n)) ≡ 0 =
        ap weight (ap (λ k. heap (F + 8 * k)) (sym here) ∙ e) in
      omega (arith, none, hearts-le n F heap)
  | no other ↦ omega (arith, weight-le (heap (F + 8 * n)), hearts-lt n F heap i h (omega arith) e)
]

-- one more object has been moved
pub hearts-move :
    (n F : ℕ) (heap : ℕ → Object) (i a : ℕ) (h : Rhhm)
    → i < n
    → heap (F + 8 * i) ≡ live h
    → hearts n F (put heap (F + 8 * i) (heart a)) ≡ suc (hearts n F heap)
unfolding hearts
hearts-move zero F heap i a h lt e = elim lt [ ]
hearts-move (suc n) F heap i a h lt e = elim (ℕ_discrete i n) [
  | yes here ↦
      let old : weight (heap (F + 8 * n)) ≡ 0 =
        ap weight (ap (λ k. heap (F + 8 * k)) (sym here) ∙ e) in
      let new : weight (put heap (F + 8 * i) (heart a) (F + 8 * n)) ≡ 1 = ap weight (
        ap (λ k. put heap (F + 8 * i) (heart a) (F + 8 * k)) (sym here)
        ∙ put_same heap (F + 8 * i) (heart a)) in
      let rest =
        hearts-same n F heap (put heap (F + 8 * i) (heart a))
          (λ k below. put_other heap (F + 8 * i) (heart a) (F + 8 * k) (omega arith)) in
      omega (arith, old, new, rest)
  | no other ↦
      let same = ap weight (put_other heap (F + 8 * i) (heart a) (F + 8 * n) (omega arith)) in
      omega (arith, same, hearts-move n F heap i a h (omega arith) e)
]
