-- ===== src/Ir/Slots.antt =====
-- Empty slots of a map, in increasing order: a write takes one of them at most.
use native.Mathlib.Decide.{ℕ_discrete}
use minilua.Common.{
  ℕ, zero, suc, ◌+◌, ◌≤◌, ◌<◌, ◌≡◌, refl, List, [], ◌∷◌, length, true, replicate, arith,
}
use minilua.Rhhm.{RhhmData, is_empty, at, empty_entry}
use minilua.Rhhm.Robin.{Writes}
use minilua.Rhhm.Init.{all-empty}

abbrev pub Slots : RhhmData → ℕ → List ℕ → Type 0
Slots d lo [] = Unit
Slots d lo (s ∷ ss) = (lo ≤ s) × (s < d.cap) × (is_empty (at d.table s) ≡ true) × Slots d (s + 1) ss

lower : (d : RhhmData) (lo lo' : ℕ) (ss : List ℕ) → lo ≤ lo' → Slots d lo' ss → Slots d lo ss
lower d lo lo' [] le h = tt
lower d lo lo' (s ∷ ss) le h = let far = h.0 in (omega arith, h.1, h.2, h.3)

pub Slots-fresh :
    (n size hash lo : ℕ)
    → lo + n ≡ size
    → (ss : List ℕ) × (length ss ≡ n)
      × Slots (record { cap = size; hash = hash; table = replicate size empty_entry }) lo ss
Slots-fresh zero size hash lo e = ([], refl, tt)
Slots-fresh (suc n) size hash lo e =
    let (ss, len, h) = Slots-fresh n size hash (lo + 1) (omega arith) in
    (lo ∷ ss, omega arith, (omega arith, omega arith, all-empty size lo, h))

module _ (hfn : ℕ → ℕ) (cfn : ℕ → ℕ → ℕ) (d d' : RhhmData) (key value : ℕ)
    (w : Writes hfn cfn d key value d') where
  after : (lo : ℕ) (ss : List ℕ) → w.taken < lo → Slots d lo ss → Slots d' lo ss
  after lo [] lt h = tt
  after lo (s ∷ ss) lt h =
      let far = h.0 in
      (far, rw w.same_cap h.1, w.spare s (omega arith) h.2, after (s + 1) ss (omega arith) h.3)

  pub Slots-Writes :
      (lo : ℕ) (ss : List ℕ)
      → Slots d lo ss
      → (ss' : List ℕ) × (length ss ≤ suc (length ss')) × Slots d' lo ss'
  Slots-Writes lo [] h = ([], omega arith, tt)
  Slots-Writes lo (s ∷ ss) h = elim (ℕ_discrete s w.taken) [
    | yes here ↦ (
      ss,
      omega arith,
      lower d' lo (s + 1) ss (let far = h.0 in omega arith) (after (s + 1) ss (omega arith) h.3),
    )
    | no other ↦
        let (ss', len, rest) = Slots-Writes (s + 1) ss h.3 in
        (s ∷ ss', omega arith, (h.0, rw w.same_cap h.1, w.spare s other h.2, rest))
  ]
