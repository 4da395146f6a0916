-- ===== src/Rhhm/Ring.antt =====
-- Indices on a ring of slots: the `j`-th slot that is probed from slot `h`, against the source's
-- `DISTANCE` and its step by a mask.
use native.Mathlib.Nat.{mod-eq_of_lt, mod-eq-sub-mod}
use minilua.Common.{
  ℕ, suc, ◌+◌, ◌-◌, ◌%◌, ◌^◌, ◌≤◌, ◌<◌, ◌≡◌, ltb, if◌then◌else◌, arith, bit_and_mask,
}
use minilua.Rhhm.{distance, next}

unfoldable pub probe : ℕ → ℕ → ℕ → ℕ
probe cap h j = if ltb (h + j) cap then h + j else h + j - cap

next-mod : (cap k i : ℕ) → cap ≡ 2 ^ k → next cap i ≡ (i + 1) % cap
unfolding next
next-mod cap k i pow = rw pow (bit_and_mask k (i + 1))

module _ (cap h : ℕ) (small : h < cap) where
  pub probe-zero : probe cap h 0 ≡ h
  unfolding probe
  probe-zero = ground arith

  pub probe-lt : (j : ℕ) → j < cap → probe cap h j < cap
  unfolding probe
  probe-lt j b = ground arith

  pub distance-lt : (p : ℕ) → p < cap → distance cap p h < cap
  unfolding distance
  distance-lt p b = ground arith

  pub distance-probe : (j : ℕ) → j < cap → distance cap (probe cap h j) h ≡ j
  unfolding distance probe
  distance-probe j b = ground arith

  pub probe-distance : (p : ℕ) → p < cap → probe cap h (distance cap p h) ≡ p
  unfolding distance probe
  probe-distance p b = ground arith

  pub distance-between :
      (a b : ℕ) → a ≤ b → b < cap → distance cap (probe cap h b) (probe cap h a) ≡ b - a
  unfolding distance probe
  distance-between a b le lt = ground arith

  pub next-probe :
      (k j : ℕ) → cap ≡ 2 ^ k → suc j < cap → next cap (probe cap h j) ≡ probe cap h (suc j)
  unfolding probe
  next-probe k j pow b =
      let i = probe cap h j in
      ground (
        arith,
        next-mod cap k i pow,
        mod-eq_of_lt {n = i + 1} {m = cap},
        mod-eq-sub-mod {n = i + 1} {m = cap},
      )
