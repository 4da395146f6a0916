-- ===== src/Rhhm/Displace/Loop.antt =====
-- `displace_loop` ends within one round for each slot that is left up to the empty one.
use native.Mathlib.Decide.{dec_lt}
use minilua.Common.{
  ℕ, zero, suc, set, ◌∙◌, ◌-◌, ◌≤◌, ◌<◌, ◌≡◌, inl, inr, true, false, arith, Bool-cases, done,
}
use minilua.Rhhm.{RhhmData, Entry, is_empty, at, home, skip_loop, displace_loop}
use minilua.Rhhm.Ring.{probe, probe-zero}
use minilua.Rhhm.Robin.{KeyLaws, Passes, IsRobin, Vacant, IsFresh, home-lt}
use minilua.Rhhm.Probe.{skip_loop-Vacant}
use minilua.Rhhm.Displace.{
  Absorbs, old, after, after-IsRobin, last-Absorbs, more-Absorbs, passed, ahead, ahead_room,
  open_ahead, old-IsFresh, old-Passes, passed-lt-ahead, nearer,
}

module _ (hfn : ℕ → ℕ) (cfn : ℕ → ℕ → ℕ) (laws : KeyLaws hfn cfn) where
  displace_empty :
      (fuel : ℕ) (d : RhhmData) (e : Entry)
      → is_empty e ≡ true
      → 0 < fuel
      → displace_loop hfn cfn fuel d e ≡ done d
  unfolding displace_loop
  displace_empty zero d e void h = elim h [ ]
  displace_empty (suc fuel) d e void h = rw void

  pub displace_step :
      (fuel : ℕ) (d : RhhmData) (e : Entry) (i : ℕ)
      → is_empty e ≡ false
      → skip_loop hfn cfn d.cap d (home hfn cfn d.cap e.key) (home hfn cfn d.cap e.key) ≡ done i
      → displace_loop hfn cfn (suc fuel) d e
        ≡ displace_loop hfn cfn fuel (record d { table = set d.table i e }) (at d.table i)
  unfolding displace_loop
  displace_step fuel d e i solid skipped = rw (solid, skipped)

  pub not_before :
      (d : RhhmData) (h l k : ℕ)
      → ((i : ℕ) → i < l → Passes hfn cfn d.cap d.table h i)
      → Vacant hfn cfn d.cap d.table h k
      → l ≤ k
  not_before d h l k before vacant = elim (dec_lt k l) [
    | yes early ↦
        let (full, far) = before k early in
        elim vacant.stops [ inl void ↦ cc (full, void) | inr richer ↦ omega arith ]
    | no late ↦ omega arith
  ]

  pub displace_loop-Absorbs :
      (fuel : ℕ) (d : RhhmData)
      → IsRobin hfn cfn d.cap d.table
      → (e : Entry) → is_empty e ≡ false
      → IsFresh hfn cfn d.cap d.table e.key
      → (l z : ℕ) → z < d.cap
      → is_empty (at d.table (probe d.cap (home hfn cfn d.cap e.key) z)) ≡ true
      → l ≤ z
      → ((i : ℕ) → i < l → Passes hfn cfn d.cap d.table (home hfn cfn d.cap e.key) i)
      → suc (z - l) < fuel
      → (d' : RhhmData) × (displace_loop hfn cfn fuel d e ≡ done d') × Absorbs hfn cfn d e d'
  displace_loop-Absorbs zero d robin e solid fresh l z room open_end le before enough =
      elim enough [ ]
  displace_loop-Absorbs (suc fuel) d robin e solid fresh l z room open_end le before enough =
      let h = home hfn cfn d.cap e.key in
      let small = home-lt hfn cfn d.cap e.key robin.pos in
      let (k, skip, last, vacant) =
        skip_loop-Vacant hfn cfn d robin h small z room open_end d.cap 0 (omega arith) (omega arith)
          (λ i lt. elim lt [ ]) in
      let skipped : skip_loop hfn cfn d.cap d h h ≡ done (probe d.cap h k) =
        rw (probe-zero d.cap h small) at skip in
      elim (Bool-cases (is_empty (old hfn cfn laws d robin e solid k vacant))) [
        | inl void ↦ (
          after hfn cfn laws d robin e solid k vacant,
          displace_step fuel d e _ solid skipped ∙ displace_empty fuel _ _ void (omega arith),
          last-Absorbs hfn cfn laws d robin e solid k vacant fresh void,
        )
        | inr full ↦
            let d₁ = after hfn cfn laws d robin e solid k vacant in
            let o = old hfn cfn laws d robin e solid k vacant in
            let (d', run, absorbs) =
              displace_loop-Absorbs fuel d₁
                (after-IsRobin hfn cfn laws d robin e solid k vacant fresh) o full
                (old-IsFresh hfn cfn laws d robin e solid k vacant full z room last open_end fresh)
                (suc (passed hfn cfn laws d robin e solid k vacant full z room last open_end))
                (ahead hfn cfn laws d robin e solid k vacant full z room last open_end)
                (ahead_room hfn cfn laws d robin e solid k vacant full z room last open_end)
                (open_ahead hfn cfn laws d robin e solid k vacant full z room last open_end)
                (passed-lt-ahead hfn cfn laws d robin e solid k vacant full z room last open_end)
                (old-Passes hfn cfn laws d robin e solid k vacant full z room last open_end)
                (omega (
                  arith,
                  nearer hfn cfn laws d robin e solid k vacant full z room last open_end,
                  not_before d h l k before vacant,
                )) in
            (
              d',
              rw (displace_step fuel d e (probe d.cap h k) solid skipped) run,
              more-Absorbs hfn cfn laws d robin e solid k vacant d' full absorbs,
            )
      ]
