-- ===== src/Rhhm/Set.antt =====
-- `rhhm_set` on a table with room: it ends, keeps the order, and changes the binding of one key.
use native.Mathlib.Decide.{ℕ_discrete, dec_lt}
use native.Mathlib.Nat.{le_refl}
use minilua.Common.{
  ℕ, suc, ◌-◌, ◌<◌, ◌≡◌, ◌≢◌, inl, inr, refl, sym, ◌∙◌, ap, true, false, ◌&&◌, arith, ◌==◌,
  ==_false, done, bit_and,
}
use minilua.Rhhm.{
  RhhmData, Entry, is_empty, at, distance, home, bv_none, skip_loop, set_found, set_ready, vacant,
}
use minilua.Rhhm.Ring.{probe, probe-zero, distance-lt, probe-distance}
use minilua.Rhhm.Robin.{
  KeyLaws, dist, IsFull, IsRobin, Vacant, IsFresh, home-lt, not_Passes-Vacant, Writes,
}
use minilua.Rhhm.Probe.{AtGap, set_loop_ends, skip_loop-Vacant}
use minilua.Rhhm.Displace.Loop.{displace_step, not_before, displace_loop-Absorbs}
use minilua.Rhhm.Assign.{present-Writes}

module _ (hfn : ℕ → ℕ) (cfn : ℕ → ℕ → ℕ) where
  module _ (laws : KeyLaws hfn cfn) (d : RhhmData) (robin : IsRobin hfn cfn d.cap d.table)
      (key value : ℕ) (not_none : value ≢ bv_none) where
    h : ℕ
    h = home hfn cfn d.cap key

    small : h < d.cap
    unfolding h
    small = home-lt hfn cfn d.cap key robin.pos

    solid : (k : ℕ) → is_empty (record { value = value; key = k }) ≡ false
    unfolding is_empty
    solid k = ==_false value bv_none not_none

    entry : Entry
    entry = record { value = value; key = key }

    home-same : (q : ℕ) → cfn q key ≡ 0 → home hfn cfn d.cap q ≡ h
    unfolding h home
    home-same q same = ap (λ x. bit_and x (d.cap - 1)) (laws.hash-cmp _ _ same)

    unmatched_there :
        (i : ℕ)
        → cfn (at d.table i).key key ≡ 0
        → home hfn cfn d.cap (at d.table i).key ≡ h
        → (home hfn cfn d.cap (at d.table i).key == h && cfn (at d.table i).key key == 0) ≡ false
        → ⊥
    unmatched_there i same e miss = ground arith

    -- the entry in slot `i` is found no later than its own distance
    not_before_own :
        (k i : ℕ)
        → Vacant hfn cfn d.cap d.table h k
        → i < d.cap
        → IsFull hfn cfn d.table i
        → home hfn cfn d.cap (at d.table i).key ≡ h
        → probe d.cap h (dist hfn cfn d.cap d.table i) ≡ i
        → dist hfn cfn d.cap d.table i < k
    not_before_own k i gap inside full e there =
        let j = dist hfn cfn d.cap d.table i in
        elim (dec_lt j k) [
          | yes early ↦ early
          | no late ↦ absurd (elim (ℕ_discrete k j) [
            | yes same ↦
                not_Passes-Vacant hfn cfn d.cap d.table h k gap (rw (same, there) (full, le_refl j))
            | no before ↦
                not_Passes-Vacant hfn cfn d.cap d.table h k gap
                  (rw e at (robin.probed i k inside full (omega arith)))
          ])
        ]

    -- a probe that stops without a match shows that the key is nowhere
    AtGap-IsFresh : (k : ℕ) → AtGap hfn cfn d h key k → IsFresh hfn cfn d.cap d.table key
    AtGap-IsFresh k gap i inside full same =
        let j = dist hfn cfn d.cap d.table i in
        let its : ℕ = home hfn cfn d.cap (at d.table i).key in
        let home_i : its ≡ h = home-same _ same in
        let back : probe d.cap its j ≡ i =
          probe-distance d.cap _ (home-lt hfn cfn d.cap _ robin.pos) i inside in
        let there : probe d.cap h j ≡ i = sym (ap (λ x. probe d.cap x j) home_i) ∙ back in
        let early = not_before_own k i gap.vacant_here inside full home_i there in
        unmatched_there i same home_i (rw there at (gap.unmatched j early))

    module _ (z : ℕ) (room : z < d.cap)
        (open_end : is_empty (at d.table (probe d.cap h z)) ≡ true) where
      skips_to :
          (k : ℕ)
          → Vacant hfn cfn d.cap d.table h k
          → skip_loop hfn cfn d.cap d h h ≡ done (probe d.cap h k)
      skips_to k gap =
          let (j, run, last, found) =
            skip_loop-Vacant hfn cfn d robin h small z room open_end d.cap 0 (omega arith)
              (omega arith) (λ i lt. elim lt [ ]) in
          let same : j ≡ k = omega (
            arith,
            not_before hfn cfn laws d h k j gap.passes found,
            not_before hfn cfn laws d h j k found.passes gap,
          ) in
          rw (probe-zero d.cap h small, same) at run

      -- the second branch: the key is put into the slot that stops the probe
      vacant-Writes :
          (k : ℕ)
          → AtGap hfn cfn d h key k
          → (d' : RhhmData) × (set_found hfn cfn d key value (vacant (probe d.cap h k)) ≡ done d')
            × Writes hfn cfn d key value d'
      unfolding set_found h entry
      vacant-Writes k gap =
          let fresh = AtGap-IsFresh k gap in
          let (d', run, a) =
            displace_loop-Absorbs hfn cfn laws (suc (suc d.cap)) d robin entry (solid key) fresh 0 z
              room open_end (omega arith) (λ i lt. elim lt [ ]) (omega arith) in
          let step =
            displace_step hfn cfn laws (suc d.cap) d entry (probe d.cap h k) (solid key)
              (skips_to k gap.vacant_here) in
          (
            d',
            sym step ∙ run,
            record {
              same_cap = a.same_cap;
              same_hash = a.same_hash;
              robin = a.robin;
              sound = λ q v x. elim (a.sound q v x) [
                | inr (_, same, reads) ↦ inl (same, reads)
                | inl old ↦ inr (
                  λ e.
                      fresh old.slot old.inside old.full
                        (laws.cmp_trans _ _ _ old.same (laws.cmp_symm _ _ e)),
                  old,
                )
              ];
              written = λ q e. a.own q value (solid key) e refl;
              kept = λ q v _. a.kept q v;
              taken = a.taken;
              spare = a.spare;
            },
          )

      set_ready-Writes_from :
          (d' : RhhmData) × (set_ready hfn cfn d key value ≡ done d')
          × Writes hfn cfn d key value d'
      unfolding set_ready h
      set_ready-Writes_from =
          elim (set_loop_ends hfn cfn d robin h small z room open_end key d.cap 0 (omega arith)
            (omega arith) (λ i lt. elim lt [ ]) (λ i lt. elim lt [ ])) [
              | inl (s, run, a) ↦
                  let run' = rw (probe-zero d.cap h small) at run in
                  let (d', found, w) =
                    present-Writes hfn cfn laws d robin s a.inside a.full value solid key a.same in
                  (d', rw run' found, w)
              | inr (k, run, last, gap) ↦
                  let run' = rw (probe-zero d.cap h small) at run in
                  let (d', found, w) = vacant-Writes k gap in (d', rw run' found, w)
            ]

    -- With an empty slot anywhere, `rhhm_set` ends, and writes `value` for `key` alone.
    pub set_ready-Writes :
        (free : ℕ)
        → free < d.cap
        → is_empty (at d.table free) ≡ true
        → (d' : RhhmData) × (set_ready hfn cfn d key value ≡ done d')
          × Writes hfn cfn d key value d'
    set_ready-Writes free inside void =
        set_ready-Writes_from (distance d.cap free h) (distance-lt d.cap h small free inside)
          (rw (probe-distance d.cap h small free inside) void)
