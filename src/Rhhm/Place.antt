-- ===== src/Rhhm/Place.antt =====
-- Putting an entry into the slot where its probe stops keeps the order of the table.
use minilua.Common.{
  ℕ, ◌≤◌, ◌<◌, ◌≡◌, ◌≢◌, ◌⊎◌, inl, inr, sym, ◌∙◌, false, List, set, length-set, ◌==◌, if◌then◌else◌,
  arith, ==_refl,
}
use native.Mathlib.Decide.{ℕ_discrete}
use minilua.Rhhm.{Entry, is_empty, at, home}
use minilua.Rhhm.Ring.{probe, probe-lt, distance-probe}
use minilua.Rhhm.Robin.{
  at-set, KeyLaws, dist, IsFull, Passes, IsRobin, Vacant, IsFresh, Holds, home-lt,
}

module _ (hfn : ℕ → ℕ) (cfn : ℕ → ℕ → ℕ) (laws : KeyLaws hfn cfn) (cap : ℕ) (t : List Entry)
    (robin : IsRobin hfn cfn cap t) (e : Entry) (solid : is_empty e ≡ false) (j : ℕ)
    (vacant : Vacant hfn cfn cap t (home hfn cfn cap e.key) j) where
  unfoldable pub spot : ℕ
  spot = probe cap (home hfn cfn cap e.key) j

  unfoldable pub placed : List Entry
  unfolding spot
  placed = set t spot e

  pub spot-lt : spot < cap
  unfolding spot
  spot-lt = probe-lt cap _ (home-lt hfn cfn cap e.key robin.pos) j vacant.inside

  pub at-placed : (i : ℕ) → at placed i ≡ (if spot == i then e else at t i)
  unfolding placed
  at-placed i = at-set t spot i e (rw robin.size spot-lt)

  pub dist-spot : dist hfn cfn cap placed spot ≡ j
  unfolding spot
  dist-spot =
      rw (at-placed spot, ==_refl spot)
        (distance-probe cap _ (home-lt hfn cfn cap e.key robin.pos) j vacant.inside)

  pub at-spot : at placed spot ≡ e
  at-spot = rw (at-placed spot, ==_refl spot)

  pub IsFull-spot : IsFull hfn cfn placed spot
  IsFull-spot = rw at-spot solid

  pub at-other : (i : ℕ) → spot ≢ i → at placed i ≡ at t i
  at-other i ne = ground (arith, at-placed i)

  -- a probe that passed a slot before passes it now
  pub Passes-placed : (h i : ℕ) → Passes hfn cfn cap t h i → Passes hfn cfn cap placed h i
  Passes-placed h i (full, far) = elim (ℕ_discrete spot (probe cap h i)) [
    | yes same ↦
        rw (← same) (IsFull-spot, rw dist-spot (richer (rw (← same) at full) (rw (← same) at far)))
    | no other ↦ rw (at-other _ other) (full, far)
  ]
    where
      richer : IsFull hfn cfn t spot → i ≤ dist hfn cfn cap t spot → i ≤ j
      richer f d = elim vacant.stops [
        | inl e' ↦ absurd (unfold spot in ground arith)
        | inr r ↦ unfold spot in omega arith
      ]

  IsFull-cases : (i : ℕ) → IsFull hfn cfn placed i → (spot ≡ i) ⊎ ((spot ≢ i) × IsFull hfn cfn t i)
  IsFull-cases i f = elim (ℕ_discrete spot i) [
    | yes same ↦ inl same
    | no other ↦ inr (other, rw (at-other i other) at f)
  ]

  probed :
      (i k : ℕ)
      → i < cap
      → IsFull hfn cfn placed i
      → k < dist hfn cfn cap placed i
      → Passes hfn cfn cap placed (home hfn cfn cap (at placed i).key) k
  probed i k lt f d = elim (IsFull-cases i f) [
    | inl same ↦
        rw (← same, at-spot)
          (Passes-placed _ k (vacant.passes k (rw dist-spot at (rw (← same) at d))))
    | inr (other, g) ↦
        rw (at-other i other)
          (Passes-placed _ k (robin.probed i k lt g (rw (at-other i other) at d)))
  ]

  module _ (fresh : IsFresh hfn cfn cap t e.key) where
    unique :
        (a b : ℕ)
        → a < cap
        → b < cap
        → IsFull hfn cfn placed a
        → IsFull hfn cfn placed b
        → cfn (at placed a).key (at placed b).key ≡ 0
        → a ≡ b
    unique a b la lb fa fb same = elim (IsFull-cases a fa) [
      | inl pa ↦ elim (IsFull-cases b fb) [
        | inl pb ↦ sym pa ∙ pb
        | inr (ob, gb) ↦
            absurd (fresh b lb gb (laws.cmp_symm _ _ (rw (← pa, at-spot, at-other b ob) at same)))
      ]
      | inr (oa, ga) ↦ elim (IsFull-cases b fb) [
        | inl pb ↦ absurd (fresh a la ga (rw (← pb, at-spot, at-other a oa) at same))
        | inr (ob, gb) ↦ robin.unique a b la lb ga gb (rw (at-other a oa, at-other b ob) at same)
      ]
    ]

    pub placed-IsRobin : IsRobin hfn cfn cap placed
    unfolding placed
    placed-IsRobin = record {
      size = length-set t spot e ∙ robin.size;
      pos = robin.pos;
      log = robin.log;
      pow = robin.pow;
      probed = probed;
      unique = unique;
    }

    -- The entry that was in the slot has no other place in the table.
    pub displaced-IsFresh : IsFull hfn cfn t spot → IsFresh hfn cfn cap placed (at t spot).key
    displaced-IsFresh f i lt g same = elim (IsFull-cases i g) [
      | inl here ↦ fresh spot spot-lt f (laws.cmp_symm _ _ (rw (← here, at-spot) at same))
      | inr (other, gi) ↦
          other (
            robin.unique spot i spot-lt lt f gi (laws.cmp_symm _ _ (rw (at-other i other) at same)))
    ]

  module _ (q v : ℕ) where
    pub Holds-placed :
        Holds hfn cfn cap placed q v → Holds hfn cfn cap t q v ⊎ ((cfn e.key q ≡ 0) × (e.value ≡ v))
    Holds-placed h = elim (IsFull-cases h.slot h.full) [
      | inl here ↦ inr (rw (← here, at-spot) at h.same, rw (← here, at-spot) at h.reads)
      | inr (other, f) ↦ inl (record {
        slot = h.slot;
        inside = h.inside;
        full = f;
        same = rw (at-other h.slot other) at h.same;
        reads = rw (at-other h.slot other) at h.reads;
      })
    ]

    pub Holds-own : cfn e.key q ≡ 0 → e.value ≡ v → Holds hfn cfn cap placed q v
    Holds-own s r = record {
      slot = spot;
      inside = spot-lt;
      full = IsFull-spot;
      same = rw at-spot s;
      reads = rw at-spot r;
    }

    -- A binding of the table stays, or is that of the displaced entry.
    pub Holds-kept :
        Holds hfn cfn cap t q v
        → Holds hfn cfn cap placed q v
          ⊎ (IsFull hfn cfn t spot × (cfn (at t spot).key q ≡ 0) × ((at t spot).value ≡ v))
    Holds-kept h = elim (ℕ_discrete spot h.slot) [
      | yes here ↦ inr (rw here h.full, rw here h.same, rw here h.reads)
      | no other ↦ inl (record {
        slot = h.slot;
        inside = h.inside;
        full = rw (at-other h.slot other) h.full;
        same = rw (at-other h.slot other) h.same;
        reads = rw (at-other h.slot other) h.reads;
      })
    ]

    pub Holds-displaced :
        IsFull hfn cfn t spot
        → cfn (at t spot).key q ≡ 0
        → (at t spot).value ≡ v
        → Holds hfn cfn cap t q v
    Holds-displaced f s r = record { slot = spot; inside = spot-lt; full = f; same = s; reads = r }
