-- ===== src/Rhhm/Probe.antt =====
-- The probing loops of rhhm.c: with an empty slot ahead they end, at the first slot that stops them.
use minilua.Common.{
  ℕ, zero, suc, ◌-◌, ◌≤◌, ◌<◌, ◌≡◌, ◌⊎◌, inl, inr, true, false, not, ◌&&◌, ◌==◌, leb, arith,
  Bool-cases, ==_iff, done, Bool,
}
use minilua.Rhhm.{RhhmData, is_empty, at, distance, home, skip_loop, set_loop, present, vacant}
use minilua.Rhhm.Ring.{probe, probe-lt, distance-probe, next-probe}
use minilua.Rhhm.Robin.{dist, IsFull, Passes, IsRobin, Vacant}

module _ (hfn : ℕ → ℕ) (cfn : ℕ → ℕ → ℕ) (d : RhhmData) (h key : ℕ) where
  -- the test for the key itself
  abbrev pub matches : ℕ → Bool
  matches j =
      let e = at d.table (probe d.cap h j) in home hfn cfn d.cap e.key == h && cfn e.key key == 0

  pub record AtKey (s : ℕ) : Type 0 where
    pub inside : s < d.cap
    pub full : IsFull hfn cfn d.table s
    pub same : cfn (at d.table s).key key ≡ 0

  pub record AtGap (k : ℕ) : Type 0 where
    pub vacant_here : Vacant hfn cfn d.cap d.table h k
    pub unmatched : (i : ℕ) → i < k → matches i ≡ false

module _ (hfn : ℕ → ℕ) (cfn : ℕ → ℕ → ℕ) (d : RhhmData) (robin : IsRobin hfn cfn d.cap d.table)
    (h : ℕ) (small : h < d.cap) (z : ℕ) (room : z < d.cap)
    (open_end : is_empty (at d.table (probe d.cap h z)) ≡ true) where
  -- the test of the loops at the `j`-th slot
  abbrev goes_on : ℕ → Bool
  goes_on j =
      let i = probe d.cap h j in
      let e = at d.table i in
      not (is_empty e) && leb (distance d.cap i h) (distance d.cap i (home hfn cfn d.cap e.key))

  goes_on-Passes : (j : ℕ) → j < d.cap → goes_on j ≡ true → Passes hfn cfn d.cap d.table h j
  goes_on-Passes j lt g = ground (arith, distance-probe d.cap h small j lt)

  stops_here :
      (j : ℕ)
      → j < d.cap
      → goes_on j ≡ false
      → (is_empty (at d.table (probe d.cap h j)) ≡ true)
        ⊎ (dist hfn cfn d.cap d.table (probe d.cap h j) < j)
  stops_here j lt g = ground (arith, distance-probe d.cap h small j lt)

  -- passing the empty slot is impossible
  before_end : (j : ℕ) → j ≤ z → goes_on j ≡ true → j < z
  before_end j le g = elim (Bool-cases (j == z)) [
    | inl same ↦
        let full : is_empty (at d.table (probe d.cap h z)) ≡ false =
          rw ((==_iff j z).0 same) at (goes_on-Passes j (omega arith) g).0 in
        absurd (cc full)
    | inr other ↦ ground arith
  ]

  extend :
      (j : ℕ)
      → ((i : ℕ) → i < j → Passes hfn cfn d.cap d.table h i)
      → Passes hfn cfn d.cap d.table h j
      → (i : ℕ) → i < suc j
      → Passes hfn cfn d.cap d.table h i
  extend j before now i lt = elim (Bool-cases (i == j)) [
    | inl same ↦ rw ((==_iff i j).0 same) now
    | inr other ↦ before i (ground arith)
  ]

  -- `skip_loop` returns the first slot that stops the probe, no later than the empty one.
  pub skip_loop-Vacant :
      (fuel j : ℕ)
      → j ≤ z
      → z - j < fuel
      → ((i : ℕ) → i < j → Passes hfn cfn d.cap d.table h i)
      → (k : ℕ) × (skip_loop hfn cfn fuel d h (probe d.cap h j) ≡ done (probe d.cap h k))
        × (k ≤ z)
        × Vacant hfn cfn d.cap d.table h k
  unfolding skip_loop
  skip_loop-Vacant zero j le enough before = elim enough [ ]
  skip_loop-Vacant (suc fuel) j le enough before = elim (Bool-cases (goes_on j)) [
    | inr stop ↦ (
      j,
      rw stop,
      le,
      record { inside = omega arith; passes = before; stops = stops_here j (omega arith) stop },
    )
    | inl go ↦
        let far : j < z = before_end j le go in
        let (k, run, last, rest) =
          skip_loop-Vacant fuel (suc j) far (omega arith)
            (extend j before (goes_on-Passes j (omega arith) go)) in
        (k, rw (go, next-probe d.cap h small robin.log j robin.pow (omega arith)) run, last, rest)
  ]

  module _ (key : ℕ) where
    extend_unmatched :
        (j : ℕ)
        → ((i : ℕ) → i < j → matches hfn cfn d h key i ≡ false)
        → matches hfn cfn d h key j ≡ false
        → (i : ℕ) → i < suc j
        → matches hfn cfn d h key i ≡ false
    extend_unmatched j before now i lt = elim (Bool-cases (i == j)) [
      | inl same ↦ rw ((==_iff i j).0 same) now
      | inr other ↦ before i (ground arith)
    ]

    -- The first loop of `rhhm_set` ends at a slot with the key, or at the first that stops it.
    pub set_loop_ends :
        (fuel j : ℕ)
        → j ≤ z
        → z - j < fuel
        → ((i : ℕ) → i < j → Passes hfn cfn d.cap d.table h i)
        → ((i : ℕ) → i < j → matches hfn cfn d h key i ≡ false)
        → ((s : ℕ) × (set_loop hfn cfn fuel d key h (probe d.cap h j) ≡ done (present s))
            × AtKey hfn cfn d h key s)
          ⊎ ((k : ℕ) × (set_loop hfn cfn fuel d key h (probe d.cap h j)
                ≡ done (vacant (probe d.cap h k)))
              × (k ≤ z)
              × AtGap hfn cfn d h key k)
    unfolding set_loop
    set_loop_ends zero j le enough before unlike = elim enough [ ]
    set_loop_ends (suc fuel) j le enough before unlike = elim (Bool-cases (goes_on j)) [
      | inr stop ↦ inr (
        j,
        rw stop,
        le,
        record {
          vacant_here = record {
            inside = omega arith;
            passes = before;
            stops = stops_here j (omega arith) stop;
          };
          unmatched = unlike;
        },
      )
      | inl go ↦ elim (Bool-cases (matches hfn cfn d h key j)) [
        | inl hit ↦ inl (
          probe d.cap h j,
          rw (go, hit),
          record {
            inside = probe-lt d.cap h small j (omega arith);
            full = (goes_on-Passes j (omega arith) go).0;
            same = ground arith;
          },
        )
        | inr miss ↦
            let far : j < z = before_end j le go in
            let step = next-probe d.cap h small robin.log j robin.pow (omega arith) in
            rw (go, miss, step)
              (set_loop_ends fuel (suc j) far (omega arith)
                (extend j before (goes_on-Passes j (omega arith) go))
                (extend_unmatched j unlike miss))
      ]
    ]
