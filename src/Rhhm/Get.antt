-- ===== src/Rhhm/Get.antt =====
-- `rhhm_get` on an ordered table: what it reads when the key is there, and when it is not.
use native.Mathlib.Decide.{dec_lt}
use minilua.Common.{
  ℕ, zero, suc, ◌-◌, ◌≤◌, ◌<◌, ◌≡◌, ◌≢◌, ◌⊎◌, inl, inr, refl, sym, ◌∙◌, ap, true, false, arith,
  ◌==◌, ltb, ==_false, done, Bool-cases, bit_and,
}
use minilua.Rhhm.{RhhmData, is_empty, at, distance, next, home, bv_nil, get_loop, rhhm_get, ready}
use minilua.Rhhm.Ring.{
  probe, probe-zero, probe-lt, distance-lt, probe-distance, distance-probe, next-probe,
}
use minilua.Rhhm.Robin.{KeyLaws, dist, Passes, IsRobin, Holds, home-lt}

module _ (hfn : ℕ → ℕ) (cfn : ℕ → ℕ → ℕ) where
  -- `rhhm_get` takes a nil in a slot for the end of its search.
  abbrev pub HasNoNil : RhhmData → Type 0
  HasNoNil d = (i : ℕ) → i < d.cap → is_empty (at d.table i) ≡ false → (at d.table i).value ≢ bv_nil

  module _ (laws : KeyLaws hfn cfn) (d : RhhmData) (robin : IsRobin hfn cfn d.cap d.table)
      (q : ℕ) where
    h : ℕ
    h = home hfn cfn d.cap q

    small : h < d.cap
    unfolding h
    small = home-lt hfn cfn d.cap q robin.pos

    abbrev slot : ℕ → ℕ
    slot j = probe d.cap h j

    distance-slot : (j : ℕ) → j < d.cap → distance d.cap (slot j) h ≡ j
    distance-slot j lt = distance-probe d.cap h small j lt

    next-slot :
        (fuel j : ℕ)
        → suc j < d.cap
        → get_loop hfn cfn fuel d q h (next d.cap (slot j))
          ≡ get_loop hfn cfn fuel d q h (slot (suc j))
    next-slot fuel j lt = rw (next-probe d.cap h small robin.log j robin.pow lt)

    module _ (v : ℕ) (it : Holds hfn cfn d.cap d.table q v) (plain : HasNoNil d) where
      goal : ℕ
      goal = dist hfn cfn d.cap d.table it.slot

      home-same : home hfn cfn d.cap (at d.table it.slot).key ≡ h
      unfolding h home
      home-same = ap (λ x. bit_and x (d.cap - 1)) (laws.hash-cmp _ _ it.same)

      goal_there : slot goal ≡ it.slot
      unfolding goal
      goal_there =
          sym (ap (λ x. probe d.cap x goal) home-same)
          ∙ probe-distance d.cap _ (home-lt hfn cfn d.cap _ robin.pos) it.slot it.inside

      goal-lt : goal < d.cap
      unfolding goal
      goal-lt = distance-lt d.cap _ (home-lt hfn cfn d.cap _ robin.pos) it.slot it.inside

      pass : (j : ℕ) → j < goal → Passes hfn cfn d.cap d.table h j
      unfolding goal
      pass j lt = rw home-same at (robin.probed it.slot j it.inside it.full lt)

      -- no earlier slot has the key
      unlike : (j : ℕ) → j < goal → cfn (at d.table (slot j)).key q ≢ 0
      unlike j lt same =
          let there =
            robin.unique (slot j) it.slot (probe-lt d.cap h small j (omega (arith, goal-lt)))
              it.inside (pass j lt).0 it.full
              (laws.cmp_trans _ _ _ same (laws.cmp_symm _ _ it.same)) in
          omega (
            arith,
            ap (λ i. distance d.cap i h) (there ∙ sym goal_there),
            distance-slot j (omega (arith, goal-lt)),
            distance-slot goal goal-lt,
          )

      there_reads : (fuel : ℕ) → get_loop hfn cfn (suc fuel) d q h it.slot ≡ done v
      unfolding get_loop
      there_reads fuel =
          ground (arith, home-same, it.full, it.same, it.reads, plain it.slot it.inside it.full)

      before_steps :
          (fuel j : ℕ)
          → j < goal
          → get_loop hfn cfn (suc fuel) d q h (slot j)
            ≡ get_loop hfn cfn fuel d q h (next d.cap (slot j))
      unfolding get_loop
      before_steps fuel j lt =
          let inside = probe-lt d.cap h small j (omega (arith, goal-lt)) in
          let (full, far) = pass j lt in
          ground (
            arith,
            full,
            far,
            unlike j lt,
            plain (slot j) inside full,
            distance-slot j (omega (arith, goal-lt)),
          )

      get_loop_finds :
          (fuel j : ℕ) → j ≤ goal → goal - j < fuel → get_loop hfn cfn fuel d q h (slot j) ≡ done v
      get_loop_finds zero j le enough = elim enough [ ]
      get_loop_finds (suc fuel) j le enough = elim (dec_lt j goal) [
        | yes before ↦
            before_steps fuel j before
            ∙ next-slot fuel j (omega (arith, goal-lt))
            ∙ get_loop_finds fuel (suc j) before (omega arith)
        | no last ↦ let here : j ≡ goal = omega arith in rw (here, goal_there) (there_reads fuel)
      ]

      pub get-Holds : rhhm_get hfn cfn (ready d) q ≡ done v
      unfolding rhhm_get h
      get-Holds =
          rw (probe-zero d.cap h small) at
            (get_loop_finds d.cap 0 (omega arith) (omega (arith, goal-lt)))

    module _ (absent : (v : ℕ) → ¬ Holds hfn cfn d.cap d.table q v) (z : ℕ) (room : z < d.cap)
        (open_end : is_empty (at d.table (slot z)) ≡ true) where
      not_here :
          (j : ℕ)
          → j < d.cap
          → is_empty (at d.table (slot j)) ≡ false
          → cfn (at d.table (slot j)).key q ≢ 0
      not_here j lt full same = absent _ (record {
        slot = slot j;
        inside = probe-lt d.cap h small j lt;
        full = full;
        same = same;
        reads = refl;
      })

      misses :
          (fuel j : ℕ)
          → j < d.cap
          → (get_loop hfn cfn (suc fuel) d q h (slot j) ≡ done bv_nil)
            ⊎ ((is_empty (at d.table (slot j)) ≡ false)
                × (get_loop hfn cfn (suc fuel) d q h (slot j)
                    ≡ get_loop hfn cfn fuel d q h (next d.cap (slot j))))
      unfolding get_loop
      misses fuel j lt = elim (Bool-cases (is_empty (at d.table (slot j)))) [
        | inl void ↦ inl (ground arith)
        | inr full ↦
            let e = at d.table (slot j) in
            let near =
              ltb (distance d.cap (slot j) (home hfn cfn d.cap e.key))
                (distance d.cap (slot j) h) in
            let other = not_here j lt full in
            elim (Bool-cases (e.value == bv_nil)) [
              | inl blank ↦ inl (rw (full, blank))
              | inr plain ↦ elim (Bool-cases near) [
                | inl cut ↦ inl (rw (full, plain, cut))
                | inr far ↦ inr (full, rw (full, plain, far, ==_false _ 0 other))
              ]
            ]
      ]

      get_loop_ends :
          (fuel j : ℕ) → j ≤ z → z - j < fuel → get_loop hfn cfn fuel d q h (slot j) ≡ done bv_nil
      get_loop_ends zero j le enough = elim enough [ ]
      get_loop_ends (suc fuel) j le enough = elim (misses fuel j (omega arith)) [
        | inl ends ↦ ends
        | inr (full, more) ↦ elim (dec_lt j z) [
          | yes before ↦
              more
              ∙ next-slot fuel j (omega arith)
              ∙ get_loop_ends fuel (suc j) before (omega arith)
          | no last ↦
              let here : j ≡ z = omega arith in
              let end : is_empty (at d.table (slot j)) ≡ true = rw here open_end in cc (full, end)
        ]
      ]

      get_absent_from : rhhm_get hfn cfn (ready d) q ≡ done bv_nil
      unfolding rhhm_get h
      get_absent_from =
          rw (probe-zero d.cap h small) at (get_loop_ends d.cap 0 (omega arith) (omega arith))

    pub get_absent :
        ((v : ℕ) → ¬ Holds hfn cfn d.cap d.table q v)
        → (free : ℕ) → free < d.cap
        → is_empty (at d.table free) ≡ true
        → rhhm_get hfn cfn (ready d) q ≡ done bv_nil
    get_absent absent free inside void =
        get_absent_from absent (distance d.cap free h) (distance-lt d.cap h small free inside)
          (rw (probe-distance d.cap h small free inside) void)
