-- ===== src/Rhhm/Assign.antt =====
-- Writing a new value over that of a key that is there.
use native.Mathlib.Decide.{ℕ_discrete}
use minilua.Common.{
  ℕ, ◌<◌, ◌≡◌, ◌≢◌, ◌⊎◌, inl, inr, refl, sym, ◌∙◌, false, List, set, length-set, arith, done, ◌==◌,
  if◌then◌else◌, ==_refl,
}
use minilua.Rhhm.{RhhmData, Entry, is_empty, at, set_found, present}
use minilua.Rhhm.Robin.{KeyLaws, at-set, dist, IsFull, IsRobin, Holds, Writes}

module _ (hfn : ℕ → ℕ) (cfn : ℕ → ℕ → ℕ) (laws : KeyLaws hfn cfn) (d : RhhmData)
    (robin : IsRobin hfn cfn d.cap d.table) (s : ℕ) (inside : s < d.cap)
    (full : IsFull hfn cfn d.table s) (value : ℕ)
    (solid : (k : ℕ) → is_empty (record { value = value; key = k }) ≡ false) where
  unfoldable pub assigned : List Entry
  assigned = set d.table s (record (at d.table s) { value = value })

  at-assigned :
      (i : ℕ)
      → at assigned i ≡ (if s == i then record (at d.table s) { value = value } else at d.table i)
  unfolding assigned
  at-assigned i =
      at-set d.table s i (record (at d.table s) { value = value }) (rw robin.size inside)

  at-here : at assigned s ≡ record (at d.table s) { value = value }
  at-here = rw (at-assigned s, ==_refl s)

  at-elsewhere : (i : ℕ) → s ≢ i → at assigned i ≡ at d.table i
  at-elsewhere i ne = ground (arith, at-assigned i)

  key-assigned : (i : ℕ) → (at assigned i).key ≡ (at d.table i).key
  key-assigned i = elim (ℕ_discrete s i) [
    | yes here ↦ rw (← here, at-here)
    | no other ↦ rw (at-elsewhere i other)
  ]

  is_empty-assigned : (i : ℕ) → is_empty (at assigned i) ≡ is_empty (at d.table i)
  is_empty-assigned i = elim (ℕ_discrete s i) [
    | yes here ↦ rw (← here, at-here) (solid (at d.table s).key ∙ sym full)
    | no other ↦ rw (at-elsewhere i other)
  ]

  dist-assigned : (i : ℕ) → dist hfn cfn d.cap assigned i ≡ dist hfn cfn d.cap d.table i
  dist-assigned i = rw (key-assigned i)

  pub assigned-IsRobin : IsRobin hfn cfn d.cap assigned
  unfolding assigned
  assigned-IsRobin = record {
    size = length-set d.table s _ ∙ robin.size;
    pos = robin.pos;
    log = robin.log;
    pow = robin.pow;
    probed = λ i j lt f d.
        let (g, far) =
          robin.probed i j lt (sym (is_empty-assigned i) ∙ f) (rw (dist-assigned i) at d) in
        rw (key-assigned i) (is_empty-assigned _ ∙ g, rw (dist-assigned _) far);
    unique = λ i j li lj fi fj same.
        robin.unique i j li lj (sym (is_empty-assigned i) ∙ fi) (sym (is_empty-assigned j) ∙ fj)
          (rw (key-assigned i, key-assigned j) at same);
  }

  pub Holds-assigned_here :
      (q : ℕ) → cfn (at d.table s).key q ≡ 0 → Holds hfn cfn d.cap assigned q value
  Holds-assigned_here q same = record {
    slot = s;
    inside = inside;
    full = is_empty-assigned s ∙ full;
    same = rw (key-assigned s) same;
    reads = rw at-here;
  }

  pub Holds-assigned_other :
      (q v : ℕ)
      → cfn (at d.table s).key q ≢ 0
      → Holds hfn cfn d.cap d.table q v
      → Holds hfn cfn d.cap assigned q v
  Holds-assigned_other q v other h =
      let apart : s ≢ h.slot = λ e. other (rw e h.same) in
      record {
        slot = h.slot;
        inside = h.inside;
        full = is_empty-assigned h.slot ∙ h.full;
        same = rw (key-assigned h.slot) h.same;
        reads = rw (at-elsewhere h.slot apart) h.reads;
      }

  pub Holds-assigned :
      (q v : ℕ)
      → Holds hfn cfn d.cap assigned q v
      → ((cfn (at d.table s).key q ≡ 0) × (value ≡ v))
        ⊎ ((cfn (at d.table s).key q ≢ 0) × Holds hfn cfn d.cap d.table q v)
  Holds-assigned q v h = elim (ℕ_discrete s h.slot) [
    | yes here ↦ inl (rw (← here, at-here) at h.same, rw (← here, at-here) at h.reads)
    | no apart ↦
        let f = sym (is_empty-assigned h.slot) ∙ h.full in
        let same = rw (key-assigned h.slot) at h.same in
        inr (
          λ e. apart (
              robin.unique s h.slot inside h.inside full f
                (laws.cmp_trans _ _ _ e (laws.cmp_symm _ _ same))),
          record {
            slot = h.slot;
            inside = h.inside;
            full = f;
            same = same;
            reads = rw (at-elsewhere h.slot apart) at h.reads;
          },
        )
  ]

  -- The first branch of `rhhm_set`.
  pub present-Writes :
      (key : ℕ)
      → cfn (at d.table s).key key ≡ 0
      → (d' : RhhmData) × (set_found hfn cfn d key value (present s) ≡ done d')
        × Writes hfn cfn d key value d'
  unfolding assigned set_found
  present-Writes key here =
      let there = laws.cmp_symm _ _ here in
      (
        record d { table = assigned },
        refl,
        record {
          same_cap = refl;
          same_hash = refl;
          robin = assigned-IsRobin;
          sound = λ q v h. elim (Holds-assigned q v h) [
            | inl (same, reads) ↦ inl (laws.cmp_trans _ _ _ there same, reads)
            | inr (other, old) ↦ inr (λ e. other (laws.cmp_trans _ _ _ here e), old)
          ];
          written = λ q e. Holds-assigned_here q (laws.cmp_trans _ _ _ here e);
          kept = λ q v other. Holds-assigned_other q v (λ e. other (laws.cmp_trans _ _ _ there e));
          taken = s;
          spare = λ i ne o. is_empty-assigned i ∙ o;
        },
      )
