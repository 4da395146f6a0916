-- ===== src/Rhhm/Map.antt =====
-- The table as a map: what `rhhm_get` reads after `rhhm_set`.
use native.Mathlib.Decide.{ℕ_discrete}
use minilua.Common.{
  ℕ, zero, suc, ◌≤◌, ◌<◌, ◌≡◌, ◌≢◌, ◌⊎◌, inl, inr, refl, sym, ◌∙◌, true, arith, ◌==◌, if◌then◌else◌,
  ==_false, ==_iff, done, Bool, Bool-cases,
}
use minilua.Rhhm.{RhhmData, Rhhm, is_empty, at, bv_none, bv_nil, rhhm_get, ready, rhhm_set}
use minilua.Rhhm.Robin.{KeyLaws, IsFull, IsRobin, Holds, Writes}
use minilua.Rhhm.Get.{HasNoNil, get-Holds, get_absent}
use minilua.Rhhm.Set.{set_ready-Writes}

module _ (hfn : ℕ → ℕ) (cfn : ℕ → ℕ → ℕ) where
  -- An empty slot of the table.
  pub record Free (d : RhhmData) (slot : ℕ) : Type 0 where
    pub inside : slot < d.cap
    pub void : is_empty (at d.table slot) ≡ true

  Holds-below :
      (d : RhhmData) (q n : ℕ)
      → n ≤ d.cap
      → ((v : ℕ) × Holds hfn cfn d.cap d.table q v)
        ⊎ ((i : ℕ) → i < n → IsFull hfn cfn d.table i → cfn (at d.table i).key q ≢ 0)
  Holds-below d q zero le = inr (λ i lt. elim lt [ ])
  Holds-below d q (suc n) le = elim (Holds-below d q n (omega arith)) [
    | inl found ↦ inl found
    | inr none ↦ elim (Bool-cases (is_empty (at d.table n))) [
      | inl void ↦ inr (λ i lt full. elim (ℕ_discrete i n) [
        | yes here ↦ cc (here, full, void)
        | no before ↦ none i (omega arith) full
      ])
      | inr full ↦ elim (ℕ_discrete (cfn (at d.table n).key q) 0) [
        | yes same ↦ inl (
          (at d.table n).value,
          record { slot = n; inside = le; full = full; same = same; reads = refl },
        )
        | no other ↦ inr (λ i lt f. elim (ℕ_discrete i n) [
          | yes here ↦ rw here other
          | no before ↦ none i (omega arith) f
        ])
      ]
    ]
  ]

  -- whether a key is in the table
  Holds-cases :
      (d : RhhmData) (q : ℕ)
      → ((v : ℕ) × Holds hfn cfn d.cap d.table q v) ⊎ ((v : ℕ) → ¬ Holds hfn cfn d.cap d.table q v)
  Holds-cases d q = elim (Holds-below d q d.cap (omega arith)) [
    | inl found ↦ inl found
    | inr none ↦ inr (λ v h. none h.slot h.inside h.full h.same)
  ]

  -- `rhhm_set` on a table with an empty slot returns, whatever is displaced on the way; the result
  -- is in Robin Hood order, holds `value` for `key`, keeps every other binding and has no more.
  pub rhhm_set-Writes :
      (laws : KeyLaws hfn cfn) (alloc : Bool) (d : RhhmData)
      → IsRobin hfn cfn d.cap d.table
      → (key value : ℕ) → value ≢ bv_none
      → (slot : ℕ) → Free d slot
      → (d' : RhhmData) × (rhhm_set hfn cfn alloc (ready d) key value ≡ done (ready d'))
        × Writes hfn cfn d key value d'
  unfolding rhhm_set
  rhhm_set-Writes laws alloc d robin key value solid slot free =
      let (d', run, w) =
        set_ready-Writes hfn cfn laws d robin key value solid slot free.inside free.void in
      (d', rw run, w)

  -- one of two empty slots is still empty
  Free-kept :
      (d d' : RhhmData) (key value a b : ℕ)
      → Writes hfn cfn d key value d'
      → a ≢ b
      → Free d a
      → Free d b
      → (c : ℕ) × (c < d.cap) × (is_empty (at d'.table c) ≡ true)
  Free-kept d d' key value a b w apart fa fb = elim (ℕ_discrete a w.taken) [
    | yes lost ↦ (b, fb.inside, w.spare b (λ e. apart (lost ∙ sym e)) fb.void)
    | no left ↦ (a, fa.inside, w.spare a left fa.void)
  ]

  module _ (laws : KeyLaws hfn cfn) (d d' : RhhmData) (robin : IsRobin hfn cfn d.cap d.table)
      (plain : HasNoNil hfn cfn d) (key value : ℕ) (w : Writes hfn cfn d key value d')
      (not_nil : value ≢ bv_nil) where
    robin' : IsRobin hfn cfn d'.cap d'.table
    robin' = rw w.same_cap w.robin

    widen : (q v : ℕ) → Holds hfn cfn d.cap d'.table q v → Holds hfn cfn d'.cap d'.table q v
    widen q v h = rw w.same_cap h

    narrow : (q v : ℕ) → Holds hfn cfn d'.cap d'.table q v → Holds hfn cfn d.cap d'.table q v
    narrow q v h = rw w.same_cap at h

    HasNoNil-after : HasNoNil hfn cfn d'
    HasNoNil-after i lt full blank =
        let k = (at d'.table i).key in
        elim (w.sound k bv_nil (record {
          slot = i;
          inside = rw w.same_cap at lt;
          full = full;
          same = laws.cmp_refl k;
          reads = blank;
        })) [ inl (same, e) ↦ not_nil e | inr (other, h) ↦ plain h.slot h.inside h.full h.reads ]

    get-after :
        (free free' q : ℕ)
        → Free d free
        → free' < d.cap
        → is_empty (at d'.table free') ≡ true
        → rhhm_get hfn cfn (ready d') q
          ≡ (if cfn key q == 0 then done value else rhhm_get hfn cfn (ready d) q)
    get-after free free' q f inside' void' = elim (ℕ_discrete (cfn key q) 0) [
      | yes same ↦ rw ((==_iff _ _).1 same) (
          get-Holds hfn cfn laws d' robin' q value (widen q value (w.written q same))
            HasNoNil-after)
      | no other ↦ rw (==_false _ 0 other) (elim (Holds-cases d q) [
        | inl (v, h) ↦
            get-Holds hfn cfn laws d' robin' q v (widen q v (w.kept q v other h)) HasNoNil-after
            ∙ sym (get-Holds hfn cfn laws d robin q v h plain)
        | inr none ↦
            get_absent hfn cfn laws d' robin' q
              (λ v h. elim (w.sound q v (narrow q v h)) [
                | inl (same, _) ↦ other same
                | inr (_, old) ↦ none v old
              ])
              free' (rw w.same_cap inside') void'
            ∙ sym (get_absent hfn cfn laws d robin q none free f.inside f.void)
      ])
    ]

  -- On a table in Robin Hood order that holds no nil and has two empty slots, `rhhm_set` with a
  -- value other than nil and none returns, and every later `rhhm_get` ends: it reads the new value
  -- under each key equal to the one written, and under any other key what was read before.
  pub get-set :
      (laws : KeyLaws hfn cfn) (alloc : Bool) (d : RhhmData)
      → IsRobin hfn cfn d.cap d.table
      → HasNoNil hfn cfn d
      → (key value : ℕ) → value ≢ bv_none
      → value ≢ bv_nil
      → (a b : ℕ) → a ≢ b
      → Free d a
      → Free d b
      → (hm : Rhhm) × (rhhm_set hfn cfn alloc (ready d) key value ≡ done hm)
        × ((q : ℕ)
            → rhhm_get hfn cfn hm q
              ≡ (if cfn key q == 0 then done value else rhhm_get hfn cfn (ready d) q))
  get-set laws alloc d robin plain key value solid not_nil a b apart fa fb =
      let (d', run, w) = rhhm_set-Writes laws alloc d robin key value solid a fa in
      let (c, inside, void) = Free-kept d d' key value a b w apart fa fb in
      (ready d', run, λ q. get-after laws d d' robin plain key value w not_nil a c q fa inside void)
