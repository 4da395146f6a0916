-- ===== src/Alloc/Scan.antt =====
-- One word of `ini`: a variable gets a free register, the next register, or makes another one go to
-- the stack.
use native.Mathlib.Decide.{ℕ_discrete}
use minilua.Common.{
  ℕ, suc, ◌+◌, ◌≤◌, ◌<◌, ◌≡◌, ◌≢◌, ◌⊎◌, inl, inr, refl, sym, ◌∙◌, ap, ltb, ltb→lt, List, [], ◌∷◌,
  ◌++◌, length, length-append, length-set, get_or-append_left, get_or-append_end, get_or-set_self,
  get_or-set_ne, set, some, Bool-cases, ℤ, pos, negsuc, assign, assign_same, assign_other, arith,
}
use minilua.Alloc.{Alloc, current_at, find_free, pick_spilled}
use minilua.Alloc.Places.{Registers, Slots, Scanned}
use minilua.Alloc.Take.{Puts, pos-negsuc}

pub find_free-some :
    (end : ℕ → ℕ) (now : ℕ) (current : List ℕ) (i k : ℕ)
    → find_free end now current i ≡ some k
    → (j : ℕ) × (j < length current) × (k ≡ i + j) × (end (current_at current j) < now)
unfolding find_free
find_free-some end now [] i k h = cc
find_free-some end now (old ∷ current) i k h = elim (Bool-cases (ltb (end old) now)) [
  | inl free ↦ (0, omega arith, ground arith, ltb→lt _ _ free)
  | inr busy ↦
      let (j, lt, e, early) = find_free-some end now current (i + 1) k (rw busy at h) in
      (suc j, omega arith, omega arith, early)
]

pub pick_spilled-cases :
    (end : ℕ → ℕ) (current : List ℕ) (i s at : ℕ)
    → (pick_spilled end current i s at ≡ (s, at))
      ⊎ ((m : ℕ) × (m < length current)
          × (pick_spilled end current i s at ≡ (current_at current m, i + m)))
unfolding pick_spilled
pick_spilled-cases end [] i s at = inl refl
pick_spilled-cases end (old ∷ current) i s at = elim (Bool-cases (ltb (end s) (end old))) [
  | inl later ↦ elim (pick_spilled-cases end current (i + 1) old i) [
    | inl e ↦ inr (0, omega arith, rw later (e ∙ ap (λ k. (old, k)) (omega arith)))
    | inr (m, lt, e) ↦
        inr (suc m, omega arith, rw later (e ∙ ap (λ k. (current_at current m, k)) (omega arith)))
  ]
  | inr not_later ↦ elim (pick_spilled-cases end current (i + 1) s at) [
    | inl e ↦ inl (rw not_later e)
    | inr (m, lt, e) ↦
        inr
          (suc m, omega arith, rw not_later (e ∙ ap (λ k. (current_at current m, k)) (omega arith)))
  ]
]

pub Puts-set :
    (current : List ℕ) (j var : ℕ) → j < length current → Puts current j var (set current j var)
Puts-set current j var lt =
    let len = length-set current j var in
    record {
      inside = omega arith;
      longer = omega arith;
      only = λ i within other. omega arith;
      here = get_or-set_self current j var 0 lt;
      others = λ i other within. get_or-set_ne current j i var 0 (λ e. other (sym e));
    }

pub Puts-append :
    (current : List ℕ) (var : ℕ) → Puts current (length current) var (current ++ (var ∷ []))
Puts-append current var =
    let len = length-append current (var ∷ []) in
    record {
      inside = omega arith;
      longer = omega arith;
      only = λ i within other. omega arith;
      here = get_or-append_end current var 0 (length current) refl;
      others = λ i other within. get_or-append_left current (var ∷ []) i 0 (omega arith);
    }

module _ (regs : List ℕ) (end : ℕ → ℕ) (start : ℕ → ℕ) (fixed : ℕ → ℤ)
    (registers : Registers regs) where
  pub later :
      (now now' : ℕ) (st : Alloc)
      → now ≤ now'
      → Scanned regs end start fixed now st
      → Scanned regs end start fixed now' st
  later now now' st le s = record {
    shared = record {
      past = λ u r e solid. let lt = s.shared.past u r e solid in omega arith;
      apart = s.shared.apart;
    };
    slots = s.slots;
    room = s.room;
    owns = s.owns;
    held = s.held;
  }

  -- a variable that was not assigned before goes to a new slot
  pub Slots-spill :
      (st : Alloc) (v : ℕ) (current : List ℕ)
      → Slots regs end start fixed st
      → fixed v ≡ pos 0
      → Slots regs end start fixed (record {
        assignment = assign st.assignment v (negsuc st.spills);
        current = current;
        spills = st.spills + 1;
      })
  Slots-spill st v current s open_var = record {
    below = λ u k e. elim (ℕ_discrete u v) [
      | yes is ↦
          let k_last =
            index _ _
              (sym (assign_same st.assignment v (negsuc st.spills)) ∙ ap new (sym is) ∙ e) in
          inr (rw is open_var, omega arith)
      | no other ↦ elim (s.below u k (sym (old u other) ∙ e)) [
        | inl f ↦ inl f
        | inr (f, lt) ↦ inr (f, omega arith)
      ]
    ];
    single = λ u w k fu fw eu ew. elim (ℕ_discrete u v) [
      | yes iu ↦ elim (ℕ_discrete w v) [
        | yes iw ↦ iu ∙ sym iw
        | no other ↦ absurd (clash u w k iu other fw eu ew)
      ]
      | no other ↦ elim (ℕ_discrete w v) [
        | yes iw ↦ absurd (clash w u k iw other fu ew eu)
        | no other' ↦ s.single u w k fu fw (sym (old u other) ∙ eu) (sym (old w other') ∙ ew)
      ]
    ];
    unfixed = λ u r e. elim (ℕ_discrete u v) [
      | yes is ↦ rw is open_var
      | no other ↦ s.unfixed u r (sym (old u other) ∙ e)
    ];
  }
    where
      new : ℕ → ℤ
      new = assign st.assignment v (negsuc st.spills)

      old : (u : ℕ) → u ≢ v → new u ≡ st.assignment u
      old u other = assign_other st.assignment v (negsuc st.spills) u other

      index : (m n : ℕ) → negsuc m ≡ negsuc n → m ≡ n
      index m n e = cc

      clash :
          (u w k : ℕ) → u ≡ v → w ≢ v → fixed w ≡ pos 0 → new u ≡ negsuc k → new w ≡ negsuc k → ⊥
      clash u w k iu other fw eu ew =
          let k_last =
            index _ _
              (sym (assign_same st.assignment v (negsuc st.spills)) ∙ ap new (sym iu) ∙ eu) in
          elim (s.below w k (sym (old w other) ∙ ew)) [
            | inl f ↦ pos-negsuc 0 k (sym fw ∙ f)
            | inr (_, lt) ↦ omega arith
          ]
