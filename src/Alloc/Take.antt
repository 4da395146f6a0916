-- ===== src/Alloc/Take.antt =====
-- A variable takes a register that is free for it.
use native.Mathlib.Decide.{ℕ_discrete}
use minilua.Common.{
  ℕ, ◌≤◌, ◌<◌, ◌≡◌, ◌≢◌, ◌⊎◌, inl, inr, sym, ◌∙◌, ap, List, length, ℤ, pos, negsuc, assign,
  assign_same, assign_other, arith,
}
use minilua.Alloc.{Alloc, current_at}
use minilua.Alloc.Places.{reg_at, Apart, Registers, Scanned, Free}

-- `current'` is `current` with `var` at index `j`
pub record Puts (current : List ℕ) (j var : ℕ) (current' : List ℕ) : Type 0 where
  pub inside : j < length current'
  pub longer : length current ≤ length current'
  pub only : (i : ℕ) → i < length current' → i ≢ j → i < length current
  pub here : current_at current' j ≡ var
  pub others : (i : ℕ) → i ≢ j → i < length current' → current_at current' i ≡ current_at current i

pub pos-injective : (m n : ℕ) → pos m ≡ pos n → m ≡ n
pos-injective m n e = ap value e
  where
    value : ℤ → ℕ
    value (pos k) = k
    value (negsuc k) = k

pub pos-negsuc : (m n : ℕ) → pos m ≡ negsuc n → ⊥
pos-negsuc m n e = cc

module _ (regs : List ℕ) (end : ℕ → ℕ) (start : ℕ → ℕ) (fixed : ℕ → ℤ) (registers : Registers regs)
    (st : Alloc) (var j : ℕ) (free : Free regs end start fixed var j st) (current' : List ℕ)
    (puts : Puts st.current j var current') (small : length current' ≤ length regs) where
  abbrev pub taken : Alloc
  taken = record st {
    assignment = assign st.assignment var (pos (reg_at regs j));
    current = current';
  }

  abbrev at : ℕ → ℤ
  at = st.assignment

  cases :
      (u : ℕ)
      → ((u ≡ var) × (taken.assignment u ≡ pos (reg_at regs j)))
        ⊎ ((u ≢ var) × (taken.assignment u ≡ at u))
  cases u = elim (ℕ_discrete u var) [
    | yes e ↦ inl (e, rw e (assign_same at var (pos (reg_at regs j))))
    | no other ↦ inr (other, assign_other at var (pos (reg_at regs j)) u other)
  ]

  -- who has the register already has ended
  ended : (u : ℕ) → at u ≡ pos (reg_at regs j) → end u < start var
  ended u e = elim (free.held u (reg_at regs j) e (registers.solid j free.offered)) [
    | inl (_, lt) ↦ lt
    | inr (i, lt, other, same, _) ↦
        absurd (other (sym (registers.unlike j i free.offered (omega (arith, free.room)) same)))
  ]

  past : (u r : ℕ) → taken.assignment u ≡ pos r → r ≢ 0 → start u ≤ start var
  past u r e solid = elim (cases u) [
    | inl (same, _) ↦ omega (arith, ap start same)
    | inr (_, old) ↦ free.shared.past u r (sym old ∙ e) solid
  ]

  apart :
      (u w r : ℕ)
      → taken.assignment u ≡ pos r
      → taken.assignment w ≡ pos r
      → r ≢ 0
      → u ≢ w
      → Apart regs end start fixed u w
  apart u w r eu ew solid unlike = elim (cases u) [
    | inl (u_var, tu) ↦ elim (cases w) [
      | inl (w_var, _) ↦ absurd (unlike (u_var ∙ sym w_var))
      | inr (_, tw) ↦ inr (rw u_var (ended w (sym tw ∙ ew ∙ sym eu ∙ tu)))
    ]
    | inr (_, tu) ↦ elim (cases w) [
      | inl (w_var, tw) ↦ inl (rw w_var (ended u (sym tu ∙ eu ∙ sym ew ∙ tw)))
      | inr (_, tw) ↦ free.shared.apart u w r (sym tu ∙ eu) (sym tw ∙ ew) solid unlike
    ]
  ]

  below :
      (u k : ℕ)
      → taken.assignment u ≡ negsuc k
      → (fixed u ≡ negsuc k) ⊎ ((fixed u ≡ pos 0) × (k < st.spills))
  below u k e = elim (cases u) [
    | inl (_, t) ↦ absurd (pos-negsuc _ k (sym t ∙ e))
    | inr (_, t) ↦ free.slots.below u k (sym t ∙ e)
  ]

  single :
      (u w k : ℕ)
      → fixed u ≡ pos 0
      → fixed w ≡ pos 0
      → taken.assignment u ≡ negsuc k
      → taken.assignment w ≡ negsuc k
      → u ≡ w
  single u w k fu fw eu ew = elim (cases u) [
    | inl (_, t) ↦ absurd (pos-negsuc _ k (sym t ∙ eu))
    | inr (_, tu) ↦ elim (cases w) [
      | inl (_, t) ↦ absurd (pos-negsuc _ k (sym t ∙ ew))
      | inr (_, tw) ↦ free.slots.single u w k fu fw (sym tu ∙ eu) (sym tw ∙ ew)
    ]
  ]

  unfixed : (u r : ℕ) → taken.assignment u ≡ pos r → fixed u ≡ pos 0
  unfixed u r e = elim (cases u) [
    | inl (same, _) ↦ rw same (free.slots.unfixed var 0 free.unplaced)
    | inr (_, t) ↦ free.slots.unfixed u r (sym t ∙ e)
  ]

  owns :
      (i : ℕ) → i < length current' → taken.assignment (current_at current' i) ≡ pos (reg_at regs i)
  owns i lt = elim (ℕ_discrete i j) [
    | yes e ↦ rw (e, puts.here) (assign_same at var (pos (reg_at regs j)))
    | no other ↦
        let within = puts.only i lt other in
        let had = free.owns i within other in
        elim (cases (current_at st.current i)) [
          | inl (is, _) ↦ absurd (
              registers.solid i (omega (arith, free.room))
                (pos-injective _ 0 (sym had ∙ ap at is ∙ free.unplaced)))
          | inr (_, t) ↦ ap taken.assignment (puts.others i other lt) ∙ t ∙ had
        ]
  ]

  held :
      (u r : ℕ)
      → taken.assignment u ≡ pos r
      → r ≢ 0
      → (i : ℕ) × (i < length current')
        × (r ≡ reg_at regs i)
        × ((u ≡ current_at current' i) ⊎ (end u < start (current_at current' i)))
  held u r e solid = elim (cases u) [
    | inl (same, t) ↦ (j, puts.inside, pos-injective r _ (sym e ∙ t), inl (same ∙ sym puts.here))
    | inr (_, t) ↦ elim (free.held u r (sym t ∙ e) solid) [
      | inl (is, lt) ↦ (j, puts.inside, is, inr (rw puts.here lt))
      | inr (i, lt, other, is, owner) ↦ (
        i,
        omega (arith, puts.longer),
        is,
        rw (puts.others i other (omega (arith, puts.longer))) owner,
      )
    ]
  ]

  pub take-Scanned : Scanned regs end start fixed (start var) taken
  take-Scanned = record {
    shared = record { past = past; apart = apart };
    slots = record { below = below; single = single; unfixed = unfixed };
    room = small;
    owns = owns;
    held = held;
  }
