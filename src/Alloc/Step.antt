-- ===== src/Alloc/Step.antt =====
-- `allocate` gives no place to two variables that are live together.
use native.Mathlib.Decide.{ℕ_discrete}
use minilua.Common.{
  ℕ, ◌+◌, ◌≤◌, ◌<◌, ◌≡◌, ◌≢◌, inl, inr, sym, ◌∙◌, ap, fun_ext, false, List, length, ℤ, pos, negsuc,
  assign, assign_same, assign_other, arith,
}
use minilua.Alloc.{Alloc, current_at, is_placed}
use minilua.Alloc.Places.{reg_at, Registers, Scanned, Free}
use minilua.Alloc.Take.{pos-injective, pos-negsuc}
use minilua.Alloc.Scan.{Slots-spill}

-- a place that the test of `allocate` takes for none
pub unplaced : (z : ℤ) → is_placed z ≡ false → z ≡ pos 0
unfolding is_placed
unplaced (pos n) h = ground arith
unplaced (negsuc n) h = cc

pub assign_id : (f : ℕ → ℤ) (v : ℕ) (a : ℤ) → f v ≡ a → assign f v a ≡ f
assign_id f v a e = fun_ext (λ u. same u)
  where
    same : (u : ℕ) → assign f v a u ≡ f u
    same u = elim (ℕ_discrete u v) [
      | yes is ↦ rw (is, assign_same f v a, e)
      | no other ↦ assign_other f v a u other
    ]

pub assign_comm :
    (f : ℕ → ℤ) (v w : ℕ) (a b : ℤ) → v ≢ w → assign (assign f v a) w b ≡ assign (assign f w b) v a
assign_comm f v w a b apart = fun_ext (λ u. same u)
  where
    same : (u : ℕ) → assign (assign f v a) w b u ≡ assign (assign f w b) v a u
    same u = elim (ℕ_discrete u v) [
      | yes is ↦
          assign_other (assign f v a) w b u (λ e. apart (sym is ∙ e))
          ∙ rw (is, assign_same f v a, assign_same (assign f w b) v a)
      | no other ↦ elim (ℕ_discrete u w) [
        | yes is ↦
            rw (assign_other (assign f w b) v a u other)
              (rw (is, assign_same (assign f v a) w b, assign_same f w b))
        | no other' ↦
            assign_other (assign f v a) w b u other'
            ∙ assign_other f v a u other
            ∙ sym (assign_other (assign f w b) v a u other ∙ assign_other f w b u other')
      ]
    ]

module _ (regs : List ℕ) (end : ℕ → ℕ) (start : ℕ → ℕ) (fixed : ℕ → ℤ) (registers : Registers regs)
    (st : Alloc) (var : ℕ) (s : Scanned regs end start fixed (start var) st)
    (open_var : st.assignment var ≡ pos 0) where
  abbrev pub at : ℕ → ℤ
  at = st.assignment

  started : (i : ℕ) → i < length st.current → start (current_at st.current i) ≤ start var
  started i lt =
      s.shared.past _ (reg_at regs i) (s.owns i lt) (registers.solid i (omega (arith, s.room)))

  -- a current variable that ended before this one starts gives its register
  pub Free-ended :
      (j : ℕ)
      → j < length st.current
      → end (current_at st.current j) < start var
      → Free regs end start fixed var j st
  Free-ended j lt early = record {
    shared = s.shared;
    slots = s.slots;
    inside = omega arith;
    room = s.room;
    offered = omega (arith, s.room);
    owns = λ i within other. s.owns i within;
    unplaced = open_var;
    held = λ u r e solid.
        let (i, within, is, owner) = s.held u r e solid in
        elim (ℕ_discrete i j) [
          | yes same ↦ elim owner [
            | inl it ↦ inl (is ∙ ap (reg_at regs) same, rw (it, same) early)
            | inr before ↦
                inl (is ∙ ap (reg_at regs) same, let le = started i within in omega arith)
          ]
          | no other ↦ inr (i, within, other, is, owner)
        ];
  }

  -- a register that no variable had
  pub Free-next :
      length st.current < length regs → Free regs end start fixed var (length st.current) st
  Free-next lt = record {
    shared = s.shared;
    slots = s.slots;
    inside = omega arith;
    room = s.room;
    offered = lt;
    owns = λ i within other. s.owns i within;
    unplaced = open_var;
    held = λ u r e solid.
        let (i, within, is, owner) = s.held u r e solid in
        inr (i, within, (λ e'. omega arith), is, owner);
  }

  module _ (m : ℕ) (lt : m < length st.current) where
    abbrev pub spilled : ℕ
    spilled = current_at st.current m

    abbrev pub without : Alloc
    without = record {
      assignment = assign st.assignment spilled (negsuc st.spills);
      current = st.current;
      spills = st.spills + 1;
    }

    kept : (u r : ℕ) → without.assignment u ≡ pos r → (u ≢ spilled) × (at u ≡ pos r)
    kept u r e = elim (ℕ_discrete u spilled) [
      | yes is ↦ absurd (
          pos-negsuc r st.spills (
            sym e
            ∙ ap without.assignment is
            ∙ assign_same st.assignment spilled (negsuc st.spills)))
      | no other ↦ (other, sym (assign_other st.assignment spilled (negsuc st.spills) u other) ∙ e)
    ]

    -- the register of the spilled variable
    pub Free-spilled : spilled ≢ var → Free regs end start fixed var m without
    Free-spilled apart = record {
      shared = record {
        past = λ u r e solid. s.shared.past u r (kept u r e).1 solid;
        apart = λ u w r eu ew solid unlike.
            s.shared.apart u w r (kept u r eu).1 (kept w r ew).1 solid unlike;
      };
      slots =
          Slots-spill regs end start fixed registers st spilled st.current s.slots
            (s.slots.unfixed spilled (reg_at regs m) (s.owns m lt));
      inside = omega arith;
      room = s.room;
      offered = omega (arith, s.room);
      owns = λ i within other.
          assign_other st.assignment spilled (negsuc st.spills) (current_at st.current i) (λ e.
            other (
              registers.unlike i m (omega (arith, s.room)) (omega (arith, s.room))
                (pos-injective _ _ (sym (s.owns i within) ∙ ap st.assignment e ∙ s.owns m lt))))
          ∙ s.owns i within;
      unplaced =
          assign_other st.assignment spilled (negsuc st.spills) var (λ e. apart (sym e)) ∙ open_var;
      held = λ u r e solid.
          let (other_var, e') = kept u r e in
          let (i, within, is, owner) = s.held u r e' solid in
          elim (ℕ_discrete i m) [
            | yes same ↦ elim owner [
              | inl it ↦ absurd (other_var (it ∙ ap (current_at st.current) same))
              | inr before ↦
                  inl (is ∙ ap (reg_at regs) same, let le = started i within in omega arith)
            ]
            | no other ↦ inr (i, within, other, is, owner)
          ];
    }
