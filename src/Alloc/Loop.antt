-- ===== src/Alloc/Loop.antt =====
-- `allocate` gives no place to two variables that are live together.
use native.Mathlib.Decide.{ℕ_discrete}
use minilua.Common.{
  ℕ, ◌+◌, ◌/◌, ◌%◌, ◌^◌, ◌-◌, ◌≤◌, ◌<◌, ◌≡◌, ◌≢◌, ◌⊎◌, inl, inr, refl, sym, ◌∙◌, ap, true, false,
  ◌==◌, ==_refl, ==_false, ltb, ltb→lt, ltb→ge, List, [], ◌∷◌, ◌++◌, length, length-append,
  length-set, set, Option, none, some, Bool-cases, ℤ, pos, negsuc, assign, assign_same,
  assign_other, arith,
}
use minilua.Alloc.{
  Alloc, current_at, is_placed, find_free, pick_spilled, spill, place_var, allocate_step,
  allocate_loop, allocate,
}
use minilua.Alloc.Places.{reg_at, Registers, Scanned}
use minilua.Alloc.Take.{take-Scanned, pos-injective, pos-negsuc}
use minilua.Alloc.Scan.{
  find_free-some, pick_spilled-cases, Puts-set, Puts-append, later, Slots-spill,
}
use minilua.Alloc.Step.{
  unplaced, assign_id, assign_comm, Free-ended, Free-next, Free-spilled, without,
}

-- the words are in order, and the start in each is that of its variable
abbrev pub Ordered : (ℕ → ℕ) → ℕ → List ℕ → Type 0
Ordered start now [] = Unit
Ordered start now (word ∷ words) =
    (now ≤ word / 2 ^ 16)
    × (start (word % 2 ^ 16) ≡ word / 2 ^ 16)
    × Ordered start (word / 2 ^ 16) words

module _ (regs : List ℕ) (end : ℕ → ℕ) (start : ℕ → ℕ) (fixed : ℕ → ℤ)
    (registers : Registers regs) where
  abbrev Good : ℕ → Alloc → Type 0
  Good now st = Scanned regs end start fixed now st

  module _ (st : Alloc) (var : ℕ) (s : Scanned regs end start fixed (start var) st)
      (open_var : st.assignment var ≡ pos 0) where
    place_free :
        (j : ℕ)
        → j < length st.current
        → end (current_at st.current j) < start var
        → Good (start var) (place_var regs end st var (some j))
    unfolding place_var
    place_free j lt early =
        let free = Free-ended regs end start fixed registers st var s open_var j lt early in
        let len = length-set st.current j var in
        rw (s.owns j lt) (
          take-Scanned regs end start fixed registers st var j free (set st.current j var)
            (Puts-set st.current j var lt) (omega (arith, s.room)))

    place_next : length st.current < length regs → Good (start var) (place_var regs end st var none)
    unfolding place_var
    place_next lt =
        let free = Free-next regs end start fixed registers st var s open_var lt in
        let len = length-append st.current (var ∷ []) in
        let room : ltb (length st.current) (length regs) ≡ true = ground arith in
        rw room (
          take-Scanned regs end start fixed registers st var (length st.current) free
            (st.current ++ (var ∷ [])) (Puts-append st.current var) (omega arith))

    spill_self : (at : ℕ) → Good (start var) (spill st var (var, at))
    unfolding spill
    spill_self at = rw (==_refl var) (record {
      shared = record {
        past = λ u r e solid. s.shared.past u r (kept u r e) solid;
        apart = λ u w r eu ew. s.shared.apart u w r (kept u r eu) (kept w r ew);
      };
      slots =
          Slots-spill regs end start fixed registers st var st.current s.slots
            (s.slots.unfixed var 0 open_var);
      room = s.room;
      owns = λ i within.
          assign_other st.assignment var (negsuc st.spills) (current_at st.current i) (λ e.
            registers.solid i (omega (arith, s.room))
              (pos-injective _ 0 (sym (s.owns i within) ∙ ap st.assignment e ∙ open_var)))
          ∙ s.owns i within;
      held = λ u r e. s.held u r (kept u r e);
    })
      where
        kept :
            (u r : ℕ)
            → assign st.assignment var (negsuc st.spills) u ≡ pos r
            → st.assignment u ≡ pos r
        kept u r e = elim (ℕ_discrete u var) [
          | yes is ↦ absurd (
              pos-negsuc r st.spills (
                sym e
                ∙ ap (assign st.assignment var (negsuc st.spills)) is
                ∙ assign_same st.assignment var (negsuc st.spills)))
          | no other ↦ sym (assign_other st.assignment var (negsuc st.spills) u other) ∙ e
        ]

    spill_other :
        (m : ℕ)
        → m < length st.current
        → current_at st.current m ≢ var
        → Good (start var) (spill st var (current_at st.current m, m))
    unfolding spill
    spill_other m lt apart =
        let old = current_at st.current m in
        let free = Free-spilled regs end start fixed registers st var s open_var m lt apart in
        let len = length-set st.current m var in
        let next =
          take-Scanned regs end start fixed registers
            (without regs end start fixed registers st var s open_var m lt) var m free
            (set st.current m var) (Puts-set st.current m var lt) (omega (arith, s.room)) in
        rw
          (
            ==_false old var apart,
            s.owns m lt,
            assign_comm st.assignment var old (pos (reg_at regs m)) (negsuc st.spills)
                (λ e. apart (sym e)),
          )
          next

    place_spill :
        length regs ≤ length st.current → Good (start var) (place_var regs end st var none)
    unfolding place_var
    place_spill ge =
        let full : ltb (length st.current) (length regs) ≡ false = ground arith in
        elim (pick_spilled-cases end st.current 0 var 0) [
          | inl self ↦ rw (full, self) (spill_self 0)
          | inr (m, lt, e) ↦ elim (ℕ_discrete (current_at st.current m) var) [
            | yes is ↦ rw (full, at m e, is) (spill_self m)
            | no other ↦ rw (full, at m e) (spill_other m lt other)
          ]
        ]
      where
        at :
            (m : ℕ)
            → pick_spilled end st.current 0 var 0 ≡ (current_at st.current m, 0 + m)
            → pick_spilled end st.current 0 var 0 ≡ (current_at st.current m, m)
        at m e = e ∙ ap (λ k. (current_at st.current m, k)) (omega arith)

    place-Scanned :
        (o : Option ℕ)
        → find_free end (start var) st.current 0 ≡ o
        → Good (start var) (place_var regs end st var o)
    place-Scanned (some k) e =
        let (j, lt, is, early) = find_free-some end (start var) st.current 0 k e in
        let same : k ≡ j = omega arith in rw same (place_free j lt early)
    place-Scanned none e = elim (Bool-cases (ltb (length st.current) (length regs))) [
      | inl room ↦ place_next (ltb→lt _ _ room)
      | inr full ↦ place_spill (ltb→ge _ _ full)
    ]

  step-Scanned :
      (now word : ℕ) (st : Alloc)
      → Good now st
      → now ≤ word / 2 ^ 16
      → start (word % 2 ^ 16) ≡ word / 2 ^ 16
      → Good (word / 2 ^ 16) (allocate_step regs end word st)
  unfolding allocate_step
  step-Scanned now word st s le starts =
      let var = word % 2 ^ 16 in
      let now' = word / 2 ^ 16 in
      let s' = later regs end start fixed registers now now' st le s in
      elim (Bool-cases (is_placed (st.assignment var))) [
        | inl placed ↦ rw placed s'
        | inr open_var ↦
            let at_zero = unplaced (st.assignment var) open_var in
            elim (Bool-cases (end var == 2 ^ 32 - 1)) [
              | inl unused ↦ rw (open_var, unused, assign_id st.assignment var (pos 0) at_zero) s'
              | inr used ↦
                  rw (open_var, used)
                    (rw starts at (
                      place-Scanned st var (rw starts s') at_zero
                        (find_free end (start var) st.current 0) refl))
            ]
      ]

  loop-Scanned :
      (words : List ℕ) (now : ℕ) (st : Alloc)
      → Good now st
      → Ordered start now words
      → (now' : ℕ) × Good now' (allocate_loop regs end words st)
  unfolding allocate_loop
  loop-Scanned [] now st s o = (now, s)
  loop-Scanned (word ∷ words) now st s (le, starts, rest) =
      loop-Scanned words (word / 2 ^ 16) (allocate_step regs end word st)
        (step-Scanned now word st s le starts) rest

-- For registers that differ and are not rax, starts of live ranges in order, and parameters that
-- are on the stack already: after `allocate` two variables with the same register other than rax
-- are never live together, one ends before the other starts; two variables that were spilled have
-- different slots, below the count of the spills.
pub allocate-Apart :
    (regs : List ℕ) (end start : ℕ → ℕ) (fixed : ℕ → ℤ) (words : List ℕ)
    → Registers regs
    → ((u r : ℕ) → fixed u ≡ pos r → r ≡ 0)
    → Ordered start 0 words
    → (let st = allocate regs words end fixed in
        ((u w r : ℕ)
          → st.assignment u ≡ pos r
          → st.assignment w ≡ pos r
          → r ≢ 0
          → u ≢ w
          → (end u < start w) ⊎ (end w < start u))
        × ((u k : ℕ) → fixed u ≡ pos 0 → st.assignment u ≡ negsuc k → k < st.spills)
        × ((u w k : ℕ)
            → fixed u ≡ pos 0
            → fixed w ≡ pos 0
            → st.assignment u ≡ negsuc k
            → st.assignment w ≡ negsuc k
            → u ≡ w))
unfolding allocate
allocate-Apart regs end start fixed words registers zeros order =
    let first : Alloc = record { assignment = fixed; current = []; spills = 0 } in
    let (now, s) =
      loop-Scanned regs end start fixed registers words 0 first
        (record {
          shared = record {
            past = λ u r e solid. absurd (solid (zeros u r e));
            apart = λ u w r eu ew solid. absurd (solid (zeros u r eu));
          };
          slots = record {
            below = λ u k e. inl e;
            single = λ u w k fu fw eu. absurd (pos-negsuc 0 k (sym fu ∙ eu));
            unfixed = λ u r e. e ∙ ap pos (zeros u r e);
          };
          room = omega arith;
          owns = λ j lt. elim lt [ ];
          held = λ u r e solid. absurd (solid (zeros u r e));
        })
        order in
    (
      s.shared.apart,
      λ u k f e. elim (s.slots.below u k e) [
        | inl g ↦ absurd (pos-negsuc 0 k (sym f ∙ g))
        | inr (_, lt) ↦ lt
      ],
      s.slots.single,
    )
