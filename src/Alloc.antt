-- ===== src/Alloc.antt =====
-- The register allocator of cc.c: where each variable is live, and a linear scan over the starts of
-- their live ranges. A place is an `int`: a register from 0 (rax, also what an array of zeros holds)
-- or a slot of the stack, -1 for the first one.
pub mod Liveness
pub mod Places
pub mod Take
pub mod Scan
pub mod Step
pub mod Loop
use minilua.Common.{
  ℕ, zero, suc, ◌+◌, ◌/◌, ◌%◌, ◌^◌, ◌-◌, Bool, true, false, not, ◌==◌, ltb, if◌then◌else◌, List, [],
  ◌∷◌, ◌++◌, length, get_or, set, Option, none, some, ℤ, pos, negsuc, assign,
}

abbrev pub rax : ℕ
rax = 0

-- `assignment`, `current[0]` up to `current[used - 1]`, and `spills`
pub record Alloc : Type 0 where
  pub assignment : ℕ → ℤ
  pub current : List ℕ
  pub spills : ℕ

-- `if (assignment[var])`
unfoldable pub is_placed : ℤ → Bool
is_placed (pos n) = not (n == 0)
is_placed (negsuc n) = true

abbrev pub current_at : List ℕ → ℕ → ℕ
current_at current j = get_or current j 0

-- the first `j` with `end[current[j]] < var_ini`, from `i` on
unfoldable pub find_free : (ℕ → ℕ) → ℕ → List ℕ → ℕ → Option ℕ
find_free end var_ini [] i = none
find_free end var_ini (old ∷ current) i =
    let rest = find_free end var_ini current (i + 1) in
    if ltb (end old) var_ini then some i else rest

-- the loop that looks for the variable with the latest end, `spilled` and its index being the best
-- before index `i`
unfoldable pub pick_spilled : (ℕ → ℕ) → List ℕ → ℕ → ℕ → ℕ → ℕ × ℕ
pick_spilled end [] i spilled at = (spilled, at)
pick_spilled end (old ∷ current) i spilled at =
    let later = ltb (end spilled) (end old) in
    pick_spilled end current (i + 1) (if later then old else spilled) (if later then i else at)

-- `spilled`, at `idx`, makes room for `var`
unfoldable pub spill : Alloc → ℕ → ℕ × ℕ → Alloc
spill st var (spilled, idx) =
    if spilled == var
    then record st {
      assignment = assign st.assignment var (negsuc st.spills);
      spills = st.spills + 1;
    }
    else record st {
      current = set st.current idx var;
      assignment =
          assign (assign st.assignment var (st.assignment spilled)) spilled (negsuc st.spills);
      spills = st.spills + 1;
    }

unfoldable pub place_var : List ℕ → (ℕ → ℕ) → Alloc → ℕ → Option ℕ → Alloc
unfolding pick_spilled spill
place_var regs end st var (some j) = record st {
  assignment = assign st.assignment var (st.assignment (current_at st.current j));
  current = set st.current j var;
}
place_var regs end st var none =
    if ltb (length st.current) (length regs)
    then record st {
      current = st.current ++ (var ∷ []);
      assignment = assign st.assignment var (pos (get_or regs (length st.current) 0));
    }
    else spill st var (pick_spilled end st.current 0 var 0)

-- one word of `ini`: the start of a live range over the number of its variable
unfoldable pub allocate_step : List ℕ → (ℕ → ℕ) → ℕ → Alloc → Alloc
unfolding is_placed find_free place_var
allocate_step regs end word st =
    let var = word % 2 ^ 16 in
    let var_ini = word / 2 ^ 16 in
    if is_placed (st.assignment var)
    then st
    else if end var == 2 ^ 32 - 1
    then record st { assignment = assign st.assignment var (pos rax) }
    else place_var regs end st var (find_free end var_ini st.current 0)

unfoldable pub allocate_loop : List ℕ → (ℕ → ℕ) → List ℕ → Alloc → Alloc
unfolding allocate_step
allocate_loop regs end [] st = st
allocate_loop regs end (word ∷ words) st =
    allocate_loop regs end words (allocate_step regs end word st)

-- `allocate`, over the words `ini[0]` up to `ini[vsize(c->ops)]`; the bounds of the chunk are not
-- used there
unfoldable pub allocate : List ℕ → List ℕ → (ℕ → ℕ) → (ℕ → ℤ) → Alloc
unfolding allocate_loop
allocate regs ini end assignment =
    allocate_loop regs end ini (record { assignment = assignment; current = []; spills = 0 })
