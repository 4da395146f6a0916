-- ===== src/Alloc/Places.antt =====
-- What linear scan keeps: `end` and `start` bound the live range of each variable, `regs` are the
-- registers in the order in which they are handed out, `fixed` is what was assigned before.
use minilua.Common.{ℕ, ◌≤◌, ◌<◌, ◌≡◌, ◌≢◌, ◌⊎◌, List, length, get_or, ℤ, pos, negsuc}
use minilua.Alloc.{Alloc, current_at}

module _ (regs : List ℕ) where
  abbrev pub reg_at : ℕ → ℕ
  reg_at j = get_or regs j 0

  -- registers are not rax, and differ
  pub record Registers : Type 0 where
    pub solid : (j : ℕ) → j < length regs → reg_at j ≢ 0
    pub unlike : (i j : ℕ) → i < length regs → j < length regs → reg_at i ≡ reg_at j → i ≡ j

module _ (regs : List ℕ) (end : ℕ → ℕ) (start : ℕ → ℕ) (fixed : ℕ → ℤ) where
  abbrev pub Apart : ℕ → ℕ → Type 0
  Apart u w = (end u < start w) ⊎ (end w < start u)

  -- variables in slots: those that were spilled have one each
  pub record Slots (st : Alloc) : Type 0 where
    pub below :
        (u k : ℕ)
        → st.assignment u ≡ negsuc k
        → (fixed u ≡ negsuc k) ⊎ ((fixed u ≡ pos 0) × (k < st.spills))
    pub single :
        (u w k : ℕ)
        → fixed u ≡ pos 0
        → fixed w ≡ pos 0
        → st.assignment u ≡ negsuc k
        → st.assignment w ≡ negsuc k
        → u ≡ w
    pub unfixed : (u r : ℕ) → st.assignment u ≡ pos r → fixed u ≡ pos 0

  -- variables in a register: no two are live together, and none starts after `now`
  pub record Shared (now : ℕ) (st : Alloc) : Type 0 where
    pub past : (u r : ℕ) → st.assignment u ≡ pos r → r ≢ 0 → start u ≤ now
    pub apart :
        (u w r : ℕ) → st.assignment u ≡ pos r → st.assignment w ≡ pos r → r ≢ 0 → u ≢ w → Apart u w

  -- the `j`-th current variable has the `j`-th register, and every other one in that register has
  -- ended before it starts
  pub record Scanned (now : ℕ) (st : Alloc) : Type 0 where
    pub shared : Shared now st
    pub slots : Slots st
    pub room : length st.current ≤ length regs
    pub owns :
        (j : ℕ)
        → j < length st.current
        → st.assignment (current_at st.current j) ≡ pos (reg_at regs j)
    pub held :
        (u r : ℕ)
        → st.assignment u ≡ pos r
        → r ≢ 0
        → (j : ℕ) × (j < length st.current)
          × (r ≡ reg_at regs j)
          × ((u ≡ current_at st.current j) ⊎ (end u < start (current_at st.current j)))

  -- a state in which `var` can take register `j`
  pub record Free (var j : ℕ) (st : Alloc) : Type 0 where
    pub shared : Shared (start var) st
    pub slots : Slots st
    pub inside : j ≤ length st.current
    pub room : length st.current ≤ length regs
    pub offered : j < length regs
    pub owns :
        (i : ℕ)
        → i < length st.current
        → i ≢ j
        → st.assignment (current_at st.current i) ≡ pos (reg_at regs i)
    pub unplaced : st.assignment var ≡ pos 0
    pub held :
        (u r : ℕ)
        → st.assignment u ≡ pos r
        → r ≢ 0
        → ((r ≡ reg_at regs j) × (end u < start var))
          ⊎ ((i : ℕ) × (i < length st.current)
              × (i ≢ j)
              × (r ≡ reg_at regs i)
              × ((u ≡ current_at st.current i) ⊎ (end u < start (current_at st.current i))))
