-- ===== src/Rhhm/Robin.antt =====
-- The order that rhhm.c keeps in its table: every slot that is probed on the way to an entry is
-- full, and holds an entry that is at least as far from its own home.
use minilua.Common.{
  ℕ, ◌-◌, ◌^◌, ◌≤◌, ◌<◌, ◌≡◌, ◌≢◌, ◌⊎◌, inl, inr, sym, ◌∙◌, ap, true, false, List, length, get_or,
  set, get_or-set_self, get_or-set_ne, ◌==◌, if◌then◌else◌, arith, bit_and-le_right, Bool-cases,
  ==_iff,
}
use minilua.Rhhm.{RhhmData, Entry, is_empty, empty_entry, at, distance, home}
use minilua.Rhhm.Ring.{probe}

pub at-set :
    (t : List Entry) (s i : ℕ) (e : Entry)
    → s < length t
    → at (set t s e) i ≡ (if s == i then e else at t i)
at-set t s i e lt = elim (Bool-cases (s == i)) [
  | inl same ↦ rw same (
      ap (λ k. get_or (set t s e) k empty_entry) (sym ((==_iff s i).0 same))
      ∙ get_or-set_self t s e empty_entry lt)
  | inr other ↦ rw other (get_or-set_ne t s i e empty_entry (λ h. ground arith))
]

-- What the source asks of the two functions that a map is used with.
pub record KeyLaws (hfn : ℕ → ℕ) (cfn : ℕ → ℕ → ℕ) : Type 0 where
  pub cmp_refl : (a : ℕ) → cfn a a ≡ 0
  pub cmp_symm : (a b : ℕ) → cfn a b ≡ 0 → cfn b a ≡ 0
  pub cmp_trans : (a b c : ℕ) → cfn a b ≡ 0 → cfn b c ≡ 0 → cfn a c ≡ 0
  pub hash-cmp : (a b : ℕ) → cfn a b ≡ 0 → hfn a ≡ hfn b

module _ (hfn : ℕ → ℕ) (cfn : ℕ → ℕ → ℕ) where
  -- how far the entry in slot `i` is from its home
  abbrev pub dist : ℕ → List Entry → ℕ → ℕ
  dist cap t i = distance cap i (home hfn cfn cap (at t i).key)

  abbrev pub IsFull : List Entry → ℕ → Type 0
  IsFull t i = is_empty (at t i) ≡ false

  -- The `j`-th slot from `h` does not stop a probe that looks for home `h`.
  abbrev pub Passes : ℕ → List Entry → ℕ → ℕ → Type 0
  Passes cap t h j = IsFull t (probe cap h j) × (j ≤ dist cap t (probe cap h j))

  pub record IsRobin (cap : ℕ) (t : List Entry) : Type 0 where
    pub size : length t ≡ cap
    pub pos : 0 < cap
    pub log : ℕ
    pub pow : cap ≡ 2 ^ log
    pub probed :
        (i j : ℕ)
        → i < cap
        → IsFull t i
        → j < dist cap t i
        → Passes cap t (home hfn cfn cap (at t i).key) j
    pub unique :
        (i j : ℕ)
        → i < cap
        → j < cap
        → IsFull t i
        → IsFull t j
        → cfn (at t i).key (at t j).key ≡ 0
        → i ≡ j

  -- The `j`-th slot from `h` is the first to stop a probe: it is empty or holds a richer entry.
  pub record Vacant (cap : ℕ) (t : List Entry) (h j : ℕ) : Type 0 where
    pub inside : j < cap
    pub passes : (i : ℕ) → i < j → Passes cap t h i
    pub stops : (is_empty (at t (probe cap h j)) ≡ true) ⊎ (dist cap t (probe cap h j) < j)

  abbrev pub IsFresh : ℕ → List Entry → ℕ → Type 0
  IsFresh cap t key = (i : ℕ) → i < cap → IsFull t i → cfn (at t i).key key ≢ 0

  -- Slot `i` gives the value `v` for the key `q`.
  pub record Holds (cap : ℕ) (t : List Entry) (q v : ℕ) : Type 0 where
    pub slot : ℕ
    pub inside : slot < cap
    pub full : IsFull t slot
    pub same : cfn (at t slot).key q ≡ 0
    pub reads : (at t slot).value ≡ v

  pub home-lt : (cap key : ℕ) → 0 < cap → home hfn cfn cap key < cap
  unfolding home
  home-lt cap key h = omega (arith, bit_and-le_right (hfn key) (cap - 1))

  pub not_Passes-Vacant :
      (cap : ℕ) (t : List Entry) (h k : ℕ) → Vacant cap t h k → Passes cap t h k → ⊥
  not_Passes-Vacant cap t h k v (full, far) = elim v.stops [
    | inl void ↦ cc (full, void)
    | inr richer ↦ omega arith
  ]

  -- `d'` is `d` with `value` for `key`; at most one empty slot is taken.
  pub record Writes (d : RhhmData) (key value : ℕ) (d' : RhhmData) : Type 0 where
    pub same_cap : d'.cap ≡ d.cap
    pub same_hash : d'.hash ≡ d.hash
    pub robin : IsRobin d.cap d'.table
    pub sound :
        (q v : ℕ)
        → Holds d.cap d'.table q v
        → ((cfn key q ≡ 0) × (value ≡ v)) ⊎ ((cfn key q ≢ 0) × Holds d.cap d.table q v)
    pub written : (q : ℕ) → cfn key q ≡ 0 → Holds d.cap d'.table q value
    pub kept : (q v : ℕ) → cfn key q ≢ 0 → Holds d.cap d.table q v → Holds d.cap d'.table q v
    pub taken : ℕ
    pub spare :
        (i : ℕ) → i ≢ taken → is_empty (at d.table i) ≡ true → is_empty (at d'.table i) ≡ true
