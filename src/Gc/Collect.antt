-- ===== src/Gc/Collect.antt =====
-- A collection: what it makes of the heap, the globals and the stack.
use minilua.Common.{ℕ, ◌+◌, ◌*◌, ◌^◌, ◌≤◌, ◌<◌, ◌≡◌, ◌⊎◌, true, false, List, [], ◌∷◌}
use minilua.Value.{bv_is_tbl, bv_get_tbl}
use minilua.Rhhm.{Rhhm}
use minilua.Gc.{Object, heart, live, Gc, State}
use minilua.Gc.Follows.{inside, Aligned, Outside, Points}
use minilua.Gc.Cheney.{Copy, Map, Moved, Cheney}
use minilua.Gc.Reach.{Collected}

-- The half at `F` has `U` tables and room for `N`; `start` is the heap before.
module _ (F T N U : ℕ) (start : ℕ → Object) (apart : (F + 8 * N ≤ T) ⊎ (T + 8 * N ≤ F))
    (used : U ≤ N) (small : T + 8 * N ≤ 2 ^ 48) where
  -- between collections of roots
  abbrev pub Idle : ℕ → Gc → Type 0
  Idle w g = Cheney F T N U start w w g × (g.reader ≡ T + 8 * w)

  abbrev After : ℕ → Gc → Gc → Type 0
  After w g g' = Collected F T N U start apart used small w g g'

  -- the words of the stack
  abbrev pub AllAligned : List ℕ → Type 0
  AllAligned [] = Unit
  AllAligned (p ∷ ps) = Aligned F T N U p × AllAligned ps

  abbrev AllMoved : ℕ → Gc → List ℕ → Type 0
  AllMoved w g [] = Unit
  AllMoved w g (p ∷ ps) =
      (bv_is_tbl p ≡ true → Moved F T N U start w (bv_get_tbl p) g) × AllMoved w g ps

  abbrev pub AllOutside : List ℕ → Type 0
  AllOutside [] = Unit
  AllOutside (p ∷ ps) = Outside F T N U p × AllOutside ps

  -- a word of the stack, and what the collection makes of it
  abbrev pub FixFollows : Gc → ℕ → ℕ → Type 0
  FixFollows g p p' =
      ((bv_is_tbl p ≡ false) × (p' ≡ p))
      ⊎ ((bv_is_tbl p ≡ true)
          × (((inside F T N U (bv_get_tbl p) ≡ false) × (p' ≡ p)) ⊎ Points F T N U g.heap p p'))

  abbrev pub StackFollows : Gc → List ℕ → List ℕ → Type 0
  StackFollows g [] [] = Unit
  StackFollows g [] (p' ∷ ps') = ⊥
  StackFollows g (p ∷ ps) [] = ⊥
  StackFollows g (p ∷ ps) (p' ∷ ps') = FixFollows g p p' × StackFollows g ps ps'

  -- The half at `T` is in use now, with `w` tables from its beginning; each is the copy of a table of
  -- the other half, with its pointers followed, and none points back. The globals are the copy of
  -- `globals`, and the words of the stack are those of `stack`, followed.
  pub record Closed (globals : ℕ) (stack : List ℕ) (w : ℕ) (L : State) : Type 0 where
    pub from : L.gc.from ≡ T
    pub to : L.gc.to ≡ F
    pub cur : L.gc.cur ≡ T + 8 * w
    pub fits : w ≤ U
    pub globals_moved :
        (k : ℕ) × (k < w) × (L.globals ≡ T + 8 * k) × (L.gc.heap globals ≡ heart L.globals)
    pub stack_followed : StackFollows L.gc stack L.stack
    pub stack_away : AllOutside L.stack
    pub copies : (k : ℕ) → k < w → Copy F T N U start w L.gc.heap k
    pub away :
        (k : ℕ) → k < w → (h : Rhhm) × (L.gc.heap (T + 8 * k) ≡ live h) × Map (Outside F T N U) h
