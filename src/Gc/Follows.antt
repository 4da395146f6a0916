-- ===== src/Gc/Follows.antt =====
-- What a table becomes in a collection: its entries, with each pointer to where tables were followed
-- to the copy.
use minilua.Common.{
  ℕ, ◌+◌, ◌*◌, ◌<◌, ◌≡◌, ◌⊎◌, inl, inr, Bool, ◌&&◌, ltb, leb, true, false, List, [], ◌∷◌,
}
use minilua.Value.{bv_is_tbl, bv_get_tbl, bv_make_tbl}
use minilua.Rhhm.{Rhhm, Entry, is_empty, packed, ready, null}
use minilua.Gc.{Object, heart}

-- The halves start at `F` and `T` and have room for `N` objects each; `U` of the first are in use.
module _ (F T N U : ℕ) where
  abbrev pub inside : ℕ → Bool
  inside p = leb F p && ltb p (F + 8 * N)

  -- a pointer into the old half is the address of an object
  abbrev pub IsPointer : ℕ → Type 0
  IsPointer p = inside p ≡ true → (i : ℕ) × (i < U) × (p ≡ F + 8 * i)

  abbrev pub Aligned : ℕ → Type 0
  Aligned v = bv_is_tbl v ≡ true → IsPointer (bv_get_tbl v)

  abbrev pub Outside : ℕ → Type 0
  Outside v = bv_is_tbl v ≡ true → inside (bv_get_tbl v) ≡ false

  -- the value of the object `i`, which has been moved to place `k`
  pub record Points (heap : ℕ → Object) (v v' : ℕ) : Type 0 where
    pub i : ℕ
    pub k : ℕ
    pub below : i < U
    pub from : bv_get_tbl v ≡ F + 8 * i
    pub moved : heap (F + 8 * i) ≡ heart (T + 8 * k)
    pub to : v' ≡ bv_make_tbl (T + 8 * k)

  -- A value that is no table stays, one that points elsewhere keeps its address, and the others are
  -- followed.
  abbrev pub Follows : (ℕ → Object) → ℕ → ℕ → Type 0
  Follows heap v v' =
      ((bv_is_tbl v ≡ false) × (v' ≡ v))
      ⊎ ((bv_is_tbl v ≡ true)
          × (((inside (bv_get_tbl v) ≡ false) × (v' ≡ bv_make_tbl (bv_get_tbl v)))
              ⊎ Points heap v v'))

  abbrev pub FollowsEntry : (ℕ → Object) → Entry → Entry → Type 0
  FollowsEntry heap e e' =
      ((is_empty e ≡ true) × (e' ≡ e))
      ⊎ ((is_empty e ≡ false) × Follows heap e.key e'.key × Follows heap e.value e'.value)

  abbrev pub FollowsAll : (ℕ → Object) → List Entry → List Entry → Type 0
  FollowsAll heap [] [] = Unit
  FollowsAll heap [] (e' ∷ es') = ⊥
  FollowsAll heap (e ∷ es) [] = ⊥
  FollowsAll heap (e ∷ es) (e' ∷ es') = FollowsEntry heap e e' × FollowsAll heap es es'

  -- the same capacity and hash, and the entries place by place
  abbrev pub FollowsMap : (ℕ → Object) → Rhhm → Rhhm → Type 0
  FollowsMap heap (packed w) (packed w') = w' ≡ w
  FollowsMap heap (ready d) (ready d') =
      (d'.cap ≡ d.cap) × (d'.hash ≡ d.hash) × FollowsAll heap d.table d'.table
  FollowsMap heap (packed w) (ready d') = ⊥
  FollowsMap heap (packed w) null = ⊥
  FollowsMap heap (ready d) (packed w') = ⊥
  FollowsMap heap (ready d) null = ⊥
  FollowsMap heap null h' = ⊥

  -- what has been moved stays where it went
  abbrev pub Remains : (ℕ → Object) → (ℕ → Object) → Type 0
  Remains heap heap' = (i a : ℕ) → i < U → heap (F + 8 * i) ≡ heart a → heap' (F + 8 * i) ≡ heart a

  module _ (heap heap' : ℕ → Object) (remains : Remains heap heap') where
    pub Follows-Remains : (v v' : ℕ) → Follows heap v v' → Follows heap' v v'
    Follows-Remains v v' (inl plain) = inl plain
    Follows-Remains v v' (inr (tbl, inl far)) = inr (tbl, inl far)
    Follows-Remains v v' (inr (tbl, inr p)) = inr (
      tbl,
      inr (record {
        i = p.i;
        k = p.k;
        below = p.below;
        from = p.from;
        moved = remains p.i (T + 8 * p.k) p.below p.moved;
        to = p.to;
      }),
    )

    pub FollowsEntry-Remains : (e e' : Entry) → FollowsEntry heap e e' → FollowsEntry heap' e e'
    FollowsEntry-Remains e e' (inl empty) = inl empty
    FollowsEntry-Remains e e' (inr (full, key, value)) =
        inr (full, Follows-Remains e.key e'.key key, Follows-Remains e.value e'.value value)

    pub FollowsAll-Remains :
        (es es' : List Entry) → FollowsAll heap es es' → FollowsAll heap' es es'
    FollowsAll-Remains [] [] h = tt
    FollowsAll-Remains [] (e' ∷ es') h = h
    FollowsAll-Remains (e ∷ es) [] h = h
    FollowsAll-Remains (e ∷ es) (e' ∷ es') (here, rest) =
        (FollowsEntry-Remains e e' here, FollowsAll-Remains es es' rest)

    pub FollowsMap-Remains : (h h' : Rhhm) → FollowsMap heap h h' → FollowsMap heap' h h'
    FollowsMap-Remains (packed w) (packed w') e = e
    FollowsMap-Remains (ready d) (ready d') (cap, hash, all) =
        (cap, hash, FollowsAll-Remains d.table d'.table all)
    FollowsMap-Remains (packed w) (ready d') e = e
    FollowsMap-Remains (packed w) null e = e
    FollowsMap-Remains (ready d) (packed w') e = e
    FollowsMap-Remains (ready d) null e = e
    FollowsMap-Remains null h' e = e
