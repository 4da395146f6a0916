-- ===== src/Rhhm/Remove.antt =====
-- `rhhm_remove` and `rhhm_visit`, and where `rhhm_remove` goes wrong.
use minilua.Common.{
  ℕ, zero, suc, ◌<◌, ◌≡◌, ◌≢◌, not, ◌&&◌, List, [], ◌∷◌, set, arith, ◌==◌, ltb, if◌then◌else◌, Run,
  done, fault, stuck, ◌>>=◌, get_or-set_self, get_or-set_ne, sym,
}
use minilua.Rhhm.Get.{HasNoNil, get-Holds}
use minilua.Rhhm.{
  rhhm_get, RhhmData, Rhhm, Entry, is_empty, empty_entry, at, next, distance, home, packed, ready,
  null,
}
use minilua.Rhhm.Robin.{KeyLaws, IsFull, IsRobin, Holds, home-lt}

module _ (hfn : ℕ → ℕ) (cfn : ℕ → ℕ → ℕ) where
  -- the `do` loop: each entry moves one slot back
  unfoldable pub shift_loop : ℕ → RhhmData → ℕ → Run RhhmData
  shift_loop zero d i = stuck
  shift_loop (suc fuel) d i =
      let j = next d.cap i in
      let d' = record d { table = set d.table i (at d.table j) } in
      let e = at d'.table j in
      let rest = shift_loop fuel d' j in
      if not (is_empty e) && not (distance d.cap j (home hfn cfn d.cap e.key) == 0)
      then rest
      else done d'

  unfoldable pub remove_loop : ℕ → RhhmData → ℕ → ℕ → ℕ → Run RhhmData
  unfolding shift_loop
  remove_loop zero d key h i = stuck
  remove_loop (suc fuel) d key h i =
      let e = at d.table i in
      let rest = remove_loop fuel d key h (next d.cap i) in
      if is_empty e
      then done d
      else if cfn e.key key == 0
      then shift_loop d.cap d i
      else if ltb (home hfn cfn d.cap e.key) h
      then done d
      else rest

  unfoldable pub remove_ready : RhhmData → ℕ → Run RhhmData
  unfolding is_empty home remove_loop
  remove_ready d key = remove_loop d.cap d key (home hfn cfn d.cap key) (home hfn cfn d.cap key)

  unfoldable pub rhhm_remove : Rhhm → ℕ → Run Rhhm
  unfolding remove_ready
  rhhm_remove (packed w) key = done (packed w)
  rhhm_remove null key = fault
  rhhm_remove (ready d) key = do d' ← remove_ready d key; done (ready d')

  remove_loop_early :
      (fuel : ℕ) (d : RhhmData) (key h : ℕ)
      → 0 < fuel
      → IsFull hfn cfn d.table h
      → cfn (at d.table h).key key ≢ 0
      → home hfn cfn d.cap (at d.table h).key < h
      → remove_loop fuel d key h h ≡ done d
  unfolding remove_loop
  remove_loop_early zero d key h pos full other less = elim pos [ ]
  remove_loop_early (suc fuel) d key h pos full other less = ground arith

  -- When the home slot of a stored key holds another entry, whose own home has a smaller index,
  -- `rhhm_remove` returns with the table as it was, and `rhhm_get` still reads the key's value.
  pub remove_stops_early :
      (laws : KeyLaws hfn cfn) (d : RhhmData)
      → IsRobin hfn cfn d.cap d.table
      → HasNoNil hfn cfn d
      → (key v : ℕ) → Holds hfn cfn d.cap d.table key v
      → (let h = home hfn cfn d.cap key in
          IsFull hfn cfn d.table h
          × (cfn (at d.table h).key key ≢ 0)
          × (home hfn cfn d.cap (at d.table h).key < h))
      → (hm : Rhhm) × (rhhm_remove (ready d) key ≡ done hm) × (rhhm_get hfn cfn hm key ≡ done v)
  unfolding rhhm_remove remove_ready
  remove_stops_early laws d robin plain key v it (full, other, less) =
      let early = remove_loop_early d.cap d key _ robin.pos full other less in
      (ready d, rw early, get-Holds hfn cfn laws d robin key v it plain)

  shift_once :
      (fuel : ℕ) (d : RhhmData) (i : ℕ)
      → 0 < fuel
      → i ≢ next d.cap i
      → distance d.cap (next d.cap i) (home hfn cfn d.cap (at d.table (next d.cap i)).key) ≡ 0
      → shift_loop fuel d i ≡ done (record d { table = set d.table i (at d.table (next d.cap i)) })
  unfolding shift_loop
  shift_once zero d i pos apart at_home = elim pos [ ]
  shift_once (suc fuel) d i pos apart at_home =
      let kept =
        get_or-set_ne d.table i (next d.cap i) (at d.table (next d.cap i)) empty_entry apart in
      rw (kept, at_home) (ground arith)

  remove_loop_here :
      (fuel : ℕ) (d : RhhmData) (key h : ℕ)
      → 0 < fuel
      → IsFull hfn cfn d.table h
      → cfn (at d.table h).key key ≡ 0
      → remove_loop fuel d key h h ≡ shift_loop d.cap d h
  unfolding remove_loop
  remove_loop_here zero d key h pos full same = elim pos [ ]
  remove_loop_here (suc fuel) d key h pos full same = ground arith

  -- When a removed key stands in its home slot and the next slot holds an entry that is at home
  -- too, `rhhm_remove` copies that entry into the slot of the removed one and leaves it in its own,
  -- and every other slot as it was: the entry is in the table twice, and the keys of the table are no
  -- longer unique.
  pub remove_duplicates :
      (laws : KeyLaws hfn cfn) (d : RhhmData) (key : ℕ)
      → IsRobin hfn cfn d.cap d.table
      → (let h = home hfn cfn d.cap key in
          let j = next d.cap h in
          IsFull hfn cfn d.table h
          × (cfn (at d.table h).key key ≡ 0)
          × (j < d.cap)
          × (h ≢ j)
          × IsFull hfn cfn d.table j
          × (home hfn cfn d.cap (at d.table j).key ≡ j))
      → (let h = home hfn cfn d.cap key in
          let j = next d.cap h in
          (d' : RhhmData) × (rhhm_remove (ready d) key ≡ done (ready d'))
          × (at d'.table h ≡ at d.table j)
          × (at d'.table j ≡ at d.table j)
          × ((i : ℕ) → i ≢ h → at d'.table i ≡ at d.table i)
          × ¬ IsRobin hfn cfn d.cap d'.table)
  unfolding rhhm_remove remove_ready
  remove_duplicates laws d key robin (full, same, inside, apart, full', at_home) =
      let h = home hfn cfn d.cap key in
      let j = next d.cap h in
      let zero_away : distance d.cap j (home hfn cfn d.cap (at d.table j).key) ≡ 0 =
        rw at_home (unfold distance in ground arith) in
      let found = remove_loop_here d.cap d key h robin.pos full same in
      let once = shift_once d.cap d h robin.pos apart zero_away in
      let room = home-lt hfn cfn d.cap key robin.pos in
      let freed = get_or-set_self d.table h (at d.table j) empty_entry (rw robin.size room) in
      let kept = get_or-set_ne d.table h j (at d.table j) empty_entry apart in
      (
        record d { table = set d.table h (at d.table j) },
        rw (found, once),
        freed,
        kept,
        λ i other. get_or-set_ne d.table h i (at d.table j) empty_entry (λ e. other (sym e)),
        λ r. apart (
            r.unique h j room inside (rw freed full') (rw kept full')
              (rw (freed, kept) (laws.cmp_refl _))),
      )

-- `rhhm_visit`: the callback may change its context and the slot.
module _ {S : Type 0} (cb : S → Entry → S × Entry) where
  unfoldable pub visit_slots : S → List Entry → S × List Entry
  visit_slots s [] = (s, [])
  visit_slots s (e ∷ es) =
      let (s', e') = (if is_empty e then (s, e) else cb s e) in
      let (s'', es') = visit_slots s' es in (s'', e' ∷ es')

  unfoldable pub rhhm_visit : S → Rhhm → Run (S × Rhhm)
  unfolding visit_slots
  rhhm_visit s (packed w) = done (s, packed w)
  rhhm_visit s null = fault
  rhhm_visit s (ready d) =
      let (s', t) = visit_slots s d.table in done (s', ready (record d { table = t }))
