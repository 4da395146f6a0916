-- ===== src/Ir/Intern.antt =====
-- `ir_ctt` keeps each constant once, and its map gives the number of every constant.
use native.Mathlib.Decide.{ℕ_discrete}
use minilua.Common.{
  ℕ, zero, suc, ◌+◌, ◌*◌, ◌%◌, ◌^◌, ◌≤◌, ◌<◌, ◌≡◌, ◌≢◌, ◌⊎◌, inl, inr, refl, sym, ap, ◌∙◌, true,
  false, ◌==◌, List, [], ◌∷◌, ◌++◌, length, length-append, get_or, get_or-append_left,
  get_or-append_end, replicate, done, arith,
}
use minilua.Rhhm.{
  RhhmData, Rhhm, ready, is_empty, at, empty_entry, bv_nil, rhhm_init, rhhm_get, rhhm_set,
}
use minilua.Rhhm.Robin.{IsRobin, Holds, Writes}
use minilua.Rhhm.Get.{HasNoNil, get-Holds, get_absent}
use minilua.Rhhm.Map.{rhhm_set-Writes}
use minilua.Rhhm.Init.{init-initialize, set-initialize, replicate-IsRobin, all-empty}
use minilua.Rhhm.Keys.{rhhm_bb_hash, rhhm_bb_cmp, bb-KeyLaws, bb_cmp-eq, bb_cmp_refl}
use minilua.Ir.{Ir, ir_init, ir_ctt, ctt_push, minus32, minus64}
use minilua.Ir.Slots.{Slots, Slots-fresh, Slots-Writes}
use minilua.Ir.Ops.{ir_ctt_max}

-- constant number `i`, from 0
abbrev pub ctt_at : List ℕ → ℕ → ℕ
ctt_at ctts i = get_or ctts i 0

module _ (tbl_hash : ℕ → ℕ) where
  abbrev pub hash : ℕ → ℕ
  hash = rhhm_bb_hash tbl_hash

  -- The map `hm`, seen as the table `d`, has the number of each constant and nothing else.
  pub record Indexes (hm : Rhhm) (ctts : List ℕ) : Type 0 where
    pub d : RhhmData
    pub robin : IsRobin hash rhhm_bb_cmp d.cap d.table
    pub spare : List ℕ
    pub empty : Slots d 0 spare
    pub many : 2 * ir_ctt_max ≤ length spare + length ctts
    pub sound :
        (q v : ℕ)
        → Holds hash rhhm_bb_cmp d.cap d.table q v
        → (i : ℕ) × (i < length ctts) × (ctt_at ctts i ≡ q) × (v ≡ minus64 (i + 1))
    pub complete :
        (i : ℕ)
        → i < length ctts
        → Holds hash rhhm_bb_cmp d.cap d.table (ctt_at ctts i) (minus64 (i + 1))
    pub gets : (q : ℕ) → rhhm_get hash rhhm_bb_cmp hm q ≡ rhhm_get hash rhhm_bb_cmp (ready d) q
    pub sets :
        (q v : ℕ)
        → rhhm_set hash rhhm_bb_cmp true hm q v ≡ rhhm_set hash rhhm_bb_cmp true (ready d) q v

  -- the constants of a chunk: as many as there is room for, each once
  pub record Interned (c : Ir) : Type 0 where
    pub room : length c.ctts ≤ ir_ctt_max
    pub index : Indexes c.ctt_map c.ctts

  not_in_longer :
      (x : ℕ) (xs : List ℕ) (v : ℕ)
      → x ≢ v
      → ((i : ℕ) → i < length xs → ctt_at xs i ≢ v)
      → (i : ℕ) → i < length (x ∷ xs)
      → ctt_at (x ∷ xs) i ≢ v
  not_in_longer x xs v other none zero lt = other
  not_in_longer x xs v other none (suc i) lt = none i (omega arith)

  -- a constant that is there, or none
  search :
      (ctts : List ℕ) (v : ℕ)
      → ((i : ℕ) × (i < length ctts) × (ctt_at ctts i ≡ v))
        ⊎ ((i : ℕ) → i < length ctts → ctt_at ctts i ≢ v)
  search [] v = inr (λ i lt. elim lt [ ])
  search (x ∷ xs) v = elim (ℕ_discrete x v) [
    | yes here ↦ inl (0, omega arith, here)
    | no other ↦ elim (search xs v) [
      | inl (i, lt, e) ↦ inl (suc i, omega arith, e)
      | inr none ↦ inr (not_in_longer x xs v other none)
    ]
  ]

  module _ (hm : Rhhm) (ctts : List ℕ) (index : Indexes hm ctts)
      (room : length ctts ≤ ir_ctt_max) where
    no_nil : HasNoNil hash rhhm_bb_cmp index.d
    no_nil i lt full e =
        let (j, inside, _, number) =
          index.sound (at index.d.table i).key (at index.d.table i).value (record {
            slot = i;
            inside = lt;
            full = full;
            same = bb_cmp_refl (at index.d.table i).key;
            reads = refl;
          }) in
        omega arith

    reads_number :
        (i : ℕ)
        → i < length ctts
        → rhhm_get hash rhhm_bb_cmp hm (ctt_at ctts i) ≡ done (minus64 (i + 1))
    reads_number i lt =
        index.gets (ctt_at ctts i)
        ∙ get-Holds hash rhhm_bb_cmp (bb-KeyLaws tbl_hash) index.d index.robin (ctt_at ctts i)
            (minus64 (i + 1)) (index.complete i lt) no_nil

    an_empty_slot : (s : ℕ) × (s < index.d.cap) × (is_empty (at index.d.table s) ≡ true)
    an_empty_slot = pick index.spare index.empty index.many
      where
        pick :
            (ss : List ℕ)
            → Slots index.d 0 ss
            → 2 * ir_ctt_max ≤ length ss + length ctts
            → (s : ℕ) × (s < index.d.cap) × (is_empty (at index.d.table s) ≡ true)
        pick [] h many = absurd (omega arith)
        pick (s ∷ ss) h many = (s, h.1, h.2)

    module _ (v : ℕ) (none : (i : ℕ) → i < length ctts → ctt_at ctts i ≢ v) where
      reads_nil : rhhm_get hash rhhm_bb_cmp hm v ≡ done bv_nil
      reads_nil =
          let (s, inside, void) = an_empty_slot in
          index.gets v
          ∙ get_absent hash rhhm_bb_cmp (bb-KeyLaws tbl_hash) index.d index.robin v
              (λ n h. let (i, lt, e, _) = index.sound v n h in none i lt e) s inside void

      module _ (d' : RhhmData)
          (w : Writes hash rhhm_bb_cmp index.d v (minus64 (length ctts + 1)) d') where
        sound-push :
            (q n : ℕ)
            → Holds hash rhhm_bb_cmp d'.cap d'.table q n
            → (i : ℕ) × (i < length (ctts ++ (v ∷ [])))
              × (ctt_at (ctts ++ (v ∷ [])) i ≡ q)
              × (n ≡ minus64 (i + 1))
        sound-push q n h =
            let longer = length-append ctts (v ∷ []) in
            let held : Holds hash rhhm_bb_cmp index.d.cap d'.table q n = rw w.same_cap at h in
            elim (w.sound q n held) [
              | inl (same, e) ↦ (
                length ctts,
                omega arith,
                get_or-append_end ctts v 0 (length ctts) refl ∙ bb_cmp-eq v q same,
                sym e,
              )
              | inr (other, old) ↦
                  let (i, lt, e, number) = index.sound q n old in
                  (i, omega arith, get_or-append_left ctts (v ∷ []) i 0 lt ∙ e, number)
            ]

        complete-push :
            (i : ℕ)
            → i < length (ctts ++ (v ∷ []))
            → Holds hash rhhm_bb_cmp d'.cap d'.table (ctt_at (ctts ++ (v ∷ [])) i) (minus64 (i + 1))
        complete-push i lt = elim (ℕ_discrete i (length ctts)) [
          | yes last ↦
              let written = w.written v (bb_cmp_refl v) in
              rw (w.same_cap, get_or-append_end ctts v 0 i last, last) written
          | no before ↦
              let longer = length-append ctts (v ∷ []) in
              let inside : i < length ctts = omega arith in
              let kept =
                w.kept (ctt_at ctts i) (minus64 (i + 1))
                  (λ same. none i inside (sym (bb_cmp-eq v (ctt_at ctts i) same)))
                  (index.complete i inside) in
              rw (w.same_cap, get_or-append_left ctts (v ∷ []) i 0 inside) kept
        ]

      Indexes-push :
          length ctts < ir_ctt_max
          → (hm' : Rhhm) × (rhhm_set hash rhhm_bb_cmp true hm v (minus64 (length ctts + 1))
              ≡ done hm')
            × Indexes hm' (ctts ++ (v ∷ []))
      Indexes-push lt =
          let n = minus64 (length ctts + 1) in
          let (s, inside, void) = an_empty_slot in
          let (d', run, w) =
            rhhm_set-Writes hash rhhm_bb_cmp (bb-KeyLaws tbl_hash) true index.d index.robin v n
              (omega arith) s (record { inside = inside; void = void }) in
          let (ss, len, empty) =
            Slots-Writes hash rhhm_bb_cmp index.d d' v n w 0 index.spare index.empty in
          let longer = length-append ctts (v ∷ []) in
          (
            ready d',
            index.sets v n ∙ run,
            record {
              d = d';
              robin = rw w.same_cap w.robin;
              spare = ss;
              empty = empty;
              many = omega (arith, index.many);
              sound = sound-push d' w;
              complete = complete-push d' w;
              gets = λ q. refl;
              sets = λ q u. refl;
            },
          )

  -- how `ir_ctt` leaves the constants: as they were, or with a new one at the end
  abbrev pub Extends : List ℕ → List ℕ → ℕ → Type 0
  Extends ctts ctts' v =
      (ctts' ≡ ctts)
      ⊎ ((ctts' ≡ ctts ++ (v ∷ [])) × ((i : ℕ) → i < length ctts → ctt_at ctts i ≢ v))

  -- `ir_ctt` where memory is found and there is room for a constant: it returns the number of `v`,
  -- counted from 1 and with its sign changed. The constants stay as they were if `v` is one of them,
  -- else `v` is added at their end; the map again has the number of each constant and no others.
  pub ctt-Interned :
      (c : Ir)
      → Interned c
      → length c.ctts < ir_ctt_max
      → (v : ℕ)
      → (i : ℕ) × (c' : Ir) × (ir_ctt tbl_hash true c v ≡ done (minus32 (i + 1), c'))
        × Interned c'
        × (i < length c'.ctts)
        × (ctt_at c'.ctts i ≡ v)
        × Extends c.ctts c'.ctts v
  unfolding ir_ctt ctt_push
  ctt-Interned c inv lt v =
      let full : (length c.ctts == ir_ctt_max) ≡ false = ground arith in
      elim (search c.ctts v) [
        | inl (i, inside, e) ↦
            let reads : rhhm_get hash rhhm_bb_cmp c.ctt_map v ≡ done (minus64 (i + 1)) =
              ap (rhhm_get hash rhhm_bb_cmp c.ctt_map) (sym e)
              ∙ reads_number c.ctt_map c.ctts inv.index inv.room i inside in
            let number : (minus64 (i + 1) == bv_nil) ≡ false = ground (arith, lt) in
            let low : minus64 (i + 1) % 2 ^ 32 ≡ minus32 (i + 1) = omega (arith, lt) in
            (i, c, rw (full, reads, number, low), inv, inside, e, inl refl)
        | inr none ↦
            let nil = reads_nil c.ctt_map c.ctts inv.index inv.room v none in
            let (hm, run, index) = Indexes-push c.ctt_map c.ctts inv.index inv.room v none lt in
            let longer = length-append c.ctts (v ∷ []) in
            (
              length c.ctts,
              record c { ctt_map = hm; ctts = c.ctts ++ (v ∷ []) },
              rw (full, nil, run),
              record { room = omega arith; index = index },
              omega arith,
              get_or-append_end c.ctts v 0 (length c.ctts) refl,
              inr (refl, none),
            )
      ]

  fresh-nil : (size h q : ℕ) → rhhm_get hash rhhm_bb_cmp (rhhm_init size h) q ≡ done bv_nil
  unfolding rhhm_init rhhm_get
  fresh-nil size h q = refl

  -- After `ir_init` there are no constants, and the map is one of 8192 empty slots.
  pub init-Interned : (c : Ir) → Interned (ir_init c)
  unfolding ir_init
  init-Interned c =
      let size = 2 * ir_ctt_max in
      let fresh : RhhmData = record { cap = size; hash = 0; table = replicate size empty_entry } in
      let robin = replicate-IsRobin hash rhhm_bb_cmp size 13 refl (omega arith) in
      let (ss, len, empty) = Slots-fresh size size 0 0 refl in
      let (_, _, unpacked, _) = init-initialize size 0 refl (omega arith) in
      record {
        room = omega arith;
        index = record {
          d = fresh;
          robin = robin;
          spare = ss;
          empty = empty;
          many = omega arith;
          sound = λ q v h. cc (h.full, all-empty size h.slot);
          complete = λ i lt. elim lt [ ];
          gets = λ q.
              fresh-nil size 0 q
              ∙ sym (
                  get_absent hash rhhm_bb_cmp (bb-KeyLaws tbl_hash) fresh robin q
                    (λ v h. cc (h.full, all-empty size h.slot)) 0 (omega arith) (all-empty size 0));
          sets = λ q v. set-initialize hash rhhm_bb_cmp (rhhm_init size 0) fresh q v unpacked;
        };
      }
