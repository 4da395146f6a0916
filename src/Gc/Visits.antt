-- ===== src/Gc/Visits.antt =====
-- A visit of the slots of a table: its values are followed, and nothing that was copied is lost.
use minilua.Common.{
  ℕ, ◌+◌, ◌*◌, ◌^◌, ◌≤◌, ◌<◌, ◌≡◌, ◌⊎◌, inl, inr, refl, sym, ◌∙◌, ap, Bool, true, false,
  if◌then◌else◌, List, [], ◌∷◌, arith,
}
use minilua.Value.{bv_is_tbl, bv_get_tbl, bv_make_tbl}
use minilua.Value.Tags.{payload, box_roundtrip}
use minilua.Rhhm.{Rhhm, Entry, is_empty, packed, ready, null}
use minilua.Rhhm.Remove.{visit_slots}
use minilua.Gc.Follows.{
  IsPointer, Aligned, Outside, Follows, FollowsEntry, FollowsAll, Follows-Remains,
  FollowsEntry-Remains,
}
use minilua.Gc.{Object, Gc, gc_evacuate, scavenge_value, gc_scavenge}
use minilua.Gc.Cheney.{AllValues, Map, Kept, Stays, Cheney, Evacuated, gc_evacuate-Evacuated}

get_tbl_small : (v : ℕ) → bv_get_tbl v < 2 ^ 48
unfolding bv_get_tbl
get_tbl_small v = omega (arith, payload v)

pub get_tbl-make_tbl : (p : ℕ) → p < 2 ^ 48 → bv_get_tbl (bv_make_tbl p) ≡ p
get_tbl-make_tbl p lt = (box_roundtrip p lt).1.0

module _ (F T N U : ℕ) (start : ℕ → Object) (apart : (F + 8 * N ≤ T) ⊎ (T + 8 * N ≤ F))
    (used : U ≤ N) (small : T + 8 * N ≤ 2 ^ 48) where
  outside-Aligned : (v : ℕ) → Outside F T N U v → Aligned F T N U v
  outside-Aligned v out tbl within = let no = out tbl in absurd (ground arith)

  record Scavenged (w s : ℕ) (g : Gc) (v : ℕ) (r : ℕ × Gc) : Type 0 where
    more : ℕ
    keeps : Cheney F T N U start more s (r.1)
    grows : w ≤ more
    reader : (r.1).reader ≡ g.reader
    stays : Stays F T N U start g (r.1)
    kept : Kept F T N U start w g (r.1)
    out : Outside F T N U (r.0)
    follows : Follows F T N U (r.1).heap v (r.0)

  boxed :
      (w s : ℕ) (g : Gc) (v : ℕ) (r : ℕ × Gc)
      → bv_is_tbl v ≡ true
      → IsPointer F T N U (bv_get_tbl v)
      → Evacuated F T N U start w s g (bv_get_tbl v) r
      → Scavenged w s g v (bv_make_tbl (r.0), r.1)
  boxed w s g v r tbl pointer e =
      let lt : r.0 < 2 ^ 48 = (elim e.place [
        | inl (far, same) ↦ rw same (get_tbl_small v)
        | inr (within, k, below, at, moved) ↦ omega arith
      ]) in
      record {
        more = e.more;
        keeps = e.keeps;
        grows = e.grows;
        reader = e.reader;
        stays = e.stays;
        kept = e.kept;
        out = λ is. rw (get_tbl-make_tbl (r.0) lt) e.away;
        follows = inr (
          tbl,
          elim e.place [
            | inl (far, same) ↦ inl (far, ap bv_make_tbl same)
            | inr (within, k, below, at, moved) ↦
                let (i, under, from) = pointer within in
                inr (record {
                  i = i;
                  k = k;
                  below = under;
                  from = from;
                  moved = ap (r.1).heap (sym from) ∙ moved;
                  to = ap bv_make_tbl at;
                })
          ],
        );
      }

  plain :
      (w s : ℕ) (g : Gc) (v : ℕ)
      → Cheney F T N U start w s g
      → bv_is_tbl v ≡ false
      → Scavenged w s g v (v, g)
  plain w s g v c other = record {
    more = w;
    keeps = c;
    grows = omega arith;
    reader = refl;
    stays = λ i a lt at. at;
    kept = λ k lt. refl;
    out = λ tbl. absurd (ground arith);
    follows = inl (other, refl);
  }

  either :
      (w s : ℕ) (g : Gc) (v : ℕ) (b : Bool) (x y : ℕ × Gc)
      → (b ≡ true → Scavenged w s g v x)
      → (b ≡ false → Scavenged w s g v y)
      → Scavenged w s g v (if b then x else y)
  either w s g v true x y h k = h refl
  either w s g v false x y h k = k refl

  scavenge_value-Scavenged :
      (w s : ℕ) (g : Gc) (v : ℕ)
      → Cheney F T N U start w s g
      → s ≤ w
      → Aligned F T N U v
      → Scavenged w s g v (scavenge_value g v)
  unfolding scavenge_value
  scavenge_value-Scavenged w s g v c le aligned =
      either w s g v (bv_is_tbl v) _ _
        (λ tbl.
          boxed w s g v (gc_evacuate g (bv_get_tbl v)) tbl (aligned tbl) (
            gc_evacuate-Evacuated F T N U start apart used w s g (bv_get_tbl v) c le (aligned tbl)))
        (plain w s g v c)

  -- one slot, or all of them
  pub record Visited (w s : ℕ) (g g' : Gc) (P : Type 0) : Type 0 where
    pub more : ℕ
    pub keeps : Cheney F T N U start more s g'
    pub grows : w ≤ more
    pub reader : g'.reader ≡ g.reader
    pub stays : Stays F T N U start g g'
    pub kept : Kept F T N U start w g g'
    pub out : P

  gc_scavenge-Visited :
      (w s : ℕ) (g : Gc) (e : Entry)
      → Cheney F T N U start w s g
      → s ≤ w
      → Aligned F T N U e.key
      → Aligned F T N U e.value
      → (let (g', e') = gc_scavenge g e in
          Visited w s g g' (
            (Outside F T N U e'.key × Outside F T N U e'.value)
            × Follows F T N U g'.heap e.key e'.key
            × Follows F T N U g'.heap e.value e'.value))
  unfolding gc_scavenge
  gc_scavenge-Visited w s g e c le key value =
      let k = scavenge_value-Scavenged w s g e.key c le key in
      let le' = k.grows in
      let v =
        scavenge_value-Scavenged k.more s (scavenge_value g e.key).1 e.value k.keeps (omega arith)
          value in
      record {
        more = v.more;
        keeps = v.keeps;
        grows = omega (arith, k.grows, v.grows);
        reader = v.reader ∙ k.reader;
        stays = λ i a lt at. v.stays i a lt (k.stays i a lt at);
        kept = λ j lt. v.kept j (omega arith) ∙ k.kept j lt;
        out = (
          (k.out, v.out),
          Follows-Remains F T N U (scavenge_value g e.key).1.heap
              (scavenge_value (scavenge_value g e.key).1 e.value).1.heap v.stays e.key
              (scavenge_value g e.key).0 k.follows,
          v.follows,
        );
      }

  -- what the visit of one slot gives
  abbrev Slot : ℕ → ℕ → Gc → Entry → Gc × Entry → Type 0
  Slot w s g e r = Visited w s g (r.0) (
      (is_empty (r.1) ≡ false → (Outside F T N U (r.1).key × Outside F T N U (r.1).value))
      × FollowsEntry F T N U (r.0).heap e (r.1))

  either-Slot :
      (w s : ℕ) (g : Gc) (e : Entry) (b : Bool) (x y : Gc × Entry)
      → (b ≡ true → Slot w s g e x)
      → (b ≡ false → Slot w s g e y)
      → Slot w s g e (if b then x else y)
  either-Slot w s g e true x y h k = h refl
  either-Slot w s g e false x y h k = k refl

  empty-Slot :
      (w s : ℕ) (g : Gc) (e : Entry)
      → Cheney F T N U start w s g
      → is_empty e ≡ true
      → Slot w s g e (g, e)
  empty-Slot w s g e c empty = record {
    more = w;
    keeps = c;
    grows = omega arith;
    reader = refl;
    stays = λ i a lt at. at;
    kept = λ k lt. refl;
    out = (λ full. absurd (ground arith), inl (empty, refl));
  }

  full-Slot :
      (w s : ℕ) (g : Gc) (e : Entry)
      → Cheney F T N U start w s g
      → s ≤ w
      → is_empty e ≡ false
      → Aligned F T N U e.key × Aligned F T N U e.value
      → Slot w s g e (gc_scavenge g e)
  full-Slot w s g e c le full (key, value) =
      let v = gc_scavenge-Visited w s g e c le key value in
      record {
        more = v.more;
        keeps = v.keeps;
        grows = v.grows;
        reader = v.reader;
        stays = v.stays;
        kept = v.kept;
        out = (λ is. v.out.0, inr (full, v.out.1, v.out.2));
      }

  pub visit_slots-Visited :
      (w s : ℕ) (g : Gc) (es : List Entry)
      → Cheney F T N U start w s g
      → s ≤ w
      → AllValues (Aligned F T N U) es
      → (let (g', es') = visit_slots gc_scavenge g es in
          Visited w s g g' (AllValues (Outside F T N U) es' × FollowsAll F T N U g'.heap es es'))
  unfolding visit_slots
  visit_slots-Visited w s g [] c le h = record {
    more = w;
    keeps = c;
    grows = omega arith;
    reader = refl;
    stays = λ i a lt at. at;
    kept = λ k lt. refl;
    out = (tt, tt);
  }
  visit_slots-Visited w s g (e ∷ es) c le (here, rest) =
      let r = (if is_empty e then (g, e) else gc_scavenge g e) in
      let v =
        either-Slot w s g e (is_empty e) (g, e) (gc_scavenge g e) (empty-Slot w s g e c)
          (λ full. full-Slot w s g e c le full (here full)) in
      let grown = v.grows in
      let vs = visit_slots-Visited v.more s (r.0) es v.keeps (omega arith) rest in
      record {
        more = vs.more;
        keeps = vs.keeps;
        grows = omega (arith, v.grows, vs.grows);
        reader = vs.reader ∙ v.reader;
        stays = λ i a lt at. vs.stays i a lt (v.stays i a lt at);
        kept = λ j lt. vs.kept j (omega arith) ∙ v.kept j lt;
        out = (
          (v.out.0, vs.out.0),
          (
            FollowsEntry-Remains F T N U (r.0).heap (visit_slots gc_scavenge (r.0) es).0.heap
                vs.stays e (r.1) v.out.1,
            vs.out.1,
          ),
        );
      }

  AllValues-Aligned :
      (es : List Entry) → AllValues (Outside F T N U) es → AllValues (Aligned F T N U) es
  AllValues-Aligned [] h = tt
  AllValues-Aligned (e ∷ es) (here, rest) = (
    λ full. (outside-Aligned e.key (here full).0, outside-Aligned e.value (here full).1),
    AllValues-Aligned es rest,
  )

  pub Map-Aligned : (h : Rhhm) → Map (Outside F T N U) h → Map (Aligned F T N U) h
  Map-Aligned (packed v) m = tt
  Map-Aligned null m = m
  Map-Aligned (ready d) m = AllValues-Aligned d.table m
