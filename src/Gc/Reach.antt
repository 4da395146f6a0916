-- ===== src/Gc/Reach.antt =====
-- `gc_collect` ends, and every copy points to copies.
use native.Mathlib.Decide.{ℕ_discrete}
use minilua.Common.{
  ℕ, zero, suc, ◌+◌, ◌*◌, ◌^◌, ◌≤◌, ◌<◌, ◌≡◌, ◌≢◌, ◌⊎◌, inl, inr, refl, sym, ◌∙◌, ap, subst,
  Bool-cases, ltb, Run, done, arith,
}
use minilua.Rhhm.{Rhhm, packed, ready, null}
use minilua.Rhhm.Remove.{visit_slots, rhhm_visit}
use minilua.Gc.Follows.{Aligned, Outside, FollowsMap, Remains, FollowsMap-Remains}
use minilua.Gc.{Object, heart, live, Gc, put, gc_scavenge, visit_object, scan_loop}
use minilua.Gc.Hearts.{put_same, put_other, hearts-same}
use minilua.Gc.Cheney.{Map, Copy, Stays, Cheney, to_far, copies-le}
use minilua.Gc.Visits.{visit_slots-Visited, Map-Aligned}

live-injective : (h h' : Rhhm) → live h ≡ live h' → h ≡ h'
live-injective h h' e = ap (λ o. elim o [ live x ↦ x | heart a ↦ null ]) e

module _ (F T N U : ℕ) (start : ℕ → Object) (apart : (F + 8 * N ≤ T) ⊎ (T + 8 * N ≤ F))
    (used : U ≤ N) (small : T + 8 * N ≤ 2 ^ 48) where
  -- the copy `s`, after its visit
  rescanned-Stays :
      (w s : ℕ) (g : Gc) (h : Rhhm)
      → Cheney F T N U start w s g
      → s < w
      → Stays F T N U start g (record g { heap = put g.heap (T + 8 * s) (live h) })
  rescanned-Stays w s g h c lt i a below at =
      let bound = copies-le F T N U start apart used w s g c in
      put_other g.heap (T + 8 * s) (live h) (F + 8 * i)
        (λ same. to_far F T N U start apart used s i (omega arith) below (sym same))
      ∙ at

  -- the copy that has been visited, and another one
  scanned-Copy :
      (s : ℕ) (g : Gc) (before h : Rhhm) (k : ℕ)
      → k ≡ s
      → Copy F T N U start s g.heap k
      → g.heap (T + 8 * s) ≡ live before
      → FollowsMap F T N U g.heap before h
      → Remains F T N U g.heap (put g.heap (T + 8 * s) (live h))
      → put g.heap (T + 8 * s) (live h) (T + 8 * k) ≡ live h
      → Copy F T N U start (suc s) (put g.heap (T + 8 * s) (live h)) k
  scanned-Copy s g before h k is c was follows stays here =
      let same : c.copy ≡ before =
        live-injective c.copy before (sym c.here ∙ ap (λ j. g.heap (T + 8 * j)) is ∙ was) in
      let object : before ≡ c.object = (elim c.alike [
        | inl (fresh, e) ↦ sym same ∙ e
        | inr (passed, f) ↦ absurd (omega arith)
      ]) in
      record {
        i = c.i;
        object = c.object;
        copy = h;
        used = c.used;
        was = c.was;
        gone = stays c.i (T + 8 * k) c.used c.gone;
        here = here;
        alike = inr (
          omega arith,
          FollowsMap-Remains F T N U g.heap (put g.heap (T + 8 * s) (live h)) stays c.object h
              (subst (λ x. FollowsMap F T N U g.heap x h) object follows),
        );
      }

  kept-Copy :
      (s : ℕ) (g : Gc) (h : Rhhm) (k : ℕ)
      → k ≢ s
      → Copy F T N U start s g.heap k
      → Remains F T N U g.heap (put g.heap (T + 8 * s) (live h))
      → put g.heap (T + 8 * s) (live h) (T + 8 * k) ≡ g.heap (T + 8 * k)
      → Copy F T N U start (suc s) (put g.heap (T + 8 * s) (live h)) k
  kept-Copy s g h k other c stays far = record {
    i = c.i;
    object = c.object;
    copy = c.copy;
    used = c.used;
    was = c.was;
    gone = stays c.i (T + 8 * k) c.used c.gone;
    here = far ∙ c.here;
    alike = elim c.alike [
      | inl (fresh, e) ↦ inl (omega arith, e)
      | inr (passed, f) ↦ inr (
        omega arith,
        FollowsMap-Remains F T N U g.heap (put g.heap (T + 8 * s) (live h)) stays c.object c.copy f,
      )
    ];
  }

  rescanned :
      (w s : ℕ) (g : Gc) (before h : Rhhm)
      → Cheney F T N U start w s g
      → s < w
      → g.heap (T + 8 * s) ≡ live before
      → FollowsMap F T N U g.heap before h
      → Map (Outside F T N U) h
      → Cheney F T N U start w (suc s) (record g { heap = put g.heap (T + 8 * s) (live h) })
  rescanned w s g before h c lt was follows out =
      let bound = copies-le F T N U start apart used w s g c in
      let old = λ (i : ℕ) (below : i < U).
        put_other g.heap (T + 8 * s) (live h) (F + 8 * i)
          (λ same. to_far F T N U start apart used s i (omega arith) below (sym same)) in
      let stays = rescanned-Stays w s g h c lt in
      let here = put_same g.heap (T + 8 * s) (live h) in
      let at =
        λ (k : ℕ) (e : k ≡ s). ap (λ j. put g.heap (T + 8 * s) (live h) (T + 8 * j)) e ∙ here in
      let far =
        λ (k : ℕ) (ne : k ≢ s). put_other g.heap (T + 8 * s) (live h) (T + 8 * k) (omega arith) in
      record {
        from = c.from;
        cap = c.cap;
        to = c.to;
        writer = c.writer;
        count = hearts-same U F g.heap _ old ∙ c.count;
        copies = λ k below. elim (ℕ_discrete k s) [
          | yes is ↦ (h, at k is, Map-Aligned F T N U start apart used small h out)
          | no other ↦ let (h', e, f) = c.copies k below in (h', far k other ∙ e, f)
        ];
        scanned = λ k below. elim (ℕ_discrete k s) [
          | yes is ↦ (h, at k is, out)
          | no other ↦ let (h', e, f) = c.scanned k (omega arith) in (h', far k other ∙ e, f)
        ];
        olds = λ i below. elim (c.olds i below) [
          | inl (h', e, is, f) ↦ inl (h', old i below ∙ e, is, f)
          | inr (k, under, e) ↦ inr (k, under, old i below ∙ e)
        ];
        sources = λ k below. elim (ℕ_discrete k s) [
          | yes is ↦ scanned-Copy s g before h k is (c.sources k below) was follows stays (at k is)
          | no other ↦ kept-Copy s g h k other (c.sources k below) stays (far k other)
        ];
      }

  -- a copy that has been visited
  abbrev Stepped : ℕ → ℕ → Gc → Run Gc → Type 0
  Stepped w s g r =
      (g' : Gc) × (w' : ℕ) × (r ≡ done g')
      × Cheney F T N U start w' (suc s) g'
      × (w ≤ w')
      × (g'.reader ≡ g.reader)
      × Stays F T N U start g g'

  visit_object-Stepped :
      (w s : ℕ) (g : Gc) (h : Rhhm)
      → Cheney F T N U start w s g
      → s < w
      → g.heap (T + 8 * s) ≡ live h
      → Map (Aligned F T N U) h
      → Stepped w s g (visit_object (T + 8 * s) (live h) g)
  unfolding visit_object rhhm_visit
  visit_object-Stepped w s g null c lt at m = elim m [ ]
  visit_object-Stepped w s g (packed v) c lt at m = (
    _,
    w,
    refl,
    rescanned w s g (packed v) (packed v) c lt at refl tt,
    omega arith,
    refl,
    rescanned-Stays w s g (packed v) c lt,
  )
  visit_object-Stepped w s g (ready d) c lt at m =
      let v = visit_slots-Visited F T N U start apart used small w s g d.table c (omega arith) m in
      let grown = v.grows in
      let r = visit_slots gc_scavenge g d.table in
      (
        _,
        v.more,
        refl,
        rescanned v.more s (r.0) (ready d) (ready (record d { table = r.1 })) v.keeps (omega arith)
            (v.kept s lt ∙ at) (refl, refl, v.out.1) v.out.0,
        grown,
        v.reader,
        λ i a below gone.
            rescanned-Stays v.more s (r.0) (ready (record d { table = r.1 })) v.keeps (omega arith)
              i a below (v.stays i a below gone),
      )

  -- the reader is not part of what is kept
  Cheney-reader :
      (w s : ℕ) (g : Gc) (a : ℕ)
      → Cheney F T N U start w s g
      → Cheney F T N U start w s (record g { reader = a })
  Cheney-reader w s g a c = record {
    from = c.from;
    cap = c.cap;
    to = c.to;
    writer = c.writer;
    count = c.count;
    copies = c.copies;
    scanned = c.scanned;
    olds = c.olds;
    sources = c.sources;
  }

  -- the end of a collection: everything that was copied has been visited
  abbrev pub Collected : ℕ → Gc → Gc → Type 0
  Collected w g g' =
      (w' : ℕ) × (w ≤ w')
      × (w' ≤ N)
      × Cheney F T N U start w' w' g'
      × (g'.reader ≡ T + 8 * w')
      × Stays F T N U start g g'

  pub scan_loop-Collected :
      (fuel w s : ℕ) (g : Gc)
      → Cheney F T N U start w s g
      → s ≤ w
      → g.reader ≡ T + 8 * s
      → N < fuel + s
      → (g' : Gc) × (scan_loop fuel g ≡ done g') × Collected w g g'
  unfolding scan_loop
  scan_loop-Collected zero w s g c le at enough =
      absurd (omega (arith, copies-le F T N U start apart used w s g c))
  scan_loop-Collected (suc fuel) w s g c le at enough = elim (Bool-cases (ltb g.reader g.writer)) [
    | inr end ↦
        let ends = c.writer in
        let all : s ≡ w = ground arith in
        (
          g,
          rw end refl,
          (
            w,
            omega arith,
            copies-le F T N U start apart used w s g c,
            subst (λ k. Cheney F T N U start w k g) all c,
            omega arith,
            λ i a lt h. h,
          ),
        )
    | inl more ↦
        let ends = c.writer in
        let lt : s < w = ground arith in
        let g₁ = record g { reader = g.reader + 8 } in
        let (h, e, m) = c.copies s lt in
        let (g₂, w₂, run, c₂, grown, read, stays) =
          visit_object-Stepped w s g₁ h (Cheney-reader w s g (g.reader + 8) c) lt e m in
        let step : visit_object g.reader (g.heap g.reader) g₁ ≡ done g₂ =
          ap (λ a. visit_object a (g.heap a) g₁) at
          ∙ ap (λ o. visit_object (T + 8 * s) o g₁) e
          ∙ run in
        let (g₃, rest, (w₃, grown', bound, c₃, read', stays')) =
          scan_loop-Collected fuel w₂ (suc s) g₂ c₂ (omega arith) (omega arith) (omega arith) in
        (
          g₃,
          rw (more, step) rest,
          (
            w₃,
            omega arith,
            bound,
            c₃,
            read',
            λ i a below here. stays' i a below (stays i a below here),
          ),
        )
  ]
