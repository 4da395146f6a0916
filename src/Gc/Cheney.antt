-- ===== src/Gc/Cheney.antt =====
-- What the collector keeps: `w` objects have been copied, and the first `s` copies point to no
-- object that is left behind.
use native.Mathlib.Decide.{ℕ_discrete}
use minilua.Common.{
  ℕ, suc, ◌+◌, ◌*◌, ◌≤◌, ◌<◌, ◌≡◌, ◌≢◌, ◌⊎◌, inl, inr, refl, sym, ◌∙◌, ap, subst, Bool-cases, true,
  false, List, [], ◌∷◌, arith,
}
use minilua.Rhhm.{Rhhm, Entry, is_empty, packed, ready, null}
use minilua.Gc.{Object, live, heart, Gc, in_from, put, move_object, gc_evacuate}
use minilua.Gc.Follows.{
  inside, IsPointer, Aligned, Outside, Remains, FollowsMap, FollowsMap-Remains,
}
use minilua.Gc.Hearts.{
  put_same, put_other, hearts, hearts-same, hearts-le, hearts-lt, hearts-move, weight,
}

-- both parts of each entry that is not empty
abbrev pub AllValues : (ℕ → Type 0) → List Entry → Type 0
AllValues P [] = Unit
AllValues P (e ∷ es) = ((is_empty e ≡ false) → (P e.key × P e.value)) × AllValues P es

abbrev pub Map : (ℕ → Type 0) → Rhhm → Type 0
Map P (packed w) = Unit
Map P null = ⊥
Map P (ready d) = AllValues P d.table

-- At the start the heap was `start`.
module _ (F T N U : ℕ) (start : ℕ → Object) where
  -- The copy at place `k` is that of an object, which is forwarded to it: the object as it was, up
  -- from place `s`, and with its pointers followed below.
  pub record Copy (s : ℕ) (heap : ℕ → Object) (k : ℕ) : Type 0 where
    pub i : ℕ
    pub object : Rhhm
    pub copy : Rhhm
    pub used : i < U
    pub was : start (F + 8 * i) ≡ live object
    pub gone : heap (F + 8 * i) ≡ heart (T + 8 * k)
    pub here : heap (T + 8 * k) ≡ live copy
    pub alike : ((s ≤ k) × (copy ≡ object)) ⊎ ((k < s) × FollowsMap F T N U heap object copy)

  pub record Cheney (w s : ℕ) (g : Gc) : Type 0 where
    pub from : g.from ≡ F
    pub cap : g.cap ≡ N
    pub to : g.to ≡ T
    pub writer : g.writer ≡ T + 8 * w
    pub count : hearts U F g.heap ≡ w
    pub copies :
        (k : ℕ) → k < w → (h : Rhhm) × (g.heap (T + 8 * k) ≡ live h) × Map (Aligned F T N U) h
    pub scanned :
        (k : ℕ) → k < s → (h : Rhhm) × (g.heap (T + 8 * k) ≡ live h) × Map (Outside F T N U) h
    pub olds :
        (i : ℕ)
        → i < U
        → ((h : Rhhm) × (g.heap (F + 8 * i) ≡ live h)
            × (start (F + 8 * i) ≡ live h)
            × Map (Aligned F T N U) h)
          ⊎ ((k : ℕ) × (k < w) × (g.heap (F + 8 * i) ≡ heart (T + 8 * k)))
    pub sources : (k : ℕ) → k < w → Copy s g.heap k

  -- what has been moved stays where it went
  abbrev pub Stays : Gc → Gc → Type 0
  Stays g g' = Remains F T N U g.heap g'.heap

  -- the first `w` copies are as they were
  abbrev pub Kept : ℕ → Gc → Gc → Type 0
  Kept w g g' = (k : ℕ) → k < w → g'.heap (T + 8 * k) ≡ g.heap (T + 8 * k)

  -- an object that has been moved, if it was in the old half
  abbrev pub Moved : ℕ → ℕ → Gc → Type 0
  Moved w obj g = inside F T N U obj ≡ true → (k : ℕ) × (k < w) × (g.heap obj ≡ heart (T + 8 * k))

  -- what an evacuation gives
  pub record Evacuated (w s : ℕ) (g : Gc) (obj : ℕ) (r : ℕ × Gc) : Type 0 where
    pub more : ℕ
    pub keeps : Cheney more s (r.1)
    pub grows : w ≤ more
    pub reader : (r.1).reader ≡ g.reader
    pub away : inside F T N U (r.0) ≡ false
    pub stays : Stays g (r.1)
    pub kept : Kept w g (r.1)
    pub gone : Moved more obj (r.1)
    pub place :
        ((inside F T N U obj ≡ false) × (r.0 ≡ obj))
        ⊎ ((inside F T N U obj ≡ true)
            × (k : ℕ) × (k < N)
            × (r.0 ≡ T + 8 * k)
            × ((r.1).heap obj ≡ heart (T + 8 * k)))

  module _ (apart : (F + 8 * N ≤ T) ⊎ (T + 8 * N ≤ F)) (used : U ≤ N) where
    pub to_outside : (k : ℕ) → k < N → inside F T N U (T + 8 * k) ≡ false
    to_outside k lt = elim apart [ inl h ↦ ground arith | inr h ↦ ground arith ]

    pub to_far : (k i : ℕ) → k < N → i < U → T + 8 * k ≢ F + 8 * i
    to_far k i lt lt' e = elim apart [ inl h ↦ omega arith | inr h ↦ omega arith ]

    pub copies-le-used : (w s : ℕ) (g : Gc) → Cheney w s g → w ≤ U
    copies-le-used w s g c = omega (arith, c.count, hearts-le U F g.heap)

    pub copies-le : (w s : ℕ) (g : Gc) → Cheney w s g → w ≤ N
    copies-le w s g c = omega (arith, c.count, hearts-le U F g.heap)

    moved_once :
        (w s : ℕ) (g : Gc) (i k : ℕ)
        → Cheney w s g
        → i < U
        → k < w
        → g.heap (F + 8 * i) ≡ heart (T + 8 * k)
        → Evacuated w s g (F + 8 * i) (T + 8 * k, g)
    moved_once w s g i k c lt under e = record {
      more = w;
      keeps = c;
      grows = omega arith;
      reader = refl;
      away = to_outside k (omega (arith, copies-le w s g c));
      stays = λ j a lt here. here;
      kept = λ j lt. refl;
      gone = λ here. (k, under, e);
      place = inr (ground arith, k, omega (arith, copies-le w s g c), refl, e);
    }

    module _ (w s : ℕ) (g : Gc) (i : ℕ) (h : Rhhm) (c : Cheney w s g) (lt : i < U) (le : s ≤ w)
        (e : g.heap (F + 8 * i) ≡ live h) (was : start (F + 8 * i) ≡ live h)
        (fine : Map (Aligned F T N U) h) where
      room : w < N
      room = omega (arith, c.count, hearts-lt U F g.heap i h lt e)

      abbrev copied : ℕ → Object
      copied = put g.heap (T + 8 * w) (live h)

      abbrev marked : ℕ → Object
      marked = put copied (F + 8 * i) (heart (T + 8 * w))

      old : (j : ℕ) → j < U → copied (F + 8 * j) ≡ g.heap (F + 8 * j)
      old j below =
          put_other g.heap (T + 8 * w) (live h) (F + 8 * j)
            (λ same. to_far w j room below (sym same))

      new : (k : ℕ) → k < N → marked (T + 8 * k) ≡ copied (T + 8 * k)
      new k below =
          put_other copied (F + 8 * i) (heart (T + 8 * w)) (T + 8 * k) (to_far k i below lt)

      earlier : (k : ℕ) → k < w → marked (T + 8 * k) ≡ g.heap (T + 8 * k)
      earlier k below =
          new k (omega (arith, room))
          ∙ put_other g.heap (T + 8 * w) (live h) (T + 8 * k) (omega arith)

      last : marked (T + 8 * w) ≡ live h
      last = new w room ∙ put_same g.heap (T + 8 * w) (live h)

      counted : hearts U F marked ≡ suc w
      counted =
          hearts-move U F copied i (T + 8 * w) h lt (old i lt ∙ e)
          ∙ ap suc (hearts-same U F g.heap copied old ∙ c.count)

      marked-olds :
          (j : ℕ)
          → j < U
          → ((h : Rhhm) × (marked (F + 8 * j) ≡ live h)
              × (start (F + 8 * j) ≡ live h)
              × Map (Aligned F T N U) h)
            ⊎ ((k : ℕ) × (k < suc w) × (marked (F + 8 * j) ≡ heart (T + 8 * k)))
      marked-olds j below = elim (ℕ_discrete j i) [
        | yes here ↦ inr (
          w,
          omega arith,
          ap (λ k. marked (F + 8 * k)) here ∙ put_same copied (F + 8 * i) (heart (T + 8 * w)),
        )
        | no other ↦
            let same =
              put_other copied (F + 8 * i) (heart (T + 8 * w)) (F + 8 * j) (omega arith)
              ∙ old j below in
            elim (c.olds j below) [
              | inl (h', e', was', f) ↦ inl (h', same ∙ e', was', f)
              | inr (k, under, e') ↦ inr (k, omega arith, same ∙ e')
            ]
      ]

      marked-copies :
          (k : ℕ) → k < suc w → (h : Rhhm) × (marked (T + 8 * k) ≡ live h) × Map (Aligned F T N U) h
      marked-copies k below = elim (ℕ_discrete k w) [
        | yes here ↦ (h, ap (λ j. marked (T + 8 * j)) here ∙ last, fine)
        | no other ↦
            let (h', e', f) = c.copies k (omega arith) in (h', earlier k (omega arith) ∙ e', f)
      ]

      marked-Stays : (j a : ℕ) → j < U → g.heap (F + 8 * j) ≡ heart a → marked (F + 8 * j) ≡ heart a
      marked-Stays j a below at = elim (ℕ_discrete j i) [
        | yes here ↦
            let none : weight (heart a) ≡ 0 =
              ap weight (sym at ∙ ap (λ k. g.heap (F + 8 * k)) here ∙ e) in
            absurd (omega (arith, none))
        | no other ↦
            put_other copied (F + 8 * i) (heart (T + 8 * w)) (F + 8 * j) (omega arith)
            ∙ old j below
            ∙ at
      ]

      marked-sources : (k : ℕ) → k < suc w → Copy s marked k
      marked-sources k below = elim (ℕ_discrete k w) [
        | yes is ↦ record {
          i = i;
          object = h;
          copy = h;
          used = lt;
          was = was;
          gone =
              put_same copied (F + 8 * i) (heart (T + 8 * w))
              ∙ ap (λ j. heart (T + 8 * j)) (sym is);
          here = ap (λ j. marked (T + 8 * j)) is ∙ last;
          alike = inl (omega arith, refl);
        }
        | no other ↦
            let c' = c.sources k (omega arith) in
            record {
              i = c'.i;
              object = c'.object;
              copy = c'.copy;
              used = c'.used;
              was = c'.was;
              gone = marked-Stays c'.i (T + 8 * k) c'.used c'.gone;
              here = earlier k (omega arith) ∙ c'.here;
              alike = elim c'.alike [
                | inl fresh ↦ inl fresh
                | inr (passed, follows) ↦ inr (
                  passed,
                  FollowsMap-Remains F T N U g.heap marked marked-Stays c'.object c'.copy follows,
                )
              ];
            }
      ]

      moving : Evacuated w s g (F + 8 * i) (move_object g (F + 8 * i) (live h))
      unfolding move_object
      moving = rw c.writer (record {
        more = suc w;
        keeps = record {
          from = c.from;
          cap = c.cap;
          to = c.to;
          writer = omega arith;
          count = counted;
          copies = marked-copies;
          scanned = λ k below.
              let (h', e', f) = c.scanned k below in (h', earlier k (omega arith) ∙ e', f);
          olds = marked-olds;
          sources = marked-sources;
        };
        grows = omega arith;
        reader = refl;
        away = to_outside w room;
        stays = marked-Stays;
        kept = earlier;
        gone = λ here. (w, omega arith, put_same copied (F + 8 * i) (heart (T + 8 * w)));
        place = inr (ground arith, w, room, refl, put_same copied (F + 8 * i) (heart (T + 8 * w)));
      })

    move_object-Evacuated :
        (w s : ℕ) (g : Gc) (i : ℕ)
        → Cheney w s g
        → s ≤ w
        → i < U
        → Evacuated w s g (F + 8 * i) (move_object g (F + 8 * i) (g.heap (F + 8 * i)))
    unfolding move_object
    move_object-Evacuated w s g i c le lt = elim (c.olds i lt) [
      | inl (h, e, was, fine) ↦
          subst (λ o. Evacuated w s g (F + 8 * i) (move_object g (F + 8 * i) o)) (sym e)
            (moving w s g i h c lt le e was fine)
      | inr (k, under, e) ↦ rw e (moved_once w s g i k c lt under e)
    ]

    pub gc_evacuate-Evacuated :
        (w s : ℕ) (g : Gc) (obj : ℕ)
        → Cheney w s g
        → s ≤ w
        → IsPointer F T N U obj
        → Evacuated w s g obj (gc_evacuate g obj)
    unfolding gc_evacuate
    gc_evacuate-Evacuated w s g obj c le pointer = elim (Bool-cases (inside F T N U obj)) [
      | inl here ↦
          let (i, lt, e) = pointer here in
          let range : in_from g obj ≡ true = rw (c.from, c.cap) here in
          rw range (
            subst (λ p. Evacuated w s g p (move_object g p (g.heap p))) (sym e)
              (move_object-Evacuated w s g i c le lt))
      | inr far ↦
          let range : in_from g obj ≡ false = rw (c.from, c.cap) far in
          rw range (record {
            more = w;
            keeps = c;
            grows = omega arith;
            reader = refl;
            away = far;
            stays = λ i a lt at. at;
            kept = λ k lt. refl;
            gone = λ here. absurd (ground arith);
            place = inl (far, refl);
          })
    ]
