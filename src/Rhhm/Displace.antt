-- ===== src/Rhhm/Displace.antt =====
-- The second loop of `rhhm_set`: each displaced entry is put nearer to the empty slot ahead, so the
-- loop ends, and the table keeps its order and all its bindings.
pub mod Loop
use native.Mathlib.Decide.{ℕ_discrete, dec_lt}
use minilua.Common.{
  ℕ, zero, suc, ◌+◌, ◌-◌, ◌^◌, ◌≤◌, ◌<◌, ◌≡◌, ◌≢◌, ◌⊎◌, inl, inr, refl, sym, ◌∙◌, ap, true, false,
  not, ◌&&◌, List, length, get_or, set, length-set, ◌==◌, if◌then◌else◌, leb, ltb, arith,
  Bool-cases, ==_iff, ==_refl, Run, done, Bool,
}
use minilua.Rhhm.{
  RhhmData, Entry, is_empty, empty_entry, at, distance, home, next, skip_loop, displace_loop,
}
use minilua.Rhhm.Ring.{
  probe, probe-zero, probe-lt, distance-lt, distance-probe, probe-distance, distance-between,
}
use minilua.Rhhm.Robin.{KeyLaws, dist, IsFull, Passes, IsRobin, Vacant, IsFresh, Holds, home-lt}
use minilua.Rhhm.Place.{
  spot, placed, spot-lt, at-other, dist-spot, IsFull-spot, Passes-placed, placed-IsRobin,
  displaced-IsFresh, Holds-placed, Holds-own, Holds-kept, Holds-displaced,
}
use minilua.Rhhm.Probe.{skip_loop-Vacant}

module _ (hfn : ℕ → ℕ) (cfn : ℕ → ℕ → ℕ) where
  -- `d'` has the bindings of `d` and that of `e`, and at most one of its empty slots is taken.
  pub record Absorbs (d : RhhmData) (e : Entry) (d' : RhhmData) : Type 0 where
    pub same_cap : d'.cap ≡ d.cap
    pub same_hash : d'.hash ≡ d.hash
    pub robin : IsRobin hfn cfn d.cap d'.table
    pub sound :
        (q v : ℕ)
        → Holds hfn cfn d.cap d'.table q v
        → Holds hfn cfn d.cap d.table q v
          ⊎ ((is_empty e ≡ false) × (cfn e.key q ≡ 0) × (e.value ≡ v))
    pub kept : (q v : ℕ) → Holds hfn cfn d.cap d.table q v → Holds hfn cfn d.cap d'.table q v
    pub own :
        (q v : ℕ)
        → is_empty e ≡ false
        → cfn e.key q ≡ 0
        → e.value ≡ v
        → Holds hfn cfn d.cap d'.table q v
    pub taken : ℕ
    pub spare :
        (i : ℕ) → i ≢ taken → is_empty (at d.table i) ≡ true → is_empty (at d'.table i) ≡ true

  Absorbs-empty :
      (d : RhhmData) (e : Entry) → IsRobin hfn cfn d.cap d.table → is_empty e ≡ true → Absorbs d e d
  Absorbs-empty d e r void = record {
    same_cap = refl;
    same_hash = refl;
    robin = r;
    sound = λ q v h. inl h;
    kept = λ q v h. h;
    own = λ q v f s r. cc (f, void);
    taken = 0;
    spare = λ i ne o. o;
  }

  module _ (laws : KeyLaws hfn cfn) (d : RhhmData) (robin : IsRobin hfn cfn d.cap d.table)
      (e : Entry) (solid : is_empty e ≡ false) (k : ℕ)
      (vacant : Vacant hfn cfn d.cap d.table (home hfn cfn d.cap e.key) k) where
    -- the slot where `e` goes, its old entry, and the map behind the exchange
    abbrev slot : ℕ
    slot = probe d.cap (home hfn cfn d.cap e.key) k

    abbrev old : Entry
    old = at d.table slot

    abbrev after : RhhmData
    after = record d { table = set d.table slot e }

    Absorbs-step :
        (d' : RhhmData) (a : Absorbs after old d') (taken : ℕ)
        → ((i : ℕ) → i ≢ taken → is_empty (at d.table i) ≡ true → is_empty (at d'.table i) ≡ true)
        → Absorbs d e d'
    unfolding placed
    Absorbs-step d' a taken spare = record {
      same_cap = a.same_cap;
      same_hash = a.same_hash;
      robin = a.robin;
      sound = λ q v h. elim (a.sound q v h) [
        | inl t ↦ elim (Holds-placed hfn cfn laws d.cap d.table robin e solid k vacant q v t) [
          | inl s ↦ inl s
          | inr own ↦ inr (solid, own.0, own.1)
        ]
        | inr (f, s, r) ↦
            inl (Holds-displaced hfn cfn laws d.cap d.table robin e solid k vacant q v f s r)
      ];
      kept = λ q v h. elim (Holds-kept hfn cfn laws d.cap d.table robin e solid k vacant q v h) [
        | inl t ↦ a.kept q v t
        | inr (f, s, r) ↦ a.own q v f s r
      ];
      own = λ q v f s r.
          a.kept q v (Holds-own hfn cfn laws d.cap d.table robin e solid k vacant q v s r);
      taken = taken;
      spare = spare;
    }

    at-after : (i : ℕ) → slot ≢ i → at after.table i ≡ at d.table i
    unfolding placed
    at-after = at-other hfn cfn laws d.cap d.table robin e solid k vacant

    after-IsRobin : IsFresh hfn cfn d.cap d.table e.key → IsRobin hfn cfn d.cap after.table
    unfolding placed
    after-IsRobin = placed-IsRobin hfn cfn laws d.cap d.table robin e solid k vacant

    last-Absorbs : IsFresh hfn cfn d.cap d.table e.key → is_empty old ≡ true → Absorbs d e after
    last-Absorbs fresh void =
        Absorbs-step after (Absorbs-empty after old (after-IsRobin fresh) void) slot
          (λ i ne o. rw (at-after i (λ h. ne (sym h))) o)

    more-Absorbs : (d' : RhhmData) → is_empty old ≡ false → Absorbs after old d' → Absorbs d e d'
    more-Absorbs d' full a =
        Absorbs-step d' a a.taken
          (λ i ne o. a.spare i ne (rw (at-after i (λ h. cc (h, full, o))) o))

    module _ (full : is_empty old ≡ false) (z : ℕ) (room : z < d.cap) (le : k ≤ z)
        (open_end : is_empty (at d.table (probe d.cap (home hfn cfn d.cap e.key) z)) ≡ true) where
      gap : ℕ
      gap = probe d.cap (home hfn cfn d.cap e.key) z

      -- how far the old entry is from its home, and the empty slot from there
      passed : ℕ
      passed = dist hfn cfn d.cap d.table slot

      ahead : ℕ
      ahead = distance d.cap gap (home hfn cfn d.cap old.key)

      slot_room : slot < d.cap
      unfolding spot
      slot_room = spot-lt hfn cfn laws d.cap d.table robin e solid k vacant

      home_room : home hfn cfn d.cap old.key < d.cap
      home_room = home-lt hfn cfn d.cap old.key robin.pos

      passed-lt : passed < k
      unfolding passed
      passed-lt = elim vacant.stops [ inl void ↦ cc (full, void) | inr richer ↦ richer ]

      back_to_slot : probe d.cap (home hfn cfn d.cap old.key) passed ≡ slot
      unfolding passed
      back_to_slot = probe-distance d.cap _ home_room slot slot_room

      Passes-slot : Passes hfn cfn d.cap after.table (home hfn cfn d.cap old.key) passed
      unfolding placed
      Passes-slot = rw back_to_slot (
        IsFull-spot hfn cfn laws d.cap d.table robin e solid k vacant,
        rw (dist-spot hfn cfn laws d.cap d.table robin e solid k vacant) (omega (arith, passed-lt)),
      )

      -- the next probe passes all the slots up to the one just taken
      old-Passes :
          (i : ℕ) → i < suc passed → Passes hfn cfn d.cap after.table (home hfn cfn d.cap old.key) i
      unfolding placed
      old-Passes i lt = elim (ℕ_discrete i passed) [
        | yes here ↦ rw here Passes-slot
        | no before ↦
            Passes-placed hfn cfn laws d.cap d.table robin e solid k vacant _ i
              (robin.probed slot i slot_room full (unfold passed in omega arith))
      ]

      gap_room : gap < d.cap
      unfolding gap
      gap_room = probe-lt d.cap _ (home-lt hfn cfn d.cap e.key robin.pos) z room

      gap_reached : probe d.cap (home hfn cfn d.cap old.key) ahead ≡ gap
      unfolding ahead
      gap_reached = probe-distance d.cap _ home_room gap gap_room

      ahead_room : ahead < d.cap
      unfolding ahead
      ahead_room = distance-lt d.cap _ home_room gap gap_room

      gap_open : is_empty (at after.table gap) ≡ true
      unfolding gap
      gap_open = rw (at-after gap (λ h. cc (h, full, open_end))) open_end

      passed-lt-ahead : passed < ahead
      passed-lt-ahead = elim (dec_lt passed ahead) [
        | yes h ↦ h
        | no h ↦
            let met = (old-Passes ahead (omega arith)).0 in cc (gap_open, rw gap_reached at met)
      ]

      -- the empty slot is as far from the slot just taken, measured from either home
      nearer : ahead - suc passed < z - k
      unfolding gap
      nearer =
          let first =
            distance-between d.cap _ (home-lt hfn cfn d.cap e.key robin.pos) k z le room in
          let second =
            rw (gap_reached, back_to_slot) at
              (distance-between d.cap _ home_room passed ahead (omega (arith, passed-lt-ahead))
                ahead_room) in
          omega (arith, passed-lt-ahead, first, second)

      open_ahead : is_empty (at after.table (probe d.cap (home hfn cfn d.cap old.key) ahead)) ≡ true
      open_ahead = rw gap_reached gap_open

      old-IsFresh : IsFresh hfn cfn d.cap d.table e.key → IsFresh hfn cfn d.cap after.table old.key
      unfolding placed spot
      old-IsFresh fresh =
          displaced-IsFresh hfn cfn laws d.cap d.table robin e solid k vacant fresh full
