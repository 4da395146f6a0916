-- ===== src/Tests/Maps.antt =====
-- Maps of eight slots, with numbers for keys that are their own hashes.
use minilua.Common.{
  ℕ, zero, suc, ◌<◌, ◌≡◌, ◌≢◌, refl, sym, ◌∙◌, ap, true, false, ◌==◌, ==_refl, if◌then◌else◌, [],
  ◌∷◌, done, arith,
}
use minilua.Rhhm.{
  RhhmData, Rhhm, Entry, ready, is_empty, empty_entry, at, distance, next, home, bv_nil, rhhm_init,
  rhhm_set, rhhm_get,
}
use minilua.Rhhm.Ring.{probe}
use minilua.Rhhm.Robin.{KeyLaws, IsRobin, IsFull, Passes, dist, Holds, Writes}
use minilua.Rhhm.Get.{HasNoNil}
use minilua.Rhhm.Map.{Free, get-set, rhhm_set-Writes}
use minilua.Rhhm.Init.{init-set}
use minilua.Rhhm.Remove.{rhhm_remove, remove_stops_early, remove_duplicates}

abbrev hash : ℕ → ℕ
hash k = k

abbrev cmp : ℕ → ℕ → ℕ
cmp a b = if a == b then 0 else 1

cmp-eq : (a b : ℕ) → cmp a b ≡ 0 → a ≡ b
cmp-eq a b h = ground arith

laws : KeyLaws hash cmp
laws = record {
  cmp_refl = λ a. rw ==_refl;
  cmp_symm = λ a b h. rw (cmp-eq a b h, ==_refl);
  cmp_trans = λ a b c h k. rw (cmp-eq a b h, cmp-eq b c k, ==_refl);
  hash-cmp = cmp-eq;
}

abbrev entry : ℕ → ℕ → Entry
entry k v = record { value = v; key = k }

-- the keys 1 and 9 share their home with no other, 2 is displaced by 9, 4 and 5 are at home
abbrev crowded : RhhmData
crowded = record {
  cap = 8;
  hash = 0;
  table =
      empty_entry
      ∷ entry 1 10
      ∷ entry 9 11
      ∷ entry 2 12
      ∷ entry 4 13
      ∷ entry 5 14
      ∷ empty_entry
      ∷ empty_entry
      ∷ [];
}

cases8 : (P : ℕ → Type 0) → P 0 → P 1 → P 2 → P 3 → P 4 → P 5 → P 6 → P 7 → (i : ℕ) → i < 8 → P i
cases8 P a b c d e f g h zero lt = a
cases8 P a b c d e f g h (suc zero) lt = b
cases8 P a b c d e f g h (suc (suc zero)) lt = c
cases8 P a b c d e f g h (suc (suc (suc zero))) lt = d
cases8 P a b c d e f g h (suc (suc (suc (suc zero)))) lt = e
cases8 P a b c d e f g h (suc (suc (suc (suc (suc zero))))) lt = f
cases8 P a b c d e f g h (suc (suc (suc (suc (suc (suc zero)))))) lt = g
cases8 P a b c d e f g h (suc (suc (suc (suc (suc (suc (suc zero))))))) lt = h
cases8 P a b c d e f g h (suc (suc (suc (suc (suc (suc (suc (suc n)))))))) lt = absurd (omega arith)

abbrev slot_of : ℕ → ℕ
slot_of k = if k == 1 then 1 else if k == 9 then 2 else if k == 2 then 3 else k

slot_of-key :
    (i : ℕ) → i < 8 → IsFull hash cmp crowded.table i → slot_of (at crowded.table i).key ≡ i
unfolding is_empty
slot_of-key =
    cases8 (λ i. IsFull hash cmp crowded.table i → slot_of (at crowded.table i).key ≡ i) (λ f. cc)
      (λ f. refl) (λ f. refl) (λ f. refl) (λ f. refl) (λ f. refl) (λ f. cc) (λ f. cc)

abbrev Probed : ℕ → Type 0
Probed i =
    (j : ℕ)
    → j < dist hash cmp 8 crowded.table i
    → Passes hash cmp 8 crowded.table (home hash cmp 8 (at crowded.table i).key) j

crowded-Probed : (i : ℕ) → i < 8 → IsFull hash cmp crowded.table i → Probed i
unfolding is_empty distance home probe
crowded-Probed =
    cases8 (λ i. IsFull hash cmp crowded.table i → Probed i) (λ f. cc) (λ f j lt. elim lt [ ])
      (λ f. first) (λ f. second) (λ f j lt. elim lt [ ]) (λ f j lt. elim lt [ ]) (λ f. cc) (λ f. cc)
  where
    first : Probed 2
    first zero lt = (refl, omega arith)
    first (suc j) lt = absurd (omega arith)

    second : Probed 3
    second zero lt = (refl, omega arith)
    second (suc j) lt = absurd (omega arith)

crowded-IsRobin : IsRobin hash cmp 8 crowded.table
crowded-IsRobin = record {
  size = refl;
  pos = omega arith;
  log = 3;
  pow = refl;
  probed = λ i j lt f. crowded-Probed i lt f j;
  unique = λ i j li lj fi fj same.
      sym (slot_of-key i li fi) ∙ ap slot_of (cmp-eq _ _ same) ∙ slot_of-key j lj fj;
}

crowded-HasNoNil : HasNoNil hash cmp crowded
unfolding is_empty
crowded-HasNoNil =
    cases8 (λ i. IsFull hash cmp crowded.table i → (at crowded.table i).value ≢ bv_nil) (λ f. cc)
      (λ f. omega arith) (λ f. omega arith) (λ f. omega arith) (λ f. omega arith) (λ f. omega arith)
      (λ f. cc) (λ f. cc)

free : (i : ℕ) → i < 8 → is_empty (at crowded.table i) ≡ true → Free hash cmp crowded i
free i lt void = record { inside = lt; void = void }

-- Key 17 has the home of 1 and 9, so it displaces 2, which displaces 4, and so on to slot 6.
get-set_example :
    (hm : Rhhm) × (rhhm_set hash cmp true (ready crowded) 17 20 ≡ done hm)
    × ((q : ℕ)
        → rhhm_get hash cmp hm q
          ≡ (if cmp 17 q == 0 then done 20 else rhhm_get hash cmp (ready crowded) q))
unfolding is_empty
get-set_example =
    get-set hash cmp laws true crowded crowded-IsRobin crowded-HasNoNil 17 20 (omega arith)
      (omega arith) 6 7 (omega arith) (free 6 (omega arith) refl) (free 7 (omega arith) refl)

rhhm_set-Writes_example :
    (d' : RhhmData) × (rhhm_set hash cmp false (ready crowded) 17 20 ≡ done (ready d'))
    × Writes hash cmp crowded 17 20 d'
unfolding is_empty
rhhm_set-Writes_example =
    rhhm_set-Writes hash cmp laws false crowded crowded-IsRobin 17 20 (omega arith) 6
      (free 6 (omega arith) refl)

init-set_example :
    (hm : Rhhm) × (rhhm_set hash cmp true (rhhm_init 8 3) 17 20 ≡ done hm)
    × ((q : ℕ) → rhhm_get hash cmp hm q ≡ (if cmp 17 q == 0 then done 20 else done bv_nil))
init-set_example =
    init-set hash cmp laws 8 3 3 refl refl (omega arith) (omega arith) 17 20 (omega arith)
      (omega arith)

held : Holds hash cmp 8 crowded.table 2 12
unfolding is_empty
held = record { slot = 3; inside = omega arith; full = refl; same = refl; reads = refl }

remove_stops_early_example :
    (hm : Rhhm) × (rhhm_remove hash cmp (ready crowded) 2 ≡ done hm)
    × (rhhm_get hash cmp hm 2 ≡ done 12)
unfolding is_empty home
remove_stops_early_example =
    remove_stops_early hash cmp laws crowded crowded-IsRobin crowded-HasNoNil 2 12 held
      (refl, omega arith, omega arith)

remove_duplicates_example :
    (d' : RhhmData) × (rhhm_remove hash cmp (ready crowded) 4 ≡ done (ready d'))
    × (at d'.table 4 ≡ at crowded.table 5)
    × (at d'.table 5 ≡ at crowded.table 5)
    × ((i : ℕ) → i ≢ 4 → at d'.table i ≡ at crowded.table i)
    × ¬ IsRobin hash cmp 8 d'.table
unfolding is_empty home next
remove_duplicates_example =
    remove_duplicates hash cmp laws crowded 4 crowded-IsRobin
      (refl, refl, omega arith, omega arith, refl, refl)
