-- ===== src/Rhhm/Strings.antt =====
-- The keys of rhhm.c that are strings in memory: 16 bits of length over 48 bits of address.
use minilua.Common.{
  ℕ, zero, suc, ◌+◌, ◌-◌, ◌*◌, ◌/◌, ◌%◌, ◌^◌, ◌≤◌, ◌<◌, ◌≡◌, ◌≢◌, refl, sym, ◌∙◌, ap, Bool, false,
  not, ◌==◌, ==_refl, ==_false, ltb, if◌then◌else◌, List, [], ◌∷◌, Run, done, ◌>>=◌, bit_or,
  bit_and, bit_or_fields, bit_or-zero, zero-bit_or, arith,
}
use minilua.Value.{bv_value_mask, bv_nil}
use minilua.Value.Tags.{payload}
use minilua.Rhhm.{Rhhm, RhhmData, ready, rhhm_get, rhhm_set}
use minilua.Rhhm.Remove.{rhhm_remove}
use minilua.Rhhm.Robin.{KeyLaws, IsRobin}
use minilua.Rhhm.Get.{HasNoNil}
use minilua.Rhhm.Map.{Free, get-set}
use minilua.Rhhm.Keys.{djb2}

-- `((u64)len << 48) | (u64)s`
unfoldable pub string_key : ℕ → ℕ → ℕ
string_key s len = bit_or (len * 2 ^ 48 % 2 ^ 64) s

-- `mem` gives the bytes that the keys point to, which stay as they are.
module _ (mem : ℕ → ℕ) where
  unfoldable pub read_str : ℕ → ℕ → List ℕ
  read_str s zero = []
  read_str s (suc n) = mem s ∷ read_str (s + 1) n

  -- 1 for every answer but 0: only that is tested
  unfoldable pub memcmp : ℕ → ℕ → ℕ → ℕ
  memcmp s s' zero = 0
  memcmp s s' (suc n) = let rest = memcmp (s + 1) (s' + 1) n in if mem s == mem s' then rest else 1

  unfoldable pub hm_key_cmp : ℕ → ℕ → ℕ
  unfolding memcmp
  hm_key_cmp a b =
      let alen = a / 2 ^ 48 in
      let blen = b / 2 ^ 48 in
      if not (alen == blen)
      then 1
      else memcmp (bit_and a bv_value_mask) (bit_and b bv_value_mask) alen

  unfoldable pub hm_key_hash : ℕ → ℕ
  unfolding read_str
  hm_key_hash a =
      let alen = a / 2 ^ 48 in
      djb2 (read_str (bit_and a bv_value_mask) (if ltb alen 32 then alen else 32))

  unfoldable pub rhhm_insert_str : Bool → Rhhm → ℕ → ℕ → ℕ → Run Rhhm
  unfolding string_key
  rhhm_insert_str alloc hm s len val =
      rhhm_set hm_key_hash hm_key_cmp alloc hm (string_key s len) val

  -- -1 if there is none, in 32 bits
  unfoldable pub rhhm_get_str : Rhhm → ℕ → ℕ → Run ℕ
  unfolding string_key
  rhhm_get_str hm s len = do
    v ← rhhm_get hm_key_hash hm_key_cmp hm (string_key s len)
    done (if v == bv_nil then 2 ^ 32 - 1 else v % 2 ^ 32)

  unfoldable pub rhhm_remove_str : Rhhm → ℕ → ℕ → Run Rhhm
  unfolding string_key
  rhhm_remove_str hm s len = rhhm_remove hm_key_hash hm_key_cmp hm (string_key s len)

  memcmp_refl : (s n : ℕ) → memcmp s s n ≡ 0
  unfolding memcmp
  memcmp_refl s zero = refl
  memcmp_refl s (suc n) = rw (==_refl, memcmp_refl (s + 1) n)

  memcmp-read_str : (s s' n : ℕ) → memcmp s s' n ≡ 0 → read_str s n ≡ read_str s' n
  unfolding memcmp read_str
  memcmp-read_str s s' zero h = refl
  memcmp-read_str s s' (suc n) h = ground (arith, memcmp-read_str (s + 1) (s' + 1) n)

  read_str-memcmp : (s s' n : ℕ) → read_str s n ≡ read_str s' n → memcmp s s' n ≡ 0
  unfolding memcmp read_str
  read_str-memcmp s s' zero h = refl
  read_str-memcmp s s' (suc n) h = ground (arith, read_str-memcmp (s + 1) (s' + 1) n)

  read_str-shorter :
      (s s' k n : ℕ) → k ≤ n → read_str s n ≡ read_str s' n → read_str s k ≡ read_str s' k
  unfolding read_str
  read_str-shorter s s' zero n le h = refl
  read_str-shorter s s' (suc k) zero le h = elim le [ ]
  read_str-shorter s s' (suc k) (suc n) le h = ground (arith, read_str-shorter (s + 1) (s' + 1) k n)

  -- two keys that compare as equal
  abbrev Equal : ℕ → ℕ → Type 0
  Equal a b =
      (a / 2 ^ 48 ≡ b / 2 ^ 48)
      × (read_str (bit_and a bv_value_mask) (a / 2 ^ 48)
          ≡ read_str (bit_and b bv_value_mask) (a / 2 ^ 48))

  Equal-cmp : (a b : ℕ) → Equal a b → hm_key_cmp a b ≡ 0
  unfolding hm_key_cmp
  Equal-cmp a b (len, bytes) = rw (len, ==_refl) (rw len at (read_str-memcmp _ _ _ bytes))

  cmp-Equal : (a b : ℕ) → hm_key_cmp a b ≡ 0 → Equal a b
  unfolding hm_key_cmp
  cmp-Equal a b h =
      let len : a / 2 ^ 48 ≡ b / 2 ^ 48 = ground arith in
      let bytes : memcmp (bit_and a bv_value_mask) (bit_and b bv_value_mask) (a / 2 ^ 48) ≡ 0 =
        ground arith in
      (len, memcmp-read_str _ _ _ bytes)

  hash-Equal : (a b : ℕ) → Equal a b → hm_key_hash a ≡ hm_key_hash b
  unfolding hm_key_hash
  hash-Equal a b (len, bytes) =
      let n = (if ltb (a / 2 ^ 48) 32 then a / 2 ^ 48 else 32) in
      let le : n ≤ a / 2 ^ 48 = ground arith in
      ap djb2 (read_str-shorter _ _ n (a / 2 ^ 48) le bytes)
      ∙ ap (λ k. djb2 (read_str (bit_and b bv_value_mask) (if ltb k 32 then k else 32))) len

  -- Strings are fit for keys while their bytes stay.
  pub string-KeyLaws : KeyLaws hm_key_hash hm_key_cmp
  string-KeyLaws = record {
    cmp_refl = λ a. Equal-cmp a a (refl, refl);
    cmp_symm = λ a b h.
        let (len, bytes) = cmp-Equal a b h in Equal-cmp b a (sym len, rw len at (sym bytes));
    cmp_trans = λ a b c h k.
        let (len, bytes) = cmp-Equal a b h in
        let (len', bytes') = cmp-Equal b c k in Equal-cmp a c (len ∙ len', bytes ∙ rw len bytes');
    hash-cmp = λ a b h. hash-Equal a b (cmp-Equal a b h);
  }

  key-sum : (s len : ℕ) → s < 2 ^ 48 → len < 2 ^ 16 → string_key s len ≡ len * 2 ^ 48 + s
  unfolding string_key
  key-sum s len hs hl =
      ground (arith, bit_or_fields 48 len 0 0 s (omega arith) hs, bit_or-zero len, zero-bit_or s)

  -- a string of fewer than 2 ^ 16 bytes at an address below 2 ^ 48
  abbrev pub IsKeyable : ℕ → ℕ → Type 0
  IsKeyable s len = (s < 2 ^ 48) × (len < 2 ^ 16)

  key-len : (s len : ℕ) → IsKeyable s len → string_key s len / 2 ^ 48 ≡ len
  key-len s len (hs, hl) = omega (arith, key-sum s len hs hl)

  key-address : (s len : ℕ) → IsKeyable s len → bit_and (string_key s len) bv_value_mask ≡ s
  key-address s len (hs, hl) = omega (arith, payload (string_key s len), key-sum s len hs hl)

  -- the same length and bytes
  abbrev pub SameBytes : ℕ → ℕ → ℕ → ℕ → Type 0
  SameBytes s len s' len' = (len ≡ len') × (read_str s len ≡ read_str s' len)

  cmp-SameBytes :
      (s len s' len' : ℕ)
      → IsKeyable s len
      → IsKeyable s' len'
      → hm_key_cmp (string_key s len) (string_key s' len') ≡ 0
      → SameBytes s len s' len'
  cmp-SameBytes s len s' len' is is' h =
      let e = cmp-Equal (string_key s len) (string_key s' len') h in
      rw (key-len s len is, key-len s' len' is', key-address s len is, key-address s' len' is') at e

  SameBytes-cmp :
      (s len s' len' : ℕ)
      → IsKeyable s len
      → IsKeyable s' len'
      → SameBytes s len s' len'
      → hm_key_cmp (string_key s len) (string_key s' len') ≡ 0
  SameBytes-cmp s len s' len' is is' e =
      Equal-cmp (string_key s len) (string_key s' len') (
        rw (key-len s len is, key-len s' len' is', key-address s len is, key-address s' len' is') e)

  -- `rhhm_insert_str` of a value below 2 ^ 31 into a table in Robin Hood order, with no nil and two
  -- empty slots, returns; `rhhm_get_str` then gives the value for every string with the length and
  -- the bytes of the one inserted, wherever it stands, and what it gave before for all others.
  pub insert_str-get_str :
      (alloc : Bool) (d : RhhmData)
      → IsRobin hm_key_hash hm_key_cmp d.cap d.table
      → HasNoNil hm_key_hash hm_key_cmp d
      → (s len val : ℕ) → IsKeyable s len
      → val < 2 ^ 31
      → (a b : ℕ) → a ≢ b
      → Free hm_key_hash hm_key_cmp d a
      → Free hm_key_hash hm_key_cmp d b
      → (hm : Rhhm) × (rhhm_insert_str alloc (ready d) s len val ≡ done hm)
        × ((s' len' : ℕ)
            → IsKeyable s' len'
            → SameBytes s len s' len'
            → rhhm_get_str hm s' len' ≡ done val)
        × ((s' len' : ℕ)
            → IsKeyable s' len'
            → ¬ SameBytes s len s' len'
            → rhhm_get_str hm s' len' ≡ rhhm_get_str (ready d) s' len')
  unfolding rhhm_insert_str rhhm_get_str
  insert_str-get_str alloc d robin plain s len val is small a b apart fa fb =
      let key = string_key s len in
      let (hm, run, reads) =
        get-set hm_key_hash hm_key_cmp string-KeyLaws alloc d robin plain key val (omega arith)
          (omega arith) a b apart fa fb in
      let not_nil : (val == bv_nil) ≡ false = ground arith in
      let low : val % 2 ^ 32 ≡ val = omega arith in
      (
        hm,
        run,
        λ s' len' is' same.
            rw (reads (string_key s' len'), SameBytes-cmp s len s' len' is is' same, not_nil, low),
        λ s' len' is' other.
            let apart : (hm_key_cmp key (string_key s' len') == 0) ≡ false =
              ==_false _ 0 (λ h. other (cmp-SameBytes s len s' len' is is' h)) in
            rw (reads (string_key s' len'), apart),
      )
