-- ===== src/Value/Short.antt =====
-- Short strings: up to five bytes are kept in the value itself.
use minilua.Common.{
  ℕ, zero, suc, ◌+◌, ◌*◌, ◌/◌, ◌%◌, ◌^◌, ◌<◌, ◌≤◌, ◌≡◌, refl, ◌∙◌, ap, ap₂, subst, sym, true, ◌==◌,
  ltb, if◌then◌else◌, List, [], ◌∷◌, length, take, some, arith, bit_and, bit_or, bit_or_fields,
  bit_and_mask, bit_or-zero, zero-bit_or,
}
use minilua.Value.{
  bv_sstr, bv_make_sstr, copy_bytes, byte_at, bv_is_sstr, bv_get_sstr_len, bv_type_mask,
}
use minilua.Value.Tags.{type_bits}

abbrev pub IsBytes : List ℕ → Type 0
IsBytes [] = Unit
IsBytes (b ∷ bs) = (b < 256) × IsBytes bs

-- the bytes of a value from byte `i` on
abbrev pub read_bytes : ℕ → ℕ → ℕ → List ℕ
read_bytes v zero i = []
read_bytes v (suc n) i = byte_at v i ∷ read_bytes v n (i + 1)

header : (n : ℕ) → n < 16 → bit_or bv_sstr n ≡ bv_sstr + n
header n h = ground (
  arith,
  bit_or_fields 4 (bv_sstr / 16) 0 0 n (omega arith) h,
  bit_or-zero (bv_sstr / 16),
  zero-bit_or n,
)

-- what a value with these bytes is
abbrev Packs : ℕ → List ℕ → Type 0
Packs v s =
    (v / 2 ^ 48 * 2 ^ 48 ≡ bv_sstr)
    × (v % 16 ≡ length s)
    × (v < 2 ^ 64)
    × (read_bytes v (length s) 1 ≡ s)

packs : (s : List ℕ) → IsBytes s → length s ≤ 5 → Packs (copy_bytes (bv_sstr + length s) 1 s) s
unfolding copy_bytes byte_at
packs [] bytes le = (omega arith, omega arith, omega arith, refl)
packs (a ∷ []) bytes le = ground arith
packs (a ∷ b ∷ []) bytes le = ground arith
packs (a ∷ b ∷ c ∷ []) bytes le = ground arith
packs (a ∷ b ∷ c ∷ e ∷ []) bytes le = ground arith
packs (a ∷ b ∷ c ∷ e ∷ f ∷ []) bytes le = ground arith
packs (a ∷ b ∷ c ∷ e ∷ f ∷ g ∷ s) bytes le = absurd (omega arith)

length-take_le : (n : ℕ) (s : List ℕ) → n ≤ length s → length (take n s) ≡ n
length-take_le zero s le = refl
length-take_le (suc n) [] le = elim le [ ]
length-take_le (suc n) (b ∷ s) le = omega (arith, length-take_le n s (omega arith))

take-IsBytes : (n : ℕ) (s : List ℕ) → IsBytes s → IsBytes (take n s)
take-IsBytes zero s h = tt
take-IsBytes (suc n) [] h = tt
take-IsBytes (suc n) (b ∷ s) h = (h.0, take-IsBytes n s h.1)

take_all : (n : ℕ) (s : List ℕ) → n ≡ length s → take n s ≡ s
take_all zero [] e = refl
take_all zero (b ∷ s) e = absurd (omega arith)
take_all (suc n) [] e = refl
take_all (suc n) (b ∷ s) e = ap (◌∷◌ b) (take_all n s (omega arith))

-- how many characters are kept
abbrev pub kept : ℕ → ℕ
kept len = if ltb 5 len then 5 else len

Packs-copy :
    (s : List ℕ) (n : ℕ)
    → IsBytes s
    → n ≤ length s
    → n ≤ 5
    → Packs (copy_bytes (bit_or bv_sstr n) 1 (take n s)) (take n s) × (length (take n s) ≡ n)
Packs-copy s n bytes le few =
    let long = length-take_le n s le in
    let packed = packs (take n s) (take-IsBytes n s bytes) (omega arith) in
    let same : bv_sstr + length (take n s) ≡ bit_or bv_sstr n =
      omega (arith, header n (omega arith)) in
    (subst (λ x. Packs (copy_bytes x 1 (take n s)) (take n s)) same packed, long)

Packs-fields :
    (v n : ℕ) (s : List ℕ)
    → Packs v s
    → length s ≡ n
    → (bv_is_sstr v ≡ true) × (bv_get_sstr_len v ≡ some n) × (read_bytes v n 1 ≡ s)
unfolding bv_is_sstr bv_get_sstr_len
Packs-fields v n s (tag, low, word, bytes) long =
    let is : (bit_and v bv_type_mask == bv_sstr) ≡ true = ground (arith, type_bits v word) in
    (is, rw is (ap some (bit_and_mask 4 v ∙ low ∙ long)), rw long at bytes)

-- A value made of the first `len` of some bytes is a short string; it holds `len` characters, or
-- five if `len` is more, and its bytes from byte 1 on are those characters.
pub sstr_roundtrip :
    (s : List ℕ) (len : ℕ)
    → IsBytes s
    → len ≤ length s
    → let v = bv_make_sstr s len in
      (bv_is_sstr v ≡ true)
      × (bv_get_sstr_len v ≡ some (kept len))
      × (read_bytes v (kept len) 1 ≡ take (kept len) s)
unfolding bv_make_sstr
sstr_roundtrip s len bytes le =
    let (p, long) = Packs-copy s (kept len) bytes (ground arith) (ground arith) in
    Packs-fields _ (kept len) _ p long

-- Strings of at most five characters are the same value only if they are the same string.
sstr-injective :
    (s s' : List ℕ)
    → IsBytes s
    → IsBytes s'
    → length s ≤ 5
    → length s' ≤ 5
    → bv_make_sstr s (length s) ≡ bv_make_sstr s' (length s')
    → s ≡ s'
sstr-injective s s' b b' le le' e =
    let k : kept (length s) ≡ length s = ground arith in
    let k' : kept (length s') ≡ length s' = ground arith in
    let (_, l, r) = sstr_roundtrip s (length s) b (omega arith) in
    let (_, l', r') = sstr_roundtrip s' (length s') b' (omega arith) in
    let lengths = sym l ∙ ap bv_get_sstr_len e ∙ l' in
    let same : kept (length s) ≡ kept (length s') = ground arith in
    sym (take_all _ s k) ∙ sym r ∙ ap₂ (λ v n. read_bytes v n 1) e same ∙ r' ∙ take_all _ s' k'
