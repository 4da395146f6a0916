-- ===== src/Value/Tags.antt =====
-- Tags and payloads of boxed values.
use minilua.Common.{
  ℕ, ◌+◌, ◌*◌, ◌/◌, ◌%◌, ◌^◌, ◌<◌, ◌≡◌, arith, bit_and, bit_or, bit_and_fields, bit_or_fields,
  bit_and_mask, bit_and-zero, bit_or-zero, zero-bit_or,
}
use minilua.Value.{
  bv_str, bv_tbl, bv_ptr, bv_cfunction, bv_make_str, bv_make_tbl, bv_make_ptr, box_cfunction,
  bv_get_ptr, bv_get_tbl, bv_type, value_type, bv_type_mask, bv_value_mask,
}

-- a tag above a payload
tagged : (t p : ℕ) → p < 2 ^ 48 → bit_or p (t * 2 ^ 48) ≡ t * 2 ^ 48 + p
tagged t p h =
    ground (arith, bit_or_fields 48 0 p t 0 h (omega arith), zero-bit_or t, bit_or-zero p)

pub payload : (v : ℕ) → bit_and v bv_value_mask ≡ v % 2 ^ 48
payload v = bit_and_mask 48 v

pub type_bits : (v : ℕ) → v < 2 ^ 64 → bit_and v bv_type_mask ≡ v / 2 ^ 48 * 2 ^ 48
type_bits v h =
    let q = v / 2 ^ 48 in
    let r = v % 2 ^ 48 in
    let fields = bit_and_fields 48 q r 0xffff 0 (omega arith) (omega arith) in
    let split : q * 2 ^ 48 + r ≡ v = omega arith in
    let parts : bit_and (q * 2 ^ 48 + r) bv_type_mask ≡ q * 2 ^ 48 =
      omega (arith, fields, bit_and_mask 16 q, bit_and-zero r) in
    rw split at parts

module _ (p : ℕ) (h : p < 2 ^ 48) where
  -- An address below 2 ^ 48 comes back from each kind of box, and the box has the tag of its kind.
  pub box_roundtrip :
      ((bv_get_ptr (bv_make_str p) ≡ p) × (bv_type (bv_make_str p) ≡ bv_str))
      × ((bv_get_tbl (bv_make_tbl p) ≡ p) × (bv_type (bv_make_tbl p) ≡ bv_tbl))
      × ((bv_get_ptr (bv_make_ptr p) ≡ p) × (bv_type (bv_make_ptr p) ≡ bv_ptr))
      × ((bv_get_ptr (box_cfunction p) ≡ p) × (bv_type (box_cfunction p) ≡ bv_cfunction))
  unfolding bv_get_ptr bv_get_tbl bv_type bv_make_str bv_make_tbl bv_make_ptr box_cfunction
  box_roundtrip = (
    both 0x7ff9 (omega arith),
    both 0x7ffa (omega arith),
    both 0x7ff8 (omega arith),
    both 0xfffd (omega arith),
  )
    where
      both :
          (t : ℕ)
          → t < 2 ^ 16
          → (bit_and (bit_or p (t * 2 ^ 48)) bv_value_mask ≡ p)
            × (bit_and (bit_or p (t * 2 ^ 48)) bv_type_mask ≡ t * 2 ^ 48)
      both t lt = rw (tagged t p h) (
        omega (arith, payload (t * 2 ^ 48 + p)),
        omega (arith, type_bits (t * 2 ^ 48 + p) (omega arith)),
      )

-- `value_type` gives 0 for every 64-bit value, whatever its tag.
value_type-zero : (v : ℕ) → v < 2 ^ 64 → value_type v ≡ 0
unfolding value_type
value_type-zero v h = omega (arith, type_bits v h)
