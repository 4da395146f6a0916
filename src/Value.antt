-- ===== src/Value.antt =====
-- value.h and value.c: a value is 64 bits, a double or, in the patterns of a NaN, a tag above 48
-- bits of payload. The arithmetic of doubles is an argument: it is the machine's, not the program's.
pub mod Tags
pub mod Short
pub mod Ops
use minilua.Common.{
  ℕ, zero, suc, ◌+◌, ◌-◌, ◌*◌, ◌/◌, ◌%◌, ◌^◌, Bool, true, false, not, ◌&&◌, ◌==◌, ltb,
  if◌then◌else◌, List, [], ◌∷◌, take, Option, none, some, bit_and, bit_or, bit_xor,
}

abbrev pub bv_type_mask : ℕ
bv_type_mask = 0xffff_0000_0000_0000

abbrev pub bv_value_mask : ℕ
bv_value_mask = 0x0000_ffff_ffff_ffff

abbrev pub bv_nil : ℕ
bv_nil = 0xfff8_0000_0000_0000

abbrev pub bv_bool : ℕ
bv_bool = 0xfff9_0000_0000_0000

abbrev pub bv_function : ℕ
bv_function = 0xfffb_0000_0000_0000

abbrev pub bv_closure : ℕ
bv_closure = 0xfffc_0000_0000_0000

abbrev pub bv_cfunction : ℕ
bv_cfunction = 0xfffd_0000_0000_0000

abbrev pub bv_none : ℕ
bv_none = 0xffff_0000_0000_0000

abbrev pub bv_ptr : ℕ
bv_ptr = 0x7ff8_0000_0000_0000

abbrev pub bv_str : ℕ
bv_str = 0x7ff9_0000_0000_0000

abbrev pub bv_tbl : ℕ
bv_tbl = 0x7ffa_0000_0000_0000

abbrev pub bv_sstr : ℕ
bv_sstr = 0x7ffb_0000_0000_0000

abbrev pub sstr_max_length : ℕ
sstr_max_length = 5

unfoldable pub bv_make_double : ℕ → ℕ
bv_make_double d = d

unfoldable pub bv_make_bool : ℕ → ℕ
bv_make_bool b = bit_or bv_bool (if b == 0 then 0 else 1)

unfoldable pub bv_make_str : ℕ → ℕ
bv_make_str p = bit_or p bv_str

unfoldable pub bv_make_tbl : ℕ → ℕ
bv_make_tbl p = bit_or p bv_tbl

unfoldable pub bv_make_ptr : ℕ → ℕ
bv_make_ptr p = bit_or p bv_ptr

-- byte `i` of a value in memory, lowest first, and a store to it
unfoldable pub byte_at : ℕ → ℕ → ℕ
byte_at v i = v / 2 ^ (8 * i) % 256

unfoldable pub set_byte : ℕ → ℕ → ℕ → ℕ
set_byte v i b = v / 2 ^ (8 * (i + 1)) * 2 ^ (8 * (i + 1)) + b * 2 ^ (8 * i) + v % 2 ^ (8 * i)

-- `memcpy` of bytes into a value, from byte `i` on
unfoldable pub copy_bytes : ℕ → ℕ → List ℕ → ℕ
unfolding set_byte
copy_bytes v i [] = v
copy_bytes v i (b ∷ bs) = copy_bytes (set_byte v i b) (i + 1) bs

unfoldable pub bv_make_sstr : List ℕ → ℕ → ℕ
unfolding copy_bytes
bv_make_sstr s len =
    let n = (if ltb sstr_max_length len then sstr_max_length else len) in
    copy_bytes (bit_or bv_sstr n) 1 (take n s)

unfoldable pub bv_get_ptr : ℕ → ℕ
bv_get_ptr v = bit_and v bv_value_mask

unfoldable pub bv_get_ptr_clean : ℕ → ℕ
bv_get_ptr_clean v = bit_and v (bit_xor bv_value_mask 3)

unfoldable pub bv_get_tbl : ℕ → ℕ
bv_get_tbl v = bit_and v bv_value_mask

unfoldable pub bv_get_u64 : ℕ → ℕ
bv_get_u64 v = bit_and v bv_value_mask

unfoldable pub bv_type : ℕ → ℕ
bv_type v = bit_and v bv_type_mask

-- `isnan` is what the compiler makes of the macro: with the `-ffast-math` of the Makefile it is false
-- for every value.
unfoldable pub bv_is_double : (ℕ → Bool) → ℕ → Bool
bv_is_double isnan v = not (isnan v)

unfoldable pub bv_is_nil : ℕ → Bool
bv_is_nil v = v == bv_nil

unfoldable pub bv_is_str : ℕ → Bool
bv_is_str v = bit_and v bv_type_mask == bv_str

unfoldable pub bv_is_sstr : ℕ → Bool
bv_is_sstr v = bit_and v bv_type_mask == bv_sstr

unfoldable pub bv_is_tbl : ℕ → Bool
bv_is_tbl v = bit_and v bv_type_mask == bv_tbl

-- the characters that `bv_get_sstr` points to: from byte 1 on, or a null pointer
unfoldable pub bv_get_sstr : ℕ → Option (ℕ → ℕ)
unfolding bv_is_sstr byte_at
bv_get_sstr v = if bv_is_sstr v then some (λ i. byte_at v (i + 1)) else none

-- `none` stands for -66.
unfoldable pub bv_get_sstr_len : ℕ → Option ℕ
unfolding bv_is_sstr
bv_get_sstr_len v = if bv_is_sstr v then some (bit_and v 0xf) else none

-- The result is a 32-bit number.
unfoldable pub value_type : ℕ → ℕ
unfolding bv_type
value_type v = bv_type v % 2 ^ 32

unfoldable pub box_double : ℕ → ℕ
box_double v = v

unfoldable pub box_bool : ℕ → ℕ
box_bool v = bit_or bv_bool (if v == 0 then 0 else 1)

unfoldable pub box_ptr : ℕ → ℕ
box_ptr v = 0

unfoldable pub box_nil : ℕ
box_nil = bv_nil

unfoldable pub box_cfunction : ℕ → ℕ
box_cfunction v = bit_or v bv_cfunction

unfoldable pub unbox_double : ℕ → ℕ
unbox_double v = 0

unfoldable pub unbox_bool : ℕ → ℕ
unbox_bool v = 0

unfoldable pub unbox_ptr : ℕ → ℕ
unbox_ptr v = 0
