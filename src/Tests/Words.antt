-- ===== src/Tests/Words.antt =====
-- Boxed values.
use minilua.Common.{ℕ, ◌+◌, ◌≡◌, true, false, take, some, arith, codes}
use minilua.Value.{
  bv_get_ptr, bv_get_tbl, bv_type, bv_make_str, bv_make_tbl, bv_make_ptr, box_cfunction, bv_str,
  bv_tbl, bv_ptr, bv_cfunction, bv_is_sstr, bv_make_sstr, bv_get_sstr_len,
}
use minilua.Value.Tags.{box_roundtrip}
use minilua.Value.Short.{read_bytes, kept, sstr_roundtrip}
use minilua.Value.Ops.{Fpu}

box_roundtrip_example :
    ((bv_get_ptr (bv_make_str 4096) ≡ 4096) × (bv_type (bv_make_str 4096) ≡ bv_str))
    × ((bv_get_tbl (bv_make_tbl 4096) ≡ 4096) × (bv_type (bv_make_tbl 4096) ≡ bv_tbl))
    × ((bv_get_ptr (bv_make_ptr 4096) ≡ 4096) × (bv_type (bv_make_ptr 4096) ≡ bv_ptr))
    × ((bv_get_ptr (box_cfunction 4096) ≡ 4096) × (bv_type (box_cfunction 4096) ≡ bv_cfunction))
box_roundtrip_example = box_roundtrip 4096 (omega arith)

sstr_roundtrip_example :
    (bv_is_sstr (bv_make_sstr (codes "luajit") 6) ≡ true)
    × (bv_get_sstr_len (bv_make_sstr (codes "luajit") 6) ≡ some (kept 6))
    × (read_bytes (bv_make_sstr (codes "luajit") 6) (kept 6) 1 ≡ take (kept 6) (codes "luajit"))
sstr_roundtrip_example =
    sstr_roundtrip (codes "luajit") 6
      (omega arith, (omega arith, (omega arith, (omega arith, (omega arith, (omega arith, tt))))))
      (omega arith)

-- 1.0
abbrev one : ℕ
one = 0x3ff0_0000_0000_0000

-- a machine that only adds, with `-ffast-math`
abbrev pub adder : Fpu
adder = record {
  add = λ a b. a + b;
  sub = λ a b. a;
  mul = λ a b. a;
  div = λ a b. a;
  power = λ a b. a;
  floor = λ a. a;
  le = λ a b. true;
  lt = λ a b. false;
  one = one;
  isnan = λ a. false;
}
