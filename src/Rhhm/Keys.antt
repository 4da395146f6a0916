-- ===== src/Rhhm/Keys.antt =====
-- The hash and the comparison of rhhm.c for keys that are values, and its string hash.
use minilua.Common.{
  ℕ, ◌+◌, ◌*◌, ◌/◌, ◌%◌, ◌^◌, ◌≡◌, ◌==◌, ==_refl, if◌then◌else◌, bit_xor, List, [], ◌∷◌, arith,
}
use minilua.Value.{bv_is_tbl, bv_get_tbl}
use minilua.Rhhm.Robin.{KeyLaws}

-- the rounds of `djb2`, from the hash of the bytes before
unfoldable pub djb2_loop : ℕ → List ℕ → ℕ
djb2_loop hash [] = hash
djb2_loop hash (c ∷ key) = djb2_loop ((hash * 2 ^ 5 + hash + c) % 2 ^ 32) key

unfoldable pub djb2 : List ℕ → ℕ
unfolding djb2_loop
djb2 key = djb2_loop 5381 key

unfoldable pub rhhm_bb_cmp : ℕ → ℕ → ℕ
rhhm_bb_cmp a b = if a == b then 0 else 1

-- `tbl_hash` is what `rhhm_hash` reads from the table at an address: it is chosen when the table is
-- made, and stays.
unfoldable pub rhhm_bb_hash : (ℕ → ℕ) → ℕ → ℕ
rhhm_bb_hash tbl_hash v =
    if bv_is_tbl v then tbl_hash (bv_get_tbl v) else bit_xor v (v / 2 ^ 32) % 2 ^ 32

pub bb_cmp-eq : (a b : ℕ) → rhhm_bb_cmp a b ≡ 0 → a ≡ b
unfolding rhhm_bb_cmp
bb_cmp-eq a b h = ground arith

pub bb_cmp_refl : (a : ℕ) → rhhm_bb_cmp a a ≡ 0
unfolding rhhm_bb_cmp
bb_cmp_refl a = rw ==_refl

-- Values are fit for keys, whatever the hashes of tables are.
pub bb-KeyLaws : (tbl_hash : ℕ → ℕ) → KeyLaws (rhhm_bb_hash tbl_hash) rhhm_bb_cmp
bb-KeyLaws tbl_hash = record {
  cmp_refl = bb_cmp_refl;
  cmp_symm = λ a b h. rw (bb_cmp-eq a b h, bb_cmp_refl b);
  cmp_trans = λ a b c h k. rw (bb_cmp-eq a b h, bb_cmp-eq b c k, bb_cmp_refl c);
  hash-cmp = λ a b h. rw (bb_cmp-eq a b h);
}
