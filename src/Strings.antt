-- ===== src/Strings.antt =====
-- string.h and string.c, the keys of interned strings in rhhm.c (`hm_sb_cmp` to `hm_sb_get_str`)
-- and `lua_intern` of lapi.c: a long string is one object, found again by its bytes.
use minilua.Common.{
  ℕ, ◌+◌, ◌-◌, ◌%◌, Bool, ◌&&◌, not, ◌==◌, ltb, if◌then◌else◌, List, [], ◌∷◌, length, take, Option,
  none, some, Run, done, fault, ◌>>=◌, bit_or,
}
use minilua.Value.{bv_get_ptr, bv_make_str, bv_make_sstr, bv_is_nil, sstr_max_length}
use minilua.Rhhm.{Rhhm, rhhm_get, rhhm_set}
use minilua.Rhhm.Keys.{djb2}

-- `intern_pool` of the state, the bytes of the string object at an address, and how many there are
pub record Pool : Type 0 where
  pub intern_pool : Rhhm
  pub strs : ℕ → List ℕ
  pub made : ℕ

-- the memory that string objects get, one after the other, and where the `istr` of a look-up is
pub record Heap : Type 0 where
  pub smalloc : ℕ → Option ℕ
  pub istr : ℕ
  pub has_memory : Bool

-- 1 for every answer but 0: only that is tested. Both have the same length.
unfoldable pub compare_bytes : List ℕ → List ℕ → ℕ
compare_bytes [] t = 0
compare_bytes (a ∷ s) [] = 1
compare_bytes (a ∷ s) (b ∷ t) = let rest = compare_bytes s t in if a == b then rest else 1

-- the lowest bit of a key
abbrev is_istr : ℕ → Bool
is_istr k = k % 2 == 1

-- `strs` gives the bytes of a string object, `istrs` those that the `istr` at an address points to
module _ (strs istrs : ℕ → List ℕ) where
  unfoldable pub key_bytes : ℕ → List ℕ
  key_bytes k = if is_istr k then istrs (k - 1) else strs (bv_get_ptr k)

  unfoldable pub hm_sb_cmp : ℕ → ℕ → ℕ
  unfolding key_bytes compare_bytes
  hm_sb_cmp a b =
      if not (is_istr a) && not (is_istr b)
      then (if a == b then 0 else 1)
      else if not (length (key_bytes a) == length (key_bytes b))
      then 1
      else compare_bytes (key_bytes a) (key_bytes b)

  unfoldable pub hm_sb_hash : ℕ → ℕ
  unfolding key_bytes
  hm_sb_hash a = djb2 (take 32 (key_bytes a))

-- The key is the address of an `istr` with the lowest bit set.
unfoldable pub hm_sb_get_str : Heap → Pool → List ℕ → Run ℕ
unfolding hm_sb_cmp hm_sb_hash
hm_sb_get_str h l s =
    let istrs = λ (a : ℕ). if a == h.istr then s else [] in
    rhhm_get (hm_sb_hash l.strs istrs) (hm_sb_cmp l.strs istrs) l.intern_pool (bit_or h.istr 1)

unfoldable pub hm_sb_set : Heap → Pool → ℕ → ℕ → Run Rhhm
unfolding hm_sb_cmp hm_sb_hash
hm_sb_set h l k v =
    rhhm_set (hm_sb_hash l.strs (λ a. [])) (hm_sb_cmp l.strs (λ a. [])) h.has_memory l.intern_pool k
      v

-- the address of the object, or null
unfoldable pub str_new : Heap → Pool → List ℕ → Option ℕ × Pool
str_new h l s = elim (h.smalloc l.made) [
  | none ↦ (none, record l { made = l.made + 1 })
  | some o ↦ (some o, record l { strs = λ a. if a == o then s else l.strs a; made = l.made + 1 })
]

-- A null pointer is read by the hash of the new key.
unfoldable pub intern_new : Heap → Option ℕ × Pool → Run (ℕ × Pool)
unfolding hm_sb_set
intern_new h (none, l) = fault
intern_new h (some o, l) = do
  let v = bv_make_str o
  map ← hm_sb_set h l v v
  done (v, record l { intern_pool = map })

unfoldable pub lua_intern : Heap → Pool → List ℕ → Run (ℕ × Pool)
unfolding hm_sb_get_str str_new intern_new
lua_intern h l s =
    if ltb sstr_max_length (length s)
    then (do
      v ← hm_sb_get_str h l s
      if bv_is_nil v then intern_new h (str_new h l s) else done (v, l))
    else done (bv_make_sstr s (length s), l)
