-- ===== src/Tests/Symbols.antt =====
-- A symbol in an empty table.
use minilua.Common.{ℕ, ◌%◌, ◌<◌, ◌≡◌, refl, true, replicate, done, arith}
use minilua.Rhhm.{RhhmData, Rhhm, ready, empty_entry}
use minilua.Rhhm.Get.{HasNoNil}
use minilua.Rhhm.Map.{Free}
use minilua.Rhhm.Init.{all-empty, replicate-IsRobin}
use minilua.Rhhm.Strings.{
  hm_key_hash, hm_key_cmp, rhhm_insert_str, rhhm_get_str, IsKeyable, SameBytes, insert_str-get_str,
}

-- every 256 bytes are the same
abbrev mem : ℕ → ℕ
mem a = a % 256

abbrev fresh : RhhmData
fresh = record { cap = 8; hash = 0; table = replicate 8 empty_entry }

fresh-HasNoNil : HasNoNil (hm_key_hash mem) (hm_key_cmp mem) fresh
fresh-HasNoNil i lt full e = cc (full, all-empty 8 i)

free : (i : ℕ) → i < 8 → Free (hm_key_hash mem) (hm_key_cmp mem) fresh i
free i lt = record { inside = lt; void = all-empty 8 i }

insert_str-get_str_example :
    (hm : Rhhm) × (rhhm_insert_str mem true (ready fresh) 4096 3 7 ≡ done hm)
    × ((s' len' : ℕ)
        → IsKeyable mem s' len'
        → SameBytes mem 4096 3 s' len'
        → rhhm_get_str mem hm s' len' ≡ done 7)
    × ((s' len' : ℕ)
        → IsKeyable mem s' len'
        → ¬ SameBytes mem 4096 3 s' len'
        → rhhm_get_str mem hm s' len' ≡ rhhm_get_str mem (ready fresh) s' len')
insert_str-get_str_example =
    insert_str-get_str mem true fresh
      (replicate-IsRobin (hm_key_hash mem) (hm_key_cmp mem) 8 3 refl (omega arith)) fresh-HasNoNil
      4096 3 7 (omega arith, omega arith) (omega arith) 0 1 (omega arith) (free 0 (omega arith))
      (free 1 (omega arith))
