-- ===== src/Rhhm/Init.antt =====
-- `rhhm_init` packs a capacity and a hash into one word; the first write unpacks them again.
use minilua.Common.{
  ℕ, zero, suc, ◌+◌, ◌-◌, ◌*◌, ◌/◌, ◌%◌, ◌^◌, ◌≤◌, ◌<◌, ◌≡◌, ◌≢◌, refl, ◌∙◌, ap, true, false,
  length, replicate, length-replicate, bit_and, bit_or, bit_and_fields, bit_or_fields, bit_and_mask,
  bit_and-zero, bit_or-zero, zero-bit_or, arith, ◌==◌, if◌then◌else◌, done,
}
use minilua.Rhhm.Map.{Free, get-set}
use minilua.Rhhm.Get.{get_absent}
use minilua.Rhhm.{
  bv_nil, rhhm_set, rhhm_get, set_initialized, RhhmData, Rhhm, is_empty, empty_entry, at, bv_none,
  ready, rhhm_init, rhhm_is_initialized, rhhm_hash, rhhm_maybe_initialize,
}
use minilua.Rhhm.Robin.{KeyLaws, IsRobin}

module _ (length hash : ℕ) (aligned : length % 4 ≡ 0) (small : length < 2 ^ 32) where
  -- the packed word, as a sum
  word-sum : bit_or (bit_or (hash * 2 ^ 32) length) 2 ≡ hash * 2 ^ 32 + length + 2
  word-sum =
      let m = length / 4 in
      let inner : bit_or (hash * 2 ^ 32) length ≡ hash * 2 ^ 32 + length = ground (
        arith,
        bit_or_fields 32 hash 0 0 length (omega arith) small,
        bit_or-zero hash,
        zero-bit_or length,
      ) in
      let outer = bit_or_fields 2 (hash * 2 ^ 30 + m) 0 0 2 (omega arith) (omega arith) in
      let split : hash * 2 ^ 32 + length ≡ (hash * 2 ^ 30 + m) * 4 + 0 = omega arith in
      rw (inner, split) (outer ∙ rw bit_or-zero (omega (arith, zero-bit_or 2)))

  mark-set : bit_and (bit_or (bit_or (hash * 2 ^ 32) length) 2) 2 ≡ 2
  mark-set =
      let m = length / 4 in
      let split : hash * 2 ^ 32 + length + 2 ≡ (hash * 2 ^ 30 + m) * 4 + 2 = omega arith in
      rw (word-sum, split)
        (bit_and_fields 2 (hash * 2 ^ 30 + m) 2 0 2 (omega arith) (omega arith) ∙ rw bit_and-zero)

  cap-unpacked : bit_and (bit_or (bit_or (hash * 2 ^ 32) length) 2) 0xffff_fffc ≡ length
  cap-unpacked =
      let m = length / 4 in
      let split : hash * 2 ^ 32 + length + 2 ≡ (hash * 2 ^ 30 + m) * 4 + 2 = omega arith in
      let fields =
        bit_and_fields 2 (hash * 2 ^ 30 + m) 2 (2 ^ 30 - 1) 0 (omega arith) (omega arith) in
      rw (word-sum, split) (fields ∙ rw (bit_and_mask 30 (hash * 2 ^ 30 + m)) (omega arith))

  hash-unpacked : bit_or (bit_or (hash * 2 ^ 32) length) 2 / 2 ^ 32 ≡ hash
  hash-unpacked = rw word-sum (omega arith)

  -- For a length that is a multiple of four below 2 ^ 32, the map that `rhhm_init` leaves is not
  -- initialized but has its hash already; the first write makes a table with that length and hash
  -- whose slots are all empty, or none if there is no memory.
  pub init-initialize :
      (rhhm_is_initialized (rhhm_init length hash) ≡ false)
      × (rhhm_hash (rhhm_init length hash) ≡ done hash)
      × (rhhm_maybe_initialize true (rhhm_init length hash)
          ≡ (ready (record { cap = length; hash = hash; table = replicate length empty_entry }), 0))
      × ((rhhm_maybe_initialize false (rhhm_init length hash)).1 ≡ 1)
  unfolding rhhm_is_initialized rhhm_hash rhhm_maybe_initialize rhhm_init
  init-initialize = (rw mark-set, ap done hash-unpacked, rw (cap-unpacked, hash-unpacked), refl)

pub all-empty : (n i : ℕ) → is_empty (at (replicate n empty_entry) i) ≡ true
unfolding is_empty
all-empty zero i = refl
all-empty (suc n) zero = refl
all-empty (suc n) (suc i) = all-empty n i

module _ (hfn : ℕ → ℕ) (cfn : ℕ → ℕ → ℕ) where
  -- a table with no entry is in order
  pub replicate-IsRobin :
      (cap log : ℕ) → cap ≡ 2 ^ log → 0 < cap → IsRobin hfn cfn cap (replicate cap empty_entry)
  replicate-IsRobin cap log pow pos = record {
    size = length-replicate cap empty_entry;
    pos = pos;
    log = log;
    pow = pow;
    probed = λ i j lt full. cc (full, all-empty cap i);
    unique = λ i j li lj full. cc (full, all-empty cap i);
  }

  pub set-initialize :
      (hm : Rhhm) (d : RhhmData) (key value : ℕ)
      → rhhm_maybe_initialize true hm ≡ (ready d, 0)
      → rhhm_set hfn cfn true hm key value ≡ rhhm_set hfn cfn true (ready d) key value
  unfolding rhhm_set
  set-initialize hm d key value e = ap (λ r. set_initialized hfn cfn r key value) e

  -- The first write to a map that `rhhm_init` made with a power of two from 4 up: it returns, and
  -- `rhhm_get` reads the value under each key equal to the one written, and nil under all others.
  pub init-set :
      (laws : KeyLaws hfn cfn) (length hash log : ℕ)
      → length ≡ 2 ^ log
      → length % 4 ≡ 0
      → 4 ≤ length
      → length < 2 ^ 32
      → (key value : ℕ) → value ≢ bv_none
      → value ≢ bv_nil
      → (hm : Rhhm) × (rhhm_set hfn cfn true (rhhm_init length hash) key value ≡ done hm)
        × ((q : ℕ) → rhhm_get hfn cfn hm q ≡ (if cfn key q == 0 then done value else done bv_nil))
  init-set laws length hash log pow aligned big small key value solid not_nil =
      let fresh : RhhmData = record {
        cap = length;
        hash = hash;
        table = replicate length empty_entry;
      } in
      let robin = replicate-IsRobin length log pow (omega arith) in
      let free = λ (i : ℕ) (lt : i < length).
        let f : Free hfn cfn fresh i = record { inside = lt; void = all-empty length i } in f in
      let (hm, run, reads) =
        get-set hfn cfn laws true fresh robin (λ i lt full. cc (full, all-empty length i)) key value
          solid not_nil 0 1 (omega arith) (free 0 (omega arith)) (free 1 (omega arith)) in
      let ready_now = (init-initialize length hash aligned small).2 in
      let absent = λ (q : ℕ).
        get_absent hfn cfn laws fresh robin q (λ v h. cc (h.full, all-empty length h.slot)) 0
          (omega arith) (all-empty length 0) in
      (
        hm,
        set-initialize (rhhm_init length hash) fresh key value ready_now ∙ run,
        λ q. reads q ∙ ap (λ r. if cfn key q == 0 then done value else r) (absent q),
      )
