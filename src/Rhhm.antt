-- ===== src/Rhhm.antt =====
-- rhhm.h and rhhm.c: the Robin Hood hash map that holds tables, globals, interned strings, symbols
-- and the constants of a chunk. The hash and the comparison are arguments, as in the source.
pub mod Ring
pub mod Robin
pub mod Place
pub mod Probe
pub mod Displace
pub mod Assign
pub mod Set
pub mod Get
pub mod Map
pub mod Init
pub mod Remove
pub mod Keys
pub mod Strings
use minilua.Common.{
  ℕ, zero, suc, ◌+◌, ◌-◌, ◌*◌, ◌/◌, ◌%◌, ◌^◌, ◌<◌, Bool, true, false, not, ◌&&◌, ◌==◌, ltb, leb,
  if◌then◌else◌, List, length, get_or, set, replicate, bit_and, bit_or, Run, done, fault, stuck,
  ◌>>=◌,
}
pub use minilua.Value.{bv_nil, bv_none}

-- `rhhm_value`; a `bv` is its 64 bits
pub record Entry : Type 0 where
  pub value : ℕ
  pub key : ℕ

pub record RhhmData : Type 0 where
  pub cap : ℕ
  pub hash : ℕ
  pub table : List Entry

-- The word `hm->data`: a capacity and a hash packed beside the mark bit 0x2, the address of a
-- block (whose two low bits are clear, as `ML_MALLOC` aligns), or null.
pub data Rhhm : Type 0 where
  packed : ℕ → Rhhm
  ready : RhhmData → Rhhm
  null : Rhhm

unfoldable pub is_empty : Entry → Bool
is_empty e = e.value == bv_none

-- The key of an empty slot is never read: the source leaves it as `ML_MALLOC` gave it.
abbrev pub empty_entry : Entry
empty_entry = record { value = bv_none; key = 0 }

abbrev pub at : List Entry → ℕ → Entry
at table i = get_or table i empty_entry

-- `DISTANCE`, on indices below the capacity, where 32 bits are enough
unfoldable pub distance : ℕ → ℕ → ℕ → ℕ
distance cap p h = if leb h p then p - h else p + (cap - h)

-- `(i+1) & (cap-1)`
unfoldable pub next : ℕ → ℕ → ℕ
next cap i = bit_and (i + 1) (cap - 1)

unfoldable pub rhhm_is_initialized : Rhhm → Bool
rhhm_is_initialized (packed w) = bit_and w 2 == 0
rhhm_is_initialized (ready d) = true
rhhm_is_initialized null = true

unfoldable pub rhhm_hash : Rhhm → Run ℕ
rhhm_hash (packed w) = done (w / 2 ^ 32)
rhhm_hash (ready d) = done d.hash
rhhm_hash null = fault

-- `rhhm_init`, for a 32-bit length and hash
unfoldable pub rhhm_init : ℕ → ℕ → Rhhm
rhhm_init length hash = packed (bit_or (bit_or (hash * 2 ^ 32) length) 2)

-- The map and the status; the argument says whether `ML_MALLOC` finds memory.
unfoldable pub rhhm_maybe_initialize : Bool → Rhhm → Rhhm × ℕ
rhhm_maybe_initialize alloc (packed w) =
    let cap = bit_and w 0xffff_fffc in
    let hash = w / 2 ^ 32 in
    if alloc
    then (ready (record { cap = cap; hash = hash; table = replicate cap empty_entry }), 0)
    else (null, 1)
rhhm_maybe_initialize alloc (ready d) = (ready d, 0)
rhhm_maybe_initialize alloc null = (null, 0)

module _ (hfn : ℕ → ℕ) (cfn : ℕ → ℕ → ℕ) where
  -- `ENTRY_HASH`
  unfoldable pub home : ℕ → ℕ → ℕ
  home cap key = bit_and (hfn key) (cap - 1)

  -- the loop of `rhhm_get`, from slot `i`
  unfoldable pub get_loop : ℕ → RhhmData → ℕ → ℕ → ℕ → Run ℕ
  get_loop zero d key h i = stuck
  get_loop (suc fuel) d key h i =
      let e = at d.table i in
      let rest = get_loop fuel d key h (next d.cap i) in
      if is_empty e
      then done bv_nil
      else if e.value == bv_nil
      then done bv_nil
      else if ltb (distance d.cap i (home d.cap e.key)) (distance d.cap i h)
      then done bv_nil
      else if cfn e.key key == 0
      then done e.value
      else rest

  -- After `cap` rounds the loop is back at its first slot, so it never ends.
  unfoldable pub rhhm_get : Rhhm → ℕ → Run ℕ
  unfolding is_empty home get_loop
  rhhm_get (packed w) key = done bv_nil
  rhhm_get null key = fault
  rhhm_get (ready d) key = get_loop d.cap d key (home d.cap key) (home d.cap key)

  -- how the first loop of `rhhm_set` ends: at a slot that holds the key, or at the slot to take
  pub data Found : Type 0 where
    present : ℕ → Found
    vacant : ℕ → Found

  unfoldable pub set_loop : ℕ → RhhmData → ℕ → ℕ → ℕ → Run Found
  set_loop zero d key h i = stuck
  set_loop (suc fuel) d key h i =
      let e = at d.table i in
      let rest = set_loop fuel d key h (next d.cap i) in
      if not (is_empty e) && leb (distance d.cap i h) (distance d.cap i (home d.cap e.key))
      then (if home d.cap e.key == h && cfn e.key key == 0 then done (present i) else rest)
      else done (vacant i)

  -- the inner loop of the second one: the slot where an entry with home `h` is put
  unfoldable pub skip_loop : ℕ → RhhmData → ℕ → ℕ → Run ℕ
  skip_loop zero d h i = stuck
  skip_loop (suc fuel) d h i =
      let e = at d.table i in
      let rest = skip_loop fuel d h (next d.cap i) in
      if not (is_empty e) && leb (distance d.cap i h) (distance d.cap i (home d.cap e.key))
      then rest
      else done i

  -- the second loop: the displaced entry takes the slot of the next one
  unfoldable pub displace_loop : ℕ → RhhmData → Entry → Run RhhmData
  displace_loop zero d e = stuck
  displace_loop (suc fuel) d e =
      let h = home d.cap e.key in
      let moved = skip_loop d.cap d h h >>= λ i.
      displace_loop fuel (record d { table = set d.table i e }) (at d.table i) in
      if is_empty e then done d else moved

  unfoldable pub set_found : RhhmData → ℕ → ℕ → Found → Run RhhmData
  unfolding displace_loop
  set_found d key value (present i) =
      done (record d { table = set d.table i (record (at d.table i) { value = value }) })
  set_found d key value (vacant i) =
      displace_loop (suc d.cap)
        (record d { table = set d.table i (record { value = value; key = key }) }) (at d.table i)

  unfoldable pub set_ready : RhhmData → ℕ → ℕ → Run RhhmData
  unfolding is_empty home set_loop skip_loop displace_loop set_found
  set_ready d key value = do
    found ← set_loop d.cap d key (home d.cap key) (home d.cap key)
    set_found d key value found

  unfoldable pub set_initialized : Rhhm × ℕ → ℕ → ℕ → Run Rhhm
  unfolding set_ready
  set_initialized (hm, suc _) key value = done hm
  set_initialized (ready d, zero) key value = do d' ← set_ready d key value; done (ready d')
  set_initialized (packed w, zero) key value = fault
  set_initialized (null, zero) key value = fault

  unfoldable pub rhhm_set : Bool → Rhhm → ℕ → ℕ → Run Rhhm
  unfolding set_initialized rhhm_maybe_initialize
  rhhm_set alloc hm key value = set_initialized (rhhm_maybe_initialize alloc hm) key value
