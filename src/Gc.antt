-- ===== src/Gc.antt =====
-- The collector of lapi.c, which copies the tables that are reached from one half of a block to the
-- other. Addresses are numbers; a table is one word of 8 bytes there, the word of its map.
pub mod Hearts
pub mod Follows
pub mod Cheney
pub mod Visits
pub mod Reach
pub mod Collect
pub mod Tables
pub mod Library
use minilua.Common.{
  ℕ, zero, suc, ◌+◌, ◌-◌, ◌*◌, ◌%◌, ◌^◌, ◌/◌, bit_xor, Bool, ◌&&◌, ◌||◌, not, ◌==◌, ltb, leb,
  if◌then◌else◌, List, [], ◌∷◌, Option, none, some, Run, done, fault, stuck, ◌>>=◌,
}
use minilua.Value.{bv_is_tbl, bv_get_tbl, bv_get_ptr, bv_make_tbl, bv_nil}
use minilua.Rhhm.{Rhhm, Entry, rhhm_init}
use minilua.Rhhm.Remove.{rhhm_visit}

-- `struct gc_object`: the word of a map, whose lowest bit is clear, or the address of the copy with
-- that bit set
pub data Object : Type 0 where
  live : Rhhm → Object
  heart : ℕ → Object

pub record Gc : Type 0 where
  pub from : ℕ
  pub to : ℕ
  pub cur : ℕ
  pub writer : ℕ
  pub reader : ℕ
  pub cap : ℕ
  pub heap : ℕ → Object

unfoldable pub put : (ℕ → Object) → ℕ → Object → ℕ → Object
put heap a o x = if x == a then o else heap x

-- `gc_init`, with the address that `gmalloc` gives for 2048 words
unfoldable pub gc_init : Option ℕ → Gc → ℕ × Gc
gc_init none gc = (1, record gc { cap = 1024; from = 0 })
gc_init (some a) gc =
    let to = a + 8 * 1024 in
    (0, record gc { cap = 1024; from = a; cur = a; to = to; writer = to; reader = to })

-- the address of a new object, if there is room
unfoldable pub gc_new : Gc → Option ℕ × Gc
gc_new gc =
    if gc.cur == gc.from + 8 * gc.cap
    then (none, gc)
    else (some gc.cur, record gc { cur = gc.cur + 8 })

abbrev pub in_from : Gc → ℕ → Bool
in_from gc obj = leb gc.from obj && ltb obj (gc.from + 8 * gc.cap)

unfoldable pub move_object : Gc → ℕ → Object → ℕ × Gc
unfolding put
move_object gc obj (heart a) = (a, gc)
move_object gc obj (live h) = (
  gc.writer,
  record gc {
    heap = put (put gc.heap gc.writer (live h)) obj (heart gc.writer);
    writer = gc.writer + 8;
  },
)

unfoldable pub gc_evacuate : Gc → ℕ → ℕ × Gc
unfolding move_object
gc_evacuate gc obj = if in_from gc obj then move_object gc obj (gc.heap obj) else (obj, gc)

-- a key or a value
unfoldable pub scavenge_value : Gc → ℕ → ℕ × Gc
unfolding gc_evacuate bv_is_tbl bv_get_tbl bv_make_tbl
scavenge_value gc v =
    if bv_is_tbl v
    then (let (a, gc') = gc_evacuate gc (bv_get_tbl v) in (bv_make_tbl a, gc'))
    else (v, gc)

unfoldable pub gc_scavenge : Gc → Entry → Gc × Entry
unfolding scavenge_value
gc_scavenge gc e =
    let (k, gc₁) = scavenge_value gc e.key in
    let (v, gc₂) = scavenge_value gc₁ e.value in (gc₂, record { value = v; key = k })

-- `rhhm_visit` of the object at `a`; one that has been moved away is no map
unfoldable pub visit_object : ℕ → Object → Gc → Run Gc
unfolding rhhm_visit gc_scavenge put
visit_object a (heart b) gc = fault
visit_object a (live h) gc = do
  (gc', h') ← rhhm_visit gc_scavenge gc h
  done (record gc' { heap = put gc'.heap a (live h') })

unfoldable pub scan_loop : ℕ → Gc → Run Gc
unfolding visit_object
scan_loop zero gc = stuck
scan_loop (suc fuel) gc =
    let next = visit_object gc.reader (gc.heap gc.reader) (record gc { reader = gc.reader + 8 }) in
    if ltb gc.reader gc.writer then (do gc' ← next; scan_loop fuel gc') else done gc

-- The other half has places for as many objects as there are, and each is read once.
unfoldable pub gc_collect : Gc → ℕ → Run Gc
unfolding gc_evacuate scan_loop
gc_collect gc obj = let (a, gc') = gc_evacuate gc obj in scan_loop (gc.cap + 1) gc'

unfoldable pub gc_maybe_collect : Gc → ℕ → Run Gc
unfolding gc_collect bv_is_tbl bv_get_ptr
gc_maybe_collect gc root = if bv_is_tbl root then gc_collect gc (bv_get_ptr root) else done gc

-- What was not copied is freed, which leaves no trace here.
unfoldable pub gc_flip : Gc → Gc
gc_flip gc = record gc {
  from = gc.to;
  to = gc.from;
  cur = gc.to + (gc.writer - gc.to);
  reader = gc.from;
  writer = gc.from;
}

abbrev pub forwarded : Object → ℕ → ℕ
forwarded o p = elim o [ heart a ↦ bv_make_tbl a | live h ↦ p ]

unfoldable pub gc_fix_ptr : Gc → ℕ → ℕ
unfolding bv_is_tbl bv_get_ptr bv_make_tbl
gc_fix_ptr gc p =
    if bv_is_tbl p && in_from gc (bv_get_ptr p) then forwarded (gc.heap (bv_get_ptr p)) p else p

unfoldable pub collect_stack : List ℕ → Gc → Run Gc
unfolding gc_maybe_collect
collect_stack [] gc = done gc
collect_stack (p ∷ ps) gc = do gc' ← gc_maybe_collect gc p; collect_stack ps gc'

unfoldable pub fix_stack : List ℕ → Gc → List ℕ
unfolding gc_fix_ptr
fix_stack [] gc = []
fix_stack (p ∷ ps) gc = gc_fix_ptr gc p ∷ fix_stack ps gc

-- what the library keeps: the collector, the global table, the number that hashes start from, and
-- the words of the stack that are looked at
pub record State : Type 0 where
  pub gc : Gc
  pub globals : ℕ
  pub seed : ℕ
  pub stack : List ℕ

-- the address in a broken heart; the word of a map is no address
abbrev pub forward : Object → Run ℕ
forward o = elim o [ heart a ↦ done a | live h ↦ fault ]

-- `lua_gc_impl`, which returns the status 0 of `gc_flip`
unfoldable pub lua_gc_impl : State → Run State
unfolding gc_collect collect_stack fix_stack gc_flip
lua_gc_impl L = do
  gc₁ ← gc_collect L.gc L.globals
  gc₂ ← collect_stack L.stack gc₁
  globals ← forward (gc₂.heap L.globals)
  done (record L { gc = gc_flip gc₂; globals = globals; stack = fix_stack L.stack gc₂ })

-- the hash of a new table, also the next seed
unfoldable pub next_seed : ℕ → ℕ → ℕ
next_seed seed t = (seed * 2 ^ 5 + seed + bit_xor t (t / 2 ^ 32)) % 2 ^ 32

unfoldable pub init_table : State → ℕ → ℕ → State
unfolding put next_seed rhhm_init
init_table L t length =
    let hash = next_seed L.seed t in
    record L {
      seed = hash;
      gc = record L.gc { heap = put L.gc.heap t (live (rhhm_init length hash)) };
    }

-- After a collection, whose status is 0, there is no growing.
unfoldable pub lua_newtable : State → Run (ℕ × State)
unfolding gc_new lua_gc_impl init_table bv_make_tbl
lua_newtable L = elim (gc_new L.gc).0 [
  | some t ↦ done (bv_make_tbl t, init_table (record L { gc = (gc_new L.gc).1 }) t 16)
  | none ↦ (do
    L' ← lua_gc_impl L
    elim (gc_new L'.gc).0 [
      | some t ↦ done (bv_make_tbl t, init_table (record L' { gc = (gc_new L'.gc).1 }) t 16)
      | none ↦ done (bv_nil, L')
    ])
]

-- the status and the state
unfoldable pub lua_init_G : State → ℕ × State
unfolding gc_new init_table
lua_init_G L = elim (gc_new L.gc).0 [
  | none ↦ (1, L)
  | some t ↦ (0, init_table (record L { gc = (gc_new L.gc).1; globals = t }) t 256)
]
