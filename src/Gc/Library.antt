-- ===== src/Gc/Library.antt =====
-- `lua_register` and `lua_init` of lapi.c: a new state, with the functions of the library as globals.
use minilua.Common.{ℕ, ◌==◌, if◌then◌else◌, List, codes, Option, none, some, Run, done, ◌>>=◌}
use minilua.Value.{box_cfunction}
use minilua.Rhhm.{rhhm_init}
use minilua.Gc.{State, gc_init, gc_new, lua_init_G}
use minilua.Gc.Tables.{lua_setglobal}
use minilua.Strings.{Pool, Heap, lua_intern}

-- the state, with the pool of interned strings that is a part of it
pub record Lua : Type 0 where
  pub state : State
  pub pool : Pool

-- the addresses of the functions
pub record Builtins : Type 0 where
  pub io_print : ℕ
  pub dbg_dbg : ℕ
  pub dbg_assert : ℕ
  pub sys_gc : ℕ

-- `tbl_hash` gives the hash of the table at an address
module _ (tbl_hash : ℕ → ℕ) (heap : Heap) where
  -- its status is 0
  unfoldable pub lua_register : Lua → ℕ → List ℕ → Run Lua
  unfolding lua_intern lua_setglobal box_cfunction
  lua_register L f name = do
    (key, pool) ← lua_intern heap L.pool name
    state ← lua_setglobal tbl_hash heap.has_memory L.state key (box_cfunction f)
    done (record { state = state; pool = pool })

  unfoldable pub lua_library : Builtins → Lua → Run Lua
  unfolding lua_register
  lua_library b L = do
    L₁ ← lua_register L b.io_print (codes "print")
    L₂ ← lua_register L₁ b.dbg_dbg (codes "dbg")
    L₃ ← lua_register L₂ b.dbg_assert (codes "assert")
    L₄ ← lua_register L₃ b.dbg_assert (codes "ass")
    lua_register L₄ b.sys_gc (codes "gc")

  -- behind `gc_init`: the global table is allocated here, and again by `lua_init_G`
  unfoldable pub init_globals : Builtins → Lua → Run (ℕ × Lua)
  unfolding gc_new lua_init_G lua_library rhhm_init
  init_globals b L = elim (gc_new L.state.gc).0 [
    | none ↦ done (1, L)
    | some g ↦ (do
      let state = record L.state { gc = (gc_new L.state.gc).1; globals = g }
      let pool = record L.pool { intern_pool = rhhm_init 256 0 }
      let (status, state') = lua_init_G state
      let L' : Lua = record { state = state'; pool = pool }
      if status == 0 then (do L'' ← lua_library b L'; done (0, L'')) else done (1, L'))
  ]

  -- `gmalloc` is the address that `gc_init` is given; on the status 1 the memory is freed
  unfoldable pub lua_init : Option ℕ → Builtins → Lua → Run (ℕ × Lua)
  unfolding gc_init init_globals
  lua_init gmalloc b L =
      let (status, gc) = gc_init gmalloc L.state.gc in
      let L' = record L { state = record L.state { seed = 5381; gc = gc } } in
      if status == 0 then init_globals b L' else done (1, L')
