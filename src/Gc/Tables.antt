-- ===== src/Gc/Tables.antt =====
-- Tables by their addresses, and the globals. `tbl_hash` gives the hash of the table at an address,
-- `alloc` says whether there is memory.
pub mod Fields
use minilua.Common.{ℕ, Bool, Run, done, fault, ◌>>=◌}
use minilua.Value.{bv_get_ptr}
use minilua.Rhhm.{Rhhm, rhhm_get, rhhm_set}
use minilua.Rhhm.Keys.{rhhm_bb_hash, rhhm_bb_cmp}
use minilua.Gc.{Object, live, heart, State, put}

-- the map at an address; the word of an object that has been moved away is none
abbrev map_at : Object → Run Rhhm
map_at o = elim o [ live h ↦ done h | heart a ↦ fault ]

module _ (tbl_hash : ℕ → ℕ) where
  -- the status of `table_set` is 0
  unfoldable pub table_set : Bool → State → ℕ → ℕ → ℕ → Run State
  unfolding put
  table_set alloc L t k v = do
    h ← map_at (L.gc.heap t)
    h' ← rhhm_set (rhhm_bb_hash tbl_hash) rhhm_bb_cmp alloc h k v
    done (record L { gc = record L.gc { heap = put L.gc.heap t (live h') } })

  unfoldable pub table_get : State → ℕ → ℕ → Run ℕ
  table_get L t k = do h ← map_at (L.gc.heap t); rhhm_get (rhhm_bb_hash tbl_hash) rhhm_bb_cmp h k

  unfoldable pub lua_setglobal : Bool → State → ℕ → ℕ → Run State
  unfolding table_set
  lua_setglobal alloc L key value = table_set alloc L L.globals key value

  unfoldable pub lua_getglobal : State → ℕ → Run ℕ
  unfolding table_get
  lua_getglobal L key = table_get L L.globals key

  unfoldable pub lua_setfield : Bool → State → ℕ → ℕ → ℕ → Run State
  unfolding table_set bv_get_ptr
  lua_setfield alloc L table key value = table_set alloc L (bv_get_ptr table) key value

  unfoldable pub lua_getfield : State → ℕ → ℕ → Run ℕ
  unfolding table_get bv_get_ptr
  lua_getfield L table key = table_get L (bv_get_ptr table) key
