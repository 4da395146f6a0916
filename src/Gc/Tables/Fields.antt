-- ===== src/Gc/Tables/Fields.antt =====
-- A field of a new table is read back.
use minilua.Common.{
  ℕ, ◌+◌, ◌*◌, ◌^◌, ◌<◌, ◌≡◌, ◌≢◌, refl, ◌∙◌, ap, true, false, ◌==◌, ==_false, if◌then◌else◌, done,
  Option, some, arith,
}
use minilua.Value.{bv_get_ptr, bv_get_tbl, bv_make_tbl}
use minilua.Value.Tags.{box_roundtrip}
use minilua.Rhhm.{Rhhm, bv_none, bv_nil, rhhm_init, rhhm_get, rhhm_set}
use minilua.Rhhm.Init.{init-set}
use minilua.Rhhm.Keys.{rhhm_bb_hash, rhhm_bb_cmp, bb-KeyLaws}
use minilua.Gc.{live, State, Gc, put, gc_new, init_table, next_seed, lua_newtable}
use minilua.Gc.Hearts.{put_same}
use minilua.Gc.Tables.{table_set, table_get, lua_setfield, lua_getfield}

get_ptr-make_tbl : (p : ℕ) → p < 2 ^ 48 → bv_get_ptr (bv_make_tbl p) ≡ p
unfolding bv_get_ptr bv_get_tbl
get_ptr-make_tbl p lt = (box_roundtrip p lt).1.0

abbrev with_map : State → ℕ → Rhhm → State
with_map L t h = record L { gc = record L.gc { heap = put L.gc.heap t (live h) } }

table_set-live :
    (tbl_hash : ℕ → ℕ) (L : State) (t k v : ℕ) (h h' : Rhhm)
    → L.gc.heap t ≡ live h
    → rhhm_set (rhhm_bb_hash tbl_hash) rhhm_bb_cmp true h k v ≡ done h'
    → table_set tbl_hash true L t k v ≡ done (with_map L t h')
unfolding table_set
table_set-live tbl_hash L t k v h h' e run = rw (e, run) refl

table_get-live :
    (tbl_hash : ℕ → ℕ) (L : State) (t k : ℕ) (h : Rhhm)
    → L.gc.heap t ≡ live h
    → table_get tbl_hash L t k ≡ rhhm_get (rhhm_bb_hash tbl_hash) rhhm_bb_cmp h k
unfolding table_get
table_get-live tbl_hash L t k h e = rw e refl

gc_new-room :
    (gc : Gc)
    → (gc.cur == gc.from + 8 * gc.cap) ≡ false
    → gc_new gc ≡ (some gc.cur, record gc { cur = gc.cur + 8 })
unfolding gc_new
gc_new-room gc free = rw free refl

newtable-room :
    (L : State)
    → (L.gc.cur == L.gc.from + 8 * L.gc.cap) ≡ false
    → lua_newtable L
      ≡ done (
        bv_make_tbl L.gc.cur,
        init_table (record L { gc = record L.gc { cur = L.gc.cur + 8 } }) L.gc.cur 16,
      )
unfolding lua_newtable
newtable-room L free =
    let new = gc_new-room L.gc free in
    rw (lua_newtable, new)
      (ap
        (λ (r : Option ℕ × Gc).
          done (bv_make_tbl L.gc.cur, init_table (record L { gc = r.1 }) L.gc.cur 16))
        new)

heap-init_table :
    (L : State) (t length : ℕ)
    → (init_table L t length).gc.heap t ≡ live (rhhm_init length (next_seed L.seed t))
unfolding init_table
heap-init_table L t length = put_same L.gc.heap t (live (rhhm_init length (next_seed L.seed t)))

-- While there is room, `lua_newtable` gives a table, the first field can be set in it, and
-- `lua_getfield` then gives the value for the keys equal to its key, and nil for all others.
pub newtable-field :
    (tbl_hash : ℕ → ℕ) (L : State) (key value : ℕ)
    → L.gc.cur ≢ L.gc.from + 8 * L.gc.cap
    → L.gc.cur < 2 ^ 48
    → value ≢ bv_none
    → value ≢ bv_nil
    → (t : ℕ) × (L₁ : State) × (L₂ : State) × (lua_newtable L ≡ done (t, L₁))
      × (lua_setfield tbl_hash true L₁ t key value ≡ done L₂)
      × ((q : ℕ)
          → lua_getfield tbl_hash L₂ t q
            ≡ (if rhhm_bb_cmp key q == 0 then done value else done bv_nil))
unfolding lua_setfield lua_getfield
newtable-field tbl_hash L key value room small solid not_nil =
    let a = L.gc.cur in
    let free = ==_false a (L.gc.from + 8 * L.gc.cap) room in
    let hash = next_seed L.seed a in
    let L₁ = init_table (record L { gc = record L.gc { cur = a + 8 } }) a 16 in
    let here = get_ptr-make_tbl a small in
    let (hm, run, reads) =
      init-set (rhhm_bb_hash tbl_hash) rhhm_bb_cmp (bb-KeyLaws tbl_hash) 16 hash 4 refl refl
        (omega arith) (omega arith) key value solid not_nil in
    let moved = record L { gc = record L.gc { cur = a + 8 } } in
    (
      bv_make_tbl a,
      L₁,
      with_map L₁ a hm,
      newtable-room L free,
      ap (λ p. table_set tbl_hash true L₁ p key value) here
          ∙ table_set-live tbl_hash L₁ a key value (rhhm_init 16 hash) hm
              (heap-init_table moved a 16) run,
      λ q.
          ap (λ p. table_get tbl_hash (with_map L₁ a hm) p q) here
          ∙ table_get-live tbl_hash (with_map L₁ a hm) a q hm (put_same L₁.gc.heap a (live hm))
          ∙ reads q,
    )
