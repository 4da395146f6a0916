-- ===== src/Tests/Fields.antt =====
-- A field of the second table in a block.
use minilua.Common.{ℕ, ◌≡◌, ◌==◌, true, [], done, if◌then◌else◌, arith}
use minilua.Rhhm.{packed, bv_nil}
use minilua.Rhhm.Keys.{rhhm_bb_cmp}
use minilua.Gc.{State, live, lua_newtable}
use minilua.Gc.Tables.{lua_setfield, lua_getfield}
use minilua.Gc.Tables.Fields.{newtable-field}

abbrev one_table : State
one_table = record {
  gc = record {
    from = 4096;
    to = 8192;
    cur = 4104;
    writer = 8192;
    reader = 8192;
    cap = 2;
    heap = λ a. live (packed 18);
  };
  globals = 4096;
  seed = 5381;
  stack = [];
}

newtable-field_example :
    (t : ℕ) × (L₁ : State) × (L₂ : State) × (lua_newtable one_table ≡ done (t, L₁))
    × (lua_setfield (λ a. 0) true L₁ t 3 20 ≡ done L₂)
    × ((q : ℕ)
        → lua_getfield (λ a. 0) L₂ t q ≡ (if rhhm_bb_cmp 3 q == 0 then done 20 else done bv_nil))
newtable-field_example =
    newtable-field (λ a. 0) one_table 3 20 (omega arith) (omega arith) (omega arith) (omega arith)
