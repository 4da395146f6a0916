-- ===== src/Tests/Heaps.antt =====
-- Two tables in a half with room for three; the first is the globals and has the second one as a
-- value.
use minilua.Common.{ℕ, ◌==◌, if◌then◌else◌, [], ◌∷◌}
use minilua.Rhhm.{Rhhm, ready, packed}
use minilua.Gc.{Object, live, State}
use minilua.Gc.Cheney.{Cheney}

abbrev second : ℕ
second = 0x7ffa000000001008

abbrev globals_map : Rhhm
globals_map = ready (record { cap = 1; hash = 7; table = record { value = second; key = 5 } ∷ [] })

abbrev objects : ℕ → Object
objects a = if a == 4096 then live globals_map else live (packed 18)

abbrev state : State
state = record {
  gc = record {
    from = 4096;
    to = 8192;
    cur = 4112;
    writer = 8192;
    reader = 8192;
    cap = 3;
    heap = objects;
  };
  globals = 4096;
  seed = 5381;
  stack = 3 ∷ second ∷ [];
}
