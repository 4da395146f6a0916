-- ===== src/Lib.antt =====
-- miniLua: a small Lua that lexes and parses a text in one pass into three-address code, improves
-- that code, and compiles it to x86-64 machine code, with values in 64 bits and a hash map for
-- tables, globals, symbols, interned strings and constants.
--
-- The parts, and the files that model them:
--   * value.h, value.c: Value.antt (constants, boxes, tags), Value/Ops.antt (arithmetic and
--     comparison), with Value/Tags.antt and Value/Short.antt on the boxes. A `bv` is the number
--     that its 64 bits make; arithmetic of doubles is the record `Fpu`, the machine's and
--     `libm`'s.
--   * rhhm.h, rhhm.c: Rhhm.antt (`rhhm_init`, `rhhm_get`, `rhhm_set`), Rhhm/Remove.antt
--     (`rhhm_remove`, `rhhm_visit`), Rhhm/Keys.antt (`djb2`, hash and comparison of values),
--     Rhhm/Strings.antt (string keys of symbols: `hm_key_hash` to `rhhm_remove_str`). The word
--     `hm->data` is a packed capacity and hash, a table, or null. Rhhm/Robin.antt has the order of
--     the table; Ring, Place, Probe, Displace, Assign, Set, Get, Map and Init lead to what reads
--     give after writes.
--   * lex.h, lex.c: Lex.antt (`lex`), with Lex/Chars, Lex/Word and Lex/Codes. A text is the list
--     of its bytes before the NUL. Lex/Keywords, Lex/Names, Lex/Quotes and Lex/Progress are about
--     it.
--   * parser.h, parser.c: Parser.antt (the state, what a run comes to, the instructions emitted),
--     Parser/Scope.antt (scopes, symbols, frames of phi functions), Parser/Next.antt (`parser_next`,
--     `parser_expect`), Parser/Function.antt, Table.antt, Call.antt and Expr.antt (expressions),
--     Parser/Assignment.antt, If.antt, Loops.antt and Statement.antt (statements and chunks). The
--     functions that call one another back, `parse_expr`, `parse_chunk` and `parse_if`, are given to
--     the others by a record, `Grammar`, which `grammar` in Parser/Statement.antt makes by recursion.
--     The modules below Parser/Balance follow scopes and frames through all of them, for
--     Parser/Closed and Parser/Declares; Parser/Progress and Parser/Endless are about the reading of
--     tokens.
--   * string.h, string.c, `hm_sb_cmp` to `hm_sb_get_str` of rhhm.c and `lua_intern` of lapi.c:
--     Strings.antt, the pool of interned strings.
--   * ir.h, ir.c: Ir.antt (state, constants, instructions, `ir_phi_begin`, `ir_phi_ins`),
--     Ir/Ops.antt (codes), Ir/Fold.antt (`fold`), Ir/Peephole.antt (`ir_opt`); Ir/Phi is on
--     `ir_phi_ins`, Ir/Slots and Ir/Intern are on constants, the modules below Ir/Peephole on the
--     rewriting. The map of constants is an Rhhm map with value keys. Ir/Commit.antt is
--     `ir_phi_commit`, with its rounds in Commit/Rounds and the code it makes in Commit/Joins;
--     Ir/Elim.antt is `ir_phi_elim`.
--   * cc.c, the assembler: Asm.antt (`cc_init`, `cc_mov_rl` to `cc_divsd`, `cc_mark`, `cc_fill_marks`),
--     with Asm/Memory, Asm/Branch, Asm/Marks, Asm/Registers
--     and Asm/Stack.
--   * cc.c, the register allocator: Alloc.antt (`allocate`) and Alloc/Liveness.antt (`liveness`),
--     with the invariant of the scan in Alloc/Places and its steps in Take, Scan, Step and Loop.
--   * cc.c, the code generator: Gen.antt (`compile_chunk`, with the macros `LOAD` to
--     `SAVE_RESULT`), Gen/Places.antt (the frame); Gen/Code, Jumps, Emits, Chunk, Addresses and
--     Resolve are about the marks of forward jumps and the addresses that they lead to, from one
--     emitter to the whole chunk. Gen/Program.antt is
--     `compile`, over `ir_opt`, `ir_phi_elim`, `liveness` and `compile_chunk`.
--   * lapi.c, the collector: Gc.antt (`gc_init` to `lua_gc_impl`, `lua_newtable`, `lua_init_G`) and
--     Gc/Tables.antt (fields and globals), on which is Gc/Tables/Fields, and Gc/Library.antt
--     (`lua_register`, `lua_init`). The
--     heap gives the object at each address; one that has been moved holds the address of its copy.
--     `lua_gc`, the stub in env.asm, is taken for `lua_gc_impl`. Gc/Hearts counts what has been
--     moved, Gc/Follows says what a table becomes, Gc/Cheney has the invariant and Gc/Visits, Gc/Reach
--     and Gc/Collect the loops.
-- Common.antt passes on library names, arrays, Boolean tests, the laws of `&` and `|`, and `Run`:
-- a result, a fault (undefined behaviour or `abort`), or rounds that ran out. For the parser it is
-- `Parsed`, with `exit` and its own rounds told apart from those of the map. Tests.antt has the
-- theorems at concrete data.
--
-- Rounds: a probe of the map has as many as the table has slots, after which it would be where it
-- began; the displacing loop has one more, since each round but the last fills a slot;
-- `parser_next` has one more than the text has bytes, since each token takes one at least. The
-- loop of `ir_phi_ins` has the places up to the end of the array, and a fault behind them; the loop
-- that extends a live range has one more than the array of depths has places. The collector
-- reads at most as many objects as a half of its block has. The parser has as many rounds as it is
-- given, for the calls and for each loop; its text can end so that no rounds are enough.
--
-- Parameters: the hash and the comparison of a map (with the laws in `KeyLaws`), whether
-- `ML_MALLOC` finds memory, the arithmetic of doubles, what the compiler makes
-- of `isnan` (0 with the `-ffast-math` of the Makefile), the hash that a table has, and the bytes in
-- memory behind a string key; what the arrays of `liveness` hold before it, and the addresses of the
-- functions that compiled code calls; `strtod`, the addresses of string objects and of the buffers on
-- the stack, and the order in which the compiler evaluates arguments (`World`); the blocks that
-- `mmap` gives, and whether `mprotect` succeeds.
--
-- Not modelled: the rest of lapi.c (`gc_grow`, which nothing reaches, the functions of the library,
-- files), `rhhm_insert_cstr`, which nothing calls, the messages of `parser_expect`, the functions
-- that only free, minilua.c and printing (input and output), common.c (a clock), env.asm
-- (assembly); as.c, la.h, vec.h, munit.h, gc.c and hm.c, which the Makefile does not compile.
pub mod Alloc
pub mod Asm
pub mod Common
pub mod Gc
pub mod Gen
pub mod Ir
pub mod Lex
pub mod Parser
pub mod Rhhm
pub mod Strings
pub mod Tests
pub mod Value
