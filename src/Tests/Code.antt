-- ===== src/Tests/Code.antt =====
-- Code at the address 4096, in memory that holds 0 everywhere.
use minilua.Common.{ℕ, ◌+◌, refl, List, [], ◌∷◌, arith}
use minilua.Asm.{
  Cc, poke, store, bytes32, load32, cc_mcode, cc_mark, cc_fill_marks, cc_call, cc_jmp, cc_jz,
  cc_jnz, cc_mov_rr, cc_xor_rr, cc_cmp_rr, cc_test_rr,
}
use minilua.Asm.Branch.{Branches, call-Branches}
use minilua.Asm.Registers.{Encodes, registers_roundtrip}
use minilua.Asm.Marks.{Pending, Resolved, cc_mark-Pending, fill_marks-Resolved}
use minilua.Asm.{cc_subrsp, cc_addrsp, cc_mov_rs, cc_mov_sr}
use minilua.Asm.Stack.{Immediate, rsp-Immediate, MovesSlot, mov-MovesSlot}

abbrev start : Cc
start = record { p = 4096; mem = λ a. 0; op_addr = λ t. 5000 + t; fill = [] }

call-Branches_example :
    Branches start (cc_call 200 start) (232 ∷ []) 200
    × Branches start (cc_jmp 200 start) (233 ∷ []) 200
    × Branches start (cc_jz 200 start) (15 ∷ 132 ∷ []) 200
    × Branches start (cc_jnz 200 start) (15 ∷ 133 ∷ []) 200
call-Branches_example = call-Branches 200 start (omega arith)

registers_roundtrip_example :
    Encodes 137 start (cc_mov_rr 9 3 start) 9 3
    × Encodes 49 start (cc_xor_rr 9 3 start) 9 3
    × Encodes 57 start (cc_cmp_rr 9 3 start) 9 3
    × Encodes 133 start (cc_test_rr 9 3 start) 9 3
registers_roundtrip_example = registers_roundtrip 9 3 start (omega arith) (omega arith)

abbrev jump : List ℕ
jump = 233 ∷ 0 ∷ 0 ∷ 0 ∷ 0 ∷ []

cc_mark-Pending_example : Pending (cc_mark 7 (cc_mcode jump start)) (7 ∷ [])
cc_mark-Pending_example = cc_mark-Pending 7 jump start [] (omega arith) (omega arith) (omega arith)

-- two jumps, to the instructions 7 and 2 of the program
abbrev marked : Cc
marked = record {
  p = 4106;
  mem = store (store (λ a. 0) 4097 (bytes32 7)) 4102 (bytes32 2);
  op_addr = λ t. 5000 + t;
  fill = 4101 ∷ 4106 ∷ [];
}

fill_marks-Resolved_example :
    Resolved marked.op_addr (cc_fill_marks marked).mem marked.fill (7 ∷ 2 ∷ [])
unfolding load32 store poke bytes32
fill_marks-Resolved_example =
    fill_marks-Resolved marked (7 ∷ 2 ∷ []) (omega arith)
      (omega arith, refl, (omega arith, refl, omega arith))

-- -136
rsp-Immediate_example :
    Immediate start (cc_subrsp 4294967160 start) 236 4294967160
    × Immediate start (cc_addrsp 4294967160 start) 196 4294967160
rsp-Immediate_example = rsp-Immediate 4294967160 start (omega arith)

mov-MovesSlot_example :
    MovesSlot 139 start (cc_mov_rs 12 3 start) 12 24
    × MovesSlot 137 start (cc_mov_sr 3 12 start) 12 24
mov-MovesSlot_example = mov-MovesSlot 12 3 start (omega arith) (omega arith)
