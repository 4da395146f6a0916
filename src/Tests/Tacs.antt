-- ===== src/Tests/Tacs.antt =====
-- Three-address code.
use minilua.Common.{
  ◌⊎◌, if◌then◌else◌, ℕ, ◌+◌, ◌<◌, ◌≡◌, ◌≢◌, ◌≤◌, refl, Bool, true, ◌==◌, [], ◌∷◌, length, done,
  arith,
}
use minilua.Rhhm.{null}
use minilua.Lex.Codes.{lex_ne}
use minilua.Ir.{Tac, Ir, ir_init, ir_ctt, minus32, ir_phi_ins}
use minilua.Ir.Ops.{ir_op_noop, ir_op_lcopy, ir_op_jz, ir_op_phi}
use minilua.Ir.Intern.{Interned, Extends, ctt_at, init-Interned, ctt-Interned}
use minilua.Ir.Phi.{Frame, Replaced, Added, phi_ins-Frame}
use minilua.Ir.Peephole.{fuse}
use minilua.Ir.Peephole.Fuse.{compares, jumps, fuse_keeps}

abbrev pub raw : Ir
raw = record {
  ctt_map = null;
  ctts = 9 ∷ [];
  ops = λ i. record { op = 0; a = 0; b = 0; target = 0 };
  size = 3;
  iv = 4;
  phi_join_pos = λ i. 0;
  phi_join_type = λ i. 0;
  iphi = 5;
  phidepth = 6;
}

abbrev pub tbl_hash : ℕ → ℕ
tbl_hash p = p

ctt-Interned_example :
    (i : ℕ) × (c' : Ir) × (ir_ctt tbl_hash true (ir_init raw) 42 ≡ done (minus32 (i + 1), c'))
    × Interned tbl_hash c'
    × (i < length c'.ctts)
    × (ctt_at c'.ctts i ≡ 42)
    × Extends tbl_hash (ir_init raw).ctts c'.ctts 42
unfolding ir_init
ctt-Interned_example =
    ctt-Interned tbl_hash (ir_init raw) (init-Interned tbl_hash raw) (omega arith) 42

abbrev compare_code : Tac
compare_code = record { op = lex_ne; a = 1; b = 2; target = 7 }

abbrev branch_code : Tac
branch_code = record { op = ir_op_jz; a = 7; b = 0; target = 30 }

abbrev equal : ℕ → ℕ → Bool
equal a b = a == b

fuse_keeps_example :
    (jumps equal
        (fuse compare_code branch_code).1
        (compares equal (fuse compare_code branch_code).0 (λ v. true))
      ≡ jumps equal branch_code (compares equal compare_code (λ v. true)))
    × ((fuse compare_code branch_code).1.target ≡ 30)
    × ((v : ℕ)
        → v ≢ 7
        → compares equal (fuse compare_code branch_code).0 (λ v. true) v
          ≡ compares equal compare_code (λ v. true) v)
fuse_keeps_example = fuse_keeps equal compare_code branch_code (λ v. true)

abbrev add_code : Tac
add_code = record { op = b'+'; a = 1; b = 2; target = 7 }

abbrev copy_code : Tac
copy_code = record { op = ir_op_lcopy; a = 7; b = 0; target = 3 }

abbrev sums : ℕ → ℕ → ℕ → (ℕ → ℕ) → ℕ
sums op a b env = env a + env b

-- one entry for the variable 7 over the mark
abbrev framed : Ir
framed = record raw {
  ops = λ i. record {
    op = if i == 5 then ir_op_phi else if i == 6 then ir_op_noop else 0;
    a = 4;
    b = 7;
    target = 7;
  };
}

framed-Frame : Frame framed.ops 5 1
framed-Frame = record { entries = λ k ge lt. ground arith; mark = refl; inside = omega arith }

phi_ins-Frame_example :
    (c' : Ir) × (m : ℕ) × (ir_phi_ins framed 9 8 ≡ done (0, c'))
    × Frame c'.ops c'.iphi m
    × (Replaced framed c' 9 8 ⊎ Added framed c' 1 9 8)
    × (c'.iphi + m ≡ 6)
    × (m ≤ 2)
    × ((k : ℕ) → 6 ≤ k → c'.ops k ≡ framed.ops k)
phi_ins-Frame_example = phi_ins-Frame framed 1 9 8 framed-Frame (omega arith) (omega arith)
