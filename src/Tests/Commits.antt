-- ===== src/Tests/Commits.antt =====
-- Three instructions, of which the last two are the body of a conditional or a loop with two
-- variables that are assigned in it.
use minilua.Common.{ℕ, ◌+◌, ◌-◌, ◌≤◌, ◌<◌, ◌≡◌, refl, ◌==◌, leb, if◌then◌else◌, [], done, arith}
use minilua.Rhhm.{null}
use minilua.Ir.{Ir, Tac}
use minilua.Ir.Ops.{ir_op_noop, ir_op_phi, ir_op_jz, ir_op_jmp, phi_cond, phi_do}
use minilua.Ir.Commit.{Commit, ir_phi_commit}
use minilua.Ir.Commit.Rounds.{with_target}
use minilua.Ir.Commit.Joins.{Carried, Ready, Closed, phi_commit_cond, phi_commit_loop}

abbrev loop_code : ℕ → Tac
loop_code k =
    if k == 102
    then record { op = ir_op_noop; a = 0; b = 0; target = 0 }
    else if leb 100 k
    then record { op = ir_op_phi; a = k - 95; b = k - 98; target = k - 98 }
    else if k == 2
    then record { op = ir_op_jmp; a = 2; b = 32768; target = 1 }
    else record { op = ir_op_jz; a = 3; b = 2; target = 3 }

abbrev with_type : ℕ → Ir
with_type type = record {
  ctt_map = null;
  ctts = [];
  ops = loop_code;
  size = 3;
  iv = 7;
  phi_join_pos = λ d. 1;
  phi_join_type = λ d. type;
  iphi = 100;
  phidepth = 1;
}

ready : (type : ℕ) → Ready (with_type type) 2
ready type = record {
  frame = record { entries = λ k ge lt. ground arith; mark = refl; inside = omega arith };
  outermost = refl;
  vars = λ k lt. (ground arith, ground arith);
  room = omega arith;
  numbers = omega arith;
}

phi_commit_cond_example :
    (s : Commit) × (ir_phi_commit (with_type phi_cond) (λ v. v) ≡ done (2, s))
    × Closed (with_type phi_cond) s.ir 2
    × ((k : ℕ) → k < 2 → s.ir.ops (3 + k) ≡ with_target (7 + k) (loop_code (100 + (2 - 1 - k))))
    × ((k : ℕ) → k < 3 → s.ir.ops k ≡ loop_code k)
phi_commit_cond_example = phi_commit_cond (with_type phi_cond) (λ v. v) 2 (ready phi_cond) refl

phi_commit_loop_example :
    (s : Commit) × (ir_phi_commit (with_type phi_do) (λ v. v) ≡ done (2, s))
    × Closed (with_type phi_do) s.ir 2
    × ((k : ℕ) → k < 1 → s.ir.ops k ≡ loop_code k)
    × ((k : ℕ) → k < 2 → s.ir.ops (1 + k) ≡ with_target (7 + k) (loop_code (100 + (2 - 1 - k))))
    × ((k : ℕ) → 1 ≤ k → k < 3 → Carried 2 loop_code 100 7 1 (loop_code k) (s.ir.ops (k + 2)))
phi_commit_loop_example =
    phi_commit_loop (with_type phi_do) (λ v. v) 2 (ready phi_do) (omega arith) (omega arith)
      (omega arith) (omega arith)
