-- ===== src/Parser/Balance/Frames.antt =====
-- The frames of phi functions: one more after `ir_phi_begin`, one less after `ir_phi_commit`.
use minilua.Common.{
  ℕ, zero, suc, ◌+◌, ◌-◌, ◌*◌, ◌≡◌, refl, ◌∙◌, sym, ap, subst, Bool, true, false, ◌==◌, leb, ltb,
  ◌||◌, if◌then◌else◌, Run, done, fault, stuck, ◌>>=◌, arith,
}
use minilua.Ir.{write, Ir, ir_phi_begin, ir_newvar, ir_phi_ins}
use minilua.Ir.Commit.{
  Commit, ir_phi_commit, commit_loop, commit_round, commit_outer, commit_move, phi_size,
  replace_uses, upd,
}
use minilua.Ir.Ops.{phi_cond}
use minilua.Parser.{Parser}
use minilua.Parser.Scope.{parser_phi_begin, parser_phi_commit}
use minilua.Parser.Balance.{Moves, Leaves, left, faulted, looped, run-Moves}
use minilua.Parser.Balance.Code.{leaves-bind, leaves-then, leaves-if, phi_ins_keeps, InFrame}

begin_lem :
    (c : Ir) (type : ℕ) → Leaves {A = ℕ} (λ c'. c'.phidepth ≡ c.phidepth + 1) (ir_phi_begin c type)
unfolding ir_phi_begin
begin_lem c type = leaves-if (c.iphi == 0 || leb 128 (c.phidepth + 1)) faulted (left refl)

-- the rounds of a commit add no frame
abbrev Kept : ℕ → Run Commit → Type 0
Kept d (done s) = s.ir.phidepth ≡ d
Kept d fault = Unit
Kept d stuck = Unit

Kept-if : (d : ℕ) (b : Bool) (r : Run Commit) → Kept d r → Kept d (if b then fault else r)
Kept-if d true r e = tt
Kept-if d false r e = e

Kept-bind :
    (d : ℕ) (r : Run Commit) (f : Commit → Run Commit)
    → Kept d r
    → ((s : Commit) → s.ir.phidepth ≡ d → Kept d (f s))
    → Kept d (r >>= f)
Kept-bind d (done s) f e h = h s e
Kept-bind d fault f e h = tt
Kept-bind d stuck f e h = tt

outer_keeps :
    (c : Ir) (nv old : ℕ) (f : Ir → Commit)
    → ((c' : Ir) → (f c').ir ≡ c')
    → Kept c.phidepth (commit_outer c nv old >>= λ c'. done (f c'))
unfolding commit_outer
outer_keeps c nv old f h = first (c.phidepth == 0) (ir_phi_ins c nv old) (phi_ins_keeps c nv old)
  where
    first :
        (b : Bool) (r : Run (ℕ × Ir))
        → InFrame c.phidepth r
        → Kept c.phidepth ((if b then done c else (r >>= λ x. done x.1)) >>= λ c'. done (f c'))
    first true r e = ap (λ (c' : Ir). c'.phidepth) (h c)
    first false (done (n, c')) (left e) = ap (λ (x : Ir). x.phidepth) (h c') ∙ e
    first false _ faulted = tt
    first false _ looped = tt

round_keeps :
    (jointype joinpos until j : ℕ) (s : Commit)
    → Kept s.ir.phidepth (commit_round jointype joinpos until j s)
unfolding commit_round ir_newvar
round_keeps jointype joinpos until j s =
    let c = s.ir in
    let t = c.ops j in
    let nv = c.iv in
    let ops =
      (if jointype == phi_cond then c.ops else replace_uses joinpos until t.target nv c.ops) in
    let phi = record (ops j) { target = nv } in
    let c₂ = record c {
      iv = c.iv + 1;
      ops = write (write ops j phi) c.size phi;
      size = c.size + 1;
    } in
    let assignment =
      upd (upd (upd (upd s.assignment nv (s.assignment t.target)) t.target nv) t.a nv) t.b nv in
    Kept-if _ (leb 32768 t.a || leb 32768 t.b || leb 65536 c.iv || leb 65536 c.size) _
      (outer_keeps c₂ nv t.target (λ c'. record { ir = c'; assignment = assignment }) (λ c'. refl))

loop_keeps :
    (n jointype joinpos until i d : ℕ) (s : Commit)
    → s.ir.phidepth ≡ d
    → Kept d (commit_loop n jointype joinpos until i s)
unfolding commit_loop
loop_keeps zero jointype joinpos until i d s e = e
loop_keeps (suc n) jointype joinpos until i d s e =
    Kept-bind d (commit_round jointype joinpos until (i + n) s) _
      (subst (λ x. Kept x (commit_round jointype joinpos until (i + n) s)) e
        (round_keeps jointype joinpos until (i + n) s))
      (λ s' e'. loop_keeps n jointype joinpos until i d s' e')

move_keeps :
    (jointype joinpos until shift : ℕ) (s : Commit)
    → Leaves (λ s'. s'.ir.phidepth ≡ s.ir.phidepth) (commit_move jointype joinpos until shift s)
unfolding commit_move
move_keeps jointype joinpos until shift s =
    leaves-if (jointype == 0 || shift == 0) (left refl)
      (leaves-if (ltb 65536 (until + 2 * shift)) faulted (left refl))

moved :
    (jointype joinpos until shift d : ℕ) (r : Run Commit)
    → Kept d r
    → Leaves (λ s. s.ir.phidepth ≡ d) (r >>= commit_move jointype joinpos until shift)
moved jointype joinpos until shift d (done s) e =
    subst (λ n. Leaves (λ s'. s'.ir.phidepth ≡ n) (commit_move jointype joinpos until shift s)) e
      (move_keeps jointype joinpos until shift s)
moved jointype joinpos until shift d fault e = faulted
moved jointype joinpos until shift d stuck e = looped

-- A commit takes one frame, of those that there are.
abbrev Shallower : ℕ → Commit → Type 0
Shallower d s = d ≡ s.ir.phidepth + 1

guarded :
    {A S : Type 0} {Q : S → Type 0} (b : Bool) {r : Run (A × S)}
    → (b ≡ false → Leaves Q r)
    → Leaves Q (if b then fault else r)
guarded true h = faulted
guarded false h = h refl

leaves-more :
    {A S : Type 0} {Q R : S → Type 0} {r : Run (A × S)}
    → Leaves Q r
    → ((x : S) → Q x → R x)
    → Leaves R r
leaves-more (left e) h = left (h _ e)
leaves-more faulted h = faulted
leaves-more looped h = looped

commit_lem :
    (c : Ir) (assignment : ℕ → ℕ) → Leaves (Shallower c.phidepth) (ir_phi_commit c assignment)
unfolding ir_phi_commit
commit_lem c assignment = guarded (c.phidepth == 0) (λ some_frame.
    leaves-bind (phi_size (65536 - c.iphi) c.ops c.iphi) (λ shift.
      leaves-more
        (moved _ _ _ shift (c.phidepth - 1) _ (loop_keeps shift _ _ _ _ (c.phidepth - 1) _ refl))
        (λ s e. ground arith)))

module _ {base : Parser} where
  pub parser_phi_begin-Moves :
      (type i k : ℕ) → Moves base (Unit {0}) i k i (suc k) (parser_phi_begin type)
  unfolding parser_phi_begin
  parser_phi_begin-Moves type i k = run-Moves _ (λ p lv.
      leaves-then (λ x. done (tt, record p { c = x.1; cdepth = p.cdepth + 1 })) (begin_lem p.c type)
        (λ depth c e. left (record {
          depth = lv.depth;
          stack = lv.stack;
          frames = (let fr = lv.frames in omega arith);
          in_step = ap (λ (n : ℕ). n + 1) lv.in_step ∙ sym e;
        })))

  pub parser_phi_commit-Moves : (i k : ℕ) → Moves base ℕ i (suc k) i k parser_phi_commit
  unfolding parser_phi_commit
  parser_phi_commit-Moves i k = run-Moves _ (λ p lv.
      leaves-then
        (λ x.
          done (x.0, record p { cdepth = p.cdepth - 1; c = x.1.ir; assignment = x.1.assignment }))
        (commit_lem p.c p.assignment)
        (λ shift s e. left (record {
          depth = lv.depth;
          stack = lv.stack;
          frames = (let fr = lv.frames in omega arith);
          in_step = (let st = lv.in_step in omega arith);
        })))
