-- ===== src/Parser/Balance/Code.antt =====
-- The steps that only read, or change the code, its constants or the array `assignment`: they stay
-- in the scope and the frame where they are.
use minilua.Common.{
  ℕ, ◌+◌, ◌≤◌, ◌≡◌, refl, ◌∙◌, sym, subst, Bool, true, false, ◌==◌, leb, if◌then◌else◌, length, Run,
  done, fault, stuck, ◌>>=◌,
}
use minilua.Rhhm.{rhhm_get, bv_nil}
use minilua.Rhhm.Keys.{rhhm_bb_hash, rhhm_bb_cmp}
use minilua.Ir.{
  Ir, PhiEntry, found, missing, ir_op, ir_newvar, ir_ctt, ctt_push, ir_phi_ins, phi_put,
}
use minilua.Strings.{lua_intern}
use minilua.Parser.{
  Parser, World, on_ir, emit, newvar, ctt, ctt_string, assign, assigned, set_target, bytes,
}
use minilua.Parser.Balance.{Stack, Level, Stays, Leaves, left, faulted, looped, run-Moves}

-- The code that a run leaves has `d` frames.
abbrev pub InFrame : {A : Type 0} → ℕ → Run (A × Ir) → Type 0
InFrame d r = Leaves (λ c. c.phidepth ≡ d) r

-- whatever the first part of a run gives
pub leaves-bind :
    {X A S : Type 0} {Q : S → Type 0} (r : Run X) {f : X → Run (A × S)}
    → ((x : X) → Leaves Q (f x))
    → Leaves Q (r >>= f)
leaves-bind (done x) h = h x
leaves-bind fault h = faulted
leaves-bind stuck h = looped

pub leaves-then :
    {X A S T : Type 0} {Q : S → Type 0} {R : T → Type 0} {r : Run (X × T)} (f : X × T → Run (A × S))
    → Leaves R r
    → ((x : X) (t : T) → R t → Leaves Q (f (x, t)))
    → Leaves Q (r >>= f)
leaves-then f (left e) h = h _ _ e
leaves-then f faulted h = faulted
leaves-then f looped h = looped

pub leaves-if :
    {A S : Type 0} {Q : S → Type 0} (b : Bool) {x y : Run (A × S)}
    → Leaves Q x
    → Leaves Q y
    → Leaves Q (if b then x else y)
leaves-if true hx hy = hx
leaves-if false hx hy = hy

pub newvar_keeps : (c : Ir) → InFrame c.phidepth (done (ir_newvar c))
unfolding ir_newvar
newvar_keeps c = left refl

pub op_keeps : (c : Ir) (op a b t : ℕ) → InFrame c.phidepth (ir_op c op a b t)
unfolding ir_op
op_keeps c op a b t = leaves-if (c.size == 65536) faulted (left refl)

ctt_push_keeps :
    (tbl_hash : ℕ → ℕ) (alloc : Bool) (c : Ir) (v : ℕ)
    → InFrame c.phidepth (ctt_push tbl_hash alloc c v)
unfolding ctt_push
ctt_push_keeps tbl_hash alloc c v = leaves-bind _ (λ map. left refl)

pub ctt_keeps :
    (tbl_hash : ℕ → ℕ) (alloc : Bool) (c : Ir) (v : ℕ)
    → InFrame c.phidepth (ir_ctt tbl_hash alloc c v)
unfolding ir_ctt
ctt_keeps tbl_hash alloc c v = leaves-if (length c.ctts == 4096) faulted (
    leaves-bind (rhhm_get (rhhm_bb_hash tbl_hash) rhhm_bb_cmp c.ctt_map v)
      (λ idx. leaves-if (idx == bv_nil) (ctt_push_keeps tbl_hash alloc c v) (left refl)))

phi_put_keeps : (c : Ir) (val old : ℕ) (e : PhiEntry) → InFrame c.phidepth (phi_put c val old e)
unfolding phi_put
phi_put_keeps c val old (found i) = left refl
phi_put_keeps c val old missing = leaves-if (c.iphi == 0) faulted (left refl)

pub phi_ins_keeps : (c : Ir) (val old : ℕ) → InFrame c.phidepth (ir_phi_ins c val old)
unfolding ir_phi_ins
phi_ins_keeps c val old =
    leaves-if (c.phidepth == 0) (left refl) (leaves-bind _ (phi_put_keeps c val old))

-- a level, where depth, stack and number of frames are as they were
pub same-Level :
    {base : Parser} {i k : ℕ} {p : Parser} (p' : Parser)
    → Level base i k p
    → p'.depth ≡ p.depth
    → p'.scope ≡ p.scope
    → p'.cdepth ≡ p.cdepth
    → p'.c.phidepth ≡ p.c.phidepth
    → Level base i k p'
same-Level {base} {i} {k} p' lv d s cd ph = record {
  depth = d ∙ lv.depth;
  stack = subst (Stack base.scope i) (sym s) lv.stack;
  frames = subst (λ n. base.cdepth + k ≤ n) (sym cd) lv.frames;
  in_step = cd ∙ lv.in_step ∙ sym ph;
}

module _ {base : Parser} where
  pub on_ir-Moves :
      {A : Type 0} (f : Ir → Run (A × Ir))
      → ((c : Ir) → InFrame c.phidepth (f c))
      → Stays base (on_ir f)
  unfolding on_ir
  on_ir-Moves f h i k = run-Moves _ (λ p lv.
      leaves-then _ (h p.c) (λ a c e. left (same-Level (record p { c = c }) lv refl refl refl e)))

  pub emit-Moves : (op a b t : ℕ) → Stays base (emit op a b t)
  unfolding emit
  emit-Moves op a b t = on_ir-Moves _ (λ c. op_keeps c op _ _ _)

  pub newvar-Moves : Stays base newvar
  unfolding newvar
  newvar-Moves = on_ir-Moves _ newvar_keeps

  pub ctt-Moves : (w : World) (v : ℕ) → Stays base (ctt w v)
  unfolding ctt
  ctt-Moves w v = on_ir-Moves _ (λ c. ctt_keeps w.tbl_hash w.has_memory c v)

  pub assign-Moves : (v x : ℕ) → Stays base (assign v x)
  unfolding assign
  assign-Moves v x i k =
      run-Moves _
        (λ p lv. leaves-if (leb 65536 v) faulted (left (same-Level _ lv refl refl refl refl)))

  pub assigned-Moves : (v : ℕ) → Stays base (assigned v)
  unfolding assigned
  assigned-Moves v i k = run-Moves _ (λ p lv. leaves-if (leb 65536 v) faulted (left lv))

  pub set_target-Moves : (v x : ℕ) → Stays base (set_target v x)
  unfolding set_target
  set_target-Moves v x = on_ir-Moves _ (λ c. leaves-if (leb 65536 v) faulted (left refl))

  pub ctt_string-Moves : (w : World) (s n : ℕ) → Stays base (ctt_string w s n)
  unfolding ctt_string
  ctt_string-Moves w s n i k = run-Moves _ (λ p lv. leaves-bind (bytes p s n) (λ str.
      leaves-bind (lua_intern w.heap p.pool str) (λ r.
        leaves-then (λ x. done (x.0, record p { pool = r.1; c = x.1 }))
          (ctt_keeps w.tbl_hash w.has_memory p.c r.0)
          (λ n c e. left (same-Level (record p { pool = r.1; c = c }) lv refl refl refl e)))))
