-- ===== src/Ir/Commit/Joins.antt =====
-- What a commit of the outermost frame makes of the code.
use native.Mathlib.Decide.{ℕ_discrete}
use minilua.Common.{
  ◌⊎◌, sym, subst, zero, suc, ◌%◌, if◌then◌else◌, ltb→lt, ltb→ge, ℕ, ◌+◌, ◌-◌, ◌*◌, ◌^◌, ◌≤◌, ◌<◌,
  ◌≡◌, ◌≢◌, refl, ◌∙◌, ap, Bool-cases, inl, inr, true, false, ◌==◌, ==_false, ltb, done, arith,
}
use minilua.Ir.{Ir, Tac, sext, ir_is_jmp}
use minilua.Ir.Ops.{ir_op_max, phi_cond, ir_op_noop, ir_op_call}
use minilua.Ir.Phi.{Frame}
use minilua.Ir.Commit.{
  Commit, replace_use, between, shift_jump, fix_jumps, move_block, commit_move, ir_phi_commit,
}
use minilua.Ir.Commit.Rounds.{phi_size-Frame, renames, with_target, Joined, commit_loop-Joined}

-- the code before the rounds
abbrev opened : Ir → (ℕ → ℕ) → ℕ → Commit
opened c assignment n = record {
  ir = record c { iphi = c.iphi + n + 1; phidepth = 0 };
  assignment = assignment;
}

-- the entries of a frame, whose operands are variables, with room for their code and variables
pub record Ready (c : Ir) (n : ℕ) : Type 0 where
  pub frame : Frame c.ops c.iphi n
  pub outermost : c.phidepth ≡ 1
  pub vars : (k : ℕ) → k < n → ((c.ops (c.iphi + k)).a < 32768) × ((c.ops (c.iphi + k)).b < 32768)
  pub room : c.size + n ≤ c.iphi
  pub numbers : c.iv + n ≤ 2 ^ 16

-- the frame is gone, and `n` variables and instructions came
pub record Closed (c c' : Ir) (n : ℕ) : Type 0 where
  pub iphi : c'.iphi ≡ c.iphi + n + 1
  pub phidepth : c'.phidepth ≡ 0
  pub size : c'.size ≡ c.size + n
  pub iv : c'.iv ≡ c.iv + n

commit_runs :
    (c : Ir) (assignment : ℕ → ℕ) (n : ℕ)
    → Ready c n
    → (s : Commit) × (ir_phi_commit c assignment
        ≡ commit_move (c.phi_join_type 1) (c.phi_join_pos 1) c.size n s)
      × Joined (c.phi_join_type 1) (c.phi_join_pos 1) c.size n c.iphi (opened c assignment n) s
unfolding ir_phi_commit
commit_runs c assignment n r =
    let frame = r.frame in
    let inside = frame.inside in
    let room = r.room in
    let numbers = r.numbers in
    let counted =
      phi_size-Frame (ir_op_max - c.iphi) n c.ops c.iphi (omega arith) frame.entries frame.mark in
    let (s, run, h) =
      commit_loop-Joined (c.phi_join_type 1) (c.phi_join_pos 1) c.size n c.iphi
        (opened c assignment n) refl numbers room (omega arith) (omega arith) r.vars in
    (s, rw (r.outermost, counted, run) refl, h)

closed :
    (c : Ir) (assignment : ℕ → ℕ) (n : ℕ) (s : Commit)
    → Joined (c.phi_join_type 1) (c.phi_join_pos 1) c.size n c.iphi (opened c assignment n) s
    → Closed c s.ir n
closed c assignment n s h = record {
  iphi = h.iphi;
  phidepth = h.phidepth;
  size = h.size;
  iv = h.iv;
}

-- At the end of a conditional, the entries of the outermost frame become the last instructions, the
-- topmost entry the first of them, each with a new variable; the code before stays as it is.
pub phi_commit_cond :
    (c : Ir) (assignment : ℕ → ℕ) (n : ℕ)
    → Ready c n
    → c.phi_join_type 1 ≡ phi_cond
    → (s : Commit) × (ir_phi_commit c assignment ≡ done (n, s))
      × Closed c s.ir n
      × ((k : ℕ)
          → k < n
          → s.ir.ops (c.size + k) ≡ with_target (c.iv + k) (c.ops (c.iphi + (n - 1 - k))))
      × ((k : ℕ) → k < c.size → s.ir.ops k ≡ c.ops k)
unfolding commit_move
phi_commit_cond c assignment n r cond =
    let (s, run, h) = commit_runs c assignment n r in
    let is : (c.phi_join_type 1 == phi_cond) ≡ true = rw cond in
    (
      s,
      run ∙ rw is refl,
      closed c assignment n s h,
      h.phis,
      λ k lt. elim (Bool-cases (between (c.phi_join_pos 1) c.size k)) [
        | inl inside ↦ h.body k (ground arith) lt ∙ rw is refl
        | inr out ↦ h.others k lt out
      ],
    )

module _ (joinpos until n : ℕ) (ops : ℕ → Tac) where
  abbrev moved : ℕ → Tac
  moved = move_block joinpos until n (fix_jumps joinpos until n ops)

  moved_before : (k : ℕ) → k < joinpos → moved k ≡ ops k
  unfolding move_block
  moved_before k lt =
      let head : between joinpos (joinpos + n) k ≡ false = ground arith in
      let block : between (joinpos + n) (until + 2 * n) k ≡ false = ground arith in
      let body : between joinpos until k ≡ false = ground arith in rw (head, block, body) refl

  moved_head : (k : ℕ) → joinpos ≤ until → k < n → moved (joinpos + k) ≡ ops (until + k)
  unfolding move_block
  moved_head k le lt =
      let head : between joinpos (joinpos + n) (joinpos + k) ≡ true = ground arith in
      let from : joinpos + k + n + (until - joinpos) ≡ until + k + n = omega arith in
      let block : between (joinpos + n) (until + 2 * n) (until + k + n) ≡ true = ground arith in
      let back : until + k + n - n ≡ until + k = omega arith in
      let body : between joinpos until (until + k) ≡ false = ground arith in
      rw (head, from, block, back, body) refl

  moved_body : (k : ℕ) → joinpos ≤ k → k < until → moved (k + n) ≡ shift_jump joinpos n (ops k)
  unfolding move_block
  moved_body k ge lt =
      let head : between joinpos (joinpos + n) (k + n) ≡ false = ground arith in
      let block : between (joinpos + n) (until + 2 * n) (k + n) ≡ true = ground arith in
      let back : k + n - n ≡ k = omega arith in
      let body : between joinpos until k ≡ true = ground arith in rw (head, block, back, body) refl

-- the variable that is used for the operand `x` after the entries `i + n - 1` down to `i`: each takes
-- over from its target with the next new variable, `nv` on
abbrev pub used_for : ℕ → (ℕ → Tac) → ℕ → ℕ → ℕ → ℕ
used_for zero ops i nv x = x
used_for (suc n) ops i nv x =
    used_for n ops i (nv + 1) (if sext x == (ops (i + n)).target then nv % 2 ^ 16 else x)

-- What an instruction of the body becomes: a no-op keeps its operands, a call the second one, which is
-- a count; all other operands are renamed. A jump beyond the start of the loop leads further by `n`.
pub record Carried (n : ℕ) (ops : ℕ → Tac) (i nv joinpos : ℕ) (t t' : Tac) : Type 0 where
  pub op : t'.op ≡ t.op
  pub a :
      ((t.op ≡ ir_op_noop) × (t'.a ≡ t.a))
      ⊎ ((t.op ≢ ir_op_noop) × (t'.a ≡ used_for n ops i nv t.a))
  pub b :
      (((t.op ≡ ir_op_noop) ⊎ (t.op ≡ ir_op_call)) × (t'.b ≡ t.b))
      ⊎ ((t.op ≢ ir_op_noop) × (t.op ≢ ir_op_call) × (t'.b ≡ used_for n ops i nv t.b))
  pub target :
      ((ir_is_jmp t.op ≡ true) × (joinpos < t.target) × (t'.target ≡ (t.target + n) % 2 ^ 16))
      ⊎ (((ir_is_jmp t.op ≡ false) ⊎ (t.target ≤ joinpos)) × (t'.target ≡ t.target))

replace_use-kept :
    (old nv : ℕ) (t : Tac)
    → ((replace_use old nv t).op ≡ t.op) × ((replace_use old nv t).target ≡ t.target)
unfolding replace_use
replace_use-kept old nv t = (ground arith, ground arith)

replace_use-noop : (old nv : ℕ) (t : Tac) → t.op ≡ ir_op_noop → replace_use old nv t ≡ t
unfolding replace_use
replace_use-noop old nv t e = rw e refl

replace_use-a :
    (old nv : ℕ) (t : Tac)
    → t.op ≢ ir_op_noop
    → (replace_use old nv t).a ≡ (if sext t.a == old then nv % 2 ^ 16 else t.a)
unfolding replace_use
replace_use-a old nv t full = ground arith

replace_use-b :
    (old nv : ℕ) (t : Tac)
    → t.op ≢ ir_op_noop
    → t.op ≢ ir_op_call
    → (replace_use old nv t).b ≡ (if sext t.b == old then nv % 2 ^ 16 else t.b)
unfolding replace_use
replace_use-b old nv t full plain = ground arith

replace_use-call : (old nv : ℕ) (t : Tac) → t.op ≡ ir_op_call → (replace_use old nv t).b ≡ t.b
unfolding replace_use
replace_use-call old nv t call = ground arith

module _ (ops : ℕ → Tac) (i : ℕ) where
  renames-kept :
      (n nv : ℕ) (t : Tac)
      → ((renames n ops i nv t).op ≡ t.op) × ((renames n ops i nv t).target ≡ t.target)
  unfolding renames
  renames-kept zero nv t = (refl, refl)
  renames-kept (suc n) nv t =
      let (o, l) = renames-kept n (nv + 1) (replace_use (ops (i + n)).target nv t) in
      let (o', l') = replace_use-kept (ops (i + n)).target nv t in (o ∙ o', l ∙ l')

  renames-noop : (n nv : ℕ) (t : Tac) → t.op ≡ ir_op_noop → renames n ops i nv t ≡ t
  unfolding renames
  renames-noop zero nv t e = refl
  renames-noop (suc n) nv t e =
      rw (replace_use-noop (ops (i + n)).target nv t e) (renames-noop n (nv + 1) t e)

  renames-a :
      (n nv : ℕ) (t : Tac) → t.op ≢ ir_op_noop → (renames n ops i nv t).a ≡ used_for n ops i nv t.a
  unfolding renames
  renames-a zero nv t full = refl
  renames-a (suc n) nv t full =
      let t' = replace_use (ops (i + n)).target nv t in
      let (o, _) = replace_use-kept (ops (i + n)).target nv t in
      renames-a n (nv + 1) t' (λ e. full (sym o ∙ e))
      ∙ ap (used_for n ops i (nv + 1)) (replace_use-a (ops (i + n)).target nv t full)

  renames-b :
      (n nv : ℕ) (t : Tac)
      → t.op ≢ ir_op_noop
      → t.op ≢ ir_op_call
      → (renames n ops i nv t).b ≡ used_for n ops i nv t.b
  unfolding renames
  renames-b zero nv t full plain = refl
  renames-b (suc n) nv t full plain =
      let t' = replace_use (ops (i + n)).target nv t in
      let (o, _) = replace_use-kept (ops (i + n)).target nv t in
      renames-b n (nv + 1) t' (λ e. full (sym o ∙ e)) (λ e. plain (sym o ∙ e))
      ∙ ap (used_for n ops i (nv + 1)) (replace_use-b (ops (i + n)).target nv t full plain)

  renames-call : (n nv : ℕ) (t : Tac) → t.op ≡ ir_op_call → (renames n ops i nv t).b ≡ t.b
  unfolding renames
  renames-call zero nv t call = refl
  renames-call (suc n) nv t call =
      let t' = replace_use (ops (i + n)).target nv t in
      let (o, _) = replace_use-kept (ops (i + n)).target nv t in
      renames-call n (nv + 1) t' (o ∙ call) ∙ replace_use-call (ops (i + n)).target nv t call

shift_jump-kept :
    (joinpos n : ℕ) (t : Tac)
    → ((shift_jump joinpos n t).op ≡ t.op)
      × ((shift_jump joinpos n t).a ≡ t.a)
      × ((shift_jump joinpos n t).b ≡ t.b)
unfolding shift_jump
shift_jump-kept joinpos n t = (ground arith, ground arith, ground arith)

shift_jump-target :
    (joinpos n : ℕ) (t : Tac)
    → ((ir_is_jmp t.op ≡ true)
        × (joinpos < t.target)
        × ((shift_jump joinpos n t).target ≡ (t.target + n) % 2 ^ 16))
      ⊎ (((ir_is_jmp t.op ≡ false) ⊎ (t.target ≤ joinpos))
          × ((shift_jump joinpos n t).target ≡ t.target))
unfolding shift_jump
shift_jump-target joinpos n t = elim (Bool-cases (ir_is_jmp t.op)) [
  | inr plain ↦ inr (inl plain, rw plain refl)
  | inl jump ↦ elim (Bool-cases (ltb joinpos t.target)) [
    | inl beyond ↦ inl (jump, ltb→lt _ _ beyond, rw (jump, beyond) refl)
    | inr before ↦ inr (inr (ltb→ge _ _ before), rw (jump, before) refl)
  ]
]

carried :
    (n : ℕ) (ops : ℕ → Tac) (i nv joinpos : ℕ) (t : Tac)
    → Carried n ops i nv joinpos t (shift_jump joinpos n (renames n ops i nv t))
unfolding renames
carried n ops i nv joinpos t =
    let t' = renames n ops i nv t in
    let (o, l) = renames-kept ops i n nv t in
    let (so, sa, sb) = shift_jump-kept joinpos n t' in
    record {
      op = so ∙ o;
      a = elim (ℕ_discrete t.op ir_op_noop) [
        | yes noop ↦ inl (noop, sa ∙ ap (λ (x : Tac). x.a) (renames-noop ops i n nv t noop))
        | no full ↦ inr (full, sa ∙ renames-a ops i n nv t full)
      ];
      b = elim (ℕ_discrete t.op ir_op_noop) [
        | yes noop ↦ inl (inl noop, sb ∙ ap (λ (x : Tac). x.b) (renames-noop ops i n nv t noop))
        | no full ↦ elim (ℕ_discrete t.op ir_op_call) [
          | yes call ↦ inl (inr call, sb ∙ renames-call ops i n nv t call)
          | no plain ↦ inr (full, plain, sb ∙ renames-b ops i n nv t full plain)
        ]
      ];
      target = rw (o, l) at (shift_jump-target joinpos n t');
    }

-- At the end of a loop, the entries of the outermost frame stand in front of its body, each with a
-- new variable. The body comes behind them: its instructions keep their codes; the operands that are
-- the target of an entry become its new variable, but for those of no-ops and the count of a call;
-- jumps that lead into the body or behind it lead further by the number of entries, those to its
-- start, which lead to the entries, and all others stay.
pub phi_commit_loop :
    (c : Ir) (assignment : ℕ → ℕ) (n : ℕ)
    → Ready c n
    → c.phi_join_type 1 ≢ phi_cond
    → 0 < n
    → c.phi_join_pos 1 ≤ c.size
    → c.size + 2 * n ≤ ir_op_max
    → (let joinpos = c.phi_join_pos 1 in
        (s : Commit) × (ir_phi_commit c assignment ≡ done (n, s))
        × Closed c s.ir n
        × ((k : ℕ) → k < joinpos → s.ir.ops k ≡ c.ops k)
        × ((k : ℕ)
            → k < n
            → s.ir.ops (joinpos + k) ≡ with_target (c.iv + k) (c.ops (c.iphi + (n - 1 - k))))
        × ((k : ℕ)
            → joinpos ≤ k
            → k < c.size
            → Carried n c.ops c.iphi c.iv joinpos (c.ops k) (s.ir.ops (k + n))))
unfolding commit_move
phi_commit_loop c assignment n r loop pos le room =
    let joinpos = c.phi_join_pos 1 in
    let (s, run, h) = commit_runs c assignment n r in
    let not_cond = ==_false (c.phi_join_type 1) phi_cond loop in
    let some : (n == 0) ≡ false = ground arith in
    let fits : ltb ir_op_max (c.size + 2 * n) ≡ false = ground arith in
    let ops = s.ir.ops in
    let done_code = move_block joinpos c.size n (fix_jumps joinpos c.size n ops) in
    let closes = closed c assignment n s h in
    (
      record s { ir = record s.ir { ops = done_code } },
      run ∙ rw (not_cond, some, fits) refl,
      record { iphi = closes.iphi; phidepth = closes.phidepth; size = closes.size; iv = closes.iv },
      λ k lt. moved_before joinpos c.size n ops k lt ∙ h.others k (omega arith) (ground arith),
      λ k lt. moved_head joinpos c.size n ops k le lt ∙ h.phis k lt,
      λ k ge lt.
          subst (Carried n c.ops c.iphi c.iv joinpos (c.ops k))
            (sym (
              moved_body joinpos c.size n ops k ge lt
              ∙ ap (shift_jump joinpos n) (rw not_cond at (h.body k ge lt))))
            (carried n c.ops c.iphi c.iv joinpos (c.ops k)),
    )
