-- ===== src/Ir/Commit/Rounds.antt =====
-- What the rounds of `ir_phi_commit` do: each entry is pushed with a variable of its own, and the
-- code of a loop uses that variable for the old one.
use minilua.Common.{
  ℕ, zero, suc, ◌+◌, ◌-◌, ◌^◌, ◌≤◌, ◌<◌, ◌≡◌, ◌≢◌, refl, ◌∙◌, ap, Bool-cases, inl, inr, true, false,
  ◌||◌, ◌==◌, ==_refl, ==_false, leb, if◌then◌else◌, done, arith,
}
use minilua.Ir.{Tac, write, ir_newvar}
use minilua.Ir.Ops.{ir_op_noop, ir_op_max, phi_cond}
use minilua.Ir.Commit.{
  Commit, phi_size, replace_use, replace_uses, between, upd, commit_outer, commit_round,
  commit_loop,
}

pub phi_size-Frame :
    (fuel n : ℕ) (ops : ℕ → Tac) (i : ℕ)
    → n < fuel
    → ((k : ℕ) → i ≤ k → k < i + n → (ops k).op ≢ ir_op_noop)
    → (ops (i + n)).op ≡ ir_op_noop
    → phi_size fuel ops i ≡ done n
unfolding phi_size
phi_size-Frame zero n ops i lt full mark = elim lt [ ]
phi_size-Frame (suc fuel) zero ops i lt full mark =
    let here : (ops i).op ≡ ir_op_noop = ap (λ k. (ops k).op) (omega arith) ∙ mark in rw here
phi_size-Frame (suc fuel) (suc n) ops i lt full mark =
    let here : ((ops i).op == ir_op_noop) ≡ false =
      ==_false _ _ (full i (omega arith) (omega arith)) in
    let end : (ops (i + 1 + n)).op ≡ ir_op_noop = ap (λ k. (ops k).op) (omega arith) ∙ mark in
    let rest =
      phi_size-Frame fuel n ops (i + 1) (omega arith)
        (λ k ge below. full k (omega arith) (omega arith)) end in
    rw (here, rest) (ap done (omega arith))

-- the code of a loop after the entries `i` up to `i + n - 1`, whose new variables start with `nv`
unfoldable pub renames : ℕ → (ℕ → Tac) → ℕ → ℕ → Tac → Tac
renames zero ops i nv t = t
renames (suc n) ops i nv t = renames n ops i (nv + 1) (replace_use (ops (i + n)).target nv t)

renames-cong :
    (n : ℕ) (ops ops' : ℕ → Tac) (i nv : ℕ) (t : Tac)
    → ((k : ℕ) → k < n → ops (i + k) ≡ ops' (i + k))
    → renames n ops i nv t ≡ renames n ops' i nv t
unfolding renames
renames-cong zero ops ops' i nv t same = refl
renames-cong (suc n) ops ops' i nv t same =
    rw (same n (omega arith)) (renames-cong n ops ops' i (nv + 1) _ (λ k lt. same k (omega arith)))

abbrev pub with_target : ℕ → Tac → Tac
with_target v t = record t { target = v }

module _ (jointype joinpos until : ℕ) where
  -- the code that the new variable is used in
  abbrev kept : ℕ → ℕ → (ℕ → Tac) → ℕ → Tac
  kept old nv ops = if jointype == phi_cond then ops else replace_uses joinpos until old nv ops

  -- an instruction of the code, after all rounds
  abbrev pub renamed : ℕ → (ℕ → Tac) → ℕ → ℕ → Tac → Tac
  renamed n ops i nv t = if jointype == phi_cond then t else renames n ops i nv t

  renamed-cong :
      (n : ℕ) (ops ops' : ℕ → Tac) (i nv : ℕ) (t : Tac)
      → ((k : ℕ) → k < n → ops (i + k) ≡ ops' (i + k))
      → renamed n ops i nv t ≡ renamed n ops' i nv t
  renamed-cong n ops ops' i nv t same = elim (Bool-cases (jointype == phi_cond)) [
    | inl cond ↦ rw cond
    | inr loop ↦ rw loop (renames-cong n ops ops' i nv t same)
  ]

  kept_outside :
      (old nv : ℕ) (ops : ℕ → Tac) (k : ℕ)
      → between joinpos until k ≡ false
      → kept old nv ops k ≡ ops k
  unfolding replace_uses
  kept_outside old nv ops k out = elim (Bool-cases (jointype == phi_cond)) [
    | inl cond ↦ rw cond
    | inr loop ↦ rw (loop, out)
  ]

  -- what `n` rounds over the entries from `i` on make of `s`
  pub record Joined (n i : ℕ) (s s' : Commit) : Type 0 where
    pub iv : s'.ir.iv ≡ s.ir.iv + n
    pub size : s'.ir.size ≡ s.ir.size + n
    pub iphi : s'.ir.iphi ≡ s.ir.iphi
    pub phidepth : s'.ir.phidepth ≡ s.ir.phidepth
    pub phis :
        (k : ℕ)
        → k < n
        → s'.ir.ops (s.ir.size + k) ≡ with_target (s.ir.iv + k) (s.ir.ops (i + (n - 1 - k)))
    pub body :
        (k : ℕ) → joinpos ≤ k → k < until → s'.ir.ops k ≡ renamed n s.ir.ops i s.ir.iv (s.ir.ops k)
    pub others :
        (k : ℕ) → k < s.ir.size → between joinpos until k ≡ false → s'.ir.ops k ≡ s.ir.ops k

  -- the state after one round
  abbrev rounded : ℕ → Commit → Commit
  rounded j s =
      let c = s.ir in
      let t = c.ops j in
      let phi = record (kept t.target c.iv c.ops j) { target = c.iv } in
      record {
        ir = record c {
          iv = c.iv + 1;
          ops = write (write (kept t.target c.iv c.ops) j phi) c.size phi;
          size = c.size + 1;
        };
        assignment =
            upd (upd (upd (upd s.assignment c.iv (s.assignment t.target)) t.target c.iv) t.a c.iv)
              t.b c.iv;
      }

  round_lem :
      (j : ℕ) (s : Commit)
      → s.ir.phidepth ≡ 0
      → (s.ir.ops j).a < 32768
      → (s.ir.ops j).b < 32768
      → s.ir.iv < ir_op_max
      → s.ir.size < ir_op_max
      → commit_round jointype joinpos until j s ≡ done (rounded j s)
  unfolding commit_round commit_outer ir_newvar
  round_lem j s outer a b iv size =
      let fits : (leb 32768 (s.ir.ops j).a
            || leb 32768 (s.ir.ops j).b
            || leb ir_op_max s.ir.iv
            || leb ir_op_max s.ir.size)
          ≡ false =
        ground arith in
      rw (fits, outer) refl

  beyond : (k : ℕ) → until ≤ k → between joinpos until k ≡ false
  beyond k ge = ground arith

  module _ (j : ℕ) (s : Commit) (inside : s.ir.size < j) (le : until ≤ s.ir.size) where
    rounded_kept :
        (k : ℕ)
        → k ≢ s.ir.size
        → k ≢ j
        → (rounded j s).ir.ops k ≡ kept (s.ir.ops j).target s.ir.iv s.ir.ops k
    rounded_kept k size other = rw (==_false k s.ir.size size, ==_false k j other) refl

    rounded_same :
        (k : ℕ)
        → k ≢ s.ir.size
        → k ≢ j
        → between joinpos until k ≡ false
        → (rounded j s).ir.ops k ≡ s.ir.ops k
    rounded_same k size other out = rounded_kept k size other ∙ kept_outside _ _ s.ir.ops k out

    rounded_new : (rounded j s).ir.ops s.ir.size ≡ with_target s.ir.iv (s.ir.ops j)
    rounded_new = rw (==_refl s.ir.size) (
        ap (with_target s.ir.iv)
          (kept_outside (s.ir.ops j).target s.ir.iv s.ir.ops j (beyond j (omega arith))))

  module _ (n i : ℕ) (s s' : Commit) (room : s.ir.size + suc n ≤ i) (le : until ≤ s.ir.size)
      (h : Joined n i (rounded (i + n) s) s') where
    next-phis :
        (k : ℕ)
        → k < suc n
        → s'.ir.ops (s.ir.size + k) ≡ with_target (s.ir.iv + k) (s.ir.ops (i + (suc n - 1 - k)))
    next-phis zero lt =
        ap s'.ir.ops (omega arith)
        ∙ h.others s.ir.size (omega arith) (beyond s.ir.size le)
        ∙ rounded_new (i + n) s (omega arith) le
        ∙ ap (λ v. with_target v (s.ir.ops (i + n))) (omega arith)
        ∙ ap (λ j. with_target (s.ir.iv + 0) (s.ir.ops j)) (omega arith)
    next-phis (suc k) lt =
        let index : i + (n - 1 - k) ≡ i + (suc n - 1 - suc k) = omega arith in
        let number : s.ir.iv + 1 + k ≡ s.ir.iv + suc k = omega arith in
        let entry =
          rounded_same (i + n) s (omega arith) le (i + (n - 1 - k)) (omega arith) (omega arith)
            (beyond _ (omega arith)) in
        ap s'.ir.ops (omega arith)
        ∙ h.phis k (omega arith)
        ∙ ap (with_target (s.ir.iv + 1 + k)) (entry ∙ ap s.ir.ops index)
        ∙ ap (λ v. with_target v (s.ir.ops (i + (suc n - 1 - suc k)))) number

    next-others :
        (k : ℕ) → k < s.ir.size → between joinpos until k ≡ false → s'.ir.ops k ≡ s.ir.ops k
    next-others k lt out =
        h.others k (omega arith) out
        ∙ rounded_same (i + n) s (omega arith) le k (omega arith) (omega arith) out

    renamed-next :
        (k : ℕ)
        → between joinpos until k ≡ true
        → renamed n s.ir.ops i (s.ir.iv + 1) (kept (s.ir.ops (i + n)).target s.ir.iv s.ir.ops k)
          ≡ renamed (suc n) s.ir.ops i s.ir.iv (s.ir.ops k)
    unfolding renames replace_uses
    renamed-next k inside = elim (Bool-cases (jointype == phi_cond)) [
      | inl cond ↦ rw cond
      | inr loop ↦ rw (loop, inside)
    ]

    next-body :
        (k : ℕ)
        → joinpos ≤ k
        → k < until
        → s'.ir.ops k ≡ renamed (suc n) s.ir.ops i s.ir.iv (s.ir.ops k)
    next-body k ge lt =
        h.body k ge lt
        ∙ ap (renamed n (rounded (i + n) s).ir.ops i (s.ir.iv + 1))
            (rounded_kept (i + n) s (omega arith) le k (omega arith) (omega arith))
        ∙ renamed-cong n (rounded (i + n) s).ir.ops s.ir.ops i (s.ir.iv + 1)
            (kept (s.ir.ops (i + n)).target s.ir.iv s.ir.ops k)
            (λ m below.
              rounded_same (i + n) s (omega arith) le (i + m) (omega arith) (omega arith)
                (beyond _ (omega arith)))
        ∙ renamed-next k (ground arith)

  Joined-next :
      (n i : ℕ) (s s' : Commit)
      → s.ir.size + suc n ≤ i
      → until ≤ s.ir.size
      → Joined n i (rounded (i + n) s) s'
      → Joined (suc n) i s s'
  Joined-next n i s s' room le h = record {
    iv = omega (arith, h.iv);
    size = omega (arith, h.size);
    iphi = h.iphi;
    phidepth = h.phidepth;
    phis = next-phis n i s s' room le h;
    body = next-body n i s s' room le h;
    others = next-others n i s s' room le h;
  }

  Joined-zero : (i : ℕ) (s : Commit) → Joined 0 i s s
  unfolding renames
  Joined-zero i s = record {
    iv = omega arith;
    size = omega arith;
    iphi = refl;
    phidepth = refl;
    phis = λ k lt. elim lt [ ];
    body = λ k ge lt. elim (Bool-cases (jointype == phi_cond)) [
      | inl cond ↦ rw cond
      | inr loop ↦ rw loop
    ];
    others = λ k lt out. refl;
  }

  -- the entries whose operands are variables
  abbrev pub Vars : ℕ → ℕ → Commit → Type 0
  Vars n i s = (k : ℕ) → k < n → ((s.ir.ops (i + k)).a < 32768) × ((s.ir.ops (i + k)).b < 32768)

  pub commit_loop-Joined :
      (n i : ℕ) (s : Commit)
      → s.ir.phidepth ≡ 0
      → s.ir.iv + n ≤ 2 ^ 16
      → s.ir.size + n ≤ i
      → until ≤ s.ir.size
      → i + n ≤ 2 ^ 16
      → Vars n i s
      → (s' : Commit) × (commit_loop n jointype joinpos until i s ≡ done s') × Joined n i s s'
  unfolding commit_loop
  commit_loop-Joined zero i s outer ivs room le top vars = (s, refl, Joined-zero i s)
  commit_loop-Joined (suc n) i s outer ivs room le top vars =
      let later : Vars n i (rounded (i + n) s) = λ k lt.
        rw
          (rounded_same (i + n) s (omega arith) le (i + k) (omega arith) (omega arith)
            (beyond _ (omega arith)))
          (vars k (omega arith)) in
      let (s', run, h) =
        commit_loop-Joined n i (rounded (i + n) s) outer (omega arith) (omega arith) (omega arith)
          (omega arith) later in
      let here = vars n (omega arith) in
      (
        s',
        rw (round_lem (i + n) s outer here.0 here.1 (omega arith) (omega arith)) run,
        Joined-next n i s s' room le h,
      )
