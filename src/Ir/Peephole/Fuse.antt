-- ===== src/Ir/Peephole/Fuse.antt =====
-- What the rewritten pair of instructions does, against what the pair did.
use minilua.Common.{
  ℕ, ◌≡◌, ◌≢◌, ◌⊎◌, inl, inr, refl, Bool, true, false, not, ◌&&◌, ◌==◌, ==_refl, ==_false,
  if◌then◌else◌, arith,
}
use minilua.Lex.Codes.{lex_eq, lex_ne}
use minilua.Ir.{Tac}
use minilua.Ir.Peephole.{fuse, as_jump, same_var}
use minilua.Ir.Ops.{ir_op_jz, ir_op_jnz, ir_op_je, ir_op_jne}

-- the truth of variables after a comparison, `equal` being that of two operands
abbrev pub compares : (ℕ → ℕ → Bool) → Tac → (ℕ → Bool) → ℕ → Bool
compares equal t truth v =
    if t.op == lex_ne
    then (if v == t.target then not (equal t.a t.b) else truth v)
    else if t.op == lex_eq
    then (if v == t.target then equal t.a t.b else truth v)
    else truth v

-- whether an instruction jumps
abbrev pub jumps : (ℕ → ℕ → Bool) → Tac → (ℕ → Bool) → Bool
jumps equal t truth =
    if t.op == ir_op_jz
    then not (truth t.a)
    else if t.op == ir_op_jnz
    then truth t.a
    else if t.op == ir_op_je
    then equal t.a t.b
    else if t.op == ir_op_jne
    then not (equal t.a t.b)
    else false

abbrev Keeps : (ℕ → ℕ → Bool) → (ℕ → Bool) → Tac → Tac → Tac × Tac → Type 0
Keeps equal truth x y p =
    (jumps equal p.1 (compares equal p.0 truth) ≡ jumps equal y (compares equal x truth))
    × (p.1.target ≡ y.target)
    × ((v : ℕ) → v ≢ x.target → compares equal p.0 truth v ≡ compares equal x truth v)

if-cases {ℓ} :
    {A : Type ℓ} (P : A → Type 0) (b : Bool) (p q : A)
    → (b ≡ true → P p)
    → P q
    → P (if b then p else q)
if-cases P true p q met rest = met refl
if-cases P false p q met rest = rest

not-not : (b : Bool) → b ≡ not (not b)
not-not true = refl
not-not false = refl

module _ (equal : ℕ → ℕ → Bool) (truth : ℕ → Bool) (x y : Tac) where
  others :
      (x.op ≡ lex_ne) ⊎ (x.op ≡ lex_eq)
      → (v : ℕ) → v ≢ x.target
      → truth v ≡ compares equal x truth v
  others (inl e) v other = rw (e, ==_false v x.target other)
  others (inr e) v other = rw (e, ==_false v x.target other)

  fuse_one :
      (cmp jump fused : ℕ)
      → (cmp ≡ lex_ne) ⊎ (cmp ≡ lex_eq)
      → (x.op ≡ cmp
          → y.op ≡ jump
          → y.a ≡ x.target
          → jumps equal (record y { op = fused; a = x.a; b = x.b }) truth
            ≡ jumps equal y (compares equal x truth))
      → (x.op == cmp && y.op == jump && same_var y.a x.target) ≡ true
      → Keeps equal truth x y (as_jump fused x y)
  unfolding as_jump
  fuse_one cmp jump fused is same test =
      let ex : x.op ≡ cmp = ground arith in
      let ey : y.op ≡ jump = ground arith in
      let ea : y.a ≡ x.target = ground arith in
      let is' : (x.op ≡ lex_ne) ⊎ (x.op ≡ lex_eq) = rw ex is in (same ex ey ea, refl, others is')

-- `fuse` keeps the meaning of every two instructions: the second one jumps exactly when it did, to
-- the same place, and after the first one every variable but its target has the truth that it had.
pub fuse_keeps :
    (equal : ℕ → ℕ → Bool) (x y : Tac) (truth : ℕ → Bool)
    → (jumps equal (fuse x y).1 (compares equal (fuse x y).0 truth)
        ≡ jumps equal y (compares equal x truth))
      × ((fuse x y).1.target ≡ y.target)
      × ((v : ℕ) → v ≢ x.target → compares equal (fuse x y).0 truth v ≡ compares equal x truth v)
unfolding fuse
fuse_keeps equal x y truth =
    let P = Keeps equal truth x y in
    let rest =
      (if-cases P _ (as_jump ir_op_je x y) (x, y)
        (fuse_one equal truth x y lex_eq ir_op_jnz ir_op_je (inr refl)
          (λ ex ey ea. rw (ey, ex, ea, ==_refl)))
        (refl, refl, λ v other. refl)) in
    let rest =
      (if-cases P _ (as_jump ir_op_jne x y) _
        (fuse_one equal truth x y lex_eq ir_op_jz ir_op_jne (inr refl)
          (λ ex ey ea. rw (ey, ex, ea, ==_refl)))
        rest) in
    let rest =
      (if-cases P _ (as_jump ir_op_jne x y) _
        (fuse_one equal truth x y lex_ne ir_op_jnz ir_op_jne (inl refl)
          (λ ex ey ea. rw (ey, ex, ea, ==_refl)))
        rest) in
    if-cases P (x.op == lex_ne && y.op == ir_op_jz && same_var y.a x.target) (as_jump ir_op_je x y)
      _
      (fuse_one equal truth x y lex_ne ir_op_jz ir_op_je (inl refl)
        (λ ex ey ea. rw (ey, ex, ea, ==_refl) (not-not (equal x.a x.b))))
      rest
