-- ===== src/Ir/Phi.antt =====
-- The frame of phi functions on top of the stack: entries, and the mark below them.
use native.Mathlib.Decide.{ℕ_discrete}
use minilua.Common.{
  ℕ, zero, suc, ◌+◌, ◌-◌, ◌%◌, ◌^◌, ◌≤◌, ◌<◌, ◌≡◌, ◌≢◌, ◌⊎◌, inl, inr, refl, ap, ◌∙◌, true, false,
  ◌==◌, ◌||◌, ==_refl, ==_false, done, arith, Bool-cases,
}
use minilua.Ir.{Ir, Tac, found, missing, write, sext, phi_loop, phi_put, ir_phi_ins}
use minilua.Ir.Ops.{ir_op_noop, ir_op_phi, ir_op_max}

-- `n` entries from place `i` on, then the mark
pub record Frame (ops : ℕ → Tac) (i n : ℕ) : Type 0 where
  pub entries : (k : ℕ) → i ≤ k → k < i + n → (ops k).op ≢ ir_op_noop
  pub mark : (ops (i + n)).op ≡ ir_op_noop
  pub inside : i + n < ir_op_max

-- an entry that `ir_phi_ins` takes for `old`
abbrev pub Matches : Tac → ℕ → Type 0
Matches t old = (sext t.a ≡ old) ⊎ (sext t.b ≡ old)

-- the first entry for `old` has the value, and nothing else has changed
pub record Replaced (c c' : Ir) (val old : ℕ) : Type 0 where
  pub place : ℕ
  pub ge : c.iphi ≤ place
  pub match : Matches (c.ops place) old
  pub first : (j : ℕ) → c.iphi ≤ j → j < place → ¬ Matches (c.ops j) old
  pub here : c'.ops place ≡ record (c.ops place) { a = val % 2 ^ 16 }
  pub others : (j : ℕ) → j ≢ place → c'.ops j ≡ c.ops j
  pub top : c'.iphi ≡ c.iphi

-- no entry was for `old`, and there is one more, on top, with the value for `old`
pub record Added (c c' : Ir) (n val old : ℕ) : Type 0 where
  pub none : (j : ℕ) → c.iphi ≤ j → j < c.iphi + n → ¬ Matches (c.ops j) old
  pub top : c'.iphi + 1 ≡ c.iphi
  pub op : (c'.ops c'.iphi).op ≡ ir_op_phi
  pub a : (c'.ops c'.iphi).a ≡ val % 2 ^ 16
  pub b : (c'.ops c'.iphi).b ≡ old % 2 ^ 16
  pub target : (c'.ops c'.iphi).target ≡ old % 2 ^ 16
  pub others : (j : ℕ) → j ≢ c'.iphi → c'.ops j ≡ c.ops j

matches : (t : Tac) (old : ℕ) → (sext t.a == old || sext t.b == old) ≡ true → Matches t old
matches t old h = elim (Bool-cases (sext t.a == old)) [
  | inl first ↦ inl (ground arith)
  | inr other ↦ inr (ground arith)
]

no_match : (t : Tac) (old : ℕ) → (sext t.a == old || sext t.b == old) ≡ false → ¬ Matches t old
no_match t old h (inl e) = let m : (sext t.a == old) ≡ true = rw e (==_refl old) in ground arith
no_match t old h (inr e) = let m : (sext t.b == old) ≡ true = rw e (==_refl old) in ground arith

-- a place that is the first, or one behind it
at_or_above :
    (ops : ℕ → Tac) (old i : ℕ)
    → ¬ Matches (ops i) old
    → (hi : ℕ) → ((j : ℕ) → i + 1 ≤ j → j < hi → ¬ Matches (ops j) old)
    → (j : ℕ) → i ≤ j
    → j < hi
    → ¬ Matches (ops j) old
at_or_above ops old i here hi above j ge lt = elim (ℕ_discrete j i) [
  | yes is ↦ rw is here
  | no other ↦ above j (omega arith) lt
]

phi_loop-ends :
    (fuel n : ℕ) (ops : ℕ → Tac) (old i : ℕ)
    → n < fuel
    → ((k : ℕ) → i ≤ k → k < i + n → (ops k).op ≢ ir_op_noop)
    → (ops (i + n)).op ≡ ir_op_noop
    → ((phi_loop fuel ops old i ≡ done missing)
        × ((j : ℕ) → i ≤ j → j < i + n → ¬ Matches (ops j) old))
      ⊎ ((k : ℕ) × (phi_loop fuel ops old i ≡ done (found k))
          × (i ≤ k)
          × (k < i + n)
          × Matches (ops k) old
          × ((j : ℕ) → i ≤ j → j < k → ¬ Matches (ops j) old))
unfolding phi_loop
phi_loop-ends zero n ops old i lt full mark = elim lt [ ]
phi_loop-ends (suc fuel) zero ops old i lt full mark =
    let here : (ops i).op ≡ ir_op_noop = ap (λ k. (ops k).op) (omega arith) ∙ mark in
    inl (rw here, λ j ge lt. absurd (omega arith))
phi_loop-ends (suc fuel) (suc n) ops old i lt full mark =
    let here = ==_false (ops i).op ir_op_noop (full i (omega arith) (omega arith)) in
    let end : (ops (i + 1 + n)).op ≡ ir_op_noop = ap (λ k. (ops k).op) (omega arith) ∙ mark in
    elim (Bool-cases (sext (ops i).a == old || sext (ops i).b == old)) [
      | inl match ↦ inr (
        i,
        rw (here, match),
        omega arith,
        omega arith,
        matches (ops i) old match,
        λ j ge lt. absurd (omega arith),
      )
      | inr other ↦
          elim (phi_loop-ends fuel n ops old (i + 1) (omega arith)
            (λ k ge below. full k (omega arith) (omega arith)) end) [
              | inl (run, none) ↦ inl (
                rw (here, other, run),
                at_or_above ops old i (no_match (ops i) old other) (i + suc n)
                    (λ j ge lt'. none j ge (omega arith)),
              )
              | inr (k, run, ge, below, match, first) ↦ inr (
                k,
                rw (here, other, run),
                omega arith,
                omega arith,
                match,
                at_or_above ops old i (no_match (ops i) old other) k first,
              )
            ]
    ]

pub write_same : (ops : ℕ → Tac) (i : ℕ) (t : Tac) → write ops i t i ≡ t
write_same ops i t = rw ==_refl

pub write_other : (ops : ℕ → Tac) (i : ℕ) (t : Tac) (k : ℕ) → k ≢ i → write ops i t k ≡ ops k
write_other ops i t k other = rw (==_false k i other)

write_full :
    (ops : ℕ → Tac) (i : ℕ) (t : Tac) (k : ℕ)
    → t.op ≢ ir_op_noop
    → (k ≢ i → (ops k).op ≢ ir_op_noop)
    → (write ops i t k).op ≢ ir_op_noop
write_full ops i t k full others = elim (ℕ_discrete k i) [
  | yes here ↦ rw (here, ==_refl) full
  | no other ↦ rw (==_false k i other) (others other)
]

-- `ir_phi_ins` inside a frame that ends with its mark, with room for one more entry: it returns 0,
-- and either the first entry that has `old` as an operand gets the value `val` as its first one, and
-- no other place changes, or no entry has `old`, and a new one on top of the frame has `val` for `old`
-- and no other place changes. So the frame has as many entries as before or one more, and the mark
-- and everything below it, which are the outer frames, are as they were.
pub phi_ins-Frame :
    (c : Ir) (n val old : ℕ)
    → Frame c.ops c.iphi n
    → 0 < c.phidepth
    → 0 < c.iphi
    → (c' : Ir) × (m : ℕ) × (ir_phi_ins c val old ≡ done (0, c'))
      × Frame c'.ops c'.iphi m
      × (Replaced c c' val old ⊎ Added c c' n val old)
      × (c'.iphi + m ≡ c.iphi + n)
      × (m ≤ n + 1)
      × ((k : ℕ) → c.iphi + n ≤ k → c'.ops k ≡ c.ops k)
unfolding ir_phi_ins phi_put
phi_ins-Frame c n val old frame deep room =
    let bound = frame.inside in
    let inner : (c.phidepth == 0) ≡ false = ground arith in
    elim (phi_loop-ends (ir_op_max - c.iphi) n c.ops old c.iphi (omega arith) frame.entries
      frame.mark) [
        | inr (i, run, ge, below, match, first) ↦
            let t = record (c.ops i) { a = val % 2 ^ 16 } in
            let ops = write c.ops i t in
            (
              record c { ops = ops },
              n,
              rw (inner, run),
              record {
                entries = λ k from to.
                    write_full c.ops i t k (frame.entries i ge below)
                      (λ _. frame.entries k from to);
                mark = rw (write_other c.ops i t (c.iphi + n) (omega arith)) frame.mark;
                inside = bound;
              },
              inl (record {
                place = i;
                ge = ge;
                match = match;
                first = first;
                here = write_same c.ops i t;
                others = write_other c.ops i t;
                top = refl;
              }),
              refl,
              omega arith,
              λ k far. write_other c.ops i t k (omega arith),
            )
        | inl (run, none) ↦
            let i = c.iphi - 1 in
            let above : (c.iphi == 0) ≡ false = ground arith in
            let t : Tac = record {
              op = ir_op_phi;
              a = val % 2 ^ 16;
              b = old % 2 ^ 16;
              target = old % 2 ^ 16;
            } in
            let ops = write c.ops i t in
            let end : i + suc n ≡ c.iphi + n = omega arith in
            (
              record c { iphi = i; ops = ops },
              suc n,
              rw (inner, run, above),
              record {
                entries = λ k from to.
                    write_full c.ops i t k (omega arith)
                      (λ other. frame.entries k (omega arith) (omega arith));
                mark = rw (end, write_other c.ops i t (c.iphi + n) (omega arith)) frame.mark;
                inside = omega arith;
              },
              inr (record {
                none = none;
                top = omega arith;
                op = ap (λ (x : Tac). x.op) (write_same c.ops i t);
                a = ap (λ (x : Tac). x.a) (write_same c.ops i t);
                b = ap (λ (x : Tac). x.b) (write_same c.ops i t);
                target = ap (λ (x : Tac). x.target) (write_same c.ops i t);
                others = write_other c.ops i t;
              }),
              end,
              omega arith,
              λ k far. write_other c.ops i t k (omega arith),
            )
      ]
