-- ===== src/Asm/Branch.antt =====
-- Calls and jumps to an address that is known.
use minilua.Common.{
  ◌⊎◌, ◌↔◌, Bool-cases, ltb, ltb→lt, ltb→ge, subst, ◌-◌, ℕ, ◌+◌, ◌%◌, ◌^◌, ◌≤◌, ◌<◌, ◌≡◌, refl, ap,
  inl, inr, List, [], ◌∷◌, ◌++◌, arith, length, ◌∙◌,
}
use minilua.Asm.{
  Cc, poke, store, bytes32, load32, cc_mcode, offset_to, cc_call, cc_jmp, cc_jz, cc_jnz,
}
use minilua.Asm.Memory.{store-outside, cc_mcode-p, cc_mcode-mem, load32-store}

-- where a displacement of 32 bits, which the processor extends by its sign, leads from the end of the
-- instruction
abbrev pub Leads : ℕ → ℕ → ℕ → Type 0
Leads next d f = ((d < 2 ^ 31) × (next + d ≡ f)) ⊎ ((2 ^ 31 ≤ d) × (next + d ≡ f + 2 ^ 32))

-- within 2 GB before the end of the instruction or behind it
abbrev pub Near : ℕ → ℕ → Type 0
Near next f = (f < next + 2 ^ 31) × (next ≤ f + 2 ^ 31)

-- The code between `c` and `c'` is `op` and a displacement of 32 bits, which leads from its end to
-- `f` where that is near, and to `f` modulo 2 ^ 32 in any case; no other byte has changed.
abbrev pub Branches : Cc → Cc → List ℕ → ℕ → Type 0
Branches c c' op f =
    (c'.p ≡ c.p + length op + 4)
    × ((c'.p + load32 c'.mem (c.p + length op)) % 2 ^ 32 ≡ f % 2 ^ 32)
    × (Leads c'.p (load32 c'.mem (c.p + length op)) f ↔ Near c'.p f)
    × ((x : ℕ) → x < c.p + length op → c'.mem x ≡ store c.mem c.p op x)
    × ((x : ℕ) → c'.p ≤ x → c'.mem x ≡ c.mem x)

pub offset_to-lands : (f next : ℕ) → next ≤ 2 ^ 64 → (next + offset_to f next) % 2 ^ 32 ≡ f % 2 ^ 32
unfolding offset_to
offset_to-lands f next le = omega arith

pub offset_to-small : (f next : ℕ) → offset_to f next < 2 ^ 32
unfolding offset_to
offset_to-small f next = omega arith

offset_to-Leads : (f next : ℕ) → next ≤ 2 ^ 64 → Leads next (offset_to f next) f ↔ Near next f
unfolding offset_to
offset_to-Leads f next le = (
  λ leads. elim leads [
    | inl (small, e) ↦ (omega arith, omega arith)
    | inr (big, e) ↦ (omega arith, omega arith)
  ],
  λ near.
      let before = near.0 in
      let behind = near.1 in
      elim (Bool-cases (ltb ((f + (2 ^ 64 - next)) % 2 ^ 32) (2 ^ 31))) [
        | inl small ↦ inl (ltb→lt _ _ small, omega (arith, ltb→lt _ _ small))
        | inr big ↦ inr (ltb→ge _ _ big, omega (arith, ltb→ge _ _ big))
      ],
)

store-append :
    (m : ℕ → ℕ) (a : ℕ) (bs cs : List ℕ)
    → store m a (bs ++ cs) ≡ store (store m a bs) (a + length bs) cs
unfolding store
store-append m a [] cs = ap (λ i. store m i cs) (omega arith)
store-append m a (b ∷ bs) cs =
    store-append (poke m a b) (a + 1) bs cs
    ∙ ap (λ i. store (store (poke m a b) (a + 1) bs) i cs) (omega arith)

length-op : (op : List ℕ) (d : ℕ) → length (op ++ bytes32 d) ≡ length op + 4
unfolding bytes32
length-op [] d = refl
length-op (b ∷ op) d = omega (arith, length-op op d)

branch :
    (op : List ℕ) (f next : ℕ) (c : Cc)
    → next ≡ c.p + length op + 4
    → next ≤ 2 ^ 64
    → Branches c (cc_mcode (op ++ bytes32 (offset_to f next)) c) op f
branch op f next c at_end le =
    let d = offset_to f next in
    let end = cc_mcode-p (op ++ bytes32 d) c in
    let written = cc_mcode-mem (op ++ bytes32 d) c ∙ store-append c.mem c.p op (bytes32 d) in
    let len = length-op op d in
    let len4 = length-op [] d in
    let read = load32-store (store c.mem c.p op) (c.p + length op) d (offset_to-small f next) in
    (
      omega arith,
      rw (written, read)
          (ap (λ (t : ℕ). (t + d) % 2 ^ 32) (omega arith) ∙ offset_to-lands f next le),
      rw (written, read)
          (subst (λ t. Leads t d f ↔ Near t f) (omega arith) (offset_to-Leads f next le)),
      λ x lt.
          rw written (store-outside (store c.mem c.p op) (c.p + length op) (bytes32 d) x (inl lt)),
      λ x ge. rw written (
          store-outside (store c.mem c.p op) (c.p + length op) (bytes32 d) x (inr (omega arith))
          ∙ store-outside c.mem c.p op x (inr (omega arith))),
    )

-- Where the code ends in the 64-bit address space, `cc_call`, `cc_jmp`, `cc_jz` and `cc_jnz` write
-- their opcode and a displacement. Extended by its sign, as the processor does, the displacement leads
-- from the end of the instruction to the target exactly where the two are within 2 GB (nothing in the
-- code tests that); modulo `2 ^ 32` it leads there in any case. Every byte beside the instruction
-- stays as it was.
pub call-Branches :
    (f : ℕ) (c : Cc)
    → c.p + 6 ≤ 2 ^ 64
    → Branches c (cc_call f c) (232 ∷ []) f
      × Branches c (cc_jmp f c) (233 ∷ []) f
      × Branches c (cc_jz f c) (15 ∷ 132 ∷ []) f
      × Branches c (cc_jnz f c) (15 ∷ 133 ∷ []) f
unfolding cc_call cc_jmp cc_jz cc_jnz
call-Branches f c le = (
  branch (232 ∷ []) f (c.p + 5) c (omega arith) (omega arith),
  branch (233 ∷ []) f (c.p + 5) c (omega arith) (omega arith),
  branch (15 ∷ 132 ∷ []) f (c.p + 6) c (omega arith) (omega arith),
  branch (15 ∷ 133 ∷ []) f (c.p + 6) c (omega arith) (omega arith),
)
