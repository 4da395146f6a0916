-- ===== src/Asm/Memory.antt =====
-- Memory after bytes are written.
use minilua.Common.{
  ℕ, ◌+◌, ◌^◌, ◌≤◌, ◌<◌, ◌≡◌, refl, ◌⊎◌, inl, inr, List, [], ◌∷◌, arith, length, ◌∙◌,
}
use minilua.Asm.{Cc, poke, store, bytes32, load32, cc_mcode}

pub store-outside :
    (m : ℕ → ℕ) (a : ℕ) (bs : List ℕ) (x : ℕ) → (x < a) ⊎ (a + length bs ≤ x) → store m a bs x ≡ m x
unfolding store poke
store-outside m a [] x far = refl
store-outside m a (b ∷ bs) x (inl lt) =
    store-outside (poke m a b) (a + 1) bs x (inl (omega arith)) ∙ ground arith
store-outside m a (b ∷ bs) x (inr ge) =
    store-outside (poke m a b) (a + 1) bs x (inr (omega arith)) ∙ ground arith

-- the pointer and the memory after code is written
pub cc_mcode-p : (bs : List ℕ) (c : Cc) → (cc_mcode bs c).p ≡ c.p + length bs
unfolding cc_mcode
cc_mcode-p [] c = omega arith
cc_mcode-p (b ∷ bs) c =
    omega (arith, cc_mcode-p bs (record c { p = c.p + 1; mem = poke c.mem c.p b }))

pub cc_mcode-mem : (bs : List ℕ) (c : Cc) → (cc_mcode bs c).mem ≡ store c.mem c.p bs
unfolding cc_mcode store
cc_mcode-mem [] c = refl
cc_mcode-mem (b ∷ bs) c = cc_mcode-mem bs (record c { p = c.p + 1; mem = poke c.mem c.p b })

pub load32-store : (m : ℕ → ℕ) (a n : ℕ) → n < 2 ^ 32 → load32 (store m a (bytes32 n)) a ≡ n
unfolding load32 store poke bytes32
load32-store m a n lt = ground arith
