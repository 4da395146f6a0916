-- ===== src/Asm/Marks.antt =====
-- Jumps to an instruction of the program whose code is not written yet: `cc_mark` leaves its number
-- in the displacement, `cc_fill_marks` puts the way to its address there.
use minilua.Common.{
  ℕ, ◌+◌, ◌-◌, ◌%◌, ◌^◌, ◌≤◌, ◌<◌, ◌≡◌, ◌∙◌, refl, ap, ◌⊎◌, inl, inr, List, [], ◌∷◌, ◌++◌, length,
  arith,
}
use minilua.Asm.{
  Cc, store, bytes32, load32, offset_to, cc_mcode, cc_mark, fill_mark, fill_loop, cc_fill_marks,
}
use minilua.Asm.Memory.{store-outside, cc_mcode-p, cc_mcode-mem, load32-store}
use minilua.Asm.Branch.{offset_to-lands, offset_to-small}

-- The marks `addrs`, between `lo` and `hi`, do not overlap, and `targets` stand in memory for them.
abbrev pub Marked : (ℕ → ℕ) → ℕ → ℕ → List ℕ → List ℕ → Type 0
Marked m lo hi [] [] = lo ≤ hi
Marked m lo hi [] (t ∷ ts) = ⊥
Marked m lo hi (a ∷ addrs) [] = ⊥
Marked m lo hi (a ∷ addrs) (t ∷ ts) = (lo + 4 ≤ a) × (load32 m (a - 4) ≡ t) × Marked m a hi addrs ts

-- the state while code is generated: `targets` are the marks that are left to fill
abbrev pub Pending : Cc → List ℕ → Type 0
Pending c targets = Marked c.mem 0 c.p c.fill targets

-- every mark leads from its address to the address of its target
abbrev pub Resolved : (ℕ → ℕ) → (ℕ → ℕ) → List ℕ → List ℕ → Type 0
Resolved op_addr m [] [] = Unit
Resolved op_addr m [] (t ∷ ts) = ⊥
Resolved op_addr m (a ∷ addrs) [] = ⊥
Resolved op_addr m (a ∷ addrs) (t ∷ ts) =
    ((a + load32 m (a - 4)) % 2 ^ 32 ≡ op_addr t % 2 ^ 32) × Resolved op_addr m addrs ts

pub load32-same :
    (m m' : ℕ → ℕ) (a lo hi : ℕ)
    → lo ≤ a
    → a + 4 ≤ hi
    → ((x : ℕ) → lo ≤ x → x < hi → m' x ≡ m x)
    → load32 m' a ≡ load32 m a
unfolding load32
load32-same m m' a lo hi ge le same = omega (
  arith,
  same a (omega arith) (omega arith),
  same (a + 1) (omega arith) (omega arith),
  same (a + 2) (omega arith) (omega arith),
  same (a + 3) (omega arith) (omega arith),
)

pub Marked-le : (m : ℕ → ℕ) (lo hi : ℕ) (addrs ts : List ℕ) → Marked m lo hi addrs ts → lo ≤ hi
Marked-le m lo hi [] [] h = h
Marked-le m lo hi [] (t ∷ ts) h = elim h [ ]
Marked-le m lo hi (a ∷ addrs) [] h = elim h [ ]
Marked-le m lo hi (a ∷ addrs) (t ∷ ts) h = omega (arith, h.0, Marked-le m a hi addrs ts h.2)

Marked-same :
    (m m' : ℕ → ℕ) (lo hi hi' : ℕ) (addrs ts : List ℕ)
    → hi ≤ hi'
    → ((x : ℕ) → lo ≤ x → x < hi → m' x ≡ m x)
    → Marked m lo hi addrs ts
    → Marked m' lo hi' addrs ts
Marked-same m m' lo hi hi' [] [] le same h = omega arith
Marked-same m m' lo hi hi' [] (t ∷ ts) le same h = elim h [ ]
Marked-same m m' lo hi hi' (a ∷ addrs) [] le same h = elim h [ ]
Marked-same m m' lo hi hi' (a ∷ addrs) (t ∷ ts) le same h =
    let below = Marked-le m a hi addrs ts h.2 in
    let far = h.0 in
    (
      far,
      load32-same m m' (a - 4) lo hi (omega arith) (omega arith) same ∙ h.1,
      Marked-same m m' a hi hi' addrs ts le (λ x ge lt. same x (omega arith) lt) h.2,
    )

Marked-append :
    (m : ℕ → ℕ) (lo hi a t : ℕ) (addrs ts : List ℕ)
    → Marked m lo hi addrs ts
    → hi + 4 ≤ a
    → load32 m (a - 4) ≡ t
    → Marked m lo a (addrs ++ (a ∷ [])) (ts ++ (t ∷ []))
Marked-append m lo hi a t [] [] h le e = (omega arith, e, omega arith)
Marked-append m lo hi a t [] (u ∷ ts) h le e = elim h [ ]
Marked-append m lo hi a t (b ∷ addrs) [] h le e = elim h [ ]
Marked-append m lo hi a t (b ∷ addrs) (u ∷ ts) h le e =
    (h.0, h.1, Marked-append m b hi a t addrs ts h.2 le e)

pub fill-cc_mcode : (bs : List ℕ) (c : Cc) → (cc_mcode bs c).fill ≡ c.fill
unfolding cc_mcode
fill-cc_mcode [] c = refl
fill-cc_mcode (b ∷ bs) c = fill-cc_mcode bs _

-- Code that is written leaves the marks as they are.
pub cc_mcode-Pending :
    (bs : List ℕ) (c : Cc) (ts : List ℕ) → Pending c ts → Pending (cc_mcode bs c) ts
cc_mcode-Pending bs c ts h =
    rw (fill-cc_mcode bs c, cc_mcode-mem bs c, cc_mcode-p bs c)
      (Marked-same c.mem (store c.mem c.p bs) 0 c.p (c.p + length bs) c.fill ts (omega arith)
        (λ x ge lt. store-outside c.mem c.p bs x (inl lt)) h)

length-bytes32 : (n : ℕ) → length (bytes32 n) ≡ 4
unfolding bytes32
length-bytes32 n = refl

-- `cc_mark` behind an instruction of at least four bytes (its displacement) adds its target to
-- those that are left to fill, and keeps the others; the target is one that an `i32` holds.
pub cc_mark-Pending :
    (t : ℕ) (bs : List ℕ) (c : Cc) (ts : List ℕ)
    → Pending c ts
    → 4 ≤ length bs
    → t < 2 ^ 32
    → Pending (cc_mark t (cc_mcode bs c)) (ts ++ (t ∷ []))
unfolding cc_mark
cc_mark-Pending t bs c ts h long small =
    let written = cc_mcode bs c in
    let end = cc_mcode-p bs c in
    let m' = store written.mem (written.p - 4) (bytes32 t) in
    let kept =
      Marked-same c.mem m' 0 c.p c.p c.fill ts (omega arith)
        (λ x ge lt.
          store-outside written.mem (written.p - 4) (bytes32 t) x (inl (omega arith))
          ∙ ap (λ f. f x) (cc_mcode-mem bs c)
          ∙ store-outside c.mem c.p bs x (inl lt))
        h in
    rw (fill-cc_mcode bs c) (
      Marked-append m' 0 c.p written.p t c.fill ts kept (omega arith)
        (load32-store written.mem (written.p - 4) t small))

fill_mark-outside :
    (op_addr m : ℕ → ℕ) (a x : ℕ) → 4 ≤ a → (x < a - 4) ⊎ (a ≤ x) → fill_mark op_addr m a x ≡ m x
unfolding fill_mark
fill_mark-outside op_addr m a x ge (inl lt) =
    store-outside m (a - 4) (bytes32 (offset_to (op_addr (load32 m (a - 4))) a)) x (inl lt)
fill_mark-outside op_addr m a x ge (inr le) =
    let d = offset_to (op_addr (load32 m (a - 4))) a in
    store-outside m (a - 4) (bytes32 d) x (inr (omega (arith, length-bytes32 d)))

fill_loop-below :
    (op_addr m : ℕ → ℕ) (lo hi : ℕ) (addrs ts : List ℕ) (x : ℕ)
    → Marked m lo hi addrs ts
    → x < lo
    → fill_loop op_addr addrs m x ≡ m x
unfolding fill_loop
fill_loop-below op_addr m lo hi [] ts x h lt = refl
fill_loop-below op_addr m lo hi (a ∷ addrs) [] x h lt = elim h [ ]
fill_loop-below op_addr m lo hi (a ∷ addrs) (t ∷ ts) x h lt =
    let far = h.0 in
    let next =
      Marked-same m (fill_mark op_addr m a) a hi hi addrs ts (omega arith)
        (λ y ge below. fill_mark-outside op_addr m a y (omega arith) (inr ge)) h.2 in
    fill_loop-below op_addr (fill_mark op_addr m a) a hi addrs ts x next (omega arith)
    ∙ fill_mark-outside op_addr m a x (omega arith) (inl (omega arith))

load32-fill_mark :
    (op_addr m : ℕ → ℕ) (a : ℕ)
    → load32 (fill_mark op_addr m a) (a - 4) ≡ offset_to (op_addr (load32 m (a - 4))) a
unfolding fill_mark
load32-fill_mark op_addr m a =
    load32-store m (a - 4) (offset_to (op_addr (load32 m (a - 4))) a)
      (offset_to-small (op_addr (load32 m (a - 4))) a)

fill_loop-Resolved :
    (op_addr m : ℕ → ℕ) (lo hi : ℕ) (addrs ts : List ℕ)
    → hi ≤ 2 ^ 64
    → Marked m lo hi addrs ts
    → Resolved op_addr (fill_loop op_addr addrs m) addrs ts
unfolding fill_loop
fill_loop-Resolved op_addr m lo hi [] [] le h = tt
fill_loop-Resolved op_addr m lo hi [] (t ∷ ts) le h = elim h [ ]
fill_loop-Resolved op_addr m lo hi (a ∷ addrs) [] le h = elim h [ ]
fill_loop-Resolved op_addr m lo hi (a ∷ addrs) (t ∷ ts) le h =
    let far = h.0 in
    let top = Marked-le m a hi addrs ts h.2 in
    let m' = fill_mark op_addr m a in
    let next =
      Marked-same m m' a hi hi addrs ts (omega arith)
        (λ y ge below. fill_mark-outside op_addr m a y (omega arith) (inr ge)) h.2 in
    let later =
      load32-same m' (fill_loop op_addr addrs m') (a - 4) (a - 4) a (omega arith) (omega arith)
        (λ x ge lt. fill_loop-below op_addr m' a hi addrs ts x next lt) in
    (
      rw (later, load32-fill_mark op_addr m a, h.1) (offset_to-lands (op_addr t) a (omega arith)),
      fill_loop-Resolved op_addr m' a hi addrs ts le next,
    )

-- Where the code ends in the 64-bit address space and the marks do not overlap, `cc_fill_marks`
-- makes the displacement at every mark lead to `op_addr` of the mark's target, modulo `2 ^ 32`,
-- also those at the marks that were filled before others.
pub fill_marks-Resolved :
    (c : Cc) (ts : List ℕ)
    → c.p ≤ 2 ^ 64
    → Pending c ts
    → Resolved c.op_addr (cc_fill_marks c).mem c.fill ts
unfolding cc_fill_marks
fill_marks-Resolved c ts le h = fill_loop-Resolved c.op_addr c.mem 0 c.p c.fill ts le h
