-- ===== src/Gen/Code.antt =====
-- What each instruction emits adds the mark of its own forward jump, and leaves the other marks as
-- they are.
use minilua.Common.{
  ◌∙◌, subst, ℕ, ◌+◌, ◌%◌, ◌^◌, ◌≤◌, ◌<◌, ◌≡◌, refl, ap, Bool-cases, inl, inr, bit_or, bit_and,
  ◌==◌, leb, if◌then◌else◌, List, [], ◌∷◌, ◌++◌, length, arith,
}
use minilua.Asm.{
  Cc, cc_mcode, cc_mov_rl, cc_mov_rs, cc_mov_sr, cc_mov_rr, cc_movq_xr, cc_movq_rx, cc_push, cc_pop,
  cc_cmp_rr, cc_test_rr, cc_xor_rr, cc_call, cc_jmp, cc_jz, cc_jnz, rsp_op, cc_subrsp, cc_addrsp,
  cc_ret, sd_op, cc_addsd, cc_subsd, cc_mulsd, cc_divsd, cc_mark, bytes32, bytes64, rr, rex, modrm,
  rsp, r8, slot_bytes, short_op, offset_to, fits_byte,
}
use minilua.Asm.Marks.{Pending, cc_mcode-Pending, cc_mark-Pending}

-- `c'` has the marks of `c`, and those of `ts` behind them
abbrev pub Adds : List ℕ → Cc → Cc → Type 0
Adds ts c c' = (us : List ℕ) → Pending c us → Pending c' (us ++ ts)

-- and the same addresses of instructions
abbrev pub Grows : List ℕ → Cc → Cc → Type 0
Grows ts c c' = Adds ts c c' × (c'.op_addr ≡ c.op_addr)

append_nil : (us : List ℕ) → us ++ [] ≡ us
append_nil [] = refl
append_nil (u ∷ us) = ap (◌∷◌ u) (append_nil us)

append_assoc : (us ts vs : List ℕ) → (us ++ ts) ++ vs ≡ us ++ (ts ++ vs)
append_assoc [] ts vs = refl
append_assoc (u ∷ us) ts vs = ap (◌∷◌ u) (append_assoc us ts vs)

pub Grows-refl : (c : Cc) → Grows [] c c
Grows-refl c = (λ us h. rw append_nil h, refl)

pub Adds-trans :
    (ts vs : List ℕ) (c c' c'' : Cc) → Adds ts c c' → Adds vs c' c'' → Adds (ts ++ vs) c c''
Adds-trans ts vs c c' c'' g g' us h = rw (append_assoc us ts vs) at (g' (us ++ ts) (g us h))

pub Grows-trans :
    (ts vs : List ℕ) (c c' c'' : Cc) → Grows ts c c' → Grows vs c' c'' → Grows (ts ++ vs) c c''
Grows-trans ts vs c c' c'' g g' = (Adds-trans ts vs c c' c'' g.0 g'.0, g'.1 ∙ g.1)

-- code behind code that adds marks
pub then_quiet : (ts : List ℕ) (c c' c'' : Cc) → Grows ts c c' → Grows [] c' c'' → Grows ts c c''
then_quiet ts c c' c'' g g' =
    subst (λ us. Grows us c c'') (append_nil ts) (Grows-trans ts [] c c' c'' g g')

pub addr-cc_mcode : (bs : List ℕ) (c : Cc) → (cc_mcode bs c).op_addr ≡ c.op_addr
unfolding cc_mcode
addr-cc_mcode [] c = refl
addr-cc_mcode (b ∷ bs) c = addr-cc_mcode bs _

pub mcode : (bs : List ℕ) (c : Cc) → Grows [] c (cc_mcode bs c)
mcode bs c = (λ us h. rw append_nil (cc_mcode-Pending bs c us h), addr-cc_mcode bs c)

-- the emitters that write no mark
abbrev pub Quiet : (Cc → Cc) → Type 0
Quiet f = (c : Cc) → Grows [] c (f c)

pub mov_rr-Quiet : (d s : ℕ) → Quiet (cc_mov_rr d s)
unfolding cc_mov_rr
mov_rr-Quiet d s c = mcode (rr 137 d s) c

pub xor_rr-Quiet : (d s : ℕ) → Quiet (cc_xor_rr d s)
unfolding cc_xor_rr
xor_rr-Quiet d s c = mcode (rr 49 d s) c

pub cmp_rr-Quiet : (d s : ℕ) → Quiet (cc_cmp_rr d s)
unfolding cc_cmp_rr
cmp_rr-Quiet d s c = mcode (rr 57 d s) c

pub test_rr-Quiet : (d s : ℕ) → Quiet (cc_test_rr d s)
unfolding cc_test_rr
test_rr-Quiet d s c = mcode (rr 133 d s) c

pub movq_xr-Quiet : (d s : ℕ) → Quiet (cc_movq_xr d s)
unfolding cc_movq_xr
movq_xr-Quiet d s c = mcode (102 ∷ rex 1 d 0 s ∷ 15 ∷ 110 ∷ modrm 3 d s ∷ []) c

pub movq_rx-Quiet : (d s : ℕ) → Quiet (cc_movq_rx d s)
unfolding cc_movq_rx
movq_rx-Quiet d s c = mcode (102 ∷ rex 1 s 0 d ∷ 15 ∷ 126 ∷ modrm 3 s d ∷ []) c

pub mov_rs-Quiet : (r n : ℕ) → Quiet (cc_mov_rs r n)
unfolding cc_mov_rs
mov_rs-Quiet r n c = mcode (rex 1 r 0 rsp ∷ 139 ∷ modrm 2 r rsp ∷ 36 ∷ slot_bytes n) c

pub mov_sr-Quiet : (n r : ℕ) → Quiet (cc_mov_sr n r)
unfolding cc_mov_sr
mov_sr-Quiet n r c = mcode (rex 1 r 0 rsp ∷ 137 ∷ modrm 2 r rsp ∷ 36 ∷ slot_bytes n) c

pub push_reg-Quiet : (r : ℕ) → Quiet (cc_push r)
unfolding cc_push
push_reg-Quiet r c = mcode (short_op 80 r) c

pub pop_reg-Quiet : (r : ℕ) → Quiet (cc_pop r)
unfolding cc_pop
pop_reg-Quiet r c = mcode (short_op 88 r) c

pub sd-Quiet : (op d s : ℕ) → Quiet (sd_op op d s)
unfolding sd_op
sd-Quiet op d s c = mcode (242 ∷ 15 ∷ op ∷ modrm 3 d s ∷ []) c

pub ret-Quiet : Quiet (cc_ret)
unfolding cc_ret
ret-Quiet c = mcode (195 ∷ []) c

pub call-Quiet : (f : ℕ) → Quiet (cc_call f)
unfolding cc_call
call-Quiet f c = mcode (232 ∷ bytes32 (offset_to f (c.p + 5))) c

pub mov_rl-Quiet : (r v : ℕ) → Quiet (cc_mov_rl r v)
unfolding cc_mov_rl
mov_rl-Quiet r v c = elim (Bool-cases (v == 0)) [
  | inl none ↦ rw none (xor_rr-Quiet r r c)
  | inr some ↦
      rw some (mcode ((if leb r8 r then 73 else 72) ∷ bit_or 184 (bit_and r 7) ∷ bytes64 v) c)
]

pub rsp_op-Quiet : (m n : ℕ) → Quiet (rsp_op m n)
unfolding rsp_op
rsp_op-Quiet m n c = elim (Bool-cases (fits_byte n)) [
  | inl short ↦ rw short (mcode (72 ∷ 131 ∷ m ∷ (n % 256) ∷ []) c)
  | inr long ↦ rw long (mcode (72 ∷ 129 ∷ m ∷ bytes32 n) c)
]

pub subrsp-Quiet : (n : ℕ) → Quiet (cc_subrsp n)
unfolding cc_subrsp
subrsp-Quiet n = rsp_op-Quiet 236 n

pub addrsp-Quiet : (n : ℕ) → Quiet (cc_addrsp n)
unfolding cc_addrsp
addrsp-Quiet n = rsp_op-Quiet 196 n

pub addsd-Quiet : (d s : ℕ) → Quiet (cc_addsd d s)
unfolding cc_addsd
addsd-Quiet d s = sd-Quiet 88 d s

pub subsd-Quiet : (d s : ℕ) → Quiet (cc_subsd d s)
unfolding cc_subsd
subsd-Quiet d s = sd-Quiet 92 d s

pub mulsd-Quiet : (d s : ℕ) → Quiet (cc_mulsd d s)
unfolding cc_mulsd
mulsd-Quiet d s = sd-Quiet 89 d s

pub divsd-Quiet : (d s : ℕ) → Quiet (cc_divsd d s)
unfolding cc_divsd
divsd-Quiet d s = sd-Quiet 94 d s

-- what a jump writes is long enough for a mark
pub record IsJump (jump : ℕ → Cc → Cc) : Type 0 where
  pub code : ℕ → Cc → List ℕ
  pub writes : (f : ℕ) (c : Cc) → jump f c ≡ cc_mcode (code f c) c
  pub long : (f : ℕ) (c : Cc) → 4 ≤ length (code f c)

pub jmp-IsJump : IsJump cc_jmp
unfolding cc_jmp bytes32
jmp-IsJump = record {
  code = λ f c. 233 ∷ bytes32 (offset_to f (c.p + 5));
  writes = λ f c. refl;
  long = λ f c. omega arith;
}

pub jz-IsJump : IsJump cc_jz
unfolding cc_jz bytes32
jz-IsJump = record {
  code = λ f c. 15 ∷ 132 ∷ bytes32 (offset_to f (c.p + 6));
  writes = λ f c. refl;
  long = λ f c. omega arith;
}

pub jnz-IsJump : IsJump cc_jnz
unfolding cc_jnz bytes32
jnz-IsJump = record {
  code = λ f c. 15 ∷ 133 ∷ bytes32 (offset_to f (c.p + 6));
  writes = λ f c. refl;
  long = λ f c. omega arith;
}

pub jump-Quiet : (jump : ℕ → Cc → Cc) → IsJump jump → (f : ℕ) → Quiet (jump f)
jump-Quiet jump is f c = rw (is.writes f c) (mcode (is.code f c) c)

pub mark-Grows :
    (jump : ℕ → Cc → Cc)
    → IsJump jump
    → (f t : ℕ) (c : Cc) → t < 2 ^ 32
    → Grows (t ∷ []) c (cc_mark t (jump f c))
unfolding cc_mark
mark-Grows jump is f t c small = rw (is.writes f c) (
  λ us h. cc_mark-Pending t (is.code f c) c us h (is.long f c) small,
  addr-cc_mcode (is.code f c) c,
)
