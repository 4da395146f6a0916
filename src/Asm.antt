-- ===== src/Asm.antt =====
-- The assembler of cc.c: instructions are written to memory at `p`, jumps of the program that have
-- no address yet are marked and filled in at the end. Addresses are numbers and memory is a function
-- from them to bytes; an `i32` is kept as the number that its bits make, below `2 ^ 32`.
pub mod Memory
pub mod Branch
pub mod Marks
pub mod Registers
pub mod Stack
use minilua.Common.{
  ℕ, ◌+◌, ◌-◌, ◌*◌, ◌/◌, ◌%◌, ◌^◌, ◌||◌, bit_and, bit_or, Bool, ◌==◌, ltb, leb, if◌then◌else◌, List,
  [], ◌∷◌, ◌++◌, Option, none, some,
}

-- `p`, what memory holds, `op_addr`, and the addresses `fill[0]` up to `fill[ifill - 1]`
pub record Cc : Type 0 where
  pub p : ℕ
  pub mem : ℕ → ℕ
  pub op_addr : ℕ → ℕ
  pub fill : List ℕ

-- `cc_init`, with the address of the block that `mmap` gives, or `MAP_FAILED`
unfoldable pub cc_init : Option ℕ → Cc → ℕ × Cc
cc_init none c = (1, record c { p = 2 ^ 64 - 1 })
cc_init (some a) c = (0, record c { p = a; fill = [] })

abbrev pub rsp : ℕ
rsp = 4

abbrev pub r8 : ℕ
r8 = 8

unfoldable pub poke : (ℕ → ℕ) → ℕ → ℕ → ℕ → ℕ
poke m a b x = if x == a then b else m x

-- bytes written from an address on
unfoldable pub store : (ℕ → ℕ) → ℕ → List ℕ → ℕ → ℕ
unfolding poke
store m a [] = m
store m a (b ∷ bs) = store (poke m a b) (a + 1) bs

-- the bytes of an `i32`, the lowest first, as `memcpy` copies them
unfoldable pub bytes32 : ℕ → List ℕ
bytes32 n = (n % 256) ∷ (n / 256 % 256) ∷ (n / 65536 % 256) ∷ (n / 16777216 % 256) ∷ []

unfoldable pub bytes64 : ℕ → List ℕ
unfolding bytes32
bytes64 n = bytes32 n ++ bytes32 (n / 2 ^ 32)

-- the `i32` that stands at an address
unfoldable pub load32 : (ℕ → ℕ) → ℕ → ℕ
load32 m a = m a + 256 * m (a + 1) + 65536 * m (a + 2) + 16777216 * m (a + 3)

-- `*c->p++ = …` for each byte, `memcpy` to `p` and `cc_mcode`
unfoldable pub cc_mcode : List ℕ → Cc → Cc
unfolding store
cc_mcode [] c = c
cc_mcode (b ∷ bs) c = cc_mcode bs (record c { p = c.p + 1; mem = poke c.mem c.p b })

unfoldable pub rex : ℕ → ℕ → ℕ → ℕ → ℕ
rex w r x b =
    bit_or (bit_or (bit_or (bit_or 64 (w * 8)) (bit_and r 8 / 2)) (x * 2)) (bit_and b 8 / 8)

unfoldable pub modrm : ℕ → ℕ → ℕ → ℕ
modrm mode reg rm = bit_or (bit_or (bit_and mode 7 * 64) (bit_and reg 7 * 8)) (bit_and rm 7)

-- the three bytes of `cc_mov_rr`, `cc_xor_rr`, `cc_cmp_rr` and `cc_test_rr`
unfoldable pub rr : ℕ → ℕ → ℕ → List ℕ
unfolding rex modrm
rr op dest src = rex 1 src 0 dest ∷ op ∷ modrm 3 src dest ∷ []

unfoldable pub cc_mov_rr : ℕ → ℕ → Cc → Cc
unfolding rr cc_mcode
cc_mov_rr dest src = cc_mcode (rr 137 dest src)

unfoldable pub cc_xor_rr : ℕ → ℕ → Cc → Cc
unfolding rr cc_mcode
cc_xor_rr dest src = cc_mcode (rr 49 dest src)

unfoldable pub cc_cmp_rr : ℕ → ℕ → Cc → Cc
unfolding rr cc_mcode
cc_cmp_rr dest src = cc_mcode (rr 57 dest src)

unfoldable pub cc_test_rr : ℕ → ℕ → Cc → Cc
unfolding rr cc_mcode
cc_test_rr dest src = cc_mcode (rr 133 dest src)

unfoldable pub cc_movq_xr : ℕ → ℕ → Cc → Cc
unfolding rex modrm cc_mcode
cc_movq_xr dest src = cc_mcode (102 ∷ rex 1 dest 0 src ∷ 15 ∷ 110 ∷ modrm 3 dest src ∷ [])

unfoldable pub cc_movq_rx : ℕ → ℕ → Cc → Cc
unfolding rex modrm cc_mcode
cc_movq_rx dest src = cc_mcode (102 ∷ rex 1 src 0 dest ∷ 15 ∷ 126 ∷ modrm 3 src dest ∷ [])

unfoldable pub cc_mov_rl : ℕ → ℕ → Cc → Cc
unfolding cc_xor_rr bytes64
cc_mov_rl reg v =
    if v == 0
    then cc_xor_rr reg reg
    else cc_mcode ((if leb r8 reg then 73 else 72) ∷ bit_or 184 (bit_and reg 7) ∷ bytes64 v)

-- `n` slots of 8 bytes, in 32 bits
unfoldable pub slot_bytes : ℕ → List ℕ
unfolding bytes32
slot_bytes n = bytes32 (n * 8 % 2 ^ 32)

unfoldable pub cc_mov_rs : ℕ → ℕ → Cc → Cc
unfolding rex modrm slot_bytes cc_mcode
cc_mov_rs reg n = cc_mcode (rex 1 reg 0 rsp ∷ 139 ∷ modrm 2 reg rsp ∷ 36 ∷ slot_bytes n)

unfoldable pub cc_mov_sr : ℕ → ℕ → Cc → Cc
unfolding rex modrm slot_bytes cc_mcode
cc_mov_sr n reg = cc_mcode (rex 1 reg 0 rsp ∷ 137 ∷ modrm 2 reg rsp ∷ 36 ∷ slot_bytes n)

-- `push` and `pop`, whose opcodes start at 0x50 and 0x58
unfoldable pub short_op : ℕ → ℕ → List ℕ
short_op op reg = if leb r8 reg then 65 ∷ (op + bit_and reg 7) ∷ [] else (op + bit_and reg 7) ∷ []

unfoldable pub cc_push : ℕ → Cc → Cc
unfolding short_op cc_mcode
cc_push reg = cc_mcode (short_op 80 reg)

unfoldable pub cc_pop : ℕ → Cc → Cc
unfolding short_op cc_mcode
cc_pop reg = cc_mcode (short_op 88 reg)

-- `(u8*)f - next` in 32 bits, the addresses in 64
unfoldable pub offset_to : ℕ → ℕ → ℕ
offset_to f next = (f + (2 ^ 64 - next)) % 2 ^ 32

unfoldable pub cc_call : ℕ → Cc → Cc
unfolding bytes32 offset_to cc_mcode
cc_call f c = cc_mcode (232 ∷ bytes32 (offset_to f (c.p + 5))) c

unfoldable pub cc_jmp : ℕ → Cc → Cc
unfolding bytes32 offset_to cc_mcode
cc_jmp f c = cc_mcode (233 ∷ bytes32 (offset_to f (c.p + 5))) c

unfoldable pub cc_jz : ℕ → Cc → Cc
unfolding bytes32 offset_to cc_mcode
cc_jz f c = cc_mcode (15 ∷ 132 ∷ bytes32 (offset_to f (c.p + 6))) c

unfoldable pub cc_jnz : ℕ → Cc → Cc
unfolding bytes32 offset_to cc_mcode
cc_jnz f c = cc_mcode (15 ∷ 133 ∷ bytes32 (offset_to f (c.p + 6))) c

unfoldable pub cc_skip : ℕ → Cc → ℕ × Cc
cc_skip sz c = (c.p, record c { p = c.p + sz })

-- `-128 ≤ s ≤ 127`, of an `i32`
unfoldable pub fits_byte : ℕ → Bool
fits_byte s = ltb s 128 || leb (2 ^ 32 - 128) s

unfoldable pub rsp_op : ℕ → ℕ → Cc → Cc
unfolding fits_byte bytes32 cc_mcode
rsp_op m s =
    if fits_byte s
    then cc_mcode (72 ∷ 131 ∷ m ∷ (s % 256) ∷ [])
    else cc_mcode (72 ∷ 129 ∷ m ∷ bytes32 s)

unfoldable pub cc_subrsp : ℕ → Cc → Cc
unfolding rsp_op
cc_subrsp s = rsp_op 236 s

unfoldable pub cc_addrsp : ℕ → Cc → Cc
unfolding rsp_op
cc_addrsp s = rsp_op 196 s

unfoldable pub sd_op : ℕ → ℕ → ℕ → Cc → Cc
unfolding modrm cc_mcode
sd_op op dest src = cc_mcode (242 ∷ 15 ∷ op ∷ modrm 3 dest src ∷ [])

-- `cc_addsd`, `cc_subsd`, `cc_mulsd`, `cc_divsd`
unfoldable pub cc_addsd : ℕ → ℕ → Cc → Cc
unfolding sd_op
cc_addsd = sd_op 88

unfoldable pub cc_subsd : ℕ → ℕ → Cc → Cc
unfolding sd_op
cc_subsd = sd_op 92

unfoldable pub cc_mulsd : ℕ → ℕ → Cc → Cc
unfolding sd_op
cc_mulsd = sd_op 89

unfoldable pub cc_divsd : ℕ → ℕ → Cc → Cc
unfolding sd_op
cc_divsd = sd_op 94

-- `memcpy(addr - 4, &target, 4)`, and the address goes to `fill`, at its end
unfoldable pub cc_mark : ℕ → Cc → Cc
unfolding store bytes32
cc_mark target c = record c {
  mem = store c.mem (c.p - 4) (bytes32 target);
  fill = c.fill ++ (c.p ∷ []);
}

unfoldable pub fill_mark : (ℕ → ℕ) → (ℕ → ℕ) → ℕ → ℕ → ℕ
unfolding store bytes32 load32 offset_to
fill_mark op_addr m addr =
    store m (addr - 4) (bytes32 (offset_to (op_addr (load32 m (addr - 4))) addr))

unfoldable pub fill_loop : (ℕ → ℕ) → List ℕ → (ℕ → ℕ) → ℕ → ℕ
unfolding fill_mark
fill_loop op_addr [] m = m
fill_loop op_addr (addr ∷ addrs) m = fill_loop op_addr addrs (fill_mark op_addr m addr)

unfoldable pub cc_fill_marks : Cc → Cc
unfolding fill_loop
cc_fill_marks c = record c { mem = fill_loop c.op_addr c.fill c.mem }

unfoldable pub cc_leave : Cc → Cc
unfolding cc_mcode
cc_leave = cc_mcode (201 ∷ [])

unfoldable pub cc_ret : Cc → Cc
unfolding cc_mcode
cc_ret = cc_mcode (195 ∷ [])

unfoldable pub cc_nop : Cc → Cc
unfolding cc_mcode
cc_nop = cc_mcode (144 ∷ [])
