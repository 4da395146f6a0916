-- ===== src/Ir.antt =====
-- ir.h and ir.c: the three-address code of a chunk, its constants and the stack of phi functions,
-- which grows down from the end of the code. A number of 16 or 32 bits is kept as its bits.
pub mod Ops
pub mod Slots
pub mod Intern
pub mod Peephole
pub mod Fold
pub mod Phi
pub mod Commit
pub mod Elim
use minilua.Common.{
  ℕ, zero, suc, ◌+◌, ◌-◌, ◌*◌, ◌/◌, ◌%◌, ◌^◌, Bool, ◌&&◌, ◌||◌, not, ◌==◌, ltb, leb, if◌then◌else◌,
  List, [], ◌∷◌, ◌++◌, length, Run, done, fault, stuck, ◌>>=◌, bit_and,
}
use minilua.Rhhm.{Rhhm, rhhm_init, rhhm_get, rhhm_set, bv_nil}
use minilua.Rhhm.Keys.{rhhm_bb_hash, rhhm_bb_cmp}
use minilua.Ir.Ops.{ir_op_phi, ir_op_noop, ir_op_jmp, ir_mark, ir_ctt_max, ir_op_max, ir_depth_max}

pub record Tac : Type 0 where
  pub op : ℕ
  pub a : ℕ
  pub b : ℕ
  pub target : ℕ

-- `ops` gives what stands in each place of the array, of which `size` are code
pub record Ir : Type 0 where
  pub ctt_map : Rhhm
  pub ctts : List ℕ
  pub ops : ℕ → Tac
  pub size : ℕ
  pub iv : ℕ
  pub phi_join_pos : ℕ → ℕ
  pub phi_join_type : ℕ → ℕ
  pub iphi : ℕ
  pub phidepth : ℕ

unfoldable pub ir_is_jmp : ℕ → Bool
ir_is_jmp op = not (bit_and op ir_op_jmp == 0)

unfoldable pub ir_is_mark : ℕ → Bool
ir_is_mark op = not (bit_and op ir_mark == 0)

unfoldable pub ir_current : Ir → ℕ
ir_current c = c.size

unfoldable pub ir_newvar : Ir → ℕ × Ir
ir_newvar c = (c.iv, record c { iv = c.iv + 1 })

-- The status of `rhhm_init` is 0, so that of `ir_init` is.
unfoldable pub ir_init : Ir → Ir
unfolding rhhm_init
ir_init c = record c {
  ctt_map = rhhm_init (ir_ctt_max * 2) 0;
  ctts = [];
  size = 0;
  iv = 0;
  iphi = ir_op_max;
  phidepth = 0;
}

-- the `int` -n, and -n in the 64 bits of a value
abbrev pub minus32 : ℕ → ℕ
minus32 n = 2 ^ 32 - n

abbrev pub minus64 : ℕ → ℕ
minus64 n = 2 ^ 64 - n

-- The constant `v` is new: it is the last one, and the map gives its number from now on.
unfoldable pub ctt_push : (ℕ → ℕ) → Bool → Ir → ℕ → Run (ℕ × Ir)
ctt_push tbl_hash alloc c v = do
  let n = length c.ctts + 1
  map ← rhhm_set (rhhm_bb_hash tbl_hash) rhhm_bb_cmp alloc c.ctt_map v (minus64 n)
  done (minus32 n, record c { ctt_map = map; ctts = c.ctts ++ (v ∷ []) })

-- `tbl_hash` gives the hash of the table at an address, `alloc` says whether there is memory
unfoldable pub ir_ctt : (ℕ → ℕ) → Bool → Ir → ℕ → Run (ℕ × Ir)
unfolding ctt_push
ir_ctt tbl_hash alloc c v = if length c.ctts == ir_ctt_max then fault else (do
  idx ← rhhm_get (rhhm_bb_hash tbl_hash) rhhm_bb_cmp c.ctt_map v
  if idx == bv_nil then ctt_push tbl_hash alloc c v else done (idx % 2 ^ 32, c))

abbrev pub write : (ℕ → Tac) → ℕ → Tac → ℕ → Tac
write ops i t j = if j == i then t else ops j

-- `ir_op` returns `t`
unfoldable pub ir_op : Ir → ℕ → ℕ → ℕ → ℕ → Run (ℕ × Ir)
ir_op c op a b t =
    if c.size == ir_op_max
    then fault
    else done (
      t,
      record c {
        ops = write c.ops c.size (record { op = op; a = a; b = b; target = t });
        size = c.size + 1;
      },
    )

-- An index before the array or behind `phi_join_pos` is a fault; so `phi_join_pos[0]` is not used.
unfoldable pub ir_phi_begin : Ir → ℕ → Run (ℕ × Ir)
ir_phi_begin c type =
    if c.iphi == 0 || leb ir_depth_max (c.phidepth + 1)
    then fault
    else (let i = c.iphi - 1 in
        let depth = c.phidepth + 1 in
        done (
          depth,
          record c {
            iphi = i;
            ops = write c.ops i (record (c.ops i) { op = ir_op_noop });
            phidepth = depth;
            phi_join_pos = λ k. if k == depth then c.size else c.phi_join_pos k;
            phi_join_type = λ k. if k == depth then type else c.phi_join_type k;
          },
        ))

-- an `i16` as an `int`
unfoldable pub sext : ℕ → ℕ
sext a = if ltb a 32768 then a else a + (2 ^ 32 - 2 ^ 16)

-- where the loop of `ir_phi_ins` ends: at an entry for `old`, or at the mark
pub data PhiEntry : Type 0 where
  found : ℕ → PhiEntry
  missing : PhiEntry

unfoldable pub phi_loop : ℕ → (ℕ → Tac) → ℕ → ℕ → Run PhiEntry
unfolding sext
phi_loop zero ops old i = fault
phi_loop (suc fuel) ops old i =
    let rest = phi_loop fuel ops old (i + 1) in
    if (ops i).op == ir_op_noop
    then done missing
    else if sext (ops i).a == old || sext (ops i).b == old
    then done (found i)
    else rest

unfoldable pub phi_put : Ir → ℕ → ℕ → PhiEntry → Run (ℕ × Ir)
phi_put c val old (found i) =
    done (0, record c { ops = write c.ops i (record (c.ops i) { a = val % 2 ^ 16 }) })
phi_put c val old missing =
    if c.iphi == 0
    then fault
    else (let i = c.iphi - 1 in
        let phi : Tac = record {
          op = ir_op_phi;
          a = val % 2 ^ 16;
          b = old % 2 ^ 16;
          target = old % 2 ^ 16;
        } in
        done (0, record c { iphi = i; ops = write c.ops i phi }))

-- The places up to the end of the array are what the loop can read: a fault is a read beyond it.
unfoldable pub ir_phi_ins : Ir → ℕ → ℕ → Run (ℕ × Ir)
unfolding phi_loop phi_put
ir_phi_ins c val old =
    if c.phidepth == 0
    then done (1, c)
    else (do e ← phi_loop (ir_op_max - c.iphi) c.ops old c.iphi; phi_put c val old e)
