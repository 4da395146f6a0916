-- ===== src/Ir/Ops.antt =====
-- The codes and bounds of ir.h.
use minilua.Common.{ℕ}

abbrev pub ir_op_lcopy : ℕ
ir_op_lcopy = 1024

abbrev pub ir_op_tload : ℕ
ir_op_tload = 1025

abbrev pub ir_op_tstore : ℕ
ir_op_tstore = 1026

abbrev pub ir_op_gload : ℕ
ir_op_gload = 1027

abbrev pub ir_op_gstore : ℕ
ir_op_gstore = 1028

abbrev pub ir_op_newtbl : ℕ
ir_op_newtbl = 1029

abbrev pub ir_op_inc : ℕ
ir_op_inc = 1030

abbrev pub ir_op_dec : ℕ
ir_op_dec = 1031

abbrev pub ir_op_phi : ℕ
ir_op_phi = 1032

abbrev pub ir_op_copy : ℕ
ir_op_copy = 1033

abbrev pub ir_op_param : ℕ
ir_op_param = 1034

abbrev pub ir_op_arg : ℕ
ir_op_arg = 1035

abbrev pub ir_op_call : ℕ
ir_op_call = 1036

abbrev pub ir_op_ret : ℕ
ir_op_ret = 1037

abbrev pub ir_op_disp : ℕ
ir_op_disp = 1038

abbrev pub ir_op_noop : ℕ
ir_op_noop = 1039

abbrev pub ir_op_jmp : ℕ
ir_op_jmp = 2048

abbrev pub ir_op_jz : ℕ
ir_op_jz = 2049

abbrev pub ir_op_jnz : ℕ
ir_op_jnz = 2050

abbrev pub ir_op_je : ℕ
ir_op_je = 2051

abbrev pub ir_op_jne : ℕ
ir_op_jne = 2052

abbrev pub ir_mark : ℕ
ir_mark = 4096

abbrev pub ir_loop_header : ℕ
ir_loop_header = 4097

abbrev pub ir_loop_begin : ℕ
ir_loop_begin = 4098

abbrev pub ir_loop_end : ℕ
ir_loop_end = 4099

abbrev pub ir_function_begin : ℕ
ir_function_begin = 4100

abbrev pub ir_function_end : ℕ
ir_function_end = 4101

abbrev pub ir_no_arg : ℕ
ir_no_arg = 32768

abbrev pub ir_no_target : ℕ
ir_no_target = 65535

abbrev pub ir_depth_max : ℕ
ir_depth_max = 128

abbrev pub ir_ctt_max : ℕ
ir_ctt_max = 4096

abbrev pub ir_op_max : ℕ
ir_op_max = 65536

abbrev pub phi_cond : ℕ
phi_cond = 0

abbrev pub phi_do : ℕ
phi_do = 1

abbrev pub phi_loop_join : ℕ
phi_loop_join = 2

abbrev pub phi_repeat : ℕ
phi_repeat = 3
