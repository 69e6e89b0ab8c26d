-- ===== src/Bpf/Move.antt =====
-- The moves of `bpf2llvm::lift` (src/lifter/bpf2llvm.cpp).
pub mod Values
use bpf_tv.Common.{ℕ, none, some, Option}
use bpf_tv.Words.{ℤ, to_word}
use bpf_tv.Llvm.Ir.{int, Value}
use bpf_tv.Mc.Opcode.{Move}
use bpf_tv.Mc.Inst.{Operand, imm, expr}
use bpf_tv.Lifter.State.{M, ◌>>=◌, pure}
use bpf_tv.Lifter.Build.{get_unsigned_int_const, create_trunc, create_sext, create_ptr_to_int}
use bpf_tv.Bpf.Operands.{
  get_operand, get_symbol, read_reg_operand_64, read_reg_operand_32, read_imm_operand,
}
use bpf_tv.Bpf.Alu.{update_dst_64, update_dst_32}
use bpf_tv.Bpf.Call.{Env, get_expr_var}

-- Sign-extend the lowest `bits` of the source, into a register of 64 bits and of 32.
unfoldable pub movsx64 : ℕ → M (Unit {0})
unfolding read_reg_operand_64 create_trunc create_sext update_dst_64
movsx64 bits = do
  x ← read_reg_operand_64 1
  v ← create_trunc x (int bits)
  e ← create_sext v (int 64)
  update_dst_64 e

unfoldable pub movsx32 : ℕ → M (Unit {0})
unfolding read_reg_operand_32 create_trunc create_sext update_dst_32
movsx32 bits = do
  x ← read_reg_operand_32 1
  v ← create_trunc x (int bits)
  e ← create_sext v (int 32)
  update_dst_32 e

-- An immediate as `uint64_t`, or the address of a global.
unfoldable pub imm64_value : Env → Operand → M Value
unfolding get_unsigned_int_const get_expr_var create_ptr_to_int
imm64_value e (imm z) = get_unsigned_int_const (to_word 64 z) 64
imm64_value e op = do n ← get_symbol op; g ← get_expr_var e n; create_ptr_to_int g.value (int 64)

unfoldable pub lift_move : Env → Move → M (Unit {0})
unfolding read_reg_operand_64 read_reg_operand_32 read_imm_operand update_dst_64 update_dst_32
    create_sext get_operand movsx64 movsx32 imm64_value
lift_move e Move.mov_rr = do v ← read_reg_operand_64 1; update_dst_64 v
lift_move e Move.mov_ri = do v ← read_imm_operand 1 64; update_dst_64 v
lift_move e Move.mov_rr_32 = do v ← read_reg_operand_32 1; update_dst_32 v
lift_move e Move.mov_ri_32 = do v ← read_imm_operand 1 32; update_dst_32 v
lift_move e Move.mov_32_64 = do v ← read_reg_operand_32 1; update_dst_32 v
lift_move e Move.movsx_rr_8 = movsx64 8
lift_move e Move.movsx_rr_16 = movsx64 16
lift_move e Move.movsx_rr_32 = do
  v ← read_reg_operand_32 1
  x ← create_sext v (int 64)
  update_dst_64 x
lift_move e Move.movsx_rr_32_8 = movsx32 8
lift_move e Move.movsx_rr_32_16 = movsx32 16
lift_move e Move.ld_imm64 = do op ← get_operand 1; v ← imm64_value e op; update_dst_64 v
