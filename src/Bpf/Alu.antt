-- ===== src/Bpf/Alu.antt =====
-- The ALU cases of `bpf2llvm::lift` (src/lifter/bpf2llvm.cpp) and the lambdas that they share.
pub mod Binary
pub mod Wide
pub mod Narrow
use bpf_tv.Common.{ℕ, ◌==◌, ltb, if◌then◌else◌, Bool, true, false}
use bpf_tv.Llvm.Ir.{int, Value, BinOp}
use bpf_tv.Mc.Opcode.{Alu64, Alu32, Endian}
use bpf_tv.Lifter.State.{M, ◌>>=◌, ◌>>◌, pure}
use bpf_tv.Lifter.Build.{
  get_unsigned_int_const, create_binop, create_sub, create_trunc, create_zext, create_bswap,
  create_masked_shl, create_masked_lshr, create_masked_ashr,
}
use bpf_tv.Lifter.Checked.{
  create_checked_udiv, create_checked_sdiv, create_checked_urem, create_checked_srem,
}
use bpf_tv.Bpf.Regs.{update_reg_64, update_reg_32}
use bpf_tv.Bpf.Operands.{
  get_operand, get_reg, read_reg_operand_64, read_reg_operand_32, read_alu_src_operand,
}

-- `updateReg64(v, CurInst->getOperand(0).getReg())`, and the same on 32 bits.
unfoldable pub update_dst_64 : Value → M (Unit {0})
unfolding get_operand update_reg_64
update_dst_64 v = do op ← get_operand 0; x ← get_reg op; update_reg_64 v x

unfoldable pub update_dst_32 : Value → M (Unit {0})
unfolding get_operand update_reg_32
update_dst_32 v = do op ← get_operand 0; x ← get_reg op; update_reg_32 v x

unfoldable pub alu64 : BinOp → M (Unit {0})
unfolding read_reg_operand_64 read_alu_src_operand create_binop update_dst_64
alu64 op = do
  a ← read_reg_operand_64 1
  b ← read_alu_src_operand 2 64
  v ← create_binop a b op
  update_dst_64 v

unfoldable pub alu32 : BinOp → M (Unit {0})
unfolding read_reg_operand_32 read_alu_src_operand create_binop update_dst_32
alu32 op = do
  a ← read_reg_operand_32 1
  b ← read_alu_src_operand 2 32
  v ← create_binop a b op
  update_dst_32 v

unfoldable pub shift64 : (Value → Value → M Value) → M (Unit {0})
unfolding read_reg_operand_64 read_alu_src_operand update_dst_64
shift64 shifter = do
  a ← read_reg_operand_64 1
  b ← read_alu_src_operand 2 64
  v ← shifter a b
  update_dst_64 v

unfoldable pub shift32 : (Value → Value → M Value) → M (Unit {0})
unfolding read_reg_operand_32 read_alu_src_operand update_dst_32
shift32 shifter = do
  a ← read_reg_operand_32 1
  b ← read_alu_src_operand 2 32
  v ← shifter a b
  update_dst_32 v

-- Swap the lowest `bits`, or only cut them off.
unfoldable pub endian : ℕ → Bool → M (Unit {0})
unfolding read_reg_operand_64 create_trunc create_bswap create_zext update_dst_64
endian bits swap = do
  v ← read_reg_operand_64 1
  low ← (if ltb bits 64 then create_trunc v (int bits) else pure v)
  swapped ← (if swap then create_bswap low else pure low)
  wide ← (if ltb bits 64 then create_zext swapped (int 64) else pure swapped)
  update_dst_64 wide

unfoldable pub div64 : M (Unit {0})
unfolding read_reg_operand_64 read_alu_src_operand get_unsigned_int_const create_checked_udiv
    update_dst_64
div64 = do
  a ← read_reg_operand_64 1
  b ← read_alu_src_operand 2 64
  zero ← get_unsigned_int_const 0 64
  v ← create_checked_udiv a b zero
  update_dst_64 v

unfoldable pub mod64 : M (Unit {0})
unfolding read_reg_operand_64 read_alu_src_operand create_checked_urem update_dst_64
mod64 = do
  a ← read_reg_operand_64 1
  b ← read_alu_src_operand 2 64
  v ← create_checked_urem a b a
  update_dst_64 v

unfoldable pub sdiv64 : M (Unit {0})
unfolding read_reg_operand_64 read_alu_src_operand get_unsigned_int_const create_checked_sdiv
    update_dst_64
sdiv64 = do
  a ← read_reg_operand_64 1
  b ← read_alu_src_operand 2 64
  zero ← get_unsigned_int_const 0 64
  v ← create_checked_sdiv a b zero a
  update_dst_64 v

unfoldable pub smod64 : M (Unit {0})
unfolding read_reg_operand_64 read_alu_src_operand get_unsigned_int_const create_checked_srem
    update_dst_64
smod64 = do
  a ← read_reg_operand_64 1
  b ← read_alu_src_operand 2 64
  zero ← get_unsigned_int_const 0 64
  v ← create_checked_srem a b a zero
  update_dst_64 v

unfoldable pub neg64 : M (Unit {0})
unfolding read_reg_operand_64 get_unsigned_int_const create_sub update_dst_64
neg64 = do
  v ← read_reg_operand_64 1
  zero ← get_unsigned_int_const 0 64
  n ← create_sub zero v
  update_dst_64 n

unfoldable pub div32 : M (Unit {0})
unfolding read_reg_operand_32 read_alu_src_operand get_unsigned_int_const create_checked_udiv
    update_dst_32
div32 = do
  a ← read_reg_operand_32 1
  b ← read_alu_src_operand 2 32
  zero ← get_unsigned_int_const 0 32
  v ← create_checked_udiv a b zero
  update_dst_32 v

unfoldable pub mod32 : M (Unit {0})
unfolding read_reg_operand_32 read_alu_src_operand create_checked_urem update_dst_32
mod32 = do
  a ← read_reg_operand_32 1
  b ← read_alu_src_operand 2 32
  v ← create_checked_urem a b a
  update_dst_32 v

unfoldable pub sdiv32 : M (Unit {0})
unfolding read_reg_operand_32 read_alu_src_operand get_unsigned_int_const create_checked_sdiv
    update_dst_32
sdiv32 = do
  a ← read_reg_operand_32 1
  b ← read_alu_src_operand 2 32
  zero ← get_unsigned_int_const 0 32
  v ← create_checked_sdiv a b zero a
  update_dst_32 v

unfoldable pub smod32 : M (Unit {0})
unfolding read_reg_operand_32 read_alu_src_operand get_unsigned_int_const create_checked_srem
    update_dst_32
smod32 = do
  a ← read_reg_operand_32 1
  b ← read_alu_src_operand 2 32
  zero ← get_unsigned_int_const 0 32
  v ← create_checked_srem a b a zero
  update_dst_32 v

unfoldable pub neg32 : M (Unit {0})
unfolding read_reg_operand_32 get_unsigned_int_const create_sub update_dst_32
neg32 = do
  v ← read_reg_operand_32 1
  zero ← get_unsigned_int_const 0 32
  n ← create_sub zero v
  update_dst_32 n

unfoldable pub lift_alu64 : Alu64 → M (Unit {0})
lift_alu64 Alu64.add_rr = alu64 BinOp.add
lift_alu64 Alu64.add_ri = alu64 BinOp.add
lift_alu64 Alu64.sub_rr = alu64 BinOp.sub
lift_alu64 Alu64.sub_ri = alu64 BinOp.sub
lift_alu64 Alu64.mul_rr = alu64 BinOp.mul
lift_alu64 Alu64.mul_ri = alu64 BinOp.mul
lift_alu64 Alu64.and_rr = alu64 BinOp.and
lift_alu64 Alu64.and_ri = alu64 BinOp.and
lift_alu64 Alu64.or_rr = alu64 BinOp.or
lift_alu64 Alu64.or_ri = alu64 BinOp.or
lift_alu64 Alu64.xor_rr = alu64 BinOp.xor
lift_alu64 Alu64.xor_ri = alu64 BinOp.xor
lift_alu64 Alu64.sll_rr = shift64 create_masked_shl
lift_alu64 Alu64.sll_ri = shift64 create_masked_shl
lift_alu64 Alu64.srl_rr = shift64 create_masked_lshr
lift_alu64 Alu64.srl_ri = shift64 create_masked_lshr
lift_alu64 Alu64.sra_rr = shift64 create_masked_ashr
lift_alu64 Alu64.sra_ri = shift64 create_masked_ashr
lift_alu64 Alu64.div_rr = div64
lift_alu64 Alu64.div_ri = div64
lift_alu64 Alu64.mod_rr = mod64
lift_alu64 Alu64.mod_ri = mod64
lift_alu64 Alu64.sdiv_rr = sdiv64
lift_alu64 Alu64.sdiv_ri = sdiv64
lift_alu64 Alu64.smod_rr = smod64
lift_alu64 Alu64.smod_ri = smod64
lift_alu64 Alu64.neg_64 = neg64

unfoldable pub lift_alu32 : Alu32 → M (Unit {0})
lift_alu32 Alu32.add_rr_32 = alu32 BinOp.add
lift_alu32 Alu32.add_ri_32 = alu32 BinOp.add
lift_alu32 Alu32.sub_rr_32 = alu32 BinOp.sub
lift_alu32 Alu32.sub_ri_32 = alu32 BinOp.sub
lift_alu32 Alu32.mul_rr_32 = alu32 BinOp.mul
lift_alu32 Alu32.mul_ri_32 = alu32 BinOp.mul
lift_alu32 Alu32.and_rr_32 = alu32 BinOp.and
lift_alu32 Alu32.and_ri_32 = alu32 BinOp.and
lift_alu32 Alu32.or_rr_32 = alu32 BinOp.or
lift_alu32 Alu32.or_ri_32 = alu32 BinOp.or
lift_alu32 Alu32.xor_rr_32 = alu32 BinOp.xor
lift_alu32 Alu32.xor_ri_32 = alu32 BinOp.xor
lift_alu32 Alu32.sll_rr_32 = shift32 create_masked_shl
lift_alu32 Alu32.sll_ri_32 = shift32 create_masked_shl
lift_alu32 Alu32.srl_rr_32 = shift32 create_masked_lshr
lift_alu32 Alu32.srl_ri_32 = shift32 create_masked_lshr
lift_alu32 Alu32.sra_rr_32 = shift32 create_masked_ashr
lift_alu32 Alu32.sra_ri_32 = shift32 create_masked_ashr
lift_alu32 Alu32.div_rr_32 = div32
lift_alu32 Alu32.div_ri_32 = div32
lift_alu32 Alu32.mod_rr_32 = mod32
lift_alu32 Alu32.mod_ri_32 = mod32
lift_alu32 Alu32.sdiv_rr_32 = sdiv32
lift_alu32 Alu32.sdiv_ri_32 = sdiv32
lift_alu32 Alu32.smod_rr_32 = smod32
lift_alu32 Alu32.smod_ri_32 = smod32
lift_alu32 Alu32.neg_32 = neg32

unfoldable pub lift_endian : Endian → M (Unit {0})
lift_endian Endian.be16 = endian 16 true
lift_endian Endian.bswap16 = endian 16 true
lift_endian Endian.bswap32 = endian 32 true
lift_endian Endian.bswap64 = endian 64 true
lift_endian Endian.be32 = endian 32 true
lift_endian Endian.be64 = endian 64 true
lift_endian Endian.le16 = endian 16 false
lift_endian Endian.le32 = endian 32 false
lift_endian Endian.le64 = endian 64 false
