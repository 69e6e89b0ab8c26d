-- ===== src/Bpf/Control.antt =====
-- Branches of `bpf2llvm::lift` and `doReturn` (src/lifter/bpf2llvm.cpp).
pub mod Jumps
pub mod Branches
use bpf_tv.Common.{
  ℕ, ◌==◌, ltb, leb, ◌&&◌, if◌then◌else◌, Bool, true, false, none, some, List, [], ◌∷◌, String,
  assertion, length,
}
use bpf_tv.Llvm.Ir.{Ty, int, ptr, void, get_bit_width_ty, Value, Predicate}
use bpf_tv.Mc.Opcode.{Jump}
use bpf_tv.Mc.Inst.{Operand, reg, imm, expr, r}
use bpf_tv.Lifter.State.{Lifter, M, ◌>>=◌, ◌>>◌, pure, fail, assert}
use bpf_tv.Lifter.Build.{
  get_unsigned_int_const, get_bb_by_name, create_icmp, create_and, create_branch,
  create_cond_branch, create_return, create_int_to_ptr, create_trunc, create_zext,
}
use bpf_tv.Bpf.Regs.{read_reg_64}
use bpf_tv.Bpf.Operands.{
  get_operand, read_reg_operand_64, read_reg_operand_32, read_alu_src_operand,
  get_branch_targets_operand,
}
use bpf_tv.Bpf.Call.{Env}

unfoldable pub cond_br : Predicate → ℕ → M (Unit {0})
unfolding read_reg_operand_64 read_reg_operand_32 read_alu_src_operand create_icmp
    get_branch_targets_operand create_cond_branch
cond_br pred bits = do
  a ← (if bits == 64 then read_reg_operand_64 0 else read_reg_operand_32 0)
  b ← read_alu_src_operand 1 bits
  cond ← create_icmp pred a b
  targets ← get_branch_targets_operand 2
  create_cond_branch cond targets.0 targets.1

-- Branch if the operands have a bit in common.
unfoldable pub jset : ℕ → M (Unit {0})
unfolding read_reg_operand_64 read_reg_operand_32 read_alu_src_operand create_icmp create_and
    get_unsigned_int_const get_branch_targets_operand create_cond_branch
jset bits = do
  a ← (if bits == 64 then read_reg_operand_64 0 else read_reg_operand_32 0)
  b ← read_alu_src_operand 1 bits
  both ← create_and a b
  zero ← get_unsigned_int_const 0 bits
  cond ← create_icmp Predicate.ne both zero
  targets ← get_branch_targets_operand 2
  create_cond_branch cond targets.0 targets.1

-- The successor of a block that has just one.
abbrev only_successor : List String → M String
only_successor (n ∷ []) = pure n
only_successor _ = fail assertion

abbrev jump_to : Operand → M (Unit {0})
unfolding get_bb_by_name create_branch
jump_to (expr n) = do bb ← get_bb_by_name n; create_branch bb
jump_to _ = do n ← (λ s. only_successor s.succs s); bb ← get_bb_by_name n; create_branch bb

unfoldable pub jump : M (Unit {0})
unfolding get_operand get_bb_by_name create_branch
jump = do op ← get_operand 0; jump_to op

unfoldable pub lift_jump : Jump → M (Unit {0})
lift_jump Jump.jmp = jump
lift_jump Jump.jmpl = jump
lift_jump Jump.jeq_rr = cond_br Predicate.eq 64
lift_jump Jump.jeq_ri = cond_br Predicate.eq 64
lift_jump Jump.jne_rr = cond_br Predicate.ne 64
lift_jump Jump.jne_ri = cond_br Predicate.ne 64
lift_jump Jump.jugt_rr = cond_br Predicate.ugt 64
lift_jump Jump.jugt_ri = cond_br Predicate.ugt 64
lift_jump Jump.juge_rr = cond_br Predicate.uge 64
lift_jump Jump.juge_ri = cond_br Predicate.uge 64
lift_jump Jump.jult_rr = cond_br Predicate.ult 64
lift_jump Jump.jult_ri = cond_br Predicate.ult 64
lift_jump Jump.jule_rr = cond_br Predicate.ule 64
lift_jump Jump.jule_ri = cond_br Predicate.ule 64
lift_jump Jump.jsgt_rr = cond_br Predicate.sgt 64
lift_jump Jump.jsgt_ri = cond_br Predicate.sgt 64
lift_jump Jump.jsge_rr = cond_br Predicate.sge 64
lift_jump Jump.jsge_ri = cond_br Predicate.sge 64
lift_jump Jump.jslt_rr = cond_br Predicate.slt 64
lift_jump Jump.jslt_ri = cond_br Predicate.slt 64
lift_jump Jump.jsle_rr = cond_br Predicate.sle 64
lift_jump Jump.jsle_ri = cond_br Predicate.sle 64
lift_jump Jump.jeq_rr_32 = cond_br Predicate.eq 32
lift_jump Jump.jeq_ri_32 = cond_br Predicate.eq 32
lift_jump Jump.jne_rr_32 = cond_br Predicate.ne 32
lift_jump Jump.jne_ri_32 = cond_br Predicate.ne 32
lift_jump Jump.jugt_rr_32 = cond_br Predicate.ugt 32
lift_jump Jump.jugt_ri_32 = cond_br Predicate.ugt 32
lift_jump Jump.juge_rr_32 = cond_br Predicate.uge 32
lift_jump Jump.juge_ri_32 = cond_br Predicate.uge 32
lift_jump Jump.jult_rr_32 = cond_br Predicate.ult 32
lift_jump Jump.jult_ri_32 = cond_br Predicate.ult 32
lift_jump Jump.jule_rr_32 = cond_br Predicate.ule 32
lift_jump Jump.jule_ri_32 = cond_br Predicate.ule 32
lift_jump Jump.jsgt_rr_32 = cond_br Predicate.sgt 32
lift_jump Jump.jsgt_ri_32 = cond_br Predicate.sgt 32
lift_jump Jump.jsge_rr_32 = cond_br Predicate.sge 32
lift_jump Jump.jsge_ri_32 = cond_br Predicate.sge 32
lift_jump Jump.jslt_rr_32 = cond_br Predicate.slt 32
lift_jump Jump.jslt_ri_32 = cond_br Predicate.slt 32
lift_jump Jump.jsle_rr_32 = cond_br Predicate.sle 32
lift_jump Jump.jsle_ri_32 = cond_br Predicate.sle 32
lift_jump Jump.jset_rr = jset 64
lift_jump Jump.jset_ri = jset 64
lift_jump Jump.jset_rr_32 = jset 32
lift_jump Jump.jset_ri_32 = jset 32

-- An integer result: cut to its type, and without bits that the source leaves open.
return_int : Env → ℕ → Value → M (Unit {0})
unfolding create_trunc create_zext create_return
return_int e width v = do
  x ← (if ltb width 64 then create_trunc v (int width) else pure v)
  y ←
      (if e.has_ret_attr && ltb e.orig_ret_width 32
        then (do
          assert (leb e.orig_ret_width width)
          assert (width == 64)
          t ← create_trunc x (int 32)
          create_zext t (int 64))
        else pure x)
  create_return (some y)

abbrev return_value : Env → Ty → M (Unit {0})
unfolding return_int read_reg_64 create_int_to_ptr create_return
return_value e void = create_return none
return_value e ptr = do v ← read_reg_64 (r 0); p ← create_int_to_ptr v; create_return (some p)
return_value e t = do v ← read_reg_64 (r 0); return_int e (get_bit_width_ty t) v

unfoldable pub do_return : Env → M (Unit {0})
unfolding return_int read_reg_64 create_int_to_ptr create_return
do_return e = return_value e e.ret_type
