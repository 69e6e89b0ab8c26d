-- ===== src/Isa/Branch.antt =====
-- The conditional jumps of the instruction set: what each compares, and when it is taken.
use bpf_tv.Common.{ℕ, ◌==◌, ltb, leb, not, bit_and, Bool, [], ◌∷◌, String, none}
use bpf_tv.Words.{signed, ltb_ℤ}
use bpf_tv.Mc.Opcode.{Jump, Opcode}
use bpf_tv.Mc.Inst.{Register, Operand, reg, expr, McInst, mc_inst}

pub data Condition : Type 0 where
  eq ne gt ge lt le sgt sge slt sle set : Condition

-- `a cond b` on words of `w` bits; `set` is that they have a bit in common.
unfoldable pub holds : ℕ → Condition → ℕ → ℕ → Bool
holds w Condition.eq a b = a == b
holds w Condition.ne a b = not (a == b)
holds w Condition.gt a b = ltb b a
holds w Condition.ge a b = leb b a
holds w Condition.lt a b = ltb a b
holds w Condition.le a b = leb a b
holds w Condition.sgt a b = ltb_ℤ (signed w b) (signed w a)
holds w Condition.sge a b = not (ltb_ℤ (signed w a) (signed w b))
holds w Condition.slt a b = ltb_ℤ (signed w a) (signed w b)
holds w Condition.sle a b = not (ltb_ℤ (signed w b) (signed w a))
holds w Condition.set a b = not (bit_and a b == 0)

-- The opcodes that compare 64 bits and 32; the flag is for an immediate.
abbrev pub jump_64 : Condition → Bool → Jump
jump_64 Condition.eq Bool.false = Jump.jeq_rr
jump_64 Condition.eq Bool.true = Jump.jeq_ri
jump_64 Condition.ne Bool.false = Jump.jne_rr
jump_64 Condition.ne Bool.true = Jump.jne_ri
jump_64 Condition.gt Bool.false = Jump.jugt_rr
jump_64 Condition.gt Bool.true = Jump.jugt_ri
jump_64 Condition.ge Bool.false = Jump.juge_rr
jump_64 Condition.ge Bool.true = Jump.juge_ri
jump_64 Condition.lt Bool.false = Jump.jult_rr
jump_64 Condition.lt Bool.true = Jump.jult_ri
jump_64 Condition.le Bool.false = Jump.jule_rr
jump_64 Condition.le Bool.true = Jump.jule_ri
jump_64 Condition.sgt Bool.false = Jump.jsgt_rr
jump_64 Condition.sgt Bool.true = Jump.jsgt_ri
jump_64 Condition.sge Bool.false = Jump.jsge_rr
jump_64 Condition.sge Bool.true = Jump.jsge_ri
jump_64 Condition.slt Bool.false = Jump.jslt_rr
jump_64 Condition.slt Bool.true = Jump.jslt_ri
jump_64 Condition.sle Bool.false = Jump.jsle_rr
jump_64 Condition.sle Bool.true = Jump.jsle_ri
jump_64 Condition.set Bool.false = Jump.jset_rr
jump_64 Condition.set Bool.true = Jump.jset_ri

abbrev pub jump_32 : Condition → Bool → Jump
jump_32 Condition.eq Bool.false = Jump.jeq_rr_32
jump_32 Condition.eq Bool.true = Jump.jeq_ri_32
jump_32 Condition.ne Bool.false = Jump.jne_rr_32
jump_32 Condition.ne Bool.true = Jump.jne_ri_32
jump_32 Condition.gt Bool.false = Jump.jugt_rr_32
jump_32 Condition.gt Bool.true = Jump.jugt_ri_32
jump_32 Condition.ge Bool.false = Jump.juge_rr_32
jump_32 Condition.ge Bool.true = Jump.juge_ri_32
jump_32 Condition.lt Bool.false = Jump.jult_rr_32
jump_32 Condition.lt Bool.true = Jump.jult_ri_32
jump_32 Condition.le Bool.false = Jump.jule_rr_32
jump_32 Condition.le Bool.true = Jump.jule_ri_32
jump_32 Condition.sgt Bool.false = Jump.jsgt_rr_32
jump_32 Condition.sgt Bool.true = Jump.jsgt_ri_32
jump_32 Condition.sge Bool.false = Jump.jsge_rr_32
jump_32 Condition.sge Bool.true = Jump.jsge_ri_32
jump_32 Condition.slt Bool.false = Jump.jslt_rr_32
jump_32 Condition.slt Bool.true = Jump.jslt_ri_32
jump_32 Condition.sle Bool.false = Jump.jsle_rr_32
jump_32 Condition.sle Bool.true = Jump.jsle_ri_32
jump_32 Condition.set Bool.false = Jump.jset_rr_32
jump_32 Condition.set Bool.true = Jump.jset_ri_32

-- `if a cond b goto sym`.
abbrev pub compare : Jump → Register → Operand → String → McInst
compare j a b sym = mc_inst (Opcode.jump j) (reg a ∷ b ∷ expr sym ∷ []) none
