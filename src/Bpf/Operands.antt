-- ===== src/Bpf/Operands.antt =====
-- Operands of the instruction at hand: registers, immediates, addresses and branch targets.
use bpf_tv.Common.{
  ℕ, ◌+◌, ◌==◌, ◌||◌, if◌then◌else◌, Option, none, some, List, [], ◌∷◌, String, length, get_elem?,
  assertion,
}
use text.Mathlib.Text.{◌==◌ as str_eq}
use bpf_tv.Words.{ℤ}
use bpf_tv.Llvm.Ir.{ptr, Value}
use bpf_tv.Mc.Inst.{Register, Operand, reg, imm, expr}
use bpf_tv.Lifter.State.{M, ◌>>=◌, ◌>>◌, pure, fail, assert, lift_option}
use bpf_tv.Lifter.Build.{get_signed_int_const, create_load, create_gep, get_bb_by_name}
use bpf_tv.Bpf.Regs.{lookup_reg, read_reg_64, read_reg_32}

unfoldable pub get_operand : ℕ → M Operand
get_operand idx s = lift_option assertion (get_elem? s.cur_inst.operands idx) s

-- `getReg()`, `getImm()` and the name of a symbol reference assert the operand's kind.
abbrev pub get_reg : Operand → M Register
get_reg (reg x) = pure x
get_reg _ = fail assertion

abbrev pub get_imm : Operand → M ℤ
get_imm (imm z) = pure z
get_imm _ = fail assertion

abbrev pub get_symbol : Operand → M String
get_symbol (expr n) = pure n
get_symbol _ = fail assertion

unfoldable pub read_reg_operand_64 : ℕ → M Value
unfolding get_operand read_reg_64
read_reg_operand_64 idx = do op ← get_operand idx; x ← get_reg op; read_reg_64 x

unfoldable pub read_reg_operand_32 : ℕ → M Value
unfolding get_operand read_reg_32
read_reg_operand_32 idx = do op ← get_operand idx; x ← get_reg op; read_reg_32 x

unfoldable pub read_ptr_reg_operand : ℕ → M Value
unfolding get_operand lookup_reg create_load
read_ptr_reg_operand idx = do
  op ← get_operand idx
  x ← get_reg op
  p ← lookup_reg x
  create_load ptr p

unfoldable pub read_imm_operand : ℕ → ℕ → M Value
unfolding get_operand get_signed_int_const
read_imm_operand idx bits = do op ← get_operand idx; z ← get_imm op; get_signed_int_const z bits

abbrev read_alu_src : ℕ → ℕ → Operand → M Value
unfolding read_imm_operand read_reg_64 read_reg_32
read_alu_src idx bits (imm z) = read_imm_operand idx bits
read_alu_src idx bits op = do x ← get_reg op; if bits == 64 then read_reg_64 x else read_reg_32 x

unfoldable pub read_alu_src_operand : ℕ → ℕ → M Value
unfolding get_operand read_imm_operand read_reg_64 read_reg_32
read_alu_src_operand idx bits = do op ← get_operand idx; read_alu_src idx bits op

unfoldable pub get_mem_pointer_operand : ℕ → M Value
unfolding read_ptr_reg_operand read_imm_operand create_gep
get_mem_pointer_operand idx = do
  base ← read_ptr_reg_operand idx
  offset ← read_imm_operand (idx + 1) 64
  create_gep base offset

-- The first successor of another name.
unfoldable pub other_successor : List String → String → Option String
other_successor [] name = none
other_successor (n ∷ ns) name = if str_eq n name then other_successor ns name else some n

abbrev pub name_or : Option String → String → String
name_or none name = name
name_or (some n) name = n

unfoldable pub get_branch_targets_operand : ℕ → M (ℕ × ℕ)
unfolding get_operand get_bb_by_name other_successor
get_branch_targets_operand idx = do
  op ← get_operand idx
  sym ← get_symbol op
  dst_true ← get_bb_by_name sym
  (λ s. assert (length s.succs == 1 || length s.succs == 2) s)
  dst_false ← (λ s. get_bb_by_name (name_or (other_successor s.succs sym) sym) s)
  pure (dst_true, dst_false)
