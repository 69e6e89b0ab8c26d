-- ===== src/Mc/Inst.antt =====
-- Registers, operands and instructions, as LLVM gives them to `bpf2llvm::lift`.
use bpf_tv.Common.{ℕ, Option, List, String}
use bpf_tv.Words.{ℤ}
use bpf_tv.Mc.Opcode.{Opcode}

-- The enumerators `BPF::R0` to `R11` and their 32-bit aliases `BPF::W0` to `W11`.
pub data Register : Type 0 where
  r w : ℕ → Register

pub data Operand : Type 0 where
  reg : Register → Operand
  imm : ℤ → Operand
  expr : String → Operand

-- `loc` is the line of the source-side instruction that the code stands for, if it is known.
pub record McInst : Type 0 where
  pub opcode : Opcode
  pub operands : List Operand
  pub loc : Option ℕ

abbrev pub mc_inst : Opcode → List Operand → Option ℕ → McInst
mc_inst o xs l = record { opcode = o; operands = xs; loc = l }
