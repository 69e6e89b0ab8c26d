-- ===== src/Mc/Block.antt =====
-- Basic blocks of machine code: `MCBasicBlock` (src/lifter/streamerwrapper.h).
use bpf_tv.Common.{List, String}
use bpf_tv.Mc.Inst.{McInst}

-- A block of machine code; successors are named.
pub record McBasicBlock : Type 0 where
  pub name : String
  pub instrs : List McInst
  pub succs : List String
