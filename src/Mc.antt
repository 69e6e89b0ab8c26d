-- ===== src/Mc.antt =====
-- Machine instructions as the lifter meets them: `MCInst` with its operands, over the opcodes and
-- registers of the BPF target, by the names that `src/lifter/bpf2llvm.cpp` uses.
pub mod Opcode
pub mod Inst
pub mod Block
