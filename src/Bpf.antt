-- ===== src/Bpf.antt =====
-- The BPF half of the lifter: src/lifter/bpf2llvm.h and src/lifter/bpf2llvm.cpp.
pub mod Regs
pub mod Operands
pub mod Alu
pub mod Move
pub mod Memory
pub mod Control
pub mod Call
pub mod Lift
pub mod Frame
pub mod Setup
