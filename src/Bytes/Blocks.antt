-- ===== src/Bytes/Blocks.antt =====
-- The blocks built from decoded bytes (`bpf2llvm::runBytes`, src/lifter/bpf2llvm.cpp).
pub mod Sext
pub mod Opcodes
pub mod Placed
pub mod Resolved
pub mod Filled
pub mod Linking
