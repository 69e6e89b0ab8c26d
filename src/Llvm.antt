-- ===== src/Llvm.antt =====
-- The part of LLVM IR that the lifter builds: its syntax (`Ir`), the meaning that the language
-- reference gives its operations (`LangRef`) and the execution of blocks (`Exec`).
pub mod Ir
pub mod LangRef
pub mod Exec
pub mod Model
