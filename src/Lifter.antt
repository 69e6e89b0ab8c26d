-- ===== src/Lifter.antt =====
-- The target-independent half of the lifter: src/lifter/mc2llvm.h and src/lifter/mc2llvm.cpp.
pub mod State
pub mod Build
pub mod Emits
pub mod Grows
pub mod Logic
pub mod Values
pub mod Rules
pub mod Shifts
pub mod Divide
pub mod Checked
