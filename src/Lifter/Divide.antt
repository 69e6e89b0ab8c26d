-- ===== src/Lifter/Divide.antt =====
-- Reasoning about the code of the checked divisions: its blocks, and how they run.
pub mod Fill
pub mod Unsigned
pub mod Signed
