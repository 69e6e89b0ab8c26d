-- ===== src/Bytes/Immediates.antt =====
-- Sign extension of the immediates of decoded instructions (`bpf2llvm::runBytes`,
-- src/lifter/bpf2llvm.cpp).
use bpf_tv.Common.{ℕ, true, some, List, ok, get_elem?, ◌≡◌}
use bpf_tv.Words.{ℤ, to_word, fits_signed}
use bpf_tv.Mc.Inst.{McInst, Operand, imm}
use bpf_tv.Streamer.{modify_at}
use bpf_tv.Bytes.{sext_width, sext}

record Modified (f : Operand → Operand) (idx : ℕ) (ops : List Operand) (o : Operand) : Type 0 where
  pub out : List Operand
  pub out_eq : modify_at f idx ops ≡ ok out
  pub at : get_elem? out idx ≡ some (f o)
  pub others : (k : ℕ) → (k ≡ idx → ⊥) → get_elem? out k ≡ get_elem? ops k

-- The value that a word of `bits` bits stands for, in that range.
abbrev IsValue : ℕ → ℕ → ℤ → Type 0
IsValue bits n z = (fits_signed bits z ≡ true) × (to_word bits z ≡ n)

-- The immediate at `idx` has become the value of its word, and the rest is the same.
pub record Extended (idx bits n : ℕ) (i : McInst) : Type 0 where
  pub after : McInst
  pub value : ℤ
  pub after_eq : sext idx bits i ≡ ok after
  pub at : get_elem? after.operands idx ≡ some (imm value)
  pub in_range : fits_signed (sext_width bits) value ≡ true
  pub same_word : to_word (sext_width bits) value ≡ n
  pub others : (k : ℕ) → (k ≡ idx → ⊥) → get_elem? after.operands k ≡ get_elem? i.operands k
  pub same_opcode : after.opcode ≡ i.opcode
