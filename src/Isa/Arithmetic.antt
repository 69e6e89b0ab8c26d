-- ===== src/Isa/Arithmetic.antt =====
-- The instructions that only compute on registers, as the RFC groups them: how LLVM writes each as
-- an `MCInst`, and what it does to the register file.
use bpf_tv.Common.{ℕ, ◌%◌, ◌^◌, ◌≤◌, ◌≡◌, true, none, List, [], ◌∷◌, update, String}
use bpf_tv.Words.{to_word, signed, fits_signed}
use bpf_tv.Llvm.LangRef.{byte_swap}
use bpf_tv.Mc.Opcode.{Alu64, Alu32, Move, Endian, Opcode}
use bpf_tv.Mc.Inst.{Register, r, w, Operand, reg, imm, expr, McInst, mc_inst}
use bpf_tv.Isa.{Operation, alu}

abbrev pub number : Register → ℕ
number (r n) = n
number (w n) = n

-- A source operand: a register of the file, or an immediate that fits.
abbrev pub IsSource : ℕ → Operand → Type 0
IsSource bits (reg x) = number x ≤ 11
IsSource bits (imm z) = fits_signed bits z ≡ true
IsSource bits (expr n) = ⊥

-- What it is worth, on 64 and on 32 bits.
abbrev pub source_64 : (ℕ → ℕ) → Operand → ℕ
source_64 regs (reg x) = regs (number x)
source_64 regs (imm z) = to_word 64 z
source_64 regs (expr n) = 0

abbrev pub source_32 : (ℕ → ℕ) → Operand → ℕ
source_32 regs (reg x) = regs (number x) % 2 ^ 32
source_32 regs (imm z) = to_word 32 z
source_32 regs (expr n) = 0

abbrev pub operation_64 : Alu64 → Operation
operation_64 Alu64.add_rr = Operation.add
operation_64 Alu64.add_ri = Operation.add
operation_64 Alu64.sub_rr = Operation.sub
operation_64 Alu64.sub_ri = Operation.sub
operation_64 Alu64.mul_rr = Operation.mul
operation_64 Alu64.mul_ri = Operation.mul
operation_64 Alu64.and_rr = Operation.and
operation_64 Alu64.and_ri = Operation.and
operation_64 Alu64.or_rr = Operation.or
operation_64 Alu64.or_ri = Operation.or
operation_64 Alu64.xor_rr = Operation.xor
operation_64 Alu64.xor_ri = Operation.xor
operation_64 Alu64.sll_rr = Operation.lsh
operation_64 Alu64.sll_ri = Operation.lsh
operation_64 Alu64.srl_rr = Operation.rsh
operation_64 Alu64.srl_ri = Operation.rsh
operation_64 Alu64.sra_rr = Operation.arsh
operation_64 Alu64.sra_ri = Operation.arsh
operation_64 Alu64.div_rr = Operation.div
operation_64 Alu64.div_ri = Operation.div
operation_64 Alu64.mod_rr = Operation.modulo
operation_64 Alu64.mod_ri = Operation.modulo
operation_64 Alu64.sdiv_rr = Operation.sdiv
operation_64 Alu64.sdiv_ri = Operation.sdiv
operation_64 Alu64.smod_rr = Operation.smod
operation_64 Alu64.smod_ri = Operation.smod
operation_64 Alu64.neg_64 = Operation.neg

abbrev pub operation_32 : Alu32 → Operation
operation_32 Alu32.add_rr_32 = Operation.add
operation_32 Alu32.add_ri_32 = Operation.add
operation_32 Alu32.sub_rr_32 = Operation.sub
operation_32 Alu32.sub_ri_32 = Operation.sub
operation_32 Alu32.mul_rr_32 = Operation.mul
operation_32 Alu32.mul_ri_32 = Operation.mul
operation_32 Alu32.and_rr_32 = Operation.and
operation_32 Alu32.and_ri_32 = Operation.and
operation_32 Alu32.or_rr_32 = Operation.or
operation_32 Alu32.or_ri_32 = Operation.or
operation_32 Alu32.xor_rr_32 = Operation.xor
operation_32 Alu32.xor_ri_32 = Operation.xor
operation_32 Alu32.sll_rr_32 = Operation.lsh
operation_32 Alu32.sll_ri_32 = Operation.lsh
operation_32 Alu32.srl_rr_32 = Operation.rsh
operation_32 Alu32.srl_ri_32 = Operation.rsh
operation_32 Alu32.sra_rr_32 = Operation.arsh
operation_32 Alu32.sra_ri_32 = Operation.arsh
operation_32 Alu32.div_rr_32 = Operation.div
operation_32 Alu32.div_ri_32 = Operation.div
operation_32 Alu32.mod_rr_32 = Operation.modulo
operation_32 Alu32.mod_ri_32 = Operation.modulo
operation_32 Alu32.sdiv_rr_32 = Operation.sdiv
operation_32 Alu32.sdiv_ri_32 = Operation.sdiv
operation_32 Alu32.smod_rr_32 = Operation.smod
operation_32 Alu32.smod_ri_32 = Operation.smod
operation_32 Alu32.neg_32 = Operation.neg

-- LLVM repeats the destination as first source; a negation has no second one.
abbrev pub operands_64 : Alu64 → Register → Register → Operand → List Operand
operands_64 Alu64.neg_64 d a b = reg d ∷ reg a ∷ []
operands_64 _ d a b = reg d ∷ reg a ∷ b ∷ []

abbrev pub operands_32 : Alu32 → Register → Register → Operand → List Operand
operands_32 Alu32.neg_32 d a b = reg d ∷ reg a ∷ []
operands_32 _ d a b = reg d ∷ reg a ∷ b ∷ []

-- The value that a move puts into its destination, and the operands that it allows.
abbrev pub moved : Move → (ℕ → ℕ) → Operand → ℕ
moved Move.mov_rr regs b = source_64 regs b
moved Move.mov_ri regs b = source_64 regs b
moved Move.mov_rr_32 regs b = source_32 regs b
moved Move.mov_ri_32 regs b = source_32 regs b
moved Move.mov_32_64 regs b = source_32 regs b
moved Move.movsx_rr_8 regs b = to_word 64 (signed 8 (source_64 regs b % 2 ^ 8))
moved Move.movsx_rr_16 regs b = to_word 64 (signed 16 (source_64 regs b % 2 ^ 16))
moved Move.movsx_rr_32 regs b = to_word 64 (signed 32 (source_32 regs b))
moved Move.movsx_rr_32_8 regs b = to_word 32 (signed 8 (source_32 regs b % 2 ^ 8))
moved Move.movsx_rr_32_16 regs b = to_word 32 (signed 16 (source_32 regs b % 2 ^ 16))
moved Move.ld_imm64 regs b = source_64 regs b

abbrev pub IsRegister : Operand → Type 0
IsRegister (reg x) = number x ≤ 11
IsRegister _ = ⊥

abbrev pub IsImmediate : ℕ → Operand → Type 0
IsImmediate bits (imm z) = fits_signed bits z ≡ true
IsImmediate bits _ = ⊥

abbrev pub IsMove : Move → Operand → Type 0
IsMove Move.mov_ri b = IsImmediate 64 b
IsMove Move.mov_ri_32 b = IsImmediate 32 b
IsMove Move.ld_imm64 b = IsImmediate 64 b
IsMove _ b = IsRegister b

-- No move takes a symbol.
pub no_symbol : (o : Move) (n : String) → IsMove o (expr n) → ⊥
no_symbol Move.mov_rr n h = h
no_symbol Move.mov_ri n h = h
no_symbol Move.mov_rr_32 n h = h
no_symbol Move.mov_ri_32 n h = h
no_symbol Move.mov_32_64 n h = h
no_symbol Move.movsx_rr_8 n h = h
no_symbol Move.movsx_rr_16 n h = h
no_symbol Move.movsx_rr_32 n h = h
no_symbol Move.movsx_rr_32_8 n h = h
no_symbol Move.movsx_rr_32_16 n h = h
no_symbol Move.ld_imm64 n h = h

-- On a little-endian machine: `le` cuts off, `be` and `bswap` swap bytes too.
abbrev pub swapped : Endian → ℕ → ℕ
swapped Endian.be16 v = byte_swap 2 (v % 2 ^ 16)
swapped Endian.be32 v = byte_swap 4 (v % 2 ^ 32)
swapped Endian.be64 v = byte_swap 8 v
swapped Endian.le16 v = v % 2 ^ 16
swapped Endian.le32 v = v % 2 ^ 32
swapped Endian.le64 v = v
swapped Endian.bswap16 v = byte_swap 2 (v % 2 ^ 16)
swapped Endian.bswap32 v = byte_swap 4 (v % 2 ^ 32)
swapped Endian.bswap64 v = byte_swap 8 v

-- An instruction with its destination and its sources.
pub data Arithmetic : Type 0 where
  alu64 : Alu64 → Register → Register → Operand → Arithmetic
  alu32 : Alu32 → Register → Register → Operand → Arithmetic
  move : Move → Register → Operand → Arithmetic
  endian : Endian → Register → Register → Arithmetic

unfoldable pub encode : Arithmetic → McInst
encode (alu64 o d a b) = mc_inst (Opcode.alu64 o) (operands_64 o d a b) none
encode (alu32 o d a b) = mc_inst (Opcode.alu32 o) (operands_32 o d a b) none
encode (move o d b) = mc_inst (Opcode.move o) (reg d ∷ b ∷ []) none
encode (endian o d a) = mc_inst (Opcode.endian o) (reg d ∷ reg a ∷ []) none

unfoldable pub IsValid : Arithmetic → Type 0
IsValid (alu64 o d a b) = (number d ≤ 11) × (number a ≤ 11) × IsSource 64 b
IsValid (alu32 o d a b) = (number d ≤ 11) × (number a ≤ 11) × IsSource 32 b
IsValid (move o d b) = (number d ≤ 11) × IsMove o b
IsValid (endian o d a) = (number d ≤ 11) × (number a ≤ 11)

-- What an instruction does to the register file. A result of 32 bits is zero-extended.
unfoldable pub exec : Arithmetic → (ℕ → ℕ) → (ℕ → ℕ)
unfolding alu
exec (alu64 o d a b) regs =
    update regs (number d) (alu 64 (operation_64 o) (regs (number a)) (source_64 regs b))
exec (alu32 o d a b) regs =
    update regs (number d) (alu 32 (operation_32 o) (regs (number a) % 2 ^ 32) (source_32 regs b))
exec (move o d b) regs = update regs (number d) (moved o regs b)
exec (endian o d a) regs = update regs (number d) (swapped o (regs (number a)))
