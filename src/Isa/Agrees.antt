-- ===== src/Isa/Agrees.antt =====
-- Instructions at two register files that agree on the registers R0 to R11.
use bpf_tv.Common.{ℕ, ◌≤◌, ◌≡◌, refl, ap, ap₂, ◌%◌, ◌^◌, List, [], ◌∷◌, arith, update, All}
use bpf_tv.Isa.{alu}
use bpf_tv.Isa.Arithmetic.{
  Arithmetic, IsValid, exec, alu64, alu32, move, endian, number, IsSource, source_64, source_32,
  operation_64, operation_32, moved, IsMove, swapped, no_symbol,
}
use bpf_tv.Words.{to_word, signed}
use bpf_tv.Mc.Opcode.{Move}
use bpf_tv.Mc.Inst.{Operand, reg, imm, expr}

-- The registers after a list of instructions.
unfoldable pub exec_all : List Arithmetic → (ℕ → ℕ) → (ℕ → ℕ)
unfolding exec
exec_all [] regs = regs
exec_all (x ∷ xs) regs = exec_all xs (exec x regs)

abbrev pub Agrees : (ℕ → ℕ) → (ℕ → ℕ) → Type 0
Agrees r r' = (n : ℕ) → n ≤ 11 → r n ≡ r' n

update-Agrees :
    (r r' : ℕ → ℕ) (d z z' : ℕ) → Agrees r r' → z ≡ z' → Agrees (update r d z) (update r' d z')
unfolding update
update-Agrees r r' d z z' h e n l = let hn : r n ≡ r' n = h n l in ground arith

pub source_64-Agrees :
    (r r' : ℕ → ℕ) (b : Operand) → IsSource 64 b → Agrees r r' → source_64 r b ≡ source_64 r' b
source_64-Agrees r r' (reg x) l h = h (number x) l
source_64-Agrees r r' (imm z) l h = refl
source_64-Agrees r r' (expr n) l h = absurd l

pub source_32-Agrees :
    (r r' : ℕ → ℕ) (b : Operand) → IsSource 32 b → Agrees r r' → source_32 r b ≡ source_32 r' b
source_32-Agrees r r' (reg x) l h = ap (λ (v : ℕ). v % 2 ^ 32) (h (number x) l)
source_32-Agrees r r' (imm z) l h = refl
source_32-Agrees r r' (expr n) l h = absurd l

moved-Agrees :
    (o : Move) (r r' : ℕ → ℕ) (b : Operand) → IsMove o b → Agrees r r' → moved o r b ≡ moved o r' b
moved-Agrees Move.mov_rr r r' (reg x) l h = source_64-Agrees r r' (reg x) l h
moved-Agrees Move.mov_rr_32 r r' (reg x) l h = source_32-Agrees r r' (reg x) l h
moved-Agrees Move.mov_32_64 r r' (reg x) l h = source_32-Agrees r r' (reg x) l h
moved-Agrees Move.movsx_rr_8 r r' (reg x) l h =
    ap (λ (v : ℕ). to_word 64 (signed 8 (v % 2 ^ 8))) (source_64-Agrees r r' (reg x) l h)
moved-Agrees Move.movsx_rr_16 r r' (reg x) l h =
    ap (λ (v : ℕ). to_word 64 (signed 16 (v % 2 ^ 16))) (source_64-Agrees r r' (reg x) l h)
moved-Agrees Move.movsx_rr_32 r r' (reg x) l h =
    ap (λ (v : ℕ). to_word 64 (signed 32 v)) (source_32-Agrees r r' (reg x) l h)
moved-Agrees Move.movsx_rr_32_8 r r' (reg x) l h =
    ap (λ (v : ℕ). to_word 32 (signed 8 (v % 2 ^ 8))) (source_32-Agrees r r' (reg x) l h)
moved-Agrees Move.movsx_rr_32_16 r r' (reg x) l h =
    ap (λ (v : ℕ). to_word 32 (signed 16 (v % 2 ^ 16))) (source_32-Agrees r r' (reg x) l h)
moved-Agrees Move.mov_ri r r' (reg x) l h = absurd l
moved-Agrees Move.mov_ri_32 r r' (reg x) l h = absurd l
moved-Agrees Move.ld_imm64 r r' (reg x) l h = absurd l
moved-Agrees Move.mov_ri r r' (imm z) l h = refl
moved-Agrees Move.mov_ri_32 r r' (imm z) l h = refl
moved-Agrees Move.ld_imm64 r r' (imm z) l h = refl
moved-Agrees o r r' (expr n) l h = absurd (no_symbol o n l)
moved-Agrees Move.mov_rr r r' (imm z) l h = absurd l
moved-Agrees Move.mov_rr_32 r r' (imm z) l h = absurd l
moved-Agrees Move.mov_32_64 r r' (imm z) l h = absurd l
moved-Agrees Move.movsx_rr_8 r r' (imm z) l h = absurd l
moved-Agrees Move.movsx_rr_16 r r' (imm z) l h = absurd l
moved-Agrees Move.movsx_rr_32 r r' (imm z) l h = absurd l
moved-Agrees Move.movsx_rr_32_8 r r' (imm z) l h = absurd l
moved-Agrees Move.movsx_rr_32_16 r r' (imm z) l h = absurd l

-- Only the registers of the file matter to an instruction.
pub exec-Agrees :
    (x : Arithmetic) (r r' : ℕ → ℕ) → IsValid x → Agrees r r' → Agrees (exec x r) (exec x r')
unfolding exec IsValid
exec-Agrees (alu64 o d a b) r r' (hd, ha, hb) h =
    update-Agrees r r' (number d) _ _ h
      (ap₂ (alu 64 (operation_64 o)) (h (number a) ha) (source_64-Agrees r r' b hb h))
exec-Agrees (alu32 o d a b) r r' (hd, ha, hb) h = update-Agrees r r' (number d) _ _ h (
    ap₂ (λ v u. alu 32 (operation_32 o) (v % 2 ^ 32) u) (h (number a) ha)
      (source_32-Agrees r r' b hb h))
exec-Agrees (move o d b) r r' (hd, hb) h =
    update-Agrees r r' (number d) _ _ h (moved-Agrees o r r' b hb h)
exec-Agrees (endian o d a) r r' (hd, ha) h =
    update-Agrees r r' (number d) _ _ h (ap (swapped o) (h (number a) ha))

pub exec_all-Agrees :
    (xs : List Arithmetic) (r r' : ℕ → ℕ)
    → All IsValid xs
    → Agrees r r'
    → Agrees (exec_all xs r) (exec_all xs r')
unfolding exec_all
exec_all-Agrees [] r r' v h = h
exec_all-Agrees (x ∷ xs) r r' (v, vs) h =
    exec_all-Agrees xs (exec x r) (exec x r') vs (exec-Agrees x r r' v h)
