-- ===== src/Bpf/Alu/Narrow.antt =====
-- The 32-bit ALU cases of `bpf2llvm::lift`, against the instruction set.
use bpf_tv.Common.{
  ℕ, ◌*◌, ◌+◌, ◌-◌, ◌%◌, ◌^◌, if◌then◌else◌, ◌≡◌, ◌≤◌, refl, Bool, true, false, arith, ap,
  get_elem?, ◌∷◌, [],
}
use bpf_tv.Words.{to_word, signed, quot, rem}
use bpf_tv.Isa.{alu}
use bpf_tv.Isa.Arithmetic.{operation_32, operands_32}
use bpf_tv.Llvm.Ir.{BinOp}
use bpf_tv.Llvm.LangRef.{LangRef}
use bpf_tv.Llvm.Exec.{Machine}
use bpf_tv.Mc.Opcode.{Alu32}
use bpf_tv.Mc.Inst.{Register, Operand, reg, McInst}
use bpf_tv.Lifter.State.{Lifter}
use bpf_tv.Lifter.Logic.{Does}
use bpf_tv.Lifter.Values.{Stores}
use bpf_tv.Lifter.Shifts.{Does-masked_shl, Does-masked_lshr, Does-masked_ashr}
use bpf_tv.Lifter.Divide.Signed.{overflows, overflow-parts}
use bpf_tv.Bpf.Alu.{lift_alu32}
use bpf_tv.Bpf.Alu.Binary.{
  IsBinary, Does-alu32, Does-shift32, Does-div32, Does-mod32, Does-sdiv32, Does-smod32, Does-neg32,
}
use bpf_tv.Bpf.Frame.{number, IsAt, reg_of, IsSource, source_32}

-- The wrapped quotient of the one overflow is the dividend, and the remainder 0.
quotient_overflow :
    (x y : ℕ) → overflows 32 x y ≡ true → x ≡ to_word 32 (quot (signed 32 x) (signed 32 y))
unfolding to_word quot signed
quotient_overflow x y h = let (p, q) = overflow-parts 32 x y h in rw (p, q) refl

remainder_overflow :
    (x y : ℕ) → overflows 32 x y ≡ true → 0 ≡ to_word 32 (rem (signed 32 x) (signed 32 y))
unfolding to_word rem signed
remainder_overflow x y h = let (p, q) = overflow-parts 32 x y h in rw (p, q) refl

if-same : (b : Bool) (x y : ℕ) → (b ≡ true → x ≡ y) → (if b then x else y) ≡ y
if-same true x y h = h refl
if-same false x y h = refl

neg_zero : (x : ℕ) → (0 + (2 ^ 32 - x)) % 2 ^ 32 ≡ (2 ^ 32 - x) % 2 ^ 32
neg_zero x = ap (λ (t : ℕ). t % 2 ^ 32) (omega arith)

-- The operands of every case but the negation.
binary :
    {i : McInst} {d a : Register} {b : Operand}
    → i.operands ≡ reg d ∷ reg a ∷ b ∷ []
    → number d ≤ 11
    → number a ≤ 11
    → IsSource 32 b
    → IsBinary 32 i d a b
binary e hd ha hb = record {
  dst = ap (λ xs. get_elem? xs 0) e;
  left = ap (λ xs. get_elem? xs 1) e;
  right = ap (λ xs. get_elem? xs 2) e;
  dst_le = hd;
  left_le = ha;
  right_IsSource = hb;
}

module _ (L : LangRef) {base : ℕ} {i : McInst} {s : Lifter} {m : Machine} (d a : Register)
    (b : Operand) (at : IsAt base i s) where
  pub Does-lift_alu32 :
      (o : Alu32)
      → i.operands ≡ operands_32 o d a b
      → number d ≤ 11
      → number a ≤ 11
      → IsSource 32 b
      → Does L s m (lift_alu32 o) (
          Stores s.next m (base + 4 * number d) (
            alu 32
              (operation_32 o)
              (reg_of base m (number a) % 2 ^ 32)
              (source_32 (reg_of base m) b)))
  unfolding lift_alu32 alu
  Does-lift_alu32 Alu32.add_rr_32 e hd ha hb =
      Does-alu32 L at (binary e hd ha hb) BinOp.add
        (L.add_lem 32 (reg_of base m (number a) % 2 ^ 32) (source_32 (reg_of base m) b))
  Does-lift_alu32 Alu32.add_ri_32 e hd ha hb =
      Does-alu32 L at (binary e hd ha hb) BinOp.add
        (L.add_lem 32 (reg_of base m (number a) % 2 ^ 32) (source_32 (reg_of base m) b))
  Does-lift_alu32 Alu32.sub_rr_32 e hd ha hb =
      Does-alu32 L at (binary e hd ha hb) BinOp.sub
        (L.sub_lem 32 (reg_of base m (number a) % 2 ^ 32) (source_32 (reg_of base m) b))
  Does-lift_alu32 Alu32.sub_ri_32 e hd ha hb =
      Does-alu32 L at (binary e hd ha hb) BinOp.sub
        (L.sub_lem 32 (reg_of base m (number a) % 2 ^ 32) (source_32 (reg_of base m) b))
  Does-lift_alu32 Alu32.mul_rr_32 e hd ha hb =
      Does-alu32 L at (binary e hd ha hb) BinOp.mul
        (L.mul_lem 32 (reg_of base m (number a) % 2 ^ 32) (source_32 (reg_of base m) b))
  Does-lift_alu32 Alu32.mul_ri_32 e hd ha hb =
      Does-alu32 L at (binary e hd ha hb) BinOp.mul
        (L.mul_lem 32 (reg_of base m (number a) % 2 ^ 32) (source_32 (reg_of base m) b))
  Does-lift_alu32 Alu32.and_rr_32 e hd ha hb =
      Does-alu32 L at (binary e hd ha hb) BinOp.and
        (L.and_lem 32 (reg_of base m (number a) % 2 ^ 32) (source_32 (reg_of base m) b))
  Does-lift_alu32 Alu32.and_ri_32 e hd ha hb =
      Does-alu32 L at (binary e hd ha hb) BinOp.and
        (L.and_lem 32 (reg_of base m (number a) % 2 ^ 32) (source_32 (reg_of base m) b))
  Does-lift_alu32 Alu32.or_rr_32 e hd ha hb =
      Does-alu32 L at (binary e hd ha hb) BinOp.or
        (L.or_lem 32 (reg_of base m (number a) % 2 ^ 32) (source_32 (reg_of base m) b))
  Does-lift_alu32 Alu32.or_ri_32 e hd ha hb =
      Does-alu32 L at (binary e hd ha hb) BinOp.or
        (L.or_lem 32 (reg_of base m (number a) % 2 ^ 32) (source_32 (reg_of base m) b))
  Does-lift_alu32 Alu32.xor_rr_32 e hd ha hb =
      Does-alu32 L at (binary e hd ha hb) BinOp.xor
        (L.xor_lem 32 (reg_of base m (number a) % 2 ^ 32) (source_32 (reg_of base m) b))
  Does-lift_alu32 Alu32.xor_ri_32 e hd ha hb =
      Does-alu32 L at (binary e hd ha hb) BinOp.xor
        (L.xor_lem 32 (reg_of base m (number a) % 2 ^ 32) (source_32 (reg_of base m) b))
  Does-lift_alu32 Alu32.sll_rr_32 e hd ha hb =
      Does-shift32 L at (binary e hd ha hb) λ u v s' m' live p q. Does-masked_shl L 5 live p q
  Does-lift_alu32 Alu32.sll_ri_32 e hd ha hb =
      Does-shift32 L at (binary e hd ha hb) λ u v s' m' live p q. Does-masked_shl L 5 live p q
  Does-lift_alu32 Alu32.srl_rr_32 e hd ha hb =
      Does-shift32 L at (binary e hd ha hb) λ u v s' m' live p q. Does-masked_lshr L 5 live p q
  Does-lift_alu32 Alu32.srl_ri_32 e hd ha hb =
      Does-shift32 L at (binary e hd ha hb) λ u v s' m' live p q. Does-masked_lshr L 5 live p q
  Does-lift_alu32 Alu32.sra_rr_32 e hd ha hb =
      Does-shift32 L at (binary e hd ha hb) λ u v s' m' live p q. Does-masked_ashr L 5 live p q
  Does-lift_alu32 Alu32.sra_ri_32 e hd ha hb =
      Does-shift32 L at (binary e hd ha hb) λ u v s' m' live p q. Does-masked_ashr L 5 live p q
  Does-lift_alu32 Alu32.div_rr_32 e hd ha hb = Does-div32 L at (binary e hd ha hb)
  Does-lift_alu32 Alu32.div_ri_32 e hd ha hb = Does-div32 L at (binary e hd ha hb)
  Does-lift_alu32 Alu32.mod_rr_32 e hd ha hb = Does-mod32 L at (binary e hd ha hb)
  Does-lift_alu32 Alu32.mod_ri_32 e hd ha hb = Does-mod32 L at (binary e hd ha hb)
  Does-lift_alu32 Alu32.sdiv_rr_32 e hd ha hb =
      rw
        (← if-same _ _ _
          (quotient_overflow (reg_of base m (number a) % 2 ^ 32) (source_32 (reg_of base m) b)))
        (Does-sdiv32 L at (binary e hd ha hb))
  Does-lift_alu32 Alu32.sdiv_ri_32 e hd ha hb =
      rw
        (← if-same _ _ _
          (quotient_overflow (reg_of base m (number a) % 2 ^ 32) (source_32 (reg_of base m) b)))
        (Does-sdiv32 L at (binary e hd ha hb))
  Does-lift_alu32 Alu32.smod_rr_32 e hd ha hb =
      rw
        (← if-same _ _ _
          (remainder_overflow (reg_of base m (number a) % 2 ^ 32) (source_32 (reg_of base m) b)))
        (Does-smod32 L at (binary e hd ha hb))
  Does-lift_alu32 Alu32.smod_ri_32 e hd ha hb =
      rw
        (← if-same _ _ _
          (remainder_overflow (reg_of base m (number a) % 2 ^ 32) (source_32 (reg_of base m) b)))
        (Does-smod32 L at (binary e hd ha hb))
  Does-lift_alu32 Alu32.neg_32 e hd ha hb =
      rw (← neg_zero _)
        (Does-neg32 L at (ap (λ xs. get_elem? xs 0) e) (ap (λ xs. get_elem? xs 1) e) hd ha)
