-- ===== src/Bpf/Alu/Wide.antt =====
-- The 64-bit ALU cases of `bpf2llvm::lift`, against the instruction set.
use bpf_tv.Common.{
  ℕ, ◌*◌, ◌+◌, ◌-◌, ◌%◌, ◌^◌, if◌then◌else◌, ◌≡◌, ◌≤◌, refl, Bool, true, false, arith, ap,
  get_elem?, ◌∷◌, [],
}
use bpf_tv.Words.{to_word, signed, quot, rem}
use bpf_tv.Isa.{alu}
use bpf_tv.Isa.Arithmetic.{operation_64, operands_64}
use bpf_tv.Llvm.Ir.{BinOp}
use bpf_tv.Llvm.LangRef.{LangRef}
use bpf_tv.Llvm.Exec.{Machine}
use bpf_tv.Mc.Opcode.{Alu64}
use bpf_tv.Mc.Inst.{Register, Operand, reg, McInst}
use bpf_tv.Lifter.State.{Lifter}
use bpf_tv.Lifter.Logic.{Does}
use bpf_tv.Lifter.Values.{Stores}
use bpf_tv.Lifter.Shifts.{Does-masked_shl, Does-masked_lshr, Does-masked_ashr}
use bpf_tv.Lifter.Divide.Signed.{overflows, overflow-parts}
use bpf_tv.Bpf.Alu.{lift_alu64}
use bpf_tv.Bpf.Alu.Binary.{
  IsBinary, Does-alu64, Does-shift64, Does-div64, Does-mod64, Does-sdiv64, Does-smod64, Does-neg64,
}
use bpf_tv.Bpf.Frame.{number, IsAt, reg_of, IsSource, source_64}

-- The wrapped quotient of the one overflow is the dividend, and the remainder 0.
quotient_overflow :
    (x y : ℕ) → overflows 64 x y ≡ true → x ≡ to_word 64 (quot (signed 64 x) (signed 64 y))
unfolding to_word quot signed
quotient_overflow x y h = let (p, q) = overflow-parts 64 x y h in rw (p, q) refl

remainder_overflow :
    (x y : ℕ) → overflows 64 x y ≡ true → 0 ≡ to_word 64 (rem (signed 64 x) (signed 64 y))
unfolding to_word rem signed
remainder_overflow x y h = let (p, q) = overflow-parts 64 x y h in rw (p, q) refl

if-same : (b : Bool) (x y : ℕ) → (b ≡ true → x ≡ y) → (if b then x else y) ≡ y
if-same true x y h = h refl
if-same false x y h = refl

neg_zero : (x : ℕ) → (0 + (2 ^ 64 - x)) % 2 ^ 64 ≡ (2 ^ 64 - x) % 2 ^ 64
neg_zero x = ap (λ (t : ℕ). t % 2 ^ 64) (omega arith)

-- The operands of every case but the negation.
binary :
    {i : McInst} {d a : Register} {b : Operand}
    → i.operands ≡ reg d ∷ reg a ∷ b ∷ []
    → number d ≤ 11
    → number a ≤ 11
    → IsSource 64 b
    → IsBinary 64 i d a b
binary e hd ha hb = record {
  dst = ap (λ xs. get_elem? xs 0) e;
  left = ap (λ xs. get_elem? xs 1) e;
  right = ap (λ xs. get_elem? xs 2) e;
  dst_le = hd;
  left_le = ha;
  right_IsSource = hb;
}

module _ (L : LangRef) {base : ℕ} {i : McInst} {s : Lifter} {m : Machine} (d a : Register)
    (b : Operand) (at : IsAt base i s) where
  pub Does-lift_alu64 :
      (o : Alu64)
      → i.operands ≡ operands_64 o d a b
      → number d ≤ 11
      → number a ≤ 11
      → IsSource 64 b
      → Does L s m (lift_alu64 o) (
          Stores s.next m
            (base + 4 * number d)
            (alu 64 (operation_64 o) (reg_of base m (number a)) (source_64 (reg_of base m) b)))
  unfolding lift_alu64 alu
  Does-lift_alu64 Alu64.add_rr e hd ha hb =
      Does-alu64 L at (binary e hd ha hb) BinOp.add
        (L.add_lem 64 (reg_of base m (number a)) (source_64 (reg_of base m) b))
  Does-lift_alu64 Alu64.add_ri e hd ha hb =
      Does-alu64 L at (binary e hd ha hb) BinOp.add
        (L.add_lem 64 (reg_of base m (number a)) (source_64 (reg_of base m) b))
  Does-lift_alu64 Alu64.sub_rr e hd ha hb =
      Does-alu64 L at (binary e hd ha hb) BinOp.sub
        (L.sub_lem 64 (reg_of base m (number a)) (source_64 (reg_of base m) b))
  Does-lift_alu64 Alu64.sub_ri e hd ha hb =
      Does-alu64 L at (binary e hd ha hb) BinOp.sub
        (L.sub_lem 64 (reg_of base m (number a)) (source_64 (reg_of base m) b))
  Does-lift_alu64 Alu64.mul_rr e hd ha hb =
      Does-alu64 L at (binary e hd ha hb) BinOp.mul
        (L.mul_lem 64 (reg_of base m (number a)) (source_64 (reg_of base m) b))
  Does-lift_alu64 Alu64.mul_ri e hd ha hb =
      Does-alu64 L at (binary e hd ha hb) BinOp.mul
        (L.mul_lem 64 (reg_of base m (number a)) (source_64 (reg_of base m) b))
  Does-lift_alu64 Alu64.and_rr e hd ha hb =
      Does-alu64 L at (binary e hd ha hb) BinOp.and
        (L.and_lem 64 (reg_of base m (number a)) (source_64 (reg_of base m) b))
  Does-lift_alu64 Alu64.and_ri e hd ha hb =
      Does-alu64 L at (binary e hd ha hb) BinOp.and
        (L.and_lem 64 (reg_of base m (number a)) (source_64 (reg_of base m) b))
  Does-lift_alu64 Alu64.or_rr e hd ha hb =
      Does-alu64 L at (binary e hd ha hb) BinOp.or
        (L.or_lem 64 (reg_of base m (number a)) (source_64 (reg_of base m) b))
  Does-lift_alu64 Alu64.or_ri e hd ha hb =
      Does-alu64 L at (binary e hd ha hb) BinOp.or
        (L.or_lem 64 (reg_of base m (number a)) (source_64 (reg_of base m) b))
  Does-lift_alu64 Alu64.xor_rr e hd ha hb =
      Does-alu64 L at (binary e hd ha hb) BinOp.xor
        (L.xor_lem 64 (reg_of base m (number a)) (source_64 (reg_of base m) b))
  Does-lift_alu64 Alu64.xor_ri e hd ha hb =
      Does-alu64 L at (binary e hd ha hb) BinOp.xor
        (L.xor_lem 64 (reg_of base m (number a)) (source_64 (reg_of base m) b))
  Does-lift_alu64 Alu64.sll_rr e hd ha hb =
      Does-shift64 L at (binary e hd ha hb) λ u v s' m' live p q. Does-masked_shl L 6 live p q
  Does-lift_alu64 Alu64.sll_ri e hd ha hb =
      Does-shift64 L at (binary e hd ha hb) λ u v s' m' live p q. Does-masked_shl L 6 live p q
  Does-lift_alu64 Alu64.srl_rr e hd ha hb =
      Does-shift64 L at (binary e hd ha hb) λ u v s' m' live p q. Does-masked_lshr L 6 live p q
  Does-lift_alu64 Alu64.srl_ri e hd ha hb =
      Does-shift64 L at (binary e hd ha hb) λ u v s' m' live p q. Does-masked_lshr L 6 live p q
  Does-lift_alu64 Alu64.sra_rr e hd ha hb =
      Does-shift64 L at (binary e hd ha hb) λ u v s' m' live p q. Does-masked_ashr L 6 live p q
  Does-lift_alu64 Alu64.sra_ri e hd ha hb =
      Does-shift64 L at (binary e hd ha hb) λ u v s' m' live p q. Does-masked_ashr L 6 live p q
  Does-lift_alu64 Alu64.div_rr e hd ha hb = Does-div64 L at (binary e hd ha hb)
  Does-lift_alu64 Alu64.div_ri e hd ha hb = Does-div64 L at (binary e hd ha hb)
  Does-lift_alu64 Alu64.mod_rr e hd ha hb = Does-mod64 L at (binary e hd ha hb)
  Does-lift_alu64 Alu64.mod_ri e hd ha hb = Does-mod64 L at (binary e hd ha hb)
  Does-lift_alu64 Alu64.sdiv_rr e hd ha hb =
      rw
        (← if-same _ _ _
          (quotient_overflow (reg_of base m (number a)) (source_64 (reg_of base m) b)))
        (Does-sdiv64 L at (binary e hd ha hb))
  Does-lift_alu64 Alu64.sdiv_ri e hd ha hb =
      rw
        (← if-same _ _ _
          (quotient_overflow (reg_of base m (number a)) (source_64 (reg_of base m) b)))
        (Does-sdiv64 L at (binary e hd ha hb))
  Does-lift_alu64 Alu64.smod_rr e hd ha hb =
      rw
        (← if-same _ _ _
          (remainder_overflow (reg_of base m (number a)) (source_64 (reg_of base m) b)))
        (Does-smod64 L at (binary e hd ha hb))
  Does-lift_alu64 Alu64.smod_ri e hd ha hb =
      rw
        (← if-same _ _ _
          (remainder_overflow (reg_of base m (number a)) (source_64 (reg_of base m) b)))
        (Does-smod64 L at (binary e hd ha hb))
  Does-lift_alu64 Alu64.neg_64 e hd ha hb =
      rw (← neg_zero _)
        (Does-neg64 L at (ap (λ xs. get_elem? xs 0) e) (ap (λ xs. get_elem? xs 1) e) hd ha)
