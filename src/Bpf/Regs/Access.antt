-- ===== src/Bpf/Regs/Access.antt =====
-- What reading and writing a register and an operand does (src/lifter/bpf2llvm.cpp).
use bpf_tv.Common.{ℕ, ◌*◌, ◌+◌, ◌%◌, ◌^◌, ◌≤◌, ◌≡◌, refl, some, true, get_elem?, ok, le→leb}
use bpf_tv.Words.{ℤ, to_word, fits_signed}
use bpf_tv.Llvm.Ir.{Value, alloca}
use bpf_tv.Llvm.LangRef.{LangRef}
use bpf_tv.Llvm.Exec.{Machine}
use bpf_tv.Mc.Inst.{Register, r, w, Operand, reg, imm, expr, McInst}
use bpf_tv.Lifter.State.{Lifter, lift_option}
use bpf_tv.Lifter.Build.{get_bit_width}
use bpf_tv.Lifter.Logic.{Does, Does-eq, >>=-eq_of_ok}
use bpf_tv.Lifter.Values.{Is, Yields, Stores, Does-value, Does-store}
use bpf_tv.Lifter.Rules.{Does-load_cell, Does-store_cell, Does-trunc, Does-zext, Does-imm}
use bpf_tv.Bpf.Regs.{
  map_reg_to_backing_reg, is_w_reg, lookup_reg, read_reg_64, read_reg_32, update_reg_64,
  update_reg_32,
}
use bpf_tv.Bpf.Operands.{
  get_operand, read_reg_operand_64, read_reg_operand_32, read_imm_operand, read_alu_src_operand,
}
use bpf_tv.Bpf.Alu.{update_dst_64, update_dst_32}
use bpf_tv.Bpf.Frame.{number, IsAt, IsAt-Grows, reg_of, IsSource, source_64, source_32}

backing :
    (x : Register) (s : Lifter) → number x ≤ 11 → map_reg_to_backing_reg x s ≡ ok (number x, s)
unfolding map_reg_to_backing_reg is_w_reg
backing (r n) s h = rw (le→leb n 11 h) refl
backing (w n) s h = rw (le→leb n 11 h) refl

module _ {base : ℕ} {i : McInst} {s : Lifter} (at : IsAt base i s) where
  pub lookup_reg-IsAt :
      (x : Register) → number x ≤ 11 → lookup_reg x s ≡ ok (alloca (base + 4 * number x), s)
  unfolding lookup_reg
  lookup_reg-IsAt x h =
      >>=-eq_of_ok (map_reg_to_backing_reg x) (λ n s. lift_option _ (s.reg_file n) s)
        (backing x s h) (rw (at.storage (number x) h))

  pub get_operand-IsAt :
      (idx : ℕ) (op : Operand) → get_elem? i.operands idx ≡ some op → get_operand idx s ≡ ok (op, s)
  unfolding get_operand
  get_operand-IsAt idx op h = rw (at.inst, h)

module _ (L : LangRef) {base : ℕ} {i : McInst} {s : Lifter} {m : Machine} (at : IsAt base i s) where
  pub Does-read_64 :
      (x : Register)
      → number x ≤ 11
      → Does L s m (read_reg_64 x) (Yields L s.next m 64 (reg_of base m (number x)))
  unfolding read_reg_64
  Does-read_64 x h =
      Does-eq L (>>=-eq_of_ok (lookup_reg x) _ (lookup_reg-IsAt at x h) refl)
        (Does-load_cell L 64 (base + 4 * number x))

  -- Where the register file is set up, `readReg32` succeeds for an R register or its W alias, and
  -- its code computes the lowest 32 bits of that register and changes no old cell, nor memory.
  pub Does-read_32 :
      (x : Register)
      → number x ≤ 11
      → Does L s m (read_reg_32 x) (Yields L s.next m 32 (reg_of base m (number x) % 2 ^ 32))
  unfolding read_reg_32
  Does-read_32 x h =
      Does-value L at.live (Does-read_64 x h) λ v s' m' live g q p. Does-trunc L 32 refl p

  pub Does-update_64 :
      {v : Value} {z : ℕ} (x : Register)
      → number x ≤ 11
      → Is L s.next m v 64 z
      → Does L s m (update_reg_64 v x) (Stores s.next m (base + 4 * number x) z)
  unfolding update_reg_64 get_bit_width
  Does-update_64 x h p =
      Does-eq L (rw (p.typed) (>>=-eq_of_ok (lookup_reg x) _ (lookup_reg-IsAt at x h) refl))
        (Does-store_cell L (base + 4 * number x) p)

module _ (L : LangRef) {base : ℕ} {i : McInst} {s : Lifter} {m : Machine} (at : IsAt base i s) where
  -- Where the register file is set up and the value has 32 bits, `updateReg32` succeeds for an R
  -- register or its W alias, and its code stores the value zero-extended to 64 bits in that
  -- register's cell and changes no other old cell, nor memory.
  pub Does-update_32 :
      {v : Value} {z : ℕ} (x : Register)
      → number x ≤ 11
      → Is L s.next m v 32 z
      → Does L s m (update_reg_32 v x) (Stores s.next m (base + 4 * number x) z)
  unfolding update_reg_32 get_bit_width
  Does-update_32 x h p = Does-eq L (rw p.typed) (
      Does-store L at.live (Does-zext L 64 p)
        λ v s' m' live g q p'. Does-update_64 L (IsAt-Grows g at) x h p')

  module _ (idx : ℕ) (x : Register) (op : get_elem? i.operands idx ≡ some (reg x))
      (h : number x ≤ 11) where
    pub Does-reg_64 :
        Does L s m (read_reg_operand_64 idx) (Yields L s.next m 64 (reg_of base m (number x)))
    unfolding read_reg_operand_64
    Does-reg_64 =
        Does-eq L (>>=-eq_of_ok (get_operand idx) _ (get_operand-IsAt at idx (reg x) op) refl)
          (Does-read_64 L at x h)

    pub Does-reg_32 :
        Does L s m
          (read_reg_operand_32 idx)
          (Yields L s.next m 32 (reg_of base m (number x) % 2 ^ 32))
    unfolding read_reg_operand_32
    Does-reg_32 =
        Does-eq L (>>=-eq_of_ok (get_operand idx) _ (get_operand-IsAt at idx (reg x) op) refl)
          (Does-read_32 L at x h)

  module _ (x : Register) (op : get_elem? i.operands 0 ≡ some (reg x)) (h : number x ≤ 11) where
    pub Does-dst_64 :
        {v : Value} {z : ℕ}
        → Is L s.next m v 64 z
        → Does L s m (update_dst_64 v) (Stores s.next m (base + 4 * number x) z)
    unfolding update_dst_64
    Does-dst_64 p =
        Does-eq L (>>=-eq_of_ok (get_operand 0) _ (get_operand-IsAt at 0 (reg x) op) refl)
          (Does-update_64 L at x h p)

    pub Does-dst_32 :
        {v : Value} {z : ℕ}
        → Is L s.next m v 32 z
        → Does L s m (update_dst_32 v) (Stores s.next m (base + 4 * number x) z)
    unfolding update_dst_32
    Does-dst_32 p =
        Does-eq L (>>=-eq_of_ok (get_operand 0) _ (get_operand-IsAt at 0 (reg x) op) refl)
          (Does-update_32 x h p)

  pub Does-imm_operand :
      (idx bits : ℕ) (z : ℤ)
      → get_elem? i.operands idx ≡ some (imm z)
      → fits_signed bits z ≡ true
      → Does L s m (read_imm_operand idx bits) (Yields L s.next m bits (to_word bits z))
  unfolding read_imm_operand
  Does-imm_operand idx bits z op h =
      Does-eq L (>>=-eq_of_ok (get_operand idx) _ (get_operand-IsAt at idx (imm z) op) refl)
        (Does-imm L z bits h)

module _ (L : LangRef) {base : ℕ} {i : McInst} {s : Lifter} {m : Machine} (at : IsAt base i s)
    (idx : ℕ) where
  pub Does-src_64 :
      (op : Operand)
      → get_elem? i.operands idx ≡ some op
      → IsSource 64 op
      → Does L s m
          (read_alu_src_operand idx 64)
          (Yields L s.next m 64 (source_64 (reg_of base m) op))
  unfolding read_alu_src_operand
  Does-src_64 (reg x) e h =
      Does-eq L (>>=-eq_of_ok (get_operand idx) _ (get_operand-IsAt at idx (reg x) e) refl)
        (Does-read_64 L at x h)
  Does-src_64 (imm z) e h =
      Does-eq L (>>=-eq_of_ok (get_operand idx) _ (get_operand-IsAt at idx (imm z) e) refl)
        (Does-imm_operand L at idx 64 z e h)
  Does-src_64 (expr n) e h = absurd h

  pub Does-src_32 :
      (op : Operand)
      → get_elem? i.operands idx ≡ some op
      → IsSource 32 op
      → Does L s m
          (read_alu_src_operand idx 32)
          (Yields L s.next m 32 (source_32 (reg_of base m) op))
  unfolding read_alu_src_operand
  Does-src_32 (reg x) e h =
      Does-eq L (>>=-eq_of_ok (get_operand idx) _ (get_operand-IsAt at idx (reg x) e) refl)
        (Does-read_32 L at x h)
  Does-src_32 (imm z) e h =
      Does-eq L (>>=-eq_of_ok (get_operand idx) _ (get_operand-IsAt at idx (imm z) e) refl)
        (Does-imm_operand L at idx 32 z e h)
  Does-src_32 (expr n) e h = absurd h
