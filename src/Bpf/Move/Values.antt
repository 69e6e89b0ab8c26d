-- ===== src/Bpf/Move/Values.antt =====
-- The moves and the byte swaps of `bpf2llvm::lift`, against the instruction set.
use bpf_tv.Common.{
  ℕ, ◌*◌, ◌+◌, ◌*◌, ◌==◌, arith, ◌%◌, ◌^◌, ◌≤◌, ◌<◌, ◌≡◌, refl, get_elem?, Bool, some,
}
use bpf_tv.Words.{ℤ, to_word, signed}
use bpf_tv.Isa.Arithmetic.{moved, IsMove, swapped, no_symbol}
use bpf_tv.Llvm.Ir.{Value, int}
use bpf_tv.Llvm.LangRef.{LangRef, byte_swap}
use bpf_tv.Llvm.Exec.{Machine}
use bpf_tv.Mc.Opcode.{Move, Endian}
use bpf_tv.Mc.Inst.{Register, Operand, reg, imm, expr, McInst}
use bpf_tv.Lifter.State.{Lifter, M, ◌>>=◌}
use bpf_tv.Lifter.Build.{create_trunc, create_bswap, create_zext}
use bpf_tv.Lifter.Logic.{Does, Does-eq, >>=-eq_of_ok}
use bpf_tv.Lifter.Values.{Yields, Stores, Does-store}
use bpf_tv.Lifter.Rules.{Does-trunc, Does-sext, Does-zext, Does-bswap, Does-const}
use bpf_tv.Bpf.Operands.{get_operand, read_reg_operand_64}
use bpf_tv.Bpf.Alu.{update_dst_64, update_dst_32, endian, lift_endian}
use bpf_tv.Bpf.Call.{Env}
use bpf_tv.Bpf.Move.{lift_move, movsx64, movsx32, imm64_value}
use bpf_tv.Bpf.Frame.{number, IsAt, IsAt-Grows, reg_of}
use bpf_tv.Bpf.Regs.Access.{
  Does-reg_64, Does-reg_32, Does-dst_64, Does-dst_32, Does-imm_operand, get_operand-IsAt,
}

to_word_lt : (z : ℤ) → to_word 64 z < 2 ^ 64
unfolding to_word
to_word_lt (ℤ.pos n) = omega arith
to_word_lt (ℤ.negsuc n) = omega arith

-- A move that allows a register bounds it, and none allows a symbol.
register : (o : Move) (x : Register) → IsMove o (reg x) → number x ≤ 11
register Move.mov_rr x h = h
register Move.mov_ri x h = absurd h
register Move.mov_rr_32 x h = h
register Move.mov_ri_32 x h = absurd h
register Move.mov_32_64 x h = h
register Move.movsx_rr_8 x h = h
register Move.movsx_rr_16 x h = h
register Move.movsx_rr_32 x h = h
register Move.movsx_rr_32_8 x h = h
register Move.movsx_rr_32_16 x h = h
register Move.ld_imm64 x h = absurd h

module _ (L : LangRef) {base : ℕ} {i : McInst} {s : Lifter} {m : Machine} {d : Register}
    (at : IsAt base i s) (dst : get_elem? i.operands 0 ≡ some (reg d))
    (dst_le : number d ≤ 11) where
  to_dst_64 :
      {act : M Value} {z : ℕ}
      → Does L s m act (Yields L s.next m 64 z)
      → Does L s m (act >>= update_dst_64) (Stores s.next m (base + 4 * number d) z)
  to_dst_64 h =
      Does-store L at.live h λ v s' m' live g q p. Does-dst_64 L (IsAt-Grows g at) d dst dst_le p

  to_dst_32 :
      {act : M Value} {z : ℕ}
      → Does L s m act (Yields L s.next m 32 z)
      → Does L s m (act >>= update_dst_32) (Stores s.next m (base + 4 * number d) z)
  to_dst_32 h =
      Does-store L at.live h λ v s' m' live g q p. Does-dst_32 L (IsAt-Grows g at) d dst dst_le p

  module _ (x : Register) (src : get_elem? i.operands 1 ≡ some (reg x))
      (src_le : number x ≤ 11) where
    extends_64 :
        (bits : ℕ)
        → (64 == bits) ≡ Bool.false
        → Does L s m (movsx64 bits) (
            Stores s.next m
              (base + 4 * number d)
              (to_word 64 (signed bits (reg_of base m (number x) % 2 ^ bits))))
    unfolding movsx64
    extends_64 bits ne =
        Does-store L at.live (Does-reg_64 L at 1 x src src_le) λ v s' m' live g q p.
          Does-store L live (Does-trunc L bits ne p) λ v' s'' m'' live' g' q' p'.
            Does-store L live' (Does-sext L 64 p') λ v'' s₃ m₃ live'' g'' q'' p''.
              Does-dst_64 L (IsAt-Grows g'' (IsAt-Grows g' (IsAt-Grows g at))) d dst dst_le p''

    extends_32 :
        (bits : ℕ)
        → (32 == bits) ≡ Bool.false
        → Does L s m (movsx32 bits) (
            Stores s.next m
              (base + 4 * number d)
              (to_word 32 (signed bits (reg_of base m (number x) % 2 ^ 32 % 2 ^ bits))))
    unfolding movsx32
    extends_32 bits ne =
        Does-store L at.live (Does-reg_32 L at 1 x src src_le) λ v s' m' live g q p.
          Does-store L live (Does-trunc L bits ne p) λ v' s'' m'' live' g' q' p'.
            Does-store L live' (Does-sext L 32 p') λ v'' s₃ m₃ live'' g'' q'' p''.
              Does-dst_32 L (IsAt-Grows g'' (IsAt-Grows g' (IsAt-Grows g at))) d dst dst_le p''

    move_reg :
        (e : Env) (o : Move)
        → IsMove o (reg x)
        → Does L s m
            (lift_move e o)
            (Stores s.next m (base + 4 * number d) (moved o (reg_of base m) (reg x)))
    unfolding lift_move
    move_reg e Move.mov_rr h = to_dst_64 (Does-reg_64 L at 1 x src src_le)
    move_reg e Move.mov_ri h = absurd h
    move_reg e Move.mov_rr_32 h = to_dst_32 (Does-reg_32 L at 1 x src src_le)
    move_reg e Move.mov_ri_32 h = absurd h
    move_reg e Move.mov_32_64 h = to_dst_32 (Does-reg_32 L at 1 x src src_le)
    move_reg e Move.movsx_rr_8 h = extends_64 8 refl
    move_reg e Move.movsx_rr_16 h = extends_64 16 refl
    move_reg e Move.movsx_rr_32 h =
        Does-store L at.live (Does-reg_32 L at 1 x src src_le) λ v s' m' live g q p.
          Does-store L live (Does-sext L 64 p) λ v' s'' m'' live' g' q' p'.
            Does-dst_64 L (IsAt-Grows g' (IsAt-Grows g at)) d dst dst_le p'
    move_reg e Move.movsx_rr_32_8 h = extends_32 8 refl
    move_reg e Move.movsx_rr_32_16 h = extends_32 16 refl
    move_reg e Move.ld_imm64 h = absurd h

    cut_swap :
        (k : ℕ)
        → (64 == 8 * k) ≡ Bool.false
        → Does L s m
            (read_reg_operand_64 1 >>= λ v. create_trunc v (int (8 * k)) >>= λ c.
              create_bswap c >>= λ b. create_zext b (int 64) >>= update_dst_64)
            (Stores s.next m
              (base + 4 * number d)
              (byte_swap k (reg_of base m (number x) % 2 ^ (8 * k))))
    cut_swap k ne = Does-store L at.live (Does-reg_64 L at 1 x src src_le) λ v s' m' live g q p.
        Does-store L live (Does-trunc L (8 * k) ne p) λ c s₁ m₁ live₁ g₁ q₁ p₁.
          Does-store L live₁ (Does-bswap L p₁) λ b s₂ m₂ live₂ g₂ q₂ p₂.
            Does-store L live₂ (Does-zext L 64 p₂) λ z s₃ m₃ live₃ g₃ q₃ p₃.
              rw (← L.bswap_lem k (reg_of base m (number x) % 2 ^ (8 * k))) (
                Does-dst_64 L (IsAt-Grows g₃ (IsAt-Grows g₂ (IsAt-Grows g₁ (IsAt-Grows g at)))) d
                  dst dst_le p₃)

    cut :
        (bits : ℕ)
        → (64 == bits) ≡ Bool.false
        → Does L s m
            (read_reg_operand_64 1 >>= λ v.
              create_trunc v (int bits) >>= λ c. create_zext c (int 64) >>= update_dst_64)
            (Stores s.next m (base + 4 * number d) (reg_of base m (number x) % 2 ^ bits))
    cut bits ne = Does-store L at.live (Does-reg_64 L at 1 x src src_le) λ v s' m' live g q p.
        Does-store L live (Does-trunc L bits ne p) λ c s₁ m₁ live₁ g₁ q₁ p₁.
          Does-store L live₁ (Does-zext L 64 p₁) λ z s₂ m₂ live₂ g₂ q₂ p₂.
            Does-dst_64 L (IsAt-Grows g₂ (IsAt-Grows g₁ (IsAt-Grows g at))) d dst dst_le p₂

    swap_64 :
        Does L s m
          (read_reg_operand_64 1 >>= λ v. create_bswap v >>= update_dst_64)
          (Stores s.next m (base + 4 * number d) (byte_swap 8 (reg_of base m (number x))))
    swap_64 = Does-store L at.live (Does-reg_64 L at 1 x src src_le) λ v s' m' live g q p.
        Does-store L live (Does-bswap L p) λ b s₁ m₁ live₁ g₁ q₁ p₁.
          rw (← L.bswap_lem 8 (reg_of base m (number x)))
            (Does-dst_64 L (IsAt-Grows g₁ (IsAt-Grows g at)) d dst dst_le p₁)

    pub Does-lift_endian :
        (o : Endian)
        → Does L s m
            (lift_endian o)
            (Stores s.next m (base + 4 * number d) (swapped o (reg_of base m (number x))))
    unfolding lift_endian endian
    Does-lift_endian Endian.be16 = cut_swap 2 refl
    Does-lift_endian Endian.be32 = cut_swap 4 refl
    Does-lift_endian Endian.be64 = swap_64
    Does-lift_endian Endian.le16 = cut 16 refl
    Does-lift_endian Endian.le32 = cut 32 refl
    Does-lift_endian Endian.le64 = to_dst_64 (Does-reg_64 L at 1 x src src_le)
    Does-lift_endian Endian.bswap16 = cut_swap 2 refl
    Does-lift_endian Endian.bswap32 = cut_swap 4 refl
    Does-lift_endian Endian.bswap64 = swap_64

  module _ (z : ℤ) (src : get_elem? i.operands 1 ≡ some (imm z)) where
    move_imm :
        (e : Env) (o : Move)
        → IsMove o (imm z)
        → Does L s m
            (lift_move e o)
            (Stores s.next m (base + 4 * number d) (moved o (reg_of base m) (imm z)))
    unfolding lift_move imm64_value
    move_imm e Move.mov_rr h = absurd h
    move_imm e Move.mov_ri h = to_dst_64 (Does-imm_operand L at 1 64 z src h)
    move_imm e Move.mov_rr_32 h = absurd h
    move_imm e Move.mov_ri_32 h = to_dst_32 (Does-imm_operand L at 1 32 z src h)
    move_imm e Move.mov_32_64 h = absurd h
    move_imm e Move.movsx_rr_8 h = absurd h
    move_imm e Move.movsx_rr_16 h = absurd h
    move_imm e Move.movsx_rr_32 h = absurd h
    move_imm e Move.movsx_rr_32_8 h = absurd h
    move_imm e Move.movsx_rr_32_16 h = absurd h
    move_imm e Move.ld_imm64 h =
        Does-eq L (>>=-eq_of_ok (get_operand 1) _ (get_operand-IsAt at 1 (imm z) src) refl)
          (to_dst_64 (Does-const L (to_word 64 z) 64 (to_word_lt z)))

  pub Does-lift_move :
      (e : Env) (o : Move) (b : Operand)
      → get_elem? i.operands 1 ≡ some b
      → IsMove o b
      → Does L s m
          (lift_move e o)
          (Stores s.next m (base + 4 * number d) (moved o (reg_of base m) b))
  Does-lift_move e o (reg x) src h = move_reg x src (register o x h) e o h
  Does-lift_move e o (imm z) src h = move_imm z src e o h
  Does-lift_move e o (expr n) src h = absurd (no_symbol o n h)
