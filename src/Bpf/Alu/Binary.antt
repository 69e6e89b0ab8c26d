-- ===== src/Bpf/Alu/Binary.antt =====
-- What the shared parts of the ALU cases do: read both sources, compute, write the destination.
use bpf_tv.Common.{
  ℕ, ◌*◌, ◌+◌, ◌-◌, ◌/◌, ◌%◌, ◌^◌, ◌==◌, if◌then◌else◌, ◌≤◌, ◌<◌, ◌≡◌, some, arith, get_elem?,
}
use bpf_tv.Llvm.Ir.{Value, BinOp}
use bpf_tv.Llvm.LangRef.{LangRef}
use bpf_tv.Llvm.Exec.{Machine}
use bpf_tv.Mc.Inst.{Register, Operand, reg, McInst}
use bpf_tv.Lifter.State.{Lifter, M, ◌>>=◌}
use bpf_tv.Lifter.Logic.{Does}
use bpf_tv.Lifter.Values.{Quiet-Keeps, Is, Is-later, Yields, Stores, Does-store}
use bpf_tv.Lifter.Rules.{Does-binop, Does-const, Does-sub}
use bpf_tv.Lifter.Divide.Unsigned.{Does-udiv, Does-urem}
use bpf_tv.Lifter.Divide.Signed.{Does-sdiv, Does-srem, overflows}
use bpf_tv.Words.{to_word, signed, quot, rem}
use bpf_tv.Bpf.Operands.{read_reg_operand_64, read_reg_operand_32, read_alu_src_operand}
use bpf_tv.Bpf.Alu.{
  alu64, alu32, shift64, shift32, div64, div32, mod64, mod32, neg64, neg32, sdiv64, sdiv32, smod64,
  smod32,
}
use bpf_tv.Bpf.Frame.{
  number, IsAt, IsAt-Grows, reg_of, IsSource, source_64, source_32, source_64-Quiet,
  source_32-Quiet,
}
use bpf_tv.Bpf.Regs.Access.{
  Does-reg_64, Does-reg_32, Does-src_64, Does-src_32, Does-dst_64, Does-dst_32,
}

-- The instruction has a register first and second, and a source operand third.
pub record IsBinary (bits : ℕ) (i : McInst) (d a : Register) (b : Operand) : Type 0 where
  pub dst : get_elem? i.operands 0 ≡ some (reg d)
  pub left : get_elem? i.operands 1 ≡ some (reg a)
  pub right : get_elem? i.operands 2 ≡ some b
  pub dst_le : number d ≤ 11
  pub left_le : number a ≤ 11
  pub right_IsSource : IsSource bits b

module _ (L : LangRef) {base : ℕ} {i : McInst} {s : Lifter} {m : Machine} {d a : Register}
    {b : Operand} (at : IsAt base i s) where
  module _ (o : IsBinary 64 i d a b) where
    pub Does-sources_64 :
        {c z : ℕ} {k : Value → Value → M (Unit {0})}
        → ((u v : Value) (s' : Lifter) (m' : Machine)
            → IsAt base i s'
            → Is L s'.next m' u 64 (reg_of base m (number a))
            → Is L s'.next m' v 64 (source_64 (reg_of base m) b)
            → Does L s' m' (k u v) (Stores s'.next m' c z))
        → Does L s m
            (read_reg_operand_64 1 >>= λ u. read_alu_src_operand 2 64 >>= λ v. k u v)
            (Stores s.next m c z)
    Does-sources_64 f =
        Does-store L at.live (Does-reg_64 L at 1 a o.left o.left_le) λ u s' m' live g q p.
          Does-store L live
            (rw (← source_64-Quiet base at.taken q b o.right_IsSource)
              (Does-src_64 L (IsAt-Grows g at) 2 b o.right o.right_IsSource))
            λ v s'' m'' live' g' q' p'.
              f u v s'' m'' (IsAt-Grows g' (IsAt-Grows g at))
                (Is-later L g'.later (Quiet-Keeps q') p) p'

    pub Does-shift64 :
        {f : Value → Value → M Value} {z : ℕ}
        → ((u v : Value) (s' : Lifter) (m' : Machine)
            → s'.bb < s'.count
            → Is L s'.next m' u 64 (reg_of base m (number a))
            → Is L s'.next m' v 64 (source_64 (reg_of base m) b)
            → Does L s' m' (f u v) (Yields L s'.next m' 64 z))
        → Does L s m (shift64 f) (Stores s.next m (base + 4 * number d) z)
    unfolding shift64
    Does-shift64 k = Does-sources_64 λ u v s' m' at' p q.
        Does-store L at'.live (k u v s' m' at'.live p q)
          λ x s'' m'' live g qu h. Does-dst_64 L (IsAt-Grows g at') d o.dst o.dst_le h

    pub Does-alu64 :
        {z : ℕ} (op : BinOp)
        → L.binop op 64 (reg_of base m (number a)) (source_64 (reg_of base m) b) ≡ some z
        → Does L s m (alu64 op) (Stores s.next m (base + 4 * number d) z)
    unfolding alu64 shift64
    Does-alu64 op h = Does-shift64 λ u v s' m' live p q. Does-binop L op p q h

    pub Does-div64 : Does L s m div64 (
        Stores s.next m (base + 4 * number d) (
          if source_64 (reg_of base m) b == 0
          then 0
          else reg_of base m (number a) / source_64 (reg_of base m) b))
    unfolding div64
    Does-div64 = Does-sources_64 λ u v s' m' at' p q.
        Does-store L at'.live (Does-const L 0 64 (omega arith)) λ x s'' m'' live g qu h.
          Does-store L live
            (Does-udiv L live (Is-later L g.later (Quiet-Keeps qu) p)
              (Is-later L g.later (Quiet-Keeps qu) q) h)
            λ y s₃ m₃ live' g' qu' h'.
              Does-dst_64 L (IsAt-Grows g' (IsAt-Grows g at')) d o.dst o.dst_le h'

    pub Does-mod64 : Does L s m mod64 (
        Stores s.next m (base + 4 * number d) (
          if source_64 (reg_of base m) b == 0
          then reg_of base m (number a)
          else reg_of base m (number a) % source_64 (reg_of base m) b))
    unfolding mod64
    Does-mod64 = Does-sources_64 λ u v s' m' at' p q.
        Does-store L at'.live (Does-urem L at'.live p q p)
          λ x s'' m'' live g qu h. Does-dst_64 L (IsAt-Grows g at') d o.dst o.dst_le h

    pub Does-sdiv64 : Does L s m sdiv64 (
        Stores s.next m (base + 4 * number d) (
          if (source_64 (reg_of base m) b) == 0
          then 0
          else if overflows 64 (reg_of base m (number a)) (source_64 (reg_of base m) b)
          then (reg_of base m (number a))
          else to_word 64 (
              quot
                (signed 64 (reg_of base m (number a)))
                (signed 64 (source_64 (reg_of base m) b)))))
    unfolding sdiv64
    Does-sdiv64 = Does-sources_64 λ u v s' m' at' p q.
        Does-store L at'.live (Does-const L 0 64 (omega arith)) λ x s'' m'' live g qu h.
          let p' = Is-later L g.later (Quiet-Keeps qu) p in
          Does-store L live (Does-sdiv L live p' (Is-later L g.later (Quiet-Keeps qu) q) h p')
            λ y s₃ m₃ live' g' qu' h'.
              Does-dst_64 L (IsAt-Grows g' (IsAt-Grows g at')) d o.dst o.dst_le h'

    pub Does-smod64 : Does L s m smod64 (
        Stores s.next m (base + 4 * number d) (
          if (source_64 (reg_of base m) b) == 0
          then (reg_of base m (number a))
          else if overflows 64 (reg_of base m (number a)) (source_64 (reg_of base m) b)
          then 0
          else to_word 64 (
              rem
                (signed 64 (reg_of base m (number a)))
                (signed 64 (source_64 (reg_of base m) b)))))
    unfolding smod64
    Does-smod64 = Does-sources_64 λ u v s' m' at' p q.
        Does-store L at'.live (Does-const L 0 64 (omega arith)) λ x s'' m'' live g qu h.
          let p' = Is-later L g.later (Quiet-Keeps qu) p in
          Does-store L live (Does-srem L live p' (Is-later L g.later (Quiet-Keeps qu) q) p' h)
            λ y s₃ m₃ live' g' qu' h'.
              Does-dst_64 L (IsAt-Grows g' (IsAt-Grows g at')) d o.dst o.dst_le h'

  module _ (o : IsBinary 32 i d a b) where
    pub Does-sources_32 :
        {c z : ℕ} {k : Value → Value → M (Unit {0})}
        → ((u v : Value) (s' : Lifter) (m' : Machine)
            → IsAt base i s'
            → Is L s'.next m' u 32 (reg_of base m (number a) % 2 ^ 32)
            → Is L s'.next m' v 32 (source_32 (reg_of base m) b)
            → Does L s' m' (k u v) (Stores s'.next m' c z))
        → Does L s m
            (read_reg_operand_32 1 >>= λ u. read_alu_src_operand 2 32 >>= λ v. k u v)
            (Stores s.next m c z)
    Does-sources_32 f =
        Does-store L at.live (Does-reg_32 L at 1 a o.left o.left_le) λ u s' m' live g q p.
          Does-store L live
            (rw (← source_32-Quiet base at.taken q b o.right_IsSource)
              (Does-src_32 L (IsAt-Grows g at) 2 b o.right o.right_IsSource))
            λ v s'' m'' live' g' q' p'.
              f u v s'' m'' (IsAt-Grows g' (IsAt-Grows g at))
                (Is-later L g'.later (Quiet-Keeps q') p) p'

    pub Does-shift32 :
        {f : Value → Value → M Value} {z : ℕ}
        → ((u v : Value) (s' : Lifter) (m' : Machine)
            → s'.bb < s'.count
            → Is L s'.next m' u 32 (reg_of base m (number a) % 2 ^ 32)
            → Is L s'.next m' v 32 (source_32 (reg_of base m) b)
            → Does L s' m' (f u v) (Yields L s'.next m' 32 z))
        → Does L s m (shift32 f) (Stores s.next m (base + 4 * number d) z)
    unfolding shift32
    Does-shift32 k = Does-sources_32 λ u v s' m' at' p q.
        Does-store L at'.live (k u v s' m' at'.live p q)
          λ x s'' m'' live g qu h. Does-dst_32 L (IsAt-Grows g at') d o.dst o.dst_le h

    pub Does-alu32 :
        {z : ℕ} (op : BinOp)
        → L.binop op 32 (reg_of base m (number a) % 2 ^ 32) (source_32 (reg_of base m) b) ≡ some z
        → Does L s m (alu32 op) (Stores s.next m (base + 4 * number d) z)
    unfolding alu32 shift32
    Does-alu32 op h = Does-shift32 λ u v s' m' live p q. Does-binop L op p q h

    pub Does-div32 : Does L s m div32 (
        Stores s.next m (base + 4 * number d) (
          if source_32 (reg_of base m) b == 0
          then 0
          else reg_of base m (number a) % 2 ^ 32 / source_32 (reg_of base m) b))
    unfolding div32
    Does-div32 = Does-sources_32 λ u v s' m' at' p q.
        Does-store L at'.live (Does-const L 0 32 (omega arith)) λ x s'' m'' live g qu h.
          Does-store L live
            (Does-udiv L live (Is-later L g.later (Quiet-Keeps qu) p)
              (Is-later L g.later (Quiet-Keeps qu) q) h)
            λ y s₃ m₃ live' g' qu' h'.
              Does-dst_32 L (IsAt-Grows g' (IsAt-Grows g at')) d o.dst o.dst_le h'

    pub Does-mod32 : Does L s m mod32 (
        Stores s.next m (base + 4 * number d) (
          if source_32 (reg_of base m) b == 0
          then reg_of base m (number a) % 2 ^ 32
          else reg_of base m (number a) % 2 ^ 32 % source_32 (reg_of base m) b))
    unfolding mod32
    Does-mod32 = Does-sources_32 λ u v s' m' at' p q.
        Does-store L at'.live (Does-urem L at'.live p q p)
          λ x s'' m'' live g qu h. Does-dst_32 L (IsAt-Grows g at') d o.dst o.dst_le h

    pub Does-sdiv32 : Does L s m sdiv32 (
        Stores s.next m (base + 4 * number d) (
          if (source_32 (reg_of base m) b) == 0
          then 0
          else if overflows 32 (reg_of base m (number a) % 2 ^ 32) (source_32 (reg_of base m) b)
          then (reg_of base m (number a) % 2 ^ 32)
          else to_word 32 (
              quot
                (signed 32 (reg_of base m (number a) % 2 ^ 32))
                (signed 32 (source_32 (reg_of base m) b)))))
    unfolding sdiv32
    Does-sdiv32 = Does-sources_32 λ u v s' m' at' p q.
        Does-store L at'.live (Does-const L 0 32 (omega arith)) λ x s'' m'' live g qu h.
          let p' = Is-later L g.later (Quiet-Keeps qu) p in
          Does-store L live (Does-sdiv L live p' (Is-later L g.later (Quiet-Keeps qu) q) h p')
            λ y s₃ m₃ live' g' qu' h'.
              Does-dst_32 L (IsAt-Grows g' (IsAt-Grows g at')) d o.dst o.dst_le h'

    pub Does-smod32 : Does L s m smod32 (
        Stores s.next m (base + 4 * number d) (
          if (source_32 (reg_of base m) b) == 0
          then (reg_of base m (number a) % 2 ^ 32)
          else if overflows 32 (reg_of base m (number a) % 2 ^ 32) (source_32 (reg_of base m) b)
          then 0
          else to_word 32 (
              rem
                (signed 32 (reg_of base m (number a) % 2 ^ 32))
                (signed 32 (source_32 (reg_of base m) b)))))
    unfolding smod32
    Does-smod32 = Does-sources_32 λ u v s' m' at' p q.
        Does-store L at'.live (Does-const L 0 32 (omega arith)) λ x s'' m'' live g qu h.
          let p' = Is-later L g.later (Quiet-Keeps qu) p in
          Does-store L live (Does-srem L live p' (Is-later L g.later (Quiet-Keeps qu) q) p' h)
            λ y s₃ m₃ live' g' qu' h'.
              Does-dst_32 L (IsAt-Grows g' (IsAt-Grows g at')) d o.dst o.dst_le h'

module _ (L : LangRef) {base : ℕ} {i : McInst} {s : Lifter} {m : Machine} {d a : Register}
    (at : IsAt base i s) where
  module _ (dst : get_elem? i.operands 0 ≡ some (reg d))
      (left : get_elem? i.operands 1 ≡ some (reg a)) (dst_le : number d ≤ 11)
      (left_le : number a ≤ 11) where
    pub Does-neg64 :
        Does L s m neg64 (
          Stores s.next m
            (base + 4 * number d)
            ((0 + (2 ^ 64 - reg_of base m (number a))) % 2 ^ 64))
    unfolding neg64
    Does-neg64 = Does-store L at.live (Does-reg_64 L at 1 a left left_le) λ u s' m' live g q p.
        Does-store L live (Does-const L 0 64 (omega arith)) λ x s'' m'' live' g' q' h.
          Does-store L live'
            (Does-sub L h (Is-later L g'.later (Quiet-Keeps q') p)
              (L.sub_lem 64 0 (reg_of base m (number a))))
            λ y s₃ m₃ live'' g'' q'' h'.
              Does-dst_64 L (IsAt-Grows g'' (IsAt-Grows g' (IsAt-Grows g at))) d dst dst_le h'

    pub Does-neg32 : Does L s m neg32 (
        Stores s.next m
          (base + 4 * number d)
          ((0 + (2 ^ 32 - (reg_of base m (number a) % 2 ^ 32))) % 2 ^ 32))
    unfolding neg32
    Does-neg32 = Does-store L at.live (Does-reg_32 L at 1 a left left_le) λ u s' m' live g q p.
        Does-store L live (Does-const L 0 32 (omega arith)) λ x s'' m'' live' g' q' h.
          Does-store L live'
            (Does-sub L h (Is-later L g'.later (Quiet-Keeps q') p)
              (L.sub_lem 32 0 (reg_of base m (number a) % 2 ^ 32)))
            λ y s₃ m₃ live'' g'' q'' h'.
              Does-dst_32 L (IsAt-Grows g'' (IsAt-Grows g' (IsAt-Grows g at))) d dst dst_le h'
