-- ===== src/Bpf/Control/Branches.antt =====
-- The conditional jumps of `bpf2llvm::lift`, against the instruction set.
use bpf_tv.Common.{
  ℕ, ◌%◌, ◌^◌, ◌≤◌, ◌≡◌, ◌==◌, not, bit_and, some, arith, Bool, true, false, if◌then◌else◌, String,
  get_elem?,
}
use bpf_tv.Isa.Branch.{Condition, holds, jump_64, jump_32}
use bpf_tv.Llvm.Ir.{Value, Predicate}
use bpf_tv.Llvm.LangRef.{LangRef}
use bpf_tv.Llvm.Exec.{Machine}
use bpf_tv.Mc.Inst.{Register, Operand, reg, expr, McInst}
use bpf_tv.Lifter.State.{Lifter, M, ◌>>=◌}
use bpf_tv.Lifter.Grows.{Grows, Grows-trans}
use bpf_tv.Lifter.Values.{Quiet-Keeps, Is, Is-later}
use bpf_tv.Lifter.Rules.{Does-icmp, Does-and, Does-const}
use bpf_tv.Bpf.Operands.{read_reg_operand_64, read_reg_operand_32, read_alu_src_operand}
use bpf_tv.Bpf.Control.{cond_br, jset, lift_jump}
use bpf_tv.Bpf.Control.Jumps.{Jumps, Jumps-bind, Jumps-targets, HasTargets}
use bpf_tv.Bpf.Frame.{
  number, IsAt, IsAt-Grows, reg_of, IsSource, source_64, source_32, source_64-Quiet,
  source_32-Quiet,
}
use bpf_tv.Bpf.Regs.Access.{Does-reg_64, Does-reg_32, Does-src_64, Does-src_32}

module _ (L : LangRef) {base t f : ℕ} {i : McInst} {s : Lifter} {m : Machine} {a : Register}
    {o : Operand} {name : String} (at : IsAt base i s) (targets : HasTargets s name t f) where
  module _ (left : get_elem? i.operands 0 ≡ some (reg a)) (right : get_elem? i.operands 1 ≡ some o)
      (third : get_elem? i.operands 2 ≡ some (expr name)) (ha : number a ≤ 11) where
    pub sources_64 :
        {k : Value → Value → M (Unit {0})} {t' : ℕ}
        → IsSource 64 o
        → ((u v : Value) (s' : Lifter) (m' : Machine)
            → Grows s s'
            → IsAt base i s'
            → Is L s'.next m' u 64 (reg_of base m (number a))
            → Is L s'.next m' v 64 (source_64 (reg_of base m) o)
            → Jumps L s' m' (k u v) t')
        → Jumps L s m (read_reg_operand_64 0 >>= λ u. read_alu_src_operand 1 64 >>= λ v. k u v) t'
    sources_64 ho f = Jumps-bind L at.live (Does-reg_64 L at 0 a left ha) λ u s' m' live g q p.
        Jumps-bind L live
          (rw (← source_64-Quiet base at.taken q o ho)
            (Does-src_64 L (IsAt-Grows g at) 1 o right ho))
          λ v s'' m'' live' g' q' p'.
            f u v s'' m'' (Grows-trans g g' at.live) (IsAt-Grows g' (IsAt-Grows g at))
              (Is-later L g'.later (Quiet-Keeps q') p) p'

    pub compare_64 :
        (pred : Predicate) (c : Bool)
        → IsSource 64 o
        → L.icmp pred 64 (reg_of base m (number a)) (source_64 (reg_of base m) o) ≡ c
        → Jumps L s m (cond_br pred 64) (if c then t else f)
    unfolding cond_br
    compare_64 pred c ho h = sources_64 ho λ u v s' m' g at' p q.
        Jumps-bind L at'.live (Does-icmp L pred c p q h) λ w s'' m'' live g' qu r.
          Jumps-targets L c 2 (Grows-trans g g' at.live) (IsAt-Grows g' at') third targets r

    pub common_bits_64 :
        IsSource 64 o
        → Jumps L s m (jset 64) (
            if not (bit_and (reg_of base m (number a)) (source_64 (reg_of base m) o) == 0)
            then t
            else f)
    unfolding jset
    common_bits_64 ho = sources_64 ho λ u v s' m' g at' p q.
        Jumps-bind L at'.live
          (Does-and L p q (L.and_lem 64 (reg_of base m (number a)) (source_64 (reg_of base m) o)))
          λ w s₁ m₁ live₁ g₁ q₁ both.
            Jumps-bind L live₁ (Does-const L 0 64 (omega arith)) λ z s₂ m₂ live₂ g₂ q₂ nil.
              Jumps-bind L live₂
                (Does-icmp L Predicate.ne
                  (not (bit_and (reg_of base m (number a)) (source_64 (reg_of base m) o) == 0))
                  (Is-later L g₂.later (Quiet-Keeps q₂) both) nil
                  (L.ne_lem 64 (bit_and (reg_of base m (number a)) (source_64 (reg_of base m) o))
                    0))
                λ c s₃ m₃ live₃ g₃ q₃ r.
                  Jumps-targets L
                    (not (bit_and (reg_of base m (number a)) (source_64 (reg_of base m) o) == 0)) 2
                    (Grows-trans g (Grows-trans g₁ (Grows-trans g₂ g₃ live₁) at'.live) at.live)
                    (IsAt-Grows g₃ (IsAt-Grows g₂ (IsAt-Grows g₁ at'))) third targets r

    pub Jumps-lift_jump_64 :
        (c : Condition) (im : Bool)
        → IsSource 64 o
        → Jumps L s m
            (lift_jump (jump_64 c im))
            (if holds 64 c (reg_of base m (number a)) (source_64 (reg_of base m) o) then t else f)
    unfolding lift_jump holds
    Jumps-lift_jump_64 Condition.eq false ho =
        compare_64 Predicate.eq _ ho
          (L.eq_lem 64 (reg_of base m (number a)) (source_64 (reg_of base m) o))
    Jumps-lift_jump_64 Condition.eq true ho =
        compare_64 Predicate.eq _ ho
          (L.eq_lem 64 (reg_of base m (number a)) (source_64 (reg_of base m) o))
    Jumps-lift_jump_64 Condition.ne false ho =
        compare_64 Predicate.ne _ ho
          (L.ne_lem 64 (reg_of base m (number a)) (source_64 (reg_of base m) o))
    Jumps-lift_jump_64 Condition.ne true ho =
        compare_64 Predicate.ne _ ho
          (L.ne_lem 64 (reg_of base m (number a)) (source_64 (reg_of base m) o))
    Jumps-lift_jump_64 Condition.gt false ho =
        compare_64 Predicate.ugt _ ho
          (L.ugt_lem 64 (reg_of base m (number a)) (source_64 (reg_of base m) o))
    Jumps-lift_jump_64 Condition.gt true ho =
        compare_64 Predicate.ugt _ ho
          (L.ugt_lem 64 (reg_of base m (number a)) (source_64 (reg_of base m) o))
    Jumps-lift_jump_64 Condition.ge false ho =
        compare_64 Predicate.uge _ ho
          (L.uge_lem 64 (reg_of base m (number a)) (source_64 (reg_of base m) o))
    Jumps-lift_jump_64 Condition.ge true ho =
        compare_64 Predicate.uge _ ho
          (L.uge_lem 64 (reg_of base m (number a)) (source_64 (reg_of base m) o))
    Jumps-lift_jump_64 Condition.lt false ho =
        compare_64 Predicate.ult _ ho
          (L.ult_lem 64 (reg_of base m (number a)) (source_64 (reg_of base m) o))
    Jumps-lift_jump_64 Condition.lt true ho =
        compare_64 Predicate.ult _ ho
          (L.ult_lem 64 (reg_of base m (number a)) (source_64 (reg_of base m) o))
    Jumps-lift_jump_64 Condition.le false ho =
        compare_64 Predicate.ule _ ho
          (L.ule_lem 64 (reg_of base m (number a)) (source_64 (reg_of base m) o))
    Jumps-lift_jump_64 Condition.le true ho =
        compare_64 Predicate.ule _ ho
          (L.ule_lem 64 (reg_of base m (number a)) (source_64 (reg_of base m) o))
    Jumps-lift_jump_64 Condition.sgt false ho =
        compare_64 Predicate.sgt _ ho
          (L.sgt_lem 64 (reg_of base m (number a)) (source_64 (reg_of base m) o))
    Jumps-lift_jump_64 Condition.sgt true ho =
        compare_64 Predicate.sgt _ ho
          (L.sgt_lem 64 (reg_of base m (number a)) (source_64 (reg_of base m) o))
    Jumps-lift_jump_64 Condition.sge false ho =
        compare_64 Predicate.sge _ ho
          (L.sge_lem 64 (reg_of base m (number a)) (source_64 (reg_of base m) o))
    Jumps-lift_jump_64 Condition.sge true ho =
        compare_64 Predicate.sge _ ho
          (L.sge_lem 64 (reg_of base m (number a)) (source_64 (reg_of base m) o))
    Jumps-lift_jump_64 Condition.slt false ho =
        compare_64 Predicate.slt _ ho
          (L.slt_lem 64 (reg_of base m (number a)) (source_64 (reg_of base m) o))
    Jumps-lift_jump_64 Condition.slt true ho =
        compare_64 Predicate.slt _ ho
          (L.slt_lem 64 (reg_of base m (number a)) (source_64 (reg_of base m) o))
    Jumps-lift_jump_64 Condition.sle false ho =
        compare_64 Predicate.sle _ ho
          (L.sle_lem 64 (reg_of base m (number a)) (source_64 (reg_of base m) o))
    Jumps-lift_jump_64 Condition.sle true ho =
        compare_64 Predicate.sle _ ho
          (L.sle_lem 64 (reg_of base m (number a)) (source_64 (reg_of base m) o))
    Jumps-lift_jump_64 Condition.set false ho = common_bits_64 ho
    Jumps-lift_jump_64 Condition.set true ho = common_bits_64 ho

    pub sources_32 :
        {k : Value → Value → M (Unit {0})} {t' : ℕ}
        → IsSource 32 o
        → ((u v : Value) (s' : Lifter) (m' : Machine)
            → Grows s s'
            → IsAt base i s'
            → Is L s'.next m' u 32 (reg_of base m (number a) % 2 ^ 32)
            → Is L s'.next m' v 32 (source_32 (reg_of base m) o)
            → Jumps L s' m' (k u v) t')
        → Jumps L s m (read_reg_operand_32 0 >>= λ u. read_alu_src_operand 1 32 >>= λ v. k u v) t'
    sources_32 ho f = Jumps-bind L at.live (Does-reg_32 L at 0 a left ha) λ u s' m' live g q p.
        Jumps-bind L live
          (rw (← source_32-Quiet base at.taken q o ho)
            (Does-src_32 L (IsAt-Grows g at) 1 o right ho))
          λ v s'' m'' live' g' q' p'.
            f u v s'' m'' (Grows-trans g g' at.live) (IsAt-Grows g' (IsAt-Grows g at))
              (Is-later L g'.later (Quiet-Keeps q') p) p'

    pub compare_32 :
        (pred : Predicate) (c : Bool)
        → IsSource 32 o
        → L.icmp pred 32 (reg_of base m (number a) % 2 ^ 32) (source_32 (reg_of base m) o) ≡ c
        → Jumps L s m (cond_br pred 32) (if c then t else f)
    unfolding cond_br
    compare_32 pred c ho h = sources_32 ho λ u v s' m' g at' p q.
        Jumps-bind L at'.live (Does-icmp L pred c p q h) λ w s'' m'' live g' qu r.
          Jumps-targets L c 2 (Grows-trans g g' at.live) (IsAt-Grows g' at') third targets r

    pub common_bits_32 :
        IsSource 32 o
        → Jumps L s m (jset 32) (
            if not (bit_and (reg_of base m (number a) % 2 ^ 32) (source_32 (reg_of base m) o) == 0)
            then t
            else f)
    unfolding jset
    common_bits_32 ho = sources_32 ho λ u v s' m' g at' p q.
        Jumps-bind L at'.live
          (Does-and L p q
            (L.and_lem 32 (reg_of base m (number a) % 2 ^ 32) (source_32 (reg_of base m) o)))
          λ w s₁ m₁ live₁ g₁ q₁ both.
            Jumps-bind L live₁ (Does-const L 0 32 (omega arith)) λ z s₂ m₂ live₂ g₂ q₂ nil.
              Jumps-bind L live₂
                (Does-icmp L Predicate.ne
                  (not (
                    bit_and (reg_of base m (number a) % 2 ^ 32) (source_32 (reg_of base m) o) == 0))
                  (Is-later L g₂.later (Quiet-Keeps q₂) both) nil
                  (L.ne_lem 32
                    (bit_and (reg_of base m (number a) % 2 ^ 32) (source_32 (reg_of base m) o)) 0))
                λ c s₃ m₃ live₃ g₃ q₃ r.
                  Jumps-targets L
                    (not (
                      bit_and (reg_of base m (number a) % 2 ^ 32) (source_32 (reg_of base m) o)
                      == 0))
                    2 (Grows-trans g (Grows-trans g₁ (Grows-trans g₂ g₃ live₁) at'.live) at.live)
                    (IsAt-Grows g₃ (IsAt-Grows g₂ (IsAt-Grows g₁ at'))) third targets r

    pub Jumps-lift_jump_32 :
        (c : Condition) (im : Bool)
        → IsSource 32 o
        → Jumps L s m (lift_jump (jump_32 c im)) (
            if holds 32 c (reg_of base m (number a) % 2 ^ 32) (source_32 (reg_of base m) o)
            then t
            else f)
    unfolding lift_jump holds
    Jumps-lift_jump_32 Condition.eq false ho =
        compare_32 Predicate.eq _ ho
          (L.eq_lem 32 (reg_of base m (number a) % 2 ^ 32) (source_32 (reg_of base m) o))
    Jumps-lift_jump_32 Condition.eq true ho =
        compare_32 Predicate.eq _ ho
          (L.eq_lem 32 (reg_of base m (number a) % 2 ^ 32) (source_32 (reg_of base m) o))
    Jumps-lift_jump_32 Condition.ne false ho =
        compare_32 Predicate.ne _ ho
          (L.ne_lem 32 (reg_of base m (number a) % 2 ^ 32) (source_32 (reg_of base m) o))
    Jumps-lift_jump_32 Condition.ne true ho =
        compare_32 Predicate.ne _ ho
          (L.ne_lem 32 (reg_of base m (number a) % 2 ^ 32) (source_32 (reg_of base m) o))
    Jumps-lift_jump_32 Condition.gt false ho =
        compare_32 Predicate.ugt _ ho
          (L.ugt_lem 32 (reg_of base m (number a) % 2 ^ 32) (source_32 (reg_of base m) o))
    Jumps-lift_jump_32 Condition.gt true ho =
        compare_32 Predicate.ugt _ ho
          (L.ugt_lem 32 (reg_of base m (number a) % 2 ^ 32) (source_32 (reg_of base m) o))
    Jumps-lift_jump_32 Condition.ge false ho =
        compare_32 Predicate.uge _ ho
          (L.uge_lem 32 (reg_of base m (number a) % 2 ^ 32) (source_32 (reg_of base m) o))
    Jumps-lift_jump_32 Condition.ge true ho =
        compare_32 Predicate.uge _ ho
          (L.uge_lem 32 (reg_of base m (number a) % 2 ^ 32) (source_32 (reg_of base m) o))
    Jumps-lift_jump_32 Condition.lt false ho =
        compare_32 Predicate.ult _ ho
          (L.ult_lem 32 (reg_of base m (number a) % 2 ^ 32) (source_32 (reg_of base m) o))
    Jumps-lift_jump_32 Condition.lt true ho =
        compare_32 Predicate.ult _ ho
          (L.ult_lem 32 (reg_of base m (number a) % 2 ^ 32) (source_32 (reg_of base m) o))
    Jumps-lift_jump_32 Condition.le false ho =
        compare_32 Predicate.ule _ ho
          (L.ule_lem 32 (reg_of base m (number a) % 2 ^ 32) (source_32 (reg_of base m) o))
    Jumps-lift_jump_32 Condition.le true ho =
        compare_32 Predicate.ule _ ho
          (L.ule_lem 32 (reg_of base m (number a) % 2 ^ 32) (source_32 (reg_of base m) o))
    Jumps-lift_jump_32 Condition.sgt false ho =
        compare_32 Predicate.sgt _ ho
          (L.sgt_lem 32 (reg_of base m (number a) % 2 ^ 32) (source_32 (reg_of base m) o))
    Jumps-lift_jump_32 Condition.sgt true ho =
        compare_32 Predicate.sgt _ ho
          (L.sgt_lem 32 (reg_of base m (number a) % 2 ^ 32) (source_32 (reg_of base m) o))
    Jumps-lift_jump_32 Condition.sge false ho =
        compare_32 Predicate.sge _ ho
          (L.sge_lem 32 (reg_of base m (number a) % 2 ^ 32) (source_32 (reg_of base m) o))
    Jumps-lift_jump_32 Condition.sge true ho =
        compare_32 Predicate.sge _ ho
          (L.sge_lem 32 (reg_of base m (number a) % 2 ^ 32) (source_32 (reg_of base m) o))
    Jumps-lift_jump_32 Condition.slt false ho =
        compare_32 Predicate.slt _ ho
          (L.slt_lem 32 (reg_of base m (number a) % 2 ^ 32) (source_32 (reg_of base m) o))
    Jumps-lift_jump_32 Condition.slt true ho =
        compare_32 Predicate.slt _ ho
          (L.slt_lem 32 (reg_of base m (number a) % 2 ^ 32) (source_32 (reg_of base m) o))
    Jumps-lift_jump_32 Condition.sle false ho =
        compare_32 Predicate.sle _ ho
          (L.sle_lem 32 (reg_of base m (number a) % 2 ^ 32) (source_32 (reg_of base m) o))
    Jumps-lift_jump_32 Condition.sle true ho =
        compare_32 Predicate.sle _ ho
          (L.sle_lem 32 (reg_of base m (number a) % 2 ^ 32) (source_32 (reg_of base m) o))
    Jumps-lift_jump_32 Condition.set false ho = common_bits_32 ho
    Jumps-lift_jump_32 Condition.set true ho = common_bits_32 ho
