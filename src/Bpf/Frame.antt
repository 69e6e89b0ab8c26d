-- ===== src/Bpf/Frame.antt =====
-- What the theorems on lifted instructions are stated over: the register file in its cells.
use bpf_tv.Common.{ℕ, ◌*◌, ◌+◌, ◌%◌, ◌^◌, ◌≤◌, ◌<◌, ◌≡◌, refl, ap, ◌∙◌, some, Option, arith}
pub use bpf_tv.Isa.Arithmetic.{number, IsSource, source_64, source_32}
use bpf_tv.Llvm.Ir.{Value}
use bpf_tv.Llvm.Exec.{Machine}
use bpf_tv.Mc.Inst.{Operand, reg, imm, expr, McInst}
use bpf_tv.Lifter.State.{Lifter}
use bpf_tv.Lifter.Grows.{Grows}
use bpf_tv.Lifter.Values.{Quiet}

-- Register `n` is stored in cell `base + 4 * n`, the cells below `next` are taken, the current block
-- exists, and `i` is the instruction at hand.
pub record IsAt (base : ℕ) (i : McInst) (s : Lifter) : Type 0 where
  pub storage : (n : ℕ) → n ≤ 11 → s.reg_file n ≡ some (Value.alloca (base + 4 * n))
  pub taken : base + 44 < s.next
  pub live : s.bb < s.count
  pub inst : s.cur_inst ≡ i

pub IsAt-Grows :
    {base : ℕ} {i : McInst} {s s' : Lifter} → Grows s s' → IsAt base i s → IsAt base i s'
IsAt-Grows g p = record {
  storage = λ n h. ap (λ (f : ℕ → Option Value). f n) g.same_regs ∙ p.storage n h;
  taken = omega (arith, g.later, p.taken);
  live = g.valid p.live;
  inst = g.same_inst ∙ p.inst;
}

-- The contents of register `n`.
abbrev pub reg_of : ℕ → Machine → ℕ → ℕ
reg_of base m n = m.cells (base + 4 * n)

module _ (base : ℕ) {n : ℕ} {m m' : Machine} (taken : base + 44 < n) (q : Quiet n m m') where
  pub source_64-Quiet :
      (op : Operand) → IsSource 64 op → source_64 (reg_of base m') op ≡ source_64 (reg_of base m) op
  source_64-Quiet (reg x) h = q.cells_kept (base + 4 * number x) (omega arith)
  source_64-Quiet (imm z) h = refl
  source_64-Quiet (expr n) h = absurd h

  pub source_32-Quiet :
      (op : Operand) → IsSource 32 op → source_32 (reg_of base m') op ≡ source_32 (reg_of base m) op
  source_32-Quiet (reg x) h =
      ap (λ (v : ℕ). v % 2 ^ 32) (q.cells_kept (base + 4 * number x) (omega arith))
  source_32-Quiet (imm z) h = refl
  source_32-Quiet (expr n) h = absurd h
