-- ===== src/Lifter/State.antt =====
-- The state of `mc2llvm` and `bpf2llvm` that lifting an instruction reads and changes, and the
-- monad of code that changes it and may stop with an error.
use bpf_tv.Common.{
  ℕ, suc, Bool, if◌then◌else◌, update, Option, none, some, List, [], ◌∷◌, ◌++◌, String, Error,
  Result, ok, err, assertion,
}
use bpf_tv.Llvm.Ir.{Value, Instr}
use bpf_tv.Mc.Inst.{McInst}

-- `liftedFn` is the number of its blocks, in the order of their creation, the name of each and what
-- it holds. `bb` is `LLVMBB`, `succs` the names of the successors of `MCBB`, and `next` numbers the
-- instructions created. `unspecified_off` counts the bytes used of `unspecifiedMem`.
pub record Lifter : Type 0 where
  pub bb : ℕ
  pub count : ℕ
  pub names : ℕ → String
  pub blocks : ℕ → List Instr
  pub next : ℕ
  pub reg_file : ℕ → Option Value
  pub unspecified_off : ℕ
  pub cur_inst : McInst
  pub succs : List String

abbrev pub M {ℓ} : Type ℓ → Type ℓ
M A = Lifter → Result (A × Lifter)

infixl 5 ◌>>=◌ ◌>>◌
abbrev pub ◌>>=◌ {ℓ κ} : {A : Type ℓ} {B : Type κ} → M A → (A → M B) → M B
◌>>=◌ m f s = elim (m s) [ ok (a, s') ↦ f a s' | err e ↦ err e ]

abbrev pub ◌>>◌ {ℓ} : {B : Type ℓ} → M (Unit {0}) → M B → M B
m >> k = m >>= λ _. k

abbrev pub pure {ℓ} : {A : Type ℓ} → A → M A
pure a s = ok (a, s)

abbrev pub fail {ℓ} : {A : Type ℓ} → Error → M A
fail e s = err e

abbrev pub assert : Bool → M (Unit {0})
assert b s = if b then ok (tt, s) else err assertion

abbrev pub lift_option {ℓ} : {A : Type ℓ} → Error → Option A → M A
lift_option e none s = err e
lift_option e (some a) s = ok (a, s)

-- Append to the block `LLVMBB`, as every `Create(..., LLVMBB)` does.
unfoldable pub emit : Instr → Lifter → Lifter
emit i s = record s { blocks = update s.blocks s.bb (s.blocks s.bb ++ i ∷ []); next = suc s.next }
