-- ===== src/Bytes/Blocks/Sext.antt =====
-- Sign extension of immediates (`bpf2llvm::runBytes`, src/lifter/bpf2llvm.cpp) adds no symbols.
use bpf_tv.Common.{
  ℕ, zero, suc, ◌-◌, ◌==◌, ◌||◌, Bool, true, false, if◌then◌else◌, List, [], ◌∷◌, Result, ok, err,
  All, length, ◌≡◌, refl, subst,
}
use bpf_tv.Mc.Opcode.{Opcode}
use bpf_tv.Mc.Inst.{McInst, Operand, reg, imm, expr}
use bpf_tv.Streamer.{modify_at}
use bpf_tv.Bytes.{
  Disassembler, sext_operand, sext, then_sext, sext_store_imm, sext_memory, sext_other,
  is_store_imm, jump_bits, keeps_imm, sign_extend,
}

abbrev pub OnOk {ℓ κ} : {A : Type ℓ} → (A → Type κ) → Result A → Type κ
OnOk P (ok a) = P a
OnOk P (err e) = Unit

abbrev pub IsNoExpr : Operand → Type 0
IsNoExpr (expr n) = ⊥
IsNoExpr _ = Unit

abbrev pub HasNoExpr : McInst → Type 0
HasNoExpr i = All IsNoExpr i.operands

abbrev with_operands : McInst → Result (List Operand) → Result McInst
with_operands i r = elim r [ ok ops ↦ ok (record i { operands = ops }) | err e ↦ err e ]

sext_operand-IsNoExpr : (bits : ℕ) (o : Operand) → IsNoExpr o → IsNoExpr (sext_operand bits o)
sext_operand-IsNoExpr bits (reg x) h = tt
sext_operand-IsNoExpr bits (imm z) h = tt
sext_operand-IsNoExpr bits (expr n) h = elim h [ ]

cons-All :
    (o : Operand) (r : Result (List Operand))
    → IsNoExpr o
    → OnOk (All IsNoExpr) r
    → OnOk (All IsNoExpr) (elim r [ ok ys ↦ ok (o ∷ ys) | err e ↦ err e ])
cons-All o (ok ys) h k = (h, k)
cons-All o (err e) h k = tt

modify-All :
    (bits idx : ℕ) (ops : List Operand)
    → All IsNoExpr ops
    → OnOk (All IsNoExpr) (modify_at (sext_operand bits) idx ops)
modify-All bits idx [] h = tt
modify-All bits zero (o ∷ os) h = (sext_operand-IsNoExpr bits o h.0, h.1)
modify-All bits (suc k) (o ∷ os) h =
    cons-All o (modify_at (sext_operand bits) k os) h.0 (modify-All bits k os h.1)

with-HasNoExpr :
    (i : McInst) (r : Result (List Operand))
    → OnOk (All IsNoExpr) r
    → OnOk HasNoExpr (with_operands i r)
with-HasNoExpr i (ok ops) h = h
with-HasNoExpr i (err e) h = tt

sext-HasNoExpr : (idx bits : ℕ) (i : McInst) → HasNoExpr i → OnOk HasNoExpr (sext idx bits i)
unfolding sext
sext-HasNoExpr idx bits i h =
    with-HasNoExpr i (modify_at (sext_operand bits) idx i.operands)
      (modify-All bits idx i.operands h)

-- What holds of an instruction, and is kept by one extension, is kept by all.
module _ (P : McInst → Type 0)
    (kept : (idx bits : ℕ) (i : McInst) → P i → OnOk P (sext idx bits i)) where
  then-kept : (r : Result McInst) (idx bits : ℕ) → OnOk P r → OnOk P (then_sext r idx bits)
  unfolding then_sext
  then-kept (ok i) idx bits h = kept idx bits i h
  then-kept (err e) idx bits h = tt

  if-OnOk : (b : Bool) (x y : Result McInst) → OnOk P x → OnOk P y → OnOk P (if b then x else y)
  if-OnOk true x y hx hy = hx
  if-OnOk false x y hx hy = hy

  other-kept : (o : Opcode) (i : McInst) → P i → OnOk P (sext_other o i)
  unfolding sext_other sext_memory sext_store_imm
  other-kept (Opcode.memory m) i h =
      if-OnOk (is_store_imm m) (sext_store_imm i) (sext 2 16 i)
        (then-kept (sext 0 32 i) 2 16 (kept 0 32 i h)) (kept 2 16 i h)
  other-kept Opcode.cmpxchgd i h = kept 1 16 i h
  other-kept Opcode.cmpxchgw32 i h = kept 1 16 i h
  other-kept (Opcode.atomic a) i h = kept 2 16 i h
  other-kept Opcode.nop i h = kept (length i.operands - 1) 32 i h
  other-kept Opcode.jal i h = kept (length i.operands - 1) 32 i h
  other-kept Opcode.ret i h = kept (length i.operands - 1) 32 i h
  other-kept Opcode.unsupported i h = kept (length i.operands - 1) 32 i h
  other-kept (Opcode.alu64 a) i h = kept (length i.operands - 1) 32 i h
  other-kept (Opcode.alu32 a) i h = kept (length i.operands - 1) 32 i h
  other-kept (Opcode.move m) i h = kept (length i.operands - 1) 32 i h
  other-kept (Opcode.endian e) i h = kept (length i.operands - 1) 32 i h
  other-kept (Opcode.jump j) i h = kept (length i.operands - 1) 32 i h

  sign_extend-kept : (d : Disassembler) (i : McInst) → P i → OnOk P (sign_extend d i)
  unfolding sign_extend
  sign_extend-kept d i h =
      let n = length i.operands in
      if-OnOk (keeps_imm i.opcode || n == 0) (ok i) _ h (
        if-OnOk (d.is_branch i.opcode) _ _
          (then-kept (if n == 3 then sext 1 32 i else ok i) (n - 1) (jump_bits i.opcode)
            (if-OnOk (n == 3) (sext 1 32 i) (ok i) (kept 1 32 i h) h))
          (if-OnOk (d.is_call i.opcode) _ _ (kept (n - 1) 32 i h) (other-kept i.opcode i h)))

-- An instruction without symbols has none when it is sign-extended.
pub sign_extend-HasNoExpr :
    (d : Disassembler) (i : McInst) → HasNoExpr i → OnOk HasNoExpr (sign_extend d i)
sign_extend-HasNoExpr = sign_extend-kept HasNoExpr sext-HasNoExpr

with_operands-opcode :
    (i : McInst) (r : Result (List Operand)) → OnOk (λ j. j.opcode ≡ i.opcode) (with_operands i r)
with_operands-opcode i (ok ops) = refl
with_operands-opcode i (err e) = tt

sext-opcode :
    (o : Opcode) (idx bits : ℕ) (i : McInst)
    → i.opcode ≡ o
    → OnOk (λ j. j.opcode ≡ o) (sext idx bits i)
unfolding sext
sext-opcode o idx bits i e =
    subst
      (λ q.
        OnOk (λ j. j.opcode ≡ q) (with_operands i (modify_at (sext_operand bits) idx i.operands)))
      e (with_operands-opcode i (modify_at (sext_operand bits) idx i.operands))

-- Sign extension keeps the opcode.
pub sign_extend-opcode :
    (d : Disassembler) (i : McInst) → OnOk (λ j. j.opcode ≡ i.opcode) (sign_extend d i)
sign_extend-opcode d i = sign_extend-kept (λ j. j.opcode ≡ i.opcode) (sext-opcode i.opcode) d i refl
