-- ===== src/Bytes/Blocks/Opcodes.antt =====
-- Building blocks of decoded bytes (`bpf2llvm::runBytes`, src/lifter/bpf2llvm.cpp) keeps the opcodes
-- in order.
use bpf_tv.Common.{
  ℕ, Bool, true, false, if◌then◌else◌, List, [], ◌∷◌, map, Result, ok, err, ◌≡◌, refl, ap, ap₂, sym,
  subst, ◌∙◌, ok-inv, ok-injective,
}
use bpf_tv.Words.{ℤ, pos, negsuc}
use bpf_tv.Mc.Opcode.{Opcode}
use bpf_tv.Mc.Inst.{McInst}
use bpf_tv.Bytes.{
  Disassembler, DecodedInsn, elem, branch_target_unit, rewrite_target, rewrite_branch,
  rewrite_branches, sign_extend, sign_extend_all,
}
use bpf_tv.Bytes.Blocks.Sext.{OnOk, sign_extend-opcode}

abbrev pub opcodes_of : List DecodedInsn → List Opcode
opcodes_of [] = []
opcodes_of (x ∷ xs) = x.inst.opcode ∷ opcodes_of xs

pub map-opcodes_of :
    (xs : List DecodedInsn) → map McInst.opcode (map DecodedInsn.inst xs) ≡ opcodes_of xs
map-opcodes_of [] = refl
map-opcodes_of (x ∷ xs) = ap (λ os. x.inst.opcode ∷ os) (map-opcodes_of xs)

module _ (d : Disassembler) where
  pub sign_extend_all-opcodes_of :
      (xs ys : List DecodedInsn) → sign_extend_all d xs ≡ ok ys → opcodes_of ys ≡ opcodes_of xs
  unfolding sign_extend_all
  sign_extend_all-opcodes_of [] ys e = ap opcodes_of (sym (ok-injective [] ys e))
  sign_extend_all-opcodes_of (x ∷ xs) ys e =
      let p =
        ok-inv (sign_extend d x.inst)
          (λ i. elim (sign_extend_all d xs) [
            | err e ↦ err e
            | ok zs ↦ ok (record x { inst = i } ∷ zs)
          ])
          ys e in
      let q = ok-inv (sign_extend_all d xs) (λ zs. ok (record x { inst = p.0 } ∷ zs)) ys (p.1.1) in
      ap opcodes_of (sym (ok-injective (record x { inst = p.0 } ∷ q.0) ys (q.1.1)))
      ∙ ap₂ (λ o os. o ∷ os)
          (subst (OnOk (λ j. j.opcode ≡ x.inst.opcode)) (p.1.0) (sign_extend-opcode d x.inst))
          (sign_extend_all-opcodes_of xs (q.0) (q.1.0))

  -- The result, if there is one, has the opcode.
  abbrev HasOpcode : Opcode → Result McInst → Type 0
  HasOpcode o = OnOk (λ j. j.opcode ≡ o)

  if-HasOpcode :
      (o : Opcode) (b : Bool) (x y : Result McInst)
      → HasOpcode o x
      → HasOpcode o y
      → HasOpcode o (if b then x else y)
  if-HasOpcode o true x y hx hy = hx
  if-HasOpcode o false x y hx hy = hy

  target-HasOpcode :
      (units : List ℕ) (t : ℤ) (i : McInst) → HasOpcode i.opcode (rewrite_target units t i)
  unfolding rewrite_target
  target-HasOpcode units (pos n) i = if-HasOpcode i.opcode (elem n units) _ _ refl tt
  target-HasOpcode units (negsuc n) i = tt

  any_target-HasOpcode :
      (units : List ℕ) (r : Result ℤ) (i : McInst)
      → HasOpcode i.opcode (elim r [ err e ↦ err e | ok t ↦ rewrite_target units t i ])
  any_target-HasOpcode units (ok t) i = target-HasOpcode units t i
  any_target-HasOpcode units (err e) i = tt

  branch-HasOpcode :
      (units : List ℕ) (x : DecodedInsn) → HasOpcode x.inst.opcode (rewrite_branch d units x)
  unfolding rewrite_branch
  branch-HasOpcode units x =
      if-HasOpcode x.inst.opcode (d.is_branch x.inst.opcode) _ _
        (any_target-HasOpcode units (branch_target_unit d x) x.inst) refl

  pub rewrite_branches-opcodes_of :
      (units : List ℕ) (xs ys : List DecodedInsn)
      → rewrite_branches d units xs ≡ ok ys
      → opcodes_of ys ≡ opcodes_of xs
  unfolding rewrite_branches
  rewrite_branches-opcodes_of units [] ys e = ap opcodes_of (sym (ok-injective [] ys e))
  rewrite_branches-opcodes_of units (x ∷ xs) ys e =
      let p =
        ok-inv (rewrite_branch d units x)
          (λ i. elim (rewrite_branches d units xs) [
            | err e ↦ err e
            | ok zs ↦ ok (record x { inst = i } ∷ zs)
          ])
          ys e in
      let q =
        ok-inv (rewrite_branches d units xs) (λ zs. ok (record x { inst = p.0 } ∷ zs)) ys (p.1.1) in
      ap opcodes_of (sym (ok-injective (record x { inst = p.0 } ∷ q.0) ys (q.1.1)))
      ∙ ap₂ (λ o os. o ∷ os) (subst (HasOpcode x.inst.opcode) (p.1.0) (branch-HasOpcode units x))
          (rewrite_branches-opcodes_of units xs (q.0) (q.1.0))
