-- ===== src/Bytes/Blocks/Resolved.antt =====
-- The targets of branches in decoded bytes (`bpf2llvm::runBytes`, src/lifter/bpf2llvm.cpp): each is
-- the label of a block.
use bpf_tv.Common.{
  ℕ, ◌+◌, ◌==◌, ◌||◌, true, false, Bool-cases, inl, inr, if◌then◌else◌, Option, some, none, List,
  [], ◌∷◌, ◌++◌, String, Result, ok, err, Error, All, last?, ◌⊎◌, ◌≡◌, refl, ap, sym, subst, ◌∙◌,
  ==_refl, ok-inv, ok-injective, if-true, if-false,
}
use bpf_tv.Words.{ℤ, pos, negsuc, add_ℤ}
use bpf_tv.Mc.Inst.{McInst, Operand, reg, imm, expr}
use bpf_tv.Streamer.Flow.{find_target_label}
use bpf_tv.Bytes.{
  Disassembler, DecodedInsn, elem, label_name, units_of, leaders, leaders_of, imm_of,
  unless_negative, branch_target_unit, rewrite_target, rewrite_branch, rewrite_branches, set_last,
}
use bpf_tv.Bytes.Blocks.Placed.{or-true-right}
use bpf_tv.Bytes.Blocks.Sext.{IsNoExpr, HasNoExpr}

-- An immediate at the end, replaced by a symbol, is what is found as target.
find-set_last :
    (name : String) (ops : List Operand) (z : ℤ)
    → All IsNoExpr ops
    → last? ops ≡ some (imm z)
    → find_target_label (set_last (expr name) ops) ≡ ok name
unfolding find_target_label
find-set_last name [] z h e = absurd cc
find-set_last name (o ∷ []) z h e = refl
find-set_last name (reg x ∷ o ∷ os) z h e = find-set_last name (o ∷ os) z h.1 e
find-set_last name (imm y ∷ o ∷ os) z h e = find-set_last name (o ∷ os) z h.1 e
find-set_last name (expr y ∷ o ∷ os) z h e = elim h.0 [ ]

imm_of-inv :
    (o : Option Operand) (z : ℤ) → (d : Disassembler) → imm_of d o ≡ ok z → o ≡ some (imm z)
imm_of-inv none z d e = absurd cc
imm_of-inv (some (reg x)) z d e = absurd cc
imm_of-inv (some (expr x)) z d e = absurd cc
imm_of-inv (some (imm y)) z d e =
    ap (λ (r : Result ℤ). elim r [ ok w ↦ some (imm w) | err e ↦ none ]) e

-- Not a branch, or a branch to the label of a leader at which an instruction starts.
pub record Target (units ls : List ℕ) (i : McInst) : Type 0 where
  pub unit : ℕ
  pub label : find_target_label i.operands ≡ ok (label_name unit)
  pub is_start : elem unit units ≡ true
  pub is_leader : elem unit ls ≡ true

module _ (d : Disassembler) where
  abbrev pub IsResolved : List ℕ → List ℕ → McInst → Type 0
  IsResolved units ls i = (d.is_branch i.opcode ≡ false) ⊎ Target units ls i

  -- The target of a branch, if it is not negative, is one of its leaders.
  abbrev pub LeadsTo : List ℕ → DecodedInsn → Type 0
  LeadsTo ls x =
      d.is_branch x.inst.opcode ≡ true
      → (n : ℕ) → branch_target_unit d x ≡ ok (pos n)
      → elem n ls ≡ true

  rewrite-inv :
      (units : List ℕ) (t : ℤ) (i j : McInst)
      → rewrite_target units t i ≡ ok j
      → (n : ℕ) × ((t ≡ pos n)
          × ((elem n units ≡ true)
              × (record i { operands = set_last (expr (label_name n)) i.operands } ≡ j)))
  unfolding rewrite_target
  rewrite-inv units (negsuc n) i j h = absurd cc
  rewrite-inv units (pos n) i j h =
      let bad : Result McInst =
        err (Error.message "branch to unit which is not an instruction boundary") in
      let good = record i { operands = set_last (expr (label_name n)) i.operands } in
      elim (Bool-cases (elem n units)) [
        | inl e ↦
            (n, (refl, (e, ok-injective good j (sym (if-true (elem n units) (ok good) bad e) ∙ h))))
        | inr e ↦ absurd (let q = sym (if-false (elem n units) (ok good) bad e) ∙ h in cc)
      ]

  rewrite_branch-IsResolved :
      (units ls : List ℕ) (x : DecodedInsn) (j : McInst)
      → HasNoExpr x.inst
      → LeadsTo ls x
      → rewrite_branch d units x ≡ ok j
      → IsResolved units ls j
  unfolding rewrite_branch branch_target_unit
  rewrite_branch-IsResolved units ls x j h l e =
      let branch : Result McInst = elim (branch_target_unit d x) [
        | err e ↦ err e
        | ok t ↦ rewrite_target units t x.inst
      ] in
      elim (Bool-cases (d.is_branch x.inst.opcode)) [
        | inl b ↦
            let p =
              ok-inv (branch_target_unit d x) (λ t. rewrite_target units t x.inst) j
                (sym (if-true (d.is_branch x.inst.opcode) branch (ok x.inst) b) ∙ e) in
            let q = rewrite-inv units (p.0) x.inst j (p.1.1) in
            let at : branch_target_unit d x ≡ ok (pos (q.0)) = p.1.0 ∙ ap (λ z. ok z) (q.1.0) in
            let z =
              ok-inv (imm_of d (last? x.inst.operands)) (λ z. ok (add_ℤ z (x.unit + x.units))) (p.0)
                (p.1.0) in
            inr (record {
              unit = q.0;
              label =
                  subst (λ k. find_target_label k.operands ≡ ok (label_name (q.0))) (q.1.1.1)
                    (find-set_last (label_name (q.0)) x.inst.operands (z.0) h
                      (imm_of-inv (last? x.inst.operands) (z.0) d (z.1.0)));
              is_start = q.1.1.0;
              is_leader = l b (q.0) at;
            })
        | inr b ↦ inl (
            subst (λ k. d.is_branch k.opcode ≡ false)
              (ok-injective x.inst j
                (sym (if-false (d.is_branch x.inst.opcode) branch (ok x.inst) b) ∙ e))
              b)
      ]

  -- All instructions are resolved, and stay where they are.
  pub rewrite_branches-IsResolved :
      (units ls : List ℕ) (xs ys : List DecodedInsn)
      → All (λ x. HasNoExpr x.inst) xs
      → All (LeadsTo ls) xs
      → rewrite_branches d units xs ≡ ok ys
      → All (λ y. IsResolved units ls y.inst) ys × (units_of ys ≡ units_of xs)
  unfolding rewrite_branches
  rewrite_branches-IsResolved units ls [] ys h l e =
      subst (λ q. All (λ y. IsResolved units ls y.inst) q × (units_of q ≡ []))
        (ok-injective [] ys e) (tt, refl)
  rewrite_branches-IsResolved units ls (x ∷ xs) ys h l e =
      let p =
        ok-inv (rewrite_branch d units x)
          (λ i. elim (rewrite_branches d units xs) [
            | err e ↦ err e
            | ok zs ↦ ok (record x { inst = i } ∷ zs)
          ])
          ys e in
      let q =
        ok-inv (rewrite_branches d units xs) (λ zs. ok (record x { inst = p.0 } ∷ zs)) ys (p.1.1) in
      let rest = rewrite_branches-IsResolved units ls xs (q.0) h.1 l.1 (q.1.0) in
      subst (λ w. All (λ y. IsResolved units ls y.inst) w × (units_of w ≡ x.unit ∷ units_of xs))
        (ok-injective (record x { inst = p.0 } ∷ q.0) ys (q.1.1))
        (
          (rewrite_branch-IsResolved units ls x (p.0) h.0 l.0 (p.1.0), rest.0),
          ap (λ us. x.unit ∷ us) rest.1,
        )

  elem-append : (n : ℕ) (ks ls : List ℕ) → elem n (ks ++ ls) ≡ (elem n ks || elem n ls)
  elem-append n [] ls = refl
  elem-append n (k ∷ ks) ls =
      elim (k == n) as (λ q. (q || elem n (ks ++ ls)) ≡ ((q || elem n ks) || elem n ls)) [
        | true ↦ refl
        | false ↦ elem-append n ks ls
      ]

  leaders_of-LeadsTo : (x : DecodedInsn) (ks : List ℕ) → leaders_of d x ≡ ok ks → LeadsTo ks x
  unfolding leaders_of
  leaders_of-LeadsTo x ks e b n t =
      let next = x.unit + x.units in
      let found : Result (List ℕ) = elim (branch_target_unit d x) [
        | err e ↦ err e
        | ok t ↦ ok (unless_negative d t (next ∷ []))
      ] in
      let after : Result (List ℕ) = ok (if d.is_return x.inst.opcode then next ∷ [] else []) in
      let q : found ≡ ok (n ∷ next ∷ []) =
        ap
          (λ (r : Result ℤ). elim r [ err e ↦ err e | ok t ↦ ok (unless_negative d t (next ∷ [])) ])
          t in
      subst (λ ls. elem n ls ≡ true)
        (ok-injective (n ∷ next ∷ []) ks
          (sym q ∙ sym (if-true (d.is_branch x.inst.opcode) found after b) ∙ e))
        (rw (==_refl n) refl)

  LeadsTo-left : (ks ls : List ℕ) (x : DecodedInsn) → LeadsTo ks x → LeadsTo (ks ++ ls) x
  LeadsTo-left ks ls x h b n t = elem-append n ks ls ∙ ap (λ q. q || elem n ls) (h b n t)

  pub LeadsTo-right :
      (ks ls : List ℕ) (xs : List DecodedInsn) → All (LeadsTo ls) xs → All (LeadsTo (ks ++ ls)) xs
  LeadsTo-right ks ls [] h = tt
  LeadsTo-right ks ls (x ∷ xs) h = (
    (λ b n t. elem-append n ks ls ∙ or-true-right (elem n ks) (elem n ls) (h.0 b n t)),
    LeadsTo-right ks ls xs h.1,
  )

  -- The targets of all branches are leaders.
  pub leaders-LeadsTo :
      (xs : List DecodedInsn) (ls : List ℕ) → leaders d xs ≡ ok ls → All (LeadsTo ls) xs
  unfolding leaders
  leaders-LeadsTo [] ls e = tt
  leaders-LeadsTo (x ∷ xs) ls e =
      let p =
        ok-inv (leaders_of d x)
          (λ ks. elim (leaders d xs) [ err e ↦ err e | ok ms ↦ ok (ks ++ ms) ]) ls e in
      let q = ok-inv (leaders d xs) (λ ms. ok (p.0 ++ ms)) ls (p.1.1) in
      subst (λ m. All (LeadsTo m) (x ∷ xs)) (ok-injective (p.0 ++ q.0) ls (q.1.1))
        (
          LeadsTo-left (p.0) (q.0) x (leaders_of-LeadsTo x (p.0) (p.1.0)),
          LeadsTo-right (p.0) (q.0) xs (leaders-LeadsTo xs (q.0) (q.1.0)),
        )
