-- ===== src/Bytes/Blocks/Linking.antt =====
-- The blocks of decoded bytes are linked (`bpf2llvm::runBytes`, src/lifter/bpf2llvm.cpp).
use bpf_tv.Common.{
  ℕ, Bool, true, false, inl, inr, List, [], ◌∷◌, map, String, some, ok, err, All, ◌≡◌, refl, ap,
  sym, subst, ◌∙◌, ok-inv, ok-injective,
}
use bpf_tv.Mc.Inst.{McInst}
use bpf_tv.Mc.Block.{McBasicBlock}
use bpf_tv.Streamer.{McInstrAnalysis}
use bpf_tv.Streamer.Shape.{code}
use bpf_tv.Streamer.Flow.{entry_jump, find_target_label, find_block_by_name}
use bpf_tv.Streamer.Flow.Linked.{Linked, IsLinked}
use bpf_tv.Streamer.Flow.Finish.{Finished, finish_blocks-Finished}
use bpf_tv.Bytes.{
  Disassembler, DecodedInsn, elem, label_name, units_of, leaders, rewrite_branches, sign_extend,
  sign_extend_all, place_all, blocks_of,
}
use bpf_tv.Bytes.Blocks.Sext.{HasNoExpr, OnOk, sign_extend-HasNoExpr}
use bpf_tv.Bytes.Blocks.Opcodes.{
  opcodes_of, map-opcodes_of, sign_extend_all-opcodes_of, rewrite_branches-opcodes_of,
}
use bpf_tv.Bytes.Blocks.Placed.{
  has_name, insts_of, place-All, code-place_all, name-place_all_leader, find-has_name,
}
use bpf_tv.Bytes.Blocks.Resolved.{
  IsResolved, LeadsTo, LeadsTo-right, leaders-LeadsTo, rewrite_branches-IsResolved,
}
use bpf_tv.Bytes.Blocks.Filled.{
  label-IsOther, IsFilled, append-IsFilled, remove_none, All-code, All-last, All-insts,
}

-- What LLVM's two descriptions of an opcode have in common.
pub record SameBranches (d : Disassembler) (ia : McInstrAnalysis) : Type 0 where
  pub conditional : (i : McInst) → ia.is_conditional_branch i ≡ true → d.is_branch i.opcode ≡ true
  pub unconditional :
      (i : McInst) → ia.is_unconditional_branch i ≡ true → d.is_branch i.opcode ≡ true
  pub entry : ia.is_unconditional_branch entry_jump ≡ true

module _ (d : Disassembler) (ia : McInstrAnalysis) (same : SameBranches d ia) where
  resolved-Linked :
      (units ls : List ℕ) (bbs : List McBasicBlock)
      → ((n : ℕ) → elem n units ≡ true → elem n ls ≡ true → has_name (label_name n) bbs ≡ true)
      → (i : McInst) → IsResolved d units ls i
      → Linked ia bbs i
  resolved-Linked units ls bbs names i (inl b) =
      let no : (q : Bool) → q ≡ true → (q ≡ true → d.is_branch i.opcode ≡ true) → ⊥ = λ q e k.
        let t : d.is_branch i.opcode ≡ true = k e in let f : true ≡ false = sym t ∙ b in cc in
      record {
        target = label_name 0;
        place = 0;
        is_other = label-IsOther 0;
        branch_label = λ c. absurd (no (ia.is_conditional_branch i) c (same.conditional i));
        branch_block = λ c. absurd (no (ia.is_conditional_branch i) c (same.conditional i));
        jump_label = λ c. absurd (no (ia.is_unconditional_branch i) c (same.unconditional i));
      }
  resolved-Linked units ls bbs names i (inr t) =
      let f = find-has_name (label_name t.unit) bbs 1 (names t.unit t.is_start t.is_leader) in
      record {
        target = label_name t.unit;
        place = f.0;
        is_other = label-IsOther t.unit;
        branch_label = λ c. t.label;
        branch_block = λ c. f.1;
        jump_label = λ c. t.label;
      }

  All-IsLinked :
      (full bbs : List McBasicBlock)
      → All IsFilled bbs
      → All (λ b. All (Linked ia full) b.instrs) bbs
      → All (IsLinked ia full) bbs
  All-IsLinked full [] f h = tt
  All-IsLinked full (b ∷ bs) f h = (
    (f.0.1, λ last e. All-last (Linked ia full) b.instrs last h.0 e),
    All-IsLinked full bs f.1 h.1,
  )

  All-resolved :
      (units ls : List ℕ) (bbs : List McBasicBlock)
      → ((n : ℕ) → elem n units ≡ true → elem n ls ≡ true → has_name (label_name n) bbs ≡ true)
      → (zs : List DecodedInsn) → All (λ z. IsResolved d units ls z.inst) zs
      → All (λ z. Linked ia bbs z.inst) zs
  All-resolved units ls bbs names [] h = tt
  All-resolved units ls bbs names (z ∷ zs) h =
      (resolved-Linked units ls bbs names z.inst h.0, All-resolved units ls bbs names zs h.1)

  extended-HasNoExpr :
      (xs ys : List DecodedInsn)
      → All (λ x. HasNoExpr x.inst) xs
      → sign_extend_all d xs ≡ ok ys
      → All (λ y. HasNoExpr y.inst) ys
  unfolding sign_extend_all
  extended-HasNoExpr [] ys h e =
      subst (λ q. All (λ (y : DecodedInsn). HasNoExpr y.inst) q) (ok-injective [] ys e) tt
  extended-HasNoExpr (x ∷ xs) ys h e =
      let p =
        ok-inv (sign_extend d x.inst)
          (λ i. elim (sign_extend_all d xs) [
            | err e ↦ err e
            | ok zs ↦ ok (record x { inst = i } ∷ zs)
          ])
          ys e in
      let q = ok-inv (sign_extend_all d xs) (λ zs. ok (record x { inst = p.0 } ∷ zs)) ys (p.1.1) in
      subst (λ w. All (λ (y : DecodedInsn). HasNoExpr y.inst) w)
        (ok-injective (record x { inst = p.0 } ∷ q.0) ys (q.1.1))
        (
          subst (OnOk HasNoExpr) (p.1.0) (sign_extend-HasNoExpr d x.inst h.0),
          extended-HasNoExpr xs (q.0) h.1 (q.1.0),
        )

  -- What a branch has after its target was rewritten: the label of one of the blocks.
  pub record ToBlock (bbs : List McBasicBlock) (i : McInst) : Type 0 where
    pub target : String
    pub place : ℕ
    pub label : find_target_label i.operands ≡ ok target
    pub block : find_block_by_name bbs 0 target ≡ some place

  abbrev IsToBlock : List McBasicBlock → McInst → Type 0
  IsToBlock bbs i = d.is_branch i.opcode ≡ true → ToBlock bbs i

  resolved-ToBlock :
      (units ls : List ℕ) (bbs : List McBasicBlock)
      → ((n : ℕ) → elem n units ≡ true → elem n ls ≡ true → has_name (label_name n) bbs ≡ true)
      → (i : McInst) → IsResolved d units ls i
      → IsToBlock bbs i
  resolved-ToBlock units ls bbs names i (inl b) c = absurd (let f : true ≡ false = sym c ∙ b in cc)
  resolved-ToBlock units ls bbs names i (inr t) c =
      let f = find-has_name (label_name t.unit) bbs 0 (names t.unit t.is_start t.is_leader) in
      record { target = label_name t.unit; place = f.0; label = t.label; block = f.1 }

  All-ToBlock :
      (units ls : List ℕ) (bbs : List McBasicBlock)
      → ((n : ℕ) → elem n units ≡ true → elem n ls ≡ true → has_name (label_name n) bbs ≡ true)
      → (zs : List DecodedInsn) → All (λ z. IsResolved d units ls z.inst) zs
      → All (λ z. IsToBlock bbs z.inst) zs
  All-ToBlock units ls bbs names [] h = tt
  All-ToBlock units ls bbs names (z ∷ zs) h =
      (resolved-ToBlock units ls bbs names z.inst h.0, All-ToBlock units ls bbs names zs h.1)

  -- The blocks of decoded instructions: they hold instructions of the same opcodes in order, their
  -- branches go to blocks, and they are finished without an error.
  pub record LinkedBytes (xs : List DecodedInsn) (bbs : List McBasicBlock) : Type 0 where
    pub first : String
    pub same_opcodes : map McInst.opcode (code bbs) ≡ opcodes_of xs
    pub to_blocks : All (IsToBlock bbs) (code bbs)
    pub finished : Finished ia bbs first

  finish_nonempty :
      (bbs : List McBasicBlock) (xs : List DecodedInsn)
      → (bbs ≡ [] → ⊥)
      → All IsFilled bbs
      → All (IsLinked ia bbs) bbs
      → All (IsToBlock bbs) (code bbs)
      → map McInst.opcode (code bbs) ≡ opcodes_of xs
      → LinkedBytes xs bbs
  finish_nonempty [] xs n f h t o = absurd (n refl)
  finish_nonempty (b ∷ bs) xs n f h t o = record {
    first = b.name;
    same_opcodes = o;
    to_blocks = t;
    finished = finish_blocks-Finished ia (b ∷ bs) b bs same.entry (remove_none (b ∷ bs) f) h;
  }

  extended_nonempty :
      (x : DecodedInsn) (xs ys : List DecodedInsn)
      → sign_extend_all d (x ∷ xs) ≡ ok ys
      → units_of ys ≡ []
      → ⊥
  unfolding sign_extend_all
  extended_nonempty x xs ys e n =
      let p =
        ok-inv (sign_extend d x.inst)
          (λ i. elim (sign_extend_all d xs) [
            | err e ↦ err e
            | ok zs ↦ ok (record x { inst = i } ∷ zs)
          ])
          ys e in
      let q = ok-inv (sign_extend_all d xs) (λ zs. ok (record x { inst = p.0 } ∷ zs)) ys (p.1.1) in
      let c : x.unit ∷ units_of (q.0) ≡ [] =
        ap units_of (ok-injective (record x { inst = p.0 } ∷ q.0) ys (q.1.1)) ∙ n in
      cc

  no_units : (zs : List DecodedInsn) → insts_of zs ≡ [] → units_of zs ≡ []
  no_units [] e = refl
  no_units (z ∷ zs) e = absurd cc

  placed-LinkedBytes :
      (u : ℕ) (xs ys zs : List DecodedInsn) (ls : List ℕ)
      → All (λ y. HasNoExpr y.inst) ys
      → (units_of ys ≡ [] → ⊥)
      → leaders d ys ≡ ok ls
      → rewrite_branches d (units_of ys) ys ≡ ok zs
      → opcodes_of ys ≡ opcodes_of xs
      → LinkedBytes xs (place_all (u ∷ ls) [] zs)
  placed-LinkedBytes u xs ys zs ls h n l e o =
      let bbs = place_all (u ∷ ls) [] zs in
      let leads : All (LeadsTo d (u ∷ ls)) ys =
        LeadsTo-right d (u ∷ []) ls ys (leaders-LeadsTo d ys ls l) in
      let r = rewrite_branches-IsResolved d (units_of ys) (u ∷ ls) ys zs h leads e in
      let names : (k : ℕ)
          → elem k (units_of ys) ≡ true
          → elem k (u ∷ ls) ≡ true
          → has_name (label_name k) bbs ≡ true =
        λ k a b.
          name-place_all_leader k (u ∷ ls) [] zs (subst (λ us. elem k us ≡ true) (sym r.1) a) b in
      let code_eq : code bbs ≡ insts_of zs = code-place_all (u ∷ ls) [] zs in
      let filled : All IsFilled bbs =
        place-All IsFilled (λ x. ((λ q. cc), label-IsOther x.unit)) append-IsFilled (u ∷ ls) [] zs
          tt in
      let linked : All (Linked ia bbs) (code bbs) =
        subst (All (Linked ia bbs)) (sym code_eq)
          (All-insts (Linked ia bbs) zs (All-resolved (units_of ys) (u ∷ ls) bbs names zs r.0)) in
      finish_nonempty bbs xs (λ q. n (sym r.1 ∙ no_units zs (sym code_eq ∙ ap code q))) filled
        (All-IsLinked bbs bbs filled (All-code (Linked ia bbs) bbs linked))
        (subst (All (IsToBlock bbs)) (sym code_eq)
          (All-insts (IsToBlock bbs) zs (All-ToBlock (units_of ys) (u ∷ ls) bbs names zs r.0)))
        (ap (map McInst.opcode) code_eq
          ∙ map-opcodes_of zs
          ∙ rewrite_branches-opcodes_of d (units_of ys) ys zs e
          ∙ o)

  -- Where the disassembler gives no symbols and its branches are those of the analysis, the blocks
  -- built from decoded instructions, if they can be built, hold instructions of the same opcodes in
  -- order, have, in every branch, the label of one of the blocks, and are completed without an error:
  -- the added entry has one successor, no block goes to the entry, and completing the blocks keeps
  -- their instructions in order.
  pub blocks_of-LinkedBytes :
      (xs : List DecodedInsn) (bbs : List McBasicBlock)
      → All (λ x. HasNoExpr x.inst) xs
      → blocks_of d xs ≡ ok bbs
      → LinkedBytes xs bbs
  unfolding blocks_of rewrite_branches
  blocks_of-LinkedBytes [] bbs h e = absurd cc
  blocks_of-LinkedBytes (x ∷ xs) bbs h e =
      let p =
        ok-inv (sign_extend_all d (x ∷ xs))
          (λ ys. elim (leaders d ys) [
            | err e ↦ err e
            | ok ls ↦ elim (rewrite_branches d (units_of ys) ys) [
              | err e ↦ err e
              | ok zs ↦ ok (place_all (x.unit ∷ ls) [] zs)
            ]
          ])
          bbs e in
      let q =
        ok-inv (leaders d (p.0))
          (λ ls. elim (rewrite_branches d (units_of (p.0)) (p.0)) [
            | err e ↦ err e
            | ok zs ↦ ok (place_all (x.unit ∷ ls) [] zs)
          ])
          bbs (p.1.1) in
      let r =
        ok-inv (rewrite_branches d (units_of (p.0)) (p.0))
          (λ zs. ok (place_all (x.unit ∷ q.0) [] zs)) bbs (q.1.1) in
      subst (LinkedBytes (x ∷ xs)) (ok-injective (place_all (x.unit ∷ q.0) [] (r.0)) bbs (r.1.1)) (
        placed-LinkedBytes x.unit (x ∷ xs) (p.0) (r.0) (q.0)
          (extended-HasNoExpr (x ∷ xs) (p.0) h (p.1.0)) (extended_nonempty x xs (p.0) (p.1.0))
          (q.1.0) (r.1.0) (sign_extend_all-opcodes_of d (x ∷ xs) (p.0) (p.1.0)))
