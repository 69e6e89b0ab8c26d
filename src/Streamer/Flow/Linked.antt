-- ===== src/Streamer/Flow/Linked.antt =====
-- The blocks that are lifted after the streamer is done (`removeEmptyBlocks`, `checkEntryBlock` and
-- `generateSuccessors`, src/lifter/streamerwrapper.h, src/lifter/streamerwrapper.cpp).
use bpf_tv.Common.{
  ℕ, zero, suc, ◌+◌, ◌≤◌, ◌<◌, ltb, ◌==◌, ◌&&◌, Bool, true, false, Bool-cases, inl, inr,
  if◌then◌else◌, Option, none, some, List, [], ◌∷◌, ◌++◌, String, Result, ok, err, arith, length,
  get_elem?, last?, All, ◌≡◌, refl, ap, sym, subst, ◌∙◌,
}
use text.Mathlib.Text.{◌==◌ as str_eq}
use bpf_tv.Mc.Inst.{McInst}
use bpf_tv.Mc.Block.{McBasicBlock}
use bpf_tv.Streamer.{McInstrAnalysis}
use bpf_tv.Streamer.Shape.{code}
use bpf_tv.Streamer.Flow.{
  usual_successors, starts_with_imm, only_next, entry_block, find_block_by_name, find_target_label,
  add_succ, add_next, found, next_block, branch_targets, jump_target, successors_of_last,
  successors, names_of, generate_from,
}

abbrev pub entry_name : String
entry_name = "bpf-tv#entry"

abbrev pub IsOther : String → Type 0
IsOther name = str_eq entry_name name ≡ false

pub generate_cons :
    (ia : McInstrAnalysis) (full : List McBasicBlock) (i : ℕ) (b : McBasicBlock)
    (bs : List McBasicBlock) (ks : List ℕ) (rest : List McBasicBlock)
    → successors ia full i b ≡ ok ks
    → generate_from ia full (suc i) bs ≡ ok rest
    → generate_from ia full i (b ∷ bs) ≡ ok (record b { succs = names_of ia full ks } ∷ rest)
unfolding generate_from
generate_cons ia full i b bs ks rest p q =
    ap
      (λ (r : Result (List ℕ)). elim r [
        | err e ↦ err e
        | ok ks ↦ elim (generate_from ia full (suc i) bs) [
          | err e ↦ err e
          | ok rest ↦ ok (record b { succs = names_of ia full ks } ∷ rest)
        ]
      ])
      p
    ∙ ap
        (λ (r : Result (List McBasicBlock)). elim r [
          | err e ↦ err e
          | ok rest ↦ ok (record b { succs = names_of ia full ks } ∷ rest)
        ])
        q

module _ (ia : McInstrAnalysis) (bbs : List McBasicBlock) where
  -- A conditional branch to a block, or a jump to a label, and not to the entry.
  pub record Linked (last : McInst) : Type 0 where
    pub target : String
    pub place : ℕ
    pub is_other : IsOther target
    pub branch_label :
        ia.is_conditional_branch last ≡ true → find_target_label last.operands ≡ ok target
    pub branch_block :
        ia.is_conditional_branch last ≡ true → find_block_by_name bbs 1 target ≡ some place
    pub jump_label :
        ia.is_unconditional_branch last ≡ true → find_target_label last.operands ≡ ok target

  abbrev pub IsLinked : McBasicBlock → Type 0
  IsLinked b = IsOther b.name × ((last : McInst) → last? b.instrs ≡ some last → Linked last)

  abbrev full : List McBasicBlock
  full = entry_block ∷ bbs

  abbrev Positive : ℕ → Type 0
  Positive k = 1 ≤ k

  find-Positive :
      (bs : List McBasicBlock) (j : ℕ) (name : String)
      → 1 ≤ j
      → All Positive (found (find_block_by_name bs j name))
  unfolding find_block_by_name
  find-Positive [] j name h = tt
  find-Positive (b ∷ bs) j name h =
      elim (str_eq b.name name)
        as (λ c. All Positive (found (if c then some j else find_block_by_name bs (suc j) name))) [
          | true ↦ (h, tt)
          | false ↦ find-Positive bs (suc j) name (omega arith)
        ]

  find-full :
      (name : String)
      → IsOther name
      → find_block_by_name full 0 name ≡ find_block_by_name bbs 1 name
  unfolding find_block_by_name
  find-full name h = rw h refl

  next-Positive : (i : ℕ) → All Positive (found (next_block (length full) i))
  next-Positive i =
      elim (ltb (suc i) (length full))
        as (λ c. All Positive (found (if c then some (suc i) else none))) [
          | true ↦ ((omega arith), tt)
          | false ↦ tt
        ]

  add-Positive : (j k : ℕ) → 1 ≤ j → 1 ≤ k → All Positive (add_succ (j ∷ []) k)
  unfolding add_succ
  add-Positive j k hj hk = elim (j == k) as (λ c. All Positive (if c then j ∷ [] else j ∷ k ∷ [])) [
    | true ↦ (hj, tt)
    | false ↦ (hj, (hk, tt))
  ]

  add_next-Positive :
      (o : Option ℕ) (k : ℕ) → All Positive (found o) → 1 ≤ k → All Positive (add_next o (k ∷ []))
  unfolding add_next
  add_next-Positive none k h hk = (hk, tt)
  add_next-Positive (some j) k h hk = add-Positive k j hk h.0

  -- The successors are found, and the entry is not among them.
  abbrev Found : Result (List ℕ) → Type 0
  Found (ok ks) = All Positive ks
  Found (err e) = ⊥

  Found-branch :
      (next : Option ℕ) (last : McInst)
      → Linked last
      → All Positive (found next)
      → ia.is_conditional_branch last ≡ true
      → Found (branch_targets ia full next (find_target_label last.operands))
  unfolding branch_targets find_block_by_name
  Found-branch next last l h c =
      let p : 1 ≤ l.place =
        (subst (λ o. All Positive (found o)) (l.branch_block c)
          (find-Positive bbs 1 l.target (omega arith))).0 in
      subst (λ q. Found (branch_targets ia full next q)) (sym (l.branch_label c))
        (subst
          (λ q.
            Found (elim q [
              | none ↦ err bpf_tv.Common.assertion
              | some k ↦ ok (add_next next (k ∷ []))
            ]))
          (sym (find-full l.target l.is_other ∙ l.branch_block c))
          (add_next-Positive next l.place h p))

  Found-jump :
      (last : McInst)
      → Linked last
      → ia.is_unconditional_branch last ≡ true
      → Found (jump_target ia full (find_target_label last.operands))
  unfolding jump_target find_block_by_name
  Found-jump last l c =
      subst (λ q. Found (jump_target ia full q)) (sym (l.jump_label c))
        (subst (λ o. All Positive (found o)) (sym (find-full l.target l.is_other))
          (find-Positive bbs 1 l.target (omega arith)))

  Found-usual :
      (next : Option ℕ) (last : McInst)
      → Linked last
      → All Positive (found next)
      → Found (usual_successors ia full next last)
  unfolding usual_successors
  Found-usual next last l h = elim (Bool-cases (ia.is_conditional_branch last)) [
    | inl c ↦ rw c (Found-branch next last l h c)
    | inr c ↦ rw c (elim (Bool-cases (ia.is_unconditional_branch last)) [
      | inl u ↦ rw u (Found-jump last l u)
      | inr u ↦
          rw u (elim (ia.is_return last) as (λ b. Found (if b then ok [] else ok (found next))) [
            | true ↦ tt
            | false ↦ h
          ])
    ])
  ]

  Found-last :
      (i : ℕ) (last : McInst) → Linked last → Found (successors_of_last ia full (suc i) last)
  unfolding successors_of_last
  Found-last i last l =
      let e : (suc i == 0) ≡ false = ground arith in
      subst
        (λ c. Found (
          if c && (ia.is_unconditional_branch last && starts_with_imm last.operands)
          then only_next ia full (next_block (length full) (suc i))
          else usual_successors ia full (next_block (length full) (suc i)) last))
        (sym e) (Found-usual (next_block (length full) (suc i)) last l (next-Positive (suc i)))

  get-IsOther :
      (bs : List McBasicBlock)
      → All IsLinked bs
      → (k : ℕ) (b : McBasicBlock) → get_elem? bs k ≡ some b
      → IsOther b.name
  get-IsOther [] h k b e = absurd cc
  get-IsOther (x ∷ xs) h zero b e =
      subst (λ o. IsOther (elim o [ none ↦ "" | some y ↦ y.name ])) e h.0.0
  get-IsOther (x ∷ xs) h (suc k) b e = get-IsOther xs h.1 k b e

  module _ (linked : All IsLinked bbs) where
    name-IsOther :
        (k : ℕ) (o : Option McBasicBlock)
        → get_elem? bbs k ≡ o
        → (rest : List String) → All IsOther rest
        → All IsOther (elim o [ none ↦ rest | some b ↦ b.name ∷ rest ])
    name-IsOther k none e rest h = h
    name-IsOther k (some b) e rest h = (get-IsOther bbs linked k b e, h)

    names-IsOther : (ks : List ℕ) → All Positive ks → All IsOther (names_of ia full ks)
    names-IsOther [] h = tt
    names-IsOther (zero ∷ ks) h = absurd (let p = h.0 in omega arith)
    names-IsOther (suc k ∷ ks) h =
        name-IsOther k (get_elem? bbs k) refl (names_of ia full ks) (names-IsOther ks h.1)

    -- The rest of the blocks can be completed, none goes to the entry and the code is the same.
    pub record Completed (i : ℕ) (bs : List McBasicBlock) : Type 0 where
      pub out : List McBasicBlock
      pub out_eq : generate_from ia full i bs ≡ ok out
      pub others : All (λ b. All IsOther b.succs) out
      pub same_code : code out ≡ code bs

    Found-successors :
        (i : ℕ) (b : McBasicBlock)
        → IsLinked b
        → (o : Option McInst) → last? b.instrs ≡ o
        → Found (elim o [ none ↦ ok [] | some last ↦ successors_of_last ia full (suc i) last ])
    Found-successors i b h none e = tt
    Found-successors i b h (some last) e = Found-last i last (h.1 last e)

    complete_with :
        (i : ℕ) (b : McBasicBlock) (bs : List McBasicBlock) (r : Result (List ℕ))
        → successors ia full i b ≡ r
        → Found r
        → Completed (suc i) bs
        → Completed i (b ∷ bs)
    unfolding generate_from
    complete_with i b bs (err e) q h c = elim h [ ]
    complete_with i b bs (ok ks) q h c = record {
      out = record b { succs = names_of ia full ks } ∷ c.out;
      out_eq = generate_cons ia full i b bs ks c.out q c.out_eq;
      others = (names-IsOther ks h, c.others);
      same_code = ap (λ l. b.instrs ++ l) c.same_code;
    }

    pub complete : (i : ℕ) (bs : List McBasicBlock) → All IsLinked bs → Completed (suc i) bs
    unfolding generate_from successors
    complete i [] h = record { out = []; out_eq = refl; others = tt; same_code = refl }
    complete i (b ∷ bs) h =
        complete_with (suc i) b bs (successors ia full (suc i) b) refl
          (Found-successors i b h.0 (last? b.instrs) refl) (complete (suc i) bs h.1)
