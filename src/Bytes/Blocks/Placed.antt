-- ===== src/Bytes/Blocks/Placed.antt =====
-- Where decoded instructions are placed (`bpf2llvm::runBytes`, src/lifter/bpf2llvm.cpp).
use bpf_tv.Common.{
  ℕ, suc, ◌==◌, ◌||◌, Bool, true, false, Bool-cases, inl, inr, if◌then◌else◌, some, List, [], ◌∷◌,
  ◌++◌, String, All, any, map, ==_iff, ◌⊎◌, ◌≡◌, refl, ap, sym, subst, ◌∙◌, append_assoc,
  append-nil, All-append,
}
use text.Mathlib.Text.{◌==◌ as str_eq}
use text.Mathlib.TextEquality.{eq_iff}
use bpf_tv.Mc.Inst.{McInst}
use bpf_tv.Mc.Block.{McBasicBlock}
use bpf_tv.Streamer.{append_inst}
use bpf_tv.Streamer.Shape.{code, code-append}
use bpf_tv.Streamer.Flow.{find_block_by_name}
use bpf_tv.Bytes.{
  DecodedInsn, elem, is_empty, label_name, add_to_last, place_insn, place_all, units_of,
}

abbrev pub has_name : String → List McBasicBlock → Bool
has_name name bbs = any (λ b. str_eq b.name name) bbs

abbrev pub insts_of : List DecodedInsn → List McInst
insts_of xs = map DecodedInsn.inst xs

abbrev pub new_block : DecodedInsn → McBasicBlock
new_block x = record { name = label_name x.unit; instrs = x.inst ∷ []; succs = [] }

code-add_to_last :
    (i : McInst) (bbs : List McBasicBlock)
    → is_empty bbs ≡ false
    → code (add_to_last i bbs) ≡ code bbs ++ i ∷ []
unfolding add_to_last
code-add_to_last i [] h = absurd cc
code-add_to_last i (b ∷ []) h =
    append-nil (b.instrs ++ i ∷ []) ∙ ap (λ l. l ++ i ∷ []) (sym (append-nil b.instrs))
code-add_to_last i (b ∷ c ∷ bs) h =
    ap (λ l. b.instrs ++ l) (code-add_to_last i (c ∷ bs) refl)
    ∙ sym (append_assoc b.instrs (code (c ∷ bs)) (i ∷ []))

name-add_to_last :
    (name : String) (i : McInst) (bbs : List McBasicBlock)
    → has_name name (add_to_last i bbs) ≡ has_name name bbs
unfolding add_to_last
name-add_to_last name i [] = refl
name-add_to_last name i (b ∷ []) = refl
name-add_to_last name i (b ∷ c ∷ bs) =
    ap (λ q. str_eq b.name name || q) (name-add_to_last name i (c ∷ bs))

All-add_to_last :
    (P : McBasicBlock → Type 0) (i : McInst) (bbs : List McBasicBlock)
    → ((b : McBasicBlock) → P b → P (append_inst i b))
    → All P bbs
    → All P (add_to_last i bbs)
unfolding add_to_last
All-add_to_last P i [] k h = tt
All-add_to_last P i (b ∷ []) k h = (k b h.0, tt)
All-add_to_last P i (b ∷ c ∷ bs) k h = (h.0, All-add_to_last P i (c ∷ bs) k h.1)

-- A property of single blocks that new blocks have, and that an instruction more does not end.
pub place-All :
    (P : McBasicBlock → Type 0)
    → ((x : DecodedInsn) → P (new_block x))
    → ((i : McInst) (b : McBasicBlock) → P b → P (append_inst i b))
    → (ls : List ℕ) (bbs : List McBasicBlock) (xs : List DecodedInsn) → All P bbs
    → All P (place_all ls bbs xs)
unfolding place_all place_insn
place-All P new more ls bbs [] h = h
place-All P new more ls bbs (x ∷ xs) h =
    place-All P new more ls (place_insn ls bbs x) xs
      (elim (elem x.unit ls || is_empty bbs)
        as (λ c. All P (if c then bbs ++ new_block x ∷ [] else add_to_last x.inst bbs)) [
          | true ↦ All-append P bbs (new_block x ∷ []) h (new x, tt)
          | false ↦ All-add_to_last P x.inst bbs (more x.inst) h
        ])

or-false-right : (a b : Bool) → (a || b) ≡ false → b ≡ false
or-false-right true b h = absurd cc
or-false-right false b h = h

-- The blocks hold the instructions placed, in order.
pub code-place_all :
    (ls : List ℕ) (bbs : List McBasicBlock) (xs : List DecodedInsn)
    → code (place_all ls bbs xs) ≡ code bbs ++ insts_of xs
unfolding place_all place_insn
code-place_all ls bbs [] = sym (append-nil (code bbs))
code-place_all ls bbs (x ∷ xs) =
    code-place_all ls (place_insn ls bbs x) xs
    ∙ ap (λ l. l ++ insts_of xs)
        (elim (Bool-cases (elem x.unit ls || is_empty bbs)) [
          | inl e ↦ rw e (code-append bbs (new_block x ∷ []))
          | inr e ↦
              rw e (code-add_to_last x.inst bbs (or-false-right (elem x.unit ls) (is_empty bbs) e))
        ])
    ∙ append_assoc (code bbs) (x.inst ∷ []) (insts_of xs)

or-true-left : (a b : Bool) → a ≡ true → (a || b) ≡ true
or-true-left a b h = rw h refl

pub or-true-right : (a b : Bool) → b ≡ true → (a || b) ≡ true
or-true-right true b h = refl
or-true-right false b h = h

or-cases : (a b : Bool) → (a || b) ≡ true → (a ≡ true) ⊎ (b ≡ true)
or-cases true b h = inl refl
or-cases false b h = inr h

name-append :
    (name : String) (bs cs : List McBasicBlock)
    → has_name name (bs ++ cs) ≡ (has_name name bs || has_name name cs)
name-append name [] cs = refl
name-append name (b ∷ bs) cs =
    elim (str_eq b.name name)
      as (λ q. (q || has_name name (bs ++ cs)) ≡ ((q || has_name name bs) || has_name name cs)) [
        | true ↦ refl
        | false ↦ name-append name bs cs
      ]

name-place_insn :
    (name : String) (ls : List ℕ) (bbs : List McBasicBlock) (x : DecodedInsn)
    → has_name name bbs ≡ true
    → has_name name (place_insn ls bbs x) ≡ true
unfolding place_insn
name-place_insn name ls bbs x h =
    elim (elem x.unit ls || is_empty bbs)
      as (λ c.
        has_name name (if c then bbs ++ new_block x ∷ [] else add_to_last x.inst bbs) ≡ true) [
          | true ↦
              name-append name bbs (new_block x ∷ [])
              ∙ or-true-left (has_name name bbs) (has_name name (new_block x ∷ [])) h
          | false ↦ name-add_to_last name x.inst bbs ∙ h
        ]

name-place_all :
    (name : String) (ls : List ℕ) (bbs : List McBasicBlock) (xs : List DecodedInsn)
    → has_name name bbs ≡ true
    → has_name name (place_all ls bbs xs) ≡ true
unfolding place_all
name-place_all name ls bbs [] h = h
name-place_all name ls bbs (x ∷ xs) h =
    name-place_all name ls (place_insn ls bbs x) xs (name-place_insn name ls bbs x h)

name-leader :
    (ls : List ℕ) (bbs : List McBasicBlock) (x : DecodedInsn)
    → elem x.unit ls ≡ true
    → has_name (label_name x.unit) (place_insn ls bbs x) ≡ true
unfolding place_insn
name-leader ls bbs x h =
    let e : (elem x.unit ls || is_empty bbs) ≡ true =
      or-true-left (elem x.unit ls) (is_empty bbs) h in
    rw e (
      name-append (label_name x.unit) bbs (new_block x ∷ [])
      ∙ or-true-right (has_name (label_name x.unit) bbs)
          (has_name (label_name x.unit) (new_block x ∷ []))
          (or-true-left (str_eq (label_name x.unit) (label_name x.unit)) false
            ((eq_iff (label_name x.unit) (label_name x.unit)).1 refl)))

-- A unit at which an instruction starts and that is a leader has a block with its label.
pub name-place_all_leader :
    (u : ℕ) (ls : List ℕ) (bbs : List McBasicBlock) (xs : List DecodedInsn)
    → elem u (units_of xs) ≡ true
    → elem u ls ≡ true
    → has_name (label_name u) (place_all ls bbs xs) ≡ true
unfolding place_all
name-place_all_leader u ls bbs [] h l = absurd cc
name-place_all_leader u ls bbs (x ∷ xs) h l =
    elim (or-cases (x.unit == u) (elem u (units_of xs)) h) [
      | inl e ↦
          let q : x.unit ≡ u = (==_iff x.unit u).0 e in
          subst (λ v. has_name (label_name v) (place_all ls (place_insn ls bbs x) xs) ≡ true) q
            (name-place_all (label_name x.unit) ls (place_insn ls bbs x) xs
              (name-leader ls bbs x (subst (λ v. elem v ls ≡ true) (sym q) l)))
      | inr e ↦ name-place_all_leader u ls (place_insn ls bbs x) xs e l
    ]

-- A block that has a name is found by it.
pub find-has_name :
    (name : String) (bbs : List McBasicBlock) (j : ℕ)
    → has_name name bbs ≡ true
    → (k : ℕ) × (find_block_by_name bbs j name ≡ some k)
unfolding find_block_by_name
find-has_name name [] j h = absurd cc
find-has_name name (b ∷ bs) j h = elim (Bool-cases (str_eq b.name name)) [
  | inl e ↦ (j, (rw e refl))
  | inr e ↦
      let r =
        find-has_name name bs (suc j) (elim (or-cases (str_eq b.name name) (has_name name bs) h) [
          | inl q ↦ absurd cc
          | inr q ↦ q
        ]) in
      (r.0, (rw e r.1))
]
