-- ===== src/Bytes/Blocks/Filled.antt =====
-- The names and the contents of the blocks built from bytes (`bpf2llvm::runBytes`,
-- src/lifter/bpf2llvm.cpp).
use bpf_tv.Common.{
  ℕ, true, Bool-cases, inl, inr, Option, some, none, List, [], ◌∷◌, ◌++◌, All, last?, ◌≡◌, refl, ap,
  subst, ◌∙◌,
}
use Prim.Native.String.{◌++◌ as str_append}
use text.Mathlib.Text.{◌==◌ as str_eq, starts_with}
use text.Mathlib.TextEquality.{eq_iff}
use text.Mathlib.TextPositions.{starts_with-append}
use bpf_tv.Mc.Inst.{McInst}
use bpf_tv.Mc.Block.{McBasicBlock}
use bpf_tv.Bpf.Call.{to_string}
use bpf_tv.Streamer.{append_inst}
use bpf_tv.Streamer.Shape.{code, snoc-ne_nil}
use bpf_tv.Streamer.Flow.{remove_empty_blocks, keep}
use bpf_tv.Streamer.Flow.Linked.{IsOther, entry_name}
use bpf_tv.Bytes.{DecodedInsn, label_name}
use bpf_tv.Bytes.Blocks.Placed.{insts_of}

pub label-IsOther : (n : ℕ) → IsOther (label_name n)
unfolding label_name
label-IsOther n = elim (Bool-cases (str_eq entry_name (label_name n))) [
  | inl e ↦
      let p : entry_name ≡ str_append "L" (to_string n) = (eq_iff entry_name (label_name n)).0 e in
      let q : starts_with entry_name "L" ≡ true =
        ap (λ t. starts_with t "L") p ∙ starts_with-append "L" (to_string n) in
      absurd cc
  | inr e ↦ e
]

abbrev pub IsFilled : McBasicBlock → Type 0
IsFilled b = (b.instrs ≡ [] → ⊥) × IsOther b.name

pub append-IsFilled : (i : McInst) (b : McBasicBlock) → IsFilled b → IsFilled (append_inst i b)
append-IsFilled i b h = ((λ e. snoc-ne_nil b.instrs i e), h.1)

pub keep-filled :
    (is : List McInst) (b : McBasicBlock) (bs : List McBasicBlock)
    → (is ≡ [] → ⊥)
    → keep is b bs ≡ b ∷ bs
keep-filled [] b bs h = absurd (h refl)
keep-filled (i ∷ is) b bs h = refl

pub remove_none : (bbs : List McBasicBlock) → All IsFilled bbs → remove_empty_blocks bbs ≡ bbs
unfolding remove_empty_blocks
remove_none [] h = refl
remove_none (b ∷ bs) h =
    keep-filled b.instrs b (remove_empty_blocks bs) h.0.0 ∙ ap (λ q. b ∷ q) (remove_none bs h.1)

pub All-left : (P : McInst → Type 0) (xs ys : List McInst) → All P (xs ++ ys) → All P xs × All P ys
All-left P [] ys h = (tt, h)
All-left P (x ∷ xs) ys h = let r = All-left P xs ys h.1 in ((h.0, r.0), r.1)

pub All-code :
    (P : McInst → Type 0) (bbs : List McBasicBlock)
    → All P (code bbs)
    → All (λ b. All P b.instrs) bbs
All-code P [] h = tt
All-code P (b ∷ bs) h = let r = All-left P b.instrs (code bs) h in (r.0, All-code P bs r.1)

pub All-last :
    (P : McInst → Type 0) (xs : List McInst) (x : McInst) → All P xs → last? xs ≡ some x → P x
All-last P [] x h e = absurd cc
All-last P (y ∷ []) x h e =
    subst P (ap (λ (o : Option McInst). elim o [ none ↦ y | some z ↦ z ]) e) h.0
All-last P (y ∷ z ∷ zs) x h e = All-last P (z ∷ zs) x h.1 e

pub All-insts :
    (P : McInst → Type 0) (xs : List DecodedInsn) → All (λ x. P x.inst) xs → All P (insts_of xs)
All-insts P [] h = tt
All-insts P (x ∷ xs) h = (h.0, All-insts P xs h.1)
