-- ===== src/Lifter/Grows.antt =====
-- How lifting changes the function being built: it appends to the current block, creates blocks,
-- and leaves every other block alone.
use bpf_tv.Common.{
  ℕ, ◌≤◌, ◌<◌, ◌≡◌, ◌≢◌, ◌⊎◌, inl, inr, refl, sym, ap, ◌∙◌, List, [], ◌∷◌, ◌++◌, append_assoc,
  append-nil, update_ne, arith,
}
use native.Mathlib.Decide.{ℕ_discrete}
use bpf_tv.Llvm.Ir.{Instr}
use bpf_tv.Lifter.State.{Lifter, emit}
use bpf_tv.Lifter.Emits.{emit-blocks}

pub record Grows (s s' : Lifter) : Type 0 where
  pub at : (s'.bb ≡ s.bb) ⊎ (s.count ≤ s'.bb)
  pub valid : s.bb < s.count → s'.bb < s'.count
  pub more : s.count ≤ s'.count
  pub added : List Instr
  pub appended : s'.blocks s.bb ≡ s.blocks s.bb ++ added
  pub kept : (b : ℕ) → b ≢ s.bb → b < s.count → s'.blocks b ≡ s.blocks b
  pub named : (b : ℕ) → b < s.count → s'.names b ≡ s.names b
  pub later : s.next ≤ s'.next
  pub same_regs : s'.reg_file ≡ s.reg_file
  pub same_inst : s'.cur_inst ≡ s.cur_inst
  pub same_succs : s'.succs ≡ s.succs

pub Grows-refl : (s : Lifter) → Grows s s
Grows-refl s = record {
  at = inl refl;
  valid = λ h. h;
  more = omega arith;
  added = [];
  appended = sym (append-nil (s.blocks s.bb));
  kept = λ b h l. refl;
  named = λ b l. refl;
  later = omega arith;
  same_regs = refl;
  same_inst = refl;
  same_succs = refl;
}

pub Grows-emit : (i : Instr) (s : Lifter) → Grows s (emit i s)
unfolding emit
Grows-emit i s = record {
  at = inl refl;
  valid = λ h. h;
  more = omega arith;
  added = i ∷ [];
  appended = emit-blocks i s;
  kept = λ b h l. update_ne s.blocks s.bb b _ h;
  named = λ b l. refl;
  later = omega arith;
  same_regs = refl;
  same_inst = refl;
  same_succs = refl;
}

module _ {s s' s'' : Lifter} (g : Grows s s') (h : Grows s' s'') (live : s.bb < s.count) where
  at_trans :
      (s'.bb ≡ s.bb) ⊎ (s.count ≤ s'.bb)
      → (s''.bb ≡ s'.bb) ⊎ (s'.count ≤ s''.bb)
      → (s''.bb ≡ s.bb) ⊎ (s.count ≤ s''.bb)
  at_trans (inl e) (inl e') = inl (e' ∙ e)
  at_trans (inr l) (inl e') = inr (omega arith)
  at_trans _ (inr l) = inr (omega (arith, g.more))

  appended_trans :
      (s'.bb ≡ s.bb) ⊎ (s.count ≤ s'.bb) → (t : List Instr) × (s''.blocks s.bb ≡ s.blocks s.bb ++ t)
  appended_trans (inl e) = (
    g.added ++ h.added,
    ap s''.blocks (sym e)
        ∙ h.appended
        ∙ ap (λ b. s'.blocks b ++ h.added) e
        ∙ ap (λ (l : List Instr). l ++ h.added) g.appended
        ∙ append_assoc (s.blocks s.bb) g.added h.added,
  )
  appended_trans (inr l) =
      (g.added, h.kept s.bb (λ e. omega arith) (omega (arith, g.more)) ∙ g.appended)

  kept_trans :
      (b : ℕ)
      → b ≢ s.bb
      → b < s.count
      → (s'.bb ≡ s.bb) ⊎ (s.count ≤ s'.bb)
      → s''.blocks b ≡ s.blocks b
  kept_trans b ne l (inl e) = h.kept b (λ p. ne (p ∙ e)) (omega (arith, g.more)) ∙ g.kept b ne l
  kept_trans b ne l (inr p) = h.kept b (λ q. omega arith) (omega (arith, g.more)) ∙ g.kept b ne l

  pub Grows-trans : Grows s s''
  Grows-trans = record {
    at = at_trans g.at h.at;
    valid = λ l. h.valid (g.valid l);
    more = omega (arith, g.more, h.more);
    added = (appended_trans g.at).0;
    appended = (appended_trans g.at).1;
    kept = λ b ne l. kept_trans b ne l g.at;
    named = λ b l. h.named b (omega (arith, g.more)) ∙ g.named b l;
    later = omega (arith, g.later, h.later);
    same_regs = h.same_regs ∙ g.same_regs;
    same_inst = h.same_inst ∙ g.same_inst;
    same_succs = h.same_succs ∙ g.same_succs;
  }

-- `B` holds, of what is built between `s` and `s'`, all finished blocks, and may go on with the
-- current block of `s'`.
pub record Extends (s s' : Lifter) (B : ℕ → List Instr) : Type 0 where
  pub rest : List Instr
  pub current : B s'.bb ≡ s'.blocks s'.bb ++ rest
  pub finished : (b : ℕ) → (b ≡ s.bb) ⊎ (s.count ≤ b) → b ≢ s'.bb → b < s'.count → B b ≡ s'.blocks b

module _ {s s' s'' : Lifter} (g : Grows s s') (h : Grows s' s'') (live : s.bb < s.count)
    {B : ℕ → List Instr} (x : Extends s s'' B) where
  touched :
      (b : ℕ)
      → (s'.bb ≡ s.bb) ⊎ (s.count ≤ s'.bb)
      → (b ≡ s'.bb) ⊎ (s'.count ≤ b)
      → (b ≡ s.bb) ⊎ (s.count ≤ b)
  touched b (inl e) (inl p) = inl (p ∙ e)
  touched b (inr l) (inl p) = inr (omega arith)
  touched b _ (inr l) = inr (omega (arith, g.more))

  pub Extends-after : Extends s' s'' B
  Extends-after = record {
    rest = x.rest;
    current = x.current;
    finished = λ b t ne l. x.finished b (touched b g.at t) ne l;
  }

  current-before : Dec (s'.bb ≡ s''.bb) → (t : List Instr) × (B s'.bb ≡ s'.blocks s'.bb ++ t)
  current-before (yes e) = (
    h.added ++ x.rest,
    ap B e
        ∙ x.current
        ∙ ap (λ b. s''.blocks b ++ x.rest) (sym e)
        ∙ ap (λ (l : List Instr). l ++ x.rest) h.appended
        ∙ append_assoc (s'.blocks s'.bb) h.added x.rest,
  )
  current-before (no n) = (
    h.added,
    x.finished s'.bb (touched s'.bb g.at (inl refl)) n (omega (arith, g.valid live, h.more))
        ∙ h.appended,
  )

  at_other :
      (b : ℕ) → b ≢ s'.bb → b < s'.count → (s''.bb ≡ s'.bb) ⊎ (s'.count ≤ s''.bb) → b ≢ s''.bb
  at_other b ne l (inl e) p = ne (p ∙ e)
  at_other b ne l (inr q) p = omega arith

  pub Extends-before : Extends s s' B
  Extends-before =
      let cur = current-before (ℕ_discrete s'.bb s''.bb) in
      record {
        rest = cur.0;
        current = cur.1;
        finished = λ b t ne l.
            x.finished b t (at_other b ne l h.at) (omega (arith, h.more)) ∙ h.kept b ne l;
      }
