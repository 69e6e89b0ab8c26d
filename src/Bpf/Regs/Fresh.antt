-- ===== src/Bpf/Regs/Fresh.antt =====
-- The bytes that unspecified values are read from (`unspecifiedValue`, src/lifter/bpf2llvm.cpp).
use bpf_tv.Common.{
  ℕ, suc, ◌+◌, false, Bool-cases, leb→le, ◌/◌, ◌≤◌, ◌<◌, leb, if◌then◌else◌, List, [], ◌∷◌, ◌++◌,
  All, All-append, ok, err, assertion, inl, inr, ◌⊎◌, ◌≡◌, refl, ap, subst, sym, ◌∙◌, arith,
  append_assoc, append-nil, update_ne,
}
use native.Mathlib.Decide.{ℕ_discrete}
use text.Mathlib.Text.{◌==◌ as str_eq}
use bpf_tv.Llvm.Ir.{int, gep, global, const, result, Instr}
use bpf_tv.Lifter.State.{Lifter, ◌>>=◌, emit}
use bpf_tv.Lifter.Emits.{emit-blocks}
use bpf_tv.Bpf.Regs.{unspecified_value, unspecified_mem_bytes}
use bpf_tv.Bpf.Regs.Unspecified.{after_value, unspecified_value-ok}

-- The first byte of the constant global that a load reads, and how many, for such a load.
abbrev pub read_of : Instr → List (ℕ × ℕ)
read_of (Instr.load n (int w) (gep (global g) (const k off))) =
    if str_eq g "__bpf_tv_unspecified" then (off, (w + 7) / 8) ∷ [] else []
read_of _ = []

abbrev pub reads : List Instr → List (ℕ × ℕ)
reads [] = []
reads (i ∷ is) = read_of i ++ reads is

reads-append : (xs ys : List Instr) → reads (xs ++ ys) ≡ reads xs ++ reads ys
reads-append [] ys = refl
reads-append (x ∷ xs) ys =
    ap (λ l. read_of x ++ l) (reads-append xs ys)
    ∙ sym (append_assoc (read_of x) (reads xs) (reads ys))

-- The whole function reads only bytes that are counted as used.
abbrev pub IsCounted : Lifter → Type 0
IsCounted s = (b : ℕ) → All (λ r. r.0 + r.1 ≤ s.unspecified_off) (reads (s.blocks b))

le_or_lt : (m n : ℕ) → (m ≤ n) ⊎ (n < m)
le_or_lt m n = elim (Bool-cases (leb m n)) [
  | inl e ↦ inl (leb→le m n e)
  | inr e ↦ inr (ground arith)
]

-- Ranges with no byte in common.
abbrev pub IsApart : ℕ × ℕ → ℕ × ℕ → Type 0
IsApart p q = (p.0 + p.1 ≤ q.0) ⊎ (q.0 + q.1 ≤ p.0)

-- The value is one load, of bytes of the global that no load of the function so far reads.
pub record Fresh (width : ℕ) (s : Lifter) : Type 0 where
  pub first : ℕ
  pub after : Lifter
  pub eq : unspecified_value width s ≡ ok (result (int width) (suc s.next), after)
  pub loaded : reads (after.blocks s.bb) ≡ reads (s.blocks s.bb) ++ (first, (width + 7) / 8) ∷ []
  pub kept : (b : ℕ) → (b ≡ s.bb → ⊥) → after.blocks b ≡ s.blocks b
  pub within : first + (width + 7) / 8 ≤ unspecified_mem_bytes
  pub apart : (b : ℕ) → All (IsApart (first, (width + 7) / 8)) (reads (s.blocks b))
  pub counted : IsCounted after

All-weaken :
    (P Q : ℕ × ℕ → Type 0) → ((r : ℕ × ℕ) → P r → Q r) → (rs : List (ℕ × ℕ)) → All P rs → All Q rs
All-weaken P Q f [] h = tt
All-weaken P Q f (r ∷ rs) h = (f r h.0, All-weaken P Q f rs h.1)

reads-after_value :
    (s : Lifter) (width : ℕ)
    → reads ((after_value s width).blocks s.bb)
      ≡ reads (s.blocks s.bb) ++ (s.unspecified_off, (width + 7) / 8) ∷ []
unfolding emit
reads-after_value s width =
    let p = gep (global "__bpf_tv_unspecified") (const 64 s.unspecified_off) in
    let s' : Lifter = emit (Instr.compute p) s in
    let l = Instr.load s'.next (int width) p in
    ap reads (emit-blocks l s')
    ∙ reads-append (s'.blocks s.bb) (l ∷ [])
    ∙ ap (λ rs. rs ++ (s.unspecified_off, (width + 7) / 8) ∷ [])
        (ap reads (emit-blocks (Instr.compute p) s)
          ∙ reads-append (s.blocks s.bb) (Instr.compute p ∷ [])
          ∙ append-nil (reads (s.blocks s.bb)))

blocks-after_value :
    (s : Lifter) (width b : ℕ) → (b ≡ s.bb → ⊥) → (after_value s width).blocks b ≡ s.blocks b
unfolding emit
blocks-after_value s width b n = update_ne _ s.bb b _ n ∙ update_ne s.blocks s.bb b _ n

-- One more value keeps all reads counted.
pub after_value-IsCounted : (s : Lifter) (width : ℕ) → IsCounted s → IsCounted (after_value s width)
unfolding emit
after_value-IsCounted s width h b =
    let end = s.unspecified_off + (width + 7) / 8 in
    let Ends : ℕ × ℕ → Type 0 = λ r. r.0 + r.1 ≤ end in
    let old : (b : ℕ) → All Ends (reads (s.blocks b)) = λ b.
      All-weaken (λ r. r.0 + r.1 ≤ s.unspecified_off) Ends (λ r q. omega arith) (reads (s.blocks b))
        (h b) in
    elim (ℕ_discrete b s.bb) [
      | yes e ↦
          subst (λ c. All Ends (reads ((after_value s width).blocks c))) (sym e)
            (subst (All Ends) (sym (reads-after_value s width)) (
              All-append Ends (reads (s.blocks s.bb)) ((s.unspecified_off, (width + 7) / 8) ∷ [])
                (old s.bb) (omega arith, tt)))
      | no n ↦ subst (λ is. All Ends (reads is)) (sym (blocks-after_value s width b n)) (old b)
    ]

-- Where the function so far reads only bytes that are counted as used, `unspecifiedValue` reads
-- bytes within the 65536 of the global that nothing in any block of the function reads yet, adds
-- this load to the current block and changes no other, and leaves all reads counted as used; or
-- there are fewer bytes left than it needs, and it fails its assertion.
pub unspecified_value-Fresh :
    (s : Lifter) (width : ℕ)
    → IsCounted s
    → Fresh width s
      ⊎ ((unspecified_mem_bytes < s.unspecified_off + (width + 7) / 8)
          × (unspecified_value width s ≡ err assertion))
unfolding unspecified_value
unspecified_value-Fresh s width h =
    let need = s.unspecified_off + (width + 7) / 8 in
    elim (le_or_lt need 65536) [
      | inl l ↦ inl (record {
        first = s.unspecified_off;
        after = after_value s width;
        eq = unspecified_value-ok s width l;
        loaded = reads-after_value s width;
        kept = λ b n. blocks-after_value s width b n;
        within = l;
        apart = λ b.
            All-weaken (λ r. r.0 + r.1 ≤ s.unspecified_off)
              (IsApart (s.unspecified_off, (width + 7) / 8)) (λ r q. inr q) (reads (s.blocks b))
              (h b);
        counted = after_value-IsCounted s width h;
      })
      | inr l ↦ inr (l, let q : leb need 65536 ≡ false = ground arith in rw (q, ◌>>=◌) refl)
    ]
