-- ===== src/Backend/Complete.antt =====
-- The slots read back for the frame (src/lifter/run_backend.cpp): without overlaps all are kept.
use bpf_tv.Common.{
  ℕ, ◌+◌, ◌≤◌, leb, leb→le, true, false, Bool-cases, ◌≡◌, refl, List, [], ◌∷◌, arith, inl, inr, All,
  sym, subst, ap, ◌∙◌,
}
use mathlib.Core.List.{Perm}
use mathlib.Core.List.Perm
use bpf_tv.Words.{ℤ, pos, negsuc, ltb_ℤ, add_ℤ}
use bpf_tv.Backend.{
  StackSlot, FrameObject, collect, before, insert, sort, runs_into, erase_overlaps, read_slots,
}
use bpf_tv.Backend.Disjoint.{
  place, Apart, InFrame, IsFrameOffset, Below, Pairwise, All-insert, All-sort, collect-InFrame,
  sort-Pairwise,
}

insert-Apart :
    (s : StackSlot) (l : List StackSlot)
    → All (Apart s) l
    → Pairwise Apart l
    → Pairwise Apart (insert s l)
unfolding insert
insert-Apart s [] h p = (tt, tt)
insert-Apart s (t ∷ ts) h p =
    elim (before t s)
      as (λ c. Pairwise Apart (elim c [ true ↦ t ∷ insert s ts | false ↦ s ∷ t ∷ ts ])) [
        | true ↦ (All-insert (Apart t) s ts (λ k x y. h.0 k y x) p.0, insert-Apart s ts h.1 p.1)
        | false ↦ (h, p)
      ]

sort-Apart : (l : List StackSlot) → Pairwise Apart l → Pairwise Apart (sort l)
unfolding sort
sort-Apart [] p = tt
sort-Apart (s ∷ ss) p = insert-Apart s (sort ss) (All-sort (Apart s) ss p.0) (sort-Apart ss p.1)

end_place :
    (x y : ℤ) (n : ℕ)
    → IsFrameOffset x
    → IsFrameOffset y
    → place x + n ≤ place y
    → ltb_ℤ y (add_ℤ x n) ≡ false
unfolding ltb_ℤ add_ℤ
end_place (pos _) y n hx hy h = elim hx [ ]
end_place (negsuc a) (pos _) n hx hy h = elim hy [ ]
end_place (negsuc a) (negsuc b) n hx hy h = ground arith

Apart-le :
    (a b : StackSlot) → InFrame b → Below a b → Apart a b → place a.offset + a.size ≤ place b.offset
Apart-le a b hb le apart = elim (Bool-cases (leb (place a.offset + a.size) (place b.offset))) [
  | inl e ↦ leb→le (place a.offset + a.size) (place b.offset) e
  | inr e ↦
      absurd
        (apart (place b.offset) (le, ground arith) (omega arith, (let h = hb.1 in omega arith)))
]

erase_overlaps_kept :
    (l : List StackSlot)
    → All InFrame l
    → Pairwise Below l
    → Pairwise Apart l
    → erase_overlaps l ≡ l
unfolding erase_overlaps runs_into
erase_overlaps_kept [] h p q = refl
erase_overlaps_kept (a ∷ []) h p q = refl
erase_overlaps_kept (a ∷ b ∷ rest) h p q =
    let e : runs_into a b ≡ false =
      end_place a.offset b.offset a.size h.0.0 h.1.0.0 (Apart-le a b h.1.0 p.0.0 q.0.0) in
    ap (λ c. elim c [ true ↦ erase_overlaps rest | false ↦ a ∷ erase_overlaps (b ∷ rest) ]) e
    ∙ ap (◌∷◌ a) (erase_overlaps_kept (b ∷ rest) h.1 p.1 q.1)

insert-Perm : (s : StackSlot) (l : List StackSlot) → Perm (insert s l) (s ∷ l)
unfolding insert
insert-Perm s [] = Perm.rfl
insert-Perm s (t ∷ ts) =
    elim (before t s)
      as (λ c. Perm (elim c [ true ↦ t ∷ insert s ts | false ↦ s ∷ t ∷ ts ]) (s ∷ t ∷ ts)) [
        | true ↦ Perm.trans (Perm.cons t (insert-Perm s ts)) (Perm.swap s t ts)
        | false ↦ Perm.rfl
      ]

sort-Perm : (l : List StackSlot) → Perm (sort l) l
unfolding sort
sort-Perm [] = Perm.rfl
sort-Perm (s ∷ ss) = Perm.trans (insert-Perm s (sort ss)) (Perm.cons s (sort-Perm ss))

-- If no two slots of the frame objects share a byte, all of them are read back, each as often as it
-- occurs, and in the order of their places.
pub read_slots-Perm :
    (os : List FrameObject)
    → Pairwise Apart (collect os)
    → Perm (read_slots os) (collect os) × Pairwise Below (read_slots os)
unfolding read_slots
read_slots-Perm os apart =
    let h = collect-InFrame os in
    let sorted = sort-Pairwise (collect os) h in
    let e : erase_overlaps (sort (collect os)) ≡ sort (collect os) =
      erase_overlaps_kept (sort (collect os)) (All-sort InFrame (collect os) h) sorted
        (sort-Apart (collect os) apart) in
    (
      subst (λ l. Perm l (collect os)) (sym e) (sort-Perm (collect os)),
      subst (Pairwise Below) (sym e) sorted,
    )
