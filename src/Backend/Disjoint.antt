-- ===== src/Backend/Disjoint.antt =====
-- The slots read back for the frame (src/lifter/run_backend.cpp): no two share a byte.
use bpf_tv.Common.{
  not, zero, All, ℕ, suc, ◌+◌, ◌-◌, ◌≤◌, ◌<◌, ltb, leb, ltb→lt, true, false, Bool-cases, ◌≡◌, List,
  [], ◌∷◌, arith, inl, inr, Option, none, some, if◌then◌else◌, sym, subst,
}
use bpf_tv.Words.{ℤ, pos, negsuc, ltb_ℤ, add_ℤ}
use bpf_tv.Backend.{
  push_back, line_of, StackSlot, FrameObject, slot_of_size, slot_of, collect, before, insert, sort,
  runs_into, erase_overlaps, read_slots,
}

-- The place of an offset in the 1024 bytes of the frame, and the bytes that a slot has.
abbrev pub place : ℤ → ℕ
place (pos n) = 1024 + n
place (negsuc n) = 1024 - suc n

abbrev pub Covers : StackSlot → ℕ → Type 0
Covers s k = (place s.offset ≤ k) × (k < place s.offset + s.size)

abbrev pub Apart : StackSlot → StackSlot → Type 0
Apart a b = (k : ℕ) → Covers a k → Covers b k → ⊥

abbrev pub IsFrameOffset : ℤ → Type 0
IsFrameOffset (pos n) = ⊥
IsFrameOffset (negsuc n) = n < 1024

abbrev pub InFrame : StackSlot → Type 0
InFrame s = IsFrameOffset s.offset × (0 < s.size)

abbrev pub Below : StackSlot → StackSlot → Type 0
Below a b = place a.offset ≤ place b.offset

place_lt : (x y : ℤ) → IsFrameOffset x → IsFrameOffset y → ltb_ℤ x y ≡ true → place x ≤ place y
unfolding ltb_ℤ
place_lt (pos _) y hx hy h = elim hx [ ]
place_lt (negsuc a) (pos _) hx hy h = elim hy [ ]
place_lt (negsuc a) (negsuc b) hx hy h = let p = ltb→lt b a h in omega arith

place_le : (x y : ℤ) → IsFrameOffset x → IsFrameOffset y → ltb_ℤ x y ≡ false → place y ≤ place x
unfolding ltb_ℤ
place_le (pos _) y hx hy h = elim hx [ ]
place_le (negsuc a) (pos _) hx hy h = elim hy [ ]
place_le (negsuc a) (negsuc b) hx hy h = ground arith

place_end :
    (x y : ℤ) (n : ℕ)
    → IsFrameOffset x
    → IsFrameOffset y
    → ltb_ℤ y (add_ℤ x n) ≡ false
    → place x + n ≤ place y
unfolding ltb_ℤ add_ℤ
place_end (pos _) y n hx hy h = elim hx [ ]
place_end (negsuc a) (pos _) n hx hy h = elim hy [ ]
place_end (negsuc a) (negsuc b) n hx hy h = ground arith

-- Every member of a list is related to every later one.
abbrev pub Pairwise {ℓ κ} : {A : Type ℓ} → (A → A → Type κ) → List A → Type κ
Pairwise R [] = Unit
Pairwise R (x ∷ xs) = All (R x) xs × Pairwise R xs

All-map {ℓ κ μ} :
    {A : Type ℓ} (P : A → Type κ) (Q : A → Type μ)
    → ((a : A) → P a → Q a)
    → (l : List A) → All P l
    → All Q l
All-map P Q f [] h = tt
All-map P Q f (x ∷ xs) h = (f x h.0, All-map P Q f xs h.1)

-- What all slots have, those that are left have.
pub All-erase_overlaps {κ} :
    (P : StackSlot → Type κ) (l : List StackSlot) → All P l → All P (erase_overlaps l)
unfolding erase_overlaps
All-erase_overlaps P [] h = tt
All-erase_overlaps P (a ∷ []) h = h
All-erase_overlaps P (a ∷ b ∷ rest) h =
    elim (runs_into a b)
      as (λ c.
        All P (elim c [ true ↦ erase_overlaps rest | false ↦ a ∷ erase_overlaps (b ∷ rest) ])) [
          | true ↦ All-erase_overlaps P rest h.1.1
          | false ↦ (h.0, All-erase_overlaps P (b ∷ rest) h.1)
        ]

pub All-insert {κ} :
    (P : StackSlot → Type κ) (s : StackSlot) (l : List StackSlot)
    → P s
    → All P l
    → All P (insert s l)
unfolding insert
All-insert P s [] hs h = (hs, tt)
All-insert P s (t ∷ ts) hs h =
    elim (before t s) as (λ c. All P (elim c [ true ↦ t ∷ insert s ts | false ↦ s ∷ t ∷ ts ])) [
      | true ↦ (h.0, All-insert P s ts hs h.1)
      | false ↦ (hs, h)
    ]

pub All-sort {κ} : (P : StackSlot → Type κ) (l : List StackSlot) → All P l → All P (sort l)
unfolding sort
All-sort P [] h = tt
All-sort P (s ∷ ss) h = All-insert P s (sort ss) h.0 (All-sort P ss h.1)

insert-Pairwise :
    (s : StackSlot) (l : List StackSlot)
    → InFrame s
    → All InFrame l
    → Pairwise Below l
    → Pairwise Below (insert s l)
unfolding insert before
insert-Pairwise s [] hs h p = (tt, tt)
insert-Pairwise s (t ∷ ts) hs h p = elim (Bool-cases (before t s)) [
  | inl e ↦
      subst (λ c. Pairwise Below (elim c [ true ↦ t ∷ insert s ts | false ↦ s ∷ t ∷ ts ])) (sym e)
        (
          All-insert (Below t) s ts (place_lt t.offset s.offset h.0.0 hs.0 e) p.0,
          insert-Pairwise s ts hs h.1 p.1,
        )
  | inr e ↦
      let le : place s.offset ≤ place t.offset = place_le t.offset s.offset h.0.0 hs.0 e in
      subst (λ c. Pairwise Below (elim c [ true ↦ t ∷ insert s ts | false ↦ s ∷ t ∷ ts ])) (sym e)
        ((le, All-map (Below t) (Below s) (λ u q. omega arith) ts p.0), p)
]

pub sort-Pairwise : (l : List StackSlot) → All InFrame l → Pairwise Below (sort l)
unfolding sort
sort-Pairwise [] h = tt
sort-Pairwise (s ∷ ss) h =
    insert-Pairwise s (sort ss) h.0 (All-sort InFrame ss h.1) (sort-Pairwise ss h.1)

pub erase_overlaps-Pairwise :
    (l : List StackSlot) → All InFrame l → Pairwise Below l → Pairwise Apart (erase_overlaps l)
unfolding erase_overlaps runs_into
erase_overlaps-Pairwise [] h p = tt
erase_overlaps-Pairwise (a ∷ []) h p = (tt, tt)
erase_overlaps-Pairwise (a ∷ b ∷ rest) h p = elim (Bool-cases (runs_into a b)) [
  | inl e ↦
      subst
        (λ c.
          Pairwise Apart
            (elim c [ true ↦ erase_overlaps rest | false ↦ a ∷ erase_overlaps (b ∷ rest) ]))
        (sym e) (erase_overlaps-Pairwise rest h.1.1 p.1.1)
  | inr e ↦
      let le : place a.offset + a.size ≤ place b.offset =
        place_end a.offset b.offset a.size h.0.0 h.1.0.0 e in
      let apart : (u : StackSlot) → Below b u → Apart a u = λ u q k x y. omega arith in
      subst
        (λ c.
          Pairwise Apart
            (elim c [ true ↦ erase_overlaps rest | false ↦ a ∷ erase_overlaps (b ∷ rest) ]))
        (sym e)
        (
          All-erase_overlaps (Apart a) (b ∷ rest)
              (λ k x y. omega arith, All-map (Below b) (Apart a) apart rest p.1.0),
          erase_overlaps-Pairwise (b ∷ rest) h.1 p.1,
        )
]

size-InFrame :
    (z off : ℤ) (align line : ℕ) (l : List StackSlot)
    → All InFrame l
    → All InFrame (push_back (slot_of_size z off align line) l)
unfolding slot_of_size ltb_ℤ add_ℤ
size-InFrame (pos zero) off align line l h = h
size-InFrame (negsuc n) off align line l h = h
size-InFrame (pos (suc n)) (pos m) align line l h =
    let e : ltb m 0 ≡ false = ground arith in
    subst
      (λ c. All InFrame (
        push_back
          (if not c
            then none
            else if ltb (m + 1024) 0
            then none
            else some (record { offset = pos m; size = suc n; align = align; line = line }))
          l))
      (sym e) h
size-InFrame (pos (suc n)) (negsuc m) align line l h = elim (Bool-cases (leb 1024 m)) [
  | inl e ↦
      subst
        (λ c. All InFrame (
          push_back
            (if ltb_ℤ (if c then negsuc (m - 1024) else pos (1024 - suc m)) (pos 0)
              then none
              else some (record { offset = negsuc m; size = suc n; align = align; line = line }))
            l))
        (sym e) h
  | inr e ↦
      let e' : ltb (1024 - suc m) 0 ≡ false = ground arith in
      subst
        (λ c. All InFrame (
          push_back
            (if ltb_ℤ (if c then negsuc (m - 1024) else pos (1024 - suc m)) (pos 0)
              then none
              else some (record { offset = negsuc m; size = suc n; align = align; line = line }))
            l))
        (sym e)
        (subst
          (λ c. All InFrame (
            push_back
              (if c
                then none
                else some (record { offset = negsuc m; size = suc n; align = align; line = line }))
              l))
          (sym e') (((ground arith), (omega arith)), h))
]

line-InFrame :
    (a : Option ℕ) (z off : ℤ) (align : ℕ) (l : List StackSlot)
    → All InFrame l
    → All InFrame (push_back (elim a [ none ↦ none | some line ↦ slot_of_size z off align line ]) l)
line-InFrame none z off align l h = h
line-InFrame (some line) z off align l h = size-InFrame z off align line l h

pub collect-InFrame : (os : List FrameObject) → All InFrame (collect os)
unfolding collect slot_of
collect-InFrame [] = tt
collect-InFrame (o ∷ os) =
    line-InFrame (line_of o.is_dead o.allocation) o.size o.offset o.align (collect os)
      (collect-InFrame os)

-- Of the frame objects, whatever they are, only slots that start in the frame are read back, none
-- of them empty, and no two share a byte.
pub read_slots-Disjoint :
    (os : List FrameObject) → All InFrame (read_slots os) × Pairwise Apart (read_slots os)
unfolding read_slots
read_slots-Disjoint os =
    let h = collect-InFrame os in
    (
      All-erase_overlaps InFrame (sort (collect os)) (All-sort InFrame (collect os) h),
      erase_overlaps-Pairwise (sort (collect os)) (All-sort InFrame (collect os) h)
          (sort-Pairwise (collect os) h),
    )
