-- ===== src/Backend.antt =====
-- The frame layout that is read back after code generation: the end of `runBackend`
-- (src/lifter/run_backend.cpp).
pub mod Disjoint
pub mod Complete
use bpf_tv.Common.{
  ℕ, zero, suc, ◌+◌, ◌-◌, ◌≤◌, ltb, leb, Bool, true, false, ◌&&◌, not, if◌then◌else◌, Option, none,
  some, List, [], ◌∷◌,
}
use bpf_tv.Words.{ℤ, pos, negsuc, ltb_ℤ, add_ℤ}

-- `StackSlot`; `line` is the debug line of the alloca.
pub record StackSlot : Type 0 where
  pub offset : ℤ
  pub size : ℕ
  pub align : ℕ
  pub line : ℕ

-- What `MachineFrameInfo` says of one frame object. `allocation` is the alloca it comes from, if
-- any, with its debug line, if any.
pub record FrameObject : Type 0 where
  pub is_dead : Bool
  pub allocation : Option (Option ℕ)
  pub size : ℤ
  pub offset : ℤ
  pub align : ℕ

abbrev pub stack_frame_top_offset : ℕ
stack_frame_top_offset = 1024

-- The slot of an object whose alloca has a line, unless a size or offset is out of range.
unfoldable pub slot_of_size : ℤ → ℤ → ℕ → ℕ → Option StackSlot
unfolding add_ℤ ltb_ℤ
slot_of_size (pos zero) off align line = none
slot_of_size (negsuc n) off align line = none
slot_of_size (pos (suc n)) off align line =
    if not (ltb_ℤ off (pos 0))
    then none
    else if ltb_ℤ (add_ℤ off stack_frame_top_offset) (pos 0)
    then none
    else some (record { offset = off; size = suc n; align = align; line = line })

-- The debug line of the alloca of an object that is not dead, if it has both.
abbrev pub line_of : Bool → Option (Option ℕ) → Option ℕ
line_of true a = none
line_of false none = none
line_of false (some line) = line

unfoldable pub slot_of : FrameObject → Option StackSlot
unfolding slot_of_size
slot_of o = elim (line_of o.is_dead o.allocation) [
  | none ↦ none
  | some line ↦ slot_of_size o.size o.offset o.align line
]

abbrev pub push_back : Option StackSlot → List StackSlot → List StackSlot
push_back none slots = slots
push_back (some s) slots = s ∷ slots

-- The objects of all functions, in order.
unfoldable pub collect : List FrameObject → List StackSlot
unfolding slot_of
collect [] = []
collect (o ∷ os) = push_back (slot_of o) (collect os)

-- The order that the slots are sorted by, and a sort by it.
unfoldable pub before : StackSlot → StackSlot → Bool
before a b = ltb_ℤ a.offset b.offset

unfoldable pub insert : StackSlot → List StackSlot → List StackSlot
unfolding before
insert s [] = s ∷ []
insert s (t ∷ ts) = elim (before t s) [ true ↦ t ∷ insert s ts | false ↦ s ∷ t ∷ ts ]

unfoldable pub sort : List StackSlot → List StackSlot
unfolding insert
sort [] = []
sort (s ∷ ss) = insert s (sort ss)

-- Whether a slot runs into the one after it.
unfoldable pub runs_into : StackSlot → StackSlot → Bool
unfolding add_ℤ
runs_into a b = ltb_ℤ b.offset (add_ℤ a.offset a.size)

-- The loop that erases a slot and the next one when the first runs into the second.
unfoldable pub erase_overlaps : List StackSlot → List StackSlot
unfolding runs_into
erase_overlaps [] = []
erase_overlaps (a ∷ []) = a ∷ []
erase_overlaps (a ∷ b ∷ rest) = elim (runs_into a b) [
  | true ↦ erase_overlaps rest
  | false ↦ a ∷ erase_overlaps (b ∷ rest)
]

unfoldable pub read_slots : List FrameObject → List StackSlot
unfolding collect sort erase_overlaps
read_slots os = erase_overlaps (sort (collect os))
