-- ===== src/Streamer/Shape.antt =====
-- The blocks that the streamer collects (src/lifter/streamerwrapper.cpp): what they look like, and
-- that they hold the instructions of the assembly text.
pub mod Instruction
pub mod Label
pub mod Collected
use bpf_tv.Common.{
  ℕ, suc, Bool, true, false, Bool-cases, inl, inr, if◌then◌else◌, Option, none, some, List, [], ◌∷◌,
  ◌++◌, String, Result, ok, err, assertion, length, All, All-append, ◌≡◌, refl, ap, sym, subst, ◌∙◌,
  append_assoc, append-nil, ◌⊎◌, Error,
}
use text.Mathlib.Text.{◌==◌ as str_eq, starts_with}
use bpf_tv.Mc.Opcode.{Opcode}
use bpf_tv.Mc.Inst.{McInst}
use bpf_tv.Mc.Block.{McBasicBlock}
use bpf_tv.Streamer.{
  Streamer, McInstrAnalysis, AsmLine, no_line, label, non_term_instr, terminator, new_streamer,
  append_inst, appended_ref, modify_at, add_inst, add_block, get_label, start_block,
  after_terminator, emit_instruction, line_of_inst, sentinel, located, with_line, add_constant,
  emit_label, enter_block, unless_ended, in_section, emit_value_impl, item_of, McExpr, push_item,
  emit_fill, emit_bytes, emit_common_symbol,
}
use bpf_tv.Streamer.Events.{Event, emit_event, emit_all}

-- The instructions of a list of blocks, and an instruction list without NOPs.
abbrev pub code : List McBasicBlock → List McInst
code [] = []
code (b ∷ bs) = b.instrs ++ code bs

abbrev pub unless_nop : Opcode → McInst → List McInst
unless_nop Opcode.nop i = []
unless_nop _ i = i ∷ []

abbrev pub without_nops : List McInst → List McInst
without_nops [] = []
without_nops (i ∷ is) = unless_nop i.opcode i ++ without_nops is

pub without_nops-append :
    (xs ys : List McInst) → without_nops (xs ++ ys) ≡ without_nops xs ++ without_nops ys
without_nops-append [] ys = refl
without_nops-append (x ∷ xs) ys =
    ap (λ l. unless_nop x.opcode x ++ l) (without_nops-append xs ys)
    ∙ sym (append_assoc (unless_nop x.opcode x) (without_nops xs) (without_nops ys))

pub code-append : (xs ys : List McBasicBlock) → code (xs ++ ys) ≡ code xs ++ code ys
code-append [] ys = refl
code-append (b ∷ bs) ys =
    ap (λ l. b.instrs ++ l) (code-append bs ys) ∙ sym (append_assoc b.instrs (code bs) (code ys))

-- Code that returns has a state with `P`, and code that stops fails an assertion, for the reason `E`.
abbrev pub Safe : Type 0 → (Streamer → Type 0) → Result Streamer → Type 0
Safe E P (ok s) = P s
Safe E P (err e) = (e ≡ assertion) × E

pub Safe-bind :
    (E : Type 0) (P : Streamer → Type 0) (E' : Type 0) (Q : Streamer → Type 0)
    (f : Streamer → Result Streamer) (r : Result Streamer)
    → (E → E')
    → ((s : Streamer) → P s → Safe E' Q (f s))
    → Safe E P r
    → Safe E' Q (elim r [ ok s ↦ f s | err x ↦ err x ])
Safe-bind E P E' Q f (ok s) w k h = k s h
Safe-bind E P E' Q f (err e) w k h = (h.0, w h.1)

pub Safe-weaken :
    (E E' : Type 0) (P : Streamer → Type 0) (r : Result Streamer)
    → (E → E')
    → Safe E P r
    → Safe E' P r
Safe-weaken E E' P (ok s) w h = h
Safe-weaken E E' P (err e) w h = (h.0, w h.1)

pub snoc-ne_nil {ℓ} : {A : Type ℓ} (xs : List A) (x : A) → xs ++ x ∷ [] ≡ [] → ⊥
snoc-ne_nil [] x e = cc
snoc-ne_nil (y ∷ ys) x e = cc

module _ (ia : McInstrAnalysis) where
  -- Not empty, and no terminator but at the end.
  abbrev pub EndsOnce : List McInst → Type 0
  EndsOnce [] = ⊥
  EndsOnce (i ∷ []) = Unit
  EndsOnce (i ∷ j ∷ is) = (ia.is_terminator i ≡ false) × EndsOnce (j ∷ is)

  abbrev pub Shaped : McBasicBlock → Type 0
  Shaped b = EndsOnce b.instrs

  -- Not empty, and no terminator.
  abbrev pub IsOpen : List McInst → Type 0
  IsOpen [] = ⊥
  IsOpen (i ∷ []) = ia.is_terminator i ≡ false
  IsOpen (i ∷ j ∷ is) = (ia.is_terminator i ≡ false) × IsOpen (j ∷ is)

  pub IsOpen-EndsOnce : (is : List McInst) → IsOpen is → EndsOnce is
  IsOpen-EndsOnce [] h = h
  IsOpen-EndsOnce (i ∷ []) h = tt
  IsOpen-EndsOnce (i ∷ j ∷ is) h = (h.0, IsOpen-EndsOnce (j ∷ is) h.1)

  pub IsOpen-snoc :
      (is : List McInst) (x : McInst)
      → IsOpen is
      → ia.is_terminator x ≡ false
      → IsOpen (is ++ x ∷ [])
  IsOpen-snoc [] x h e = elim h [ ]
  IsOpen-snoc (i ∷ []) x h e = (h, e)
  IsOpen-snoc (i ∷ j ∷ is) x h e = (h.0, IsOpen-snoc (j ∷ is) x h.1 e)

  pub EndsOnce-snoc : (is : List McInst) (x : McInst) → IsOpen is → EndsOnce (is ++ x ∷ [])
  EndsOnce-snoc [] x h = elim h [ ]
  EndsOnce-snoc (i ∷ []) x h = (h, tt)
  EndsOnce-snoc (i ∷ j ∷ is) x h = (h.0, EndsOnce-snoc (j ∷ is) x h.1)

  -- What the current block looks like after a line.
  abbrev pub After : AsmLine → List McInst → Type 0
  After no_line is = ⊥
  After label is = IsOpen is
  After non_term_instr is = IsOpen is
  After terminator is = EndsOnce is

  pub After-EndsOnce : (l : AsmLine) (is : List McInst) → After l is → EndsOnce is
  After-EndsOnce no_line is h = elim h [ ]
  After-EndsOnce label is h = IsOpen-EndsOnce is h
  After-EndsOnce non_term_instr is h = IsOpen-EndsOnce is h
  After-EndsOnce terminator is h = h

  -- The current block is the last one, all blocks are shaped, and they hold `seen`.
  pub record Current (seen : List McInst) (s : Streamer) : Type 0 where
    pub init : List McBasicBlock
    pub cur : McBasicBlock
    pub bbs_eq : s.bbs ≡ init ++ cur ∷ []
    pub cur_eq : s.cur_bb ≡ some (appended_ref (length init))
    pub finished : All Shaped init
    pub line : AsmLine
    pub line_eq : s.prev_line ≡ line
    pub ends : After line cur.instrs
    pub holds : without_nops (code s.bbs) ≡ seen

  -- Before the first label.
  pub record Idle (seen : List McInst) (s : Streamer) : Type 0 where
    pub no_blocks : s.bbs ≡ []
    pub line_eq : s.prev_line ≡ no_line
    pub nothing : seen ≡ []

  abbrev pub IsSound : List McInst → Streamer → Type 0
  IsSound seen s = Idle seen s ⊎ Current seen s

  -- The state is sound, holds `seen`, is at debug line `l`, and no block is removed.
  abbrev pub Steps : Streamer → ℕ → List McInst → Streamer → Type 0
  Steps s l seen s' = IsSound seen s' × ((s'.bbs ≡ [] → s.bbs ≡ []) × (s'.cur_debug_line ≡ l))
