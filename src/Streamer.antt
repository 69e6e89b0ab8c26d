-- ===== src/Streamer.antt =====
-- The streamer that collects blocks and constants from assembly text: `MCStreamerWrapper` and
-- `MCFunction` (src/lifter/streamerwrapper.h, src/lifter/streamerwrapper.cpp).
pub mod Events
pub mod Flow
pub mod Shape
pub mod Constants
use bpf_tv.Common.{
  ℕ, zero, suc, ◌+◌, ◌==◌, ltb, Bool, true, false, if◌then◌else◌, Option, none, some, List, [], ◌∷◌,
  ◌++◌, map, String, Result, ok, err, assertion, fault, length,
}
use Prim.Native.String.{◌++◌ as str_append}
use text.Mathlib.Text.{◌==◌ as str_eq, starts_with}
use bpf_tv.Words.{ℤ, pos, negsuc}
use bpf_tv.Mc.Opcode.{Opcode}
use bpf_tv.Mc.Inst.{McInst, mc_inst}
use bpf_tv.Mc.Block.{McBasicBlock}
use bpf_tv.Bpf.Call.{to_string}

-- What LLVM's `MCInstrAnalysis` says of an instruction.
pub record McInstrAnalysis : Type 0 where
  pub is_terminator : McInst → Bool
  pub is_branch : McInst → Bool
  pub is_conditional_branch : McInst → Bool
  pub is_unconditional_branch : McInst → Bool
  pub is_return : McInst → Bool

-- A byte of a constant, or the address of a symbol plus an offset.
pub data RoDataItem : Type 0 where
  offset_sym : String → ℤ → RoDataItem
  byte : ℕ → RoDataItem

pub record McGlobal : Type 0 where
  pub name : String
  pub align : ℕ
  pub sec : String
  pub content : List RoDataItem

-- `MCExpr`, of the kinds that LLVM has.
pub data McExpr : Type 0 where
  symbol_ref : String → McExpr
  constant : ℤ → McExpr
  unary : McExpr → McExpr
  binary : McExpr → McExpr → McExpr
  target_expr : McExpr

-- What the line of assembly before was.
pub data AsmLine : Type 0 where
  no_line label non_term_instr terminator : AsmLine

-- A pointer to the block at `place` in the vector of blocks, taken when that had `size` blocks. An
-- append may move the blocks, so that the pointer is valid only while the vector has that size.
pub record BlockRef : Type 0 where
  pub place : ℕ
  pub size : ℕ

-- `&BBs.emplace_back(..)`, for a vector that had `n` blocks.
abbrev pub appended_ref : ℕ → BlockRef
appended_ref n = record { place = n; size = suc n }

-- `mf_name`, `label_cnt`, `bbs` and `mc_globals` are the fields of `MF`.
pub record Streamer : Type 0 where
  pub bbs : List McBasicBlock
  pub cur_bb : Option BlockRef
  pub prev_line : AsmLine
  pub cur_align : ℕ
  pub cur_sym : String
  pub cur_sec : String
  pub function_ended : Bool
  pub cur_debug_line : ℕ
  pub cur_ro_data : List RoDataItem
  pub mc_globals : List McGlobal
  pub mf_name : String
  pub label_cnt : ℕ

abbrev pub replicate {ℓ} : {A : Type ℓ} → ℕ → A → List A
replicate zero x = []
replicate (suc n) x = x ∷ replicate n x

abbrev pub stack_chk_guard : McGlobal
stack_chk_guard = record {
  name = "__stack_chk_guard";
  align = 8;
  sec = ".rodata";
  content = replicate 8 (byte 55);
}

-- The state of a new streamer.
abbrev pub new_streamer : Streamer
new_streamer = record {
  bbs = [];
  cur_bb = none;
  prev_line = no_line;
  cur_align = 1;
  cur_sym = "";
  cur_sec = "";
  function_ended = false;
  cur_debug_line = 0;
  cur_ro_data = [];
  mc_globals = stack_chk_guard ∷ [];
  mf_name = "";
  label_cnt = 0;
}

abbrev pub flush : List RoDataItem → Streamer → Streamer
flush [] s = s
flush (item ∷ items) s = record s {
  mc_globals =
      s.mc_globals
      ++ record { name = s.cur_sym; align = s.cur_align; sec = s.cur_sec; content = item ∷ items }
        ∷ [];
  cur_ro_data = [];
}

-- `addConstant`
unfoldable pub add_constant : Streamer → Streamer
add_constant s = flush s.cur_ro_data s

-- Append a block and make it the current one.
unfoldable pub add_block : String → Streamer → Streamer
add_block name s = record s {
  bbs = s.bbs ++ record { name = name; instrs = []; succs = [] } ∷ [];
  cur_bb = some (appended_ref (length s.bbs));
}

-- `getLabel`
unfoldable pub get_label : Streamer → String × Streamer
unfolding to_string
get_label s =
    (str_append s.mf_name (to_string (suc s.label_cnt)), record s { label_cnt = suc s.label_cnt })

abbrev pub append_inst : McInst → McBasicBlock → McBasicBlock
append_inst i b = record b { instrs = b.instrs ++ i ∷ [] }

abbrev pub modify_at {ℓ} : {A : Type ℓ} → (A → A) → ℕ → List A → Result (List A)
modify_at f k [] = err fault
modify_at f zero (x ∷ xs) = ok (f x ∷ xs)
modify_at f (suc k) (x ∷ xs) = elim (modify_at f k xs) [ ok ys ↦ ok (x ∷ ys) | err e ↦ err e ]

-- The places of a vector of blocks to which a pointer is valid.
abbrev pub deref : BlockRef → List McBasicBlock → Result ℕ
deref p bbs = if p.size == length bbs then ok p.place else err fault

abbrev pub add_inst_at : McInst → Streamer → Result ℕ → Result Streamer
add_inst_at i s (err e) = err e
add_inst_at i s (ok k) = elim (modify_at (append_inst i) k s.bbs) [
  | ok bbs ↦ ok (record s { bbs = bbs })
  | err e ↦ err e
]

-- `curBB->addInst(i)`: a fault for a null pointer and for one that is no longer valid.
unfoldable pub add_inst : McInst → Streamer → Result Streamer
add_inst i s = elim s.cur_bb [ none ↦ err fault | some p ↦ add_inst_at i s (deref p s.bbs) ]

abbrev pub after_terminator : Streamer → Streamer
unfolding get_label add_block
after_terminator s = let l = get_label s in add_block (l.0) (l.1)

abbrev pub start_block : AsmLine → Streamer → Result Streamer
start_block no_line s = err assertion
start_block label s = ok s
start_block non_term_instr s = ok s
start_block terminator s = ok (after_terminator s)

module _ (ia : McInstrAnalysis) (line_map : ℕ → Option ℕ) where
  abbrev pub line_of_inst : McInst → AsmLine
  line_of_inst i = if ia.is_terminator i then terminator else non_term_instr

  -- `line_map` gives the source-side instruction of a debug line.
  abbrev pub located : ℕ → McInst → McInst
  located l i = record i { loc = line_map l }

  abbrev pub with_line : McInst → Result Streamer → Result Streamer
  with_line i (ok s) = ok (record s { prev_line = line_of_inst i })
  with_line i (err e) = err e

  unfoldable pub emit_instruction : McInst → Streamer → Result Streamer
  unfolding add_inst
  emit_instruction i s = elim (start_block s.prev_line s) [
    | err e ↦ err e
    | ok s' ↦ with_line i (add_inst (located s.cur_debug_line i) s')
  ]

abbrev pub push_item : RoDataItem → Streamer → Streamer
push_item x s = record s { cur_ro_data = s.cur_ro_data ++ x ∷ [] }

abbrev pub item_of : McExpr → Result RoDataItem
item_of (symbol_ref name) = ok (offset_sym name (pos 0))
item_of (binary (symbol_ref name) (constant z)) = ok (offset_sym name z)
item_of _ = err assertion

unfoldable pub emit_value_impl : McExpr → Streamer → Result Streamer
emit_value_impl e s =
    if starts_with s.cur_sec ".debug"
    then ok s
    else elim (item_of e) [ ok x ↦ ok (push_item x s) | err e ↦ err e ]

-- The sentinel that every block starts with.
abbrev pub sentinel : McInst
sentinel = mc_inst Opcode.nop [] none

abbrev pub enter_block : String → Streamer → Streamer
enter_block lab s = record s {
  bbs = s.bbs ++ record { name = lab; instrs = sentinel ∷ []; succs = [] } ∷ [];
  cur_bb = some (appended_ref (length s.bbs));
  prev_line = label;
}

abbrev pub in_section : String → String → Streamer → Streamer
in_section sec lab s = record s {
  cur_sym = lab;
  cur_sec = sec;
  function_ended = if str_eq lab ".Lfunc_end0" then true else s.function_ended;
}

abbrev pub unless_ended : String → Streamer → Streamer
unless_ended lab s = if s.function_ended then s else enter_block lab s

-- `sec` is the section that the label is in.
unfoldable pub emit_label : String → String → Streamer → Streamer
unfolding add_constant
emit_label sec lab s =
    if starts_with sec ".debug"
    then record s { cur_sec = sec }
    else unless_ended lab (in_section sec lab (add_constant s))

unfoldable pub emit_common_symbol : String → ℕ → ℕ → Streamer → Streamer
emit_common_symbol name size align s = record s {
  mc_globals =
      s.mc_globals
      ++ record { name = name; align = align; sec = "common"; content = replicate size (byte 48) }
        ∷ [];
}

unfoldable pub emit_bytes : List ℕ → Streamer → Streamer
emit_bytes bytes s = record s { cur_ro_data = s.cur_ro_data ++ map byte bytes }

abbrev pub count_of : ℤ → ℕ
count_of (pos n) = n
count_of (negsuc n) = 0

unfoldable pub emit_fill : McExpr → ℕ → Streamer → Result Streamer
emit_fill (constant z) value s =
    if ltb value 256
    then ok (record s { cur_ro_data = s.cur_ro_data ++ replicate (count_of z) (byte value) })
    else err assertion
emit_fill e value s = ok s
