-- ===== src/Streamer/Events.antt =====
-- The calls that the assembly parser makes of `MCStreamerWrapper`
-- (src/lifter/streamerwrapper.h, src/lifter/streamerwrapper.cpp), as steps.
use bpf_tv.Common.{ℕ, Option, List, [], ◌∷◌, String, Result, ok, err}
use bpf_tv.Mc.Inst.{McInst}
use bpf_tv.Streamer.{
  Streamer, McInstrAnalysis, McExpr, add_constant, emit_instruction, emit_value_impl, emit_label,
  emit_common_symbol, emit_bytes, emit_fill,
}

-- `ignored` stands for the calls that only log: `emitSymbolAttribute`, `emitSymbolDesc`,
-- `emitZerofill` and `emitAssignment`.
pub data Event : Type 0 where
  instruction : McInst → Event
  label : String → String → Event
  bytes : List ℕ → Event
  fill : McExpr → ℕ → Event
  value : McExpr → Event
  common_symbol : String → ℕ → ℕ → Event
  alignment : ℕ → Event
  elf_size : Event
  dwarf_loc : ℕ → Event
  ignored : Event

module _ (ia : McInstrAnalysis) (line_map : ℕ → Option ℕ) where
  unfoldable pub emit_event : Event → Streamer → Result Streamer
  unfolding emit_instruction emit_label emit_bytes emit_fill emit_value_impl emit_common_symbol
      add_constant
  emit_event (Event.instruction i) s = emit_instruction ia line_map i s
  emit_event (Event.label sec lab) s = ok (emit_label sec lab s)
  emit_event (Event.bytes bs) s = ok (emit_bytes bs s)
  emit_event (Event.fill e v) s = emit_fill e v s
  emit_event (Event.value e) s = emit_value_impl e s
  emit_event (Event.common_symbol name size align) s = ok (emit_common_symbol name size align s)
  emit_event (Event.alignment n) s = ok (record s { cur_align = n })
  emit_event Event.elf_size s = ok (add_constant s)
  emit_event (Event.dwarf_loc line) s = ok (record s { cur_debug_line = line })
  emit_event Event.ignored s = ok s

  unfoldable pub emit_all : List Event → Streamer → Result Streamer
  unfolding emit_event
  emit_all [] s = ok s
  emit_all (e ∷ es) s = elim (emit_event e s) [ ok s' ↦ emit_all es s' | err x ↦ err x ]
