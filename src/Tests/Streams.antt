-- ===== src/Tests/Streams.antt =====
-- The theorems on the streamer, on control flow and on machine code as bytes, applied.
use bpf_tv.Common.{
  map, ◌++◌, ◌==◌, if◌then◌else◌, ℕ, Bool, true, false, Option, none, some, List, [], ◌∷◌, ok, err,
  assertion, ◌⊎◌, inl, inr, All, ◌≡◌, refl, subst,
}
use mathlib.Core.Option.{some-injective}
use bpf_tv.Words.{pos, add_ℤ, signed, to_word}
use bpf_tv.Mc.Opcode.{Opcode, Jump, Move}
use bpf_tv.Mc.Inst.{McInst, mc_inst, r, reg, imm, expr}
use bpf_tv.Mc.Block.{McBasicBlock}
use bpf_tv.Lifter.State.{Lifter}
use bpf_tv.Bpf.Call.{to_string}
use bpf_tv.Bpf.Setup.Targets.{HasCreatedTargets, generate_successors-HasTargets}
use bpf_tv.Streamer.{Streamer, byte, offset_sym, McInstrAnalysis, McExpr, item_of, new_streamer}
use bpf_tv.Streamer.Constants.{Datum, directive, contents, AddsGlobal, flush-AddsGlobal}
use bpf_tv.Bytes.Run.{Runs, run_bytes-Runs}
use bpf_tv.Bytes.Blocks.Sext.{HasNoExpr}
use bpf_tv.Streamer.Events.{Event, emit_all}
use bpf_tv.Streamer.Shape.{Safe}
use bpf_tv.Streamer.Shape.Collected.{AnyRefused, Holds, listing, emit_all-Safe, emit_all-Returns}
use bpf_tv.Streamer.Flow.{
  find_block_by_name, find_target_label, remove_empty_blocks, generate_successors, generate_from,
  successors, successors_of_last, usual_successors, branch_targets, jump_target, add_next, add_succ,
}
use bpf_tv.Streamer.Flow.Linked.{Linked, IsLinked}
use bpf_tv.Streamer.Flow.Finish.{Finished, finish_blocks-Finished}
use bpf_tv.Bytes.{
  run_bytes, Disassembler, DecodedInsn, decode, blocks_of, sign_extend_all, sign_extend, sext,
  then_sext, sext_other, leaders, leaders_of, branch_target_unit, rewrite_branches, rewrite_branch,
  rewrite_target, label_name, place_all, place_insn, add_to_last,
}
use bpf_tv.Bytes.Decode.{Agrees, decode-Agrees}
use bpf_tv.Bytes.Blocks.Linking.{LinkedBytes, SameBranches, blocks_of-LinkedBytes}
use bpf_tv.Tests.{start}

abbrev jumps : Jump → Bool
jumps Jump.jmp = true
jumps Jump.jmpl = true
jumps _ = false

abbrev branches : Opcode → Bool
branches (Opcode.jump j) = true
branches _ = false

abbrev conditional : Opcode → Bool
conditional (Opcode.jump Jump.jmp) = false
conditional (Opcode.jump Jump.jmpl) = false
conditional (Opcode.jump j) = true
conditional _ = false

abbrev unconditional : Opcode → Bool
unconditional (Opcode.jump j) = jumps j
unconditional _ = false

abbrev returns : Opcode → Bool
returns Opcode.ret = true
returns _ = false

abbrev ends : Opcode → Bool
ends (Opcode.jump j) = true
ends Opcode.ret = true
ends _ = false

abbrev analysis : McInstrAnalysis
analysis = record {
  is_terminator = λ i. ends i.opcode;
  is_branch = λ i. branches i.opcode;
  is_conditional_branch = λ i. conditional i.opcode;
  is_unconditional_branch = λ i. unconditional i.opcode;
  is_return = λ i. returns i.opcode;
}

abbrev lines : ℕ → Option ℕ
lines l = some l

abbrev move : McInst
move = mc_inst (Opcode.move Move.mov_ri) (reg (r 0) ∷ imm (pos 1) ∷ []) none

abbrev exit : McInst
exit = mc_inst Opcode.ret [] none

abbrev offset_value : McExpr
offset_value = McExpr.binary (McExpr.symbol_ref "y") (McExpr.constant (pos 4))

neither : {A B : Type 0} → (A → ⊥) → (B → ⊥) → A ⊎ B → ⊥
neither f g (inl a) = f a
neither f g (inr b) = g b

abbrev text : List Event
text =
    Event.dwarf_loc 3
    ∷ Event.instruction move
    ∷ Event.instruction exit
    ∷ Event.instruction exit
    ∷ Event.label ".text" ".Lfunc_end0"
    ∷ Event.label ".rodata" "x"
    ∷ Event.value offset_value
    ∷ Event.elf_size
    ∷ []

not_refused : AnyRefused text → ⊥
not_refused =
    neither (λ x. x)
      (neither (λ x. x)
        (neither (λ x. x)
          (neither (λ x. x)
            (neither (λ x. x)
              (neither (λ x. x)
                (neither (λ (e : item_of offset_value ≡ err assertion). cc)
                  (neither (λ x. x) (λ x. x))))))))

emit_all-Safe_example :
    Safe Unit
      (Holds analysis lines (listing analysis lines 0 text))
      (emit_all analysis lines text new_streamer)
emit_all-Safe_example = emit_all-Safe analysis lines refl (λ i l. refl) text

emit_all-Returns_example :
    Safe ⊥
      (Holds analysis lines (listing analysis lines 0 text))
      (emit_all analysis lines (Event.label ".text" "f" ∷ text) new_streamer)
emit_all-Returns_example =
    emit_all-Returns analysis lines refl (λ i l. refl) ".text" "f" text refl refl not_refused

abbrev to_b : McInst
to_b = mc_inst (Opcode.jump Jump.jeq_ri) (reg (r 1) ∷ imm (pos 7) ∷ expr "c" ∷ []) none

abbrev blocks : List McBasicBlock
blocks =
    record { name = "a"; instrs = move ∷ to_b ∷ []; succs = [] }
    ∷ record { name = "b"; instrs = exit ∷ []; succs = [] }
    ∷ record { name = "c"; instrs = exit ∷ []; succs = [] }
    ∷ []

to_b-Linked : Linked analysis blocks to_b
unfolding find_target_label find_block_by_name
to_b-Linked = record {
  target = "c";
  place = 3;
  is_other = refl;
  branch_label = λ e. refl;
  branch_block = λ e. refl;
  jump_label = λ e. absurd cc;
}

exit-Linked : Linked analysis blocks exit
exit-Linked = record {
  target = "c";
  place = 0;
  is_other = refl;
  branch_label = λ e. absurd cc;
  branch_block = λ e. absurd cc;
  jump_label = λ e. absurd cc;
}

blocks-IsLinked : All (IsLinked analysis blocks) blocks
blocks-IsLinked = (
  (refl, λ i e. subst (Linked analysis blocks) (some-injective to_b i e) to_b-Linked),
  (
    (refl, λ i e. subst (Linked analysis blocks) (some-injective exit i e) exit-Linked),
    ((refl, λ i e. subst (Linked analysis blocks) (some-injective exit i e) exit-Linked), tt),
  ),
)

blocks_kept : remove_empty_blocks blocks ≡ blocks
unfolding remove_empty_blocks
blocks_kept = refl

finish_blocks-Finished_example : Finished analysis blocks "a"
finish_blocks-Finished_example =
    finish_blocks-Finished analysis blocks
      (record { name = "a"; instrs = move ∷ to_b ∷ []; succs = [] })
      (record { name = "b"; instrs = exit ∷ []; succs = [] }
        ∷ record { name = "c"; instrs = exit ∷ []; succs = [] }
        ∷ [])
      refl blocks_kept blocks-IsLinked

abbrev completed : List McBasicBlock
completed =
    record { name = "a"; instrs = move ∷ to_b ∷ []; succs = "c" ∷ "b" ∷ [] }
    ∷ record { name = "b"; instrs = exit ∷ []; succs = [] }
    ∷ record { name = "c"; instrs = exit ∷ []; succs = [] }
    ∷ []

blocks_completed : generate_successors analysis blocks ≡ ok completed
unfolding generate_successors generate_from successors successors_of_last usual_successors
    branch_targets jump_target add_next add_succ find_target_label find_block_by_name
blocks_completed = refl

finds :
    (find_target_label to_b.operands ≡ ok "c")
    × ((find_block_by_name blocks 0 "c" ≡ some 2) × (find_block_by_name blocks 0 "b" ≡ some 1))
unfolding find_target_label find_block_by_name
finds = (refl, (refl, refl))

abbrev no_blocks : Lifter
no_blocks = record start { count = 0 }

generate_successors-HasTargets_example : HasCreatedTargets completed no_blocks 0 "c" 2 1
generate_successors-HasTargets_example =
    generate_successors-HasTargets analysis blocks completed 0 2
      (record { name = "a"; instrs = move ∷ to_b ∷ []; succs = [] })
      (record { name = "b"; instrs = exit ∷ []; succs = [] }) to_b "c" no_blocks blocks_completed
      refl refl refl refl finds.0 finds.1.0 refl finds.1.1 refl

-- A call in which the source register is 0, a jump over it and an exit.
abbrev decoder : List ℕ → ℕ → Option (McInst × ℕ)
decoder [] off = none
decoder (b ∷ rest) off =
    if b == 5
    then some
        (mc_inst (Opcode.jump Jump.jeq_ri) (reg (r 1) ∷ imm (pos 7) ∷ imm (pos 1) ∷ []) none, 8)
    else if b == 133
    then some (mc_inst Opcode.jal (imm (pos 1) ∷ []) none, 8)
    else if b == 149
    then some (exit, 8)
    else none

abbrev disassembler : Disassembler
disassembler = record {
  get_instruction = decoder;
  is_branch = branches;
  is_call = λ o. false;
  is_return = returns;
}

abbrev program : List ℕ
program =
    5 ∷ 0 ∷ 1 ∷ 0 ∷ 0 ∷ 0 ∷ 0 ∷ 0 ∷ 133 ∷ 0 ∷ 0 ∷ 0 ∷ 1 ∷ 0 ∷ 0 ∷ 0 ∷ 149 ∷ 0 ∷ 0 ∷ 0 ∷ 0 ∷ 0 ∷ 0
    ∷ 0 ∷ []

decode-Agrees_example : Agrees disassembler 0 program (decode disassembler 24 0 program)
decode-Agrees_example = decode-Agrees disassembler program

abbrev decoded : List DecodedInsn
decoded =
    record {
      inst = mc_inst (Opcode.jump Jump.jeq_ri) (reg (r 1) ∷ imm (pos 7) ∷ imm (pos 1) ∷ []) none;
      unit = 0;
      units = 1;
    }
    ∷ record { inst = mc_inst Opcode.jal (imm (pos 1) ∷ []) none; unit = 1; units = 1 }
    ∷ record { inst = exit; unit = 2; units = 1 }
    ∷ []

abbrev built : List McBasicBlock
built =
    record {
      name = "L0";
      instrs =
          mc_inst (Opcode.jump Jump.jeq_ri) (reg (r 1) ∷ imm (pos 7) ∷ expr "L2" ∷ []) none ∷ [];
      succs = [];
    }
    ∷ record { name = "L1"; instrs = mc_inst Opcode.jal (imm (pos 1) ∷ []) none ∷ []; succs = [] }
    ∷ record { name = "L2"; instrs = exit ∷ []; succs = [] }
    ∷ []

blocks_built : blocks_of disassembler decoded ≡ ok built
unfolding blocks_of sign_extend_all sign_extend sext then_sext sext_other leaders leaders_of
    branch_target_unit add_ℤ signed to_word rewrite_branches rewrite_branch rewrite_target
    label_name to_string place_all place_insn add_to_last
blocks_built = refl

conditional-branches : (o : Opcode) → conditional o ≡ true → branches o ≡ true
conditional-branches Opcode.nop e = absurd cc
conditional-branches Opcode.jal e = absurd cc
conditional-branches Opcode.ret e = absurd cc
conditional-branches Opcode.cmpxchgd e = absurd cc
conditional-branches Opcode.cmpxchgw32 e = absurd cc
conditional-branches Opcode.unsupported e = absurd cc
conditional-branches (Opcode.alu64 a) e = absurd cc
conditional-branches (Opcode.alu32 a) e = absurd cc
conditional-branches (Opcode.move a) e = absurd cc
conditional-branches (Opcode.endian a) e = absurd cc
conditional-branches (Opcode.memory a) e = absurd cc
conditional-branches (Opcode.jump j) e = refl
conditional-branches (Opcode.atomic a) e = absurd cc

unconditional-branches : (o : Opcode) → unconditional o ≡ true → branches o ≡ true
unconditional-branches Opcode.nop e = absurd cc
unconditional-branches Opcode.jal e = absurd cc
unconditional-branches Opcode.ret e = absurd cc
unconditional-branches Opcode.cmpxchgd e = absurd cc
unconditional-branches Opcode.cmpxchgw32 e = absurd cc
unconditional-branches Opcode.unsupported e = absurd cc
unconditional-branches (Opcode.alu64 a) e = absurd cc
unconditional-branches (Opcode.alu32 a) e = absurd cc
unconditional-branches (Opcode.move a) e = absurd cc
unconditional-branches (Opcode.endian a) e = absurd cc
unconditional-branches (Opcode.memory a) e = absurd cc
unconditional-branches (Opcode.jump j) e = refl
unconditional-branches (Opcode.atomic a) e = absurd cc

same_branches : SameBranches disassembler analysis
same_branches = record {
  conditional = λ i e. conditional-branches i.opcode e;
  unconditional = λ i e. unconditional-branches i.opcode e;
  entry = refl;
}

blocks_of-LinkedBytes_example : LinkedBytes disassembler analysis same_branches decoded built
blocks_of-LinkedBytes_example =
    blocks_of-LinkedBytes disassembler analysis same_branches decoded built
      ((tt, (tt, (tt, tt))), ((tt, tt), (tt, tt))) blocks_built

abbrev table : List Datum
table = Datum.ascii (104 ∷ 105 ∷ []) ∷ Datum.repeated 2 0 ∷ Datum.address_plus "y" (pos 4) ∷ []

abbrev after_function : Streamer
after_function = record new_streamer { function_ended = true }

flush-AddsGlobal_example :
    AddsGlobal analysis lines after_function
      (Event.alignment 8 ∷ Event.label ".rodata" "x" ∷ map directive table ++ Event.elf_size ∷ [])
      (record { name = "x"; align = 8; sec = ".rodata"; content = contents table })
flush-AddsGlobal_example =
    flush-AddsGlobal analysis lines after_function 8 ".rodata" "x" table (byte 104)
      (byte 105 ∷ byte 0 ∷ byte 0 ∷ offset_sym "y" (pos 4) ∷ []) refl refl refl
      (tt, (refl, (tt, tt))) refl

abbrev jump_back : McInst
jump_back = mc_inst (Opcode.jump Jump.jeq_ri) (reg (r 1) ∷ imm (pos 7) ∷ imm (pos 65535) ∷ []) none

abbrev NoSymbols : Option (McInst × ℕ) → Type 0
NoSymbols none = Unit
NoSymbols (some p) = HasNoExpr (p.0)

if-NoSymbols :
    (b : Bool) (x y : Option (McInst × ℕ))
    → NoSymbols x
    → NoSymbols y
    → NoSymbols (if b then x else y)
if-NoSymbols true x y hx hy = hx
if-NoSymbols false x y hx hy = hy

decoder-NoSymbols : (bs : List ℕ) (off : ℕ) → NoSymbols (decoder bs off)
decoder-NoSymbols [] off = tt
decoder-NoSymbols (b ∷ rest) off =
    if-NoSymbols (b == 5) _ _ (tt, (tt, (tt, tt)))
      (if-NoSymbols (b == 133) _ _ (tt, tt) (if-NoSymbols (b == 149) (some (exit, 8)) none tt tt))

decoder-HasNoExpr :
    (bs : List ℕ) (off : ℕ) (i : McInst) (size : ℕ) → decoder bs off ≡ some (i, size) → HasNoExpr i
decoder-HasNoExpr bs off i size e = subst NoSymbols e (decoder-NoSymbols bs off)

run_bytes-Runs_example :
    Runs disassembler analysis same_branches decoder-HasNoExpr program
      (run_bytes disassembler analysis program)
run_bytes-Runs_example =
    run_bytes-Runs disassembler analysis same_branches decoder-HasNoExpr program
