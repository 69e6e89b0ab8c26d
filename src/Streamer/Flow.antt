-- ===== src/Streamer/Flow.antt =====
-- The control flow between the collected blocks: `removeEmptyBlocks`, `checkEntryBlock`,
-- `findTargetLabel` and `generateSuccessors` (src/lifter/streamerwrapper.h,
-- src/lifter/streamerwrapper.cpp).
pub mod Linked
pub mod Finish
use bpf_tv.Common.{
  ℕ, suc, ltb, ◌==◌, ◌&&◌, Bool, true, false, if◌then◌else◌, Option, none, some, List, [], ◌∷◌,
  String, Result, ok, err, assertion, fault, length, get_elem?, last?,
}
use text.Mathlib.Text.{◌==◌ as str_eq}
use bpf_tv.Words.{pos}
use bpf_tv.Mc.Opcode.{Opcode, Jump}
use bpf_tv.Mc.Inst.{McInst, mc_inst, Operand, reg, imm, expr}
use bpf_tv.Mc.Block.{McBasicBlock}
use bpf_tv.Streamer.{McInstrAnalysis}

abbrev pub keep : List McInst → McBasicBlock → List McBasicBlock → List McBasicBlock
keep [] b bs = bs
keep (i ∷ is) b bs = b ∷ bs

unfoldable pub remove_empty_blocks : List McBasicBlock → List McBasicBlock
remove_empty_blocks [] = []
remove_empty_blocks (b ∷ bs) = keep b.instrs b (remove_empty_blocks bs)

-- The jump that an added entry block consists of.
abbrev pub entry_jump : McInst
entry_jump = mc_inst (Opcode.jump Jump.jmp) (imm (pos 1) ∷ []) none

abbrev pub entry_block : McBasicBlock
entry_block = record { name = "bpf-tv#entry"; instrs = entry_jump ∷ []; succs = [] }

unfoldable pub check_entry_block : List McBasicBlock → List McBasicBlock
check_entry_block bbs = entry_block ∷ bbs

-- The place of the first block of a name, counted from `k`.
unfoldable pub find_block_by_name : List McBasicBlock → ℕ → String → Option ℕ
find_block_by_name [] k name = none
find_block_by_name (b ∷ bs) k name =
    if str_eq b.name name then some k else find_block_by_name bs (suc k) name

unfoldable pub find_target_label : List Operand → Result String
find_target_label [] = err assertion
find_target_label (expr name ∷ ops) = ok name
find_target_label (reg x ∷ ops) = find_target_label ops
find_target_label (imm z ∷ ops) = find_target_label ops

abbrev pub starts_with_imm : List Operand → Bool
starts_with_imm (imm z ∷ ops) = true
starts_with_imm _ = false

-- Insertion in a set that keeps its order.
unfoldable pub add_succ : List ℕ → ℕ → List ℕ
add_succ [] k = k ∷ []
add_succ (j ∷ js) k = if j == k then j ∷ js else j ∷ add_succ js k

unfoldable pub add_next : Option ℕ → List ℕ → List ℕ
unfolding add_succ
add_next none ks = ks
add_next (some k) ks = add_succ ks k

abbrev pub found : Option ℕ → List ℕ
found none = []
found (some k) = k ∷ []

abbrev pub next_block : ℕ → ℕ → Option ℕ
next_block count i = if ltb (suc i) count then some (suc i) else none

module _ (ia : McInstrAnalysis) (bbs : List McBasicBlock) where
  -- The target must be a block.
  unfoldable pub branch_targets : Option ℕ → Result String → Result (List ℕ)
  unfolding find_block_by_name add_next
  branch_targets next (err e) = err e
  branch_targets next (ok name) = elim (find_block_by_name bbs 0 name) [
    | none ↦ err assertion
    | some k ↦ ok (add_next next (k ∷ []))
  ]

  -- The target of a tail call is no block.
  unfoldable pub jump_target : Result String → Result (List ℕ)
  unfolding find_block_by_name
  jump_target (err e) = err e
  jump_target (ok name) = ok (found (find_block_by_name bbs 0 name))

  -- A null successor, which is only read later, is a fault here.
  abbrev pub only_next : Option ℕ → Result (List ℕ)
  only_next none = err fault
  only_next (some k) = ok (k ∷ [])

  -- The successors of a block with this last instruction, but for the entry block.
  unfoldable pub usual_successors : Option ℕ → McInst → Result (List ℕ)
  unfolding find_target_label branch_targets jump_target
  usual_successors next last =
      if ia.is_conditional_branch last
      then branch_targets next (find_target_label last.operands)
      else if ia.is_unconditional_branch last
      then jump_target (find_target_label last.operands)
      else if ia.is_return last
      then ok []
      else ok (found next)

  -- The places of the successors of the block at `i` whose last instruction is `last`.
  unfoldable pub successors_of_last : ℕ → McInst → Result (List ℕ)
  unfolding usual_successors
  successors_of_last i last =
      let next = next_block (length bbs) i in
      if (i == 0) && (ia.is_unconditional_branch last && starts_with_imm last.operands)
      then only_next next
      else usual_successors next last

  unfoldable pub successors : ℕ → McBasicBlock → Result (List ℕ)
  unfolding successors_of_last
  successors i b = elim (last? b.instrs) [ none ↦ ok [] | some last ↦ successors_of_last i last ]

  abbrev pub names_of : List ℕ → List String
  names_of [] = []
  names_of (k ∷ ks) = elim (get_elem? bbs k) [ none ↦ names_of ks | some b ↦ b.name ∷ names_of ks ]

  -- Fill in the successors of the blocks from place `i` on.
  unfoldable pub generate_from : ℕ → List McBasicBlock → Result (List McBasicBlock)
  unfolding successors
  generate_from i [] = ok []
  generate_from i (b ∷ bs) = elim (successors i b) [
    | err e ↦ err e
    | ok ks ↦ elim (generate_from (suc i) bs) [
      | err e ↦ err e
      | ok rest ↦ ok (record b { succs = names_of ks } ∷ rest)
    ]
  ]

unfoldable pub generate_successors :
    McInstrAnalysis → List McBasicBlock → Result (List McBasicBlock)
unfolding generate_from
generate_successors ia bbs = generate_from ia bbs 0 bbs

-- From the collected blocks to those that are lifted, as `run` and `runBytes` do.
unfoldable pub finish_blocks : McInstrAnalysis → List McBasicBlock → Result (List McBasicBlock)
unfolding generate_successors check_entry_block remove_empty_blocks
finish_blocks ia bbs = generate_successors ia (check_entry_block (remove_empty_blocks bbs))
