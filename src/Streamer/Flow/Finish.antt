-- ===== src/Streamer/Flow/Finish.antt =====
-- What is lifted of the blocks that the streamer has collected (`removeEmptyBlocks`,
-- `checkEntryBlock`, `generateSuccessors`, src/lifter/streamerwrapper.h,
-- src/lifter/streamerwrapper.cpp).
use bpf_tv.Common.{
  suc, ltb, true, List, [], ◌∷◌, ◌++◌, String, ok, arith, length, All, ◌≡◌, refl, ap, sym, ◌∙◌,
}
use bpf_tv.Mc.Inst.{McInst}
use bpf_tv.Mc.Block.{McBasicBlock}
use bpf_tv.Streamer.{McInstrAnalysis}
use bpf_tv.Streamer.Shape.{code}
use bpf_tv.Streamer.Flow.{
  keep, remove_empty_blocks, entry_block, entry_jump, check_entry_block, successors_of_last,
  successors, generate_from, generate_successors, finish_blocks,
}
use bpf_tv.Streamer.Flow.Linked.{IsOther, IsLinked, generate_cons, complete}

code-keep :
    (is : List McInst) (b : McBasicBlock) (kept bs : List McBasicBlock)
    → b.instrs ≡ is
    → code kept ≡ code bs
    → code (keep is b kept) ≡ b.instrs ++ code bs
code-keep [] b kept bs e h = h ∙ ap (λ l. l ++ code bs) (sym e)
code-keep (i ∷ is) b kept bs e h = ap (λ l. b.instrs ++ l) h

code-remove_empty_blocks : (bs : List McBasicBlock) → code (remove_empty_blocks bs) ≡ code bs
unfolding remove_empty_blocks
code-remove_empty_blocks [] = refl
code-remove_empty_blocks (b ∷ bs) =
    code-keep b.instrs b (remove_empty_blocks bs) bs refl (code-remove_empty_blocks bs)

successors_entry :
    (ia : McInstrAnalysis) (b : McBasicBlock) (bs : List McBasicBlock)
    → ia.is_unconditional_branch entry_jump ≡ true
    → successors ia (entry_block ∷ b ∷ bs) 0 entry_block ≡ ok (1 ∷ [])
unfolding successors_of_last successors
successors_entry ia b bs u =
    let l : ltb 1 (suc (suc (length bs))) ≡ true = ground arith in rw (u, l) refl

-- What `finish_blocks` makes of the blocks collected.
pub record Finished (ia : McInstrAnalysis) (bbs : List McBasicBlock) (first : String) : Type 0 where
  pub rest : List McBasicBlock
  pub out_eq : finish_blocks ia bbs ≡ ok (record entry_block { succs = first ∷ [] } ∷ rest)
  pub others : All (λ b. All IsOther b.succs) rest
  pub same_code : code rest ≡ code bbs

-- Where LLVM takes the jump for an unconditional branch, and, of the blocks that are not empty,
-- of which there is one, every conditional branch at an end names one of the blocks, every
-- unconditional one has a label, and none names `bpf-tv#entry`, which is the name of no block, the
-- successors are generated without an error. The entry only jumps to the first block, no block goes
-- to the entry, and all instructions are kept in order.
pub finish_blocks-Finished :
    (ia : McInstrAnalysis) (bbs : List McBasicBlock) (b : McBasicBlock) (bs : List McBasicBlock)
    → ia.is_unconditional_branch entry_jump ≡ true
    → remove_empty_blocks bbs ≡ b ∷ bs
    → All (IsLinked ia (b ∷ bs)) (b ∷ bs)
    → Finished ia bbs b.name
unfolding finish_blocks generate_successors generate_from check_entry_block successors_of_last
finish_blocks-Finished ia bbs b bs u e h =
    let c = complete ia (b ∷ bs) h 0 (b ∷ bs) h in
    record {
      rest = c.out;
      out_eq =
          ap (λ q. generate_from ia (entry_block ∷ q) 0 (entry_block ∷ q)) e
          ∙ generate_cons ia (entry_block ∷ b ∷ bs) 0 entry_block (b ∷ bs) (1 ∷ []) c.out
              (successors_entry ia b bs u) c.out_eq;
      others = c.others;
      same_code = c.same_code ∙ ap code (sym e) ∙ code-remove_empty_blocks bbs;
    }
