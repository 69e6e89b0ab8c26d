-- ===== src/Bytes/Run.antt =====
-- `bpf2llvm::runBytes` (src/lifter/bpf2llvm.cpp) from the bytes to the blocks that are lifted.
use bpf_tv.Common.{
  ℕ, ◌+◌, some, List, [], ◌∷◌, String, Result, ok, err, Error, All, length, drop, ◌≡◌, refl, sym,
  subst, ◌⊎◌, inl, inr,
}
use bpf_tv.Mc.Inst.{McInst}
use bpf_tv.Mc.Block.{McBasicBlock}
use bpf_tv.Streamer.{McInstrAnalysis}
use bpf_tv.Streamer.Flow.{entry_block, finish_blocks}
use bpf_tv.Streamer.Flow.Linked.{IsOther}
use bpf_tv.Bytes.{Disassembler, DecodedInsn, decode, blocks_of, run_bytes}
use bpf_tv.Bytes.Decode.{Decodes, Fails, Agrees, decode-Agrees}
use bpf_tv.Bytes.Blocks.Sext.{HasNoExpr}
use bpf_tv.Bytes.Blocks.Linking.{SameBranches, blocks_of-LinkedBytes}

-- The first block is the added entry, with one successor, and no block goes to it.
pub record Entered (out : List McBasicBlock) : Type 0 where
  pub first : String
  pub rest : List McBasicBlock
  pub out_eq : out ≡ record entry_block { succs = first ∷ [] } ∷ rest
  pub others : All (λ b. All IsOther b.succs) rest

module _ (d : Disassembler) (ia : McInstrAnalysis) (same : SameBranches d ia)
    (no_symbols : (bs : List ℕ) (off : ℕ) (i : McInst) (size : ℕ)
      → d.get_instruction bs off ≡ some (i, size)
      → HasNoExpr i) where
  Decodes-HasNoExpr :
      (off : ℕ) (bs : List ℕ) (xs : List DecodedInsn)
      → Decodes d off bs xs
      → All (λ x. HasNoExpr x.inst) xs
  Decodes-HasNoExpr off bs xs (Decodes.done _) = tt
  Decodes-HasNoExpr off bs xs (Decodes.next o b rest i size ys a h) = (
    no_symbols (b ∷ rest) o i size a.disassembled,
    Decodes-HasNoExpr (o + size) (drop size (b ∷ rest)) ys h,
  )

  -- The bytes cannot be decoded, or the blocks of what they decode to cannot be built.
  abbrev pub Stops : List ℕ → Error → Type 0
  Stops bytes e =
      Fails d 0 bytes e
      ⊎ ((xs : List DecodedInsn) × (Decodes d 0 bytes xs × (blocks_of d xs ≡ err e)))

  abbrev pub Runs : List ℕ → Result (List McBasicBlock) → Type 0
  Runs bytes (ok out) = Entered out
  Runs bytes (err e) = Stops bytes e

  Runs-blocks :
      (bytes : List ℕ) (xs : List DecodedInsn)
      → Decodes d 0 bytes xs
      → (r : Result (List McBasicBlock)) → blocks_of d xs ≡ r
      → Runs bytes (elim r [ err e ↦ err e | ok bbs ↦ finish_blocks ia bbs ])
  Runs-blocks bytes xs h (err e) q = inr (xs, (h, q))
  Runs-blocks bytes xs h (ok bbs) q =
      let l = blocks_of-LinkedBytes d ia same xs bbs (Decodes-HasNoExpr 0 bytes xs h) q in
      let f = l.finished in
      subst (Runs bytes) (sym f.out_eq)
        (record { first = l.first; rest = f.rest; out_eq = refl; others = f.others })

  Runs-decoded :
      (bytes : List ℕ) (r : Result (List DecodedInsn))
      → Agrees d 0 bytes r
      → Runs bytes (elim r [
        | err e ↦ err e
        | ok xs ↦ elim (blocks_of d xs) [ err e ↦ err e | ok bbs ↦ finish_blocks ia bbs ]
      ])
  Runs-decoded bytes (err e) h = inl h
  Runs-decoded bytes (ok xs) h = Runs-blocks bytes xs h (blocks_of d xs) refl

  -- Where the disassembler gives no symbols and its branches are those of the analysis, machine
  -- code given as any bytes either gives blocks of which the first is the added entry, with
  -- one successor, and is the successor of none, or stops with the error of the first place that
  -- cannot be decoded, or with that of building the blocks; linking them never fails.
  pub run_bytes-Runs : (bytes : List ℕ) → Runs bytes (run_bytes d ia bytes)
  unfolding run_bytes
  run_bytes-Runs bytes =
      Runs-decoded bytes (decode d (length bytes) 0 bytes) (decode-Agrees d bytes)
