-- ===== src/Bytes.antt =====
-- Machine code given as bytes: `bpf2llvm::runBytes` (src/lifter/bpf2llvm.cpp).
pub mod Decode
pub mod Blocks
pub mod Immediates
pub mod Run
use bpf_tv.Common.{
  ℕ, zero, suc, ◌+◌, ◌-◌, ◌/◌, ◌%◌, ltb, ◌==◌, ◌&&◌, ◌||◌, not, if◌then◌else◌, Bool, true, false,
  Option, none, some, List, [], ◌∷◌, ◌++◌, map, any, String, Result, ok, err, message, assertion,
  fault, length, get_elem?, drop, last?,
}
use Prim.Native.String.{◌++◌ as str_append}
use bpf_tv.Words.{ℤ, pos, negsuc, to_word, signed, add_ℤ}
use bpf_tv.Mc.Opcode.{Opcode, Jump, Move, Memory}
use bpf_tv.Mc.Inst.{McInst, Operand, reg, imm, expr}
use bpf_tv.Mc.Block.{McBasicBlock}
use bpf_tv.Bpf.Call.{to_string}
use bpf_tv.Streamer.{McInstrAnalysis, modify_at, append_inst}
use bpf_tv.Streamer.Flow.{finish_blocks}

-- LLVM's disassembler: the instruction at the start of the bytes and its size, and the
-- properties that its opcode has.
pub record Disassembler : Type 0 where
  pub get_instruction : List ℕ → ℕ → Option (McInst × ℕ)
  pub is_branch : Opcode → Bool
  pub is_call : Opcode → Bool
  pub is_return : Opcode → Bool

-- `unit` and `units` count 8 bytes each.
pub record DecodedInsn : Type 0 where
  pub inst : McInst
  pub unit : ℕ
  pub units : ℕ

abbrev pub is_jal : Opcode → Bool
is_jal Opcode.jal = true
is_jal _ = false

-- The source field of the register byte of a call: 1 in a call of another BPF function.
abbrev pub is_local_call : Option ℕ → Bool
is_local_call none = false
is_local_call (some byte) = byte / 16 % 16 == 1

module _ (d : Disassembler) where
  -- The instruction at the start of the bytes, at offset `off`, and its size.
  abbrev pub decode_one : ℕ → List ℕ → Result (McInst × ℕ)
  decode_one off bs = elim (d.get_instruction bs off) [
    | none ↦ err (message "cannot disassemble instruction")
    | some p ↦
        if p.1 == 0
        then err (message "cannot disassemble instruction")
        else if is_jal (p.0).opcode && is_local_call (get_elem? bs 1)
        then err (message "bpf2bpf local calls are not supported yet")
        else ok p
  ]

  abbrev pub cons_insn : ℕ → McInst × ℕ → Result (List DecodedInsn) → Result (List DecodedInsn)
  cons_insn off p (err e) = err e
  cons_insn off p (ok rest) = ok (record { inst = p.0; unit = off / 8; units = p.1 / 8 } ∷ rest)

  -- The loop, on the bytes from `off` on.
  unfoldable pub decode : ℕ → ℕ → List ℕ → Result (List DecodedInsn)
  decode fuel off [] = ok []
  decode zero off (b ∷ bs) = err (message "out of fuel")
  decode (suc fuel) off (b ∷ bs) = elim (decode_one off (b ∷ bs)) [
    | err e ↦ err e
    | ok p ↦ cons_insn off p (decode fuel (off + p.1) (drop (p.1) (b ∷ bs)))
  ]

-- The width of the C++ integer that the value is cast to.
abbrev pub sext_width : ℕ → ℕ
sext_width bits = if bits == 16 then 16 else 32

abbrev pub sext_operand : ℕ → Operand → Operand
sext_operand bits (imm z) = imm (signed (sext_width bits) (to_word (sext_width bits) z))
sext_operand bits op = op

-- Sign-extend the immediate at `idx`, if it is one.
unfoldable pub sext : ℕ → ℕ → McInst → Result McInst
sext idx bits i = elim (modify_at (sext_operand bits) idx i.operands) [
  | ok ops ↦ ok (record i { operands = ops })
  | err e ↦ err e
]

unfoldable pub then_sext : Result McInst → ℕ → ℕ → Result McInst
unfolding sext
then_sext (ok i) idx bits = sext idx bits i
then_sext (err e) idx bits = err e

unfoldable pub sext_store_imm : McInst → Result McInst
unfolding sext then_sext
sext_store_imm i = then_sext (sext 0 32 i) 2 16

abbrev pub is_store_imm : Memory → Bool
is_store_imm Memory.std_imm = true
is_store_imm Memory.stw_imm = true
is_store_imm Memory.sth_imm = true
is_store_imm Memory.stb_imm = true
is_store_imm _ = false

unfoldable pub sext_memory : Memory → McInst → Result McInst
unfolding sext sext_store_imm
sext_memory m i = if is_store_imm m then sext_store_imm i else sext 2 16 i

abbrev pub jump_bits : Opcode → ℕ
jump_bits (Opcode.jump Jump.jmpl) = 32
jump_bits _ = 16

-- The cases of the switch.
unfoldable pub sext_other : Opcode → McInst → Result McInst
unfolding sext sext_memory
sext_other (Opcode.memory m) i = sext_memory m i
sext_other Opcode.cmpxchgd i = sext 1 16 i
sext_other Opcode.cmpxchgw32 i = sext 1 16 i
sext_other (Opcode.atomic a) i = sext 2 16 i
sext_other _ i = sext (length i.operands - 1) 32 i

abbrev pub keeps_imm : Opcode → Bool
keeps_imm (Opcode.move Move.ld_imm64) = true
keeps_imm Opcode.nop = true
keeps_imm _ = false

module _ (d : Disassembler) where
  unfoldable pub sign_extend : McInst → Result McInst
  unfolding sext then_sext sext_other
  sign_extend i =
      let n = length i.operands in
      if keeps_imm i.opcode || n == 0
      then ok i
      else if d.is_branch i.opcode
      then then_sext (if n == 3 then sext 1 32 i else ok i) (n - 1) (jump_bits i.opcode)
      else if d.is_call i.opcode
      then sext (n - 1) 32 i
      else sext_other i.opcode i

  unfoldable pub sign_extend_all : List DecodedInsn → Result (List DecodedInsn)
  unfolding sign_extend
  sign_extend_all [] = ok []
  sign_extend_all (x ∷ xs) = elim (sign_extend x.inst) [
    | err e ↦ err e
    | ok i ↦ elim (sign_extend_all xs) [ err e ↦ err e | ok ys ↦ ok (record x { inst = i } ∷ ys) ]
  ]

  abbrev pub imm_of : Option Operand → Result ℤ
  imm_of (some (imm z)) = ok z
  imm_of _ = err assertion

  -- The target of a branch, in units.
  unfoldable pub branch_target_unit : DecodedInsn → Result ℤ
  unfolding add_ℤ
  branch_target_unit x = elim (imm_of (last? x.inst.operands)) [
    | err e ↦ err e
    | ok z ↦ ok (add_ℤ z (x.unit + x.units))
  ]

  abbrev pub unless_negative : ℤ → List ℕ → List ℕ
  unless_negative (pos n) ks = n ∷ ks
  unless_negative (negsuc n) ks = ks

  unfoldable pub leaders_of : DecodedInsn → Result (List ℕ)
  unfolding branch_target_unit
  leaders_of x =
      if d.is_branch x.inst.opcode
      then elim (branch_target_unit x) [
        | err e ↦ err e
        | ok t ↦ ok (unless_negative t ((x.unit + x.units) ∷ []))
      ]
      else ok (if d.is_return x.inst.opcode then (x.unit + x.units) ∷ [] else [])

  -- The units at which blocks start, in any order, but for the first one.
  unfoldable pub leaders : List DecodedInsn → Result (List ℕ)
  unfolding leaders_of
  leaders [] = ok []
  leaders (x ∷ xs) = elim (leaders_of x) [
    | err e ↦ err e
    | ok ks ↦ elim (leaders xs) [ err e ↦ err e | ok ls ↦ ok (ks ++ ls) ]
  ]

abbrev pub elem : ℕ → List ℕ → Bool
elem k ks = any (λ j. j == k) ks

abbrev pub units_of : List DecodedInsn → List ℕ
units_of xs = map DecodedInsn.unit xs

unfoldable pub label_name : ℕ → String
unfolding to_string
label_name unit = str_append "L" (to_string unit)

abbrev pub set_last : Operand → List Operand → List Operand
set_last o [] = []
set_last o (x ∷ []) = o ∷ []
set_last o (x ∷ y ∷ ys) = x ∷ set_last o (y ∷ ys)

-- A branch must go to the start of an instruction; its target becomes the label there.
unfoldable pub rewrite_target : List ℕ → ℤ → McInst → Result McInst
unfolding label_name
rewrite_target units (negsuc n) i =
    err (message "branch to unit which is not an instruction boundary")
rewrite_target units (pos n) i =
    if elem n units
    then ok (record i { operands = set_last (expr (label_name n)) i.operands })
    else err (message "branch to unit which is not an instruction boundary")

module _ (d : Disassembler) where
  unfoldable pub rewrite_branch : List ℕ → DecodedInsn → Result McInst
  unfolding branch_target_unit rewrite_target
  rewrite_branch units x =
      if d.is_branch x.inst.opcode
      then elim (branch_target_unit d x) [ err e ↦ err e | ok t ↦ rewrite_target units t x.inst ]
      else ok x.inst

  unfoldable pub rewrite_branches : List ℕ → List DecodedInsn → Result (List DecodedInsn)
  unfolding rewrite_branch
  rewrite_branches units [] = ok []
  rewrite_branches units (x ∷ xs) = elim (rewrite_branch units x) [
    | err e ↦ err e
    | ok i ↦ elim (rewrite_branches units xs) [
      | err e ↦ err e
      | ok ys ↦ ok (record x { inst = i } ∷ ys)
    ]
  ]

-- Append to the last block, which is the current one.
unfoldable pub add_to_last : McInst → List McBasicBlock → List McBasicBlock
add_to_last i [] = []
add_to_last i (b ∷ []) = append_inst i b ∷ []
add_to_last i (b ∷ c ∷ bs) = b ∷ add_to_last i (c ∷ bs)

abbrev pub is_empty {ℓ} : {A : Type ℓ} → List A → Bool
is_empty [] = true
is_empty (x ∷ xs) = false

unfoldable pub place_insn : List ℕ → List McBasicBlock → DecodedInsn → List McBasicBlock
unfolding add_to_last label_name
place_insn ls bbs x =
    if elem x.unit ls || is_empty bbs
    then bbs ++ record { name = label_name x.unit; instrs = x.inst ∷ []; succs = [] } ∷ []
    else add_to_last x.inst bbs

unfoldable pub place_all : List ℕ → List McBasicBlock → List DecodedInsn → List McBasicBlock
unfolding place_insn
place_all ls bbs [] = bbs
place_all ls bbs (x ∷ xs) = place_all ls (place_insn ls bbs x) xs

module _ (d : Disassembler) where
  -- The blocks of decoded instructions.
  unfoldable pub blocks_of : List DecodedInsn → Result (List McBasicBlock)
  unfolding leaders rewrite_branches place_all
  blocks_of [] = err (message "empty program")
  blocks_of (x ∷ xs) = elim (sign_extend_all d (x ∷ xs)) [
    | err e ↦ err e
    | ok ys ↦ elim (leaders d ys) [
      | err e ↦ err e
      | ok ls ↦ elim (rewrite_branches d (units_of ys) ys) [
        | err e ↦ err e
        | ok zs ↦ ok (place_all (x.unit ∷ ls) [] zs)
      ]
    ]
  ]

-- `runBytes` up to `liftMCFunction`: the blocks that are lifted.
unfoldable pub run_bytes : Disassembler → McInstrAnalysis → List ℕ → Result (List McBasicBlock)
unfolding decode blocks_of finish_blocks
run_bytes d ia bytes = elim (decode d (length bytes) 0 bytes) [
  | err e ↦ err e
  | ok xs ↦ elim (blocks_of d xs) [ err e ↦ err e | ok bbs ↦ finish_blocks ia bbs ]
]
