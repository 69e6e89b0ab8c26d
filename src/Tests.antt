-- ===== src/Tests.antt =====
-- The theorems applied at a small function: three blocks and a register file in cells 0 to 44.
pub mod Streams
pub mod Source
use bpf_tv.Common.{
  ℕ, ◌+◌, ◌-◌, ◌*◌, ◌/◌, ◌%◌, ◌^◌, ◌==◌, ◌≡◌, refl, some, none, ok, List, [], ◌∷◌, ◌++◌, map,
  if◌then◌else◌, arith, true, false, All, ◌<◌, ◌⊎◌, err, assertion,
}
use bpf_tv.Words.{pos, to_word, signed, quot, rem, shr_ℤ, fits_signed}
use bpf_tv.Isa.Arithmetic.{
  Arithmetic, alu64, alu32, move, endian, encode, IsValid, exec, source_64, source_32,
}
use bpf_tv.Isa.Agrees.{exec_all}
use bpf_tv.Isa.Branch.{Condition, holds, jump_64, jump_32, compare}
use bpf_tv.Llvm.Ir.{result, Value, alloca, int, const}
use bpf_tv.Llvm.Exec.{Machine}
use bpf_tv.Llvm.Model.{langref}
use bpf_tv.Mc.Opcode.{Alu64, Alu32, Move, Endian}
use bpf_tv.Mc.Inst.{r, w, reg, imm}
use bpf_tv.Lifter.State.{Lifter}
use bpf_tv.Lifter.Build.{find_block, create_masked_shl, create_masked_lshr, create_masked_ashr}
use bpf_tv.Lifter.Checked.{
  create_checked_udiv, create_checked_sdiv, create_checked_urem, create_checked_srem,
}
use bpf_tv.Lifter.Grows.{Grows-refl}
use bpf_tv.Lifter.Logic.{Does}
use bpf_tv.Lifter.Values.{Is, Yields, Stores}
use bpf_tv.Lifter.Shifts.{Is-const, Does-masked_shl, Does-masked_lshr, Does-masked_ashr}
use bpf_tv.Lifter.Divide.Unsigned.{Does-udiv, Does-urem}
use bpf_tv.Lifter.Divide.Signed.{Does-sdiv, Does-srem, overflows}
use bpf_tv.Bpf.Setup.{create_reg_file}
use bpf_tv.Bpf.Setup.Registers.{create_reg_file-IsReady}
use bpf_tv.Bpf.Regs.Unspecified.{after_value}
use bpf_tv.Bpf.Regs.Fresh.{Fresh, after_value-IsCounted, unspecified_value-Fresh}
use bpf_tv.Bpf.Regs.{unspecified_value, unspecified_mem_bytes, read_reg_32, update_reg_32}
use bpf_tv.Bpf.Regs.Access.{Does-read_32, Does-update_32}
use bpf_tv.Bpf.Operands.{get_branch_targets_operand, other_successor}
use bpf_tv.Bpf.Frame.{IsAt, reg_of}
use bpf_tv.Bpf.Control.Jumps.{HasTargets}
use bpf_tv.Bpf.Call.{Env, Signature, marshall_args}
use bpf_tv.Bpf.Call.Arguments.{IsError, marshall_args-IsError}
use bpf_tv.Bpf.Lift.{lift_inst, lift_all}
use bpf_tv.Bpf.Lift.Refines.{IsReady, Executes, Lifts, at_inst, lift_inst-refines, lift_all-refines}
use bpf_tv.Bpf.Lift.Blocks.{Ends, block_64-refines, block_32-refines}

abbrev env : Env
env = record {
  bytes_mode = false;
  ret_type = int 64;
  orig_ret_width = 64;
  has_ret_attr = false;
  lookup_global = λ n. none;
  source_inst = λ l. none;
}

-- The current instruction is the jump that ends the block.
abbrev start : Lifter
start = record {
  bb = 0;
  count = 3;
  names = λ b. if b == 1 then "then" else if b == 2 then "else" else "entry";
  blocks = λ b. [];
  next = 45;
  reg_file = λ n. some (alloca (0 + 4 * n));
  unspecified_off = 0;
  cur_inst = compare (jump_64 Condition.eq true) (r 1) (imm (pos 7)) "then";
  succs = "then" ∷ "else" ∷ [];
}

-- Cell `n` holds `n`, but for the most negative number in R5 and -1 in R6.
abbrev machine : Machine
machine = record {
  env = λ n. 0;
  cells = λ n. if n == 20 then 2 ^ 63 else if n == 24 then 2 ^ 64 - 1 else n;
  mem = λ a. 0;
  args = λ n. 0;
  globals = λ g. 0;
}

start-IsReady : IsReady 0 start
start-IsReady = record { storage = λ n l. refl; taken = omega arith; live = omega arith }

start-IsAt : IsAt 0 (compare (jump_64 Condition.eq true) (r 1) (imm (pos 7)) "then") start
start-IsAt = record { storage = λ n l. refl; taken = omega arith; live = omega arith; inst = refl }

start-HasTargets : HasTargets start "then" 1 2
unfolding find_block other_successor
start-HasTargets = record { counted = refl; taken_at = refl; other_at = refl }

-- A signed division that overflows, an addition on 32 bits, a move and a byte swap.
abbrev code : List Arithmetic
code =
    alu64 Alu64.sdiv_rr (r 5) (r 5) (reg (r 6))
    ∷ alu32 Alu32.add_ri_32 (w 1) (w 1) (imm (pos 3))
    ∷ move Move.mov_rr (r 2) (reg (r 5))
    ∷ endian Endian.bswap64 (r 2) (r 2)
    ∷ []

division-IsValid : IsValid (alu64 Alu64.sdiv_rr (r 5) (r 5) (reg (r 6)))
unfolding IsValid
division-IsValid = (omega arith, omega arith, omega arith)

code-IsValid : All IsValid code
unfolding IsValid fits_signed
code-IsValid = (
  division-IsValid,
  (
    (omega arith, omega arith, refl),
    ((omega arith, omega arith), ((omega arith, omega arith), tt)),
  ),
)

lift_all-refines_example :
    Lifts langref 0 start machine (lift_all env (map encode code)) (exec_all code)
lift_all-refines_example =
    lift_all-refines langref env 0 start machine code start-IsReady code-IsValid

block_64-refines_example :
    Ends langref 0 start machine
      (lift_all env
        (map encode code ++ compare (jump_64 Condition.slt true) (r 5) (imm (pos 1)) "then" ∷ []))
      (exec_all code)
      (if holds 64 Condition.slt
          (exec_all code (reg_of 0 machine) 5)
          (source_64 (exec_all code (reg_of 0 machine)) (imm (pos 1)))
        then 1
        else 2)
unfolding fits_signed
block_64-refines_example =
    block_64-refines langref env 0 start machine code Condition.slt true (r 5) (imm (pos 1)) "then"
      1 2 start-IsReady code-IsValid (omega arith) refl start-HasTargets

block_32-refines_example :
    Ends langref 0 start machine
      (lift_all env
        (map encode code ++ compare (jump_32 Condition.set false) (w 1) (reg (w 2)) "then" ∷ []))
      (exec_all code)
      (if holds 32 Condition.set
          (exec_all code (reg_of 0 machine) 1 % 2 ^ 32)
          (source_32 (exec_all code (reg_of 0 machine)) (reg (w 2)))
        then 1
        else 2)
block_32-refines_example =
    block_32-refines langref env 0 start machine code Condition.set false (w 1) (reg (w 2)) "then" 1
      2 start-IsReady code-IsValid (omega arith) (omega arith) start-HasTargets

lift_inst-refines_example :
    Does langref
      (at_inst start (encode (alu64 Alu64.sdiv_rr (r 5) (r 5) (reg (r 6)))))
      machine
      (lift_inst env (encode (alu64 Alu64.sdiv_rr (r 5) (r 5) (reg (r 6)))))
      (λ u s' m'. Executes 0 (exec (alu64 Alu64.sdiv_rr (r 5) (r 5) (reg (r 6)))) machine m')
lift_inst-refines_example =
    lift_inst-refines langref env machine start-IsReady
      (alu64 Alu64.sdiv_rr (r 5) (r 5) (reg (r 6))) division-IsValid

abbrev byte : ℕ → Value
byte n = const 8 n

byte-Is : (n : ℕ) → Is langref 45 machine (byte n) 8 n
byte-Is n = Is-const langref 8 n

Does-sdiv_example :
    Does langref start machine (create_checked_sdiv (byte 128) (byte 255) (byte 0) (byte 128)) (
      Yields langref 45 machine 8 (
        if 255 == 0
        then 0
        else if overflows 8 128 255
        then 128
        else to_word 8 (quot (signed 8 128) (signed 8 255))))
Does-sdiv_example =
    Does-sdiv langref {s = start} (omega arith) (byte-Is 128) (byte-Is 255) (byte-Is 0)
      (byte-Is 128)

Does-srem_example :
    Does langref start machine (create_checked_srem (byte 249) (byte 3) (byte 249) (byte 0)) (
      Yields langref 45 machine 8 (
        if 3 == 0
        then 249
        else if overflows 8 249 3
        then 0
        else to_word 8 (rem (signed 8 249) (signed 8 3))))
Does-srem_example =
    Does-srem langref {s = start} (omega arith) (byte-Is 249) (byte-Is 3) (byte-Is 249) (byte-Is 0)

Does-udiv_example :
    Does langref start machine
      (create_checked_udiv (byte 200) (byte 7) (byte 0))
      (Yields langref 45 machine 8 (if 7 == 0 then 0 else 200 / 7))
Does-udiv_example =
    Does-udiv langref {s = start} (omega arith) (byte-Is 200) (byte-Is 7) (byte-Is 0)

Does-urem_example :
    Does langref start machine
      (create_checked_urem (byte 200) (byte 0) (byte 200))
      (Yields langref 45 machine 8 (if 0 == 0 then 200 else 200 % 0))
Does-urem_example =
    Does-urem langref {s = start} (omega arith) (byte-Is 200) (byte-Is 0) (byte-Is 200)

Does-masked_shl_example :
    Does langref start machine
      (create_masked_shl (byte 3) (byte 9))
      (Yields langref 45 machine (2 ^ 3) (3 * 2 ^ (9 % 2 ^ 3) % 2 ^ 2 ^ 3))
Does-masked_shl_example =
    Does-masked_shl langref {s = start} 3 (omega arith) (byte-Is 3) (byte-Is 9)

Does-masked_lshr_example :
    Does langref start machine
      (create_masked_lshr (byte 130) (byte 9))
      (Yields langref 45 machine (2 ^ 3) (130 / 2 ^ (9 % 2 ^ 3)))
Does-masked_lshr_example =
    Does-masked_lshr langref {s = start} 3 (omega arith) (byte-Is 130) (byte-Is 9)

Does-masked_ashr_example :
    Does langref start machine
      (create_masked_ashr (byte 130) (byte 9))
      (Yields langref 45 machine (2 ^ 3) (to_word (2 ^ 3) (shr_ℤ (signed (2 ^ 3) 130) (9 % 2 ^ 3))))
Does-masked_ashr_example =
    Does-masked_ashr langref {s = start} 3 (omega arith) (byte-Is 130) (byte-Is 9)

Does-read_32_example :
    Does langref start machine
      (read_reg_32 (w 6))
      (Yields langref 45 machine 32 (reg_of 0 machine 6 % 2 ^ 32))
Does-read_32_example = Does-read_32 langref start-IsAt (w 6) (omega arith)

Does-update_32_example :
    Does langref start machine (update_reg_32 (const 32 9) (w 6)) (Stores 45 machine (0 + 4 * 6) 9)
Does-update_32_example =
    Does-update_32 langref start-IsAt (w 6) (omega arith) (Is-const langref 32 9)

abbrev six : Signature
six = record { ret = int 64; params = int 64 ∷ int 64 ∷ int 64 ∷ int 64 ∷ int 64 ∷ int 64 ∷ [] }

marshall_args-IsError_example : IsError (marshall_args six start)
marshall_args-IsError_example = marshall_args-IsError six start (omega arith)

create_reg_file-IsReady_example :
    (s' : Lifter) × (create_reg_file 0 12 start ≡ ok (tt, s')) × IsReady 45 s'
create_reg_file-IsReady_example = create_reg_file-IsReady start (omega arith) (omega arith)

unspecified_value-Fresh_example :
    Fresh 7 (after_value start 33)
    ⊎ ((unspecified_mem_bytes < (after_value start 33).unspecified_off + (7 + 7) / 8)
        × (unspecified_value 7 (after_value start 33) ≡ err assertion))
unspecified_value-Fresh_example =
    unspecified_value-Fresh (after_value start 33) 7 (after_value-IsCounted start 33 λ b. tt)
