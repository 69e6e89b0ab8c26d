-- ===== src/Bpf/Lift.antt =====
-- `bpf2llvm::lift`: one machine instruction (src/lifter/bpf2llvm.cpp).
pub mod Refines
pub mod Blocks
use bpf_tv.Common.{message, Bool, List, [], ◌∷◌}
use bpf_tv.Mc.Opcode.{Opcode}
use bpf_tv.Mc.Inst.{McInst, Operand, imm, expr, reg}
use bpf_tv.Lifter.State.{Lifter, M, ◌>>=◌, ◌>>◌, pure, fail}
use bpf_tv.Bpf.Operands.{get_operand, get_imm}
use bpf_tv.Bpf.Alu.{lift_alu64, lift_alu32, lift_endian}
use bpf_tv.Bpf.Move.{lift_move}
use bpf_tv.Bpf.Memory.{lift_memory, lift_atomic, lift_cmpxchgd, lift_cmpxchgw32}
use bpf_tv.Bpf.Control.{lift_jump, do_return}
use bpf_tv.Bpf.Call.{Env, do_helper_call, do_direct_call}

abbrev call_operand : Env → Operand → M (Unit {0})
call_operand e (expr n) = do_direct_call e
call_operand e op = do z ← get_imm op; do_helper_call e z

unfoldable pub lift : Env → Opcode → M (Unit {0})
unfolding get_operand
lift e Opcode.nop = pure tt
lift e (Opcode.alu64 o) = lift_alu64 o
lift e (Opcode.alu32 o) = lift_alu32 o
lift e (Opcode.move o) = lift_move e o
lift e (Opcode.endian o) = lift_endian o
lift e (Opcode.memory o) = lift_memory o
lift e (Opcode.jump o) = lift_jump o
lift e (Opcode.atomic o) = lift_atomic o
lift e Opcode.cmpxchgd = lift_cmpxchgd
lift e Opcode.cmpxchgw32 = lift_cmpxchgw32
lift e Opcode.jal = do op ← get_operand 0; call_operand e op
lift e Opcode.ret = do_return e
lift e Opcode.unsupported = fail (message "Unsupported instruction")

-- `liftInst`: the instruction becomes the current one.
unfoldable pub lift_inst : Env → McInst → M (Unit {0})
unfolding lift
lift_inst e i s = lift e i.opcode (record s { cur_inst = i })

-- The loop over the instructions of a block.
unfoldable pub lift_all : Env → List McInst → M (Unit {0})
unfolding lift_inst
lift_all e [] = pure tt
lift_all e (i ∷ is) = let rest = lift_all e is in do lift_inst e i; rest
