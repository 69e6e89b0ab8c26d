-- ===== src/Bpf/Memory.antt =====
-- Loads, stores and atomics of `bpf2llvm::lift` (src/lifter/bpf2llvm.cpp).
use bpf_tv.Common.{ℕ, ◌%◌, ◌^◌, Bool, true, false, ltb, if◌then◌else◌, not}
use bpf_tv.Words.{to_word}
use bpf_tv.Llvm.Ir.{int, Value, RmwOp}
use bpf_tv.Mc.Opcode.{Memory, Atomic}
use bpf_tv.Mc.Inst.{r}
use bpf_tv.Lifter.State.{M, ◌>>=◌, pure}
use bpf_tv.Lifter.Build.{
  get_bit_width, get_unsigned_int_const, create_load, create_store, create_trunc, create_zext,
  create_sext, create_atomic_rmw, create_cmp_xchg, create_extract_value,
}
use bpf_tv.Bpf.Regs.{read_reg_64, read_reg_32, update_reg_64, update_reg_32}
use bpf_tv.Bpf.Operands.{
  get_operand, get_imm, read_reg_operand_64, read_reg_operand_32, get_mem_pointer_operand,
}
use bpf_tv.Bpf.Alu.{update_dst_64, update_dst_32}

-- What a load puts into the destination: a W register of 32 bits, or an R register of 64.
load_to : ℕ → Bool → Bool → Value → M (Unit {0})
unfolding create_zext create_sext update_dst_64 update_dst_32
load_to bits sext true v = do
  x ← (if ltb bits 32 then create_zext v (int 32) else pure v)
  update_dst_32 x
load_to bits sext false v = do
  x ←
      (if not (ltb bits 64)
        then pure v
        else if sext
        then create_sext v (int 64)
        else create_zext v (int 64))
  update_dst_64 x

unfoldable pub load : ℕ → Bool → Bool → M (Unit {0})
unfolding load_to get_mem_pointer_operand create_load
load bits sext w_dest = do
  p ← get_mem_pointer_operand 1
  v ← create_load (int bits) p
  load_to bits sext w_dest v

unfoldable pub store : ℕ → Bool → M (Unit {0})
unfolding get_mem_pointer_operand read_reg_operand_32 read_reg_operand_64 create_trunc create_store
    get_bit_width
store bits w_src = do
  p ← get_mem_pointer_operand 1
  v ← (if w_src then read_reg_operand_32 0 else read_reg_operand_64 0)
  x ← (if ltb bits (get_bit_width v) then create_trunc v (int bits) else pure v)
  create_store x p

unfoldable pub store_imm : ℕ → M (Unit {0})
unfolding get_mem_pointer_operand get_operand get_unsigned_int_const create_store
store_imm bits = do
  p ← get_mem_pointer_operand 1
  op ← get_operand 0
  z ← get_imm op
  let raw = to_word 64 z
  let masked = if ltb bits 64 then raw % 2 ^ bits else raw
  v ← get_unsigned_int_const masked bits
  create_store v p

unfoldable pub lift_memory : Memory → M (Unit {0})
lift_memory Memory.ldd = load 64 false false
lift_memory Memory.ldw = load 32 false false
lift_memory Memory.ldh = load 16 false false
lift_memory Memory.ldb = load 8 false false
lift_memory Memory.ldwsx = load 32 true false
lift_memory Memory.ldhsx = load 16 true false
lift_memory Memory.ldbsx = load 8 true false
lift_memory Memory.ldw32 = load 32 false true
lift_memory Memory.ldh32 = load 16 false true
lift_memory Memory.ldb32 = load 8 false true
lift_memory Memory.std = store 64 false
lift_memory Memory.stw = store 32 false
lift_memory Memory.sth = store 16 false
lift_memory Memory.stb = store 8 false
lift_memory Memory.stw32 = store 32 true
lift_memory Memory.sth32 = store 16 true
lift_memory Memory.stb32 = store 8 true
lift_memory Memory.std_imm = store_imm 64
lift_memory Memory.stw_imm = store_imm 32
lift_memory Memory.sth_imm = store_imm 16
lift_memory Memory.stb_imm = store_imm 8

unfoldable pub rmw_op : Atomic → RmwOp
rmw_op Atomic.xaddw = RmwOp.add
rmw_op Atomic.xaddw32 = RmwOp.add
rmw_op Atomic.xaddd = RmwOp.add
rmw_op Atomic.xfaddw32 = RmwOp.add
rmw_op Atomic.xfaddd = RmwOp.add
rmw_op Atomic.xandw32 = RmwOp.and
rmw_op Atomic.xandd = RmwOp.and
rmw_op Atomic.xfandw32 = RmwOp.and
rmw_op Atomic.xfandd = RmwOp.and
rmw_op Atomic.xorw32 = RmwOp.or
rmw_op Atomic.xord = RmwOp.or
rmw_op Atomic.xforw32 = RmwOp.or
rmw_op Atomic.xford = RmwOp.or
rmw_op Atomic.xxorw32 = RmwOp.xor
rmw_op Atomic.xxord = RmwOp.xor
rmw_op Atomic.xfxorw32 = RmwOp.xor
rmw_op Atomic.xfxord = RmwOp.xor
rmw_op _ = RmwOp.xchg

unfoldable pub is_64 : Atomic → Bool
is_64 Atomic.xaddd = true
is_64 Atomic.xandd = true
is_64 Atomic.xord = true
is_64 Atomic.xxord = true
is_64 Atomic.xfaddd = true
is_64 Atomic.xfandd = true
is_64 Atomic.xford = true
is_64 Atomic.xfxord = true
is_64 Atomic.xchgd = true
is_64 _ = false

unfoldable pub is_fetch : Atomic → Bool
is_fetch Atomic.xfaddw32 = true
is_fetch Atomic.xfaddd = true
is_fetch Atomic.xfandw32 = true
is_fetch Atomic.xfandd = true
is_fetch Atomic.xforw32 = true
is_fetch Atomic.xford = true
is_fetch Atomic.xfxorw32 = true
is_fetch Atomic.xfxord = true
is_fetch Atomic.xchgw32 = true
is_fetch Atomic.xchgd = true
is_fetch _ = false

abbrev is_xaddw : Atomic → Bool
is_xaddw Atomic.xaddw = true
is_xaddw _ = false

unfoldable pub lift_atomic : Atomic → M (Unit {0})
unfolding rmw_op is_64 is_fetch get_mem_pointer_operand read_reg_operand_64 read_reg_operand_32
    create_trunc create_atomic_rmw update_dst_64 update_dst_32
lift_atomic o = do
  p ← get_mem_pointer_operand 1
  val ←
      (if is_64 o
        then read_reg_operand_64 3
        else if is_xaddw o
        then (do v ← read_reg_operand_64 3; create_trunc v (int 32))
        else read_reg_operand_32 3)
  rmw ← create_atomic_rmw (rmw_op o) p val
  if is_fetch o then (if is_64 o then update_dst_64 rmw else update_dst_32 rmw) else pure tt

unfoldable pub lift_cmpxchgd : M (Unit {0})
unfolding get_mem_pointer_operand read_reg_64 read_reg_operand_64 create_cmp_xchg
    create_extract_value update_reg_64
lift_cmpxchgd = do
  p ← get_mem_pointer_operand 0
  expected ← read_reg_64 (r 0)
  v ← read_reg_operand_64 2
  cx ← create_cmp_xchg p expected v
  old ← create_extract_value cx 0
  update_reg_64 old (r 0)

unfoldable pub lift_cmpxchgw32 : M (Unit {0})
unfolding get_mem_pointer_operand read_reg_32 read_reg_operand_32 create_cmp_xchg
    create_extract_value update_reg_32
lift_cmpxchgw32 = do
  p ← get_mem_pointer_operand 0
  expected ← read_reg_32 (r 0)
  v ← read_reg_operand_32 2
  cx ← create_cmp_xchg p expected v
  old ← create_extract_value cx 0
  update_reg_32 old (r 0)
