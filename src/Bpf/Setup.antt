-- ===== src/Bpf/Setup.antt =====
-- The function around the lifted instructions: `platformInit` (src/lifter/bpf2llvm.cpp), and the
-- stack, the blocks and the fall-through branches of `liftMCFunction` (src/lifter/mc2llvm.cpp).
pub mod Registers
pub mod Padding
pub mod Arguments
pub mod Targets
use bpf_tv.Common.{
  ℕ, zero, suc, ◌+◌, ◌*◌, leb, not, if◌then◌else◌, Bool, true, false, Option, none, some, List, [],
  ◌∷◌, String, last?, message, fault,
}
use bpf_tv.Llvm.Ir.{Ty, ptr, Value, argument, const, Instr, br, cond_br, ret}
use bpf_tv.Mc.Block.{McBasicBlock}
use bpf_tv.Lifter.State.{M, ◌>>=◌, ◌>>◌, pure, fail, lift_option}
use bpf_tv.Lifter.Build.{
  get_unsigned_int_const, create_gep, create_store, create_call, create_branch, create_block,
  set_bb, get_bb_by_name,
}
use bpf_tv.Bpf.Regs.{enforce_sext_zext, create_reg_storage}
use bpf_tv.Bpf.Call.{Env, is_int_or_ptr}
use bpf_tv.Bpf.Control.{do_return}
use bpf_tv.Bpf.Lift.{lift_all}

-- A parameter of the function, with the attributes that the source gives it.
pub record Parameter : Type 0 where
  pub type : Ty
  pub is_sext : Bool
  pub is_zext : Bool

unfoldable pub create_reg_file : ℕ → ℕ → M (Unit {0})
unfolding create_reg_storage
create_reg_file n zero = pure tt
create_reg_file n (suc k) = do create_reg_storage n 64; create_reg_file (suc n) k

unfoldable pub store_arguments : ℕ → List Parameter → M (Unit {0})
unfolding enforce_sext_zext create_store
store_arguments n [] = pure tt
store_arguments n (p ∷ ps) =
    let rest = store_arguments (suc n) ps in
    if not (is_int_or_ptr p.type)
    then fail (message "only integer/pointer arguments supported")
    else if leb 5 n
    then fail (message "more than 5 arguments not supported")
    else do
      v ← enforce_sext_zext (argument p.type n) p.is_sext p.is_zext
      cell ← (λ s. lift_option fault (s.reg_file (1 + n)) s)
      create_store v cell
      rest

abbrev pub stack_bytes : ℕ
stack_bytes = 1024

abbrev pub num_stack_slots : ℕ
num_stack_slots = 32

-- The storage of R0 to R11, the frame pointer in R10 and the arguments in R1 to R5.
unfoldable pub platform_init : Value → List Parameter → M (Unit {0})
unfolding create_reg_file get_unsigned_int_const create_gep create_store store_arguments
platform_init stack_mem params = do
  create_reg_file 0 12
  offset ← get_unsigned_int_const stack_bytes 64
  frame_top ← create_gep stack_mem offset
  cell ← (λ s. lift_option fault (s.reg_file 10) s)
  create_store frame_top cell
  store_arguments 0 params

unfoldable pub is_terminator : Instr → Bool
is_terminator (br t) = true
is_terminator (cond_br c t f) = true
is_terminator (ret v) = true
is_terminator _ = false

abbrev is_terminated : Option Instr → Bool
unfolding is_terminator
is_terminated none = false
is_terminated (some i) = is_terminator i

abbrev leave : Env → List String → M (Unit {0})
unfolding do_return get_bb_by_name create_branch
leave e [] = do_return e
leave e (n ∷ []) = do bb ← get_bb_by_name n; create_branch bb
leave e _ = pure tt

-- Machine code falls through to the next block.
unfoldable pub fall_through : Env → M (Unit {0})
unfolding is_terminator do_return get_bb_by_name create_branch
fall_through e s = (if is_terminated (last? (s.blocks s.bb)) then pure tt else leave e s.succs) s

unfoldable pub lift_block : Env → ℕ → McBasicBlock → M (Unit {0})
unfolding lift_all fall_through
lift_block e bb b s =
    (lift_all e b.instrs >> fall_through e) (record s { bb = bb; succs = b.succs })

-- The blocks have distinct names: those of the labels of a text, or of the units they start at.
unfoldable pub create_bbs : List McBasicBlock → M (Unit {0})
unfolding create_block
create_bbs [] = pure tt
create_bbs (b ∷ bs) = do k ← create_block b.name; create_bbs bs

unfoldable pub lift_blocks : Env → ℕ → List McBasicBlock → M (Unit {0})
unfolding lift_block
lift_blocks e k [] = pure tt
lift_blocks e k (b ∷ bs) = do lift_block e k b; lift_blocks e (suc k) bs

-- `liftMCFunction` from the creation of the blocks on; block 0 is the entry.
unfoldable pub lift_mc_function : Env → List Parameter → List McBasicBlock → M (Unit {0})
unfolding create_bbs get_unsigned_int_const create_call platform_init lift_blocks
lift_mc_function e params bbs = do
  create_bbs bbs
  set_bb 0
  stack_size ← get_unsigned_int_const (stack_bytes + 8 * num_stack_slots) 64
  stack_mem ← create_call "myalloc" ptr (stack_size ∷ const 64 16 ∷ [])
  platform_init stack_mem params
  lift_blocks e 0 bbs
