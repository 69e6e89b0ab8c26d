-- ===== src/Llvm/Ir.antt =====
-- The LLVM values and instructions that `src/lifter/mc2llvm.h` creates. A `Value *` is the node with
-- its operands; a node whose result depends on when it runs has the number of its creation.
use bpf_tv.Common.{ℕ, Option, List, String}

pub data Ty : Type 0 where
  int : ℕ → Ty
  ptr void floating vector aggregate : Ty

-- `getBitWidth(Type *)` on integers and pointers, the only values of BPF code.
abbrev pub get_bit_width_ty : Ty → ℕ
get_bit_width_ty (int w) = w
get_bit_width_ty ptr = 64
get_bit_width_ty _ = 0

pub data BinOp : Type 0 where
  add sub mul udiv sdiv urem srem shl lshr ashr and or xor : BinOp

pub data Predicate : Type 0 where
  eq ne ugt uge ult ule sgt sge slt sle : Predicate

pub data CastOp : Type 0 where
  trunc zext sext ptr_to_int int_to_ptr : CastOp

pub data RmwOp : Type 0 where
  add and or xor xchg : RmwOp

pub data Value : Type 0 where
  const : ℕ → ℕ → Value
  alloca : ℕ → Value
  global : String → Value
  argument : Ty → ℕ → Value
  result : Ty → ℕ → Value
  extract_value : Ty → Value → ℕ → Value
  binop : BinOp → Value → Value → Value
  icmp : Predicate → Value → Value → Value
  cast : CastOp → Value → Ty → Value
  bswap : Value → Value
  gep : Value → Value → Value

abbrev pub type_of : Value → Ty
type_of (const w n) = int w
type_of (alloca k) = ptr
type_of (global g) = ptr
type_of (argument t k) = t
type_of (result t k) = t
type_of (extract_value t v k) = t
type_of (binop op a b) = type_of a
type_of (icmp p a b) = int 1
type_of (cast op v t) = t
type_of (bswap v) = type_of v
type_of (gep p i) = ptr

pub data Instr : Type 0 where
  compute : Value → Instr
  make_alloca : ℕ → ℕ → Instr
  load : ℕ → Ty → Value → Instr
  store : Value → Value → Instr
  atomic_rmw : ℕ → RmwOp → Value → Value → Instr
  cmp_xchg : ℕ → Value → Value → Value → Instr
  call : ℕ → String → Ty → List Value → Instr
  br : ℕ → Instr
  cond_br : Value → ℕ → ℕ → Instr
  ret : Option Value → Instr
  trap : Instr
