-- ===== src/Lifter/Build.antt =====
-- The constructors of IR in src/lifter/mc2llvm.h that the BPF lifter uses. Each appends an
-- instruction to `LLVMBB` and returns its value.
use bpf_tv.Common.{
  ℕ, zero, suc, ◌-◌, ◌^◌, ◌==◌, ltb, if◌then◌else◌, true, false, none, some, Bool, update, ok, List,
  [], String, err, assertion, Option,
}
use text.Mathlib.Text.{◌==◌ as str_eq}
use bpf_tv.Words.{ℤ, to_word, fits_signed}
use bpf_tv.Llvm.Ir.{
  Ty, int, ptr, void, Value, const, BinOp, Predicate, CastOp, RmwOp, Instr, type_of,
  get_bit_width_ty,
}
use bpf_tv.Lifter.State.{M, ◌>>=◌, ◌>>◌, pure, assert, emit, lift_option}

abbrev pub ty_eq : Ty → Ty → Bool
ty_eq (int v) (int w) = v == w
ty_eq ptr ptr = true
ty_eq void void = true
ty_eq _ _ = false

-- `APInt(bits, val)` holds a value that fits, or an assertion fails.
unfoldable pub get_unsigned_int_const : ℕ → ℕ → M Value
get_unsigned_int_const val bits = do assert (ltb val (2 ^ bits)); pure (const bits val)

unfoldable pub get_signed_int_const : ℤ → ℕ → M Value
get_signed_int_const val bits = do
  assert (fits_signed bits val)
  pure (const bits (to_word bits val))

unfoldable pub get_all_ones_const : ℕ → M Value
get_all_ones_const bits = pure (const bits (2 ^ bits - 1))

unfoldable pub get_signed_min_const : ℕ → M Value
get_signed_min_const bits = pure (const bits (2 ^ (bits - 1)))

unfoldable pub get_bit_width : Value → ℕ
get_bit_width v = get_bit_width_ty (type_of v)

-- On the integer types; the vector types never reach the BPF lifter.
abbrev pub get_mask_by_type : Ty → M Value
get_mask_by_type (int w) = get_unsigned_int_const (w - 1) w
get_mask_by_type _ = λ s. err assertion

abbrev computed : Value → M Value
computed v s = ok (v, emit (Instr.compute v) s)

unfoldable pub create_alloca : ℕ → M Value
unfolding emit
create_alloca bits s = ok (Value.alloca s.next, emit (Instr.make_alloca s.next bits) s)

unfoldable pub create_gep : Value → Value → M Value
unfolding emit
create_gep v idx = computed (Value.gep v idx)

unfoldable pub create_branch : ℕ → M (Unit {0})
unfolding emit
create_branch dst s = ok (tt, emit (Instr.br dst) s)

unfoldable pub create_cond_branch : Value → ℕ → ℕ → M (Unit {0})
unfolding emit
create_cond_branch c t f s = ok (tt, emit (Instr.cond_br c t f) s)

unfoldable pub create_load : Ty → Value → M Value
unfolding emit
create_load ty p s = ok (Value.result ty s.next, emit (Instr.load s.next ty p) s)

unfoldable pub create_store : Value → Value → M (Unit {0})
unfolding emit
create_store v p s = ok (tt, emit (Instr.store v p) s)

unfoldable pub create_extract_value : Value → ℕ → M Value
unfolding emit
create_extract_value v k = computed (Value.extract_value (type_of v) v k)

unfoldable pub create_return : Option Value → M (Unit {0})
unfolding emit
create_return v s = ok (tt, emit (Instr.ret v) s)

unfoldable pub create_icmp : Predicate → Value → Value → M Value
unfolding emit
create_icmp p a b = computed (Value.icmp p a b)

unfoldable pub create_binop : Value → Value → BinOp → M Value
unfolding emit
create_binop a b op = computed (Value.binop op a b)

unfoldable pub create_udiv : Value → Value → M Value
unfolding emit
create_udiv a b = computed (Value.binop BinOp.udiv a b)

unfoldable pub create_sdiv : Value → Value → M Value
unfolding emit
create_sdiv a b = computed (Value.binop BinOp.sdiv a b)

unfoldable pub create_urem : Value → Value → M Value
unfolding emit
create_urem a b = computed (Value.binop BinOp.urem a b)

unfoldable pub create_srem : Value → Value → M Value
unfolding emit
create_srem a b = computed (Value.binop BinOp.srem a b)

unfoldable pub create_sub : Value → Value → M Value
unfolding emit
create_sub a b = computed (Value.binop BinOp.sub a b)

unfoldable pub create_and : Value → Value → M Value
unfolding emit
create_and a b = computed (Value.binop BinOp.and a b)

unfoldable pub create_or : Value → Value → M Value
unfolding emit
create_or a b = computed (Value.binop BinOp.or a b)

unfoldable pub create_raw_shl : Value → Value → M Value
unfolding emit
create_raw_shl a b = computed (Value.binop BinOp.shl a b)

unfoldable pub create_masked_lshr : Value → Value → M Value
unfolding emit get_unsigned_int_const
create_masked_lshr a b = do
  assert (ty_eq (type_of a) (type_of b))
  mask ← get_mask_by_type (type_of a)
  assert (ty_eq (type_of a) (type_of mask))
  masked ← computed (Value.binop BinOp.and mask b)
  computed (Value.binop BinOp.lshr a masked)

unfoldable pub create_masked_ashr : Value → Value → M Value
unfolding emit get_unsigned_int_const
create_masked_ashr a b = do
  assert (ty_eq (type_of a) (type_of b))
  mask ← get_mask_by_type (type_of a)
  assert (ty_eq (type_of a) (type_of mask))
  masked ← computed (Value.binop BinOp.and mask b)
  computed (Value.binop BinOp.ashr a masked)

unfoldable pub create_masked_shl : Value → Value → M Value
unfolding emit get_unsigned_int_const
create_masked_shl a b = do
  assert (ty_eq (type_of a) (type_of b))
  mask ← get_mask_by_type (type_of a)
  assert (ty_eq (type_of a) (type_of mask))
  masked ← computed (Value.binop BinOp.and mask b)
  computed (Value.binop BinOp.shl a masked)

unfoldable pub create_trunc : Value → Ty → M Value
unfolding emit
create_trunc v t = if ty_eq (type_of v) t then pure v else computed (Value.cast CastOp.trunc v t)

unfoldable pub create_sext : Value → Ty → M Value
unfolding emit
create_sext v t = computed (Value.cast CastOp.sext v t)

unfoldable pub create_zext : Value → Ty → M Value
unfolding emit
create_zext v t = computed (Value.cast CastOp.zext v t)

unfoldable pub create_ptr_to_int : Value → Ty → M Value
unfolding emit
create_ptr_to_int v t = computed (Value.cast CastOp.ptr_to_int v t)

unfoldable pub create_int_to_ptr : Value → M Value
unfolding emit
create_int_to_ptr v = computed (Value.cast CastOp.int_to_ptr v ptr)

unfoldable pub create_bswap : Value → M Value
unfolding emit
create_bswap v = computed (Value.bswap v)

unfoldable pub create_call : String → Ty → List Value → M Value
unfolding emit
create_call callee t args s = ok (Value.result t s.next, emit (Instr.call s.next callee t args) s)

unfoldable pub create_trap : M (Unit {0})
unfolding emit
create_trap s = ok (tt, emit Instr.trap s)

unfoldable pub create_atomic_rmw : RmwOp → Value → Value → M Value
unfolding emit
create_atomic_rmw op p v s =
    ok (Value.result (type_of v) s.next, emit (Instr.atomic_rmw s.next op p v) s)

-- The first part of the result is the value found in memory.
unfoldable pub create_cmp_xchg : Value → Value → Value → M Value
unfolding emit
create_cmp_xchg p expected v s =
    ok (Value.result (type_of v) s.next, emit (Instr.cmp_xchg s.next p expected v) s)

-- `BasicBlock::Create(Ctx, name, liftedFn)`, and `LLVMBB = bb`. LLVM renames a block whose name
-- another one has; here it keeps the name, and only the first of that name is found by it.
unfoldable pub create_block : String → M ℕ
create_block name s = ok (
  s.count,
  record s {
    count = suc s.count;
    names = update s.names s.count name;
    blocks = update s.blocks s.count [];
  },
)

unfoldable pub set_bb : ℕ → M (Unit {0})
set_bb bb s = ok (tt, record s { bb = bb })

-- The first block of that name, of the `todo` blocks from `k` on.
unfoldable pub find_block : ℕ → ℕ → (ℕ → String) → String → Option ℕ
find_block zero k names name = none
find_block (suc todo) k names name =
    if str_eq (names k) name then some k else find_block todo (suc k) names name

unfoldable pub get_bb_by_name : String → M ℕ
unfolding find_block
get_bb_by_name name s = lift_option assertion (find_block s.count 0 s.names name) s
