-- ===== src/Support/Checks.antt =====
-- `checkSupport` and what it calls (src/lifter/mc2llvm.cpp, src/lifter/bpf2llvm.cpp).
use bpf_tv.Common.{
  ℕ, ◌+◌, ◌*◌, ◌/◌, ltb, leb, ◌==◌, ◌&&◌, ◌||◌, not, any, Bool, true, false, if◌then◌else◌, Option,
  none, some, List, [], ◌∷◌, ◌++◌, map, String, Result, ok, err, message, length,
}
use text.Mathlib.Text.{◌==◌ as str_eq, find?}
use bpf_tv.Backend.{StackSlot}
use bpf_tv.Bpf.Setup.{stack_bytes}
use bpf_tv.Support.{
  IrType, is_floating, is_vector, is_array, is_struct, is_integer, is_pointer, has_ptr, CallConv,
  Argument, Callee, CallSite, InstKind, SourceInst, SourceGlobal, MemTransfer, SourceFunction,
}

abbrev pub Check : Type 0
Check = Result (Unit {0})

abbrev pub require : Bool → String → Check
require true m = ok tt
require false m = err (message m)

-- Checks in order, up to the first error.
abbrev pub checks : List Check → Check
checks [] = ok tt
checks (ok u ∷ cs) = checks cs
checks (err e ∷ cs) = err e

abbrev pub each {ℓ} : {A : Type ℓ} → (A → Check) → List A → Check
each f xs = checks (map f xs)

abbrev pub bits_64 : IrType → Bool
bits_64 (IrType.integer w) = leb w 64
bits_64 _ = true

unfoldable pub check_type_support : IrType → Check
check_type_support t = checks (
    require (not (is_vector t)) "vectors not supported on BPF"
    ∷ require (not (is_floating t)) "floating point not supported on BPF"
    ∷ require (bits_64 t) "integers wider than 64 bits not supported yet"
    ∷ [])

abbrev pub is_supported_conv : CallConv → Bool
is_supported_conv CallConv.other_conv = false
is_supported_conv _ = true

unfoldable pub check_calling_conv : CallConv → Check
check_calling_conv cc = require (is_supported_conv cc) "Only the C calling convention is supported"

unfoldable pub check_arg_support : Argument → Check
check_arg_support a =
    require (is_integer a.type || is_pointer a.type)
      "only integer/pointer arguments supported on BPF"

abbrev pub short_vectors : String
short_vectors = "Only short vectors 8 and 16 bytes long are supported"

-- The width of an element, if vectors may have it.
abbrev pub element_width : IrType → Result ℕ
element_width (IrType.integer w) =
    if (w == 8) || ((w == 16) || ((w == 32) || (w == 64)))
    then ok w
    else err (message short_vectors)
element_width IrType.float_ty = ok 32
element_width IrType.double_ty = ok 64
element_width _ = err (message "Only vectors of integer, f32, f64, supported for now")

abbrev pub check_vector_size : ℕ → Check
check_vector_size size = require ((size == 8) || (size == 16)) short_vectors

unfoldable pub check_vector_ty : IrType → ℕ → Check
check_vector_ty elt count = elim (element_width elt) [
  | err e ↦ err e
  | ok w ↦ check_vector_size (count * w / 8)
]

abbrev pub check_if_vector : IrType → Check
unfolding check_vector_ty
check_if_vector (IrType.vec elt n) = check_vector_ty elt n
check_if_vector _ = ok tt

abbrev pub contains : String → String → Bool
contains s t = elim (find? s t) [ none ↦ false | some k ↦ true ]

unfoldable pub avoid_arg_md : List String → String → Check
avoid_arg_md metadata s =
    require (not (any (λ m. str_eq m s) metadata)) "rounding mode not supported"

abbrev pub check_callee_arg : Argument → Check
unfolding check_vector_ty
check_callee_arg a = checks (
    check_if_vector a.type
    ∷ require (not a.is_byval) "we don't support the byval parameter attribute yet"
    ∷ [])

abbrev pub check_intrinsic : Callee → List String → Check
unfolding avoid_arg_md
check_intrinsic c metadata =
    if c.is_constrained_fp || contains c.name "llvm.fptrunc.round"
    then each (avoid_arg_md metadata) (
        "round.dynamic" ∷ "round.downward" ∷ "round.upward" ∷ "round.towardzero"
        ∷ "round.tonearestaway" ∷ [])
    else ok tt

abbrev pub check_callee : Callee → List String → Check
unfolding check_calling_conv check_intrinsic check_callee_arg
check_callee c metadata = checks (
    check_calling_conv c.conv
    ∷ (if c.is_intrinsic then check_intrinsic c metadata else each check_callee_arg c.args)
    ∷ require (str_eq c.name "llvm.fake.use" || not c.is_var_arg) "varargs not supported"
    ∷ require (not (contains c.name "llvm.memcpy.element.unordered.atomic"))
        "atomic instrinsics not supported"
    ∷ require (not (contains c.name "llvm.objc")) "llvm.objc instrinsics not supported"
    ∷ require (not (contains c.name "llvm.thread")) "llvm.thread instrinsics not supported"
    ∷ require
        (not
          (contains c.name "llvm.experimental.gc" || contains c.name "llvm.experimental.stackmap"))
        "llvm GC instrinsics not supported"
    ∷ [])

abbrev pub check_call : Option Callee → CallSite → Check
unfolding check_callee
check_call (some c) site = check_callee c site.metadata
check_call none site = elim site.mismatched [
  | none ↦ ok tt
  | some var_arg ↦ require (not var_arg) "varargs not supported"
]

abbrev pub check_operand : IrType → Check
check_operand (IrType.pointer space) =
    require (space == 0) "address spaces other than 0 are unsupported"
check_operand _ = ok tt

-- The checks before and after the one on inline assembly.
abbrev pub check_kind : InstKind → Check
check_kind InstKind.va_arg = err (message "va_arg instructions not supported")
check_kind InstKind.invoke = err (message "invoke instructions not supported")
check_kind (InstKind.alloca static size) = require static "only static allocas supported for now"
check_kind _ = ok tt

abbrev pub check_if_call : InstKind → Check
unfolding check_call
check_if_call (InstKind.call_inst site) = check_call site.callee site
check_if_call _ = ok tt

unfoldable pub inst_checks : SourceInst → List Check
unfolding check_if_call
inst_checks i =
    each check_operand i.operands
    ∷ require (not i.is_volatile) "volatiles not supported"
    ∷ require (not i.is_atomic) "atomics not supported yet"
    ∷ check_kind i.kind
    ∷ require (not i.is_asm) "inline assembly not supported"
    ∷ check_if_call i.kind
    ∷ []

unfoldable pub check_inst_support : SourceInst → Check
unfolding inst_checks
check_inst_support i = checks (inst_checks i)

abbrev pub with_element : IrType → List IrType
with_element (IrType.vec elt n) = IrType.vec elt n ∷ elt ∷ []
with_element t = t ∷ []

abbrev pub operand_types : List IrType → List IrType
operand_types [] = []
operand_types (t ∷ ts) = with_element t ++ operand_types ts

-- `typeSet`
unfoldable pub type_set : List SourceInst → List IrType
type_set [] = []
type_set (i ∷ is) = i.type ∷ operand_types i.operands ++ type_set is

abbrev pub alloca_size : InstKind → ℕ
alloca_size (InstKind.alloca static (some n)) = n
alloca_size _ = 0

unfoldable pub total_allocas : List SourceInst → ℕ
total_allocas [] = 0
total_allocas (i ∷ is) = alloca_size i.kind + total_allocas is

-- A copy into an escaping object is short, or from a constant global without pointers.
abbrev pub is_short : Option ℕ → Bool
is_short none = false
is_short (some n) = ltb n 8

abbrev pub has_no_pointers : Option SourceGlobal → Bool
unfolding has_ptr
has_no_pointers none = false
has_no_pointers (some g) = g.is_constant && (g.has_initializer && not (has_ptr g.value_type))

abbrev pub check_transfer : MemTransfer → Check
unfolding has_no_pointers
check_transfer t =
    require (not t.into_escaped || (is_short t.len || has_no_pointers t.src))
      "memcpy into an escaping stack object from possibly-pointer-carrying memory"

abbrev pub is_covered_line : List StackSlot → Option ℕ → Bool
is_covered_line slots none = false
is_covered_line slots (some l) = any (λ s. s.line == l) slots

abbrev pub every {ℓ} : {A : Type ℓ} → (A → Bool) → List A → Bool
every p [] = true
every p (x ∷ xs) = p x && every p xs

-- Every escaping object has the line of a slot, and there are slots.
unfoldable pub is_covered : Option (List StackSlot) → List (Option ℕ) → Bool
is_covered none lines = false
is_covered (some []) lines = false
is_covered (some (s ∷ ss)) lines = every (is_covered_line (s ∷ ss)) lines

unfoldable pub func_checks : Option (List StackSlot) → SourceFunction → List Check
unfolding check_transfer is_covered
func_checks slots f =
    each check_transfer f.transfers
    ∷ require (not (ltb 1 (length f.escaped)) || is_covered slots f.escaped)
        "distinct stack objects escape to callees"
    ∷ []

-- `allow` is the option `-allow-stack-escape`.
unfoldable pub check_func_support : Bool → Option (List StackSlot) → SourceFunction → Check
unfolding func_checks
check_func_support allow slots f = if allow then ok tt else checks (func_checks slots f)

module _ (type_size : IrType → ℕ) where
  unfoldable pub check_arg_size : IrType → Check
  unfolding check_vector_ty
  check_arg_size (IrType.vec elt n) = checks (
      check_vector_ty elt n
      ∷ require (leb (type_size (IrType.vec elt n)) 128) "Vector arguments >128 bits not supported"
      ∷ [])
  check_arg_size t = require (leb (type_size t) 64) "Unsupported function argument"

  unfoldable pub arg_checks : Argument → List Check
  unfolding check_arg_support check_arg_size
  arg_checks a =
      check_arg_support a
      ∷ require (not a.is_byval) "we don't support the byval parameter attribute yet"
      ∷ require (not (is_struct a.type)) "we don't support structures in arguments yet"
      ∷ require (not (is_array a.type)) "we don't support arrays in arguments yet"
      ∷ check_arg_size a.type
      ∷ []

  unfoldable pub check_arg : Argument → Check
  unfolding arg_checks
  check_arg a = checks (arg_checks a)

  unfoldable pub support_checks : Bool → Option (List StackSlot) → SourceFunction → List Check
  unfolding check_calling_conv check_func_support check_arg check_if_vector check_inst_support
      type_set total_allocas check_type_support
  support_checks allow slots f =
      check_calling_conv f.conv
      ∷ check_func_support allow slots f
      ∷ require (not f.is_available_externally)
          "function has externally_available linkage type and won't be codegenned"
      ∷ require (not f.has_personality) "personality functions not supported"
      ∷ each check_arg f.args
      ∷ check_if_vector f.ret_type
      ∷ require (not (is_struct f.ret_type)) "we don't support structures in return values yet"
      ∷ require (not (is_array f.ret_type)) "we don't support arrays in return values yet"
      ∷ each check_inst_support f.insts
      ∷ require (ltb (total_allocas f.insts) stack_bytes) "Stack frame too large"
      ∷ each check_type_support (type_set f.insts)
      ∷ []

  -- `checkSupport`; `type_size` is the data layout's `getTypeSizeInBits`.
  unfoldable pub check_support : Bool → Option (List StackSlot) → SourceFunction → Check
  unfolding support_checks
  check_support allow slots f = checks (support_checks allow slots f)
