-- ===== src/Support.antt =====
-- The source function as the checks before lifting see it (src/lifter/mc2llvm.cpp,
-- src/lifter/bpf2llvm.cpp): LLVM types, instructions and functions, with what is asked of them.
pub mod Checks
pub mod Adjust
pub mod Accepted
pub mod Returned
use bpf_tv.Common.{ℕ, Bool, true, false, ◌||◌, Option, List, [], ◌∷◌, String}

-- `other_float` has every floating-point type but `float` and `double`; `other_type` has labels,
-- metadata and tokens. A pointer has its address space.
mutual
  pub data IrType : Type 0 where
    integer : ℕ → IrType
    float_ty double_ty other_float void_ty other_type : IrType
    pointer : ℕ → IrType
    vec : IrType → ℕ → IrType
    arr : IrType → ℕ → IrType
    structure : IrTypes → IrType

  pub data IrTypes : Type 0 where
    nil : IrTypes
    cons : IrType → IrTypes → IrTypes

abbrev pub is_floating : IrType → Bool
is_floating IrType.float_ty = true
is_floating IrType.double_ty = true
is_floating IrType.other_float = true
is_floating _ = false

abbrev pub is_vector : IrType → Bool
is_vector (IrType.vec t n) = true
is_vector _ = false

abbrev pub is_array : IrType → Bool
is_array (IrType.arr t n) = true
is_array _ = false

abbrev pub is_struct : IrType → Bool
is_struct (IrType.structure ts) = true
is_struct _ = false

abbrev pub is_integer : IrType → Bool
is_integer (IrType.integer w) = true
is_integer _ = false

abbrev pub is_pointer : IrType → Bool
is_pointer (IrType.pointer s) = true
is_pointer _ = false

abbrev pub is_void : IrType → Bool
is_void IrType.void_ty = true
is_void _ = false

-- `hasPtr`
unfoldable mutual
  pub has_ptr : IrType → Bool
  has_ptr (IrType.pointer s) = true
  has_ptr (IrType.structure ts) = any_has_ptr ts
  has_ptr (IrType.arr t n) = has_ptr t
  has_ptr (IrType.vec t n) = has_ptr t
  has_ptr _ = false

  pub any_has_ptr : IrTypes → Bool
  any_has_ptr IrTypes.nil = false
  any_has_ptr (IrTypes.cons t ts) = has_ptr t || any_has_ptr ts

pub data CallConv : Type 0 where
  c_conv fast_conv other_conv : CallConv

pub record Argument : Type 0 where
  pub type : IrType
  pub is_byval : Bool
  pub is_sext : Bool
  pub is_zext : Bool

-- The function that a call names.
pub record Callee : Type 0 where
  pub name : String
  pub conv : CallConv
  pub is_intrinsic : Bool
  pub is_constrained_fp : Bool
  pub is_var_arg : Bool
  pub args : List Argument

-- `callee` is `getCalledFunction()`. Without one, `mismatched` tells whether a function of another
-- type is called, and whether it has variable arguments. `metadata` are the strings among the
-- arguments.
pub record CallSite : Type 0 where
  pub callee : Option Callee
  pub mismatched : Option Bool
  pub metadata : List String

pub data InstKind : Type 0 where
  va_arg invoke other_inst : InstKind
  alloca : Bool → Option ℕ → InstKind
  call_inst : CallSite → InstKind

-- `is_asm` says that the instruction calls inline assembly. An alloca has whether it is static and its
-- size, if that is known.
pub record SourceInst : Type 0 where
  pub type : IrType
  pub operands : List IrType
  pub is_volatile : Bool
  pub is_atomic : Bool
  pub is_asm : Bool
  pub kind : InstKind

-- A global that a copy reads: whether it is a constant with an initializer, and its type.
pub record SourceGlobal : Type 0 where
  pub is_constant : Bool
  pub has_initializer : Bool
  pub value_type : IrType

-- A `memcpy` or `memmove`: whether it writes an object that escapes, its length, if that is a
-- constant, and the global variable it reads, if it reads one.
pub record MemTransfer : Type 0 where
  pub into_escaped : Bool
  pub len : Option ℕ
  pub src : Option SourceGlobal

-- `rets` has the type of the value of every `ret`, none for `ret void`. `escaped` has the debug line
-- of the alloca of every object in `escapingStackObjects`.
pub record SourceFunction : Type 0 where
  pub conv : CallConv
  pub is_available_externally : Bool
  pub has_personality : Bool
  pub args : List Argument
  pub ret_type : IrType
  pub ret_sext : Bool
  pub ret_zext : Bool
  pub insts : List SourceInst
  pub rets : List (Option IrType)
  pub transfers : List MemTransfer
  pub escaped : List (Option ℕ)
