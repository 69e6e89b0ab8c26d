-- ===== src/Support/Adjust.antt =====
-- The return type of the source function: `adjustSrc` (src/lifter/mc2llvm.cpp).
use bpf_tv.Common.{
  ℕ, ltb, leb, ◌==◌, ◌&&◌, ◌||◌, not, Bool, if◌then◌else◌, Option, none, some, List, [], ◌∷◌,
  Result, ok, err, assertion, fault,
}
use bpf_tv.Support.{IrType, is_floating, is_vector, is_integer, is_pointer, is_void, SourceFunction}
use bpf_tv.Support.Checks.{Check, require, checks}

-- What is done to the value of every `ret`, in order.
pub data ReturnStep : Type 0 where
  bitcast_to : ℕ → ReturnStep
  zext_to : ℕ → ReturnStep
  sext_to : ℕ → ReturnStep

-- What `adjustSrc` leaves in `mc2llvm`, and how it changes the function.
pub record Adjusted : Type 0 where
  pub orig_ret_width : ℕ
  pub has_ret_attr : Bool
  pub actual_ret_type : IrType
  pub steps : List ReturnStep
  pub rets : List (Option IrType)

abbrev pub extension : SourceFunction → ℕ → List ReturnStep
extension f width =
    if f.ret_zext
    then ReturnStep.zext_to 64 ∷ []
    else if ltb width 32
    then ReturnStep.sext_to 32 ∷ ReturnStep.zext_to 64 ∷ []
    else ReturnStep.sext_to 64 ∷ []

abbrev pub as_integer : IrType → ℕ → List ReturnStep → List ReturnStep
as_integer t width steps = if is_vector t then ReturnStep.bitcast_to width ∷ steps else steps

-- The type after a cast. The constructors of LLVM's casts assert that the type before it fits: a
-- vector without pointers of that many bits for a bit cast, a shorter integer for an extension.
abbrev pub cast_type : (IrType → ℕ) → ReturnStep → IrType → Result IrType
cast_type size (ReturnStep.bitcast_to k) (IrType.vec elt n) =
    if not (is_pointer elt) && size (IrType.vec elt n) == k
    then ok (IrType.integer k)
    else err assertion
cast_type size (ReturnStep.zext_to k) (IrType.integer w) =
    if ltb w k then ok (IrType.integer k) else err assertion
cast_type size (ReturnStep.sext_to k) (IrType.integer w) =
    if ltb w k then ok (IrType.integer k) else err assertion
cast_type size _ _ = err assertion

abbrev pub cast_all : (IrType → ℕ) → List ReturnStep → IrType → Result IrType
cast_all size [] t = ok t
cast_all size (step ∷ steps) t = elim (cast_type size step t) [
  | err e ↦ err e
  | ok u ↦ cast_all size steps u
]

-- The new `ret`. Without a value `getReturnValue` gives a null pointer, which is used.
abbrev pub widen_ret : (IrType → ℕ) → List ReturnStep → Option IrType → Result (Option IrType)
widen_ret size steps none = err fault
widen_ret size steps (some t) = elim (cast_all size steps t) [ err e ↦ err e | ok u ↦ ok (some u) ]

abbrev pub widen_rets :
    (IrType → ℕ) → List ReturnStep → List (Option IrType) → Result (List (Option IrType))
widen_rets size steps [] = ok []
widen_rets size steps (r ∷ rs) = elim (widen_ret size steps r) [
  | err e ↦ err e
  | ok r' ↦ elim (widen_rets size steps rs) [ err e ↦ err e | ok rs' ↦ ok (r' ∷ rs') ]
]

abbrev pub with_rets : Adjusted → Result (List (Option IrType)) → Result Adjusted
with_rets a (ok rs) = ok (record a { rets = rs })
with_rets a (err e) = err e

-- A return value with an extension attribute is widened.
unfoldable pub widened : (IrType → ℕ) → SourceFunction → ℕ → Result Adjusted
widened size f width =
    let attr = f.ret_sext || f.ret_zext in
    let steps = as_integer f.ret_type width (extension f width) in
    if attr && (not (width == 32) && not (width == 64))
    then with_rets
        record {
          orig_ret_width = width;
          has_ret_attr = attr;
          actual_ret_type = IrType.integer 64;
          steps = steps;
          rets = [];
        }
        (widen_rets size steps f.rets)
    else ok record {
      orig_ret_width = width;
      has_ret_attr = attr;
      actual_ret_type = f.ret_type;
      steps = [];
      rets = f.rets;
    }

abbrev pub return_limit : IrType → ℕ
return_limit t = if is_vector t then 128 else 64

module _ (type_size : IrType → ℕ) where
  abbrev pub width_of_return : IrType → ℕ
  width_of_return t = if is_void t then 0 else type_size t

  abbrev pub is_return_type : IrType → Bool
  is_return_type t = is_integer t || (is_vector t || (is_pointer t || (is_void t || is_floating t)))

  abbrev pub return_checks : IrType → List Check
  return_checks t =
      require (is_return_type t) "Unsupported Function Return Type"
      ∷ require (leb (width_of_return t) (return_limit t)) "Return values larger than supported"
      ∷ []

  unfoldable pub check_return : IrType → Check
  check_return t = checks (return_checks t)

  unfoldable pub adjust_src : SourceFunction → Result Adjusted
  unfolding check_return widened
  adjust_src f = elim (check_return f.ret_type) [
    | err e ↦ err e
    | ok u ↦ widened type_size f (width_of_return f.ret_type)
  ]
