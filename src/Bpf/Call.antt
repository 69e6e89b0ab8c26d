-- ===== src/Bpf/Call.antt =====
-- Calls: the calling convention on the caller's side, `doCall`, `doHelperCall` (src/lifter/bpf2llvm.cpp)
-- and `doDirectCall` (src/lifter/mc2llvm.cpp).
pub mod Arguments
use bpf_tv.Common.{
  ℕ, zero, suc, ◌+◌, ◌%◌, ◌/◌, ◌==◌, ltb, leb, ◌&&◌, ◌||◌, not, if◌then◌else◌, Bool, true, false,
  Option, none, some, List, [], ◌∷◌, ◌++◌, String, message, assertion, fault,
}
use Prim.Native.String.{◌++◌ as str_append}
use text.Mathlib.Text.{◌==◌ as str_eq}
use bpf_tv.Words.{ℤ, pos, negsuc}
use bpf_tv.Llvm.Ir.{Ty, int, ptr, void, aggregate, Value, const}
use bpf_tv.Mc.Inst.{Operand, reg, imm, expr, r}
use bpf_tv.Lifter.State.{Lifter, M, ◌>>=◌, ◌>>◌, pure, fail, assert, lift_option}
use bpf_tv.Lifter.Build.{
  create_call, create_trap, create_int_to_ptr, create_ptr_to_int, create_trunc,
}
use bpf_tv.Bpf.Regs.{read_reg_64, update_reg_64, enforce_sext_zext, invalidate_reg}
use bpf_tv.Bpf.Operands.{get_operand, get_symbol}

pub record Signature : Type 0 where
  pub ret : Ty
  pub params : List Ty

-- A global of the lifted module: its name, its address and, if it is a function, its type.
pub record Global : Type 0 where
  pub name : String
  pub value : Value
  pub signature : Option Signature

-- What the lifter reads of a call instruction of the source and of the function that it calls.
pub record CallInst : Type 0 where
  pub callee : Option String
  pub site_sext : Bool
  pub site_zext : Bool
  pub site_fastcall : Bool
  pub callee_sext : Bool
  pub callee_zext : Bool
  pub callee_fastcall : Bool

-- The function being lifted, and what the rest of the program answers: `lookupGlobal` after
-- `demangle`, and the source-side instruction of a line, `none` if there is none and `some none`
-- if it is no call.
pub record Env : Type 0 where
  pub bytes_mode : Bool
  pub ret_type : Ty
  pub orig_ret_width : ℕ
  pub has_ret_attr : Bool
  pub lookup_global : String → Option Global
  pub source_inst : ℕ → Option (Option CallInst)

unfoldable pub get_expr_var : Env → String → M Global
get_expr_var e name s = lift_option (message "global symbol not found") (e.lookup_global name) s

abbrev pub is_int_or_ptr : Ty → Bool
is_int_or_ptr (int n) = true
is_int_or_ptr ptr = true
is_int_or_ptr _ = false

abbrev pub marshall_as : Ty → Value → M Value
unfolding create_int_to_ptr create_trunc
marshall_as (int n) v = do assert (leb n 64); if ltb n 64 then create_trunc v (int n) else pure v
marshall_as _ v = create_int_to_ptr v

unfoldable pub marshall_from : ℕ → List Ty → M (List Value)
unfolding read_reg_64 create_int_to_ptr create_trunc
marshall_from n [] = pure []
marshall_from n (t ∷ ts) =
    let rest = marshall_from (suc n) ts in
    if not (is_int_or_ptr t)
    then fail (message "only integer/pointer call arguments supported")
    else if leb 5 n
    then fail (message "calls with more than 5 arguments not supported")
    else do v ← read_reg_64 (r (1 + n)); x ← marshall_as t v; xs ← rest; pure (x ∷ xs)

abbrev pub is_aggregate : Ty → Bool
is_aggregate aggregate = true
is_aggregate _ = false

unfoldable pub marshall_args : Signature → M (List Value)
unfolding marshall_from
marshall_args f =
    if is_aggregate f.ret
    then fail (message "aggregate return values not supported")
    else marshall_from 0 f.params

abbrev set_third : Value → List Value → M (List Value)
set_third v (a ∷ b ∷ c ∷ d ∷ xs) = pure (a ∷ b ∷ c ∷ v ∷ xs)
set_third v _ = fail fault

-- The intrinsics whose last argument is not in the assembly.
unfoldable pub has_immediate : String → Bool
has_immediate n =
    str_eq n "llvm.memset.p0.i64"
    || str_eq n "llvm.memset.p0.i32"
    || str_eq n "llvm.memcpy.p0.p0.i64"
    || str_eq n "llvm.memmove.p0.p0.i64"

-- `invalidateReg` of the registers from `n` on.
unfoldable pub invalidate_from : ℕ → ℕ → M (Unit {0})
unfolding invalidate_reg
invalidate_from n zero = pure tt
invalidate_from n (suc k) = do invalidate_reg n 64; invalidate_from (suc n) k

abbrev store_result : Ty → Value → M (Unit {0})
unfolding update_reg_64 create_ptr_to_int invalidate_reg
store_result (int n) v = update_reg_64 v (r 0)
store_result ptr v = do x ← create_ptr_to_int v (int 64); update_reg_64 x (r 0)
store_result void v = invalidate_reg 0 64
store_result _ v = fail assertion

unfoldable pub do_call : Signature → CallInst → String → M (Unit {0})
unfolding marshall_args has_immediate create_call enforce_sext_zext invalidate_from update_reg_64
    create_ptr_to_int invalidate_reg
do_call f ci callee_name = do
  args ← marshall_args f
  full ← (if has_immediate callee_name then set_third (const 1 0) args else pure args)
  c ← create_call callee_name f.ret full
  rv ← enforce_sext_zext c (ci.site_sext || ci.callee_sext) (ci.site_zext || ci.callee_zext)
  (if ci.site_fastcall || ci.callee_fastcall then pure tt else invalidate_from 1 5)
  store_result f.ret rv

abbrev digit : ℕ → String
digit n =
    if n == 0
    then "0"
    else if n == 1
    then "1"
    else if n == 2
    then "2"
    else if n == 3
    then "3"
    else if n == 4
    then "4"
    else if n == 5
    then "5"
    else if n == 6
    then "6"
    else if n == 7
    then "7"
    else if n == 8
    then "8"
    else "9"

-- Decimal digits; the number itself is fuel enough.
unfoldable pub decimal : ℕ → ℕ → String
decimal zero n = digit n
decimal (suc f) n =
    let front = decimal f (n / 10) in
    if ltb n 10 then digit n else str_append front (digit (n % 10))

unfoldable pub to_string : ℕ → String
unfolding decimal
to_string n = decimal n n

unfoldable pub helper_name : ℕ → String
unfolding to_string
helper_name n = str_append "__bpf_helper_" (to_string n)

-- `getCurLLVMInst()`, as a call.
unfoldable pub cur_call : Env → M CallInst
cur_call e s =
    lift_option (message "can't locate corresponding source-side call instruction")
      (elim s.cur_inst.loc [
        | none ↦ none
        | some l ↦ elim (e.source_inst l) [ none ↦ none | some c ↦ c ]
      ])
      s

abbrev called : Option String → String → Bool
called none n = false
called (some m) n = str_eq m n

-- A helper in bytes mode: five arguments of 64 bits.
unfoldable pub read_five : M (List Value)
unfolding read_reg_64
read_five = do
  a ← read_reg_64 (r 1)
  b ← read_reg_64 (r 2)
  c ← read_reg_64 (r 3)
  d ← read_reg_64 (r 4)
  f ← read_reg_64 (r 5)
  pure (a ∷ b ∷ c ∷ d ∷ f ∷ [])

unfoldable pub do_helper_call : Env → ℤ → M (Unit {0})
unfolding helper_name read_five create_call invalidate_from update_reg_64 cur_call do_call
    get_expr_var
do_helper_call e (negsuc n) = fail (message "negative helper ID")
do_helper_call e (pos n) =
    let name = helper_name n in
    if e.bytes_mode
    then (do
      args ← read_five
      c ← create_call name (int 64) args
      invalidate_from 1 5
      update_reg_64 c (r 0))
    else do
      ci ← cur_call e
      (if called ci.callee name then pure tt else fail (message "source-side callee differs"))
      g ← get_expr_var e name
      f ← (λ s. lift_option assertion g.signature s)
      do_call f ci name

unfoldable pub do_direct_call : Env → M (Unit {0})
unfolding get_operand get_expr_var create_trap cur_call do_call
do_direct_call e = do
  op ← get_operand 0
  n ← get_symbol op
  g ← get_expr_var e n
  if str_eq g.name "__stack_chk_fail"
      then create_trap
      else do f ← (λ s. lift_option assertion g.signature s); ci ← cur_call e; do_call f ci g.name
