-- ===== src/Lifter/Checked.antt =====
-- Division and remainder with the cases that LLVM leaves undefined branched around:
-- `createCheckedUDiv` and its siblings of src/lifter/mc2llvm.cpp.
use bpf_tv.Common.{◌==◌}
use bpf_tv.Llvm.Ir.{int, Value, Predicate}
use bpf_tv.Lifter.State.{M, ◌>>=◌, ◌>>◌, assert}
use bpf_tv.Lifter.Build.{
  get_bit_width, get_unsigned_int_const, get_all_ones_const, get_signed_min_const, create_block,
  create_alloca, create_store, create_load, create_icmp, create_branch, create_cond_branch,
  create_udiv, create_sdiv, create_urem, create_srem, create_and, set_bb,
}

unfoldable pub create_checked_udiv : Value → Value → Value → M Value
unfolding get_bit_width get_unsigned_int_const create_block create_alloca create_store create_load
    create_icmp create_branch create_cond_branch create_udiv set_bb
create_checked_udiv a b if_div_by_zero = do
  let size = get_bit_width a
  let size_b = get_bit_width b
  assert (size == size_b)
  div_bb ← create_block ""
  ret_bb ← create_block ""
  zero ← get_unsigned_int_const 0 size
  res_ptr ← create_alloca size
  create_store if_div_by_zero res_ptr
  rhs_is_zero ← create_icmp Predicate.eq b zero
  create_cond_branch rhs_is_zero ret_bb div_bb
  set_bb div_bb
  div_result ← create_udiv a b
  create_store div_result res_ptr
  create_branch ret_bb
  set_bb ret_bb
  create_load (int size) res_ptr

unfoldable pub create_checked_sdiv : Value → Value → Value → Value → M Value
unfolding get_bit_width get_unsigned_int_const get_all_ones_const get_signed_min_const create_block
    create_alloca create_store create_load create_icmp create_branch create_cond_branch create_sdiv
    create_and set_bb
create_checked_sdiv a b if_div_by_zero if_overflow = do
  let size = get_bit_width a
  let size_b = get_bit_width b
  assert (size == size_b)
  check_overflow_bb ← create_block ""
  overflow_bb ← create_block ""
  div_bb ← create_block ""
  ret_bb ← create_block ""
  all_ones ← get_all_ones_const size
  zero ← get_unsigned_int_const 0 size
  res_ptr ← create_alloca size
  create_store if_div_by_zero res_ptr
  rhs_is_zero ← create_icmp Predicate.eq b zero
  create_cond_branch rhs_is_zero ret_bb check_overflow_bb
  set_bb check_overflow_bb
  int_min ← get_signed_min_const size
  lhs_is_int_min ← create_icmp Predicate.eq a int_min
  rhs_is_all_ones ← create_icmp Predicate.eq b all_ones
  is_overflow ← create_and lhs_is_int_min rhs_is_all_ones
  create_cond_branch is_overflow overflow_bb div_bb
  set_bb overflow_bb
  create_store if_overflow res_ptr
  create_branch ret_bb
  set_bb div_bb
  div_result ← create_sdiv a b
  create_store div_result res_ptr
  create_branch ret_bb
  set_bb ret_bb
  create_load (int size) res_ptr

unfoldable pub create_checked_urem : Value → Value → Value → M Value
unfolding get_bit_width get_unsigned_int_const create_block create_alloca create_store create_load
    create_icmp create_branch create_cond_branch create_urem set_bb
create_checked_urem a b if_div_by_zero = do
  let size = get_bit_width a
  let size_b = get_bit_width b
  assert (size == size_b)
  rem_bb ← create_block ""
  ret_bb ← create_block ""
  zero ← get_unsigned_int_const 0 size
  res_ptr ← create_alloca size
  create_store if_div_by_zero res_ptr
  rhs_is_zero ← create_icmp Predicate.eq b zero
  create_cond_branch rhs_is_zero ret_bb rem_bb
  set_bb rem_bb
  rem_result ← create_urem a b
  create_store rem_result res_ptr
  create_branch ret_bb
  set_bb ret_bb
  create_load (int size) res_ptr

unfoldable pub create_checked_srem : Value → Value → Value → Value → M Value
unfolding get_bit_width get_unsigned_int_const get_all_ones_const get_signed_min_const create_block
    create_alloca create_store create_load create_icmp create_branch create_cond_branch create_srem
    create_and set_bb
create_checked_srem a b if_div_by_zero if_overflow = do
  let size = get_bit_width a
  let size_b = get_bit_width b
  assert (size == size_b)
  check_overflow_bb ← create_block ""
  overflow_bb ← create_block ""
  rem_bb ← create_block ""
  ret_bb ← create_block ""
  all_ones ← get_all_ones_const size
  zero ← get_unsigned_int_const 0 size
  res_ptr ← create_alloca size
  create_store if_div_by_zero res_ptr
  rhs_is_zero ← create_icmp Predicate.eq b zero
  create_cond_branch rhs_is_zero ret_bb check_overflow_bb
  set_bb check_overflow_bb
  int_min ← get_signed_min_const size
  lhs_is_int_min ← create_icmp Predicate.eq a int_min
  rhs_is_all_ones ← create_icmp Predicate.eq b all_ones
  is_overflow ← create_and lhs_is_int_min rhs_is_all_ones
  create_cond_branch is_overflow overflow_bb rem_bb
  set_bb overflow_bb
  create_store if_overflow res_ptr
  create_branch ret_bb
  set_bb rem_bb
  rem_result ← create_srem a b
  create_store rem_result res_ptr
  create_branch ret_bb
  set_bb ret_bb
  create_load (int size) res_ptr
