-- ===== src/Bpf/Regs.antt =====
-- The register file, and values that the machine leaves unspecified (src/lifter/bpf2llvm.cpp).
pub mod Access
pub mod Unspecified
pub mod Fresh
use bpf_tv.Common.{
  ℕ, ◌+◌, ◌-◌, ◌/◌, Bool, true, false, ◌==◌, ltb, leb, ◌&&◌, if◌then◌else◌, update, Option, some,
  ok, err, fault, assertion,
}
use bpf_tv.Llvm.Ir.{Ty, int, ptr, void, Value, type_of}
use bpf_tv.Mc.Inst.{Register, r, w}
use bpf_tv.Lifter.State.{Lifter, M, ◌>>=◌, ◌>>◌, pure, assert, lift_option}
use bpf_tv.Lifter.Build.{
  get_bit_width, get_unsigned_int_const, create_load, create_store, create_gep, create_trunc,
  create_zext, create_sext, create_raw_shl, create_or, create_alloca,
}

unfoldable pub is_w_reg : Register → Bool
is_w_reg (r n) = false
is_w_reg (w n) = leb n 11

-- A register by its number in the backing file, or an alias of its lower half.
unfoldable pub map_reg_to_backing_reg : Register → M ℕ
unfolding is_w_reg
map_reg_to_backing_reg (w n) = do assert (is_w_reg (w n)); pure n
map_reg_to_backing_reg (r n) = do assert (leb n 11); pure n

unfoldable pub lookup_reg : Register → M Value
unfolding map_reg_to_backing_reg
lookup_reg reg = do n ← map_reg_to_backing_reg reg; λ s. lift_option fault (s.reg_file n) s

unfoldable pub read_reg_64 : Register → M Value
unfolding lookup_reg create_load
read_reg_64 reg = do p ← lookup_reg reg; create_load (int 64) p

unfoldable pub read_reg_32 : Register → M Value
unfolding read_reg_64 create_trunc
read_reg_32 reg = do v ← read_reg_64 reg; create_trunc v (int 32)

unfoldable pub update_reg_64 : Value → Register → M (Unit {0})
unfolding lookup_reg create_store get_bit_width
update_reg_64 v reg = do assert (get_bit_width v == 64); p ← lookup_reg reg; create_store v p

unfoldable pub update_reg_32 : Value → Register → M (Unit {0})
unfolding update_reg_64 create_zext get_bit_width
update_reg_32 v reg = do
  assert (get_bit_width v == 32)
  wide ← create_zext v (int 64)
  update_reg_64 wide reg

abbrev pub unspecified_mem_bytes : ℕ
unspecified_mem_bytes = 65536

-- A fresh part of a constant global whose contents nobody knows.
unfoldable pub unspecified_value : ℕ → M Value
unfolding get_unsigned_int_const create_gep create_load
unspecified_value width = do
  let bytes = (width + 7) / 8
  (λ s. assert (leb (s.unspecified_off + bytes) unspecified_mem_bytes) s)
  off ← (λ s. get_unsigned_int_const s.unspecified_off 64 s)
  p ← create_gep (Value.global "__bpf_tv_unspecified") off
  (λ s. ok (tt, record s { unspecified_off = s.unspecified_off + bytes }))
  create_load (int width) p

-- Extend a value to 64 bits as its attributes say.
unfoldable pub extend : Bool → Bool → Value → M Value
unfolding create_zext create_sext get_bit_width
extend is_sext is_zext v = do
  z ← (if is_zext && ltb (get_bit_width v) 64 then create_zext v (int 64) else pure v)
  if is_sext && ltb (get_bit_width z) 64 then create_sext z (int 64) else pure z

-- Fill a value of `width` bits up to 64 bits with bits that nobody knows. The number of such bits
-- is unsigned: a wider value asks for more of them than there are.
unfoldable pub pad_bits : Value → ℕ → M Value
unfolding unspecified_value create_zext create_raw_shl create_or get_unsigned_int_const
pad_bits x width = do
  assert (leb width 64)
  if 64 - width == 0 then pure x else do
    junk ← unspecified_value (64 - width)
    ext1 ← create_zext junk (int 64)
    k ← get_unsigned_int_const width 64
    shifted ← create_raw_shl ext1 k
    ext2 ← create_zext x (int 64)
    create_or shifted ext2

-- Pad an integer to 64 bits: by its attribute, then with bits that nobody knows.
unfoldable pub pad_int : Bool → Bool → Value → M Value
unfolding extend pad_bits get_bit_width
pad_int is_sext is_zext v = do x ← extend is_sext is_zext v; pad_bits x (get_bit_width x)

abbrev enforce_at : Ty → Value → Bool → Bool → M Value
unfolding pad_int
enforce_at (int n) v is_sext is_zext = pad_int is_sext is_zext v
enforce_at ptr v is_sext is_zext = pure v
enforce_at void v is_sext is_zext = pure v
enforce_at _ v is_sext is_zext = λ s. err assertion

unfoldable pub enforce_sext_zext : Value → Bool → Bool → M Value
unfolding pad_int
enforce_sext_zext v is_sext is_zext = enforce_at (type_of v) v is_sext is_zext

unfoldable pub invalidate_reg : ℕ → ℕ → M (Unit {0})
unfolding unspecified_value create_store
invalidate_reg n width = do
  v ← unspecified_value width
  p ← (λ s. lift_option fault (s.reg_file n) s)
  create_store v p

unfoldable pub create_reg_storage : ℕ → ℕ → M (Unit {0})
unfolding create_alloca unspecified_value create_store
create_reg_storage n width = do
  a ← create_alloca width
  v ← unspecified_value width
  create_store v a
  λ s. ok (tt, record s { reg_file = update s.reg_file n (some a) })
