-- ===== src/Llvm/Model.antt =====
-- Operations that meet the laws of `LangRef`, so that lifted code can be run on inputs.
use bpf_tv.Common.{
  ℕ, ◌+◌, ◌-◌, ◌*◌, ◌/◌, ◌%◌, ◌^◌, ◌<◌, bit_and, bit_or, bit_xor, ◌≡◌, ◌≢◌, refl, Bool, not, ltb,
  leb, ◌==◌, if◌then◌else◌, Option, none, some, arith, ap,
}
use bpf_tv.Words.{to_word, signed, quot, rem, shr_ℤ, ltb_ℤ}
use bpf_tv.Llvm.Ir.{BinOp, Predicate, CastOp}
use bpf_tv.Llvm.LangRef.{LangRef, byte_swap}

abbrev binop : BinOp → ℕ → ℕ → ℕ → Option ℕ
binop BinOp.add w a b = some ((a + b) % 2 ^ w)
binop BinOp.sub w a b = some ((a + (2 ^ w - b)) % 2 ^ w)
binop BinOp.mul w a b = some (a * b % 2 ^ w)
binop BinOp.udiv w a b = if b == 0 then none else some (a / b)
binop BinOp.sdiv w a b = if b == 0 then none else some (to_word w (quot (signed w a) (signed w b)))
binop BinOp.urem w a b = if b == 0 then none else some (a % b)
binop BinOp.srem w a b = if b == 0 then none else some (to_word w (rem (signed w a) (signed w b)))
binop BinOp.shl w a b = if ltb b w then some (a * 2 ^ b % 2 ^ w) else none
binop BinOp.lshr w a b = if ltb b w then some (a / 2 ^ b) else none
binop BinOp.ashr w a b = if ltb b w then some (to_word w (shr_ℤ (signed w a) b)) else none
binop BinOp.and w a b = some (bit_and a b)
binop BinOp.or w a b = some (bit_or a b)
binop BinOp.xor w a b = some (bit_xor a b)

abbrev icmp : Predicate → ℕ → ℕ → ℕ → Bool
icmp Predicate.eq w a b = a == b
icmp Predicate.ne w a b = not (a == b)
icmp Predicate.ugt w a b = ltb b a
icmp Predicate.uge w a b = leb b a
icmp Predicate.ult w a b = ltb a b
icmp Predicate.ule w a b = leb a b
icmp Predicate.sgt w a b = ltb_ℤ (signed w b) (signed w a)
icmp Predicate.sge w a b = not (ltb_ℤ (signed w a) (signed w b))
icmp Predicate.slt w a b = ltb_ℤ (signed w a) (signed w b)
icmp Predicate.sle w a b = not (ltb_ℤ (signed w b) (signed w a))

abbrev cast : CastOp → ℕ → ℕ → ℕ → ℕ
cast CastOp.trunc w v a = a % 2 ^ v
cast CastOp.zext w v a = a
cast CastOp.sext w v a = to_word v (signed w a)
cast CastOp.ptr_to_int w v a = a % 2 ^ v
cast CastOp.int_to_ptr w v a = a

pub if_ne {ℓ} : {A : Type ℓ} (b : ℕ) (x y : A) → b ≢ 0 → (if b == 0 then x else y) ≡ y
if_ne b x y h = ground arith

pub if_lt {ℓ} : {A : Type ℓ} (b w : ℕ) (x y : A) → b < w → (if ltb b w then x else y) ≡ x
if_lt b w x y h = ground arith

pub bswap-eq : (k a : ℕ) → byte_swap (8 * k / 8) a ≡ byte_swap k a
bswap-eq k a = ap (λ (j : ℕ). byte_swap j a) (omega arith)

abbrev pub langref : LangRef
langref = record {
  binop = binop;
  icmp = icmp;
  cast = cast;
  bswap = λ w a. byte_swap (w / 8) a;
  gep = λ p i. (p + i) % 2 ^ 64;
  add_lem = λ w a b. refl;
  sub_lem = λ w a b. refl;
  mul_lem = λ w a b. refl;
  and_lem = λ w a b. refl;
  or_lem = λ w a b. refl;
  xor_lem = λ w a b. refl;
  udiv_lem = λ w a b h. if_ne b none (some (a / b)) h;
  urem_lem = λ w a b h. if_ne b none (some (a % b)) h;
  sdiv_lem = λ w a b h _. if_ne b none (some (to_word w (quot (signed w a) (signed w b)))) h;
  srem_lem = λ w a b h _. if_ne b none (some (to_word w (rem (signed w a) (signed w b)))) h;
  shl_lem = λ w a b h. if_lt b w (some (a * 2 ^ b % 2 ^ w)) none h;
  lshr_lem = λ w a b h. if_lt b w (some (a / 2 ^ b)) none h;
  ashr_lem = λ w a b h. if_lt b w (some (to_word w (shr_ℤ (signed w a) b))) none h;
  eq_lem = λ w a b. refl;
  ne_lem = λ w a b. refl;
  ugt_lem = λ w a b. refl;
  uge_lem = λ w a b. refl;
  ult_lem = λ w a b. refl;
  ule_lem = λ w a b. refl;
  sgt_lem = λ w a b. refl;
  sge_lem = λ w a b. refl;
  slt_lem = λ w a b. refl;
  sle_lem = λ w a b. refl;
  trunc_lem = λ w v a. refl;
  zext_lem = λ w v a. refl;
  sext_lem = λ w v a. refl;
  ptr_to_int_lem = λ w v a. refl;
  int_to_ptr_lem = λ w v a. refl;
  bswap_lem = λ k a. bswap-eq k a;
  gep_lem = λ p i. refl;
}
