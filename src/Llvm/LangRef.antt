-- ===== src/Llvm/LangRef.antt =====
-- What the lifter relies on of LLVM's operations, as the language reference documents them: the
-- operations are parameters, and the laws fix their results wherever these are defined. `none` is
-- undefined behaviour or poison.
use bpf_tv.Common.{
  ℕ, zero, suc, ◌+◌, ◌-◌, ◌*◌, ◌/◌, ◌%◌, ◌^◌, ◌<◌, bit_and, bit_or, bit_xor, ◌≡◌, ◌≢◌, Bool, not,
  ltb, leb, ◌==◌, Option, some,
}
use bpf_tv.Words.{to_word, signed, quot, rem, shr_ℤ, ltb_ℤ}
use bpf_tv.Llvm.Ir.{BinOp, Predicate, CastOp}

-- The lowest `k` bytes of a word, last first.
abbrev pub byte_swap : ℕ → ℕ → ℕ
byte_swap zero x = 0
byte_swap (suc k) x = x % 256 * 256 ^ k + byte_swap k (x / 256)

pub record LangRef : Type 0 where
  pub binop : BinOp → ℕ → ℕ → ℕ → Option ℕ
  pub icmp : Predicate → ℕ → ℕ → ℕ → Bool
  pub cast : CastOp → ℕ → ℕ → ℕ → ℕ
  pub bswap : ℕ → ℕ → ℕ
  pub gep : ℕ → ℕ → ℕ
  pub add_lem : (w a b : ℕ) → binop BinOp.add w a b ≡ some ((a + b) % 2 ^ w)
  pub sub_lem : (w a b : ℕ) → binop BinOp.sub w a b ≡ some ((a + (2 ^ w - b)) % 2 ^ w)
  pub mul_lem : (w a b : ℕ) → binop BinOp.mul w a b ≡ some (a * b % 2 ^ w)
  pub and_lem : (w a b : ℕ) → binop BinOp.and w a b ≡ some (bit_and a b)
  pub or_lem : (w a b : ℕ) → binop BinOp.or w a b ≡ some (bit_or a b)
  pub xor_lem : (w a b : ℕ) → binop BinOp.xor w a b ≡ some (bit_xor a b)
  pub udiv_lem : (w a b : ℕ) → b ≢ 0 → binop BinOp.udiv w a b ≡ some (a / b)
  pub urem_lem : (w a b : ℕ) → b ≢ 0 → binop BinOp.urem w a b ≡ some (a % b)
  pub sdiv_lem :
      (w a b : ℕ)
      → b ≢ 0
      → ((a ≡ 2 ^ (w - 1)) × (b ≡ 2 ^ w - 1) → ⊥)
      → binop BinOp.sdiv w a b ≡ some (to_word w (quot (signed w a) (signed w b)))
  pub srem_lem :
      (w a b : ℕ)
      → b ≢ 0
      → ((a ≡ 2 ^ (w - 1)) × (b ≡ 2 ^ w - 1) → ⊥)
      → binop BinOp.srem w a b ≡ some (to_word w (rem (signed w a) (signed w b)))
  pub shl_lem : (w a b : ℕ) → b < w → binop BinOp.shl w a b ≡ some (a * 2 ^ b % 2 ^ w)
  pub lshr_lem : (w a b : ℕ) → b < w → binop BinOp.lshr w a b ≡ some (a / 2 ^ b)
  pub ashr_lem :
      (w a b : ℕ) → b < w → binop BinOp.ashr w a b ≡ some (to_word w (shr_ℤ (signed w a) b))
  pub eq_lem : (w a b : ℕ) → icmp Predicate.eq w a b ≡ (a == b)
  pub ne_lem : (w a b : ℕ) → icmp Predicate.ne w a b ≡ not (a == b)
  pub ugt_lem : (w a b : ℕ) → icmp Predicate.ugt w a b ≡ ltb b a
  pub uge_lem : (w a b : ℕ) → icmp Predicate.uge w a b ≡ leb b a
  pub ult_lem : (w a b : ℕ) → icmp Predicate.ult w a b ≡ ltb a b
  pub ule_lem : (w a b : ℕ) → icmp Predicate.ule w a b ≡ leb a b
  pub sgt_lem : (w a b : ℕ) → icmp Predicate.sgt w a b ≡ ltb_ℤ (signed w b) (signed w a)
  pub sge_lem : (w a b : ℕ) → icmp Predicate.sge w a b ≡ not (ltb_ℤ (signed w a) (signed w b))
  pub slt_lem : (w a b : ℕ) → icmp Predicate.slt w a b ≡ ltb_ℤ (signed w a) (signed w b)
  pub sle_lem : (w a b : ℕ) → icmp Predicate.sle w a b ≡ not (ltb_ℤ (signed w b) (signed w a))
  pub trunc_lem : (w v a : ℕ) → cast CastOp.trunc w v a ≡ a % 2 ^ v
  pub zext_lem : (w v a : ℕ) → cast CastOp.zext w v a ≡ a
  pub sext_lem : (w v a : ℕ) → cast CastOp.sext w v a ≡ to_word v (signed w a)
  pub ptr_to_int_lem : (w v a : ℕ) → cast CastOp.ptr_to_int w v a ≡ a % 2 ^ v
  pub int_to_ptr_lem : (w v a : ℕ) → cast CastOp.int_to_ptr w v a ≡ a
  pub bswap_lem : (k a : ℕ) → bswap (8 * k) a ≡ byte_swap k a
  pub gep_lem : (p i : ℕ) → gep p i ≡ (p + i) % 2 ^ 64
