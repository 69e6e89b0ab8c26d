-- ===== src/Lifter/Shifts.antt =====
-- The masked shifts: the amount is taken modulo the width, so that LLVM's shift is defined.
use bpf_tv.Common.{
  ℕ, ◌-◌, ◌*◌, ◌/◌, ◌%◌, ◌^◌, ◌<◌, ◌≡◌, refl, some, arith, lt→ltb, ==_refl, ltb, true,
}
use bpf_tv.Common.Bits.{low_mask-bit_and, lt-two-pow}
use bpf_tv.Llvm.Ir.{Value, const, BinOp}
use bpf_tv.Llvm.LangRef.{LangRef}
use bpf_tv.Llvm.Exec.{Machine, eval}
use bpf_tv.Lifter.State.{Lifter, M, ◌>>=◌}
use bpf_tv.Lifter.Build.{create_binop, create_masked_shl, create_masked_lshr, create_masked_ashr}
use bpf_tv.Lifter.Logic.{Does, Does-eq}
use bpf_tv.Lifter.Values.{Quiet-Keeps, Is, Is-later, Yields, Does-value}
use native.Mathlib.Nat.{mod-lt, one-le-pow}
use bpf_tv.Words.{to_word, signed, shr_ℤ}
use bpf_tv.Lifter.Rules.{Does-binop}

fits : (k : ℕ) → ltb (2 ^ k - 1) (2 ^ 2 ^ k) ≡ true
fits k = lt→ltb _ _ (omega (arith, lt-two-pow (2 ^ k), one-le-pow k 2))

amount : (k y : ℕ) → y % 2 ^ k < 2 ^ k
amount k y = mod-lt y (one-le-pow k 2 (omega arith))

module _ (L : LangRef) where
  pub Is-const : {n : ℕ} {m : Machine} (w v : ℕ) → Is L n m (const w v) w v
  unfolding eval
  Is-const w v = record { typed = refl; worth = λ m' k. refl }

  abbrev masked_by : BinOp → ℕ → Value → Value → M Value
  masked_by op w a b = create_binop (const w (w - 1)) b BinOp.and >>= λ c. create_binop a c op

  masked :
      {s : Lifter} {m : Machine} (op : BinOp) (k : ℕ) {a b : Value} {x y z : ℕ}
      → s.bb < s.count
      → Is L s.next m a (2 ^ k) x
      → Is L s.next m b (2 ^ k) y
      → L.binop op (2 ^ k) x (y % 2 ^ k) ≡ some z
      → Does L s m (masked_by op (2 ^ k) a b) (Yields L s.next m (2 ^ k) z)
  masked {s} {m} op k {b} {y} live p q h =
      Does-value L live
        (Does-binop L BinOp.and (Is-const (2 ^ k) (2 ^ k - 1)) q (L.and_lem (2 ^ k) (2 ^ k - 1) y))
        λ c s' m' live' g quiet i.
          Does-binop L op (Is-later L g.later (Quiet-Keeps quiet) p) i (rw (low_mask-bit_and k y) h)

  module _ {s : Lifter} {m : Machine} {a b : Value} {x y : ℕ} (k : ℕ) (live : s.bb < s.count)
      (p : Is L s.next m a (2 ^ k) x) (q : Is L s.next m b (2 ^ k) y) where
    -- At integers of `2 ^ k` bits, `createMaskedShl` succeeds, and its code computes the left
    -- shift by the amount modulo the width, whatever the amount.
    pub Does-masked_shl :
        Does L s m
          (create_masked_shl a b)
          (Yields L s.next m (2 ^ k) (x * 2 ^ (y % 2 ^ k) % 2 ^ 2 ^ k))
    unfolding create_masked_shl create_binop
    Does-masked_shl =
        Does-eq L {act' = masked_by BinOp.shl (2 ^ k) a b}
          (rw (p.typed, q.typed, ==_refl (2 ^ k), fits k, ==_refl (2 ^ k)))
          (masked BinOp.shl k live p q (L.shl_lem (2 ^ k) x (y % 2 ^ k) (amount k y)))

    -- At integers of `2 ^ k` bits, `createMaskedLShr` succeeds, and its code computes the logical
    -- right shift by the amount modulo the width, whatever the amount.
    pub Does-masked_lshr :
        Does L s m (create_masked_lshr a b) (Yields L s.next m (2 ^ k) (x / 2 ^ (y % 2 ^ k)))
    unfolding create_masked_lshr create_binop
    Does-masked_lshr =
        Does-eq L {act' = masked_by BinOp.lshr (2 ^ k) a b}
          (rw (p.typed, q.typed, ==_refl (2 ^ k), fits k, ==_refl (2 ^ k)))
          (masked BinOp.lshr k live p q (L.lshr_lem (2 ^ k) x (y % 2 ^ k) (amount k y)))

    -- At integers of `2 ^ k` bits, `createMaskedAShr` succeeds, and its code computes the
    -- arithmetic right shift by the amount modulo the width, whatever the amount.
    pub Does-masked_ashr :
        Does L s m
          (create_masked_ashr a b)
          (Yields L s.next m (2 ^ k) (to_word (2 ^ k) (shr_ℤ (signed (2 ^ k) x) (y % 2 ^ k))))
    unfolding create_masked_ashr create_binop
    Does-masked_ashr =
        Does-eq L {act' = masked_by BinOp.ashr (2 ^ k) a b}
          (rw (p.typed, q.typed, ==_refl (2 ^ k), fits k, ==_refl (2 ^ k)))
          (masked BinOp.ashr k live p q (L.ashr_lem (2 ^ k) x (y % 2 ^ k) (amount k y)))
