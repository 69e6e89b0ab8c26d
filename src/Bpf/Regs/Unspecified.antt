-- ===== src/Bpf/Regs/Unspecified.antt =====
-- Where unspecified values are read from, and the register file that is made of them.
use bpf_tv.Common.{ℕ, suc, ◌+◌, ◌/◌, ◌≤◌, ◌≡◌, refl, ok, arith, leb, le→leb, lt→ltb, ◌^◌}
use bpf_tv.Llvm.Ir.{Value, int, gep, global, const, result, Instr}
use bpf_tv.Lifter.State.{Lifter, M, ◌>>=◌, ◌>>◌, assert, emit}
use bpf_tv.Lifter.Logic.{>>=-eq_of_ok}
use bpf_tv.Lifter.Build.{get_unsigned_int_const, create_gep, create_load}
use bpf_tv.Bpf.Regs.{unspecified_value, unspecified_mem_bytes}

-- The state after an unspecified value: an address past all bytes used so far, and a load from it.
abbrev pub after_value : Lifter → ℕ → Lifter
after_value s width =
    let p = gep (global "__bpf_tv_unspecified") (const 64 s.unspecified_off) in
    let s' = emit (Instr.compute p) s in
    emit (Instr.load s'.next (int width) p)
      (record s' { unspecified_off = s.unspecified_off + (width + 7) / 8 })

pub const_ok : (v : ℕ) (s : Lifter) → v ≤ 65536 → get_unsigned_int_const v 64 s ≡ ok (const 64 v, s)
unfolding get_unsigned_int_const
const_ok v s h = rw (lt→ltb v (2 ^ 64) (omega arith)) refl

-- While the global has enough bytes left, `unspecifiedValue` succeeds, and reads its bytes from the
-- first one that is not counted as used, and counts them.
pub unspecified_value-ok :
    (s : Lifter) (width : ℕ)
    → s.unspecified_off + (width + 7) / 8 ≤ 65536
    → unspecified_value width s ≡ ok (result (int width) (suc s.next), after_value s width)
unfolding unspecified_value create_gep create_load emit
unspecified_value-ok s width h =
    >>=-eq_of_ok (λ s. assert (leb (s.unspecified_off + (width + 7) / 8) unspecified_mem_bytes) s)
      (λ _. rest) {s = s} (rw (le→leb _ 65536 h))
      (>>=-eq_of_ok (λ s. get_unsigned_int_const s.unspecified_off 64 s) go {s = s}
        (const_ok s.unspecified_off s (omega arith)) refl)
  where
    go : Value → M Value
    go off = do
      p ← create_gep (Value.global "__bpf_tv_unspecified") off
      (λ s. ok (tt, record s { unspecified_off = s.unspecified_off + (width + 7) / 8 }))
      create_load (int width) p

    rest : M Value
    rest = (λ s. get_unsigned_int_const s.unspecified_off 64 s) >>= go
