-- ===== src/Isa.antt =====
-- The arithmetic of the BPF instruction set (RFC 9669, section 4), which the lifted code is
-- compared with. It stands on its own: nothing of the lifter is used.
pub mod Arithmetic
pub mod Agrees
pub mod Branch
use bpf_tv.Common.{ℕ, ◌+◌, ◌-◌, ◌*◌, ◌/◌, ◌%◌, ◌^◌, ◌==◌, bit_and, bit_or, bit_xor, if◌then◌else◌}
use bpf_tv.Words.{to_word, signed, quot, rem, shr_ℤ}

pub data Operation : Type 0 where
  add sub mul div sdiv or and xor lsh rsh arsh modulo smod neg mov : Operation

-- `dst op src` on words of `w` bits. Division by zero gives 0, a remainder by zero the dividend,
-- and a shift takes the amount modulo the width.
unfoldable pub alu : ℕ → Operation → ℕ → ℕ → ℕ
alu w Operation.add d s = (d + s) % 2 ^ w
alu w Operation.sub d s = (d + (2 ^ w - s)) % 2 ^ w
alu w Operation.mul d s = d * s % 2 ^ w
alu w Operation.div d s = if s == 0 then 0 else d / s
alu w Operation.sdiv d s = if s == 0 then 0 else to_word w (quot (signed w d) (signed w s))
alu w Operation.or d s = bit_or d s
alu w Operation.and d s = bit_and d s
alu w Operation.xor d s = bit_xor d s
alu w Operation.lsh d s = d * 2 ^ (s % w) % 2 ^ w
alu w Operation.rsh d s = d / 2 ^ (s % w)
alu w Operation.arsh d s = to_word w (shr_ℤ (signed w d) (s % w))
alu w Operation.modulo d s = if s == 0 then d else d % s
alu w Operation.smod d s = if s == 0 then d else to_word w (rem (signed w d) (signed w s))
alu w Operation.neg d s = (2 ^ w - d) % 2 ^ w
alu w Operation.mov d s = s
