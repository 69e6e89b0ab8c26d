-- ===== src/Common/Bits.antt =====
-- `bit_and` with a mask of low bits.
use Prim.Native.Nat.{
  ℕ, zero, suc, ◌+◌, ◌-◌, ◌*◌, ◌/◌, ◌%◌, ◌^◌, ◌≤◌, ◌<◌, min, bit_and, digits, bit_and-bitwise,
}
use mathlib.Core.Path.{◌≡◌, sym, ap, ◌∙◌}
use native.Mathlib.Nat.{
  pow-suc, one-le-pow, div-add-mod, mod-eq_of_lt, mod-lt, add-mul-mod_self_left,
}
use native.Mathlib.Omega.{arith}

pow-two-suc : (k : ℕ) → 2 ^ suc k ≡ 2 * 2 ^ k
pow-two-suc k = omega (arith, pow-suc 2 k)

mod-double : (p y : ℕ) → 0 < p → y / 2 % p * 2 + y % 2 ≡ y % (2 * p)
mod-double p y pos =
    let e : y ≡ (y / 2 % p * 2 + y % 2) + 2 * p * (y / 2 / p) =
      omega (arith, div-add-mod (y / 2) p) in
    sym (mod-eq_of_lt (omega (arith, mod-lt (y / 2) pos)))
    ∙ sym (add-mul-mod_self_left (y / 2 % p * 2 + y % 2) (2 * p) (y / 2 / p))
    ∙ ap (λ (t : ℕ). t % (2 * p)) (sym e)

-- Digit by digit, a number one below a power keeps what it meets.
mask_digits :
    (fuel k mask y : ℕ)
    → mask ≤ fuel
    → suc mask ≡ 2 ^ k
    → y % 2 ^ k ≡ digits (λ _. zero) min fuel mask y
mask_digits fuel zero mask y l e = none_left fuel mask (omega arith)
  where
    none_left : (fuel mask : ℕ) → mask ≡ 0 → y % 1 ≡ digits (λ _. zero) min fuel mask y
    none_left zero zero h = omega arith
    none_left (suc fuel) zero h = omega arith
    none_left zero (suc mask) h = absurd (omega arith)
    none_left (suc fuel) (suc mask) h = absurd (omega arith)
mask_digits fuel (suc k) zero y l e = absurd (omega (arith, pow-two-suc k))
mask_digits zero (suc k) (suc mask) y l e = absurd (omega arith)
mask_digits (suc fuel) (suc k) (suc mask) y l e =
    let rest : y / 2 % 2 ^ k ≡ digits (λ _. zero) min fuel (suc mask / 2) (y / 2) =
      mask_digits fuel k (suc mask / 2) (y / 2) (omega arith) (omega (arith, pow-two-suc k)) in
    let odd : suc mask % 2 ≡ 1 = omega (arith, pow-two-suc k) in
    omega (
      arith,
      rest,
      odd,
      mod-double (2 ^ k) y (one-le-pow k 2 (omega arith)),
      ap (λ (t : ℕ). y % t) (pow-two-suc k),
    )

pub low_mask-bit_and : (k y : ℕ) → bit_and (2 ^ k - 1) y ≡ y % 2 ^ k
low_mask-bit_and k y =
    bit_and-bitwise (2 ^ k - 1) y
    ∙ sym (mask_digits (2 ^ k - 1) k (2 ^ k - 1) y (omega arith) (omega (arith, one-le-pow k 2)))

pub lt-two-pow : (n : ℕ) → n < 2 ^ n
lt-two-pow zero = omega arith
lt-two-pow (suc n) = omega (arith, pow-two-suc n, lt-two-pow n)
