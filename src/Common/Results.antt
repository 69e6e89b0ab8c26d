-- ===== src/Common/Results.antt =====
-- Code that may stop: `*out << "ERROR: ..."; exit(-1)` and failed assertions are errors.
use Prim.Native.String.{String}
use mathlib.Core.Path.{◌≡◌, refl, ap}
use mathlib.Core.Option.{Option, none, some}

-- `message` is an error that the program reports before `exit(-1)`; `assertion` is a failed
-- `assert`, and `fault` a read that C++ leaves undefined, such as through a null pointer.
pub data Error : Type 0 where
  message : String → Error
  assertion : Error
  fault : Error

pub data Result {ℓ} (A : Type ℓ) : Type ℓ where
  ok : A → Result A
  err : Error → Result A

-- The error to stop with when a value is missing.
abbrev pub expect {ℓ} : {A : Type ℓ} → Error → Option A → Result A
expect e none = err e
expect e (some a) = ok a

-- The first of two steps has succeeded, and then the second one.
pub ok-inv {ℓ κ} :
    {A : Type ℓ} {B : Type κ} (r : Result A) (f : A → Result B) (b : B)
    → elim r [ err e ↦ err e | ok a ↦ f a ] ≡ ok b
    → (a : A) × ((r ≡ ok a) × (f a ≡ ok b))
ok-inv (ok a) f b h = (a, (refl, h))
ok-inv (err e) f b h = absurd cc

pub ok-injective {ℓ} : {A : Type ℓ} (a b : A) → ok a ≡ ok b → a ≡ b
ok-injective {A = A} a b h = ap (λ (r : Result A). elim r [ ok c ↦ c | err e ↦ a ]) h
