-- ===== src/Bpf/Call/Arguments.antt =====
-- The limit on arguments in `marshallArgs` (src/lifter/bpf2llvm.cpp).
use bpf_tv.Common.{
  ℕ, suc, ◌+◌, ◌≤◌, ◌<◌, List, [], ◌∷◌, length, arith, ok, err, Result, Bool-cases, inl, inr, leb,
}
use bpf_tv.Llvm.Ir.{Ty}
use bpf_tv.Mc.Inst.{r}
use bpf_tv.Lifter.State.{Lifter, M, ◌>>=◌}
use bpf_tv.Bpf.Regs.{read_reg_64}
use bpf_tv.Bpf.Call.{
  Signature, is_int_or_ptr, is_aggregate, marshall_as, marshall_from, marshall_args,
}

-- The result is an error.
abbrev pub IsError {ℓ} : {A : Type ℓ} → Result A → Type 0
IsError (ok a) = ⊥
IsError (err e) = Unit

bind-IsError {ℓ κ} :
    {A : Type ℓ} {B : Type κ} (act : M A) (f : A → M B) (s : Lifter)
    → ((a : A) (s' : Lifter) → IsError (f a s'))
    → IsError ((act >>= f) s)
bind-IsError act f s h =
    elim (act s)
      as (λ (x : Result (_ × Lifter)). IsError (elim x [ ok (a, s') ↦ f a s' | err e ↦ err e ])) [
        | ok (a, s') ↦ h a s'
        | err e ↦ tt
      ]

stop-IsError {ℓ κ} :
    {A : Type ℓ} {B : Type κ} (act : M A) (f : A → M B) (s : Lifter)
    → IsError (act s)
    → IsError ((act >>= f) s)
stop-IsError {A = A} act f s h = go (act s) h
  where
    go :
        (x : Result (A × Lifter))
        → IsError x
        → IsError (elim x [ ok (a, s') ↦ f a s' | err e ↦ err e ])
    go (ok a) h = absurd h
    go (err e) h = tt

from-IsError :
    (ts : List Ty) (n : ℕ) (s : Lifter) → 5 < n + length ts → n ≤ 5 → IsError (marshall_from n ts s)
unfolding marshall_from
from-IsError [] n s h l = absurd (omega arith)
from-IsError (t ∷ ts) n s h l = elim (Bool-cases (is_int_or_ptr t)) [
  | inr e ↦ rw e tt
  | inl e ↦ elim (Bool-cases (leb 5 n)) [
    | inl f ↦ rw (e, f) tt
    | inr f ↦
        let below : n < 5 = ground arith in
        rw (e, f)
          (bind-IsError (read_reg_64 (r (1 + n))) _ s λ v s'.
            bind-IsError (marshall_as t v) _ s' λ x s''.
              stop-IsError (marshall_from (suc n) ts) _ s''
                (from-IsError ts (suc n) s'' (omega arith) (omega arith)))
  ]
]

-- `marshallArgs` stops with an error for every function with more than five parameters.
pub marshall_args-IsError :
    (f : Signature) (s : Lifter) → 5 < length f.params → IsError (marshall_args f s)
unfolding marshall_args
marshall_args-IsError f s h = elim (Bool-cases (is_aggregate f.ret)) [
  | inl e ↦ rw e tt
  | inr e ↦ rw e (from-IsError f.params 0 s (omega arith) (omega arith))
]
