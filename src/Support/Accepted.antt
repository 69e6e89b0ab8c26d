-- ===== src/Support/Accepted.antt =====
-- The arguments of a source function that passes the checks (`checkSupport`,
-- src/lifter/mc2llvm.cpp), in `platformInit` (src/lifter/bpf2llvm.cpp).
use bpf_tv.Common.{
  ◌≤◌, ◌<◌, ◌&&◌, not, Bool, true, false, ◌⊎◌, List, [], ◌∷◌, map, String, ok, err, message, length,
  All, ◌≡◌, refl,
}
use bpf_tv.Llvm.Ir.{Ty, int, ptr, void, floating, vector, aggregate, Value}
use bpf_tv.Lifter.State.{Lifter}
use bpf_tv.Bpf.Lift.Refines.{IsReady}
use bpf_tv.Bpf.Setup.{Parameter, platform_init}
use bpf_tv.Support.{IrType, Argument, SourceFunction}
use bpf_tv.Support.Checks.{Check, require, checks}

pub checks-inv : (cs : List Check) → checks cs ≡ ok tt → All (λ c. c ≡ ok tt) cs
checks-inv [] e = tt
checks-inv (ok u ∷ cs) e = (refl, checks-inv cs e)
checks-inv (err x ∷ cs) e = absurd cc

pub require-inv : (b : Bool) (m : String) → require b m ≡ ok tt → b ≡ true
require-inv true m e = refl
require-inv false m e = absurd cc

pub not-inv : (b : Bool) → not b ≡ true → b ≡ false
not-inv true e = absurd cc
not-inv false e = refl

pub and-inv : (a b : Bool) → (a && b) ≡ true → (a ≡ true) × (b ≡ true)
and-inv true b e = (refl, e)
and-inv false b e = absurd cc

-- The type that the lifter gives a parameter.
abbrev pub ty_of : IrType → Ty
ty_of (IrType.integer w) = int w
ty_of (IrType.pointer s) = ptr
ty_of IrType.void_ty = void
ty_of (IrType.vec t n) = vector
ty_of (IrType.arr t n) = aggregate
ty_of (IrType.structure ts) = aggregate
ty_of IrType.other_type = aggregate
ty_of _ = floating

-- The parameters of the lifted function, with the attributes that `platformInit` reads.
abbrev pub parameter_of : Argument → Parameter
parameter_of a = record { type = ty_of a.type; is_sext = a.is_sext; is_zext = a.is_zext }

-- How `platformInit` ends for the arguments of a source function.
abbrev pub SetUp : Value → SourceFunction → Lifter → Type 0
SetUp v f s =
    ((length f.args ≤ 5)
      × ((s' : Lifter) × (platform_init v (map parameter_of f.args) s ≡ ok (tt, s'))
          × IsReady s.next s'))
    ⊎ ((5 < length f.args)
        × (platform_init v (map parameter_of f.args) s
            ≡ err (message "more than 5 arguments not supported")))
