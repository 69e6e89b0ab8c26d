-- ===== src/Support/Returned.antt =====
-- The return value after `adjustSrc` (src/lifter/mc2llvm.cpp) and what `doReturn`
-- (src/lifter/bpf2llvm.cpp) relies on.
use bpf_tv.Common.{
  ℕ, ◌≤◌, ltb, leb, ◌==◌, ◌&&◌, ◌||◌, not, Bool, true, false, if◌then◌else◌, Option, none, some,
  List, [], ◌∷◌, map, Result, ok, All, ◌≡◌,
}
use bpf_tv.Words.{to_word, signed}
use bpf_tv.Llvm.Ir.{get_bit_width_ty}
use bpf_tv.Support.{IrType, is_vector, is_integer, SourceFunction}
use bpf_tv.Support.Adjust.{ReturnStep, Adjusted, extension, as_integer, width_of_return}
use bpf_tv.Support.Accepted.{ty_of}

-- What a `ret` returns in a function of that return type.
abbrev pub ret_of : IrType → Option IrType
ret_of IrType.void_ty = none
ret_of t = some t

-- A word of some bits, and what LLVM's casts make of it.
abbrev pub run_step : ReturnStep → ℕ × ℕ → ℕ × ℕ
run_step (ReturnStep.bitcast_to k) v = (k, v.1)
run_step (ReturnStep.zext_to k) v = (k, v.1)
run_step (ReturnStep.sext_to k) v = (k, to_word k (signed v.0 v.1))

abbrev pub run_steps : List ReturnStep → ℕ × ℕ → ℕ × ℕ
run_steps [] v = v
run_steps (s ∷ ss) v = run_steps ss (run_step s v)

-- The word returned for a word of `w` bits, by the attributes.
abbrev pub returned_word : SourceFunction → ℕ → ℕ → ℕ
returned_word f w x =
    if f.ret_zext then x else if ltb w 32 then to_word 32 (signed w x) else to_word 64 (signed w x)

abbrev pub attribute : SourceFunction → Bool
attribute f = f.ret_sext || f.ret_zext

-- The function is well typed with its new return type, its values are extended as the attributes
-- ask for, and the assertions of `doReturn` hold.
pub record Returns (size : IrType → ℕ) (f : SourceFunction) (a : Adjusted) : Type 0 where
  pub width_eq : a.orig_ret_width ≡ width_of_return size f.ret_type
  pub typed : a.rets ≡ map (λ r. ret_of a.actual_ret_type) f.rets
  pub extended :
      attribute f ≡ true
      → (a.orig_ret_width == 32) ≡ false
      → (a.orig_ret_width == 64) ≡ false
      → (x : ℕ) → run_steps a.steps (a.orig_ret_width, x) ≡ (64, returned_word f a.orig_ret_width x)
  pub at_most : is_vector f.ret_type ≡ false → a.orig_ret_width ≤ 64
  pub asserted :
      (a.has_ret_attr && ltb a.orig_ret_width 32) ≡ true
      → (leb a.orig_ret_width (get_bit_width_ty (ty_of a.actual_ret_type)) ≡ true)
        × ((get_bit_width_ty (ty_of a.actual_ret_type) == 64) ≡ true)

-- The data layout gives an integer type its width, and every `ret` returns the type of the function,
-- on which an extension attribute stands only if it is an integer type.
pub record IsTyped (size : IrType → ℕ) (f : SourceFunction) : Type 0 where
  pub sizes : (w : ℕ) → size (IrType.integer w) ≡ w
  pub rets_typed : All (λ r. r ≡ ret_of f.ret_type) f.rets
  pub on_integer : attribute f ≡ true → is_integer f.ret_type ≡ true

module _ (size : IrType → ℕ) (f : SourceFunction) (h : IsTyped size f) (w : ℕ)
    (we : w ≡ width_of_return size f.ret_type) (l : is_vector f.ret_type ≡ false → w ≤ 64) where
  abbrev wide : Adjusted
  wide = record {
    orig_ret_width = w;
    has_ret_attr = attribute f;
    actual_ret_type = IrType.integer 64;
    steps = as_integer f.ret_type w (extension f w);
    rets = map (λ r. some (IrType.integer 64)) f.rets;
  }

  abbrev same : Adjusted
  same = record {
    orig_ret_width = w;
    has_ret_attr = attribute f;
    actual_ret_type = f.ret_type;
    steps = [];
    rets = f.rets;
  }

  abbrev test : Bool
  test = attribute f && (not (w == 32) && not (w == 64))

  abbrev Adjusts : Result Adjusted → Type 0
  Adjusts r = (a : Adjusted) × (r ≡ ok a) × Returns size f a
