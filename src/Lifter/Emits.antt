-- ===== src/Lifter/Emits.antt =====
-- The shape of code without branches: a lift appends instructions to the current block, and running
-- them is a sequence of steps.
use bpf_tv.Common.{
  ℕ, zero, suc, ◌+◌, ◌≡◌, ◌≢◌, refl, List, [], ◌∷◌, ◌++◌, some, none, Option, length, update_self,
  update_ne, append_assoc, append-nil, arith, sym, ◌∙◌, ap,
}
use bpf_tv.Llvm.Ir.{
  Instr, make_alloca, compute, load, store, atomic_rmw, cmp_xchg, call, br, cond_br, ret, trap,
}
use bpf_tv.Llvm.LangRef.{LangRef}
use mathlib.Core.Option.{some-injective, none-ne-some}
use bpf_tv.Llvm.Exec.{◌>>=◌, Machine, step, run_block, run}
use bpf_tv.Lifter.State.{Lifter, emit}

abbrev pub emits : List Instr → Lifter → Lifter
emits [] s = s
emits (i ∷ is) s = emits is (emit i s)

pub emit-blocks : (i : Instr) (s : Lifter) → (emit i s).blocks s.bb ≡ s.blocks s.bb ++ i ∷ []
unfolding emit
emit-blocks i s = update_self s.blocks s.bb _

pub emits-blocks : (is : List Instr) (s : Lifter) → (emits is s).blocks s.bb ≡ s.blocks s.bb ++ is
unfolding emit
emits-blocks [] s = sym (append-nil (s.blocks s.bb))
emits-blocks (i ∷ is) s =
    (emits-blocks is (emit i s))
    ∙ ap (λ (l : List Instr). l ++ is) (emit-blocks i s)
    ∙ append_assoc (s.blocks s.bb) (i ∷ []) is

pub emits-bb : (is : List Instr) (s : Lifter) → (emits is s).bb ≡ s.bb
unfolding emit
emits-bb [] s = refl
emits-bb (i ∷ is) s = emits-bb is (emit i s)

pub emits-blocks_ne :
    (is : List Instr) (s : Lifter) (b : ℕ) → b ≢ s.bb → (emits is s).blocks b ≡ s.blocks b
unfolding emit
emits-blocks_ne [] s b h = refl
emits-blocks_ne (i ∷ is) s b h = emits-blocks_ne is (emit i s) b h ∙ update_ne s.blocks s.bb b _ h

pub emits-count : (is : List Instr) (s : Lifter) → (emits is s).count ≡ s.count
unfolding emit
emits-count [] s = refl
emits-count (i ∷ is) s = emits-count is (emit i s)

pub emits-reg_file : (is : List Instr) (s : Lifter) → (emits is s).reg_file ≡ s.reg_file
unfolding emit
emits-reg_file [] s = refl
emits-reg_file (i ∷ is) s = emits-reg_file is (emit i s)

pub emits-next : (is : List Instr) (s : Lifter) → (emits is s).next ≡ s.next + length is
unfolding emit
emits-next [] s = omega arith
emits-next (i ∷ is) s = omega (arith, emits-next is (emit i s))

bind-some {ℓ κ} :
    {A : Type ℓ} {B : Type κ} {o : Option A} {a : A} (f : A → Option B)
    → o ≡ some a
    → (o >>= f) ≡ f a
bind-some f h = rw h

module _ (L : LangRef) where
  -- Steps in sequence.
  abbrev pub steps : List Instr → Machine → Option Machine
  steps [] m = some m
  steps (i ∷ is) m = elim (step L i m) [ none ↦ none | some m' ↦ steps is m' ]

  run_block-step :
      (i : Instr) (is : List Instr) (m m' : Machine)
      → step L i m ≡ some m'
      → run_block L (i ∷ is) m ≡ run_block L is m'
  unfolding run_block step
  run_block-step (compute v) is m m' h = bind-some (λ x. run_block L is x) h
  run_block-step (make_alloca k w) is m m' h = bind-some (λ x. run_block L is x) h
  run_block-step (load k t p) is m m' h = bind-some (λ x. run_block L is x) h
  run_block-step (store v p) is m m' h = bind-some (λ x. run_block L is x) h
  run_block-step (atomic_rmw k o p v) is m m' h = bind-some (λ x. run_block L is x) h
  run_block-step (cmp_xchg k p e v) is m m' h = bind-some (λ x. run_block L is x) h
  run_block-step (br t) is m m' h = cc
  run_block-step (cond_br c t f) is m m' h = cc
  run_block-step (call k n t xs) is m m' h = cc
  run_block-step (ret v) is m m' h = cc
  run_block-step trap is m m' h = cc

  pub run_block-steps :
      (is rest : List Instr) (m m' : Machine)
      → steps is m ≡ some m'
      → run_block L (is ++ rest) m ≡ run_block L rest m'
  run_block-steps [] rest m m' h = ap (run_block L rest) (some-injective _ _ h)
  run_block-steps (i ∷ is) rest m m' h =
      go (step L i m) refl h (λ m₁. run_block-steps is rest m₁ m')
    where
      go :
          (o : Option Machine)
          → step L i m ≡ o
          → (elim o [ none ↦ none | some m₁ ↦ steps is m₁ ]) ≡ some m'
          → ((m₁ : Machine)
              → steps is m₁ ≡ some m'
              → run_block L (is ++ rest) m₁ ≡ run_block L rest m')
          → run_block L (i ∷ (is ++ rest)) m ≡ run_block L rest m'
      go none e h ih = absurd (none-ne-some _ h)
      go (some m₁) e h ih = run_block-step i (is ++ rest) m m₁ e ∙ ih m₁ h

  pub run-steps :
      (B : ℕ → List Instr) (f b : ℕ) (is rest : List Instr) (m m' : Machine)
      → steps is m ≡ some m'
      → run L B f b (is ++ rest) m ≡ run L B f b rest m'
  unfolding run
  run-steps B zero b is rest m m' h = refl
  run-steps B (suc f) b is rest m m' h = rw (run_block-steps is rest m m' h)
