-- ===== src/Bpf/Setup/Registers.antt =====
-- The register file that `platformInit` creates (src/lifter/bpf2llvm.cpp).
use bpf_tv.Common.{
  ℕ, zero, suc, ◌+◌, ◌*◌, ◌-◌, ◌≤◌, ◌<◌, ◌≡◌, refl, ap, ◌∙◌, ok, arith, some, update, update_self,
  update_ne,
}
use native.Mathlib.Decide.{ℕ_discrete}
use bpf_tv.Llvm.Ir.{Value, int, alloca, result, make_alloca, store}
use bpf_tv.Lifter.State.{Lifter, M, ◌>>=◌, ◌>>◌, emit}
use bpf_tv.Lifter.Build.{create_alloca, create_store}
use bpf_tv.Lifter.Logic.{>>=-eq_of_ok}
use bpf_tv.Bpf.Regs.{unspecified_value, create_reg_storage}
use bpf_tv.Bpf.Regs.Unspecified.{after_value, unspecified_value-ok}
use bpf_tv.Bpf.Setup.{create_reg_file}
use bpf_tv.Bpf.Lift.Refines.{IsReady}

abbrev after_storage : ℕ → Lifter → Lifter
unfolding emit
after_storage n s =
    let s₁ = after_value (emit (make_alloca s.next 64) s) 64 in
    let s₂ = emit (store (result (int 64) (suc (suc s.next))) (alloca s.next)) s₁ in
    record s₂ { reg_file = update s₂.reg_file n (some (alloca s.next)) }

storage_ok :
    (n : ℕ) (s : Lifter)
    → s.unspecified_off + 8 ≤ 65536
    → create_reg_storage n 64 s ≡ ok (tt, after_storage n s)
unfolding create_reg_storage create_alloca create_store emit after_storage
storage_ok n s h =
    >>=-eq_of_ok (create_alloca 64) (λ a. unspecified_value 64 >>= rest a) {s = s} refl
      (>>=-eq_of_ok (unspecified_value 64) (rest (alloca s.next))
        {s = emit (make_alloca s.next 64) s}
        (unspecified_value-ok (emit (make_alloca s.next 64) s) 64 (omega arith)) refl)
  where
    rest : Value → Value → M (Unit {0})
    rest a v = do
      create_store v a
      λ s. ok (tt, record s { reg_file = update s.reg_file n (some a) })

-- The state after storage for `k` registers, from register `n` on.
pub record HasStorage (n k : ℕ) (s s' : Lifter) : Type 0 where
  pub created : (j : ℕ) → j < k → s'.reg_file (n + j) ≡ some (alloca (s.next + 4 * j))
  pub kept : (j : ℕ) → j < n → s'.reg_file j ≡ s.reg_file j
  pub next_is : s'.next ≡ s.next + 4 * k
  pub same_bb : s'.bb ≡ s.bb
  pub same_count : s'.count ≡ s.count
  pub spent : s'.unspecified_off ≡ s.unspecified_off + 8 * k

pub create_reg_file-HasStorage :
    (k n : ℕ) (s : Lifter)
    → s.unspecified_off + 8 * k ≤ 65536
    → (s' : Lifter) × (create_reg_file n k s ≡ ok (tt, s')) × HasStorage n k s s'
unfolding create_reg_file after_storage emit
create_reg_file-HasStorage zero n s h = (
  s,
  refl,
  record {
    created = λ j l. absurd (omega arith);
    kept = λ j l. refl;
    next_is = omega arith;
    same_bb = refl;
    same_count = refl;
    spent = omega arith;
  },
)
create_reg_file-HasStorage (suc k) n s h =
    let s₁ : Lifter = after_storage n s in
    let (s', e, t) = create_reg_file-HasStorage k (suc n) s₁ (omega arith) in
    (
      s',
      >>=-eq_of_ok (create_reg_storage n 64) (λ _. create_reg_file (suc n) k) {s = s}
          (storage_ok n s (omega arith)) e,
      record {
        created = λ j l. elim (ℕ_discrete j 0) [
          | yes p ↦
              ap s'.reg_file (omega arith)
              ∙ t.kept n (omega arith)
              ∙ update_self s.reg_file n (some (alloca s.next))
              ∙ ap (λ (c : ℕ). some (alloca c)) (omega arith)
          | no p ↦
              ap s'.reg_file (omega arith)
              ∙ t.created (j - 1) (omega arith)
              ∙ ap (λ (c : ℕ). some (alloca c)) (omega arith)
        ];
        kept = λ j l.
            t.kept j (omega arith)
            ∙ update_ne s.reg_file n j (some (alloca s.next)) (λ q. omega arith);
        next_is = omega (arith, t.next_is);
        same_bb = t.same_bb;
        same_count = t.same_count;
        spent = omega (arith, t.spent);
      },
    )

-- Where the current block exists and 96 bytes are left for unspecified values, the storage of R0
-- to R11 is created without an error, and the state after it is one that lifting starts from.
pub create_reg_file-IsReady :
    (s : Lifter)
    → s.bb < s.count
    → s.unspecified_off + 96 ≤ 65536
    → (s' : Lifter) × (create_reg_file 0 12 s ≡ ok (tt, s')) × IsReady s.next s'
create_reg_file-IsReady s live h =
    let (s', e, t) = create_reg_file-HasStorage 12 0 s (omega arith) in
    (
      s',
      e,
      record {
        storage = λ n l. ap s'.reg_file (omega arith) ∙ t.created n (omega arith);
        taken = omega (arith, t.next_is);
        live = omega (arith, t.same_bb, t.same_count);
      },
    )
