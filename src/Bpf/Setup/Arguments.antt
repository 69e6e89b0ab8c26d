-- ===== src/Bpf/Setup/Arguments.antt =====
-- The arguments that `platformInit` stores (src/lifter/bpf2llvm.cpp).
use bpf_tv.Common.{
  ℕ, suc, ◌+◌, ◌*◌, ◌-◌, ◌≤◌, ◌<◌, leb, le→leb, not, true, false, if◌then◌else◌, if-false, if-true,
  Option, some, inl, inr, ◌⊎◌, List, [], ◌∷◌, ok, err, message, fault, All, length, ◌≡◌, refl, ap,
  ◌∙◌, arith,
}
use native.Mathlib.Decide.{ℕ_discrete}
use bpf_tv.Llvm.Ir.{Value, argument, alloca, const, get_bit_width_ty, store, gep, Instr}
use bpf_tv.Lifter.State.{Lifter, M, ◌>>=◌, ◌>>◌, emit, lift_option, fail}
use bpf_tv.Lifter.Build.{create_store, create_gep, get_unsigned_int_const}
use bpf_tv.Lifter.Logic.{>>=-eq_of_ok}
use bpf_tv.Bpf.Regs.{enforce_sext_zext}
use bpf_tv.Bpf.Regs.Unspecified.{const_ok}
use bpf_tv.Bpf.Call.{is_int_or_ptr}
use bpf_tv.Bpf.Lift.Refines.{IsReady}
use bpf_tv.Bpf.Setup.{Parameter, create_reg_file, store_arguments, platform_init, stack_bytes}
use bpf_tv.Bpf.Setup.Padding.{Keeps, kept, Keeps-trans, enforce-Succeeds}
use bpf_tv.Bpf.Setup.Registers.{create_reg_file-HasStorage}

-- An integer of at most 64 bits or a pointer.
abbrev pub IsParameter : Parameter → Type 0
IsParameter p = (is_int_or_ptr p.type ≡ true) × (get_bit_width_ty p.type ≤ 64)

-- Every register has a cell.
abbrev HasCells : Lifter → Type 0
HasCells s = (j : ℕ) → j < 12 → (c : Value) × (s.reg_file j ≡ some c)

HasCells-Keeps : {k : ℕ} {s s' : Lifter} → Keeps k s s' → HasCells s → HasCells s'
HasCells-Keeps g h j l =
    let (c, e) = h j l in (c, ap (λ (f : ℕ → Option Value). f j) g.same_regs ∙ e)

-- One argument is stored, and the rest follows.
record StoresFirst (n : ℕ) (p : Parameter) (ps : List Parameter) (s : Lifter) : Type 0 where
  pub next_state : Lifter
  pub eq : store_arguments n (p ∷ ps) s ≡ store_arguments (suc n) ps next_state
  pub keeps : Keeps 8 s next_state

abbrev cell_of : ℕ → M Value
cell_of n s = lift_option fault (s.reg_file (1 + n)) s

abbrev too_many : M (Unit {0})
too_many = fail (message "more than 5 arguments not supported")

abbrev store_first : ℕ → Parameter → M (Unit {0}) → M (Unit {0})
unfolding enforce_sext_zext create_store emit
store_first n p rest = do
  v ← enforce_sext_zext (argument p.type n) p.is_sext p.is_zext
  cell ← cell_of n
  create_store v cell
  rest

pick :
    (n : ℕ) (p : Parameter) (ps : List Parameter) (s : Lifter)
    → IsParameter p
    → store_arguments n (p ∷ ps) s
      ≡ (if leb 5 n then too_many else store_first n p (store_arguments (suc n) ps)) s
unfolding store_arguments
pick n p ps s h =
    ap (λ (m : M (Unit {0})). m s)
      (if-false (not (is_int_or_ptr p.type))
        (fail (message "only integer/pointer arguments supported"))
        (if leb 5 n then too_many else store_first n p (store_arguments (suc n) ps)) (ap not h.0))

store-first :
    (n : ℕ) (p : Parameter) (ps : List Parameter) (s : Lifter)
    → n < 5
    → IsParameter p
    → HasCells s
    → s.unspecified_off + 8 ≤ 65536
    → StoresFirst n p ps s
unfolding create_store emit store_first
store-first n p ps s l h cells u =
    let rest = store_arguments (suc n) ps in
    let v = enforce-Succeeds p.type n p.is_sext p.is_zext s h.0 h.1 u in
    let (c, e) = HasCells-Keeps v.keeps cells (1 + n) (omega arith) in
    let put : Value → Value → M (Unit {0}) = λ x y. create_store x y >> rest in
    let small : leb 5 n ≡ false = ground arith in
    record {
      next_state = emit (store v.out c) v.after;
      eq =
          pick n p ps s h
          ∙ ap (λ (m : M (Unit {0})). m s)
              (if-false (leb 5 n) too_many (store_first n p rest) small)
          ∙ >>=-eq_of_ok (enforce_sext_zext (argument p.type n) p.is_sext p.is_zext)
              (λ x. cell_of n >>= put x) v.eq
              (>>=-eq_of_ok (cell_of n) (put v.out) {s = v.after}
                (ap (λ (o : Option Value). lift_option fault o v.after) e) refl);
      keeps = Keeps-trans v.keeps (kept {k = 0} refl refl refl (omega arith) (omega arith));
    }

-- All arguments are stored, or there are more than five.
abbrev Stored : ℕ → List Parameter → Lifter → Type 0
Stored n ps s =
    ((n + length ps ≤ 5)
      × ((s' : Lifter) × (store_arguments n ps s ≡ ok (tt, s')) × Keeps (8 * length ps) s s'))
    ⊎ ((5 < n + length ps)
        × (store_arguments n ps s ≡ err (message "more than 5 arguments not supported")))

store_arguments-Stored :
    (ps : List Parameter) (n : ℕ) (s : Lifter)
    → n ≤ 5
    → All IsParameter ps
    → HasCells s
    → s.unspecified_off + 8 * (5 - n) ≤ 65536
    → Stored n ps s
unfolding store_arguments
store_arguments-Stored [] n s l h cells u =
    inl (omega arith, (s, refl, kept refl refl refl (omega arith) (omega arith)))
store_arguments-Stored (p ∷ ps) n s l h cells u = elim (ℕ_discrete n 5) [
  | yes e ↦
      let big : leb 5 n ≡ true = le→leb 5 n (omega arith) in
      inr (
        omega arith,
        pick n p ps s h.0
            ∙ ap (λ (m : M (Unit {0})). m s)
                (if-true (leb 5 n) too_many (store_first n p (store_arguments (suc n) ps)) big),
      )
  | no e ↦
      let f = store-first n p ps s (omega arith) h.0 cells (omega arith) in
      let k = f.keeps.spent in
      let rest =
        store_arguments-Stored ps (suc n) f.next_state (omega arith) h.1
          (HasCells-Keeps f.keeps cells) (omega arith) in
      elim rest [
        | inl r ↦
            let (s', q, g) = r.1 in
            let t = Keeps-trans f.keeps g in
            inl (
              (let m = r.0 in omega arith),
              (
                s',
                f.eq ∙ q,
                kept t.same_regs t.same_bb t.same_count t.later (let x = t.spent in omega arith),
              ),
            )
        | inr r ↦ inr ((let m = r.0 in omega arith), f.eq ∙ r.1)
      ]
]

-- The state that lifting starts from, or an error for more than five arguments.
abbrev pub Starts : Value → List Parameter → Lifter → Type 0
Starts v ps s =
    ((length ps ≤ 5) × ((s' : Lifter) × (platform_init v ps s ≡ ok (tt, s')) × IsReady s.next s'))
    ⊎ ((5 < length ps)
        × (platform_init v ps s ≡ err (message "more than 5 arguments not supported")))

abbrev set_frame : Value → List Parameter → Value → M (Unit {0})
unfolding create_gep create_store emit
set_frame v ps offset = do
  frame_top ← create_gep v offset
  cell ← (λ s. lift_option fault (s.reg_file 10) s)
  create_store frame_top cell
  store_arguments 0 ps

-- The state with the frame pointer, before the arguments.
abbrev with_frame : Value → Value → Lifter → Lifter
unfolding emit
with_frame v c s =
    emit (store (gep v (const 64 stack_bytes)) c)
      (emit (Instr.compute (gep v (const 64 stack_bytes))) s)

-- Where the current block exists and 136 bytes are left for unspecified values, `platformInit`, for
-- integer parameters of at most 64 bits and pointers, with any attributes, comes to a state that
-- lifting starts from if there are at most five of them, and stops with its error if there are more.
pub platform_init-Starts :
    (v : Value) (ps : List Parameter) (s : Lifter)
    → s.bb < s.count
    → s.unspecified_off + 136 ≤ 65536
    → All IsParameter ps
    → Starts v ps s
unfolding platform_init create_gep create_store emit set_frame with_frame
platform_init-Starts v ps s live u h =
    let (s₁, e, t) = create_reg_file-HasStorage 12 0 s (omega arith) in
    let at : (j : ℕ) → j < 12 → s₁.reg_file j ≡ some (alloca (s.next + 4 * j)) =
      λ j l. ap s₁.reg_file (omega arith) ∙ t.created j l in
    let s₂ : Lifter = with_frame v (alloca (s.next + 4 * 10)) s₁ in
    let spent = t.spent in
    let go : platform_init v ps s ≡ store_arguments 0 ps s₂ =
      >>=-eq_of_ok (create_reg_file 0 12)
        (λ _. get_unsigned_int_const stack_bytes 64 >>= set_frame v ps) {s = s} e
        (>>=-eq_of_ok (get_unsigned_int_const stack_bytes 64) (set_frame v ps) {s = s₁}
          (const_ok stack_bytes s₁ (omega arith))
          (ap
            (λ (o : Option Value).
              (lift_option fault o >>= λ c.
              create_store (gep v (const 64 stack_bytes)) c >> store_arguments 0 ps)
                (emit (Instr.compute (gep v (const 64 stack_bytes))) s₁))
            (at 10 (omega arith)))) in
    let stored =
      store_arguments-Stored ps 0 s₂ (omega arith) h (λ j l. (alloca (s.next + 4 * j), at j l))
        (omega arith) in
    elim stored [
      | inl r ↦
          let (s', q, g) = r.1 in
          inl (
            (let m = r.0 in omega arith),
            (
              s',
              go ∙ q,
              record {
                storage =
                    λ n l. ap (λ (f : ℕ → Option Value). f n) g.same_regs ∙ at n (omega arith);
                taken = omega (arith, t.next_is, g.later);
                live = omega (arith, t.same_bb, t.same_count, g.same_bb, g.same_count);
              },
            ),
          )
      | inr r ↦ inr ((let m = r.0 in omega arith), go ∙ r.1)
    ]
