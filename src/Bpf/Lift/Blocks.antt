-- ===== src/Bpf/Lift/Blocks.antt =====
-- A basic block that ends in a conditional jump: from its code to the block that is next.
use bpf_tv.Common.{
  ℕ, ◌*◌, suc, ◌+◌, ◌%◌, ◌^◌, ◌≤◌, ◌<◌, ◌≡◌, refl, ap, ap₂, ◌∙◌, List, [], ◌∷◌, ◌++◌, ok, arith,
  Bool, String, All, map, if◌then◌else◌,
}
use bpf_tv.Isa.Arithmetic.{
  Arithmetic, encode, IsValid, exec, number, IsSource, source_64, source_32,
}
use bpf_tv.Isa.Agrees.{Agrees, exec_all, exec_all-Agrees, source_64-Agrees, source_32-Agrees}
use bpf_tv.Isa.Branch.{Condition, holds, jump_64, jump_32, compare}
use bpf_tv.Llvm.Ir.{Instr}
use bpf_tv.Llvm.LangRef.{LangRef}
use bpf_tv.Llvm.Exec.{Machine, run}
use bpf_tv.Mc.Inst.{McInst, Register, Operand}
use bpf_tv.Lifter.State.{Lifter, M}
use bpf_tv.Lifter.Grows.{Grows, Grows-trans, Extends, Extends-before, Extends-after}
use bpf_tv.Lifter.Logic.{here, add_fuel, add_fuel-add, >>=-eq_of_ok}
use bpf_tv.Lifter.Values.{Quiet}
use bpf_tv.Bpf.Call.{Env}
use bpf_tv.Bpf.Lift.{lift, lift_inst, lift_all}
use bpf_tv.Bpf.Frame.{reg_of}
use bpf_tv.Bpf.Control.Jumps.{Jumps, Jumps-eq, HasTargets, HasTargets-Grows}
use bpf_tv.Bpf.Control.Branches.{Jumps-lift_jump_64, Jumps-lift_jump_32}
use bpf_tv.Bpf.Lift.Refines.{
  IsReady, Executes, Executes-trans, at_inst, here-IsAt, lift_inst-refines, Grows-at, IsReady-at,
  IsReady-Grows,
}

-- Lifting a block succeeds, and a run of its code changes the registers by `f`, leaves memory
-- alone and goes on to the start of block `t`.
pub record Ends (L : LangRef) (base : ℕ) (s : Lifter) (m : Machine) (act : M (Unit {0}))
    (f : (ℕ → ℕ) → (ℕ → ℕ)) (t : ℕ) : Type 0 where
  pub after : Lifter
  pub to : Machine
  pub cost : ℕ
  pub emitted : act s ≡ ok (tt, after)
  pub grows : Grows (at_inst s after.cur_inst) after
  pub executes : Executes base f m to
  pub goes :
      (B : ℕ → List Instr) (n : ℕ)
      → Extends s after B
      → run L B (add_fuel cost (suc n)) s.bb (here s B) m ≡ run L B n t (B t) to

Quiet-Executes :
    {base n : ℕ} {m m' : Machine} → base + 44 < n → Quiet n m m' → Executes base (λ r. r) m m'
Quiet-Executes {base} l q = record {
  regs = λ k h. q.cells_kept (base + 4 * k) (omega arith);
  mem_same = q.mem_kept;
  args_same = q.args_kept;
  globals_same = q.globals_kept;
}

Extends-at :
    {s s' : Lifter} {B : ℕ → List Instr} (i j : McInst)
    → Extends s s' B
    → Extends (at_inst s i) (at_inst s' j) B
Extends-at i j x = record { rest = x.rest; current = x.current; finished = x.finished }

HasTargets-at :
    {s : Lifter} {name : String} {t f : ℕ} (i : McInst)
    → HasTargets s name t f
    → HasTargets (at_inst s i) name t f
HasTargets-at i h = record { counted = h.counted; taken_at = h.taken_at; other_at = h.other_at }

module _ (L : LangRef) (e : Env) (base : ℕ) (i : McInst) (name : String) (t f : ℕ)
    (target : (ℕ → ℕ) → ℕ) (target-Agrees : (r r' : ℕ → ℕ) → Agrees r r' → target r ≡ target r')
    (last : (s : Lifter) (m : Machine)
      → IsReady base s
      → HasTargets s name t f
      → Jumps L (at_inst s i) m (lift_inst e i) (target (reg_of base m))) where
  one :
      (s : Lifter) (m : Machine)
      → IsReady base s
      → HasTargets s name t f
      → Ends L base s m (lift_all e (i ∷ [])) (λ r. r) (target (reg_of base m))
  unfolding lift_all lift_inst
  one s m ready h =
      let j = last s m ready h in
      record {
        after = j.after;
        to = j.to;
        cost = j.cost;
        emitted = >>=-eq_of_ok (lift_inst e i) (λ _. lift_all e []) {s = s} j.emitted refl;
        grows = Grows-at j.after.cur_inst j.grows;
        executes = Quiet-Executes ready.taken j.quiet;
        goes = λ B n x. j.goes B n (Extends-at i j.after.cur_inst x);
      }

  block :
      (s : Lifter) (m : Machine) (xs : List Arithmetic)
      → IsReady base s
      → All IsValid xs
      → HasTargets s name t f
      → Ends L base s m
          (lift_all e (map encode xs ++ i ∷ []))
          (exec_all xs)
          (target (exec_all xs (reg_of base m)))
  unfolding lift_all lift_inst exec_all
  block s m [] ready v h = one s m ready h
  block s m (x ∷ xs) ready (v, vs) h =
      let d = lift_inst-refines L e m ready x v in
      let rest =
        block d.after d.to xs (IsReady-Grows d.grows (IsReady-at (encode x) ready)) vs
          (HasTargets-Grows d.grows (HasTargets-at (encode x) h)) in
      let k : McInst = rest.after.cur_inst in
      let g : Grows (at_inst s k) (at_inst d.after k) = Grows-at k d.grows in
      record {
        after = rest.after;
        to = rest.to;
        cost = d.runs.cost + rest.cost;
        emitted =
            >>=-eq_of_ok (lift_inst e (encode x)) (λ _. lift_all e (map encode xs ++ i ∷ []))
              {s = s} d.emitted rest.emitted;
        grows = Grows-trans g rest.grows ready.live;
        executes = Executes-trans (λ r r' q. exec_all-Agrees xs r r' vs q) d.post rest.executes;
        goes = λ B n y.
            let y' : Extends (at_inst s k) rest.after B = Extends-at k k y in
            ap (λ c. run L B c s.bb (here s B) m) (add_fuel-add d.runs.cost rest.cost (suc n))
            ∙ d.runs.goes B (add_fuel rest.cost (suc n))
                (Extends-at (encode x) d.after.cur_inst (Extends-before g rest.grows ready.live y'))
            ∙ rest.goes B n
                (Extends-at d.after.cur_inst k (Extends-after g rest.grows ready.live y'))
            ∙ ap (λ u. run L B n u (B u) rest.to)
                (target-Agrees (exec_all xs (reg_of base d.to))
                  (exec_all xs (exec x (reg_of base m)))
                  (exec_all-Agrees xs (reg_of base d.to) (exec x (reg_of base m)) vs d.post.regs));
      }

-- Where the register file is set up and the blocks of both successors have been created, lifting a
-- block of valid arithmetic that ends in a valid jump that compares 64 bits succeeds, and a
-- run of its code executes the arithmetic, leaves memory alone and goes on to the block that the
-- comparison selects.
pub block_64-refines :
    (L : LangRef) (e : Env) (base : ℕ) (s : Lifter) (m : Machine) (xs : List Arithmetic)
    (c : Condition) (im : Bool) (a : Register) (o : Operand) (name : String) (t f : ℕ)
    → IsReady base s
    → All IsValid xs
    → number a ≤ 11
    → IsSource 64 o
    → HasTargets s name t f
    → Ends L base s m
        (lift_all e (map encode xs ++ compare (jump_64 c im) a o name ∷ []))
        (exec_all xs)
        (if holds 64 c
            (exec_all xs (reg_of base m) (number a))
            (source_64 (exec_all xs (reg_of base m)) o)
          then t
          else f)
unfolding lift_inst lift
block_64-refines L e base s m xs c im a o name t f ready v ha ho h =
    block L e base (compare (jump_64 c im) a o name) name t f
      (λ r. if holds 64 c (r (number a)) (source_64 r o) then t else f)
      (λ r r' q.
        ap₂ (λ x y. if holds 64 c x y then t else f) (q (number a) ha)
          (source_64-Agrees r r' o ho q))
      (λ s m ready h. Jumps-eq L refl (
        Jumps-lift_jump_64 L (here-IsAt ready (compare (jump_64 c im) a o name)) (HasTargets-at _ h)
          refl refl refl ha c im ho))
      s m xs ready v h

-- Where the register file is set up and the blocks of both successors have been created, lifting a
-- block of valid arithmetic that ends in a valid jump that compares the lower 32 bits succeeds, and a
-- run of its code executes the arithmetic, leaves memory alone and goes on to the block that the
-- comparison selects.
pub block_32-refines :
    (L : LangRef) (e : Env) (base : ℕ) (s : Lifter) (m : Machine) (xs : List Arithmetic)
    (c : Condition) (im : Bool) (a : Register) (o : Operand) (name : String) (t f : ℕ)
    → IsReady base s
    → All IsValid xs
    → number a ≤ 11
    → IsSource 32 o
    → HasTargets s name t f
    → Ends L base s m
        (lift_all e (map encode xs ++ compare (jump_32 c im) a o name ∷ []))
        (exec_all xs)
        (if holds 32 c
            (exec_all xs (reg_of base m) (number a) % 2 ^ 32)
            (source_32 (exec_all xs (reg_of base m)) o)
          then t
          else f)
unfolding lift_inst lift
block_32-refines L e base s m xs c im a o name t f ready v ha ho h =
    block L e base (compare (jump_32 c im) a o name) name t f
      (λ r. if holds 32 c (r (number a) % 2 ^ 32) (source_32 r o) then t else f)
      (λ r r' q.
        ap₂ (λ x y. if holds 32 c (x % 2 ^ 32) y then t else f) (q (number a) ha)
          (source_32-Agrees r r' o ho q))
      (λ s m ready h. Jumps-eq L refl (
        Jumps-lift_jump_32 L (here-IsAt ready (compare (jump_32 c im) a o name)) (HasTargets-at _ h)
          refl refl refl ha c im ho))
      s m xs ready v h
