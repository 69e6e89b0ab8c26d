-- ===== src/Bpf/Control/Jumps.antt =====
-- Code that ends in a branch: where the branch goes, in every function that holds the code.
use bpf_tv.Common.{
  ℕ, zero, suc, ◌+◌, ◌≤◌, ◌<◌, ◌≡◌, refl, sym, ap, ◌∙◌, List, ◌∷◌, String, Option, some, ok, arith,
  Bool, true, false, if◌then◌else◌, ◌||◌, ◌==◌, length, get_elem?, Bool-cases, inl, inr, assertion,
}
use text.Mathlib.Text.{◌==◌ as str_eq}
use mathlib.Core.Option.{none-ne-some}
use bpf_tv.Llvm.Ir.{Value, Instr}
use bpf_tv.Llvm.LangRef.{LangRef}
use bpf_tv.Llvm.Exec.{Machine, run, run_block}
use bpf_tv.Mc.Inst.{expr, McInst}
use bpf_tv.Lifter.State.{Lifter, M, ◌>>=◌, emit, pure, assert, lift_option}
use bpf_tv.Lifter.Build.{create_cond_branch, find_block, get_bb_by_name}
use bpf_tv.Lifter.Divide.Fill.{run-branch}
use bpf_tv.Lifter.Grows.{Grows, Grows-emit, Grows-trans, Extends, Extends-before, Extends-after}
use bpf_tv.Lifter.Logic.{Does, here, here-emit, add_fuel, add_fuel-add, >>=-eq_of_ok}
use bpf_tv.Lifter.Values.{Quiet, Quiet-refl, Quiet-trans, Is, Is-now, Yields}
use bpf_tv.Bpf.Operands.{get_operand, get_branch_targets_operand, other_successor, name_or}
use bpf_tv.Bpf.Frame.{IsAt}
use bpf_tv.Bpf.Regs.Access.{get_operand-IsAt}

module _ (L : LangRef) where
  -- The action succeeds, and in every function that holds its code, a run goes on to the start of
  -- block `t`, with only new results and cells changed.
  pub record Jumps (s : Lifter) (m : Machine) (act : M (Unit {0})) (t : ℕ) : Type 0 where
    pub after : Lifter
    pub to : Machine
    pub cost : ℕ
    pub emitted : act s ≡ ok (tt, after)
    pub grows : Grows s after
    pub quiet : Quiet s.next m to
    pub goes :
        (B : ℕ → List Instr) (f : ℕ)
        → Extends s after B
        → run L B (add_fuel cost (suc f)) s.bb (here s B) m ≡ run L B f t (B t) to

  pub Jumps-bind :
      {s : Lifter} {m : Machine} {w x t : ℕ} {act : M Value} {f : Value → M (Unit {0})}
      → s.bb < s.count
      → Does L s m act (Yields L s.next m w x)
      → ((v : Value) (s' : Lifter) (m' : Machine)
          → s'.bb < s'.count
          → Grows s s'
          → Quiet s.next m m'
          → Is L s'.next m' v w x
          → Jumps s' m' (f v) t)
      → Jumps s m (act >>= f) t
  Jumps-bind {s} {m} {t} {act} {f} live d k =
      let j = k d.out d.after d.to (d.grows.valid live) d.grows d.post.quiet d.post.is in
      record {
        after = j.after;
        to = j.to;
        cost = d.runs.cost + j.cost;
        emitted = >>=-eq_of_ok act f d.emitted j.emitted;
        grows = Grows-trans d.grows j.grows live;
        quiet = Quiet-trans d.grows.later d.post.quiet j.quiet;
        goes = λ B n x.
            ap (λ c. run L B c s.bb (here s B) m) (add_fuel-add d.runs.cost j.cost (suc n))
            ∙ d.runs.goes B (add_fuel j.cost (suc n)) (Extends-before d.grows j.grows live x)
            ∙ j.goes B n (Extends-after d.grows j.grows live x);
      }

  pub Jumps-eq :
      {s : Lifter} {m : Machine} {act act' : M (Unit {0})} {t : ℕ}
      → act s ≡ act' s
      → Jumps s m act' t
      → Jumps s m act t
  Jumps-eq e j = record {
    after = j.after;
    to = j.to;
    cost = j.cost;
    emitted = e ∙ j.emitted;
    grows = j.grows;
    quiet = j.quiet;
    goes = j.goes;
  }

  taken : (b : Bool) (t f : ℕ) → (if (if b then 1 else 0) == 1 then t else f) ≡ (if b then t else f)
  taken true t f = refl
  taken false t f = refl

  run-cond_br :
      {n : ℕ} {m : Machine} {c : Value} (b : Bool) (t f : ℕ) (rest : List Instr)
      → Is L n m c 1 (if b then 1 else 0)
      → run_block L (Instr.cond_br c t f ∷ rest) m ≡ some (some (if b then t else f), m)
  unfolding run_block
  run-cond_br b t f rest i = rw (Is-now L i, taken b t f) refl

  pub Jumps-cond_branch :
      {s : Lifter} {m : Machine} {c : Value} (b : Bool) (t f : ℕ)
      → Is L s.next m c 1 (if b then 1 else 0)
      → Jumps s m (create_cond_branch c t f) (if b then t else f)
  unfolding create_cond_branch emit
  Jumps-cond_branch {s} {m} {c} b t f i = record {
    after = emit (Instr.cond_br c t f) s;
    to = m;
    cost = 0;
    emitted = refl;
    grows = Grows-emit (Instr.cond_br c t f) s;
    quiet = Quiet-refl s.next m;
    goes = λ B n x.
        ap (λ is. run L B (suc n) s.bb is m) ((here-emit L (Instr.cond_br c t f) s B x).0)
        ∙ run-branch L B n s.bb (if b then t else f) _ m m (run-cond_br b t f x.rest i);
  }

find_block-more :
    (todo n k : ℕ) (names names' : ℕ → String) (name : String) (t : ℕ)
    → todo ≤ n
    → ((b : ℕ) → b < k + todo → names' b ≡ names b)
    → find_block todo k names name ≡ some t
    → find_block n k names' name ≡ some t
unfolding find_block
find_block-more zero n k names names' name t l same h = absurd (none-ne-some t h)
find_block-more (suc todo) zero k names names' name t l same h = absurd (omega arith)
find_block-more (suc todo) (suc n) k names names' name t l same h =
    let e : names' k ≡ names k = same k (omega arith) in
    elim (Bool-cases (str_eq (names k) name)) [
      | inl q ↦ let h' : some k ≡ some t = sym (rw q) ∙ h in rw (e, q) h'
      | inr q ↦
          let h' : find_block todo (suc k) names name ≡ some t = sym (rw q) ∙ h in
          rw (e, q)
            (find_block-more todo n (suc k) names names' name t (omega arith)
              (λ b u. same b (omega arith)) h')
    ]

find_block-Grows :
    {s s' : Lifter} (name : String) (t : ℕ)
    → Grows s s'
    → find_block s.count 0 s.names name ≡ some t
    → find_block s'.count 0 s'.names name ≡ some t
find_block-Grows {s} {s'} name t g h =
    find_block-more s.count s'.count 0 s.names s'.names name t g.more
      (λ b l. g.named b (omega arith)) h

-- The block of that name is found, and is found still when more blocks exist.
pub get_bb_by_name-Grows :
    {s s' : Lifter} (name : String) (t : ℕ)
    → Grows s s'
    → find_block s.count 0 s.names name ≡ some t
    → get_bb_by_name name s' ≡ ok (t, s')
unfolding get_bb_by_name
get_bb_by_name-Grows {s} {s'} name t g h =
    ap (λ (o : Option ℕ). lift_option assertion o s') (find_block-Grows name t g h)

-- The targets of a branch: the block named, and the other successor, or the same block again.
pub record HasTargets (s : Lifter) (name : String) (t f : ℕ) : Type 0 where
  pub counted : (length s.succs == 1) || (length s.succs == 2) ≡ true
  pub taken_at : find_block s.count 0 s.names name ≡ some t
  pub other_at : find_block s.count 0 s.names (name_or (other_successor s.succs name) name) ≡ some f

pub HasTargets-Grows :
    {t f : ℕ} {s s' : Lifter} {name : String}
    → Grows s s'
    → HasTargets s name t f
    → HasTargets s' name t f
HasTargets-Grows {t} {f} {s} {s'} {name} g h = record {
  counted = ap (λ (ns : List String). length ns == 1 || length ns == 2) g.same_succs ∙ h.counted;
  taken_at = find_block-Grows name t g h.taken_at;
  other_at =
      ap
        (λ (ns : List String).
          find_block s'.count 0 s'.names (name_or (other_successor ns name) name))
        g.same_succs
      ∙ find_block-Grows (name_or (other_successor s.succs name) name) f g h.other_at;
}

module _ {base t f : ℕ} {i : McInst} {s s' : Lifter} {name : String} (g : Grows s s')
    (at : IsAt base i s') (idx : ℕ) (op : get_elem? i.operands idx ≡ some (expr name))
    (h : HasTargets s name t f) where
  abbrev counts : M (Unit {0})
  counts s = assert (length s.succs == 1 || length s.succs == 2) s

  abbrev other : M ℕ
  other s = get_bb_by_name (name_or (other_successor s.succs name) name) s

  counts-Grows : (length s.succs == 1) || (length s.succs == 2) ≡ true → counts s' ≡ ok (tt, s')
  counts-Grows e =
      ap (λ (ns : List String). assert (length ns == 1 || length ns == 2) s') g.same_succs ∙ rw e

  other-Grows : other s' ≡ ok (f, s')
  other-Grows =
      ap (λ (ns : List String). get_bb_by_name (name_or (other_successor ns name) name) s')
        g.same_succs
      ∙ get_bb_by_name-Grows (name_or (other_successor s.succs name) name) f g h.other_at

  -- Where the operand names a block that was found at some earlier state, and so was the other
  -- successor, `getBranchTargetsOperand` finds those two blocks, however many blocks have been
  -- created since.
  pub targets-Grows : get_branch_targets_operand idx s' ≡ ok ((t, f), s')
  unfolding get_branch_targets_operand
  targets-Grows = >>=-eq_of_ok (get_operand idx) _ (get_operand-IsAt at idx (expr name) op) (
      >>=-eq_of_ok (get_bb_by_name name) _ (get_bb_by_name-Grows name t g h.taken_at) (
        >>=-eq_of_ok counts (λ _. other >>= λ x. pure (t, x)) {s = s'} (counts-Grows h.counted)
          (>>=-eq_of_ok other (λ x. pure (t, x)) {s = s'} other-Grows refl)))

-- Look up the targets and branch.
pub Jumps-targets :
    (L : LangRef) {base t f : ℕ} {i : McInst} {s s' : Lifter} {m' : Machine} {c : Value}
    {name : String} (b : Bool) (idx : ℕ)
    → Grows s s'
    → IsAt base i s'
    → get_elem? i.operands idx ≡ some (expr name)
    → HasTargets s name t f
    → Is L s'.next m' c 1 (if b then 1 else 0)
    → Jumps L s' m'
        (get_branch_targets_operand idx >>= λ p. create_cond_branch c p.0 p.1)
        (if b then t else f)
Jumps-targets L {t = t} {f = f} b idx g at op h p =
    Jumps-eq L (>>=-eq_of_ok (get_branch_targets_operand idx) _ (targets-Grows g at idx op h) refl)
      (Jumps-cond_branch L b t f p)
