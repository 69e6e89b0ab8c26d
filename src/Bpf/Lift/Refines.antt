-- ===== src/Bpf/Lift/Refines.antt =====
-- `liftInst` and the loop over instructions, against the instruction set.
use bpf_tv.Common.{
  ℕ, ◌*◌, ◌+◌, ◌≤◌, ◌<◌, ◌≡◌, refl, ap, ◌∙◌, List, [], ◌∷◌, Option, some, ok, arith, update,
  update_self, update_ne, All, map, sym,
}
use native.Mathlib.Decide.{ℕ_discrete}
use bpf_tv.Isa.Arithmetic.{Arithmetic, encode, IsValid, exec, alu64, alu32, move, endian, number}
use bpf_tv.Isa.Agrees.{exec_all, exec_all-Agrees}
use bpf_tv.Llvm.Ir.{Value}
use bpf_tv.Llvm.LangRef.{LangRef}
use bpf_tv.Llvm.Exec.{Machine}
use bpf_tv.Mc.Inst.{McInst}
use bpf_tv.Lifter.State.{Lifter, M}
use bpf_tv.Lifter.Grows.{Grows, Grows-refl, Grows-trans}
use bpf_tv.Lifter.Logic.{Does, Does-eq, Does-post, Runs, Runs-refl, Runs-trans, >>=-eq_of_ok}
use bpf_tv.Lifter.Values.{Stores}
use bpf_tv.Bpf.Call.{Env}
use bpf_tv.Bpf.Lift.{lift, lift_inst, lift_all}
use bpf_tv.Bpf.Frame.{IsAt, reg_of}
use bpf_tv.Bpf.Alu.Wide.{Does-lift_alu64}
use bpf_tv.Bpf.Alu.Narrow.{Does-lift_alu32}
use bpf_tv.Bpf.Move.Values.{Does-lift_move, Does-lift_endian}

-- The register file is in its cells, and the current block exists.
pub record IsReady (base : ℕ) (s : Lifter) : Type 0 where
  pub storage : (n : ℕ) → n ≤ 11 → s.reg_file n ≡ some (Value.alloca (base + 4 * n))
  pub taken : base + 44 < s.next
  pub live : s.bb < s.count

-- The registers have changed by `f`, and memory, arguments and globals have not.
pub record Executes (base : ℕ) (f : (ℕ → ℕ) → (ℕ → ℕ)) (m m' : Machine) : Type 0 where
  pub regs : (n : ℕ) → n ≤ 11 → reg_of base m' n ≡ f (reg_of base m) n
  pub mem_same : m'.mem ≡ m.mem
  pub args_same : m'.args ≡ m.args
  pub globals_same : m'.globals ≡ m.globals

update_offset :
    (f : ℕ → ℕ) (base d z n : ℕ)
    → update f (base + 4 * d) z (base + 4 * n) ≡ update (λ k. f (base + 4 * k)) d z n
update_offset f base d z n = elim (ℕ_discrete n d) [
  | yes e ↦
      ap (λ k. update f (base + 4 * d) z (base + 4 * k)) e
      ∙ update_self f (base + 4 * d) z
      ∙ sym (update_self (λ k. f (base + 4 * k)) d z)
      ∙ ap (update (λ k. f (base + 4 * k)) d z) (sym e)
  | no ne ↦
      update_ne f (base + 4 * d) (base + 4 * n) z (λ e. ne (omega arith))
      ∙ sym (update_ne (λ k. f (base + 4 * k)) d n z ne)
]

Stores-Executes :
    {base n : ℕ} {m m' : Machine} {u : Unit {0}} {s' : Lifter} (d z : ℕ) (f : (ℕ → ℕ) → (ℕ → ℕ))
    → base + 44 < n
    → f (reg_of base m) ≡ update (reg_of base m) d z
    → Stores n m (base + 4 * d) z u s' m'
    → Executes base f m m'
Stores-Executes {base} {n} {m} d z f taken e st = record {
  regs = λ k h.
      st.cells_set (base + 4 * k) (omega arith)
      ∙ update_offset m.cells base d z k
      ∙ ap (λ g. g k) (sym e);
  mem_same = st.mem_same;
  args_same = st.keeps.args_same;
  globals_same = st.keeps.globals_same;
}

abbrev pub at_inst : Lifter → McInst → Lifter
at_inst s i = record s { cur_inst = i }

pub here-IsAt : {base : ℕ} {s : Lifter} → IsReady base s → (i : McInst) → IsAt base i (at_inst s i)
here-IsAt ready i = record {
  storage = ready.storage;
  taken = ready.taken;
  live = ready.live;
  inst = refl;
}

module _ (L : LangRef) (e : Env) {base : ℕ} {s : Lifter} (m : Machine)
    (ready : IsReady base s) where
  -- Where the register file is set up, lifting a valid ALU, move or byte swap instruction succeeds,
  -- and the code it adds runs, from the machine given, to one where the registers hold what the
  -- instruction set says and memory is unchanged.
  pub lift_inst-refines :
      (x : Arithmetic)
      → IsValid x
      → Does L
          (at_inst s (encode x))
          m
          (lift_inst e (encode x))
          (λ u s' m'. Executes base (exec x) m m')
  unfolding lift_inst lift encode IsValid exec
  lift_inst-refines (alu64 o d a b) (hd, ha, hb) = Does-eq L refl (
      Does-post L
        (Does-lift_alu64 L d a b (here-IsAt ready (encode (alu64 o d a b))) o refl hd ha hb)
        λ u s' m'. Stores-Executes (number d) _ (exec (alu64 o d a b)) ready.taken refl)
  lift_inst-refines (alu32 o d a b) (hd, ha, hb) = Does-eq L refl (
      Does-post L
        (Does-lift_alu32 L d a b (here-IsAt ready (encode (alu32 o d a b))) o refl hd ha hb)
        λ u s' m'. Stores-Executes (number d) _ (exec (alu32 o d a b)) ready.taken refl)
  lift_inst-refines (move o d b) (hd, hb) = Does-eq L refl (
      Does-post L (Does-lift_move L (here-IsAt ready (encode (move o d b))) refl hd e o b refl hb)
        λ u s' m'. Stores-Executes (number d) _ (exec (move o d b)) ready.taken refl)
  lift_inst-refines (endian o d a) (hd, ha) = Does-eq L refl (
      Does-post L (Does-lift_endian L (here-IsAt ready (encode (endian o d a))) refl hd a refl ha o)
        λ u s' m'. Stores-Executes (number d) _ (exec (endian o d a)) ready.taken refl)

pub Grows-at : {s s' : Lifter} (i : McInst) → Grows s s' → Grows (at_inst s i) (at_inst s' i)
Grows-at i g = record {
  at = g.at;
  valid = g.valid;
  more = g.more;
  added = g.added;
  appended = g.appended;
  kept = g.kept;
  named = g.named;
  later = g.later;
  same_regs = g.same_regs;
  same_inst = refl;
  same_succs = g.same_succs;
}

pub IsReady-Grows : {base : ℕ} {s s' : Lifter} → Grows s s' → IsReady base s → IsReady base s'
IsReady-Grows g p = record {
  storage = λ n h. ap (λ (f : ℕ → Option Value). f n) g.same_regs ∙ p.storage n h;
  taken = omega (arith, g.later, p.taken);
  live = g.valid p.live;
}

pub IsReady-at : {base : ℕ} {s : Lifter} (i : McInst) → IsReady base s → IsReady base (at_inst s i)
IsReady-at i p = record { storage = p.storage; taken = p.taken; live = p.live }

module _ (L : LangRef) where
  Runs-at :
      {s s' : Lifter} {m m' : Machine} (i j : McInst)
      → Runs L s m s' m'
      → Runs L (at_inst s i) m (at_inst s' j) m'
  Runs-at i j p = record {
    cost = p.cost;
    goes =
        λ B f x. p.goes B f (record { rest = x.rest; current = x.current; finished = x.finished });
  }

-- What lifting several instructions does, which ends with the last of them at hand.
pub record Lifts (L : LangRef) (base : ℕ) (s : Lifter) (m : Machine) (act : M (Unit {0}))
    (f : (ℕ → ℕ) → (ℕ → ℕ)) : Type 0 where
  pub after : Lifter
  pub to : Machine
  pub emitted : act s ≡ ok (tt, after)
  pub grows : Grows (at_inst s after.cur_inst) after
  pub runs : Runs L s m after to
  pub executes : Executes base f m to

pub Executes-trans :
    {base : ℕ} {f g : (ℕ → ℕ) → (ℕ → ℕ)} {m m' m'' : Machine}
    → ((r r' : ℕ → ℕ) → ((n : ℕ) → n ≤ 11 → r n ≡ r' n) → (n : ℕ) → n ≤ 11 → g r n ≡ g r' n)
    → Executes base f m m'
    → Executes base g m' m''
    → Executes base (λ r. g (f r)) m m''
Executes-trans c p q = record {
  regs = λ n h. q.regs n h ∙ c _ _ p.regs n h;
  mem_same = q.mem_same ∙ p.mem_same;
  args_same = q.args_same ∙ p.args_same;
  globals_same = q.globals_same ∙ p.globals_same;
}

-- Where the register file is set up, lifting a list of valid ALU, move and byte swap instructions
-- succeeds, and the code it adds runs, from the machine given, to one where the registers hold what
-- executing the instructions one after the other gives and memory is unchanged.
pub lift_all-refines :
    (L : LangRef) (e : Env) (base : ℕ) (s : Lifter) (m : Machine) (xs : List Arithmetic)
    → IsReady base s
    → All IsValid xs
    → Lifts L base s m (lift_all e (map encode xs)) (exec_all xs)
unfolding lift_all lift_inst exec_all
lift_all-refines L e base s m [] ready v = record {
  after = s;
  to = m;
  emitted = refl;
  grows = Grows-refl s;
  runs = Runs-refl L s m;
  executes = record { regs = λ n h. refl; mem_same = refl; args_same = refl; globals_same = refl };
}
lift_all-refines L e base s m (x ∷ xs) ready (v, vs) =
    let d = lift_inst-refines L e m ready x v in
    let rest =
      lift_all-refines L e base d.after d.to xs
        (IsReady-Grows d.grows (IsReady-at (encode x) ready)) vs in
    let g : Grows (at_inst s rest.after.cur_inst) (at_inst d.after rest.after.cur_inst) =
      Grows-at rest.after.cur_inst d.grows in
    record {
      after = rest.after;
      to = rest.to;
      emitted =
          >>=-eq_of_ok (lift_inst e (encode x)) (λ _. lift_all e (map encode xs)) {s = s} d.emitted
            rest.emitted;
      grows = Grows-trans g rest.grows ready.live;
      runs = Runs-at L {s = at_inst s rest.after.cur_inst} s.cur_inst rest.after.cur_inst (
          Runs-trans L ready.live g rest.grows
            (Runs-at L rest.after.cur_inst rest.after.cur_inst d.runs)
            (Runs-at L rest.after.cur_inst rest.after.cur_inst rest.runs));
      executes = Executes-trans (λ r r' h. exec_all-Agrees xs r r' vs h) d.post rest.executes;
    }
