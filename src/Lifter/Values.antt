-- ===== src/Lifter/Values.antt =====
-- What a value is worth, now and later: an instruction's result stays what it was, since later
-- instructions have later numbers.
use bpf_tv.Common.{ℕ, suc, ◌≤◌, ◌<◌, ◌≡◌, refl, ◌∙◌, some, arith, update}
use bpf_tv.Llvm.Ir.{int, Value, type_of}
use bpf_tv.Llvm.LangRef.{LangRef}
use bpf_tv.Llvm.Exec.{Machine, eval}
use bpf_tv.Lifter.State.{Lifter, M, ◌>>=◌}
use bpf_tv.Lifter.Logic.{Does, Does-bind, Does-post}
use bpf_tv.Lifter.Grows.{Grows}

-- From `m` to `m'` only results and cells numbered `n` or later changed.
pub record Quiet (n : ℕ) (m m' : Machine) : Type 0 where
  pub env_kept : (k : ℕ) → k < n → m'.env k ≡ m.env k
  pub args_kept : m'.args ≡ m.args
  pub globals_kept : m'.globals ≡ m.globals
  pub cells_kept : (k : ℕ) → k < n → m'.cells k ≡ m.cells k
  pub mem_kept : m'.mem ≡ m.mem

pub Quiet-refl : (n : ℕ) (m : Machine) → Quiet n m m
Quiet-refl n m = record {
  env_kept = λ k h. refl;
  args_kept = refl;
  globals_kept = refl;
  cells_kept = λ k h. refl;
  mem_kept = refl;
}

pub Quiet-trans :
    {n n' : ℕ} {m m' m'' : Machine} → n ≤ n' → Quiet n m m' → Quiet n' m' m'' → Quiet n m m''
Quiet-trans l p q = record {
  env_kept = λ k h. q.env_kept k (omega arith) ∙ p.env_kept k h;
  args_kept = q.args_kept ∙ p.args_kept;
  globals_kept = q.globals_kept ∙ p.globals_kept;
  cells_kept = λ k h. q.cells_kept k (omega arith) ∙ p.cells_kept k h;
  mem_kept = q.mem_kept ∙ p.mem_kept;
}

-- The same, but for cells and memory: what `eval` depends on.
pub record Keeps (n : ℕ) (m m' : Machine) : Type 0 where
  pub env_same : (k : ℕ) → k < n → m'.env k ≡ m.env k
  pub args_same : m'.args ≡ m.args
  pub globals_same : m'.globals ≡ m.globals

pub Quiet-Keeps : {n : ℕ} {m m' : Machine} → Quiet n m m' → Keeps n m m'
Quiet-Keeps q = record {
  env_same = q.env_kept;
  args_same = q.args_kept;
  globals_same = q.globals_kept;
}

pub Keeps-trans :
    {n n' : ℕ} {m m' m'' : Machine} → n ≤ n' → Keeps n m m' → Keeps n' m' m'' → Keeps n m m''
Keeps-trans l p q = record {
  env_same = λ k h. q.env_same k (omega arith) ∙ p.env_same k h;
  args_same = q.args_same ∙ p.args_same;
  globals_same = q.globals_same ∙ p.globals_same;
}

pub Keeps-self : (n : ℕ) (m : Machine) → Keeps n m m
Keeps-self n m = record { env_same = λ k h. refl; args_same = refl; globals_same = refl }

pub Keeps-suc : {n : ℕ} {m m' : Machine} → Keeps (suc n) m m' → Keeps n m m'
Keeps-suc k = record {
  env_same = λ j h. k.env_same j (omega arith);
  args_same = k.args_same;
  globals_same = k.globals_same;
}

module _ (L : LangRef) where
  -- `v` is an integer of `w` bits, and is worth `x` from `m` on, where `n` instructions exist.
  pub record Is (n : ℕ) (m : Machine) (v : Value) (w x : ℕ) : Type 0 where
    pub typed : type_of v ≡ int w
    pub worth : (m' : Machine) → Keeps n m m' → eval L m' v ≡ some x

  pub Is-later :
      {n n' : ℕ} {m m' : Machine} {v : Value} {w x : ℕ}
      → n ≤ n'
      → Keeps n m m'
      → Is n m v w x
      → Is n' m' v w x
  Is-later l k i = record { typed = i.typed; worth = λ m'' k'. i.worth m'' (Keeps-trans l k k') }

  pub Is-now : {n : ℕ} {m : Machine} {v : Value} {w x : ℕ} → Is n m v w x → eval L m v ≡ some x
  Is-now {n} {m} i = i.worth m (Keeps-self n m)

  -- What an action yields that computes an integer and changes nothing.
  pub record Yields (n : ℕ) (m : Machine) (w x : ℕ) (v : Value) (s' : Lifter) (m' : Machine)
      : Type 0 where
    pub quiet : Quiet n m m'
    pub is : Is s'.next m' v w x

pub update_congr : (f g : ℕ → ℕ) (c x k : ℕ) → f k ≡ g k → update f c x k ≡ update g c x k
unfolding update
update_congr f g c x k h = ground arith

-- What an action does that changes one of the cells below `n`.
pub record Stores (n : ℕ) (m : Machine) (c x : ℕ) (a : Unit {0}) (s' : Lifter) (m' : Machine)
    : Type 0 where
  pub keeps : Keeps n m m'
  pub cells_set : (k : ℕ) → k < n → m'.cells k ≡ update m.cells c x k
  pub mem_same : m'.mem ≡ m.mem

module _ (L : LangRef) where
  -- Compute a value and go on with it, to a value or to a store.
  pub Does-value :
      {s : Lifter} {m : Machine} {w x w' x' : ℕ} {act : M Value} {f : Value → M Value}
      → s.bb < s.count
      → Does L s m act (Yields L s.next m w x)
      → ((v : Value) (s' : Lifter) (m' : Machine)
          → s'.bb < s'.count
          → Grows s s'
          → Quiet s.next m m'
          → Is L s'.next m' v w x
          → Does L s' m' (f v) (Yields L s'.next m' w' x'))
      → Does L s m (act >>= f) (Yields L s.next m w' x')
  Does-value {s} {m} live d k = Does-bind L live d λ v s' m' live' g y.
      Does-post L (k v s' m' live' g y.quiet y.is)
        λ v' s'' m'' y'. record { quiet = Quiet-trans g.later y.quiet y'.quiet; is = y'.is }

  pub Does-store :
      {s : Lifter} {m : Machine} {w x c x' : ℕ} {act : M Value} {f : Value → M (Unit {0})}
      → s.bb < s.count
      → Does L s m act (Yields L s.next m w x)
      → ((v : Value) (s' : Lifter) (m' : Machine)
          → s'.bb < s'.count
          → Grows s s'
          → Quiet s.next m m'
          → Is L s'.next m' v w x
          → Does L s' m' (f v) (Stores s'.next m' c x'))
      → Does L s m (act >>= f) (Stores s.next m c x')
  Does-store {s} {m} {c} {x'} live d k = Does-bind L live d λ v s' m' live' g y.
      Does-post L (k v s' m' live' g y.quiet y.is) λ _ s'' m'' y'. record {
        keeps = Keeps-trans g.later (Quiet-Keeps y.quiet) y'.keeps;
        cells_set = λ k h.
            y'.cells_set k (omega (arith, g.later))
            ∙ update_congr m'.cells m.cells c x' k (y.quiet.cells_kept k h);
        mem_same = y'.mem_same ∙ y.quiet.mem_kept;
      }
