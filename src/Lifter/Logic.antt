-- ===== src/Lifter/Logic.antt =====
-- A program logic for lifting: what an action emits, and what that code does when it runs.
use bpf_tv.Common.{
  ℕ, zero, suc, ◌+◌, ◌<◌, ◌≡◌, refl, sym, ap, ◌∙◌, List, [], ◌∷◌, ◌++◌, length, drop,
  drop-length-append, append_assoc, some, ok, Result, arith,
}
use bpf_tv.Llvm.Ir.{Instr}
use bpf_tv.Llvm.LangRef.{LangRef}
use bpf_tv.Llvm.Exec.{Machine, step, run}
use bpf_tv.Lifter.State.{Lifter, M, ◌>>=◌, emit}
use bpf_tv.Lifter.Emits.{steps, run-steps, emit-blocks}
use bpf_tv.Lifter.Grows.{
  Grows, Grows-refl, Grows-emit, Grows-trans, Extends, Extends-before, Extends-after,
}

abbrev pub add_fuel : ℕ → ℕ → ℕ
add_fuel zero f = f
add_fuel (suc k) f = suc (add_fuel k f)

pub add_fuel-add : (j k f : ℕ) → add_fuel (j + k) f ≡ add_fuel j (add_fuel k f)
add_fuel-add zero k f = ap (λ n. add_fuel n f) (omega arith)
add_fuel-add (suc j) k f =
    let e : suc j + k ≡ suc (j + k) = omega arith in
    ap (λ n. add_fuel n f) e ∙ ap suc (add_fuel-add j k f)

pub >>=-eq_of_ok {ℓ κ} :
    {A : Type ℓ} {B : Type κ} (act : M A) (f : A → M B) {s s' : Lifter} {a : A}
    {r : Result (B × Lifter)}
    → act s ≡ ok (a, s')
    → f a s' ≡ r
    → (act >>= f) s ≡ r
>>=-eq_of_ok act f e h = rw (e, ◌>>=◌) h

-- The end of the current block of `s`, in a function `B` that goes on from there.
abbrev pub here : Lifter → (ℕ → List Instr) → List Instr
here s B = drop (length (s.blocks s.bb)) (B s.bb)

module _ (L : LangRef) where
  -- In every function that holds the code of `s'`, a run that comes to the end of `s` goes on to
  -- the end of `s'`, after `cost` branches.
  pub record Runs (s : Lifter) (m : Machine) (s' : Lifter) (m' : Machine) : Type 0 where
    pub cost : ℕ
    pub goes :
        (B : ℕ → List Instr) (f : ℕ)
        → Extends s s' B
        → run L B (add_fuel cost f) s.bb (here s B) m ≡ run L B f s'.bb (here s' B) m'

  pub Runs-refl : (s : Lifter) (m : Machine) → Runs s m s m
  Runs-refl s m = record { cost = 0; goes = λ B f x. refl }

  pub Runs-trans :
      {s s' s'' : Lifter} {m m' m'' : Machine}
      → s.bb < s.count
      → Grows s s'
      → Grows s' s''
      → Runs s m s' m'
      → Runs s' m' s'' m''
      → Runs s m s'' m''
  Runs-trans {s} {s'} {s''} {m} live g h p q = record {
    cost = p.cost + q.cost;
    goes = λ B f x.
        ap (λ n. run L B n s.bb (here s B) m) (add_fuel-add p.cost q.cost f)
        ∙ p.goes B (add_fuel q.cost f) (Extends-before g h live x)
        ∙ q.goes B f (Extends-after g h live x);
  }

  pub here-emit :
      (i : Instr) (s : Lifter) (B : ℕ → List Instr) (x : Extends s (emit i s) B)
      → (here s B ≡ i ∷ x.rest) × (here (emit i s) B ≡ x.rest)
  unfolding emit
  here-emit i s B x =
      let e : B s.bb ≡ (s.blocks s.bb ++ i ∷ []) ++ x.rest =
        x.current ∙ ap (λ (l : List Instr). l ++ x.rest) (emit-blocks i s) in
      (
        ap (drop (length (s.blocks s.bb))) (e ∙ append_assoc (s.blocks s.bb) (i ∷ []) x.rest)
            ∙ drop-length-append (s.blocks s.bb) (i ∷ x.rest),
        ap (drop (length ((emit i s).blocks s.bb))) x.current
            ∙ drop-length-append ((emit i s).blocks s.bb) x.rest,
      )

  pub Runs-emit :
      (i : Instr) (s : Lifter) (m m' : Machine) → step L i m ≡ some m' → Runs s m (emit i s) m'
  unfolding emit
  Runs-emit i s m m' h = record {
    cost = 0;
    goes = λ B f x.
        let (before, after) = here-emit i s B x in
        ap (λ is. run L B f s.bb is m) before
        ∙ run-steps L B f s.bb (i ∷ []) x.rest m m' (rw (h, steps))
        ∙ ap (λ is. run L B f s.bb is m') (sym after);
  }

  -- The action succeeds, its code runs from `m` to a machine `to`, and `Q` holds then.
  pub record Does {ℓ} {A : Type ℓ} (s : Lifter) (m : Machine) (act : M A)
      (Q : A → Lifter → Machine → Type 0) : Type ℓ where
    pub out : A
    pub after : Lifter
    pub to : Machine
    pub emitted : act s ≡ ok (out, after)
    pub grows : Grows s after
    pub runs : Runs s m after to
    pub post : Q out after to

  pub Does-pure {ℓ} :
      {A : Type ℓ} {Q : A → Lifter → Machine → Type 0} {s : Lifter} {m : Machine} (a : A)
      {act : M A}
      → act s ≡ ok (a, s)
      → Q a s m
      → Does s m act Q
  Does-pure {s} {m} a e q = record {
    out = a;
    after = s;
    to = m;
    emitted = e;
    grows = Grows-refl s;
    runs = Runs-refl s m;
    post = q;
  }

  pub Does-emit {ℓ} :
      {A : Type ℓ} {Q : A → Lifter → Machine → Type 0} {s : Lifter} {m : Machine} (i : Instr)
      (m' : Machine) (a : A) {act : M A}
      → act s ≡ ok (a, emit i s)
      → step L i m ≡ some m'
      → Q a (emit i s) m'
      → Does s m act Q
  Does-emit {s} {m} i m' a e h q = record {
    out = a;
    after = emit i s;
    to = m';
    emitted = e;
    grows = Grows-emit i s;
    runs = Runs-emit i s m m' h;
    post = q;
  }

  pub Does-bind {ℓ κ} :
      {A : Type ℓ} {B : Type κ} {Q : A → Lifter → Machine → Type 0}
      {R : B → Lifter → Machine → Type 0} {s : Lifter} {m : Machine} {act : M A} {f : A → M B}
      → s.bb < s.count
      → Does s m act Q
      → ((a : A) (s' : Lifter) (m' : Machine)
          → s'.bb < s'.count
          → Grows s s'
          → Q a s' m'
          → Does s' m' (f a) R)
      → Does s m (act >>= f) R
  Does-bind {s} {m} {act} {f} live d k =
      let e = k d.out d.after d.to (d.grows.valid live) d.grows d.post in
      record {
        out = e.out;
        after = e.after;
        to = e.to;
        emitted = >>=-eq_of_ok act f d.emitted e.emitted;
        grows = Grows-trans d.grows e.grows live;
        runs = Runs-trans live d.grows e.grows d.runs e.runs;
        post = e.post;
      }

  pub Does-post {ℓ} :
      {A : Type ℓ} {Q R : A → Lifter → Machine → Type 0} {s : Lifter} {m : Machine} {act : M A}
      → Does s m act Q
      → ((a : A) (s' : Lifter) (m' : Machine) → Q a s' m' → R a s' m')
      → Does s m act R
  Does-post d k = record {
    out = d.out;
    after = d.after;
    to = d.to;
    emitted = d.emitted;
    grows = d.grows;
    runs = d.runs;
    post = k d.out d.after d.to d.post;
  }

  -- Another way to write the action.
  pub Does-eq {ℓ} :
      {A : Type ℓ} {Q : A → Lifter → Machine → Type 0} {s : Lifter} {m : Machine} {act act' : M A}
      → act s ≡ act' s
      → Does s m act' Q
      → Does s m act Q
  Does-eq e d = record {
    out = d.out;
    after = d.after;
    to = d.to;
    emitted = e ∙ d.emitted;
    grows = d.grows;
    runs = d.runs;
    post = d.post;
  }
