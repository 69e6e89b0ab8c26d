-- ===== src/Lifter/Divide/Unsigned.antt =====
-- `createCheckedUDiv` and `createCheckedURem`.
use bpf_tv.Common.{
  ℕ, suc, ◌/◌, ◌%◌, ◌^◌, ◌<◌, ◌≤◌, ◌≡◌, ◌≢◌, refl, sym, ap, ◌∙◌, some, ok, arith, ==_refl, length,
  true, false, if◌then◌else◌, ◌==◌, List, [], ◌∷◌, ◌++◌, update, update_self, update_ne, drop,
  drop-length-append, lt→ltb, inl, inr, Bool-cases, ==_iff, ==_ne,
}
use native.Mathlib.Nat.{one-le-pow}
use native.Mathlib.Decide.{ℕ_discrete}
use bpf_tv.Llvm.Ir.{int, Value, const, BinOp, type_of, Instr, Predicate, alloca, result}
use bpf_tv.Llvm.LangRef.{LangRef}
use bpf_tv.Llvm.Exec.{Machine, eval, run, run_block, step}
use bpf_tv.Lifter.State.{Lifter, M, emit}
use bpf_tv.Lifter.Emits.{emits, run-steps}
use bpf_tv.Lifter.Checked.{create_checked_udiv, create_checked_urem}
use bpf_tv.Lifter.Divide.Fill.{
  create_blocks, create_blocks-names, fill, fill-below, blocks-start, blocks-new, blocks-old,
  run-branch,
}
use bpf_tv.Lifter.Logic.{Does, here}
use bpf_tv.Lifter.Grows.{Grows, Extends}
use bpf_tv.Lifter.Values.{Quiet, Quiet-refl, Keeps, Is, Is-now, Yields}

-- The three parts of the code, and the state after them.
abbrev head : Lifter → ℕ → Value → Value → List Instr
head s w b c =
    Instr.make_alloca s.next w
    ∷ Instr.store c (alloca s.next)
    ∷ Instr.compute (Value.icmp Predicate.eq b (const w 0))
    ∷ Instr.cond_br (Value.icmp Predicate.eq b (const w 0)) (suc s.count) s.count
    ∷ []

abbrev divide : Lifter → BinOp → Value → Value → List Instr
divide s op a b =
    Instr.compute (Value.binop op a b)
    ∷ Instr.store (Value.binop op a b) (alloca s.next)
    ∷ Instr.br (suc s.count)
    ∷ []

-- The number of the final load.
abbrev final : Lifter → ℕ
final s = suc (suc (suc (suc (suc (suc (suc s.next))))))

abbrev load_result : Lifter → ℕ → List Instr
load_result s w = Instr.load (final s) (int w) (alloca s.next) ∷ []

abbrev after : Lifter → BinOp → ℕ → Value → Value → Value → Lifter
after s op w a b c =
    fill (divide s op a b ∷ load_result s w ∷ []) s.count (emits (head s w b c) (create_blocks 2 s))

udiv_eq :
    (s : Lifter) (a b c : Value) (w : ℕ)
    → type_of a ≡ int w
    → type_of b ≡ int w
    → create_checked_udiv a b c s ≡ ok (result (int w) (final s), after s BinOp.udiv w a b c)
unfolding create_checked_udiv emit
udiv_eq s a b c w ta tb =
    rw (ta, tb, ==_refl w, lt→ltb 0 (2 ^ w) (one-le-pow w 2 (omega arith))) refl

urem_eq :
    (s : Lifter) (a b c : Value) (w : ℕ)
    → type_of a ≡ int w
    → type_of b ≡ int w
    → create_checked_urem a b c s ≡ ok (result (int w) (final s), after s BinOp.urem w a b c)
unfolding create_checked_urem emit
urem_eq s a b c w ta tb =
    rw (ta, tb, ==_refl w, lt→ltb 0 (2 ^ w) (one-le-pow w 2 (omega arith))) refl

-- The machine with the result's cell set.
abbrev pub set_cell : Lifter → Machine → ℕ → Machine
set_cell s m v = record m { cells = update m.cells s.next v }

pub Keeps-set : (s : Lifter) (m : Machine) (v : ℕ) → Keeps s.next m (set_cell s m v)
Keeps-set s m v = record { env_same = λ k l. refl; args_same = refl; globals_same = refl }

pub Quiet-set :
    {m : Machine} (s : Lifter) (m' : Machine) (v : ℕ)
    → Quiet s.next m m'
    → Quiet s.next m (set_cell s m' v)
Quiet-set s m' v qu = record {
  env_kept = qu.env_kept;
  args_kept = qu.args_kept;
  globals_kept = qu.globals_kept;
  cells_kept = λ k l. update_ne m'.cells s.next k v (λ p. omega arith) ∙ qu.cells_kept k l;
  mem_kept = qu.mem_kept;
}

-- The result is read back into the result numbered `k`.
pub Yields-cell :
    (L : LangRef) {m : Machine} (s s' : Lifter) (w k : ℕ) (m' : Machine) (v : ℕ)
    → s.next ≤ k
    → s'.next ≡ suc k
    → Quiet s.next m m'
    → m'.cells s.next ≡ v
    → Yields L s.next m w v
        (result (int w) k)
        s'
        (record m' { env = update m'.env k (m'.cells s.next) })
unfolding eval
Yields-cell L s s' w k m' v l n qu e = record {
  quiet = record {
    env_kept = λ j h. update_ne m'.env k j (m'.cells s.next) (λ p. omega arith) ∙ qu.env_kept j h;
    args_kept = qu.args_kept;
    globals_kept = qu.globals_kept;
    cells_kept = qu.cells_kept;
    mem_kept = qu.mem_kept;
  };
  is = record {
    typed = refl;
    worth =
        λ m'' t. ap some (t.env_same k (omega arith) ∙ update_self m'.env k (m'.cells s.next) ∙ e);
  };
}

module _ (L : LangRef) (op : BinOp) (s : Lifter) (m : Machine) (a b c : Value) (w x y z : ℕ)
    (live : s.bb < s.count) (p : Is L s.next m a w x) (h : Is L s.next m b w y)
    (d : Is L s.next m c w z) where
  after-Grows : Grows s (after s op w a b c)
  unfolding emit
  after-Grows = record {
    at = inr (omega arith);
    valid = λ l. omega arith;
    more = omega arith;
    added = head s w b c;
    appended = blocks-start s 2 (head s w b c) live (divide s op a b ∷ load_result s w ∷ []);
    kept = λ k ne l.
        blocks-old s 2 (head s w b c) live (divide s op a b ∷ load_result s w ∷ []) k ne l;
    named = λ k l. create_blocks-names 2 k s l;
    later = omega arith;
    same_regs = refl;
    same_inst = refl;
    same_succs = refl;
  }

  is_zero :
      eval L (set_cell s m z) (Value.icmp Predicate.eq b (const w 0))
      ≡ some (if y == 0 then 1 else 0)
  unfolding eval
  is_zero = rw (h.worth (set_cell s m z) (Keeps-set s m z), h.typed, L.eq_lem w y 0)

  run-head :
      run_block L (head s w b c) m
      ≡ some (some (if y == 0 then suc s.count else s.count), set_cell s m z)
  unfolding run_block step
  run-head =
      rw (Is-now L d, is_zero, is_zero) (elim (Bool-cases (y == 0)) [ inl e ↦ rw e | inr e ↦ rw e ])

  quotient :
      (q : ℕ) → L.binop op w x y ≡ some q → eval L (set_cell s m z) (Value.binop op a b) ≡ some q
  unfolding eval
  quotient q e =
      rw
        (
          p.worth (set_cell s m z) (Keeps-set s m z),
          h.worth (set_cell s m z) (Keeps-set s m z),
          p.typed,
        )
        e

  run-divide :
      (q : ℕ)
      → L.binop op w x y ≡ some q
      → run_block L (divide s op a b) (set_cell s m z)
        ≡ some (some (suc s.count), set_cell s (set_cell s m z) q)
  unfolding run_block step
  run-divide q e = rw (quotient q e, quotient q e)

  load_at :
      (B : ℕ → List Instr)
      → Extends s (after s op w a b c) B
      → (rest : List Instr) × (B (suc s.count) ≡ load_result s w ++ rest)
  unfolding emit
  load_at B e = (
    e.rest,
    e.current
        ∙ ap (λ (l : List Instr). l ++ e.rest)
            (blocks-new s 2 (head s w b c) live (divide s op a b ∷ []) (load_result s w) []
              (suc s.count) (omega arith) (omega arith)),
  )

  divide_at : (B : ℕ → List Instr) → Extends s (after s op w a b c) B → B s.count ≡ divide s op a b
  unfolding emit
  divide_at B e =
      e.finished s.count (inr (omega arith)) (λ q. omega arith) (omega arith)
      ∙ fill-below (load_result s w ∷ []) (suc s.count) s.count
          (fill (divide s op a b ∷ []) s.count (emits (head s w b c) (create_blocks 2 s)))
          (omega arith)
      ∙ blocks-new s 2 (head s w b c) live [] (divide s op a b) [] s.count (omega arith)
          (omega arith)

  head_at : (B : ℕ → List Instr) → Extends s (after s op w a b c) B → here s B ≡ head s w b c
  unfolding emit
  head_at B e =
      ap (drop (length (s.blocks s.bb))) (
        e.finished s.bb (inl refl) (λ q. omega arith) (omega arith)
        ∙ blocks-start s 2 (head s w b c) live (divide s op a b ∷ load_result s w ∷ []))
      ∙ drop-length-append (s.blocks s.bb) (head s w b c)

  abbrev read_back : Machine → Machine
  read_back m' = record m' { env = update m'.env (final s) (m'.cells s.next) }

  run-load :
      (B : ℕ → List Instr) (f : ℕ) (e : Extends s (after s op w a b c) B) (m' : Machine)
      → run L B f (suc s.count) (B (suc s.count)) m'
        ≡ run L B f (after s op w a b c).bb (here (after s op w a b c) B) (read_back m')
  unfolding emit step load_at run
  run-load B f e m' =
      ap (λ is. run L B f (suc s.count) is m') ((load_at B e).1)
      ∙ run-steps L B f (suc s.count) (load_result s w) e.rest m' (read_back m') refl
      ∙ ap (λ is. run L B f (suc s.count) is (read_back m'))
          (sym (
            ap (drop (length ((after s op w a b c).blocks (after s op w a b c).bb))) e.current
            ∙ drop-length-append ((after s op w a b c).blocks (after s op w a b c).bb) e.rest))

  run-from :
      (t : ℕ)
      → (if y == 0 then suc s.count else s.count) ≡ t
      → (B : ℕ → List Instr) (f : ℕ) → Extends s (after s op w a b c) B
      → run L B (suc f) s.bb (here s B) m ≡ run L B f t (B t) (set_cell s m z)
  run-from t h B f e =
      ap (λ is. run L B (suc f) s.bb is m) (head_at B e)
      ∙ run-branch L B f s.bb t (head s w b c) m (set_cell s m z)
          (run-head ∙ ap (λ k. some (some k, set_cell s m z)) h)

  pub Does-checked :
      (q : ℕ) {act : M Value}
      → act s ≡ ok (result (int w) (final s), after s op w a b c)
      → (y ≢ 0 → L.binop op w x y ≡ some q)
      → Does L s m act (Yields L s.next m w (if y == 0 then z else q))
  unfolding emit
  Does-checked q e defined = elim (ℕ_discrete y 0) [
    | yes is_nil ↦
        let test : (y == 0) ≡ true = (==_iff y 0).1 is_nil in
        record {
          out = result (int w) (final s);
          after = after s op w a b c;
          to = read_back (set_cell s m z);
          emitted = e;
          grows = after-Grows;
          runs = record {
            cost = 1;
            goes =
                λ B f x. run-from (suc s.count) (rw test) B f x ∙ run-load B f x (set_cell s m z);
          };
          post = rw test (
              Yields-cell L s (after s op w a b c) w (final s) (set_cell s m z) z (omega arith) refl
                (Quiet-set s m z (Quiet-refl s.next m)) (update_self m.cells s.next z));
        }
    | no nonzero ↦
        let test : (y == 0) ≡ false = ==_ne y 0 nonzero in
        let m₁ : Machine = set_cell s m z in
        let m₂ : Machine = set_cell s m₁ q in
        record {
          out = result (int w) (final s);
          after = after s op w a b c;
          to = read_back m₂;
          emitted = e;
          grows = after-Grows;
          runs = record {
            cost = 2;
            goes = λ B f x.
                run-from s.count (rw test) B (suc f) x
                ∙ ap (λ is. run L B (suc f) s.count is m₁) (divide_at B x)
                ∙ run-branch L B f s.count (suc s.count) (divide s op a b) m₁ m₂
                    (run-divide q (defined nonzero))
                ∙ run-load B f x m₂;
          };
          post = rw test (
              Yields-cell L s (after s op w a b c) w (final s) m₂ q (omega arith) refl
                (Quiet-set s m₁ q (Quiet-set s m z (Quiet-refl s.next m)))
                (update_self m₁.cells s.next q));
        }
  ]

module _ (L : LangRef) {s : Lifter} {m : Machine} {a b c : Value} {w x y z : ℕ}
    (live : s.bb < s.count) (p : Is L s.next m a w x) (h : Is L s.next m b w y)
    (d : Is L s.next m c w z) where
  -- At integers of one width, `createCheckedUDiv` succeeds, and its code, which branches, runs to
  -- the value given for division by zero if the divisor is 0, and else to the unsigned quotient,
  -- with only new results and cells changed.
  pub Does-udiv :
      Does L s m (create_checked_udiv a b c) (Yields L s.next m w (if y == 0 then z else x / y))
  Does-udiv =
      Does-checked L BinOp.udiv s m a b c w x y z live p h d (x / y)
        (udiv_eq s a b c w p.typed h.typed) (L.udiv_lem w x y)

  -- At integers of one width, `createCheckedURem` succeeds, and its code, which branches, runs to
  -- the value given for division by zero if the divisor is 0, and else to the unsigned remainder,
  -- with only new results and cells changed.
  pub Does-urem :
      Does L s m (create_checked_urem a b c) (Yields L s.next m w (if y == 0 then z else x % y))
  Does-urem =
      Does-checked L BinOp.urem s m a b c w x y z live p h d (x % y)
        (urem_eq s a b c w p.typed h.typed) (L.urem_lem w x y)
