-- ===== src/Lifter/Divide/Signed.antt =====
-- `createCheckedSDiv` and `createCheckedSRem` (src/lifter/mc2llvm.cpp).
use bpf_tv.Common.{
  ℕ, suc, ◌+◌, ◌-◌, ◌^◌, ◌<◌, ◌≡◌, ◌≢◌, refl, sym, ap, ◌∙◌, some, ok, arith, ==_refl, length, true,
  false, if◌then◌else◌, ◌==◌, ◌&&◌, List, [], ◌∷◌, ◌++◌, update, update_self, drop,
  drop-length-append, lt→ltb, inl, inr, Bool, Bool-cases, ==_iff, ==_ne, bit_and,
}
use native.Mathlib.Nat.{one-le-pow}
use native.Mathlib.Decide.{ℕ_discrete}
use bpf_tv.Words.{to_word, signed, quot, rem}
use bpf_tv.Llvm.Ir.{int, Value, const, BinOp, type_of, Instr, Predicate, alloca, result}
use bpf_tv.Llvm.LangRef.{LangRef}
use bpf_tv.Llvm.Exec.{Machine, eval, run, run_block, step}
use bpf_tv.Lifter.State.{Lifter, M, emit}
use bpf_tv.Lifter.Emits.{emits, run-steps}
use bpf_tv.Lifter.Checked.{create_checked_sdiv, create_checked_srem}
use bpf_tv.Lifter.Divide.Fill.{
  create_blocks, create_blocks-names, fill, blocks-start, blocks-new, blocks-old, run-branch,
}
use bpf_tv.Lifter.Divide.Unsigned.{set_cell, Keeps-set, Yields-cell, Quiet-set}
use bpf_tv.Lifter.Logic.{Does, here}
use bpf_tv.Lifter.Grows.{Grows, Extends}
use bpf_tv.Lifter.Values.{Quiet, Quiet-refl, Keeps, Is, Is-now, Yields}

-- The five parts of the code: the block at hand, the test for overflow, the two cases and the end.
abbrev head : Lifter → ℕ → Value → Value → List Instr
head s w b c =
    Instr.make_alloca s.next w
    ∷ Instr.store c (alloca s.next)
    ∷ Instr.compute (Value.icmp Predicate.eq b (const w 0))
    ∷ Instr.cond_br (Value.icmp Predicate.eq b (const w 0)) (suc (suc (suc s.count))) s.count
    ∷ []

abbrev is_min : ℕ → Value → Value
is_min w a = Value.icmp Predicate.eq a (const w (2 ^ (w - 1)))

abbrev is_ones : ℕ → Value → Value
is_ones w b = Value.icmp Predicate.eq b (const w (2 ^ w - 1))

abbrev both : ℕ → Value → Value → Value
both w a b = Value.binop BinOp.and (is_min w a) (is_ones w b)

abbrev check : Lifter → ℕ → Value → Value → List Instr
check s w a b =
    Instr.compute (is_min w a)
    ∷ Instr.compute (is_ones w b)
    ∷ Instr.compute (both w a b)
    ∷ Instr.cond_br (both w a b) (suc s.count) (suc (suc s.count))
    ∷ []

abbrev overflow : Lifter → Value → List Instr
overflow s o = Instr.store o (alloca s.next) ∷ Instr.br (suc (suc (suc s.count))) ∷ []

abbrev divide : Lifter → BinOp → Value → Value → List Instr
divide s op a b =
    Instr.compute (Value.binop op a b)
    ∷ Instr.store (Value.binop op a b) (alloca s.next)
    ∷ Instr.br (suc (suc (suc s.count)))
    ∷ []

-- The number of the final load.
abbrev final : Lifter → ℕ
final s = suc (suc (suc (suc (suc (suc (suc (suc (suc (suc (suc (suc (suc s.next))))))))))))

abbrev load_result : Lifter → ℕ → List Instr
load_result s w = Instr.load (final s) (int w) (alloca s.next) ∷ []

abbrev parts : Lifter → BinOp → ℕ → Value → Value → Value → List (List Instr)
parts s op w a b o = check s w a b ∷ overflow s o ∷ divide s op a b ∷ load_result s w ∷ []

abbrev after : Lifter → BinOp → ℕ → Value → Value → Value → Value → Lifter
after s op w a b c o = fill (parts s op w a b o) s.count (emits (head s w b c) (create_blocks 4 s))

sdiv_eq :
    (s : Lifter) (a b c o : Value) (w : ℕ)
    → type_of a ≡ int w
    → type_of b ≡ int w
    → create_checked_sdiv a b c o s ≡ ok (result (int w) (final s), after s BinOp.sdiv w a b c o)
unfolding create_checked_sdiv emit
sdiv_eq s a b c o w ta tb =
    rw (ta, tb, ==_refl w, lt→ltb 0 (2 ^ w) (one-le-pow w 2 (omega arith))) refl

srem_eq :
    (s : Lifter) (a b c o : Value) (w : ℕ)
    → type_of a ≡ int w
    → type_of b ≡ int w
    → create_checked_srem a b c o s ≡ ok (result (int w) (final s), after s BinOp.srem w a b c o)
unfolding create_checked_srem emit
srem_eq s a b c o w ta tb =
    rw (ta, tb, ==_refl w, lt→ltb 0 (2 ^ w) (one-le-pow w 2 (omega arith))) refl

unfoldable pub overflows : ℕ → ℕ → ℕ → Bool
overflows w x y = (x == 2 ^ (w - 1)) && (y == 2 ^ w - 1)

pub overflow-parts : (w x y : ℕ) → overflows w x y ≡ true → (x ≡ 2 ^ (w - 1)) × (y ≡ 2 ^ w - 1)
unfolding overflows
overflow-parts w x y h = elim (Bool-cases (x == 2 ^ (w - 1))) [
  | inl p ↦ elim (Bool-cases (y == 2 ^ w - 1)) [
    | inl q ↦ ((==_iff x (2 ^ (w - 1))).0 p, (==_iff y (2 ^ w - 1)).0 q)
    | inr q ↦ let e : overflows w x y ≡ false = rw (p, q) in absurd cc
  ]
  | inr p ↦ let e : overflows w x y ≡ false = rw p in absurd cc
]

and_bits :
    (p q : Bool) → bit_and (if p then 1 else 0) (if q then 1 else 0) ≡ (if p && q then 1 else 0)
and_bits true true = refl
and_bits true false = refl
and_bits false true = refl
and_bits false false = refl

module _ (L : LangRef) (op : BinOp) (s : Lifter) (m : Machine) (a b c o : Value) (w x y z v : ℕ)
    (live : s.bb < s.count) (p : Is L s.next m a w x) (h : Is L s.next m b w y)
    (d : Is L s.next m c w z) (e : Is L s.next m o w v) where
  after-Grows : Grows s (after s op w a b c o)
  unfolding emit
  after-Grows = record {
    at = inr (omega arith);
    valid = λ l. omega arith;
    more = omega arith;
    added = head s w b c;
    appended = blocks-start s 4 (head s w b c) live (parts s op w a b o);
    kept = λ k ne l. blocks-old s 4 (head s w b c) live (parts s op w a b o) k ne l;
    named = λ k l. create_blocks-names 4 k s l;
    later = omega arith;
    same_regs = refl;
    same_inst = refl;
    same_succs = refl;
  }

  module _ (m' : Machine) (k : Keeps s.next m m') where
    is_zero : eval L m' (Value.icmp Predicate.eq b (const w 0)) ≡ some (if y == 0 then 1 else 0)
    unfolding eval
    is_zero = rw (h.worth m' k, h.typed, L.eq_lem w y 0)

    min_worth : eval L m' (is_min w a) ≡ some (if x == 2 ^ (w - 1) then 1 else 0)
    unfolding eval
    min_worth = rw (p.worth m' k, p.typed, L.eq_lem w x (2 ^ (w - 1)))

    ones_worth : eval L m' (is_ones w b) ≡ some (if y == 2 ^ w - 1 then 1 else 0)
    unfolding eval
    ones_worth = rw (h.worth m' k, h.typed, L.eq_lem w y (2 ^ w - 1))

    both_worth : eval L m' (both w a b) ≡ some (if overflows w x y then 1 else 0)
    unfolding eval overflows
    both_worth =
        rw
          (
            min_worth,
            ones_worth,
            L.and_lem 1 (if x == 2 ^ (w - 1) then 1 else 0) (if y == 2 ^ w - 1 then 1 else 0),
            and_bits (x == 2 ^ (w - 1)) (y == 2 ^ w - 1),
          )
          refl

    quotient : (q : ℕ) → L.binop op w x y ≡ some q → eval L m' (Value.binop op a b) ≡ some q
    unfolding eval
    quotient q t = rw (p.worth m' k, h.worth m' k, p.typed) t

    run-check :
        run_block L (check s w a b) m'
        ≡ some (some (if overflows w x y then suc s.count else suc (suc s.count)), m')
    unfolding run_block step
    run-check =
        rw (min_worth, ones_worth, both_worth, both_worth)
          (elim (Bool-cases (overflows w x y)) [ inl t ↦ rw t | inr t ↦ rw t ])

    run-overflow :
        run_block L (overflow s o) m' ≡ some (some (suc (suc (suc s.count))), set_cell s m' v)
    unfolding run_block step
    run-overflow = rw (e.worth m' k)

    run-divide :
        (q : ℕ)
        → L.binop op w x y ≡ some q
        → run_block L (divide s op a b) m' ≡ some (some (suc (suc (suc s.count))), set_cell s m' q)
    unfolding run_block step
    run-divide q t = rw (quotient q t, quotient q t)

  run-head :
      run_block L (head s w b c) m
      ≡ some (some (if y == 0 then suc (suc (suc s.count)) else s.count), set_cell s m z)
  unfolding run_block step
  run-head =
      rw
        (
          Is-now L d,
          is_zero (set_cell s m z) (Keeps-set s m z),
          is_zero (set_cell s m z) (Keeps-set s m z),
        )
        (elim (Bool-cases (y == 0)) [ inl t ↦ rw t | inr t ↦ rw t ])

  module _ (B : ℕ → List Instr) (x' : Extends s (after s op w a b c o) B) where
    load_at : B (suc (suc (suc s.count))) ≡ load_result s w ++ x'.rest
    unfolding emit
    load_at =
        x'.current
        ∙ ap (λ (l : List Instr). l ++ x'.rest)
            (blocks-new s 4 (head s w b c) live
              (check s w a b ∷ overflow s o ∷ divide s op a b ∷ []) (load_result s w) []
              (suc (suc (suc s.count))) (omega arith) (omega arith))

    block_at :
        (cs : List (List Instr)) (l : List Instr) (rest : List (List Instr)) (k : ℕ)
        → s.count + length cs ≡ k
        → k < suc (suc (suc s.count))
        → (after s op w a b c o).blocks k
          ≡ (fill (l ∷ rest) k (fill cs s.count (emits (head s w b c) (create_blocks 4 s)))).blocks
              k
        → B k ≡ l
    unfolding emit
    block_at cs l rest k t u same =
        x'.finished k (inr (omega arith)) (λ q. omega arith) (omega arith)
        ∙ same
        ∙ blocks-new s 4 (head s w b c) live cs l rest k t (omega arith)

    head_at : here s B ≡ head s w b c
    unfolding emit
    head_at =
        ap (drop (length (s.blocks s.bb))) (
          x'.finished s.bb (inl refl) (λ q. omega arith) (omega arith)
          ∙ blocks-start s 4 (head s w b c) live (parts s op w a b o))
        ∙ drop-length-append (s.blocks s.bb) (head s w b c)

    check_at : B s.count ≡ check s w a b
    check_at =
        block_at [] (check s w a b) (overflow s o ∷ divide s op a b ∷ load_result s w ∷ []) s.count
          (omega arith) (omega arith) refl

    overflow_at : B (suc s.count) ≡ overflow s o
    overflow_at =
        block_at (check s w a b ∷ []) (overflow s o) (divide s op a b ∷ load_result s w ∷ [])
          (suc s.count) (omega arith) (omega arith) refl

    divide_at : B (suc (suc s.count)) ≡ divide s op a b
    divide_at =
        block_at (check s w a b ∷ overflow s o ∷ []) (divide s op a b) (load_result s w ∷ [])
          (suc (suc s.count)) (omega arith) (omega arith) refl

    run-load :
        (f : ℕ) (m' : Machine)
        → run L B f (suc (suc (suc s.count))) (B (suc (suc (suc s.count)))) m'
          ≡ run L B f
              (after s op w a b c o).bb
              (here (after s op w a b c o) B)
              (record m' { env = update m'.env (final s) (m'.cells s.next) })
    unfolding emit step run
    run-load f m' =
        let m'' : Machine = record m' { env = update m'.env (final s) (m'.cells s.next) } in
        ap (λ is. run L B f (suc (suc (suc s.count))) is m') load_at
        ∙ run-steps L B f (suc (suc (suc s.count))) (load_result s w) x'.rest m' m'' refl
        ∙ ap (λ is. run L B f (suc (suc (suc s.count))) is m'')
            (sym (
              ap (drop (length ((after s op w a b c o).blocks (after s op w a b c o).bb)))
                x'.current
              ∙ drop-length-append ((after s op w a b c o).blocks (after s op w a b c o).bb)
                  x'.rest))

    run-from :
        (t : ℕ)
        → (if y == 0 then suc (suc (suc s.count)) else s.count) ≡ t
        → (f : ℕ) → run L B (suc f) s.bb (here s B) m ≡ run L B f t (B t) (set_cell s m z)
    run-from t u f =
        ap (λ is. run L B (suc f) s.bb is m) head_at
        ∙ run-branch L B f s.bb t (head s w b c) m (set_cell s m z)
            (run-head ∙ ap (λ k. some (some k, set_cell s m z)) u)

    run-test :
        (t : ℕ)
        → (if overflows w x y then suc s.count else suc (suc s.count)) ≡ t
        → (f : ℕ) (m' : Machine) → Keeps s.next m m'
        → run L B (suc f) s.count (B s.count) m' ≡ run L B f t (B t) m'
    run-test t u f m' k =
        ap (λ is. run L B (suc f) s.count is m') check_at
        ∙ run-branch L B f s.count t (check s w a b) m' m'
            (run-check m' k ∙ ap (λ j. some (some j, m')) u)

  stored : Machine → ℕ → Machine
  stored m' u = record (set_cell s m' u) {
    env = update (set_cell s m' u).env (final s) ((set_cell s m' u).cells s.next);
  }

  yields :
      (m' : Machine) (u : ℕ)
      → Quiet s.next m m'
      → Yields L s.next m w u (result (int w) (final s)) (after s op w a b c o) (stored m' u)
  unfolding emit stored
  yields m' u qu =
      Yields-cell L s (after s op w a b c o) w (final s) (set_cell s m' u) u (omega arith) refl
        (Quiet-set s m' u qu) (update_self m'.cells s.next u)

  pub Does-checked :
      (q : ℕ) {act : M Value}
      → act s ≡ ok (result (int w) (final s), after s op w a b c o)
      → (y ≢ 0 → overflows w x y ≡ false → L.binop op w x y ≡ some q)
      → Does L s m act
          (Yields L s.next m w (if y == 0 then z else if overflows w x y then v else q))
  unfolding stored
  Does-checked q t defined = elim (ℕ_discrete y 0) [
    | yes is_nil ↦
        let test : (y == 0) ≡ true = (==_iff y 0).1 is_nil in
        record {
          out = result (int w) (final s);
          after = after s op w a b c o;
          to = stored m z;
          emitted = t;
          grows = after-Grows;
          runs = record {
            cost = 1;
            goes = λ B f x'.
                run-from B x' (suc (suc (suc s.count))) (rw test) f
                ∙ run-load B x' f (set_cell s m z);
          };
          post = rw test (yields m z (Quiet-refl s.next m));
        }
    | no nonzero ↦ elim (Bool-cases (overflows w x y)) [
      | inl big ↦
          let test : (y == 0) ≡ false = ==_ne y 0 nonzero in
          let m₁ : Machine = set_cell s m z in
          record {
            out = result (int w) (final s);
            after = after s op w a b c o;
            to = stored m₁ v;
            emitted = t;
            grows = after-Grows;
            runs = record {
              cost = 3;
              goes = λ B f x'.
                  run-from B x' s.count (rw test) (suc (suc f))
                  ∙ run-test B x' (suc s.count) (rw big) (suc f) m₁ (Keeps-set s m z)
                  ∙ ap (λ is. run L B (suc f) (suc s.count) is m₁) (overflow_at B x')
                  ∙ run-branch L B f (suc s.count) (suc (suc (suc s.count))) (overflow s o) m₁
                      (set_cell s m₁ v) (run-overflow m₁ (Keeps-set s m z))
                  ∙ run-load B x' f (set_cell s m₁ v);
            };
            post = rw (test, big) (yields m₁ v (Quiet-set s m z (Quiet-refl s.next m)));
          }
      | inr small ↦
          let test : (y == 0) ≡ false = ==_ne y 0 nonzero in
          let m₁ : Machine = set_cell s m z in
          record {
            out = result (int w) (final s);
            after = after s op w a b c o;
            to = stored m₁ q;
            emitted = t;
            grows = after-Grows;
            runs = record {
              cost = 3;
              goes = λ B f x'.
                  run-from B x' s.count (rw test) (suc (suc f))
                  ∙ run-test B x' (suc (suc s.count)) (rw small) (suc f) m₁ (Keeps-set s m z)
                  ∙ ap (λ is. run L B (suc f) (suc (suc s.count)) is m₁) (divide_at B x')
                  ∙ run-branch L B f (suc (suc s.count)) (suc (suc (suc s.count))) (divide s op a b)
                      m₁ (set_cell s m₁ q)
                      (run-divide m₁ (Keeps-set s m z) q (defined nonzero small))
                  ∙ run-load B x' f (set_cell s m₁ q);
            };
            post = rw (test, small) (yields m₁ q (Quiet-set s m z (Quiet-refl s.next m)));
          }
    ]
  ]

not_both : (w x y : ℕ) → overflows w x y ≡ false → (x ≡ 2 ^ (w - 1)) × (y ≡ 2 ^ w - 1) → ⊥
unfolding overflows
not_both w x y t (p, q) =
    let e : overflows w x y ≡ true =
      rw ((==_iff x (2 ^ (w - 1))).1 p, (==_iff y (2 ^ w - 1)).1 q) in
    cc

module _ (L : LangRef) {s : Lifter} {m : Machine} {a b c o : Value} {w x y z v : ℕ}
    (live : s.bb < s.count) (p : Is L s.next m a w x) (h : Is L s.next m b w y)
    (d : Is L s.next m c w z) (e : Is L s.next m o w v) where
  -- At integers of one width, `createCheckedSDiv` succeeds, and its code, which branches, runs to
  -- the value given for division by zero if the divisor is 0, to the value given for overflow if
  -- the least integer is divided by -1, and else to the quotient rounded towards zero, with only
  -- new results and cells changed.
  pub Does-sdiv : Does L s m (create_checked_sdiv a b c o) (
      Yields L s.next m w (
        if y == 0
        then z
        else if overflows w x y
        then v
        else to_word w (quot (signed w x) (signed w y))))
  Does-sdiv =
      Does-checked L BinOp.sdiv s m a b c o w x y z v live p h d e
        (to_word w (quot (signed w x) (signed w y))) (sdiv_eq s a b c o w p.typed h.typed)
        (λ n t. L.sdiv_lem w x y n (not_both w x y t))

  -- At integers of one width, `createCheckedSRem` succeeds, and its code, which branches, runs to
  -- the value given for division by zero if the divisor is 0, to the value given for overflow if
  -- the least integer is divided by -1, and else to the remainder with the sign of the dividend,
  -- with only new results and cells changed.
  pub Does-srem : Does L s m (create_checked_srem a b c o) (
      Yields L s.next m w (
        if y == 0
        then z
        else if overflows w x y
        then v
        else to_word w (rem (signed w x) (signed w y))))
  Does-srem =
      Does-checked L BinOp.srem s m a b c o w x y z v live p h d e
        (to_word w (rem (signed w x) (signed w y))) (srem_eq s a b c o w p.typed h.typed)
        (λ n t. L.srem_lem w x y n (not_both w x y t))
