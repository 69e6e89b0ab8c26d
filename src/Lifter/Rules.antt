-- ===== src/Lifter/Rules.antt =====
-- What each constructor of instructions does, as rules of the program logic.
use bpf_tv.Common.{
  ℕ, ◌%◌, ◌^◌, ◌<◌, ◌≡◌, refl, ap, ◌∙◌, some, arith, Bool, true, false, update, update_ne,
  update_self, ok, if◌then◌else◌, lt→ltb, ==_refl, ◌==◌, subst,
}
use bpf_tv.Words.{ℤ, to_word, fits_signed, signed}
use bpf_tv.Llvm.Ir.{int, Value, Instr, type_of, const, alloca, result, BinOp, Predicate, CastOp}
use bpf_tv.Llvm.LangRef.{LangRef}
use bpf_tv.Llvm.Exec.{Machine, eval, step}
use bpf_tv.Lifter.State.{Lifter, M, emit}
use bpf_tv.Lifter.Build.{
  get_unsigned_int_const, get_signed_int_const, create_load, create_store, create_binop, create_sub,
  create_and, create_icmp, create_trunc, create_zext, create_sext, create_bswap,
}
use bpf_tv.Lifter.Logic.{Does, Does-emit, Does-pure}
use bpf_tv.Lifter.Values.{Keeps-self, Keeps-suc, Quiet-refl, Keeps, Is, Is-now, Yields, Stores}

module _ (L : LangRef) where
  -- An instruction that only computes: the machine stays.
  pub Does-compute :
      {s : Lifter} {m : Machine} (v : Value) (w x : ℕ) {act : M Value}
      → act s ≡ ok (v, emit (Instr.compute v) s)
      → type_of v ≡ int w
      → ((m' : Machine) → Keeps s.next m m' → eval L m' v ≡ some x)
      → Does L s m act (Yields L s.next m w x)
  unfolding step emit
  Does-compute {s} {m} v w x e t h =
      Does-emit L (Instr.compute v) m v e (rw (h m (Keeps-self s.next m))) (record {
        quiet = Quiet-refl s.next m;
        is = record { typed = t; worth = λ m' k. h m' (Keeps-suc k) };
      })

  pub Does-const :
      {s : Lifter} {m : Machine} (val w : ℕ)
      → val < 2 ^ w
      → Does L s m (get_unsigned_int_const val w) (Yields L s.next m w val)
  unfolding get_unsigned_int_const eval
  Does-const {s} {m} val w h =
      Does-pure L (const w val) (rw (lt→ltb val (2 ^ w) h))
        (record { quiet = Quiet-refl s.next m; is = record { typed = refl; worth = λ m' k. refl } })

  pub Does-imm :
      {s : Lifter} {m : Machine} (z : ℤ) (w : ℕ)
      → fits_signed w z ≡ true
      → Does L s m (get_signed_int_const z w) (Yields L s.next m w (to_word w z))
  unfolding get_signed_int_const eval
  Does-imm {s} {m} z w h =
      Does-pure L (const w (to_word w z)) (rw h)
        (record { quiet = Quiet-refl s.next m; is = record { typed = refl; worth = λ m' k. refl } })

  -- A load from the cell of an `alloca`.
  pub Does-load_cell :
      {s : Lifter} {m : Machine} (w c : ℕ)
      → Does L s m (create_load (int w) (alloca c)) (Yields L s.next m w (m.cells c))
  unfolding create_load step emit eval
  Does-load_cell {s} {m} w c =
      let m' : Machine = record m { env = update m.env s.next (m.cells c) } in
      Does-emit L (Instr.load s.next (int w) (alloca c)) m' (result (int w) s.next) refl refl
        (record {
          quiet = record {
            env_kept = λ k h. update_ne m.env s.next k (m.cells c) (λ e. omega arith);
            args_kept = refl;
            globals_kept = refl;
            cells_kept = λ k h. refl;
            mem_kept = refl;
          };
          is = record {
            typed = refl;
            worth = λ m'' k.
                ap some (k.env_same s.next (omega arith) ∙ update_self m.env s.next (m.cells c));
          };
        })

  pub Does-binop :
      {s : Lifter} {m : Machine} (op : BinOp) {a b : Value} {w x y z : ℕ}
      → Is L s.next m a w x
      → Is L s.next m b w y
      → L.binop op w x y ≡ some z
      → Does L s m (create_binop a b op) (Yields L s.next m w z)
  unfolding create_binop eval emit
  Does-binop op {a} {b} p q h =
      Does-compute (Value.binop op a b) _ _ refl p.typed
        (λ m' k. rw (p.worth m' k, q.worth m' k, p.typed) h)

  pub Does-icmp :
      {s : Lifter} {m : Machine} (p : Predicate) {a b : Value} {w x y : ℕ} (t : Bool)
      → Is L s.next m a w x
      → Is L s.next m b w y
      → L.icmp p w x y ≡ t
      → Does L s m (create_icmp p a b) (Yields L s.next m 1 (if t then 1 else 0))
  unfolding create_icmp eval emit
  Does-icmp p {a} {b} t u v h =
      Does-compute (Value.icmp p a b) 1 _ refl refl
        (λ m' k. rw (u.worth m' k, v.worth m' k, u.typed, h))

  -- Sub, and and shl by their own constructors are binary operations too.
  pub Does-sub :
      {s : Lifter} {m : Machine} {a b : Value} {w x y z : ℕ}
      → Is L s.next m a w x
      → Is L s.next m b w y
      → L.binop BinOp.sub w x y ≡ some z
      → Does L s m (create_sub a b) (Yields L s.next m w z)
  unfolding create_sub create_binop
  Does-sub p q h = Does-binop BinOp.sub p q h

  pub Does-and :
      {s : Lifter} {m : Machine} {a b : Value} {w x y z : ℕ}
      → Is L s.next m a w x
      → Is L s.next m b w y
      → L.binop BinOp.and w x y ≡ some z
      → Does L s m (create_and a b) (Yields L s.next m w z)
  unfolding create_and create_binop
  Does-and p q h = Does-binop BinOp.and p q h

  Does-cast :
      {s : Lifter} {m : Machine} (op : CastOp) {v : Value} {w x : ℕ} (n : ℕ) {act : M Value}
      → act s ≡ ok (Value.cast op v (int n), emit (Instr.compute (Value.cast op v (int n))) s)
      → Is L s.next m v w x
      → Does L s m act (Yields L s.next m n (L.cast op w n x))
  unfolding eval
  Does-cast op {v} n e p =
      Does-compute (Value.cast op v (int n)) n _ e refl (λ m' k. rw (p.worth m' k, p.typed))

  pub Does-trunc :
      {s : Lifter} {m : Machine} {v : Value} {w x : ℕ} (n : ℕ)
      → (w == n) ≡ false
      → Is L s.next m v w x
      → Does L s m (create_trunc v (int n)) (Yields L s.next m n (x % 2 ^ n))
  unfolding create_trunc emit
  Does-trunc {s} {m} {v} {w} {x} n ne p =
      rw (← L.trunc_lem w n x) (Does-cast CastOp.trunc n (rw (p.typed, ne)) p)

  pub Does-trunc_same :
      {s : Lifter} {m : Machine} {v : Value} {n x : ℕ}
      → Is L s.next m v n x
      → Does L s m (create_trunc v (int n)) (Yields L s.next m n x)
  unfolding create_trunc
  Does-trunc_same {s} {m} {v} {n} p =
      Does-pure L v (rw (p.typed, ==_refl n)) (record { quiet = Quiet-refl s.next m; is = p })

  pub Does-zext :
      {s : Lifter} {m : Machine} {v : Value} {w x : ℕ} (n : ℕ)
      → Is L s.next m v w x
      → Does L s m (create_zext v (int n)) (Yields L s.next m n x)
  unfolding create_zext emit
  Does-zext {s} {m} {v} {w} {x} n p =
      subst (λ y. Does L s m (create_zext v (int n)) (Yields L s.next m n y)) (L.zext_lem w n x)
        (Does-cast CastOp.zext n refl p)

  pub Does-sext :
      {s : Lifter} {m : Machine} {v : Value} {w x : ℕ} (n : ℕ)
      → Is L s.next m v w x
      → Does L s m (create_sext v (int n)) (Yields L s.next m n (to_word n (signed w x)))
  unfolding create_sext emit
  Does-sext {s} {m} {v} {w} {x} n p = rw (← L.sext_lem w n x) (Does-cast CastOp.sext n refl p)

  pub Does-bswap :
      {s : Lifter} {m : Machine} {v : Value} {w x : ℕ}
      → Is L s.next m v w x
      → Does L s m (create_bswap v) (Yields L s.next m w (L.bswap w x))
  unfolding create_bswap eval emit
  Does-bswap {v} p =
      Does-compute (Value.bswap v) _ _ refl p.typed (λ m' k. rw (p.worth m' k, p.typed))

  pub Does-store_cell :
      {s : Lifter} {m : Machine} {v : Value} {w x : ℕ} (c : ℕ)
      → Is L s.next m v w x
      → Does L s m (create_store v (alloca c)) (Stores s.next m c x)
  unfolding create_store step emit
  Does-store_cell {s} {m} {v} {x} c i =
      Does-emit L (Instr.store v (alloca c)) (record m { cells = update m.cells c x }) tt refl
        (rw (Is-now L i))
        (record {
          keeps = record { env_same = λ k h. refl; args_same = refl; globals_same = refl };
          cells_set = λ k h. refl;
          mem_same = refl;
        })
