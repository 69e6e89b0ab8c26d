-- ===== src/Llvm/Exec.antt =====
-- Execution of lifted code. An `alloca` is a cell of its own; any other pointer is an address of
-- a flat little-endian memory. A run stops at the end of a block that has no terminator yet, so
-- that it can follow code while it is being built.
use bpf_tv.Common.{
  ℕ, zero, suc, ◌+◌, ◌*◌, ◌/◌, ◌%◌, ◌^◌, bit_and, bit_or, bit_xor, ◌==◌, if◌then◌else◌, update,
  Option, none, some, List, [], ◌∷◌, String,
}
use bpf_tv.Llvm.Ir.{
  Value, const, alloca, global, argument, result, extract_value, binop, icmp, cast, bswap, gep,
  type_of, get_bit_width_ty, Instr, compute, make_alloca, load, store, atomic_rmw, cmp_xchg, br,
  cond_br, RmwOp,
}
use bpf_tv.Llvm.LangRef.{LangRef}

infixl 5 ◌>>=◌
abbrev pub ◌>>=◌ {ℓ κ} : {A : Type ℓ} {B : Type κ} → Option A → (A → Option B) → Option B
none >>= f = none
some a >>= f = f a

pub record Machine : Type 0 where
  pub env : ℕ → ℕ
  pub cells : ℕ → ℕ
  pub mem : ℕ → ℕ
  pub args : ℕ → ℕ
  pub globals : String → ℕ

-- `n` bytes at an address, lowest first. Addresses have 64 bits.
unfoldable pub read_bytes : ℕ → (ℕ → ℕ) → ℕ → ℕ
read_bytes zero m a = 0
read_bytes (suc n) m a = m a % 256 + 256 * read_bytes n m ((a + 1) % 2 ^ 64)

unfoldable pub write_bytes : ℕ → (ℕ → ℕ) → ℕ → ℕ → (ℕ → ℕ)
write_bytes zero m a v = m
write_bytes (suc n) m a v = write_bytes n (update m a (v % 256)) ((a + 1) % 2 ^ 64) (v / 256)

abbrev pub bytes_of : ℕ → ℕ
bytes_of w = (w + 7) / 8

abbrev pub rmw : RmwOp → ℕ → ℕ → ℕ → ℕ
rmw RmwOp.add w a b = (a + b) % 2 ^ w
rmw RmwOp.and w a b = bit_and a b
rmw RmwOp.or w a b = bit_or a b
rmw RmwOp.xor w a b = bit_xor a b
rmw RmwOp.xchg w a b = b

abbrev pub width : Value → ℕ
width v = get_bit_width_ty (type_of v)

module _ (L : LangRef) where
  -- The address of an `alloca` is never a number: its cell is read and written by name.
  unfoldable pub eval : Machine → Value → Option ℕ
  eval s (const w n) = some n
  eval s (alloca k) = none
  eval s (global g) = some (s.globals g)
  eval s (argument t k) = some (s.args k)
  eval s (result t k) = some (s.env k)
  eval s (extract_value t v zero) = eval s v
  eval s (extract_value t v (suc k)) = none
  eval s (binop op a b) = eval s a >>= λ x. eval s b >>= λ y. L.binop op (width a) x y
  eval s (icmp p a b) =
      eval s a >>= λ x. eval s b >>= λ y. some (if L.icmp p (width a) x y then 1 else 0)
  eval s (cast op v t) = eval s v >>= λ x. some (L.cast op (width v) (get_bit_width_ty t) x)
  eval s (bswap v) = eval s v >>= λ x. some (L.bswap (width v) x)
  eval s (gep p i) = eval s p >>= λ x. eval s i >>= λ y. some (L.gep x y)

  abbrev load_from : Machine → ℕ → ℕ → Value → Option Machine
  load_from s k w (alloca c) = some (record s { env = update s.env k (s.cells c) })
  load_from s k w p = eval s p >>= λ a.
      some (record s { env = update s.env k (read_bytes (bytes_of w) s.mem a % 2 ^ w) })

  abbrev store_to : Machine → ℕ → ℕ → Value → Option Machine
  store_to s x w (alloca c) = some (record s { cells = update s.cells c x })
  store_to s x w p = eval s p >>= λ a. some (record s { mem = write_bytes (bytes_of w) s.mem a x })

  abbrev exchange : Machine → ℕ → ℕ → ℕ → (ℕ → ℕ) → Machine
  exchange s k w a f =
      let old = read_bytes (bytes_of w) s.mem a % 2 ^ w in
      record s { env = update s.env k old; mem = write_bytes (bytes_of w) s.mem a (f old) }

  -- One instruction that is no terminator. A call leaves the lifted code, and is not run.
  unfoldable pub step : Instr → Machine → Option Machine
  step (compute v) s = eval s v >>= λ _. some s
  step (make_alloca k w) s = some s
  step (load k t p) s = load_from s k (get_bit_width_ty t) p
  step (store v p) s = eval s v >>= λ x. store_to s x (width v) p
  step (atomic_rmw k op p v) s = eval s p >>= λ a.
      eval s v >>= λ x. some (exchange s k (width v) a (λ old. rmw op (width v) old x))
  step (cmp_xchg k p e v) s = eval s p >>= λ a. eval s e >>= λ x.
      eval s v >>= λ y. some (exchange s k (width v) a (λ old. if old == x then y else old))
  step _ s = none

  -- Run the rest of a block: to its branch, whose target is given, or to its end, if it has no
  -- terminator yet.
  unfoldable pub run_block : List Instr → Machine → Option (Option ℕ × Machine)
  run_block [] s = some (none, s)
  run_block (br t ∷ _) s = some (some t, s)
  run_block (cond_br c t f ∷ _) s = eval s c >>= λ x. some (some (if x == 1 then t else f), s)
  run_block (i ∷ is) s = step i s >>= λ s'. run_block is s'

  -- Run block `b` from here on, with fuel for the blocks entered, to the end of a block without a
  -- terminator. `none` is undefined behaviour, a call or return, or too little fuel.
  unfoldable pub run : (ℕ → List Instr) → ℕ → ℕ → List Instr → Machine → Option (ℕ × Machine)
  run blocks zero b is s = none
  run blocks (suc fuel) b is s = run_block is s >>= λ (t, s'). elim t [
    | none ↦ some (b, s')
    | some c ↦ run blocks fuel c (blocks c) s'
  ]
