-- ===== src/Bpf/Setup/Padding.antt =====
-- Arguments are padded to the width of a register (`enforceSExtZExt`, src/lifter/bpf2llvm.cpp).
use bpf_tv.Common.{
  ℕ, ◌+◌, ◌-◌, ◌≤◌, ◌==◌, ◌&&◌, ltb, leb, Bool, true, false, Bool-cases, inl, inr, if◌then◌else◌,
  if-true, if-false, ok, ◌≡◌, refl, ap, ◌∙◌, arith, le→leb,
}
use bpf_tv.Llvm.Ir.{Ty, int, ptr, Value, argument, type_of, get_bit_width_ty}
use bpf_tv.Lifter.State.{Lifter, M, ◌>>=◌, emit, assert, pure}
use bpf_tv.Lifter.Build.{
  create_zext, create_sext, create_raw_shl, create_or, get_unsigned_int_const, get_bit_width,
}
use bpf_tv.Lifter.Logic.{>>=-eq_of_ok}
use bpf_tv.Bpf.Regs.{unspecified_value, extend, pad_bits, pad_int, enforce_sext_zext}
use bpf_tv.Bpf.Regs.Unspecified.{const_ok, unspecified_value-ok}
use bpf_tv.Bpf.Call.{is_int_or_ptr}

-- What an action leaves alone that takes at most `k` unspecified bytes.
pub record Keeps (k : ℕ) (s s' : Lifter) : Type 0 where
  pub same_regs : s'.reg_file ≡ s.reg_file
  pub same_bb : s'.bb ≡ s.bb
  pub same_count : s'.count ≡ s.count
  pub later : s.next ≤ s'.next
  pub spent : s'.unspecified_off ≤ s.unspecified_off + k

pub kept :
    {k : ℕ} {s s' : Lifter}
    → s'.reg_file ≡ s.reg_file
    → s'.bb ≡ s.bb
    → s'.count ≡ s.count
    → s.next ≤ s'.next
    → s'.unspecified_off ≤ s.unspecified_off + k
    → Keeps k s s'
kept r b c n u = record { same_regs = r; same_bb = b; same_count = c; later = n; spent = u }

pub Keeps-trans :
    {j k : ℕ} {s s' s'' : Lifter} → Keeps j s s' → Keeps k s' s'' → Keeps (j + k) s s''
Keeps-trans g h = record {
  same_regs = h.same_regs ∙ g.same_regs;
  same_bb = h.same_bb ∙ g.same_bb;
  same_count = h.same_count ∙ g.same_count;
  later = omega (arith, g.later, h.later);
  spent = omega (arith, g.spent, h.spent);
}

-- The action gives an integer of at most 64 bits.
record Gives (k : ℕ) (act : M Value) (s : Lifter) : Type 0 where
  pub out : Value
  pub width : ℕ
  pub after : Lifter
  pub eq : act s ≡ ok (out, after)
  pub is_int : type_of out ≡ int width
  pub narrow : width ≤ 64
  pub keeps : Keeps k s after

cast-Gives :
    (b : Bool) (act : Value → M Value) (v : Value) (w : ℕ) (s : Lifter)
    → type_of v ≡ int w
    → w ≤ 64
    → Gives 0 (act v) s
    → Gives 0 (if b then act v else pure v) s
cast-Gives true act v w s t l g = g
cast-Gives false act v w s t l g = record {
  out = v;
  width = w;
  after = s;
  eq = refl;
  is_int = t;
  narrow = l;
  keeps = kept refl refl refl (omega arith) (omega arith);
}

extend-Gives :
    (sx zx : Bool) (v : Value) (w : ℕ) (s : Lifter)
    → type_of v ≡ int w
    → w ≤ 64
    → Gives 0 (extend sx zx v) s
unfolding extend create_zext create_sext get_bit_width emit
extend-Gives sx zx v w s t l =
    let zext : Value → M Value = λ x. create_zext x (int 64) in
    let sext : Value → M Value = λ x. create_sext x (int 64) in
    let second : Value → M Value = λ z. if sx && ltb (get_bit_width z) 64 then sext z else pure z in
    let g : Gives 0 (if zx && ltb (get_bit_width v) 64 then zext v else pure v) s =
      cast-Gives (zx && ltb (get_bit_width v) 64) zext v w s t l (record {
        out = _;
        width = 64;
        after = _;
        eq = refl;
        is_int = refl;
        narrow = omega arith;
        keeps = kept refl refl refl (omega arith) (omega arith);
      }) in
    let h : Gives 0 (second g.out) g.after =
      cast-Gives (sx && ltb (get_bit_width g.out) 64) sext g.out g.width g.after g.is_int g.narrow
        (record {
          out = _;
          width = 64;
          after = _;
          eq = refl;
          is_int = refl;
          narrow = omega arith;
          keeps = kept refl refl refl (omega arith) (omega arith);
        }) in
    record {
      out = h.out;
      width = h.width;
      after = h.after;
      eq =
          >>=-eq_of_ok (if zx && ltb (get_bit_width v) 64 then zext v else pure v) second {s = s}
            g.eq h.eq;
      is_int = h.is_int;
      narrow = h.narrow;
      keeps = Keeps-trans g.keeps h.keeps;
    }

-- The action succeeds.
pub record Succeeds (k : ℕ) (act : M Value) (s : Lifter) : Type 0 where
  pub out : Value
  pub after : Lifter
  pub eq : act s ≡ ok (out, after)
  pub keeps : Keeps k s after

-- `pad_bits` after its assertion, and its parts.
abbrev shift_in : Value → Value → Value → M Value
unfolding create_raw_shl create_zext create_or emit
shift_in x ext1 k = do
  shifted ← create_raw_shl ext1 k
  ext2 ← create_zext x (int 64)
  create_or shifted ext2

abbrev fill_with : Value → ℕ → Value → M Value
unfolding create_zext emit
fill_with x w junk = do
  ext1 ← create_zext junk (int 64)
  k ← get_unsigned_int_const w 64
  shift_in x ext1 k

abbrev fill : Value → ℕ → M Value
fill x w = unspecified_value (64 - w) >>= fill_with x w

fill-Succeeds :
    (x : Value) (w : ℕ) (s : Lifter)
    → w ≤ 64
    → s.unspecified_off + 8 ≤ 65536
    → Succeeds 8 (fill x w) s
unfolding create_zext create_raw_shl create_or emit
fill-Succeeds x w s l h = record {
  out = _;
  after = _;
  eq =
      >>=-eq_of_ok (unspecified_value (64 - w)) (fill_with x w) {s = s}
        (unspecified_value-ok s (64 - w) (omega arith))
        (>>=-eq_of_ok (get_unsigned_int_const w 64) (shift_in x _) {s = _}
          (const_ok w _ (omega arith)) refl);
  keeps = kept refl refl refl (omega arith) (omega arith);
}

pad_bits-Succeeds :
    (x : Value) (w : ℕ) (s : Lifter)
    → w ≤ 64
    → s.unspecified_off + 8 ≤ 65536
    → Succeeds 8 (pad_bits x w) s
unfolding pad_bits
pad_bits-Succeeds x w s l h =
    let pads : M Value = if 64 - w == 0 then pure x else fill x w in
    let asserted : pad_bits x w s ≡ pads s =
      >>=-eq_of_ok (assert (leb w 64)) (λ _. pads) {s = s} (rw (le→leb w 64 l) refl) refl in
    elim (Bool-cases (64 - w == 0)) [
      | inl e ↦ record {
        out = x;
        after = s;
        eq = asserted ∙ ap (λ (m : M Value). m s) (if-true (64 - w == 0) (pure x) (fill x w) e);
        keeps = kept refl refl refl (omega arith) (omega arith);
      }
      | inr e ↦
          let r = fill-Succeeds x w s l h in
          record {
            out = r.out;
            after = r.after;
            eq =
                asserted
                ∙ ap (λ (m : M Value). m s) (if-false (64 - w == 0) (pure x) (fill x w) e)
                ∙ r.eq;
            keeps = r.keeps;
          }
    ]

pad_int-Succeeds :
    (sx zx : Bool) (v : Value) (w : ℕ) (s : Lifter)
    → type_of v ≡ int w
    → w ≤ 64
    → s.unspecified_off + 8 ≤ 65536
    → Succeeds 8 (pad_int sx zx v) s
unfolding pad_int get_bit_width
pad_int-Succeeds sx zx v w s t l h =
    let g = extend-Gives sx zx v w s t l in
    let r =
      pad_bits-Succeeds g.out g.width g.after g.narrow (let k = g.keeps.spent in omega arith) in
    record {
      out = r.out;
      after = r.after;
      eq =
          >>=-eq_of_ok (extend sx zx v) (λ x. pad_bits x (get_bit_width x)) g.eq
            (ap (λ u. pad_bits g.out (get_bit_width_ty u) g.after) g.is_int ∙ r.eq);
      keeps = Keeps-trans g.keeps r.keeps;
    }

pub enforce-Succeeds :
    (t : Ty) (n : ℕ) (sx zx : Bool) (s : Lifter)
    → is_int_or_ptr t ≡ true
    → get_bit_width_ty t ≤ 64
    → s.unspecified_off + 8 ≤ 65536
    → Succeeds 8 (enforce_sext_zext (argument t n) sx zx) s
unfolding enforce_sext_zext
enforce-Succeeds (int w) n sx zx s e l h = pad_int-Succeeds sx zx (argument (int w) n) w s refl l h
enforce-Succeeds ptr n sx zx s e l h = record {
  out = _;
  after = s;
  eq = refl;
  keeps = kept refl refl refl (omega arith) (omega arith);
}
enforce-Succeeds Ty.void n sx zx s e l h = absurd cc
enforce-Succeeds Ty.floating n sx zx s e l h = absurd cc
enforce-Succeeds Ty.vector n sx zx s e l h = absurd cc
enforce-Succeeds Ty.aggregate n sx zx s e l h = absurd cc
