-- ===== src/Bytes/Decode.antt =====
-- The loop that decodes bytes (`bpf2llvm::runBytes`, src/lifter/bpf2llvm.cpp).
use bpf_tv.Common.{
  ℕ, zero, suc, ◌+◌, ◌/◌, ◌≤◌, ◌<◌, ◌==◌, ◌&&◌, true, false, Bool-cases, inl, inr, Option, none,
  some, List, [], ◌∷◌, Result, ok, err, message, length, get_elem?, drop, ◌≡◌, refl, ap, sym, ◌∙◌,
  arith, ==_iff, Error, if◌then◌else◌,
}
use mathlib.Core.Option.{none-ne-some}
use bpf_tv.Mc.Inst.{McInst}
use bpf_tv.Bytes.{Disassembler, DecodedInsn, decode, decode_one, cons_insn, is_jal, is_local_call}

length-drop_le : (size : ℕ) (bs : List ℕ) → length (drop size bs) ≤ length bs
length-drop_le zero bs = omega arith
length-drop_le (suc n) [] = omega arith
length-drop_le (suc n) (b ∷ bs) = omega (arith, length-drop_le n bs)

drop_shorter :
    (fuel size b : ℕ) (bs : List ℕ)
    → 0 < size
    → length bs ≤ fuel
    → length (drop size (b ∷ bs)) ≤ fuel
drop_shorter fuel zero b bs p h = absurd (omega arith)
drop_shorter fuel (suc n) b bs p h = omega (arith, length-drop_le n bs)

module _ (d : Disassembler) where
  -- An instruction that can be lifted: it is not empty and is no call of another BPF function.
  pub record Accepted (off : ℕ) (bs : List ℕ) (i : McInst) (size : ℕ) : Type 0 where
    pub disassembled : d.get_instruction bs off ≡ some (i, size)
    pub advances : 0 < size
    pub no_local_call : (is_jal i.opcode && is_local_call (get_elem? bs 1)) ≡ false

  -- The instructions of the bytes from an offset on.
  pub data Decodes : ℕ → List ℕ → List DecodedInsn → Type 0 where
    done : (off : ℕ) → Decodes off [] []
    next :
        (off b : ℕ) (bs : List ℕ) (i : McInst) (size : ℕ) (xs : List DecodedInsn)
        → Accepted off (b ∷ bs) i size
        → Decodes (off + size) (drop size (b ∷ bs)) xs
        → Decodes off (b ∷ bs) (record { inst = i; unit = off / 8; units = size / 8 } ∷ xs)

  -- The bytes go on with one that cannot be lifted, after some that can.
  pub data Fails : ℕ → List ℕ → Error → Type 0 where
    undecodable :
        (off b : ℕ) (bs : List ℕ)
        → ((i : McInst) (size : ℕ) → d.get_instruction (b ∷ bs) off ≡ some (i, size) → size ≡ 0)
        → Fails off (b ∷ bs) (message "cannot disassemble instruction")
    local_call :
        (off b : ℕ) (bs : List ℕ) (i : McInst) (size : ℕ)
        → d.get_instruction (b ∷ bs) off ≡ some (i, size)
        → (is_jal i.opcode && is_local_call (get_elem? (b ∷ bs) 1)) ≡ true
        → Fails off (b ∷ bs) (message "bpf2bpf local calls are not supported yet")
    later :
        (off b : ℕ) (bs : List ℕ) (i : McInst) (size : ℕ) (e : Error)
        → Accepted off (b ∷ bs) i size
        → Fails (off + size) (drop size (b ∷ bs)) e
        → Fails off (b ∷ bs) e

  abbrev pub Agrees : ℕ → List ℕ → Result (List DecodedInsn) → Type 0
  Agrees off bs (ok xs) = Decodes off bs xs
  Agrees off bs (err e) = Fails off bs e

  One : ℕ → ℕ → List ℕ → Result (McInst × ℕ) → Type 0
  One off b bs (ok p) = Accepted off (b ∷ bs) (p.0) (p.1)
  One off b bs (err e) = Fails off (b ∷ bs) e

  some_size :
      (off b : ℕ) (bs : List ℕ) (o : Option (McInst × ℕ))
      → d.get_instruction (b ∷ bs) off ≡ o
      → One off b bs (elim o [
        | none ↦ err (message "cannot disassemble instruction")
        | some p ↦
            if p.1 == 0
            then err (message "cannot disassemble instruction")
            else if is_jal (p.0).opcode && is_local_call (get_elem? (b ∷ bs) 1)
            then err (message "bpf2bpf local calls are not supported yet")
            else ok p
      ])
  unfolding One
  some_size off b bs none e =
      Fails.undecodable off b bs (λ i size h. absurd (none-ne-some (i, size) (sym e ∙ h)))
  some_size off b bs (some (i, size)) e = elim (Bool-cases (size == 0)) [
    | inl z ↦ rw z (
        Fails.undecodable off b bs λ i' size' h.
          ap (λ (o : Option (McInst × ℕ)). elim o [ none ↦ 0 | some p ↦ p.1 ]) (sym h ∙ e)
          ∙ (==_iff size 0).0 z)
    | inr z ↦ rw z (elim (Bool-cases (is_jal i.opcode && is_local_call (get_elem? (b ∷ bs) 1))) [
      | inl c ↦ rw c (Fails.local_call off b bs i size e c)
      | inr c ↦ rw c (record { disassembled = e; advances = ground arith; no_local_call = c })
    ])
  ]

  Agrees-cons :
      (off b : ℕ) (bs : List ℕ) (i : McInst) (size : ℕ)
      → Accepted off (b ∷ bs) i size
      → (r : Result (List DecodedInsn)) → Agrees (off + size) (drop size (b ∷ bs)) r
      → Agrees off (b ∷ bs) (cons_insn d off (i, size) r)
  Agrees-cons off b bs i size a (ok xs) h = Decodes.next off b bs i size xs a h
  Agrees-cons off b bs i size a (err e) h = Fails.later off b bs i size e a h

  Agrees-One :
      (fuel off b : ℕ) (bs : List ℕ) (r : Result (McInst × ℕ))
      → One off b bs r
      → ((i : McInst) (size : ℕ)
          → Accepted off (b ∷ bs) i size
          → Agrees
              (off + size)
              (drop size (b ∷ bs))
              (decode d fuel (off + size) (drop size (b ∷ bs))))
      → Agrees off (b ∷ bs) (elim r [
        | err e ↦ err e
        | ok p ↦ cons_insn d off p (decode d fuel (off + p.1) (drop (p.1) (b ∷ bs)))
      ])
  unfolding One
  Agrees-One fuel off b bs (err e) h k = h
  Agrees-One fuel off b bs (ok (i, size)) h k =
      Agrees-cons off b bs i size h (decode d fuel (off + size) (drop size (b ∷ bs))) (k i size h)

  decode-from :
      (fuel off : ℕ) (bs : List ℕ) → length bs ≤ fuel → Agrees off bs (decode d fuel off bs)
  unfolding decode One
  decode-from fuel off [] h = Decodes.done off
  decode-from zero off (b ∷ bs) h = absurd (omega arith)
  decode-from (suc fuel) off (b ∷ bs) h =
      Agrees-One fuel off b bs (decode_one d off (b ∷ bs))
        (some_size off b bs (d.get_instruction (b ∷ bs) off) refl)
        (λ i size a.
          decode-from fuel (off + size) (drop size (b ∷ bs))
            (drop_shorter fuel size b bs a.advances (omega arith)))

  -- Decoding ends for all bytes: it gives the instructions of the bytes, from the first to the last
  -- byte, each starting where the one before ends, or stops with the error of the first place
  -- that cannot be decoded or is a call of another BPF function.
  pub decode-Agrees : (bytes : List ℕ) → Agrees 0 bytes (decode d (length bytes) 0 bytes)
  decode-Agrees bytes = decode-from (length bytes) 0 bytes (omega arith)
