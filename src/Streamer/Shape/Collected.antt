-- ===== src/Streamer/Shape/Collected.antt =====
-- What the streamer has collected after assembly text (src/lifter/streamerwrapper.h,
-- src/lifter/streamerwrapper.cpp).
use bpf_tv.Common.{
  ℕ, ltb, true, false, Bool-cases, inl, inr, if◌then◌else◌, Option, List, [], ◌∷◌, ◌++◌, String,
  Result, ok, err, assertion, All, ◌≡◌, refl, ap, sym, subst, ◌∙◌, append_assoc, append-nil, ◌⊎◌,
}
use text.Mathlib.Text.{◌==◌ as str_eq, starts_with}
use bpf_tv.Mc.Inst.{McInst}
use bpf_tv.Streamer.{
  emit_instruction, Streamer, McInstrAnalysis, new_streamer, RoDataItem, located, sentinel,
  add_constant, emit_label, enter_block, unless_ended, in_section, emit_value_impl, item_of, McExpr,
  push_item, emit_fill, emit_bytes, emit_common_symbol,
}
use bpf_tv.Streamer.Events.{Event, emit_event, emit_all}
use bpf_tv.Streamer.Shape.{
  code, without_nops, without_nops-append, Shaped, IsSound, Safe, Safe-bind, Safe-weaken, Steps,
  snoc-ne_nil,
}
use bpf_tv.Streamer.Shape.Instruction.{IsSound-emit_instruction}
use bpf_tv.Streamer.Shape.Label.{
  Steps-same, All-Shaped, Steps-flush, Steps-emit_label, Steps-enter_block,
}

-- An operand of a data directive that the streamer does not handle.
abbrev pub IsRefused : Event → Type 0
IsRefused (Event.value e) = item_of e ≡ err assertion
IsRefused (Event.fill e v) = ltb v 256 ≡ false
IsRefused _ = ⊥

abbrev pub AnyRefused : List Event → Type 0
AnyRefused [] = ⊥
AnyRefused (e ∷ es) = IsRefused e ⊎ AnyRefused es

abbrev pub line_after : ℕ → Event → ℕ
line_after l (Event.dwarf_loc line) = line
line_after l _ = l

item_cases : (x : McExpr) → ((y : RoDataItem) × (item_of x ≡ ok y)) ⊎ (item_of x ≡ err assertion)
item_cases (McExpr.symbol_ref n) = inl (_, refl)
item_cases (McExpr.constant z) = inr refl
item_cases (McExpr.unary x) = inr refl
item_cases McExpr.target_expr = inr refl
item_cases (McExpr.binary (McExpr.constant z) y') = inr refl
item_cases (McExpr.binary (McExpr.unary x) y') = inr refl
item_cases (McExpr.binary (McExpr.binary x y) y') = inr refl
item_cases (McExpr.binary McExpr.target_expr y') = inr refl
item_cases (McExpr.binary (McExpr.symbol_ref n) (McExpr.symbol_ref n0)) = inr refl
item_cases (McExpr.binary (McExpr.symbol_ref n) (McExpr.constant z0)) = inl (_, refl)
item_cases (McExpr.binary (McExpr.symbol_ref n) (McExpr.unary x0)) = inr refl
item_cases (McExpr.binary (McExpr.symbol_ref n) (McExpr.binary x0 y0)) = inr refl
item_cases (McExpr.binary (McExpr.symbol_ref n) McExpr.target_expr) = inr refl

module _ (ia : McInstrAnalysis) (line_map : ℕ → Option ℕ) where
  abbrev pub instruction_of : ℕ → Event → List McInst
  instruction_of l (Event.instruction i) = located ia line_map l i ∷ []
  instruction_of l _ = []

  -- The instructions of the text, each with the source-side instruction of its debug line.
  abbrev pub listing : ℕ → List Event → List McInst
  listing l [] = []
  listing l (e ∷ es) = instruction_of l e ++ listing (line_after l e) es

  -- The blocks are shaped and hold these instructions.
  abbrev pub Holds : List McInst → Streamer → Type 0
  Holds seen s = All (Shaped ia) s.bbs × (without_nops (code s.bbs) ≡ seen)

  module _ (nt : ia.is_terminator sentinel ≡ false)
      (same : (i : McInst) (l : Option ℕ)
        → ia.is_terminator (record i { loc = l }) ≡ ia.is_terminator i) where
    abbrev Emits : Event → List McInst → Streamer → Result Streamer → Type 0
    Emits e seen s = Safe ((s.bbs ≡ []) ⊎ IsRefused e) (
        Steps ia s (line_after s.cur_debug_line e)
          (seen ++ without_nops (instruction_of s.cur_debug_line e)))

    Emits-value :
        (x : McExpr) (seen : List McInst) (s : Streamer)
        → IsSound ia seen s
        → Emits (Event.value x) seen s (emit_value_impl x s)
    unfolding emit_value_impl
    Emits-value x seen s h = elim (Bool-cases (starts_with s.cur_sec ".debug")) [
      | inl e ↦ rw e (Steps-same ia seen s s s.cur_debug_line refl refl refl refl h)
      | inr e ↦ rw e (elim (item_cases x) [
        | inl p ↦
            subst
              (λ q.
                Emits (Event.value x) seen s (elim q [ ok y ↦ ok (push_item y s) | err b ↦ err b ]))
              (sym p.1)
              (Steps-same ia seen s (push_item (p.0) s) s.cur_debug_line refl refl refl refl h)
        | inr p ↦
            subst
              (λ q.
                Emits (Event.value x) seen s (elim q [ ok y ↦ ok (push_item y s) | err b ↦ err b ]))
              (sym p) (refl, inr p)
      ])
    ]

    Emits-fill :
        (x : McExpr) (v : ℕ) (seen : List McInst) (s : Streamer)
        → IsSound ia seen s
        → Emits (Event.fill x v) seen s (emit_fill x v s)
    unfolding emit_fill
    Emits-fill (McExpr.constant z) v seen s h = elim (Bool-cases (ltb v 256)) [
      | inl e ↦ rw e (Steps-same ia seen s _ s.cur_debug_line refl refl refl refl h)
      | inr e ↦ rw e (refl, inr refl)
    ]
    Emits-fill (McExpr.symbol_ref _) v seen s h =
        Steps-same ia seen s s s.cur_debug_line refl refl refl refl h
    Emits-fill (McExpr.unary _) v seen s h =
        Steps-same ia seen s s s.cur_debug_line refl refl refl refl h
    Emits-fill (McExpr.binary _ _) v seen s h =
        Steps-same ia seen s s s.cur_debug_line refl refl refl refl h
    Emits-fill McExpr.target_expr v seen s h =
        Steps-same ia seen s s s.cur_debug_line refl refl refl refl h

    Emits-event :
        (e : Event) (seen : List McInst) (s : Streamer)
        → IsSound ia seen s
        → Emits e seen s (emit_event ia line_map e s)
    unfolding emit_event emit_common_symbol emit_bytes add_constant
    Emits-event (Event.instruction i) seen s h =
        Safe-weaken (s.bbs ≡ []) ((s.bbs ≡ []) ⊎ IsRefused (Event.instruction i))
          (Steps ia s s.cur_debug_line
            (seen ++ without_nops (located ia line_map s.cur_debug_line i ∷ [])))
          (emit_instruction ia line_map i s) (λ b. inl b)
          (IsSound-emit_instruction ia line_map same i seen s h)
    Emits-event (Event.label sec lab) seen s h = Steps-emit_label ia nt sec lab seen s h
    Emits-event (Event.bytes bs) seen s h =
        Steps-same ia seen s _ s.cur_debug_line refl refl refl refl h
    Emits-event (Event.fill e v) seen s h = Emits-fill e v seen s h
    Emits-event (Event.value e) seen s h = Emits-value e seen s h
    Emits-event (Event.common_symbol name size align) seen s h =
        Steps-same ia seen s _ s.cur_debug_line refl refl refl refl h
    Emits-event (Event.alignment n) seen s h =
        Steps-same ia seen s _ s.cur_debug_line refl refl refl refl h
    Emits-event Event.elf_size seen s h = Steps-flush ia seen s s.cur_ro_data h
    Emits-event (Event.dwarf_loc line) seen s h = Steps-same ia seen s _ line refl refl refl refl h
    Emits-event Event.ignored seen s h =
        Steps-same ia seen s s s.cur_debug_line refl refl refl refl h

    emit_all-from :
        (es : List Event) (seen : List McInst) (s : Streamer)
        → IsSound ia seen s
        → Safe
            ((s.bbs ≡ []) ⊎ AnyRefused es)
            (IsSound ia (seen ++ without_nops (listing s.cur_debug_line es)))
            (emit_all ia line_map es s)
    unfolding emit_all
    emit_all-from [] seen s h = subst (λ q. IsSound ia q s) (sym (append-nil seen)) h
    emit_all-from (e ∷ es) seen s h =
        let now = without_nops (instruction_of s.cur_debug_line e) in
        Safe-bind ((s.bbs ≡ []) ⊎ IsRefused e)
          (Steps ia s (line_after s.cur_debug_line e) (seen ++ now))
          ((s.bbs ≡ []) ⊎ AnyRefused (e ∷ es))
          (IsSound ia (seen ++ without_nops (listing s.cur_debug_line (e ∷ es))))
          (emit_all ia line_map es) (emit_event ia line_map e s)
          (λ w. elim w [ inl b ↦ inl b | inr r ↦ inr (inl r) ])
          (λ s' p.
            let same_listing : (seen ++ now) ++ without_nops (listing s'.cur_debug_line es)
                ≡ seen ++ without_nops (listing s.cur_debug_line (e ∷ es)) =
              append_assoc seen now (without_nops (listing s'.cur_debug_line es))
              ∙ ap (λ q. seen ++ q)
                  (ap (λ l. now ++ without_nops (listing l es)) p.1.1
                    ∙ sym (
                        without_nops-append (instruction_of s.cur_debug_line e)
                          (listing (line_after s.cur_debug_line e) es))) in
            Safe-weaken ((s'.bbs ≡ []) ⊎ AnyRefused es) ((s.bbs ≡ []) ⊎ AnyRefused (e ∷ es))
              (IsSound ia (seen ++ without_nops (listing s.cur_debug_line (e ∷ es))))
              (emit_all ia line_map es s')
              (λ w. elim w [ inl b ↦ inl (p.1.0 b) | inr r ↦ inr (inr r) ])
              (subst
                (λ q.
                  Safe ((s'.bbs ≡ []) ⊎ AnyRefused es) (IsSound ia q) (emit_all ia line_map es s'))
                same_listing (emit_all-from es (seen ++ now) s' p.0)))
          (Emits-event e seen s h)

    collected :
        (E : Type 0) (seen : List McInst) (r : Result Streamer)
        → Safe E (IsSound ia seen) r
        → Safe E (Holds seen) r
    collected E seen (ok s) h = All-Shaped ia seen s h
    collected E seen (err e) h = h

    -- Where LLVM does not take a NOP for a terminator, nor looks at locations, every assembly text,
    -- whatever it is, either fails an assertion or is collected in blocks that are not empty, have no
    -- terminator but at the end, and hold the instructions of the text in order, NOPs aside, each
    -- with the source-side instruction of its debug line. No instruction is added through a null
    -- current block, or through one that was taken before the last append to the vector of blocks.
    pub emit_all-Safe :
        (es : List Event)
        → Safe Unit (Holds (without_nops (listing 0 es))) (emit_all ia line_map es new_streamer)
    emit_all-Safe es =
        collected Unit (without_nops (listing 0 es)) (emit_all ia line_map es new_streamer) (
          Safe-weaken (([] ≡ []) ⊎ AnyRefused es) Unit (IsSound ia (without_nops (listing 0 es)))
            (emit_all ia line_map es new_streamer) (λ w. tt)
            (emit_all-from es [] new_streamer
              (inl (record { no_blocks = refl; line_eq = refl; nothing = refl }))))

    -- Where LLVM does not take a NOP for a terminator, nor looks at locations, assembly text that
    -- starts with a label of code, and whose data directives have no refused operand, is
    -- collected without an error, in blocks that are not empty, have no terminator but at the end, and
    -- hold the instructions of the text in order, NOPs aside, each with the source-side instruction
    -- of its debug line.
    pub emit_all-Returns :
        (sec lab : String) (es : List Event)
        → starts_with sec ".debug" ≡ false
        → str_eq lab ".Lfunc_end0" ≡ false
        → (AnyRefused es → ⊥)
        → Safe ⊥
            (Holds (without_nops (listing 0 es)))
            (emit_all ia line_map (Event.label sec lab ∷ es) new_streamer)
    unfolding emit_all emit_event emit_label add_constant
    emit_all-Returns sec lab es d n r =
        let s₀ : Streamer = in_section sec lab new_streamer in
        let s₁ : Streamer = enter_block lab s₀ in
        let eq : emit_label sec lab new_streamer ≡ s₁ =
          ap (λ b. if b then record new_streamer { cur_sec = sec } else unless_ended lab s₀) d
          ∙ ap (λ b. if (if b then true else false) then s₀ else s₁) n in
        let h : IsSound ia [] s₁ =
          (Steps-enter_block ia nt lab [] s₀
            (inl (record { no_blocks = refl; line_eq = refl; nothing = refl }))).0 in
        subst (λ s. Safe ⊥ (Holds (without_nops (listing 0 es))) (emit_all ia line_map es s))
          (sym eq)
          (collected ⊥ (without_nops (listing 0 es)) (emit_all ia line_map es s₁) (
            Safe-weaken ((s₁.bbs ≡ []) ⊎ AnyRefused es) ⊥ (IsSound ia (without_nops (listing 0 es)))
              (emit_all ia line_map es s₁)
              (λ w. elim w [ inl b ↦ snoc-ne_nil [] _ b | inr q ↦ r q ])
              (emit_all-from es [] s₁ h)))
