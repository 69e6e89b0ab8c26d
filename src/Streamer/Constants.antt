-- ===== src/Streamer/Constants.antt =====
-- Constants in assembly text (`emitBytes`, `emitFill`, `emitValueImpl`, `emitLabel` and
-- `addConstant`, src/lifter/streamerwrapper.h, src/lifter/streamerwrapper.cpp).
use bpf_tv.Common.{
  ℕ, ltb, Bool, true, false, if◌then◌else◌, if-true, if-false, Option, List, [], ◌∷◌, ◌++◌, map,
  String, Result, ok, err, All, ◌≡◌, refl, ap, sym, ◌∙◌, append_assoc, append-nil, assertion,
}
use text.Mathlib.Text.{◌==◌ as str_eq, starts_with}
use bpf_tv.Words.{ℤ, pos}
use bpf_tv.Streamer.{
  Streamer, McInstrAnalysis, RoDataItem, offset_sym, byte, McGlobal, McExpr, replicate, flush,
  add_constant, emit_value_impl, emit_bytes, emit_fill, emit_label, unless_ended, in_section,
  enter_block,
}
use bpf_tv.Streamer.Events.{Event, emit_event, emit_all}

-- What a constant consists of.
pub data Datum : Type 0 where
  ascii : List ℕ → Datum
  repeated : ℕ → ℕ → Datum
  address : String → Datum
  address_plus : String → ℤ → Datum

abbrev pub directive : Datum → Event
directive (Datum.ascii bs) = Event.bytes bs
directive (Datum.repeated n v) = Event.fill (McExpr.constant (pos n)) v
directive (Datum.address s) = Event.value (McExpr.symbol_ref s)
directive (Datum.address_plus s z) =
    Event.value (McExpr.binary (McExpr.symbol_ref s) (McExpr.constant z))

abbrev pub content : Datum → List RoDataItem
content (Datum.ascii bs) = map byte bs
content (Datum.repeated n v) = replicate n (byte v)
content (Datum.address s) = offset_sym s (pos 0) ∷ []
content (Datum.address_plus s z) = offset_sym s z ∷ []

abbrev pub contents : List Datum → List RoDataItem
contents [] = []
contents (d ∷ ds) = content d ++ contents ds

abbrev pub IsDatum : Datum → Type 0
IsDatum (Datum.repeated n v) = ltb v 256 ≡ true
IsDatum _ = Unit

abbrev extend : Streamer → List RoDataItem → Streamer
extend s items = record s { cur_ro_data = s.cur_ro_data ++ items }

stays_ended : (a b : Bool) → b ≡ true → (if a then true else b) ≡ true
stays_ended true b h = refl
stays_ended false b h = h

module _ (ia : McInstrAnalysis) (line_map : ℕ → Option ℕ) where
  emit-directive :
      (d : Datum) (s : Streamer)
      → IsDatum d
      → starts_with s.cur_sec ".debug" ≡ false
      → emit_event ia line_map (directive d) s ≡ ok (extend s (content d))
  unfolding emit_event emit_bytes emit_fill emit_value_impl
  emit-directive (Datum.ascii bs) s h n = refl
  emit-directive (Datum.repeated k v) s h n =
      if-true (ltb v 256) (ok (extend s (replicate k (byte v)))) (err assertion) h
  emit-directive (Datum.address x) s h n =
      if-false (starts_with s.cur_sec ".debug") (ok s) (ok (extend s (offset_sym x (pos 0) ∷ []))) n
  emit-directive (Datum.address_plus x z) s h n =
      if-false (starts_with s.cur_sec ".debug") (ok s) (ok (extend s (offset_sym x z ∷ []))) n

  emit_directives :
      (ds : List Datum) (s : Streamer)
      → All IsDatum ds
      → starts_with s.cur_sec ".debug" ≡ false
      → emit_all ia line_map (map directive ds ++ Event.elf_size ∷ []) s
        ≡ ok (add_constant (extend s (contents ds)))
  unfolding emit_all emit_event add_constant
  emit_directives [] s h n =
      ap (λ l. ok (flush l (record s { cur_ro_data = l }))) (sym (append-nil s.cur_ro_data))
  emit_directives (d ∷ ds) s h n =
      ap
        (λ (r : Result Streamer). elim r [
          | ok s' ↦ emit_all ia line_map (map directive ds ++ Event.elf_size ∷ []) s'
          | err x ↦ err x
        ])
        (emit-directive d s h.0 n)
      ∙ emit_directives ds (extend s (content d)) h.1 n
      ∙ ap (λ l. ok (flush l (record s { cur_ro_data = l })))
          (append_assoc s.cur_ro_data (content d) (contents ds))

  -- The text adds one global and no block.
  pub record AddsGlobal (s : Streamer) (events : List Event) (g : McGlobal) : Type 0 where
    pub after : Streamer
    pub emitted : emit_all ia line_map events s ≡ ok after
    pub added : after.mc_globals ≡ s.mc_globals ++ g ∷ []
    pub no_data_left : after.cur_ro_data ≡ []
    pub same_blocks : after.bbs ≡ s.bbs

  -- After the end of the function, and with no data left over, the text of a constant, that is
  -- its alignment, a label outside the debug sections, directives for its data, of which there is
  -- some, and its size, adds one global: with that label, section and alignment, and the data in order.
  pub flush-AddsGlobal :
      (s : Streamer) (align : ℕ) (sec lab : String) (ds : List Datum) (item : RoDataItem)
      (items : List RoDataItem)
      → s.function_ended ≡ true
      → s.cur_ro_data ≡ []
      → starts_with sec ".debug" ≡ false
      → All IsDatum ds
      → contents ds ≡ item ∷ items
      → AddsGlobal s
          (Event.alignment align ∷ Event.label sec lab ∷ map directive ds ++ Event.elf_size ∷ [])
          (record { name = lab; align = align; sec = sec; content = contents ds })
  unfolding emit_all emit_event emit_label add_constant
  flush-AddsGlobal s align sec lab ds item items f e n h c =
      let s₀ : Streamer = record s { cur_align = align } in
      let s₁ : Streamer = in_section sec lab s₀ in
      let debug : Streamer = record s₀ { cur_sec = sec } in
      let ended : (if str_eq lab ".Lfunc_end0" then true else s.function_ended) ≡ true =
        stays_ended (str_eq lab ".Lfunc_end0") s.function_ended f in
      let labelled : emit_label sec lab s₀ ≡ s₁ =
        if-false (starts_with sec ".debug") debug
          (unless_ended lab (in_section sec lab (add_constant s₀))) n
        ∙ ap (λ l. unless_ended lab (in_section sec lab (flush l s₀))) e
        ∙ if-true (if str_eq lab ".Lfunc_end0" then true else s.function_ended) s₁
            (enter_block lab s₁) ended in
      let all : s.cur_ro_data ++ contents ds ≡ item ∷ items = ap (λ l. l ++ contents ds) e ∙ c in
      record {
        after = flush (item ∷ items) (record s₁ { cur_ro_data = item ∷ items });
        emitted =
            ap (λ q. emit_all ia line_map (map directive ds ++ Event.elf_size ∷ []) q) labelled
            ∙ emit_directives ds s₁ h n
            ∙ ap (λ l. ok (flush l (record s₁ { cur_ro_data = l }))) all;
        added =
            ap
              (λ (l : List RoDataItem).
                s.mc_globals ++ record { name = lab; align = align; sec = sec; content = l } ∷ [])
              (sym c);
        no_data_left = refl;
        same_blocks = refl;
      }
