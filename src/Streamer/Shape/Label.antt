-- ===== src/Streamer/Shape/Label.antt =====
-- Labels (`emitLabel`, src/lifter/streamerwrapper.cpp) and what changes no block keep the state
-- sound.
use bpf_tv.Common.{
  ℕ, true, false, Bool-cases, inl, inr, if◌then◌else◌, List, [], ◌∷◌, ◌++◌, String, All, All-append,
  ◌≡◌, refl, ap, sym, subst, ◌∙◌, append-nil,
}
use text.Mathlib.Text.{starts_with}
use bpf_tv.Mc.Inst.{McInst}
use bpf_tv.Streamer.{
  Streamer, McInstrAnalysis, label, RoDataItem, sentinel, flush, add_constant, emit_label,
  enter_block, unless_ended, in_section,
}
use bpf_tv.Streamer.Shape.{
  code, without_nops, without_nops-append, code-append, Shaped, After-EndsOnce, IsSound, Steps,
  snoc-ne_nil,
}

module _ (ia : McInstrAnalysis) where
  pub IsSound-same :
      (seen : List McInst) (s s' : Streamer)
      → s'.bbs ≡ s.bbs
      → s'.cur_bb ≡ s.cur_bb
      → s'.prev_line ≡ s.prev_line
      → IsSound ia seen s
      → IsSound ia seen s'
  IsSound-same seen s s' b c p (inl h) =
      inl (record { no_blocks = b ∙ h.no_blocks; line_eq = p ∙ h.line_eq; nothing = h.nothing })
  IsSound-same seen s s' b c p (inr h) = inr (record {
    init = h.init;
    cur = h.cur;
    bbs_eq = b ∙ h.bbs_eq;
    cur_eq = c ∙ h.cur_eq;
    finished = h.finished;
    line = h.line;
    line_eq = p ∙ h.line_eq;
    ends = h.ends;
    holds = ap (λ q. without_nops (code q)) b ∙ h.holds;
  })

  pub Steps-same :
      (seen : List McInst) (s s' : Streamer) (l : ℕ)
      → s'.bbs ≡ s.bbs
      → s'.cur_bb ≡ s.cur_bb
      → s'.prev_line ≡ s.prev_line
      → s'.cur_debug_line ≡ l
      → IsSound ia seen s
      → Steps ia s l (seen ++ []) s'
  Steps-same seen s s' l b c p d h = (
    subst (λ q. IsSound ia q s') (sym (append-nil seen)) (IsSound-same seen s s' b c p h),
    ((λ e. sym b ∙ e), d),
  )

  pub All-Shaped :
      (seen : List McInst) (s : Streamer)
      → IsSound ia seen s
      → All (Shaped ia) s.bbs × (without_nops (code s.bbs) ≡ seen)
  All-Shaped seen s (inl h) = (
    subst (All (Shaped ia)) (sym h.no_blocks) tt,
    ap (λ q. without_nops (code q)) h.no_blocks ∙ sym h.nothing,
  )
  All-Shaped seen s (inr h) = (
    subst (All (Shaped ia)) (sym h.bbs_eq) (
        All-append (Shaped ia) h.init (h.cur ∷ []) h.finished
          (After-EndsOnce ia h.line h.cur.instrs h.ends, tt)),
    h.holds,
  )

  pub Steps-enter_block :
      ia.is_terminator sentinel ≡ false
      → (lab : String) (seen : List McInst) (s : Streamer) → IsSound ia seen s
      → Steps ia s s.cur_debug_line (seen ++ []) (enter_block lab s)
  Steps-enter_block nt lab seen s h =
      let a = All-Shaped seen s h in
      (
        inr (record {
          init = s.bbs;
          cur = record { name = lab; instrs = sentinel ∷ []; succs = [] };
          bbs_eq = refl;
          cur_eq = refl;
          finished = a.0;
          line = label;
          line_eq = refl;
          ends = nt;
          holds =
              ap without_nops
                (code-append s.bbs (record { name = lab; instrs = sentinel ∷ []; succs = [] } ∷ []))
              ∙ without_nops-append (code s.bbs) (sentinel ∷ [])
              ∙ ap (λ q. q ++ []) (a.1);
        }),
        ((λ e. absurd (snoc-ne_nil s.bbs _ e)), refl),
      )

  pub Steps-flush :
      (seen : List McInst) (s : Streamer) (items : List RoDataItem)
      → IsSound ia seen s
      → Steps ia s s.cur_debug_line (seen ++ []) (flush items s)
  Steps-flush seen s [] h = Steps-same seen s s s.cur_debug_line refl refl refl refl h
  Steps-flush seen s (x ∷ xs) h =
      Steps-same seen s (flush (x ∷ xs) s) s.cur_debug_line refl refl refl refl h

  -- For a state that differs from a sound one in other fields, and then goes on.
  Steps-after :
      (seen : List McInst) (s s' s'' : Streamer)
      → Steps ia s s.cur_debug_line (seen ++ []) s'
      → ((h : IsSound ia seen s') → Steps ia s' s'.cur_debug_line (seen ++ []) s'')
      → Steps ia s s.cur_debug_line (seen ++ []) s''
  Steps-after seen s s' s'' h k =
      let r = k (subst (λ q. IsSound ia q s') (append-nil seen) h.0) in
      (r.0, ((λ e. h.1.0 (r.1.0 e)), r.1.1 ∙ h.1.1))

  Steps-unless_ended :
      ia.is_terminator sentinel ≡ false
      → (lab : String) (seen : List McInst) (s : Streamer) → IsSound ia seen s
      → Steps ia s s.cur_debug_line (seen ++ []) (unless_ended lab s)
  Steps-unless_ended nt lab seen s h =
      elim s.function_ended
        as (λ b. Steps ia s s.cur_debug_line (seen ++ []) (if b then s else enter_block lab s)) [
          | true ↦ Steps-same seen s s s.cur_debug_line refl refl refl refl h
          | false ↦ Steps-enter_block nt lab seen s h
        ]

  pub Steps-emit_label :
      ia.is_terminator sentinel ≡ false
      → (sec lab : String) (seen : List McInst) (s : Streamer) → IsSound ia seen s
      → Steps ia s s.cur_debug_line (seen ++ []) (emit_label sec lab s)
  unfolding emit_label add_constant
  Steps-emit_label nt sec lab seen s h = elim (Bool-cases (starts_with sec ".debug")) [
    | inl e ↦
        rw e (Steps-same seen s (record s { cur_sec = sec }) s.cur_debug_line refl refl refl refl h)
    | inr e ↦ rw e (
        let s1 : Streamer = flush s.cur_ro_data s in
        let s2 : Streamer = in_section sec lab s1 in
        Steps-after seen s s1 (unless_ended lab s2) (Steps-flush seen s s.cur_ro_data h) λ h1.
          Steps-after seen s1 s2 (unless_ended lab s2)
            (Steps-same seen s1 s2 s1.cur_debug_line refl refl refl refl h1)
            λ h2. Steps-unless_ended nt lab seen s2 h2)
  ]
