-- ===== src/Streamer/Shape/Instruction.antt =====
-- `emitInstruction` (src/lifter/streamerwrapper.cpp) keeps the state sound.
use bpf_tv.Common.{
  ℕ, suc, ◌==◌, ==_refl, if-true, Bool-cases, inl, inr, Option, none, some, List, [], ◌∷◌, ◌++◌,
  Result, ok, err, length, All, All-append, ◌≡◌, refl, ap, sym, subst, ◌∙◌, append_assoc,
  append-nil, ◌⊎◌, Error,
}
use bpf_tv.Mc.Inst.{McInst}
use bpf_tv.Mc.Block.{McBasicBlock}
use bpf_tv.Streamer.{
  Streamer, BlockRef, appended_ref, deref, add_inst_at, McInstrAnalysis, AsmLine, no_line, label,
  non_term_instr, terminator, append_inst, modify_at, add_inst, add_block, get_label, start_block,
  after_terminator, emit_instruction, line_of_inst, located, with_line,
}
use bpf_tv.Streamer.Shape.{
  Steps, snoc-ne_nil, code, without_nops, without_nops-append, code-append, Shaped, IsOpen,
  IsOpen-snoc, EndsOnce-snoc, After, Current, IsSound, Safe,
}

module _ (ia : McInstrAnalysis) where
  modify_at_last :
      (f : McBasicBlock → McBasicBlock) (init : List McBasicBlock) (b : McBasicBlock)
      → modify_at f (length init) (init ++ b ∷ []) ≡ ok (init ++ f b ∷ [])
  modify_at_last f [] b = refl
  modify_at_last f (x ∷ xs) b =
      ap (λ (q : Result (List McBasicBlock)). elim q [ ok ys ↦ ok (x ∷ ys) | err e ↦ err e ])
        (modify_at_last f xs b)

  length_snoc :
      (init : List McBasicBlock) (cur : McBasicBlock)
      → length (init ++ cur ∷ []) ≡ suc (length init)
  length_snoc [] cur = refl
  length_snoc (b ∷ bs) cur = ap suc (length_snoc bs cur)

  -- The pointer to a block that was appended last is valid.
  deref_last :
      (init : List McBasicBlock) (cur : McBasicBlock)
      → deref (appended_ref (length init)) (init ++ cur ∷ []) ≡ ok (length init)
  deref_last init cur =
      if-true (suc (length init) == length (init ++ cur ∷ [])) (ok (length init)) (err Error.fault)
        (ap (λ n. suc (length init) == n) (length_snoc init cur) ∙ ==_refl (suc (length init)))

  add_inst_last :
      (i : McInst) (s : Streamer) (init : List McBasicBlock) (cur : McBasicBlock)
      → s.bbs ≡ init ++ cur ∷ []
      → s.cur_bb ≡ some (appended_ref (length init))
      → add_inst i s ≡ ok (record s { bbs = init ++ append_inst i cur ∷ [] })
  unfolding add_inst
  add_inst_last i s init cur e c =
      ap
        (λ (k : Option BlockRef). elim k [
          | none ↦ err Error.fault
          | some p ↦ add_inst_at i s (deref p s.bbs)
        ])
        c
      ∙ ap (add_inst_at i s) (
          ap (λ (q : List McBasicBlock). deref (appended_ref (length init)) q) e
          ∙ deref_last init cur)
      ∙ ap
          (λ (q : List McBasicBlock). elim (modify_at (append_inst i) (length init) q) [
            | ok bbs ↦ ok (record s { bbs = bbs })
            | err e ↦ err e
          ])
          e
      ∙ ap
          (λ (q : Result (List McBasicBlock)). elim q [
            | ok bbs ↦ ok (record s { bbs = bbs })
            | err e ↦ err e
          ])
          (modify_at_last (append_inst i) init cur)

  code_last :
      (i : McInst) (init : List McBasicBlock) (cur : McBasicBlock)
      → code (init ++ append_inst i cur ∷ []) ≡ code (init ++ cur ∷ []) ++ i ∷ []
  code_last i init cur =
      code-append init (append_inst i cur ∷ [])
      ∙ ap (λ l. code init ++ l)
          (append-nil (cur.instrs ++ i ∷ []) ∙ ap (λ l. l ++ i ∷ []) (sym (append-nil cur.instrs)))
      ∙ sym (append_assoc (code init) (cur.instrs ++ []) (i ∷ []))
      ∙ ap (λ l. l ++ i ∷ []) (sym (code-append init (cur ∷ [])))

  module _ (line_map : ℕ → Option ℕ)
      (same : (i : McInst) (l : Option ℕ)
        → ia.is_terminator (record i { loc = l }) ≡ ia.is_terminator i) where
    -- A block to which an instruction can be added.
    abbrev Accepts : List McInst → Type 0
    Accepts is = (is ≡ []) ⊎ IsOpen ia is

    line-After :
        (i : McInst) (l : ℕ) (is : List McInst)
        → Accepts is
        → After ia (line_of_inst ia line_map i) (is ++ located ia line_map l i ∷ [])
    line-After i l is (inl e) = elim (Bool-cases (ia.is_terminator i)) [
      | inl t ↦
          subst (λ q. After ia (line_of_inst ia line_map i) (q ++ located ia line_map l i ∷ []))
            (sym e) (rw t tt)
      | inr t ↦
          subst (λ q. After ia (line_of_inst ia line_map i) (q ++ located ia line_map l i ∷ []))
            (sym e) (rw t (same i (line_map l) ∙ t))
    ]
    line-After i l is (inr h) = elim (Bool-cases (ia.is_terminator i)) [
      | inl t ↦ rw t (EndsOnce-snoc ia is (located ia line_map l i) h)
      | inr t ↦ rw t (IsOpen-snoc ia is (located ia line_map l i) h (same i (line_map l) ∙ t))
    ]

    IsSound-put :
        (i : McInst) (l : ℕ) (s₀ : Streamer) (seen : List McInst) (s : Streamer)
        (init : List McBasicBlock) (cur : McBasicBlock)
        → s.cur_debug_line ≡ l
        → s.bbs ≡ init ++ cur ∷ []
        → s.cur_bb ≡ some (appended_ref (length init))
        → All (Shaped ia) init
        → Accepts cur.instrs
        → without_nops (code s.bbs) ≡ seen
        → Safe
            (s₀.bbs ≡ [])
            (Steps ia s₀ l (seen ++ without_nops (located ia line_map l i ∷ [])))
            (with_line ia line_map i (add_inst (located ia line_map l i) s))
    IsSound-put i l s₀ seen s init cur le e c fin a h =
        subst
          (λ q.
            Safe (s₀.bbs ≡ []) (Steps ia s₀ l (seen ++ without_nops (located ia line_map l i ∷ [])))
              (with_line ia line_map i q))
          (sym (add_inst_last (located ia line_map l i) s init cur e c))
          (
            inr (record {
              init = init;
              cur = append_inst (located ia line_map l i) cur;
              bbs_eq = refl;
              cur_eq = c;
              finished = fin;
              line = line_of_inst ia line_map i;
              line_eq = refl;
              ends = line-After i l cur.instrs a;
              holds =
                  ap without_nops (code_last (located ia line_map l i) init cur)
                  ∙ without_nops-append (code (init ++ cur ∷ [])) (located ia line_map l i ∷ [])
                  ∙ ap (λ q. q ++ without_nops (located ia line_map l i ∷ []))
                      (ap (λ q. without_nops (code q)) (sym e) ∙ h);
            }),
            ((λ q. absurd (snoc-ne_nil init (append_inst (located ia line_map l i) cur) q)), le),
          )

    abbrev emit_from : McInst → Streamer → AsmLine → Result Streamer
    emit_from i s l = elim (start_block l s) [
      | err e ↦ err e
      | ok s' ↦ with_line ia line_map i (add_inst (located ia line_map s.cur_debug_line i) s')
    ]

    IsSound-emit_from :
        (i : McInst) (seen : List McInst) (s : Streamer) (h : Current ia seen s) (line : AsmLine)
        → s.prev_line ≡ line
        → After ia line h.cur.instrs
        → Safe
            (s.bbs ≡ [])
            (Steps ia s s.cur_debug_line
              (seen ++ without_nops (located ia line_map s.cur_debug_line i ∷ [])))
            (emit_from i s line)
    unfolding get_label add_block
    IsSound-emit_from i seen s h no_line e a = elim a [ ]
    IsSound-emit_from i seen s h label e a =
        IsSound-put i s.cur_debug_line s seen s h.init h.cur refl h.bbs_eq h.cur_eq h.finished
          (inr a) h.holds
    IsSound-emit_from i seen s h non_term_instr e a =
        IsSound-put i s.cur_debug_line s seen s h.init h.cur refl h.bbs_eq h.cur_eq h.finished
          (inr a) h.holds
    IsSound-emit_from i seen s h terminator e a =
        IsSound-put i s.cur_debug_line s seen (after_terminator s) s.bbs
          (record { name = (get_label s).0; instrs = []; succs = [] }) refl refl refl
          (subst (All (Shaped ia)) (sym h.bbs_eq)
            (All-append (Shaped ia) h.init (h.cur ∷ []) h.finished (a, tt)))
          (inl refl)
          (ap without_nops (
              code-append s.bbs (record { name = (get_label s).0; instrs = []; succs = [] } ∷ [])
              ∙ append-nil (code s.bbs))
            ∙ h.holds)

    pub IsSound-emit_instruction :
        (i : McInst) (seen : List McInst) (s : Streamer)
        → IsSound ia seen s
        → Safe
            (s.bbs ≡ [])
            (Steps ia s s.cur_debug_line
              (seen ++ without_nops (located ia line_map s.cur_debug_line i ∷ [])))
            (emit_instruction ia line_map i s)
    unfolding emit_instruction
    IsSound-emit_instruction i seen s (inl h) = rw h.line_eq (refl, h.no_blocks)
    IsSound-emit_instruction i seen s (inr h) =
        subst
          (λ l.
            Safe (s.bbs ≡ [])
              (Steps ia s s.cur_debug_line
                (seen ++ without_nops (located ia line_map s.cur_debug_line i ∷ [])))
              (emit_from i s l))
          (sym h.line_eq) (IsSound-emit_from i seen s h h.line h.line_eq h.ends)
