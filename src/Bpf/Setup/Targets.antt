-- ===== src/Bpf/Setup/Targets.antt =====
-- The blocks that `liftMCFunction` (src/lifter/mc2llvm.cpp) creates, and the targets of branches that
-- `generateSuccessors` (src/lifter/streamerwrapper.cpp) has found among them.
use bpf_tv.Common.{
  ℕ, zero, suc, ◌+◌, ◌≤◌, ◌<◌, ltb, ◌==◌, ◌&&◌, ◌||◌, Bool, true, false, Bool-cases, inl, inr,
  if◌then◌else◌, Option, none, some, List, [], ◌∷◌, String, Result, ok, err, length, get_elem?,
  last?, update, update_self, update_ne, lt→ltb, ==_iff, ok-inv, ok-injective, if-true, if-false,
  ◌≡◌, refl, ap, ap₂, sym, subst, ◌∙◌, arith,
}
use mathlib.Core.Option.{none-ne-some, some-injective}
use text.Mathlib.Text.{◌==◌ as str_eq}
use text.Mathlib.TextEquality.{eq_iff}
use bpf_tv.Mc.Inst.{McInst}
use bpf_tv.Mc.Block.{McBasicBlock}
use bpf_tv.Lifter.State.{Lifter}
use bpf_tv.Lifter.Build.{create_block, find_block}
use bpf_tv.Streamer.{McInstrAnalysis}
use bpf_tv.Streamer.Flow.{
  find_block_by_name, find_target_label, add_succ, add_next, next_block, branch_targets,
  usual_successors, successors_of_last, successors, names_of, generate_from, generate_successors,
  starts_with_imm, only_next,
}
use bpf_tv.Bpf.Operands.{other_successor, name_or}
use bpf_tv.Bpf.Control.Jumps.{HasTargets}
use bpf_tv.Bpf.Setup.{create_bbs}

-- The names from `k` on are those of the blocks.
abbrev Named : List McBasicBlock → ℕ → (ℕ → String) → Type 0
Named bbs k names = (j : ℕ) (b : McBasicBlock) → get_elem? bbs j ≡ some b → names (k + j) ≡ b.name

Named-cons :
    (b : McBasicBlock) (bs : List McBasicBlock) (k : ℕ) (names : ℕ → String)
    → names k ≡ b.name
    → Named bs (suc k) names
    → Named (b ∷ bs) k names
Named-cons b bs k names e h zero c q =
    ap names (let z : k + 0 ≡ k = omega arith in z)
    ∙ e
    ∙ ap (λ (x : McBasicBlock). x.name) (some-injective b c q)
Named-cons b bs k names e h (suc j) c q =
    ap names (let z : k + suc j ≡ suc k + j = omega arith in z) ∙ h j c q

pub record Created (s : Lifter) (bbs : List McBasicBlock) : Type 0 where
  pub after : Lifter
  pub created : create_bbs bbs s ≡ ok (tt, after)
  pub count_eq : after.count ≡ s.count + length bbs
  pub named : Named bbs s.count after.names
  pub kept : (j : ℕ) → j < s.count → after.names j ≡ s.names j

pub create_bbs-Created : (s : Lifter) (bbs : List McBasicBlock) → Created s bbs
unfolding create_bbs create_block
create_bbs-Created s [] = record {
  after = s;
  created = refl;
  count_eq = omega arith;
  named = λ j b e. absurd (none-ne-some b e);
  kept = λ j l. refl;
}
create_bbs-Created s (b ∷ bs) =
    let s' : Lifter = record s {
      count = suc s.count;
      names = update s.names s.count b.name;
      blocks = update s.blocks s.count [];
    } in
    let c = create_bbs-Created s' bs in
    record {
      after = c.after;
      created = c.created;
      count_eq = (let e = c.count_eq in omega arith);
      named =
          Named-cons b bs s.count c.after.names
            (c.kept s.count (omega arith) ∙ update_self s.names s.count b.name) c.named;
      kept = λ j l.
          c.kept j (omega arith) ∙ update_ne s.names s.count j b.name (λ e. absurd (omega arith));
    }

find-Named :
    (bbs : List McBasicBlock) (k : ℕ) (names : ℕ → String) (name : String)
    → Named bbs k names
    → find_block (length bbs) k names name ≡ find_block_by_name bbs k name
unfolding find_block find_block_by_name
find-Named [] k names name h = refl
find-Named (b ∷ bs) k names name h =
    let e : names k ≡ b.name = ap names (let z : k ≡ k + 0 = omega arith in z) ∙ h 0 b refl in
    let rest =
      find-Named bs (suc k) names name
        (λ j c q. ap names (let z : suc k + j ≡ k + suc j = omega arith in z) ∙ h (suc j) c q) in
    ap₂ (λ n r. if str_eq n name then some k else r) e rest

-- One completed block, by its place.
record Generated (ia : McInstrAnalysis) (full : List McBasicBlock) (i j : ℕ) (b : McBasicBlock)
    (out : List McBasicBlock) : Type 0 where
  pub places : List ℕ
  pub succs_eq : successors ia full (i + j) b ≡ ok places
  pub at : get_elem? out j ≡ some (record b { succs = names_of ia full places })

Generated-cons :
    (ia : McInstrAnalysis) (full : List McBasicBlock) (i : ℕ) (x : McBasicBlock)
    (xs : List McBasicBlock) (ks : List ℕ) (rest out : List McBasicBlock) (j : ℕ) (b : McBasicBlock)
    → successors ia full i x ≡ ok ks
    → record x { succs = names_of ia full ks } ∷ rest ≡ out
    → get_elem? (x ∷ xs) j ≡ some b
    → ((j' : ℕ) → get_elem? xs j' ≡ some b → Generated ia full (suc i) j' b rest)
    → Generated ia full i j b out
Generated-cons ia full i x xs ks rest out zero b s o h k =
    let e : x ≡ b = some-injective x b h in
    record {
      places = ks;
      succs_eq =
          ap₂ (λ n c. successors ia full n c) (let z : i + 0 ≡ i = omega arith in z) (sym e) ∙ s;
      at =
          ap (λ w. get_elem? w 0) (sym o)
          ∙ ap (λ (c : McBasicBlock). some (record c { succs = names_of ia full ks })) e;
    }
Generated-cons ia full i x xs ks rest out (suc j) b s o h k =
    let g = k j h in
    record {
      places = g.places;
      succs_eq =
          ap (λ n. successors ia full n b) (let z : i + suc j ≡ suc i + j = omega arith in z)
          ∙ g.succs_eq;
      at = ap (λ w. get_elem? w (suc j)) (sym o) ∙ g.at;
    }

Generated-at :
    (ia : McInstrAnalysis) (full : List McBasicBlock) (i : ℕ) (bs out : List McBasicBlock) (j : ℕ)
    (b : McBasicBlock)
    → generate_from ia full i bs ≡ ok out
    → get_elem? bs j ≡ some b
    → Generated ia full i j b out
unfolding generate_from
Generated-at ia full i [] out j b e h = absurd (none-ne-some b h)
Generated-at ia full i (x ∷ xs) out j b e h =
    let p =
      ok-inv (successors ia full i x)
        (λ ks. elim (generate_from ia full (suc i) xs) [
          | err e ↦ err e
          | ok rest ↦ ok (record x { succs = names_of ia full ks } ∷ rest)
        ])
        out e in
    let q =
      ok-inv (generate_from ia full (suc i) xs)
        (λ rest. ok (record x { succs = names_of ia full (p.0) } ∷ rest)) out (p.1.1) in
    let o : record x { succs = names_of ia full (p.0) } ∷ q.0 ≡ out =
      ok-injective (record x { succs = names_of ia full (p.0) } ∷ q.0) out (q.1.1) in
    Generated-cons ia full i x xs (p.0) (q.0) out j b (p.1.0) o h
      (λ j' h'. Generated-at ia full (suc i) xs (q.0) j' b (q.1.0) h')

same_names :
    (ia : McInstrAnalysis) (full : List McBasicBlock) (i : ℕ) (bs out : List McBasicBlock) (k : ℕ)
    (name : String)
    → generate_from ia full i bs ≡ ok out
    → find_block_by_name out k name ≡ find_block_by_name bs k name
unfolding generate_from find_block_by_name
same_names ia full i [] out k name e =
    ap (λ o. find_block_by_name o k name) (sym (ok-injective [] out e))
same_names ia full i (x ∷ xs) out k name e =
    let p =
      ok-inv (successors ia full i x)
        (λ ks. elim (generate_from ia full (suc i) xs) [
          | err e ↦ err e
          | ok rest ↦ ok (record x { succs = names_of ia full ks } ∷ rest)
        ])
        out e in
    let q =
      ok-inv (generate_from ia full (suc i) xs)
        (λ rest. ok (record x { succs = names_of ia full (p.0) } ∷ rest)) out (p.1.1) in
    let o : record x { succs = names_of ia full (p.0) } ∷ q.0 ≡ out =
      ok-injective (record x { succs = names_of ia full (p.0) } ∷ q.0) out (q.1.1) in
    ap (λ w. find_block_by_name w k name) (sym o)
    ∙ ap (λ r. if str_eq x.name name then some k else r)
        (same_names ia full (suc i) xs (q.0) (suc k) name (q.1.0))

-- A block found by its name has it, and stands where it was found.
record At (bbs : List McBasicBlock) (k t : ℕ) (name : String) : Type 0 where
  pub place : ℕ
  pub block : McBasicBlock
  pub place_eq : t ≡ k + place
  pub get_eq : get_elem? bbs place ≡ some block
  pub name_eq : block.name ≡ name

find-At :
    (bbs : List McBasicBlock) (k t : ℕ) (name : String)
    → find_block_by_name bbs k name ≡ some t
    → At bbs k t name
unfolding find_block_by_name
find-At [] k t name h = absurd (none-ne-some t h)
find-At (b ∷ bs) k t name h =
    let rest = find_block_by_name bs (suc k) name in
    elim (Bool-cases (str_eq b.name name)) [
      | inl e ↦
          let q : k ≡ t =
            some-injective k t (sym (if-true (str_eq b.name name) (some k) rest e) ∙ h) in
          record {
            place = 0;
            block = b;
            place_eq = omega arith;
            get_eq = refl;
            name_eq = (eq_iff b.name name).0 e;
          }
      | inr e ↦
          let a =
            find-At bs (suc k) t name (sym (if-false (str_eq b.name name) (some k) rest e) ∙ h) in
          record {
            place = suc a.place;
            block = a.block;
            place_eq = (let z = a.place_eq in omega arith);
            get_eq = a.get_eq;
            name_eq = a.name_eq;
          }
    ]

get_elem-lt :
    (bbs : List McBasicBlock) (k : ℕ) (b : McBasicBlock) → get_elem? bbs k ≡ some b → k < length bbs
get_elem-lt [] k b h = absurd (none-ne-some b h)
get_elem-lt (x ∷ xs) zero b h = omega arith
get_elem-lt (x ∷ xs) (suc k) b h = omega (arith, get_elem-lt xs k b h)

no_entry : (a b : Bool) → (a && (false && b)) ≡ false
no_entry true b = refl
no_entry false b = refl

-- The successors of a block that ends in a conditional branch and is not the last one.
conditional-successors :
    (ia : McInstrAnalysis) (full : List McBasicBlock) (i t : ℕ) (b next : McBasicBlock)
    (last : McInst) (name : String)
    → last? b.instrs ≡ some last
    → ia.is_conditional_branch last ≡ true
    → ia.is_unconditional_branch last ≡ false
    → find_target_label last.operands ≡ ok name
    → find_block_by_name full 0 name ≡ some t
    → get_elem? full (suc i) ≡ some next
    → successors ia full i b ≡ ok (add_succ (t ∷ []) (suc i))
unfolding successors successors_of_last usual_successors branch_targets add_next
conditional-successors ia full i t b next last name l c u target at n =
    let usual : Result (List ℕ) = usual_successors ia full (next_block (length full) i) last in
    let first : Result (List ℕ) = only_next ia full (next_block (length full) i) in
    let nx : next_block (length full) i ≡ some (suc i) =
      if-true (ltb (suc i) (length full)) (some (suc i)) none
        (lt→ltb (suc i) (length full) (get_elem-lt full (suc i) next n)) in
    ap (λ (o : Option McInst). elim o [ none ↦ ok [] | some q ↦ successors_of_last ia full i q ]) l
    ∙ if-false ((i == 0) && (ia.is_unconditional_branch last && starts_with_imm last.operands))
        first usual
        (ap (λ q. (i == 0) && (q && starts_with_imm last.operands)) u
          ∙ no_entry (i == 0) (starts_with_imm last.operands))
    ∙ if-true (ia.is_conditional_branch last)
        (branch_targets ia full (next_block (length full) i) (find_target_label last.operands)) _ c
    ∙ ap (λ r. branch_targets ia full (next_block (length full) i) r) target
    ∙ ap
        (λ (o : Option ℕ). elim o [
          | none ↦ err bpf_tv.Common.assertion
          | some k ↦ ok (add_next (next_block (length full) i) (k ∷ []))
        ])
        at
    ∙ ap (λ o. ok (add_next o (t ∷ []))) nx

-- The state in which the block at a place of the completed blocks is lifted has these targets.
pub record HasCreatedTargets (out : List McBasicBlock) (s₀ : Lifter) (i : ℕ) (name : String)
    (t f : ℕ) : Type 0 where
  pub after : Lifter
  pub block : McBasicBlock
  pub created : create_bbs out s₀ ≡ ok (tt, after)
  pub at : get_elem? out i ≡ some block
  pub targets : HasTargets (record after { succs = block.succs }) name t f

one-HasTargets :
    (s : Lifter) (name : String) (t f : ℕ)
    → find_block s.count 0 s.names name ≡ some t
    → t ≡ f
    → HasTargets (record s { succs = name ∷ [] }) name t f
unfolding other_successor
one-HasTargets s name t f h e = record {
  counted = refl;
  taken_at = h;
  other_at =
      ap (λ c. find_block s.count 0 s.names (name_or (if c then none else some name) name))
        ((eq_iff name name).1 refl)
      ∙ h
      ∙ ap (λ k. some k) e;
}

two-HasTargets :
    (s : Lifter) (name other : String) (t f : ℕ)
    → find_block s.count 0 s.names name ≡ some t
    → find_block s.count 0 s.names other ≡ some f
    → str_eq other name ≡ false
    → HasTargets (record s { succs = name ∷ other ∷ [] }) name t f
unfolding other_successor
two-HasTargets s name other t f h k e = record {
  counted = refl;
  taken_at = h;
  other_at =
      ap
        (λ c. find_block s.count 0 s.names (
          name_or (if c then (if str_eq other name then none else some other) else some name) name))
        ((eq_iff name name).1 refl)
      ∙ ap (λ c. find_block s.count 0 s.names (name_or (if c then none else some other) name)) e
      ∙ k;
}

found-HasTargets :
    (full : List McBasicBlock) (s : Lifter) (ia : McInstrAnalysis) (i t : ℕ) (next : McBasicBlock)
    (name : String)
    → ((n : String) → find_block s.count 0 s.names n ≡ find_block_by_name full 0 n)
    → find_block_by_name full 0 name ≡ some t
    → get_elem? full (suc i) ≡ some next
    → find_block_by_name full 0 next.name ≡ some (suc i)
    → HasTargets (record s { succs = names_of ia full (add_succ (t ∷ []) (suc i)) }) name t (suc i)
unfolding add_succ other_successor
found-HasTargets full s ia i t next name same at n first =
    let a = find-At full 0 t name at in
    let got : get_elem? full t ≡ some a.block =
      ap (λ k. get_elem? full k) (let z : t ≡ a.place = (let y = a.place_eq in omega arith) in z)
      ∙ a.get_eq in
    elim (Bool-cases (t == suc i)) [
      | inl e ↦
          let ns : names_of ia full (add_succ (t ∷ []) (suc i)) ≡ name ∷ [] =
            ap (names_of ia full) (if-true (t == suc i) (t ∷ []) (t ∷ suc i ∷ []) e)
            ∙ ap (λ (o : Option McBasicBlock). elim o [ none ↦ [] | some b ↦ b.name ∷ [] ]) got
            ∙ ap (λ m. m ∷ []) a.name_eq in
          subst (λ l. HasTargets (record s { succs = l }) name t (suc i)) (sym ns)
            (one-HasTargets s name t (suc i) (same name ∙ at) ((==_iff t (suc i)).0 e))
      | inr e ↦
          let ns : names_of ia full (add_succ (t ∷ []) (suc i)) ≡ name ∷ next.name ∷ [] =
            ap (names_of ia full) (if-false (t == suc i) (t ∷ []) (t ∷ suc i ∷ []) e)
            ∙ ap₂
                (λ (o p : Option McBasicBlock). elim o [
                  | none ↦ elim p [ none ↦ [] | some c ↦ c.name ∷ [] ]
                  | some b ↦ b.name ∷ elim p [ none ↦ [] | some c ↦ c.name ∷ [] ]
                ])
                got n
            ∙ ap (λ m. m ∷ next.name ∷ []) a.name_eq in
          let other : str_eq next.name name ≡ false = elim (Bool-cases (str_eq next.name name)) [
            | inl q ↦
                let same_name : next.name ≡ name = (eq_iff next.name name).0 q in
                let same_place : suc i ≡ t =
                  some-injective (suc i) t
                    (sym first ∙ ap (find_block_by_name full 0) same_name ∙ at) in
                absurd (
                  let b : (t == suc i) ≡ true = (==_iff t (suc i)).1 (sym same_place) in
                  let c : true ≡ false = sym b ∙ e in cc)
            | inr q ↦ q
          ] in
          subst (λ l. HasTargets (record s { succs = l }) name t (suc i)) (sym ns)
            (two-HasTargets s name next.name t (suc i) (same name ∙ at) (same next.name ∙ first)
              other)
    ]

-- Where a block that is not the last one ends in a conditional branch to a label, and the next block
-- is the first of its name, completing the blocks and then creating them for lifting gives a
-- state in which the targets of the branch are the block of that label and the next block.
pub generate_successors-HasTargets :
    (ia : McInstrAnalysis) (bbs out : List McBasicBlock) (i t : ℕ) (b next : McBasicBlock)
    (last : McInst) (name : String) (s₀ : Lifter)
    → generate_successors ia bbs ≡ ok out
    → get_elem? bbs i ≡ some b
    → last? b.instrs ≡ some last
    → ia.is_conditional_branch last ≡ true
    → ia.is_unconditional_branch last ≡ false
    → find_target_label last.operands ≡ ok name
    → find_block_by_name bbs 0 name ≡ some t
    → get_elem? bbs (suc i) ≡ some next
    → find_block_by_name bbs 0 next.name ≡ some (suc i)
    → s₀.count ≡ 0
    → HasCreatedTargets out s₀ i name t (suc i)
unfolding generate_successors
generate_successors-HasTargets ia bbs out i t b next last name s₀ g h l c u target at n first z =
    let made = create_bbs-Created s₀ out in
    let place = Generated-at ia bbs 0 bbs out i b g h in
    let ks : place.places ≡ add_succ (t ∷ []) (suc i) =
      ok-injective place.places (add_succ (t ∷ []) (suc i)) (
        sym place.succs_eq
        ∙ ap (λ k. successors ia bbs k b) (let y : 0 + i ≡ i = omega arith in y)
        ∙ conditional-successors ia bbs i t b next last name l c u target at n) in
    let same : (m : String)
        → find_block made.after.count 0 made.after.names m ≡ find_block_by_name bbs 0 m =
      λ m.
        ap (λ k. find_block k 0 made.after.names m)
          (let y : made.after.count ≡ length out = (let c = made.count_eq in omega arith) in y)
        ∙ find-Named out 0 made.after.names m
            (subst (λ k. Named out k made.after.names) z made.named)
        ∙ same_names ia bbs 0 bbs out 0 m g in
    record {
      after = made.after;
      block = record b { succs = names_of ia bbs place.places };
      created = made.created;
      at = place.at;
      targets =
          subst (λ ps. HasTargets (record made.after { succs = names_of ia bbs ps }) name t (suc i))
            (sym ks) (found-HasTargets bbs made.after ia i t next name same at n first);
    }
