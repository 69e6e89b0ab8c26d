-- ===== src/Lifter/Divide/Fill.antt =====
-- Code in several new blocks, filled one after the other.
use bpf_tv.Common.{
  ℕ, zero, suc, ◌+◌, ◌<◌, ◌≤◌, ◌≡◌, ◌≢◌, refl, sym, ap, ◌∙◌, List, [], ◌∷◌, ◌++◌, arith, update,
  update_self, update_ne, some, length,
}
use native.Mathlib.Decide.{ℕ_discrete}
use bpf_tv.Llvm.Ir.{Instr}
use bpf_tv.Llvm.LangRef.{LangRef}
use bpf_tv.Llvm.Exec.{Machine, run, run_block}
use bpf_tv.Lifter.State.{Lifter}
use bpf_tv.Lifter.Emits.{emits, emits-blocks, emits-blocks_ne}

-- `k` new blocks without a name.
abbrev pub create_blocks : ℕ → Lifter → Lifter
create_blocks zero s = s
create_blocks (suc k) s = create_blocks k (record s {
  count = suc s.count;
  names = update s.names s.count "";
  blocks = update s.blocks s.count [];
})

-- Put each list into a block, from block `j` on.
abbrev pub fill : List (List Instr) → ℕ → Lifter → Lifter
fill [] j s = s
fill (c ∷ cs) j s = fill cs (suc j) (emits c (record s { bb = j }))

pub fill-below :
    (cs : List (List Instr)) (j b : ℕ) (s : Lifter) → b < j → (fill cs j s).blocks b ≡ s.blocks b
fill-below [] j b s h = refl
fill-below (c ∷ cs) j b s h =
    fill-below cs (suc j) b (emits c (record s { bb = j })) (omega arith)
    ∙ emits-blocks_ne c (record s { bb = j }) b (λ e. omega arith)

pub fill-at :
    (c : List Instr) (cs : List (List Instr)) (j : ℕ) (s : Lifter)
    → (fill (c ∷ cs) j s).blocks j ≡ s.blocks j ++ c
fill-at c cs j s =
    fill-below cs (suc j) j (emits c (record s { bb = j })) (omega arith)
    ∙ emits-blocks c (record s { bb = j })

pub create_blocks-below :
    (k b : ℕ) (s : Lifter) → b < s.count → (create_blocks k s).blocks b ≡ s.blocks b
create_blocks-below zero b s h = refl
create_blocks-below (suc k) b s h =
    create_blocks-below k b _ (omega arith) ∙ update_ne s.blocks s.count b [] (λ e. omega arith)

pub create_blocks-names :
    (k b : ℕ) (s : Lifter) → b < s.count → (create_blocks k s).names b ≡ s.names b
create_blocks-names zero b s h = refl
create_blocks-names (suc k) b s h =
    create_blocks-names k b _ (omega arith) ∙ update_ne s.names s.count b "" (λ e. omega arith)

pub fill-above :
    (cs : List (List Instr)) (j b : ℕ) (s : Lifter)
    → j + length cs ≤ b
    → (fill cs j s).blocks b ≡ s.blocks b
fill-above [] j b s h = refl
fill-above (c ∷ cs) j b s h =
    fill-above cs (suc j) b (emits c (record s { bb = j })) (omega arith)
    ∙ emits-blocks_ne c (record s { bb = j }) b (λ e. omega arith)

pub create_blocks-fresh :
    (k b : ℕ) (s : Lifter) → s.count ≤ b → b < s.count + k → (create_blocks k s).blocks b ≡ []
create_blocks-fresh zero b s l h = absurd (omega arith)
create_blocks-fresh (suc k) b s l h = elim (ℕ_discrete b s.count) [
  | yes e ↦
      create_blocks-below k b _ (omega arith)
      ∙ ap (update s.blocks s.count []) e
      ∙ update_self s.blocks s.count []
  | no n ↦ create_blocks-fresh k b _ (omega arith) (omega arith)
]

create_blocks-bb : (k : ℕ) (s : Lifter) → (create_blocks k s).bb ≡ s.bb
create_blocks-bb zero s = refl
create_blocks-bb (suc k) s = create_blocks-bb k _

at_head :
    (k : ℕ) (s : Lifter) (head : List Instr)
    → (emits head (create_blocks k s)).blocks s.bb ≡ (create_blocks k s).blocks s.bb ++ head
at_head k s head =
    ap (emits head (create_blocks k s)).blocks (sym (create_blocks-bb k s))
    ∙ emits-blocks head (create_blocks k s)
    ∙ ap (λ b. (create_blocks k s).blocks b ++ head) (create_blocks-bb k s)

module _ (s : Lifter) (k : ℕ) (head : List Instr) (live : s.bb < s.count) where
  -- The block at hand goes on with `head`, a new one holds its list, and no other changes.
  pub blocks-start :
      (cs : List (List Instr))
      → (fill cs s.count (emits head (create_blocks k s))).blocks s.bb ≡ s.blocks s.bb ++ head
  blocks-start cs =
      fill-below cs s.count s.bb (emits head (create_blocks k s)) live
      ∙ at_head k s head
      ∙ ap (λ (l : List Instr). l ++ head) (create_blocks-below k s.bb s live)

  pub blocks-new :
      (cs : List (List Instr)) (c : List Instr) (rest : List (List Instr)) (b : ℕ)
      → s.count + length cs ≡ b
      → b < s.count + k
      → (fill (c ∷ rest) b (fill cs s.count (emits head (create_blocks k s)))).blocks b ≡ c
  blocks-new cs c rest b e h =
      fill-at c rest b (fill cs s.count (emits head (create_blocks k s)))
      ∙ ap (λ (l : List Instr). l ++ c)
          (fill-above cs s.count b (emits head (create_blocks k s)) (omega arith)
            ∙ emits-blocks_ne head (create_blocks k s) b
                (λ p. omega (arith, create_blocks-bb k s, p))
            ∙ create_blocks-fresh k b s (omega arith) h)

  pub blocks-old :
      (cs : List (List Instr)) (b : ℕ)
      → b ≢ s.bb
      → b < s.count
      → (fill cs s.count (emits head (create_blocks k s))).blocks b ≡ s.blocks b
  blocks-old cs b ne l =
      fill-below cs s.count b (emits head (create_blocks k s)) l
      ∙ emits-blocks_ne head (create_blocks k s) b (λ p. ne (p ∙ create_blocks-bb k s))
      ∙ create_blocks-below k b s l

pub run-branch :
    (L : LangRef) (B : ℕ → List Instr) (f b t : ℕ) (is : List Instr) (m m' : Machine)
    → run_block L is m ≡ some (some t, m')
    → run L B (suc f) b is m ≡ run L B f t (B t) m'
unfolding run
run-branch L B f b t is m m' h = rw h
