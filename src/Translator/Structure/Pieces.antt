-- ===== src/Translator/Structure/Pieces.antt =====
-- What the pieces of a statement list's code are, and how they go together. The statement list is
-- StatementListL of oplt/stran/OT_PARSE.CPP, the structures are those of oplt/stran/OT_STRUC.CPP.
use mathlib.Core.Path.{subst}
use opl_dev.Prelude.{ℕ, ◌+◌, ◌*◌, ◌≤◌, ◌<◌, ◌≡◌, refl, ◌==◌, arith}
use opl_dev.Prelude.Outcome.{Leaves}
use opl_dev.Translator.Structure.{BranchKind, Front, Module, ReservedWord, branch, set_branch}
use opl_dev.Translator.Structure.Segments.{AllRefer-weaken, one_if, inside, Target, SameBranches}
use opl_dev.Translator.Structure.Runs.{Run, Wrote, Run-compose}
use opl_dev.Translator.Structure.Steps.{LawfulFront, left, set_branch-Run}

module _ (fr : Front) (lf : LawfulFront fr) where
  abbrev pub first : Module fr → ℕ
  first m = m.branches.next_branch

  -- A piece of code that uses `g` branch numbers: it defines the label of each of them once, and no
  -- other internal label, and its branches go to these or are a BREAK or a CONTINUE of the loop
  -- around it.
  abbrev pub Closed : ℕ → Module fr → Module fr → Type 0
  Closed g m m' =
      Wrote fr lf.law.size (inside (first m) (first m + g))
        (Target (first m) (first m + g) m.branches) m m'

  -- A statement list, up to the word behind it, has been parsed.
  abbrev pub Listed : Module fr → ReservedWord × Module fr → Type 0
  Listed m r =
      (g : ℕ) × Closed g m r.1
      × SameBranches m.branches r.1.branches
      × (first r.1 ≡ first m + g)
      × (g + 3 * left fr lf r.1 + 3 ≤ 3 * left fr lf m)

  -- Source shorter than `n`, and a number for each branch that it can need.
  abbrev pub Fits : ℕ → Module fr → Type 0
  Fits n m = (left fr lf m < n) × (first m + 3 * left fr lf m < 0x1_0000_0000)

  -- A structure has been parsed, behind its first word.
  abbrev pub Built : Module fr → Module fr → Type 0
  Built m m' =
      (g : ℕ) × Closed g m m'
      × (m'.branches.loop ≡ m.branches.loop)
      × (m'.branches.depth ≡ m.branches.depth)
      × (first m' ≡ first m + g)
      × (g + 3 * left fr lf m' ≤ 3 * left fr lf m + 3)
      × (left fr lf m' ≤ left fr lf m)

  -- A run whose branches go to targets of the structure around it
  abbrev pub Piece : (ℕ → Type 0) → ℕ → (ℕ → ℕ) → Module fr → Module fr → Type 0
  Piece Q g d m m' = Run fr lf.law.size g d Q m m'

  pub Piece-weaken :
      (P Q : ℕ → Type 0) (g : ℕ) (d : ℕ → ℕ) (m m' : Module fr)
      → ((k : ℕ) → P k → Q k)
      → Piece P g d m m'
      → Piece Q g d m m'
  Piece-weaken P Q g d m m' f ((seg, c, n, r), same, spends) =
      ((seg, c, n, AllRefer-weaken P Q seg f r), same, spends)

  pub Piece-then :
      (Q : ℕ → Type 0) (g g' : ℕ) (d d' : ℕ → ℕ) (m m' m'' : Module fr)
      → Piece Q g d m m'
      → Piece Q g' d' m' m''
      → Piece Q (g + g') (λ n. d n + d' n) m m''
  Piece-then Q g g' d d' m m' m'' r r' =
      Run-compose fr lf.law.size g g' (g + g') d d' (λ n. d n + d' n) Q Q Q m m' m'' (λ n. refl)
        (λ k p. p) (λ k p. p) refl r r'

  pub Listed-Piece :
      (Q : ℕ → Type 0) (m : Module fr) (r : ReservedWord × Module fr) (l : Listed m r)
      → ((k : ℕ) → Target (first m) (first m + l.0) m.branches k → Q k)
      → Piece Q l.0 (inside (first m) (first m + l.0)) m r.1
  Listed-Piece Q m r (g, w, same, n, used) f =
      Piece-weaken (Target (first m) (first m + g) m.branches) Q g (inside (first m) (first m + g))
        m r.1 f (w, same, (n, omega (arith, used), omega (arith, used)))

  pub set-Piece :
      (k : BranchKind) (m : Module fr) (b : ℕ)
      → branch k m.branches ≡ b
      → b < 0x1_0000_0000
      → Leaves (Piece (λ k. ⊥) 0 (λ n. one_if (b == n)) m) (set_branch fr k m)
  set-Piece k m b e lt =
      subst (λ b. Leaves (Piece (λ k. ⊥) 0 (λ n. one_if (b == n)) m) (set_branch fr k m)) e
        (set_branch-Run fr lf k m (omega (arith, e, lt)))

  -- From nothing to all branches
  pub any :
      (Q : ℕ → Type 0) (g : ℕ) (d : ℕ → ℕ) (m m' : Module fr)
      → Piece (λ k. ⊥) g d m m'
      → Piece Q g d m m'
  any Q g d m m' r = Piece-weaken (λ k. ⊥) Q g d m m' (λ k p. absurd p) r
