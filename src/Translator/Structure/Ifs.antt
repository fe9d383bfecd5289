-- ===== src/Translator/Structure/Ifs.antt =====
-- oplt/stran/OT_STRUC.CPP: the IF structure.
use mathlib.Core.Path.{subst}
use opl_dev.Prelude.{
  ℕ, zero, suc, ◌+◌, ◌*◌, ◌≤◌, ◌<◌, ◌++◌, ◌≡◌, refl, sym, ap, ◌∙◌, ◌⊎◌, inl, inr, ◌==◌, arith,
}
use opl_dev.Prelude.Outcome.{Outcome, ok, Leaves, Leaves-bind, Leaves-weaken}
use opl_dev.Translator.Structure.{
  Front, Module, Branches, ReservedWord, else_if, end_if, false_branch, exit_branch, set_branch,
  eos_l, conditional_expression, do_branch_always, need_branch, new_branch,
}
use opl_dev.Translator.Structure.Parse.{if_bodies, after_body}
use opl_dev.Translator.Structure.Segments.{one_if, inside, Target, SameBranches}
use opl_dev.Translator.Structure.Runs.{Wrote, Wrote-compose, Quiet-lexer}
use opl_dev.Translator.Structure.Steps.{
  LawfulFront, left, Still, GoesTo, eos_l-Still, conditional_expression-GoesTo,
  do_branch_always-GoesTo,
}
use opl_dev.Translator.Structure.Pieces.{
  Listed, Fits, Piece, Piece-weaken, Piece-then, Listed-Piece, set-Piece, any,
}

-- The numbers that an IF's code may branch to: its own from `lo` on, its exit, and those of the
-- loop around it
abbrev pub IfTarget : ℕ → ℕ → Branches → ℕ → Type 0
IfTarget lo hi b k = Target lo hi b k ⊎ (k ≡ b.exit_at)

-- An IF changes the number of its false branch only.
abbrev pub SameButFalse : Branches → Branches → Type 0
SameButFalse b b' =
    (b'.loop ≡ b.loop)
    × (b'.depth ≡ b.depth)
    × (b'.break_at ≡ b.break_at)
    × (b'.continue_at ≡ b.continue_at)
    × (b'.exit_at ≡ b.exit_at)

module _ (fr : Front) (lf : LawfulFront fr) where
  abbrev pub start : Module fr → ℕ
  start m = m.branches.next_branch

  -- A part of an IF that uses `g` branch numbers
  abbrev pub IfPiece : ℕ → Module fr → Module fr → Type 0
  IfPiece g m m' =
      Wrote fr lf.law.size (inside (start m) (start m + g))
        (IfTarget (start m) (start m + g) m.branches) m m'
      × SameButFalse m.branches m'.branches
      × (start m' ≡ start m + g)

  IfTarget-later :
      (b b' : Branches) (lo g g' lo' k : ℕ)
      → SameButFalse b b'
      → lo' ≡ lo + g
      → IfTarget lo' (lo' + g') b' k
      → IfTarget lo (lo + (g + g')) b k
  IfTarget-later b b' lo g g' lo' k s e (inl (inl h)) =
      inl (inl (omega (arith, h, e), omega (arith, h, e)))
  IfTarget-later b b' lo g g' lo' k s e (inl (inr (l, inl h))) =
      inl (inr (omega (arith, l, s.0), inl (h ∙ s.2)))
  IfTarget-later b b' lo g g' lo' k s e (inl (inr (l, inr h))) =
      inl (inr (omega (arith, l, s.0), inr (h ∙ s.3)))
  IfTarget-later b b' lo g g' lo' k s e (inr h) = inr (h ∙ s.4)

  IfTarget-wider :
      (b : Branches) (lo g g' k : ℕ) → IfTarget lo (lo + g) b k → IfTarget lo (lo + (g + g')) b k
  IfTarget-wider b lo g g' k (inl (inl h)) = inl (inl (omega (arith, h), omega (arith, h)))
  IfTarget-wider b lo g g' k (inl (inr h)) = inl (inr h)
  IfTarget-wider b lo g g' k (inr h) = inr h

  pub inside_sum :
      (lo a g g' n : ℕ)
      → a ≡ lo + g
      → inside lo (lo + g) n + inside a (a + g') n ≡ inside lo (lo + (g + g')) n
  inside_sum lo a g g' n e = ground arith

  pub IfPiece-then :
      (g g' : ℕ) (m m' m'' : Module fr)
      → IfPiece g m m'
      → IfPiece g' m' m''
      → IfPiece (g + g') m m''
  IfPiece-then g g' m m' m'' (w, s, n) (w', s', n') = (
    Wrote-compose fr lf.law.size (inside (start m) (start m + g))
        (inside (start m') (start m' + g')) (inside (start m) (start m + (g + g')))
        (IfTarget (start m) (start m + g) m.branches)
        (IfTarget (start m') (start m' + g') m'.branches)
        (IfTarget (start m) (start m + (g + g')) m.branches) m m' m''
        (λ k. inside_sum (start m) (start m') g g' k n)
        (λ k. IfTarget-wider m.branches (start m) g g' k)
        (λ k. IfTarget-later m.branches m'.branches (start m) g g' (start m') k s n) w w',
    (s'.0 ∙ s.0, s'.1 ∙ s.1, s'.2 ∙ s.2, s'.3 ∙ s.3, s'.4 ∙ s.4),
    omega (arith, n, n'),
  )

  body_sum :
      (lo g a n : ℕ)
      → a ≡ lo + 1
      → 0 + 0 + inside a (a + g) n + 0 + one_if (lo == n) ≡ inside lo (lo + (1 + g)) n
  body_sum lo g a n e = ground arith

  pub same_but : (b b' : Branches) → SameBranches b b' → SameButFalse b b'
  same_but b b' s = (s.0, s.1, s.3, s.4, s.5)

  Target-listed :
      (b b₁ : Branches) (lo a g k : ℕ)
      → SameButFalse b b₁
      → a ≡ lo + 1
      → Target a (a + g) b₁ k
      → IfTarget lo (lo + (1 + g)) b k
  Target-listed b b₁ lo a g k s e h = IfTarget-later b b₁ lo 1 g a k s e (inl h)

  -- The state in which an if-body begins
  abbrev Needed : Module fr → Module fr → Type 0
  Needed m m' =
      (m'.code ≡ m.code)
      × (m'.lexer ≡ m.lexer)
      × SameButFalse m.branches m'.branches
      × (start m' ≡ start m + 1)
      × (m'.branches.false_at ≡ start m)

  need_branch-Needed :
      (m : Module fr) → start m + 1 < 0x1_0000_0000 → Needed m (need_branch fr false_branch m)
  unfolding need_branch new_branch
  need_branch-Needed m lt = (refl, refl, (refl, refl, refl, refl, refl), omega (arith, lt), refl)

  -- The pieces of one if-body
  body_pieces :
      (m m₀ m₁ m₂ m₃ m₄ m₅ : Module fr) (g : ℕ)
      → Needed m m₀
      → start m₂ ≡ start m + 1
      → Piece fr lf (IfTarget (start m) (start m + (1 + g)) m.branches) 0 (λ n. 0) m₀ m₁
      → Still fr lf m₁ m₂
      → Piece fr lf
          (IfTarget (start m) (start m + (1 + g)) m.branches)
          g
          (inside (start m₂) (start m₂ + g))
          m₂
          m₃
      → Piece fr lf (IfTarget (start m) (start m + (1 + g)) m.branches) 0 (λ n. 0) m₃ m₄
      → Piece fr lf (λ k. ⊥) 0 (λ n. one_if (start m == n)) m₄ m₅
      → IfPiece (1 + g) m m₅
  body_pieces m m₀ m₁ m₂ m₃ m₄ m₅ g e n₂ r₁ r₂ r₃ r₄ r₅ =
      let Q = IfTarget (start m) (start m + (1 + g)) m.branches in
      let ((seg, c, n, r), same, spends) =
        Piece-then fr lf Q _ _ _ _ m₀ m₄ m₅
          (Piece-then fr lf Q _ _ _ _ m₀ m₃ m₄
            (Piece-then fr lf Q _ _ _ _ m₀ m₂ m₃
              (Piece-then fr lf Q _ _ _ _ m₀ m₁ m₂ r₁ (any fr lf Q _ _ m₁ m₂ r₂)) r₃)
            r₄)
          (any fr lf Q _ _ m₄ m₅ r₅) in
      let s = same_but m₀.branches m₅.branches same in
      (
        (
          seg,
          c ∙ ap (λ x. x ++ seg) e.0,
          (λ k lt. n k lt ∙ body_sum (start m) g (start m₂) k n₂),
          r,
        ),
        (s.0 ∙ e.2.0, s.1 ∙ e.2.1, s.2 ∙ e.2.2, s.3 ∙ e.2.3, s.4 ∙ e.2.4),
        omega (arith, spends.0, e.3),
      )

  after_body-Piece :
      (Q : ℕ → Type 0) (end : ReservedWord) (m : Module fr)
      → Q m.branches.exit_at
      → Piece fr lf Q 0 (λ n. 0) m (after_body fr end m)
  after_body-Piece Q end_if m q =
      any fr lf Q 0 (λ n. 0) m m (Quiet-lexer fr lf.law.size m m refl refl (omega arith))
  after_body-Piece Q w m q =
      Piece-weaken fr lf (λ k. k ≡ m.branches.exit_at) Q 0 (λ n. 0) m
        (do_branch_always fr exit_branch m) (λ k e. subst Q (sym e) q)
        (do_branch_always-GoesTo fr lf exit_branch m)

  -- The if-bodies that were parsed, one or more
  abbrev pub IfRun : Module fr → ReservedWord × Module fr → Type 0
  IfRun m r =
      (g : ℕ) × IfPiece g m r.1
      × (g + 3 * left fr lf r.1 ≤ 3 * left fr lf m + 1)
      × (left fr lf r.1 ≤ left fr lf m)

  IfRun-then :
      (m m' : Module fr) (g : ℕ) (r : ReservedWord × Module fr)
      → IfPiece g m m'
      → g + 3 * left fr lf m' + 2 ≤ 3 * left fr lf m
      → IfRun m' r
      → IfRun m r
  IfRun-then m m' g r p l (g', p', l', k) =
      (g + g', IfPiece-then g g' m m' r.1 p p', omega (arith, l, l'), omega (arith, l, k))

  one_body :
      (m m₀ m₁ m₂ m₃ : Module fr) (end : ReservedWord)
      → Needed m m₀
      → start m < 0x1_0000_0000
      → GoesTo fr lf m₀.branches.false_at m₀ m₁
      → Still fr lf m₁ m₂
      → Listed fr lf m₂ (end, m₃)
      → Leaves
          (λ m₅. (g : ℕ) × IfPiece g m m₅ × (g + 3 * left fr lf m₅ + 2 ≤ 3 * left fr lf m))
          (set_branch fr false_branch (after_body fr end m₃))
  one_body m m₀ m₁ m₂ m₃ end e big r₁ r₂ h =
      let lo = start m in
      let g = h.0 in
      let Q = IfTarget lo (lo + (1 + g)) m.branches in
      let l : left fr lf m₀ ≡ left fr lf m = ap lf.law.size e.1 in
      let n₂ : start m₂ ≡ lo + 1 = omega (arith, r₂.2, r₁.2, e.3) in
      let same₂ : SameButFalse m.branches m₂.branches = (
        r₂.1.0 ∙ r₁.1.0 ∙ e.2.0,
        r₂.1.1 ∙ r₁.1.1 ∙ e.2.1,
        r₂.1.3 ∙ r₁.1.3 ∙ e.2.2,
        r₂.1.4 ∙ r₁.1.4 ∙ e.2.3,
        r₂.1.5 ∙ r₁.1.5 ∙ e.2.4,
      ) in
      let goes₁ : Piece fr lf Q 0 (λ n. 0) m₀ m₁ =
        Piece-weaken fr lf (λ k. k ≡ m₀.branches.false_at) Q 0 (λ n. 0) m₀ m₁
          (λ k h. inl (inl (omega (arith, h, e.4), omega (arith, h, e.4)))) r₁ in
      let r₃ =
        Listed-Piece fr lf Q m₂ (end, m₃) h
          (λ k. Target-listed m.branches m₂.branches lo (start m₂) g k same₂ n₂) in
      let m₄ = after_body fr end m₃ in
      let r₄ = after_body-Piece Q end m₃ (inr (r₃.1.5 ∙ same₂.4)) in
      Leaves-weaken (set_branch fr false_branch m₄)
        (λ m₅ r₅. (
          1 + g,
          body_pieces m m₀ m₁ m₂ m₃ m₄ m₅ g e n₂ goes₁ r₂ r₃ r₄ r₅,
          omega (arith, r₅.2, r₄.2, h, r₂.2, r₁.2, l),
        ))
        (set-Piece fr lf false_branch m₄ lo (r₄.1.2 ∙ r₃.1.2 ∙ r₂.1.2 ∙ r₁.1.2 ∙ e.4) big)

  Leaves-else_if :
      (P : ReservedWord × Module fr → Type 0) (w : ReservedWord)
      (o : Outcome (ReservedWord × Module fr)) (m : Module fr)
      → Leaves P o
      → ((w : ReservedWord) → P (w, m))
      → Leaves P (elim w [ else_if ↦ o | w ↦ ok (w, m) ])
  Leaves-else_if P else_if o m h k = h
  Leaves-else_if P w o m h k = k w

  module _ (fuel : ℕ) (body : Module fr → Outcome (ReservedWord × Module fr))
      (b : (m' : Module fr) → Fits fr lf fuel m' → Leaves (Listed fr lf m') (body m')) where
    pub if_bodies-IfRun :
        (f : ℕ) (m : Module fr)
        → left fr lf m < f
        → left fr lf m < fuel
        → start m + 3 * left fr lf m + 1 < 0x1_0000_0000
        → Leaves (IfRun m) (if_bodies fr body f m)
    unfolding if_bodies
    if_bodies-IfRun zero m lf' lt big = absurd (omega (arith, lf'))
    if_bodies-IfRun (suc f) m lf' lt big =
        let m₀ = need_branch fr false_branch m in
        let e = need_branch-Needed m (omega (arith, big)) in
        let l : left fr lf m₀ ≡ left fr lf m = ap lf.law.size e.1 in
        Leaves-bind (IfRun m) (conditional_expression fr (suc f) m₀) _
          (conditional_expression-GoesTo fr lf (suc f) m₀ (omega (arith, l, lf')))
          λ m₁ r₁. Leaves-bind (IfRun m) (eos_l fr m₁) _ (eos_l-Still fr lf m₁) λ m₂ r₂.
            let l₂ : left fr lf m₂ < left fr lf m = omega (arith, r₂.1, r₁.2, l) in
            let n₂ : start m₂ ≡ start m + 1 = omega (arith, r₂.0.2, r₁.2, e.3) in
            Leaves-bind (IfRun m) (body m₂) _
              (b m₂ (omega (arith, l₂, lt), omega (arith, l₂, n₂, big)))
              λ r h.
                Leaves-bind (IfRun m) (set_branch fr false_branch (after_body fr r.0 r.1)) _
                  (one_body m m₀ m₁ m₂ r.1 r.0 e (omega (arith, big)) r₁ r₂.0 h)
                  λ m₅ (g, p, used).
                    Leaves-else_if (IfRun m) r.0 (if_bodies fr body f m₅) m₅
                      (Leaves-weaken (if_bodies fr body f m₅)
                        (λ r' h'. IfRun-then m m₅ g r' p used h')
                        (if_bodies-IfRun f m₅ (omega (arith, used, lf')) (omega (arith, used, lt))
                          (omega (arith, used, p.2, big))))
                      λ w. (g, p, omega (arith, used), omega (arith, used))
