-- ===== src/Translator/Structure/Loops.antt =====
-- oplt/stran/OT_STRUC.CPP: the DO and WHILE structures.
use opl_dev.Prelude.{ℕ, suc, ◌+◌, ◌*◌, ◌≤◌, ◌<◌, ◌++◌, ◌≡◌, refl, ap, ◌∙◌, inl, inr, ◌==◌, arith}
use opl_dev.Prelude.Outcome.{Outcome, ok, leave, ◌>>=◌, Leaves, Leaves-bind, structure_fault}
use opl_dev.Translator.Structure.{
  Front, Module, ReservedWord, until_word, end_wh, false_branch, break_branch, continue_branch,
  set_branch, conditional_expression, do_branch_always, need_branch, new_branch,
}
use opl_dev.Translator.Structure.Parse.{enter_loop, leave_loop, do_structure, while_structure}
use opl_dev.Translator.Structure.Segments.{one_if, inside, Target}
use opl_dev.Translator.Structure.Steps.{
  LawfulFront, left, GoesTo, conditional_expression-GoesTo, do_branch_always-GoesTo,
}
use opl_dev.Translator.Structure.Pieces.{
  first, Listed, Fits, Built, Piece, Piece-weaken, Piece-then, Listed-Piece, set-Piece, any,
}

module _ (fr : Front) (lf : LawfulFront fr) where
  -- The state in which a loop's code begins
  abbrev Entered : Module fr → Module fr → Type 0
  Entered m m₀ =
      (m₀.code ≡ m.code)
      × (m₀.lexer ≡ m.lexer)
      × (m₀.branches.loop ≡ suc m.branches.loop)
      × (m₀.branches.depth ≡ m.branches.depth)
      × (first fr lf m₀ ≡ first fr lf m + 3)
      × (m₀.branches.false_at ≡ first fr lf m + 2)
      × (m₀.branches.break_at ≡ first fr lf m + 1)
      × (m₀.branches.continue_at ≡ first fr lf m)

  enter_loop-Entered :
      (m : Module fr) → first fr lf m + 3 < 0x1_0000_0000 → Entered m (enter_loop fr m)
  unfolding enter_loop need_branch new_branch
  enter_loop-Entered m lt =
      (refl, refl, refl, refl, omega (arith, lt), omega (arith, lt), omega (arith, lt), refl)

  loop_sum :
      (lo g a n : ℕ)
      → a ≡ lo + 3
      → one_if (lo + 2 == n) + inside a (a + g) n + one_if (lo == n) + 0 + one_if (lo + 1 == n)
        ≡ inside lo (lo + (3 + g)) n
  loop_sum lo g a n e = ground arith

  while_sum :
      (lo g a n : ℕ)
      → a ≡ lo + 3
      → one_if (lo == n) + 0 + inside a (a + g) n + 0 + one_if (lo + 1 == n) + one_if (lo + 2 == n)
        ≡ inside lo (lo + (3 + g)) n
  while_sum lo g a n e = ground arith

  -- What a loop does at its end, as a whole
  loop-Built :
      (m m₀ m₅ : Module fr) (h g : ℕ) (d : ℕ → ℕ)
      → Entered m m₀
      → h ≡ g
      → ((n : ℕ) → d n ≡ inside (first fr lf m) (first fr lf m + (3 + g)) n)
      → Piece fr lf (Target (first fr lf m) (first fr lf m + (3 + g)) m.branches) h d m₀ m₅
      → Built fr lf m (leave_loop fr m₅)
  loop-Built m m₀ m₅ h g d e hg sum ((seg, c, n, r), same, spends) =
      let l : left fr lf m₀ ≡ left fr lf m = ap lf.law.size e.1 in
      (
        3 + g,
        (seg, c ∙ ap (λ x. x ++ seg) e.0, (λ k lt. n k lt ∙ sum k), r),
        omega (arith, same.0, e.2),
        same.1 ∙ e.3,
        omega (arith, spends.0, e.4, hg),
        omega (arith, spends.1, l, hg),
        omega (arith, spends.2, l),
      )

  -- Targets of the list within a loop are targets of the loop.
  Target-loop :
      (m m₁ : Module fr) (g k : ℕ)
      → (first fr lf m₁ ≡ first fr lf m + 3)
      → (m₁.branches.break_at ≡ first fr lf m + 1)
      → (m₁.branches.continue_at ≡ first fr lf m)
      → Target (first fr lf m₁) (first fr lf m₁ + g) m₁.branches k
      → Target (first fr lf m) (first fr lf m + (3 + g)) m.branches k
  Target-loop m m₁ g k n b c (inl h) = inl (omega (arith, h, n), omega (arith, h, n))
  Target-loop m m₁ g k n b c (inr (l, inl h)) = inl (omega (arith, h, b), omega (arith, h, b))
  Target-loop m m₁ g k n b c (inr (l, inr h)) = inl (omega (arith, h, c), omega (arith, h, c))

  Target-own :
      (m : Module fr) (g j k b : ℕ)
      → j < 3
      → b ≡ first fr lf m + j
      → k ≡ b
      → Target (first fr lf m) (first fr lf m + (3 + g)) m.branches k
  Target-own m g j k b lt e h = inl (omega (arith, lt, e, h), omega (arith, lt, e, h))

  Leaves-until :
      (P : Module fr → Type 0) (w : ReservedWord) (o : Outcome (Module fr))
      → Leaves P o
      → Leaves P (elim w [ until_word ↦ o | w ↦ leave structure_fault ])
  Leaves-until P until_word o h = h
  Leaves-until P w o h = tt

  Leaves-end_wh :
      (P : Module fr → Type 0) (w : ReservedWord) (o : Outcome (Module fr))
      → Leaves P o
      → Leaves P (elim w [ end_wh ↦ o | w ↦ leave structure_fault ])
  Leaves-end_wh P end_wh o h = h
  Leaves-end_wh P w o h = tt

  -- The pieces of a DO structure, and of a WHILE structure, make a closed whole.
  do_pieces :
      (m m₀ m₁ m₂ m₃ m₄ m₅ : Module fr) (g : ℕ)
      → Entered m m₀
      → first fr lf m₁ ≡ first fr lf m + 3
      → Piece fr lf (λ k. ⊥) 0 (λ n. one_if (first fr lf m + 2 == n)) m₀ m₁
      → Piece fr lf
          (Target (first fr lf m) (first fr lf m + (3 + g)) m.branches)
          g
          (inside (first fr lf m₁) (first fr lf m₁ + g))
          m₁
          m₂
      → Piece fr lf (λ k. ⊥) 0 (λ n. one_if (first fr lf m == n)) m₂ m₃
      → Piece fr lf (Target (first fr lf m) (first fr lf m + (3 + g)) m.branches) 0 (λ n. 0) m₃ m₄
      → Piece fr lf (λ k. ⊥) 0 (λ n. one_if (first fr lf m + 1 == n)) m₄ m₅
      → Built fr lf m (leave_loop fr m₅)
  do_pieces m m₀ m₁ m₂ m₃ m₄ m₅ g e n₁ r₁ r₂ r₃ r₄ r₅ =
      let Q = Target (first fr lf m) (first fr lf m + (3 + g)) m.branches in
      loop-Built m m₀ m₅ _ g _ e (omega arith)
        (λ n. loop_sum (first fr lf m) g (first fr lf m₁) n n₁)
        (Piece-then fr lf Q _ _ _ _ m₀ m₄ m₅
          (Piece-then fr lf Q _ _ _ _ m₀ m₃ m₄
            (Piece-then fr lf Q _ _ _ _ m₀ m₂ m₃
              (Piece-then fr lf Q _ _ _ _ m₀ m₁ m₂ (any fr lf Q _ _ m₀ m₁ r₁) r₂)
              (any fr lf Q _ _ m₂ m₃ r₃))
            r₄)
          (any fr lf Q _ _ m₄ m₅ r₅))

  while_pieces :
      (m m₀ m₁ m₂ m₃ m₄ m₅ m₆ : Module fr) (g : ℕ)
      → Entered m m₀
      → first fr lf m₂ ≡ first fr lf m + 3
      → Piece fr lf (λ k. ⊥) 0 (λ n. one_if (first fr lf m == n)) m₀ m₁
      → Piece fr lf (Target (first fr lf m) (first fr lf m + (3 + g)) m.branches) 0 (λ n. 0) m₁ m₂
      → Piece fr lf
          (Target (first fr lf m) (first fr lf m + (3 + g)) m.branches)
          g
          (inside (first fr lf m₂) (first fr lf m₂ + g))
          m₂
          m₃
      → Piece fr lf (Target (first fr lf m) (first fr lf m + (3 + g)) m.branches) 0 (λ n. 0) m₃ m₄
      → Piece fr lf (λ k. ⊥) 0 (λ n. one_if (first fr lf m + 1 == n)) m₄ m₅
      → Piece fr lf (λ k. ⊥) 0 (λ n. one_if (first fr lf m + 2 == n)) m₅ m₆
      → Built fr lf m (leave_loop fr m₆)
  while_pieces m m₀ m₁ m₂ m₃ m₄ m₅ m₆ g e n₂ r₁ r₂ r₃ r₄ r₅ r₆ =
      let Q = Target (first fr lf m) (first fr lf m + (3 + g)) m.branches in
      loop-Built m m₀ m₆ _ g _ e (omega arith)
        (λ n. while_sum (first fr lf m) g (first fr lf m₂) n n₂)
        (Piece-then fr lf Q _ _ _ _ m₀ m₅ m₆
          (Piece-then fr lf Q _ _ _ _ m₀ m₄ m₅
            (Piece-then fr lf Q _ _ _ _ m₀ m₃ m₄
              (Piece-then fr lf Q _ _ _ _ m₀ m₂ m₃
                (Piece-then fr lf Q _ _ _ _ m₀ m₁ m₂ (any fr lf Q _ _ m₀ m₁ r₁) r₂) r₃)
              r₄)
            (any fr lf Q _ _ m₄ m₅ r₅))
          (any fr lf Q _ _ m₅ m₆ r₆))

  -- The end of a WHILE structure
  while_end :
      (m m₀ m₁ m₂ : Module fr) (r : ReservedWord × Module fr)
      → Entered m m₀
      → first fr lf m₂ ≡ first fr lf m + 3
      → first fr lf m + 3 < 0x1_0000_0000
      → Piece fr lf (λ k. ⊥) 0 (λ n. one_if (first fr lf m == n)) m₀ m₁
      → GoesTo fr lf m₁.branches.false_at m₁ m₂
      → Listed fr lf m₂ r
      → Leaves (Built fr lf m) (
          set_branch fr break_branch (do_branch_always fr continue_branch r.1) >>= λ m₅.
          set_branch fr false_branch m₅ >>= λ m₆. ok (leave_loop fr m₆))
  while_end m m₀ m₁ m₂ r e n₂ big r₁ r₂ h =
      let lo = first fr lf m in
      let g = h.0 in
      let Q = Target lo (lo + (3 + g)) m.branches in
      let m₃ = r.1 in
      let m₄ = do_branch_always fr continue_branch m₃ in
      let r₃ =
        Listed-Piece fr lf Q m₂ r h
          (λ k t. Target-loop m m₂ g k n₂ (r₂.1.3 ∙ r₁.1.3 ∙ e.6) (r₂.1.4 ∙ r₁.1.4 ∙ e.7) t) in
      let r₄ = do_branch_always-GoesTo fr lf continue_branch m₃ in
      let goes₂ : Piece fr lf Q 0 (λ n. 0) m₁ m₂ =
        Piece-weaken fr lf (λ k. k ≡ m₁.branches.false_at) Q 0 (λ n. 0) m₁ m₂
          (λ k. Target-own m g 2 k m₁.branches.false_at (omega arith) (r₁.1.2 ∙ e.5)) r₂ in
      let goes₄ : Piece fr lf Q 0 (λ n. 0) m₃ m₄ =
        Piece-weaken fr lf (λ k. k ≡ m₃.branches.continue_at) Q 0 (λ n. 0) m₃ m₄
          (λ k.
            Target-own m g 0 k m₃.branches.continue_at (omega arith)
              (omega (arith, r₃.1.4, r₂.1.4, r₁.1.4, e.7)))
          r₄ in
      Leaves-bind (Built fr lf m) (set_branch fr break_branch m₄) _
        (set-Piece fr lf break_branch m₄ (lo + 1) (r₄.1.3 ∙ r₃.1.3 ∙ r₂.1.3 ∙ r₁.1.3 ∙ e.6)
          (omega (arith, big)))
        λ m₅ r₅.
          Leaves-bind (Built fr lf m) (set_branch fr false_branch m₅) _
            (set-Piece fr lf false_branch m₅ (lo + 2)
              (r₅.1.2 ∙ r₄.1.2 ∙ r₃.1.2 ∙ r₂.1.2 ∙ r₁.1.2 ∙ e.5) (omega (arith, big)))
            λ m₆ r₆. while_pieces m m₀ m₁ m₂ m₃ m₄ m₅ m₆ g e n₂ r₁ goes₂ r₃ goes₄ r₅ r₆

  module _ (fuel : ℕ) (body : Module fr → Outcome (ReservedWord × Module fr))
      (b : (m' : Module fr) → Fits fr lf fuel m' → Leaves (Listed fr lf m') (body m')) where
    pub do_structure-Built :
        (m : Module fr)
        → left fr lf m < fuel
        → first fr lf m + 3 * left fr lf m + 3 < 0x1_0000_0000
        → Leaves (Built fr lf m) (do_structure fr body fuel m)
    unfolding do_structure
    do_structure-Built m lt big =
        let lo = first fr lf m in
        let m₀ = enter_loop fr m in
        let e = enter_loop-Entered m (omega (arith, big)) in
        let l : left fr lf m₀ ≡ left fr lf m = ap lf.law.size e.1 in
        Leaves-bind (Built fr lf m) (set_branch fr false_branch m₀) _
          (set-Piece fr lf false_branch m₀ (lo + 2) e.5 (omega (arith, big)))
          λ m₁ r₁.
            let n₁ : first fr lf m₁ ≡ lo + 3 = omega (arith, r₁.2, e.4) in
            let l₁ : left fr lf m₁ ≤ left fr lf m = omega (arith, r₁.2, l) in
            Leaves-bind (Built fr lf m) (body m₁) _
              (b m₁ (omega (arith, l₁, lt), omega (arith, l₁, n₁, big)))
              λ r h.
                let g = h.0 in
                let Q = Target lo (lo + (3 + g)) m.branches in
                let r₂ =
                  Listed-Piece fr lf Q m₁ r h
                    (λ k t. Target-loop m m₁ g k n₁ (r₁.1.3 ∙ e.6) (r₁.1.4 ∙ e.7) t) in
                Leaves-until (Built fr lf m) r.0 _ (
                  Leaves-bind (Built fr lf m) (set_branch fr continue_branch r.1) _
                    (set-Piece fr lf continue_branch r.1 lo (r₂.1.4 ∙ r₁.1.4 ∙ e.7)
                      (omega (arith, big)))
                    λ m₃ r₃.
                      Leaves-bind (Built fr lf m) (conditional_expression fr fuel m₃) _
                        (conditional_expression-GoesTo fr lf fuel m₃
                          (omega (arith, r₃.2, r₂.2, l₁, lt)))
                        λ m₄ r₄.
                          Leaves-bind (Built fr lf m) (set_branch fr break_branch m₄) _
                            (set-Piece fr lf break_branch m₄ (lo + 1)
                              (r₄.1.3 ∙ r₃.1.3 ∙ r₂.1.3 ∙ r₁.1.3 ∙ e.6) (omega (arith, big)))
                            λ m₅ r₅.
                              do_pieces m m₀ m₁ r.1 m₃ m₄ m₅ g e n₁ r₁ r₂ r₃
                                (Piece-weaken fr lf (λ k. k ≡ m₃.branches.false_at) Q 0 (λ n. 0) m₃
                                  m₄
                                  (λ k h.
                                    Target-own m g 2 k m₃.branches.false_at (omega arith)
                                      (r₃.1.2 ∙ r₂.1.2 ∙ r₁.1.2 ∙ e.5) h)
                                  r₄)
                                r₅)

    pub while_structure-Built :
        (m : Module fr)
        → left fr lf m < fuel
        → first fr lf m + 3 * left fr lf m + 3 < 0x1_0000_0000
        → Leaves (Built fr lf m) (while_structure fr body fuel m)
    unfolding while_structure
    while_structure-Built m lt big =
        let lo = first fr lf m in
        let m₀ = enter_loop fr m in
        let e = enter_loop-Entered m (omega (arith, big)) in
        let l : left fr lf m₀ ≡ left fr lf m = ap lf.law.size e.1 in
        Leaves-bind (Built fr lf m) (set_branch fr continue_branch m₀) _
          (set-Piece fr lf continue_branch m₀ lo e.7 (omega (arith, big)))
          λ m₁ r₁.
            Leaves-bind (Built fr lf m) (conditional_expression fr fuel m₁) _
              (conditional_expression-GoesTo fr lf fuel m₁ (omega (arith, r₁.2, l, lt)))
              λ m₂ r₂.
                let n₂ : first fr lf m₂ ≡ lo + 3 = omega (arith, r₂.2, r₁.2, e.4) in
                let l₂ : left fr lf m₂ ≤ left fr lf m = omega (arith, r₂.2, r₁.2, l) in
                Leaves-bind (Built fr lf m) (body m₂) _
                  (b m₂ (omega (arith, l₂, lt), omega (arith, l₂, n₂, big)))
                  λ r h.
                    Leaves-end_wh (Built fr lf m) r.0 _
                      (while_end m m₀ m₁ m₂ r e n₂ (omega (arith, big)) r₁ r₂ h)
