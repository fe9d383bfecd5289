-- ===== src/Translator/Structure/Exits.antt =====
-- oplt/stran/OT_STRUC.CPP: the IF structure as a whole, with ELSE and the label at its exit.
use opl_dev.Prelude.{ℕ, ◌+◌, ◌*◌, ◌≤◌, ◌<◌, [], ◌++◌, ◌≡◌, refl, ap, ◌∙◌, inl, inr, ◌==◌, arith}
use opl_dev.Prelude.Outcome.{Outcome, leave, Leaves, Leaves-bind, Leaves-weaken, structure_fault}
use opl_dev.Translator.Structure.{
  Front, Module, Branches, ReservedWord, else_word, end_if, exit_branch, set_branch, need_branch,
  new_branch,
}
use opl_dev.Translator.Structure.Parse.{if_bodies, if_structure, else_part}
use opl_dev.Translator.Structure.Segments.{AllRefer-weaken, one_if, inside, Target}
use opl_dev.Translator.Structure.Runs.{append_nil, Wrote-compose}
use opl_dev.Translator.Structure.Steps.{LawfulFront, left}
use opl_dev.Translator.Structure.Pieces.{Listed, Fits, Built, Piece, set-Piece}
use opl_dev.Translator.Structure.Ifs.{
  IfTarget, start, IfPiece, IfPiece-then, same_but, if_bodies-IfRun,
}

module _ (fr : Front) (lf : LawfulFront fr) where
  module _ (fuel : ℕ) (body : Module fr → Outcome (ReservedWord × Module fr))
      (b : (m' : Module fr) → Fits fr lf fuel m' → Leaves (Listed fr lf m') (body m')) where
    -- ELSE, where it is there
    abbrev ElseRun : Module fr → ReservedWord × Module fr → Type 0
    ElseRun m r =
        (g : ℕ) × IfPiece fr lf g m r.1
        × (g + 3 * left fr lf r.1 ≤ 3 * left fr lf m)
        × (left fr lf r.1 ≤ left fr lf m)

    else-ElseRun :
        (w : ReservedWord) (m : Module fr)
        → Fits fr lf fuel m
        → Leaves (ElseRun m) (else_part fr body w m)
    else-ElseRun else_word m fits =
        Leaves-weaken (body m)
          (λ r (g, (seg, c, n, a), s, e, used). (
            g,
            (
              (seg, c, n, AllRefer-weaken _ _ seg (λ k t. inl t) a),
              same_but fr lf m.branches r.1.branches s,
              e,
            ),
            omega (arith, used),
            omega (arith, used),
          ))
          (b m fits)
    else-ElseRun w m fits = (
      0,
      (
        ([], append_nil fr lf.law.size m.code, (λ n lt. none_inside (start fr lf m) n), tt),
        (refl, refl, refl, refl, refl),
        omega arith,
      ),
      omega arith,
      omega arith,
    )
      where
        none_inside : (lo n : ℕ) → 0 ≡ inside lo (lo + 0) n
        none_inside lo n = ground arith

    Leaves-end_if :
        (P : Module fr → Type 0) (w : ReservedWord) (o : Outcome (Module fr))
        → Leaves P o
        → Leaves P (elim w [ end_if ↦ o | w ↦ leave structure_fault ])
    Leaves-end_if P end_if o h = h
    Leaves-end_if P w o h = tt

    exit_sum :
        (lo a g n : ℕ)
        → a ≡ lo + 1
        → inside a (a + g) n + one_if (lo == n) ≡ inside lo (lo + (1 + g)) n
    exit_sum lo a g n e = ground arith

    Target-exit :
        (b b₀ : Branches) (lo a g k : ℕ)
        → (b₀.loop ≡ b.loop)
        → (b₀.break_at ≡ b.break_at)
        → (b₀.continue_at ≡ b.continue_at)
        → (b₀.exit_at ≡ lo)
        → a ≡ lo + 1
        → IfTarget a (a + g) b₀ k
        → Target lo (lo + (1 + g)) b k
    Target-exit b b₀ lo a g k l br c x e (inl (inl h)) =
        inl (omega (arith, h, e), omega (arith, h, e))
    Target-exit b b₀ lo a g k l br c x e (inl (inr (p, inl h))) =
        inr (omega (arith, p, l), inl (h ∙ br))
    Target-exit b b₀ lo a g k l br c x e (inl (inr (p, inr h))) =
        inr (omega (arith, p, l), inr (h ∙ c))
    Target-exit b b₀ lo a g k l br c x e (inr h) = inl (omega (arith, h, x), omega (arith, h, x))

    -- The state in which an IF begins
    abbrev Opened : Module fr → Module fr → Type 0
    Opened m m₀ =
        (m₀.code ≡ m.code)
        × (m₀.lexer ≡ m.lexer)
        × (m₀.branches.loop ≡ m.branches.loop)
        × (m₀.branches.depth ≡ m.branches.depth)
        × (m₀.branches.break_at ≡ m.branches.break_at)
        × (m₀.branches.continue_at ≡ m.branches.continue_at)
        × (start fr lf m₀ ≡ start fr lf m + 1)
        × (m₀.branches.exit_at ≡ start fr lf m)

    need_branch-Opened :
        (m : Module fr)
        → start fr lf m + 1 < 0x1_0000_0000
        → Opened m (need_branch fr exit_branch m)
    unfolding need_branch new_branch
    need_branch-Opened m lt = (refl, refl, refl, refl, refl, refl, omega (arith, lt), refl)

    if_whole :
        (m m₀ m₂ m₃ : Module fr) (g : ℕ)
        → Opened m m₀
        → IfPiece fr lf g m₀ m₂
        → g + 3 * left fr lf m₂ ≤ 3 * left fr lf m + 1
        → left fr lf m₂ ≤ left fr lf m
        → Piece fr lf (λ k. ⊥) 0 (λ n. one_if (start fr lf m == n)) m₂ m₃
        → Built fr lf m m₃
    if_whole m m₀ m₂ m₃ g e p used le r =
        let lo = start fr lf m in
        let (seg, c, n, a) =
          Wrote-compose fr lf.law.size (inside (start fr lf m₀) (start fr lf m₀ + g))
            (λ n. one_if (lo == n)) (inside lo (lo + (1 + g)))
            (IfTarget (start fr lf m₀) (start fr lf m₀ + g) m₀.branches) (λ k. ⊥)
            (Target lo (lo + (1 + g)) m.branches) m₀ m₂ m₃
            (λ k. exit_sum lo (start fr lf m₀) g k e.6)
            (λ k. Target-exit m.branches m₀.branches lo (start fr lf m₀) g k e.2 e.4 e.5 e.7 e.6)
            (λ k x. absurd x) p.0 r.0 in
        (
          1 + g,
          (seg, c ∙ ap (λ x. x ++ seg) e.0, n, a),
          r.1.0 ∙ p.1.0 ∙ e.2,
          r.1.1 ∙ p.1.1 ∙ e.3,
          omega (arith, r.2, p.2, e.6),
          omega (arith, r.2, used),
          omega (arith, r.2, le),
        )

    pub if_structure-Built :
        (m : Module fr)
        → left fr lf m < fuel
        → start fr lf m + 3 * left fr lf m + 3 < 0x1_0000_0000
        → Leaves (Built fr lf m) (if_structure fr body fuel m)
    unfolding if_structure
    if_structure-Built m lt big =
        let m₀ = need_branch fr exit_branch m in
        let e = need_branch-Opened m (omega (arith, big)) in
        let l : left fr lf m₀ ≡ left fr lf m = ap lf.law.size e.1 in
        let lt₀ : left fr lf m₀ < fuel = omega (arith, l, lt) in
        Leaves-bind (Built fr lf m) (if_bodies fr body fuel m₀) _
          (if_bodies-IfRun fr lf fuel body b fuel m₀ lt₀ lt₀ (omega (arith, l, big, e.6)))
          λ r₁ h₁.
            let fits : Fits fr lf fuel r₁.1 =
              (omega (arith, h₁.3, lt₀), omega (arith, h₁.1.2, h₁.2, e.6, l, big)) in
            Leaves-bind (Built fr lf m) (else_part fr body r₁.0 r₁.1) _
              (else-ElseRun r₁.0 r₁.1 fits)
              λ r₂ h₂.
                let q = IfPiece-then fr lf h₁.0 h₂.0 m₀ r₁.1 r₂.1 h₁.1 h₂.1 in
                Leaves-end_if (Built fr lf m) r₂.0 (set_branch fr exit_branch r₂.1) (
                  Leaves-weaken (set_branch fr exit_branch r₂.1)
                    (λ m₃ r.
                      if_whole m m₀ r₂.1 m₃ (h₁.0 + h₂.0) e q (omega (arith, h₁.2, h₂.2, l))
                        (omega (arith, h₁.3, h₂.3, l)) r)
                    (set-Piece fr lf exit_branch r₂.1 (start fr lf m) (q.1.4 ∙ e.7)
                      (omega (arith, big))))
