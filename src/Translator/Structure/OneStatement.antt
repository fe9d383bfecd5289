-- ===== src/Translator/Structure/OneStatement.antt =====
-- StatementListL (oplt/stran/OT_PARSE.CPP): the code of one statement.
use mathlib.Core.Path.{subst}
use opl_dev.Prelude.{
  ℕ, suc, ◌+◌, ◌*◌, ◌≤◌, ◌<◌, ◌≡◌, refl, ap, ◌∙◌, Bool, false, ◌⊎◌, inl, inr, ltb, Bool-cases,
  ltb→lt, arith,
}
use opl_dev.Prelude.Outcome.{
  Outcome, ok, leave, ◌>>=◌, Leaves, Leaves-bind, Leaves-if, Leaves-weaken, too_complex,
}
use opl_dev.Translator.Token.{
  Token, identifier, punctuation, operator, call, keyword, structure, reserved, Punctuation,
}
use opl_dev.Translator.Structure.{
  Front, Module, Branches, BranchKind, ReservedWord, StructureWord, do_word, while_word, if_word,
  vector_word, BranchWord, break_word, continue_word, goto_word, other_keyword_word, break_branch,
  continue_branch, branch, save_branches, restore_branches,
}
use opl_dev.Translator.Structure.Parse.{
  vector_structure, one_structure, structure_l, loop_statement, goto_statement, keyword_statement,
  one_statement,
}
use opl_dev.Translator.Structure.Segments.{inside, Target, SameBranches, AllRefer-weaken}
use opl_dev.Translator.Structure.Runs.{Wrote-compose, Quiet-lexer}
use opl_dev.Translator.Structure.Steps.{LawfulFront, left, Still, do_branch_always-GoesTo}
use opl_dev.Translator.Structure.Pieces.{first, Closed, Listed, Fits, Built}
use opl_dev.Translator.Structure.Loops.{do_structure-Built, while_structure-Built}
use opl_dev.Translator.Structure.Ifs.{inside_sum}
use opl_dev.Translator.Structure.Exits.{if_structure-Built}
use opl_dev.Translator.Structure.Vector.{vector_structure-Still, goto_statement-Still}

module _ (fr : Front) (lf : LawfulFront fr) where
  -- A statement was parsed, behind its first word, with source for `spare` numbers to spare.
  abbrev pub Stepped : ℕ → Module fr → Module fr → Type 0
  Stepped spare m m' =
      (g : ℕ) × Closed fr lf g m m'
      × SameBranches m.branches m'.branches
      × (first fr lf m' ≡ first fr lf m + g)
      × (g + 3 * left fr lf m' ≤ 3 * left fr lf m + spare)
      × (left fr lf m' ≤ left fr lf m)

  Target-later :
      (b b' : Branches) (lo g g' lo' k : ℕ)
      → SameBranches b b'
      → lo' ≡ lo + g
      → Target lo' (lo' + g') b' k
      → Target lo (lo + (g + g')) b k
  Target-later b b' lo g g' lo' k s e (inl h) = inl (omega (arith, h, e), omega (arith, h, e))
  Target-later b b' lo g g' lo' k s e (inr (l, inl h)) = inr (omega (arith, l, s.0), inl (h ∙ s.3))
  Target-later b b' lo g g' lo' k s e (inr (l, inr h)) = inr (omega (arith, l, s.0), inr (h ∙ s.4))

  Target-wider :
      (b : Branches) (lo g g' k : ℕ) → Target lo (lo + g) b k → Target lo (lo + (g + g')) b k
  Target-wider b lo g g' k (inl h) = inl (omega (arith, h), omega (arith, h))
  Target-wider b lo g g' k (inr h) = inr h

  pub Closed-then :
      (g g' : ℕ) (m m' m'' : Module fr)
      → SameBranches m.branches m'.branches
      → first fr lf m' ≡ first fr lf m + g
      → Closed fr lf g m m'
      → Closed fr lf g' m' m''
      → Closed fr lf (g + g') m m''
  Closed-then g g' m m' m'' s e c c' =
      let lo = first fr lf m in
      let lo' = first fr lf m' in
      Wrote-compose fr lf.law.size (inside lo (lo + g)) (inside lo' (lo' + g'))
        (inside lo (lo + (g + g'))) (Target lo (lo + g) m.branches)
        (Target lo' (lo' + g') m'.branches) (Target lo (lo + (g + g')) m.branches) m m' m''
        (λ k. inside_sum fr lf lo lo' g g' k e) (λ k. Target-wider m.branches lo g g' k)
        (λ k. Target-later m.branches m'.branches lo g g' lo' k s e) c c'

  pub same_then :
      (b b' b'' : Branches) → SameBranches b b' → SameBranches b' b'' → SameBranches b b''
  same_then b b' b'' s t = (t.0 ∙ s.0, t.1 ∙ s.1, t.2 ∙ s.2, t.3 ∙ s.3, t.4 ∙ s.4, t.5 ∙ s.5)

  pub Stepped-then :
      (spare : ℕ) (m m' m'' : Module fr)
      → Stepped spare m m'
      → Stepped 0 m' m''
      → Stepped spare m m''
  Stepped-then spare m m' m'' (g, c, s, e, u, l) (g', c', s', e', u', l') = (
    g + g',
    Closed-then g g' m m' m'' s e c c',
    same_then m.branches m'.branches m''.branches s s',
    omega (arith, e, e'),
    omega (arith, u, u'),
    omega (arith, l, l'),
  )

  none_inside : (lo n : ℕ) → 0 ≡ inside lo (lo + 0) n
  none_inside lo n = ground arith

  pub Still-Stepped : (m m' : Module fr) → Still fr lf m m' → Stepped 0 m m'
  Still-Stepped m m' ((seg, c, n, a), s, e) = (
    0,
    (
      seg,
      c,
      (λ k lt. n k lt ∙ none_inside (first fr lf m) k),
      AllRefer-weaken (λ k. ⊥) _ seg (λ k x. absurd x) a,
    ),
    s,
    e.0,
    omega (arith, e),
    e.2,
  )

  -- A list goes on behind a statement whose first word was read.
  pub Stepped-Listed :
      (m m₁ m₂ : Module fr) (r : ReservedWord × Module fr)
      → Still fr lf m m₁
      → left fr lf m₁ < left fr lf m
      → Stepped 3 m₁ m₂
      → Listed fr lf m₂ r
      → Listed fr lf m r
  Stepped-Listed m m₁ m₂ r q lt (g, c, s, e, u, l) (g', c', s', e', u') =
      let (h, c₁, s₁, e₁, u₁, l₁) = Still-Stepped m m₁ q in
      let same = same_then m.branches m₁.branches m₂.branches s₁ s in
      (
        h + g + g',
        Closed-then (h + g) g' m m₂ r.1 same (omega (arith, e, e₁))
            (Closed-then h g m m₁ m₂ s₁ e₁ c₁ c) c',
        same_then m.branches m₂.branches r.1.branches same s',
        omega (arith, e, e₁, e'),
        omega (arith, q.2, u, u', lt, e₁),
      )

  -- StructureL around one structure: the saved branches come back.
  restored :
      (m m₁ : Module fr) (saved : Branches)
      → saved ≡ record m.branches { depth = suc m.branches.depth }
      → Built fr lf (record m { branches = saved }) m₁
      → Stepped 3 m (record m₁ { branches = restore_branches m.branches m₁.branches })
  unfolding restore_branches
  restored m m₁ saved e b =
      let (g, c, l, d, n, u, k) = subst (λ s. Built fr lf (record m { branches = s }) m₁) e b in
      (g, c, (l, rw d (omega arith), refl, refl, refl, refl), n, u, k)

  module _ (fuel : ℕ) (body : Module fr → Outcome (ReservedWord × Module fr))
      (b : (m' : Module fr) → Fits fr lf fuel m' → Leaves (Listed fr lf m') (body m')) where
    Still-Built : (m m' : Module fr) → Still fr lf m m' → Built fr lf m m'
    Still-Built m m' q =
        let (g, c, s, e, u, l) = Still-Stepped m m' q in (g, c, s.0, s.1, e, omega (arith, u), l)

    one_structure-Built :
        (w : StructureWord) (m : Module fr)
        → left fr lf m < fuel
        → first fr lf m + 3 * left fr lf m + 3 < 0x1_0000_0000
        → Leaves (Built fr lf m) (one_structure fr body fuel w m)
    unfolding one_structure
    one_structure-Built do_word m lt big = do_structure-Built fr lf fuel body b m lt big
    one_structure-Built while_word m lt big = while_structure-Built fr lf fuel body b m lt big
    one_structure-Built if_word m lt big = if_structure-Built fr lf fuel body b m lt big
    one_structure-Built vector_word m lt big =
        Leaves-weaken (vector_structure fr fuel m) (Still-Built m)
          (vector_structure-Still fr lf fuel m lt)

    structure_l-Stepped :
        (w : StructureWord) (m : Module fr)
        → left fr lf m < fuel
        → first fr lf m + 3 * left fr lf m + 3 < 0x1_0000_0000
        → Leaves (Stepped 3 m) (structure_l fr body fuel w m)
    unfolding structure_l save_branches
    structure_l-Stepped w m lt big =
        let saved : Branches = record m.branches { depth = suc m.branches.depth } in
        Leaves-bind (Stepped 3 m) (save_branches m.branches) _
          (Leaves-if (λ s. s ≡ saved) (ltb 8 (suc m.branches.depth)) (leave too_complex) (ok saved)
            tt refl)
          λ s e.
            let m₀ : Module fr = record m { branches = s } in
            let n₀ : s.next_branch ≡ m.branches.next_branch = ap Branches.next_branch e in
            Leaves-bind (Stepped 3 m) (one_structure fr body fuel w m₀) _
              (one_structure-Built w m₀ lt (omega (arith, big, n₀))) λ m₁ h. restored m m₁ s e h

    loop_statement-Stepped :
        (k : BranchKind) (m : Module fr)
        → (branch k m.branches ≡ m.branches.break_at)
          ⊎ (branch k m.branches ≡ m.branches.continue_at)
        → Leaves (Stepped 0 m) (loop_statement fr k m)
    unfolding loop_statement
    loop_statement-Stepped k m e = elim (Bool-cases (ltb 0 m.branches.loop)) [
      | inl in_loop ↦
          (let ((seg, c, n, a), s, t) = do_branch_always-GoesTo fr lf k m in
            let positive : 0 < m.branches.loop = ltb→lt 0 m.branches.loop in_loop in
            rw in_loop (
              0,
              (
                seg,
                c,
                (λ k lt. n k lt ∙ none_inside (first fr lf m) k),
                AllRefer-weaken (λ j. j ≡ branch k m.branches) _ seg
                    (λ j x. inr (positive, goes j x e)) a,
              ),
              s,
              t.0,
              omega (arith, t),
              t.2,
            ))
      | inr e ↦ rw e tt
    ]
      where
        goes :
            (j : ℕ)
            → j ≡ branch k m.branches
            → ((branch k m.branches ≡ m.branches.break_at)
                ⊎ (branch k m.branches ≡ m.branches.continue_at))
            → (j ≡ m.branches.break_at) ⊎ (j ≡ m.branches.continue_at)
        goes j x (inl h) = inl (x ∙ h)
        goes j x (inr h) = inr (x ∙ h)

    keyword_statement-Stepped :
        (w : BranchWord) (m : Module fr) → Leaves (Stepped 0 m) (keyword_statement fr w m)
    unfolding keyword_statement
    keyword_statement-Stepped break_word m = loop_statement-Stepped break_branch m (inl refl)
    keyword_statement-Stepped continue_word m = loop_statement-Stepped continue_branch m (inr refl)
    keyword_statement-Stepped goto_word m =
        Leaves-weaken (goto_statement fr m) (Still-Stepped m) (goto_statement-Still fr lf m)
    keyword_statement-Stepped other_keyword_word m =
        Leaves-weaken (fr.statements.other_keyword m) (Still-Stepped m) (lf.keyword_lem m)

    pub more : (m m' : Module fr) → Stepped 0 m m' → Stepped 3 m m'
    more m m' (g, c, s, e, u, l) = (g, c, s, e, omega (arith, u), l)

    abbrev pub After : Module fr → Bool × Module fr → Type 0
    After m r = Stepped 3 m r.1

    stay : (m : Module fr) → Stepped 3 m m
    stay m = more m m (Still-Stepped m m (Quiet-lexer fr lf.law.size m m refl refl (omega arith)))

    plain :
        (m : Module fr) (o : Outcome (Module fr))
        → Leaves (Stepped 0 m) o
        → Leaves (After m) (o >>= λ m₁. ok (false, m₁))
    plain m o h = Leaves-bind (After m) o _ h λ m₁ s. more m m₁ s

    pub one_statement-Stepped :
        (t : Token) (m : Module fr)
        → left fr lf m < fuel
        → first fr lf m + 3 * left fr lf m + 3 < 0x1_0000_0000
        → Leaves (After m) (one_statement fr body fuel t m)
    unfolding one_statement
    one_statement-Stepped (operator op) m lt big = tt
    one_statement-Stepped (punctuation Punctuation.eof) m lt big = tt
    one_statement-Stepped (punctuation Punctuation.eos) m lt big = stay m
    one_statement-Stepped (punctuation Punctuation.colon) m lt big = stay m
    one_statement-Stepped (punctuation mark) m lt big = tt
    one_statement-Stepped (identifier i) m lt big =
        plain m (fr.statements.identifier_statement i m) (
          Leaves-weaken (fr.statements.identifier_statement i m) (Still-Stepped m)
            (lf.identifier_lem i m))
    one_statement-Stepped (call c) m lt big =
        plain m (fr.statements.call_statement c m)
          (Leaves-weaken (fr.statements.call_statement c m) (Still-Stepped m) (lf.call_lem c m))
    one_statement-Stepped keyword m lt big =
        plain m (keyword_statement fr (fr.words.branch_word m.lexer) m)
          (keyword_statement-Stepped (fr.words.branch_word m.lexer) m)
    one_statement-Stepped structure m lt big =
        Leaves-bind (After m) (structure_l fr body fuel (fr.words.structure_word m.lexer) m) _
          (structure_l-Stepped (fr.words.structure_word m.lexer) m lt big) λ m₁ h. h
    one_statement-Stepped reserved m lt big = stay m
