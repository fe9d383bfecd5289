-- ===== src/Translator/Structure/Runs.antt =====
-- oplt/stran/OT_STRUC.CPP: what a piece of the parse adds to the code, to the branches and to what
-- is left of the source, and how pieces go together.
use opl_dev.Prelude.{ℕ, ◌+◌, ◌*◌, ◌≤◌, ◌<◌, List, [], ◌∷◌, ◌++◌, ◌≡◌, refl, ap, ◌∙◌, arith}
use opl_dev.Translator.Structure.{ModuleCode, Front, Module, Branches, p_code}
use opl_dev.Translator.Structure.Segments.{
  defines, count, Refers, AllRefer, count-append, AllRefer-append, SameBranches,
}

module _ (fr : Front) (size : fr.lexer.State → ℕ) where
  -- What was added to the code: `d` says how often the label of each branch is defined in it, and
  -- its branches name labels of branch numbers with `P`, or are a GOTO's.
  abbrev pub Wrote : (ℕ → ℕ) → (ℕ → Type 0) → Module fr → Module fr → Type 0
  Wrote d P m m' =
      (seg : List (ModuleCode fr.Reals)) × (m'.code ≡ m.code ++ seg)
      × ((n : ℕ) → n < 0x1_0000_0000 → count n seg ≡ d n)
      × AllRefer P seg

  -- `g` branch numbers are used, none of them twice: there is source that was read for each.
  abbrev pub Spends : ℕ → Module fr → Module fr → Type 0
  Spends g m m' =
      (m'.branches.next_branch ≡ m.branches.next_branch + g)
      × (g + 3 * size m'.lexer ≤ 3 * size m.lexer)
      × (size m'.lexer ≤ size m.lexer)

  abbrev pub Run : ℕ → (ℕ → ℕ) → (ℕ → Type 0) → Module fr → Module fr → Type 0
  Run g d P m m' = Wrote d P m m' × SameBranches m.branches m'.branches × Spends g m m'

  pub Wrote-compose :
      (d d' e : ℕ → ℕ) (P P' Q : ℕ → Type 0) (m m' m'' : Module fr)
      → ((n : ℕ) → d n + d' n ≡ e n)
      → ((k : ℕ) → P k → Q k)
      → ((k : ℕ) → P' k → Q k)
      → Wrote d P m m'
      → Wrote d' P' m' m''
      → Wrote e Q m m''
  Wrote-compose d d' e P P' Q m m' m'' sum f g (s, c, n, r) (s', c', n', r') = (
    s ++ s',
    c' ∙ ap (λ x. x ++ s') c ∙ append_assoc m.code s s',
    (λ k lt. omega (arith, count-append k s s', n k lt, n' k lt, sum k)),
    AllRefer-append P P' Q s s' f g r r',
  )
    where
      append_assoc : (x y z : List (ModuleCode fr.Reals)) → (x ++ y) ++ z ≡ x ++ (y ++ z)
      append_assoc [] y z = refl
      append_assoc (a ∷ x) y z = rw (append_assoc x y z) refl

  SameBranches-compose :
      (b b' b'' : Branches) → SameBranches b b' → SameBranches b' b'' → SameBranches b b''
  SameBranches-compose b b' b'' s t =
      (t.0 ∙ s.0, t.1 ∙ s.1, t.2 ∙ s.2, t.3 ∙ s.3, t.4 ∙ s.4, t.5 ∙ s.5)

  pub Run-compose :
      (g g' h : ℕ) (d d' e : ℕ → ℕ) (P P' Q : ℕ → Type 0) (m m' m'' : Module fr)
      → ((n : ℕ) → d n + d' n ≡ e n)
      → ((k : ℕ) → P k → Q k)
      → ((k : ℕ) → P' k → Q k)
      → g + g' ≡ h
      → Run g d P m m'
      → Run g' d' P' m' m''
      → Run h e Q m m''
  Run-compose g g' h d d' e P P' Q m m' m'' sum f f' total r r' = (
    Wrote-compose d d' e P P' Q m m' m'' sum f f' r.0 r'.0,
    SameBranches-compose m.branches m'.branches m''.branches r.1 r'.1,
    (omega (arith, r.2, r'.2, total), omega (arith, r.2, r'.2, total), omega (arith, r.2, r'.2)),
  )

  -- Nothing that concerns internal labels or the branches' state; it may have a GOTO.
  abbrev pub Quiet : Module fr → Module fr → Type 0
  Quiet m m' = Run 0 (λ n. 0) (λ k. ⊥) m m'

  pub append_nil : (x : List (ModuleCode fr.Reals)) → x ≡ x ++ []
  append_nil [] = refl
  append_nil (a ∷ x) = ap (λ y. a ∷ y) (append_nil x)

  pub SameBranches-self : (b : Branches) → SameBranches b b
  SameBranches-self b = (refl, refl, refl, refl, refl, refl)

  -- The lexer has moved on, or other parts of the parser have.
  pub Quiet-lexer :
      (m m' : Module fr)
      → m'.code ≡ m.code
      → m'.branches ≡ m.branches
      → size m'.lexer ≤ size m.lexer
      → Quiet m m'
  Quiet-lexer m m' c b le = (
    ([], c ∙ append_nil m.code, (λ n lt. refl), tt),
    rw b (SameBranches-self m.branches),
    (rw b (omega arith), omega (arith, le), le),
  )

  pub p_code-Run :
      (d : ℕ → ℕ) (P : ℕ → Type 0) (c : ModuleCode fr.Reals) (m : Module fr)
      → ((n : ℕ) → n < 0x1_0000_0000 → defines n c ≡ d n)
      → Refers P c
      → Run 0 d P m (p_code fr c m)
  unfolding p_code
  p_code-Run d P c m e r = (
    (c ∷ [], refl, (λ n lt. omega (arith, e n lt)), (r, tt)),
    SameBranches-self m.branches,
    (omega arith, omega arith, omega arith),
  )

  -- The parts of a Run that keep what is said of it
  pub Run-then_Quiet :
      (g : ℕ) (d : ℕ → ℕ) (P : ℕ → Type 0) (m m' m'' : Module fr)
      → Run g d P m m'
      → Quiet m' m''
      → Run g d P m m''
  Run-then_Quiet g d P m m' m'' r q =
      Run-compose g 0 g d (λ n. 0) d P (λ k. ⊥) P m m' m'' (λ n. omega arith) (λ k p. p)
        (λ k p. absurd p) (omega arith) r q

  pub Quiet-then_Run :
      (g : ℕ) (d : ℕ → ℕ) (P : ℕ → Type 0) (m m' m'' : Module fr)
      → Quiet m m'
      → Run g d P m' m''
      → Run g d P m m''
  Quiet-then_Run g d P m m' m'' q r =
      Run-compose 0 g g (λ n. 0) d d (λ k. ⊥) P P m m' m'' (λ n. omega arith) (λ k p. absurd p)
        (λ k p. p) (omega arith) q r
