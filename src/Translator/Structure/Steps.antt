-- ===== src/Translator/Structure/Steps.antt =====
-- oplt/stran/OT_STRUC.CPP: what the parts of a structure add to the code, and what they rely on.
use opl_dev.Prelude.{
  ℕ, zero, suc, ◌≤◌, ◌<◌, List, [], ◌∷◌, ◌++◌, ◌≡◌, refl, ap, Bool, true, false, ◌⊎◌, inl, inr,
  length, ◌==◌, if◌then◌else◌, Bool-cases, arith,
}
use opl_dev.Prelude.Outcome.{Outcome, ok, Leaves, Leaves-bind, Leaves-if, Leaves-weaken}
use opl_dev.Runtime.Globals.{same_name}
use opl_dev.Translator.Token.{
  OplType, word, string, rank, Token, punctuation, Identifier, Punctuation, Callable,
}
use opl_dev.Translator.Expr.{Parser, expression, expression_of, p_code_cast}
use opl_dev.Translator.Expr.Find.{LawfulLexer, LawfulOperands}
use opl_dev.Translator.Expr.Sound.{expression-Extends}
use opl_dev.Translator.Structure.{
  Front, Module, BranchKind, false_branch, branch, branch_name, each_evaluate, is_eos, p_code, next,
  eos_l, skip_blank_lines, define_label, set_branch, do_branch_false, do_branch_always,
  expression_part, with_expression, test_code, conditional_expression, is_among, label,
  branch_false, branch_always,
}
use opl_dev.Translator.Structure.Names.{same_name-branch_name}
use opl_dev.Translator.Structure.Segments.{
  IsUserName, one_if, each_evaluate-count, each_evaluate-AllRefer,
}
use opl_dev.Translator.Structure.Runs.{
  Run, Quiet, Quiet-lexer, p_code-Run, Run-then_Quiet, Quiet-then_Run, SameBranches-self,
}

abbrev pub is_eof : Token → Bool
is_eof (punctuation Punctuation.eof) = true
is_eof t = false

-- What the structures rely on in the lexer and in the other statements: only the end of the file
-- takes nothing off the source, names are OPL names, and the other statements define no internal
-- label, branch to none, and leave the branches' state alone.
pub record LawfulFront (fr : Front) : Type 0 where
  pub strings : Bool
  pub law : LawfulLexer strings fr.lexer
  pub lawful : LawfulOperands strings fr.lexer law fr.Reals fr.operands
  pub strict_lem :
      (l : fr.lexer.State)
      → Leaves
          (λ r. (law.size r.1 ≤ law.size l) × ((is_eof r.0 ≡ true) ⊎ (law.size r.1 < law.size l)))
          (fr.lexer.lex l)
  pub name_lem : (l : fr.lexer.State) → IsUserName (fr.words.name l)
  pub identifier_lem :
      (i : Identifier) (m : Module fr)
      → Leaves (Quiet fr law.size m) (fr.statements.identifier_statement i m)
  pub call_lem :
      (c : Callable) (m : Module fr)
      → Leaves (Quiet fr law.size m) (fr.statements.call_statement c m)
  pub keyword_lem : (m : Module fr) → Leaves (Quiet fr law.size m) (fr.statements.other_keyword m)

not_eos : (t : Token) → is_eof t ≡ true → is_eos t ≡ true → ⊥
not_eos t e h = ground arith

module _ (fr : Front) (lf : LawfulFront fr) where
  abbrev pub left : Module fr → ℕ
  left m = lf.law.size m.lexer

  abbrev pub Still : Module fr → Module fr → Type 0
  Still m m' = Quiet fr lf.law.size m m'

  -- A token was read, and the source is shorter if it was not the end of the file.
  abbrev pub ReadFrom : Module fr → Token × Module fr → Type 0
  ReadFrom m r = Still m r.1 × ((is_eof r.0 ≡ true) ⊎ (left r.1 < left m))

  pub next-ReadFrom : (m : Module fr) → Leaves (ReadFrom m) (next fr m)
  unfolding next
  next-ReadFrom m =
      Leaves-bind (ReadFrom m) (fr.lexer.lex m.lexer) _ (lf.strict_lem m.lexer)
        λ r h. (Quiet-lexer fr lf.law.size m (record m { lexer = r.1 }) refl refl h.0, h.1)

  pub eos_l-Still : (m : Module fr) → Leaves (λ m'. Still m m' × (left m' < left m)) (eos_l fr m)
  unfolding eos_l
  eos_l-Still m =
      Leaves-bind (λ m'. Still m m' × (left m' < left m)) (next fr m) _ (next-ReadFrom m)
        λ r h. elim (Bool-cases (is_eos r.0)) [
          | inl e ↦ rw e (h.0, shorter r.0 r.1 e h.1)
          | inr e ↦ rw e tt
        ]
    where
      shorter :
          (t : Token) (m₁ : Module fr)
          → is_eos t ≡ true
          → ((is_eof t ≡ true) ⊎ (left m₁ < left m))
          → left m₁ < left m
      shorter t m₁ e (inl eof) = absurd (not_eos t eof e)
      shorter t m₁ e (inr lt) = lt

  ReadFrom-later :
      (m m₁ : Module fr) (r : Token × Module fr)
      → Still m m₁
      → left m₁ < left m
      → ReadFrom m₁ r
      → ReadFrom m r
  ReadFrom-later m m₁ r q lt (q', inl e) =
      (Run-then_Quiet fr lf.law.size 0 (λ n. 0) (λ k. ⊥) m m₁ r.1 q q', inl e)
  ReadFrom-later m m₁ r q lt (q', inr l) =
      (Run-then_Quiet fr lf.law.size 0 (λ n. 0) (λ k. ⊥) m m₁ r.1 q q', inr (omega (arith, l, lt)))

  -- One round: `rest` is the next one's result.
  skip_round :
      (m m₁ : Module fr) (t : Token) (rest : Outcome (Token × Module fr))
      → ReadFrom m (t, m₁)
      → (left m₁ < left m → Leaves (ReadFrom m₁) rest)
      → Leaves (ReadFrom m) (if is_eos t then rest else ok (t, m₁))
  skip_round m m₁ t rest (q, w) k = elim (Bool-cases (is_eos t)) [
    | inl e ↦ elim w [
      | inl eof ↦ absurd (not_eos t eof e)
      | inr l ↦ rw e (Leaves-weaken rest (λ r h. ReadFrom-later m m₁ r q l h) (k l))
    ]
    | inr e ↦ rw e (q, w)
  ]

  pub skip_blank_lines-ReadFrom :
      (fuel : ℕ) (m : Module fr) → left m < fuel → Leaves (ReadFrom m) (skip_blank_lines fr fuel m)
  unfolding skip_blank_lines
  skip_blank_lines-ReadFrom zero m lt = absurd (omega (arith, lt))
  skip_blank_lines-ReadFrom (suc fuel) m lt =
      Leaves-bind (ReadFrom m) (next fr m) _ (next-ReadFrom m) λ r h.
        skip_round m r.1 r.0 (skip_blank_lines fr fuel r.1) h
          λ l. skip_blank_lines-ReadFrom fuel r.1 (omega (arith, l, lt))

  user_label : (name : List ℕ) (n : ℕ) → IsUserName name → same_name name (branch_name n) ≡ false
  unfolding branch_name
  user_label [] n h = refl
  user_label (c ∷ cs) n h = let no : (c == 0x2e) ≡ false = ground arith in rw no refl

  -- The label of a user's statement is no internal one.
  pub define_label-Still :
      (name : List ℕ) (m : Module fr) → IsUserName name → Leaves (Still m) (define_label fr name m)
  unfolding define_label
  define_label-Still name m u = Leaves-if (Still m) (is_among name m.labels) _ _ tt (
      Quiet-then_Run fr lf.law.size 0 (λ n. 0) (λ k. ⊥) m (record m { labels = name ∷ m.labels })
        (p_code fr (label name) (record m { labels = name ∷ m.labels }))
        (Quiet-lexer fr lf.law.size m (record m { labels = name ∷ m.labels }) refl refl
          (omega arith))
        (p_code-Run fr lf.law.size (λ n. 0) (λ k. ⊥) (label name)
          (record m { labels = name ∷ m.labels }) (λ n lt. rw (user_label name n u) refl) tt))

  pub set_branch-Run :
      (k : BranchKind) (m : Module fr)
      → branch k m.branches < 0x1_0000_0000
      → Leaves
          (Run fr lf.law.size 0 (λ n. one_if (branch k m.branches == n)) (λ k. ⊥) m)
          (set_branch fr k m)
  unfolding set_branch
  set_branch-Run k m lt =
      let b = branch k m.branches in
      let name = branch_name b in
      let here : Module fr = record m { labels = name ∷ m.labels } in
      let d : ℕ → ℕ = λ n. one_if (b == n) in
      Leaves-if (Run fr lf.law.size 0 d (λ k. ⊥) m) (is_among name m.labels) _ _ tt (
        Quiet-then_Run fr lf.law.size 0 d (λ k. ⊥) m here (p_code fr (label name) here)
          (Quiet-lexer fr lf.law.size m here refl refl (omega arith))
          (p_code-Run fr lf.law.size d (λ k. ⊥) (label name) here
            (λ n lt'. ap one_if (same_name-branch_name b n lt lt')) tt))

  -- The code goes to the label of that branch.
  abbrev pub GoesTo : ℕ → Module fr → Module fr → Type 0
  GoesTo b m m' = Run fr lf.law.size 0 (λ n. 0) (λ k. k ≡ b) m m'

  pub do_branch_always-GoesTo :
      (k : BranchKind) (m : Module fr) → GoesTo (branch k m.branches) m (do_branch_always fr k m)
  unfolding do_branch_always
  do_branch_always-GoesTo k m =
      p_code-Run fr lf.law.size (λ n. 0) (λ j. j ≡ branch k m.branches)
        (branch_always (branch_name (branch k m.branches))) m (λ n lt. refl)
        (inr (branch k m.branches, refl, refl))

  do_branch_false-GoesTo :
      (k : BranchKind) (m : Module fr) → GoesTo (branch k m.branches) m (do_branch_false fr k m)
  unfolding do_branch_false
  do_branch_false-GoesTo k m =
      p_code-Run fr lf.law.size (λ n. 0) (λ j. j ≡ branch k m.branches)
        (branch_false (branch_name (branch k m.branches))) m (λ n lt. refl)
        (branch k m.branches, refl, refl)

  -- An expression's code was written, and more code of that kind.
  with_expression-Still :
      (p : Parser fr.lexer.State fr.Reals) (m : Module fr)
      → lf.law.size p.lexer ≤ left m
      → Still m (with_expression fr p m)
  with_expression-Still p m le = (
    (
      each_evaluate p.code,
      refl,
      (λ n lt. each_evaluate-count n p.code),
      each_evaluate-AllRefer (λ k. ⊥) p.code,
    ),
    SameBranches-self fr lf.law.size m.branches,
    (omega arith, omega (arith, le), le),
  )

  test_code-Still :
      (t : OplType) (m : Module fr) → Still m (record m { code = m.code ++ test_code fr t })
  test_code-Still t m = (
    (test_code fr t, refl, (λ n lt. ground arith), ground arith),
    SameBranches-self fr lf.law.size m.branches,
    (omega arith, omega arith, omega arith),
  )

  pub conditional_expression-GoesTo :
      (fuel : ℕ) (m : Module fr)
      → left m < fuel
      → Leaves (GoesTo m.branches.false_at m) (conditional_expression fr fuel m)
  unfolding conditional_expression
  conditional_expression-GoesTo fuel m lt =
      Leaves-bind (GoesTo m.branches.false_at m)
        (expression fr.lexer fr.Reals fr.operands fuel (expression_part fr m)) _
        (expression-Extends lf.strings fr.lexer lf.law fr.Reals fr.operands lf.lawful fuel
          (expression_part fr m) lt)
        λ r h.
          let m₁ = with_expression fr r.1 m in
          let m₂ : Module fr = record m₁ { code = m₁.code ++ test_code fr r.0 } in
          Leaves-if (GoesTo m.branches.false_at m) (rank r.0 == rank string) _ _ tt (
            Quiet-then_Run fr lf.law.size 0 (λ n. 0) (λ k. k ≡ m.branches.false_at) m m₂
              (do_branch_false fr false_branch m₂)
              (Run-then_Quiet fr lf.law.size 0 (λ n. 0) (λ k. ⊥) m m₁ m₂
                (with_expression-Still r.1 m h.2) (test_code-Still r.0 m₁))
              (do_branch_false-GoesTo false_branch m₂))

  pub word_expression-Still :
      (fuel : ℕ) (m : Module fr)
      → left m < fuel
      → Leaves
          (λ p. Still m (with_expression fr p m))
          (expression_of fr.lexer fr.Reals fr.operands fuel word (expression_part fr m))
  unfolding expression_of
  word_expression-Still fuel m lt =
      Leaves-bind (λ p. Still m (with_expression fr p m))
        (expression fr.lexer fr.Reals fr.operands fuel (expression_part fr m)) _
        (expression-Extends lf.strings fr.lexer lf.law fr.Reals fr.operands lf.lawful fuel
          (expression_part fr m) lt)
        λ r h.
          with_expression-Still
            (record r.1 { code = p_code_cast r.0 word (length r.1.code) r.1.code }) m h.2
