-- ===== src/Translator/Structure/Vector.antt =====
-- oplt/stran/OT_STRUC.CPP, the VECTOR structure, and GOTO of oplt/stran/OT_KYWRD.CPP: the branches
-- to labels of the program.
use opl_dev.Prelude.{ℕ, zero, suc, ◌<◌, ◌≡◌, refl, true, ◌⊎◌, inl, inr, ◌==◌, arith}
use opl_dev.Prelude.Outcome.{
  Outcome, ok, leave, Leaves, Leaves-bind, Leaves-if, Leaves-weaken, missing_comma,
}
use opl_dev.Translator.Token.{
  Token, identifier, punctuation, reserved, Identifier, Punctuation, rank, real, word,
}
use opl_dev.Translator.Expr.{expression_of}
use opl_dev.Translator.Structure.{
  Front, Module, ReservedWord, end_v, eos_l, skip_blank_lines, p_code, next, vector, vector_label,
  end_vector, branch_always, with_expression, expression_part,
}
use opl_dev.Translator.Structure.Parse.{
  label_reference, label_lines, vector_structure, goto_statement,
}
use opl_dev.Translator.Structure.Segments.{IsUserName}
use opl_dev.Translator.Structure.Runs.{Run-then_Quiet, p_code-Run}
use opl_dev.Translator.Structure.Steps.{
  LawfulFront, left, Still, is_eof, next-ReadFrom, eos_l-Still, skip_blank_lines-ReadFrom,
  word_expression-Still,
}

module _ (fr : Front) (lf : LawfulFront fr) where
  pub Still-then :
      (m m' m'' : Module fr) → Still fr lf m m' → Still fr lf m' m'' → Still fr lf m m''
  Still-then m m' m'' r r' = Run-then_Quiet fr lf.law.size 0 (λ n. 0) (λ k. ⊥) m m' m'' r r'

  label_reference-IsUserName :
      (t : Token) (m : Module fr) → Leaves IsUserName (label_reference fr t m)
  unfolding label_reference
  label_reference-IsUserName (identifier Identifier.label) m = lf.name_lem m.lexer
  label_reference-IsUserName (identifier Identifier.simple) m =
      Leaves-if IsUserName (rank (fr.lexer.type m.lexer) == rank real) _ _ (lf.name_lem m.lexer) tt
  label_reference-IsUserName t m = tt

  -- A GOTO goes to a label of the program.
  pub goto_statement-Still : (m : Module fr) → Leaves (Still fr lf m) (goto_statement fr m)
  unfolding goto_statement
  goto_statement-Still m = Leaves-bind (Still fr lf m) (next fr m) _ (next-ReadFrom fr lf m) λ r h.
      Leaves-bind (Still fr lf m) (label_reference fr r.0 r.1) _
        (label_reference-IsUserName r.0 r.1)
        λ name user. Still-then m r.1 (p_code fr (branch_always name) r.1) h.0 (
          p_code-Run fr lf.law.size (λ n. 0) (λ k. ⊥) (branch_always name) r.1 (λ n lt. refl)
            (inl user))

  -- Behind a label: the end of the line, or a comma.
  Leaves-separator :
      {A : Type 0} (P : Module fr → Type 0) (t : Token) (o o' : Outcome (Module fr))
      → ((is_eof t ≡ true) ⊎ A)
      → (A → Leaves P o)
      → (A → Leaves P o')
      → Leaves P (elim t [
        | punctuation Punctuation.eos ↦ o
        | punctuation Punctuation.comma ↦ o'
        | t ↦ leave missing_comma
      ])
  Leaves-separator P (punctuation Punctuation.eos) o o' (inl e) k k' = absurd cc
  Leaves-separator P (punctuation Punctuation.eos) o o' (inr a) k k' = k a
  Leaves-separator P (punctuation Punctuation.comma) o o' (inl e) k k' = absurd cc
  Leaves-separator P (punctuation Punctuation.comma) o o' (inr a) k k' = k' a
  Leaves-separator P t o o' w k k' = tt

  Leaves-line :
      (P : Module fr → Type 0) (t : Token) (w : ReservedWord) (m : Module fr)
      (rest : Outcome (Module fr))
      → P m
      → Leaves P rest
      → Leaves P (elim t [ reserved ↦ elim w [ end_v ↦ ok m | w ↦ rest ] | t ↦ rest ])
  Leaves-line P reserved end_v m rest h k = h
  Leaves-line P reserved w m rest h k = k
  Leaves-line P t w m rest h k = k

  label_lines-Still :
      (fuel : ℕ) (token : Token) (m : Module fr)
      → left fr lf m < fuel
      → Leaves (Still fr lf m) (label_lines fr fuel token m)
  unfolding label_lines
  label_lines-Still zero token m lt = absurd (omega (arith, lt))
  label_lines-Still (suc fuel) token m lt =
      Leaves-bind (Still fr lf m) (label_reference fr token m) _
        (label_reference-IsUserName token m)
        λ name u.
          let m₀ = p_code fr (vector_label name) m in
          let q₀ : Still fr lf m m₀ =
            p_code-Run fr lf.law.size (λ n. 0) (λ k. ⊥) (vector_label name) m (λ n lt. refl) tt in
          Leaves-bind (Still fr lf m) (next fr m₀) _ (next-ReadFrom fr lf m₀) λ r h.
            let q₁ = Still-then m m₀ r.1 q₀ h.0 in
            Leaves-separator (Still fr lf m) r.0 _ _ h.1
              (λ l.
                let less : left fr lf r.1 < fuel = omega (arith, l, q₀.2, lt) in
                Leaves-bind (Still fr lf m) (skip_blank_lines fr fuel r.1) _
                  (skip_blank_lines-ReadFrom fr lf fuel r.1 less)
                  λ r' h'.
                    let q₂ = Still-then m r.1 r'.1 q₁ h'.0 in
                    Leaves-line (Still fr lf m) r'.0 (fr.words.reserved_word r'.1.lexer) r'.1
                      (label_lines fr fuel r'.0 r'.1) q₂
                      (Leaves-weaken (label_lines fr fuel r'.0 r'.1) (λ m'. Still-then m r'.1 m' q₂)
                        (label_lines-Still fuel r'.0 r'.1 (omega (arith, h'.0.2, less)))))
              (λ l. Leaves-bind (Still fr lf m) (next fr r.1) _ (next-ReadFrom fr lf r.1) λ r' h'.
                let q₂ = Still-then m r.1 r'.1 q₁ h'.0 in
                Leaves-weaken (label_lines fr fuel r'.0 r'.1) (λ m'. Still-then m r'.1 m' q₂)
                  (label_lines-Still fuel r'.0 r'.1 (omega (arith, h'.0.2, l, q₀.2, lt))))

  pub vector_structure-Still :
      (fuel : ℕ) (m : Module fr)
      → left fr lf m < fuel
      → Leaves (Still fr lf m) (vector_structure fr fuel m)
  unfolding vector_structure
  vector_structure-Still fuel m lt =
      Leaves-bind (Still fr lf m)
        (expression_of fr.lexer fr.Reals fr.operands fuel word (expression_part fr m)) _
        (word_expression-Still fr lf fuel m lt)
        λ p q.
          let m₀ = with_expression fr p m in
          Leaves-bind (Still fr lf m) (eos_l fr m₀) _ (eos_l-Still fr lf m₀) λ m₁ h₁.
            let m₂ = p_code fr vector m₁ in
            let q₂ : Still fr lf m m₂ =
              Still-then m m₁ m₂ (Still-then m m₀ m₁ q h₁.0)
                (p_code-Run fr lf.law.size (λ n. 0) (λ k. ⊥) vector m₁ (λ n lt. refl) tt) in
            Leaves-bind (Still fr lf m) (skip_blank_lines fr fuel m₂) _
              (skip_blank_lines-ReadFrom fr lf fuel m₂ (omega (arith, q₂.2, lt)))
              λ r h.
                let q₃ = Still-then m m₂ r.1 q₂ h.0 in
                Leaves-bind (Still fr lf m) (label_lines fr fuel r.0 r.1) _
                  (label_lines-Still fuel r.0 r.1 (omega (arith, q₃.2, lt)))
                  λ m₄ q₄.
                    Still-then m m₄ (p_code fr end_vector m₄) (Still-then m r.1 m₄ q₃ q₄)
                      (p_code-Run fr lf.law.size (λ n. 0) (λ k. ⊥) end_vector m₄ (λ n lt. refl) tt)
