-- ===== src/Translator/Lexer/Lawful.antt =====
-- oplt/stran/OT_LEX.CPP, LexL: the lexer is one that the expression parser can rely on.
use opl_dev.Prelude.{
  ℕ, ◌≤◌, List, [], ◌∷◌, ◌≡◌, refl, Bool, true, false, ◌||◌, none, length, ◌==◌, if◌then◌else◌,
  Bool-cases, inl, inr, arith,
}
use opl_dev.Prelude.Outcome.{Outcome, Leaves, Leaves-weaken, Leaves-if}
use opl_dev.Translator.Token.{
  Token, operator, identifier, punctuation, call, keyword, structure, reserved,
}
use opl_dev.Translator.Expr.Find.{IsSource, Shrinks, LawfulLexer}
use opl_dev.Translator.Lexer.{
  Characters, Settings, Line, span, alpha_l, lex_from, lex_l, line_lexer,
}
use opl_dev.Translator.Lexer.Shrinks.{LawfulCharacters, Reads, Read, Reads-Read, span-shorter}
use opl_dev.Translator.Lexer.Lines.{
  lex_string-Reads, proc_by_name_l-Reads, character_l-Reads, next_char_l-shorter,
  dec_number_l-Reads, hex_number_l-Reads,
}
use opl_dev.Translator.Lexer.Names.{alpha_l-Reads}

module _ {R : Type 0} (ch : Characters R) (s : Settings R) (law : LawfulCharacters R ch) where
  letters : (c : ℕ) → (ch.is_alpha c || c == 95) ≡ true → (ch.is_alpha_digit c || c == 95) ≡ true
  letters c h = elim (Bool-cases (ch.is_alpha c)) [
    | inl e ↦ rw (law.alpha_lem c e) refl
    | inr e ↦ (let under : (c == 95) ≡ true = rw e at h in rw under (or_true (ch.is_alpha_digit c)))
  ]
    where
      or_true : (b : Bool) → (b || true) ≡ true
      or_true true = refl
      or_true false = refl

  word_at :
      (c : ℕ) (cs : List ℕ) (l : Line R) (o : Outcome (Token × Line R))
      → Leaves (Reads (length cs)) o
      → Leaves
          (Reads (length cs))
          (if ch.is_alpha c || c == 95 then alpha_l ch s (record l { rest = c ∷ cs }) else o)
  word_at c cs l o h = elim (Bool-cases (ch.is_alpha c || c == 95)) [
    | inl e ↦ rw e (alpha_l-Reads ch s c cs l (letters c e))
    | inr e ↦ rw e h
  ]

  lex_from-Read :
      (cs : List ℕ) (l : Line R)
      → Leaves (Read (length cs)) (lex_from ch s (record l { rest = cs }))
  unfolding lex_from
  lex_from-Read [] l = (tt, omega arith)
  lex_from-Read (c ∷ cs) l =
      let P : Token × Line R → Type 0 = Reads (length cs) in
      let here = record l { rest = c ∷ cs } in
      Reads-Read (length cs) _ (
        Leaves-if P (ch.is_digit c || c == s.decimal_separator) _ _
          (dec_number_l-Reads ch s law (length cs) here (omega arith))
          (Leaves-if P (c == 38 || c == 36) _ _
            (hex_number_l-Reads ch s law (length cs) here (omega arith))
            (Leaves-if P (c == 34) _ _ (lex_string-Reads c cs l) (
              word_at c cs l _ (
                Leaves-if P (c == 64) _ _ (proc_by_name_l-Reads c cs l)
                  (character_l-Reads c cs l))))))

  Shrinks-weaken : (t : Token) (m a b : ℕ) → a ≤ b → Shrinks t m a → Shrinks t m b
  Shrinks-weaken (operator op) m a b h k = omega (arith, h, k)
  Shrinks-weaken (identifier i) m a b h k = omega (arith, h, k)
  Shrinks-weaken (punctuation p) m a b h k = omega (arith, h, k)
  Shrinks-weaken (call c) m a b h k = omega (arith, h, k)
  Shrinks-weaken keyword m a b h k = omega (arith, h, k)
  Shrinks-weaken structure m a b h k = omega (arith, h, k)
  Shrinks-weaken reserved m a b h k = omega (arith, h, k)

  -- On any line the lexer returns a token, or leaves at an error, and nothing else: an operator is
  -- one that the expression parser's table has a column for; each token takes at least a character
  -- off the line, but for punctuation, the end of the line among it, which puts none back. The
  -- platform takes a letter for a letter or digit, and its conversions read at least a character
  -- where they succeed.
  pub lex_l-Read :
      (l : Line R)
      → Leaves
          (λ r. IsSource false r.0 × Shrinks r.0 (length r.1.rest) (length l.rest))
          (lex_l ch s l)
  unfolding lex_l
  lex_l-Read l =
      let start = (span ch.is_space l.rest).1 in
      let fewer = span-shorter ch.is_space l.rest in
      Leaves-weaken (lex_from ch s (record l { rest = start; marked = start; type = none }))
        (λ r h. (h.0, Shrinks-weaken r.0 _ (length start) (length l.rest) fewer h.1))
        (lex_from-Read start (record l { marked = start; type = none }))

  -- The lexer of a line has the laws that the parser's theorems ask of a lexer.
  pub line_law : LawfulLexer false (line_lexer ch s)
  line_law = record {
    size = λ l. length l.rest;
    lex_lem = lex_l-Read;
    next_char_lem = next_char_l-shorter;
  }
