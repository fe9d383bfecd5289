-- ===== src/Tests/Parse.antt =====
-- Samples for oplt/stran/OT_EXPR.CPP: a lexer over a list of tokens, operands that are constants.
use opl_dev.Prelude.{
  ◌<◌, List, [], ◌∷◌, ◌++◌, ◌≡◌, refl, Bool, true, false, ◌&&◌, length, leb, ◌==◌, if◌then◌else◌,
  none, Bool-cases, inl, inr, arith,
}
use opl_dev.Prelude.Int.{ℤ, pos}
use opl_dev.Prelude.Outcome.{Outcome, ok, leave, ◌>>=◌, syntax, Leaves}
use opl_dev.Translator.Token.{
  OplType, word, long, real, string, u_word, Operator, number, Token, Identifier, Callable,
  operator, identifier, punctuation, call, Punctuation, Constant, word_value, long_value,
  real_value, string_value,
}
use opl_dev.Translator.Pcode.{Pcode, push_constant}
use opl_dev.Translator.Expr.{
  Lexer, Operands, Parser, StackedOperator, expression, expression_of, output_percent,
}
use opl_dev.Translator.Expr.Percent.{output_percent-string}
use opl_dev.Translator.Expr.Typing.{check, Pushes, Pushes-push_constant}
use opl_dev.Translator.Expr.Find.{IsSource, Shrinks, LawfulLexer, LawfulOperands, Extends}
use opl_dev.Translator.Expr.Sound.{expression-Extends, expression_of-Extends}

-- The type of the last token, and the tokens with their types that are left.
abbrev Source : Type 0
Source = OplType × List (Token × OplType)

abbrev readable : Operator → Bool
readable op = leb (number op) 19 && (if number op == 16 then false else true)

sample_lex : Source → Outcome (Token × Source)
sample_lex (t, []) = ok (punctuation Punctuation.eos, (t, []))
sample_lex (t, (operator op, u) ∷ rest) =
    if readable op then ok (operator op, (u, rest)) else leave syntax
sample_lex (t, (token, u) ∷ rest) = ok (token, (u, rest))

abbrev sample_lexer : Lexer
sample_lexer = record {
  State = Source;
  lex = sample_lex;
  next_char = λ s. ok (65, s);
  type = λ s. s.0;
}

abbrev value_of : OplType → Outcome (Constant ℤ)
value_of word = ok (word_value (pos 7))
value_of long = ok (long_value (pos 70000))
value_of real = ok (real_value (pos 1))
value_of string = ok (string_value (72 ∷ 105 ∷ []))
value_of u_word = leave syntax

abbrev with_constant : Constant ℤ → Parser Source ℤ → Parser Source ℤ
with_constant c p = record p { code = p.code ++ push_constant c ∷ [] }

sample_reference : Token → Parser Source ℤ → Outcome (Parser Source ℤ)
sample_reference token p = value_of p.lexer.0 >>= λ c. ok (with_constant c p)

sample_call : Token → Parser Source ℤ → Outcome (OplType × Parser Source ℤ)
sample_call token p = ok (long, with_constant (long_value (pos 70000)) p)

abbrev sample_operands : Operands sample_lexer ℤ
sample_operands = record { right_side_reference = sample_reference; call = sample_call }

readable_source :
    (op : Operator)
    → readable op ≡ true
    → (leb (number op) 19 ≡ true) × ((true && (number op == 16)) ≡ false)
readable_source op h = ground arith

sample_lex_lem :
    (l : Source)
    → Leaves (λ r. IsSource true r.0 × Shrinks r.0 (length r.1.1) (length l.1)) (sample_lex l)
unfolding sample_lex
sample_lex_lem (t, []) = (tt, omega arith)
sample_lex_lem (t, (operator op, u) ∷ rest) = elim (Bool-cases (readable op)) [
  | inl e ↦ rw e (readable_source op e, omega arith)
  | inr e ↦ rw e tt
]
sample_lex_lem (t, (punctuation m, u) ∷ rest) = (tt, omega arith)
sample_lex_lem (t, (token, u) ∷ rest) = (tt, omega arith)

sample_law : LawfulLexer true sample_lexer
sample_law = record {
  size = λ s. length s.1;
  lex_lem = sample_lex_lem;
  next_char_lem = λ s. omega arith;
}

value_of-Extends :
    (t : OplType) (p : Parser Source ℤ)
    → Leaves
        (Extends sample_lexer true (λ s. length s.1) p t)
        (value_of t >>= λ c. ok (with_constant c p))
value_of-Extends word p = (refl, (_, refl, Pushes-push_constant _, refl), omega arith)
value_of-Extends long p = (refl, (_, refl, Pushes-push_constant _, refl), omega arith)
value_of-Extends real p = (refl, (_, refl, Pushes-push_constant _, refl), omega arith)
value_of-Extends string p = (refl, (_, refl, Pushes-push_constant _, refl), omega arith)
value_of-Extends u_word p = tt

sample_reference_lem :
    (i : Identifier) (p : Parser Source ℤ)
    → Leaves
        (Extends sample_lexer true (λ s. length s.1) p p.lexer.0)
        (sample_reference (identifier i) p)
unfolding sample_reference
sample_reference_lem i p = value_of-Extends p.lexer.0 p

sample_call_lem :
    (c : Callable) (p : Parser Source ℤ)
    → Leaves (λ r. Extends sample_lexer true (λ s. length s.1) p r.0 r.1) (sample_call (call c) p)
unfolding sample_call
sample_call_lem c p = (refl, (_, refl, Pushes-push_constant _, refl), omega arith)

sample_lawful : LawfulOperands true sample_lexer sample_law ℤ sample_operands
unfolding sample_law
sample_lawful = record { reference_lem = sample_reference_lem; call_lem = sample_call_lem }

-- 7 + 70000 * (7 - 1.0) < 7
abbrev sample_source : Source
sample_source = (
  word,
  (identifier Identifier.constant, word)
      ∷ (operator Operator.plus, word)
      ∷ (call Callable.function, long)
      ∷ (operator Operator.multiply, word)
      ∷ (operator Operator.open_bracket, word)
      ∷ (identifier Identifier.simple, word)
      ∷ (operator Operator.minus, word)
      ∷ (identifier Identifier.simple, real)
      ∷ (operator Operator.close_bracket, word)
      ∷ (operator Operator.less_than, word)
      ∷ (identifier Identifier.constant, word)
      ∷ [],
)

abbrev sample_parser : Parser Source ℤ
sample_parser = record { operator_stack = []; code = []; lexer = sample_source }

in_fuel : (length sample_source.1) < 12
in_fuel = omega arith

expression-Extends_example :
    Leaves
      (λ r. Extends sample_lexer true sample_law.size sample_parser r.0 r.1)
      (expression sample_lexer ℤ sample_operands 12 sample_parser)
unfolding sample_law
expression-Extends_example =
    expression-Extends true sample_lexer sample_law ℤ sample_operands sample_lawful 12 sample_parser
      in_fuel

expression_of-Extends_example :
    Leaves
      (λ p'.
        (p'.operator_stack ≡ [])
        × ((seg : List (Pcode ℤ)) × (p'.code ≡ [] ++ seg) × Pushes seg long))
      (expression_of sample_lexer ℤ sample_operands 12 long sample_parser)
unfolding sample_law
expression_of-Extends_example =
    expression_of-Extends true sample_lexer sample_law ℤ sample_operands sample_lawful 12 long
      sample_parser in_fuel

-- The comparison of floats gives a word.
sample_type : Outcome OplType
unfolding expression
sample_type = expression sample_lexer ℤ sample_operands 12 sample_parser >>= λ r. ok r.0

abbrev plus_percent : StackedOperator
plus_percent = record { operator = Operator.perc_plus; type = string; pcode_pos = 0 }

output_percent-string_example :
    (code' : List (Pcode ℤ)) × (output_percent plus_percent string [] ≡ ok (real, code'))
    × ((s : List OplType) → check code' s ≡ none)
output_percent-string_example = output_percent-string plus_percent [] refl
