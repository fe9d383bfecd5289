-- ===== src/Tests/Lexing.antt =====
-- Samples for oplt/stran/OT_LEX.CPP and OT_UTL.CPP: a platform whose letters are the capitals and whose numbers
-- are one digit, and a few lines.
use opl_dev.Prelude.{
  ℕ, ◌-◌, List, [], ◌∷◌, ◌≡◌, ◌⊎◌, refl, Bool, true, false, ◌&&◌, ◌||◌, Option, none, some, length,
  leb, ltb, ◌==◌, if◌then◌else◌, if-holds, inl, inr, arith,
}
use opl_dev.Prelude.Int.{pos, pos_part, IsInt16}
use opl_dev.Prelude.Outcome.{ok, leave, type_mismatch, Leaves}
use opl_dev.Translator.Token.{string_value, long_value}
use opl_dev.Translator.Token.Values.{as_word_l, as_long_l, as_word_l-IsInt16}
use opl_dev.Translator.Expr.Find.{IsSource, Shrinks}
use opl_dev.Translator.Lexer.{
  Characters, Settings, Line, function_word, no_word, is_reserved, constant_token, lex_l,
}
use opl_dev.Translator.Lexer.Functions.{function_row}
use opl_dev.Translator.Lexer.Shrinks.{Takes, LawfulCharacters}
use opl_dev.Translator.Lexer.Lawful.{lex_l-Read}
use opl_dev.Translator.Lexer.Texts.{escaped, lex_l-literal}
use opl_dev.Translator.Lexer.Words.{is_reserved-words_of, words_of}

abbrev is_capital : ℕ → Bool
is_capital c = leb 65 c && leb c 90

abbrev is_figure : ℕ → Bool
is_figure c = leb 48 c && leb c 57

-- The number of one figure at the start of a text
figure : {A : Type 0} → (ℕ → A) → List ℕ → Option (A × List ℕ)
figure f [] = none
figure f (c ∷ cs) = if is_figure c then some (f (c - 48), cs) else none

figure-Takes : {A : Type 0} (f : ℕ → A) (cs : List ℕ) → Takes cs (figure f cs)
unfolding figure
figure-Takes f [] = tt
figure-Takes f (c ∷ cs) = if-holds (Takes (c ∷ cs)) (is_figure c) _ _ (omega arith) tt

abbrev capitals : Characters ℕ
capitals = record {
  is_space = λ c. c == 32;
  is_digit = is_figure;
  is_alpha = is_capital;
  is_alpha_digit = λ c. is_capital c || is_figure c;
  upper = λ c. c;
  val_word = figure pos;
  val_long = figure pos;
  val_real = λ separator. figure (λ n. n);
  val_hex_word = figure (λ n. n);
  val_hex_long = figure (λ n. n);
}

or_left : (a b : Bool) → a ≡ true → (a || b) ≡ true
or_left true b h = refl
or_left false b h = cc

capitals_law : LawfulCharacters ℕ capitals
capitals_law = record {
  alpha_lem = λ c h. or_left (is_capital c) (is_figure c) h;
  val_word_lem = figure-Takes pos;
  val_long_lem = figure-Takes pos;
  val_real_lem = λ separator. figure-Takes (λ n. n);
  val_hex_word_lem = figure-Takes (λ n. n);
  val_hex_long_lem = figure-Takes (λ n. n);
}

abbrev module_settings : Settings ℕ
module_settings = record {
  decimal_separator = 46;
  target = 4;
  max_ident = 32;
  symbols = none;
  is_line = false;
}

abbrev line_of : List ℕ → Line ℕ
line_of cs = record {
  rest = cs;
  marked = [];
  type = none;
  text = [];
  constant = none;
  reserved_word = no_word;
  device = none;
}

-- ` A%>=5`
abbrev sample_text : List ℕ
sample_text = 32 ∷ 65 ∷ 37 ∷ 62 ∷ 61 ∷ 53 ∷ []

lex_l-Read_example :
    Leaves
      (λ r. IsSource false r.0 × Shrinks r.0 (length r.1.rest) 6)
      (lex_l capitals module_settings (line_of sample_text))
lex_l-Read_example = lex_l-Read capitals module_settings capitals_law (line_of sample_text)

-- `A"` between quotes, with a bracket behind it
lex_l-literal_example :
    lex_l capitals module_settings (line_of (34 ∷ 65 ∷ 34 ∷ 34 ∷ 34 ∷ 41 ∷ []))
    ≡ ok (
        constant_token
          (string_value (65 ∷ 34 ∷ []))
          (41 ∷ [])
          (record (line_of (34 ∷ 65 ∷ 34 ∷ 34 ∷ 34 ∷ 41 ∷ [])) {
            marked = 34 ∷ 65 ∷ 34 ∷ 34 ∷ 34 ∷ 41 ∷ [];
            text = 65 ∷ 34 ∷ [];
          }))
unfolding escaped
lex_l-literal_example =
    lex_l-literal capitals module_settings (65 ∷ 34 ∷ []) (41 ∷ [])
      (line_of (34 ∷ 65 ∷ 34 ∷ 34 ∷ 34 ∷ 41 ∷ [])) refl refl (λ e. absurd (omega (arith, e)))
      (λ e. absurd (omega (arith, e))) refl

abbrev abs_word : List ℕ
abs_word = 0x42 ∷ 0x53 ∷ []

is_reserved-words_of_example :
    is_reserved 4 (65 ∷ abs_word) ≡ function_word (function_row abs_word 255 2 81 2 3)
unfolding words_of
is_reserved-words_of_example =
    is_reserved-words_of 4 0 (function_word (function_row abs_word 255 2 81 2 3)) (inr refl)
      (omega arith) (inl refl) refl

-- 70000 as a long, where reals are numbers
as_word_l-IsInt16_example :
    (as_long_l
        (λ x. ltb 32767 x)
        (λ x. ltb 0x7fff_ffff x)
        pos
        pos_part
        (λ x. x)
        (long_value (pos 70000))
      ≡ ok (pos 70000))
    × ((IsInt16 (pos 70000)
          × (as_word_l
                (λ x. ltb 32767 x)
                (λ x. ltb 0x7fff_ffff x)
                pos
                pos_part
                (λ x. x)
                (long_value (pos 70000))
              ≡ ok (pos 70000)))
        ⊎ ((IsInt16 (pos 70000) → ⊥)
            × (as_word_l
                  (λ x. ltb 32767 x)
                  (λ x. ltb 0x7fff_ffff x)
                  pos
                  pos_part
                  (λ x. x)
                  (long_value (pos 70000))
                ≡ leave type_mismatch)))
as_word_l-IsInt16_example =
    as_word_l-IsInt16 (λ x. ltb 32767 x) (λ x. ltb 0x7fff_ffff x) pos pos_part (λ x. x)
      (long_value (pos 70000)) (pos 70000) (refl, (omega arith, omega arith))
