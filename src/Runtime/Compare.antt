-- ===== src/Runtime/Compare.antt =====
-- oplr/src/EN_CMP.CPP: the comparison opcodes, each over the four types.
pub mod Order
use opl_dev.Prelude.{ℕ, List, [], ◌∷◌, Bool, true, false, ltb, ◌==◌, if◌then◌else◌}
use opl_dev.Prelude.Int.{ℤ, ltb_ℤ, leb_ℤ}
use opl_dev.Prelude.Outcome.{Outcome, panic, bad_type}
use opl_dev.Translator.Token.{OplType, word, long, real, string, u_word}
use opl_dev.Runtime.Stack.{Stack}
use opl_dev.Runtime.Reals.{Platform}
use opl_dev.Runtime.Arith.{with_ints, with_longs, with_floats, with_texts, push_int, opl_bool}

-- `TDesC16::Compare`: code unit by code unit, and a text that another goes on from is less.
abbrev pub text_less : List ℕ → List ℕ → Bool
text_less [] [] = false
text_less [] (c ∷ t) = true
text_less (b ∷ s) [] = false
text_less (b ∷ s) (c ∷ t) =
    let rest = text_less s t in if ltb b c then true else (if b == c then rest else false)

abbrev pub text_equal : List ℕ → List ℕ → Bool
text_equal [] [] = true
text_equal [] (c ∷ t) = false
text_equal (b ∷ s) [] = false
text_equal (b ∷ s) (c ∷ t) = let rest = text_equal s t in if b == c then rest else false

abbrev pub not_b : Bool → Bool
not_b true = false
not_b false = true

abbrev pub equal_ℤ : ℤ → ℤ → Bool
equal_ℤ a b = if leb_ℤ a b then leb_ℤ b a else false

module _ (m : Platform) where
  -- An opcode by its four tests, `left` first. There is none for unsigned words.
  abbrev pub compare_by :
      (ℤ → ℤ → Bool)
      → (m.R → m.R → Bool)
      → (List ℕ → List ℕ → Bool)
      → OplType
      → Stack m.R
      → Outcome (Stack m.R)
  compare_by on_numbers on_reals on_texts word =
      with_ints λ left right s. push_int (opl_bool (on_numbers left right)) s
  compare_by on_numbers on_reals on_texts long =
      with_longs λ left right s. push_int (opl_bool (on_numbers left right)) s
  compare_by on_numbers on_reals on_texts real =
      with_floats λ left right s. push_int (opl_bool (on_reals left right)) s
  compare_by on_numbers on_reals on_texts string =
      with_texts λ left right s. push_int (opl_bool (on_texts left right)) s
  compare_by on_numbers on_reals on_texts u_word = λ s. panic bad_type

  unfoldable pub compare_less_than : OplType → Stack m.R → Outcome (Stack m.R)
  compare_less_than = compare_by ltb_ℤ m.less text_less

  unfoldable pub compare_less_or_equal : OplType → Stack m.R → Outcome (Stack m.R)
  compare_less_or_equal =
      compare_by leb_ℤ m.less_or_equal (λ left right. not_b (text_less right left))

  unfoldable pub compare_greater_than : OplType → Stack m.R → Outcome (Stack m.R)
  compare_greater_than =
      compare_by (λ left right. ltb_ℤ right left) (λ left right. m.less right left)
        (λ left right. text_less right left)

  unfoldable pub compare_greater_or_equal : OplType → Stack m.R → Outcome (Stack m.R)
  compare_greater_or_equal =
      compare_by (λ left right. leb_ℤ right left) (λ left right. m.less_or_equal right left)
        (λ left right. not_b (text_less left right))

  unfoldable pub compare_equal : OplType → Stack m.R → Outcome (Stack m.R)
  compare_equal = compare_by equal_ℤ m.equal text_equal

  unfoldable pub compare_not_equal : OplType → Stack m.R → Outcome (Stack m.R)
  compare_not_equal =
      compare_by (λ left right. not_b (equal_ℤ left right))
        (λ left right. not_b (m.equal left right)) (λ left right. not_b (text_equal left right))
