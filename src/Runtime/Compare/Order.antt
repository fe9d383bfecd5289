-- ===== src/Runtime/Compare/Order.antt =====
-- oplr/src/EN_CMP.CPP: the six comparisons of a type agree with one order on its values.
use opl_dev.Prelude.{
  ℕ, ◌≤◌, List, [], ◌∷◌, ◌≡◌, refl, Bool, true, false, length, ltb, leb, ◌==◌, if◌then◌else◌, arith,
}
use opl_dev.Prelude.Int.{ℤ, pos, negsuc, ltb_ℤ, leb_ℤ}
use opl_dev.Prelude.Outcome.{Outcome}
use opl_dev.Translator.Token.{OplType, word, long, string}
use opl_dev.Runtime.Stack.{Item, int16, int32, text, Stack, pop_int16, pop_int32, pop_text}
use opl_dev.Runtime.Reals.{Platform}
use opl_dev.Runtime.Arith.{push_int, opl_bool}
use opl_dev.Runtime.Compare.{
  text_less, text_equal, not_b, compare_less_than, compare_less_or_equal, compare_greater_than,
  compare_greater_or_equal, compare_equal, compare_not_equal,
}

-- How a value stands to another.
pub data Relation : Type 0 where
  below same above : Relation

pub data Comparison : Type 0 where
  less_than less_or_equal greater_than greater_or_equal equal not_equal : Comparison

-- The relations in which a comparison is true.
abbrev pub accepts : Comparison → Relation → Bool
accepts less_than below = true
accepts less_or_equal below = true
accepts less_or_equal same = true
accepts greater_than above = true
accepts greater_or_equal above = true
accepts greater_or_equal same = true
accepts equal same = true
accepts not_equal below = true
accepts not_equal above = true
accepts c r = false

abbrev pub number_relation : ℤ → ℤ → Relation
number_relation (pos a) (pos b) = if ltb a b then below else (if a == b then same else above)
number_relation (pos a) (negsuc b) = above
number_relation (negsuc a) (pos b) = below
number_relation (negsuc a) (negsuc b) = if ltb b a then below else (if a == b then same else above)

-- Texts by their first code units that differ; a text that ends is below one that goes on.
abbrev pub text_relation : List ℕ → List ℕ → Relation
text_relation [] [] = same
text_relation [] (c ∷ t) = below
text_relation (b ∷ s) [] = above
text_relation (b ∷ s) (c ∷ t) =
    let rest = text_relation s t in if ltb b c then below else (if b == c then rest else above)

number_less : (a b : ℤ) → ltb_ℤ a b ≡ accepts less_than (number_relation a b)
number_less (pos a) (pos b) = ground arith
number_less (pos a) (negsuc b) = ground arith
number_less (negsuc a) (pos b) = ground arith
number_less (negsuc a) (negsuc b) = ground arith

number_more : (a b : ℤ) → ltb_ℤ b a ≡ accepts greater_than (number_relation a b)
number_more (pos a) (pos b) = ground arith
number_more (pos a) (negsuc b) = ground arith
number_more (negsuc a) (pos b) = ground arith
number_more (negsuc a) (negsuc b) = ground arith

number_at_most : (a b : ℤ) → leb_ℤ a b ≡ accepts less_or_equal (number_relation a b)
number_at_most (pos a) (pos b) = ground arith
number_at_most (pos a) (negsuc b) = ground arith
number_at_most (negsuc a) (pos b) = ground arith
number_at_most (negsuc a) (negsuc b) = ground arith

number_at_least : (a b : ℤ) → leb_ℤ b a ≡ accepts greater_or_equal (number_relation a b)
number_at_least (pos a) (pos b) = ground arith
number_at_least (pos a) (negsuc b) = ground arith
number_at_least (negsuc a) (pos b) = ground arith
number_at_least (negsuc a) (negsuc b) = ground arith

number_equal :
    (r : Relation)
    → (if accepts less_or_equal r then accepts greater_or_equal r else false) ≡ accepts equal r
number_equal r = ground arith

number_differ : (r : Relation) → not_b (accepts equal r) ≡ accepts not_equal r
number_differ r = ground arith

not_more : (r : Relation) → not_b (accepts greater_than r) ≡ accepts less_or_equal r
not_more r = ground arith

not_less : (r : Relation) → not_b (accepts less_than r) ≡ accepts greater_or_equal r
not_less r = ground arith

texts_less : (s t : List ℕ) → text_less s t ≡ accepts less_than (text_relation s t)
texts_less [] [] = refl
texts_less [] (c ∷ t) = refl
texts_less (b ∷ s) [] = refl
texts_less (b ∷ s) (c ∷ t) = ground (arith, texts_less s t)

texts_more : (s t : List ℕ) → text_less t s ≡ accepts greater_than (text_relation s t)
texts_more [] [] = refl
texts_more [] (c ∷ t) = refl
texts_more (b ∷ s) [] = refl
texts_more (b ∷ s) (c ∷ t) = ground (arith, texts_more s t)

texts_equal : (s t : List ℕ) → text_equal s t ≡ accepts equal (text_relation s t)
texts_equal [] [] = refl
texts_equal [] (c ∷ t) = refl
texts_equal (b ∷ s) [] = refl
texts_equal (b ∷ s) (c ∷ t) = ground (arith, texts_equal s t)

-- Two values of a type whose order is not the platform's.
pub data Pair : Type 0 where
  words : ℤ → ℤ → Pair
  longs : ℤ → ℤ → Pair
  texts : (l r : List ℕ) → length l ≤ 255 → length r ≤ 255 → Pair

abbrev pub pair_type : Pair → OplType
pair_type (words l r) = word
pair_type (longs l r) = long
pair_type (texts l r hl hr) = string

abbrev pub relation : Pair → Relation
relation (words l r) = number_relation l r
relation (longs l r) = number_relation l r
relation (texts l r hl hr) = text_relation l r

short : (t : List ℕ) → length t ≤ 255 → leb (length t) 255 ≡ true
short t h = ground arith

module _ (m : Platform) where
  abbrev pub compare_op : Comparison → OplType → Stack m.R → Outcome (Stack m.R)
  compare_op less_than = compare_less_than m
  compare_op less_or_equal = compare_less_or_equal m
  compare_op greater_than = compare_greater_than m
  compare_op greater_or_equal = compare_greater_or_equal m
  compare_op equal = compare_equal m
  compare_op not_equal = compare_not_equal m

  abbrev pub on_top : Pair → List (Item m.R) → List (Item m.R)
  on_top (words l r) is = int16 r ∷ int16 l ∷ is
  on_top (longs l r) is = int32 r ∷ int32 l ∷ is
  on_top (texts l r hl hr) is = text r ∷ text l ∷ is

  abbrev pub stack : List (Item m.R) → ℕ → ℕ → Stack m.R
  stack is capacity max = record { items = is; capacity = capacity; max_stack = max }

  -- Each of the six comparisons of two words, longs or texts on the stack, the right one on top,
  -- takes them off and pushes -1 or 0 as the one order on their type says: the six opcodes of a
  -- type agree with each other, and texts are ordered by their first difference.
  pub compare_op-relation :
      (c : Comparison) (p : Pair) (is : List (Item m.R)) (capacity max : ℕ)
      → compare_op c (pair_type p) (stack (on_top p is) capacity max)
        ≡ push_int (opl_bool (accepts c (relation p))) (stack is capacity max)
  unfolding compare_less_than compare_less_or_equal compare_greater_than compare_greater_or_equal
      compare_equal compare_not_equal pop_int16 pop_int32 pop_text
  compare_op-relation less_than (words l r) is n x = rw (number_less l r) refl
  compare_op-relation less_than (longs l r) is n x = rw (number_less l r) refl
  compare_op-relation less_than (texts l r hl hr) is n x =
      rw (short r hr, short l hl, texts_less l r) refl
  compare_op-relation less_or_equal (words l r) is n x = rw (number_at_most l r) refl
  compare_op-relation less_or_equal (longs l r) is n x = rw (number_at_most l r) refl
  compare_op-relation less_or_equal (texts l r hl hr) is n x =
      rw (short r hr, short l hl, texts_more l r, not_more (text_relation l r)) refl
  compare_op-relation greater_than (words l r) is n x = rw (number_more l r) refl
  compare_op-relation greater_than (longs l r) is n x = rw (number_more l r) refl
  compare_op-relation greater_than (texts l r hl hr) is n x =
      rw (short r hr, short l hl, texts_more l r) refl
  compare_op-relation greater_or_equal (words l r) is n x = rw (number_at_least l r) refl
  compare_op-relation greater_or_equal (longs l r) is n x = rw (number_at_least l r) refl
  compare_op-relation greater_or_equal (texts l r hl hr) is n x =
      rw (short r hr, short l hl, texts_less l r, not_less (text_relation l r)) refl
  compare_op-relation equal (words l r) is n x =
      rw (number_at_most l r, number_at_least l r, number_equal (number_relation l r)) refl
  compare_op-relation equal (longs l r) is n x =
      rw (number_at_most l r, number_at_least l r, number_equal (number_relation l r)) refl
  compare_op-relation equal (texts l r hl hr) is n x =
      rw (short r hr, short l hl, texts_equal l r) refl
  compare_op-relation not_equal (words l r) is n x =
      rw
        (
          number_at_most l r,
          number_at_least l r,
          number_equal (number_relation l r),
          number_differ (number_relation l r),
        )
        refl
  compare_op-relation not_equal (longs l r) is n x =
      rw
        (
          number_at_most l r,
          number_at_least l r,
          number_equal (number_relation l r),
          number_differ (number_relation l r),
        )
        refl
  compare_op-relation not_equal (texts l r hl hr) is n x =
      rw (short r hr, short l hl, texts_equal l r, number_differ (text_relation l r)) refl
