-- ===== src/Runtime/Sound.antt =====
-- The code generator (oplt/stran/OPL16GEN.CPP) and the runtime (oplr/src/) together: code that is
-- well typed as parse code is converted to qcode that finds its operands.
use opl_dev.Prelude.{ℕ, ◌≤◌, List, [], ◌∷◌, refl, Option, none, some, length, Bool-cases, inl, inr}
use opl_dev.Prelude.Outcome.{Outcome, ok, ◌>>=◌, Leaves, Leaves-if}
use opl_dev.Translator.Token.{
  OplType, word, long, real, string, u_word, Operator, Constant, type_of, word_value, long_value,
  real_value, string_value,
}
use opl_dev.Translator.Pcode.{Pcode, push_constant, unary, binary}
use opl_dev.Translator.Codegen.{constant_qcode, cast_qcode, operator_qcode, outside}
use opl_dev.Translator.Expr.Typing.{signature}
use opl_dev.Runtime.Stack.{Item, int16, int32, real64, text, Stack, push, push_text}
use opl_dev.Runtime.Reals.{Platform}
use opl_dev.Runtime.Execute.{run, step, op_code}
use opl_dev.Runtime.Arith.{
  push_int, push_long, add_int, add_long, subtract_int, subtract_long, multiply_int, multiply_long,
  divide_int, divide_long, and_int, and_long, or_int, or_long, not_int, not_long, unary_minus_int,
  unary_minus_long, add_string, and_float, or_float, not_float, unary_minus_float,
}
use opl_dev.Runtime.Maths.{
  power_of_int, power_of_long, add_float, subtract_float, multiply_float, divide_float,
  power_of_float, percent_greater_than, percent_less_than, percent_subtract, percent_multiply,
  percent_divide, percent_add,
}
use opl_dev.Runtime.Convert.{
  long_to_int, float_to_int, float_to_long, int_to_long, int_to_float, long_to_float, long_to_u_int,
  float_to_u_int,
}
use opl_dev.Runtime.Compare.{
  compare_less_than, compare_less_or_equal, compare_greater_than, compare_greater_or_equal,
  compare_equal, compare_not_equal,
}
use opl_dev.Runtime.Typed.{
  HasTypes, Typed, TypedOpcode, push_int-Typed, push_long-Typed, push_real-Typed, push_text-Typed,
}
use opl_dev.Runtime.Typed.Opcodes

ruleset pushes = (Leaves-if, push_int-Typed, push_long-Typed, push_real-Typed, push_text-Typed)

-- A text constant is no longer than a text may be.
abbrev pub ShortText : {R : Type 0} → Constant R → Type 0
ShortText (string_value t) = length t ≤ 255
ShortText c = Unit

abbrev pub ShortTexts : {R : Type 0} → List (Pcode R) → Type 0
ShortTexts [] = Unit
ShortTexts (push_constant c ∷ ps) = ShortText c × ShortTexts ps
ShortTexts (p ∷ ps) = ShortTexts ps

-- A word is held alike with a sign and without.
unsigned_items :
    {R : Type 0} (ts : List OplType) (is : List (Item R))
    → HasTypes (u_word ∷ ts) is
    → HasTypes (word ∷ ts) is
unsigned_items ts [] h = absurd h
unsigned_items ts (int16 n ∷ is) h = h
unsigned_items ts (int32 n ∷ is) h = absurd h.0
unsigned_items ts (real64 x ∷ is) h = absurd h.0
unsigned_items ts (text t ∷ is) h = absurd h.0
unsigned_items ts (Item.ref_int16 a ∷ is) h = absurd h.0
unsigned_items ts (Item.ref_int32 a ∷ is) h = absurd h.0
unsigned_items ts (Item.ref_real64 a ∷ is) h = absurd h.0
unsigned_items ts (Item.ref_text a ∷ is) h = absurd h.0

signed_items :
    {R : Type 0} (ts : List OplType) (is : List (Item R))
    → HasTypes (word ∷ ts) is
    → HasTypes (u_word ∷ ts) is
signed_items ts [] h = absurd h
signed_items ts (int16 n ∷ is) h = h
signed_items ts (int32 n ∷ is) h = absurd h.0
signed_items ts (real64 x ∷ is) h = absurd h.0
signed_items ts (text t ∷ is) h = absurd h.0
signed_items ts (Item.ref_int16 a ∷ is) h = absurd h.0
signed_items ts (Item.ref_int32 a ∷ is) h = absurd h.0
signed_items ts (Item.ref_real64 a ∷ is) h = absurd h.0
signed_items ts (Item.ref_text a ∷ is) h = absurd h.0

module _ (m : Platform) (rest : ℕ → Stack m.R → Outcome (Stack m.R)) where
  Leaves-ok : {A : Type 0} (P : A → Type 0) (o : Outcome A) → Leaves P o → Leaves P (o >>= ok)
  Leaves-ok P (ok a) h = h
  Leaves-ok P (Outcome.leave e) h = tt
  Leaves-ok P (Outcome.panic e) h = h
  Leaves-ok P Outcome.spent h = h

  as_word : (ts : List OplType) (s : Stack m.R) → Typed (u_word ∷ ts) s → Typed (word ∷ ts) s
  as_word ts s h = unsigned_items ts s.items h

  as_u_word : (ts : List OplType) (s : Stack m.R) → Typed (word ∷ ts) s → Typed (u_word ∷ ts) s
  as_u_word ts s h = signed_items ts s.items h

  -- What an operator's opcode does with operands of a type, where the operator has that type.
  abbrev pub TypedResult :
      Option OplType → List OplType → (Stack m.R → Outcome (Stack m.R)) → Type 0
  TypedResult none ins f = Unit
  TypedResult (some r) ins f = TypedOpcode ins r f

  single2 :
      (a r : OplType) (f : Stack m.R → Outcome (Stack m.R))
      → TypedOpcode (a ∷ a ∷ []) r f
      → TypedOpcode (a ∷ a ∷ []) r (λ s. f s >>= ok)
  single2 a r f h ts s hs = Leaves-ok (Typed (r ∷ ts)) (f s) (h ts s hs)

  single1 :
      (a r : OplType) (f : Stack m.R → Outcome (Stack m.R))
      → TypedOpcode (a ∷ []) r f
      → TypedOpcode (a ∷ []) r (λ s. f s >>= ok)
  single1 a r f h ts s hs = Leaves-ok (Typed (r ∷ ts)) (f s) (h ts s hs)

  -- An operator's opcode with two operands
  pub apply_binary-Typed :
      (op : Operator) (t : OplType)
      → TypedResult
          (signature op binary t)
          (t ∷ t ∷ [])
          (λ s. operator_qcode t op >>= λ qs. run m rest qs s)
  unfolding signature operator_qcode run step op_code
  apply_binary-Typed Operator.less_than word =
      single2 word word (compare_less_than m word) (Opcodes.compare_less_than-Typed m word refl)
  apply_binary-Typed Operator.less_than long =
      single2 long word (compare_less_than m long) (Opcodes.compare_less_than-Typed m long refl)
  apply_binary-Typed Operator.less_than real =
      single2 real word (compare_less_than m real) (Opcodes.compare_less_than-Typed m real refl)
  apply_binary-Typed Operator.less_than string =
      single2 string word (compare_less_than m string)
        (Opcodes.compare_less_than-Typed m string refl)
  apply_binary-Typed Operator.less_than_eq word =
      single2 word word (compare_less_or_equal m word)
        (Opcodes.compare_less_or_equal-Typed m word refl)
  apply_binary-Typed Operator.less_than_eq long =
      single2 long word (compare_less_or_equal m long)
        (Opcodes.compare_less_or_equal-Typed m long refl)
  apply_binary-Typed Operator.less_than_eq real =
      single2 real word (compare_less_or_equal m real)
        (Opcodes.compare_less_or_equal-Typed m real refl)
  apply_binary-Typed Operator.less_than_eq string =
      single2 string word (compare_less_or_equal m string)
        (Opcodes.compare_less_or_equal-Typed m string refl)
  apply_binary-Typed Operator.greater_than word =
      single2 word word (compare_greater_than m word)
        (Opcodes.compare_greater_than-Typed m word refl)
  apply_binary-Typed Operator.greater_than long =
      single2 long word (compare_greater_than m long)
        (Opcodes.compare_greater_than-Typed m long refl)
  apply_binary-Typed Operator.greater_than real =
      single2 real word (compare_greater_than m real)
        (Opcodes.compare_greater_than-Typed m real refl)
  apply_binary-Typed Operator.greater_than string =
      single2 string word (compare_greater_than m string)
        (Opcodes.compare_greater_than-Typed m string refl)
  apply_binary-Typed Operator.greater_than_eq word =
      single2 word word (compare_greater_or_equal m word)
        (Opcodes.compare_greater_or_equal-Typed m word refl)
  apply_binary-Typed Operator.greater_than_eq long =
      single2 long word (compare_greater_or_equal m long)
        (Opcodes.compare_greater_or_equal-Typed m long refl)
  apply_binary-Typed Operator.greater_than_eq real =
      single2 real word (compare_greater_or_equal m real)
        (Opcodes.compare_greater_or_equal-Typed m real refl)
  apply_binary-Typed Operator.greater_than_eq string =
      single2 string word (compare_greater_or_equal m string)
        (Opcodes.compare_greater_or_equal-Typed m string refl)
  apply_binary-Typed Operator.equal word =
      single2 word word (compare_equal m word) (Opcodes.compare_equal-Typed m word refl)
  apply_binary-Typed Operator.equal long =
      single2 long word (compare_equal m long) (Opcodes.compare_equal-Typed m long refl)
  apply_binary-Typed Operator.equal real =
      single2 real word (compare_equal m real) (Opcodes.compare_equal-Typed m real refl)
  apply_binary-Typed Operator.equal string =
      single2 string word (compare_equal m string) (Opcodes.compare_equal-Typed m string refl)
  apply_binary-Typed Operator.not_equal word =
      single2 word word (compare_not_equal m word) (Opcodes.compare_not_equal-Typed m word refl)
  apply_binary-Typed Operator.not_equal long =
      single2 long word (compare_not_equal m long) (Opcodes.compare_not_equal-Typed m long refl)
  apply_binary-Typed Operator.not_equal real =
      single2 real word (compare_not_equal m real) (Opcodes.compare_not_equal-Typed m real refl)
  apply_binary-Typed Operator.not_equal string =
      single2 string word (compare_not_equal m string)
        (Opcodes.compare_not_equal-Typed m string refl)
  apply_binary-Typed Operator.plus word = single2 word word add_int Opcodes.add_int-Typed
  apply_binary-Typed Operator.plus long = single2 long long add_long Opcodes.add_long-Typed
  apply_binary-Typed Operator.plus real =
      single2 real real (add_float m) (Opcodes.add_float-Typed m)
  apply_binary-Typed Operator.plus string =
      single2 string string add_string Opcodes.add_string-Typed
  apply_binary-Typed Operator.minus word = single2 word word subtract_int Opcodes.subtract_int-Typed
  apply_binary-Typed Operator.minus long =
      single2 long long subtract_long Opcodes.subtract_long-Typed
  apply_binary-Typed Operator.minus real =
      single2 real real (subtract_float m) (Opcodes.subtract_float-Typed m)
  apply_binary-Typed Operator.multiply word =
      single2 word word multiply_int Opcodes.multiply_int-Typed
  apply_binary-Typed Operator.multiply long =
      single2 long long multiply_long Opcodes.multiply_long-Typed
  apply_binary-Typed Operator.multiply real =
      single2 real real (multiply_float m) (Opcodes.multiply_float-Typed m)
  apply_binary-Typed Operator.divide word = single2 word word divide_int Opcodes.divide_int-Typed
  apply_binary-Typed Operator.divide long = single2 long long divide_long Opcodes.divide_long-Typed
  apply_binary-Typed Operator.divide real =
      single2 real real (divide_float m) (Opcodes.divide_float-Typed m)
  apply_binary-Typed Operator.power word = single2 word word power_of_int Opcodes.power_of_int-Typed
  apply_binary-Typed Operator.power long =
      single2 long long power_of_long Opcodes.power_of_long-Typed
  apply_binary-Typed Operator.power real =
      single2 real real (power_of_float m) (Opcodes.power_of_float-Typed m)
  apply_binary-Typed Operator.and word = single2 word word and_int Opcodes.and_int-Typed
  apply_binary-Typed Operator.and long = single2 long long and_long Opcodes.and_long-Typed
  apply_binary-Typed Operator.and real = single2 real word (and_float m) (Opcodes.and_float-Typed m)
  apply_binary-Typed Operator.or word = single2 word word or_int Opcodes.or_int-Typed
  apply_binary-Typed Operator.or long = single2 long long or_long Opcodes.or_long-Typed
  apply_binary-Typed Operator.or real = single2 real word (or_float m) (Opcodes.or_float-Typed m)
  apply_binary-Typed Operator.perc_less real =
      single2 real real (percent_less_than m) (Opcodes.percent_less_than-Typed m)
  apply_binary-Typed Operator.perc_greater real =
      single2 real real (percent_greater_than m) (Opcodes.percent_greater_than-Typed m)
  apply_binary-Typed Operator.perc_plus real =
      single2 real real (percent_add m) (Opcodes.percent_add-Typed m)
  apply_binary-Typed Operator.perc_minus real =
      single2 real real (percent_subtract m) (Opcodes.percent_subtract-Typed m)
  apply_binary-Typed Operator.perc_multiply real =
      single2 real real (percent_multiply m) (Opcodes.percent_multiply-Typed m)
  apply_binary-Typed Operator.perc_divide real =
      single2 real real (percent_divide m) (Opcodes.percent_divide-Typed m)
  apply_binary-Typed op t = tt

  -- And with one; a close bracket has no opcode.
  pub apply_unary-Typed :
      (op : Operator) (t : OplType)
      → TypedResult
          (signature op unary t)
          (t ∷ [])
          (λ s. operator_qcode t op >>= λ qs. run m rest qs s)
  unfolding signature operator_qcode run step op_code
  apply_unary-Typed Operator.not word = single1 word word not_int Opcodes.not_int-Typed
  apply_unary-Typed Operator.not long = single1 long long not_long Opcodes.not_long-Typed
  apply_unary-Typed Operator.not real = single1 real word (not_float m) (Opcodes.not_float-Typed m)
  apply_unary-Typed Operator.unary_minus word =
      single1 word word unary_minus_int Opcodes.unary_minus_int-Typed
  apply_unary-Typed Operator.unary_minus long =
      single1 long long unary_minus_long Opcodes.unary_minus_long-Typed
  apply_unary-Typed Operator.unary_minus real =
      single1 real real (unary_minus_float m) (Opcodes.unary_minus_float-Typed m)
  apply_unary-Typed Operator.close_bracket word = λ ts s h. h
  apply_unary-Typed Operator.close_bracket long = λ ts s h. h
  apply_unary-Typed Operator.close_bracket real = λ ts s h. h
  apply_unary-Typed Operator.close_bracket string = λ ts s h. h
  apply_unary-Typed op t = tt

  -- A cast's opcode, or none.
  pub cast-Typed :
      (a b : OplType) (ts : List OplType) (s : Stack m.R)
      → Typed (a ∷ ts) s
      → Leaves (Typed (b ∷ ts)) (cast_qcode a b >>= λ qs. run m rest qs s)
  unfolding cast_qcode run step op_code
  cast-Typed word word ts s h = h
  cast-Typed word long ts s h = single1 word long int_to_long Opcodes.int_to_long-Typed ts s h
  cast-Typed word real ts s h =
      single1 word real (int_to_float m) (Opcodes.int_to_float-Typed m) ts s h
  cast-Typed word string ts s h = tt
  cast-Typed word u_word ts s h = as_u_word ts s h
  cast-Typed long word ts s h = single1 long word long_to_int Opcodes.long_to_int-Typed ts s h
  cast-Typed long long ts s h = h
  cast-Typed long real ts s h =
      single1 long real (long_to_float m) (Opcodes.long_to_float-Typed m) ts s h
  cast-Typed long string ts s h = tt
  cast-Typed long u_word ts s h =
      single1 long u_word long_to_u_int Opcodes.long_to_u_int-Typed ts s h
  cast-Typed real word ts s h =
      single1 real word (float_to_int m) (Opcodes.float_to_int-Typed m) ts s h
  cast-Typed real long ts s h =
      single1 real long (float_to_long m) (Opcodes.float_to_long-Typed m) ts s h
  cast-Typed real real ts s h = h
  cast-Typed real string ts s h = tt
  cast-Typed real u_word ts s h =
      single1 real u_word (float_to_u_int m) (Opcodes.float_to_u_int-Typed m) ts s h
  cast-Typed string word ts s h = tt
  cast-Typed string long ts s h = tt
  cast-Typed string real ts s h = tt
  cast-Typed string string ts s h = h
  cast-Typed string u_word ts s h = tt
  cast-Typed u_word word ts s h = as_word ts s h
  cast-Typed u_word long ts s h =
      single1 word long int_to_long Opcodes.int_to_long-Typed ts s (as_word ts s h)
  cast-Typed u_word real ts s h =
      single1 word real (int_to_float m) (Opcodes.int_to_float-Typed m) ts s (as_word ts s h)
  cast-Typed u_word string ts s h = tt
  cast-Typed u_word u_word ts s h = h

  -- A constant's opcode
  pub constant-Typed :
      (c : Constant m.R) (ts : List OplType) (s : Stack m.R)
      → ShortText c
      → Typed ts s
      → Leaves (Typed (type_of c ∷ ts)) (run m rest (constant_qcode c) s)
  unfolding constant_qcode run step
  constant-Typed (word_value n) ts s short hs = elim (Bool-cases (outside 128 127 n)) [
    | inl e ↦ rw e (Leaves-ok (Typed (word ∷ ts)) (push_int n s) (push_int-Typed n ts s hs))
    | inr e ↦ rw e (Leaves-ok (Typed (word ∷ ts)) (push_int _ s) (push_int-Typed _ ts s hs))
  ]
  constant-Typed (long_value n) ts s short hs = elim (Bool-cases (outside 128 127 n)) [
    | inl e ↦ elim (Bool-cases (outside 32768 32767 n)) [
      | inl f ↦
          rw (e, f) (Leaves-ok (Typed (long ∷ ts)) (push_long n s) (push_long-Typed n ts s hs))
      | inr f ↦
          rw (e, f) (Leaves-ok (Typed (long ∷ ts)) (push_long _ s) (push_long-Typed _ ts s hs))
    ]
    | inr e ↦ rw e (Leaves-ok (Typed (long ∷ ts)) (push_long _ s) (push_long-Typed _ ts s hs))
  ]
  constant-Typed (real_value x) ts s short hs =
      Leaves-ok (Typed (real ∷ ts)) (push (real64 x) s) (push_real-Typed x ts s hs)
  constant-Typed (string_value t) ts s short hs =
      Leaves-ok (Typed (string ∷ ts)) (push_text t s) (push_text-Typed t ts s short hs)
