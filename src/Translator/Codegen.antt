-- ===== src/Translator/Codegen.antt =====
-- oplt/stran/OPL16GEN.CPP: the qcode that the parse code of an expression becomes. A code is the
-- byte that is written; a constant's follow it in one of several lengths.
use opl_dev.Prelude.{ℕ, List, [], ◌∷◌, ◌++◌, Bool, ◌||◌, get_elem?, ltb, ◌==◌, if◌then◌else◌}
use opl_dev.Prelude.Int.{ℤ, pos_part, neg_part}
use opl_dev.Prelude.Outcome.{Outcome, ok, leave, ◌>>=◌, checked, type_mismatch}
use opl_dev.Translator.Token.{
  OplType, rank, Operator, number, Constant, word_value, long_value, real_value, string_value,
}
use opl_dev.Translator.Pcode.{Pcode, push_constant, cast, apply}
use opl_dev.Runtime.Arith.{bits_or}

-- `TQcode16` with the operand that is written behind it.
pub data Qcode (R : Type 0) : Type 0 where
  code : ℕ → Qcode R
  constant_int : ℤ → Qcode R
  constant_long : ℤ → Qcode R
  constant_float : R → Qcode R
  constant_string : List ℕ → Qcode R
  stack_byte_as_word : ℤ → Qcode R
  stack_byte_as_long : ℤ → Qcode R
  stack_word_as_long : ℤ → Qcode R

-- `casts`: 0xff (EExtended) is a type mismatch, 0 is no cast.
abbrev pub casts : List (List ℕ)
casts =
    (0 ∷ 0x7b ∷ 0x7c ∷ 0xff ∷ 0 ∷ [])
    ∷ (0x78 ∷ 0 ∷ 0x7d ∷ 0xff ∷ 0x7e ∷ [])
    ∷ (0x79 ∷ 0x7a ∷ 0 ∷ 0xff ∷ 0x7f ∷ [])
    ∷ (0xff ∷ 0xff ∷ 0xff ∷ 0 ∷ 0xff ∷ [])
    ∷ (0 ∷ 0x7b ∷ 0x7c ∷ 0xff ∷ 0 ∷ [])
    ∷ []

-- `operators`
abbrev pub operators : List ℕ
operators =
    0 ∷ 0x30 ∷ 0x34 ∷ 0x38 ∷ 0x3c ∷ 0x40 ∷ 0x44 ∷ 0x48 ∷ 0x4c ∷ 0x50 ∷ 0x54 ∷ 0x58 ∷ 0x5c ∷ 0x60
    ∷ 0x64 ∷ 0x68 ∷ 0 ∷ 0 ∷ 0 ∷ 0 ∷ 0x6c ∷ 0x6d ∷ 0x6e ∷ 0x6f ∷ 0x70 ∷ 0x71 ∷ []

-- `val<-low || val>high`, for the two bounds
abbrev pub outside : ℕ → ℕ → ℤ → Bool
outside low high val = ltb low (neg_part val) || ltb high (pos_part val)

module _ {R : Type 0} where
  -- The case of EConstant
  unfoldable pub constant_qcode : Constant R → List (Qcode R)
  constant_qcode (word_value val) =
      if outside 128 127 val then constant_int val ∷ [] else stack_byte_as_word val ∷ []
  constant_qcode (long_value val) =
      if outside 128 127 val
      then (if outside 32768 32767 val then constant_long val ∷ [] else stack_word_as_long val ∷ [])
      else stack_byte_as_long val ∷ []
  constant_qcode (real_value x) = constant_float x ∷ []
  constant_qcode (string_value t) = constant_string t ∷ []

  -- The case of ECast
  unfoldable pub cast_qcode : OplType → OplType → Outcome (List (Qcode R))
  cast_qcode from to = do
    row ← checked (get_elem? casts (rank from))
    n ← checked (get_elem? row (rank to))
    if n == 0xff then leave type_mismatch else (if n == 0 then ok [] else ok (code n ∷ []))

  -- The case of EOperator
  unfoldable pub operator_qcode : OplType → Operator → Outcome (List (Qcode R))
  operator_qcode operand op = do
    n ← checked (get_elem? operators (number op))
    ok (
        if n == 0
        then []
        else (if ltb n 0x6c then code (bits_or 8 n (rank operand)) ∷ [] else code n ∷ []))

  unfoldable pub qcode : Pcode R → Outcome (List (Qcode R))
  unfolding constant_qcode cast_qcode operator_qcode
  qcode (push_constant c) = ok (constant_qcode c)
  qcode (cast from to) = cast_qcode from to
  qcode (apply operand result arity op) = operator_qcode operand op

  -- The loop of the converter
  unfoldable pub convert : List (Pcode R) → Outcome (List (Qcode R))
  convert [] = ok []
  convert (p ∷ ps) = qcode p >>= λ q. convert ps >>= λ qs. ok (q ++ qs)
