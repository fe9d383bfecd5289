-- ===== src/Runtime/Execute.antt =====
-- oplr/src/OPCODES.CPP and PUSHOC.CPP: the opcode that a byte stands for, and the constants. The
-- opcodes of other files, which calls, branches and variables need, are the parameter `rest`.
pub mod Constants
use opl_dev.Prelude.{
  ℕ, zero, suc, ◌-◌, List, [], ◌∷◌, Option, none, some, get_elem?, ltb, if◌then◌else◌,
}
use opl_dev.Prelude.Int.{ℤ, from_bits, to_bits, to_int16}
use opl_dev.Prelude.Outcome.{Outcome, ok, ◌>>=◌}
use opl_dev.Translator.Token.{word, long, real, string}
use opl_dev.Translator.Codegen.{
  Qcode, code, constant_int, constant_long, constant_float, constant_string, stack_byte_as_word,
  stack_byte_as_long, stack_word_as_long,
}
use opl_dev.Runtime.Stack.{Stack, real64, push, push_text}
use opl_dev.Runtime.Reals.{Platform}
use opl_dev.Runtime.Arith.{
  push_int, push_long, add_int, add_long, subtract_int, subtract_long, multiply_int, multiply_long,
  divide_int, divide_long, and_int, and_long, or_int, or_long, not_int, not_long, unary_minus_int,
  unary_minus_long, add_string, and_float, or_float, not_float, unary_minus_float,
}
use opl_dev.Runtime.Compare.{
  compare_less_than, compare_less_or_equal, compare_greater_than, compare_greater_or_equal,
  compare_equal, compare_not_equal,
}
use opl_dev.Runtime.Maths.{
  power_of_int, power_of_long, add_float, subtract_float, multiply_float, divide_float,
  power_of_float, percent_greater_than, percent_less_than, percent_subtract, percent_multiply,
  percent_divide, percent_add,
}
use opl_dev.Runtime.Convert.{
  long_to_int, float_to_int, float_to_long, int_to_long, int_to_float, long_to_float, long_to_u_int,
  float_to_u_int,
}

-- `(TInt8)a`
abbrev pub to_int8 : ℤ → ℤ
to_int8 a = from_bits 0x80 (to_bits 0x80 a)

module _ (m : Platform) (rest : ℕ → Stack m.R → Outcome (Stack m.R)) where
  -- `OpCodeTable` from 0x30 to 0x7f
  abbrev pub op_code_table : List (Stack m.R → Outcome (Stack m.R))
  op_code_table =
      compare_less_than m word
      ∷ compare_less_than m long
      ∷ compare_less_than m real
      ∷ compare_less_than m string
      ∷ compare_less_or_equal m word
      ∷ compare_less_or_equal m long
      ∷ compare_less_or_equal m real
      ∷ compare_less_or_equal m string
      ∷ compare_greater_than m word
      ∷ compare_greater_than m long
      ∷ compare_greater_than m real
      ∷ compare_greater_than m string
      ∷ compare_greater_or_equal m word
      ∷ compare_greater_or_equal m long
      ∷ compare_greater_or_equal m real
      ∷ compare_greater_or_equal m string
      ∷ compare_equal m word
      ∷ compare_equal m long
      ∷ compare_equal m real
      ∷ compare_equal m string
      ∷ compare_not_equal m word
      ∷ compare_not_equal m long
      ∷ compare_not_equal m real
      ∷ compare_not_equal m string
      ∷ add_int
      ∷ add_long
      ∷ add_float m
      ∷ add_string
      ∷ subtract_int
      ∷ subtract_long
      ∷ subtract_float m
      ∷ rest 0x4f
      ∷ multiply_int
      ∷ multiply_long
      ∷ multiply_float m
      ∷ rest 0x53
      ∷ divide_int
      ∷ divide_long
      ∷ divide_float m
      ∷ rest 0x57
      ∷ power_of_int
      ∷ power_of_long
      ∷ power_of_float m
      ∷ rest 0x5b
      ∷ and_int
      ∷ and_long
      ∷ and_float m
      ∷ rest 0x5f
      ∷ or_int
      ∷ or_long
      ∷ or_float m
      ∷ rest 0x63
      ∷ not_int
      ∷ not_long
      ∷ not_float m
      ∷ rest 0x67
      ∷ unary_minus_int
      ∷ unary_minus_long
      ∷ unary_minus_float m
      ∷ rest 0x6b
      ∷ percent_less_than m
      ∷ percent_greater_than m
      ∷ percent_add m
      ∷ percent_subtract m
      ∷ percent_multiply m
      ∷ percent_divide m
      ∷ rest 0x72
      ∷ rest 0x73
      ∷ rest 0x74
      ∷ rest 0x75
      ∷ rest 0x76
      ∷ rest 0x77
      ∷ long_to_int
      ∷ float_to_int m
      ∷ float_to_long m
      ∷ int_to_long
      ∷ int_to_float m
      ∷ long_to_float m
      ∷ long_to_u_int
      ∷ float_to_u_int m
      ∷ []

  abbrev pub found : ℕ → Option (Stack m.R → Outcome (Stack m.R)) → Stack m.R → Outcome (Stack m.R)
  found n none = rest n
  found n (some f) = f

  -- `OpCodeTable[n]`
  unfoldable pub op_code : ℕ → Stack m.R → Outcome (Stack m.R)
  op_code n = if ltb n 0x30 then rest n else found n (get_elem? op_code_table (n - 0x30))

  -- One instruction, with the operand that it reads behind the opcode.
  unfoldable pub step : Qcode m.R → Stack m.R → Outcome (Stack m.R)
  step (code n) s = op_code n s
  step (constant_int n) s = push_int n s
  step (constant_long n) s = push_long n s
  step (constant_float x) s = push (real64 x) s
  step (constant_string t) s = push_text t s
  step (stack_byte_as_word n) s = push_int (to_int8 n) s
  step (stack_byte_as_long n) s = push_long (to_int8 n) s
  step (stack_word_as_long n) s = push_long (to_int16 n) s

  unfoldable pub run : List (Qcode m.R) → Stack m.R → Outcome (Stack m.R)
  run [] s = ok s
  run (q ∷ qs) s = step q s >>= run qs
