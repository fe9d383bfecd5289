-- ===== src/Tests/Execution.antt =====
-- Samples for oplr/src/: stacks of values, and a platform whose floats are integers.
use opl_dev.Prelude.{
  ℕ, ◌+◌, ◌<◌, ◌≤◌, List, [], ◌∷◌, ◌≡◌, refl, false, Option, none, length, if◌then◌else◌, arith,
}
use opl_dev.Prelude.Int.{ℤ, pos, negsuc, ◌+ℤ◌, ◌-ℤ◌, ◌*ℤ◌, ltb_ℤ, leb_ℤ, div_ℤ}
use opl_dev.Prelude.Outcome.{Outcome, LeaveCode, ok, leave, Leaves, LeavesWith, overflow, syntax}
use opl_dev.Translator.Token.{word, long, real, string, Operator, word_value, long_value}
use opl_dev.Translator.Pcode.{Pcode, push_constant, cast, apply, unary, binary}
use opl_dev.Translator.Expr.Typing.{check, check_instruction, signature, pop_type}
use opl_dev.Translator.Codegen.{convert, constant_qcode}
use opl_dev.Runtime.Stack.{Item, int16, int32, text, Stack, push, push_text, unwind_params, used}
use opl_dev.Runtime.Reals.{Platform}
use opl_dev.Runtime.Arith.Exact.{
  add, multiply, int_op, long_op, fits_int16, fits_int32, stack, int_op-exact, long_op-exact,
}
use opl_dev.Runtime.Arith.{push_int, opl_bool}
use opl_dev.Runtime.Compare.{equal_ℤ}
use opl_dev.Runtime.Compare.Order.{
  Comparison, Pair, texts, text_relation, accepts, compare_op, compare_op-relation,
}
use opl_dev.Runtime.Convert.{left_str, right_str, mid_str}
use opl_dev.Runtime.Convert.Texts.{left_str-mid_str, right_str-mid_str}
use opl_dev.Runtime.Execute.{run}
use opl_dev.Runtime.Execute.Constants.{constant_qcode-word, constant_qcode-long}
use opl_dev.Runtime.Typed.{Typed}
use opl_dev.Runtime.Pipeline.{MismatchIf, has_mismatch, convert-Typed}
use opl_dev.Runtime.Stack.Bounds.{IsBounded, push-IsBounded, push_text-IsBounded}
use opl_dev.Runtime.Stack.Params.{Param, word_param, text_param, cells, unwind_params-cells}

abbrev no_error : ℤ → ℤ × Option LeaveCode
no_error n = (n, none)

abbrev sample_platform : Platform
sample_platform = record {
  R = ℤ;
  X = ℤ;
  extend = λ x. x;
  narrow = λ x. x;
  add_eq = λ a b. no_error (a +ℤ b);
  sub_eq = λ a b. no_error (a -ℤ b);
  mult_eq = λ a b. no_error (a *ℤ b);
  div_eq = λ a b. no_error (div_ℤ a b);
  hundred = pos 100;
  one = pos 1;
  zero_real = pos 0;
  less = ltb_ℤ;
  less_or_equal = leb_ℤ;
  equal = equal_ℤ;
  negate = λ x. pos 0 -ℤ x;
  from_int = λ n. n;
  int_16 = no_error;
  int_32 = no_error;
  power = λ a b. no_error a;
  lower_case = λ c. c;
  upper_case = λ c. c;
  find_collated = λ t s. pos 0;
  find_folded = λ t s. pos 0;
}

no_opcode : ℕ → Stack ℤ → Outcome (Stack ℤ)
no_opcode n s = leave syntax

-- 300 + 70000 as a float, negated
abbrev sample_code : List (Pcode ℤ)
sample_code =
    push_constant (word_value (pos 300))
    ∷ cast word long
    ∷ push_constant (long_value (pos 70000))
    ∷ apply long long binary Operator.plus
    ∷ cast long real
    ∷ apply real real unary Operator.unary_minus
    ∷ []

convert-Typed_example :
    LeavesWith
      (MismatchIf (has_mismatch sample_code))
      (λ qs.
        (has_mismatch sample_code ≡ false)
        × ((s : Stack ℤ)
            → Typed [] s
            → Leaves (Typed (real ∷ [])) (run sample_platform no_opcode qs s)))
      (convert sample_code)
unfolding check check_instruction signature pop_type
convert-Typed_example =
    convert-Typed sample_platform no_opcode sample_code [] (real ∷ []) refl (tt, (tt, tt))

in_room : used {R = ℤ} [] < 256
in_room = omega arith

long_op-exact_example : long_op add (stack (int32 (pos 2147483647) ∷ int32 (pos 1) ∷ []) 256 0) ≡ (
    if fits_int32 (pos 1 +ℤ pos 2147483647)
    then ok (stack {R = ℤ} (int32 (pos 1 +ℤ pos 2147483647) ∷ []) 256 0)
    else leave overflow)
long_op-exact_example =
    long_op-exact add (pos 1) (pos 2147483647) [] 256 0 (omega arith, omega arith)
      (omega arith, omega arith) in_room

int_op-exact_example : int_op multiply (stack (int16 (pos 200) ∷ int16 (negsuc 99) ∷ []) 256 0) ≡ (
    if fits_int16 (negsuc 99 *ℤ pos 200)
    then ok (stack {R = ℤ} (int16 (negsuc 99 *ℤ pos 200) ∷ []) 256 0)
    else leave overflow)
int_op-exact_example = int_op-exact multiply (negsuc 99) (pos 200) [] 256 0 in_room

abbrev sample_stack : Stack ℤ
sample_stack = stack (int16 (pos 5) ∷ []) 256 16

stack_room : used sample_stack.items < sample_stack.capacity
stack_room = omega arith

constant_qcode-word_example :
    run sample_platform no_opcode (constant_qcode (word_value (pos 300))) sample_stack
    ≡ ok (stack (int16 (pos 300) ∷ int16 (pos 5) ∷ []) 256 16)
constant_qcode-word_example =
    constant_qcode-word sample_platform no_opcode (pos 300) sample_stack (omega arith, omega arith)
      stack_room

constant_qcode-long_example :
    run sample_platform no_opcode (constant_qcode (long_value (negsuc 299))) sample_stack
    ≡ ok (stack (int32 (negsuc 299) ∷ int16 (pos 5) ∷ []) 256 16)
constant_qcode-long_example =
    constant_qcode-long sample_platform no_opcode (negsuc 299) sample_stack
      (omega arith, omega arith) stack_room

sample_IsBounded : IsBounded sample_stack
sample_IsBounded = (omega arith, omega arith, omega arith)

push-IsBounded_example : Leaves IsBounded (push (Item.real64 (pos 3)) sample_stack)
push-IsBounded_example = push-IsBounded (Item.real64 (pos 3)) sample_stack refl sample_IsBounded

abbrev hi : List ℕ
hi = 72 ∷ 105 ∷ []

short_text : length hi ≤ 255
short_text = omega arith

push_text-IsBounded_example :
    Leaves
      (λ s'. IsBounded s' × (used s'.items + s'.max_stack ≤ s'.capacity))
      (push_text hi sample_stack)
push_text-IsBounded_example = push_text-IsBounded hi sample_stack short_text sample_IsBounded

abbrev sample_params : List (Param ℤ)
sample_params = word_param (pos 4) ∷ text_param hi short_text ∷ []

unwind_params-cells_example :
    unwind_params (stack (int16 (pos 2) ∷ cells sample_params (int16 (pos 5) ∷ [])) 256 16)
    ≡ ok sample_stack
unwind_params-cells_example = unwind_params-cells sample_params (int16 (pos 5) ∷ []) 256 16

abbrev ha : List ℕ
ha = 72 ∷ 97 ∷ []

short_ha : length ha ≤ 255
short_ha = omega arith

abbrev sample_pair : Pair
sample_pair = texts ha hi short_ha short_text

compare_op-relation_example :
    compare_op sample_platform Comparison.less_or_equal string
      (record { items = text hi ∷ text ha ∷ int16 (pos 5) ∷ []; capacity = 256; max_stack = 16 })
    ≡ push_int (opl_bool (accepts Comparison.less_or_equal (text_relation ha hi))) sample_stack
compare_op-relation_example =
    compare_op-relation sample_platform Comparison.less_or_equal sample_pair (int16 (pos 5) ∷ [])
      256 16

left_str-mid_str_example :
    left_str (stack {R = ℤ} (int16 (pos 9) ∷ text hi ∷ []) 256 16)
    ≡ mid_str (stack (int16 (pos 9) ∷ int16 (pos 1) ∷ text hi ∷ []) 256 16)
left_str-mid_str_example = left_str-mid_str hi 9 [] 256 16 short_text

in_text : 1 + 1 ≡ length hi
in_text = omega arith

right_str-mid_str_example :
    right_str (stack {R = ℤ} (int16 (pos 1) ∷ text hi ∷ []) 256 16)
    ≡ mid_str (stack (int16 (pos 1) ∷ int16 (pos 2) ∷ text hi ∷ []) 256 16)
right_str-mid_str_example = right_str-mid_str hi 1 1 [] 256 16 short_text in_text
