-- ===== src/Runtime/Maths.antt =====
-- oplr/src/LB_MATHS.CPP: the opcodes for floats, powers and percentages. The second value popped
-- is the left operand. Reals are computed in the platform's extended format.
use opl_dev.Prelude.{ℕ, zero, suc, Bool, true, false, ◌&&◌, Option, if◌then◌else◌}
use opl_dev.Prelude.Int.{ℤ, pos, pos_part, neg_part, div_ℤ, to_int16, to_int32, leb_ℤ}
use opl_dev.Prelude.Outcome.{Outcome, ok, leave, ◌>>=◌, leave_on, LeaveCode, invalid_args}
use opl_dev.Runtime.Stack.{Stack, real64, push}
use opl_dev.Runtime.Reals.{Platform}
use opl_dev.Runtime.Arith.{
  with_ints, with_longs, with_floats, push_int, push_long, is_zero, multiply_l16, multiply_l,
}

abbrev is_one : ℤ → Bool
is_one (pos (suc zero)) = true
is_one n = false

-- PowerOfInt's loop for a positive power, `count` rounds.
unfoldable pub multiply_int_loop : ℕ → ℤ → ℤ → Outcome ℤ
multiply_int_loop zero number result = ok result
multiply_int_loop (suc count) number result =
    multiply_l16 result number >>= multiply_int_loop count number

-- And for a negative one.
unfoldable pub divide_int_loop : ℕ → ℤ → ℤ → ℤ
divide_int_loop zero number result = result
divide_int_loop (suc count) number result =
    divide_int_loop count number (to_int16 (div_ℤ result number))

unfoldable pub multiply_long_loop : ℕ → ℤ → ℤ → Outcome ℤ
multiply_long_loop zero number result = ok result
multiply_long_loop (suc count) number result =
    multiply_l result number >>= multiply_long_loop count number

unfoldable pub divide_long_loop : ℕ → ℤ → ℤ → ℤ
divide_long_loop zero number result = result
divide_long_loop (suc count) number result =
    divide_long_loop count number (to_int32 (div_ℤ result number))

module _ {R : Type 0} where
  unfoldable pub power_of_int : Stack R → Outcome (Stack R)
  power_of_int = with_ints λ number power s.
      if leb_ℤ power (pos 0) && is_zero number
      then leave invalid_args
      else (if is_zero number
          then push_int number s
          else (if is_one number
              then push_int (pos 1) s
              else (multiply_int_loop (pos_part power) number (pos 1) >>= λ result.
                  push_int (divide_int_loop (neg_part power) number result) s)))

  unfoldable pub power_of_long : Stack R → Outcome (Stack R)
  power_of_long = with_longs λ number power s.
      if leb_ℤ power (pos 0) && is_zero number
      then leave invalid_args
      else (if is_zero number
          then push_long number s
          else (if is_one number
              then push_long (pos 1) s
              else (multiply_long_loop (pos_part power) number (pos 1) >>= λ result.
                  push_long (divide_long_loop (neg_part power) number result) s)))

module _ (m : Platform) where
  abbrev pub checked_op : (m.X → m.X → m.X × Option LeaveCode) → m.X → m.X → Outcome m.X
  checked_op op a b = leave_on (op a b).1 (op a b).0

  abbrev pub push_x : m.X → Stack m.R → Outcome (Stack m.R)
  push_x x = push (real64 (m.narrow x))

  -- `TRealX right(PopReal64()), left(PopReal64())`
  abbrev pub with_reals : (m.X → m.X → Outcome m.X) → Stack m.R → Outcome (Stack m.R)
  with_reals f = with_floats λ left right s. f (m.extend left) (m.extend right) >>= λ x. push_x x s

  unfoldable pub add_float : Stack m.R → Outcome (Stack m.R)
  add_float = with_reals (checked_op m.add_eq)

  unfoldable pub subtract_float : Stack m.R → Outcome (Stack m.R)
  subtract_float = with_reals (checked_op m.sub_eq)

  unfoldable pub multiply_float : Stack m.R → Outcome (Stack m.R)
  multiply_float = with_reals (checked_op m.mult_eq)

  unfoldable pub divide_float : Stack m.R → Outcome (Stack m.R)
  divide_float = with_reals (checked_op m.div_eq)

  unfoldable pub power_of_float : Stack m.R → Outcome (Stack m.R)
  power_of_float = with_floats λ number power s.
      leave_on (m.power number power).1 (m.power number power).0 >>= λ result.
      push (real64 result) s

  unfoldable pub percent_greater_than : Stack m.R → Outcome (Stack m.R)
  percent_greater_than =
      with_reals
        λ b a. checked_op m.div_eq a m.hundred >>= λ a₁. checked_op m.div_eq b (m.add_eq a₁ m.one).0

  unfoldable pub percent_less_than : Stack m.R → Outcome (Stack m.R)
  percent_less_than =
      with_reals
        λ b a. checked_op m.div_eq m.hundred a >>= λ t. checked_op m.div_eq b (m.add_eq t m.one).0

  unfoldable pub percent_subtract : Stack m.R → Outcome (Stack m.R)
  percent_subtract = with_reals λ b a. checked_op m.mult_eq a b >>= λ a₁.
      checked_op m.div_eq a₁ m.hundred >>= λ a₂. checked_op m.sub_eq b a₂

  unfoldable pub percent_multiply : Stack m.R → Outcome (Stack m.R)
  percent_multiply =
      with_reals λ b a. checked_op m.mult_eq a b >>= λ a₁. checked_op m.div_eq a₁ m.hundred

  unfoldable pub percent_divide : Stack m.R → Outcome (Stack m.R)
  percent_divide =
      with_reals λ b a. checked_op m.mult_eq b m.hundred >>= λ b₁. checked_op m.div_eq b₁ a

  unfoldable pub percent_add : Stack m.R → Outcome (Stack m.R)
  percent_add = with_reals λ b a. checked_op m.mult_eq a b >>= λ a₁.
      checked_op m.div_eq a₁ m.hundred >>= λ a₂. checked_op m.add_eq b a₂
