-- ===== src/Runtime/Typed/Opcodes.antt =====
-- oplr/src/EN_ARITH.CPP, EN_CMP.CPP, LB_MATHS.CPP and OPLCONV.CPP: each opcode finds operands of
-- its types on the stack and gives a value of its result type, or leaves.
use opl_dev.Prelude.{
  ℕ, zero, suc, ◌+◌, ◌≤◌, List, [], ◌∷◌, ◌++◌, ◌≡◌, Bool, length, length-append, ltb, true, Option,
  Bool-cases, inl, inr, arith,
}
use opl_dev.Prelude.Int.{ℤ, pos, pos_part, neg_part}
use opl_dev.Prelude.Outcome.{
  Outcome, leave, ◌>>=◌, leave_on, divide_by_zero, Leaves, Leaves-bind, Leaves-if, Leaves-checked,
  LeaveCode,
}
use opl_dev.Translator.Token.{OplType, word, long, real, string, u_word}
use opl_dev.Translator.Expr.Typing.{is_value}
use opl_dev.Runtime.Stack.{Stack, pop_int16, pop_int32}
use opl_dev.Runtime.Reals.{Platform}
use opl_dev.Runtime.Arith.{
  is_zero, push_int, push_long, multiply_l, multiply_l16, add_int, add_long, subtract_int,
  subtract_long, multiply_int, multiply_long, divide_int, divide_long, and_int, and_long, or_int,
  or_long, not_int, not_long, unary_minus_int, unary_minus_long, add_string, and_float, or_float,
  not_float, unary_minus_float,
}
use opl_dev.Runtime.Compare.{
  compare_by, compare_less_than, compare_less_or_equal, compare_greater_than,
  compare_greater_or_equal, compare_equal, compare_not_equal,
}
use opl_dev.Runtime.Maths.{
  multiply_int_loop, multiply_long_loop, divide_int_loop, divide_long_loop, power_of_int,
  power_of_long, with_reals, checked_op, add_float, subtract_float, multiply_float, divide_float,
  power_of_float, percent_greater_than, percent_less_than, percent_subtract, percent_multiply,
  percent_divide, percent_add,
}
use opl_dev.Runtime.Convert.{
  long_to_int, float_to_int, float_to_long, int_to_long, int_to_float, long_to_float, long_to_u_int,
  float_to_u_int, without_underflow,
}
use opl_dev.Runtime.Typed.{
  TypedOpcode, Typed, pop_int16-Typed, pop_int32-Typed, push_int-Typed, push_u_int-Typed,
  push_long-Typed, push_real-Typed, push_text-Typed, with_ints-Typed, with_longs-Typed,
  with_floats-Typed, with_texts-Typed, with_int16-Typed, with_int32-Typed, with_real64-Typed,
}

ruleset rules = (Leaves-if, push_int-Typed, push_u_int-Typed, push_long-Typed, push_real-Typed)

-- A call that only returns or leaves.
abbrev Quiet : {A : Type 0} → Outcome A → Type 0
Quiet m = Leaves (λ a. Unit) m

multiply_l-Quiet : (a b : ℤ) → Quiet (multiply_l a b)
unfolding multiply_l
multiply_l-Quiet a b = search Leaves-if

multiply_l16-Quiet : (a b : ℤ) → Quiet (multiply_l16 a b)
unfolding multiply_l16
multiply_l16-Quiet a b = search Leaves-if

multiply_int_loop-Quiet : (n : ℕ) (a b : ℤ) → Quiet (multiply_int_loop n a b)
unfolding multiply_int_loop
multiply_int_loop-Quiet zero a b = tt
multiply_int_loop-Quiet (suc n) a b =
    Leaves-bind (λ x. Unit) (multiply_l16 b a) _ (multiply_l16-Quiet b a)
      λ r h. multiply_int_loop-Quiet n a r

multiply_long_loop-Quiet : (n : ℕ) (a b : ℤ) → Quiet (multiply_long_loop n a b)
unfolding multiply_long_loop
multiply_long_loop-Quiet zero a b = tt
multiply_long_loop-Quiet (suc n) a b =
    Leaves-bind (λ x. Unit) (multiply_l b a) _ (multiply_l-Quiet b a)
      λ r h. multiply_long_loop-Quiet n a r

module _ {R : Type 0} where
  pub add_int-Typed : TypedOpcode {R = R} (word ∷ word ∷ []) word add_int
  unfolding add_int
  add_int-Typed = with_ints-Typed word _ λ l r ts s hl hr hs. search rules

  pub subtract_int-Typed : TypedOpcode {R = R} (word ∷ word ∷ []) word subtract_int
  unfolding subtract_int
  subtract_int-Typed = with_ints-Typed word _ λ l r ts s hl hr hs. search rules

  pub multiply_int-Typed : TypedOpcode {R = R} (word ∷ word ∷ []) word multiply_int
  unfolding multiply_int
  multiply_int-Typed = with_ints-Typed word _ λ l r ts s hl hr hs. search rules

  pub add_long-Typed : TypedOpcode {R = R} (long ∷ long ∷ []) long add_long
  unfolding add_long
  add_long-Typed = with_longs-Typed long _ λ l r ts s hl hr hs. search rules

  pub subtract_long-Typed : TypedOpcode {R = R} (long ∷ long ∷ []) long subtract_long
  unfolding subtract_long
  subtract_long-Typed = with_longs-Typed long _ λ l r ts s hl hr hs. search rules

  pub multiply_long-Typed : TypedOpcode {R = R} (long ∷ long ∷ []) long multiply_long
  unfolding multiply_long
  multiply_long-Typed = with_longs-Typed long _ λ l r ts s hl hr hs.
      Leaves-bind (Typed (long ∷ ts)) (multiply_l l r) _ (multiply_l-Quiet l r)
        λ res h. search rules

  pub divide_int-Typed : TypedOpcode {R = R} (word ∷ word ∷ []) word divide_int
  unfolding divide_int
  divide_int-Typed ts s h =
      Leaves-bind (Typed (word ∷ ts)) (pop_int16 s) _ (pop_int16-Typed (word ∷ ts) s h) λ d a.
        Leaves-if (Typed (word ∷ ts)) (is_zero d.0) (leave divide_by_zero) _ tt (
          Leaves-bind (Typed (word ∷ ts)) (pop_int16 d.1) _ (pop_int16-Typed ts d.1 a.1)
            λ n b. push_int-Typed _ ts n.1 b.1)

  pub divide_long-Typed : TypedOpcode {R = R} (long ∷ long ∷ []) long divide_long
  unfolding divide_long
  divide_long-Typed ts s h =
      Leaves-bind (Typed (long ∷ ts)) (pop_int32 s) _ (pop_int32-Typed (long ∷ ts) s h) λ d a.
        Leaves-if (Typed (long ∷ ts)) (is_zero d.0) (leave divide_by_zero) _ tt (
          Leaves-bind (Typed (long ∷ ts)) (pop_int32 d.1) _ (pop_int32-Typed ts d.1 a.1)
            λ n b. push_long-Typed _ ts n.1 b.1)

  pub and_int-Typed : TypedOpcode {R = R} (word ∷ word ∷ []) word and_int
  unfolding and_int
  and_int-Typed = with_ints-Typed word _ λ l r ts s hl hr hs. search rules

  pub and_long-Typed : TypedOpcode {R = R} (long ∷ long ∷ []) long and_long
  unfolding and_long
  and_long-Typed = with_longs-Typed long _ λ l r ts s hl hr hs. search rules

  pub or_int-Typed : TypedOpcode {R = R} (word ∷ word ∷ []) word or_int
  unfolding or_int
  or_int-Typed = with_ints-Typed word _ λ l r ts s hl hr hs. search rules

  pub or_long-Typed : TypedOpcode {R = R} (long ∷ long ∷ []) long or_long
  unfolding or_long
  or_long-Typed = with_longs-Typed long _ λ l r ts s hl hr hs. search rules

  pub not_int-Typed : TypedOpcode {R = R} (word ∷ []) word not_int
  unfolding not_int
  not_int-Typed = with_int16-Typed word _ λ n ts s hs. search rules

  pub not_long-Typed : TypedOpcode {R = R} (long ∷ []) long not_long
  unfolding not_long
  not_long-Typed = with_int32-Typed long _ λ n ts s hs. search rules

  pub unary_minus_int-Typed : TypedOpcode {R = R} (word ∷ []) word unary_minus_int
  unfolding unary_minus_int
  unary_minus_int-Typed = with_int16-Typed word _ λ n ts s hs. search rules

  pub unary_minus_long-Typed : TypedOpcode {R = R} (long ∷ []) long unary_minus_long
  unfolding unary_minus_long
  unary_minus_long-Typed = with_int32-Typed long _ λ n ts s hs. search rules

  pub add_string-Typed : TypedOpcode {R = R} (string ∷ string ∷ []) string add_string
  unfolding add_string
  add_string-Typed = with_texts-Typed string _ λ l r ts s hl hr hs.
      elim (Bool-cases (ltb 255 (length l + length r))) [
        | inl e ↦ rw e tt
        | inr e ↦ rw e (
            push_text-Typed (l ++ r) ts s
              (let n : length l + length r ≤ 255 = ground arith in
                omega (arith, n, length-append l r))
              hs)
      ]

  int_powers :
      (number : ℤ) (ts : List OplType) (s : Stack R)
      → Typed ts s
      → (up down : ℕ) (one : ℤ)
      → Leaves (Typed (word ∷ ts)) (
          multiply_int_loop up number one >>= λ result.
          push_int (divide_int_loop down number result) s)
  int_powers number ts s hs up down one =
      Leaves-bind (Typed (word ∷ ts)) (multiply_int_loop up number one) _
        (multiply_int_loop-Quiet up number one) λ result h. push_int-Typed _ ts s hs

  long_powers :
      (number : ℤ) (ts : List OplType) (s : Stack R)
      → Typed ts s
      → (up down : ℕ) (one : ℤ)
      → Leaves (Typed (long ∷ ts)) (
          multiply_long_loop up number one >>= λ result.
          push_long (divide_long_loop down number result) s)
  long_powers number ts s hs up down one =
      Leaves-bind (Typed (long ∷ ts)) (multiply_long_loop up number one) _
        (multiply_long_loop-Quiet up number one) λ result h. push_long-Typed _ ts s hs

  pub power_of_int-Typed : TypedOpcode {R = R} (word ∷ word ∷ []) word power_of_int
  unfolding power_of_int
  power_of_int-Typed =
      with_ints-Typed word _
        λ l r ts s hl hr hs. search (rules, int_powers l ts s hs (pos_part r) (neg_part r) (pos 1))

  pub power_of_long-Typed : TypedOpcode {R = R} (long ∷ long ∷ []) long power_of_long
  unfolding power_of_long
  power_of_long-Typed =
      with_longs-Typed long _
        λ l r ts s hl hr hs. search (rules, long_powers l ts s hs (pos_part r) (neg_part r) (pos 1))

  pub long_to_int-Typed : TypedOpcode {R = R} (long ∷ []) word long_to_int
  unfolding long_to_int
  long_to_int-Typed = with_int32-Typed word _ λ n ts s hs. search rules

  pub int_to_long-Typed : TypedOpcode {R = R} (word ∷ []) long int_to_long
  unfolding int_to_long
  int_to_long-Typed = with_int16-Typed long _ λ n ts s hs. search rules

  pub long_to_u_int-Typed : TypedOpcode {R = R} (long ∷ []) u_word long_to_u_int
  unfolding long_to_u_int
  long_to_u_int-Typed = with_int32-Typed u_word _ λ n ts s hs. search rules

module _ (m : Platform) where
  pub and_float-Typed : TypedOpcode {R = m.R} (real ∷ real ∷ []) word (and_float m)
  unfolding and_float
  and_float-Typed = with_floats-Typed word _ λ l r ts s hs. search rules

  pub or_float-Typed : TypedOpcode {R = m.R} (real ∷ real ∷ []) word (or_float m)
  unfolding or_float
  or_float-Typed = with_floats-Typed word _ λ l r ts s hs. search rules

  pub not_float-Typed : TypedOpcode {R = m.R} (real ∷ []) word (not_float m)
  unfolding not_float
  not_float-Typed = with_real64-Typed word _ λ n ts s hs. search rules

  pub unary_minus_float-Typed : TypedOpcode {R = m.R} (real ∷ []) real (unary_minus_float m)
  unfolding unary_minus_float
  unary_minus_float-Typed = with_real64-Typed real _ λ n ts s hs. search rules

  pub float_to_int-Typed : TypedOpcode {R = m.R} (real ∷ []) word (float_to_int m)
  unfolding float_to_int
  float_to_int-Typed = with_real64-Typed word _ λ n ts s hs.
      Leaves-bind (Typed (word ∷ ts)) (leave_on (without_underflow (m.int_16 n).1) (m.int_16 n).0) _
        (Leaves-checked (λ a. Unit) (without_underflow (m.int_16 n).1) (m.int_16 n).0 tt)
        λ ret h. search rules

  pub float_to_long-Typed : TypedOpcode {R = m.R} (real ∷ []) long (float_to_long m)
  unfolding float_to_long
  float_to_long-Typed = with_real64-Typed long _ λ n ts s hs.
      Leaves-bind (Typed (long ∷ ts)) (leave_on (without_underflow (m.int_32 n).1) (m.int_32 n).0) _
        (Leaves-checked (λ a. Unit) (without_underflow (m.int_32 n).1) (m.int_32 n).0 tt)
        λ ret h. search rules

  pub int_to_float-Typed : TypedOpcode {R = m.R} (word ∷ []) real (int_to_float m)
  unfolding int_to_float
  int_to_float-Typed = with_int16-Typed real _ λ n ts s hs. search rules

  pub long_to_float-Typed : TypedOpcode {R = m.R} (long ∷ []) real (long_to_float m)
  unfolding long_to_float
  long_to_float-Typed = with_int32-Typed real _ λ n ts s hs. search rules

  pub float_to_u_int-Typed : TypedOpcode {R = m.R} (real ∷ []) u_word (float_to_u_int m)
  unfolding float_to_u_int
  float_to_u_int-Typed = with_real64-Typed u_word _ λ n ts s hs. search rules

  checked_op-Quiet :
      (op : m.X → m.X → m.X × Option LeaveCode) (a b : m.X) → Quiet (checked_op m op a b)
  checked_op-Quiet op a b = Leaves-checked (λ x. Unit) (op a b).1 (op a b).0 tt

  pub with_reals-Typed :
      (f : m.X → m.X → Outcome m.X)
      → ((a b : m.X) → Quiet (f a b))
      → TypedOpcode (real ∷ real ∷ []) real (with_reals m f)
  with_reals-Typed f k = with_floats-Typed real _ λ l r ts s hs.
      Leaves-bind (Typed (real ∷ ts)) (f (m.extend l) (m.extend r)) _ (k (m.extend l) (m.extend r))
        λ x h. push_real-Typed _ ts s hs

  then_checked :
      (op : m.X → m.X → m.X × Option LeaveCode) (a b : m.X) (f : m.X → Outcome m.X)
      → ((x : m.X) → Quiet (f x))
      → Quiet (checked_op m op a b >>= f)
  then_checked op a b f k =
      Leaves-bind (λ x. Unit) (checked_op m op a b) f (checked_op-Quiet op a b) λ x h. k x

  pub add_float-Typed : TypedOpcode {R = m.R} (real ∷ real ∷ []) real (add_float m)
  unfolding add_float
  add_float-Typed = with_reals-Typed (checked_op m m.add_eq) (checked_op-Quiet m.add_eq)

  pub subtract_float-Typed : TypedOpcode {R = m.R} (real ∷ real ∷ []) real (subtract_float m)
  unfolding subtract_float
  subtract_float-Typed = with_reals-Typed (checked_op m m.sub_eq) (checked_op-Quiet m.sub_eq)

  pub multiply_float-Typed : TypedOpcode {R = m.R} (real ∷ real ∷ []) real (multiply_float m)
  unfolding multiply_float
  multiply_float-Typed = with_reals-Typed (checked_op m m.mult_eq) (checked_op-Quiet m.mult_eq)

  pub divide_float-Typed : TypedOpcode {R = m.R} (real ∷ real ∷ []) real (divide_float m)
  unfolding divide_float
  divide_float-Typed = with_reals-Typed (checked_op m m.div_eq) (checked_op-Quiet m.div_eq)

  pub power_of_float-Typed : TypedOpcode {R = m.R} (real ∷ real ∷ []) real (power_of_float m)
  unfolding power_of_float
  power_of_float-Typed = with_floats-Typed real _ λ l r ts s hs.
      Leaves-bind (Typed (real ∷ ts)) (leave_on (m.power l r).1 (m.power l r).0) _
        (Leaves-checked (λ a. Unit) (m.power l r).1 (m.power l r).0 tt)
        λ ret h. push_real-Typed ret ts s hs

  pub percent_greater_than-Typed :
      TypedOpcode {R = m.R} (real ∷ real ∷ []) real (percent_greater_than m)
  unfolding percent_greater_than
  percent_greater_than-Typed =
      with_reals-Typed
        (λ b a.
          checked_op m m.div_eq a m.hundred >>= λ x. checked_op m m.div_eq b (m.add_eq x m.one).0)
        λ b a. search (then_checked, checked_op-Quiet)

  pub percent_less_than-Typed : TypedOpcode {R = m.R} (real ∷ real ∷ []) real (percent_less_than m)
  unfolding percent_less_than
  percent_less_than-Typed =
      with_reals-Typed
        (λ b a.
          checked_op m m.div_eq m.hundred a >>= λ x. checked_op m m.div_eq b (m.add_eq x m.one).0)
        λ b a. search (then_checked, checked_op-Quiet)

  pub percent_subtract-Typed : TypedOpcode {R = m.R} (real ∷ real ∷ []) real (percent_subtract m)
  unfolding percent_subtract
  percent_subtract-Typed =
      with_reals-Typed
        (λ b a. checked_op m m.mult_eq a b >>= λ x.
          checked_op m m.div_eq x m.hundred >>= λ y. checked_op m m.sub_eq b y)
        λ b a. search (then_checked, checked_op-Quiet)

  pub percent_multiply-Typed : TypedOpcode {R = m.R} (real ∷ real ∷ []) real (percent_multiply m)
  unfolding percent_multiply
  percent_multiply-Typed =
      with_reals-Typed
        (λ b a. checked_op m m.mult_eq a b >>= λ x. checked_op m m.div_eq x m.hundred)
        λ b a. search (then_checked, checked_op-Quiet)

  pub percent_divide-Typed : TypedOpcode {R = m.R} (real ∷ real ∷ []) real (percent_divide m)
  unfolding percent_divide
  percent_divide-Typed =
      with_reals-Typed
        (λ b a. checked_op m m.mult_eq b m.hundred >>= λ x. checked_op m m.div_eq x a)
        λ b a. search (then_checked, checked_op-Quiet)

  pub percent_add-Typed : TypedOpcode {R = m.R} (real ∷ real ∷ []) real (percent_add m)
  unfolding percent_add
  percent_add-Typed =
      with_reals-Typed
        (λ b a. checked_op m m.mult_eq a b >>= λ x.
          checked_op m m.div_eq x m.hundred >>= λ y. checked_op m m.add_eq b y)
        λ b a. search (then_checked, checked_op-Quiet)

  pub compare_by-Typed :
      (on_numbers : ℤ → ℤ → Bool) (on_reals : m.R → m.R → Bool) (on_texts : List ℕ → List ℕ → Bool)
      (t : OplType)
      → is_value t ≡ true
      → TypedOpcode (t ∷ t ∷ []) word (compare_by m on_numbers on_reals on_texts t)
  compare_by-Typed n r x word v = with_ints-Typed word _ λ l r ts s hl hr hs. search rules
  compare_by-Typed n r x long v = with_longs-Typed word _ λ l r ts s hl hr hs. search rules
  compare_by-Typed n r x real v = with_floats-Typed word _ λ l r ts s hs. search rules
  compare_by-Typed n r x string v = with_texts-Typed word _ λ l r ts s hl hr hs. search rules
  compare_by-Typed n r x u_word v = cc

  pub compare_less_than-Typed :
      (t : OplType) → is_value t ≡ true → TypedOpcode (t ∷ t ∷ []) word (compare_less_than m t)
  unfolding compare_less_than
  compare_less_than-Typed t v = compare_by-Typed _ _ _ t v

  pub compare_less_or_equal-Typed :
      (t : OplType) → is_value t ≡ true → TypedOpcode (t ∷ t ∷ []) word (compare_less_or_equal m t)
  unfolding compare_less_or_equal
  compare_less_or_equal-Typed t v = compare_by-Typed _ _ _ t v

  pub compare_greater_than-Typed :
      (t : OplType) → is_value t ≡ true → TypedOpcode (t ∷ t ∷ []) word (compare_greater_than m t)
  unfolding compare_greater_than
  compare_greater_than-Typed t v = compare_by-Typed _ _ _ t v

  pub compare_greater_or_equal-Typed :
      (t : OplType)
      → is_value t ≡ true
      → TypedOpcode (t ∷ t ∷ []) word (compare_greater_or_equal m t)
  unfolding compare_greater_or_equal
  compare_greater_or_equal-Typed t v = compare_by-Typed _ _ _ t v

  pub compare_equal-Typed :
      (t : OplType) → is_value t ≡ true → TypedOpcode (t ∷ t ∷ []) word (compare_equal m t)
  unfolding compare_equal
  compare_equal-Typed t v = compare_by-Typed _ _ _ t v

  pub compare_not_equal-Typed :
      (t : OplType) → is_value t ≡ true → TypedOpcode (t ∷ t ∷ []) word (compare_not_equal m t)
  unfolding compare_not_equal
  compare_not_equal-Typed t v = compare_by-Typed _ _ _ t v
