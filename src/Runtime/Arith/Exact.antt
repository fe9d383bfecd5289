-- ===== src/Runtime/Arith/Exact.antt =====
-- oplr/src/EN_ARITH.CPP: sums, differences and products are those of the integers, and overflow
-- is reported for the results that do not fit and for no others.
use opl_dev.Prelude.{
  ℕ, ◌<◌, List, ◌∷◌, ◌≡◌, refl, ◌∙◌, Bool, true, false, ◌&&◌, ltb, leb, if◌then◌else◌, Bool-cases,
  inl, inr, arith,
}
use opl_dev.Prelude.Int.{
  ℤ, pos, negsuc, pos_part, neg_part, ◌+ℤ◌, ◌-ℤ◌, ◌*ℤ◌, IsInt32, to_int16, to_int32, to_int16_fits,
  to_int32_fits,
}
use opl_dev.Prelude.Outcome.{Outcome, ok, leave, overflow, ◌>>=◌}
use opl_dev.Runtime.Stack.{Item, int16, int32, Stack, push, pop_int16, pop_int32, used}
use opl_dev.Runtime.Arith.{
  outside_int16, signs_differ, is_negative, is_zero, complement, high_32, multiply_l, push_int,
  push_long, add_int, add_long, subtract_int, subtract_long, multiply_int, multiply_long,
}

pub data IntegerOp : Type 0 where
  add subtract multiply : IntegerOp

-- The operation on the integers
abbrev pub exact : IntegerOp → ℤ → ℤ → ℤ
exact add l r = l +ℤ r
exact subtract l r = l -ℤ r
exact multiply l r = l *ℤ r

module _ {R : Type 0} where
  abbrev pub int_op : IntegerOp → Stack R → Outcome (Stack R)
  int_op add = add_int
  int_op subtract = subtract_int
  int_op multiply = multiply_int

  abbrev pub long_op : IntegerOp → Stack R → Outcome (Stack R)
  long_op add = add_long
  long_op subtract = subtract_long
  long_op multiply = multiply_long

abbrev pub fits_int16 : ℤ → Bool
fits_int16 n = ltb (pos_part n) 0x8000 && leb (neg_part n) 0x8000

abbrev pub fits_int32 : ℤ → Bool
fits_int32 n = ltb (pos_part n) 0x8000_0000 && leb (neg_part n) 0x8000_0000

-- The range test on 16 bits
outside_fits : (n : ℤ) → outside_int16 n ≡ (if fits_int16 n then false else true)
outside_fits (pos n) = ground arith
outside_fits (negsuc n) = ground arith

fits_int16-IsInt16 : (n : ℤ) → fits_int16 n ≡ true → to_int16 n ≡ n
fits_int16-IsInt16 n h = to_int16_fits n (ground arith, ground arith)

fits_int32-IsInt32 : (n : ℤ) → fits_int32 n ≡ true → to_int32 n ≡ n
fits_int32-IsInt32 n h = to_int32_fits n (ground arith, ground arith)

-- The sign tests of AddLong and SubtractLong
add_test :
    (l r : ℤ)
    → IsInt32 l
    → IsInt32 r
    → (if signs_differ l r then false else signs_differ l (to_int32 (l +ℤ r)))
      ≡ (if fits_int32 (l +ℤ r) then false else true)
unfolding to_int32 ◌+ℤ◌
add_test (pos l) (pos r) hl hr = ground arith
add_test (pos l) (negsuc r) hl hr = ground arith
add_test (negsuc l) (pos r) hl hr = ground arith
add_test (negsuc l) (negsuc r) hl hr = ground arith

subtract_test :
    (l r : ℤ)
    → IsInt32 l
    → IsInt32 r
    → (if signs_differ l r then signs_differ l (to_int32 (l -ℤ r)) else false)
      ≡ (if fits_int32 (l -ℤ r) then false else true)
unfolding to_int32 ◌-ℤ◌
subtract_test (pos l) (pos r) hl hr = ground arith
subtract_test (pos l) (negsuc r) hl hr = ground arith
subtract_test (negsuc l) (pos r) hl hr = ground arith
subtract_test (negsuc l) (negsuc r) hl hr = ground arith

abbrev of_halves : ℤ → Outcome ℤ
of_halves product =
    if (if is_negative (to_int32 product)
      then (if is_zero (complement (high_32 product)) then false else true)
      else (if is_zero (high_32 product) then false else true))
    then leave overflow
    else ok (to_int32 product)

halves : (p : ℤ) → of_halves p ≡ (if fits_int32 p then ok p else leave overflow)
unfolding to_int32
halves (pos n) = ground arith
halves (negsuc n) = ground arith

-- MultiplyL's test on the two halves of the product
multiply_l-exact :
    (a b : ℤ) → multiply_l a b ≡ (if fits_int32 (a *ℤ b) then ok (a *ℤ b) else leave overflow)
unfolding multiply_l to_int32
multiply_l-exact a b = halves (a *ℤ b)

nest_first :
    {A : Type 0} (b c : Bool) (x y : A)
    → (if b then y else (if c then x else y)) ≡ (if if b then false else c then x else y)
nest_first true c x y = refl
nest_first false c x y = refl

nest_second :
    {A : Type 0} (b c : Bool) (x y : A)
    → (if b then (if c then x else y) else y) ≡ (if if b then c else false then x else y)
nest_second true c x y = refl
nest_second false c x y = refl

module _ {R : Type 0} where
  abbrev pub stack : List (Item R) → ℕ → ℕ → Stack R
  stack is capacity max = record { items = is; capacity = capacity; max_stack = max }

  push_room :
      (i : Item R) (is : List (Item R)) (c m : ℕ)
      → used is < c
      → push i (stack is c m) ≡ ok (stack (i ∷ is) c m)
  unfolding push
  push_room i is c m h = let room : ltb (used is) c ≡ true = ground arith in rw room refl

  -- What an operation gives whose range test agrees with `fits`.
  finish_int :
      (n : ℤ) (test : Bool) (is : List (Item R)) (c m : ℕ)
      → used is < c
      → test ≡ (if fits_int16 n then false else true)
      → (if test then leave overflow else push_int n (stack is c m))
        ≡ (if fits_int16 n then ok (stack (int16 n ∷ is) c m) else leave overflow)
  finish_int n test is c m h e = elim (Bool-cases (fits_int16 n)) [
    | inl f ↦ rw (e, f, fits_int16-IsInt16 n f) (push_room (int16 n) is c m h)
    | inr f ↦ rw (e, f) refl
  ]

  finish_long :
      (n : ℤ) (test : Bool) (is : List (Item R)) (c m : ℕ)
      → used is < c
      → test ≡ (if fits_int32 n then false else true)
      → (if test then leave overflow else push_long (to_int32 n) (stack is c m))
        ≡ (if fits_int32 n then ok (stack (int32 n ∷ is) c m) else leave overflow)
  finish_long n test is c m h e = elim (Bool-cases (fits_int32 n)) [
    | inl f ↦
        rw (e, f, fits_int32-IsInt32 n f, fits_int32-IsInt32 n f) (push_room (int32 n) is c m h)
    | inr f ↦ rw (e, f) refl
  ]

  push_outcome :
      (n : ℤ) (is : List (Item R)) (c m : ℕ)
      → used is < c
      → ((if fits_int32 n then ok n else leave overflow) >>= λ res. push_long res (stack is c m))
        ≡ (if fits_int32 n then ok (stack (int32 n ∷ is) c m) else leave overflow)
  push_outcome n is c m h = elim (Bool-cases (fits_int32 n)) [
    | inl f ↦ rw (f, fits_int32-IsInt32 n f) (push_room (int32 n) is c m h)
    | inr f ↦ rw f refl
  ]

  -- The sum, difference or product of two words on the stack, the right one on top, takes their
  -- place where it fits in 16 bits; where it does not, the opcode leaves with an overflow. There
  -- is room on the stack under them.
  pub int_op-exact :
      (op : IntegerOp) (l r : ℤ) (is : List (Item R)) (c m : ℕ)
      → used is < c
      → int_op op (stack (int16 r ∷ int16 l ∷ is) c m) ≡ (
          if fits_int16 (exact op l r)
          then ok (stack (int16 (exact op l r) ∷ is) c m)
          else leave overflow)
  unfolding add_int subtract_int multiply_int pop_int16
  int_op-exact add l r is c m h = finish_int (l +ℤ r) _ is c m h (outside_fits (l +ℤ r))
  int_op-exact subtract l r is c m h = finish_int (l -ℤ r) _ is c m h (outside_fits (l -ℤ r))
  int_op-exact multiply l r is c m h = finish_int (l *ℤ r) _ is c m h (outside_fits (l *ℤ r))

  -- The sum, difference or product of two longs of 32 bits on the stack, the right one on top,
  -- takes their place where it fits in 32 bits, and the opcode leaves with an overflow where it does
  -- not: the tests of the signs and of the two halves of a product find the overflows and no
  -- others. There is room on the stack under them.
  pub long_op-exact :
      (op : IntegerOp) (l r : ℤ) (is : List (Item R)) (c m : ℕ)
      → IsInt32 l
      → IsInt32 r
      → used is < c
      → long_op op (stack (int32 r ∷ int32 l ∷ is) c m) ≡ (
          if fits_int32 (exact op l r)
          then ok (stack (int32 (exact op l r) ∷ is) c m)
          else leave overflow)
  unfolding add_long subtract_long multiply_long pop_int32
  long_op-exact add l r is c m hl hr h =
      nest_first (signs_differ l r) _ _ _ ∙ finish_long (l +ℤ r) _ is c m h (add_test l r hl hr)
  long_op-exact subtract l r is c m hl hr h =
      nest_second (signs_differ l r) _ _ _
      ∙ finish_long (l -ℤ r) _ is c m h (subtract_test l r hl hr)
  long_op-exact multiply l r is c m hl hr h =
      rw (multiply_l-exact l r) (push_outcome (l *ℤ r) is c m h)
