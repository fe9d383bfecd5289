-- ===== src/Runtime/Stack/Params.antt =====
-- oplr/src/STACK.CPP, UnwindParams: the parameters of a call are taken off the stack whole.
use opl_dev.Prelude.{ℕ, ◌≤◌, List, [], ◌∷◌, ◌≡◌, refl, true, length, leb, arith}
use opl_dev.Prelude.Int.{ℤ, pos}
use opl_dev.Prelude.Outcome.{ok}
use opl_dev.Runtime.Stack.{
  Item, int16, int32, real64, text, Stack, pop_int16, pop_int32, pop_real64, pop_text, jump_param,
  unwind, unwind_params,
}

-- A parameter as the caller pushed it: its value, and its type over it.
pub data Param (R : Type 0) : Type 0 where
  word_param : ℤ → Param R
  long_param : ℤ → Param R
  real_param : R → Param R
  text_param : (t : List ℕ) → length t ≤ 255 → Param R

short : (t : List ℕ) → length t ≤ 255 → leb (length t) 255 ≡ true
short t h = ground arith

module _ {R : Type 0} where
  abbrev pub cells : List (Param R) → List (Item R) → List (Item R)
  cells [] is = is
  cells (word_param n ∷ ps) is = int16 (pos 0) ∷ int16 n ∷ cells ps is
  cells (long_param n ∷ ps) is = int16 (pos 1) ∷ int32 n ∷ cells ps is
  cells (real_param x ∷ ps) is = int16 (pos 2) ∷ real64 x ∷ cells ps is
  cells (text_param t h ∷ ps) is = int16 (pos 3) ∷ text t ∷ cells ps is

  abbrev pub stack : List (Item R) → ℕ → ℕ → Stack R
  stack is capacity max = record { items = is; capacity = capacity; max_stack = max }

  unwind-cells :
      (ps : List (Param R)) (is : List (Item R)) (c m : ℕ)
      → unwind (length ps) (stack (cells ps is) c m) ≡ ok (stack is c m)
  unfolding unwind jump_param pop_int16 pop_int32 pop_real64 pop_text
  unwind-cells [] is c m = refl
  unwind-cells (word_param n ∷ ps) is c m = unwind-cells ps is c m
  unwind-cells (long_param n ∷ ps) is c m = unwind-cells ps is c m
  unwind-cells (real_param x ∷ ps) is c m = unwind-cells ps is c m
  unwind-cells (text_param t h ∷ ps) is c m = rw (short t h) (unwind-cells ps is c m)

  -- Under the count of a call's parameters UnwindParams takes off just the parameters, each by
  -- its type, and leaves what lay below them as it was.
  pub unwind_params-cells :
      (ps : List (Param R)) (is : List (Item R)) (c m : ℕ)
      → unwind_params (stack (int16 (pos (length ps)) ∷ cells ps is) c m) ≡ ok (stack is c m)
  unfolding unwind_params pop_int16
  unwind_params-cells ps is c m = unwind-cells ps is c m
