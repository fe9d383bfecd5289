-- ===== src/Runtime/Execute/Constants.antt =====
-- oplt/stran/OPL16GEN.CPP (the case of EConstant) with oplr/src/PUSHOC.CPP: a constant reaches the
-- runtime's stack unchanged in whichever length it is written.
use opl_dev.Prelude.{ℕ, ◌<◌, ◌∷◌, ◌≡◌, refl, true, false, ltb, Bool-cases, inl, inr, arith}
use opl_dev.Prelude.Int.{ℤ, pos, negsuc, IsInt16, IsInt32, to_int16, to_int16_fits, to_int32_fits}
use opl_dev.Prelude.Outcome.{Outcome, ok}
use opl_dev.Translator.Token.{word_value, long_value}
use opl_dev.Translator.Codegen.{constant_qcode, outside}
use opl_dev.Runtime.Stack.{Item, int16, int32, Stack, push, used}
use opl_dev.Runtime.Reals.{Platform}
use opl_dev.Runtime.Execute.{run, step, to_int8}

to_int8_fits : (n : ℤ) → outside 128 127 n ≡ false → to_int8 n ≡ n
to_int8_fits (pos n) h = ground arith
to_int8_fits (negsuc n) h = ground arith

inside_int16 : (n : ℤ) → outside 32768 32767 n ≡ false → to_int16 n ≡ n
inside_int16 n h = to_int16_fits n (ground arith, ground arith)

module _ (m : Platform) (rest : ℕ → Stack m.R → Outcome (Stack m.R)) where
  push_room :
      (i : Item m.R) (s : Stack m.R)
      → used s.items < s.capacity
      → push i s ≡ ok (record s { items = i ∷ s.items })
  unfolding push
  push_room i s h = let room : ltb (used s.items) s.capacity ≡ true = ground arith in rw room refl

  -- A constant of 16 bits is written in one byte or in two, and either way its value is pushed.
  -- There is room on the stack.
  pub constant_qcode-word :
      (n : ℤ) (s : Stack m.R)
      → IsInt16 n
      → used s.items < s.capacity
      → run m rest (constant_qcode (word_value n)) s ≡ ok (record s { items = int16 n ∷ s.items })
  unfolding constant_qcode run step
  constant_qcode-word n s fits h = elim (Bool-cases (outside 128 127 n)) [
    | inl e ↦ rw (e, to_int16_fits n fits, push_room (int16 n) s h) refl
    | inr e ↦ rw (e, to_int8_fits n e, to_int16_fits n fits, push_room (int16 n) s h) refl
  ]

  -- A constant of 32 bits is written in one byte, in two or in four, and in each case its value is
  -- pushed. There is room on the stack.
  pub constant_qcode-long :
      (n : ℤ) (s : Stack m.R)
      → IsInt32 n
      → used s.items < s.capacity
      → run m rest (constant_qcode (long_value n)) s ≡ ok (record s { items = int32 n ∷ s.items })
  unfolding constant_qcode run step
  constant_qcode-long n s fits h = elim (Bool-cases (outside 128 127 n)) [
    | inl e ↦ elim (Bool-cases (outside 32768 32767 n)) [
      | inl f ↦ rw (e, f, to_int32_fits n fits, push_room (int32 n) s h) refl
      | inr f ↦ rw (e, f, inside_int16 n f, to_int32_fits n fits, push_room (int32 n) s h) refl
    ]
    | inr e ↦ rw (e, to_int8_fits n e, to_int32_fits n fits, push_room (int32 n) s h) refl
  ]
