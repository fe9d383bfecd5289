-- ===== src/Translator/Token/Values.antt =====
-- oplt/stran/OT_UTL.CPP: the conversions of the translator's constants.
use opl_dev.Prelude.{
  ◌≡◌, ◌⊎◌, inl, inr, refl, ap, Bool, true, false, if◌then◌else◌, Bool-cases, arith,
}
use opl_dev.Prelude.Int.{
  ℤ, pos, pos_part, neg_part, to_int16, to_int32, to_int16_fits, to_int32_fits, IsInt16, IsInt32,
  ◌-ℤ◌,
}
use opl_dev.Prelude.{◌||◌, ltb}
use opl_dev.Prelude.Outcome.{Outcome, ok, leave, type_mismatch}
use opl_dev.Translator.Token.{Constant, word_value, long_value, real_value, string_value}

-- `iInt<KMinTInt16||iInt>KMaxTInt16`
abbrev pub past_word : ℤ → Bool
past_word n = ltb 32768 (neg_part n) || ltb 32767 (pos_part n)

-- The platform's reals: whether one is outside the words, and outside the longs, the casts to them,
-- the real of an integer, and the negative of a real.
module _ {R : Type 0} (past_word_real past_long_real : R → Bool) (truncate : R → ℤ)
    (of_integer : ℤ → R) (negative : R → R) where
  -- `AsWordL`
  unfoldable pub as_word_l : Constant R → Outcome ℤ
  as_word_l (word_value n) = ok (to_int16 n)
  as_word_l (long_value n) = if past_word n then leave type_mismatch else ok (to_int16 n)
  as_word_l (real_value x) =
      if past_word_real x then leave type_mismatch else ok (to_int16 (truncate x))
  as_word_l (string_value t) = leave type_mismatch

  -- `AsLongL`
  unfoldable pub as_long_l : Constant R → Outcome ℤ
  unfolding as_word_l
  as_long_l (long_value n) = ok (to_int32 n)
  as_long_l (real_value x) =
      if past_long_real x then leave type_mismatch else ok (to_int32 (truncate x))
  as_long_l c = as_word_l c

  -- `AsRealL`
  unfoldable pub as_real_l : Constant R → Outcome R
  as_real_l (word_value n) = ok (of_integer n)
  as_real_l (long_value n) = ok (of_integer n)
  as_real_l (real_value x) = ok x
  as_real_l (string_value t) = leave type_mismatch

  -- `NegateL`
  unfoldable pub negate_l : Constant R → Outcome (Constant R)
  negate_l (word_value n) = ok (word_value (to_int32 (pos 0 -ℤ n)))
  negate_l (long_value n) = ok (long_value (to_int32 (pos 0 -ℤ n)))
  negate_l (real_value x) = ok (real_value (negative x))
  negate_l (string_value t) = leave type_mismatch

  -- A constant of a word, whose number is a word, or of a long, whose number is a long
  abbrev pub IsInteger : Constant R → ℤ → Type 0
  IsInteger (word_value m) n = (m ≡ n) × IsInt16 n
  IsInteger (long_value m) n = (m ≡ n) × IsInt32 n
  IsInteger c n = ⊥

  -- The number of an integer constant is got as a long whatever its type, and as a word exactly
  -- where it fits in one: else the constant has the wrong type.
  pub as_word_l-IsInt16 :
      (c : Constant R) (n : ℤ)
      → IsInteger c n
      → (as_long_l c ≡ ok n)
        × ((IsInt16 n × (as_word_l c ≡ ok n))
            ⊎ ((IsInt16 n → ⊥) × (as_word_l c ≡ leave type_mismatch)))
  unfolding as_long_l as_word_l
  as_word_l-IsInt16 (word_value m) n (e, small) =
      let same : to_int16 m ≡ n = rw e (to_int16_fits n small) in
      (ap ok same, inl (small, ap ok same))
  as_word_l-IsInt16 (long_value m) n (e, h) = (
    rw e (ap ok (to_int32_fits n h)),
    elim (Bool-cases (past_word n)) [
      | inl past ↦ inr ((λ (small : IsInt16 n). absurd (not_past n small past)), rw (e, past) refl)
      | inr inside ↦
          (let small = is_word n inside in
            inl (small, rw (e, inside) (ap ok (to_int16_fits n small))))
    ],
  )
    where
      not_past : (n : ℤ) → IsInt16 n → past_word n ≡ true → ⊥
      not_past n (a, b) past = ground arith

      is_word : (n : ℤ) → past_word n ≡ false → IsInt16 n
      is_word n inside = ground arith
  as_word_l-IsInt16 (real_value x) n h = absurd h
  as_word_l-IsInt16 (string_value t) n h = absurd h
