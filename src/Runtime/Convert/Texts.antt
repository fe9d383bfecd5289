-- ===== src/Runtime/Convert/Texts.antt =====
-- oplr/src/OPLCONV.CPP: LEFT$ and RIGHT$ against MID$.
use opl_dev.Prelude.{
  ℕ, zero, suc, ◌+◌, ◌-◌, ◌≤◌, List, [], ◌∷◌, ◌≡◌, refl, ap, true, false, length, ltb, leb,
  if◌then◌else◌, arith,
}
use opl_dev.Prelude.Int.{pos, ◌+ℤ◌, ◌-ℤ◌, ltb_ℤ, to_int16}
use opl_dev.Runtime.Stack.{Item, int16, text, Stack, pop_int16, pop_text}
use opl_dev.Runtime.Convert.{take, skip, left_str, right_str, mid_str}

-- MidStr's count of the units that are left from an offset
units_left :
    (n off k : ℕ) → k + off ≡ suc n → n ≤ 255 → to_int16 ((pos n -ℤ pos off) +ℤ pos 1) ≡ pos k
unfolding to_int16 ◌+ℤ◌ ◌-ℤ◌
units_left n off k h small = ground arith

short : (t : List ℕ) → length t ≤ 255 → leb (length t) 255 ≡ true
short t h = ground arith

shorter :
    (a b : ℕ) → (if ltb_ℤ (pos a) (pos b) then pos a else pos b) ≡ pos (if ltb a b then a else b)
shorter a b = ground arith

take_all : (s : List ℕ) (n : ℕ) → n ≡ length s → take n s ≡ s
take_all [] zero h = refl
take_all [] (suc n) h = refl
take_all (c ∷ s) zero h = absurd (omega (arith, h))
take_all (c ∷ s) (suc n) h = ap (λ l. c ∷ l) (take_all s n (omega (arith, h)))

length-skip : (off : ℕ) (t : List ℕ) → length (skip off t) ≡ length t - off
length-skip zero t = omega arith
length-skip (suc off) [] = omega arith
length-skip (suc off) (c ∷ t) = omega (arith, length-skip off t)

module _ {R : Type 0} where
  abbrev pub stack : List (Item R) → ℕ → ℕ → Stack R
  stack is capacity max = record { items = is; capacity = capacity; max_stack = max }

  -- LEFT$ of a text and a count that is not negative does what MID$ does from the text's first
  -- unit, with a count beyond the text's end as well. The text has at most 255 units.
  pub left_str-mid_str :
      (t : List ℕ) (n : ℕ) (is : List (Item R)) (c m : ℕ)
      → length t ≤ 255
      → left_str (stack (int16 (pos n) ∷ text t ∷ is) c m)
        ≡ mid_str (stack (int16 (pos n) ∷ int16 (pos 1) ∷ text t ∷ is) c m)
  unfolding left_str mid_str pop_int16 pop_text
  left_str-mid_str t n is c m h =
      rw (short t h, units_left (length t) 1 (length t) (omega arith) h, shorter (length t) n) refl

  -- RIGHT$ of a text and a count of at most its units does what MID$ does from the unit where so
  -- many are left. The text has at most 255 units.
  pub right_str-mid_str :
      (t : List ℕ) (n off : ℕ) (is : List (Item R)) (c m : ℕ)
      → length t ≤ 255
      → n + off ≡ length t
      → right_str (stack (int16 (pos n) ∷ text t ∷ is) c m)
        ≡ mid_str (stack (int16 (pos n) ∷ int16 (pos (suc off)) ∷ text t ∷ is) c m)
  unfolding right_str mid_str pop_int16 pop_text
  right_str-mid_str t n off is c m h e =
      let whole : ltb (length t) n ≡ false = ground arith in
      let begins : length t - n ≡ off = omega (arith, e) in
      let position : suc off - 1 ≡ off = omega arith in
      let not_before : ltb_ℤ (pos (suc off)) (pos 1) ≡ false = ground arith in
      let self : (if ltb n n then n else n) ≡ n = ground arith in
      rw
        (
          short t h,
          whole,
          begins,
          units_left (length t) (suc off) n (omega (arith, e)) h,
          not_before,
          shorter n n,
          self,
          position,
          take_all (skip off t) n (omega (arith, e, length-skip off t)),
        )
        refl
