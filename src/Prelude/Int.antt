-- ===== src/Prelude/Int.antt =====
-- Signed integers over the native numbers, under the library's names (its ℤ stands on the unary ℕ).
-- Sums and orders go through the two parts of an integer, which are numbers that `omega` reads.
-- Machine words are integers within bounds; a cast to a narrower word keeps the low bits.
use opl_dev.Prelude.{
  ℕ, suc, ◌+◌, ◌-◌, ◌*◌, ◌/◌, ◌%◌, ◌≤◌, ◌<◌, ◌≡◌, Bool, arith, ltb, leb, if◌then◌else◌,
}

-- `negsuc n` is -(n + 1).
pub data ℤ : Type 0 where
  pos : ℕ → ℤ
  negsuc : ℕ → ℤ

abbrev pub pos_part : ℤ → ℕ
pos_part (pos n) = n
pos_part (negsuc n) = 0

abbrev pub neg_part : ℤ → ℕ
neg_part (pos n) = 0
neg_part (negsuc n) = suc n

-- a - b, as an integer.
abbrev pub sub_ℕ : ℕ → ℕ → ℤ
sub_ℕ a b = if leb b a then pos (a - b) else negsuc (b - a - 1)

infixl 65 ◌+ℤ◌ ◌-ℤ◌
infixl 70 ◌*ℤ◌
infix 50 ◌≤ℤ◌
unfoldable pub ◌+ℤ◌ : ℤ → ℤ → ℤ
a +ℤ b = sub_ℕ (pos_part a + pos_part b) (neg_part a + neg_part b)

unfoldable pub ◌-ℤ◌ : ℤ → ℤ → ℤ
a -ℤ b = sub_ℕ (pos_part a + neg_part b) (neg_part a + pos_part b)

unfoldable pub ◌*ℤ◌ : ℤ → ℤ → ℤ
a *ℤ b =
    sub_ℕ (pos_part a * pos_part b + neg_part a * neg_part b)
      (pos_part a * neg_part b + neg_part a * pos_part b)

abbrev pub ◌≤ℤ◌ : ℤ → ℤ → Type 0
a ≤ℤ b = pos_part a + neg_part b ≤ pos_part b + neg_part a

abbrev pub ltb_ℤ : ℤ → ℤ → Bool
ltb_ℤ a b = ltb (pos_part a + neg_part b) (pos_part b + neg_part a)

abbrev pub leb_ℤ : ℤ → ℤ → Bool
leb_ℤ a b = leb (pos_part a + neg_part b) (pos_part b + neg_part a)

-- Division in C: towards zero. (By zero it is 0 here: the code tests for that first.)
pub div_ℤ : ℤ → ℤ → ℤ
div_ℤ (pos a) (pos b) = pos (a / b)
div_ℤ (pos a) (negsuc b) = sub_ℕ 0 (a / suc b)
div_ℤ (negsuc a) (pos b) = sub_ℕ 0 (suc a / b)
div_ℤ (negsuc a) (negsuc b) = pos (suc a / suc b)

-- The number that the low bits `w` of a word stand for, where half of the patterns are negative.
abbrev pub from_bits : ℕ → ℕ → ℤ
from_bits half w = if ltb w half then pos w else negsuc (2 * half - w - 1)

-- The low bits of an integer.
abbrev pub to_bits : ℕ → ℤ → ℕ
to_bits half (pos n) = n % (2 * half)
to_bits half (negsuc n) = 2 * half - 1 - n % (2 * half)

-- The casts `(TInt16)a` and `(TInt32)a`.
unfoldable pub to_int16 : ℤ → ℤ
to_int16 a = from_bits 0x8000 (to_bits 0x8000 a)

unfoldable pub to_int32 : ℤ → ℤ
to_int32 a = from_bits 0x8000_0000 (to_bits 0x8000_0000 a)

abbrev pub IsInt16 : ℤ → Type 0
IsInt16 a = (pos_part a < 0x8000) × (neg_part a ≤ 0x8000)

abbrev pub IsInt32 : ℤ → Type 0
IsInt32 a = (pos_part a < 0x8000_0000) × (neg_part a ≤ 0x8000_0000)

pub to_int16-IsInt16 : (a : ℤ) → IsInt16 (to_int16 a)
unfolding to_int16
to_int16-IsInt16 (pos n) = ground arith
to_int16-IsInt16 (negsuc n) = ground arith

pub to_int32-IsInt32 : (a : ℤ) → IsInt32 (to_int32 a)
unfolding to_int32
to_int32-IsInt32 (pos n) = ground arith
to_int32-IsInt32 (negsuc n) = ground arith

-- A cast changes nothing of a number that fits.
pub to_int16_fits : (a : ℤ) → IsInt16 a → to_int16 a ≡ a
unfolding to_int16
to_int16_fits (pos n) h = ground arith
to_int16_fits (negsuc n) h = ground arith

pub to_int32_fits : (a : ℤ) → IsInt32 a → to_int32 a ≡ a
unfolding to_int32
to_int32_fits (pos n) h = ground arith
to_int32_fits (negsuc n) h = ground arith
