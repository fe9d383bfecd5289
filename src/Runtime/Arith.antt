-- ===== src/Runtime/Arith.antt =====
-- oplr/src/EN_ARITH.CPP (and MultiplyL of oplr/src/OPLUTIL.CPP): the arithmetic opcodes. A `TInt`
-- has 32 bits. The right operand is popped first.
pub mod Exact
use opl_dev.Prelude.{
  ℕ, zero, suc, ◌+◌, ◌*◌, ◌/◌, ◌%◌, List, ◌++◌, Bool, true, false, ◌&&◌, ◌||◌, length, ltb, leb,
  ◌==◌, if◌then◌else◌,
}
use opl_dev.Prelude.Int.{
  ℤ, pos, negsuc, pos_part, neg_part, ◌+ℤ◌, ◌-ℤ◌, ◌*ℤ◌, ltb_ℤ, div_ℤ, from_bits, to_bits, to_int16,
  to_int32,
}
use opl_dev.Prelude.Outcome.{Outcome, ok, leave, ◌>>=◌, overflow, divide_by_zero, str_too_long}
use opl_dev.Runtime.Stack.{
  Stack, int16, int32, real64, push, push_text, pop_int16, pop_int32, pop_real64, pop_text,
}
use opl_dev.Runtime.Reals.{Platform}

abbrev pub is_negative : ℤ → Bool
is_negative (pos n) = false
is_negative (negsuc n) = true

abbrev pub is_zero : ℤ → Bool
is_zero (pos zero) = true
is_zero n = false

-- `res<-32768 || res>32767`
abbrev pub outside_int16 : ℤ → Bool
outside_int16 res = ltb 32767 (pos_part res) || ltb 32768 (neg_part res)

-- `(a^b)<0`: the sign bit of an exclusive or
abbrev pub signs_differ : ℤ → ℤ → Bool
signs_differ a b = if is_negative a then (if is_negative b then false else true) else is_negative b

-- `KOplTrue` and `KOplFalse`
abbrev pub opl_bool : Bool → ℤ
opl_bool true = negsuc 0
opl_bool false = pos 0

-- Bitwise and, or over the low `w` bits
abbrev pub bits_and : ℕ → ℕ → ℕ → ℕ
bits_and zero a b = 0
bits_and (suc w) a b = a % 2 * (b % 2) + 2 * bits_and w (a / 2) (b / 2)

abbrev pub bits_or : ℕ → ℕ → ℕ → ℕ
bits_or zero a b = 0
bits_or (suc w) a b = (if a % 2 == 0 then b % 2 else 1) + 2 * bits_or w (a / 2) (b / 2)

-- `~a` in two's complement
abbrev pub complement : ℤ → ℤ
complement (pos n) = negsuc n
complement (negsuc n) = pos n

-- `TInt64::Low` of a product, as a TInt32, and `High`
abbrev pub low_32 : ℤ → ℤ
low_32 p = to_int32 p

abbrev pub high_32 : ℤ → ℤ
high_32 (pos n) = pos (n / 0x1_0000_0000)
high_32 (negsuc n) = negsuc (n / 0x1_0000_0000)

-- `OplUtil::MultiplyL(TInt32,TInt32)`
unfoldable pub multiply_l : ℤ → ℤ → Outcome ℤ
multiply_l a b =
    let product = a *ℤ b in
    let low = low_32 product in
    let high = high_32 product in
    if (if is_negative low
      then (if is_zero (complement high) then false else true)
      else (if is_zero high then false else true))
    then leave overflow
    else ok low

-- `OplUtil::MultiplyL(TInt16,TInt16)`
unfoldable pub multiply_l16 : ℤ → ℤ → Outcome ℤ
multiply_l16 a b =
    let res = a *ℤ b in if outside_int16 res then leave overflow else ok (to_int16 res)

module _ {R : Type 0} where
  -- `TInt16 right=PopInt16(), left=PopInt16()`, and so on for the other types
  abbrev pub with_ints : (ℤ → ℤ → Stack R → Outcome (Stack R)) → Stack R → Outcome (Stack R)
  with_ints f s = pop_int16 s >>= λ r. pop_int16 r.1 >>= λ l. f l.0 r.0 l.1

  abbrev pub with_longs : (ℤ → ℤ → Stack R → Outcome (Stack R)) → Stack R → Outcome (Stack R)
  with_longs f s = pop_int32 s >>= λ r. pop_int32 r.1 >>= λ l. f l.0 r.0 l.1

  abbrev pub with_floats : (R → R → Stack R → Outcome (Stack R)) → Stack R → Outcome (Stack R)
  with_floats f s = pop_real64 s >>= λ r. pop_real64 r.1 >>= λ l. f l.0 r.0 l.1

  abbrev pub with_texts :
      (List ℕ → List ℕ → Stack R → Outcome (Stack R)) → Stack R → Outcome (Stack R)
  with_texts f s = pop_text s >>= λ r. pop_text r.1 >>= λ l. f l.0 r.0 l.1

  abbrev pub push_int : ℤ → Stack R → Outcome (Stack R)
  push_int n = push (int16 (to_int16 n))

  abbrev pub push_long : ℤ → Stack R → Outcome (Stack R)
  push_long n = push (int32 (to_int32 n))

  unfoldable pub add_int : Stack R → Outcome (Stack R)
  add_int = with_ints λ left right s.
      let res = left +ℤ right in if outside_int16 res then leave overflow else push_int res s

  unfoldable pub add_long : Stack R → Outcome (Stack R)
  add_long = with_longs λ left right s.
      let res = to_int32 (left +ℤ right) in
      if signs_differ left right
      then push_long res s
      else (if signs_differ left res then leave overflow else push_long res s)

  unfoldable pub subtract_int : Stack R → Outcome (Stack R)
  subtract_int = with_ints λ left right s.
      let res = left -ℤ right in if outside_int16 res then leave overflow else push_int res s

  unfoldable pub subtract_long : Stack R → Outcome (Stack R)
  subtract_long = with_longs λ left right s.
      let res = to_int32 (left -ℤ right) in
      if signs_differ left right
      then (if signs_differ left res then leave overflow else push_long res s)
      else push_long res s

  unfoldable pub multiply_int : Stack R → Outcome (Stack R)
  multiply_int = with_ints λ left right s.
      let res = left *ℤ right in if outside_int16 res then leave overflow else push_int res s

  unfoldable pub multiply_long : Stack R → Outcome (Stack R)
  multiply_long = with_longs λ left right s. multiply_l left right >>= λ res. push_long res s

  unfoldable pub divide_int : Stack R → Outcome (Stack R)
  divide_int s = do
    (denominator, s₁) ← pop_int16 s
    if is_zero denominator
        then leave divide_by_zero
        else (do (n, s₂) ← pop_int16 s₁; push_int (div_ℤ n denominator) s₂)

  unfoldable pub divide_long : Stack R → Outcome (Stack R)
  divide_long s = do
    (denominator, s₁) ← pop_int32 s
    if is_zero denominator
        then leave divide_by_zero
        else (do (n, s₂) ← pop_int32 s₁; push_long (div_ℤ n denominator) s₂)

  unfoldable pub uadd : Stack R → Outcome (Stack R)
  uadd = with_ints λ left right s. push_int (left +ℤ right) s

  unfoldable pub usub : Stack R → Outcome (Stack R)
  usub = with_ints λ left right s. push_int (left -ℤ right) s

  unfoldable pub and_int : Stack R → Outcome (Stack R)
  and_int =
      with_ints
        λ left right s. push_int (pos (bits_and 16 (to_bits 0x8000 left) (to_bits 0x8000 right))) s

  unfoldable pub and_long : Stack R → Outcome (Stack R)
  and_long = with_longs λ left right s.
      push_long (pos (bits_and 32 (to_bits 0x8000_0000 left) (to_bits 0x8000_0000 right))) s

  unfoldable pub or_int : Stack R → Outcome (Stack R)
  or_int =
      with_ints
        λ left right s. push_int (pos (bits_or 16 (to_bits 0x8000 left) (to_bits 0x8000 right))) s

  unfoldable pub or_long : Stack R → Outcome (Stack R)
  or_long = with_longs λ left right s.
      push_long (pos (bits_or 32 (to_bits 0x8000_0000 left) (to_bits 0x8000_0000 right))) s

  unfoldable pub not_int : Stack R → Outcome (Stack R)
  not_int s = do (n, s₁) ← pop_int16 s; push_int (complement n) s₁

  unfoldable pub not_long : Stack R → Outcome (Stack R)
  not_long s = do (n, s₁) ← pop_int32 s; push_long (complement n) s₁

  unfoldable pub unary_minus_int : Stack R → Outcome (Stack R)
  unary_minus_int s = do (n, s₁) ← pop_int16 s; push_int (pos 0 -ℤ n) s₁

  unfoldable pub unary_minus_long : Stack R → Outcome (Stack R)
  unary_minus_long s = do (n, s₁) ← pop_int32 s; push_long (pos 0 -ℤ n) s₁

  unfoldable pub add_string : Stack R → Outcome (Stack R)
  add_string = with_texts λ left right s.
      if ltb 255 (length left + length right)
      then leave str_too_long
      else push_text (left ++ right) s

module _ (m : Platform) where
  abbrev pub nonzero : m.R → Bool
  nonzero x = if m.equal x m.zero_real then false else true

  unfoldable pub and_float : Stack m.R → Outcome (Stack m.R)
  and_float = with_floats λ left right s. push_int (opl_bool (nonzero left && nonzero right)) s

  unfoldable pub or_float : Stack m.R → Outcome (Stack m.R)
  or_float = with_floats λ left right s. push_int (opl_bool (nonzero left || nonzero right)) s

  unfoldable pub not_float : Stack m.R → Outcome (Stack m.R)
  not_float s = do (x, s₁) ← pop_real64 s; push_int (opl_bool (m.equal x m.zero_real)) s₁

  unfoldable pub unary_minus_float : Stack m.R → Outcome (Stack m.R)
  unary_minus_float s = do (x, s₁) ← pop_real64 s; push (real64 (m.negate x)) s₁
