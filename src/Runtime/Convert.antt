-- ===== src/Runtime/Convert.antt =====
-- oplr/src/OPLCONV.CPP: conversions between the types, and the functions on texts. `Left`,
-- `Mid`, `Right`, `Repeat` and `Find` are those of descriptors.
pub mod Texts
use opl_dev.Prelude.{
  ℕ, zero, suc, ◌-◌, ◌*◌, List, [], ◌∷◌, ◌++◌, Bool, true, false, ◌||◌, length, ltb, ◌==◌, Option,
  none, some, if◌then◌else◌,
}
use opl_dev.Prelude.Int.{ℤ, pos, negsuc, pos_part, ◌+ℤ◌, ◌-ℤ◌, ltb_ℤ, to_bits, to_int16}
use opl_dev.Prelude.Outcome.{
  Outcome, leave, ◌>>=◌, overflow, underflow, argument, str_too_long, LeaveCode, leave_on,
}
use opl_dev.Runtime.Stack.{
  Stack, real64, push, push_text, pop_int16, pop_int32, pop_real64, pop_text,
}
use opl_dev.Runtime.Reals.{Platform}
use opl_dev.Runtime.Arith.{is_negative, is_zero, outside_int16, push_int, push_long, with_texts}

abbrev pub take : ℕ → List ℕ → List ℕ
take zero s = []
take (suc n) [] = []
take (suc n) (c ∷ s) = c ∷ take n s

abbrev pub skip : ℕ → List ℕ → List ℕ
skip zero s = s
skip (suc n) [] = []
skip (suc n) (c ∷ s) = skip n s

abbrev pub repeat : ℕ → List ℕ → List ℕ
repeat zero s = []
repeat (suc n) s = s ++ repeat n s

abbrev pub is_prefix : List ℕ → List ℕ → Bool
is_prefix [] t = true
is_prefix (b ∷ s) [] = false
is_prefix (b ∷ s) (c ∷ t) = let rest = is_prefix s t in if b == c then rest else false

-- `t.Find(s)` plus 1: where `s` begins in `t`, counted from 1, or 0.
abbrev pub find : List ℕ → List ℕ → ℕ
find s [] = if is_prefix s [] then 1 else 0
find s (c ∷ t) =
    let rest = find s t in if is_prefix s (c ∷ t) then 1 else (if rest == 0 then 0 else suc rest)

-- `arg&0xffff0000L`
abbrev pub has_high_half : ℤ → Bool
has_high_half (pos n) = ltb 0xffff n
has_high_half (negsuc n) = true

-- `err==KErrUnderflow ? KErrOverflow : err`
abbrev pub without_underflow : Option LeaveCode → Option LeaveCode
without_underflow (some underflow) = some overflow
without_underflow e = e

abbrev pub first_unit : List ℕ → ℕ
first_unit [] = 0
first_unit (c ∷ t) = c

module _ {R : Type 0} where
  unfoldable pub long_to_int : Stack R → Outcome (Stack R)
  long_to_int s = do
    (arg, s₁) ← pop_int32 s
    if outside_int16 arg then leave overflow else push_int arg s₁

  unfoldable pub int_to_long : Stack R → Outcome (Stack R)
  int_to_long s = do (arg, s₁) ← pop_int16 s; push_long arg s₁

  unfoldable pub long_to_u_int : Stack R → Outcome (Stack R)
  long_to_u_int s = do
    (arg, s₁) ← pop_int32 s
    if has_high_half arg then leave overflow else push_int arg s₁

  unfoldable pub left_str : Stack R → Outcome (Stack R)
  left_str s = do
    (len, s₁) ← pop_int16 s
    (t, s₂) ← pop_text s₁
    if is_negative len
        then leave argument
        else push_text (take (if ltb (length t) (pos_part len) then length t else pos_part len) t)
            s₂

  unfoldable pub right_str : Stack R → Outcome (Stack R)
  right_str s = do
    (len, s₁) ← pop_int16 s
    (t, s₂) ← pop_text s₁
    if is_negative len
        then leave argument
        else push_text
            (skip (length t - (if ltb (length t) (pos_part len) then length t else pos_part len)) t)
            s₂

  unfoldable pub mid_str : Stack R → Outcome (Stack R)
  mid_str s = do
    (len, s₁) ← pop_int16 s
    (off, s₂) ← pop_int16 s₁
    (t, s₃) ← pop_text s₂
    if ltb_ℤ off (pos 1)
        then leave argument
        else (let most = to_int16 ((pos (length t) -ℤ off) +ℤ pos 1) in
            let shorter = if ltb_ℤ most len then most else len in
            if is_negative shorter
            then leave argument
            else push_text (take (pos_part shorter) (skip (pos_part off - 1) t)) s₃)

  unfoldable pub rept_str : Stack R → Outcome (Stack R)
  rept_str s = do
    (len, s₁) ← pop_int16 s
    (t, s₂) ← pop_text s₁
    if is_negative len
        then leave argument
        else (if ltb 255 (pos_part len * length t)
            then leave str_too_long
            else push_text (repeat (pos_part len) t) s₂)

  unfoldable pub len : Stack R → Outcome (Stack R)
  len s = do (t, s₁) ← pop_text s; push_int (pos (length t)) s₁

  unfoldable pub size : Stack R → Outcome (Stack R)
  size s = do (t, s₁) ← pop_text s; push_int (pos (2 * length t)) s₁

  unfoldable pub asc : Stack R → Outcome (Stack R)
  asc s = do (t, s₁) ← pop_text s; push_int (pos (first_unit t)) s₁

  unfoldable pub chr_str : Stack R → Outcome (Stack R)
  chr_str s = do (n, s₁) ← pop_int16 s; push_text (to_bits 0x8000 n ∷ []) s₁

module _ (m : Platform) where
  unfoldable pub float_to_int : Stack m.R → Outcome (Stack m.R)
  float_to_int s = do
    (arg, s₁) ← pop_real64 s
    ret ← leave_on (without_underflow (m.int_16 arg).1) (m.int_16 arg).0
    push_int ret s₁

  unfoldable pub float_to_long : Stack m.R → Outcome (Stack m.R)
  float_to_long s = do
    (arg, s₁) ← pop_real64 s
    ret ← leave_on (without_underflow (m.int_32 arg).1) (m.int_32 arg).0
    push_long ret s₁

  unfoldable pub int_to_float : Stack m.R → Outcome (Stack m.R)
  int_to_float s = do (arg, s₁) ← pop_int16 s; push (real64 (m.from_int arg)) s₁

  unfoldable pub long_to_float : Stack m.R → Outcome (Stack m.R)
  long_to_float s = do (arg, s₁) ← pop_int32 s; push (real64 (m.from_int arg)) s₁

  abbrev failed : Option LeaveCode → Bool
  failed none = false
  failed (some e) = true

  unfoldable pub float_to_u_int : Stack m.R → Outcome (Stack m.R)
  float_to_u_int s = do
    (arg, s₁) ← pop_real64 s
    if failed (m.int_32 arg).1 || has_high_half (m.int_32 arg).0
        then leave overflow
        else push_int (m.int_32 arg).0 s₁

  abbrev units : (ℕ → ℕ) → List ℕ → List ℕ
  units f [] = []
  units f (c ∷ t) = f c ∷ units f t

  unfoldable pub lower_str : Stack m.R → Outcome (Stack m.R)
  lower_str s = do (t, s₁) ← pop_text s; push_text (units m.lower_case t) s₁

  unfoldable pub upper_str : Stack m.R → Outcome (Stack m.R)
  upper_str s = do (t, s₁) ← pop_text s; push_text (units m.upper_case t) s₁

  unfoldable pub loc : Stack m.R → Outcome (Stack m.R)
  loc = with_texts λ t sub s.
      if length sub == 0 then push_int (pos 1) s else push_int (m.find_folded t sub +ℤ pos 1) s

  unfoldable pub loc_with_case : Stack m.R → Outcome (Stack m.R)
  loc_with_case s = do
    (mode, s₁) ← pop_int16 s
    with_texts
        (λ t sub s₂.
          if length sub == 0
          then push_int (pos 1) s₂
          else (if is_zero mode
              then push_int (pos (find sub t)) s₂
              else (if is_zero (mode -ℤ pos 1)
                  then push_int (m.find_collated t sub +ℤ pos 1) s₂
                  else (if is_zero (mode -ℤ pos 2)
                      then push_int (m.find_folded t sub +ℤ pos 1) s₂
                      else leave argument))))
        s₁
