-- ===== src/Runtime/Reals.antt =====
-- The floating-point numbers and the text services of the platform (e32math.h, e32std.h), which
-- are not part of the repository: what oplr/src/EN_ARITH.CPP, EN_CMP.CPP, OPLCONV.CPP and
-- LB_MATHS.CPP call. An error code is the code that the call may leave with, or none.
use opl_dev.Prelude.{ℕ, List, Bool, Option}
use opl_dev.Prelude.Int.{ℤ}
use opl_dev.Prelude.Outcome.{LeaveCode}

-- `TReal64` is `R`; `TRealX`, in which the operators are computed, is `X`.
pub record Platform : Type 1 where
  pub R : Type 0
  pub X : Type 0
  pub extend : R → X
  pub narrow : X → R
  pub add_eq : X → X → X × Option LeaveCode
  pub sub_eq : X → X → X × Option LeaveCode
  pub mult_eq : X → X → X × Option LeaveCode
  pub div_eq : X → X → X × Option LeaveCode
  pub hundred : X
  pub one : X
  pub zero_real : R
  pub less : R → R → Bool
  pub less_or_equal : R → R → Bool
  pub equal : R → R → Bool
  pub negate : R → R
  pub from_int : ℤ → R
  -- `Math::Int` to 16 and to 32 bits, and `Math::Pow`
  pub int_16 : R → ℤ × Option LeaveCode
  pub int_32 : R → ℤ × Option LeaveCode
  pub power : R → R → R × Option LeaveCode
  -- `TDes16::LowerCase` and `UpperCase`, one code unit at a time
  pub lower_case : ℕ → ℕ
  pub upper_case : ℕ → ℕ
  -- `TDesC16::FindC` and `FindF`: an index, or -1
  pub find_collated : List ℕ → List ℕ → ℤ
  pub find_folded : List ℕ → List ℕ → ℤ
