-- ===== src/Runtime/Memory/Errors.antt =====
-- oplr/src/OPLUTIL.CPP: MapError and the table of the codes that older programs know.
use opl_dev.Prelude.{
  ℕ, zero, suc, ◌/◌, ◌≤◌, List, [], ◌∷◌, ◌≡◌, refl, sym, Bool, true, false, Option, none, some,
  get_elem?, length, ltb, ◌==◌, if◌then◌else◌, Bool-cases, inl, inr, arith,
}
use opl_dev.Prelude.Int.{ℤ, pos, negsuc, sub_ℕ, to_bits, to_int16}
use opl_dev.Prelude.Below.{all_below, all_below_lem}
use opl_dev.Runtime.Arith.{is_zero}

-- `EraToOpl1993Table`, the codes negated. It has 45 entries, of which 44 are given.
abbrev pub era_to_opl1993_table : List ℕ
era_to_opl1993_table =
    0 ∷ 33 ∷ 1 ∷ 48 ∷ 10 ∷ 4 ∷ 2 ∷ 7 ∷ 33 ∷ 6 ∷ 5 ∷ 32 ∷ 42 ∷ 1 ∷ 9 ∷ 1 ∷ 23 ∷ 1 ∷ 62 ∷ 63 ∷ 66 ∷ 39
    ∷ 40 ∷ 34 ∷ 19 ∷ 36 ∷ 37 ∷ 18 ∷ 38 ∷ 53 ∷ 56 ∷ 57 ∷ 55 ∷ 52 ∷ 51 ∷ 50 ∷ 50 ∷ 1 ∷ 1 ∷ 67 ∷ 37 ∷ 8
    ∷ 1 ∷ 64 ∷ 0 ∷ []

abbrev pub negated : Option ℕ → ℤ
negated none = negsuc 0
negated (some n) = sub_ℕ 0 n

-- `ErrorEraToOpl1993`: past the table it is E_GEN_FAIL, -1.
unfoldable pub error_era_to_opl1993 : ℤ → ℤ
error_era_to_opl1993 (pos zero) = negated (get_elem? era_to_opl1993_table 0)
error_era_to_opl1993 (pos (suc n)) = to_int16 (pos (suc n))
error_era_to_opl1993 (negsuc n) = negated (get_elem? era_to_opl1993_table (suc n))

-- `MapError`: the runtime's own codes carry 0xabcd in their upper half.
unfoldable pub map_error : ℤ → ℤ
unfolding error_era_to_opl1993
map_error e =
    if to_bits 0x8000_0000 e / 0x1_0000 == 0xabcd then to_int16 e else error_era_to_opl1993 e

abbrev agree : Bool → Bool → Bool
agree true b = b
agree false true = false
agree false false = true

agree_lem : (a b : Bool) → agree a b ≡ true → a ≡ b
agree_lem true b h = sym h
agree_lem false true h = absurd cc
agree_lem false false h = refl

abbrev given : ℕ → Bool
given n = agree (is_zero (negated (get_elem? era_to_opl1993_table (suc n)))) (n == 43)

all_given : all_below given 44 ≡ true
all_given = refl

past : (l : List ℕ) (n : ℕ) → length l ≤ n → get_elem? l n ≡ none
past [] n h = refl
past (x ∷ l) zero h = absurd (omega (arith, h))
past (x ∷ l) (suc n) h = past l n (omega (arith, h))

-- Of the negative codes of the platform -44 alone is mapped to 0, which says that there was no
-- error: the table has a place for it that no value is given for.
pub error_era_to_opl1993-is_zero : (n : ℕ) → is_zero (error_era_to_opl1993 (negsuc n)) ≡ (n == 43)
unfolding error_era_to_opl1993
error_era_to_opl1993-is_zero n = elim (Bool-cases (ltb n 44)) [
  | inl e ↦
      agree_lem (is_zero (negated (get_elem? era_to_opl1993_table (suc n)))) (n == 43)
        (all_below_lem given 44 all_given n (ground arith))
  | inr e ↦
      (let other : (n == 43) ≡ false = ground arith in
        rw (past era_to_opl1993_table (suc n) (ground arith), other) refl)
]
