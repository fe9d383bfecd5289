-- ===== src/Translator/Structure/Names.antt =====
-- oplt/stran/OT_STRUC.CPP, BranchName: the texts that the internal labels of a procedure have.
use opl_dev.Prelude.{
  ℕ, zero, suc, ◌+◌, ◌*◌, ◌/◌, ◌%◌, ◌<◌, ◌≤◌, List, [], ◌∷◌, ◌≡◌, refl, sym, ap, ◌∙◌, true, length,
  ◌==◌, Bool-cases, inl, inr, arith,
}
use opl_dev.Runtime.Globals.{same_name}
use opl_dev.Runtime.Globals.Find.{same_name_equal, equal_self}
use opl_dev.Translator.Structure.{digits, branch_name}

-- What a text's characters say of the number: two bits each.
abbrev value : List ℕ → ℕ
value [] = 0
value (d ∷ ds) = d % 4 + 4 * value ds

abbrev power_4 : ℕ → ℕ
power_4 zero = 1
power_4 (suc k) = 4 * power_4 k

value-digits : (fuel n : ℕ) → n < power_4 fuel → value (digits fuel n) ≡ n
value-digits zero n lt = omega (arith, lt)
value-digits (suc fuel) n lt = elim (Bool-cases (n == 0)) [
  | inl e ↦ (let z : n ≡ 0 = ground arith in rw e (sym z))
  | inr e ↦
      (let less : n / 4 < power_4 fuel = omega (arith, lt) in
        rw (e, value-digits fuel (n / 4) less) (omega arith))
]

abbrev tail_of : List ℕ → List ℕ
tail_of [] = []
tail_of (c ∷ cs) = cs

length-digits : (fuel n : ℕ) → length (digits fuel n) ≤ fuel
length-digits zero n = omega arith
length-digits (suc fuel) n = elim (Bool-cases (n == 0)) [
  | inl e ↦ rw e (omega arith)
  | inr e ↦ rw e (omega (arith, length-digits fuel (n / 4)))
]

-- The text of every branch's label fits the buffer of 32 characters that it is put together in,
-- and branches with different numbers of 32 bits have different texts, though the characters
-- overlap: each round takes four bits, and drops two.
pub branch_name-injective :
    (a b : ℕ)
    → a < 0x1_0000_0000
    → b < 0x1_0000_0000
    → (length (branch_name a) ≤ 32) × (branch_name a ≡ branch_name b → a ≡ b)
unfolding branch_name
branch_name-injective a b la lb = (
  omega (arith, length-digits 16 a),
  λ e. sym (value-digits 16 a la) ∙ ap (λ t. value (tail_of t)) e ∙ value-digits 16 b lb,
)

pub self_name : (s : List ℕ) → same_name s s ≡ true
self_name [] = refl
self_name (c ∷ s) = rw (equal_self c, self_name s) refl

pub same_name-branch_name :
    (a b : ℕ)
    → a < 0x1_0000_0000
    → b < 0x1_0000_0000
    → same_name (branch_name a) (branch_name b) ≡ (a == b)
same_name-branch_name a b la lb = elim (Bool-cases (a == b)) [
  | inl e ↦
      (let eq : a ≡ b = ground arith in
        rw (e, ap (λ n. same_name n (branch_name b)) (ap branch_name eq))
          (self_name (branch_name b)))
  | inr e ↦ elim (Bool-cases (same_name (branch_name a) (branch_name b))) [
    | inl same ↦
        (let eq : a ≡ b =
            (branch_name-injective a b la lb).1
              (same_name_equal (branch_name a) (branch_name b) same) in
          absurd (ground arith))
    | inr other ↦ rw (e, other) refl
  ]
]
