-- ===== src/Prelude/Below.antt =====
-- Tests of every number below a bound.
use opl_dev.Prelude.{
  ℕ, zero, suc, ◌<◌, ◌≡◌, refl, ap, ◌∙◌, Bool, true, false, ◌&&◌, ◌==◌, Bool-cases, inl, inr, arith,
}

abbrev pub all_below : (ℕ → Bool) → ℕ → Bool
all_below p zero = true
all_below p (suc n) = all_below p n && p n

pub all_below_lem : (p : ℕ → Bool) (n : ℕ) → all_below p n ≡ true → (k : ℕ) → k < n → p k ≡ true
all_below_lem p zero h k lt = absurd (omega (arith, lt))
all_below_lem p (suc n) h k lt = elim (Bool-cases (k == n)) [
  | inl e ↦ (let eq : k ≡ n = ground arith in ap p eq ∙ second (all_below p n) (p n) h)
  | inr e ↦ all_below_lem p n (first (all_below p n) (p n) h) k (ground arith)
]
  where
    first : (a b : Bool) → (a && b) ≡ true → a ≡ true
    first true b h = refl
    first false b h = h

    second : (a b : Bool) → (a && b) ≡ true → b ≡ true
    second true b h = h
    second false b h = absurd cc
