-- ===== src/Translator/Structure/Segments.antt =====
-- The labels that a piece of parse code defines, and the ones that its branches name.
use opl_dev.Prelude.{
  ℕ, ◌+◌, ◌≤◌, ◌<◌, List, [], ◌∷◌, ◌++◌, ◌≡◌, refl, Bool, true, false, ◌&&◌, ◌≢◌, ◌⊎◌, inl, inr,
  ltb, leb, arith,
}
use opl_dev.Runtime.Globals.{same_name}
use opl_dev.Translator.Pcode.{Pcode}
use opl_dev.Translator.Structure.{
  ModuleCode, evaluate, statement, vector, end_vector, label, branch_false, branch_always,
  vector_label, other, branch_name, each_evaluate, Branches,
}

abbrev pub one_if : Bool → ℕ
one_if true = 1
one_if false = 0

-- 1 for a number from `lo` to below `hi`
abbrev pub inside : ℕ → ℕ → ℕ → ℕ
inside lo hi n = one_if (leb lo n && ltb n hi)

-- A name that no internal label has: they begin with a full stop, which is not allowed in OPL.
abbrev pub IsUserName : List ℕ → Type 0
IsUserName [] = Unit
IsUserName (c ∷ cs) = c ≢ 0x2e

module _ {R : Type 0} where
  abbrev pub defines : ℕ → ModuleCode R → ℕ
  defines n (label name) = one_if (same_name name (branch_name n))
  defines n c = 0

  -- How often the label of branch `n` is defined
  abbrev pub count : ℕ → List (ModuleCode R) → ℕ
  count n [] = 0
  count n (c ∷ cs) = defines n c + count n cs

  -- A branch names the label of a branch number with `P`, or a GOTO names a label of the program.
  abbrev pub Refers : (ℕ → Type 0) → ModuleCode R → Type 0
  Refers P (branch_false name) = (k : ℕ) × (name ≡ branch_name k) × P k
  Refers P (branch_always name) = IsUserName name ⊎ ((k : ℕ) × (name ≡ branch_name k) × P k)
  Refers P c = Unit

  abbrev pub AllRefer : (ℕ → Type 0) → List (ModuleCode R) → Type 0
  AllRefer P [] = Unit
  AllRefer P (c ∷ cs) = Refers P c × AllRefer P cs

  pub count-append : (n : ℕ) (s t : List (ModuleCode R)) → count n (s ++ t) ≡ count n s + count n t
  count-append n [] t = omega arith
  count-append n (c ∷ s) t = omega (arith, count-append n s t)

  Refers-weaken :
      (P Q : ℕ → Type 0) (c : ModuleCode R) → ((k : ℕ) → P k → Q k) → Refers P c → Refers Q c
  Refers-weaken P Q (branch_false name) f (k, e, p) = (k, e, f k p)
  Refers-weaken P Q (branch_always name) f (inl user) = inl user
  Refers-weaken P Q (branch_always name) f (inr (k, e, p)) = inr (k, e, f k p)
  Refers-weaken P Q (evaluate p) f h = tt
  Refers-weaken P Q statement f h = tt
  Refers-weaken P Q vector f h = tt
  Refers-weaken P Q end_vector f h = tt
  Refers-weaken P Q (label name) f h = tt
  Refers-weaken P Q (vector_label name) f h = tt
  Refers-weaken P Q (other n) f h = tt

  pub AllRefer-append :
      (P P' Q : ℕ → Type 0) (s t : List (ModuleCode R))
      → ((k : ℕ) → P k → Q k)
      → ((k : ℕ) → P' k → Q k)
      → AllRefer P s
      → AllRefer P' t
      → AllRefer Q (s ++ t)
  AllRefer-append P P' Q [] [] f g h h' = tt
  AllRefer-append P P' Q [] (c ∷ t) f g h h' =
      (Refers-weaken P' Q c g h'.0, AllRefer-append P P' Q [] t f g tt h'.1)
  AllRefer-append P P' Q (c ∷ s) t f g h h' =
      (Refers-weaken P Q c f h.0, AllRefer-append P P' Q s t f g h.1 h')

  pub AllRefer-weaken :
      (P Q : ℕ → Type 0) (s : List (ModuleCode R))
      → ((k : ℕ) → P k → Q k)
      → AllRefer P s
      → AllRefer Q s
  AllRefer-weaken P Q [] f h = tt
  AllRefer-weaken P Q (c ∷ s) f h = (Refers-weaken P Q c f h.0, AllRefer-weaken P Q s f h.1)

  -- The code of an expression has neither.
  pub each_evaluate-count : (n : ℕ) (ps : List (Pcode R)) → count n (each_evaluate ps) ≡ 0
  each_evaluate-count n [] = refl
  each_evaluate-count n (p ∷ ps) = omega (arith, each_evaluate-count n ps)

  pub each_evaluate-AllRefer :
      (P : ℕ → Type 0) (ps : List (Pcode R)) → AllRefer P (each_evaluate ps)
  each_evaluate-AllRefer P [] = tt
  each_evaluate-AllRefer P (p ∷ ps) = (tt, each_evaluate-AllRefer P ps)

-- The branch numbers from `lo` to below `hi`, which a structure has of its own, and those of the
-- loop around it, which BREAK and CONTINUE go to.
abbrev pub Target : ℕ → ℕ → Branches → ℕ → Type 0
Target lo hi b k = ((lo ≤ k) × (k < hi)) ⊎ ((0 < b.loop) × ((k ≡ b.break_at) ⊎ (k ≡ b.continue_at)))

-- Only the count of branches is new.
abbrev pub SameBranches : Branches → Branches → Type 0
SameBranches b b' =
    (b'.loop ≡ b.loop)
    × (b'.depth ≡ b.depth)
    × (b'.false_at ≡ b.false_at)
    × (b'.break_at ≡ b.break_at)
    × (b'.continue_at ≡ b.continue_at)
    × (b'.exit_at ≡ b.exit_at)
