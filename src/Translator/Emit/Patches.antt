-- ===== src/Translator/Emit/Patches.antt =====
-- oplt/stran/OPL16GEN.CPP: the patches of RunL, over references whose bytes do not overlap.
use mathlib.Core.Path.{subst}
use opl_dev.Prelude.{
  Among, ℕ, ◌+◌, ◌-◌, ◌%◌, ◌^◌, ◌≤◌, List, [], ◌∷◌, ◌≡◌, ◌≢◌, inl, inr, refl, sym, ap, ◌∙◌, true,
  false, length, get_elem?, Bool-cases, arith,
}
use opl_dev.Prelude.Bytes.{
  word_at, length-put_word_at, get_elem?-put_word_at, word_at-put_word_at, word_at_same,
}
use opl_dev.Prelude.Outcome.{ok}
use opl_dev.Runtime.Globals.{same_name}
use opl_dev.Runtime.Globals.Find.{same_name_equal}
use opl_dev.Translator.Structure.Names.{self_name}
use opl_dev.Translator.Emit.{LabelReference, patch_references, patch_labels}

-- The references, from the last, each take two bytes below a bound, and below the next.
abbrev pub IsSpaced : ℕ → List LabelReference → Type 0
IsSpaced bound [] = Unit
IsSpaced bound (r ∷ rs) = (r.position + 2 ≤ bound) × IsSpaced r.position rs

-- No reference takes the byte.
abbrev pub Free : ℕ → List LabelReference → Type 0
Free p [] = Unit
Free p (r ∷ rs) = (p ≢ r.position) × (p ≢ r.position + 1) × Free p rs

-- What is patched for a reference to an address
abbrev pub distance : LabelReference → ℕ → ℕ
distance r address = (address + 2 ^ 32 - r.base) % 2 ^ 32 % 65536

pub IsSpaced-Free :
    (bound p : ℕ) (rs : List LabelReference) → IsSpaced bound rs → bound ≤ p → Free p rs
IsSpaced-Free bound p [] s h = tt
IsSpaced-Free bound p (r ∷ rs) (here, s) h = (
  (λ e. absurd (omega (arith, here, h, e))),
  (λ e. absurd (omega (arith, here, h, e))),
  IsSpaced-Free r.position p rs s (omega (arith, here, h)),
)

pub IsSpaced-weaken : (a b : ℕ) (rs : List LabelReference) → IsSpaced a rs → a ≤ b → IsSpaced b rs
IsSpaced-weaken a b [] s h = tt
IsSpaced-weaken a b (r ∷ rs) (here, s) h = (omega (arith, here, h), s)

Among-below :
    (bound : ℕ) (r : LabelReference) (rs : List LabelReference)
    → IsSpaced bound rs
    → Among r rs
    → r.position + 2 ≤ bound
Among-below bound r [] s m = absurd m
Among-below bound r (q ∷ rs) (here, s) (inl e) =
    let same : q.position ≡ r.position = ap (λ (x : LabelReference). x.position) e in
    omega (arith, here, same)
Among-below bound r (q ∷ rs) (here, s) (inr m) =
    let below = Among-below q.position r rs s m in omega (arith, here, below)

module _ (name : List ℕ) (address : ℕ) where
  length-patch_references :
      (rs : List LabelReference) (bs : List ℕ)
      → length (patch_references name address rs bs) ≡ length bs
  unfolding patch_references
  length-patch_references [] bs = refl
  length-patch_references (r ∷ rs) bs = elim (Bool-cases (same_name name r.to_label)) [
    | inl e ↦ rw e (length-put_word_at _ _ _ ∙ length-patch_references rs bs)
    | inr e ↦ rw e (length-patch_references rs bs)
  ]

  -- A byte that is free is kept.
  patch_references-Free :
      (p : ℕ) (rs : List LabelReference) (bs : List ℕ)
      → Free p rs
      → get_elem? (patch_references name address rs bs) p ≡ get_elem? bs p
  unfolding patch_references
  patch_references-Free p [] bs f = refl
  patch_references-Free p (r ∷ rs) bs (f₀, f₁, f) = elim (Bool-cases (same_name name r.to_label)) [
    | inl e ↦ rw e (get_elem?-put_word_at _ _ p _ f₀ f₁ ∙ patch_references-Free p rs bs f)
    | inr e ↦ rw e (patch_references-Free p rs bs f)
  ]

  -- The patch of a later reference is elsewhere.
  patch_references-later :
      (q r : LabelReference) (rs : List LabelReference) (bs : List ℕ)
      → IsSpaced q.position rs
      → Among r rs
      → word_at (patch_references name address (q ∷ rs) bs) r.position
        ≡ word_at (patch_references name address rs bs) r.position
  unfolding patch_references
  patch_references-later q r rs bs s m =
      let below = Among-below q.position r rs s m in
      let rest = patch_references name address rs bs in
      elim (Bool-cases (same_name name q.to_label)) [
        | inl e ↦ rw e (
            word_at_same _ _ r.position
              (get_elem?-put_word_at q.position _ r.position rest
                (λ x. absurd (omega (arith, below, x))) (λ x. absurd (omega (arith, below, x))))
              (get_elem?-put_word_at q.position _ (r.position + 1) rest
                (λ x. absurd (omega (arith, below, x))) (λ x. absurd (omega (arith, below, x)))))
        | inr e ↦ rw e refl
      ]

  patch_references-first :
      (r : LabelReference) (rs : List LabelReference) (bs : List ℕ)
      → r.position + 2 ≤ length bs
      → same_name name r.to_label ≡ true
      → word_at (patch_references name address (r ∷ rs) bs) r.position ≡ ok (distance r address)
  unfolding patch_references
  patch_references-first r rs bs h same =
      rw same (word_at-put_word_at r.position _ _ (rw (length-patch_references rs bs) h))

  -- The bytes of a reference to the label
  patch_references-hit :
      (bound : ℕ) (r : LabelReference) (rs : List LabelReference) (bs : List ℕ)
      → IsSpaced bound rs
      → bound ≤ length bs
      → Among r rs
      → same_name name r.to_label ≡ true
      → word_at (patch_references name address rs bs) r.position ≡ ok (distance r address)
  patch_references-hit bound r [] bs s h m same = absurd m
  patch_references-hit bound r (q ∷ rs) bs (here, s) h (inl e) same =
      subst
        (λ r.
          word_at (patch_references name address (q ∷ rs) bs) r.position ≡ ok (distance r address))
        e
        (patch_references-first q rs bs (omega (arith, here, h))
          (subst (λ (r : LabelReference). same_name name r.to_label ≡ true) (sym e) same))
  patch_references-hit bound r (q ∷ rs) bs (here, s) h (inr m) same =
      patch_references-later q r rs bs s m
      ∙ patch_references-hit q.position r rs bs s (omega (arith, here, h)) m same

  patch_references-unnamed :
      (r : LabelReference) (rs : List LabelReference) (bs : List ℕ)
      → IsSpaced r.position rs
      → same_name name r.to_label ≡ false
      → word_at (patch_references name address (r ∷ rs) bs) r.position ≡ word_at bs r.position
  unfolding patch_references
  patch_references-unnamed r rs bs s other = rw other (
      word_at_same _ _ r.position
        (patch_references-Free r.position rs bs
          (IsSpaced-Free r.position r.position rs s (omega arith)))
        (patch_references-Free (r.position + 1) rs bs
          (IsSpaced-Free r.position (r.position + 1) rs s (omega arith))))

  -- The bytes of a reference to another label
  patch_references-miss :
      (bound : ℕ) (r : LabelReference) (rs : List LabelReference) (bs : List ℕ)
      → IsSpaced bound rs
      → Among r rs
      → same_name name r.to_label ≡ false
      → word_at (patch_references name address rs bs) r.position ≡ word_at bs r.position
  patch_references-miss bound r [] bs s m other = absurd m
  patch_references-miss bound r (q ∷ rs) bs (here, s) (inl e) other =
      subst
        (λ (r : LabelReference).
          word_at (patch_references name address (q ∷ rs) bs) r.position ≡ word_at bs r.position)
        e
        (patch_references-unnamed q rs bs s
          (subst (λ (r : LabelReference). same_name name r.to_label ≡ false) (sym e) other))
  patch_references-miss bound r (q ∷ rs) bs (here, s) (inr m) other =
      patch_references-later q r rs bs s m ∙ patch_references-miss q.position r rs bs s m other

length-patch_labels :
    (names : List (List ℕ)) (address : List ℕ → ℕ) (rs : List LabelReference) (bs : List ℕ)
    → length (patch_labels names address rs bs) ≡ length bs
unfolding patch_labels
length-patch_labels [] address rs bs = refl
length-patch_labels (name ∷ names) address rs bs =
    length-patch_references name (address name) rs _ ∙ length-patch_labels names address rs bs

pub patch_labels-Free :
    (names : List (List ℕ)) (address : List ℕ → ℕ) (p : ℕ) (rs : List LabelReference) (bs : List ℕ)
    → Free p rs
    → get_elem? (patch_labels names address rs bs) p ≡ get_elem? bs p
unfolding patch_labels
patch_labels-Free [] address p rs bs f = refl
patch_labels-Free (name ∷ names) address p rs bs f =
    patch_references-Free name (address name) p rs _ f ∙ patch_labels-Free names address p rs bs f

-- Each reference to a label that has been put into the code holds the distance to its address.
pub patch_labels-Among :
    (names : List (List ℕ)) (address : List ℕ → ℕ) (bound : ℕ) (r : LabelReference)
    (rs : List LabelReference) (bs : List ℕ)
    → IsSpaced bound rs
    → bound ≤ length bs
    → Among r rs
    → Among r.to_label names
    → word_at (patch_labels names address rs bs) r.position ≡ ok (distance r (address r.to_label))
unfolding patch_labels
patch_labels-Among [] address bound r rs bs s h m k = absurd k
patch_labels-Among (name ∷ names) address bound r rs bs s h m k =
    let rest = patch_labels names address rs bs in
    let h' : bound ≤ length rest = rw (length-patch_labels names address rs bs) h in
    elim (Bool-cases (same_name name r.to_label)) [
      | inl e ↦
          (let hit = patch_references-hit name (address name) bound r rs rest s h' m e in
            hit ∙ ap (λ n. ok (distance r (address n))) (same_name_equal name r.to_label e))
      | inr e ↦ elim k [
        | inl same ↦
            (let self : same_name name r.to_label ≡ true = rw (sym same) (self_name name) in cc)
        | inr k' ↦
            patch_references-miss name (address name) bound r rs rest s m e
            ∙ patch_labels-Among names address bound r rs bs s h m k'
      ]
    ]
