-- ===== src/Translator/Lexer/Shrinks.antt =====
-- oplt/stran/OT_LEX.CPP: the lexer gets through its line, and gives tokens that the expression
-- parser can read.
use opl_dev.Prelude.{
  ℕ, suc, ◌≤◌, ◌<◌, List, [], ◌∷◌, ◌++◌, ◌≡◌, refl, Bool, true, false, Option, none, some, length,
  ltb, ◌==◌, if-holds, Bool-cases, inl, inr, arith,
}
use opl_dev.Prelude.Outcome.{Outcome, ok, Leaves, Leaves-weaken, Leaves-if}
use opl_dev.Translator.Token.{
  OplType, Token, operator, identifier, punctuation, call, keyword, structure, reserved,
}
use opl_dev.Translator.Expr.Find.{IsSource, Shrinks}
use opl_dev.Translator.Lexer.{
  Characters, Line, past, span, reserved_token, find_suffix, find_character, string_rest,
}

-- A conversion that succeeds reads at least a character.
abbrev pub Takes : {A : Type 0} → List ℕ → Option (A × List ℕ) → Type 0
Takes cs none = Unit
Takes cs (some (v, rest)) = length rest < length cs

-- What the platform documents of its characters and conversions
pub record LawfulCharacters (R : Type 0) (ch : Characters R) : Type 0 where
  pub alpha_lem : (c : ℕ) → ch.is_alpha c ≡ true → ch.is_alpha_digit c ≡ true
  pub val_word_lem : (cs : List ℕ) → Takes cs (ch.val_word cs)
  pub val_long_lem : (cs : List ℕ) → Takes cs (ch.val_long cs)
  pub val_real_lem : (c : ℕ) (cs : List ℕ) → Takes cs (ch.val_real c cs)
  pub val_hex_word_lem : (cs : List ℕ) → Takes cs (ch.val_hex_word cs)
  pub val_hex_long_lem : (cs : List ℕ) → Takes cs (ch.val_hex_long cs)

abbrev pub CanRead : Token → Type 0
CanRead t = IsSource false t

-- A token that can be read, with at most `n` characters left
abbrev pub Reads : {R : Type 0} → ℕ → Token × Line R → Type 0
Reads n r = CanRead r.0 × (length r.1.rest ≤ n)

abbrev pub Read : {R : Type 0} → ℕ → Token × Line R → Type 0
Read n r = IsSource false r.0 × Shrinks r.0 (length r.1.rest) n

Shrinks-less : (t : Token) (m n : ℕ) → suc m ≤ n → Shrinks t m n
Shrinks-less (operator op) m n h = h
Shrinks-less (identifier i) m n h = h
Shrinks-less (punctuation p) m n h = omega (arith, h)
Shrinks-less (call c) m n h = h
Shrinks-less keyword m n h = h
Shrinks-less structure m n h = h
Shrinks-less reserved m n h = h

pub Reads-Read :
    {R : Type 0} (n : ℕ) (o : Outcome (Token × Line R))
    → Leaves (Reads n) o
    → Leaves (Read (suc n)) o
Reads-Read n o h = Leaves-weaken o (λ r p. (p.0, Shrinks-less r.0 _ (suc n) (omega (arith, p.1)))) h

pub span-shorter : (p : ℕ → Bool) (cs : List ℕ) → length (span p cs).1 ≤ length cs
unfolding span
span-shorter p [] = omega arith
span-shorter p (c ∷ cs) = elim (Bool-cases (p c)) [
  | inl e ↦ rw e (let h = span-shorter p cs in omega (arith, h))
  | inr e ↦ rw e (omega arith)
]

pub span-first :
    (p : ℕ → Bool) (c : ℕ) (cs : List ℕ) → p c ≡ true → length (span p (c ∷ cs)).1 ≤ length cs
unfolding span
span-first p c cs h = rw h (span-shorter p cs)

pub past-shorter : (cs : List ℕ) → length (past cs) ≤ length cs
past-shorter [] = omega arith
past-shorter (c ∷ cs) = omega arith

pub reserved_token-CanRead : (v : ℕ) → CanRead (reserved_token v)
reserved_token-CanRead v =
    if-holds CanRead (v == 12) _ _ (refl, refl)
      (if-holds CanRead (v == 13) _ _ (refl, refl)
        (if-holds CanRead (v == 14) _ _ (refl, refl)
          (if-holds CanRead (v == 8192) _ _ tt (if-holds CanRead (ltb v 24576) _ _ tt tt))))

abbrev pub AllRead : List (ℕ × Token) → Type 0
AllRead [] = Unit
AllRead ((k, t) ∷ rest) = CanRead t × AllRead rest

pub find_character-CanRead :
    (c : ℕ) (ts : List (ℕ × Token)) → AllRead ts → Leaves CanRead (find_character c ts)
unfolding find_character
find_character-CanRead c [] h = tt
find_character-CanRead c ((k, t) ∷ rest) (here, h) =
    Leaves-if CanRead (k == c) (ok t) (find_character c rest) here (find_character-CanRead c rest h)

abbrev pub AllSuffixes : List (ℕ × OplType × Token) → Type 0
AllSuffixes [] = Unit
AllSuffixes ((k, t, token) ∷ rest) = CanRead token × AllSuffixes rest

pub find_suffix-CanRead :
    (v : ℕ) (ts : List (ℕ × OplType × Token))
    → AllSuffixes ts
    → Leaves (λ r. CanRead r.1) (find_suffix v ts)
unfolding find_suffix
find_suffix-CanRead v [] h = tt
find_suffix-CanRead v ((k, t, token) ∷ rest) (here, h) =
    Leaves-if (λ r. CanRead r.1) (v == k) (ok (t, token)) (find_suffix v rest) here
      (find_suffix-CanRead v rest h)

pub string_rest-shorter :
    (quote : Bool) (text cs : List ℕ)
    → Leaves (λ r. length r.1 ≤ length cs) (string_rest quote text cs)
unfolding string_rest
string_rest-shorter false text [] = tt
string_rest-shorter true text [] = omega arith
string_rest-shorter false text (c ∷ cs) =
    let P : List ℕ × List ℕ → Type 0 = λ r. length r.1 ≤ suc (length cs) in
    let more : (q : Bool) (t : List ℕ) → Leaves P (string_rest q t cs) = λ q t.
      Leaves-weaken (string_rest q t cs) (λ r h. omega (arith, h)) (string_rest-shorter q t cs) in
    Leaves-if P (c == 34) _ _ (more true text)
      (Leaves-if P (length text == 255) _ _ tt (more false (text ++ c ∷ [])))
string_rest-shorter true text (c ∷ cs) =
    let P : List ℕ × List ℕ → Type 0 = λ r. length r.1 ≤ suc (length cs) in
    Leaves-if P (c == 34) _ _
      (Leaves-if P (length text == 255) _ _ tt (
        Leaves-weaken (string_rest false (text ++ 34 ∷ []) cs) (λ r h. omega (arith, h))
          (string_rest-shorter false (text ++ 34 ∷ []) cs)))
      (omega arith)
