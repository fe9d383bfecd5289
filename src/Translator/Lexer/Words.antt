-- ===== src/Translator/Lexer/Words.antt =====
-- oplt/stran/OT_RESRV.CPP: the words of the lookup tables are found.
use mathlib.Core.Path.{subst}
use opl_dev.Prelude.{
  ℕ, ◌+◌, ◌<◌, List, [], ◌∷◌, ◌++◌, ◌≡◌, ◌⊎◌, inl, inr, refl, sym, Bool, true, false, ◌&&◌,
  get_elem?, Among, ◌==◌, if◌then◌else◌, arith,
}
use opl_dev.Prelude.Below.{all_below, all_below_lem}
use opl_dev.Runtime.Arith.{bits_and}
use opl_dev.Runtime.Globals.{same_name}
use opl_dev.Runtime.Globals.Find.{same_name_equal}
use opl_dev.Translator.Lexer.{
  LookedUp, no_word, function_word, keyword_word, other_word, map, rows_of, is_reserved,
}
use opl_dev.Translator.Lexer.Functions.{function_row, function_tables}
use opl_dev.Translator.Lexer.Keywords.{keyword_row, keyword_tables}
use opl_dev.Translator.Lexer.Reserved.{reserved_row, reserved_tables}

-- The words whose initial is the letter at `k`, A at 0
unfoldable pub words_of : ℕ → List LookedUp
words_of k =
    map function_word (rows_of (get_elem? function_tables k))
    ++ map keyword_word (rows_of (get_elem? keyword_tables k))
    ++ map other_word (rows_of (get_elem? reserved_tables k))

-- A word's name behind its initial
abbrev pub name_of : LookedUp → List ℕ
name_of no_word = []
name_of (function_word (function_row n t a b c d)) = n
name_of (keyword_word (keyword_row n t a b)) = n
name_of (other_word (reserved_row n t a)) = n

abbrev pub targets_of : LookedUp → ℕ
targets_of no_word = 0
targets_of (function_word (function_row n t a b c d)) = t
targets_of (keyword_word (keyword_row n t a b)) = t
targets_of (other_word (reserved_row n t a)) = t

abbrev same_bool : Bool → Bool → Bool
same_bool true b = b
same_bool false true = false
same_bool false false = true

abbrev same_word : LookedUp → LookedUp → Bool
same_word (function_word (function_row n t a b c d))
      (function_word (function_row n' t' a' b' c' d')) =
    same_name n n' && (t == t' && (a == a' && (b == b' && (c == c' && d == d'))))
same_word (keyword_word (keyword_row n t a b)) (keyword_word (keyword_row n' t' a' b')) =
    same_name n n' && (t == t' && (a == a' && same_bool b b'))
same_word (other_word (reserved_row n t a)) (other_word (reserved_row n' t' a')) =
    same_name n n' && (t == t' && a == a')
same_word v w = false

and_true : (a b : Bool) → (a && b) ≡ true → (a ≡ true) × (b ≡ true)
and_true true b h = (refl, h)
and_true false b h = cc

number_equal : (a b : ℕ) → (a == b) ≡ true → a ≡ b
number_equal a b h = ground arith

same_bool_equal : (a b : Bool) → same_bool a b ≡ true → a ≡ b
same_bool_equal true true h = refl
same_bool_equal true false h = cc
same_bool_equal false true h = cc
same_bool_equal false false h = refl

same_word_equal : (v w : LookedUp) → same_word v w ≡ true → v ≡ w
same_word_equal (function_word (function_row n t a b c d))
      (function_word (function_row n' t' a' b' c' d')) h =
    let (h₀, r₀) = and_true (same_name n n') _ h in
    let (h₁, r₁) = and_true (t == t') _ r₀ in
    let (h₂, r₂) = and_true (a == a') _ r₁ in
    let (h₃, r₃) = and_true (b == b') _ r₂ in
    let (h₄, h₅) = and_true (c == c') _ r₃ in
    let e₀ = same_name_equal n n' h₀ in
    let e₁ = number_equal t t' h₁ in
    let e₂ = number_equal a a' h₂ in
    let e₃ = number_equal b b' h₃ in
    let e₄ = number_equal c c' h₄ in
    let e₅ = number_equal d d' h₅ in rw (e₀, e₁, e₂, e₃, e₄, e₅) refl
same_word_equal (keyword_word (keyword_row n t a b)) (keyword_word (keyword_row n' t' a' b')) h =
    let (h₀, r₀) = and_true (same_name n n') _ h in
    let (h₁, r₁) = and_true (t == t') _ r₀ in
    let (h₂, h₃) = and_true (a == a') _ r₁ in
    let e₀ = same_name_equal n n' h₀ in
    let e₁ = number_equal t t' h₁ in
    let e₂ = number_equal a a' h₂ in let e₃ = same_bool_equal b b' h₃ in rw (e₀, e₁, e₂, e₃) refl
same_word_equal (other_word (reserved_row n t a)) (other_word (reserved_row n' t' a')) h =
    let (h₀, r₀) = and_true (same_name n n') _ h in
    let (h₁, h₂) = and_true (t == t') _ r₀ in
    let e₀ = same_name_equal n n' h₀ in
    let e₁ = number_equal t t' h₁ in let e₂ = number_equal a a' h₂ in rw (e₀, e₁, e₂) refl
same_word_equal v w h = cc

-- The target is among those that the word is for.
abbrev pub is_permitted : ℕ → LookedUp → Bool
is_permitted target w = if bits_and 8 target (targets_of w) == 0 then false else true

abbrev finds : ℕ → ℕ → LookedUp → Bool
finds target k w =
    if is_permitted target w then same_word (is_reserved target ((65 + k) ∷ name_of w)) w else true

abbrev all_of : (LookedUp → Bool) → List LookedUp → Bool
all_of p [] = true
all_of p (w ∷ ws) = let rest = all_of p ws in p w && rest

all_of-Among :
    (p : LookedUp → Bool) (ws : List LookedUp) (w : LookedUp)
    → all_of p ws ≡ true
    → Among w ws
    → p w ≡ true
all_of-Among p [] w h m = absurd m
all_of-Among p (v ∷ ws) w h (inl e) = subst (λ w. p w ≡ true) e (and_true (p v) (all_of p ws) h).0
all_of-Among p (v ∷ ws) w h (inr m) = all_of-Among p ws w (and_true (p v) (all_of p ws) h).1 m

-- Every word of the tables is found, for either target.
finds_all :
    all_below (λ k. all_of (finds 4 k) (words_of k) && all_of (finds 1 k) (words_of k)) 25 ≡ true
unfolding words_of is_reserved
finds_all = refl

finds-equal :
    (target k : ℕ) (w : LookedUp)
    → is_permitted target w ≡ true
    → finds target k w ≡ true
    → is_reserved target ((65 + k) ∷ name_of w) ≡ w
finds-equal target k w permitted h =
    same_word_equal (is_reserved target ((65 + k) ∷ name_of w)) w (rw permitted at h)

-- A function, a keyword or another reserved word of the lookup tables, whose initial is a letter
-- from A to Y, where it is for the target that is translated for, OPL1993 or ER1: the lookup of its
-- name finds that word, so that no other word of the tables hides it.
pub is_reserved-words_of :
    (target k : ℕ) (w : LookedUp)
    → (target ≡ 1) ⊎ (target ≡ 4)
    → k < 25
    → Among w (words_of k)
    → is_permitted target w ≡ true
    → is_reserved target ((65 + k) ∷ name_of w) ≡ w
is_reserved-words_of target k w which below m permitted =
    let both = and_true _ _ (
      all_below_lem (λ k. all_of (finds 4 k) (words_of k) && all_of (finds 1 k) (words_of k)) 25
        finds_all k below) in
    elim which [
      | inl e ↦
          (let found = all_of-Among (finds 1 k) (words_of k) w both.1 m in
            finds-equal target k w permitted (subst (λ t. finds t k w ≡ true) (sym e) found))
      | inr e ↦
          (let found = all_of-Among (finds 4 k) (words_of k) w both.0 m in
            finds-equal target k w permitted (subst (λ t. finds t k w ≡ true) (sym e) found))
    ]
