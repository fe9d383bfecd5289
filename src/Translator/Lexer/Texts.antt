-- ===== src/Translator/Lexer/Texts.antt =====
-- oplt/stran/OT_LEX.CPP, LexStringL: the text of a string constant, against the way that a text is
-- written as one.
use opl_dev.Prelude.{
  ℕ, ◌≤◌, List, [], ◌∷◌, ◌++◌, ◌≡◌, ◌≢◌, refl, sym, ap, ◌∙◌, true, false, length, length-append,
  leb, ◌==◌, if◌then◌else◌, Bool-cases, inl, inr, arith,
}
use opl_dev.Prelude.Outcome.{Outcome, ok, leave, ◌>>=◌, bad_string_length}
use opl_dev.Translator.Token.{string_value}
use opl_dev.Translator.Lexer.{
  Characters, Settings, Line, peek, span, string_rest, lex_string, constant_token, lex_from, lex_l,
}

-- A text as it stands between the quotes: a quote is written twice.
unfoldable pub escaped : List ℕ → List ℕ
escaped [] = []
escaped (c ∷ cs) = let rest = escaped cs in if c == 34 then 34 ∷ 34 ∷ rest else c ∷ rest

abbrev pub literal : List ℕ → List ℕ → List ℕ
literal t rest = 34 ∷ escaped t ++ 34 ∷ rest

append_assoc : (xs ys zs : List ℕ) → (xs ++ ys) ++ zs ≡ xs ++ (ys ++ zs)
append_assoc [] ys zs = refl
append_assoc (x ∷ xs) ys zs = ap (λ t. x ∷ t) (append_assoc xs ys zs)

append_nil : (bs : List ℕ) → bs ++ [] ≡ bs
append_nil [] = refl
append_nil (x ∷ bs) = ap (λ t. x ∷ t) (append_nil bs)

abbrev limited : List ℕ → List ℕ → Outcome (List ℕ × List ℕ)
limited t rest = if leb (length t) 255 then ok (t, rest) else leave bad_string_length

at_end : (text rest : List ℕ) → peek rest ≢ 34 → string_rest true text rest ≡ ok (text, rest)
unfolding string_rest
at_end text [] h = refl
at_end text (c ∷ cs) h = let other : (c == 34) ≡ false = ground arith in rw other refl

-- A character is added, where there is room for it.
add_character :
    (c : ℕ) (cs text rest : List ℕ) (o : Outcome (List ℕ × List ℕ))
    → length text ≤ 255
    → (length (text ++ c ∷ []) ≤ 255 → o ≡ limited ((text ++ c ∷ []) ++ cs) rest)
    → (if length text == 255 then leave bad_string_length else o) ≡ limited (text ++ c ∷ cs) rest
add_character c cs text rest o small k =
    let one = length-append text (c ∷ []) in
    let all = length-append text (c ∷ cs) in
    elim (Bool-cases (length text == 255)) [
      | inl full ↦
          (let over : leb (length (text ++ c ∷ cs)) 255 ≡ false = rw all (ground arith) in
            rw (full, over) refl)
      | inr room ↦
          (let fits : length (text ++ c ∷ []) ≤ 255 = rw one (ground arith) in
            rw room (k fits ∙ ap (λ t. limited t rest) (append_assoc text (c ∷ []) cs)))
    ]

-- The scan of an escaped text, where some of it has been read
scan-escaped :
    (t text rest : List ℕ)
    → peek rest ≢ 34
    → length text ≤ 255
    → string_rest false text (escaped t ++ 34 ∷ rest) ≡ limited (text ++ t) rest
unfolding string_rest escaped
scan-escaped [] text rest h small =
    let fits : leb (length (text ++ [])) 255 ≡ true = rw append_nil (ground arith) in
    rw fits (at_end text rest h ∙ ap (λ t. ok (t, rest)) (sym (append_nil text)))
scan-escaped (c ∷ cs) text rest h small = elim (Bool-cases (c == 34)) [
  | inl quote ↦
      (let same : c ≡ 34 = ground arith in
        let added : string_rest false text (34 ∷ 34 ∷ escaped cs ++ 34 ∷ rest)
            ≡ limited (text ++ 34 ∷ cs) rest =
          add_character 34 cs text rest _ small (scan-escaped cs (text ++ 34 ∷ []) rest h) in
        rw (quote, same) added)
  | inr plain ↦
      (let added : (if length text == 255
              then leave bad_string_length
              else string_rest false (text ++ c ∷ []) (escaped cs ++ 34 ∷ rest))
            ≡ limited (text ++ c ∷ cs) rest =
          add_character c cs text rest _ small (scan-escaped cs (text ++ c ∷ []) rest h) in
        rw (plain, plain) added)
]

module _ {R : Type 0} (ch : Characters R) (s : Settings R) where
  found_text :
      (t rest : List ℕ) (l : Line R)
      → (limited t rest >>= λ r.
          ok (constant_token (string_value r.0) r.1 (record l { text = r.0 })))
        ≡ (if leb (length t) 255
            then ok (constant_token (string_value t) rest (record l { text = t }))
            else leave bad_string_length)
  found_text t rest l = elim (Bool-cases (leb (length t) 255)) [
    | inl e ↦ rw e refl
    | inr e ↦ rw e refl
  ]

  -- A text that is written between quotes, its own quotes twice, at the start of what the lexer has
  -- to read, and no quote behind it: the token is a string constant of that text, and what is behind
  -- the literal is left; a text of more than 255 characters is left at the error for its length. The
  -- platform takes a quote for no space and no digit, and it is not the decimal separator.
  pub lex_l-literal :
      (t rest : List ℕ) (l : Line R)
      → ch.is_space 34 ≡ false
      → ch.is_digit 34 ≡ false
      → s.decimal_separator ≢ 34
      → peek rest ≢ 34
      → l.rest ≡ literal t rest
      → lex_l ch s l ≡ (
          if leb (length t) 255
          then ok (
              constant_token (string_value t) rest (record l { marked = literal t rest; text = t }))
          else leave bad_string_length)
  unfolding lex_l lex_from lex_string span
  lex_l-literal t rest l space digit sep h here =
      let separator : (34 == s.decimal_separator) ≡ false = ground arith in
      let start : (span ch.is_space l.rest).1 ≡ literal t rest = rw (here, space) refl in
      let scanned : string_rest false [] (escaped t ++ 34 ∷ rest) ≡ limited t rest =
        scan-escaped t [] rest h (omega arith) in
      rw (start, digit, separator, scanned)
        (found_text t rest (record l { marked = literal t rest }))
