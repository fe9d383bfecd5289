-- ===== src/Translator/Lexer/Names.antt =====
-- oplt/stran/OT_LEX.CPP, AlphaL: a word takes characters off the line.
use opl_dev.Prelude.{
  ℕ, ◌+◌, ◌-◌, ◌%◌, ◌^◌, ◌≤◌, List, ◌∷◌, ◌++◌, ◌≡◌, Bool, true, ◌||◌, Option, none, some, length,
  ltb, ◌==◌, arith,
}
use opl_dev.Prelude.Outcome.{Leaves, Leaves-bind, Leaves-weaken, Leaves-if}
use opl_dev.Translator.Token.{Token}
use opl_dev.Translator.Lexer.{
  Characters, Settings, SymbolKind, opx_symbol, constant_symbol, other_symbol, LookedUp, no_word,
  function_word, keyword_word, other_word, Line, peek, span, map, is_reserved, is_suffix,
  suffix_value, suffix_map, find_suffix, is_field, is_simple, plain_word, known_word, word_l,
  field_or, with_symbol, look_up_symbol, is_array, first_units, drop_length, check_device, other_l,
  device_l, alpha_l,
}
use opl_dev.Translator.Lexer.Functions.{function_row}
use opl_dev.Translator.Lexer.Reserved.{reserved_row}
use opl_dev.Translator.Lexer.Shrinks.{
  CanRead, Reads, span-shorter, span-first, past-shorter, reserved_token-CanRead,
  find_suffix-CanRead, AllSuffixes,
}

suffixes : AllSuffixes suffix_map
suffixes = (tt, (tt, (tt, (tt, (tt, (tt, (tt, (tt, (tt, (tt, tt))))))))))

module _ {R : Type 0} (ch : Characters R) (s : Settings R) where
  plain_word-Reads :
      (text suffices : List ℕ) (l : Line R)
      → Leaves (Reads (length l.rest)) (plain_word ch s text suffices l)
  unfolding plain_word
  plain_word-Reads text suffices l =
      let P : Token × Line R → Type 0 = Reads (length l.rest) in
      Leaves-bind P (find_suffix (suffix_value 0 suffices) suffix_map) _
        (find_suffix-CanRead (suffix_value 0 suffices) suffix_map suffixes)
        λ r h.
          let name = first_units (length text - drop_length r.1) text in
          Leaves-if P (ltb s.max_ident (length name)) _ _ tt (
            Leaves-if P (is_array r.1 (peek l.rest)) _ _ (tt, past-shorter l.rest) (h, omega arith))

  known_word-Reads :
      (w : LookedUp) (text suffices : List ℕ) (l : Line R)
      → Leaves (Reads (length l.rest)) (known_word ch s w text suffices l)
  known_word-Reads no_word text suffices l = plain_word-Reads text suffices l
  known_word-Reads (function_word (function_row n t type number counts args)) text suffices l =
      (tt, omega arith)
  known_word-Reads (keyword_word k) text suffices l = (tt, omega arith)
  known_word-Reads (other_word (reserved_row n t value)) text suffices l =
      (reserved_token-CanRead value, omega arith)

  abbrev name_char : ℕ → Bool
  name_char c = ch.is_alpha_digit c || c == 95

  word_l-Reads : (l : Line R) → Leaves (Reads (length (span name_char l.rest).1)) (word_l ch s l)
  unfolding word_l
  word_l-Reads l =
      let name = (span name_char l.rest).0 in
      let behind = (span name_char l.rest).1 in
      let suffices = (span is_suffix behind).0 in
      let after = (span is_suffix behind).1 in
      let text = map ch.upper (name ++ suffices) in
      let l₁ = record l { rest = after; text = text } in
      let P : Token × Line R → Type 0 = Reads (length behind) in
      let fewer = span-shorter is_suffix behind in
      Leaves-if P (ltb 2 (length suffices)) _ _ tt (
        Leaves-if P (ltb 255 (length (name ++ suffices))) _ _ tt (
          Leaves-weaken {Q = P} (known_word ch s (is_reserved s.target text) text suffices l₁)
            (λ r h. (h.0, omega (arith, h.1, fewer)))
            (known_word-Reads (is_reserved s.target text) text suffices l₁)))

  field_or-Reads :
      (device : Option ℕ) (token : Token) (l : Line R)
      → CanRead token
      → Leaves (Reads (length l.rest)) (field_or ch s device token l)
  field_or-Reads none token l h = (h, omega arith)
  field_or-Reads (some d) token l h =
      Leaves-if (Reads (length l.rest)) (is_simple token) _ _ (tt, omega arith) tt

  with_symbol-Reads :
      (k : Option (SymbolKind R)) (token : Token) (l : Line R)
      → CanRead token
      → Reads (length l.rest) (with_symbol ch s k token l)
  with_symbol-Reads none token l h = (h, omega arith)
  with_symbol-Reads (some opx_symbol) token l h = (tt, omega arith)
  with_symbol-Reads (some (constant_symbol c)) token l h = (tt, omega arith)
  with_symbol-Reads (some other_symbol) token l h = (h, omega arith)

  look_up_symbol-Reads :
      (symbols : Option (List ℕ → Token → Option (SymbolKind R))) (token : Token) (l : Line R)
      → CanRead token
      → Reads (length l.rest) (look_up_symbol ch s symbols token l)
  look_up_symbol-Reads none token l h = (h, omega arith)
  look_up_symbol-Reads (some find) token l h = with_symbol-Reads (find l.text token) token l h

  other_l-Reads :
      (n : ℕ) (device : Option ℕ) (token : Token) (l : Line R)
      → CanRead token
      → length l.rest ≤ n
      → Leaves (Reads n) (other_l ch s device token l)
  unfolding other_l
  other_l-Reads n device token l h few =
      Leaves-bind (Reads n) (field_or ch s device token l) _ (field_or-Reads device token l h)
        λ r k.
          let found = look_up_symbol-Reads s.symbols r.0 r.1 k.0 in
          (found.0, omega (arith, found.1, k.1, few))

  device_l-shorter : (l : Line R) → Leaves (λ r. length r.1.rest ≤ length l.rest) (device_l ch s l)
  unfolding device_l
  device_l-shorter l =
      let P : ℕ × Line R → Type 0 = λ r. length r.1.rest ≤ length l.rest in
      let d = (peek l.text + 2 ^ 32 - 65) % 2 ^ 32 in
      Leaves-if P (length l.text == 2) _ _
        (Leaves-if P (check_device ch s d) _ _
          (Leaves-if P (ch.is_alpha (peek l.rest)) _ _ (omega arith) tt) tt)
        tt

  pub alpha_l-Reads :
      (c : ℕ) (cs : List ℕ) (l : Line R)
      → name_char c ≡ true
      → Leaves (Reads (length cs)) (alpha_l ch s (record l { rest = c ∷ cs }))
  unfolding alpha_l
  alpha_l-Reads c cs l first =
      let n = length cs in
      let P : Token × Line R → Type 0 = Reads n in
      let less = span-first name_char c cs first in
      Leaves-bind P (word_l ch s (record l { rest = c ∷ cs })) _
        (word_l-Reads (record l { rest = c ∷ cs }))
        λ r h.
          Leaves-if P (is_field r.0) _ _
            (Leaves-bind P (device_l ch s r.1) _ (device_l-shorter r.1) λ d k.
              Leaves-bind P (word_l ch s d.1) _ (word_l-Reads d.1) λ r' h'.
                Leaves-if P (is_field r'.0) _ _ tt (
                  other_l-Reads n (some d.0) r'.0 r'.1 h'.0
                    (omega (arith, h.1, h'.1, k, less, span-shorter name_char d.1.rest))))
            (other_l-Reads n none r.0 r.1 h.0 (omega (arith, h.1, less)))
