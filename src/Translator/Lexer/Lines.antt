-- ===== src/Translator/Lexer/Lines.antt =====
-- oplt/stran/OT_LEX.CPP: each kind of token takes characters off the line.
use opl_dev.Prelude.{
  ℕ, suc, ◌≤◌, ◌<◌, List, [], ◌∷◌, refl, false, ◌||◌, Option, none, some, length, ◌==◌, if-holds,
  arith,
}
use opl_dev.Prelude.Int.{ℤ, pos, to_int16, to_int32}
use opl_dev.Prelude.Outcome.{Leaves, Leaves-bind, Leaves-if}
use opl_dev.Translator.Token.{
  OplType, Operator, Token, operator, Constant, word_value, long_value, real_value,
}
use opl_dev.Translator.Lexer.{
  Characters, Settings, Line, peek, past, at_eos, character_maps, find_character, doubled,
  string_rest, lex_string, by_name_type, proc_by_name_l, double_l, character_l, next_char_l,
  number_l, get_real_l, integer, long_or_real, word_or, dec_number_l, hex_number_l,
}
use opl_dev.Translator.Lexer.Shrinks.{
  Takes, LawfulCharacters, CanRead, Reads, past-shorter, find_character-CanRead,
  string_rest-shorter, AllRead,
}

by_name_type-shorter : (cs : List ℕ) → length (by_name_type cs).1 ≤ length cs
by_name_type-shorter cs =
    let P : OplType × List ℕ → Type 0 = λ r. length r.1 ≤ length cs in
    let skipped = past-shorter cs in
    if-holds P (peek cs == 37) _ _ skipped (
      if-holds P (peek cs == 36) _ _ skipped (if-holds P (peek cs == 38) _ _ skipped (omega arith)))

abbrev Doubled : Option Operator → Type 0
Doubled none = Unit
Doubled (some op) = CanRead (operator op)

doubled-Doubled : (t : Token) (c : ℕ) → Doubled (doubled t c)
doubled-Doubled (operator Operator.less_than) c =
    if-holds Doubled (c == 61) _ _ (refl, refl) (if-holds Doubled (c == 62) _ _ (refl, refl) tt)
doubled-Doubled (operator Operator.greater_than) c = if-holds Doubled (c == 61) _ _ (refl, refl) tt
doubled-Doubled (operator Operator.multiply) c = if-holds Doubled (c == 42) _ _ (refl, refl) tt
doubled-Doubled t c = tt

past-one : (cs : List ℕ) (n : ℕ) → length cs ≤ suc n → length (past cs) ≤ n
past-one [] n h = omega arith
past-one (c ∷ cs) n h = omega (arith, h)

-- Every character of the map is read.
characters : AllRead character_maps
characters =
    let r : CanRead (operator Operator.plus) = (refl, refl) in
    (r, (r, (r, (r, (r, (r, (r, (r, (r, (r, (tt, (tt, (tt, (tt, tt))))))))))))))

module _ {R : Type 0} where
  pub lex_string-Reads :
      (c : ℕ) (cs : List ℕ) (l : Line R)
      → Leaves (Reads (length cs)) (lex_string (record l { rest = c ∷ cs }))
  unfolding lex_string
  lex_string-Reads c cs l =
      Leaves-bind (Reads (length cs)) (string_rest false [] cs) _ (string_rest-shorter false [] cs)
        λ r h. (tt, h)

  pub proc_by_name_l-Reads :
      (c : ℕ) (cs : List ℕ) (l : Line R)
      → Leaves (Reads (length cs)) (proc_by_name_l (record l { rest = c ∷ cs }))
  unfolding proc_by_name_l
  proc_by_name_l-Reads c cs l =
      let after = (by_name_type cs).1 in
      Leaves-if (Reads (length cs)) (at_eos cs) _ _ tt (
        Leaves-if (Reads (length cs)) (peek after == 40) _ _
          (tt, omega (arith, past-shorter after, by_name_type-shorter cs)) tt)

  double_l-Reads :
      (o : Option Operator) (t : Token) (l : Line R)
      → Doubled o
      → CanRead t
      → Reads (length l.rest) (double_l o t l)
  double_l-Reads none t l d h = (h, omega arith)
  double_l-Reads (some op) t l d h = (d, past-shorter l.rest)

  pub character_l-Reads :
      (c : ℕ) (cs : List ℕ) (l : Line R)
      → Leaves (Reads (length cs)) (character_l (record l { rest = c ∷ cs }))
  unfolding character_l
  character_l-Reads c cs l =
      Leaves-bind (Reads (length cs)) (find_character c character_maps) _
        (find_character-CanRead c character_maps characters)
        λ t h.
          double_l-Reads (doubled t (peek cs)) t (record l { rest = cs })
            (doubled-Doubled t (peek cs)) h

  pub next_char_l-shorter :
      (l : Line R) → Leaves (λ r. length r.1.rest ≤ length l.rest) (next_char_l l)
  unfolding next_char_l
  next_char_l-shorter l =
      Leaves-if (λ r. length r.1.rest ≤ length l.rest) (at_eos l.rest) _ _ tt (past-shorter l.rest)

  number_l-Reads :
      {A : Type 0} (f : A → Constant R) (o : Option (A × List ℕ)) (cs : List ℕ) (n : ℕ) (l : Line R)
      → Takes cs o
      → length cs ≤ suc n
      → Leaves (Reads n) (number_l f o l)
  number_l-Reads f none cs n l h few = tt
  number_l-Reads f (some (v, rest)) cs n l h few = (tt, omega (arith, h, few))

  module _ (ch : Characters R) (s : Settings R) (law : LawfulCharacters R ch) (n : ℕ) where
    get_real_l-Reads : (l : Line R) → length l.rest ≤ suc n → Leaves (Reads n) (get_real_l ch s l)
    unfolding get_real_l
    get_real_l-Reads l h =
        number_l-Reads real_value (ch.val_real s.decimal_separator l.rest) l.rest n l
          (law.val_real_lem _ _) h

    integer-Reads :
        (k : Constant R) (rest : List ℕ) (l : Line R)
        → length l.rest ≤ suc n
        → length rest < length l.rest
        → Leaves (Reads n) (integer ch s k rest l)
    unfolding integer
    integer-Reads k rest l h less =
        let next = ch.upper (peek rest) in
        Leaves-if (Reads n) (next == 46 || next == 69) _ _ (get_real_l-Reads l h)
          (tt, omega (arith, h, less))

    long_or_real-Reads :
        (o : Option (ℤ × List ℕ)) (l : Line R)
        → length l.rest ≤ suc n
        → Takes l.rest o
        → Leaves (Reads n) (long_or_real ch s o l)
    long_or_real-Reads none l h taken = get_real_l-Reads l h
    long_or_real-Reads (some (v, rest)) l h taken = integer-Reads (long_value v) rest l h taken

    word_or-Reads :
        (o : Option (ℤ × List ℕ)) (l : Line R)
        → length l.rest ≤ suc n
        → Takes l.rest o
        → Leaves (Reads n) (word_or ch s o l)
    word_or-Reads none l h taken =
        long_or_real-Reads (ch.val_long l.rest) l h (law.val_long_lem l.rest)
    word_or-Reads (some (v, rest)) l h taken = integer-Reads (word_value v) rest l h taken

    pub dec_number_l-Reads :
        (l : Line R) → length l.rest ≤ suc n → Leaves (Reads n) (dec_number_l ch s l)
    unfolding dec_number_l
    dec_number_l-Reads l h =
        Leaves-if (Reads n) (s.is_line || peek l.rest == s.decimal_separator) _ _
          (get_real_l-Reads l h) (word_or-Reads (ch.val_word l.rest) l h (law.val_word_lem l.rest))

    pub hex_number_l-Reads :
        (l : Line R) → length l.rest ≤ suc n → Leaves (Reads n) (hex_number_l ch s l)
    unfolding hex_number_l
    hex_number_l-Reads l h =
        let few : length (past l.rest) ≤ suc n =
          (let one = past-one l.rest n h in omega (arith, one)) in
        Leaves-if (Reads n) (peek l.rest == 38) _ _
          (number_l-Reads (λ v. long_value (to_int32 (pos v))) (ch.val_hex_long (past l.rest)) _ n l
            (law.val_hex_long_lem _) few)
          (number_l-Reads (λ v. word_value (to_int16 (pos v))) (ch.val_hex_word (past l.rest)) _ n l
            (law.val_hex_word_lem _) few)
