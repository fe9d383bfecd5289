-- ===== src/Translator/Lexer.antt =====
-- oplt/stran/OT_LEX.CPP, COplLexerBase: the tokens of a line. A line is the list of its characters
-- from the place of the lexer on; past its end the place stays and the character is 0.
pub mod Functions
pub mod Keywords
pub mod Reserved
pub mod Texts
pub mod Shrinks
pub mod Lines
pub mod Names
pub mod Lawful
pub mod Words
use opl_dev.Prelude.{
  ℕ, zero, suc, ◌+◌, ◌-◌, ◌*◌, ◌/◌, ◌%◌, ◌^◌, List, [], ◌∷◌, ◌++◌, Bool, true, false, ◌||◌, Option,
  none, some, length, get_elem?, ltb, ◌==◌, if◌then◌else◌,
}
use opl_dev.Prelude.Int.{ℤ, pos, to_int16, to_int32}
use opl_dev.Prelude.Outcome.{
  Outcome, ok, leave, ◌>>=◌, syntax, bad_number, missing_quote, bad_suffices, identifier_too_long,
  bad_field_name, bad_logical_device, bad_character, bad_string_length,
}
use opl_dev.Runtime.Arith.{bits_and}
use opl_dev.Runtime.Globals.{same_name}
use opl_dev.Translator.Token.{
  OplType, word, long, real, string, Operator, number, Token, operator, identifier, punctuation,
  call, keyword, structure, reserved, Identifier, Punctuation, Callable, Constant, word_value,
  long_value, real_value, string_value, type_of,
}
use opl_dev.Translator.Expr.{Lexer}
use opl_dev.Translator.Lexer.Functions.{FunctionLookup, function_row, function_tables}
use opl_dev.Translator.Lexer.Keywords.{KeywordLookup, keyword_row, keyword_tables}
use opl_dev.Translator.Lexer.Reserved.{ReservedLookup, reserved_row, reserved_tables}

-- What the platform says of characters (TChar), and its conversions of the number at the start of a
-- text (TLex::Val): the value with what is left of the text, or none at an error.
pub record Characters (R : Type 0) : Type 0 where
  pub is_space : ℕ → Bool
  pub is_digit : ℕ → Bool
  pub is_alpha : ℕ → Bool
  pub is_alpha_digit : ℕ → Bool
  pub upper : ℕ → ℕ
  pub val_word : List ℕ → Option (ℤ × List ℕ)
  pub val_long : List ℕ → Option (ℤ × List ℕ)
  pub val_real : ℕ → List ℕ → Option (R × List ℕ)
  pub val_hex_word : List ℕ → Option (ℕ × List ℕ)
  pub val_hex_long : List ℕ → Option (ℕ × List ℕ)

-- What the lexer looks at in a symbol that it finds.
pub data SymbolKind (R : Type 0) : Type 0 where
  opx_symbol : SymbolKind R
  constant_symbol : Constant R → SymbolKind R
  other_symbol : SymbolKind R

-- `iDecimalSeparator`, iTarget and iMaxIdent; `symbols` is the Find of iSymbols, where there are
-- any; `is_line` says that it is a COplLineLexer, which reads all decimal numbers as reals.
pub record Settings (R : Type 0) : Type 0 where
  pub decimal_separator : ℕ
  pub target : ℕ
  pub max_ident : ℕ
  pub symbols : Option (List ℕ → Token → Option (SymbolKind R))
  pub is_line : Bool

-- What IsReserved finds
pub data LookedUp : Type 0 where
  no_word : LookedUp
  function_word : FunctionLookup → LookedUp
  keyword_word : KeywordLookup → LookedUp
  other_word : ReservedLookup → LookedUp

-- What of COplLexerBase a token sets: iLex with its mark, iType (none is EBadType), iText, and the
-- constant, the reserved word or the logical device.
pub record Line (R : Type 0) : Type 0 where
  pub rest : List ℕ
  pub marked : List ℕ
  pub type : Option OplType
  pub text : List ℕ
  pub constant : Option (Constant R)
  pub reserved_word : LookedUp
  pub device : Option ℕ

-- `TLex::Peek`
abbrev pub peek : List ℕ → ℕ
peek [] = 0
peek (c ∷ cs) = c

-- `TLex::Eos`
abbrev pub at_eos : List ℕ → Bool
at_eos [] = true
at_eos (c ∷ cs) = false

-- `TLex::Inc`
abbrev pub past : List ℕ → List ℕ
past [] = []
past (c ∷ cs) = cs

-- The longest start of a text whose characters pass a test, and the rest
unfoldable pub span : (ℕ → Bool) → List ℕ → List ℕ × List ℕ
span p [] = ([], [])
span p (c ∷ cs) = let r = span p cs in if p c then (c ∷ r.0, r.1) else ([], c ∷ cs)

abbrev pub map : {A B : Type 0} → (A → B) → List A → List B
map f [] = []
map f (x ∷ xs) = f x ∷ map f xs

-- `TLookupHeader::Matches`
abbrev pub matches : ℕ → List ℕ → List ℕ → ℕ → Bool
matches target end name targets =
    if bits_and 8 target targets == 0 then false else same_name end name

unfoldable pub find_function : ℕ → List ℕ → List FunctionLookup → Option FunctionLookup
find_function target end [] = none
find_function target end (function_row name targets b₁ b₂ b₃ args ∷ rows) =
    let rest = find_function target end rows in
    if matches target end name targets then some (function_row name targets b₁ b₂ b₃ args) else rest

unfoldable pub find_keyword : ℕ → List ℕ → List KeywordLookup → Option KeywordLookup
find_keyword target end [] = none
find_keyword target end (keyword_row name targets code trappable ∷ rows) =
    let rest = find_keyword target end rows in
    if matches target end name targets then some (keyword_row name targets code trappable) else rest

unfoldable pub find_reserved : ℕ → List ℕ → List ReservedLookup → Option ReservedLookup
find_reserved target end [] = none
find_reserved target end (reserved_row name targets value ∷ rows) =
    let rest = find_reserved target end rows in
    if matches target end name targets then some (reserved_row name targets value) else rest

abbrev rows_of : {A : Type 0} → Option (List A) → List A
rows_of none = []
rows_of (some rows) = rows

abbrev or_keyword : Option KeywordLookup → Option ReservedLookup → LookedUp
or_keyword (some k) r = keyword_word k
or_keyword none (some r) = other_word r
or_keyword none none = no_word

abbrev or_function : Option FunctionLookup → LookedUp → LookedUp
or_function (some f) w = function_word f
or_function none w = w

-- `IsReserved`: the initial is taken as a TUint, and a letter past Y has no tables.
unfoldable pub is_reserved : ℕ → List ℕ → LookedUp
unfolding find_function find_keyword find_reserved
is_reserved target [] = no_word
is_reserved target (c ∷ end) =
    let index = (c + 2 ^ 32 - 65) % 2 ^ 32 in
    if ltb index 25
    then or_function (find_function target end (rows_of (get_elem? function_tables index))) (
        or_keyword (find_keyword target end (rows_of (get_elem? keyword_tables index)))
          (find_reserved target end (rows_of (get_elem? reserved_tables index))))
    else no_word

-- The token of a value of the reserved words' tables, by its class: three operators, REM, which is
-- EEos, the structures, and the class EReserved.
abbrev pub reserved_token : ℕ → Token
reserved_token value =
    if value == 12
    then operator Operator.and
    else if value == 13
    then operator Operator.or
    else if value == 14
    then operator Operator.not
    else if value == 8192
    then punctuation Punctuation.eos
    else if ltb value 24576
    then structure
    else reserved

-- The type of a function: a native return (6) is none of the types.
abbrev pub return_type : ℕ → Option OplType
return_type t =
    if t == 0
    then some word
    else if t == 1
    then some long
    else if t == 2
    then some real
    else if t == 3
    then some string
    else none

abbrev pub is_suffix : ℕ → Bool
is_suffix c = c == 37 || c == 38 || c == 36 || c == 58 || c == 46

abbrev pub suffix_value : ℕ → List ℕ → ℕ
suffix_value v [] = v
suffix_value v (c ∷ cs) = suffix_value ((v * 65536 + c) % 2 ^ 32) cs

-- `suffixMap`
abbrev pub suffix_map : List (ℕ × OplType × Token)
suffix_map =
    (0, real, identifier Identifier.simple)
    ∷ (58, real, call Callable.proc_id)
    ∷ (37, word, identifier Identifier.simple)
    ∷ (37 * 65536 + 58, word, call Callable.proc_id)
    ∷ (38, long, identifier Identifier.simple)
    ∷ (38 * 65536 + 58, long, call Callable.proc_id)
    ∷ (36, string, identifier Identifier.simple)
    ∷ (36 * 65536 + 58, string, call Callable.proc_id)
    ∷ (58 * 65536 + 58, word, identifier Identifier.label)
    ∷ (46, word, identifier Identifier.field)
    ∷ []

unfoldable pub find_suffix : ℕ → List (ℕ × OplType × Token) → Outcome (OplType × Token)
find_suffix v [] = leave bad_suffices
find_suffix v ((w, t, token) ∷ rest) =
    let later = find_suffix v rest in if v == w then ok (t, token) else later

-- `characterMaps`
abbrev pub character_maps : List (ℕ × Token)
character_maps =
    (60, operator Operator.less_than)
    ∷ (62, operator Operator.greater_than)
    ∷ (61, operator Operator.equal)
    ∷ (43, operator Operator.plus)
    ∷ (45, operator Operator.minus)
    ∷ (42, operator Operator.multiply)
    ∷ (47, operator Operator.divide)
    ∷ (40, operator Operator.open_bracket)
    ∷ (41, operator Operator.close_bracket)
    ∷ (37, operator Operator.perc)
    ∷ (44, punctuation Punctuation.comma)
    ∷ (59, punctuation Punctuation.semi_colon)
    ∷ (58, punctuation Punctuation.colon)
    ∷ (35, punctuation Punctuation.hash)
    ∷ []

unfoldable pub find_character : ℕ → List (ℕ × Token) → Outcome Token
find_character c [] = leave bad_character
find_character c ((k, token) ∷ rest) =
    let later = find_character c rest in if k == c then ok token else later

-- `doubleMaps`: the second character makes another operator.
abbrev pub doubled : Token → ℕ → Option Operator
doubled (operator Operator.less_than) c =
    if c == 61
    then some Operator.less_than_eq
    else if c == 62
    then some Operator.not_equal
    else none
doubled (operator Operator.greater_than) c = if c == 61 then some Operator.greater_than_eq else none
doubled (operator Operator.multiply) c = if c == 42 then some Operator.power else none
doubled t c = none

-- LexStringL behind the first quote, from the text that it has; the flag says that the character
-- before was a quote.
unfoldable pub string_rest : Bool → List ℕ → List ℕ → Outcome (List ℕ × List ℕ)
string_rest false text [] = leave missing_quote
string_rest true text [] = ok (text, [])
string_rest false text (c ∷ cs) =
    let quoted = string_rest true text cs in
    let longer = string_rest false (text ++ c ∷ []) cs in
    if c == 34 then quoted else if length text == 255 then leave bad_string_length else longer
string_rest true text (c ∷ cs) =
    let longer = string_rest false (text ++ 34 ∷ []) cs in
    if c == 34
    then (if length text == 255 then leave bad_string_length else longer)
    else ok (text, c ∷ cs)

abbrev pub is_array : Token → ℕ → Bool
is_array (identifier Identifier.simple) c = c == 40
is_array t c = false

abbrev pub is_simple : Token → Bool
is_simple (identifier Identifier.simple) = true
is_simple t = false

abbrev pub is_field : Token → Bool
is_field (identifier Identifier.field) = true
is_field t = false

-- The colons that have served their purpose
abbrev pub drop_length : Token → ℕ
drop_length (call Callable.proc_id) = 1
drop_length (identifier Identifier.label) = 2
drop_length t = 0

abbrev pub first_units : ℕ → List ℕ → List ℕ
first_units zero cs = []
first_units (suc n) [] = []
first_units (suc n) (c ∷ cs) = c ∷ first_units n cs

-- `ProcByNameL`: the types of the suffices, and what is behind them
abbrev pub by_name_type : List ℕ → OplType × List ℕ
by_name_type cs =
    if peek cs == 37
    then (word, past cs)
    else if peek cs == 36
    then (string, past cs)
    else if peek cs == 38
    then (long, past cs)
    else (real, cs)

module _ {R : Type 0} where
  -- `ConstantToken`, with the constant and what is left
  abbrev pub constant_token : Constant R → List ℕ → Line R → Token × Line R
  constant_token c rest l = (
    identifier Identifier.constant,
    record l { rest = rest; constant = some c; type = some (type_of c) },
  )

  -- `LexStringL`
  unfoldable pub lex_string : Line R → Outcome (Token × Line R)
  unfolding string_rest
  lex_string l = do
    (text, rest) ← string_rest false [] (past l.rest)
    ok (constant_token (string_value text) rest (record l { text = text }))

  -- `ProcByNameL`
  unfoldable pub proc_by_name_l : Line R → Outcome (Token × Line R)
  proc_by_name_l l =
      let cs = past l.rest in
      let (t, after) = by_name_type cs in
      if at_eos cs
      then leave syntax
      else if peek after == 40
      then ok (call Callable.proc_by_name, record l { rest = past after; type = some t })
      else leave syntax

  -- The second character of an operator is taken too.
  abbrev pub double_l : Option Operator → Token → Line R → Token × Line R
  double_l none token l = (token, l)
  double_l (some op) token l = (operator op, record l { rest = past l.rest })

  -- `CharacterL`
  unfoldable pub character_l : Line R → Outcome (Token × Line R)
  unfolding find_character
  character_l l = do
    token ← find_character (peek l.rest) character_maps
    let cs = past l.rest
    ok (double_l (doubled token (peek cs)) token (record l { rest = cs }))

  -- `NextChar`
  unfoldable pub next_char_l : Line R → Outcome (ℕ × Line R)
  next_char_l l =
      if at_eos l.rest
      then leave bad_character
      else ok (peek l.rest, record l { rest = past l.rest })

  -- `UnLex`
  abbrev pub un_lex : Line R → Line R
  un_lex l = record l { rest = l.marked }

  -- A constant that was converted, or the error for it
  abbrev pub number_l :
      {A : Type 0} → (A → Constant R) → Option (A × List ℕ) → Line R → Outcome (Token × Line R)
  number_l f none l = leave bad_number
  number_l f (some (v, rest)) l = ok (constant_token (f v) rest l)

  module _ (ch : Characters R) (s : Settings R) where
    -- `GetRealL`
    unfoldable pub get_real_l : Line R → Outcome (Token × Line R)
    get_real_l l = number_l real_value (ch.val_real s.decimal_separator l.rest) l

    -- An integer that is not the start of a real
    unfoldable pub integer : Constant R → List ℕ → Line R → Outcome (Token × Line R)
    unfolding get_real_l
    integer c rest l =
        let next = ch.upper (peek rest) in
        if next == 46 || next == 69 then get_real_l l else ok (constant_token c rest l)

    abbrev pub long_or_real : Option (ℤ × List ℕ) → Line R → Outcome (Token × Line R)
    long_or_real none l = get_real_l l
    long_or_real (some (v, rest)) l = integer (long_value v) rest l

    abbrev pub word_or : Option (ℤ × List ℕ) → Line R → Outcome (Token × Line R)
    word_or none l = long_or_real (ch.val_long l.rest) l
    word_or (some (v, rest)) l = integer (word_value v) rest l

    -- `DecNumberL`, and the one of COplLineLexer
    unfoldable pub dec_number_l : Line R → Outcome (Token × Line R)
    unfolding get_real_l integer
    dec_number_l l =
        if s.is_line || peek l.rest == s.decimal_separator
        then get_real_l l
        else word_or (ch.val_word l.rest) l

    -- `HexNumberL`
    unfoldable pub hex_number_l : Line R → Outcome (Token × Line R)
    hex_number_l l =
        if peek l.rest == 38
        then number_l (λ v. long_value (to_int32 (pos v))) (ch.val_hex_long (past l.rest)) l
        else number_l (λ v. word_value (to_int16 (pos v))) (ch.val_hex_word (past l.rest)) l

    -- What a reserved word sets
    abbrev pub reserved_l : LookedUp → Line R → Token × Line R
    reserved_l (function_word (function_row n t type number counts args)) l = (
      call Callable.function,
      record l {
        type = return_type type;
        reserved_word = function_word (function_row n t type number counts args);
      },
    )
    reserved_l (keyword_word k) l = (keyword, record l { reserved_word = keyword_word k })
    reserved_l (other_word (reserved_row n t value)) l =
        (reserved_token value, record l { reserved_word = other_word (reserved_row n t value) })
    reserved_l no_word l = (punctuation Punctuation.eof, l)

    -- A word that is not reserved, by its suffices
    unfoldable pub plain_word : List ℕ → List ℕ → Line R → Outcome (Token × Line R)
    unfolding find_suffix
    plain_word text suffices l = do
      (t, token) ← find_suffix (suffix_value 0 suffices) suffix_map
      let name = first_units (length text - drop_length token) text
      if ltb s.max_ident (length name)
          then leave identifier_too_long
          else if is_array token (peek l.rest)
          then ok (
            identifier Identifier.array,
            record l { rest = past l.rest; type = some t; text = name },
          )
          else ok (token, record l { type = some t; text = name })

    abbrev pub known_word : LookedUp → List ℕ → List ℕ → Line R → Outcome (Token × Line R)
    known_word no_word text suffices l = plain_word text suffices l
    known_word w text suffices l = ok (reserved_l w l)

    -- A round of AlphaL, up to what the word is
    unfoldable pub word_l : Line R → Outcome (Token × Line R)
    unfolding span is_reserved plain_word
    word_l l =
        let (name, behind) = span (λ c. ch.is_alpha_digit c || c == 95) l.rest in
        let (suffices, after) = span is_suffix behind in
        let text = map ch.upper (name ++ suffices) in
        if ltb 2 (length suffices)
        then leave bad_suffices
        else if ltb 255 (length (name ++ suffices))
        then leave identifier_too_long
        else known_word (is_reserved s.target text) text suffices
            (record l { rest = after; text = text })

    -- A field's name: what is seen behind a logical device
    abbrev pub field_or : Option ℕ → Token → Line R → Outcome (Token × Line R)
    field_or none token l = ok (token, l)
    field_or (some d) token l =
        if is_simple token
        then ok (identifier Identifier.field, record l { device = some d })
        else leave bad_field_name

    abbrev pub with_symbol : Option (SymbolKind R) → Token → Line R → Token × Line R
    with_symbol (some opx_symbol) token l = (call Callable.opx_function, l)
    with_symbol (some (constant_symbol c)) token l = constant_token c l.rest l
    with_symbol k token l = (token, l)

    abbrev pub look_up_symbol :
        Option (List ℕ → Token → Option (SymbolKind R)) → Token → Line R → Token × Line R
    look_up_symbol none token l = (token, l)
    look_up_symbol (some find) token l = with_symbol (find l.text token) token l

    -- What is no logical device
    unfoldable pub other_l : Option ℕ → Token → Line R → Outcome (Token × Line R)
    other_l device token l = field_or device token l >>= λ r. ok (look_up_symbol s.symbols r.0 r.1)

    -- `CheckDeviceL`, over a TUint
    abbrev pub check_device : ℕ → Bool
    check_device d = if ltb (if s.target == 1 then 3 else 25) d then false else true

    -- What purports to be a logical device
    unfoldable pub device_l : Line R → Outcome (ℕ × Line R)
    device_l l =
        let d = (peek l.text + 2 ^ 32 - 65) % 2 ^ 32 in
        if length l.text == 2
        then (if check_device d
            then (if ch.is_alpha (peek l.rest) then ok (d, l) else leave bad_field_name)
            else leave bad_logical_device)
        else leave bad_logical_device

    -- `AlphaL`: at the second round a logical device is seen, and a second one is an error.
    unfoldable pub alpha_l : Line R → Outcome (Token × Line R)
    unfolding word_l other_l device_l
    alpha_l l = do
      (token, l₁) ← word_l l
      if is_field token
          then (do
            (d, l₂) ← device_l l₁
            (token', l₃) ← word_l l₂
            if is_field token' then leave bad_field_name else other_l (some d) token' l₃)
          else other_l none token l₁

    -- `LexL`, from the start of the token
    unfoldable pub lex_from : Line R → Outcome (Token × Line R)
    unfolding dec_number_l hex_number_l lex_string alpha_l proc_by_name_l character_l
    lex_from l =
        let c = peek l.rest in
        if at_eos l.rest
        then ok (punctuation Punctuation.eos, l)
        else if ch.is_digit c || c == s.decimal_separator
        then dec_number_l l
        else if c == 38 || c == 36
        then hex_number_l l
        else if c == 34
        then lex_string l
        else if ch.is_alpha c || c == 95
        then alpha_l l
        else if c == 64
        then proc_by_name_l l
        else character_l l

    -- `LexL`
    unfoldable pub lex_l : Line R → Outcome (Token × Line R)
    unfolding span lex_from
    lex_l l =
        let start = (span ch.is_space l.rest).1 in
        lex_from (record l { rest = start; marked = start; type = none })

    -- The type that a token without one has is not looked at.
    abbrev pub type_or_word : Option OplType → OplType
    type_or_word none = word
    type_or_word (some t) = t

    -- The lexer of a line, for the expression parser
    abbrev pub line_lexer : Lexer
    line_lexer = record {
      State = Line R;
      lex = lex_l;
      next_char = next_char_l;
      type = λ l. type_or_word l.type;
    }
