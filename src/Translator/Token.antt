-- ===== src/Translator/Token.antt =====
-- oplt/inc/OPLTOKEN.H: the tokens of the lexer, the types of the language, and constants.
-- An enumeration's order is significant in the source, and `number` and `rank` give it.
pub mod Values
use opl_dev.Prelude.{ℕ, List}
use opl_dev.Prelude.Int.{ℤ}

-- `TOplToken::TType`. The markers EBadType, EMaxNormalType and ENativeReturn are no types.
pub data OplType : Type 0 where
  word long real string u_word : OplType

abbrev pub rank : OplType → ℕ
rank word = 0
rank long = 1
rank real = 2
rank string = 3
rank u_word = 4

-- `TOplToken::TValue`, the values of class EOperator.
pub data Operator : Type 0 where
  start_of_expression : Operator
  less_than less_than_eq greater_than greater_than_eq equal not_equal : Operator
  plus minus multiply divide power : Operator
  and or not unary_minus : Operator
  perc open_bracket close_bracket end_of_expression : Operator
  perc_less perc_greater perc_plus perc_minus perc_multiply perc_divide : Operator

-- `TOplToken::Number`
abbrev pub number : Operator → ℕ
number start_of_expression = 0
number less_than = 1
number less_than_eq = 2
number greater_than = 3
number greater_than_eq = 4
number equal = 5
number not_equal = 6
number plus = 7
number minus = 8
number multiply = 9
number divide = 10
number power = 11
number and = 12
number or = 13
number not = 14
number unary_minus = 15
number perc = 16
number open_bracket = 17
number close_bracket = 18
number end_of_expression = 19
number perc_less = 20
number perc_greater = 21
number perc_plus = 22
number perc_minus = 23
number perc_multiply = 24
number perc_divide = 25

-- The values of class EIdentifier.
pub data Identifier : Type 0 where
  constant simple array field label : Identifier

-- The values of class EPunctuation.
pub data Punctuation : Type 0 where
  eos colon eof semi_colon comma hash : Punctuation

-- The values of class ECall.
pub data Callable : Type 0 where
  function proc_id proc_by_name opx_function : Callable

-- A token by its class. The values of the last three classes begin statements and declarations;
-- an expression refuses them by their class.
pub data Token : Type 0 where
  operator : Operator → Token
  identifier : Identifier → Token
  punctuation : Punctuation → Token
  call : Callable → Token
  keyword structure reserved : Token

-- `TOplConstant`, over the machine's type of floating-point numbers. A text is its code units.
pub data Constant (R : Type 0) : Type 0 where
  word_value : ℤ → Constant R
  long_value : ℤ → Constant R
  real_value : R → Constant R
  string_value : List ℕ → Constant R

-- `TOplConstant::Type`
abbrev pub type_of : {R : Type 0} → Constant R → OplType
type_of (word_value n) = word
type_of (long_value n) = long
type_of (real_value x) = real
type_of (string_value s) = string
