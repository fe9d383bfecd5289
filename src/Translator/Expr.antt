-- ===== src/Translator/Expr.antt =====
-- oplt/stran/OT_EXPR.CPP: the expression parser. Operators wait on a stack until the precedence
-- table has them put out; the code comes out in postfix order, and a cast that the left operand
-- turns out to need is inserted where that operand's code ends.
pub mod Table
pub mod Typing
pub mod Output
pub mod Pending
pub mod Act
pub mod Find
pub mod Sound
pub mod Percent
use opl_dev.Prelude.{
  ℕ, zero, suc, ◌-◌, List, [], ◌∷◌, ◌++◌, Bool, true, false, ◌&&◌, ◌||◌, Option, none, some, length,
  insert_at, ltb, leb, ◌==◌, if◌then◌else◌,
}
use opl_dev.Prelude.Int.{ℤ, pos, to_int16}
use opl_dev.Prelude.Outcome.{
  Outcome, ok, leave, panic, spent, ◌>>=◌, checked, syntax, type_mismatch, mismatched_bracket,
  array_bounds,
}
use opl_dev.Translator.Token.{
  OplType, word, long, real, string, rank, Operator, less_than, greater_than, plus, minus, multiply,
  divide, not, unary_minus, perc, open_bracket, close_bracket, end_of_expression, perc_less,
  perc_greater, perc_plus, perc_minus, perc_multiply, perc_divide, and, or, not_equal,
  start_of_expression, number, Token, operator, identifier, punctuation, call, keyword, structure,
  reserved, word_value,
}
use opl_dev.Translator.Pcode.{Pcode, push_constant, cast, apply, Arity, unary, binary}
use Table.{Action, column, action}

-- `TStackedOperator`, less the offset in the source that it keeps for error messages: the
-- operator, the type of the expression on its left, and where that expression's code ends.
pub record StackedOperator : Type 0 where
  pub operator : Operator
  pub type : OplType
  pub pcode_pos : ℕ

-- `TEvaluatorState`. `operator_seen` is the shift KOperatorSeenShift (true) or 0.
pub record EvaluatorState : Type 0 where
  pub operator : Operator
  pub operator_seen : Bool
  pub type : OplType
  pub nesting_level : ℕ

abbrev pub start_state : EvaluatorState
start_state = record {
  operator = start_of_expression;
  operator_seen = true;
  type = word;
  nesting_level = 0;
}

-- The part of COplParserBase that an expression changes: `iOperatorStack` (top first), `iCode`,
-- and the lexer.
pub record Parser (L R : Type 0) : Type 0 where
  pub operator_stack : List StackedOperator
  pub code : List (Pcode R)
  pub lexer : L

-- What the parser asks of a lexer: COplLexerBase::LexL, NextChar and Type. UnLex is no operation
-- here: it goes back to the lexer's state in front of the token.
pub record Lexer : Type 1 where
  pub State : Type 0
  pub lex : State → Outcome (Token × State)
  pub next_char : State → Outcome (ℕ × State)
  pub type : State → OplType

-- The operands of an expression: COplParserBase::RightSideReferenceL and CallL.
pub record Operands (lx : Lexer) (R : Type 0) : Type 0 where
  pub right_side_reference : Token → Parser lx.State R → Outcome (Parser lx.State R)
  pub call : Token → Parser lx.State R → Outcome (OplType × Parser lx.State R)

abbrev pub is_oper : Operator → Operator → Bool
is_oper a b = number a == number b

-- `percOpsMap`
abbrev pub perc_ops_map : List (Operator × Operator)
perc_ops_map =
    (less_than, perc_less)
    ∷ (greater_than, perc_greater)
    ∷ (plus, perc_plus)
    ∷ (minus, perc_minus)
    ∷ (multiply, perc_multiply)
    ∷ (divide, perc_divide)
    ∷ []

-- The loop through `percOpsMap`, which has no end of its own: past the table is out of bounds.
unfoldable pub find_perc : Operator → List (Operator × Operator) → Outcome Operator
find_perc op [] = panic array_bounds
find_perc op ((old, new) ∷ rest) = if is_oper op old then ok new else find_perc op rest

-- `iOperatorStack.Top()`
unfoldable pub top : List StackedOperator → Outcome StackedOperator
top [] = panic array_bounds
top (e ∷ es) = ok e

-- `iOperatorStack.Drop()`
unfoldable pub drop : List StackedOperator → Outcome (List StackedOperator)
drop [] = panic array_bounds
drop (e ∷ es) = ok es

-- `iOperatorStack.Top().SetOperator(op)`
unfoldable pub set_top : Operator → List StackedOperator → Outcome (List StackedOperator)
set_top op [] = panic array_bounds
set_top op (e ∷ es) = ok (record e { operator = op } ∷ es)

-- `resultingType` of a binary operator over operands of one type
unfoldable pub binary_result : Operator → OplType → OplType
binary_result oper type =
    if leb (number oper) (number not_equal)
    then word
    else (if rank type == rank real && (is_oper oper and || is_oper oper or) then word else type)

module _ {R : Type 0} where
  -- `PCodeCastL` at a position of the stream
  unfoldable pub p_code_cast : OplType → OplType → ℕ → List (Pcode R) → List (Pcode R)
  p_code_cast from to at code =
      if rank from == rank to then code else insert_at at (cast from to) code

  -- `PromoteL`: only to a larger type. The type that results, and the code.
  unfoldable pub promote : OplType → OplType → ℕ → List (Pcode R) → OplType × List (Pcode R)
  unfolding p_code_cast
  promote from to at code =
      if leb (rank to) (rank from) then (from, code) else (to, p_code_cast from to at code)

  -- `OutputOperatorL` for an operator with one operand, whose type is given.
  unfoldable pub output_unary :
      Operator → OplType → List (Pcode R) → Outcome (OplType × List (Pcode R))
  output_unary oper type code =
      if rank type == rank string
      then leave type_mismatch
      else (let result = if is_oper oper not && rank type == rank real then word else type in
          ok (result, code ++ apply type result unary oper ∷ []))

  -- `OutputOperatorL` for a percent operator: both sides are brought to real.
  unfoldable pub output_percent :
      StackedOperator → OplType → List (Pcode R) → Outcome (OplType × List (Pcode R))
  output_percent oper type code =
      let (_, code₁) = promote oper.type real oper.pcode_pos code in
      let (right, code₂) = promote type real (length code₁) code₁ in
      ok (real, code₂ ++ apply right real binary oper.operator ∷ [])

  -- `OutputOperatorL` for the other binary operators: both sides are brought to the larger type.
  unfoldable pub output_binary :
      StackedOperator → OplType → List (Pcode R) → Outcome (OplType × List (Pcode R))
  unfolding promote
  output_binary oper type code =
      let (left, code₁) = promote oper.type type oper.pcode_pos code in
      let (right, code₂) = promote type left (length code₁) code₁ in
      if rank right == rank string && ltb (number plus) (number oper.operator)
      then leave type_mismatch
      else (let result = binary_result oper.operator right in
          ok (result, code₂ ++ apply right result binary oper.operator ∷ []))

  -- `OutputOperatorL` on the operator that it has popped: the new type and code.
  unfoldable pub output :
      StackedOperator → OplType → List (Pcode R) → Outcome (OplType × List (Pcode R))
  output oper type code =
      let n = number oper.operator in
      if is_oper oper.operator unary_minus || is_oper oper.operator not
      then output_unary oper.operator type code
      else (if leb (number perc_less) n && leb n (number perc_divide)
          then output_percent oper type code
          else output_binary oper type code)

module _ (lx : Lexer) (R : Type 0) (operands : Operands lx R) where
  abbrev pub State : Type 0
  State = EvaluatorState × Parser lx.State R

  -- `StackOperatorL`
  unfoldable pub stack_operator : Operator → OplType → State → State
  stack_operator op type (st, p) = (
    record st { operator_seen = true },
    record p {
      operator_stack =
          record { operator = op; type = type; pcode_pos = length p.code } ∷ p.operator_stack;
    },
  )

  -- `OutputOperatorL`
  unfoldable pub output_operator : State → Outcome State
  output_operator (st, p) = do
    oper ← top p.operator_stack
    rest ← drop p.operator_stack
    (type, code) ← output oper st.type p.code
    ok (record st { type = type }, record p { operator_stack = rest; code = code })

  -- FindOperatorL at a token of class EOperator: whether the search ends, and the new state.
  -- `before` is the parser in front of the token, for UnLex; `p` the parser behind it.
  unfoldable pub find_at_operator :
      Operator → EvaluatorState → Parser lx.State R → Parser lx.State R → Outcome (Bool × State)
  find_at_operator close_bracket st before p =
      if st.nesting_level == 0
      then ok (true, (record st { operator = end_of_expression }, before))
      else ok
          (true, (record st { operator = close_bracket; nesting_level = st.nesting_level - 1 }, p))
  find_at_operator open_bracket st before p =
      ok (true, (record st { operator = open_bracket; nesting_level = suc st.nesting_level }, p))
  find_at_operator perc st before p =
      if st.operator_seen
      then (do
        (char, lexer) ← lx.next_char p.lexer
        ok (
          false,
          (
            record st { operator = perc; operator_seen = false; type = word },
            record p {
              code = p.code ++ push_constant (word_value (to_int16 (pos char))) ∷ [];
              lexer = lexer;
            },
          ),
        ))
      else ok (true, (record st { operator = perc }, p))
  find_at_operator minus st before p =
      ok (true, (record st { operator = if st.operator_seen then unary_minus else minus }, p))
  find_at_operator op st before p = ok (true, (record st { operator = op }, p))

  -- One round of FindOperatorL's loop.
  unfoldable pub find_at :
      Token → EvaluatorState → Parser lx.State R → Parser lx.State R → Outcome (Bool × State)
  unfolding find_at_operator
  find_at (operator op) st before p = find_at_operator op st before p
  find_at (identifier i) st before p =
      if st.operator_seen
      then (do
        p' ← operands.right_side_reference (identifier i) p
        ok (false, (record st { operator_seen = false; type = lx.type p.lexer }, p')))
      else leave syntax
  find_at (call c) st before p =
      if st.operator_seen
      then (do
        (type, p') ← operands.call (call c) p
        ok (false, (record st { operator_seen = false; type = type }, p')))
      else leave syntax
  find_at (punctuation m) st before p =
      ok (true, (record st { operator = end_of_expression }, before))
  find_at _ st before p = leave syntax

  -- `FindOperatorL`, on fuel for the rounds of its loop.
  unfoldable pub find_operator : ℕ → State → Outcome State
  find_operator zero s = spent
  find_operator (suc fuel) (st, p) = do
    (token, lexer) ← lx.lex p.lexer
    (found, s') ← find_at token st p (record p { lexer = lexer })
    let rest = find_operator fuel s'
    if found then ok s' else rest

  -- ActOnOperatorL at ELROB: puts operators out down to the open bracket.
  unfoldable pub reduce_to_bracket : ℕ → State → Outcome State
  reduce_to_bracket zero s = spent
  reduce_to_bracket (suc fuel) (st, p) = do
    e ← top p.operator_stack
    let rest = output_operator (st, p) >>= reduce_to_bracket fuel
    if is_oper e.operator open_bracket
        then ok (st, p)
        else (if is_oper e.operator start_of_expression then leave mismatched_bracket else rest)

  -- The fall through to ELDrp
  unfoldable pub drop_top : State → Outcome State
  drop_top (st, p) = do rest ← drop p.operator_stack; ok (st, record p { operator_stack = rest })

  unfoldable pub close : State → Outcome State
  unfolding drop_top
  close s = do
    (st, p) ← reduce_to_bracket (suc (length s.1.operator_stack)) s
    drop_top (
      record st { operator_seen = false },
      record p { code = p.code ++ apply st.type st.type unary close_bracket ∷ [] },
    )

  unfoldable pub percent_top : State → Outcome State
  percent_top (st, p) = do
    e ← top p.operator_stack
    op ← find_perc e.operator perc_ops_map
    marked ← set_top op p.operator_stack
    output_operator (st, record p { operator_stack = marked })

  -- The switch of ActOnOperatorL. `again` is its next round. The flag says that the expression
  -- is accepted.
  unfoldable pub perform :
      Action → (State → Outcome (Bool × State)) → State → Outcome (Bool × State)
  unfolding stack_operator drop_top percent_top
  perform Action.error again s = leave syntax
  perform Action.stack again (st, p) = ok (false, stack_operator st.operator st.type (st, p))
  perform Action.accept again s = do s' ← drop_top s; ok (true, s')
  perform Action.reduce again s = output_operator s >>= again
  perform Action.percent again s = do s' ← percent_top s; ok (false, s')
  perform Action.reduce_to_open_bracket again s = do s' ← close s; ok (false, s')
  perform Action.drop again s = do s' ← drop_top s; ok (false, s')
  perform Action.missing_bracket again s = leave mismatched_bracket

  -- The rounds of ActOnOperatorL, on fuel; `col` is computed once in front of them.
  unfoldable pub act : ℕ → ℕ → State → Outcome (Bool × State)
  act zero col s = spent
  act (suc fuel) col (st, p) = do
    e ← top p.operator_stack
    a ← action e.operator col st.operator_seen
    perform a (act fuel col) (st, p)

  -- `ActOnOperatorL`
  unfoldable pub act_on_operator : State → Outcome (Bool × State)
  act_on_operator (st, p) = do
    col ← column st.operator
    act (suc (length p.operator_stack)) col (st, p)

  -- The loop of ExpressionL, on fuel.
  unfoldable pub expression_from : ℕ → State → Outcome (OplType × Parser lx.State R)
  expression_from zero s = spent
  expression_from (suc fuel) s = do
    s₁ ← find_operator 2 s
    (accepted, s₂) ← act_on_operator s₁
    let rest = expression_from fuel s₂
    if accepted then ok (s₂.0.type, s₂.1) else rest

  -- `ExpressionL()`
  unfoldable pub expression : ℕ → Parser lx.State R → Outcome (OplType × Parser lx.State R)
  unfolding expression_from stack_operator
  expression fuel p =
      expression_from fuel (stack_operator start_of_expression word (start_state, p))

  -- `ExpressionL(TOplToken::TType)`
  unfoldable pub expression_of : ℕ → OplType → Parser lx.State R → Outcome (Parser lx.State R)
  expression_of fuel type p = do
    (found, p') ← expression fuel p
    ok (record p' { code = p_code_cast found type (length p'.code) p'.code })
