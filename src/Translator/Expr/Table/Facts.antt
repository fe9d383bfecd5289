-- ===== src/Translator/Expr/Table/Facts.antt =====
-- What the precedence table permits, read off all its entries at once.
use opl_dev.Prelude.{
  ℕ, List, [], ◌∷◌, ◌≡◌, refl, Bool, true, false, ◌&&◌, ◌||◌, some, get_elem?, leb, ◌==◌,
  if◌then◌else◌, arith,
}
use mathlib.Core.Bool.{not as not_b}
use opl_dev.Prelude.Outcome.{Outcome, ok, ◌>>=◌}
use opl_dev.Translator.Token.{Operator, number}
use opl_dev.Translator.Expr.Table.{Action, column, action}

abbrev operators : List Operator
operators =
    Operator.start_of_expression ∷ Operator.less_than ∷ Operator.less_than_eq
    ∷ Operator.greater_than ∷ Operator.greater_than_eq ∷ Operator.equal ∷ Operator.not_equal
    ∷ Operator.plus ∷ Operator.minus ∷ Operator.multiply ∷ Operator.divide ∷ Operator.power
    ∷ Operator.and ∷ Operator.or ∷ Operator.not ∷ Operator.unary_minus ∷ Operator.perc
    ∷ Operator.open_bracket ∷ Operator.close_bracket ∷ Operator.end_of_expression
    ∷ Operator.perc_less ∷ Operator.perc_greater ∷ Operator.perc_plus ∷ Operator.perc_minus
    ∷ Operator.perc_multiply ∷ Operator.perc_divide ∷ []

holds_of : (Operator → Bool) → List Operator → Bool
holds_of p [] = true
holds_of p (op ∷ ops) = p op && holds_of p ops

abbrev Holds : (Operator → Bool) → Type 0
Holds p = holds_of p operators ≡ true

holds_of-get :
    (p : Operator → Bool) (ops : List Operator) (i : ℕ) (op : Operator)
    → holds_of p ops ≡ true
    → get_elem? ops i ≡ some op
    → p op ≡ true
unfolding holds_of
holds_of-get p [] i op h e = ground arith
holds_of-get p (o ∷ ops) ℕ.zero op h e = ground arith
holds_of-get p (o ∷ ops) (ℕ.suc i) op h e = ground (arith, holds_of-get p ops i op)

-- Every operator stands in the list, at its number.
listed : (op : Operator) → get_elem? operators (number op) ≡ some op
listed op = ground arith

Holds-at : (p : Operator → Bool) (op : Operator) → Holds p → p op ≡ true
Holds-at p op h = holds_of-get p operators (number op) op h (listed op)

abbrev pub is_start : Operator → Bool
is_start Operator.start_of_expression = true
is_start _ = false

-- Operators with an operand on either side.
abbrev pub is_infix : Operator → Bool
is_infix Operator.less_than = true
is_infix Operator.less_than_eq = true
is_infix Operator.greater_than = true
is_infix Operator.greater_than_eq = true
is_infix Operator.equal = true
is_infix Operator.not_equal = true
is_infix Operator.plus = true
is_infix Operator.minus = true
is_infix Operator.multiply = true
is_infix Operator.divide = true
is_infix Operator.power = true
is_infix Operator.and = true
is_infix Operator.or = true
is_infix _ = false

-- Operators with one operand, behind them.
abbrev pub is_sign : Operator → Bool
is_sign Operator.not = true
is_sign Operator.unary_minus = true
is_sign _ = false

abbrev pub is_bracket : Operator → Bool
is_bracket Operator.open_bracket = true
is_bracket _ = false

abbrev pub is_end : Operator → Bool
is_end Operator.end_of_expression = true
is_end _ = false

-- Operators that may be followed by an operand and a percent sign.
abbrev pub has_percent : Operator → Bool
has_percent Operator.less_than = true
has_percent Operator.greater_than = true
has_percent Operator.plus = true
has_percent Operator.minus = true
has_percent Operator.multiply = true
has_percent Operator.divide = true
has_percent _ = false

-- What the table may have done, with `top` on the stack and `cur` just read.
abbrev pub permitted : Action → Operator → Operator → Bool → Bool
permitted Action.error top cur seen = true
permitted Action.missing_bracket top cur seen = true
permitted Action.stack top cur seen =
    not_b (is_end cur) && (if seen then is_sign cur || is_bracket cur else is_infix cur)
permitted Action.accept top cur seen = not_b seen && is_start top
permitted Action.reduce top cur seen = not_b seen && (is_infix top || is_sign top)
permitted Action.reduce_to_open_bracket top cur seen = not_b seen && not_b (is_end cur)
permitted Action.percent top cur seen =
    not_b seen && has_percent top && not_b (is_end cur) && (number cur == 16)
permitted Action.drop top cur seen = is_sign top && not_b (is_end cur)

abbrev permits : Outcome Action → Operator → Operator → Bool → Bool
permits (ok a) top cur seen = permitted a top cur seen
permits _ top cur seen = false

-- Operators that can wait on the stack.
abbrev pub can_wait : Operator → Bool
can_wait op = is_start op || (is_infix op || (is_sign op || is_bracket op))

-- Operators that can have been read: those in front of the percent operators.
abbrev pub can_be_read : Operator → Bool
can_be_read op = leb (number op) 19

permits_table : Holds (λ top.
    holds_of
      (λ cur.
        not_b (can_wait top && can_be_read cur)
        || (permits (column cur >>= λ c. action top c true) top cur true
            && permits (column cur >>= λ c. action top c false) top cur false))
      operators)
unfolding holds_of column action
permits_table = refl

permits-ok :
    (o : Outcome Action) (top cur : Operator) (seen : Bool)
    → permits o top cur seen ≡ true
    → (a : Action) × (o ≡ ok a) × (permitted a top cur seen ≡ true)
permits-ok (ok a) top cur seen h = (a, refl, h)
permits-ok (Outcome.leave e) top cur seen h = cc
permits-ok (Outcome.panic e) top cur seen h = cc
permits-ok Outcome.spent top cur seen h = cc

abbrev is_ok : Outcome ℕ → Bool
is_ok (ok c) = true
is_ok o = false

is_ok_ok : (o : Outcome ℕ) → is_ok o ≡ true → (c : ℕ) × (o ≡ ok c)
is_ok_ok (ok c) h = (c, refl)
is_ok_ok (Outcome.leave e) h = cc
is_ok_ok (Outcome.panic e) h = cc
is_ok_ok Outcome.spent h = cc

or_elim : (r b : Bool) → (not_b r || b) ≡ true → r ≡ true → b ≡ true
or_elim r b h k = ground arith

both_elim :
    (w r a b : Bool)
    → (not_b (w && r) || (a && b)) ≡ true
    → w ≡ true
    → r ≡ true
    → (a ≡ true) × (b ≡ true)
both_elim w r a b h hw hr = ground arith

columns : Holds (λ op. not_b (can_be_read op) || is_ok (column op))
unfolding holds_of column
columns = refl

-- Every operator that can be read has a column.
pub column_total : (cur : Operator) → can_be_read cur ≡ true → (c : ℕ) × (column cur ≡ ok c)
unfolding column
column_total cur h =
    let entry = Holds-at (λ op. not_b (can_be_read op) || is_ok (column op)) cur columns in
    is_ok_ok (column cur) (or_elim _ _ entry h)

module _ (top cur : Operator) (waits : can_wait top ≡ true) (read : can_be_read cur ≡ true) where
  permits_both :
      (permits (column cur >>= λ c. action top c true) top cur true ≡ true)
      × (permits (column cur >>= λ c. action top c false) top cur false ≡ true)
  permits_both =
      let row = Holds-at _ top permits_table in
      let entry = Holds-at _ cur row in
      both_elim (can_wait top) (can_be_read cur) _ _ entry waits read

  -- For every operator that can wait on the stack and every one that can be read, where an operand
  -- is due or an operator is, the precedence table has an entry, and the entry is one that
  -- `permitted` allows.
  pub action-permitted :
      (c : ℕ) (seen : Bool)
      → column cur ≡ ok c
      → (a : Action) × (action top c seen ≡ ok a) × (permitted a top cur seen ≡ true)
  action-permitted c true e = permits-ok _ top cur true (rw e at permits_both.0)
  action-permitted c false e = permits-ok _ top cur false (rw e at permits_both.1)
