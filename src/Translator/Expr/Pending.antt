-- ===== src/Translator/Expr/Pending.antt =====
-- oplt/stran/OT_EXPR.CPP: the invariant that joins the operator stack and the code, and the
-- actions that put operators out.
use mathlib.Core.Path.{subst}
use opl_dev.Prelude.{
  ℕ, zero, suc, ◌<◌, List, [], ◌∷◌, ◌++◌, ◌≡◌, refl, sym, Bool, true, false, ◌||◌, length,
  Bool-cases, ◌⊎◌, inl, inr, arith,
}
use opl_dev.Prelude.Outcome.{Outcome, ok, Leaves, Leaves-bind, Leaves-weaken}
use opl_dev.Translator.Token.{OplType, Operator}
use opl_dev.Translator.Pcode.{Pcode}
use opl_dev.Translator.Expr.{
  StackedOperator, EvaluatorState, Parser, Lexer, Operands, is_oper, perc_ops_map, find_perc, top,
  drop, set_top, output, output_operator, reduce_to_bracket, percent_top,
}
use opl_dev.Translator.Expr.Table.Facts.{
  is_start, is_infix, is_sign, is_bracket, has_percent, can_wait,
}
use opl_dev.Translator.Expr.Typing.{Pushes}
use opl_dev.Translator.Expr.Output.{
  is_operand, is_percent, Grown, output-sign, output-percent, output-infix, output_unary-Grown,
  output_binary-Grown, output_percent-Grown,
}

abbrev pub reduces : Operator → Bool
reduces op = is_infix op || is_sign op

not_both : (op : Operator) → reduces op ≡ true → is_start op ≡ true → ⊥
not_both op h k = ground arith

sign_of :
    (op : Operator) → reduces op ≡ true → (is_sign op || is_bracket op) ≡ true → is_sign op ≡ true
sign_of op h k = ground arith

pub perc_of : Operator → Operator
perc_of Operator.less_than = Operator.perc_less
perc_of Operator.greater_than = Operator.perc_greater
perc_of Operator.plus = Operator.perc_plus
perc_of Operator.minus = Operator.perc_minus
perc_of Operator.multiply = Operator.perc_multiply
perc_of op = Operator.perc_divide

-- The search through `percOpsMap` ends inside the table.
find_perc-ok : (op : Operator) → has_percent op ≡ true → find_perc op perc_ops_map ≡ ok (perc_of op)
unfolding find_perc perc_of
find_perc-ok op h = ground arith

perc_of-is_percent : (op : Operator) → is_percent (perc_of op) ≡ true
unfolding perc_of
perc_of-is_percent op = ground arith

not_percent_start : (op : Operator) → has_percent op ≡ true → is_start op ≡ true → ⊥
not_percent_start op h k = ground arith

not_percent_prefix :
    (op : Operator) → has_percent op ≡ true → (is_sign op || is_bracket op) ≡ true → ⊥
not_percent_prefix op h k = ground arith

infix_waits : (op : Operator) → is_infix op ≡ true → can_wait op ≡ true
infix_waits op h = ground arith

prefix_waits : (op : Operator) → (is_sign op || is_bracket op) ≡ true → can_wait op ≡ true
prefix_waits op h = ground arith

start_waits : (op : Operator) → is_start op ≡ true → can_wait op ≡ true
start_waits op h = ground arith

open_bracket_test : (op : Operator) → is_oper op Operator.open_bracket ≡ true → is_bracket op ≡ true
open_bracket_test op h = ground arith

left_over :
    (op : Operator)
    → can_wait op ≡ true
    → is_oper op Operator.open_bracket ≡ false
    → is_oper op Operator.start_of_expression ≡ false
    → reduces op ≡ true
left_over op h b s = ground arith

module _ {R : Type 0} (strings : Bool) (base : List (Pcode R)) (outer : List StackedOperator) where
  -- The operators wait for an operand that the code is to go on with. Above `outer` stands the
  -- start of the expression; each infix operator has the code of its left operand behind what
  -- came before it, with the operand's type and the position of its end.
  abbrev pub Pending : List StackedOperator → List (Pcode R) → Type 0
  Pending [] code = ⊥
  Pending (e ∷ es) code =
      ((is_start e.operator ≡ true) × (es ≡ outer) × (code ≡ base))
      ⊎ (((is_sign e.operator || is_bracket e.operator) ≡ true) × Pending es code)
      ⊎ ((before : List (Pcode R)) × (seg : List (Pcode R)) × (is_infix e.operator ≡ true)
          × (code ≡ before ++ seg)
          × Pushes seg e.type
          × (is_operand strings e.type ≡ true)
          × (e.pcode_pos ≡ length (before ++ seg))
          × Pending es before)

  -- An operand of type `t` has been read behind that.
  abbrev pub Holding : OplType → List StackedOperator → List (Pcode R) → Type 0
  Holding t ops code =
      (before : List (Pcode R)) × (seg : List (Pcode R)) × (code ≡ before ++ seg)
      × Pushes seg t
      × (is_operand strings t ≡ true)
      × Pending ops before

  Grown-Holding :
      (before : List (Pcode R)) (es : List StackedOperator) (m : Outcome (OplType × List (Pcode R)))
      → Pending es before
      → Leaves (Grown strings before) m
      → Leaves (λ r. Holding r.0 es r.1) m
  Grown-Holding before es m pending = Leaves-weaken m (λ r g. (before, g.0, g.1, g.2, g.3, pending))

  pub output-Holding :
      (e : StackedOperator) (t : OplType) (es : List StackedOperator) (code : List (Pcode R))
      → reduces e.operator ≡ true
      → Holding t (e ∷ es) code
      → Leaves (λ r. Holding r.0 es r.1) (output e t code)
  output-Holding e t es code red (before, seg, c, h, o, inl start) =
      absurd (not_both e.operator red start.0)
  output-Holding e t es code red (before, seg, c, h, o, inr (inl (prefix, pending))) =
      rw (c, output-sign e t (before ++ seg) (sign_of e.operator red prefix))
        (Grown-Holding before es _ pending
          (output_unary-Grown before seg strings e.operator t (sign_of e.operator red prefix) h o))
  output-Holding e t es code red
        (before, seg, c, h, o, inr (inr (b, s, i, c', h', o', at, pending))) =
      rw (c, c', output-infix e t ((b ++ s) ++ seg) i)
        (Grown-Holding b es _ pending (output_binary-Grown b s seg strings e t h' h at o' o i))

  pub percent-Holding :
      (e : StackedOperator) (t : OplType) (es : List StackedOperator) (code : List (Pcode R))
      → has_percent e.operator ≡ true
      → strings ≡ false
      → Holding t (e ∷ es) code
      → Leaves
          (λ r. Holding r.0 es r.1)
          (output (record e { operator = perc_of e.operator }) t code)
  percent-Holding e t es code pc n (before, seg, c, h, o, inl start) =
      absurd (not_percent_start e.operator pc start.0)
  percent-Holding e t es code pc n (before, seg, c, h, o, inr (inl (prefix, pending))) =
      absurd (not_percent_prefix e.operator pc prefix)
  percent-Holding e t es code pc n
        (before, seg, c, h, o, inr (inr (b, s, i, c', h', o', at, pending))) =
      let e' : StackedOperator = record e { operator = perc_of e.operator } in
      let marked = perc_of-is_percent e.operator in
      rw (c, c', output-percent e' t ((b ++ s) ++ seg) marked)
        (Grown-Holding b es _ pending
          (output_percent-Grown b s seg strings e' t h' h at o' o marked n))

  pub Pending-can_wait :
      (e : StackedOperator) (es : List StackedOperator) (code : List (Pcode R))
      → Pending (e ∷ es) code
      → can_wait e.operator ≡ true
  Pending-can_wait e es code (inl (s, _, _)) = start_waits e.operator s
  Pending-can_wait e es code (inr (inl (s, _))) = prefix_waits e.operator s
  Pending-can_wait e es code (inr (inr (_, _, i, _, _, _, _, _))) = infix_waits e.operator i

abbrev pub parser : {L R : Type 0} → List StackedOperator → List (Pcode R) → L → Parser L R
parser ops code l = record { operator_stack = ops; code = code; lexer = l }

abbrev pub After : Lexer → Type 0 → Type 0
After lx R = EvaluatorState × Parser lx.State R

module _ (lx : Lexer) (R : Type 0) (operands : Operands lx R) (strings : Bool)
    (base : List (Pcode R)) (outer : List StackedOperator) where
  -- From `st` with the lexer at `l` operators were put out down to the stack `es`.
  abbrev pub Reduced : EvaluatorState → lx.State → List StackedOperator → After lx R → Type 0
  Reduced st l es s =
      Holding strings base outer s.0.type es s.1.code
      × (s.1.operator_stack ≡ es)
      × (s.1.lexer ≡ l)
      × (s.0.operator ≡ st.operator)
      × (s.0.operator_seen ≡ st.operator_seen)

  pub output_operator-Reduced :
      (st : EvaluatorState) (e : StackedOperator) (es : List StackedOperator)
      (code : List (Pcode R)) (l : lx.State)
      → reduces e.operator ≡ true
      → Holding strings base outer st.type (e ∷ es) code
      → Leaves (Reduced st l es) (output_operator lx R operands (st, parser (e ∷ es) code l))
  unfolding output_operator top drop
  output_operator-Reduced st e es code l red h =
      Leaves-bind (Reduced st l es) (output e st.type code) _
        (output-Holding strings base outer e st.type es code red h)
        (λ r k. (k, refl, refl, refl, refl))

  pub percent_top-Reduced :
      (st : EvaluatorState) (e : StackedOperator) (es : List StackedOperator)
      (code : List (Pcode R)) (l : lx.State)
      → has_percent e.operator ≡ true
      → strings ≡ false
      → Holding strings base outer st.type (e ∷ es) code
      → Leaves (Reduced st l es) (percent_top lx R operands (st, parser (e ∷ es) code l))
  unfolding percent_top output_operator set_top top drop
  percent_top-Reduced st e es code l pc n h = rw (find_perc-ok e.operator pc) (
      Leaves-bind (Reduced st l es) (output _ st.type code) _
        (percent-Holding strings base outer e st.type es code pc n h)
        (λ r k. (k, refl, refl, refl, refl)))

  -- The operators above an open bracket have been put out.
  abbrev pub AtBracket : lx.State → After lx R → Type 0
  AtBracket l s =
      (e : StackedOperator) × (es : List StackedOperator) × (s.1.operator_stack ≡ e ∷ es)
      × (is_bracket e.operator ≡ true)
      × Holding strings base outer s.0.type (e ∷ es) s.1.code
      × (s.1.lexer ≡ l)

  pub reduce_to_bracket-AtBracket :
      (fuel : ℕ) (st : EvaluatorState) (ops : List StackedOperator) (code : List (Pcode R))
      (l : lx.State)
      → length ops < fuel
      → Holding strings base outer st.type ops code
      → Leaves (AtBracket l) (reduce_to_bracket lx R operands fuel (st, parser ops code l))
  unfolding reduce_to_bracket top
  reduce_to_bracket-AtBracket zero st ops code l m h = absurd (omega arith)
  reduce_to_bracket-AtBracket (suc fuel) st [] code l m (_, _, _, _, _, p) = absurd p
  reduce_to_bracket-AtBracket (suc fuel) st (e ∷ es) code l m h =
      let shorter : length es < fuel = omega arith in
      elim (Bool-cases (is_oper e.operator Operator.open_bracket)) [
        | inl b ↦ rw b (e, es, refl, open_bracket_test e.operator b, h, refl)
        | inr nb ↦ elim (Bool-cases (is_oper e.operator Operator.start_of_expression)) [
          | inl s ↦ rw (nb, s) tt
          | inr ns ↦
              rw (nb, ns)
                (Leaves-bind (AtBracket l)
                  (output_operator lx R operands (st, parser (e ∷ es) code l)) _
                  (output_operator-Reduced st e es code l
                    (left_over e.operator (Pending-can_wait strings base outer e es h.0 h.5) nb ns)
                    h)
                  (λ s r.
                    subst (λ k. Leaves (AtBracket k) (reduce_to_bracket lx R operands fuel s)) r.2
                      (reduce_to_bracket-AtBracket fuel s.0 s.1.operator_stack s.1.code s.1.lexer
                        (subst (λ ops. length ops < fuel) (sym r.1) shorter)
                        (subst (λ ops. Holding strings base outer s.0.type ops s.1.code) (sym r.1)
                          r.0))))
        ]
      ]
