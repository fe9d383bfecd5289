-- ===== src/Translator/Expr/Find.antt =====
-- oplt/stran/OT_EXPR.CPP, FindOperatorL: what the parser relies on in the lexer and in the
-- operands, and that the search for the next operator ends.
use mathlib.Core.Path.{subst}
use opl_dev.Prelude.{
  ℕ, suc, ◌<◌, ◌≤◌, List, [], ◌∷◌, ◌≡◌, refl, sym, Bool, true, false, ◌&&◌, ◌==◌, if◌then◌else◌,
  Bool-cases, ◌⊎◌, inl, inr, arith,
}
use opl_dev.Prelude.Int.{pos, to_int16}
use opl_dev.Prelude.Outcome.{ok, Leaves, Leaves-bind, Leaves-weaken}
use opl_dev.Translator.Token.{
  OplType, word, Operator, number, Token, Identifier, Callable, operator, identifier, punctuation,
  call, word_value,
}
use opl_dev.Translator.Pcode.{Pcode, push_constant}
use opl_dev.Translator.Expr.{
  StackedOperator, EvaluatorState, Parser, Lexer, Operands, find_at, find_at_operator,
  find_operator,
}
use opl_dev.Translator.Expr.Table.Facts.{can_be_read, is_end}
use opl_dev.Translator.Expr.Typing.{Pushes-push_constant}
use opl_dev.Translator.Expr.Output.{is_operand, Grown}
use opl_dev.Translator.Expr.Pending.{Pending, parser, After}
use opl_dev.Translator.Expr.Act.{Ready}

-- Operators that the lexer reads; the percent sign is left out where there may be strings.
abbrev pub IsSource : Bool → Token → Type 0
IsSource strings (operator op) = (can_be_read op ≡ true) × ((strings && (number op == 16)) ≡ false)
IsSource strings t = Unit

-- A token takes something off the source, but for the marks that may end an expression.
abbrev pub Shrinks : Token → ℕ → ℕ → Type 0
Shrinks (punctuation m) after before = after ≤ before
Shrinks t after before = after < before

-- The lexer gives one of the tokens above, or leaves. The source gets shorter, as `size` says.
pub record LawfulLexer (strings : Bool) (lx : Lexer) : Type 0 where
  pub size : lx.State → ℕ
  pub lex_lem :
      (l : lx.State)
      → Leaves (λ r. IsSource strings r.0 × Shrinks r.0 (size r.1) (size l)) (lx.lex l)
  pub next_char_lem : (l : lx.State) → Leaves (λ r. size r.1 ≤ size l) (lx.next_char l)

-- From `p` to `p'` code was appended that pushes one value of type `t`; the operator stack is the
-- same and the source has not grown.
abbrev pub Extends :
    (lx : Lexer)
    → {R : Type 0} → Bool
    → (lx.State → ℕ)
    → Parser lx.State R
    → OplType
    → Parser lx.State R
    → Type 0
Extends lx strings size p t p' =
    (p'.operator_stack ≡ p.operator_stack)
    × Grown strings p.code (t, p'.code)
    × (size p'.lexer ≤ size p.lexer)

-- An operand is read whole or left at an error, and its code pushes a value of its type.
pub record LawfulOperands (strings : Bool) (lx : Lexer) (law : LawfulLexer strings lx) (R : Type 0)
    (operands : Operands lx R) : Type 0 where
  pub reference_lem :
      (i : Identifier) (p : Parser lx.State R)
      → Leaves
          (Extends lx strings law.size p (lx.type p.lexer))
          (operands.right_side_reference (identifier i) p)
  pub call_lem :
      (c : Callable) (p : Parser lx.State R)
      → Leaves (λ r. Extends lx strings law.size p r.0 r.1) (operands.call (call c) p)

np_end : (strings : Bool) → (strings && false) ≡ false
np_end strings = ground arith

module _ (strings : Bool) (lx : Lexer) (law : LawfulLexer strings lx) (R : Type 0)
    (operands : Operands lx R) (lawful : LawfulOperands strings lx law R operands)
    (base : List (Pcode R)) (outer : List StackedOperator) where
  abbrev pub Here : After lx R → Type 0
  Here s = Ready lx R operands strings base outer s.0 s.1.operator_stack s.1.code

  -- An operator was found: it is the end, or the source got shorter than `n`.
  abbrev pub Found : ℕ → After lx R → Type 0
  Found n s =
      Here s
      × (can_be_read s.0.operator ≡ true)
      × ((strings && (number s.0.operator == 16)) ≡ false)
      × ((is_end s.0.operator ≡ true) ⊎ (law.size s.1.lexer < n))
      × (law.size s.1.lexer ≤ n)

  -- One round: an operator, or an operand where one was due.
  abbrev Round : ℕ → Bool → Bool × After lx R → Type 0
  Round n seen (true, s) = Found n s
  Round n seen (false, s) =
      (seen ≡ true) × (s.0.operator_seen ≡ false) × Here s × (law.size s.1.lexer ≤ n)

  -- An operand read where the operators wait for one.
  operand_held :
      (st : EvaluatorState) (p p' : Parser lx.State R) (t : OplType)
      → Pending strings base outer p.operator_stack p.code
      → (p'.operator_stack ≡ p.operator_stack)
      → Grown strings p.code (t, p'.code)
      → Here (record st { operator_seen = false; type = t }, p')
  operand_held st p p' t pending same (seg, c, pushes, o) = inr (
    refl,
    (
      p.code,
      seg,
      c,
      pushes,
      o,
      subst (λ ops. Pending strings base outer ops p.code) (sym same) pending,
    ),
  )

  due :
      (st : EvaluatorState) (ops : List StackedOperator) (code : List (Pcode R))
      → Ready lx R operands strings base outer st ops code
      → st.operator_seen ≡ true
      → Pending strings base outer ops code
  due st ops code (inl (_, p)) seen = p
  due st ops code (inr (h, _)) seen = cc

  word_operand : is_operand strings word ≡ true
  word_operand = refl

  find_at_operator-Round :
      (op : Operator) (st : EvaluatorState) (ops : List StackedOperator) (code : List (Pcode R))
      (l l' : lx.State)
      → Ready lx R operands strings base outer st ops code
      → IsSource strings (operator op)
      → law.size l' < law.size l
      → Leaves
          (Round (law.size l) st.operator_seen)
          (find_at_operator lx R operands op st (parser ops code l) (parser ops code l'))
  unfolding find_at_operator
  find_at_operator-Round Operator.close_bracket st ops code l l' r src m =
      elim (Bool-cases (st.nesting_level == 0)) [
        | inl z ↦ rw z (r, refl, np_end strings, inl refl, omega arith)
        | inr z ↦ rw z (r, refl, src.1, inr m, omega arith)
      ]
  find_at_operator-Round Operator.open_bracket st ops code l l' r src m =
      (r, refl, src.1, inr m, omega arith)
  find_at_operator-Round Operator.minus st ops code l l' (inl (seen, p)) src m =
      rw seen (inl (refl, p), refl, src.1, inr m, omega arith)
  find_at_operator-Round Operator.minus st ops code l l' (inr (seen, h)) src m =
      rw seen (inr (refl, h), refl, src.1, inr m, omega arith)
  find_at_operator-Round Operator.perc st ops code l l' (inl (seen, p)) src m =
      let char : ℕ → List (Pcode R) = λ c. push_constant (word_value (to_int16 (pos c))) ∷ [] in
      rw seen (
        Leaves-bind (Round (law.size l) true) (lx.next_char l') _ (law.next_char_lem l')
          λ c shorter. (
            refl,
            refl,
            inr (refl, (code, char c.0, refl, Pushes-push_constant _, word_operand, p)),
            omega (arith, shorter, m),
          ))
  find_at_operator-Round Operator.perc st ops code l l' (inr (seen, h)) src m =
      rw seen (inr (refl, h), refl, src.1, inr m, omega arith)
  find_at_operator-Round op st ops code l l' r src m = (r, src.0, src.1, inr m, omega arith)

  -- The rounds that follow an operand end at the first.
  find_at-Round :
      (t : Token) (st : EvaluatorState) (ops : List StackedOperator) (code : List (Pcode R))
      (l l' : lx.State)
      → Ready lx R operands strings base outer st ops code
      → IsSource strings t
      → Shrinks t (law.size l') (law.size l)
      → Leaves
          (Round (law.size l) st.operator_seen)
          (find_at lx R operands t st (parser ops code l) (parser ops code l'))
  unfolding find_at
  find_at-Round (operator op) st ops code l l' r src m =
      find_at_operator-Round op st ops code l l' r src m
  find_at-Round (identifier i) st ops code l l' (inl (seen, p)) src m = rw seen (
      Leaves-bind (Round (law.size l) true)
        (operands.right_side_reference (identifier i) (parser ops code l')) _
        (lawful.reference_lem i (parser ops code l'))
        λ p' e. (
          refl,
          refl,
          operand_held st (parser ops code l') p' (lx.type l') p e.0 e.1,
          omega (arith, m, e.2),
        ))
  find_at-Round (identifier i) st ops code l l' (inr (seen, h)) src m = rw seen tt
  find_at-Round (call c) st ops code l l' (inl (seen, p)) src m = rw seen (
      Leaves-bind (Round (law.size l) true) (operands.call (call c) (parser ops code l')) _
        (lawful.call_lem c (parser ops code l'))
        λ r e. (
          refl,
          refl,
          operand_held st (parser ops code l') r.1 r.0 p e.0 e.1,
          omega (arith, m, e.2),
        ))
  find_at-Round (call c) st ops code l l' (inr (seen, h)) src m = rw seen tt
  find_at-Round (punctuation mark) st ops code l l' r src m =
      (r, refl, np_end strings, inl refl, omega arith)
  find_at-Round t st ops code l l' r src m = tt

  Round-Found :
      (n : ℕ) (seen : Bool) (r : Bool × After lx R)
      → seen ≡ false
      → Round n seen r
      → (r.0 ≡ true) × Found n r.1
  Round-Found n seen (true, s) e f = (refl, f)
  Round-Found n seen (false, s) e f = cc

  -- With an operand there the next token is an operator, or the parser leaves.
  find_operator-held :
      (fuel : ℕ) (st : EvaluatorState) (p : Parser lx.State R)
      → Here (st, p)
      → st.operator_seen ≡ false
      → Leaves (Found (law.size p.lexer)) (find_operator lx R operands (suc fuel) (st, p))
  unfolding find_operator
  find_operator-held fuel st p r seen =
      let n = law.size p.lexer in
      Leaves-bind (Found n) (lx.lex p.lexer) _ (law.lex_lem p.lexer) λ tl src.
        Leaves-bind (Found n)
          (find_at lx R operands tl.0 st p (parser p.operator_stack p.code tl.1)) _
          (find_at-Round tl.0 st p.operator_stack p.code p.lexer tl.1 r src.0 src.1)
          λ fs round. let (e, found) = Round-Found n st.operator_seen fs seen round in rw e found

  Found-mono : (m n : ℕ) (s : After lx R) → m ≤ n → Found m s → Found n s
  Found-mono m n s h (r, read, np, inl e, le) = (r, read, np, inl e, omega (arith, h, le))
  Found-mono m n s h (r, read, np, inr lt, le) =
      (r, read, np, inr (omega (arith, lt, h)), omega (arith, h, le))

  two_rounds :
      (n : ℕ) (seen : Bool) (fs : Bool × After lx R)
      → Round n seen fs
      → Leaves (Found n) (if fs.0 then ok fs.1 else find_operator lx R operands 1 fs.1)
  two_rounds n seen (true, s) f = f
  two_rounds n seen (false, (st, p)) (_, e, r, le) =
      Leaves-weaken (find_operator lx R operands 1 (st, p))
        (λ s. Found-mono (law.size p.lexer) n s le) (find_operator-held 0 st p r e)

  -- FindOperatorL's loop takes two rounds at most.
  pub find_operator-Found :
      (st : EvaluatorState) (p : Parser lx.State R)
      → Here (st, p)
      → Leaves (Found (law.size p.lexer)) (find_operator lx R operands 2 (st, p))
  unfolding find_operator
  find_operator-Found st p r =
      let n = law.size p.lexer in
      Leaves-bind (Found n) (lx.lex p.lexer) _ (law.lex_lem p.lexer) λ tl src.
        Leaves-bind (Found n)
          (find_at lx R operands tl.0 st p (parser p.operator_stack p.code tl.1)) _
          (find_at-Round tl.0 st p.operator_stack p.code p.lexer tl.1 r src.0 src.1)
          (two_rounds n st.operator_seen)
