-- ===== src/Translator/Expr/Sound.antt =====
-- oplt/stran/OT_EXPR.CPP, ExpressionL: an expression's code is well typed.
use mathlib.Core.Path.{subst}
use mathlib.Core.List.{append_assoc, append-nil}
use opl_dev.Prelude.{
  ℕ, zero, suc, ◌<◌, ◌≤◌, List, [], ◌∷◌, ◌++◌, ◌≡◌, refl, sym, ◌∙◌, Bool, true, false, length, ◌==◌,
  if◌then◌else◌, Bool-cases, ◌⊎◌, inl, inr, insert_at, insert_at-length, arith,
}
use opl_dev.Prelude.Outcome.{ok, Leaves, Leaves-bind, Leaves-weaken}
use opl_dev.Translator.Token.{OplType, word, rank, Operator}
use opl_dev.Translator.Pcode.{Pcode, cast}
use opl_dev.Translator.Expr.{
  StackedOperator, Parser, Lexer, Operands, find_operator, act_on_operator, p_code_cast,
  expression_from, expression, expression_of, stack_operator, start_state,
}
use opl_dev.Translator.Expr.Table.Facts.{is_end}
use opl_dev.Translator.Expr.Typing.{Pushes, Pushes-cast}
use opl_dev.Translator.Expr.Output.{Grown}
use opl_dev.Translator.Expr.Pending.{After}
use opl_dev.Translator.Expr.Act.{Acted, act_on_operator-Acted}
use opl_dev.Translator.Expr.Find.{LawfulLexer, LawfulOperands, Extends, Here, find_operator-Found}

rank_injective : (a b : OplType) → (rank a == rank b) ≡ true → a ≡ b
rank_injective a b h = ground arith

-- A cast at the end of the code changes the type of the value that the code pushes.
cast-Pushes :
    {R : Type 0} (base seg : List (Pcode R)) (a b : OplType)
    → Pushes seg a
    → (seg' : List (Pcode R)) × (p_code_cast a b (length (base ++ seg)) (base ++ seg)
        ≡ base ++ seg')
      × Pushes seg' b
unfolding p_code_cast
cast-Pushes base seg a b h = elim (Bool-cases (rank a == rank b)) [
  | inl e ↦ (seg, rw e refl, subst (Pushes seg) (rank_injective a b e) h)
  | inr e ↦ (
    seg ++ cast a b ∷ [],
    (let at_end : insert_at (length (base ++ seg)) (cast a b) ((base ++ seg) ++ [])
            ≡ (base ++ seg) ++ cast a b ∷ [] =
          insert_at-length (base ++ seg) [] (cast a b) in
        rw e (simp append-nil at at_end ∙ append_assoc base seg _)),
    Pushes-cast seg a b h,
  )
]

module _ (strings : Bool) (lx : Lexer) (law : LawfulLexer strings lx) (R : Type 0)
    (operands : Operands lx R) (lawful : LawfulOperands strings lx law R operands)
    (base : List (Pcode R)) (outer : List StackedOperator) where
  -- An expression that ends behind `base`, over `outer`.
  abbrev Ended : ℕ → OplType × Parser lx.State R → Type 0
  Ended n (t, p) =
      (p.operator_stack ≡ outer) × Grown strings base (t, p.code) × (law.size p.lexer ≤ n)

  next_round :
      (fuel n : ℕ) (cur : Operator) (l : lx.State) (r : Bool × After lx R)
      → ((is_end cur ≡ true) ⊎ (law.size l < n))
      → (law.size l ≤ n)
      → Acted lx R operands strings base outer cur l r
      → ((s : After lx R)
          → Here strings lx law R operands lawful base outer s
          → law.size s.1.lexer < n
          → Leaves (Ended (law.size s.1.lexer)) (expression_from lx R operands fuel s))
      → Leaves
          (Ended n)
          (if r.0 then ok (r.1.0.type, r.1.1) else expression_from lx R operands fuel r.1)
  next_round fuel n cur l (true, (st, p)) d le (o, g, e) k =
      (o, g, subst (λ l'. law.size l' ≤ n) (sym e) le)
  next_round fuel n cur l (false, s) (inl e) le (ne, r, _) k = absurd cc
  next_round fuel n cur l (false, s) (inr lt) le (ne, r, e) k =
      let lt' = subst (λ l'. law.size l' < n) (sym e) lt in
      Leaves-weaken (expression_from lx R operands fuel s)
        (λ r g. (g.0, g.1, omega (arith, g.2, lt'))) (k s r lt')

  expression_from-Ended :
      (fuel : ℕ) (s : After lx R)
      → law.size s.1.lexer < fuel
      → Here strings lx law R operands lawful base outer s
      → Leaves (Ended (law.size s.1.lexer)) (expression_from lx R operands fuel s)
  unfolding expression_from
  expression_from-Ended zero s m r = absurd (omega (arith, m))
  expression_from-Ended (suc fuel) s m r =
      let n = law.size s.1.lexer in
      Leaves-bind (Ended n) (find_operator lx R operands 2 s) _
        (find_operator-Found strings lx law R operands lawful base outer s.0 s.1 r)
        λ s₁ f.
          Leaves-bind (Ended n) (act_on_operator lx R operands s₁) _
            (act_on_operator-Acted lx R operands strings base outer s₁ f.0 f.1 f.2)
            λ a acted.
              next_round fuel n s₁.0.operator s₁.1.lexer a f.3 f.4 acted
                λ s₂ r₂ lt. expression_from-Ended fuel s₂ (omega (arith, lt, m)) r₂

module _ (strings : Bool) (lx : Lexer) (law : LawfulLexer strings lx) (R : Type 0)
    (operands : Operands lx R) (lawful : LawfulOperands strings lx law R operands) where
  -- With fuel for the source that is left ExpressionL either leaves or returns a type with code
  -- appended that is well typed and pushes one value of that type; the operator stack is as it
  -- was. It never indexes outside its tables or stacks, and never runs out of fuel. The lexer and
  -- the operands keep their laws; where an operand may be a string there is no percent sign.
  pub expression-Extends :
      (fuel : ℕ) (p : Parser lx.State R)
      → law.size p.lexer < fuel
      → Leaves (λ r. Extends lx strings law.size p r.0 r.1) (expression lx R operands fuel p)
  unfolding expression stack_operator
  expression-Extends fuel p m =
      expression_from-Ended strings lx law R operands lawful p.code p.operator_stack fuel
        (stack_operator lx R operands Operator.start_of_expression word (start_state, p)) m
        (inl (refl, inl (refl, refl, refl)))

  -- Under the same conditions ExpressionL with a type either leaves or appends code that is well
  -- typed and pushes one value of that type, a cast at its end where one is needed; the operator
  -- stack is as it was.
  pub expression_of-Extends :
      (fuel : ℕ) (type : OplType) (p : Parser lx.State R)
      → law.size p.lexer < fuel
      → Leaves
          (λ p'.
            (p'.operator_stack ≡ p.operator_stack)
            × ((seg : List (Pcode R)) × (p'.code ≡ p.code ++ seg) × Pushes seg type))
          (expression_of lx R operands fuel type p)
  unfolding expression_of
  expression_of-Extends fuel type p m =
      Leaves-bind _ (expression lx R operands fuel p) _ (expression-Extends fuel p m) λ r e.
        let (seg, c, pushes, _) = e.1 in
        let (seg', c', pushes') = cast-Pushes p.code seg r.0 type pushes in
        (e.0, (seg', rw (c) c', pushes'))
