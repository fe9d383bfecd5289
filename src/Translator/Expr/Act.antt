-- ===== src/Translator/Expr/Act.antt =====
-- oplt/stran/OT_EXPR.CPP, ActOnOperatorL: every action of the table keeps the invariant, and the
-- rounds end.
use mathlib.Core.Path.{subst}
use mathlib.Core.List.{append_assoc}
use opl_dev.Prelude.{
  ℕ, zero, suc, ◌<◌, List, [], ◌∷◌, ◌++◌, ◌≡◌, refl, sym, ap, ◌∙◌, Bool, true, false, ◌&&◌, ◌||◌,
  length, ◌==◌, some, if◌then◌else◌, ◌⊎◌, inl, inr, arith,
}
use opl_dev.Prelude.Outcome.{Outcome, ok, Leaves, Leaves-bind}
use opl_dev.Translator.Token.{OplType, Operator, number}
use opl_dev.Translator.Pcode.{Pcode, apply, unary}
use opl_dev.Translator.Expr.{
  StackedOperator, EvaluatorState, Lexer, Operands, top, drop, output_operator, reduce_to_bracket,
  drop_top, close, percent_top, perform, act, act_on_operator, stack_operator,
}
use opl_dev.Translator.Expr.Table.{Action, column}
use opl_dev.Translator.Expr.Table.Facts.{
  is_start, is_infix, is_sign, is_bracket, is_end, has_percent, permitted, can_be_read, can_wait,
  action-permitted, column_total,
}
use opl_dev.Translator.Expr.Typing.{Pushes-unary, signature}
use opl_dev.Translator.Expr.Output.{is_operand, Grown}
use opl_dev.Translator.Expr.Pending.{
  Pending, Holding, Pending-can_wait, parser, Reduced, After, output_operator-Reduced,
  percent_top-Reduced, reduce_to_bracket-AtBracket,
}

and_elim : (a b : Bool) → (a && b) ≡ true → (a ≡ true) × (b ≡ true)
and_elim a b h = ground arith

not_elim : (a : Bool) → (if a then false else true) ≡ true → a ≡ false
not_elim a h = ground arith

-- What an action says of the operators, where an operand is due and where an operator is due.
module _ (top cur : Operator) where
  stack_due :
      (seen : Bool)
      → permitted Action.stack top cur seen ≡ true
      → seen ≡ true
      → (is_end cur ≡ false) × ((is_sign cur || is_bracket cur) ≡ true)
  stack_due true h e = ground arith
  stack_due false h e = cc

  stack_held :
      (seen : Bool)
      → permitted Action.stack top cur seen ≡ true
      → seen ≡ false
      → (is_end cur ≡ false) × (is_infix cur ≡ true)
  stack_held true h e = cc
  stack_held false h e = ground arith

  accept_held :
      (seen : Bool)
      → permitted Action.accept top cur seen ≡ true
      → (seen ≡ false) × (is_start top ≡ true)
  accept_held seen h = ground arith

  reduce_held :
      (seen : Bool)
      → permitted Action.reduce top cur seen ≡ true
      → (seen ≡ false) × ((is_infix top || is_sign top) ≡ true)
  reduce_held true h = cc
  reduce_held false h = (refl, h)

  close_held :
      (seen : Bool)
      → permitted Action.reduce_to_open_bracket top cur seen ≡ true
      → (seen ≡ false) × (is_end cur ≡ false)
  close_held true h = cc
  close_held false h = ground arith

  percent_held :
      (seen : Bool)
      → permitted Action.percent top cur seen ≡ true
      → (seen ≡ false)
        × (has_percent top ≡ true)
        × (is_end cur ≡ false)
        × ((number cur == 16) ≡ true)
  percent_held true h = cc
  percent_held false h = ground arith

  drop_any :
      (seen : Bool)
      → permitted Action.drop top cur seen ≡ true
      → (is_end cur ≡ false) × (is_sign top ≡ true)
  drop_any seen h = ground arith

no_strings :
    (strings percent : Bool) → (strings && percent) ≡ false → percent ≡ true → strings ≡ false
no_strings strings percent h k = ground arith

clash : {A : Type 0} (b : Bool) → b ≡ true → b ≡ false → A
clash b h k = cc

start_prefix : (op : Operator) → is_start op ≡ true → (is_sign op || is_bracket op) ≡ true → ⊥
start_prefix op h k = ground arith

start_infix : (op : Operator) → is_start op ≡ true → is_infix op ≡ true → ⊥
start_infix op h k = ground arith

prefix_infix : (op : Operator) → (is_sign op || is_bracket op) ≡ true → is_infix op ≡ true → ⊥
prefix_infix op h k = ground arith

sign_prefix : (op : Operator) → is_sign op ≡ true → (is_sign op || is_bracket op) ≡ true
sign_prefix op h = ground arith

bracket_prefix : (op : Operator) → is_bracket op ≡ true → (is_sign op || is_bracket op) ≡ true
bracket_prefix op h = ground arith

signature_bracket :
    (strings : Bool) (t : OplType)
    → is_operand strings t ≡ true
    → signature Operator.close_bracket unary t ≡ some t
unfolding signature
signature_bracket strings t h = ground arith

drop_lem :
    (ops : List StackedOperator) {e : StackedOperator} {es : List StackedOperator}
    → ops ≡ e ∷ es
    → drop ops ≡ ok es
unfolding drop
drop_lem ops h = rw h

module _ {R : Type 0} (strings : Bool) (base : List (Pcode R)) (outer : List StackedOperator) where
  at_start :
      (e : StackedOperator) (es : List StackedOperator) (code : List (Pcode R))
      → Pending strings base outer (e ∷ es) code
      → is_start e.operator ≡ true
      → (es ≡ outer) × (code ≡ base)
  at_start e es code (inl (_, o, b)) s = (o, b)
  at_start e es code (inr (inl (p, _))) s = absurd (start_prefix e.operator s p)
  at_start e es code (inr (inr (_, _, i, _, _, _, _, _))) s = absurd (start_infix e.operator s i)

  under_prefix :
      (e : StackedOperator) (es : List StackedOperator) (code : List (Pcode R))
      → Pending strings base outer (e ∷ es) code
      → (is_sign e.operator || is_bracket e.operator) ≡ true
      → Pending strings base outer es code
  under_prefix e es code (inl (s, _, _)) p = absurd (start_prefix e.operator s p)
  under_prefix e es code (inr (inl (_, pending))) p = pending
  under_prefix e es code (inr (inr (_, _, i, _, _, _, _, _))) p =
      absurd (prefix_infix e.operator p i)

module _ (lx : Lexer) (R : Type 0) (operands : Operands lx R) (strings : Bool)
    (base : List (Pcode R)) (outer : List StackedOperator) where
  -- Where an operand is due the operators wait for it; where an operator is due the operand is
  -- there.
  abbrev pub Ready : EvaluatorState → List StackedOperator → List (Pcode R) → Type 0
  Ready st ops code =
      ((st.operator_seen ≡ true) × Pending strings base outer ops code)
      ⊎ ((st.operator_seen ≡ false) × Holding strings base outer st.type ops code)

  -- The expression is accepted, with its code behind `base` and the stack as it was; or it goes on.
  abbrev pub Acted : Operator → lx.State → Bool × After lx R → Type 0
  Acted cur l (true, (st, p)) =
      (p.operator_stack ≡ outer) × Grown strings base (st.type, p.code) × (p.lexer ≡ l)
  Acted cur l (false, (st, p)) =
      (is_end cur ≡ false) × Ready st p.operator_stack p.code × (p.lexer ≡ l)

  close-Ready :
      (st : EvaluatorState) (ops : List StackedOperator) (code : List (Pcode R)) (l : lx.State)
      → Holding strings base outer st.type ops code
      → Leaves
          (λ s. Ready s.0 s.1.operator_stack s.1.code × (s.1.lexer ≡ l))
          (close lx R operands (st, parser ops code l))
  unfolding close drop_top
  close-Ready st ops code l h =
      Leaves-bind (λ s. Ready s.0 s.1.operator_stack s.1.code × (s.1.lexer ≡ l))
        (reduce_to_bracket lx R operands (suc (length ops)) (st, parser ops code l)) _
        (reduce_to_bracket-AtBracket lx R operands strings base outer (suc (length ops)) st ops code
          l (omega arith) h)
        λ s r.
          let (e, es, eq, br, (before, seg, c, hp, o, pending), lexer) = r in
          rw (drop_lem s.1.operator_stack eq) (
            inr (
              refl,
              (
                before,
                seg ++ apply s.0.type s.0.type unary Operator.close_bracket ∷ [],
                rw c (append_assoc before seg _),
                Pushes-unary seg _ _ _ hp (signature_bracket strings s.0.type o),
                o,
                under_prefix strings base outer e es before pending (bracket_prefix e.operator br),
              ),
            ),
            lexer,
          )

  perform-Acted :
      (a : Action) (again : After lx R → Outcome (Bool × After lx R)) (st : EvaluatorState)
      (e : StackedOperator) (es : List StackedOperator) (code : List (Pcode R)) (l : lx.State)
      → Ready st (e ∷ es) code
      → permitted a e.operator st.operator st.operator_seen ≡ true
      → (strings && (number st.operator == 16)) ≡ false
      → ((s : After lx R)
          → Reduced lx R operands strings base outer st l es s
          → (st.operator_seen ≡ false)
          → Leaves (Acted st.operator l) (again s))
      → Leaves (Acted st.operator l) (perform lx R operands a again (st, parser (e ∷ es) code l))
  unfolding perform stack_operator drop_top drop
  perform-Acted Action.error again st e es code l r ok_ np k = tt
  perform-Acted Action.missing_bracket again st e es code l r ok_ np k = tt
  perform-Acted Action.stack again st e es code l (inl (seen, pending)) ok_ np k =
      let (n, p) = stack_due e.operator st.operator st.operator_seen ok_ seen in
      (n, inl (refl, inr (inl (p, pending))), refl)
  perform-Acted Action.stack again st e es code l (inr (seen, h)) ok_ np k =
      let (n, i) = stack_held e.operator st.operator st.operator_seen ok_ seen in
      let (before, seg, c, hp, o, pending) = h in
      (n, inl (refl, inr (inr (before, seg, i, c, hp, o, ap length c, pending))), refl)
  perform-Acted Action.accept again st e es code l (inl (seen, pending)) ok_ np k =
      clash st.operator_seen seen (accept_held e.operator st.operator st.operator_seen ok_).0
  perform-Acted Action.accept again st e es code l (inr (seen, h)) ok_ np k =
      let (_, s) = accept_held e.operator st.operator st.operator_seen ok_ in
      let (before, seg, c, hp, o, pending) = h in
      let (eo, cb) = at_start strings base outer e es before pending s in
      (eo, (seg, rw (← cb) c, hp, o), refl)
  perform-Acted Action.reduce again st e es code l (inl (seen, pending)) ok_ np k =
      clash st.operator_seen seen (reduce_held e.operator st.operator st.operator_seen ok_).0
  perform-Acted Action.reduce again st e es code l (inr (seen, h)) ok_ np k =
      let (_, red) = reduce_held e.operator st.operator st.operator_seen ok_ in
      Leaves-bind (Acted st.operator l) (output_operator lx R operands (st, parser (e ∷ es) code l))
        again (output_operator-Reduced lx R operands strings base outer st e es code l red h)
        (λ s r. k s r seen)
  perform-Acted Action.percent again st e es code l (inl (seen, pending)) ok_ np k =
      clash st.operator_seen seen (percent_held e.operator st.operator st.operator_seen ok_).0
  perform-Acted Action.percent again st e es code l (inr (seen, h)) ok_ np k =
      let (_, pc, n, is_perc) = percent_held e.operator st.operator st.operator_seen ok_ in
      Leaves-bind (Acted st.operator l) (percent_top lx R operands (st, parser (e ∷ es) code l)) _
        (percent_top-Reduced lx R operands strings base outer st e es code l pc
          (no_strings strings _ np is_perc) h)
        (λ s r. (
          n,
          inr (
            r.4 ∙ seen,
            subst (λ ops. Holding strings base outer s.0.type ops s.1.code) (sym r.1) r.0,
          ),
          r.2,
        ))
  perform-Acted Action.reduce_to_open_bracket again st e es code l (inl (seen, pending)) ok_ np k =
      clash st.operator_seen seen (close_held e.operator st.operator st.operator_seen ok_).0
  perform-Acted Action.reduce_to_open_bracket again st e es code l (inr (seen, h)) ok_ np k =
      let (_, n) = close_held e.operator st.operator st.operator_seen ok_ in
      Leaves-bind (Acted st.operator l) (close lx R operands (st, parser (e ∷ es) code l)) _
        (close-Ready st (e ∷ es) code l h) (λ s r. (n, r.0, r.1))
  perform-Acted Action.drop again st e es code l (inl (seen, pending)) ok_ np k =
      let (n, s) = drop_any e.operator st.operator st.operator_seen ok_ in
      (
        n,
        inl (seen, under_prefix strings base outer e es code pending (sign_prefix e.operator s)),
        refl,
      )
  perform-Acted Action.drop again st e es code l (inr (seen, h)) ok_ np k =
      let (n, s) = drop_any e.operator st.operator st.operator_seen ok_ in
      let (before, seg, c, hp, o, pending) = h in
      (
        n,
        inr (
          seen,
          (
            before,
            seg,
            c,
            hp,
            o,
            under_prefix strings base outer e es before pending (sign_prefix e.operator s),
          ),
        ),
        refl,
      )

  -- Ready is kept when operators were put out while an operator is due.
  Reduced-Ready :
      (st : EvaluatorState) (l : lx.State) (es : List StackedOperator) (s : After lx R)
      → Reduced lx R operands strings base outer st l es s
      → st.operator_seen ≡ false
      → Ready s.0 s.1.operator_stack s.1.code
  Reduced-Ready st l es s r seen =
      inr
        (r.4 ∙ seen, subst (λ ops. Holding strings base outer s.0.type ops s.1.code) (sym r.1) r.0)

  top_waits :
      (st : EvaluatorState) (e : StackedOperator) (es : List StackedOperator)
      (code : List (Pcode R))
      → Ready st (e ∷ es) code
      → can_wait e.operator ≡ true
  top_waits st e es code (inl (_, p)) = Pending-can_wait strings base outer e es code p
  top_waits st e es code (inr (_, h)) = Pending-can_wait strings base outer e es h.0 h.5

  not_empty : (st : EvaluatorState) (code : List (Pcode R)) → Ready st [] code → ⊥
  not_empty st code (inl (_, p)) = p
  not_empty st code (inr (_, h)) = h.5

  act-Acted :
      (fuel col : ℕ) (st : EvaluatorState) (ops : List StackedOperator) (code : List (Pcode R))
      (l : lx.State)
      → length ops < fuel
      → Ready st ops code
      → column st.operator ≡ ok col
      → can_be_read st.operator ≡ true
      → (strings && (number st.operator == 16)) ≡ false
      → Leaves (Acted st.operator l) (act lx R operands fuel col (st, parser ops code l))
  unfolding act top
  act-Acted zero col st ops code l m r c read np = absurd (omega arith)
  act-Acted (suc fuel) col st [] code l m r c read np = absurd (not_empty st code r)
  act-Acted (suc fuel) col st (e ∷ es) code l m r c read np =
      let shorter : length es < fuel = omega arith in
      let (a, eq, ok_) =
        action-permitted e.operator st.operator (top_waits st e es code r) read col st.operator_seen
          c in
      rw eq (
        perform-Acted a (act lx R operands fuel col) st e es code l r ok_ np λ s red seen.
          subst (λ op. Leaves (Acted op l) (act lx R operands fuel col s)) red.3
            (subst (λ k. Leaves (Acted s.0.operator k) (act lx R operands fuel col s)) red.2
              (act-Acted fuel col s.0 s.1.operator_stack s.1.code s.1.lexer
                (subst (λ ops. length ops < fuel) (sym red.1) shorter)
                (Reduced-Ready st l es s red seen) (ap column red.3 ∙ c)
                (ap can_be_read red.3 ∙ read)
                (ap (λ op. strings && (number op == 16)) red.3 ∙ np))))

  pub act_on_operator-Acted :
      (s : After lx R)
      → Ready s.0 s.1.operator_stack s.1.code
      → can_be_read s.0.operator ≡ true
      → (strings && (number s.0.operator == 16)) ≡ false
      → Leaves (Acted s.0.operator s.1.lexer) (act_on_operator lx R operands s)
  unfolding act_on_operator
  act_on_operator-Acted s r read np =
      let (c, eq) = column_total s.0.operator read in
      rw eq (
        act-Acted (suc (length s.1.operator_stack)) c s.0 s.1.operator_stack s.1.code s.1.lexer
          (omega arith) r eq read np)
