-- ===== src/Translator/Structure/Parse.antt =====
-- oplt/stran/OT_STRUC.CPP, StructureL, and oplt/stran/OT_PARSE.CPP, StatementListL.
use opl_dev.Prelude.{ℕ, zero, suc, ◌-◌, List, Bool, true, false, ltb, ◌==◌, if◌then◌else◌}
use opl_dev.Prelude.Outcome.{
  Outcome, ok, leave, spent, ◌>>=◌, syntax, structure_fault, missing_label, missing_comma,
  unexpected_eof,
}
use opl_dev.Translator.Token.{
  word, real, rank, Token, operator, identifier, punctuation, Identifier, Punctuation, keyword,
  structure, reserved,
}
use opl_dev.Translator.Expr.{expression_of}
use opl_dev.Translator.Structure.{
  BranchKind, BranchWord, Front, Module, ReservedWord, StructureWord, break_branch, break_word,
  conditional_expression, continue_branch, continue_word, define_label, do_branch_always, do_word,
  else_if, else_word, end_if, end_v, end_vector, end_wh, eos_l, exit_branch, expression_part,
  false_branch, if_word, is_eos, need_branch, next, other_keyword_word, goto_word, branch_always,
  p_code, restore_branches, save_branches, set_branch, skip_blank_lines, statement, until_word,
  vector, vector_label, vector_word, while_word, with_expression,
}

module _ (fr : Front) where
  -- What LabelReferenceL writes for a token, its label; what else is no label.
  unfoldable pub label_reference : Token → Module fr → Outcome (List ℕ)
  label_reference (identifier Identifier.label) m = ok (fr.words.name m.lexer)
  label_reference (identifier Identifier.simple) m =
      if rank (fr.lexer.type m.lexer) == rank real
      then ok (fr.words.name m.lexer)
      else leave missing_label
  label_reference t m = leave missing_label

  -- The label lines of a VECTOR, from the token of a label on, on fuel for the labels
  unfoldable pub label_lines : ℕ → Token → Module fr → Outcome (Module fr)
  unfolding label_reference p_code next skip_blank_lines
  label_lines zero token m = spent
  label_lines (suc fuel) token m = do
    name ← label_reference token m
    (after, m₁) ← next fr (p_code fr (vector_label name) m)
    elim after [
      | punctuation Punctuation.eos ↦ (do
        (token', m₂) ← skip_blank_lines fr fuel m₁
        let rest = label_lines fuel token' m₂
        elim token' [
          | reserved ↦ elim (fr.words.reserved_word m₂.lexer) [ end_v ↦ ok m₂ | w ↦ rest ]
          | t ↦ rest
        ])
      | punctuation Punctuation.comma ↦ (do (token', m₂) ← next fr m₁; label_lines fuel token' m₂)
      | t ↦ leave missing_comma
    ]

  -- The case of EVector
  unfoldable pub vector_structure : ℕ → Module fr → Outcome (Module fr)
  unfolding expression_of eos_l p_code skip_blank_lines label_lines
  vector_structure fuel m = do
    p ← expression_of fr.lexer fr.Reals fr.operands fuel word (expression_part fr m)
    m₁ ← eos_l fr (with_expression fr p m)
    (token, m₂) ← skip_blank_lines fr fuel (p_code fr vector m₁)
    m₃ ← label_lines fuel token m₂
    ok (p_code fr end_vector m₃)

  -- `EnterLoop` with the branches of a loop, and `LeaveLoop`
  unfoldable pub enter_loop : Module fr → Module fr
  unfolding need_branch
  enter_loop m = need_branch fr false_branch (
      need_branch fr break_branch (
        need_branch fr continue_branch
          (record m { branches = record m.branches { loop = suc m.branches.loop } })))

  abbrev pub leave_loop : Module fr → Module fr
  leave_loop m = record m { branches = record m.branches { loop = m.branches.loop - 1 } }

  -- What the loop of EIf writes behind a body: the branch to the exit, where one is due
  abbrev pub after_body : ReservedWord → Module fr → Module fr
  after_body end_if m = m
  after_body w m = do_branch_always fr exit_branch m

  module _ (body : Module fr → Outcome (ReservedWord × Module fr)) where
    -- The cases of EDo and EWhile, with `body` for StatementListL
    unfoldable pub do_structure : ℕ → Module fr → Outcome (Module fr)
    unfolding enter_loop set_branch conditional_expression
    do_structure fuel m = do
      m₁ ← set_branch fr false_branch (enter_loop m)
      (end, m₂) ← body m₁
      elim end [
        | until_word ↦ (do
          m₃ ← set_branch fr continue_branch m₂
          m₄ ← conditional_expression fr fuel m₃
          m₅ ← set_branch fr break_branch m₄
          ok (leave_loop m₅))
        | w ↦ leave structure_fault
      ]

    unfoldable pub while_structure : ℕ → Module fr → Outcome (Module fr)
    unfolding enter_loop set_branch conditional_expression do_branch_always
    while_structure fuel m = do
      m₁ ← set_branch fr continue_branch (enter_loop m)
      m₂ ← conditional_expression fr fuel m₁
      (end, m₃) ← body m₂
      elim end [
        | end_wh ↦ (do
          m₄ ← set_branch fr break_branch (do_branch_always fr continue_branch m₃)
          m₅ ← set_branch fr false_branch m₄
          ok (leave_loop m₅))
        | w ↦ leave structure_fault
      ]

    -- The loop of EIf over the if-bodies, on fuel for them
    unfoldable pub if_bodies : ℕ → Module fr → Outcome (ReservedWord × Module fr)
    unfolding need_branch conditional_expression eos_l do_branch_always set_branch
    if_bodies zero m = spent
    if_bodies (suc fuel) m = do
      m₁ ← conditional_expression fr (suc fuel) (need_branch fr false_branch m)
      m₂ ← eos_l fr m₁
      (end, m₃) ← body m₂
      m₅ ← set_branch fr false_branch (after_body end m₃)
      let rest = if_bodies fuel m₅
      elim end [ else_if ↦ rest | w ↦ ok (w, m₅) ]

    -- `StatementListL` behind ELSE
    abbrev pub else_part : ReservedWord → Module fr → Outcome (ReservedWord × Module fr)
    else_part else_word m = body m
    else_part w m = ok (w, m)

    -- The case of EIf
    unfoldable pub if_structure : ℕ → Module fr → Outcome (Module fr)
    unfolding need_branch if_bodies set_branch
    if_structure fuel m = do
      (end, m₁) ← if_bodies fuel (need_branch fr exit_branch m)
      (last, m₂) ← else_part end m₁
      elim last [ end_if ↦ set_branch fr exit_branch m₂ | w ↦ leave structure_fault ]

    unfoldable pub one_structure : ℕ → StructureWord → Module fr → Outcome (Module fr)
    unfolding vector_structure do_structure while_structure if_structure
    one_structure fuel vector_word m = vector_structure fuel m
    one_structure fuel do_word m = do_structure fuel m
    one_structure fuel while_word m = while_structure fuel m
    one_structure fuel if_word m = if_structure fuel m

    -- `StructureL`
    unfoldable pub structure_l : ℕ → StructureWord → Module fr → Outcome (Module fr)
    unfolding save_branches one_structure restore_branches
    structure_l fuel w m = do
      saved ← save_branches m.branches
      m₁ ← one_structure fuel w (record m { branches = saved })
      ok (record m₁ { branches = restore_branches m.branches m₁.branches })

  -- KeywordStatementL at BREAK and CONTINUE
  unfoldable pub loop_statement : BranchKind → Module fr → Outcome (Module fr)
  unfolding do_branch_always
  loop_statement k m =
      if ltb 0 m.branches.loop then ok (do_branch_always fr k m) else leave structure_fault

  -- KeywordStatementL at GOTO: EBranchAlways with the label that LabelReferenceL writes behind it
  unfoldable pub goto_statement : Module fr → Outcome (Module fr)
  unfolding next label_reference p_code
  goto_statement m = do
    (token, m₁) ← next fr m
    name ← label_reference token m₁
    ok (p_code fr (branch_always name) m₁)

  unfoldable pub keyword_statement : BranchWord → Module fr → Outcome (Module fr)
  unfolding loop_statement goto_statement
  keyword_statement break_word m = loop_statement break_branch m
  keyword_statement continue_word m = loop_statement continue_branch m
  keyword_statement goto_word m = goto_statement m
  keyword_statement other_keyword_word m = fr.statements.other_keyword m

  -- The switch of StatementListL, behind EStatement: true where the loop goes on at once, without
  -- EosL. `body` is StatementListL.
  unfoldable pub one_statement :
      (Module fr → Outcome (ReservedWord × Module fr))
      → ℕ
      → Token
      → Module fr
      → Outcome (Bool × Module fr)
  unfolding keyword_statement structure_l
  one_statement body fuel (operator op) m = leave syntax
  one_statement body fuel (punctuation Punctuation.eof) m = leave unexpected_eof
  one_statement body fuel (punctuation mark) m =
      if is_eos (punctuation mark) then ok (true, m) else leave syntax
  one_statement body fuel (identifier i) m = do
    m₁ ← fr.statements.identifier_statement i m
    ok (false, m₁)
  one_statement body fuel keyword m = do
    m₁ ← keyword_statement (fr.words.branch_word m.lexer) m
    ok (false, m₁)
  one_statement body fuel (Token.call c) m = do
    m₁ ← fr.statements.call_statement c m
    ok (false, m₁)
  one_statement body fuel structure m = do
    m₁ ← structure_l body fuel (fr.words.structure_word m.lexer) m
    ok (false, record m₁ { last_was_return = false })
  one_statement body fuel reserved m = ok (false, m)

  -- A round of StatementListL at a token: `loop` is the next one, `body` a list within.
  unfoldable pub round :
      (Module fr → Outcome (ReservedWord × Module fr))
      → (Module fr → Outcome (ReservedWord × Module fr))
      → ℕ
      → Token
      → Module fr
      → Outcome (ReservedWord × Module fr)
  unfolding define_label p_code one_statement eos_l
  round loop body fuel (identifier Identifier.label) m =
      define_label fr (fr.words.name m.lexer) m >>= loop
  round loop body fuel reserved m = ok (fr.words.reserved_word m.lexer, m)
  round loop body fuel token m = do
    (again, m₁) ←
        one_statement body fuel token (p_code fr statement (record m { last_was_return = false }))
    m₂ ← if again then ok m₁ else eos_l fr m₁
    loop m₂

  -- The rounds of StatementListL, on fuel for them
  unfoldable pub statements_from : ℕ → Module fr → Outcome (ReservedWord × Module fr)
  unfolding next round
  statements_from zero m = spent
  statements_from (suc fuel) m = do
    (token, m₁) ← next fr m
    round (statements_from fuel) (λ m. statements_from fuel (record m { last_was_return = false }))
        fuel token m₁

  -- `StatementListL`
  unfoldable pub statement_list : ℕ → Module fr → Outcome (ReservedWord × Module fr)
  unfolding statements_from
  statement_list fuel m = statements_from fuel (record m { last_was_return = false })
