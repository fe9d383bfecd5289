-- ===== src/Translator/Structure.antt =====
-- oplt/stran/OT_STRUC.CPP, the IF, DO, WHILE and VECTOR structures, with the statement list of
-- oplt/stran/OT_PARSE.CPP that they nest in. A label's symbol is found by its name, which stands
-- for it: `labels` holds the names of those that are defined.
pub mod Parse
pub mod Names
pub mod Segments
pub mod Runs
pub mod Steps
pub mod Pieces
pub mod Loops
pub mod Ifs
pub mod Exits
pub mod Vector
pub mod OneStatement
pub mod Sound
use opl_dev.Prelude.{
  ℕ, zero, suc, ◌+◌, ◌-◌, ◌*◌, ◌/◌, ◌%◌, List, [], ◌∷◌, ◌++◌, Bool, true, false, ◌||◌, ltb, ◌==◌,
  if◌then◌else◌,
}
use opl_dev.Prelude.Int.{pos}
use opl_dev.Prelude.Outcome.{
  LeaveCode, Outcome, ok, leave, spent, ◌>>=◌, syntax, type_mismatch, mismatched_bracket,
  duplicate_name, too_complex, structure_fault, missing_label, missing_comma, unexpected_eof,
}
use opl_dev.Translator.Token.{
  OplType, word, long, real, string, rank, not_equal, Token, operator, identifier, punctuation,
  Identifier, Punctuation, Callable, keyword, structure, reserved, long_value, real_value,
  open_bracket, close_bracket,
}
use opl_dev.Translator.Pcode.{Pcode, push_constant, apply, binary}
use opl_dev.Translator.Expr.{StackedOperator, Parser, Lexer, Operands, expression, expression_of}
use opl_dev.Runtime.Globals.{same_name}

-- The values of class EStructure.
pub data StructureWord : Type 0 where
  do_word while_word if_word vector_word : StructureWord

-- The values of class EReserved that end a statement list, and the others.
pub data ReservedWord : Type 0 where
  until_word end_wh else_word else_if end_if end_v other_word : ReservedWord

-- Of the keywords, those that KeywordStatementL makes EBranchAlways of, and the others.
pub data BranchWord : Type 0 where
  break_word continue_word goto_word other_keyword_word : BranchWord

-- `TBranches::TBranch`
pub data BranchKind : Type 0 where
  false_branch break_branch continue_branch exit_branch : BranchKind

-- `TBranches`. The array iBranches is a member for each kind.
pub record Branches : Type 0 where
  pub loop : ℕ
  pub depth : ℕ
  pub next_branch : ℕ
  pub false_at : ℕ
  pub break_at : ℕ
  pub continue_at : ℕ
  pub exit_at : ℕ

-- The parse code of a procedure's statements: those of an expression, and by their TPcode::TCode
-- the labels, the branches and the parts of a VECTOR. `other` is an instruction of another kind.
pub data ModuleCode (R : Type 0) : Type 0 where
  evaluate : Pcode R → ModuleCode R
  statement vector end_vector : ModuleCode R
  label branch_false branch_always vector_label : List ℕ → ModuleCode R
  other : ℕ → ModuleCode R

-- What of COplModuleParser a statement changes
pub record ModuleParser (L R : Type 0) : Type 0 where
  pub operator_stack : List StackedOperator
  pub code : List (ModuleCode R)
  pub lexer : L
  pub branches : Branches
  pub labels : List (List ℕ)
  pub last_was_return : Bool

-- What a module's lexer says of the token that it gave last.
pub record Words (lx : Lexer) : Type 0 where
  pub structure_word : lx.State → StructureWord
  pub reserved_word : lx.State → ReservedWord
  pub branch_word : lx.State → BranchWord
  pub name : lx.State → List ℕ

-- The statements that are no structure: IdentifierStatementL, CallStatementL, and what
-- KeywordStatementL does for a keyword other than BREAK, CONTINUE and GOTO.
pub record Statements (lx : Lexer) (R : Type 0) : Type 0 where
  pub identifier_statement :
      Identifier → ModuleParser lx.State R → Outcome (ModuleParser lx.State R)
  pub call_statement : Callable → ModuleParser lx.State R → Outcome (ModuleParser lx.State R)
  pub other_keyword : ModuleParser lx.State R → Outcome (ModuleParser lx.State R)

-- What ProcL's FillZ makes of them
abbrev pub no_branches : Branches
no_branches = record {
  loop = 0;
  depth = 0;
  next_branch = 0;
  false_at = 0;
  break_at = 0;
  continue_at = 0;
  exit_at = 0;
}

-- `TBranches::Branch`
abbrev pub branch : BranchKind → Branches → ℕ
branch false_branch b = b.false_at
branch break_branch b = b.break_at
branch continue_branch b = b.continue_at
branch exit_branch b = b.exit_at

abbrev pub set_branch_number : BranchKind → ℕ → Branches → Branches
set_branch_number false_branch n b = record b { false_at = n }
set_branch_number break_branch n b = record b { break_at = n }
set_branch_number continue_branch n b = record b { continue_at = n }
set_branch_number exit_branch n b = record b { exit_at = n }

-- `TBranches::NewBranch`, NeedBranch
unfoldable pub new_branch : BranchKind → Branches → Branches
new_branch k b =
    set_branch_number k b.next_branch
      (record b { next_branch = (b.next_branch + 1) % 0x1_0000_0000 })

-- `TBranches::SaveBranchesL`; what it saves is the state that the caller has.
unfoldable pub save_branches : Branches → Outcome Branches
save_branches b =
    if ltb 8 (suc b.depth) then leave too_complex else ok (record b { depth = suc b.depth })

-- `TBranches::RestoreBranches`
unfoldable pub restore_branches : Branches → Branches → Branches
restore_branches old b = record b {
  depth = b.depth - 1;
  false_at = old.false_at;
  break_at = old.break_at;
  continue_at = old.continue_at;
  exit_at = old.exit_at;
}

-- The loop of BranchName, on fuel: 16 rounds of `>>=2` take any 32 bits to 0.
abbrev pub digits : ℕ → ℕ → List ℕ
digits zero n = []
digits (suc fuel) n = let rest = digits fuel (n / 4) in if n == 0 then [] else n % 16 ∷ rest

-- `BranchName`, of a branch's number
unfoldable pub branch_name : ℕ → List ℕ
branch_name n = 0x2e ∷ digits 16 n

-- Whether a name is among those that are defined: IsDefined of its label
abbrev pub is_among : List ℕ → List (List ℕ) → Bool
is_among name [] = false
is_among name (l ∷ ls) = let rest = is_among name ls in same_name l name || rest

abbrev pub each_evaluate : {R : Type 0} → List (Pcode R) → List (ModuleCode R)
each_evaluate [] = []
each_evaluate (p ∷ ps) = evaluate p ∷ each_evaluate ps

-- `IsEos`
abbrev pub is_eos : Token → Bool
is_eos (punctuation Punctuation.eos) = true
is_eos (punctuation Punctuation.colon) = true
is_eos t = false

-- What EosL leaves with
abbrev pub eos_fault : Token → LeaveCode
eos_fault (operator open_bracket) = mismatched_bracket
eos_fault (operator close_bracket) = mismatched_bracket
eos_fault t = syntax

-- The parts of the translator that the statements are made of. `zero_real` is `TReal64(0.0)`.
pub record Front : Type 1 where
  pub lexer : Lexer
  pub Reals : Type 0
  pub zero_real : Reals
  pub operands : Operands lexer Reals
  pub words : Words lexer
  pub statements : Statements lexer Reals

module _ (fr : Front) where
  abbrev pub Module : Type 0
  Module = ModuleParser fr.lexer.State fr.Reals

  -- `PCodeL`, with what is written behind the code
  unfoldable pub p_code : ModuleCode fr.Reals → Module → Module
  p_code c m = record m { code = m.code ++ c ∷ [] }

  -- `NextL`
  unfoldable pub next : Module → Outcome (Token × Module)
  next m = do (token, l) ← fr.lexer.lex m.lexer; ok (token, record m { lexer = l })

  -- `EosL`
  unfoldable pub eos_l : Module → Outcome Module
  unfolding next
  eos_l m = do (token, m₁) ← next m; if is_eos token then ok m₁ else leave (eos_fault token)

  -- `SkipBlankLinesL`, on fuel for its rounds
  unfoldable pub skip_blank_lines : ℕ → Module → Outcome (Token × Module)
  unfolding next
  skip_blank_lines zero m = spent
  skip_blank_lines (suc fuel) m = do
    (token, m₁) ← next m
    let rest = skip_blank_lines fuel m₁
    if is_eos token then rest else ok (token, m₁)

  -- `DefineLabelL`
  unfoldable pub define_label : List ℕ → Module → Outcome Module
  unfolding p_code
  define_label name m =
      if is_among name m.labels
      then leave duplicate_name
      else ok (p_code (label name) (record m { labels = name ∷ m.labels }))

  -- `NeedBranch`
  unfoldable pub need_branch : BranchKind → Module → Module
  unfolding new_branch
  need_branch k m = record m { branches = new_branch k m.branches }

  -- `SetBranchL`
  unfoldable pub set_branch : BranchKind → Module → Outcome Module
  unfolding define_label branch_name
  set_branch k m = define_label (branch_name (branch k m.branches)) m

  -- `DoBranchL` with EBranchFalse, and with EBranchAlways
  unfoldable pub do_branch_false : BranchKind → Module → Module
  unfolding p_code branch_name
  do_branch_false k m = p_code (branch_false (branch_name (branch k m.branches))) m

  unfoldable pub do_branch_always : BranchKind → Module → Module
  unfolding p_code branch_name
  do_branch_always k m = p_code (branch_always (branch_name (branch k m.branches))) m

  -- The expression's own part of the parser; its code is written behind what is there.
  abbrev pub expression_part : Module → Parser fr.lexer.State fr.Reals
  expression_part m = record { operator_stack = m.operator_stack; code = []; lexer = m.lexer }

  abbrev pub with_expression : Parser fr.lexer.State fr.Reals → Module → Module
  with_expression p m = record m {
    operator_stack = p.operator_stack;
    code = m.code ++ each_evaluate p.code;
    lexer = p.lexer;
  }

  -- What ConditionalExpressionL writes behind an expression that is no word: a comparison with 0.
  abbrev pub test_code : OplType → List (ModuleCode fr.Reals)
  test_code word = []
  test_code long =
      evaluate (push_constant (long_value (pos 0)))
      ∷ evaluate (apply long word binary not_equal)
      ∷ []
  test_code type =
      evaluate (push_constant (real_value fr.zero_real))
      ∷ evaluate (apply type word binary not_equal)
      ∷ []

  -- `ConditionalExpressionL`
  unfoldable pub conditional_expression : ℕ → Module → Outcome Module
  unfolding expression do_branch_false
  conditional_expression fuel m = do
    (type, p) ← expression fr.lexer fr.Reals fr.operands fuel (expression_part m)
    let m₁ = with_expression p m
    if rank type == rank string
        then leave type_mismatch
        else ok (do_branch_false false_branch (record m₁ { code = m₁.code ++ test_code type }))
