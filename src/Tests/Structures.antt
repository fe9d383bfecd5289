-- ===== src/Tests/Structures.antt =====
-- Samples for oplt/stran/OT_STRUC.CPP and OT_SYMBL.CPP: a lexer over a list of tokens, operands
-- that are constants, statements of one instruction, and a few calls of a symbol table.
use opl_dev.Prelude.{
  ℕ, suc, ◌<◌, ◌≤◌, List, [], ◌∷◌, ◌++◌, ◌≡◌, ◌⊎◌, refl, Bool, true, false, ◌&&◌, none, length, leb,
  ◌==◌, if◌then◌else◌, Bool-cases, inl, inr, arith,
}
use opl_dev.Prelude.Int.{ℤ, pos}
use opl_dev.Prelude.Outcome.{Outcome, ok, leave, ◌>>=◌, syntax, Leaves}
use opl_dev.Translator.Token.{
  word, Operator, number, Token, Identifier, operator, identifier, punctuation, call, keyword,
  structure, reserved, Punctuation, word_value,
}
use opl_dev.Translator.Pcode.{push_constant}
use opl_dev.Translator.Pcode.Stream.{externalize, internalize, internalize-externalize}
use opl_dev.Translator.Expr.{
  Lexer, Parser, find_operator, find_at, act_on_operator, act, top, perform, drop,
}
use opl_dev.Translator.Expr.Table.{column, action}
use opl_dev.Translator.Expr.Typing.{Pushes-push_constant}
use opl_dev.Translator.Expr.Find.{IsSource, Shrinks, LawfulLexer, LawfulOperands, Extends}
use opl_dev.Translator.Structure.{
  Front, Module, ModuleParser, other, p_code, StructureWord, ReservedWord, BranchWord, no_branches,
  branch_name,
}
use opl_dev.Translator.Structure.Parse.{statement_list}
use opl_dev.Translator.Structure.Names.{branch_name-injective}
use opl_dev.Translator.Structure.Runs.{Quiet, p_code-Run}
use opl_dev.Translator.Structure.Segments.{IsUserName}
use opl_dev.Translator.Structure.Steps.{LawfulFront, is_eof}
use opl_dev.Translator.Symbols.{
  Symbol, SymbolClass, SymbolStep, start_call, end_call, add_call, new_table, find, calls,
}
use opl_dev.Translator.Symbols.Layers.{lookup, layer_calls}
use opl_dev.Translator.Symbols.Refines.{find-calls, calls-Matches, Matches}

-- A token with what a module's lexer says of it. Types are words.
record Entry : Type 0 where
  token : Token
  structure_word : StructureWord
  reserved_word : ReservedWord
  branch_word : BranchWord

abbrev of_token : Token → Entry
of_token t = record {
  token = t;
  structure_word = StructureWord.while_word;
  reserved_word = ReservedWord.other_word;
  branch_word = BranchWord.other_keyword_word;
}

-- The last token and those that are left
abbrev Tokens : Type 0
Tokens = Entry × List Entry

abbrev readable : Operator → Bool
readable op = leb (number op) 19 && (if number op == 16 then false else true)

is_readable : Token → Bool
is_readable (operator op) = readable op
is_readable t = true

entry_lex : Tokens → Outcome (Token × Tokens)
entry_lex (t, []) = ok (punctuation Punctuation.eof, (t, []))
entry_lex (t, e ∷ rest) = if is_readable e.token then ok (e.token, (e, rest)) else leave syntax

abbrev entry_lexer : Lexer
entry_lexer = record {
  State = Tokens;
  lex = entry_lex;
  next_char = λ s. ok (65, s);
  type = λ s. word;
}

abbrev push_word : Parser Tokens ℤ → Parser Tokens ℤ
push_word p = record p { code = p.code ++ push_constant (word_value (pos 1)) ∷ [] }

-- Another statement writes an instruction.
abbrev with_other : ℕ → ModuleParser Tokens ℤ → ModuleParser Tokens ℤ
with_other n m = record m { code = m.code ++ other n ∷ [] }

abbrev entry_front : Front
entry_front = record {
  lexer = entry_lexer;
  Reals = ℤ;
  zero_real = pos 0;
  operands = record {
    right_side_reference = λ t p. ok (push_word p);
    call = λ t p. ok (word, push_word p);
  };
  words = record {
    structure_word = λ s. s.0.structure_word;
    reserved_word = λ s. s.0.reserved_word;
    branch_word = λ s. s.0.branch_word;
    name = λ s. 65 ∷ [];
  };
  statements = record {
    identifier_statement = λ i m. ok (with_other 1 m);
    call_statement = λ c m. ok (with_other 2 m);
    other_keyword = λ m. ok (with_other 3 m);
  };
}

entry-Shrinks : (t : Token) (n : ℕ) → is_readable t ≡ true → IsSource true t × Shrinks t n (suc n)
unfolding is_readable
entry-Shrinks (operator op) n h = (ground arith, omega arith)
entry-Shrinks (identifier i) n h = (tt, omega arith)
entry-Shrinks (punctuation p) n h = (tt, omega arith)
entry-Shrinks (call c) n h = (tt, omega arith)
entry-Shrinks keyword n h = (tt, omega arith)
entry-Shrinks structure n h = (tt, omega arith)
entry-Shrinks reserved n h = (tt, omega arith)

entry_lex_lem :
    (l : Tokens)
    → Leaves (λ r. IsSource true r.0 × Shrinks r.0 (length r.1.1) (length l.1)) (entry_lex l)
unfolding entry_lex
entry_lex_lem (t, []) = (tt, omega arith)
entry_lex_lem (t, e ∷ rest) = elim (Bool-cases (is_readable e.token)) [
  | inl h ↦ (let (s, less) = entry-Shrinks e.token (length rest) h in rw h (s, less))
  | inr h ↦ rw h tt
]

entry_strict_lem :
    (l : Tokens)
    → Leaves
        (λ r. (length r.1.1 ≤ length l.1) × ((is_eof r.0 ≡ true) ⊎ (length r.1.1 < length l.1)))
        (entry_lex l)
unfolding entry_lex
entry_strict_lem (t, []) = (omega arith, inl refl)
entry_strict_lem (t, e ∷ rest) = elim (Bool-cases (is_readable e.token)) [
  | inl h ↦ rw h (omega arith, inr (omega arith))
  | inr h ↦ rw h tt
]

entry_law : LawfulLexer true entry_lexer
entry_law = record {
  size = λ s. length s.1;
  lex_lem = entry_lex_lem;
  next_char_lem = λ s. omega arith;
}

push_word-Extends :
    (p : Parser Tokens ℤ) → Extends entry_lexer true (λ s. length s.1) p word (push_word p)
push_word-Extends p = (refl, (_, refl, Pushes-push_constant _, refl), omega arith)

entry_lawful : LawfulOperands true entry_lexer entry_law ℤ entry_front.operands
unfolding entry_law
entry_lawful = record {
  reference_lem = λ i p. push_word-Extends p;
  call_lem = λ c p. push_word-Extends p;
}

with_other-Quiet :
    (n : ℕ) (m : Module entry_front) → Quiet entry_front (λ s. length s.1) m (with_other n m)
unfolding p_code
with_other-Quiet n m =
    p_code-Run entry_front (λ s. length s.1) (λ k. 0) (λ k. ⊥) (other n) m (λ k lt. refl) tt

user_name : IsUserName (65 ∷ [])
user_name = ground arith

entry_front_law : LawfulFront entry_front
unfolding entry_law
entry_front_law = record {
  strings = true;
  law = entry_law;
  lawful = entry_lawful;
  strict_lem = entry_strict_lem;
  name_lem = λ l. user_name;
  identifier_lem = λ i m. with_other-Quiet 1 m;
  call_lem = λ c m. with_other-Quiet 2 m;
  keyword_lem = λ m. with_other-Quiet 3 m;
}

abbrev eos_entry : Entry
eos_entry = of_token (punctuation Punctuation.eos)

abbrev ended_by : ReservedWord → Entry
ended_by w = record (of_token reserved) { reserved_word = w }

-- WHILE 1, IF 1, BREAK, GOTO A::, ELSE, an assignment, ENDIF, ENDWH, ENDP
abbrev sample_module : Module entry_front
sample_module = record {
  operator_stack = [];
  code = [];
  lexer = (
    eos_entry,
    of_token structure
        ∷ of_token (identifier Identifier.constant)
        ∷ eos_entry
        ∷ record (of_token structure) { structure_word = StructureWord.if_word }
        ∷ of_token (identifier Identifier.constant)
        ∷ eos_entry
        ∷ record (of_token keyword) { branch_word = BranchWord.break_word }
        ∷ eos_entry
        ∷ record (of_token keyword) { branch_word = BranchWord.goto_word }
        ∷ of_token (identifier Identifier.label)
        ∷ eos_entry
        ∷ ended_by ReservedWord.else_word
        ∷ eos_entry
        ∷ of_token (identifier Identifier.simple)
        ∷ eos_entry
        ∷ ended_by ReservedWord.end_if
        ∷ eos_entry
        ∷ ended_by ReservedWord.end_wh
        ∷ eos_entry
        ∷ ended_by ReservedWord.other_word
        ∷ [],
  );
  branches = no_branches;
  labels = [];
  last_was_return = false;
}

-- It comes to its end.
returned : Outcome ReservedWord → Bool
returned (ok ReservedWord.other_word) = true
returned o = false

sample_returned : returned (statement_list entry_front 24 sample_module >>= λ r. ok r.0) ≡ true
unfolding returned statement_list entry_lex is_readable find_operator find_at act_on_operator column
    act top action perform drop
sample_returned = refl

abbrev branches_seen : ℕ × ℕ
branches_seen = (0x10a, 0x42)

branch_name-injective_example :
    (length (branch_name 0x10a) ≤ 32)
    × (branch_name 0x10a ≡ branch_name 0x42 → branches_seen.0 ≡ branches_seen.1)
branch_name-injective_example = branch_name-injective 0x10a 0x42 (omega arith) (omega arith)

-- Calls for a global name, and for the same name within a procedure
abbrev a_symbol : ℕ → ℕ → Symbol
a_symbol address c = record {
  address = address;
  class = SymbolClass.local;
  name = c ∷ [];
  token = 0x1001;
  declaration = none;
  scope = 0;
}

abbrev sample_calls : List SymbolStep
sample_calls =
    add_call (a_symbol 1 65)
    ∷ start_call
    ∷ add_call (a_symbol 2 65)
    ∷ add_call (a_symbol 3 96)
    ∷ end_call
    ∷ []

find-calls_example :
    (calls sample_calls new_table >>= λ t. ok (find (65 ∷ []) 0x1001 t))
    ≡ (layer_calls sample_calls ([] ∷ []) >>= λ ls. ok (lookup (65 ∷ []) 0x1001 ls))
find-calls_example = find-calls (65 ∷ []) 0x1001 sample_calls

calls-Matches_example : Matches (layer_calls sample_calls ([] ∷ [])) (calls sample_calls new_table)
calls-Matches_example = calls-Matches sample_calls

internalize-externalize_example :
    internalize 7 (externalize 5 0x1_2345 ++ 9 ∷ []) ≡ ok (5, 0x1_2345, 9 ∷ [])
internalize-externalize_example =
    internalize-externalize 5 0x1_2345 7 (9 ∷ []) (omega arith) (omega arith)
