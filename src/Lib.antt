-- ===== src/Lib.antt =====
-- OPL: the translator of a BASIC-like language (oplt/) and the runtime that executes its code
-- (oplr/). A source text becomes tokens (oplt/stran/OT_LEX.CPP); the parser turns an expression
-- into parse code in postfix order (oplt/stran/OT_EXPR.CPP), inserting casts where an operand has
-- to be brought to a larger type; the code generator turns that into qcode, bytes that carry the
-- types of their operands (oplt/stran/OPL16GEN.CPP); and the runtime interprets qcode over an
-- evaluation stack (oplr/src/STACK.CPP), calling the opcodes that a table names
-- (oplr/src/OPCODES.CPP). A procedure that is called adds its global variables to a table in which
-- the procedures below it find them (oplr/src/GLOBTBL.CPP, oplr/src/FRAME.CPP).
--
-- Files, with the code that they model:
--   Prelude           names that the other files share: Boolean tests (Tests), lists (Lists),
--                     outcomes of calls that may leave or panic (Outcome), signed integers (Int),
--                     tests of all numbers below a bound (Below), bytes of a stream (Bytes)
--   Translator.Token  tokens, types and constants (oplt/inc/OPLTOKEN.H); Values is the conversions of
--                     constants (OT_UTL.CPP)
--   Translator.Pcode  the constants, casts and operators in the parse code of an expression
--                     (oplt/inc/OPLBACKE.H); its references and calls are not among them, but are
--                     instructions of Translator.Emit
--                     Stream is the header of an instruction in the stream (OT_PCODE.CPP)
--   Translator.Lexer  the tokens of a line (OT_LEX.CPP), with the tables of OT_RESRV.CPP in
--                     Functions, Keywords and Reserved. Texts is about string constants, Words about
--                     the lookup of reserved words; Shrinks, Lines, Names and Lawful show that the
--                     lexer is one that the expression parser can rely on.
--   Translator.Expr   the expression parser, one definition for each function of OT_EXPR.CPP and
--                     for each case of its switches; Table is the precedence table. Typing says
--                     what well-typed code is. Output, Pending, Act, Find and Sound carry the
--                     invariant through OutputOperatorL, the operator stack, ActOnOperatorL,
--                     FindOperatorL and ExpressionL. Percent is about percentages of texts.
--   Translator.Codegen  the conversion of constants, casts and operators to qcode
--   Translator.Emit   the converter of the parse code of a procedure to the bytes of qcode
--                     (COpl16PcodeConverter of OPL16GEN.CPP): its state and stream, Tables, and in
--                     Convert the instructions. Depth and Calls are about the count of the stack; Kept,
--                     Addresses and Patches about the bytes, the labels and the patches of RunL.
--   Translator.Symbols  the symbol table (OT_SYMBL.CPP). Layers is the stack of scopes that it
--                     promises, Refines says that it keeps that promise.
--   Translator.Structure  IF, DO, WHILE and VECTOR (OT_STRUC.CPP) and the statement list that they
--                     nest in (OT_PARSE.CPP), with BREAK, CONTINUE and GOTO (OT_KYWRD.CPP):
--                     branches, labels and conditions, and in Parse the structures and the
--                     statement list themselves. Names is about the texts of internal labels;
--                     Segments, Runs and Pieces say what a piece of code defines and names; Steps,
--                     Loops, Ifs, Exits, Vector (with GOTO), OneStatement and Sound carry that
--                     through the functions.
--   Runtime.Stack     the evaluation stack (CStack): Bounds, Params (UnwindParams)
--   Runtime.Reals     the platform's floating-point numbers and text services, a parameter
--   Runtime.Arith     EN_ARITH.CPP; Arith.Exact compares it with the integers
--   Runtime.Compare   EN_CMP.CPP; Compare.Order has the orders that it implements
--   Runtime.Maths     the float, power and percent opcodes of LB_MATHS.CPP
--   Runtime.Convert   OPLCONV.CPP; Convert.Texts compares its text functions
--   Runtime.Execute   OpCodeTable (OPCODES.CPP) and the constants of PUSHOC.CPP
--   Runtime.Typed, Runtime.Sound, Runtime.Pipeline  the types of the values on the stack: of each
--                     opcode, of each instruction, of converted code
--   Runtime.Memory    words, longs and texts in memory (OPLUTIL.CPP): Cells is about what is read
--                     after a write, Errors about the codes of errors
--   Runtime.Variables the opcodes of variables and arrays (PUSHOC.CPP) and of assignment
--                     (ASSIGN.CPP): Elements, Assigned
--   Runtime.Control   jumps in the code (EN_CTRL.CPP); Lands composes them with the converter
--   Runtime.Errors    the handler of errors (EN_ERROR.CPP)
--   Runtime.Globals   GLOBTBL.CPP with the loops of FRAME.CPP over it: Find, Rollback
--   Tests             samples
--
-- Conventions. A call that may leave returns an Outcome: `leave` is User::Leave with its code,
-- `panic` a failed assertion or an index outside an array, `spent` the end of the model's fuel. The
-- evaluation stack is the one of builds with _DEBUG_STACK, where each cell has a type that pops
-- assert; other builds read the bytes that are there. A position in the parse code counts
-- instructions, not bytes. The platform's and OPL's codes for one error (KErrOverflow and
-- KOplErrOverflow) are one code here. Integers of 16 and 32 bits are signed integers that each cast brings
-- into range.
--
-- Fuel. FindOperatorL's loop has two rounds, for an operand and the operator behind it. The rounds
-- of ActOnOperatorL are at most the operators on the stack and one more, since each takes one off.
-- ExpressionL's loop takes a token in each round, so that a measure of the source that is left
-- bounds it. So it does for the loops of the statement list and of the structures. A branch number
-- has 32 bits, so that BranchName takes at most 16 rounds.
--
-- Parameters. The lexer (Lexer, LawfulLexer: it returns tokens or leaves, and gets through the
-- source), the operands of expressions (Operands, LawfulOperands: references and calls append code
-- for one value), the statements that are no structure (Front, LawfulFront: they define no
-- internal label, branch to none and leave the state of the branches alone), the platform
-- (Platform: the code relies on no property of it), the opcodes outside expressions, the database
-- that a field is assigned in (Fields), and of the lexer the characters and conversions of the
-- platform (Characters, LawfulCharacters) and the bytes that a floating-point number is written as.
--
-- Not modelled: positions of errors in the source; the memory of the operator stack, which may run
-- out; the writer of modules and their tables; sources and includes; declarations and the other
-- keywords' statements; the parser's references and calls; in the runtime calls, real variables and
-- the interpreter's loop; databases, files, devices, graphics and dialogs, which are calls of the
-- platform; the editor and the tools.
pub mod Prelude
pub mod Translator
pub mod Runtime
pub mod Tests
