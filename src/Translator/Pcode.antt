-- ===== src/Translator/Pcode.antt =====
-- oplt/inc/OPLBACKE.H, oplt/stran/OT_PARSE.CPP: the constants, casts and operators in the parse code
-- that an expression becomes. An identifier's reference or a call is an instruction of
-- Translator.Emit.
-- The stream is a list of instructions, each with its operands; a position in the stream is the
-- count of instructions in front of it. (The source offset in front of each is left out.)
pub mod Stream
use opl_dev.Translator.Token.{Operator, OplType, Constant}

-- `TPcodeOperator::TArity`
pub data Arity : Type 0 where
  unary binary : Arity

-- Of the instructions of an expression, by their `TPcode::TCode`, EConstant, ECast and EOperator
pub data Pcode (R : Type 0) : Type 0 where
  push_constant : Constant R → Pcode R
  cast : OplType → OplType → Pcode R
  apply : OplType → OplType → Arity → Operator → Pcode R
