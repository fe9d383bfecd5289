-- ===== src/Translator.antt =====
-- oplt: the OPL translator.
pub mod Token
pub mod Lexer
pub mod Pcode
pub mod Expr
pub mod Codegen
pub mod Emit
pub mod Symbols
pub mod Structure
