-- ===== src/Tests.antt =====
-- Samples of the code under oplt/ and oplr/, and the theorems applied to them.
mod Parse
mod Execution
mod Tables
mod Structures
mod Variables
mod Errors
mod Emit
mod Lexing
