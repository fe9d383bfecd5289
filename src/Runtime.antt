-- ===== src/Runtime.antt =====
-- oplr/: the runtime, which executes the code that the translator generates.
pub mod Stack
pub mod Reals
pub mod Arith
pub mod Compare
pub mod Maths
pub mod Convert
pub mod Typed
pub mod Execute
pub mod Sound
pub mod Pipeline
pub mod Globals
pub mod Memory
pub mod Variables
pub mod Errors
pub mod Control
