-- ===== src/Execute/Safe.antt =====
-- The bounds of Execute/Keeps through every instruction.
pub mod Operators
pub mod Variables
pub mod Indices
pub mod Calls
pub mod Classes
