-- ===== src/Interpreter.antt =====
-- verify/interpreter.rs
pub mod Defs
pub mod Rules
