-- ===== src/Bytecode.antt =====
-- The bytecode: its instructions, their operands, and the code that walks over them.
pub mod Code
pub mod Operands
pub mod Dump
pub mod Agreement
pub mod Emit
pub mod Loops
mod Tests
