-- ===== src/Nyva.antt =====
-- The nyva compiler, src/nyva.c: a small language with functions and loops, compiled to the assembly text
-- that the assembler reads.
pub mod Tokens
pub mod Lexer
pub mod Syntax
pub mod Parser
pub mod Statements
pub mod Emit
pub mod Codegen
pub mod Generate
pub mod Preprocess
pub mod Compile
pub mod Escape
