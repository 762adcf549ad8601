-- ===== src/Asm.antt =====
-- The assembler of src/asm.h: the lexer, the preprocessor and the parser.
pub mod Lexer
pub mod Tokens
pub mod Defines
pub mod Locals
pub mod Preprocess
pub mod Parse
