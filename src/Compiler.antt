-- ===== src/Compiler.antt =====
-- The compiler, src/compiler: the scanner and the parser.
pub mod Scanner
pub mod Ast
pub mod Parser
