-- ===== src/Filter.antt =====
-- The filter language of src/util/ConnectionFilter.h and ConnectionFilter.cpp: lexer, parser and
-- evaluator, in the order of the source.
pub mod Qt
pub mod Ast
pub mod Eval
pub mod Lexer
pub mod Parser
