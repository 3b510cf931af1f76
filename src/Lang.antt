-- ===== src/Lang.antt =====
-- include/xrune/lang: the front end of the .xrune language.
pub mod Token
pub mod Lexer
pub mod Ast
pub mod Parser
