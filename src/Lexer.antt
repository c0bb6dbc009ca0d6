-- ===== src/Lexer.antt =====
-- src/Lexer: the text of a script, cut into tokens.
pub mod Tokens
pub mod TypeNames
pub mod Tables
pub mod Cursors
pub mod Matchers
pub mod Tokenize
pub mod Advances
pub mod Progress
pub mod Matched
pub mod Stream
pub mod Literals
