-- ===== src/Parser.antt =====
-- src/Parser: from the tokens of the lexer to parsed expressions.
pub mod Outcome
pub mod Syntax
pub mod Cursor
pub mod Literals
pub mod Interpolation
pub mod Operators
pub mod Lists
pub mod Shunting
pub mod Rounds
pub mod Expression
pub mod Grammar
pub mod Stacks
pub mod Runs
pub mod Items
pub mod Reads
pub mod Halts
