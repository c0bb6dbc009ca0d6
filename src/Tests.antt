-- ===== src/Tests.antt =====
-- The development at fixed inputs.
mod EncodingTests
pub mod InterpreterTests
mod ParserTests
mod CsvTests
pub mod SymbolTests
mod OperatorTests
mod LexerTests
mod ClassTests
