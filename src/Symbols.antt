-- ===== src/Symbols.antt =====
-- src/Symbols: symbols, their tables, and the scopes.
pub mod Table
pub mod Container
pub mod Classes
