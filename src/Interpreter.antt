-- ===== src/Interpreter.antt =====
-- src/Interpreter: the tree-walking interpreter, from its nodes to the calls of script functions.
pub mod Syntax
pub mod Outcome
pub mod Variables
pub mod Functions
pub mod Nodes
pub mod Steps
pub mod Statements
pub mod Scopes
pub mod Types
pub mod Failures
pub mod Leaks
pub mod Fuel
