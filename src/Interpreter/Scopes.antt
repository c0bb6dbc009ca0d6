-- ===== src/Interpreter/Scopes.antt =====
-- What the interpreter of src/Interpreter does to the stack of scopes.
pub mod Names
pub mod Keeps
pub mod Rules
pub mod Variables
pub mod Loops
pub mod Calls
pub mod Steps
pub mod Stack
