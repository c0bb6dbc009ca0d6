-- ===== src/Operators.antt =====
-- src/Interpreter/Nodes/Expression: the operators of an expression, on the values of its operands.
pub mod Ints
pub mod Binary
pub mod Unary
pub mod Access
