-- ===== src/Interpreter/Fuel.antt =====
-- The fuel of the model of src/Interpreter: an outcome that does not come from a lack of fuel is the
-- outcome with any more of it.
pub mod Rules
pub mod Nodes
pub mod Whole
