-- ===== src/Operators/Unary.antt =====
-- src/Interpreter/Nodes/Expression/UnaryExpressionNode.hpp: `evaluate`, from the value of the
-- operand on.
pub mod Integers
use text.Mathlib.Text.{◌==◌ as str_eq}
use voidscript.Base.{ℕ, not, ◌||◌, String, if◌then◌else◌}
use voidscript.Base.Int.{ℤ, pos, negsuc, ◌+ℤ◌, ◌-ℤ◌}
use voidscript.Operators.Ints.{checked}
use voidscript.Value.Floats.{Floats, Format}
use voidscript.Value.{
  VarType, integer_type, double_type, float_type, string_type, boolean_type, Value, integer, double,
  float, string, boolean, null, runtime_error, unsupported_unary, Result, ok, throws, type_of,
}

-- `~v`
abbrev pub complement : ℤ → ℤ
complement (pos n) = negsuc n
complement (negsuc n) = pos n

unfoldable pub integer_unary : String → ℤ → Result Value
unfolding ◌-ℤ◌ ◌+ℤ◌
integer_unary op v =
    if str_eq op "-"
    then checked (pos 0 -ℤ v)
    else if str_eq op "+"
    then ok (integer v)
    else if str_eq op "++"
    then checked (v +ℤ pos 1)
    else if str_eq op "--"
    then checked (v -ℤ pos 1)
    else if str_eq op "~"
    then ok (integer (complement v))
    else throws (unsupported_unary op integer_type)

-- The block for `double`, and that for `float`.
unfoldable pub floating_unary : Format → (ℕ → Value) → VarType → String → ℕ → Result Value
floating_unary f make t op v =
    if str_eq op "-"
    then ok (make (f.neg v))
    else if str_eq op "+"
    then ok (make v)
    else if str_eq op "++"
    then ok (make (f.add v f.one))
    else if str_eq op "--"
    then ok (make (f.sub v f.one))
    else throws (unsupported_unary op t)

-- A null value is converted to the C++ type of its tag before the operator is looked at.
abbrev pub null_unary : String → VarType → Result Value
null_unary op integer_type =
    throws (runtime_error "Cannot convert NULL value (universal conversion operator)")
null_unary op double_type =
    throws (runtime_error "Cannot convert NULL value (universal conversion operator)")
null_unary op float_type =
    throws (runtime_error "Cannot convert NULL value (universal conversion operator)")
null_unary op string_type =
    throws (runtime_error "Cannot convert NULL value (universal conversion operator)")
null_unary op boolean_type = throws (runtime_error "Cannot convert NULL value (bool operator)")
null_unary op t = throws (unsupported_unary op t)

module _ (fl : Floats) where
  unfoldable pub unary : String → Value → Result Value
  unfolding integer_unary floating_unary type_of
  unary op (integer v) = integer_unary op v
  unary op (double v) = floating_unary fl.doubles double double_type op v
  unary op (float v) = floating_unary fl.floats float float_type op v
  unary op (boolean v) =
      if str_eq op "!" then ok (boolean (not v)) else throws (unsupported_unary op boolean_type)
  unary op (string s) =
      if str_eq op "-" || str_eq op "+"
      then ok (string s)
      else throws (unsupported_unary op string_type)
  unary op (null t) = null_unary op t
  unary op v = throws (unsupported_unary op (type_of v))
