-- ===== src/Operators/Binary.antt =====
-- src/Interpreter/Nodes/Expression/BinaryExpressionNode.hpp: `evaluate`, from the values of both
-- operands on; both are evaluated first, whatever the operator.
pub mod Arithmetic
pub mod Integers
pub mod Shifts
use text.Mathlib.Text.{◌==◌ as str_eq}
use voidscript.Base.{
  ℕ, Bool, true, false, not, ◌&&◌, ◌||◌, ◌++◌, bit_and, bit_or, bit_xor, Bytes, bytes_eq, String,
  ltb, if◌then◌else◌,
}
use voidscript.Base.Int.{ℤ, pos, negsuc, ◌+ℤ◌, ◌-ℤ◌, ◌*ℤ◌, ltb_ℤ, eqb_ℤ}
use voidscript.Operators.Ints.{checked, fits, quot, rem, to_bits, of_bits, shift_left, shift_right}
use voidscript.Value.Floats.{Floats, Format}
use voidscript.Value.Print.{to_string}
use voidscript.Value.{
  VarType, integer_type, double_type, float_type, string_type, Value, integer, double, float,
  string, boolean, object, class_instance, null, Error, runtime_error, unknown_operator,
  bitwise_operands, shift_range, unsupported_types, Result, ok, throws, undefined_behaviour,
  type_of, is_null,
}

-- A null operand: `==` and `!=` compare the null flags, any other operator gives false.
unfoldable pub null_op : String → Bool → Bool → Result Value
null_op op l r =
    if str_eq op "=="
    then ok (boolean (if l then r else not r))
    else if str_eq op "!="
    then ok (boolean (if l then not r else r))
    else ok (boolean false)

unfoldable pub boolean_op : String → Bool → Bool → Result Value
boolean_op op l r =
    if str_eq op "&&"
    then ok (boolean (l && r))
    else if str_eq op "||"
    then ok (boolean (l || r))
    else if str_eq op "=="
    then ok (boolean (if l then r else not r))
    else if str_eq op "!="
    then ok (boolean (if l then not r else r))
    else throws (unknown_operator op)

abbrev pub is_bitwise : String → Bool
is_bitwise op = str_eq op "&" || str_eq op "|" || str_eq op "^" || str_eq op "<<" || str_eq op ">>"

-- The shifts, once the amount is known to be no negative number.
unfoldable pub shift_op : String → ℤ → ℕ → Result Value
unfolding shift_left shift_right
shift_op op l r =
    if not (ltb r 32)
    then throws (shift_range (pos r) op)
    else ok (integer (if str_eq op "<<" then shift_left l r else shift_right l r))

abbrev shift_by : String → ℤ → ℤ → Result Value
shift_by op l (pos r) = shift_op op l r
shift_by op l (negsuc r) = throws (shift_range (negsuc r) op)

unfoldable pub bitwise_int : String → ℤ → ℤ → Result Value
unfolding shift_op to_bits of_bits
bitwise_int op l r =
    if str_eq op "&"
    then ok (integer (of_bits (bit_and (to_bits l) (to_bits r))))
    else if str_eq op "|"
    then ok (integer (of_bits (bit_or (to_bits l) (to_bits r))))
    else if str_eq op "^"
    then ok (integer (of_bits (bit_xor (to_bits l) (to_bits r))))
    else shift_by op l r

unfoldable pub bitwise_op : String → Value → Value → Result Value
unfolding bitwise_int type_of
bitwise_op op (integer l) (integer r) = bitwise_int op l r
bitwise_op op l r = throws (bitwise_operands op (type_of l) (type_of r))

-- The block for `double`, and that for `float`, over the format and its constructor.
unfoldable pub floating_op : Format → (ℕ → Value) → String → ℕ → ℕ → Result Value
floating_op f make op l r =
    if str_eq op "+"
    then ok (make (f.add l r))
    else if str_eq op "-"
    then ok (make (f.sub l r))
    else if str_eq op "*"
    then ok (make (f.mul l r))
    else if str_eq op "/"
    then ok (make (f.div l r))
    else if str_eq op "=="
    then ok (boolean (f.eq l r))
    else if str_eq op "!="
    then ok (boolean (not (f.eq l r)))
    else if str_eq op "<"
    then ok (boolean (f.lt l r))
    else if str_eq op ">"
    then ok (boolean (f.lt r l))
    else if str_eq op "<="
    then ok (boolean (f.le l r))
    else if str_eq op ">="
    then ok (boolean (f.le r l))
    else throws (unknown_operator op)

abbrev pub division_by_zero : Error
division_by_zero = runtime_error "Division by zero"

abbrev pub modulo_by_zero : Error
modulo_by_zero = runtime_error "Modulo by zero"

-- Where the quotient is no `int`, both `/` and `%` are undefined.
unfoldable pub divide : ℤ → ℤ → Result Value
unfolding quot
divide l r = if eqb_ℤ r (pos 0) then throws division_by_zero else checked (quot l r)

unfoldable pub modulo : ℤ → ℤ → Result Value
unfolding quot rem
modulo l r =
    if eqb_ℤ r (pos 0)
    then throws modulo_by_zero
    else if fits (quot l r)
    then ok (integer (rem l r))
    else undefined_behaviour

unfoldable pub integer_op : String → ℤ → ℤ → Result Value
unfolding divide modulo ◌+ℤ◌ ◌-ℤ◌ ◌*ℤ◌
integer_op op l r =
    if str_eq op "+"
    then checked (l +ℤ r)
    else if str_eq op "-"
    then checked (l -ℤ r)
    else if str_eq op "*"
    then checked (l *ℤ r)
    else if str_eq op "/"
    then divide l r
    else if str_eq op "%"
    then modulo l r
    else if str_eq op "=="
    then ok (boolean (eqb_ℤ l r))
    else if str_eq op "!="
    then ok (boolean (not (eqb_ℤ l r)))
    else if str_eq op "<"
    then ok (boolean (ltb_ℤ l r))
    else if str_eq op ">"
    then ok (boolean (ltb_ℤ r l))
    else if str_eq op "<="
    then ok (boolean (not (ltb_ℤ r l)))
    else if str_eq op ">="
    then ok (boolean (not (ltb_ℤ l r)))
    else throws (unknown_operator op)

unfoldable pub string_op : String → Bytes → Bytes → Result Value
string_op op l r =
    if str_eq op "+"
    then ok (string (l ++ r))
    else if str_eq op "=="
    then ok (boolean (bytes_eq l r))
    else if str_eq op "!="
    then ok (boolean (not (bytes_eq l r)))
    else throws (unknown_operator op)

abbrev is_string : Value → Bool
is_string (string s) = true
is_string _ = false

module _ (fl : Floats) where
  -- Two numbers: as `double` if one is, else as `float` if one is, else as `int`.
  unfoldable pub numeric_op : String → Value → Value → Result Value
  unfolding floating_op integer_op
  numeric_op op (double l) (double r) = floating_op fl.doubles double op l r
  numeric_op op (double l) (float r) = floating_op fl.doubles double op l (fl.widen r)
  numeric_op op (double l) (integer r) = floating_op fl.doubles double op l (fl.doubles.of_int r)
  numeric_op op (float l) (double r) = floating_op fl.doubles double op (fl.widen l) r
  numeric_op op (integer l) (double r) = floating_op fl.doubles double op (fl.doubles.of_int l) r
  numeric_op op (float l) (float r) = floating_op fl.floats float op l r
  numeric_op op (float l) (integer r) = floating_op fl.floats float op l (fl.floats.of_int r)
  numeric_op op (integer l) (float r) = floating_op fl.floats float op (fl.floats.of_int l) r
  numeric_op op (integer l) (integer r) = integer_op op l r
  numeric_op op l r = throws (unknown_operator op)

  abbrev pub is_numeric : Value → Bool
  is_numeric (integer n) = true
  is_numeric (double d) = true
  is_numeric (float d) = true
  is_numeric _ = false

  -- What is left when the operands are neither two numbers nor, for a bitwise operator, checked.
  unfoldable pub other_op : String → Value → Value → Result Value
  unfolding string_op to_string type_of
  other_op op (string l) (string r) = string_op op l r
  other_op op l r =
      if str_eq op "+" && (is_string l || is_string r)
      then ok (string (to_string fl l ++ to_string fl r))
      else throws (unsupported_types (type_of l) (type_of r))

  unfoldable pub present_op : String → Value → Value → Result Value
  unfolding boolean_op bitwise_op numeric_op other_op
  present_op op (boolean l) (boolean r) = boolean_op op l r
  present_op op l r =
      if is_bitwise op
      then bitwise_op op l r
      else if is_numeric l && is_numeric r
      then numeric_op op l r
      else other_op op l r

  unfoldable pub binary : String → Value → Value → Result Value
  unfolding null_op present_op is_null
  binary op l r =
      if is_null l || is_null r then null_op op (is_null l) (is_null r) else present_op op l r
