-- ===== src/Operators/Access.antt =====
-- Reading an element (src/Interpreter/Nodes/Expression/ArrayAccessExpressionNode.hpp, from the
-- values of the container and the index on), and the conversion of a number on assignment
-- (src/Symbols/NumericCoercion.hpp).
use voidscript.Base.{
  ℕ, Bool, true, false, not, ◌||◌, arith, if◌then◌else◌, get_elem?, List, Bytes, Option, none, some,
  ◌≡◌, refl,
}
use voidscript.Base.Int.{pos}
use voidscript.Value.Decimal.{decimal_ℤ}
use voidscript.Value.Maps.Arrays.{find-array_of}
use voidscript.Value.Maps.{array_of}
use voidscript.Value.Floats.{Floats}
use voidscript.Value.{
  VarType, integer_type, double_type, float_type, string_type, boolean_type, object_type,
  class_type, enum_type, null_type, undefined_type, auto_type, Value, integer, double, float,
  string, object, class_instance, null, runtime_error, bad_cast, Result, ok, throws, ◌>>=◌, type_of,
  find,
}

-- The key of an index; a null index has no data to read.
unfoldable pub index_key : Value → Result Bytes
unfolding decimal_ℤ
index_key (integer n) = ok (decimal_ℤ n)
index_key (string s) = ok s
index_key (null integer_type) = throws bad_cast
index_key (null string_type) = throws bad_cast
index_key _ = throws (runtime_error "Array index must be integer or string")

abbrev or_undefined : Option Value → Value
or_undefined (some v) = v
or_undefined none = null undefined_type

-- The container is read before the index is looked at.
unfoldable pub array_access : Value → Value → Result Value
unfolding index_key find
array_access (object m) i = index_key i >>= λ key. ok (or_undefined (find key m))
array_access (class_instance m) i = index_key i >>= λ key. ok (or_undefined (find key m))
array_access (null object_type) i = throws bad_cast
array_access (null class_type) i = throws bad_cast
array_access _ i = throws (runtime_error "Attempted to index non-array")

-- Indexing an array with a number below its length gives the element, with any other number the
-- undefined value.
pub array_access-array_of :
    (vs : List Value) (i : ℕ)
    → array_access (object (array_of vs)) (integer (pos i)) ≡ ok (or_undefined (get_elem? vs i))
unfolding array_access index_key decimal_ℤ
array_access-array_of vs i = rw (find-array_of) refl

-- The comparison of two types.
abbrev pub same_type : VarType → VarType → Bool
same_type integer_type integer_type = true
same_type double_type double_type = true
same_type float_type float_type = true
same_type string_type string_type = true
same_type boolean_type boolean_type = true
same_type object_type object_type = true
same_type class_type class_type = true
same_type enum_type enum_type = true
same_type null_type null_type = true
same_type undefined_type undefined_type = true
same_type auto_type auto_type = true
same_type _ _ = false

pub same_type_sound : (s t : VarType) → same_type s t ≡ true → s ≡ t
same_type_sound integer_type integer_type h = refl
same_type_sound double_type double_type h = refl
same_type_sound float_type float_type h = refl
same_type_sound string_type string_type h = refl
same_type_sound boolean_type boolean_type h = refl
same_type_sound object_type object_type h = refl
same_type_sound class_type class_type h = refl
same_type_sound enum_type enum_type h = refl
same_type_sound null_type null_type h = refl
same_type_sound undefined_type undefined_type h = refl
same_type_sound auto_type auto_type h = refl
same_type_sound _ _ h = ground arith

abbrev is_number : VarType → Bool
is_number integer_type = true
is_number float_type = true
is_number double_type = true
is_number _ = false

abbrev is_floating : VarType → Bool
is_floating float_type = true
is_floating double_type = true
is_floating _ = false

module _ (fl : Floats) where
  unfoldable pub raw_number : Value → Result ℕ
  raw_number (integer n) = ok (fl.doubles.of_int n)
  raw_number (float d) = ok (fl.widen d)
  raw_number (double d) = ok d
  raw_number _ = throws bad_cast

  abbrev of_raw : VarType → ℕ → Value
  of_raw float_type raw = float (fl.narrow raw)
  of_raw _ raw = double raw

  -- The value that the caller holds afterwards, or nothing where the conversion is refused.
  unfoldable pub try_numeric_coerce : Value → VarType → Result (Option Value)
  unfolding type_of raw_number
  try_numeric_coerce v target =
      if same_type (type_of v) target
      then ok (some v)
      else if not (is_number (type_of v)) || not (is_floating target)
      then ok none
      else (raw_number v >>= λ raw. ok (some (of_raw target raw)))

  type_of-of_raw : (t : VarType) (raw : ℕ) → is_floating t ≡ true → type_of (of_raw t raw) ≡ t
  unfolding type_of
  type_of-of_raw double_type raw h = refl
  type_of-of_raw float_type raw h = refl
  type_of-of_raw _ raw h = ground arith

  -- A conversion that succeeds gives a value of the target type.
  pub type_of-try_numeric_coerce :
      (v w : Value) (target : VarType)
      → try_numeric_coerce v target ≡ ok (some w)
      → type_of w ≡ target
  unfolding try_numeric_coerce raw_number type_of
  type_of-try_numeric_coerce v w target h =
      ground (arith, same_type_sound (type_of v) target, type_of-of_raw target)
