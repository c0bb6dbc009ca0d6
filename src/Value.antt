-- ===== src/Value.antt =====
-- src/Symbols/Value.hpp and src/Symbols/VariableTypes.hpp: the values of a script, and how a C++
-- routine ends. A `ValuePtr` is the value that it points to. `int` is an integer in the 32-bit
-- range; `double` and `float` are bit patterns, whose operations are a parameter (`Value.Floats`).
pub mod Floats
pub mod Types
pub mod Decimal
pub mod Print
pub mod Maps
use voidscript.Base.{
  ℕ, String, Bool, [], true, false, Bytes, bytes_eq, Option, none, some, if◌then◌else◌,
}
use voidscript.Base.Int.{ℤ}

-- `Symbols::Variables::Type`
pub data VarType : Type 0 where
  integer_type double_type float_type string_type boolean_type object_type class_type enum_type
        null_type undefined_type auto_type :
      VarType

-- An `ObjectMap` is the list of its pairs in the order of the keys. `null t` is a value whose
-- null flag is set, with the type tag that it keeps.
mutual
  pub data Value : Type 0 where
    integer : ℤ → Value
    double : ℕ → Value
    float : ℕ → Value
    string : Bytes → Value
    boolean : Bool → Value
    object : Members → Value
    class_instance : Members → Value
    null : VarType → Value

  pub data Members : Type 0 where
    end : Members
    member : Bytes → Value → Members → Members

-- `Value::getType`
unfoldable pub type_of : Value → VarType
type_of (integer n) = integer_type
type_of (double d) = double_type
type_of (float d) = float_type
type_of (string s) = string_type
type_of (boolean b) = boolean_type
type_of (object m) = object_type
type_of (class_instance m) = class_type
type_of (null t) = t

-- `Value::is_null`
unfoldable pub is_null : Value → Bool
is_null (null t) = true
is_null _ = false

-- `std::map::find`
unfoldable pub find : Bytes → Members → Option Value
find key end = none
find key (member k v rest) = if bytes_eq k key then some v else find key rest

-- The `std::exception`s that the modelled code throws; the text of a message that is put
-- together from parts is given by its parts.
pub data Error : Type 0 where
  runtime_error : String → Error
  bad_cast : Error
  expects_one_string : String → Error
  unknown_operator : String → Error
  bitwise_operands : String → VarType → VarType → Error
  shift_range : ℤ → String → Error
  unsupported_types : VarType → VarType → Error
  unsupported_unary : String → VarType → Error
  about_name : String → Bytes → Error
  type_mismatch : String → Bytes → VarType → VarType → Error
  arity : Bytes → ℕ → ℕ → Error

-- A routine returns, throws, or does what the C++ standard leaves undefined.
pub data Result {ℓ} (A : Type ℓ) : Type ℓ where
  ok : A → Result A
  throws : Error → Result A
  undefined_behaviour : Result A

infixl 5 ◌>>=◌
abbrev pub ◌>>=◌ {ℓ κ} : {A : Type ℓ} {B : Type κ} → Result A → (A → Result B) → Result B
ok a >>= f = f a
throws e >>= f = throws e
undefined_behaviour >>= f = undefined_behaviour

-- `get<T>()`: a null value has no data to read.
unfoldable pub get_string : Value → Result Bytes
get_string (string s) = ok s
get_string _ = throws bad_cast

unfoldable pub get_int : Value → Result ℤ
get_int (integer n) = ok n
get_int _ = throws bad_cast

unfoldable pub get_bool : Value → Result Bool
get_bool (boolean b) = ok b
get_bool _ = throws bad_cast

unfoldable pub get_members : Value → Result Members
get_members (object m) = ok m
get_members (class_instance m) = ok m
get_members _ = throws bad_cast

-- `ValuePtr::setType`
unfoldable pub set_type : Value → VarType → Result Value
unfolding is_null
set_type (null _) t = ok (null t)
set_type _ t =
    throws (runtime_error "Cannot set type manually on an already initialized, non-null value.")

-- `ValuePtr::null`: three types have an empty value that is not null.
unfoldable pub default_value : VarType → Value
default_value string_type = string []
default_value object_type = object end
default_value class_type = class_instance end
default_value t = null t
