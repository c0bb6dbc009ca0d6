-- ===== src/Value/Types.antt =====
-- src/Symbols/VariableTypes.hpp: the names of the types.
use text.Mathlib.Text.{◌==◌ as str_eq}
use voidscript.Base.{String, ◌||◌, ◌≡◌, refl, if◌then◌else◌}
use voidscript.Value.{
  VarType, integer_type, double_type, float_type, string_type, boolean_type, object_type,
  class_type, enum_type, null_type, undefined_type, auto_type,
}

-- `TypeToString`
unfoldable pub type_to_string : VarType → String
type_to_string integer_type = "int"
type_to_string double_type = "double"
type_to_string float_type = "float"
type_to_string string_type = "string"
type_to_string boolean_type = "bool"
type_to_string object_type = "object"
type_to_string class_type = "class"
type_to_string enum_type = "enum"
type_to_string null_type = "null"
type_to_string auto_type = "auto"
type_to_string undefined_type = "undefined"

-- `StringToType`
unfoldable pub string_to_type : String → VarType
string_to_type s =
    if str_eq s "int"
    then integer_type
    else if str_eq s "double"
    then double_type
    else if str_eq s "float"
    then float_type
    else if str_eq s "string"
    then string_type
    else if str_eq s "bool" || str_eq s "boolean"
    then boolean_type
    else if str_eq s "object"
    then object_type
    else if str_eq s "class"
    then class_type
    else if str_eq s "enum"
    then enum_type
    else if str_eq s "auto"
    then auto_type
    else if str_eq s "undefined"
    then undefined_type
    else null_type

-- `StringToType` undoes `TypeToString` on every type.
string_to_type-type_to_string : (t : VarType) → string_to_type (type_to_string t) ≡ t
unfolding string_to_type type_to_string
string_to_type-type_to_string integer_type = refl
string_to_type-type_to_string double_type = refl
string_to_type-type_to_string float_type = refl
string_to_type-type_to_string string_type = refl
string_to_type-type_to_string boolean_type = refl
string_to_type-type_to_string object_type = refl
string_to_type-type_to_string class_type = refl
string_to_type-type_to_string enum_type = refl
string_to_type-type_to_string null_type = refl
string_to_type-type_to_string undefined_type = refl
string_to_type-type_to_string auto_type = refl
