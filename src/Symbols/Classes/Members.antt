-- ===== src/Symbols/Classes/Members.antt =====
-- What src/Symbols/SymbolContainer.cpp tells of the methods and the properties of a class, and the
-- call of a native method.
use voidscript.Base.{Bool, false, List, [], map, Option, none, some, Bytes}
use voidscript.Base.Dict.{lookup, insert}
use voidscript.Value.{Value, VarType, null_type, null, Result, throws, ◌>>=◌, about_name}
use voidscript.Symbols.Classes.{
  Classes, MethodInfo, ParameterInfo, find_method, find_property, get_class_info, member_name,
}

module _ {E : Type 0} where
  -- The method that a class itself has.
  unfoldable pub own_method : Bytes → Bytes → Classes E → Option MethodInfo
  unfolding lookup find_method
  own_method class_name name cs = elim (lookup class_name cs) [
    | none ↦ none
    | some info ↦ find_method name info.methods
  ]

  unfoldable pub call_method : Bytes → Bytes → List Value → Classes E → Result Value
  unfolding get_class_info find_method
  call_method class_name name args cs = get_class_info class_name cs >>= λ info.
      elim (find_method name info.methods) [
        | none ↦ throws (about_name "Method not found" (member_name class_name name))
        | some m ↦ elim m.native_implementation [
          | none ↦
              throws
                (about_name "Method has no native implementation" (member_name class_name name))
          | some native ↦ native args
        ]
      ]

  -- `getMethodParameters`, and `getNativeMethodParameters`, which is the same.
  unfoldable pub get_method_parameters : Bytes → Bytes → Classes E → List ParameterInfo
  unfolding own_method
  get_method_parameters class_name name cs = elim (own_method class_name name cs) [
    | none ↦ []
    | some m ↦ m.parameters
  ]

  unfoldable pub get_method_return_type : Bytes → Bytes → Classes E → VarType
  unfolding own_method
  get_method_return_type class_name name cs = elim (own_method class_name name cs) [
    | none ↦ null_type
    | some m ↦ m.return_type
  ]

  unfoldable pub is_method_private : Bytes → Bytes → Classes E → Bool
  unfolding own_method
  is_method_private class_name name cs = elim (own_method class_name name cs) [
    | none ↦ false
    | some m ↦ m.is_private
  ]

  unfoldable pub get_method_names : Bytes → Classes E → List Bytes
  unfolding lookup
  get_method_names class_name cs = elim (lookup class_name cs) [
    | none ↦ []
    | some info ↦ map (λ (m : MethodInfo). m.name) info.methods
  ]

  unfoldable pub is_property_private : Bytes → Bytes → Classes E → Bool
  unfolding lookup find_property
  is_property_private class_name name cs = elim (lookup class_name cs) [
    | none ↦ false
    | some info ↦ elim (find_property name info.properties) [ none ↦ false | some p ↦ p.is_private ]
  ]

  unfoldable pub get_object_property : Bytes → Bytes → Classes E → Value
  unfolding lookup
  get_object_property class_name name cs = elim (lookup class_name cs) [
    | none ↦ null null_type
    | some info ↦ elim (lookup name info.static_properties) [ none ↦ null null_type | some v ↦ v ]
  ]

  unfoldable pub set_object_property : Bytes → Bytes → Value → Classes E → Classes E
  unfolding lookup insert
  set_object_property class_name name v cs = elim (lookup class_name cs) [
    | none ↦ cs
    | some info ↦
        insert class_name (record info { static_properties = insert name v info.static_properties })
          cs
  ]
