-- ===== src/Symbols/Classes.antt =====
-- The registry of classes of src/Symbols/SymbolContainer.cpp and .hpp: what is known of a class, its
-- properties and its methods. `E` is the type of the parsed expressions of src/Parser. The pointer to
-- the module of a class is left out.
pub mod Members
pub mod Ranks
pub mod Properties
pub mod Methods
use voidscript.Base.{
  ℕ, zero, suc, Bool, true, false, List, [], ◌∷◌, ◌++◌, map, Option, none, some, Bytes, bytes_eq,
  if◌then◌else◌, String, ◌||◌,
}
use voidscript.Base.Dict.{Dict, lookup, insert}
use voidscript.Symbols.Container.{is_empty}
use voidscript.Symbols.Table.{separator}
use voidscript.Value.{Value, VarType, null_type, null, Result, ok, throws, ◌>>=◌, about_name}

-- `FunctionParameterInfo`
pub record ParameterInfo : Type 0 where
  pub name : Bytes
  pub type : VarType
  pub description : Bytes
  pub is_optional : Bool
  pub interpolate : Bool

pub record FunctionDoc : Type 0 where
  pub name : Bytes
  pub return_type : VarType
  pub parameter_list : List ParameterInfo
  pub description : Bytes

pub record PropertyInfo (E : Type 0) : Type 0 where
  pub name : Bytes
  pub type : VarType
  pub default_value_expr : Option E
  pub is_private : Bool

abbrev pub NativeMethod : Type 0
NativeMethod = List Value → Result Value

pub record MethodInfo : Type 0 where
  pub name : Bytes
  pub qualified_name : Bytes
  pub return_type : VarType
  pub parameters : List ParameterInfo
  pub is_private : Bool
  pub native_implementation : Option NativeMethod
  pub documentation : FunctionDoc

-- A class without a parent has the empty name for one.
pub record ClassInfo (E : Type 0) : Type 0 where
  pub name : Bytes
  pub parent_class : Bytes
  pub properties : List (PropertyInfo E)
  pub methods : List MethodInfo
  pub static_properties : Dict Value

abbrev pub Classes : Type 0 → Type 0
Classes E = Dict (ClassInfo E)

abbrev pub is_some {ℓ} : {A : Type ℓ} → Option A → Bool
is_some none = false
is_some (some a) = true

-- The first method of a name, in the order in which they were added.
unfoldable pub find_method : Bytes → List MethodInfo → Option MethodInfo
find_method name [] = none
find_method name (m ∷ rest) = if bytes_eq m.name name then some m else find_method name rest

abbrev pub member_name : Bytes → Bytes → Bytes
member_name class_name name = class_name ++ (separator ++ name)

abbrev pub new_method :
    Bytes → Bytes → Option NativeMethod → VarType → List ParameterInfo → Bool → Bytes → MethodInfo
new_method class_name name native type parameters is_private description = record {
  name = name;
  qualified_name = member_name class_name name;
  return_type = type;
  parameters = parameters;
  is_private = is_private;
  native_implementation = native;
  documentation = record {
    name = member_name class_name name;
    return_type = type;
    parameter_list = parameters;
    description = description;
  };
}

unfoldable pub was_visited : Bytes → List Bytes → Bool
was_visited name [] = false
was_visited name (v ∷ rest) = bytes_eq v name || was_visited name rest

module _ {E : Type 0} where
  unfoldable pub find_property : Bytes → List (PropertyInfo E) → Option (PropertyInfo E)
  find_property name [] = none
  find_property name (p ∷ rest) = if bytes_eq p.name name then some p else find_property name rest

  -- `hasClass`: its counter and its set of names are empty whenever it is called.
  unfoldable pub has_class : Bytes → Classes E → Bool
  unfolding lookup
  has_class name cs = is_some (lookup name cs)

  unfoldable pub get_class_info : Bytes → Classes E → Result (ClassInfo E)
  unfolding lookup
  get_class_info name cs = elim (lookup name cs) [
    | none ↦ throws (about_name "Class not found" name)
    | some info ↦ ok info
  ]

  abbrev pub new_class : Bytes → Bytes → ClassInfo E
  new_class name parent = record {
    name = name;
    parent_class = parent;
    properties = [];
    methods = [];
    static_properties = [];
  }

  -- `registerClass` of a class without a parent.
  unfoldable pub register_class : Bytes → Classes E → Result (Classes E)
  unfolding has_class insert
  register_class name cs =
      if has_class name cs
      then throws (about_name "Class already registered" name)
      else ok (insert name (new_class name []) cs)

  -- `registerClass` of a class that inherits.
  unfoldable pub register_class_under : Bytes → Bytes → Classes E → Result (Classes E)
  unfolding has_class insert
  register_class_under name parent cs =
      if has_class name cs
      then throws (about_name "Class already registered" name)
      else if has_class parent cs
      then ok (insert name (new_class name parent) cs)
      else throws (about_name "Parent class not found" parent)

  unfoldable pub add_property :
      Bytes → Bytes → VarType → Bool → Option E → Classes E → Result (Classes E)
  unfolding get_class_info find_property insert
  add_property class_name name type is_private default cs = get_class_info class_name cs >>= λ info.
      if is_some (find_property name info.properties)
      then throws (about_name "Property already exists in class" (member_name class_name name))
      else ok (
          insert class_name
            (record info {
              properties =
                  info.properties
                  ++ (record {
                    name = name;
                    type = type;
                    default_value_expr = default;
                    is_private = is_private;
                  }
                      ∷ []);
            })
            cs)

  -- A method goes to the end of the list of its class.
  unfoldable pub push_method : Bytes → MethodInfo → Classes E → Result (Classes E)
  unfolding get_class_info find_method insert
  push_method class_name m cs = get_class_info class_name cs >>= λ info.
      if is_some (find_method m.name info.methods)
      then throws (about_name "Method already exists in class" (member_name class_name m.name))
      else ok (insert class_name (record info { methods = info.methods ++ (m ∷ []) }) cs)

  -- `addMethod` of the registry: a method of a script.
  unfoldable pub add_class_method :
      Bytes → Bytes → VarType → List ParameterInfo → Bool → Classes E → Result (Classes E)
  unfolding push_method
  add_class_method class_name name type parameters is_private =
      push_method class_name (new_method class_name name none type parameters is_private [])

  unfoldable pub add_native_method :
      Bytes
      → Bytes
      → NativeMethod
      → VarType
      → List ParameterInfo
      → Bool
      → Bytes
      → Classes E
      → Result (Classes E)
  unfolding push_method
  add_native_method class_name name native type parameters is_private description =
      push_method class_name
        (new_method class_name name (some native) type parameters is_private description)

  -- `hasProperty`, which goes up to the parents without a bound of its own; `none` without fuel.
  unfoldable pub has_property : ℕ → Bytes → Bytes → Classes E → Option Bool
  unfolding lookup find_property
  has_property zero class_name name cs = none
  has_property (suc fuel) class_name name cs = elim (lookup class_name cs) [
    | none ↦ some false
    | some info ↦
        let inherited = has_property fuel info.parent_class name cs in
        if is_some (find_property name info.properties)
        then some true
        else if is_empty info.parent_class
        then some false
        else inherited
  ]

  -- `hasMethodInternal`; `left` is what is left of the 11 classes that it looks at.
  unfoldable pub has_method_internal : ℕ → Bytes → Bytes → List Bytes → Classes E → Bool
  unfolding was_visited lookup find_method
  has_method_internal zero class_name name visited cs = false
  has_method_internal (suc left) class_name name visited cs =
      if was_visited class_name visited then false else elim (lookup class_name cs) [
        | none ↦ false
        | some info ↦
            let inherited =
              has_method_internal left info.parent_class name (class_name ∷ visited) cs in
            if is_some (find_method name info.methods)
            then true
            else if is_empty info.parent_class
            then false
            else inherited
      ]

  unfoldable pub has_method : Bytes → Bytes → Classes E → Bool
  unfolding has_method_internal
  has_method class_name name cs = has_method_internal 11 class_name name [] cs
