-- ===== src/Interpreter/Variables.antt =====
-- Declarations and assignments of variables: src/Interpreter/Nodes/Statement/
-- DeclareVariableStatementNode.hpp and AssignmentStatementNode.hpp (an assignment to a name, with no
-- property path), with `makeClassInstance` of src/Symbols/Value.cpp.
use voidscript.Base.{
  Bool, true, false, ◌||◌, List, [], ◌∷◌, Option, none, some, Bytes, codes, if◌then◌else◌, ◌==◌,
}
use voidscript.Base.Dict.{Dict, lookup, insert}
use voidscript.Base.Int.{pos}
use voidscript.Interpreter.Outcome.{
  M, ◌>>=◌, pure, raise, lift_result, match_option, with_container, modify_container, on_container,
}
use voidscript.Operators.Access.{same_type, try_numeric_coerce}
use voidscript.Symbols.Container.Add.{add_variable_in, add_constant_in, is_variable}
use voidscript.Symbols.Container.{SymbolContainer, current_scope_name}
use voidscript.Symbols.Table.{
  Symbol, SymbolTable, variable, constant, get, flat_key, has_prefix, variables, constants,
  space_name,
}
use voidscript.Value.Floats.{Floats}
use voidscript.Value.Maps
use voidscript.Value.{
  Value, integer, double, float, string, boolean, object, class_instance, null, Members, end,
  VarType, integer_type, double_type, float_type, string_type, boolean_type, object_type,
  class_type, enum_type, null_type, auto_type, type_of, find, about_name, type_mismatch, Result, ok,
  get_string, get_members, set_type, default_value,
}
use voidscript.Value as Results

-- `text.find(part) != npos`
unfoldable pub contains_text : Bytes → Bytes → Bool
unfolding has_prefix
contains_text part [] = has_prefix part []
contains_text part (c ∷ rest) = has_prefix part (c ∷ rest) || contains_text part rest

-- A scope in which a declaration of a name that exists sets the variable.
unfoldable pub is_loop_scope : Bytes → Bool
unfolding contains_text
is_loop_scope name = contains_text (codes "for_") name || contains_text (codes "while_") name

-- What the registry of classes knows of a class: the names and the types of its properties.
abbrev pub Classes : Type 0
Classes = Bytes → Option (List (Bytes × VarType))

-- The value that a property has before it is set.
unfoldable pub property_default : VarType → Value
unfolding default_value
property_default integer_type = integer (pos 0)
property_default double_type = double 0
property_default float_type = float 0
property_default string_type = string []
property_default boolean_type = boolean false
property_default object_type = object end
property_default class_type = null class_type
property_default t = default_value t

-- An instance holds a property under its name with a `$` in front.
abbrev pub instance_name : Bytes → Bytes
instance_name [] = []
instance_name (c ∷ rest) = if c == b'$' then c ∷ rest else b'$' ∷ c ∷ rest

unfoldable pub add_missing : List (Bytes × VarType) → Members → Members
unfolding property_default find Maps.insert
add_missing [] m = m
add_missing ((name, t) ∷ rest) m = add_missing rest (elim (find (instance_name name) m) [
  | some _ ↦ m
  | none ↦ Maps.insert (instance_name name) (property_default t) m
])

-- `ValuePtr::makeClassInstance`
unfoldable pub make_class_instance : Classes → Members → Result Value
unfolding add_missing find get_string
make_class_instance classes m = elim (find (codes "__class__") m) [
  | none ↦ ok (class_instance m)
  | some v ↦
      (Results.◌>>=◌ (get_string v) λ name. elim (classes name) [
        | none ↦ ok (class_instance m)
        | some properties ↦ ok (class_instance (add_missing properties m))
      ])
]

-- The member that names the class of an object.
unfoldable pub class_name_of : Members → Option Value
unfolding find
class_name_of m = elim (find (codes "__class__") m) [
  | some v ↦ some v
  | none ↦ find (codes "$class_name") m
]

-- An object that a class variable is given: an instance if it names its class.
unfoldable pub as_instance : Classes → Value → Result Value
unfolding class_name_of make_class_instance get_members type_of
as_instance classes v =
    (Results.◌>>=◌ (get_members v) λ m. elim (class_name_of m) [
      | none ↦ ok v
      | some name ↦
          if same_type (type_of name) string_type then make_class_instance classes m else ok v
    ])

abbrev pub mismatch : Bytes → VarType → Value → M Value
mismatch name t v = raise (type_mismatch "Type mismatch for variable" name t (type_of v))

abbrev pub variable_symbol : Bytes → Value → Bytes → Symbol
variable_symbol name v scope = record {
  name = name;
  value = v;
  context = scope;
  kind = variable;
  signature = none;
}

abbrev pub add_declared : Bytes → Bool → Bytes → Value → M (Unit {0})
add_declared name true scope v = on_container (
    add_constant_in
      (record { name = name; value = v; context = scope; kind = constant; signature = none }) scope)
add_declared name false scope v =
    on_container (add_variable_in (variable_symbol name v scope) scope)

-- `auto` takes the type of the initialiser.
abbrev pub resolved_type : VarType → Bytes → Bool → Value → M VarType
resolved_type auto_type name initialised v =
    if initialised
    then pure (type_of v)
    else raise (about_name "'auto' variable needs an initialiser to infer its type" name)
resolved_type t name initialised v = pure t

-- `setValue` of the symbol that a table holds under a name.
abbrev pub set_value_in :
    Bytes → SymbolTable → Bytes → Symbol → Value → SymbolContainer → SymbolContainer
set_value_in scope table name s v c = record c {
  scopes =
      insert scope (insert (flat_key (space_name variables) name) (record s { value = v }) table)
        c.scopes;
}

-- `setValue` of a variable of a scope.
unfoldable pub set_in_scope : Bytes → Bytes → Value → SymbolContainer → SymbolContainer
unfolding lookup get
set_in_scope scope name v c = elim (lookup scope c.scopes) [
  | none ↦ c
  | some table ↦ elim (get (space_name variables) name table) [
    | none ↦ c
    | some s ↦ set_value_in scope table name s v c
  ]
]

-- The value that a symbol of a scope has now.
unfoldable pub value_in_scope : Bytes → Bytes → Value → SymbolContainer → Value
unfolding lookup get
value_in_scope scope name before c = elim (lookup scope c.scopes) [
  | none ↦ before
  | some table ↦ elim (get (space_name variables) name table) [ none ↦ before | some s ↦ s.value ]
]

-- The innermost active scope that holds a variable, with its symbol.
unfoldable pub owner : Bytes → Dict SymbolTable → List Bytes → Option (Bytes × Symbol)
unfolding lookup get
owner name scopes [] = none
owner name scopes (scope ∷ rest) =
    let outer = owner name scopes rest in
    elim (lookup scope scopes) [
      | none ↦ outer
      | some table ↦ elim (get (space_name variables) name table) [
        | none ↦ outer
        | some s ↦ if is_variable s.kind then some (scope, s) else outer
      ]
    ]

module _ (fl : Floats) where
  abbrev pub coerced : Bytes → VarType → Value → M Value
  coerced name t v = lift_result (try_numeric_coerce fl v t) >>= λ r.
      match_option r (mismatch name t v) (λ w. pure w)

  -- An assignment keeps the type of the variable, where neither value is of the null type.
  unfoldable pub assigned_value : Bytes → Value → Value → M Value
  unfolding type_of try_numeric_coerce
  assigned_value name current v =
      if same_type (type_of v) null_type
        || same_type (type_of current) null_type
        || same_type (type_of v) (type_of current)
      then pure v
      else coerced name (type_of current) v

module _ (fl : Floats) (classes : Classes) where
  -- The value that a variable of the resolved type is given.
  unfoldable pub declared_value : VarType → Bytes → Value → M Value
  unfolding type_of as_instance set_type try_numeric_coerce
  declared_value class_type name v =
      if same_type (type_of v) object_type
      then lift_result (as_instance classes v)
      else if same_type (type_of v) null_type
      then lift_result (set_type v class_type)
      else if same_type (type_of v) class_type
      then pure v
      else mismatch name class_type v
  declared_value enum_type name v =
      if same_type (type_of v) enum_type
        || same_type (type_of v) integer_type
        || same_type (type_of v) null_type
      then pure v
      else mismatch name enum_type v
  declared_value t name v = if same_type (type_of v) t then pure v else coerced fl name t v

  unfoldable pub declare_new : VarType → Bytes → Bool → Bool → Bytes → Value → M (Unit {0})
  unfolding declared_value set_type type_of
  declare_new t name initialised is_const scope v = do
    typed ← if same_type (type_of v) null_type then lift_result (set_type v t) else pure v
    resolved ← resolved_type t name initialised typed
    w ← declared_value resolved name typed
    add_declared name is_const scope w

  -- The declaration, after its initial value is known, goes to the current scope.
  unfoldable pub declare_value : VarType → Bytes → Bool → Bool → Value → M (Unit {0})
  unfolding declare_new is_loop_scope set_in_scope modify_container
  declare_value t name initialised is_const v = with_container λ c.
      match_option (lookup (current_scope_name c) c.scopes)
        (raise (about_name "Target scope does not exist" (current_scope_name c)))
        λ table.
          match_option (get (space_name variables) name table)
            (match_option (get (space_name constants) name table)
              (declare_new t name initialised is_const (current_scope_name c) v)
              (λ s. raise (about_name "Cannot redefine constant" name)))
            λ s.
              if is_loop_scope (current_scope_name c)
              then modify_container (set_in_scope (current_scope_name c) name v)
              else raise (about_name "Variable already declared" name)
