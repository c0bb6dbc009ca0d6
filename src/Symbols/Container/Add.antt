-- ===== src/Symbols/Container/Add.antt =====
-- src/Symbols/SymbolContainer.cpp: adding a symbol to the current scope or to a named one.
use voidscript.Base.{Bool, true, false, none, some, Bytes, if◌then◌else◌, String}
use voidscript.Base.Dict.{lookup, insert}
use voidscript.Symbols.Container.{SymbolContainer, current_scope_name}
use voidscript.Symbols.Table.{
  Symbol, Kind, variable, constant, function, method, class_def, enum_def, define, Space, variables,
  constants, functions, methods, space_name,
}
use voidscript.Value.{runtime_error, Result, ok, throws, undefined_behaviour}

-- `scopes_[scope]->define(ns, symbol)`: `operator[]` makes a null pointer where there is no table.
unfoldable pub define_current : Space → Symbol → SymbolContainer → Result SymbolContainer
unfolding lookup insert define
define_current space symbol c = elim (lookup (current_scope_name c) c.scopes) [
  | none ↦ undefined_behaviour
  | some table ↦ ok (record c {
    scopes = insert (current_scope_name c) (define (space_name space) symbol table) c.scopes;
  })
]

-- The overloads that name a scope look for its table first.
unfoldable pub define_in : Space → Symbol → Bytes → SymbolContainer → Result SymbolContainer
unfolding lookup insert define
define_in space symbol scope c = elim (lookup scope c.scopes) [
  | none ↦ throws (runtime_error "Cannot define in non-existent scope")
  | some table ↦
      ok (record c { scopes = insert scope (define (space_name space) symbol table) c.scopes })
]

abbrev pub is_function : Kind → Bool
is_function function = true
is_function _ = false

abbrev pub is_function_or_method : Kind → Bool
is_function_or_method function = true
is_function_or_method method = true
is_function_or_method _ = false

abbrev pub is_variable : Kind → Bool
is_variable variable = true
is_variable _ = false

abbrev pub is_constant : Kind → Bool
is_constant constant = true
is_constant _ = false

abbrev pub is_class : Kind → Bool
is_class class_def = true
is_class _ = false

abbrev pub is_enum : Kind → Bool
is_enum enum_def = true
is_enum _ = false

abbrev pub checked : Bool → String → Result SymbolContainer → Result SymbolContainer
checked good msg r = if good then r else throws (runtime_error msg)

unfoldable pub add_function : Symbol → SymbolContainer → Result SymbolContainer
unfolding define_current
add_function s c =
    checked (is_function s.kind) "Symbol must be a function to use addFunction"
      (define_current functions s c)

unfoldable pub add_function_in : Symbol → Bytes → SymbolContainer → Result SymbolContainer
unfolding define_in
add_function_in s scope c =
    checked (is_function s.kind) "Symbol must be a function to use addFunction"
      (define_in functions s scope c)

unfoldable pub add_method : Symbol → SymbolContainer → Result SymbolContainer
unfolding define_current
add_method s c =
    checked (is_function_or_method s.kind) "Symbol must be a function or method to use addMethod"
      (define_current methods s c)

unfoldable pub add_method_in : Symbol → Bytes → SymbolContainer → Result SymbolContainer
unfolding define_in
add_method_in s scope c =
    checked (is_function_or_method s.kind) "Symbol must be a function or method to use addMethod"
      (define_in methods s scope c)

unfoldable pub add_variable : Symbol → SymbolContainer → Result SymbolContainer
unfolding define_current
add_variable s c =
    checked (is_variable s.kind) "Symbol must be a variable to use addVariable"
      (define_current variables s c)

unfoldable pub add_variable_in : Symbol → Bytes → SymbolContainer → Result SymbolContainer
unfolding define_in
add_variable_in s scope c =
    checked (is_variable s.kind) "Symbol must be a variable to use addVariable"
      (define_in variables s scope c)

unfoldable pub add_constant : Symbol → SymbolContainer → Result SymbolContainer
unfolding define_current
add_constant s c =
    checked (is_constant s.kind) "Symbol must be a constant to use addConstant"
      (define_current constants s c)

unfoldable pub add_constant_in : Symbol → Bytes → SymbolContainer → Result SymbolContainer
unfolding define_in
add_constant_in s scope c =
    checked (is_constant s.kind) "Symbol must be a constant to use addConstant"
      (define_in constants s scope c)

unfoldable pub add_class : Symbol → SymbolContainer → Result SymbolContainer
unfolding define_current
add_class s c =
    checked (is_class s.kind) "Symbol must be a class to use addClass"
      (define_current variables s c)

unfoldable pub add_class_in : Symbol → Bytes → SymbolContainer → Result SymbolContainer
unfolding define_in
add_class_in s scope c =
    checked (is_class s.kind) "Symbol must be a class to use addClass"
      (define_in variables s scope c)

unfoldable pub add_enum : Symbol → SymbolContainer → Result SymbolContainer
unfolding define_current
add_enum s c =
    checked (is_enum s.kind) "Symbol must be an enum to use addEnum" (define_current variables s c)

unfoldable pub add_enum_in : Symbol → Bytes → SymbolContainer → Result SymbolContainer
unfolding define_in
add_enum_in s scope c =
    checked (is_enum s.kind) "Symbol must be an enum to use addEnum" (define_in variables s scope c)

abbrev add_kind : Kind → Symbol → SymbolContainer → Result SymbolContainer
add_kind variable = add_variable
add_kind constant = add_constant
add_kind function = add_function
add_kind method = add_method
add_kind class_def = add_class
add_kind enum_def = add_enum

-- `add` dispatches on the kind.
unfoldable pub add : Symbol → SymbolContainer → Result SymbolContainer
unfolding add_variable add_constant add_function add_method add_class add_enum
add s = add_kind s.kind s
