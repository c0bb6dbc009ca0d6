-- ===== src/Interpreter/Scopes/Variables.antt =====
-- Declarations, assignments and the binding of variables keep the stack of scopes.
use voidscript.Base.{Bool, true, false, List, [], ◌∷◌, none, arith, Bytes, ◌≡◌}
use voidscript.Interpreter.Outcome.{modify_container}
use voidscript.Interpreter.Scopes.Keeps.{Exit, Keeps, Keeps-bind}
use voidscript.Interpreter.Functions.{bind_parameters}
use voidscript.Interpreter.Scopes.Rules.{
  KeepsStack, Keeps-on_container, Keeps-modify_container, Keeps-pure, keeping,
}
use voidscript.Interpreter.Variables.{
  Classes, declare_value, declare_new, declared_value, add_declared, resolved_type, coerced,
  assigned_value, set_in_scope, variable_symbol,
}
use voidscript.Symbols.Container.Add.{
  define_current, define_in, add_variable, add_variable_in, add_constant_in, add,
}
use voidscript.Symbols.Table.{Symbol, variable, constant}
use voidscript.Value.Floats.{Floats}
use voidscript.Value.{Value, VarType, class_type, enum_type, auto_type}

pub add_variable-KeepsStack : (s : Symbol) → KeepsStack (add_variable s)
unfolding add_variable define_current
add_variable-KeepsStack s = record { same_stack = λ c c' e. ground arith }

add_variable_in-KeepsStack : (s : Symbol) (scope : Bytes) → KeepsStack (add_variable_in s scope)
unfolding add_variable_in define_in
add_variable_in-KeepsStack s scope = record { same_stack = λ c c' e. ground arith }

add_constant_in-KeepsStack : (s : Symbol) (scope : Bytes) → KeepsStack (add_constant_in s scope)
unfolding add_constant_in define_in
add_constant_in-KeepsStack s scope = record { same_stack = λ c c' e. ground arith }

-- `add`, of a variable.
pub add-KeepsStack : (s : Symbol) → s.kind ≡ variable → KeepsStack (add s)
unfolding add add_variable define_current
add-KeepsStack s e = record { same_stack = λ c c' h. ground arith }

module _ {x : Exit} where
  pub Keeps-bind_parameters :
      (ps : List (Bytes × VarType)) (vs : List Value) (scope : Bytes)
      → Keeps x (bind_parameters ps vs scope)
  unfolding bind_parameters
  Keeps-bind_parameters ((name, t) ∷ ps) (v ∷ vs) scope =
      Keeps-bind (Keeps-on_container (add_variable-KeepsStack (variable_symbol name v scope)))
        λ u. Keeps-bind_parameters ps vs scope
  Keeps-bind_parameters [] vs scope = Keeps-pure tt
  Keeps-bind_parameters ((name, t) ∷ ps) [] scope = Keeps-pure tt

  pub Keeps-set_in_scope :
      (scope name : Bytes) (v : Value) → Keeps x (modify_container (set_in_scope scope name v))
  unfolding set_in_scope
  Keeps-set_in_scope scope name v = Keeps-modify_container _ λ c. ground arith

  module _ (fl : Floats) where
    Keeps-coerced : (name : Bytes) (t : VarType) (v : Value) → Keeps x (coerced fl name t v)
    Keeps-coerced name t v = search keeping depth 20

    pub Keeps-assigned_value :
        (name : Bytes) (current v : Value) → Keeps x (assigned_value fl name current v)
    unfolding assigned_value
    Keeps-assigned_value name current v = search (keeping, Keeps-coerced) depth 20

    module _ (classes : Classes) where
      Keeps-declared_value :
          (t : VarType) (name : Bytes) (v : Value) → Keeps x (declared_value fl classes t name v)
      unfolding declared_value
      Keeps-declared_value class_type name v = search keeping depth 20
      Keeps-declared_value enum_type name v = search keeping depth 20
      Keeps-declared_value t name v = search (keeping, Keeps-coerced) depth 20

      Keeps-resolved_type :
          (t : VarType) (name : Bytes) (b : Bool) (v : Value) → Keeps x (resolved_type t name b v)
      Keeps-resolved_type auto_type name b v = search keeping
      Keeps-resolved_type t name b v = Keeps-pure t

      Keeps-add_declared :
          (name : Bytes) (is_const : Bool) (scope : Bytes) (v : Value)
          → Keeps x (add_declared name is_const scope v)
      Keeps-add_declared name true scope v = Keeps-on_container (
          add_constant_in-KeepsStack
            (record { name = name; value = v; context = scope; kind = constant; signature = none })
            scope)
      Keeps-add_declared name false scope v =
          Keeps-on_container (add_variable_in-KeepsStack (variable_symbol name v scope) scope)

      Keeps-declare_new :
          (t : VarType) (name : Bytes) (b is_const : Bool) (scope : Bytes) (v : Value)
          → Keeps x (declare_new fl classes t name b is_const scope v)
      unfolding declare_new
      Keeps-declare_new t name b is_const scope v =
          search (keeping, Keeps-resolved_type, Keeps-declared_value, Keeps-add_declared) depth 20

      pub Keeps-declare_value :
          (t : VarType) (name : Bytes) (b is_const : Bool) (v : Value)
          → Keeps x (declare_value fl classes t name b is_const v)
      unfolding declare_value
      Keeps-declare_value t name b is_const v =
          search (keeping, Keeps-declare_new, Keeps-set_in_scope) depth 20
