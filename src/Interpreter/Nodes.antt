-- ===== src/Interpreter/Nodes.antt =====
-- What the nodes of src/Interpreter/Nodes are made of: conditions, the scopes of loops, the
-- handlers of exceptions, and the values that they convert.
use voidscript.Base.{
  String, Bool, true, false, not, ◌&&◌, ◌||◌, List, [], ◌++◌, Option, none, some, Bytes, codes,
  bytes_eq, if◌then◌else◌,
}
use voidscript.Base.Dict.{lookup}
use voidscript.Base.Int.{eqb_ℤ, ltb_ℤ}
use voidscript.Interpreter.Outcome.{
  modify_container, State, M, Outcome, done, jump, undefined, out_of_fuel, Failure, standard,
  exception, thrown, wrapped, broke, continued, returned, failed, ◌>>◌, pure, raise, lift_result,
  on_container, as_base, catching,
}
use voidscript.Interpreter.Syntax.{Expr, Position, Stmt, Block}
use voidscript.Interpreter.Variables.{Classes}
use voidscript.Operators.Access.{same_type}
use voidscript.Symbols.Container.{
  SymbolContainer, create, enter, enter_previous_scope, current_scope_name,
}
use voidscript.Symbols.Table.{separator}
use voidscript.Value.Decimal.{decimal}
use voidscript.Value.Floats.{Floats}
use voidscript.Value.{
  Value, integer, string, boolean, object, Members, integer_type, string_type, boolean_type,
  enum_type, type_of, is_null, find, Error, runtime_error, type_mismatch, Result, ok, throws,
}

-- What surrounds the nodes: the floating-point unit, the registry of classes, the registered native
-- functions, `Operations::Container::getAll`, and the text of an exception.
pub record Program : Type 0 where
  pub floats : Floats
  pub classes : Classes
  pub natives : Bytes → Option (List Value → M Value)
  pub operations : Bytes → Block
  pub what : Failure → Bytes

-- `evaluate` of an expression and `interpret` of a statement.
pub record Handlers : Type 0 where
  pub evaluate : Expr → M Value
  pub execute : Stmt → M (Unit {0})

abbrev pub cannot_convert : String → Error
cannot_convert msg = runtime_error msg

-- `toBool` of a value that is known to be of the boolean type.
abbrev pub to_bool : Value → Result Bool
to_bool (boolean b) = ok b
to_bool _ = throws (cannot_convert "Cannot convert NULL value (bool operator)")

-- The conversion of a value of the object type to its map.
abbrev pub to_members : Value → Result Members
to_members (object m) = ok m
to_members _ = throws (cannot_convert "Cannot convert NULL value (universal conversion operator)")

-- A condition: a value of the boolean type, else an exception; `read` takes its value.
unfoldable pub condition : String → (Value → Result Bool) → Value → M Bool
unfolding type_of
condition msg read v =
    if same_type (type_of v) boolean_type then lift_result (read v) else raise (runtime_error msg)

abbrev pub leave_scope : State → State
leave_scope st = record st { container = enter_previous_scope st.container }

abbrev pub loop_scope_name : String → Position → SymbolContainer → Bytes
loop_scope_name kind at c =
    current_scope_name c
    ++ (separator ++ (codes kind ++ (decimal at.line ++ (codes "_" ++ decimal at.column))))

-- The scope of a loop is made when the loop is first met, and entered again after that.
unfoldable pub enter_loop_scope : String → Position → M (Unit {0})
unfolding lookup create enter decimal
enter_loop_scope kind at = on_container λ c. elim (lookup (loop_scope_name kind at c) c.scopes) [
  | none ↦ ok (create (loop_scope_name kind at c) c)
  | some table ↦ enter (loop_scope_name kind at c) c
]

-- What a loop does in its scope, which an exception leaves too.
unfoldable pub in_loop_scope : String → Position → M (Unit {0}) → M (Unit {0})
unfolding enter_loop_scope enter_previous_scope
in_loop_scope kind at body =
    enter_loop_scope kind at
    >> catching as_base leave_scope body
    >> modify_container enter_previous_scope

-- The types that a `switch` can look at.
abbrev pub is_switchable : Value → Bool
is_switchable v =
    not (is_null v)
    && (same_type (type_of v) integer_type
        || same_type (type_of v) enum_type
        || same_type (type_of v) string_type)

abbrev pub is_text : Value → Bool
is_text v = same_type (type_of v) string_type

unfoldable pub same_kind : Value → Value → M Bool
unfolding type_of
same_kind (string a) (string b) = pure (bytes_eq a b)
same_kind (integer a) (integer b) = pure (eqb_ℤ a b)
same_kind a b =
    raise (
      type_mismatch "Case type does not match the switch expression type" [] (type_of a)
        (type_of b))

-- The comparison of a `switch`, between two texts or two numbers.
unfoldable pub same_case : Value → Value → M Bool
unfolding type_of is_null same_kind
same_case v w =
    if not (is_switchable w)
    then raise
        (runtime_error "Case expression must evaluate to a non-null integer, enum or string value.")
    else same_kind v w

-- `break` in a case ends the `switch`.
abbrev pub case_body : Outcome (Unit {0}) → Outcome Bool
case_body (done u st) = done false st
case_body (jump broke st) = done true st
case_body (jump continued st) = jump continued st
case_body (jump (returned v) st) = jump (returned v) st
case_body (jump (failed f) st) = jump (failed (as_base f)) st
case_body undefined = undefined
case_body out_of_fuel = out_of_fuel

-- `catch` takes every exception but the signals.
abbrev pub after_try :
    (Failure → Bytes) → (Value → M (Unit {0})) → Outcome (Unit {0}) → Outcome (Unit {0})
after_try what handler (jump (failed (thrown v)) st) = handler v st
after_try what handler (jump (failed (standard e)) st) = handler (string (what (standard e))) st
after_try what handler (jump (failed (exception e)) st) = handler (string (what (exception e))) st
after_try what handler (jump (failed (wrapped f)) st) = handler (string (what (wrapped f))) st
after_try what handler (jump broke st) = jump broke st
after_try what handler (jump continued st) = jump continued st
after_try what handler (jump (returned v) st) = jump (returned v) st
after_try what handler (done u st) = done u st
after_try what handler undefined = undefined
after_try what handler out_of_fuel = out_of_fuel

-- A comparison that was kept as an object is carried out when it is returned.
unfoldable pub compared : Bytes → Value → Value → Value → Value
compared op (integer l) (integer r) before =
    if bytes_eq op (codes ">")
    then boolean (ltb_ℤ r l)
    else if bytes_eq op (codes "<")
    then boolean (ltb_ℤ l r)
    else if bytes_eq op (codes ">=")
    then boolean (not (ltb_ℤ l r))
    else if bytes_eq op (codes "<=")
    then boolean (not (ltb_ℤ r l))
    else if bytes_eq op (codes "==")
    then boolean (eqb_ℤ l r)
    else if bytes_eq op (codes "!=")
    then boolean (not (eqb_ℤ l r))
    else boolean false
compared op l r before = before

unfoldable pub returned_value : Value → Value
unfolding compared find
returned_value (object m) = elim (find (codes "left") m) [
  | none ↦ object m
  | some l ↦ elim (find (codes "right") m) [
    | none ↦ object m
    | some r ↦ elim (find (codes "operator") m) [
      | some (string op) ↦ compared op l r (object m)
      | _ ↦ object m
    ]
  ]
]
returned_value v = v
