-- ===== src/Interpreter/Functions.antt =====
-- Script functions: how a call finds its function and makes its scope, in src/Interpreter/Nodes/
-- Expression/CallExpressionNode.hpp and src/Interpreter/Nodes/Statement/CallStatementNode.hpp.
use voidscript.Base.{
  ℕ, zero, suc, List, [], ◌∷◌, ◌++◌, Option, none, some, Bytes, codes, if◌then◌else◌, ◌==◌, length,
}
use voidscript.Base.Dict.{Dict, lookup}
use voidscript.Interpreter.Outcome.{
  with_container, match_option, signal, M, Outcome, done, jump, undefined, out_of_fuel, broke,
  continued, returned, failed, Failure, ◌>>◌, pure, on_container,
}
use voidscript.Symbols.Container.Add.{is_function, add_variable}
use voidscript.Symbols.Container.{SymbolContainer, create, current_scope_name}
use voidscript.Symbols.Table.{
  Symbol, SymbolTable, variable, get, separator, has_prefix, functions, space_name,
}
use voidscript.Value.Decimal.{decimal}
use voidscript.Value.{Value, null, VarType, null_type, Error, about_name, arity}

-- `name.substr(0, name.rfind("::"))`, or `none` where there is no `::`.
unfoldable pub before_last_separator : Bytes → Option Bytes
unfolding has_prefix
before_last_separator [] = none
before_last_separator (c ∷ rest) = elim (before_last_separator rest) [
  | some parent ↦ some (c ∷ parent)
  | none ↦ if has_prefix separator (c ∷ rest) then some [] else none
]

-- The function of one scope's table.
unfoldable pub function_of : Bytes → Bytes → Dict SymbolTable → Option Symbol
unfolding lookup get
function_of name ns scopes = elim (lookup ns scopes) [
  | none ↦ none
  | some table ↦ elim (get (space_name functions) name table) [
    | none ↦ none
    | some s ↦ if is_function s.kind then some s else none
  ]
]

-- The search of a call: from the current scope through the scopes that its name is made of.
unfoldable pub find_function : ℕ → Bytes → Bytes → Dict SymbolTable → Option Symbol
unfolding before_last_separator function_of
find_function zero name ns scopes = none
find_function (suc fuel) name ns scopes = elim (function_of name ns scopes) [
  | some s ↦ some s
  | none ↦ elim (before_last_separator ns) [
    | none ↦ none
    | some [] ↦ none
    | some (c ∷ parent) ↦ find_function fuel name (c ∷ parent) scopes
  ]
]

-- The length of the name is enough: each round shortens it.
unfoldable pub called_function : Bytes → SymbolContainer → Option Symbol
unfolding find_function
called_function name c =
    find_function (suc (length (current_scope_name c))) name (current_scope_name c) c.scopes

-- The name under which the operations of a function are kept.
unfoldable pub canonical_name : Bytes → Symbol → Bytes
canonical_name name s = elim s.context [
  | [] ↦ name
  | c ∷ context ↦ (c ∷ context) ++ (separator ++ name)
]

abbrev pub parameters_of : Symbol → List (Bytes × VarType)
parameters_of s = elim s.signature [ none ↦ [] | some g ↦ g.parameters ]

abbrev pub return_type_of : Symbol → VarType
return_type_of s = elim s.signature [ none ↦ null_type | some g ↦ g.return_type ]

abbrev pub call_scope_name : Bytes → ℕ → Bytes
call_scope_name canonical id = canonical ++ (codes "::call_" ++ decimal id)

-- A new scope under a number that `get_unique_call_id` hands out once.
unfoldable pub enter_call : Bytes → M Bytes
unfolding create decimal
enter_call canonical st = done (call_scope_name canonical st.next_call_id) (record {
  container = create (call_scope_name canonical st.next_call_id) st.container;
  next_call_id = suc st.next_call_id;
})

unfoldable pub bind_parameters : List (Bytes × VarType) → List Value → Bytes → M (Unit {0})
unfolding add_variable
bind_parameters ((name, t) ∷ ps) (v ∷ vs) scope =
    on_container (
      add_variable
        (record { name = name; value = v; context = scope; kind = variable; signature = none }))
    >> bind_parameters ps vs scope
bind_parameters _ _ scope = pure tt

-- The function that is called, with as many arguments as it has parameters. The two call nodes
-- throw different exceptions here.
unfoldable pub resolve : (Error → Failure) → Bytes → List Value → M Symbol
unfolding called_function
resolve complain name vs = with_container λ c.
    match_option (called_function name c)
      (signal (failed (complain (about_name "Function not found" name))))
      λ s.
        if length (parameters_of s) == length vs
        then pure s
        else signal (failed (complain (arity name (length (parameters_of s)) (length vs))))

-- The value of a body: what a `return` gives, else the null value.
abbrev pub body_value : Outcome (Unit {0}) → Outcome Value
body_value (done u st) = done (null null_type) st
body_value (jump (returned v) st) = done v st
body_value (jump broke st) = jump broke st
body_value (jump continued st) = jump continued st
body_value (jump (failed f) st) = jump (failed f) st
body_value undefined = undefined
body_value out_of_fuel = out_of_fuel

abbrev pub catching_return : M (Unit {0}) → M Value
catching_return m st = body_value (m st)
