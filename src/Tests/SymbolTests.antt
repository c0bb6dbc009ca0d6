-- ===== src/Tests/SymbolTests.antt =====
-- The symbol tables and scopes of src/Symbols at fixed inputs.
use voidscript.Base.Dict.{insert, lookup}
use voidscript.Base.Int.{pos}
use voidscript.Base.{
  ◌&&◌, [], ◌∷◌, none, some, codes, Bytes, bytes_eq, if◌then◌else◌, ◌≡◌, ◌≢◌, ◌⊎◌, refl,
}
use voidscript.Symbols.Container.Add.{define_current, add_variable, add_method}
use voidscript.Symbols.Container.Lookup.Shadowing.{
  get_variable-add_variable, get_variable-leave, get_method-add_method,
}
use voidscript.Symbols.Container.Lookup.{
  get_variable, get_method, symbol_exists, get_symbol, is_some, symbol_exists-get_symbol,
}
use voidscript.Symbols.Container.Reachable.{
  creates, cleans, here, next, Emptied, Step-IsValid, fresh, fresh-IsValid,
  define_current_reachable,
}
use voidscript.Symbols.Container.Stack.{HasTables, validate_and_cleanup_scope_stack_empties}
use voidscript.Symbols.Container.{
  SymbolContainer, create, enter_previous_scope, validate_and_cleanup_scope_stack,
}
use voidscript.Symbols.Table.Refinement.{SymbolTable-refines_map, same_space}
use voidscript.Symbols.Table.{
  Symbol, variable, method, Space, variables, functions, methods, space_name, define, get, remove,
  clear,
}
use voidscript.Value.{integer, ok}

abbrev x_symbol : Symbol
x_symbol = record {
  name = codes "x";
  value = integer (pos 1);
  context = [];
  kind = variable;
  signature = none;
}

abbrev run_symbol : Symbol
run_symbol = record {
  name = codes "run";
  value = integer (pos 1);
  context = [];
  kind = method;
  signature = none;
}

abbrev globals : SymbolContainer
globals = fresh (codes "g")

-- The container with a symbol added to a scope whose table is empty.
abbrev pub with_symbol : Space → Symbol → Bytes → SymbolContainer → SymbolContainer
with_symbol space s scope c = record c {
  scopes = insert scope (define (space_name space) s []) c.scopes;
}

SymbolTable-refines_map_example :
    (get (space_name functions) (codes "x") (define (space_name variables) x_symbol []) ≡ (
      if same_space variables functions && bytes_eq (codes "x") (codes "x")
      then some x_symbol
      else get (space_name functions) (codes "x") []))
    × (get (space_name functions) (codes "x") (remove (space_name variables) (codes "y") []) ≡ (
        if same_space functions variables && bytes_eq (codes "x") (codes "y")
        then none
        else get (space_name functions) (codes "x") []))
    × (get (space_name functions) (codes "x") (clear (space_name variables) []) ≡ (
        if same_space variables functions then none else get (space_name functions) (codes "x") []))
SymbolTable-refines_map_example =
    SymbolTable-refines_map variables functions x_symbol (codes "y") (codes "x") []

-- The cleanup after `f` takes out `g`, the only scope.
Step-IsValid_example :
    HasTables (validate_and_cleanup_scope_stack (codes "f") globals)
    × (((validate_and_cleanup_scope_stack (codes "f") globals).stack ≢ [])
        ⊎ (((validate_and_cleanup_scope_stack (codes "f") globals).stack ≡ [])
            × Emptied globals (validate_and_cleanup_scope_stack (codes "f") globals)))
Step-IsValid_example = Step-IsValid (cleans (codes "f") globals) (fresh-IsValid (codes "g"))

-- A scope is entered after a cleanup that left none.
abbrev cleaned : SymbolContainer
cleaned = create (codes "h") (validate_and_cleanup_scope_stack (codes "g") globals)

cleaned-active : cleaned.stack ≢ []
unfolding create
cleaned-active = λ e. cc

define_current_reachable_example :
    (c' : SymbolContainer) × (define_current variables x_symbol cleaned ≡ ok c')
    × (c'.stack ≡ cleaned.stack)
define_current_reachable_example =
    define_current_reachable (codes "g") cleaned variables x_symbol
      (next (next here (cleans (codes "g") globals))
        (creates (codes "h") (validate_and_cleanup_scope_stack (codes "g") globals)))
      cleaned-active

add_x : add_variable x_symbol globals ≡ ok (with_symbol variables x_symbol (codes "g") globals)
unfolding add_variable create
add_x = refl

get_variable-add_variable_example :
    get_variable (codes "x") (with_symbol variables x_symbol (codes "g") globals)
    ≡ (if bytes_eq (codes "x") (codes "x") then some x_symbol else get_variable (codes "x") globals)
get_variable-add_variable_example =
    get_variable-add_variable x_symbol globals (with_symbol variables x_symbol (codes "g") globals)
      (codes "x") (fresh-IsValid (codes "g")) add_x

no_scope_f : lookup (codes "f") globals.scopes ≡ none
unfolding lookup create insert
no_scope_f = refl

add_x_inside :
    add_variable x_symbol (create (codes "f") globals)
    ≡ ok (with_symbol variables x_symbol (codes "f") (create (codes "f") globals))
unfolding add_variable create
add_x_inside = refl

get_variable-leave_example :
    get_variable (codes "x") (
      enter_previous_scope
        (with_symbol variables x_symbol (codes "f") (create (codes "f") globals)))
    ≡ get_variable (codes "x") globals
get_variable-leave_example =
    get_variable-leave (codes "f") x_symbol globals
      (with_symbol variables x_symbol (codes "f") (create (codes "f") globals)) (codes "x")
      (fresh-IsValid (codes "g")) no_scope_f add_x_inside

no_method : get_method (codes "run") globals ≡ none
unfolding get_method create
no_method = refl

add_run : add_method run_symbol globals ≡ ok (with_symbol methods run_symbol (codes "g") globals)
unfolding add_method create
add_run = refl

get_method-add_method_example :
    get_method (codes "run") (with_symbol methods run_symbol (codes "g") globals) ≡ none
get_method-add_method_example =
    get_method-add_method run_symbol globals (with_symbol methods run_symbol (codes "g") globals)
      (fresh-IsValid (codes "g")) refl no_method add_run

one_scope : globals.stack ≡ codes "g" ∷ []
unfolding create
one_scope = refl

validate_and_cleanup_scope_stack_empties_example :
    (validate_and_cleanup_scope_stack (codes "other") globals).stack ≡ []
validate_and_cleanup_scope_stack_empties_example =
    validate_and_cleanup_scope_stack_empties (codes "other") (codes "g") globals one_scope

symbol_exists-get_symbol_example :
    symbol_exists
      (codes "x")
      (b':' ∷ codes ":variables")
      (with_symbol variables x_symbol (codes "g") globals)
    ≡ is_some (
        get_symbol
          (b':' ∷ codes ":variables")
          (codes "x")
          (with_symbol variables x_symbol (codes "g") globals))
symbol_exists-get_symbol_example =
    symbol_exists-get_symbol b':' (codes ":variables") (codes "x")
      (with_symbol variables x_symbol (codes "g") globals)
