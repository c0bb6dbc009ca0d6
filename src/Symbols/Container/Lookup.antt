-- ===== src/Symbols/Container/Lookup.antt =====
-- src/Symbols/SymbolContainer.hpp and src/Symbols/SymbolContainer.cpp: looking a symbol up through
-- the active scopes.
pub mod Shadowing
use voidscript.Base.{
  ℕ, true, false, ◌≡◌, refl, arith, Bool, List, [], ◌∷◌, Option, none, some, Bytes, if◌then◌else◌,
}
use voidscript.Base.Dict.{Dict, lookup}
use voidscript.Symbols.Container.Add.{is_variable, is_constant, is_enum, is_function}
use voidscript.Symbols.Container.{SymbolContainer, current_scope_name}
use voidscript.Symbols.Table.{
  Symbol, SymbolTable, Kind, get, exists, Space, variables, constants, functions, methods,
  space_name,
}

-- The loops over the stack, from the innermost scope outwards: the first symbol of the namespace
-- that passes the test of the kind. A scope whose symbol is of another kind is passed over.
unfoldable pub find_in_stack :
    Space → (Kind → Bool) → Bytes → Dict SymbolTable → List Bytes → Option Symbol
unfolding lookup get
find_in_stack space wanted name scopes [] = none
find_in_stack space wanted name scopes (scope ∷ rest) =
    let outer = find_in_stack space wanted name scopes rest in
    elim (lookup scope scopes) [
      | none ↦ outer
      | some table ↦ elim (get (space_name space) name table) [
        | none ↦ outer
        | some s ↦ if wanted s.kind then some s else outer
      ]
    ]

unfoldable pub get_variable : Bytes → SymbolContainer → Option Symbol
unfolding find_in_stack
get_variable name c = find_in_stack variables is_variable name c.scopes c.stack

unfoldable pub get_constant : Bytes → SymbolContainer → Option Symbol
unfolding find_in_stack
get_constant name c = find_in_stack constants is_constant name c.scopes c.stack

unfoldable pub get_enum : Bytes → SymbolContainer → Option Symbol
unfolding find_in_stack
get_enum name c = find_in_stack variables is_enum name c.scopes c.stack

unfoldable pub get_function : Bytes → SymbolContainer → Option Symbol
unfolding find_in_stack
get_function name c = find_in_stack functions is_function name c.scopes c.stack

-- `getMethod` asks for a symbol of kind `Function`.
unfoldable pub get_method : Bytes → SymbolContainer → Option Symbol
unfolding find_in_stack
get_method name c = find_in_stack methods is_function name c.scopes c.stack

-- The symbol of one scope, if it is of the kind that is asked for.
unfoldable pub get_in_scope :
    Space → (Kind → Bool) → Bytes → Bytes → SymbolContainer → Option Symbol
unfolding lookup get
get_in_scope space wanted scope name c = elim (lookup scope c.scopes) [
  | none ↦ none
  | some table ↦ elim (get (space_name space) name table) [
    | none ↦ none
    | some s ↦ if wanted s.kind then some s else none
  ]
]

unfoldable pub get_variable_in : Bytes → Bytes → SymbolContainer → Option Symbol
unfolding get_in_scope
get_variable_in scope name c = get_in_scope variables is_variable scope name c

unfoldable pub get_constant_in : Bytes → Bytes → SymbolContainer → Option Symbol
unfolding get_in_scope
get_constant_in scope name c = get_in_scope constants is_constant scope name c

unfoldable pub get_enum_in : Bytes → Bytes → SymbolContainer → Option Symbol
unfolding get_in_scope
get_enum_in scope name c = get_in_scope variables is_enum scope name c

unfoldable pub get_function_in : Bytes → Bytes → SymbolContainer → Option Symbol
unfolding get_in_scope
get_function_in scope name c = get_in_scope functions is_function scope name c

-- `get`: the first symbol of the namespace on the way out.
unfoldable pub get_from : Bytes → Bytes → Dict SymbolTable → List Bytes → Option Symbol
unfolding lookup get
get_from ns name scopes [] = none
get_from ns name scopes (scope ∷ rest) =
    let outer = get_from ns name scopes rest in
    elim (lookup scope scopes) [
      | none ↦ outer
      | some table ↦ elim (get ns name table) [ none ↦ outer | some s ↦ some s ]
    ]

unfoldable pub get_symbol : Bytes → Bytes → SymbolContainer → Option Symbol
unfolding get_from
get_symbol ns name c = get_from ns name c.scopes c.stack

unfoldable pub exists_from : Bytes → Bytes → Dict SymbolTable → List Bytes → Bool
unfolding lookup exists
exists_from ns name scopes [] = false
exists_from ns name scopes (scope ∷ rest) =
    let outer = exists_from ns name scopes rest in
    elim (lookup scope scopes) [
      | none ↦ outer
      | some table ↦ if exists ns name table then true else outer
    ]

-- `exists`: without a namespace the name of the current scope stands for one.
unfoldable pub symbol_exists : Bytes → Bytes → SymbolContainer → Bool
unfolding exists_from
symbol_exists name [] c = exists_from (current_scope_name c) name c.scopes c.stack
symbol_exists name (b ∷ ns) c = exists_from (b ∷ ns) name c.scopes c.stack

abbrev pub is_some : Option Symbol → Bool
is_some none = false
is_some (some s) = true

exists_from-get_from :
    (ns name : Bytes) (scopes : Dict SymbolTable) (stack : List Bytes)
    → exists_from ns name scopes stack ≡ is_some (get_from ns name scopes stack)
unfolding exists_from get_from exists get
exists_from-get_from ns name scopes [] = refl
exists_from-get_from ns name scopes (scope ∷ rest) =
    ground (arith, exists_from-get_from ns name scopes rest)

-- In a namespace that is named, `exists` tells whether `get` finds a symbol.
pub symbol_exists-get_symbol :
    (b : ℕ) (ns name : Bytes) (c : SymbolContainer)
    → symbol_exists name (b ∷ ns) c ≡ is_some (get_symbol (b ∷ ns) name c)
unfolding symbol_exists get_symbol
symbol_exists-get_symbol b ns name c = exists_from-get_from (b ∷ ns) name c.scopes c.stack
