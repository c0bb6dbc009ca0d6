-- ===== src/Symbols/Container.antt =====
-- src/Symbols/SymbolContainer.cpp and src/Symbols/SymbolContainer.hpp: the scopes and the stack of
-- the active ones. The stack is the list of names with the innermost, `back()`, first.
pub mod Add
pub mod Lookup
pub mod Stack
pub mod Reachable
pub mod Calls
use voidscript.Base.{
  ℕ, suc, Bool, true, false, not, ◌&&◌, List, [], ◌∷◌, ◌++◌, Option, none, some, Bytes, codes,
  bytes_eq, if◌then◌else◌, leb, length,
}
use voidscript.Base.Dict.{Dict, lookup, insert}
use voidscript.Symbols.Table.{SymbolTable}
use voidscript.Value.Decimal.{decimal}
use voidscript.Value.{Error, runtime_error, Result, ok, throws}

-- `scopes_`, `scopeStack_` and the counter of the call frames.
pub record SymbolContainer : Type 0 where
  pub scopes : Dict SymbolTable
  pub stack : List Bytes
  pub next_call_frame_id : ℕ

-- `currentScopeName`
abbrev pub top : List Bytes → Bytes
top [] = []
top (name ∷ _) = name

abbrev pub current_scope_name : SymbolContainer → Bytes
current_scope_name c = top c.stack

-- `create`: a new table under the name, in place of any old one, on top of the stack.
unfoldable pub create : Bytes → SymbolContainer → SymbolContainer
unfolding insert
create name c = record c { scopes = insert name [] c.scopes; stack = name ∷ c.stack }

abbrev pub no_scope : Error
no_scope = runtime_error "Scope does not exist"

unfoldable pub enter : Bytes → SymbolContainer → Result SymbolContainer
unfolding lookup
enter name c = elim (lookup name c.scopes) [
  | some _ ↦ ok (record c { stack = name ∷ c.stack })
  | none ↦ throws no_scope
]

-- `if (scopeStack_.size() > 1) scopeStack_.pop_back();`
abbrev pub pop_all_but_last : List Bytes → List Bytes
pop_all_but_last (_ ∷ below ∷ rest) = below ∷ rest
pop_all_but_last stack = stack

unfoldable pub enter_previous_scope : SymbolContainer → SymbolContainer
enter_previous_scope c = record c { stack = pop_all_but_last c.stack }

-- The stack from the innermost occurrence of the name on, that occurrence left out; `none` if the
-- name does not occur.
unfoldable pub below_name : Bytes → List Bytes → Option (List Bytes)
below_name name [] = none
below_name name (s ∷ rest) = if bytes_eq s name then some rest else below_name name rest

abbrev pub pop_back : List Bytes → List Bytes
pop_back [] = []
pop_back (_ ∷ rest) = rest

-- `validateAndCleanupScopeStack`: `erase(forward_it, end())` takes out the expected scope too.
unfoldable pub cleanup_stack : Bytes → List Bytes → List Bytes
unfolding below_name
cleanup_stack expected stack = elim (below_name expected stack) [
  | some rest ↦ rest
  | none ↦ pop_back stack
]

unfoldable pub validate_and_cleanup_scope_stack : Bytes → SymbolContainer → SymbolContainer
unfolding cleanup_stack
validate_and_cleanup_scope_stack expected c = record c { stack = cleanup_stack expected c.stack }

abbrev pub is_empty : Bytes → Bool
is_empty [] = true
is_empty (_ ∷ _) = false

unfoldable pub enter_previous_scope_with_validation :
    Bytes → SymbolContainer → SymbolContainer × Bool
enter_previous_scope_with_validation expected c =
    if leb (length c.stack) 1
    then (c, false)
    else if not (is_empty expected) && not (bytes_eq (current_scope_name c) expected)
    then (c, false)
    else (record c { stack = pop_back c.stack }, true)

-- `enterFunctionCallScope`: the name of the definition scope, `::call_`, and a number never
-- handed out before.
unfoldable pub enter_function_call_scope : Bytes → SymbolContainer → SymbolContainer × Bytes
unfolding create decimal
enter_function_call_scope base c =
    let name = base ++ (codes "::call_" ++ decimal c.next_call_frame_id) in
    (record (create name c) { next_call_frame_id = suc c.next_call_frame_id }, name)
