-- ===== src/Symbols/Table/Refinement.antt =====
-- The table refines a map from pairs of a namespace and a name, for the namespaces in use.
use voidscript.Base.{
  Bool, true, false, ◌&&◌, [], ◌∷◌, ◌++◌, none, some, Bytes, codes, bytes_eq, if◌then◌else◌, ◌≡◌,
  refl, ◌∙◌, arith,
}
use voidscript.Base.Dict.{lookup-insert, lookup-erase_if}
use voidscript.Symbols.Table.{
  Symbol, SymbolTable, Space, variables, constants, functions, others, methods, space_name,
  separator, flat_key, define, get, remove, has_prefix, clear,
}

bytes_eq-append : (p a b : Bytes) → bytes_eq (p ++ a) (p ++ b) ≡ bytes_eq a b
bytes_eq-append [] a b = refl
bytes_eq-append (x ∷ p) a b = ground (arith, bytes_eq-append p a b)

-- The two spaces are one.
abbrev pub same_space : Space → Space → Bool
same_space variables variables = true
same_space constants constants = true
same_space functions functions = true
same_space others others = true
same_space methods methods = true
same_space _ _ = false

flat_key-bytes_eq :
    (a b : Space) (x y : Bytes)
    → bytes_eq (flat_key (space_name a) x) (flat_key (space_name b) y)
      ≡ (same_space a b && bytes_eq x y)
unfolding flat_key
flat_key-bytes_eq variables variables x y = bytes_eq-append (codes "::variables::") x y
flat_key-bytes_eq constants constants x y = bytes_eq-append (codes "constants::") x y
flat_key-bytes_eq functions functions x y = bytes_eq-append (codes "::functions::") x y
flat_key-bytes_eq others others x y = bytes_eq-append (codes "::others::") x y
flat_key-bytes_eq methods methods x y = bytes_eq-append (codes "::methods::") x y
flat_key-bytes_eq _ _ x y = refl

-- A definition is found under its own namespace and name, and changes no other entry.
pub get-define :
    (a b : Space) (symbol : Symbol) (name : Bytes) (table : SymbolTable)
    → get (space_name b) name (define (space_name a) symbol table) ≡ (
        if same_space a b && bytes_eq symbol.name name
        then some symbol
        else get (space_name b) name table)
unfolding get define
get-define a b symbol name table =
    lookup-insert (flat_key (space_name a) symbol.name) (flat_key (space_name b) name) symbol table
    ∙ rw (flat_key-bytes_eq a b symbol.name name)

pub get-remove :
    (a b : Space) (gone name : Bytes) (table : SymbolTable)
    → get (space_name b) name (remove (space_name a) gone table)
      ≡ (if same_space b a && bytes_eq name gone then none else get (space_name b) name table)
unfolding get remove
get-remove a b gone name table =
    lookup-erase_if (λ k. bytes_eq k (flat_key (space_name a) gone)) (flat_key (space_name b) name)
      table
    ∙ rw (flat_key-bytes_eq b a name gone)

has_prefix-flat_key :
    (a b : Space) (name : Bytes)
    → has_prefix (space_name a ++ separator) (flat_key (space_name b) name) ≡ same_space a b
unfolding has_prefix flat_key
has_prefix-flat_key variables variables name = refl
has_prefix-flat_key constants constants name = refl
has_prefix-flat_key functions functions name = refl
has_prefix-flat_key others others name = refl
has_prefix-flat_key methods methods name = refl
has_prefix-flat_key _ _ name = refl

pub get-clear :
    (a b : Space) (name : Bytes) (table : SymbolTable)
    → get (space_name b) name (clear (space_name a) table)
      ≡ (if same_space a b then none else get (space_name b) name table)
unfolding get clear
get-clear a b name table =
    lookup-erase_if (has_prefix (space_name a ++ separator)) (flat_key (space_name b) name) table
    ∙ rw (has_prefix-flat_key a b name)

-- On the five namespaces that src/Symbols/SymbolContainer.hpp names, and on every name, a symbol table
-- behaves as a map from pairs of a namespace and a name: after `define`, `remove` or `clear`
-- of one of them a lookup in one of them differs from the one before at just the entries that the
-- operation is about.
pub SymbolTable-refines_map :
    (a b : Space) (symbol : Symbol) (gone name : Bytes) (table : SymbolTable)
    → (get (space_name b) name (define (space_name a) symbol table) ≡ (
        if same_space a b && bytes_eq symbol.name name
        then some symbol
        else get (space_name b) name table))
      × (get (space_name b) name (remove (space_name a) gone table)
          ≡ (if same_space b a && bytes_eq name gone then none else get (space_name b) name table))
      × (get (space_name b) name (clear (space_name a) table)
          ≡ (if same_space a b then none else get (space_name b) name table))
SymbolTable-refines_map a b symbol gone name table =
    (get-define a b symbol name table, get-remove a b gone name table, get-clear a b name table)
