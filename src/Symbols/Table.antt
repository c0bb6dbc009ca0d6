-- ===== src/Symbols/Table.antt =====
-- src/Symbols/SymbolTable.hpp: one flat map from `namespace::name` to symbols. A `SymbolPtr` that
-- is looked up is the symbol, or `none` for `nullptr`.
pub mod Refinement
use voidscript.Base.{
  ℕ, Bool, true, false, List, [], ◌∷◌, ◌++◌, map, Option, none, some, Bytes, codes, bytes_eq,
  if◌then◌else◌, length, take,
}
use voidscript.Base.Dict.{Dict, lookup, insert, erase_if}
use voidscript.Value.{Value, VarType}

-- `Symbols::Kind`
pub data Kind : Type 0 where
  variable constant function method class_def enum_def : Kind

-- What a `FunctionSymbol` adds to a symbol: its parameters and the type that it returns.
pub record Signature : Type 0 where
  pub parameters : List (Bytes × VarType)
  pub return_type : VarType

-- `Symbols::Symbol`, with the signature of a function.
pub record Symbol : Type 0 where
  pub name : Bytes
  pub value : Value
  pub context : Bytes
  pub kind : Kind
  pub signature : Option Signature

abbrev pub SymbolTable : Type 0
SymbolTable = Dict Symbol

-- `key_separator`
abbrev pub separator : Bytes
separator = codes "::"

unfoldable pub flat_key : Bytes → Bytes → Bytes
flat_key ns name = ns ++ (separator ++ name)

unfoldable pub define : Bytes → Symbol → SymbolTable → SymbolTable
unfolding flat_key insert
define ns symbol table = insert (flat_key ns symbol.name) symbol table

unfoldable pub get : Bytes → Bytes → SymbolTable → Option Symbol
unfolding flat_key lookup
get ns name table = lookup (flat_key ns name) table

unfoldable pub exists : Bytes → Bytes → SymbolTable → Bool
unfolding flat_key lookup
exists ns name table = elim (lookup (flat_key ns name) table) [ none ↦ false | some _ ↦ true ]

unfoldable pub remove : Bytes → Bytes → SymbolTable → SymbolTable
unfolding flat_key erase_if
remove ns name table = erase_if (λ k. bytes_eq k (flat_key ns name)) table

-- `key.rfind(prefix, 0) == 0`
unfoldable pub has_prefix : Bytes → Bytes → Bool
has_prefix prefix key = bytes_eq (take (length prefix) key) prefix

unfoldable pub clear : Bytes → SymbolTable → SymbolTable
unfolding has_prefix erase_if
clear ns table = erase_if (has_prefix (ns ++ separator)) table

unfoldable pub clear_all : SymbolTable → SymbolTable
clear_all table = []

-- The namespaces of src/Symbols/SymbolContainer.hpp.
pub data Space : Type 0 where
  variables constants functions others methods : Space

abbrev pub space_name : Space → Bytes
space_name variables = codes "::variables"
space_name constants = codes "constants"
space_name functions = codes "::functions"
space_name others = codes "::others"
space_name methods = codes "::methods"
