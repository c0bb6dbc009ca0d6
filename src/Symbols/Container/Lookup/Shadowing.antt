-- ===== src/Symbols/Container/Lookup/Shadowing.antt =====
-- What the lookups of src/Symbols/SymbolContainer.hpp find after symbols are added and scopes left.
use voidscript.Base.{
  Bool, true, false, ◌&&◌, List, [], ◌∷◌, Option, none, some, Bytes, bytes_eq, bytes_eq_iff,
  if◌then◌else◌, ◌≡◌, ◌≢◌, refl, ◌∙◌, arith, Bool-cases, Option-cases, inl, inr, All,
}
use voidscript.Base.Dict.{Dict, lookup, insert, lookup-insert}
use voidscript.Symbols.Container.Add.{
  define_current, add_variable, add_method, is_variable, is_function,
}
use voidscript.Symbols.Container.Lookup.{find_in_stack, get_variable, get_method}
use voidscript.Symbols.Container.Stack.{IsValid, has_table}
use voidscript.Symbols.Container.{
  SymbolContainer, create, enter_previous_scope, current_scope_name, top, pop_all_but_last,
}
use voidscript.Symbols.Table.Refinement.{get-define, same_space}
use voidscript.Symbols.Table.{
  Symbol, SymbolTable, Kind, method, define, get, Space, variables, methods, space_name,
}
use voidscript.Value.{ok}

same_space_refl : (a : Space) → same_space a a ≡ true
same_space_refl variables = refl
same_space_refl _ = refl

module _ (space : Space) (name : Bytes) where
  -- What one scope has under the name.
  abbrev entry : Dict SymbolTable → Bytes → Option Symbol
  entry scopes scope = elim (lookup scope scopes) [
    | none ↦ none
    | some table ↦ get (space_name space) name table
  ]

  -- A new table under a name that has none leaves the entries of the other scopes.
  pub entry-insert :
      (new : Bytes) (table : SymbolTable) (scopes : Dict SymbolTable) (s : Bytes)
      → entry (insert new table scopes) s
        ≡ (if bytes_eq new s then get (space_name space) name table else entry scopes s)
  entry-insert new table scopes s = ground (arith, lookup-insert new s table scopes)

module _ (space : Space) (wanted : Kind → Bool) (name : Bytes) where
  abbrev found : Dict SymbolTable → List Bytes → Option Symbol
  found = find_in_stack space wanted name

  abbrev admit : Option Symbol → Option Symbol → Option Symbol
  admit none outer = outer
  admit (some s) outer = if wanted s.kind then some s else outer

  pub found-cons :
      (scopes : Dict SymbolTable) (scope : Bytes) (rest : List Bytes)
      → found scopes (scope ∷ rest) ≡ admit (entry space name scopes scope) (found scopes rest)
  unfolding find_in_stack
  found-cons scopes scope rest = ground arith

  -- Scopes that hold the same entries are searched alike.
  pub found-same :
      (scopes scopes' : Dict SymbolTable) (stack : List Bytes)
      → All (λ s. entry space name scopes' s ≡ entry space name scopes s) stack
      → found scopes' stack ≡ found scopes stack
  found-same scopes scopes' [] h = unfold find_in_stack in refl
  found-same scopes scopes' (s ∷ stack) (p, h) =
      rw (
        found-cons scopes' s stack,
        found-cons scopes s stack,
        p,
        found-same scopes scopes' stack h,
      )

  -- A name that is no active scope: its table is not looked at.
  found-insert_fresh :
      (new : Bytes) (table : SymbolTable) (scopes : Dict SymbolTable) (stack : List Bytes)
      → lookup new scopes ≡ none
      → All (λ s. has_table scopes s ≡ true) stack
      → found (insert new table scopes) stack ≡ found scopes stack
  found-insert_fresh new table scopes stack fresh h =
      found-same scopes (insert new table scopes) stack (entries stack h)
    where
      same :
          (s : Bytes)
          → has_table scopes s ≡ true
          → entry space name (insert new table scopes) s ≡ entry space name scopes s
      same s p = ground (arith, lookup-insert new s table scopes, bytes_eq_iff new s)

      entries :
          (stack : List Bytes)
          → All (λ s. has_table scopes s ≡ true) stack
          → All
              (λ s. entry space name (insert new table scopes) s ≡ entry space name scopes s)
              stack
      entries [] h = tt
      entries (s ∷ stack) (p, h) = (same s p, entries stack h)

  found-insert-insert :
      (new : Bytes) (t u : SymbolTable) (scopes : Dict SymbolTable) (stack : List Bytes)
      → found (insert new t (insert new u scopes)) stack ≡ found (insert new t scopes) stack
  found-insert-insert new t u scopes stack =
      found-same (insert new t scopes) (insert new t (insert new u scopes)) stack (entries stack)
    where
      same :
          (s : Bytes)
          → entry space name (insert new t (insert new u scopes)) s
            ≡ entry space name (insert new t scopes) s
      same s = ground (
        arith,
        lookup-insert new s t (insert new u scopes),
        lookup-insert new s u scopes,
        lookup-insert new s t scopes,
      )

      entries :
          (stack : List Bytes)
          → All
              (λ s.
                entry space name (insert new t (insert new u scopes)) s
                ≡ entry space name (insert new t scopes) s)
              stack
      entries [] = tt
      entries (s ∷ stack) = (same s, entries stack)

module _ (space : Space) (s : Symbol) (table : SymbolTable) (scopes : Dict SymbolTable) where
  -- The scopes after `s` was defined in the scope `cur`, whose table was `table`.
  abbrev extended : Bytes → Dict SymbolTable
  extended cur = insert cur (define (space_name space) s table) scopes

  entry-extended :
      (cur name x : Bytes)
      → lookup cur scopes ≡ some table
      → entry space name (extended cur) x
        ≡ (if bytes_eq cur x && bytes_eq s.name name then some s else entry space name scopes x)
  entry-extended cur name x h = ground (
    arith,
    lookup-insert cur x (define (space_name space) s table) scopes,
    get-define space space s name table,
    bytes_eq_iff cur x,
    same_space_refl space,
  )

  found-extended_ne :
      (wanted : Kind → Bool) (cur name : Bytes) (stack : List Bytes)
      → lookup cur scopes ≡ some table
      → bytes_eq s.name name ≡ false
      → found space wanted name (extended cur) stack ≡ found space wanted name scopes stack
  found-extended_ne wanted cur name stack h ne =
      found-same space wanted name scopes (extended cur) stack (entries stack)
    where
      same : (x : Bytes) → entry space name (extended cur) x ≡ entry space name scopes x
      same x = ground (arith, entry-extended cur name x h)

      entries :
          (stack : List Bytes)
          → All (λ x. entry space name (extended cur) x ≡ entry space name scopes x) stack
      entries [] = tt
      entries (x ∷ stack) = (same x, entries stack)

  found-extended :
      (wanted : Kind → Bool) (name : Bytes) (stack : List Bytes)
      → stack ≢ []
      → lookup (top stack) scopes ≡ some table
      → wanted s.kind ≡ true
      → found space wanted name (extended (top stack)) stack
        ≡ (if bytes_eq s.name name then some s else found space wanted name scopes stack)
  found-extended wanted name [] ne h w = absurd (ne refl)
  found-extended wanted name (cur ∷ rest) ne h w = elim (Bool-cases (bytes_eq s.name name)) [
    | inl eq ↦ ground (
      arith,
      found-cons space wanted name (extended cur) cur rest,
      entry-extended cur name cur h,
      bytes_eq_iff cur cur,
    )
    | inr other ↦ rw other (found-extended_ne wanted cur name (cur ∷ rest) h other)
  ]

  -- A symbol of a kind that is not wanted does not make a lookup succeed.
  found-extended-none :
      (wanted : Kind → Bool) (cur name : Bytes) (stack : List Bytes)
      → lookup cur scopes ≡ some table
      → wanted s.kind ≡ false
      → found space wanted name scopes stack ≡ none
      → found space wanted name (extended cur) stack ≡ none
  found-extended-none wanted cur name [] h w before = unfold find_in_stack in refl
  found-extended-none wanted cur name (x ∷ stack) h w before = ground (
    arith,
    found-cons space wanted name scopes x stack,
    found-cons space wanted name (extended cur) x stack,
    entry-extended cur name x h,
    found-extended-none wanted cur name stack h w,
  )

-- What a successful definition in the current scope did.
define_current-ok :
    (space : Space) (s : Symbol) (c c' : SymbolContainer)
    → define_current space s c ≡ ok c'
    → (table : SymbolTable) × (lookup (current_scope_name c) c.scopes ≡ some table)
      × (c'.scopes ≡ extended space s table c.scopes (current_scope_name c))
      × (c'.stack ≡ c.stack)
unfolding define_current
define_current-ok space s c c' e = elim (Option-cases (lookup (current_scope_name c) c.scopes)) [
  | inl missing ↦ absurd (ground arith)
  | inr (table, h) ↦ (table, h, ground arith, ground arith)
]

add_variable-ok :
    (s : Symbol) (c c' : SymbolContainer)
    → add_variable s c ≡ ok c'
    → (is_variable s.kind ≡ true) × (define_current variables s c ≡ ok c')
unfolding add_variable
add_variable-ok s c c' e = ground arith

add_method-ok :
    (s : Symbol) (c c' : SymbolContainer)
    → s.kind ≡ method
    → add_method s c ≡ ok c'
    → define_current methods s c ≡ ok c'
unfolding add_method
add_method-ok s c c' k e = ground arith

-- What a lookup finds after a variable is added, where some scope is active.
pub get_variable-add_variable_active :
    (s : Symbol) (c c' : SymbolContainer) (name : Bytes)
    → c.stack ≢ []
    → add_variable s c ≡ ok c'
    → get_variable name c' ≡ (if bytes_eq s.name name then some s else get_variable name c)
unfolding get_variable
get_variable-add_variable_active s c c' name active e =
    let (w, d) = add_variable-ok s c c' e in
    let (table, h, p, q) = define_current-ok variables s c c' d in
    rw (p, q) (found-extended variables s table c.scopes is_variable name c.stack active h w)

-- In a valid container, after a variable is added to the current scope a lookup of its name finds
-- it, and a lookup of any other name finds what it found before.
pub get_variable-add_variable :
    (s : Symbol) (c c' : SymbolContainer) (name : Bytes)
    → IsValid c
    → add_variable s c ≡ ok c'
    → get_variable name c' ≡ (if bytes_eq s.name name then some s else get_variable name c)
get_variable-add_variable s c c' name v = get_variable-add_variable_active s c c' name v.active

-- In a valid container, a variable added inside a new scope, whose name had no table, is gone once
-- the scope is left: every lookup of a variable finds what it found before the scope.
pub get_variable-leave :
    (scope : Bytes) (s : Symbol) (c d : SymbolContainer) (name : Bytes)
    → IsValid c
    → lookup scope c.scopes ≡ none
    → add_variable s (create scope c) ≡ ok d
    → get_variable name (enter_previous_scope d) ≡ get_variable name c
unfolding get_variable create enter_previous_scope
get_variable-leave scope s c d name v fresh e =
    let (w, x) = add_variable-ok s (create scope c) d e in
    let (table, h, p, q) = define_current-ok variables s (create scope c) d x in
    let left : pop_all_but_last d.stack ≡ c.stack = rw q (popped c.stack v.active) in
    rw (left, p)
      (found-insert-insert variables is_variable name scope _ _ c.scopes c.stack
        ∙ found-insert_fresh variables is_variable name scope _ c.scopes c.stack fresh v.tables)
  where
    popped : (stack : List Bytes) → stack ≢ [] → pop_all_but_last (scope ∷ stack) ≡ stack
    popped [] ne = absurd (ne refl)
    popped (x ∷ stack) ne = refl

-- In a valid container in which `get_method` finds nothing under a name, it finds nothing after a
-- symbol of that name and of kind `Method` is added as a method.
pub get_method-add_method :
    (s : Symbol) (c c' : SymbolContainer)
    → IsValid c
    → s.kind ≡ method
    → get_method s.name c ≡ none
    → add_method s c ≡ ok c'
    → get_method s.name c' ≡ none
unfolding get_method
get_method-add_method s c c' v k before e =
    let d = add_method-ok s c c' k e in
    let (table, h, p, q) = define_current-ok methods s c c' d in
    rw (p, q)
      (found-extended-none methods s table c.scopes is_function (current_scope_name c) s.name
        c.stack h (rw k) before)
