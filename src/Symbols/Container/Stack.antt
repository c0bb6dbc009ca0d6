-- ===== src/Symbols/Container/Stack.antt =====
-- The stack of scopes of src/Symbols/SymbolContainer.cpp: its invariant, and the frames of calls.
use mathlib.Core.Path.{subst}
use voidscript.Base.{
  Bool, true, false, not, ◌&&◌, List, [], ◌∷◌, none, some, Bytes, All, bytes_eq, bytes_eq_iff, ◌≡◌,
  ◌≢◌, inl, inr, refl, sym, ap, ◌∙◌, arith, Bool-cases, Option-cases, leb, length,
}
use voidscript.Base.Dict.{Dict, lookup, insert, lookup-insert}
use voidscript.Symbols.Container.{
  SymbolContainer, create, enter, below_name, cleanup_stack, validate_and_cleanup_scope_stack,
  enter_previous_scope_with_validation, current_scope_name, pop_all_but_last, pop_back,
  enter_function_call_scope, top, is_empty,
}
use voidscript.Symbols.Container.Add.{define_current, define_in}
use voidscript.Symbols.Table.{Symbol, SymbolTable, Space, define, space_name}
use voidscript.Value.{ok}

abbrev pub has_table : Dict SymbolTable → Bytes → Bool
has_table scopes name = elim (lookup name scopes) [ none ↦ false | some _ ↦ true ]

-- Each active scope has a table.
abbrev pub HasTables : SymbolContainer → Type 0
HasTables c = All (λ s. has_table c.scopes s ≡ true) c.stack

-- Some scope is active, and each active scope has a table.
pub record IsValid (c : SymbolContainer) : Type 0 where
  pub active : c.stack ≢ []
  pub tables : HasTables c

has_table-insert :
    (name s : Bytes) (table : SymbolTable) (scopes : Dict SymbolTable)
    → has_table scopes s ≡ true
    → has_table (insert name table scopes) s ≡ true
has_table-insert name s table scopes h = ground (arith, lookup-insert name s table scopes)

pub has_table-insert_self :
    (name : Bytes) (table : SymbolTable) (scopes : Dict SymbolTable)
    → has_table (insert name table scopes) name ≡ true
has_table-insert_self name table scopes =
    ground (arith, lookup-insert name name table scopes, bytes_eq_iff name name)

tables-insert :
    (name : Bytes) (table : SymbolTable) (scopes : Dict SymbolTable) (stack : List Bytes)
    → All (λ s. has_table scopes s ≡ true) stack
    → All (λ s. has_table (insert name table scopes) s ≡ true) stack
tables-insert name table scopes [] h = tt
tables-insert name table scopes (s ∷ stack) (p, h) =
    (has_table-insert name s table scopes p, tables-insert name table scopes stack h)

pub create-IsValid : (name : Bytes) (c : SymbolContainer) → HasTables c → IsValid (create name c)
unfolding create
create-IsValid name c v = record {
  active = λ e. cc;
  tables = (has_table-insert_self name [] c.scopes, tables-insert name [] c.scopes c.stack v);
}

pub enter-IsValid :
    (name : Bytes) (c : SymbolContainer) {c' : SymbolContainer}
    → enter name c ≡ ok c'
    → HasTables c
    → IsValid c'
unfolding enter
enter-IsValid name c {c'} e v = elim (Option-cases (lookup name c.scopes)) [
  | inl missing ↦ absurd (ground arith)
  | inr (table, found) ↦
      let entered : record c { stack = name ∷ c.stack } ≡ c' = ground arith in
      subst IsValid entered (record { active = λ q. cc; tables = (ground arith, v) })
]

pub pop_all_but_last-ne_nil : (stack : List Bytes) → stack ≢ [] → pop_all_but_last stack ≢ []
pop_all_but_last-ne_nil [] h = h
pop_all_but_last-ne_nil (s ∷ []) h = h
pop_all_but_last-ne_nil (s ∷ t ∷ rest) h = λ e. cc

pub All-pop_all_but_last :
    (P : Bytes → Type 0) (stack : List Bytes) → All P stack → All P (pop_all_but_last stack)
All-pop_all_but_last P [] h = h
All-pop_all_but_last P (s ∷ []) h = h
All-pop_all_but_last P (s ∷ t ∷ rest) (p, h) = h

top-has_table :
    (scopes : Dict SymbolTable) (stack : List Bytes)
    → stack ≢ []
    → All (λ s. has_table scopes s ≡ true) stack
    → has_table scopes (top stack) ≡ true
top-has_table scopes [] ne h = absurd (ne refl)
top-has_table scopes (s ∷ stack) ne (p, h) = p

-- In a valid container a definition in the current scope is carried out, with no null table met,
-- and leaves the container valid and the stack as it was.
pub define_current-IsValid :
    (space : Space) (s : Symbol) (c : SymbolContainer)
    → IsValid c
    → (c' : SymbolContainer) × (define_current space s c ≡ ok c')
      × IsValid c'
      × (c'.stack ≡ c.stack)
unfolding define_current
define_current-IsValid space s c v =
    let present = top-has_table c.scopes c.stack v.active v.tables in
    elim (Option-cases (lookup (current_scope_name c) c.scopes)) [
      | inl missing ↦ absurd (ground arith)
      | inr (table, found) ↦ (
        record c {
          scopes = insert (current_scope_name c) (define (space_name space) s table) c.scopes;
        },
        ground arith,
        record { active = v.active; tables = tables-insert _ _ c.scopes c.stack v.tables },
        refl,
      )
    ]

-- A definition that is carried out leaves a table for each active scope.
HasTables-define :
    (space : Space) (s : Symbol) (scope : Bytes) (table : SymbolTable) (c : SymbolContainer)
    → HasTables c
    → HasTables (record c { scopes = insert scope (define (space_name space) s table) c.scopes })
HasTables-define space s scope table c h = tables-insert _ _ c.scopes c.stack h

pub define_current-HasTables :
    (space : Space) (s : Symbol) (c : SymbolContainer) {c' : SymbolContainer}
    → define_current space s c ≡ ok c'
    → HasTables c
    → (c'.stack ≡ c.stack) × HasTables c'
unfolding define_current
define_current-HasTables space s c {c'} e h =
    elim (Option-cases (lookup (current_scope_name c) c.scopes)) [
      | inl missing ↦ absurd (ground arith)
      | inr (table, found) ↦
          let defined : record c {
            scopes = insert (current_scope_name c) (define (space_name space) s table) c.scopes;
          }
              ≡ c' =
            ground arith in
          (
            ap (λ d. d.stack) (sym defined),
            subst HasTables defined (HasTables-define space s (current_scope_name c) table c h),
          )
    ]

pub define_in-HasTables :
    (space : Space) (s : Symbol) (scope : Bytes) (c : SymbolContainer) {c' : SymbolContainer}
    → define_in space s scope c ≡ ok c'
    → HasTables c
    → (c'.stack ≡ c.stack) × HasTables c'
unfolding define_in
define_in-HasTables space s scope c {c'} e h = elim (Option-cases (lookup scope c.scopes)) [
  | inl missing ↦ absurd (ground arith)
  | inr (table, found) ↦
      let defined : record c { scopes = insert scope (define (space_name space) s table) c.scopes }
          ≡ c' =
        ground arith in
      (
        ap (λ d. d.stack) (sym defined),
        subst HasTables defined (HasTables-define space s scope table c h),
      )
]

All-below_name :
    (P : Bytes → Type 0) (name : Bytes) (stack : List Bytes) {rest : List Bytes}
    → below_name name stack ≡ some rest
    → All P stack
    → All P rest
unfolding below_name
All-below_name P name [] e h = absurd (ground arith)
All-below_name P name (s ∷ stack) {rest} e (p, h) = elim (Bool-cases (bytes_eq s name)) [
  | inl here ↦ let found : stack ≡ rest = ground arith in subst (All P) found h
  | inr there ↦ All-below_name P name stack (rw there at e) h
]

All-pop_back : (P : Bytes → Type 0) (stack : List Bytes) → All P stack → All P (pop_back stack)
All-pop_back P [] h = h
All-pop_back P (s ∷ stack) (p, h) = h

pub All-cleanup_stack :
    (P : Bytes → Type 0) (name : Bytes) (stack : List Bytes)
    → All P stack
    → All P (cleanup_stack name stack)
unfolding cleanup_stack
All-cleanup_stack P name stack h = elim (Option-cases (below_name name stack)) [
  | inl out ↦
      let e : pop_back stack ≡ cleanup_stack name stack = rw (out, cleanup_stack) in
      subst (All P) e (All-pop_back P stack h)
  | inr (rest, found) ↦
      let e : rest ≡ cleanup_stack name stack = rw (found, cleanup_stack) in
      subst (All P) e (All-below_name P name stack found h)
]

cleanup_stack-one : (name last : Bytes) → cleanup_stack name (last ∷ []) ≡ []
unfolding cleanup_stack below_name
cleanup_stack-one name last = ground arith

-- With one scope active the cleanup leaves none, whatever scope it is told to expect: no scope is
-- current any more.
pub validate_and_cleanup_scope_stack_empties :
    (name last : Bytes) (c : SymbolContainer)
    → c.stack ≡ last ∷ []
    → (validate_and_cleanup_scope_stack name c).stack ≡ []
unfolding validate_and_cleanup_scope_stack
validate_and_cleanup_scope_stack_empties name last c e =
    ap (cleanup_stack name) e ∙ cleanup_stack-one name last

pop_back-ne_nil : (stack : List Bytes) → leb (length stack) 1 ≡ false → pop_back stack ≢ []
pop_back-ne_nil [] h = cc
pop_back-ne_nil (s ∷ []) h = cc
pop_back-ne_nil (s ∷ t ∷ rest) h = λ e. cc

pub enter_previous_scope_with_validation-HasTables :
    (name : Bytes) (c : SymbolContainer)
    → HasTables c
    → HasTables (enter_previous_scope_with_validation name c).0
      × (c.stack ≢ [] → (enter_previous_scope_with_validation name c).0.stack ≢ [])
unfolding enter_previous_scope_with_validation
enter_previous_scope_with_validation-HasTables name c h =
    let kept : Bool = not (is_empty name) && not (bytes_eq (current_scope_name c) name) in
    elim (Bool-cases (leb (length c.stack) 1)) [
      | inl last ↦ rw last (h, λ n. n)
      | inr more ↦ elim (Bool-cases kept) [
        | inl other ↦ rw (more, other) (h, λ n. n)
        | inr same ↦ rw (more, same) (All-pop_back _ c.stack h, λ n. pop_back-ne_nil c.stack more)
      ]
    ]

pub enter_function_call_scope-IsValid :
    (base : Bytes) (c : SymbolContainer)
    → HasTables c
    → IsValid (enter_function_call_scope base c).0
unfolding enter_function_call_scope
enter_function_call_scope-IsValid base c h =
    let w = create-IsValid (enter_function_call_scope base c).1 c h in
    record { active = w.active; tables = w.tables }
