-- ===== src/Symbols/Container/Reachable.antt =====
-- Sequences of operations on the container of src/Symbols/SymbolContainer.cpp.
use voidscript.Base.{
  List, [], ◌∷◌, ◌++◌, none, some, Bytes, bytes_eq, bytes_eq_iff, All, false, ◌≡◌, ◌≢◌, ◌⊎◌, refl,
  sym, ap, ◌∙◌, arith, inl, inr, Bool-cases, Option-cases,
}
use voidscript.Symbols.Container.Add.{define_current, define_in}
use voidscript.Symbols.Container.Stack.{
  HasTables, IsValid, create-IsValid, enter-IsValid, enter_previous_scope_with_validation-HasTables,
  enter_function_call_scope-IsValid, define_current-IsValid, define_current-HasTables,
  define_in-HasTables, has_table-insert_self, All-pop_all_but_last, All-cleanup_stack,
  pop_all_but_last-ne_nil,
}
use voidscript.Symbols.Container.{
  SymbolContainer, create, enter, enter_previous_scope, cleanup_stack, below_name, pop_back,
  validate_and_cleanup_scope_stack, enter_previous_scope_with_validation, enter_function_call_scope,
}
use voidscript.Symbols.Table.{Symbol, Space}
use voidscript.Value.{ok}

-- The operations on the container.
pub data Step : SymbolContainer → SymbolContainer → Type 0 where
  creates : (name : Bytes) (c : SymbolContainer) → Step c (create name c)
  enters : (name : Bytes) {c c' : SymbolContainer} → enter name c ≡ ok c' → Step c c'
  leaves : (c : SymbolContainer) → Step c (enter_previous_scope c)
  validates :
      (name : Bytes) (c : SymbolContainer) → Step c (enter_previous_scope_with_validation name c).0
  calls : (base : Bytes) (c : SymbolContainer) → Step c (enter_function_call_scope base c).0
  cleans : (name : Bytes) (c : SymbolContainer) → Step c (validate_and_cleanup_scope_stack name c)
  defines :
      (space : Space) (s : Symbol) {c c' : SymbolContainer}
      → define_current space s c ≡ ok c'
      → Step c c'
  defines_in :
      (space : Space) (s : Symbol) (scope : Bytes) {c c' : SymbolContainer}
      → define_in space s scope c ≡ ok c'
      → Step c c'

pub data Reach (c : SymbolContainer) : SymbolContainer → Type 0 where
  here : Reach c c
  next : {d e : SymbolContainer} → Reach c d → Step d e → Reach c e

-- A cleanup that takes out the outermost scope: it is told to expect just that one, or it is the
-- only one.
pub data Emptied (c : SymbolContainer) : SymbolContainer → Type 0 where
  expected_outermost :
      (name : Bytes) (above : List Bytes)
      → c.stack ≡ above ++ name ∷ []
      → All (λ s. bytes_eq s name ≡ false) above
      → Emptied c (validate_and_cleanup_scope_stack name c)
  only_scope :
      (name last : Bytes)
      → c.stack ≡ last ∷ []
      → Emptied c (validate_and_cleanup_scope_stack name c)

below_name-nil :
    (name : Bytes) (stack : List Bytes)
    → below_name name stack ≡ some []
    → (above : List Bytes) × (stack ≡ above ++ name ∷ []) × All (λ s. bytes_eq s name ≡ false) above
unfolding below_name
below_name-nil name [] e = absurd cc
below_name-nil name (s ∷ stack) e = elim (Bool-cases (bytes_eq s name)) [
  | inl same ↦ ([], ground (arith, rw same at e, bytes_eq_iff s name), tt)
  | inr there ↦
      let (above, q, h) = below_name-nil name stack (rw there at e) in
      (s ∷ above, ap (λ r. s ∷ r) q, (there, h))
]

pop_back-nil :
    (stack : List Bytes) → stack ≢ [] → pop_back stack ≡ [] → (last : Bytes) × (stack ≡ last ∷ [])
pop_back-nil [] ne e = absurd (ne refl)
pop_back-nil (s ∷ []) ne e = (s, refl)
pop_back-nil (s ∷ t ∷ rest) ne e = absurd cc

cleanup_stack-none :
    (name : Bytes) (stack : List Bytes)
    → below_name name stack ≡ none
    → pop_back stack ≡ cleanup_stack name stack
unfolding cleanup_stack
cleanup_stack-none name stack out = rw (out, cleanup_stack)

cleanup_stack-some :
    (name : Bytes) (stack : List Bytes) {rest : List Bytes}
    → below_name name stack ≡ some rest
    → rest ≡ cleanup_stack name stack
unfolding cleanup_stack
cleanup_stack-some name stack found = rw (found, cleanup_stack)

nil_or_not : (stack : List Bytes) → (stack ≢ []) ⊎ (stack ≡ [])
nil_or_not [] = inr refl
nil_or_not (s ∷ stack) = inl (λ e. cc)

cleanup_stack-nil :
    (name : Bytes) (c : SymbolContainer)
    → c.stack ≢ []
    → cleanup_stack name c.stack ≡ []
    → Emptied c (validate_and_cleanup_scope_stack name c)
cleanup_stack-nil name c ne e = elim (Option-cases (below_name name c.stack)) [
  | inl out ↦
      let popped : pop_back c.stack ≡ cleanup_stack name c.stack =
        cleanup_stack-none name c.stack out in
      let (last, p) = pop_back-nil c.stack ne (popped ∙ e) in only_scope name last p
  | inr (rest, found) ↦
      let erased : rest ≡ cleanup_stack name c.stack = cleanup_stack-some name c.stack found in
      let (above, p, h) = below_name-nil name c.stack (found ∙ ap some (erased ∙ e)) in
      expected_outermost name above p h
]

cleans-Emptied :
    (name : Bytes) (c : SymbolContainer)
    → c.stack ≢ []
    → (cleanup_stack name c.stack ≢ [])
      ⊎ ((cleanup_stack name c.stack ≡ []) × Emptied c (validate_and_cleanup_scope_stack name c))
cleans-Emptied name c ne = elim (nil_or_not (cleanup_stack name c.stack)) [
  | inl more ↦ inl more
  | inr none_left ↦ inr (none_left, cleanup_stack-nil name c ne none_left)
]

Step-HasTables : {c d : SymbolContainer} → Step c d → HasTables c → HasTables d
unfolding enter_previous_scope validate_and_cleanup_scope_stack
Step-HasTables (creates name c) h = (create-IsValid name c h).tables
Step-HasTables (enters name e) h = (enter-IsValid name _ e h).tables
Step-HasTables (leaves c) h = All-pop_all_but_last _ c.stack h
Step-HasTables (validates name c) h = (enter_previous_scope_with_validation-HasTables name c h).0
Step-HasTables (calls base c) h = (enter_function_call_scope-IsValid base c h).tables
Step-HasTables (cleans name c) h = All-cleanup_stack _ name c.stack h
Step-HasTables (defines space s e) h = (define_current-HasTables space s _ e h).1
Step-HasTables (defines_in space s scope e) h = (define_in-HasTables space s scope _ e h).1

Step-active :
    {c d : SymbolContainer} → Step c d → IsValid c → (d.stack ≢ []) ⊎ ((d.stack ≡ []) × Emptied c d)
unfolding enter_previous_scope validate_and_cleanup_scope_stack
Step-active (creates name c) v = inl (create-IsValid name c v.tables).active
Step-active (enters name e) v = inl (enter-IsValid name _ e v.tables).active
Step-active (leaves c) v = inl (pop_all_but_last-ne_nil c.stack v.active)
Step-active (validates name c) v =
    inl ((enter_previous_scope_with_validation-HasTables name c v.tables).1 v.active)
Step-active (calls base c) v = inl (enter_function_call_scope-IsValid base c v.tables).active
Step-active (cleans name c) v = cleans-Emptied name c v.active
Step-active (defines space s e) v =
    inl (λ q. v.active (sym (define_current-HasTables space s _ e v.tables).0 ∙ q))
Step-active (defines_in space s scope e) v =
    inl (λ q. v.active (sym (define_in-HasTables space s scope _ e v.tables).0 ∙ q))

-- Each operation keeps a table for every active scope. On a container with some scope active, each
-- operation leaves some scope active, but for a cleanup that takes out the outermost scope, which
-- leaves none.
pub Step-IsValid :
    {c d : SymbolContainer}
    → Step c d
    → IsValid c
    → HasTables d × ((d.stack ≢ []) ⊎ ((d.stack ≡ []) × Emptied c d))
Step-IsValid st v = (Step-HasTables st v.tables, Step-active st v)

pub Reach-HasTables : {c d : SymbolContainer} → HasTables c → Reach c d → HasTables d
Reach-HasTables h here = h
Reach-HasTables h (next r st) = Step-HasTables st (Reach-HasTables h r)

-- `SymbolContainer(default_scope_name)`
abbrev pub fresh : Bytes → SymbolContainer
fresh name = create name (record { scopes = []; stack = []; next_call_frame_id = 0 })

pub fresh-IsValid : (name : Bytes) → IsValid (fresh name)
unfolding create
fresh-IsValid name = record { active = λ e. cc; tables = (has_table-insert_self name [] [], tt) }

-- After any sequence of operations on a new container, cleanups included, a definition in the
-- current scope is carried out if some scope is active: the table of the current scope is there.
pub define_current_reachable :
    (name : Bytes) (c : SymbolContainer) (space : Space) (s : Symbol)
    → Reach (fresh name) c
    → c.stack ≢ []
    → (c' : SymbolContainer) × (define_current space s c ≡ ok c') × (c'.stack ≡ c.stack)
define_current_reachable name c space s r active =
    let tables = Reach-HasTables (fresh-IsValid name).tables r in
    let (c', p, _, q) =
      define_current-IsValid space s c (record { active = active; tables = tables }) in
    (c', p, q)
