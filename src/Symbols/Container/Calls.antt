-- ===== src/Symbols/Container/Calls.antt =====
-- The scope of a call: src/Interpreter/Nodes/Expression/CallExpressionNode.hpp makes it with
-- `create` before the body runs, and leaves it after the body as here. What the body does to the
-- container is any sequence of its operations.
use voidscript.Base.{
  true, false, List, [], ◌∷◌, ◌++◌, some, Bytes, bytes_eq, bytes_eq_iff, if◌then◌else◌, ◌≡◌, ◌≢◌,
  refl, All, arith,
}
use voidscript.Symbols.Container.{
  SymbolContainer, create, current_scope_name, enter_previous_scope,
  validate_and_cleanup_scope_stack, cleanup_stack, below_name, pop_all_but_last,
}

-- The exit of a call, as `evaluate` of a call does it.
unfoldable pub leave_call : Bytes → SymbolContainer → SymbolContainer
unfolding enter_previous_scope validate_and_cleanup_scope_stack
leave_call name c =
    if bytes_eq (current_scope_name c) name
    then enter_previous_scope c
    else validate_and_cleanup_scope_stack name c

-- The scopes that a body left behind, none of them the call's own.
abbrev pub IsLeftover : Bytes → List Bytes → Type 0
IsLeftover name inner = All (λ s. bytes_eq s name ≡ false) inner

below_name-append :
    (name : Bytes) (inner base : List Bytes)
    → IsLeftover name inner
    → below_name name (inner ++ name ∷ base) ≡ some base
unfolding below_name
below_name-append name [] base h = ground (arith, bytes_eq_iff name name)
below_name-append name (s ∷ inner) base (p, h) = rw p (below_name-append name inner base h)

-- Where the body of a call, made on a stack that is not empty, leaves scopes of its own on top of
-- the call's scope, the exit of the call restores the stack that the caller had.
pub leave_call-create :
    (name : Bytes) (c d : SymbolContainer) (inner : List Bytes)
    → c.stack ≢ []
    → d.stack ≡ inner ++ (create name c).stack
    → IsLeftover name inner
    → (leave_call name d).stack ≡ c.stack
unfolding leave_call create
leave_call-create name c d [] ne e h =
    let same : bytes_eq name name ≡ true = ground (arith, bytes_eq_iff name name) in
    rw (e, same) (popped c.stack ne)
  where
    popped : (stack : List Bytes) → stack ≢ [] → pop_all_but_last (name ∷ stack) ≡ stack
    popped [] n = absurd (n refl)
    popped (s ∷ stack) n = refl
leave_call-create name c d (s ∷ inner) ne e (p, h) =
    rw (e, p)
      (unfold validate_and_cleanup_scope_stack cleanup_stack in
        rw (below_name-append name (s ∷ inner) c.stack (p, h), cleanup_stack) refl)
