-- ===== src/Interpreter/Types.antt =====
-- The types of variables: what src/Interpreter/Nodes/Statement/DeclareVariableStatementNode.hpp and
-- AssignmentStatementNode.hpp promise of the values that they store.
pub mod Rules
use voidscript.Base.{
  ℕ, suc, ◌≡◌, ◌≢◌, refl, sym, ap, ◌∙◌, Bool, true, false, [], Option, none, some, arith, Bytes,
  bytes_eq, bytes_eq_iff, if◌then◌else◌, Bool-cases, inl, inr,
}
use mathlib.Core.Path.{subst}
use voidscript.Base.Dict.{lookup}
use voidscript.Interpreter.Nodes.{Program}
use voidscript.Interpreter.Outcome.{
  State, M, Outcome, done, jump, undefined, out_of_fuel, Signal, ◌>>=◌, pure, signal, as_base,
  raise, failed, exception, lift_result, set_container, modify_container, match_option,
}
use voidscript.Interpreter.Scopes.Keeps.{
  Ends, done_ends, jump_ends, undefined_ends, fuel_ends, Ends-bind, Ends-mono, IsActive,
}
use voidscript.Interpreter.Scopes.Rules.{Ends-rethrown}
use voidscript.Interpreter.Statements.{initial_value, is_given, execute_step, interpreter}
use voidscript.Interpreter.Syntax.{Expr, declare}
use voidscript.Interpreter.Variables.{
  Classes, declare_value, declare_new, declared_value, resolved_type, coerced, add_declared,
  variable_symbol, is_loop_scope, set_in_scope,
}
use voidscript.Operators.Access.{
  same_type, same_type_sound, try_numeric_coerce, type_of-try_numeric_coerce,
}
use voidscript.Symbols.Container.Add.{add_variable, add_variable_in, define_current, define_in}
use voidscript.Symbols.Container.Lookup.Shadowing.{get_variable-add_variable_active}
use voidscript.Symbols.Container.Lookup.{get_variable}
use voidscript.Symbols.Container.{SymbolContainer, current_scope_name}
use voidscript.Symbols.Table.{Symbol, get, variables, constants, space_name}
use voidscript.Value.Floats.{Floats}
use voidscript.Value.{
  Value, VarType, class_type, enum_type, null_type, auto_type, type_of, Result, ok, throws,
  undefined_behaviour, set_type, about_name,
}
use voidscript.Interpreter.Types.Rules.{
  Gives, Gives-bind, Gives-if, Gives-lift_result, Gives-match_option, Gives-pure, Gives-signal,
  Returns, Returns-bind, Returns-match_option, Returns-signal, ends_always, from_done,
}

bytes_eq_refl : (name : Bytes) → bytes_eq name name ≡ true
bytes_eq_refl name = ground (arith, bytes_eq_iff name name)

added_in_current :
    (s : Symbol) (c c' : SymbolContainer)
    → add_variable_in s (current_scope_name c) c ≡ ok c'
    → (add_variable s c ≡ ok c') × (c'.stack ≡ c.stack)
unfolding add_variable_in add_variable define_in define_current
added_in_current s c c' e = (ground arith, ground arith)

-- A type for which a declaration checks the value against the type itself.
abbrev pub IsChecked : VarType → Type 0
IsChecked class_type = ⊥
IsChecked enum_type = ⊥
IsChecked auto_type = ⊥
IsChecked _ = Unit

abbrev HasType : VarType → Value → Type 0
HasType t v = type_of v ≡ t

-- The variable that the declaration adds is found, with a value of its type.
abbrev IsDeclared : VarType → Bytes → State → Type 0
IsDeclared t name st =
    IsActive st
    → is_loop_scope (current_scope_name st.container) ≡ false
    → (s : Symbol) × (get_variable name st.container ≡ some s) × HasType t s.value

module _ (fl : Floats) where
  Gives-coerced : (name : Bytes) (t : VarType) (v : Value) → Gives (HasType t) (coerced fl name t v)
  Gives-coerced name t v =
      Gives-bind {P = λ r. try_numeric_coerce fl v t ≡ ok r} _ _ (Gives-lift_result _ λ r e. e)
        λ r e.
          Gives-match_option r _ _ (λ absent. Gives-signal _)
            λ w found.
              Gives-pure w
                (type_of-try_numeric_coerce fl v w t (e ∙ ap (λ (o : Option Value). ok o) found))

  -- The checked types: the value has the type, or is converted to it.
  Gives-checked :
      (name : Bytes) (t : VarType) (v : Value)
      → Gives (HasType t) (if same_type (type_of v) t then pure v else coerced fl name t v)
  Gives-checked name t v =
      Gives-if _ _ _ (λ e. Gives-pure v (same_type_sound (type_of v) t e))
        (λ e. Gives-coerced name t v)

  module _ (classes : Classes) where
    Gives-declared_value :
        (t : VarType) (name : Bytes) (v : Value)
        → IsChecked t
        → Gives (HasType t) (declared_value fl classes t name v)
    unfolding declared_value
    Gives-declared_value class_type name v plain = elim plain [ ]
    Gives-declared_value enum_type name v plain = elim plain [ ]
    Gives-declared_value t name v plain = Gives-checked name _ v

    Gives-resolved_type :
        (t : VarType) (name : Bytes) (b : Bool) (v : Value)
        → IsChecked t
        → Gives (λ r. r ≡ t) (resolved_type t name b v)
    Gives-resolved_type auto_type name b v plain = elim plain [ ]
    Gives-resolved_type t name b v plain = Gives-pure _ refl

    added_is_found :
        (t : VarType) (name : Bytes) (w : Value) (st : State) (c : SymbolContainer)
        → HasType t w
        → add_variable_in
            (variable_symbol name w (current_scope_name st.container))
            (current_scope_name st.container)
            st.container
          ≡ ok c
        → IsDeclared t name (record st { container = c })
    added_is_found t name w st c typed e active outside =
        let s = variable_symbol name w (current_scope_name st.container) in
        let (added, same) = added_in_current s st.container c e in
        (
          s,
          rw
              (
                get_variable-add_variable_active s st.container c name
                    (subst (λ l. l ≢ []) same active) added,
                bytes_eq_refl name,
              )
              refl,
          typed,
        )

    Returns-added :
        (t : VarType) (name : Bytes) (w : Value) (st : State)
        → HasType t w
        → Returns
            (IsDeclared t name)
            st
            (add_declared name false (current_scope_name st.container) w)
    Returns-added t name w st typed = record {
      at = go (add_variable_in symbol scope st.container) refl;
    }
      where
        scope : Bytes
        scope = current_scope_name st.container

        symbol : Symbol
        symbol = variable_symbol name w scope

        go :
            (r : Result SymbolContainer)
            → add_variable_in symbol scope st.container ≡ r
            → Ends (λ u. IsDeclared t name) (λ s. Unit) ((lift_result r >>= set_container) st)
        go (ok c) e = done_ends (added_is_found t name w st c typed e)
        go (throws x) e = jump_ends tt
        go undefined_behaviour e = undefined_ends

    Returns-declare_new :
        (t : VarType) (name : Bytes) (initialised : Bool) (v : Value) (st : State)
        → IsChecked t
        → Returns
            (IsDeclared t name)
            st
            (declare_new fl classes t name initialised false (current_scope_name st.container) v)
    unfolding declare_new
    Returns-declare_new t name initialised v st plain =
        Returns-bind {P = λ w. Unit} _ _
          (Gives-if (same_type (type_of v) null_type) (lift_result (set_type v t)) (pure v)
            (λ e. Gives-lift_result (set_type v t) λ w f. tt) (λ e. Gives-pure v tt))
          λ typed u. Returns-bind _ _ (Gives-resolved_type t name initialised typed plain) λ r same.
            Returns-bind _ _
              (subst (λ r. Gives (HasType t) (declared_value fl classes r name typed)) (sym same)
                (Gives-declared_value t name typed plain))
              λ w h. Returns-added t name w st h

    set_in_scope-stack :
        (scope name : Bytes) (v : Value) (c : SymbolContainer)
        → current_scope_name (set_in_scope scope name v c) ≡ current_scope_name c
    unfolding set_in_scope
    set_in_scope-stack scope name v c = ground arith

    -- A name that the scope has already: the variable of a loop is set.
    Returns-redeclared :
        (t : VarType) (name : Bytes) (v : Value) (st : State)
        → Returns (IsDeclared t name) st (
            if is_loop_scope (current_scope_name st.container)
            then modify_container (set_in_scope (current_scope_name st.container) name v)
            else raise (about_name "Variable already declared" name))
    unfolding modify_container
    Returns-redeclared t name v st =
        elim (Bool-cases (is_loop_scope (current_scope_name st.container))) [
          | inl loop ↦ rw loop (record {
            at = done_ends λ active outside. absurd (
                ground (
                  arith,
                  set_in_scope-stack (current_scope_name st.container) name v st.container,
                ));
          })
          | inr no_loop ↦ rw no_loop (Returns-signal _)
        ]

    Ends-declare_value :
        (t : VarType) (name : Bytes) (initialised : Bool) (v : Value) (st : State)
        → IsChecked t
        → Ends
            (λ u. IsDeclared t name)
            (λ s. Unit)
            (declare_value fl classes t name initialised false v st)
    unfolding declare_value
    Ends-declare_value t name initialised v st plain =
        let scope = current_scope_name st.container in
        (Returns-match_option (lookup scope st.container.scopes) _ _
          (Returns-signal (failed (exception (about_name "Target scope does not exist" scope))))
          λ table.
            Returns-match_option (get (space_name variables) name table) _ _
              (Returns-match_option (get (space_name constants) name table) _ _
                (Returns-declare_new t name initialised v st plain)
                λ s.
                  Returns-signal (failed (exception (about_name "Cannot redefine constant" name))))
              λ s. Returns-redeclared t name v st).at

Ends-execute :
    (p : Program) (fuel : ℕ) (t : VarType) (name : Bytes) (init : Option Expr) (st : State)
    → IsChecked t
    → Ends
        (λ u. IsDeclared t name)
        (λ s. Unit)
        ((interpreter p (suc fuel)).execute (declare t name init false) st)
unfolding interpreter execute_step
Ends-execute p fuel t name init st plain = Ends-rethrown as_base (
    Ends-bind {D = λ v s. Unit} {J = λ s. Unit}
      (ends_always (initial_value (interpreter p fuel) t init st)) (λ s u. tt)
      λ v s u. Ends-declare_value p.floats p.classes t name (is_given init) v s plain)

-- A declaration of a variable of a type other than a class, an enumeration or `auto`, outside the
-- scope of a loop: where it returns and a scope is active, a lookup of the name finds a symbol
-- whose value has exactly the declared type.
pub declare-type :
    (p : Program) (fuel : ℕ) (t : VarType) (name : Bytes) (init : Option Expr) (st st' : State)
    → IsChecked t
    → IsActive st'
    → is_loop_scope (current_scope_name st'.container) ≡ false
    → (interpreter p (suc fuel)).execute (declare t name init false) st ≡ done tt st'
    → (s : Symbol) × (get_variable name st'.container ≡ some s) × (type_of s.value ≡ t)
unfolding interpreter execute_step
declare-type p fuel t name init st st' plain active outside e =
    from_done (subst (Ends _ _) e (Ends-execute p fuel t name init st plain)) active outside
