-- ===== src/Interpreter/Scopes/Stack.antt =====
-- The interpreter of src/Interpreter and the stack of scopes.
use mathlib.Core.Path.{subst}
use voidscript.Base.{ℕ, zero, suc, ◌≡◌, List, ◌++◌, Bytes}
use voidscript.Interpreter.Nodes.{Program, Handlers}
use voidscript.Interpreter.Outcome.{State, done, jump, Signal}
use voidscript.Interpreter.Steps.{call_user_function}
use voidscript.Interpreter.Scopes.Calls.{
  Keeps-call_user, HandlersKeep, NativesKeep, Keeps-run_block, Keeps-execute_call,
}
use voidscript.Interpreter.Scopes.Keeps.{
  balanced, grown, Leaves, Leaves-balanced, Ends, done_ends, jump_ends, IsActive, Keeps, Keeps-bind,
  stack_of,
}
use voidscript.Interpreter.Scopes.Loops.{Keeps-in_loop_scope, while-NamesLoops, for-NamesLoops}
use voidscript.Interpreter.Scopes.Rules.{
  Keeps-pure, Keeps-signal, Keeps-repeat, Keeps-out_of_fuel, Keeps-as_base_only,
}
use voidscript.Interpreter.Scopes.Variables.{Keeps-declare_value}
use voidscript.Interpreter.Statements.{execute_step, interpreter}
use voidscript.Interpreter.Syntax.{
  Expr, Stmt, declare, assign, evaluate_only, return_none, return, throw, break_loop, continue_loop,
  conditional, while, for, for_each, try, switch, call_statement,
}
use voidscript.Value.{Value}
use voidscript.Interpreter.Scopes.Steps.{
  evaluates_grown, Keeps-evaluate_step, Keeps-initial_value, Keeps-execute_assign,
  Keeps-execute_conditional, Keeps-while_round, Keeps-for_round, Keeps-execute_for_each,
  Keeps-catch_value, Keeps-execute_switch, Ends-after_try,
}

module _ {h : Handlers} (k : HandlersKeep h) where
  module _ (p : Program) (n : NativesKeep p) (fuel : ℕ) where
    Keeps-execute_step : (s : Stmt) → Keeps grown (execute_step p fuel h s)
    unfolding execute_step
    Keeps-execute_step (declare t name init is_const) = Keeps-as_base_only (
        Keeps-bind (Keeps-initial_value k t init)
          λ v. Keeps-declare_value p.floats p.classes t name _ is_const v)
    Keeps-execute_step (assign name e) = Keeps-execute_assign k p.floats name e
    Keeps-execute_step (evaluate_only e) = Keeps-bind (evaluates_grown k e) λ v. Keeps-pure tt
    Keeps-execute_step return_none = Keeps-signal _
    Keeps-execute_step (return e) = Keeps-bind (evaluates_grown k e) λ v. Keeps-signal _
    Keeps-execute_step (throw e) = Keeps-bind (evaluates_grown k e) λ v. Keeps-signal _
    Keeps-execute_step break_loop = Keeps-signal _
    Keeps-execute_step continue_loop = Keeps-signal _
    Keeps-execute_step (conditional e a b) = Keeps-execute_conditional k e a b
    Keeps-execute_step (while at e body) =
        Keeps-in_loop_scope at _ while-NamesLoops (Keeps-repeat fuel (Keeps-while_round k e body))
    Keeps-execute_step (for at init e increment body) = Keeps-in_loop_scope at _ for-NamesLoops (
        Keeps-bind (Keeps-run_block k init)
          λ u. Keeps-repeat fuel (Keeps-for_round k e increment body))
    Keeps-execute_step (for_each at key value e body) = Keeps-execute_for_each k at key value e body
    Keeps-execute_step (try body name handler) = record {
      at = λ st active.
          Ends-after_try k p.what _ (Keeps-catch_value k name handler) active
            ((Keeps-run_block k body).at st active);
    }
    Keeps-execute_step (switch e cases default) = Keeps-execute_switch k e cases default
    Keeps-execute_step (call_statement name args) = Keeps-execute_call p k n name args

module _ (p : Program) (n : NativesKeep p) where
  HandlersKeep-interpreter : (fuel : ℕ) → HandlersKeep (interpreter p fuel)
  unfolding interpreter
  HandlersKeep-interpreter zero = record {
    evaluate_keeps = λ e. Keeps-out_of_fuel;
    execute_keeps = λ s. Keeps-out_of_fuel;
  }
  HandlersKeep-interpreter (suc fuel) =
      let k = HandlersKeep-interpreter fuel in
      record {
        evaluate_keeps = Keeps-evaluate_step k p n;
        execute_keeps = Keeps-execute_step k p n fuel;
      }

Ends-done {ℓ} :
    {A : Type ℓ} {D : A → State → Type 0} {J : State → Type 0} {a : A} {st : State}
    → Ends D J (done a st)
    → D a st
Ends-done (done_ends h) = h

Ends-jump {ℓ} :
    {A : Type ℓ} {D : A → State → Type 0} {J : State → Type 0} {s : Signal} {st : State}
    → Ends {A = A} D J (jump s st)
    → J st
Ends-jump (jump_ends h) = h

-- An expression that returns, whatever functions it calls and whatever scopes their bodies left
-- behind, leaves the stack of scopes as it found it. The native functions are asked to do so too.
pub evaluate-stack :
    (p : Program) (fuel : ℕ) (e : Expr) (st st' : State) (v : Value)
    → NativesKeep p
    → IsActive st
    → (interpreter p fuel).evaluate e st ≡ done v st'
    → stack_of st' ≡ stack_of st
evaluate-stack p fuel e st st' v n active returns =
    let ends = ((HandlersKeep-interpreter p n fuel).evaluate_keeps e).at st active in
    Leaves-balanced
      (Ends-done (subst (Ends (λ a. Leaves balanced st) (Leaves grown st)) returns ends))

-- No statement takes a scope of its surroundings off the stack: where it ends, by itself or by a
-- `break`, a `continue`, a `return` or an exception, the scopes that were active still are, in the
-- same order, below those that it left. The native functions are asked to keep the stack.
pub execute-stack :
    (p : Program) (fuel : ℕ) (s : Stmt) (st : State)
    → NativesKeep p
    → IsActive st
    → ((st' : State)
        → (interpreter p fuel).execute s st ≡ done tt st'
        → (added : List Bytes) × (stack_of st' ≡ added ++ stack_of st))
      × ((st' : State) (sig : Signal)
          → (interpreter p fuel).execute s st ≡ jump sig st'
          → (added : List Bytes) × (stack_of st' ≡ added ++ stack_of st))
execute-stack p fuel s st n active =
    let ends = ((HandlersKeep-interpreter p n fuel).execute_keeps s).at st active in
    (
      λ st' e.
          let r = Ends-done (subst (Ends (λ a. Leaves grown st) (Leaves grown st)) e ends) in
          (r.added, r.on_top),
      λ st' sig e.
          let r = Ends-jump (subst (Ends (λ a. Leaves grown st) (Leaves grown st)) e ends) in
          (r.added, r.on_top),
    )

-- A call of a function of the script by a native one, where it returns, leaves the stack of scopes
-- as it found it, whatever scopes the body of the function left behind. The native functions that
-- the body calls are asked to do so too.
pub call_user_function-stack :
    (p : Program) (fuel : ℕ) (name : Bytes) (vs : List Value) (st st' : State) (v : Value)
    → NativesKeep p
    → IsActive st
    → call_user_function p (interpreter p fuel) name vs st ≡ done v st'
    → stack_of st' ≡ stack_of st
call_user_function-stack p fuel name vs st st' v n active e =
    let ends = (Keeps-call_user p (HandlersKeep-interpreter p n fuel) name vs).at st active in
    Leaves-balanced (Ends-done (subst (Ends (λ a. Leaves balanced st) (Leaves grown st)) e ends))
