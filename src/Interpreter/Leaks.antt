-- ===== src/Interpreter/Leaks.antt =====
-- The plain exit of src/Interpreter/Nodes/Statement/CallStatementNode.hpp, after a body that
-- returns out of a loop.
use voidscript.Base.{
  ℕ, suc, ◌≡◌, refl, ap, true, List, [], ◌∷◌, none, some, Bytes, Option-cases, inl, inr,
}
use voidscript.Base.Dict.{lookup}
use voidscript.Interpreter.Functions.{
  resolve, enter_call, call_scope_name, called_function, canonical_name, parameters_of,
  bind_parameters,
}
use voidscript.Interpreter.Nodes.{
  Program, Handlers, leave_scope, condition, in_loop_scope, enter_loop_scope, loop_scope_name,
}
use voidscript.Interpreter.Outcome.{State, done, jump, pure, returned, repeat, modify_container}
use voidscript.Interpreter.Scopes.Keeps.{stack_of}
use voidscript.Interpreter.Scopes.Loops.{enter-found}
use voidscript.Interpreter.Statements.{while_round, execute_step, interpreter}
use voidscript.Interpreter.Steps.{
  run_block, run_operations, evaluate_args, run_function, execute_call, evaluate_step,
}
use voidscript.Interpreter.Syntax.{
  literal, no_args, Position, Stmt, while, return_none, call_statement, Block, ◌⨾◌,
}
use voidscript.Symbols.Container.{create, enter_previous_scope, pop_all_but_last}
use voidscript.Symbols.Table.{Symbol}
use voidscript.Value.{VarType, Value, boolean, null, null_type, get_bool}

-- A `return` unwinds a loop without leaving its scope.
loop-returns :
    (p : Program) (fuel : ℕ) (at : Position) (rest : Block) (b : State)
    → (c : State) × ((interpreter p (suc (suc fuel))).execute
          (while at (literal (boolean true)) (return_none ⨾ rest))
          b
        ≡ jump (returned (null null_type)) c)
      × (stack_of c ≡ loop_scope_name "while_" at b.container ∷ stack_of b)
unfolding interpreter execute_step evaluate_step in_loop_scope enter_loop_scope repeat while_round
    condition run_block get_bool create
loop-returns p fuel at rest b =
    let name = loop_scope_name "while_" at b.container in
    elim (Option-cases (lookup name b.container.scopes)) [
      | inl missing ↦ (record b { container = create name b.container }, rw missing refl, refl)
      | inr (table, found) ↦ (
        record b { container = record b.container { stack = name ∷ stack_of b } },
        rw (found, enter-found name b.container found) refl,
        refl,
      )
    ]

-- The state in which the body of a call begins.
abbrev called_state : Bytes → State → State
called_state canonical st = record {
  container = create (call_scope_name canonical st.next_call_id) st.container;
  next_call_id = suc st.next_call_id;
}

bind_parameters-nil :
    (ps : List (Bytes × VarType)) (scope : Bytes) → bind_parameters ps [] scope ≡ pure tt
unfolding bind_parameters
bind_parameters-nil [] scope = refl
bind_parameters-nil (q ∷ ps) scope = refl

-- A body that returns in its first statement.
call-returns :
    (p : Program) (h : Handlers) (name : Bytes) (s : Symbol) (first : Stmt) (more : Block)
    (v : Value) (st c : State)
    → p.natives name ≡ none
    → called_function name st.container ≡ some s
    → parameters_of s ≡ []
    → p.operations (canonical_name name s) ≡ first ⨾ more
    → h.execute first (called_state (canonical_name name s) st) ≡ jump (returned v) c
    → execute_call p h name no_args st ≡ done tt (leave_scope c)
unfolding execute_call evaluate_args resolve run_function enter_call bind_parameters run_operations
    modify_container
call-returns p h name s first more v st c native function none_expected body e =
    rw (native, function, none_expected, bind_parameters-nil (parameters_of s) _)
      (rw body (rw e refl))

-- A call statement of a function without parameters, whose body begins with an endless loop that
-- returns in its first round, leaves the scope of the call on top of the stack of its caller.
pub execute_call-leaks :
    (p : Program) (fuel : ℕ) (name : Bytes) (s : Symbol) (at : Position) (rest more : Block)
    (st : State)
    → p.natives name ≡ none
    → called_function name st.container ≡ some s
    → parameters_of s ≡ []
    → p.operations (canonical_name name s)
      ≡ while at (literal (boolean true)) (return_none ⨾ rest) ⨾ more
    → (st' : State) × ((interpreter p (suc (suc (suc fuel)))).execute
          (call_statement name no_args)
          st
        ≡ done tt st')
      × (stack_of st' ≡ call_scope_name (canonical_name name s) st.next_call_id ∷ stack_of st)
execute_call-leaks p fuel name s at rest more st native function none_expected body =
    let b = called_state (canonical_name name s) st in
    let (c, e, on_top) = loop-returns p fuel at rest b in
    (
      leave_scope c,
      unfold interpreter execute_step in
          call-returns p (interpreter p (suc (suc fuel))) name s _ more _ st c native function
            none_expected body e,
      unfold create enter_previous_scope in ap pop_all_but_last on_top,
    )
