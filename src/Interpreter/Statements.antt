-- ===== src/Interpreter/Statements.antt =====
-- One step of `interpret` of each statement node of src/Interpreter/Nodes/Statement, and the
-- interpreter of src/Interpreter/Interpreter.cpp. A step gets the handlers of the nodes below it, and
-- fuel for the rounds of its own loop.
use voidscript.Base.{ℕ, zero, suc, Bool, true, false, Option, none, some, Bytes, if◌then◌else◌}
use voidscript.Interpreter.Steps.{run_block, run_operations, evaluate_step, execute_call}
use voidscript.Value.Floats.{Floats}
use voidscript.Interpreter.Nodes.{
  Program, Handlers, to_bool, to_members, condition, in_loop_scope, is_switchable, same_case,
  case_body, after_try, returned_value,
}
use voidscript.Interpreter.Outcome.{
  match_option, modify_container, with_container, M, undefined, out_of_fuel, thrown, broke,
  continued, returned, failed, ◌>>=◌, ◌>>◌, pure, signal, raise, lift_result, on_container,
  as_base_only, loop_body, repeat, choose,
}
use voidscript.Interpreter.Syntax.{
  Expr, Position, Stmt, declare, assign, evaluate_only, return_none, return, throw, break_loop,
  continue_loop, conditional, while, for, for_each, try, switch, call_statement, Block, Cases,
  no_case, case,
}
use voidscript.Interpreter.Variables.{
  declare_value, owner, assigned_value, variable_symbol, set_in_scope, value_in_scope,
}
use voidscript.Operators.Access.{same_type}
use voidscript.Symbols.Container.Add.{add, add_variable}
use voidscript.Symbols.Container.Lookup.{get_constant}
use voidscript.Symbols.Container.{current_scope_name, is_empty}
use voidscript.Value.{
  Value, string, null, Members, end, member, VarType, object_type, null_type, string_type, boolean,
  type_of, is_null, runtime_error, about_name, get_bool, default_value,
}

abbrev pub is_given : Option Expr → Bool
is_given none = false
is_given (some e) = true

-- The two variables of a loop over an object are set to an entry.
unfoldable pub set_entry : Bytes → Bytes → Bytes → Bytes → Value → M (Unit {0})
unfolding modify_container set_in_scope
set_entry scope key value k v =
    modify_container (set_in_scope scope key (string k))
    >> modify_container (set_in_scope scope value v)

module _ (h : Handlers) where
  abbrev pub initial_value : VarType → Option Expr → M Value
  initial_value t none = pure (default_value t)
  initial_value t (some e) = h.evaluate e

  -- `AssignmentStatementNode::interpret`: an undeclared name is read through a null pointer.
  unfoldable pub execute_assign : Floats → Bytes → Expr → M (Unit {0})
  unfolding owner get_constant assigned_value value_in_scope set_in_scope modify_container
  execute_assign fl name rhs = with_container λ c.
      match_option (owner name c.scopes c.stack)
        (match_option (get_constant name c) (λ st. undefined)
          (λ s. raise (about_name "Cannot assign to constant" name)))
        λ found. h.evaluate rhs >>= λ v.
          with_container
            (λ d. assigned_value fl name (value_in_scope found.0 name found.1.value d) v)
          >>= λ w. modify_container (set_in_scope found.0 name w)

  -- `ConditionalStatementNode::interpret`
  unfoldable pub execute_conditional : Expr → Block → Block → M (Unit {0})
  unfolding condition run_block
  execute_conditional e yes_branch no_branch = as_base_only (
      h.evaluate e >>= condition "Condition did not evaluate to boolean" to_bool >>= λ b.
      choose b (run_block h yes_branch) (run_block h no_branch))

  -- One round of `WhileStatementNode::interpret`.
  unfoldable pub while_round : Expr → Block → M Bool
  unfolding condition run_block get_bool
  while_round e body =
      h.evaluate e >>= condition "Condition did not evaluate to boolean" get_bool >>= λ b.
      choose b (loop_body (run_block h body)) (pure false)

  abbrev pub for_condition : Option Expr → M Value
  for_condition none = pure (boolean true)
  for_condition (some e) = h.evaluate e

  -- One round of `CStyleForStatementNode::interpret`: the increment follows a `continue` too.
  unfoldable pub for_round : Option Expr → Block → Block → M Bool
  unfolding condition run_block
  for_round e increment body =
      for_condition e >>= condition "For loop condition not boolean" to_bool >>= λ b.
      choose b
        (loop_body (run_block h body) >>= λ more.
          choose more (run_block h increment >> pure true) (pure false))
        (pure false)

  -- The entries of an object, in the order of the keys; the two variables are set for each.
  unfoldable pub for_entries : Bytes → Bytes → Bytes → Block → Members → M (Unit {0})
  unfolding run_block set_entry
  for_entries scope key value body end = pure tt
  for_entries scope key value body (member k v rest) =
      set_entry scope key value k v >> loop_body (run_block h body) >>= λ more.
      choose more (for_entries scope key value body rest) (pure tt)

  -- The variables of the key and the value are added to the scope of the loop, and then the entries
  -- are gone through.
  unfoldable pub for_each_body : Bytes → Bytes → Block → Members → M (Unit {0})
  unfolding add for_entries
  for_each_body key value body m = with_container λ c.
      on_container (add (variable_symbol key (default_value string_type) (current_scope_name c)))
      >> on_container
          (add (variable_symbol value (default_value object_type) (current_scope_name c)))
      >> for_entries (current_scope_name c) key value body m

  -- The entries of the object that a loop goes through.
  unfoldable pub iterable_members : Expr → M Members
  unfolding type_of
  iterable_members e = as_base_only (
      h.evaluate e >>= λ v.
      if same_type (type_of v) object_type
      then lift_result (to_members v)
      else raise (runtime_error "For-in loop applied to non-object"))

  -- `ForStatementNode::interpret`: the object is evaluated before the scope is entered.
  unfoldable pub execute_for_each : Position → Bytes → Bytes → Expr → Block → M (Unit {0})
  unfolding iterable_members in_loop_scope for_each_body
  execute_for_each at key value e body =
      iterable_members e >>= λ m. in_loop_scope "for_" at (for_each_body key value body m)

  -- The `catch` of `TryStatementNode::interpret`; its variable goes to the current scope.
  unfoldable pub catch_value : Bytes → Block → Value → M (Unit {0})
  unfolding run_block add_variable
  catch_value name handler v =
      (if is_empty name
        then pure tt
        else with_container
            λ c. on_container (add_variable (variable_symbol name v (current_scope_name c))))
      >> run_block h handler

  -- The statements of a case, or of the default block.
  unfoldable pub run_case : Block → M Bool
  unfolding run_block
  run_case body st = case_body (run_block h body st)

  -- The cases of a `switch`, from the first that matches on; `true` if a `break` ended them.
  unfoldable pub run_cases : Value → Bool → Cases → M Bool
  unfolding run_case same_case
  run_cases v matched no_case = pure false
  run_cases v matched (case e body rest) =
      (if matched then pure true else (h.evaluate e >>= same_case v)) >>= λ hit.
      choose hit (run_case body) (pure false) >>= λ ended.
      choose ended (pure true) (run_cases v hit rest)

  -- `SwitchStatementNode::interpret`: the default block follows unless a `break` was met.
  unfoldable pub execute_switch : Expr → Cases → Block → M (Unit {0})
  unfolding run_cases run_case is_null type_of
  execute_switch e cases default = h.evaluate e >>= λ v.
      if is_switchable v
      then (run_cases v false cases >>= λ ended.
          choose ended (pure tt) (run_case default >> pure tt))
      else raise (
          runtime_error
            "Switch expression must evaluate to a non-null integer, enum or string value.")

module _ (p : Program) (fuel : ℕ) (h : Handlers) where
  unfoldable pub execute_step : Stmt → M (Unit {0})
  unfolding declare_value execute_assign returned_value execute_conditional in_loop_scope
      while_round for_round execute_for_each run_block catch_value execute_switch execute_call
  execute_step (declare t name init is_const) =
      as_base_only (
        initial_value h t init >>= declare_value p.floats p.classes t name (is_given init) is_const)
  execute_step (assign name rhs) = execute_assign h p.floats name rhs
  execute_step (evaluate_only e) = h.evaluate e >> pure tt
  execute_step return_none = signal (returned (null null_type))
  execute_step (return e) = h.evaluate e >>= λ v. signal (returned (returned_value v))
  execute_step (throw e) = h.evaluate e >>= λ v. signal (failed (thrown v))
  execute_step break_loop = signal broke
  execute_step continue_loop = signal continued
  execute_step (conditional e yes_branch no_branch) = execute_conditional h e yes_branch no_branch
  execute_step (while at e body) = in_loop_scope "while_" at (repeat fuel (while_round h e body))
  execute_step (for at init e increment body) =
      in_loop_scope "for_" at (run_block h init >> repeat fuel (for_round h e increment body))
  execute_step (for_each at key value e body) = execute_for_each h at key value e body
  execute_step (try body name handler) =
      λ st. after_try p.what (catch_value h name handler) (run_block h body st)
  execute_step (switch e cases default) = execute_switch h e cases default
  execute_step (call_statement name args) = execute_call p h name args

-- The interpreter, to a depth of `fuel` nodes and `fuel` rounds of each loop.
unfoldable pub interpreter : Program → ℕ → Handlers
unfolding evaluate_step execute_step
interpreter p zero = record { evaluate = λ e st. out_of_fuel; execute = λ s st. out_of_fuel }
interpreter p (suc fuel) = record {
  evaluate = evaluate_step p (interpreter p fuel);
  execute = execute_step p fuel (interpreter p fuel);
}

-- `Interpreter::run`: the operations of the current scope.
unfoldable pub run : Program → ℕ → M (Unit {0})
unfolding interpreter run_operations
run p fuel =
    with_container λ c. run_operations (interpreter p fuel) (p.operations (current_scope_name c))
