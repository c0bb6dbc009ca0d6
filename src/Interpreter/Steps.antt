-- ===== src/Interpreter/Steps.antt =====
-- One step of `evaluate` of each expression node of src/Interpreter/Nodes, and the calls of script
-- functions. A step gets the handlers of the nodes below it.
use voidscript.Base.{List, [], ◌∷◌, Bytes, if◌then◌else◌, ◌||◌}
use voidscript.Interpreter.Functions.{
  resolve, enter_call, bind_parameters, canonical_name, parameters_of, return_type_of,
  catching_return,
}
use voidscript.Interpreter.Nodes.{Program, Handlers, condition}
use voidscript.Interpreter.Outcome.{
  match_option, modify_container, with_container, M, Failure, standard, exception, failed, ◌>>=◌,
  ◌>>◌, pure, signal, raise, lift_result, as_base_only, wrapping_all, choose,
}
use voidscript.Interpreter.Syntax.{
  Expr, literal, variable, unary, binary, ternary, index, members, call, Args, no_args, arg,
  MemberExprs, no_members, member_expr, Block, done_block, ◌⨾◌,
}
use voidscript.Operators.Access.{array_access, same_type}
use voidscript.Operators.Binary
use voidscript.Operators.Unary
use voidscript.Symbols.Container.Calls.{leave_call}
use voidscript.Symbols.Container.Lookup.{get_variable}
use voidscript.Symbols.Container.{enter_previous_scope}
use voidscript.Symbols.Table.{Symbol}
use voidscript.Value.Maps
use voidscript.Value.{
  Error, Value, object, Members, end, object_type, class_type, type_of, is_null, runtime_error,
  about_name, type_mismatch, get_bool, get_members,
}

abbrev pub undefined_variable : Bytes → M Value
undefined_variable name = signal (failed (standard (about_name "Undefined variable name" name)))

module _ (h : Handlers) where
  -- The statements of a block, one after the other.
  unfoldable pub run_block : Block → M (Unit {0})
  run_block done_block = pure tt
  run_block (s ⨾ rest) = h.execute s >> run_block rest

  -- `runOperation` of the operations of a function or of a file.
  unfoldable pub run_operations : Block → M (Unit {0})
  run_operations done_block = pure tt
  run_operations (s ⨾ rest) = as_base_only (h.execute s) >> run_operations rest

  -- The arguments of a call, from left to right.
  unfoldable pub evaluate_args : Args → M (List Value)
  evaluate_args no_args = pure []
  evaluate_args (arg e rest) = h.evaluate e >>= λ v. evaluate_args rest >>= λ vs. pure (v ∷ vs)

  unfoldable pub evaluate_members : MemberExprs → Members → M Value
  unfolding Maps.insert
  evaluate_members no_members m = pure (object m)
  evaluate_members (member_expr key e rest) m =
      h.evaluate e >>= λ v. evaluate_members rest (Maps.insert key v m)

  -- `ArrayAccessExpressionNode::evaluate`: the container is looked at before the index is evaluated.
  unfoldable pub evaluate_index : Expr → Value → M Value
  unfolding array_access type_of get_members
  evaluate_index i v =
      if same_type (type_of v) object_type || same_type (type_of v) class_type
      then (lift_result (get_members v) >> h.evaluate i >>= λ w. lift_result (array_access v w))
      else raise (runtime_error "Attempted to index non-array")

  -- `TernaryExpressionNode::evaluate`
  unfoldable pub evaluate_ternary : Expr → Expr → Value → M Value
  unfolding condition is_null get_bool
  evaluate_ternary yes_branch no_branch v =
      if is_null v
      then raise (runtime_error "Ternary condition must not be null")
      else (condition "Ternary condition must be a boolean" get_bool v >>= λ b.
          choose b (h.evaluate yes_branch) (h.evaluate no_branch))

-- What `callUserFunction` throws for a name that it does not find.
abbrev pub callback_failure : Error → Failure
callback_failure (about_name msg name) =
    exception (about_name "callUserFunction: function not found" name)
callback_failure e = exception e

module _ (p : Program) (h : Handlers) where
  -- The body of a script function in its own scope, which the caller has to leave.
  unfoldable pub run_function : Bytes → Symbol → List Value → M (Bytes × Value)
  unfolding run_operations canonical_name enter_call bind_parameters
  run_function name s vs = enter_call (canonical_name name s) >>= λ scope.
      bind_parameters (parameters_of s) vs scope
      >> catching_return (run_operations h (p.operations (canonical_name name s)))
      >>= λ v. pure (scope, v)

  -- `CallExpressionNode::evaluate` of a script function.
  unfoldable pub call_script : Bytes → List Value → M Value
  unfolding run_function resolve leave_call modify_container type_of
  call_script name vs = resolve standard name vs >>= λ s. run_function name s vs >>= λ result.
      modify_container (leave_call result.0)
      >> (if same_type (type_of result.1) (return_type_of s)
          then pure result.1
          else signal (
              failed (
                standard (
                  type_mismatch "Unexpected return type" name (return_type_of s)
                    (type_of result.1)))))

  -- `Interpreter::callUserFunction`: a native function calls one of the script.
  unfoldable pub call_user_function : Bytes → List Value → M Value
  unfolding run_function resolve leave_call modify_container
  call_user_function name vs = resolve callback_failure name vs >>= λ s.
      run_function name s vs >>= λ result. modify_container (leave_call result.0) >> pure result.1

  unfoldable pub evaluate_call : Bytes → Args → M Value
  unfolding evaluate_args call_script
  evaluate_call name args = wrapping_all (
      evaluate_args h args >>= λ vs.
      match_option (p.natives name) (call_script name vs) (λ native. native vs))

  -- `CallStatementNode::interpret`: the value is dropped, and the exit is a plain one.
  unfoldable pub execute_call : Bytes → Args → M (Unit {0})
  unfolding evaluate_args run_function resolve modify_container enter_previous_scope
  execute_call name args = as_base_only (
      evaluate_args h args >>= λ vs.
      match_option (p.natives name)
        (resolve exception name vs >>= λ s.
          run_function name s vs >> modify_container enter_previous_scope)
        (λ native. native vs >> pure tt))

  unfoldable pub evaluate_step : Expr → M Value
  unfolding evaluate_members evaluate_call evaluate_index evaluate_ternary get_variable Unary.unary
      Binary.binary
  evaluate_step (literal v) = pure v
  evaluate_step (variable name) =
      with_container
        λ c. match_option (get_variable name c) (undefined_variable name) (λ s. pure s.value)
  evaluate_step (unary op e) = h.evaluate e >>= λ v. lift_result (Unary.unary p.floats op v)
  evaluate_step (binary op l r) =
      h.evaluate l >>= λ v. h.evaluate r >>= λ w. lift_result (Binary.binary p.floats op v w)
  evaluate_step (ternary c yes_branch no_branch) =
      h.evaluate c >>= evaluate_ternary h yes_branch no_branch
  evaluate_step (index a i) = h.evaluate a >>= evaluate_index h i
  evaluate_step (members ms) = evaluate_members h ms end
  evaluate_step (call name args) = evaluate_call name args
