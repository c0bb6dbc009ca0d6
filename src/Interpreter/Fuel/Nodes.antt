-- ===== src/Interpreter/Fuel/Nodes.antt =====
-- More fuel, node by node of src/Interpreter/Nodes.
use voidscript.Base.{List, Bytes}
use voidscript.Interpreter.Fuel.Rules.{
  Extends, Extends-refl, Extends-bind, Extends-catching, extending,
}
use voidscript.Interpreter.Nodes.{Program, Handlers}
use voidscript.Interpreter.Steps.{
  run_block, run_operations, evaluate_args, evaluate_members, run_function, call_script,
  evaluate_call, execute_call, evaluate_index, evaluate_ternary, evaluate_step,
}
use voidscript.Interpreter.Syntax.{
  Expr, literal, variable, unary, binary, ternary, index, members, call, Args, no_args, arg,
  MemberExprs, no_members, member_expr, Stmt, Block, done_block, ◌⨾◌,
}
use voidscript.Symbols.Table.{Symbol}
use voidscript.Value.{Value, Members, end}

-- The handlers of the nodes below, with less fuel and with more.
pub record HandlersExtend (h g : Handlers) : Type 0 where
  pub evaluate_extends : (e : Expr) → Extends (h.evaluate e) (g.evaluate e)
  pub execute_extends : (s : Stmt) → Extends (h.execute s) (g.execute s)

module _ {h g : Handlers} (k : HandlersExtend h g) where
  abbrev pub evaluates : (e : Expr) → Extends (h.evaluate e) (g.evaluate e)
  evaluates = k.evaluate_extends

  pub Extends-run_block : (b : Block) → Extends (run_block h b) (run_block g b)
  unfolding run_block
  Extends-run_block done_block = Extends-refl _
  Extends-run_block (s ⨾ b) = Extends-bind _ _ _ _ (k.execute_extends s) λ u. Extends-run_block b

  pub Extends-run_operations : (b : Block) → Extends (run_operations h b) (run_operations g b)
  unfolding run_operations
  Extends-run_operations done_block = Extends-refl _
  Extends-run_operations (s ⨾ b) =
      Extends-bind _ _ _ _ (Extends-catching _ _ _ _ (k.execute_extends s))
        λ u. Extends-run_operations b

  Extends-evaluate_args : (args : Args) → Extends (evaluate_args h args) (evaluate_args g args)
  unfolding evaluate_args
  Extends-evaluate_args no_args = Extends-refl _
  Extends-evaluate_args (arg e rest) =
      Extends-bind _ _ _ _ (evaluates e)
        λ v. Extends-bind _ _ _ _ (Extends-evaluate_args rest) λ vs. Extends-refl _

  Extends-evaluate_members :
      (ms : MemberExprs) (m : Members) → Extends (evaluate_members h ms m) (evaluate_members g ms m)
  unfolding evaluate_members
  Extends-evaluate_members no_members m = Extends-refl _
  Extends-evaluate_members (member_expr key e rest) m =
      Extends-bind _ _ _ _ (evaluates e) λ v. Extends-evaluate_members rest _

  module _ (p : Program) where
    Extends-run_function :
        (name : Bytes) (s : Symbol) (vs : List Value)
        → Extends (run_function p h name s vs) (run_function p g name s vs)
    unfolding run_function
    Extends-run_function name s vs = search (extending, Extends-run_operations) depth 20

    Extends-call_script :
        (name : Bytes) (vs : List Value)
        → Extends (call_script p h name vs) (call_script p g name vs)
    unfolding call_script
    Extends-call_script name vs = search (extending, Extends-run_function) depth 20

    Extends-evaluate_call :
        (name : Bytes) (args : Args)
        → Extends (evaluate_call p h name args) (evaluate_call p g name args)
    unfolding evaluate_call
    Extends-evaluate_call name args =
        search (extending, Extends-evaluate_args, Extends-call_script) depth 20

    pub Extends-execute_call :
        (name : Bytes) (args : Args)
        → Extends (execute_call p h name args) (execute_call p g name args)
    unfolding execute_call
    Extends-execute_call name args =
        search (extending, Extends-evaluate_args, Extends-run_function) depth 20

    pub Extends-evaluate_step : (e : Expr) → Extends (evaluate_step p h e) (evaluate_step p g e)
    unfolding evaluate_step evaluate_index evaluate_ternary
    Extends-evaluate_step (literal v) = Extends-refl _
    Extends-evaluate_step (variable name) = Extends-refl _
    Extends-evaluate_step (unary op e) = search (extending, evaluates) depth 20
    Extends-evaluate_step (binary op l r) = search (extending, evaluates) depth 20
    Extends-evaluate_step (ternary c a b) = search (extending, evaluates) depth 20
    Extends-evaluate_step (index a i) = search (extending, evaluates) depth 20
    Extends-evaluate_step (members ms) = Extends-evaluate_members ms end
    Extends-evaluate_step (call name args) = Extends-evaluate_call name args
