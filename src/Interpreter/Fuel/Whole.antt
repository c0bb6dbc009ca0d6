-- ===== src/Interpreter/Fuel/Whole.antt =====
-- More fuel, for the statements of src/Interpreter/Nodes/Statement and for the interpreter.
use voidscript.Base.{ℕ, String, zero, suc, ◌≤◌, ◌≡◌, Bool, Option, none, some, arith, Bytes}
use voidscript.Interpreter.Fuel.Rules.{
  Extends, Extends-refl, Extends-starved, Extends-bind, Extends-if, Extends-choose,
  Extends-catching, Extends-with_container, Extends-loop_body, Extends-case_body, Extends-after_try,
  Extends-repeat, extending,
}
use voidscript.Interpreter.Nodes.{Program, Handlers, in_loop_scope}
use voidscript.Interpreter.Outcome.{M, State, out_of_fuel, ◌>>◌, pure, loop_body}
use voidscript.Interpreter.Statements.{
  initial_value, execute_assign, execute_conditional, while_round, for_round, for_condition,
  for_entries, for_each_body, iterable_members, execute_for_each, catch_value, run_case, run_cases,
  set_entry, execute_switch, execute_step,
}
use voidscript.Interpreter.Steps.{run_block}
use voidscript.Interpreter.Syntax.{
  Expr, Position, Stmt, declare, assign, evaluate_only, return_none, return, throw, break_loop,
  continue_loop, conditional, while, for, for_each, try, switch, call_statement, Block, Cases,
  no_case, case,
}
use voidscript.Symbols.Container.{current_scope_name}
use voidscript.Value.{Value, Members, end, member, VarType}
use voidscript.Interpreter.Fuel.Rules.{Extends-eq}
use voidscript.Interpreter.Fuel.Nodes.{
  HandlersExtend, evaluates, Extends-run_block, Extends-execute_call, Extends-evaluate_step,
  Extends-run_operations,
}
use voidscript.Interpreter.Statements.{interpreter, run}

module _ {h g : Handlers} (k : HandlersExtend h g) where
  Extends-initial_value :
      (t : VarType) (init : Option Expr) → Extends (initial_value h t init) (initial_value g t init)
  Extends-initial_value t none = Extends-refl _
  Extends-initial_value t (some e) = evaluates k e

  Extends-for_condition : (e : Option Expr) → Extends (for_condition h e) (for_condition g e)
  Extends-for_condition none = Extends-refl _
  Extends-for_condition (some e) = evaluates k e

  Extends-while_round :
      (e : Expr) (body : Block) → Extends (while_round h e body) (while_round g e body)
  unfolding while_round
  Extends-while_round e body = search (extending, evaluates k, Extends-run_block k) depth 20

  Extends-for_round :
      (e : Option Expr) (increment body : Block)
      → Extends (for_round h e increment body) (for_round g e increment body)
  unfolding for_round
  Extends-for_round e increment body =
      search (extending, Extends-for_condition, Extends-run_block k) depth 20

  Extends-for_entries :
      (scope key value : Bytes) (body : Block) (m : Members)
      → Extends (for_entries h scope key value body m) (for_entries g scope key value body m)
  unfolding for_entries
  Extends-for_entries scope key value body end = Extends-refl _
  Extends-for_entries scope key value body (member j v rest) =
      let set = set_entry scope key value j v in
      Extends-bind (set >> loop_body (run_block h body)) (set >> loop_body (run_block g body)) _ _
        (Extends-bind set set _ _ (Extends-refl set)
          λ u. Extends-loop_body _ _ (Extends-run_block k body))
        λ more.
          Extends-choose more _ (pure tt) _ (pure tt)
            (Extends-for_entries scope key value body rest) (Extends-refl (pure tt))

  Extends-for_each_body :
      (key value : Bytes) (body : Block) (m : Members)
      → Extends (for_each_body h key value body m) (for_each_body g key value body m)
  unfolding for_each_body
  Extends-for_each_body key value body m = search (extending, Extends-for_entries) depth 20

  Extends-run_case : (body : Block) → Extends (run_case h body) (run_case g body)
  unfolding run_case
  Extends-run_case body = Extends-case_body _ _ (Extends-run_block k body)

  Extends-run_cases :
      (v : Value) (matched : Bool) (cases : Cases)
      → Extends (run_cases h v matched cases) (run_cases g v matched cases)
  unfolding run_cases
  Extends-run_cases v matched no_case = Extends-refl _
  Extends-run_cases v matched (case e body rest) =
      Extends-bind _ _ _ _
        (Extends-if matched _ _ _ _ (Extends-refl _)
          (Extends-bind _ _ _ _ (evaluates k e) λ w. Extends-refl _))
        λ hit.
          Extends-bind _ _ _ _ (Extends-choose hit _ _ _ _ (Extends-run_case body) (Extends-refl _))
            λ ended. Extends-choose ended _ _ _ _ (Extends-refl _) (Extends-run_cases v hit rest)

  Extends-execute_switch :
      (e : Expr) (cases : Cases) (default : Block)
      → Extends (execute_switch h e cases default) (execute_switch g e cases default)
  unfolding execute_switch
  Extends-execute_switch e cases default =
      search (extending, evaluates k, Extends-run_cases, Extends-run_case) depth 20

  Extends-catch_value :
      (name : Bytes) (handler : Block) (v : Value)
      → Extends (catch_value h name handler v) (catch_value g name handler v)
  unfolding catch_value
  Extends-catch_value name handler v = search (extending, Extends-run_block k) depth 20

  Extends-iterable_members : (e : Expr) → Extends (iterable_members h e) (iterable_members g e)
  unfolding iterable_members
  Extends-iterable_members e = search (extending, evaluates k) depth 20

  Extends-in_loop_scope :
      (kind : String) (at : Position) (m n : M (Unit {0}))
      → Extends m n
      → Extends (in_loop_scope kind at m) (in_loop_scope kind at n)
  unfolding in_loop_scope
  Extends-in_loop_scope kind at m n e =
      Extends-bind _ _ _ _ (Extends-bind _ _ _ _ (Extends-refl _) λ u. Extends-catching _ _ _ _ e)
        λ u. Extends-refl _

  module _ (p : Program) (fuel more : ℕ) (le : fuel ≤ more) where
    Extends-execute_step : (s : Stmt) → Extends (execute_step p fuel h s) (execute_step p more g s)
    unfolding execute_step execute_assign execute_conditional execute_for_each
    Extends-execute_step (declare t name init is_const) =
        search (extending, Extends-initial_value) depth 20
    Extends-execute_step (assign name e) = search (extending, evaluates k) depth 20
    Extends-execute_step (evaluate_only e) = search (extending, evaluates k) depth 20
    Extends-execute_step return_none = Extends-refl _
    Extends-execute_step (return e) = search (extending, evaluates k) depth 20
    Extends-execute_step (throw e) = search (extending, evaluates k) depth 20
    Extends-execute_step break_loop = Extends-refl _
    Extends-execute_step continue_loop = Extends-refl _
    Extends-execute_step (conditional e a b) =
        search (extending, evaluates k, Extends-run_block k) depth 20
    Extends-execute_step (while at e body) =
        Extends-in_loop_scope "while_" at _ _
          (Extends-repeat fuel more _ _ le (Extends-while_round e body))
    Extends-execute_step (for at init e increment body) = Extends-in_loop_scope "for_" at _ _ (
        Extends-bind _ _ _ _ (Extends-run_block k init)
          λ u. Extends-repeat fuel more _ _ le (Extends-for_round e increment body))
    Extends-execute_step (for_each at key value e body) =
        Extends-bind _ _ _ _ (Extends-iterable_members e)
          λ m. Extends-in_loop_scope "for_" at _ _ (Extends-for_each_body key value body m)
    Extends-execute_step (try body name handler) =
        Extends-after_try p.what _ _ _ _ (Extends-run_block k body)
          (Extends-catch_value name handler)
    Extends-execute_step (switch e cases default) = Extends-execute_switch e cases default
    Extends-execute_step (call_statement name args) = Extends-execute_call k p name args

module _ (p : Program) where
  HandlersExtend-interpreter :
      (fuel more : ℕ) → fuel ≤ more → HandlersExtend (interpreter p fuel) (interpreter p more)
  unfolding interpreter
  HandlersExtend-interpreter zero more le = record {
    evaluate_extends = λ e. Extends-starved _;
    execute_extends = λ s. Extends-starved _;
  }
  HandlersExtend-interpreter (suc fuel) zero le = absurd (omega arith)
  HandlersExtend-interpreter (suc fuel) (suc more) le =
      let k = HandlersExtend-interpreter fuel more (omega arith) in
      record {
        evaluate_extends = Extends-evaluate_step k p;
        execute_extends = Extends-execute_step k p fuel more (omega arith);
      }

-- The fuel only decides whether there is an outcome: a script, an expression and a statement that
-- do not run out of it end with more fuel as they do with less.
pub interpreter-more_fuel :
    (p : Program) (fuel more : ℕ) (st : State)
    → fuel ≤ more
    → (¬ (run p fuel st ≡ out_of_fuel) → run p more st ≡ run p fuel st)
      × ((e : Expr)
          → ¬ ((interpreter p fuel).evaluate e st ≡ out_of_fuel)
          → (interpreter p more).evaluate e st ≡ (interpreter p fuel).evaluate e st)
      × ((s : Stmt)
          → ¬ ((interpreter p fuel).execute s st ≡ out_of_fuel)
          → (interpreter p more).execute s st ≡ (interpreter p fuel).execute s st)
unfolding run
interpreter-more_fuel p fuel more st le =
    let k = HandlersExtend-interpreter p fuel more le in
    (
      λ enough.
          Extends-eq _ _ st
            (Extends-with_container _ _
              λ c. Extends-run_operations k (p.operations (current_scope_name c)))
            enough,
      λ e enough. Extends-eq _ _ st (k.evaluate_extends e) enough,
      λ s enough. Extends-eq _ _ st (k.execute_extends s) enough,
    )
