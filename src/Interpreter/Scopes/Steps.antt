-- ===== src/Interpreter/Scopes/Steps.antt =====
-- The parts that the nodes of src/Interpreter/Nodes are made of leave the stack of scopes as `Keeps`
-- says.
use voidscript.Base.{refl, Bool, true, false, Option, none, some, Bytes}
use voidscript.Interpreter.Nodes.{Program, Handlers, after_try, same_case, same_kind}
use voidscript.Interpreter.Outcome.{
  State, M, Outcome, Failure, standard, exception, thrown, wrapped, broke, continued, returned,
  failed, on_container,
}
use voidscript.Interpreter.Scopes.Calls.{
  HandlersKeep, NativesKeep, Keeps-run_block, Keeps-evaluate_members, Keeps-evaluate_call,
}
use voidscript.Interpreter.Scopes.Keeps.{
  balanced, grown, Leaves, Leaves-trans, Leaves-IsActive, Ends, done_ends, jump_ends,
  undefined_ends, fuel_ends, Ends-mono, IsActive, Keeps, Keeps-bind, Keeps-grown,
}
use voidscript.Interpreter.Scopes.Loops.{Keeps-in_loop_scope, for-NamesLoops}
use voidscript.Interpreter.Scopes.Rules.{
  keeping, Keeps-pure, Keeps-signal, Keeps-if, Keeps-choose, Keeps-loop_body, Keeps-case_body,
  Keeps-on_container,
}
use voidscript.Interpreter.Scopes.Variables.{
  Keeps-assigned_value, Keeps-set_in_scope, add-KeepsStack, add_variable-KeepsStack,
}
use voidscript.Interpreter.Statements.{
  initial_value, execute_assign, execute_conditional, while_round, for_round, for_condition,
  for_entries, for_each_body, execute_for_each, iterable_members, catch_value, run_case, set_entry,
  run_cases, execute_switch,
}
use voidscript.Interpreter.Steps.{evaluate_index, evaluate_ternary, evaluate_step}
use voidscript.Interpreter.Syntax.{
  Expr, literal, variable, unary, binary, ternary, index, members, call, Block, Cases, no_case,
  case, Position,
}
use voidscript.Interpreter.Variables.{variable_symbol}
use voidscript.Symbols.Container.Add.{add, add_variable}
use voidscript.Value.Floats.{Floats}
use voidscript.Value.{Value, string, integer, Members, end, member, VarType}

Keeps-set_entry :
    (scope key value j : Bytes) (v : Value) → Keeps grown (set_entry scope key value j v)
unfolding set_entry
Keeps-set_entry scope key value j v =
    Keeps-bind (Keeps-set_in_scope scope key _) λ u. Keeps-set_in_scope scope value v

module _ {h : Handlers} (k : HandlersKeep h) where
  abbrev pub evaluates : (e : Expr) → Keeps balanced (h.evaluate e)
  evaluates = k.evaluate_keeps

  abbrev pub evaluates_grown : (e : Expr) → Keeps grown (h.evaluate e)
  evaluates_grown e = Keeps-grown (k.evaluate_keeps e)

  pub Keeps-evaluate_index : (i : Expr) (v : Value) → Keeps balanced (evaluate_index h i v)
  unfolding evaluate_index
  Keeps-evaluate_index i v = search (keeping, evaluates) depth 20

  pub Keeps-evaluate_ternary : (a b : Expr) (v : Value) → Keeps balanced (evaluate_ternary h a b v)
  unfolding evaluate_ternary
  Keeps-evaluate_ternary a b v = search (keeping, evaluates) depth 20

  module _ (p : Program) (n : NativesKeep p) where
    pub Keeps-evaluate_step : (e : Expr) → Keeps balanced (evaluate_step p h e)
    unfolding evaluate_step
    Keeps-evaluate_step (literal v) = Keeps-pure v
    Keeps-evaluate_step (variable name) = search keeping depth 20
    Keeps-evaluate_step (unary op e) = search (keeping, evaluates) depth 20
    Keeps-evaluate_step (binary op l r) = search (keeping, evaluates) depth 20
    Keeps-evaluate_step (ternary c a b) = Keeps-bind (evaluates c) λ v. Keeps-evaluate_ternary a b v
    Keeps-evaluate_step (index a i) = Keeps-bind (evaluates a) λ v. Keeps-evaluate_index i v
    Keeps-evaluate_step (members ms) = Keeps-evaluate_members k ms end
    Keeps-evaluate_step (call name args) = Keeps-evaluate_call p k n name args

  pub Keeps-initial_value :
      (t : VarType) (init : Option Expr) → Keeps grown (initial_value h t init)
  Keeps-initial_value t none = Keeps-pure _
  Keeps-initial_value t (some e) = evaluates_grown e

  pub Keeps-execute_assign :
      (fl : Floats) (name : Bytes) (e : Expr) → Keeps grown (execute_assign h fl name e)
  unfolding execute_assign
  Keeps-execute_assign fl name e =
      search (keeping, evaluates_grown, Keeps-assigned_value, Keeps-set_in_scope) depth 20

  pub Keeps-execute_conditional :
      (e : Expr) (a b : Block) → Keeps grown (execute_conditional h e a b)
  unfolding execute_conditional
  Keeps-execute_conditional e a b = search (keeping, evaluates_grown, Keeps-run_block k) depth 20

  pub Keeps-while_round : (e : Expr) (body : Block) → Keeps grown (while_round h e body)
  unfolding while_round
  Keeps-while_round e body =
      search (keeping, evaluates_grown, Keeps-run_block k, Keeps-loop_body) depth 20

  Keeps-for_condition : (e : Option Expr) → Keeps grown (for_condition h e)
  Keeps-for_condition none = Keeps-pure _
  Keeps-for_condition (some e) = evaluates_grown e

  pub Keeps-for_round :
      (e : Option Expr) (increment body : Block) → Keeps grown (for_round h e increment body)
  unfolding for_round
  Keeps-for_round e increment body =
      search (keeping, Keeps-for_condition, Keeps-run_block k, Keeps-loop_body) depth 20

  Keeps-for_entries :
      (scope key value : Bytes) (body : Block) (m : Members)
      → Keeps grown (for_entries h scope key value body m)
  unfolding for_entries
  Keeps-for_entries scope key value body end = Keeps-pure tt
  Keeps-for_entries scope key value body (member j v rest) =
      Keeps-bind
        (Keeps-bind (Keeps-set_entry scope key value j v)
          λ u. Keeps-loop_body (Keeps-run_block k body))
        λ more. Keeps-choose more _ _ (Keeps-for_entries scope key value body rest) (Keeps-pure tt)

  Keeps-add_loop_variable :
      (name : Bytes) (v : Value) (scope : Bytes)
      → Keeps grown (on_container (add (variable_symbol name v scope)))
  Keeps-add_loop_variable name v scope =
      Keeps-on_container (add-KeepsStack (variable_symbol name v scope) refl)

  Keeps-for_each_body :
      (key value : Bytes) (body : Block) (m : Members)
      → Keeps grown (for_each_body h key value body m)
  unfolding for_each_body
  Keeps-for_each_body key value body m =
      search (keeping, Keeps-add_loop_variable, Keeps-for_entries) depth 20

  Keeps-iterable_members : (e : Expr) → Keeps grown (iterable_members h e)
  unfolding iterable_members
  Keeps-iterable_members e = search (keeping, evaluates_grown) depth 20

  pub Keeps-execute_for_each :
      (at : Position) (key value : Bytes) (e : Expr) (body : Block)
      → Keeps grown (execute_for_each h at key value e body)
  unfolding execute_for_each
  Keeps-execute_for_each at key value e body =
      Keeps-bind (Keeps-iterable_members e)
        λ m. Keeps-in_loop_scope at _ for-NamesLoops (Keeps-for_each_body key value body m)

  Keeps-add_caught :
      (name : Bytes) (v : Value) (scope : Bytes)
      → Keeps grown (on_container (add_variable (variable_symbol name v scope)))
  Keeps-add_caught name v scope =
      Keeps-on_container (add_variable-KeepsStack (variable_symbol name v scope))

  pub Keeps-catch_value :
      (name : Bytes) (handler : Block) (v : Value) → Keeps grown (catch_value h name handler v)
  unfolding catch_value
  Keeps-catch_value name handler v = search (keeping, Keeps-add_caught, Keeps-run_block k) depth 20

  Keeps-same_kind : (v w : Value) → Keeps grown (same_kind v w)
  unfolding same_kind
  Keeps-same_kind (string a) (string b) = Keeps-pure _
  Keeps-same_kind (integer a) (integer b) = Keeps-pure _
  Keeps-same_kind v w = Keeps-signal _

  Keeps-same_case : (v w : Value) → Keeps grown (same_case v w)
  unfolding same_case
  Keeps-same_case v w = search (keeping, Keeps-same_kind) depth 20

  Keeps-run_case : (body : Block) → Keeps grown (run_case h body)
  unfolding run_case
  Keeps-run_case body = Keeps-case_body (Keeps-run_block k body)

  Keeps-run_cases :
      (v : Value) (matched : Bool) (cases : Cases) → Keeps grown (run_cases h v matched cases)
  unfolding run_cases
  Keeps-run_cases v matched no_case = Keeps-pure false
  Keeps-run_cases v matched (case e body rest) =
      Keeps-bind
        (Keeps-if matched _ _ (Keeps-pure true)
          (Keeps-bind (evaluates_grown e) λ w. Keeps-same_case v w))
        λ hit.
          Keeps-bind (Keeps-choose hit _ _ (Keeps-run_case body) (Keeps-pure false))
            λ ended. Keeps-choose ended _ _ (Keeps-pure true) (Keeps-run_cases v hit rest)

  pub Keeps-execute_switch :
      (e : Expr) (cases : Cases) (default : Block) → Keeps grown (execute_switch h e cases default)
  unfolding execute_switch
  Keeps-execute_switch e cases default = Keeps-bind (evaluates_grown e) λ v.
      Keeps-if _ _ _
        (Keeps-bind (Keeps-run_cases v false cases) λ ended.
          Keeps-choose ended _ _ (Keeps-pure tt)
            (Keeps-bind (Keeps-run_case default) λ b. Keeps-pure tt))
        (Keeps-signal _)

  -- A handler goes on from where the exception was thrown.
  pub Ends-after_try :
      (what : Failure → Bytes) (handler : Value → M (Unit {0})) {st : State}
      → ((v : Value) → Keeps grown (handler v))
      → IsActive st
      → {o : Outcome (Unit {0})} → Ends (λ u. Leaves grown st) (Leaves grown st) o
      → Ends (λ u. Leaves grown st) (Leaves grown st) (after_try what handler o)
  Ends-after_try what handler {st} keeps active r = go keeps active r
    where
      handled :
          (v : Value) (c : State)
          → ((v : Value) → Keeps grown (handler v))
          → IsActive st
          → Leaves grown st c
          → Ends (λ u. Leaves grown st) (Leaves grown st) (handler v c)
      handled v c keeps active r =
          Ends-mono (λ u d q. Leaves-trans r q) (λ d q. Leaves-trans r q)
            ((keeps v).at c (Leaves-IsActive r active))

      go :
          {o : Outcome (Unit {0})}
          → ((v : Value) → Keeps grown (handler v))
          → IsActive st
          → Ends (λ u. Leaves grown st) (Leaves grown st) o
          → Ends (λ u. Leaves grown st) (Leaves grown st) (after_try what handler o)
      go keeps active (done_ends r) = done_ends r
      go keeps active (jump_ends {s = broke} r) = jump_ends r
      go keeps active (jump_ends {s = continued} r) = jump_ends r
      go keeps active (jump_ends {s = returned v} r) = jump_ends r
      go keeps active (jump_ends {s = failed (standard e)} r) = handled _ _ keeps active r
      go keeps active (jump_ends {s = failed (exception e)} r) = handled _ _ keeps active r
      go keeps active (jump_ends {s = failed (thrown v)} r) = handled _ _ keeps active r
      go keeps active (jump_ends {s = failed (wrapped f)} r) = handled _ _ keeps active r
      go keeps active undefined_ends = undefined_ends
      go keeps active fuel_ends = fuel_ends
