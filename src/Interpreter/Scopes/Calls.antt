-- ===== src/Interpreter/Scopes/Calls.antt =====
-- A call of a script function: the expression that returns leaves the stack of its caller, as
-- src/Interpreter/Nodes/Expression/CallExpressionNode.hpp means to.
use voidscript.Base.{
  ℕ, suc, ◌≤◌, ◌≡◌, refl, ap, ◌∙◌, List, [], ◌∷◌, ◌++◌, some, arith, Bytes, All, Option-cases, inl,
  inr,
}
use mathlib.Core.Path.{subst}
use voidscript.Interpreter.Functions.{
  resolve, enter_call, call_scope_name, bind_parameters, canonical_name, parameters_of,
  catching_return,
}
use voidscript.Interpreter.Nodes.{Program, Handlers}
use voidscript.Interpreter.Outcome.{
  State, M, Failure, standard, exception, modify_container, match_option, ◌>>=◌, ◌>>◌,
}
use voidscript.Interpreter.Scopes.Keeps.{
  Exit, balanced, grown, Leaves, Leaves-same, Leaves-trans, Leaves-grown, Leaves-IsActive, Ends,
  done_ends, Ends-bind, Ends-mono, IsActive, Keeps, Keeps-bind, Keeps-grown, stack_of,
}
use voidscript.Interpreter.Scopes.Loops.{
  Entered, Entered-Leaves, Entered-IsActive, leave_scope-Leaves,
}
use voidscript.Interpreter.Scopes.Names.{IsNew, call_scope_name-IsNew}
use voidscript.Interpreter.Scopes.Rules.{
  keeping, Keeps-as_base_only, Keeps-wrapping_all, Keeps-pure, Keeps-signal, Keeps-if,
  Ends-body_value,
}
use voidscript.Interpreter.Scopes.Variables.{Keeps-bind_parameters}
use voidscript.Interpreter.Steps.{
  run_block, run_operations, evaluate_args, evaluate_members, run_function, call_script,
  call_user_function, callback_failure, evaluate_call, execute_call,
}
use voidscript.Interpreter.Syntax.{
  Expr, Stmt, Args, no_args, arg, MemberExprs, no_members, member_expr, Block, done_block, ◌⨾◌,
}
use voidscript.Symbols.Container.Calls.{leave_call, leave_call-create, IsLeftover}
use voidscript.Symbols.Container.{create}
use voidscript.Symbols.Table.{Symbol}
use voidscript.Value.{Value, Members, Error}

-- What is known of the nodes below a node.
pub record HandlersKeep (h : Handlers) : Type 0 where
  pub evaluate_keeps : (e : Expr) → Keeps balanced (h.evaluate e)
  pub execute_keeps : (s : Stmt) → Keeps grown (h.execute s)

-- What the native functions are asked: they leave the stack that they meet, where they return, and
-- at most add scopes that are no earlier call's, where they throw.
pub record NativesKeep (p : Program) : Type 0 where
  pub native_keeps :
      (name : Bytes) (native : List Value → M Value)
      → p.natives name ≡ some native
      → (vs : List Value) → Keeps balanced (native vs)

pub Keeps-resolve :
    (complain : Error → Failure) (name : Bytes) (vs : List Value)
    → Keeps balanced (resolve complain name vs)
unfolding resolve
Keeps-resolve complain name vs = search keeping depth 20

module _ {h : Handlers} (k : HandlersKeep h) where
  pub Keeps-run_block : (b : Block) → Keeps grown (run_block h b)
  unfolding run_block
  Keeps-run_block done_block = Keeps-pure tt
  Keeps-run_block (s ⨾ b) = Keeps-bind (k.execute_keeps s) λ u. Keeps-run_block b

  pub Keeps-run_operations : (b : Block) → Keeps grown (run_operations h b)
  unfolding run_operations
  Keeps-run_operations done_block = Keeps-pure tt
  Keeps-run_operations (s ⨾ b) =
      Keeps-bind (Keeps-as_base_only (k.execute_keeps s)) λ u. Keeps-run_operations b

  pub Keeps-evaluate_args : (args : Args) → Keeps balanced (evaluate_args h args)
  unfolding evaluate_args
  Keeps-evaluate_args no_args = Keeps-pure []
  Keeps-evaluate_args (arg e rest) =
      Keeps-bind (k.evaluate_keeps e)
        λ v. Keeps-bind (Keeps-evaluate_args rest) λ vs. Keeps-pure (v ∷ vs)

  pub Keeps-evaluate_members :
      (ms : MemberExprs) (m : Members) → Keeps balanced (evaluate_members h ms m)
  unfolding evaluate_members
  Keeps-evaluate_members no_members m = Keeps-pure _
  Keeps-evaluate_members (member_expr key e rest) m =
      Keeps-bind (k.evaluate_keeps e) λ v. Keeps-evaluate_members rest _

-- A body ran in the scope of a call that was made in the state `before`.
record InCall (before : State) (scope : Bytes) (after : State) : Type 0 where
  canonical : Bytes
  is_name : scope ≡ call_scope_name canonical before.next_call_id
  inner : State
  entered : Entered scope before inner
  id_taken : inner.next_call_id ≡ suc before.next_call_id
  inside : Leaves grown inner after

not_the_scope :
    (scope canonical : Bytes) (id : ℕ)
    → scope ≡ call_scope_name canonical id
    → (l : List Bytes) → All (IsNew (suc id)) l
    → IsLeftover scope l
not_the_scope scope canonical id e [] all = tt
not_the_scope scope canonical id e (s ∷ l) (new, all) =
    (rw e (new canonical id (omega arith)), not_the_scope scope canonical id e l all)

-- The exit of a call expression restores the stack.
leave_call-InCall :
    {before after : State} {scope : Bytes}
    → IsActive before
    → InCall before scope after
    → (leave_call scope after.container).stack ≡ stack_of before
unfolding create
leave_call-InCall {before} {after} {scope} active c =
    leave_call-create scope before.container after.container c.inside.added active
      (c.inside.on_top ∙ ap (λ t. c.inside.added ++ t) c.entered.on_top)
      (not_the_scope scope c.canonical before.next_call_id c.is_name c.inside.added
        (subst (λ n. All (IsNew n) c.inside.added) c.id_taken c.inside.are_new))

module _ (p : Program) {h : Handlers} (k : HandlersKeep h) where
  run_function-InCall :
      (name : Bytes) (s : Symbol) (vs : List Value) (st : State)
      → IsActive st
      → Ends (λ r. InCall st r.0) (Leaves grown st) (run_function p h name s vs st)
  unfolding run_function enter_call create
  run_function-InCall name s vs st active =
      let canonical = canonical_name name s in
      let scope = call_scope_name canonical st.next_call_id in
      let b : State = record {
        container = create scope st.container;
        next_call_id = suc st.next_call_id;
      } in
      let entered : Entered scope st b = record { on_top = refl; ids = omega arith } in
      let bound : Keeps grown (bind_parameters (parameters_of s) vs scope) =
        Keeps-bind_parameters (parameters_of s) vs scope in
      let ran : Keeps grown (catching_return (run_operations h (p.operations canonical))) = record {
        at = λ t act. Ends-body_value ((Keeps-run_operations k (p.operations canonical)).at t act);
      } in
      Ends-bind ((Keeps-bind bound λ u. ran).at b (Entered-IsActive entered))
        (λ c r. Leaves-trans (Entered-Leaves (call_scope_name-IsNew canonical _) entered) r)
        λ v c r. done_ends (record {
          canonical = canonical;
          is_name = refl;
          inner = b;
          entered = entered;
          id_taken = refl;
          inside = r;
        })

  -- After the exit of a call the value is handed on, or an exception is thrown.
  after_call :
      {A : Type 0} {x : Exit} {before after : State} (m : M A)
      → IsActive before
      → stack_of after ≡ stack_of before
      → before.next_call_id ≤ after.next_call_id
      → Keeps x m
      → Ends (λ a. Leaves x before) (Leaves grown before) (m after)
  after_call {before = before} m active same ids keeps =
      let back : Leaves balanced before _ = Leaves-same same ids in
      Ends-mono (λ a c r. Leaves-trans (Leaves-same same ids) r)
        (λ c r. Leaves-trans (Leaves-grown back) r) (keeps.at _ (Leaves-IsActive back active))

  -- The exit of a call, and what follows it.
  Keeps-left :
      (name : Bytes) (s : Symbol) (vs : List Value) {f : Bytes × Value → M Value}
      → ((r : Bytes × Value) → Keeps balanced (f r))
      → Keeps balanced
          (run_function p h name s vs >>= λ r. modify_container (leave_call r.0) >> f r)
  unfolding modify_container
  Keeps-left name s vs k = record {
    at = λ st active.
        Ends-bind (run_function-InCall name s vs st active) (λ c r. r)
          λ r c inside.
            after_call {after = record c { container = leave_call r.0 c.container }} _ active
              (leave_call-InCall active inside)
              (omega (arith, inside.inside.ids, inside.entered.ids)) (k r);
  }

  pub Keeps-call_script :
      (name : Bytes) (vs : List Value) → Keeps balanced (call_script p h name vs)
  unfolding call_script modify_container
  Keeps-call_script name vs =
      Keeps-bind (Keeps-resolve standard name vs)
        λ s. Keeps-left name s vs (λ r. Keeps-if _ _ _ (Keeps-pure _) (Keeps-signal _))

  pub Keeps-call_user :
      (name : Bytes) (vs : List Value) → Keeps balanced (call_user_function p h name vs)
  unfolding call_user_function modify_container
  Keeps-call_user name vs =
      Keeps-bind (Keeps-resolve callback_failure name vs)
        λ s. Keeps-left name s vs (λ r. Keeps-pure r.1)

  module _ (n : NativesKeep p) where
    natives_keep :
        {A : Type 0} {x : Exit} (name : Bytes) (f : (List Value → M Value) → M A) (m : M A)
        → Keeps x m
        → ((native : List Value → M Value) → p.natives name ≡ some native → Keeps x (f native))
        → Keeps x (match_option (p.natives name) m f)
    natives_keep name f m absent found = elim (Option-cases (p.natives name)) [
      | inl e ↦ rw e absent
      | inr (native, e) ↦ rw e (found native e)
    ]

    pub Keeps-evaluate_call :
        (name : Bytes) (args : Args) → Keeps balanced (evaluate_call p h name args)
    unfolding evaluate_call
    Keeps-evaluate_call name args = Keeps-wrapping_all (
        Keeps-bind (Keeps-evaluate_args k args) λ vs.
          natives_keep name _ _ (Keeps-call_script name vs)
            λ native e. n.native_keeps name native e vs)

    pub Keeps-execute_call : (name : Bytes) (args : Args) → Keeps grown (execute_call p h name args)
    unfolding execute_call modify_container
    Keeps-execute_call name args = Keeps-as_base_only (
        Keeps-bind (Keeps-grown (Keeps-evaluate_args k args)) λ vs.
          natives_keep name _ _
            (Keeps-bind (Keeps-grown (Keeps-resolve exception name vs)) λ s. record {
              at = λ st active.
                  Ends-bind (run_function-InCall name s vs st active) (λ c r. r)
                    λ r c inside. done_ends (
                      leave_scope-Leaves active
                        (rw (inside.is_name) (call_scope_name-IsNew inside.canonical _))
                        inside.entered inside.inside);
            })
            λ native e.
              Keeps-bind (Keeps-grown (n.native_keeps name native e vs)) λ v. Keeps-pure tt)
