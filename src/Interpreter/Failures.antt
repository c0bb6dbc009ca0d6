-- ===== src/Interpreter/Failures.antt =====
-- Exceptions and returns that cross a call: src/Interpreter/Nodes/Expression/CallExpressionNode.hpp,
-- src/Interpreter/Nodes/Statement/CallStatementNode.hpp and TryStatementNode.hpp.
use voidscript.Base.{ℕ, suc, ◌≡◌, refl, arith, Bytes}
use voidscript.Interpreter.Nodes.{Program}
use voidscript.Interpreter.Outcome.{
  State, Outcome, done, jump, undefined, out_of_fuel, Failure, wrapped, broke, continued, returned,
  failed, rethrown,
}
use voidscript.Interpreter.Statements.{catch_value, execute_step, interpreter}
use voidscript.Interpreter.Steps.{run_block, evaluate_call, evaluate_step}
use voidscript.Interpreter.Syntax.{call, Args, evaluate_only, try, Block, done_block, ◌⨾◌}
use voidscript.Value.{string}

wrapped_only :
    {A : Type 0} (o : Outcome A) {f : Failure} {st : State}
    → rethrown wrapped (λ s. s) o ≡ jump (failed f) st
    → (g : Failure) × (f ≡ wrapped g)
wrapped_only (done a s) e = absurd cc
wrapped_only (jump broke s) e = absurd cc
wrapped_only (jump continued s) e = absurd cc
wrapped_only (jump (returned v) s) e = absurd cc
wrapped_only (jump (failed g) s) e = (g, ground arith)
wrapped_only undefined e = absurd cc
wrapped_only out_of_fuel e = absurd cc

-- Every exception that leaves a call in an expression is a new one, made of the text of another.
evaluate-call_wraps :
    (p : Program) (fuel : ℕ) (name : Bytes) (args : Args) (st st' : State) (f : Failure)
    → (interpreter p (suc fuel)).evaluate (call name args) st ≡ jump (failed f) st'
    → (g : Failure) × (f ≡ wrapped g)
unfolding interpreter evaluate_step evaluate_call
evaluate-call_wraps p fuel name args st st' f e = wrapped_only _ e

-- Where a call in an expression fails, a `try` around it gives its handler a text, whatever value a
-- script threw in the called function.
pub try-call :
    (p : Program) (fuel : ℕ) (name variable : Bytes) (args : Args) (handler : Block)
    (st st' : State) (f : Failure)
    → (interpreter p (suc fuel)).evaluate (call name args) st ≡ jump (failed f) st'
    → (g : Failure) × ((interpreter p (suc (suc (suc fuel)))).execute
          (try (evaluate_only (call name args) ⨾ done_block) variable handler)
          st
        ≡ catch_value
            (interpreter p (suc (suc fuel)))
            variable
            handler
            (string (p.what (wrapped g)))
            st')
unfolding interpreter execute_step run_block
try-call p fuel name variable args handler st st' f e =
    let (g, is_wrapped) = evaluate-call_wraps p fuel name args st st' f e in
    (g, rw (e, is_wrapped) refl)
