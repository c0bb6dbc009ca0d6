-- ===== src/Tests/InterpreterTests.antt =====
-- The interpreter of src/Interpreter on fixed scripts.
use mathlib.Core.Option
use voidscript.Base.{
  ℕ, List, [], ◌∷◌, ◌++◌, none, some, codes, Bytes, ◌≡◌, refl, true, false, Option,
}
use voidscript.Base.Int.{pos}
use voidscript.Interpreter.Nodes.{Program}
use voidscript.Interpreter.Outcome.{
  State, Outcome, done, jump, undefined, out_of_fuel, Failure, wrapped, thrown, Signal, failed,
  repeat,
}
use voidscript.Interpreter.Statements.{interpreter, run, catch_value}
use voidscript.Interpreter.Scopes.Keeps.{stack_of, IsActive}
use voidscript.Interpreter.Scopes.Calls.{NativesKeep}
use voidscript.Interpreter.Scopes.Stack.{evaluate-stack, execute-stack, call_user_function-stack}
use voidscript.Interpreter.Steps.{call_user_function}
use voidscript.Interpreter.Failures.{try-call}
use voidscript.Interpreter.Functions.{called_function, call_scope_name, canonical_name}
use voidscript.Interpreter.Leaks.{execute_call-leaks}
use voidscript.Interpreter.Types.{declare-type}
use voidscript.Interpreter.Variables.{is_loop_scope}
use voidscript.Symbols.Table.{Symbol, Kind, functions, define}
use voidscript.Base.Dict.{insert}
use voidscript.Tests.SymbolTests.{with_symbol}
use voidscript.Interpreter.Syntax.{
  Expr, literal, variable, binary, call, no_args, Position, Stmt, declare, assign, evaluate_only,
  return, return_none, throw, continue_loop, conditional, while, for, try, call_statement, Block,
  done_block, ◌⨾◌,
}
use voidscript.Symbols.Container.{create, current_scope_name}
use voidscript.Symbols.Container.Add.{add_variable_in}
use voidscript.Symbols.Container.Reachable.{fresh}
use voidscript.Symbols.Container.Lookup.{get_variable}
use voidscript.Value.Floats.{Format, Floats}
use voidscript.Value.{Value, integer, string, boolean, integer_type, double_type, type_of}

abbrev zero_format : Format
zero_format = record {
  add = λ a b. 0;
  sub = λ a b. 0;
  mul = λ a b. 0;
  div = λ a b. 0;
  neg = λ a. 0;
  eq = λ a b. false;
  lt = λ a b. false;
  le = λ a b. false;
  one = 0;
  of_int = λ n. 0;
  print = λ a. [];
}

abbrev pub zero_floats : Floats
zero_floats = record {
  doubles = zero_format;
  floats = zero_format;
  widen = λ a. a;
  narrow = λ a. a;
}

abbrev int : ℕ → Expr
int n = literal (integer (pos n))

-- int $s = 0; for (int $i = 0; $i < 4; $i = $i + 1) { if ($i == 2) { continue; } $s = $s + $i; }
abbrev sum_script : Block
sum_script =
    declare integer_type (codes "s") (some (int 0)) false
    ⨾ for (record { line = 1; column = 2 })
        (declare integer_type (codes "i") (some (int 0)) false ⨾ done_block)
        (some (binary "<" (variable (codes "i")) (int 4)))
        (assign (codes "i") (binary "+" (variable (codes "i")) (int 1)) ⨾ done_block)
        (conditional (binary "==" (variable (codes "i")) (int 2)) (continue_loop ⨾ done_block)
            done_block
          ⨾ assign (codes "s") (binary "+" (variable (codes "s")) (variable (codes "i")))
          ⨾ done_block)
    ⨾ done_block

abbrev sample : Program
sample = record {
  floats = zero_floats;
  classes = λ name. none;
  natives = λ name. none;
  operations = λ name. sum_script;
  what = λ f. [];
}

abbrev start : State
start = record { container = fresh (codes "g"); next_call_id = 0 }

abbrev state_of {ℓ} : {A : Type ℓ} → Outcome A → State
state_of (done a st) = st
state_of (jump sig st) = st
state_of undefined = start
state_of out_of_fuel = start

value_of : Bytes → State → Option Value
value_of name st = Option.map (λ (s : Symbol). s.value) (get_variable name st.container)

-- The loop leaves `s` at 0 + 1 + 3.
sum_script_runs : value_of (codes "s") (state_of (run sample 20 start)) ≡ some (integer (pos 4))
unfolding value_of run get_variable add_variable_in repeat
sum_script_runs = refl

-- `f` returns out of a loop; `thrower` throws the number 7.
abbrev f_symbol : Symbol
f_symbol = record {
  name = codes "f";
  value = string [];
  context = codes "g";
  kind = Kind.function;
  signature = some (record { parameters = []; return_type = integer_type });
}

abbrev loop_at : Position
loop_at = record { line = 3; column = 4 }

abbrev f_body : Block
f_body = while loop_at (literal (boolean true)) (return (int 7) ⨾ done_block) ⨾ done_block

abbrev caller : Program
caller = record sample { operations = λ name. f_body }

abbrev thrower : Program
thrower = record sample { operations = λ name. throw (int 7) ⨾ done_block }

abbrev with_f : State
with_f = record {
  container = with_symbol functions f_symbol (codes "g") (fresh (codes "g"));
  next_call_id = 5;
}

no_natives-NativesKeep : (body : Block) → NativesKeep (record sample { operations = λ name. body })
no_natives-NativesKeep body = record { native_keeps = λ name native e vs. absurd cc }

abbrev call_f : Expr
call_f = call (codes "f") no_args

returns :
    (interpreter caller 9).evaluate call_f with_f
    ≡ done (integer (pos 7)) (state_of ((interpreter caller 9).evaluate call_f with_f))
unfolding interpreter repeat
returns = refl

with_f-IsActive : IsActive with_f
unfolding create
with_f-IsActive = λ e. cc

evaluate-stack_example :
    stack_of (state_of ((interpreter caller 9).evaluate call_f with_f)) ≡ stack_of with_f
evaluate-stack_example =
    evaluate-stack caller 9 call_f with_f (state_of ((interpreter caller 9).evaluate call_f with_f))
      (integer (pos 7)) (no_natives-NativesKeep f_body) with_f-IsActive returns

execute-stack_example :
    ((st' : State)
      → (interpreter caller 9).execute (call_statement (codes "f") no_args) with_f ≡ done tt st'
      → (added : List Bytes) × (stack_of st' ≡ added ++ stack_of with_f))
    × ((st' : State) (sig : Signal)
        → (interpreter caller 9).execute (call_statement (codes "f") no_args) with_f ≡ jump sig st'
        → (added : List Bytes) × (stack_of st' ≡ added ++ stack_of with_f))
execute-stack_example =
    execute-stack caller 9 (call_statement (codes "f") no_args) with_f
      (no_natives-NativesKeep f_body) with_f-IsActive

fails :
    (interpreter thrower 7).evaluate call_f with_f
    ≡ jump
        (failed (wrapped (thrown (integer (pos 7)))))
        (state_of ((interpreter thrower 7).evaluate call_f with_f))
unfolding interpreter repeat
fails = refl

try-call_example :
    (g : Failure) × ((interpreter thrower 9).execute
        (try (evaluate_only call_f ⨾ done_block) (codes "e") done_block)
        with_f
      ≡ catch_value
          (interpreter thrower 8)
          (codes "e")
          done_block
          (string (thrower.what (wrapped g)))
          (state_of ((interpreter thrower 7).evaluate call_f with_f)))
try-call_example =
    try-call thrower 6 (codes "f") (codes "e") no_args done_block with_f
      (state_of ((interpreter thrower 7).evaluate call_f with_f))
      (wrapped (thrown (integer (pos 7)))) fails

-- The body of `f` returns nothing out of its loop.
abbrev leaver : Program
leaver = record sample {
  operations =
      λ name. while loop_at (literal (boolean true)) (return_none ⨾ done_block) ⨾ done_block;
}

f_is_found : called_function (codes "f") with_f.container ≡ some f_symbol
unfolding called_function insert create define
f_is_found = refl

execute_call-leaks_example :
    (st' : State) × ((interpreter leaver 9).execute (call_statement (codes "f") no_args) with_f
      ≡ done tt st')
    × (stack_of st'
        ≡ call_scope_name (canonical_name (codes "f") f_symbol) with_f.next_call_id
          ∷ stack_of with_f)
execute_call-leaks_example =
    execute_call-leaks leaver 6 (codes "f") f_symbol loop_at done_block done_block with_f refl
      f_is_found refl refl

-- double $x = 3;
abbrev declare_x : Stmt
declare_x = declare double_type (codes "x") (some (int 3)) false

abbrev declared : State
declared = state_of ((interpreter sample 5).execute declare_x start)

declares : (interpreter sample 5).execute declare_x start ≡ done tt declared
unfolding interpreter add_variable_in
declares = refl

declared-IsActive : IsActive declared
unfolding interpreter add_variable_in
declared-IsActive = λ e. cc

declared_in_no_loop : is_loop_scope (current_scope_name declared.container) ≡ false
unfolding interpreter is_loop_scope add_variable_in
declared_in_no_loop = refl

declare-type_example :
    (s : Symbol) × (get_variable (codes "x") declared.container ≡ some s)
    × (type_of s.value ≡ double_type)
declare-type_example =
    declare-type sample 4 double_type (codes "x") (some (int 3)) start declared tt declared-IsActive
      declared_in_no_loop declares

abbrev called_back : State
called_back = state_of (call_user_function caller (interpreter caller 9) (codes "f") [] with_f)

calls_back :
    call_user_function caller (interpreter caller 9) (codes "f") [] with_f
    ≡ done (integer (pos 7)) called_back
unfolding interpreter repeat call_user_function
calls_back = refl

call_user_function-stack_example : stack_of called_back ≡ stack_of with_f
call_user_function-stack_example =
    call_user_function-stack caller 9 (codes "f") [] with_f called_back (integer (pos 7))
      (no_natives-NativesKeep f_body) with_f-IsActive calls_back
