-- ===== src/Interpreter/Scopes/Rules.antt =====
-- How the computations of src/Interpreter are put together, and what that does to the stack of
-- scopes: one rule for each construct of `Interpreter.Outcome`.
use voidscript.Base.{
  ℕ, zero, suc, String, ◌≡◌, refl, Bool, true, false, Option, none, some, arith, if◌then◌else◌,
}
use voidscript.Interpreter.Functions.{body_value}
use voidscript.Interpreter.Nodes.{case_body, condition}
use voidscript.Interpreter.Outcome.{
  with_container, modify_container, match_option, State, M, Outcome, undefined, out_of_fuel, Signal,
  broke, continued, returned, failed, Failure, ◌>>=◌, pure, signal, lift_result, on_container,
  set_container, rethrown, loop_body, body_ended, repeat, choose, as_base_only, wrapping_all,
}
use voidscript.Interpreter.Scopes.Keeps.{
  Exit, balanced, grown, Leaves, Leaves-same, Leaves-refl, Leaves-grown, Ends, done_ends, jump_ends,
  undefined_ends, fuel_ends, Ends-mono, IsActive, Keeps, Keeps-bind, Keeps-grown, stack_of,
}
use voidscript.Symbols.Container.{SymbolContainer}
use voidscript.Value.{Value, Result, ok, throws, undefined_behaviour}

module _ {ℓ} {A : Type ℓ} where
  -- A handler that only changes the exception.
  pub Ends-rethrown :
      {D : A → State → Type 0} {J : State → Type 0} (change : Failure → Failure) {o : Outcome A}
      → Ends D J o
      → Ends D J (rethrown change (λ st. st) o)
  Ends-rethrown change (done_ends h) = done_ends h
  Ends-rethrown change (jump_ends {s = broke} h) = jump_ends h
  Ends-rethrown change (jump_ends {s = continued} h) = jump_ends h
  Ends-rethrown change (jump_ends {s = returned v} h) = jump_ends h
  Ends-rethrown change (jump_ends {s = failed f} h) = jump_ends h
  Ends-rethrown change undefined_ends = undefined_ends
  Ends-rethrown change fuel_ends = fuel_ends

  Ends-body_ended :
      {J : State → Type 0} {o : Outcome A} → Ends (λ a. J) J o → Ends (λ a. J) J (body_ended o)
  Ends-body_ended (done_ends h) = done_ends h
  Ends-body_ended (jump_ends {s = broke} h) = done_ends h
  Ends-body_ended (jump_ends {s = continued} h) = done_ends h
  Ends-body_ended (jump_ends {s = returned v} h) = jump_ends h
  Ends-body_ended (jump_ends {s = failed f} h) = jump_ends h
  Ends-body_ended undefined_ends = undefined_ends
  Ends-body_ended fuel_ends = fuel_ends

  pub Keeps-loop_body : {m : M A} → Keeps grown m → Keeps grown (loop_body m)
  Keeps-loop_body k = record { at = λ st active. Ends-body_ended (k.at st active) }

module _ {ℓ} {A : Type ℓ} {x : Exit} where
  pub Keeps-pure : (a : A) → Keeps x (pure a)
  Keeps-pure a = record { at = λ st active. done_ends Leaves-refl }

  pub Keeps-signal : (s : Signal) → Keeps x {A = A} (signal s)
  Keeps-signal s = record { at = λ st active. jump_ends Leaves-refl }

  pub Keeps-undefined : Keeps x {A = A} (λ st. undefined)
  Keeps-undefined = record { at = λ st active. undefined_ends }

  pub Keeps-out_of_fuel : Keeps x {A = A} (λ st. out_of_fuel)
  Keeps-out_of_fuel = record { at = λ st active. fuel_ends }

  pub Keeps-lift_result : (r : Result A) → Keeps x (lift_result r)
  Keeps-lift_result (ok a) = Keeps-pure a
  Keeps-lift_result (throws e) = Keeps-signal _
  Keeps-lift_result undefined_behaviour = Keeps-undefined

  pub Keeps-if : (b : Bool) (m n : M A) → Keeps x m → Keeps x n → Keeps x (if b then m else n)
  Keeps-if true m n k l = k
  Keeps-if false m n k l = l

  pub Keeps-choose : (b : Bool) (m n : M A) → Keeps x m → Keeps x n → Keeps x (choose b m n)
  Keeps-choose true m n k l = k
  Keeps-choose false m n k l = l

  pub Keeps-with_container :
      {f : SymbolContainer → M A}
      → ((c : SymbolContainer) → Keeps x (f c))
      → Keeps x (with_container f)
  Keeps-with_container k = record { at = λ st active. (k st.container).at st active }

  pub Keeps-match_option {κ} :
      {B : Type κ} (o : Option B) (m : M A) (f : B → M A)
      → Keeps x m
      → ((b : B) → Keeps x (f b))
      → Keeps x (match_option o m f)
  Keeps-match_option none m f k l = k
  Keeps-match_option (some b) m f k l = l b

  pub Keeps-elim_bool :
      (b : Bool) {m n : M A} → Keeps x m → Keeps x n → Keeps x (elim b [ true ↦ m | false ↦ n ])
  Keeps-elim_bool true k l = k
  Keeps-elim_bool false k l = l

  pub Keeps-as_base_only : {m : M A} → Keeps x m → Keeps x (as_base_only m)
  Keeps-as_base_only k = record { at = λ st active. Ends-rethrown _ (k.at st active) }

  pub Keeps-wrapping_all : {m : M A} → Keeps x m → Keeps x (wrapping_all m)
  Keeps-wrapping_all k = record { at = λ st active. Ends-rethrown _ (k.at st active) }

Ends-case_body :
    {J : State → Type 0} {o : Outcome (Unit {0})}
    → Ends (λ a. J) J o
    → Ends (λ a. J) J (case_body o)
Ends-case_body (done_ends h) = done_ends h
Ends-case_body (jump_ends {s = broke} h) = done_ends h
Ends-case_body (jump_ends {s = continued} h) = jump_ends h
Ends-case_body (jump_ends {s = returned v} h) = jump_ends h
Ends-case_body (jump_ends {s = failed f} h) = jump_ends h
Ends-case_body undefined_ends = undefined_ends
Ends-case_body fuel_ends = fuel_ends

pub Keeps-case_body : {m : M (Unit {0})} → Keeps grown m → Keeps grown (λ st. case_body (m st))
Keeps-case_body k = record { at = λ st active. Ends-case_body (k.at st active) }

pub Ends-body_value :
    {J : State → Type 0} {o : Outcome (Unit {0})}
    → Ends (λ a. J) J o
    → Ends (λ a. J) J (body_value o)
Ends-body_value (done_ends h) = done_ends h
Ends-body_value (jump_ends {s = broke} h) = jump_ends h
Ends-body_value (jump_ends {s = continued} h) = jump_ends h
Ends-body_value (jump_ends {s = returned v} h) = done_ends h
Ends-body_value (jump_ends {s = failed f} h) = jump_ends h
Ends-body_value undefined_ends = undefined_ends
Ends-body_value fuel_ends = fuel_ends

pub Keeps-repeat : (fuel : ℕ) {round : M Bool} → Keeps grown round → Keeps grown (repeat fuel round)
unfolding repeat
Keeps-repeat zero k = Keeps-out_of_fuel
Keeps-repeat (suc fuel) {round} k =
    Keeps-bind {m = round} k λ more. Keeps-elim_bool more (Keeps-repeat fuel k) (Keeps-pure tt)

-- What a change of the container does to its stack is what the computation does.
pub Keeps-modify_container :
    {x : Exit} (f : SymbolContainer → SymbolContainer)
    → ((c : SymbolContainer) → (f c).stack ≡ c.stack)
    → Keeps x (modify_container f)
unfolding modify_container
Keeps-modify_container f same = record {
  at = λ st active. done_ends (Leaves-same (same st.container) (omega arith));
}

-- A routine of the container that keeps the stack where it returns.
pub record KeepsStack (f : SymbolContainer → Result SymbolContainer) : Type 0 where
  pub same_stack : (c c' : SymbolContainer) → f c ≡ ok c' → c'.stack ≡ c.stack

pub Keeps-on_container :
    {x : Exit} {f : SymbolContainer → Result SymbolContainer}
    → KeepsStack f
    → Keeps x (on_container f)
Keeps-on_container {x} {f} k = record { at = λ st active. ends st (f st.container) refl }
  where
    ends :
        (st : State) (r : Result SymbolContainer)
        → f st.container ≡ r
        → Ends (λ a. Leaves x st) (Leaves grown st) ((lift_result r >>= set_container) st)
    ends st (ok c') e = done_ends (Leaves-same (k.same_stack st.container c' e) (omega arith))
    ends st (throws e) h = jump_ends Leaves-refl
    ends st undefined_behaviour h = undefined_ends

pub Keeps-condition :
    {x : Exit} (msg : String) (read : Value → Result Bool) (v : Value)
    → Keeps x (condition msg read v)
unfolding condition
Keeps-condition msg read v = search (Keeps-if, Keeps-lift_result, Keeps-signal)

-- For `search`.
pub ruleset keeping = (
  Keeps-if, Keeps-choose, Keeps-pure, Keeps-signal, Keeps-undefined, Keeps-lift_result,
  Keeps-with_container, Keeps-match_option, Keeps-bind, Keeps-condition, Keeps-as_base_only,
  Keeps-wrapping_all,
)
