-- ===== src/Interpreter/Outcome.antt =====
-- How a node of src/Interpreter ends: with a value and a state, by one of the C++ exceptions that
-- the interpreter uses (src/BaseException.hpp, src/Interpreter/ThrowException.hpp,
-- src/Interpreter/ControlFlowSignal.hpp and the signals derived from it), or not at all.
use voidscript.Base.{Option, none, some, ℕ, zero, suc, Bool, true, false}
use voidscript.Symbols.Container.{SymbolContainer}
use voidscript.Value.{Value, Error, Result, ok, throws, undefined_behaviour}

-- The container of the symbols, and `Interpreter::next_call_id_`.
pub record State : Type 0 where
  pub container : SymbolContainer
  pub next_call_id : ℕ

-- The `std::exception`s: `standard` is no `BaseException`, `exception` is an `Exception`, `thrown`
-- is the `ThrowException` of a script's `throw`, and `wrapped` is an `Exception` that is made of the
-- text of another.
pub data Failure : Type 0 where
  standard : Error → Failure
  exception : Error → Failure
  thrown : Value → Failure
  wrapped : Failure → Failure

-- What unwinds the C++ stack. The first three are no `std::exception`s.
pub data Signal : Type 0 where
  broke continued : Signal
  returned : Value → Signal
  failed : Failure → Signal

pub data Outcome {ℓ} (A : Type ℓ) : Type ℓ where
  done : A → State → Outcome A
  jump : Signal → State → Outcome A
  undefined : Outcome A
  out_of_fuel : Outcome A

abbrev pub M {ℓ} : Type ℓ → Type ℓ
M A = State → Outcome A

abbrev pub then_run {ℓ κ} : {A : Type ℓ} {B : Type κ} → Outcome A → (A → M B) → Outcome B
then_run (done a st) f = f a st
then_run (jump s st) f = jump s st
then_run undefined f = undefined
then_run out_of_fuel f = out_of_fuel

infixl 5 ◌>>=◌ ◌>>◌
abbrev pub ◌>>=◌ {ℓ κ} : {A : Type ℓ} {B : Type κ} → M A → (A → M B) → M B
◌>>=◌ m f st = then_run (m st) f

abbrev pub ◌>>◌ {ℓ κ} : {A : Type ℓ} {B : Type κ} → M A → M B → M B
m >> k = m >>= λ _. k

abbrev pub pure {ℓ} : {A : Type ℓ} → A → M A
pure a st = done a st

abbrev pub signal {ℓ} : {A : Type ℓ} → Signal → M A
signal s st = jump s st

-- `throw Exception(...)`
abbrev pub raise {ℓ} : {A : Type ℓ} → Error → M A
raise e = signal (failed (exception e))

-- A routine that throws a standard exception.
abbrev pub lift_result {ℓ} : {A : Type ℓ} → Result A → M A
lift_result (ok a) = pure a
lift_result (throws e) = signal (failed (standard e))
lift_result undefined_behaviour = λ st. undefined

abbrev pub set_container : SymbolContainer → M (Unit {0})
set_container c st = done tt (record st { container = c })

abbrev pub on_container : (SymbolContainer → Result SymbolContainer) → M (Unit {0})
on_container f = λ st. (lift_result (f st.container) >>= set_container) st

-- `catch (const BaseException &) { throw; } catch (const std::exception & e) { throw Exception(...); }`
abbrev pub as_base : Failure → Failure
as_base (standard e) = wrapped (standard e)
as_base f = f

-- What is done to an exception on its way out: `change` to the exception, `clean` to the state.
abbrev pub rethrow : (Failure → Failure) → (State → State) → Signal → State → Signal × State
rethrow change clean (failed f) st = (failed (change f), clean st)
rethrow change clean s st = (s, st)

abbrev pub rethrown {ℓ} :
    {A : Type ℓ} → (Failure → Failure) → (State → State) → Outcome A → Outcome A
rethrown change clean (jump s st) = jump (rethrow change clean s st).0 (rethrow change clean s st).1
rethrown change clean o = o

abbrev pub catching {ℓ} : {A : Type ℓ} → (Failure → Failure) → (State → State) → M A → M A
catching change clean m st = rethrown change clean (m st)

-- The handlers that only make a `BaseException` of every exception.
abbrev pub as_base_only {ℓ} : {A : Type ℓ} → M A → M A
as_base_only = catching as_base (λ st. st)

-- The handler of a call expression makes a new exception of every one.
abbrev pub wrapping_all {ℓ} : {A : Type ℓ} → M A → M A
wrapping_all = catching wrapped (λ st. st)

-- The body of a loop: `break` leaves the loop, `continue` goes on.
abbrev pub body_ended {ℓ} : {A : Type ℓ} → Outcome A → Outcome Bool
body_ended (done a st) = done true st
body_ended (jump broke st) = done false st
body_ended (jump continued st) = done true st
body_ended (jump (returned v) st) = jump (returned v) st
body_ended (jump (failed f) st) = jump (failed f) st
body_ended undefined = undefined
body_ended out_of_fuel = out_of_fuel

abbrev pub loop_body {ℓ} : {A : Type ℓ} → M A → M Bool
loop_body m st = body_ended (m st)

-- `while (true)`: rounds while the body says so.
unfoldable pub repeat : ℕ → M Bool → M (Unit {0})
repeat zero round st = out_of_fuel
repeat (suc fuel) round st =
    then_run (round st) λ more. elim more [ true ↦ repeat fuel round | false ↦ pure tt ]

-- Both branches wait.
abbrev pub choose {ℓ} : {A : Type ℓ} → Bool → M A → M A → M A
choose true x y = x
choose false x y = y

abbrev pub match_option {ℓ κ} : {B : Type κ} {A : Type ℓ} → Option B → M A → (B → M A) → M A
match_option none absent found = absent
match_option (some b) absent found = found b

abbrev pub with_container {ℓ} : {A : Type ℓ} → (SymbolContainer → M A) → M A
with_container f st = f st.container st

unfoldable pub modify_container : (SymbolContainer → SymbolContainer) → M (Unit {0})
modify_container f st = done tt (record st { container = f st.container })
