-- ===== src/Interpreter/Types/Rules.antt =====
-- What the computations of src/Interpreter return, put together from what their parts return: one
-- rule for each construct of `Interpreter.Outcome`.
use voidscript.Base.{◌≡◌, refl, sym, ◌∙◌, Bool, true, false, Option, none, some, if◌then◌else◌}
use mathlib.Core.Path.{subst}
use voidscript.Interpreter.Outcome.{
  State, M, Outcome, done, jump, undefined, out_of_fuel, Signal, ◌>>=◌, pure, signal, lift_result,
  match_option,
}
use voidscript.Interpreter.Scopes.Keeps.{
  Ends, done_ends, jump_ends, undefined_ends, fuel_ends, Ends-bind, Ends-mono,
}
use voidscript.Value.{Result, ok, throws, undefined_behaviour}

pub from_done :
    {A : Type 0} {D : A → State → Type 0} {J : State → Type 0} {a : A} {st : State}
    → Ends D J (done a st)
    → D a st
from_done (done_ends h) = h

pub ends_always : {A : Type 0} (o : Outcome A) → Ends (λ a s. Unit {0}) (λ s. Unit {0}) o
ends_always (done a st) = done_ends tt
ends_always (jump s st) = jump_ends tt
ends_always undefined = undefined_ends
ends_always out_of_fuel = fuel_ends

-- A computation that leaves the state and returns values with a property.
pub record Gives {A : Type 0} (Q : A → Type 0) (m : M A) : Type 0 where
  pub at : (st : State) → Ends (λ a s. (s ≡ st) × Q a) (λ s. Unit) (m st)

module _ {A : Type 0} {Q : A → Type 0} where
  pub Gives-pure : (a : A) → Q a → Gives Q (pure a)
  Gives-pure a q = record { at = λ st. done_ends (refl, q) }

  pub Gives-signal : (s : Signal) → Gives Q (signal s)
  Gives-signal s = record { at = λ st. jump_ends tt }

  pub Gives-lift_result : (r : Result A) → ((a : A) → r ≡ ok a → Q a) → Gives Q (lift_result r)
  Gives-lift_result (ok a) q = Gives-pure a (q a refl)
  Gives-lift_result (throws e) q = Gives-signal _
  Gives-lift_result undefined_behaviour q = record { at = λ st. undefined_ends }

  pub Gives-if :
      (b : Bool) (m n : M A)
      → (b ≡ true → Gives Q m)
      → (b ≡ false → Gives Q n)
      → Gives Q (if b then m else n)
  Gives-if true m n k l = k refl
  Gives-if false m n k l = l refl

  pub Gives-bind :
      {B : Type 0} {P : B → Type 0} (m : M B) (f : B → M A)
      → Gives P m
      → ((b : B) → P b → Gives Q (f b))
      → Gives Q (m >>= f)
  Gives-bind m f k next = record {
    at = λ st.
        Ends-bind (k.at st) (λ s u. tt)
          λ b s (same, p). Ends-mono (λ a t (e, q). (e ∙ same, q)) (λ t u. u) ((next b p).at s);
  }

  pub Gives-match_option :
      {B : Type 0} (o : Option B) (m : M A) (f : B → M A)
      → (o ≡ none → Gives Q m)
      → ((b : B) → o ≡ some b → Gives Q (f b))
      → Gives Q (match_option o m f)
  Gives-match_option none m f k l = k refl
  Gives-match_option (some b) m f k l = l b refl

-- What holds where a computation that begins in a state returns.
pub record Returns (D : State → Type 0) (st : State) (m : M (Unit {0})) : Type 0 where
  pub at : Ends (λ u. D) (λ s. Unit) (m st)

module _ {D : State → Type 0} {st : State} where
  pub Returns-bind :
      {B : Type 0} {P : B → Type 0} (m : M B) (f : B → M (Unit {0}))
      → Gives P m
      → ((b : B) → P b → Returns D st (f b))
      → Returns D st (m >>= f)
  Returns-bind m f k next = record {
    at =
        Ends-bind (k.at st) (λ s u. tt)
          λ b s (same, p). subst (λ s. Ends (λ u. D) (λ s. Unit) (f b s)) (sym same) (next b p).at;
  }

  pub Returns-match_option :
      {B : Type 0} (o : Option B) (m : M (Unit {0})) (f : B → M (Unit {0}))
      → Returns D st m
      → ((b : B) → Returns D st (f b))
      → Returns D st (match_option o m f)
  Returns-match_option none m f k l = k
  Returns-match_option (some b) m f k l = l b

  pub Returns-signal : (s : Signal) → Returns D st (signal s)
  Returns-signal s = record { at = jump_ends tt }
