-- ===== src/Interpreter/Fuel/Rules.antt =====
-- More fuel, construct by construct of `Interpreter.Outcome`.
use voidscript.Base.{
  ℕ, zero, suc, ◌≤◌, ◌≡◌, refl, Bool, true, false, Option, none, some, arith, if◌then◌else◌, Bytes,
}
use voidscript.Interpreter.Functions.{body_value, catching_return}
use voidscript.Interpreter.Nodes.{case_body, after_try}
use voidscript.Interpreter.Outcome.{
  State, M, Outcome, done, jump, undefined, out_of_fuel, broke, continued, returned, failed,
  Failure, standard, exception, thrown, wrapped, ◌>>=◌, then_run, pure, catching, rethrown,
  loop_body, body_ended, repeat, choose, match_option, with_container,
}
use voidscript.Symbols.Container.{SymbolContainer}
use voidscript.Value.{Value}

-- The second outcome is the first, unless the first ran out of fuel.
pub data Below {ℓ} {A : Type ℓ} : Outcome A → Outcome A → Type ℓ where
  same : (o : Outcome A) → Below o o
  starved : (o : Outcome A) → Below out_of_fuel o

pub record Extends {ℓ} {A : Type ℓ} (m n : M A) : Type ℓ where
  pub at : (st : State) → Below (m st) (n st)

module _ {ℓ} {A : Type ℓ} where
  pub Extends-refl : (m : M A) → Extends m m
  Extends-refl m = record { at = λ st. same (m st) }

  pub Extends-starved : (m : M A) → Extends (λ st. out_of_fuel) m
  Extends-starved m = record { at = λ st. starved (m st) }

  same_bind {κ} :
      {B : Type κ} (o : Outcome A) (f g : A → M B)
      → ((a : A) → Extends (f a) (g a))
      → Below (then_run o f) (then_run o g)
  same_bind (done a st) f g e = (e a).at st
  same_bind (jump s st) f g e = same _
  same_bind undefined f g e = same _
  same_bind out_of_fuel f g e = same _

  Below-bind {κ} :
      {B : Type κ} {o q : Outcome A} (f g : A → M B)
      → Below o q
      → ((a : A) → Extends (f a) (g a))
      → Below (then_run o f) (then_run q g)
  Below-bind f g (same o) e = same_bind o f g e
  Below-bind f g (starved o) e = starved _

  pub Extends-bind {κ} :
      {B : Type κ} (m n : M A) (f g : A → M B)
      → Extends m n
      → ((a : A) → Extends (f a) (g a))
      → Extends (m >>= f) (n >>= g)
  Extends-bind m n f g e next = record { at = λ st. Below-bind f g (e.at st) next }

  pub Extends-if :
      (b : Bool) (m n m' n' : M A)
      → Extends m m'
      → Extends n n'
      → Extends (if b then m else n) (if b then m' else n')
  Extends-if true m n m' n' e k = e
  Extends-if false m n m' n' e k = k

  pub Extends-choose :
      (b : Bool) (m n m' n' : M A)
      → Extends m m'
      → Extends n n'
      → Extends (choose b m n) (choose b m' n')
  Extends-choose true m n m' n' e k = e
  Extends-choose false m n m' n' e k = k

  Extends-elim_bool :
      (b : Bool) (m n m' n' : M A)
      → Extends m m'
      → Extends n n'
      → Extends (elim b [ true ↦ m | false ↦ n ]) (elim b [ true ↦ m' | false ↦ n' ])
  Extends-elim_bool true m n m' n' e k = e
  Extends-elim_bool false m n m' n' e k = k

  pub Extends-match_option {κ} :
      {B : Type κ} (o : Option B) (m m' : M A) (f f' : B → M A)
      → Extends m m'
      → ((b : B) → Extends (f b) (f' b))
      → Extends (match_option o m f) (match_option o m' f')
  Extends-match_option none m m' f f' e k = e
  Extends-match_option (some b) m m' f f' e k = k b

  pub Extends-with_container :
      (f f' : SymbolContainer → M A)
      → ((c : SymbolContainer) → Extends (f c) (f' c))
      → Extends (with_container f) (with_container f')
  Extends-with_container f f' e = record { at = λ st. (e st.container).at st }

  -- A function of outcomes that lets a lack of fuel through.
  Below-map {κ} :
      {B : Type κ} (f : Outcome A → Outcome B)
      → f out_of_fuel ≡ out_of_fuel
      → {o q : Outcome A} → Below o q
      → Below (f o) (f q)
  Below-map f e (same o) = same (f o)
  Below-map f e (starved o) = rw e (starved (f o))

  pub Extends-catching :
      (change : Failure → Failure) (clean : State → State) (m n : M A)
      → Extends m n
      → Extends (catching change clean m) (catching change clean n)
  Extends-catching change clean m n e = record {
    at = λ st. Below-map (rethrown change clean) refl (e.at st);
  }

  pub Extends-loop_body : (m n : M A) → Extends m n → Extends (loop_body m) (loop_body n)
  Extends-loop_body m n e = record { at = λ st. Below-map body_ended refl (e.at st) }

module _ (m n : M (Unit {0})) (e : Extends m n) where
  pub Extends-case_body : Extends (λ st. case_body (m st)) (λ st. case_body (n st))
  Extends-case_body = record { at = λ st. Below-map case_body refl (e.at st) }

  pub Extends-catching_return : Extends (catching_return m) (catching_return n)
  Extends-catching_return = record { at = λ st. Below-map body_value refl (e.at st) }

same_after_try :
    (what : Failure → Bytes) (f g : Value → M (Unit {0})) (o : Outcome (Unit {0}))
    → ((v : Value) → Extends (f v) (g v))
    → Below (after_try what f o) (after_try what g o)
same_after_try what f g (jump (failed (thrown v)) st) k = (k v).at st
same_after_try what f g (jump (failed (standard x)) st) k = (k _).at st
same_after_try what f g (jump (failed (exception x)) st) k = (k _).at st
same_after_try what f g (jump (failed (wrapped x)) st) k = (k _).at st
same_after_try what f g (jump broke st) k = same _
same_after_try what f g (jump continued st) k = same _
same_after_try what f g (jump (returned v) st) k = same _
same_after_try what f g (done u st) k = same _
same_after_try what f g undefined k = same _
same_after_try what f g out_of_fuel k = same _

pub Extends-after_try :
    (what : Failure → Bytes) (m n : M (Unit {0})) (f g : Value → M (Unit {0}))
    → Extends m n
    → ((v : Value) → Extends (f v) (g v))
    → Extends (λ st. after_try what f (m st)) (λ st. after_try what g (n st))
Extends-after_try what m n f g e k = record { at = λ st. both (e.at st) }
  where
    both : {o q : Outcome (Unit {0})} → Below o q → Below (after_try what f o) (after_try what g q)
    both (same o) = same_after_try what f g o k
    both (starved o) = starved _

-- A loop goes through the same rounds.
pub Extends-repeat :
    (fuel more : ℕ) (m n : M Bool)
    → fuel ≤ more
    → Extends m n
    → Extends (repeat fuel m) (repeat more n)
unfolding repeat
Extends-repeat zero more m n h e = record { at = λ st. starved _ }
Extends-repeat (suc fuel) zero m n h e = absurd (omega arith)
Extends-repeat (suc fuel) (suc more) m n h e =
    let rest = Extends-repeat fuel more m n (omega arith) e in
    record {
      at = λ st.
          Below-bind _ _ (e.at st) λ b. Extends-elim_bool b _ _ _ _ rest (Extends-refl (pure tt));
    }

-- What the relation says of two runs.
pub Extends-eq {ℓ} :
    {A : Type ℓ} (m n : M A) (st : State) → Extends m n → ¬ (m st ≡ out_of_fuel) → n st ≡ m st
Extends-eq {A} m n st e enough = eq (e.at st) enough
  where
    eq : {o q : Outcome A} → Below o q → ¬ (o ≡ out_of_fuel) → q ≡ o
    eq (same o) enough = refl
    eq (starved o) enough = absurd (enough refl)

pub ruleset extending = (
  Extends-bind, Extends-if, Extends-choose, Extends-match_option, Extends-with_container,
  Extends-catching, Extends-loop_body, Extends-case_body, Extends-catching_return, Extends-repeat,
  Extends-after_try, Extends-refl,
)
