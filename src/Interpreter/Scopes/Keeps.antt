-- ===== src/Interpreter/Scopes/Keeps.antt =====
-- What a computation may do to the stack of scopes: an expression that returns leaves the stack that
-- it met, and everything else may only leave scopes of its own on top of it.
use voidscript.Base.{ℕ, ◌≤◌, ◌≡◌, ◌≢◌, refl, sym, ap, ◌∙◌, List, [], ◌∷◌, ◌++◌, arith, Bytes, All}
use mathlib.Core.Path.{subst}
use mathlib.Core.List.{append_assoc}
use voidscript.Interpreter.Outcome.{
  State, M, Outcome, done, jump, undefined, out_of_fuel, Signal, ◌>>=◌, then_run,
}
use voidscript.Interpreter.Scopes.Names.{IsNew, IsNew-le}

abbrev pub stack_of : State → List Bytes
stack_of st = st.container.stack

-- How a computation that returns may leave the stack.
pub data Exit : Type 0 where
  balanced grown : Exit

abbrev pub IsAllowed : Exit → List Bytes → Type 0
IsAllowed balanced added = added ≡ []
IsAllowed grown added = Unit

-- The stack has scopes added on top, none of them an earlier call's, and no number of a call was
-- given back.
pub record Leaves (x : Exit) (before after : State) : Type 0 where
  pub added : List Bytes
  pub allowed : IsAllowed x added
  pub on_top : stack_of after ≡ added ++ stack_of before
  pub are_new : All (IsNew before.next_call_id) added
  pub ids : before.next_call_id ≤ after.next_call_id

nil-IsAllowed : (x : Exit) → IsAllowed x []
nil-IsAllowed balanced = refl
nil-IsAllowed grown = tt

append-IsAllowed :
    (x : Exit) (l m : List Bytes) → IsAllowed x l → IsAllowed x m → IsAllowed x (l ++ m)
append-IsAllowed balanced l m h k = rw (h, k) refl
append-IsAllowed grown l m h k = tt

pub Leaves-same :
    {x : Exit} {a b : State}
    → stack_of b ≡ stack_of a
    → a.next_call_id ≤ b.next_call_id
    → Leaves x a b
Leaves-same {x} e h = record {
  added = [];
  allowed = nil-IsAllowed x;
  on_top = e;
  are_new = tt;
  ids = h;
}

pub Leaves-refl : {x : Exit} {a : State} → Leaves x a a
Leaves-refl = Leaves-same refl (omega arith)

pub Leaves-grown : {x : Exit} {a b : State} → Leaves x a b → Leaves grown a b
Leaves-grown r = record {
  added = r.added;
  allowed = tt;
  on_top = r.on_top;
  are_new = r.are_new;
  ids = r.ids;
}

-- An expression that returns leaves the stack that it met.
pub Leaves-balanced : {a b : State} → Leaves balanced a b → stack_of b ≡ stack_of a
Leaves-balanced {a} {b} r = subst (λ l. stack_of b ≡ l ++ stack_of a) r.allowed r.on_top

All-IsNew-le : {m n : ℕ} → m ≤ n → (l : List Bytes) → All (IsNew n) l → All (IsNew m) l
All-IsNew-le h [] all = tt
All-IsNew-le h (s ∷ l) (new, all) = (IsNew-le h s new, All-IsNew-le h l all)

pub All-append : (P : Bytes → Type 0) (l m : List Bytes) → All P l → All P m → All P (l ++ m)
All-append P [] m all more = more
All-append P (s ∷ l) m (p, all) more = (p, All-append P l m all more)

pub Leaves-trans : {x : Exit} {a b c : State} → Leaves x a b → Leaves x b c → Leaves x a c
Leaves-trans {x} {a} r s = record {
  added = s.added ++ r.added;
  allowed = append-IsAllowed x s.added r.added s.allowed r.allowed;
  on_top =
      s.on_top ∙ ap (λ t. s.added ++ t) r.on_top ∙ sym (append_assoc s.added r.added (stack_of a));
  are_new = All-append _ s.added r.added (All-IsNew-le r.ids s.added s.are_new) r.are_new;
  ids = omega (arith, r.ids, s.ids);
}

-- A postcondition for a return and one for a jump.
pub data Ends {ℓ} {A : Type ℓ} (D : A → State → Type 0) (J : State → Type 0)
    : Outcome A → Type ℓ where
  done_ends : {a : A} {st : State} → D a st → Ends D J (done a st)
  jump_ends : {s : Signal} {st : State} → J st → Ends D J (jump s st)
  undefined_ends : Ends D J undefined
  fuel_ends : Ends D J out_of_fuel

pub Ends-bind {ℓ κ} :
    {A : Type ℓ} {B : Type κ} {D : A → State → Type 0} {E : B → State → Type 0}
    {J K : State → Type 0} {o : Outcome A} {f : A → M B}
    → Ends D J o
    → ((st : State) → J st → K st)
    → ((a : A) (st : State) → D a st → Ends E K (f a st))
    → Ends E K (then_run o f)
Ends-bind (done_ends {a} {st} h) weaken next = next a st h
Ends-bind (jump_ends {s} {st} h) weaken next = jump_ends (weaken st h)
Ends-bind undefined_ends weaken next = undefined_ends
Ends-bind fuel_ends weaken next = fuel_ends

pub Ends-mono {ℓ} :
    {A : Type ℓ} {D E : A → State → Type 0} {J K : State → Type 0} {o : Outcome A}
    → ((a : A) (st : State) → D a st → E a st)
    → ((st : State) → J st → K st)
    → Ends D J o
    → Ends E K o
Ends-mono f g (done_ends {a} {st} h) = done_ends (f a st h)
Ends-mono f g (jump_ends {s} {st} h) = jump_ends (g st h)
Ends-mono f g undefined_ends = undefined_ends
Ends-mono f g fuel_ends = fuel_ends

abbrev pub IsActive : State → Type 0
IsActive st = stack_of st ≢ []

append-ne_nil : (l m : List Bytes) → m ≢ [] → (l ++ m) ≢ []
append-ne_nil [] m ne = ne
append-ne_nil (s ∷ l) m ne = λ e. cc

pub Leaves-IsActive : {x : Exit} {a b : State} → Leaves x a b → IsActive a → IsActive b
Leaves-IsActive {x} {a} r active = λ e. append-ne_nil r.added (stack_of a) active (sym r.on_top ∙ e)

-- A computation, on a stack that is not empty, leaves it as `x` says where it returns, and may
-- leave scopes of its own where it does not.
pub record Keeps {ℓ} (x : Exit) {A : Type ℓ} (m : M A) : Type ℓ where
  pub at : (st : State) → IsActive st → Ends (λ a. Leaves x st) (Leaves grown st) (m st)

-- The rules: one for each way of putting computations together.
pub Keeps-grown {ℓ} : {A : Type ℓ} {x : Exit} {m : M A} → Keeps x m → Keeps grown m
Keeps-grown k = record {
  at = λ st active. Ends-mono (λ a s r. Leaves-grown r) (λ s r. r) (k.at st active);
}

pub Keeps-bind {ℓ κ} :
    {A : Type ℓ} {B : Type κ} {x : Exit} {m : M A} {f : A → M B}
    → Keeps x m
    → ((a : A) → Keeps x (f a))
    → Keeps x (m >>= f)
Keeps-bind k next = record {
  at = λ st active.
      Ends-bind (k.at st active) (λ s r. r)
        λ a s r.
          Ends-mono (λ b t q. Leaves-trans r q) (λ t q. Leaves-trans (Leaves-grown r) q)
            ((next a).at s (Leaves-IsActive r active));
}
