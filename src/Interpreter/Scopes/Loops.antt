-- ===== src/Interpreter/Scopes/Loops.antt =====
-- The scope of a loop of src/Interpreter/Nodes/Statement: entered once, and left on every way out
-- but a `return`.
use voidscript.Base.{
  ℕ, ◌≤◌, ◌≡◌, ◌≢◌, refl, sym, ap, ◌∙◌, String, List, [], ◌∷◌, ◌++◌, some, arith, Bytes, All, codes,
  Option-cases, inl, inr,
}
use mathlib.Core.List.{append_assoc}
use voidscript.Base.Dict.{lookup}
use voidscript.Interpreter.Nodes.{enter_loop_scope, in_loop_scope, leave_scope, loop_scope_name}
use voidscript.Interpreter.Outcome.{
  State, M, Outcome, broke, continued, returned, failed, rethrown, as_base, modify_container,
}
use voidscript.Interpreter.Scopes.Keeps.{
  grown, Leaves, Leaves-trans, Ends, done_ends, jump_ends, undefined_ends, fuel_ends, Ends-bind,
  Ends-mono, IsActive, Keeps, stack_of, All-append,
}
use voidscript.Interpreter.Scopes.Names.{
  IsNew, IsNew-le, loop_name-IsNew, position-plain, has_colon,
}
use voidscript.Interpreter.Syntax.{Position}
use voidscript.Symbols.Container.{
  SymbolContainer, create, enter, enter_previous_scope, pop_all_but_last, current_scope_name,
}
use voidscript.Symbols.Table.{SymbolTable}
use voidscript.Value.{ok}

-- A scope was entered.
pub record Entered (name : Bytes) (before after : State) : Type 0 where
  pub on_top : stack_of after ≡ name ∷ stack_of before
  pub ids : before.next_call_id ≤ after.next_call_id

-- What is left of new scopes and an entered one when the topmost scope is taken off.
pub remaining : List Bytes → Bytes → List Bytes
remaining [] name = []
remaining (s ∷ new) name = new ++ name ∷ []

pub pop-remaining :
    (new : List Bytes) (name : Bytes) (base : List Bytes)
    → base ≢ []
    → pop_all_but_last (new ++ name ∷ base) ≡ remaining new name ++ base
unfolding remaining
pop-remaining [] name [] ne = absurd (ne refl)
pop-remaining [] name (b ∷ base) ne = refl
pop-remaining (s ∷ []) name base ne = refl
pop-remaining (s ∷ t ∷ new) name base ne = sym (append_assoc (t ∷ new) (name ∷ []) base)

All-remaining :
    (P : Bytes → Type 0) (new : List Bytes) (name : Bytes)
    → All P new
    → P name
    → All P (remaining new name)
unfolding remaining
All-remaining P [] name all p = tt
All-remaining P (s ∷ new) name (q, all) p = All-append P new (name ∷ []) all (p, tt)

All-IsNew : {m n : ℕ} → m ≤ n → (l : List Bytes) → All (IsNew n) l → All (IsNew m) l
All-IsNew h [] all = tt
All-IsNew h (s ∷ l) (new, all) = (IsNew-le h s new, All-IsNew h l all)

-- A plain exit from an entered scope takes off one scope, its own or one left above it.
pub leave_scope-Leaves :
    {name : Bytes} {a b c : State}
    → IsActive a
    → IsNew a.next_call_id name
    → Entered name a b
    → Leaves grown b c
    → Leaves grown a (leave_scope c)
unfolding enter_previous_scope
leave_scope-Leaves {name} {a} {b} {c} active new entered r = record {
  added = remaining r.added name;
  allowed = tt;
  on_top =
      ap pop_all_but_last (r.on_top ∙ ap (λ t. r.added ++ t) entered.on_top)
      ∙ pop-remaining r.added name (stack_of a) active;
  are_new = All-remaining _ r.added name (All-IsNew entered.ids r.added r.are_new) new;
  ids = omega (arith, r.ids, entered.ids);
}

-- The names that a kind of loop makes are no calls'.
pub record NamesLoops (kind : String) : Type 0 where
  pub name_new :
      (at : Position) (c : SymbolContainer) (next : ℕ) → IsNew next (loop_scope_name kind at c)

pub while-NamesLoops : NamesLoops "while_"
unfolding has_colon
while-NamesLoops = record {
  name_new = λ at c next.
      loop_name-IsNew (current_scope_name c) b'w' _ next (omega arith)
        (position-plain (codes "while_") at.line at.column refl);
}

pub for-NamesLoops : NamesLoops "for_"
unfolding has_colon
for-NamesLoops = record {
  name_new = λ at c next.
      loop_name-IsNew (current_scope_name c) b'f' _ next (omega arith)
        (position-plain (codes "for_") at.line at.column refl);
}

pub enter-found :
    (name : Bytes) (c : SymbolContainer) {table : SymbolTable}
    → lookup name c.scopes ≡ some table
    → enter name c ≡ ok (record c { stack = name ∷ c.stack })
unfolding enter
enter-found name c found = ground arith

enter_loop_scope-Entered :
    (kind : String) (at : Position) (st : State)
    → Ends
        (λ u. Entered (loop_scope_name kind at st.container) st)
        (Leaves grown st)
        (enter_loop_scope kind at st)
unfolding enter_loop_scope create
enter_loop_scope-Entered kind at st =
    elim (Option-cases (lookup (loop_scope_name kind at st.container) st.container.scopes)) [
      | inl missing ↦ rw missing (done_ends (record { on_top = refl; ids = omega arith }))
      | inr (table, found) ↦
          rw (found, enter-found _ st.container found)
            (done_ends (record { on_top = refl; ids = omega arith }))
    ]

pub Entered-Leaves :
    {name : Bytes} {a b : State} → IsNew a.next_call_id name → Entered name a b → Leaves grown a b
Entered-Leaves {name} new entered = record {
  added = name ∷ [];
  allowed = tt;
  on_top = entered.on_top;
  are_new = (new, tt);
  ids = entered.ids;
}

pub Entered-IsActive : {name : Bytes} {a b : State} → Entered name a b → IsActive b
Entered-IsActive entered = λ e. cc (entered.on_top)

left_on_failure :
    {name : Bytes} {a b : State} {o : Outcome (Unit {0})}
    → IsActive a
    → IsNew a.next_call_id name
    → Entered name a b
    → Ends (λ u. Leaves grown b) (Leaves grown b) o
    → Ends (λ u c. Leaves grown b c) (Leaves grown a) (rethrown as_base leave_scope o)
left_on_failure active new entered (done_ends r) = done_ends r
left_on_failure active new entered (jump_ends {s = broke} r) =
    jump_ends (Leaves-trans (Entered-Leaves new entered) r)
left_on_failure active new entered (jump_ends {s = continued} r) =
    jump_ends (Leaves-trans (Entered-Leaves new entered) r)
left_on_failure active new entered (jump_ends {s = returned v} r) =
    jump_ends (Leaves-trans (Entered-Leaves new entered) r)
left_on_failure active new entered (jump_ends {s = failed f} r) =
    jump_ends (leave_scope-Leaves active new entered r)
left_on_failure active new entered undefined_ends = undefined_ends
left_on_failure active new entered fuel_ends = fuel_ends

pub Keeps-in_loop_scope :
    {kind : String} (at : Position) (body : M (Unit {0}))
    → NamesLoops kind
    → Keeps grown body
    → Keeps grown (in_loop_scope kind at body)
unfolding in_loop_scope modify_container
Keeps-in_loop_scope {kind} at body names k = record {
  at = λ st active.
      let name = loop_scope_name kind at st.container in
      let new = names.name_new at st.container st.next_call_id in
      Ends-bind {D = λ v c. (b : State) × Entered name st b × Leaves grown b c}
        (Ends-bind (enter_loop_scope-Entered kind at st) (λ c r. r)
          λ u b entered.
            Ends-mono (λ v c r. (b, entered, r)) (λ c r. r)
              (left_on_failure active new entered (k.at b (Entered-IsActive entered))))
        (λ c r. r) λ u c (b, entered, r). done_ends (leave_scope-Leaves active new entered r);
}
