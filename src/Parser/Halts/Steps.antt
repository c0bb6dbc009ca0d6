-- ===== src/Parser/Halts/Steps.antt =====
-- Steps that read no token, over the stacks of operators and operands, are never without fuel.
use voidscript.Base.{ℕ, Bool, true, false, List, [], ◌∷◌, Bytes, if◌then◌else◌}
use voidscript.Lexer.Tables.{match_from_vector}
use voidscript.Parser.Expression.{only_output}
use voidscript.Parser.Halts.{Late, Looks, seen, unseen, Looks-Late, Late-bind, Late-pure}
use voidscript.Parser.Operators.{
  Stacks, apply_stack_operator, apply_higher, apply_to_parenthesis, apply_all, goes_first,
  then_stacks, unary_operators,
}
use voidscript.Parser.Outcome.{Parsed, parsed, failed, out_of_fuel, ParseError, lift}
use voidscript.Parser.Shunting.{Shunting, push_operator, call_of}
use voidscript.Parser.Syntax.{
  ParsedExpr, literal, variable, binary, unary, ternary, call, method_call, new_object, object,
  member, enum_access, ParsedArgs,
}

pub data Settled {A : Type 0} : Parsed A → Type 0 where
  succeeds : {a : A} → Settled (parsed a)
  refuses : {e : ParseError} → Settled (failed e)

pub Looks-lift : {A : Type 0} (o : Parsed A) → Settled o → Looks (lift o)
Looks-lift (parsed a) h = record { at = λ ts. seen }
Looks-lift (failed e) h = record { at = λ ts. unseen }
Looks-lift out_of_fuel h = elim h [ ]

Settled-if :
    {A : Type 0} (b : Bool) (p q : Parsed A) → Settled p → Settled q → Settled (if b then p else q)
Settled-if true p q h l = h
Settled-if false p q h l = l

Settled-apply_stack_operator :
    (op : Bytes) (out : List ParsedExpr) → Settled (apply_stack_operator op out)
unfolding apply_stack_operator
Settled-apply_stack_operator op [] =
    Settled-if _ _ _ refuses (Settled-if (match_from_vector unary_operators op) _ _ refuses refuses)
Settled-apply_stack_operator op (a ∷ []) =
    Settled-if _ _ _ refuses
      (Settled-if (match_from_vector unary_operators op) _ _ succeeds refuses)
Settled-apply_stack_operator op (a ∷ b ∷ out) =
    Settled-if _ _ _ refuses
      (Settled-if (match_from_vector unary_operators op) _ _ succeeds succeeds)

Settled-then_stacks :
    (o : Parsed (List ParsedExpr)) (f : List ParsedExpr → Parsed Stacks)
    → Settled o
    → ((out : List ParsedExpr) → Settled (f out))
    → Settled (then_stacks o f)
Settled-then_stacks (parsed out) f h next = next out
Settled-then_stacks (failed e) f h next = refuses
Settled-then_stacks out_of_fuel f h next = elim h [ ]

pub Settled-apply_all : (ops : List Bytes) (out : List ParsedExpr) → Settled (apply_all ops out)
unfolding apply_all
Settled-apply_all [] out = succeeds
Settled-apply_all (top ∷ ops) out =
    Settled-then_stacks _ _ (Settled-apply_stack_operator top out) (Settled-apply_all ops)

pub Settled-apply_higher :
    (op : Bytes) (ops : List Bytes) (out : List ParsedExpr) → Settled (apply_higher op ops out)
unfolding apply_higher
Settled-apply_higher op [] out = succeeds
Settled-apply_higher op (top ∷ ops) out = Settled-if _ _ _ succeeds (
    Settled-if (goes_first top op) _ _
      (Settled-then_stacks _ _ (Settled-apply_stack_operator top out) (Settled-apply_higher op ops))
      succeeds)

pub Settled-apply_to_parenthesis :
    (ops : List Bytes) (out : List ParsedExpr) → Settled (apply_to_parenthesis ops out)
unfolding apply_to_parenthesis
Settled-apply_to_parenthesis [] out = refuses
Settled-apply_to_parenthesis (top ∷ ops) out = Settled-if _ _ _ succeeds (
    Settled-then_stacks _ _ (Settled-apply_stack_operator top out)
      (Settled-apply_to_parenthesis ops))

pub Late-push_operator : {k : ℕ} (op : Bytes) (s : Shunting) → Late k (push_operator op s)
Late-push_operator op s =
    Late-bind _ _ (Looks-Late (Looks-lift _ (Settled-apply_higher op s.ops s.out)))
      λ stacks. Late-pure (record s { ops = op ∷ stacks.0; out = stacks.1; expect_unary = true })

pub Settled-only_output : (out : List ParsedExpr) → Settled (only_output out)
Settled-only_output [] = refuses
Settled-only_output (e ∷ []) = succeeds
Settled-only_output (e ∷ f ∷ out) = refuses

pub Settled-call_of : (args : ParsedArgs) (e : ParsedExpr) → Settled (call_of args e)
Settled-call_of args (variable name) = succeeds
Settled-call_of args (binary op lhs rhs) = Settled-if _ _ _ succeeds refuses
Settled-call_of given (literal v) = refuses
Settled-call_of given (unary op e) = refuses
Settled-call_of given (ternary a b c) = refuses
Settled-call_of given (call f args) = refuses
Settled-call_of given (method_call e f args) = refuses
Settled-call_of given (new_object f args) = refuses
Settled-call_of given (object ms) = refuses
Settled-call_of given (member e f) = refuses
Settled-call_of given (enum_access e f) = refuses
