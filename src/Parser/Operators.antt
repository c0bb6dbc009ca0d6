-- ===== src/Parser/Operators.antt =====
-- The two stacks of the shunting-yard in src/Parser/Parser.cpp, with `applyOperator` of
-- src/Lexer/Operators.hpp. The top of a stack is the head of its list.
use voidscript.Base.{
  Bool, false, ◌&&◌, ◌||◌, List, [], ◌∷◌, Bytes, codes, bytes_eq, if◌then◌else◌, ◌==◌,
}
use voidscript.Base.Int.{ltb_ℤ, eqb_ℤ}
use voidscript.Lexer.Tables.{get_precedence, is_left_associative, match_from_vector}
use voidscript.Parser.Outcome.{Parsed, parsed, failed, out_of_fuel, syntax, at_operator}
use voidscript.Parser.Syntax.{ParsedExpr, binary, unary}

-- What an operator of the stack is applied to, with the operands that it leaves; the operator is
-- unary where its text begins with a `u` or a `p`.
unfoldable pub apply_operator : Bytes → ParsedExpr → ParsedExpr → ParsedExpr
apply_operator [] rhs lhs = binary [] lhs rhs
apply_operator (c ∷ op) rhs lhs =
    if c == b'u' || c == b'p' then unary op rhs else binary (c ∷ op) lhs rhs

abbrev pub unary_operators : List Bytes
unary_operators =
    codes "u-"
    ∷ codes "u+"
    ∷ codes "u!"
    ∷ codes "u~"
    ∷ codes "u++"
    ∷ codes "u--"
    ∷ codes "p++"
    ∷ codes "p--"
    ∷ []

abbrev pub missing_unary : Bytes → Parsed (List ParsedExpr)
missing_unary op = failed (at_operator "Missing operand for unary operator" op)

abbrev pub missing_binary : Bytes → Parsed (List ParsedExpr)
missing_binary op = failed (at_operator "Missing operands for binary operator" op)

abbrev apply_unary : Bytes → List ParsedExpr → Parsed (List ParsedExpr)
apply_unary op [] = missing_unary op
apply_unary op (rhs ∷ out) = parsed (apply_operator op rhs rhs ∷ out)

abbrev apply_binary : Bytes → List ParsedExpr → Parsed (List ParsedExpr)
apply_binary op (rhs ∷ lhs ∷ out) = parsed (apply_operator op rhs lhs ∷ out)
apply_binary op _ = missing_binary op

-- `applyStackOperator`, of the operator that was popped.
unfoldable pub apply_stack_operator : Bytes → List ParsedExpr → Parsed (List ParsedExpr)
unfolding match_from_vector apply_operator
apply_stack_operator op out =
    if bytes_eq op (codes "(")
    then failed (syntax "Mismatched opening parenthesis encountered on operator stack.")
    else if match_from_vector unary_operators op
    then apply_unary op out
    else apply_binary op out

-- Whether the operator on the stack is applied before the new one is pushed.
unfoldable pub goes_first : Bytes → Bytes → Bool
unfolding get_precedence is_left_associative
goes_first top op =
    ltb_ℤ (get_precedence op) (get_precedence top)
    || (eqb_ℤ (get_precedence top) (get_precedence op) && is_left_associative top)

abbrev pub Stacks : Type 0
Stacks = List Bytes × List ParsedExpr

abbrev pub then_stacks :
    Parsed (List ParsedExpr) → (List ParsedExpr → Parsed Stacks) → Parsed Stacks
then_stacks (parsed out) f = f out
then_stacks (failed e) f = failed e
then_stacks out_of_fuel f = out_of_fuel

-- `applyHigherPrecedenceOperators`
unfoldable pub apply_higher : Bytes → List Bytes → List ParsedExpr → Parsed Stacks
unfolding goes_first apply_stack_operator
apply_higher op [] out = parsed ([], out)
apply_higher op (top ∷ ops) out =
    let rest : List ParsedExpr → Parsed Stacks = λ out'. apply_higher op ops out' in
    if bytes_eq top (codes "(")
    then parsed (top ∷ ops, out)
    else if goes_first top op
    then then_stacks (apply_stack_operator top out) rest
    else parsed (top ∷ ops, out)

-- The operators above the last open parenthesis, which goes too.
unfoldable pub apply_to_parenthesis : List Bytes → List ParsedExpr → Parsed Stacks
unfolding apply_stack_operator
apply_to_parenthesis [] out = failed (syntax "Mismatched parentheses in expression")
apply_to_parenthesis (top ∷ ops) out =
    if bytes_eq top (codes "(")
    then parsed (ops, out)
    else then_stacks (apply_stack_operator top out) (λ out'. apply_to_parenthesis ops out')

-- All operators, at the end of an expression.
unfoldable pub apply_all : List Bytes → List ParsedExpr → Parsed Stacks
unfolding apply_stack_operator
apply_all [] out = parsed ([], out)
apply_all (top ∷ ops) out = then_stacks (apply_stack_operator top out) (λ out'. apply_all ops out')

unfoldable pub has_parenthesis : List Bytes → Bool
has_parenthesis [] = false
has_parenthesis (top ∷ ops) = bytes_eq top (codes "(") || has_parenthesis ops
