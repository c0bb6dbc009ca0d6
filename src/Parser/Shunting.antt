-- ===== src/Parser/Shunting.antt =====
-- One round of the loop of `parseParsedExpression` (src/Parser/Parser.cpp), with `pushOperand` of
-- src/Lexer/Operators.hpp. `expr` is the parser of the expressions inside.
use voidscript.Base.{
  ℕ, suc, Bool, true, false, ◌&&◌, ◌||◌, List, [], ◌∷◌, Bytes, codes, bytes_eq, if◌then◌else◌,
}
use voidscript.Lexer.Tables.{is_unary_operator, match_from_vector, operator_increment_table}
use voidscript.Lexer.Tokens.{
  Token, identifier, variable_identifier, keyword, number, string_literal, operator_relational,
  operator_logical, operator_increment, operator_arithmetic, operator_namespace_resolution,
  punctuation, keyword_new,
}
use voidscript.Parser.Cursor.{has_kind, is_token, is_punctuation}
use voidscript.Parser.Operators.{apply_higher}
use voidscript.Parser.Outcome.{Parser, Parsed, parsed, failed, syntax, ◌>>=◌, pure, lift}
use voidscript.Parser.Syntax.{
  ParsedExpr, variable, binary, call, method_call, new_object, enum_access, ParsedArgs, no_args,
  arg, ParsedMembers, no_members, member_of,
}
use voidscript.Value.Decimal.{decimal}

-- The two stacks, and the flags of the loop.
pub record Shunting : Type 0 where
  pub ops : List Bytes
  pub out : List ParsedExpr
  pub expect_unary : Bool
  pub at_start : Bool

-- What begins at a token, in the order of the tests of the loop.
pub data Start : Type 0 where
  at_new at_bracket at_brace at_arrow at_namespace at_close at_open at_named_call at_operator
        at_operand at_other :
      Start

abbrev is_operator_kind : Token → Bool
is_operator_kind t =
    has_kind operator_arithmetic t
    || has_kind operator_relational t
    || has_kind operator_logical t
    || has_kind operator_increment t

abbrev is_operand_kind : Token → Bool
is_operand_kind t =
    has_kind number t
    || has_kind string_literal t
    || has_kind keyword t
    || has_kind variable_identifier t
    || has_kind identifier t

-- The `)` is told by its lexeme.
unfoldable pub start_of : Token → Token → Start
unfolding has_kind is_token
start_of t next =
    if has_kind keyword_new t
    then at_new
    else if is_punctuation (codes "[") t
    then at_bracket
    else if is_punctuation (codes "{") t
    then at_brace
    else if is_punctuation (codes "->") t
    then at_arrow
    else if has_kind operator_namespace_resolution t
    then at_namespace
    else if has_kind punctuation t && bytes_eq t.lexeme (codes ")")
    then at_close
    else if is_punctuation (codes "(") t
    then at_open
    else if has_kind identifier t && is_punctuation (codes "(") next
    then at_named_call
    else if is_operator_kind t
    then at_operator
    else if is_operand_kind t
    then at_operand
    else at_other

-- The operator on the stack: a prefix operator has a `u` in front, a postfix one a `p`.
unfoldable pub full_operator : Bool → Token → Bytes
unfolding is_unary_operator match_from_vector has_kind
full_operator expect_unary t =
    let increment =
      has_kind operator_increment t && match_from_vector operator_increment_table t.lexeme in
    if expect_unary
    then if is_unary_operator t.lexeme || increment then b'u' ∷ t.lexeme else t.lexeme
    else if increment
    then b'p' ∷ t.lexeme
    else t.lexeme

-- A round goes on with the loop, or leaves it.
pub data Round : Type 0 where
  again stop : Shunting → Round

-- An array literal is an object with the indices for keys.
unfoldable pub indexed_members : ℕ → ParsedArgs → ParsedMembers
unfolding decimal
indexed_members i no_args = no_members
indexed_members i (arg e rest) = member_of (decimal i) e (indexed_members (suc i) rest)

-- `push_back` of an operand.
abbrev pub push_operand : ParsedExpr → Shunting → Shunting
push_operand e s = record s { out = e ∷ s.out; expect_unary = false; at_start = false }

-- An operator after those that go first.
abbrev pub push_operator : Bytes → Shunting → Parser Shunting
push_operator op s = lift (apply_higher op s.ops s.out) >>= λ stacks.
    pure (record s { ops = op ∷ stacks.0; out = stacks.1; expect_unary = true })

-- The field `name` of an expression.
abbrev pub name_of : ParsedExpr → Bytes
name_of (variable name) = name
name_of (call name args) = name
name_of (method_call e name args) = name
name_of (new_object name args) = name
name_of (enum_access name value) = name
name_of _ = []

-- The call whose callee stands on the output.
abbrev pub call_of : ParsedArgs → ParsedExpr → Parsed ParsedExpr
call_of args (variable name) = parsed (call name args)
call_of args (binary op lhs rhs) =
    if bytes_eq op (codes "->")
    then parsed (method_call lhs (name_of rhs) args)
    else failed (syntax "Invalid call target")
call_of args e = failed (syntax "Invalid call target")
