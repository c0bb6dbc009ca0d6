-- ===== src/Lexer/Tables.antt =====
-- The tables of operators (src/Lexer/Operators.cpp), the keywords that the parser gives to the
-- lexer (src/Parser/Parser.cpp), and the binding strength of the operators
-- (src/Lexer/Operators.hpp).
use voidscript.Base.Dict.{Dict}
use voidscript.Base.Int.{ℤ, pos, negsuc}
use voidscript.Base.{
  ℕ, Bool, false, not, ◌||◌, List, [], ◌∷◌, ◌++◌, Option, none, some, Bytes, codes, bytes_eq, ◌==◌,
  if◌then◌else◌,
}
use voidscript.Lexer.Tokens.{
  TokenType, keyword, operator_relational, operator_logical, operator_assignment,
  operator_increment, operator_arithmetic, punctuation, keyword_string, keyword_int, keyword_double,
  keyword_float, keyword_boolean, keyword_object, keyword_function_declaration, keyword_return,
  keyword_null, keyword_if, keyword_else, keyword_for, keyword_while, keyword_const,
  keyword_include, keyword_class, keyword_private, keyword_public, keyword_new, keyword_this,
  keyword_enum, keyword_switch, keyword_case, keyword_default, keyword_break, keyword_continue,
  keyword_try, keyword_catch, keyword_throw, keyword_auto,
}

abbrev pub operator_relational_table : List Bytes
operator_relational_table =
    codes "==" ∷ codes "!=" ∷ codes "<" ∷ codes ">" ∷ codes "<=" ∷ codes ">=" ∷ []

abbrev pub operator_increment_table : List Bytes
operator_increment_table = codes "++" ∷ codes "--" ∷ []

abbrev pub operator_assignment_table : List Bytes
operator_assignment_table =
    codes "=" ∷ codes "+=" ∷ codes "-=" ∷ codes "*=" ∷ codes "/=" ∷ codes "%=" ∷ []

abbrev pub operator_logical_table : List Bytes
operator_logical_table = codes "&&" ∷ codes "||" ∷ []

abbrev pub operator_bitwise_table : List Bytes
operator_bitwise_table = codes "<<" ∷ codes ">>" ∷ []

abbrev pub operator_arithmetic_table : List Bytes
operator_arithmetic_table =
    codes "+"
    ∷ codes "-"
    ∷ codes "*"
    ∷ codes "/"
    ∷ codes "%"
    ∷ codes "!"
    ∷ codes "&"
    ∷ codes "|"
    ∷ codes "^"
    ∷ codes "~"
    ∷ []

abbrev pub punctuation_table : List Bytes
punctuation_table =
    codes "("
    ∷ codes ")"
    ∷ codes "{"
    ∷ codes "}"
    ∷ codes "["
    ∷ codes "]"
    ∷ codes ","
    ∷ codes ";"
    ∷ codes ":"
    ∷ codes "?"
    ∷ codes "->"
    ∷ codes "."
    ∷ []

abbrev concat : List Bytes → Bytes
concat [] = []
concat (w ∷ ws) = w ++ concat ws

-- `operators_`, as the constructor of the lexer puts it together.
abbrev pub operators : Bytes
operators =
    concat operator_arithmetic_table
    ++ concat operator_relational_table
    ++ concat operator_increment_table
    ++ concat operator_assignment_table
    ++ concat operator_logical_table
    ++ concat operator_bitwise_table
    ++ concat punctuation_table
    ++ codes "$"

-- `operators_.find(c) != npos`
unfoldable pub has_byte : Bytes → ℕ → Bool
has_byte [] c = false
has_byte (x ∷ xs) c = x == c || has_byte xs c

-- `matchFromVector`
unfoldable pub match_from_vector : List Bytes → Bytes → Bool
match_from_vector [] v = false
match_from_vector (w ∷ ws) v = bytes_eq w v || match_from_vector ws v

-- The type of the first table that has the text.
unfoldable pub first_match : List (List Bytes × TokenType) → Bytes → Option TokenType
unfolding match_from_vector
first_match [] v = none
first_match ((table, t) ∷ rest) v = if match_from_vector table v then some t else first_match rest v

abbrev pub two_char_op_types : List (List Bytes × TokenType)
two_char_op_types =
    (operator_relational_table, operator_relational)
    ∷ (operator_increment_table, operator_increment)
    ∷ (operator_assignment_table, operator_assignment)
    ∷ (operator_logical_table, operator_logical)
    ∷ (operator_bitwise_table, operator_arithmetic)
    ∷ (punctuation_table, punctuation)
    ∷ []

abbrev pub one_char_op_types : List (List Bytes × TokenType)
one_char_op_types =
    (operator_arithmetic_table, operator_arithmetic)
    ∷ (operator_relational_table, operator_relational)
    ∷ (operator_assignment_table, operator_assignment)
    ∷ (punctuation_table, punctuation)
    ∷ []

-- `Parser::keywords`
abbrev pub keywords : Dict TokenType
keywords =
    (codes "if", keyword_if)
    ∷ (codes "else", keyword_else)
    ∷ (codes "while", keyword_while)
    ∷ (codes "for", keyword_for)
    ∷ (codes "return", keyword_return)
    ∷ (codes "function", keyword_function_declaration)
    ∷ (codes "const", keyword_const)
    ∷ (codes "break", keyword_break)
    ∷ (codes "switch", keyword_switch)
    ∷ (codes "case", keyword_case)
    ∷ (codes "continue", keyword_continue)
    ∷ (codes "try", keyword_try)
    ∷ (codes "catch", keyword_catch)
    ∷ (codes "throw", keyword_throw)
    ∷ (codes "default", keyword_default)
    ∷ (codes "class", keyword_class)
    ∷ (codes "private", keyword_private)
    ∷ (codes "public", keyword_public)
    ∷ (codes "new", keyword_new)
    ∷ (codes "this", keyword_this)
    ∷ (codes "true", keyword)
    ∷ (codes "false", keyword)
    ∷ (codes "include", keyword_include)
    ∷ (codes "enum", keyword_enum)
    ∷ (codes "null", keyword_null)
    ∷ (codes "int", keyword_int)
    ∷ (codes "double", keyword_double)
    ∷ (codes "float", keyword_float)
    ∷ (codes "string", keyword_string)
    ∷ (codes "boolean", keyword_boolean)
    ∷ (codes "bool", keyword_boolean)
    ∷ (codes "object", keyword_object)
    ∷ (codes "auto", keyword_auto)
    ∷ []

-- `isUnaryOperator`
unfoldable pub is_unary_operator : Bytes → Bool
is_unary_operator op =
    bytes_eq op (codes "+")
    || bytes_eq op (codes "-")
    || bytes_eq op (codes "!")
    || bytes_eq op (codes "~")

-- `getPrecedence`
unfoldable pub get_precedence : Bytes → ℤ
get_precedence op =
    if bytes_eq op (codes "||")
    then pos 0
    else if bytes_eq op (codes "&&")
    then pos 1
    else if bytes_eq op (codes "|")
    then pos 2
    else if bytes_eq op (codes "^")
    then pos 3
    else if bytes_eq op (codes "&")
    then pos 4
    else if bytes_eq op (codes "==") || bytes_eq op (codes "!=")
    then pos 5
    else if bytes_eq op (codes "<")
        || bytes_eq op (codes ">")
        || bytes_eq op (codes "<=")
        || bytes_eq op (codes ">=")
    then pos 6
    else if bytes_eq op (codes "<<") || bytes_eq op (codes ">>")
    then pos 7
    else if bytes_eq op (codes "+") || bytes_eq op (codes "-")
    then pos 8
    else if bytes_eq op (codes "*") || bytes_eq op (codes "/") || bytes_eq op (codes "%")
    then pos 9
    else if bytes_eq op (codes "u-")
        || bytes_eq op (codes "u+")
        || bytes_eq op (codes "u!")
        || bytes_eq op (codes "u~")
    then pos 10
    else if bytes_eq op (codes "->") || bytes_eq op (codes "::") || bytes_eq op (codes "[]")
    then pos 11
    else negsuc 0

-- `isLeftAssociative`
unfoldable pub is_left_associative : Bytes → Bool
is_left_associative op = not (
    bytes_eq op (codes "u-")
    || bytes_eq op (codes "u+")
    || bytes_eq op (codes "u~")
    || bytes_eq op (codes "u!"))
