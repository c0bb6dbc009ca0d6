-- ===== src/Lexer/TypeNames.antt =====
-- src/Lexer/TokenType.hpp: the names of the token types.
use voidscript.Base.{String}
use voidscript.Lexer.Tokens.{
  TokenType, operator_namespace_resolution, identifier, variable_identifier, keyword, number,
  string_literal, operator_relational, operator_logical, operator_assignment, operator_increment,
  operator_arithmetic, punctuation, comment, end_of_file, keyword_string, keyword_int,
  keyword_double, keyword_float, keyword_boolean, keyword_object, keyword_function_declaration,
  keyword_return, keyword_null, keyword_class, keyword_private, keyword_public, keyword_new,
  keyword_this, keyword_while, keyword_if, keyword_else, keyword_for, keyword_const,
  keyword_include, keyword_enum, keyword_switch, keyword_case, keyword_default, keyword_break,
  keyword_continue, keyword_try, keyword_catch, keyword_throw, keyword_auto, unknown,
}

-- `Tokens::TypeToString`.
unfoldable pub token_type_to_string : TokenType → String
token_type_to_string identifier = "IDENTIFIER"
token_type_to_string variable_identifier = "VARIABLE_IDENTIFIER"
token_type_to_string keyword = "KEYWORD"
token_type_to_string number = "NUMBER"
token_type_to_string string_literal = "STRING_LITERAL"
token_type_to_string operator_relational = "OPERATOR_RELATIONAL"
token_type_to_string operator_logical = "OPERATOR_LOGICAL"
token_type_to_string operator_assignment = "OPERATOR_ASSIGNMENT"
token_type_to_string operator_increment = "OPERATOR_INCREMENT"
token_type_to_string operator_arithmetic = "OPERATOR_ARITHMETIC"
token_type_to_string punctuation = "PUNCTUATION"
token_type_to_string comment = "COMMENT"
token_type_to_string end_of_file = "END_OF_FILE"
token_type_to_string keyword_string = "KEYWORD_STRING"
token_type_to_string keyword_int = "KEYWORD_INT"
token_type_to_string keyword_double = "KEYWORD_DOUBLE"
token_type_to_string keyword_float = "KEYWORD_FLOAT"
token_type_to_string keyword_boolean = "KEYWORD_BOOLEAN"
token_type_to_string keyword_object = "KEYWORD_OBJECT"
token_type_to_string keyword_function_declaration = "KEYWORD_FUNCTION"
token_type_to_string keyword_return = "KEYWORD_RETURN"
token_type_to_string keyword_null = "KEYWORD_NULL"
token_type_to_string keyword_class = "KEYWORD_CLASS"
token_type_to_string keyword_private = "KEYWORD_PRIVATE"
token_type_to_string keyword_public = "KEYWORD_PUBLIC"
token_type_to_string keyword_new = "KEYWORD_NEW"
token_type_to_string keyword_this = "KEYWORD_THIS"
token_type_to_string keyword_while = "KEYWORD_WHILE"
token_type_to_string keyword_if = "KEYWORD_IF"
token_type_to_string keyword_else = "KEYWORD_ELSE"
token_type_to_string keyword_for = "KEYWORD_FOR"
token_type_to_string keyword_const = "KEYWORD_CONST"
token_type_to_string keyword_include = "KEYWORD_INCLUDE"
token_type_to_string keyword_enum = "KEYWORD_ENUM"
token_type_to_string keyword_switch = "KEYWORD_SWITCH"
token_type_to_string keyword_case = "KEYWORD_CASE"
token_type_to_string keyword_default = "KEYWORD_DEFAULT"
token_type_to_string keyword_break = "KEYWORD_BREAK"
token_type_to_string keyword_continue = "KEYWORD_CONTINUE"
token_type_to_string keyword_try = "KEYWORD_TRY"
token_type_to_string keyword_catch = "KEYWORD_CATCH"
token_type_to_string keyword_throw = "KEYWORD_THROW"
token_type_to_string keyword_auto = "KEYWORD_AUTO"
token_type_to_string unknown = "UNKNOWN"
token_type_to_string operator_namespace_resolution = "OPERATOR_NAMESPACE_RESOLUTION"
