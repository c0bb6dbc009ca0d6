-- ===== src/Lexer/Tokens.antt =====
-- src/Lexer/TokenType.hpp and src/Lexer/Token.hpp; the character tests of <cctype> in the "C"
-- locale, where no byte from 128 on is in a class.
use voidscript.Base.{ℕ, Bool, true, false, ◌&&◌, ◌||◌, Bytes, leb, ◌==◌}

-- `Lexer::Tokens::Type`
pub data TokenType : Type 0 where
  identifier variable_identifier keyword number string_literal operator_relational operator_logical
        operator_assignment operator_increment operator_arithmetic operator_namespace_resolution
        punctuation comment end_of_file keyword_string keyword_int keyword_double keyword_float
        keyword_boolean keyword_object keyword_function_declaration keyword_return keyword_null
        keyword_if keyword_else keyword_for keyword_while keyword_const keyword_include
        keyword_class keyword_private keyword_public keyword_new keyword_this keyword_enum
        keyword_switch keyword_case keyword_default keyword_break keyword_continue keyword_try
        keyword_catch keyword_throw keyword_auto unknown :
      TokenType

-- Types are compared by a number of their own.
unfoldable pub kind_index : TokenType → ℕ
kind_index identifier = 0
kind_index variable_identifier = 1
kind_index keyword = 2
kind_index number = 3
kind_index string_literal = 4
kind_index operator_relational = 5
kind_index operator_logical = 6
kind_index operator_assignment = 7
kind_index operator_increment = 8
kind_index operator_arithmetic = 9
kind_index operator_namespace_resolution = 10
kind_index punctuation = 11
kind_index comment = 12
kind_index end_of_file = 13
kind_index keyword_string = 14
kind_index keyword_int = 15
kind_index keyword_double = 16
kind_index keyword_float = 17
kind_index keyword_boolean = 18
kind_index keyword_object = 19
kind_index keyword_function_declaration = 20
kind_index keyword_return = 21
kind_index keyword_null = 22
kind_index keyword_if = 23
kind_index keyword_else = 24
kind_index keyword_for = 25
kind_index keyword_while = 26
kind_index keyword_const = 27
kind_index keyword_include = 28
kind_index keyword_class = 29
kind_index keyword_private = 30
kind_index keyword_public = 31
kind_index keyword_new = 32
kind_index keyword_this = 33
kind_index keyword_enum = 34
kind_index keyword_switch = 35
kind_index keyword_case = 36
kind_index keyword_default = 37
kind_index keyword_break = 38
kind_index keyword_continue = 39
kind_index keyword_try = 40
kind_index keyword_catch = 41
kind_index keyword_throw = 42
kind_index keyword_auto = 43
kind_index unknown = 44

-- `Token`
pub record Token : Type 0 where
  pub kind : TokenType
  pub value : Bytes
  pub lexeme : Bytes
  pub start_pos : ℕ
  pub end_pos : ℕ
  pub line_number : ℕ
  pub column_number : ℕ

abbrev pub is_eof : TokenType → Bool
is_eof end_of_file = true
is_eof _ = false

abbrev pub is_string_literal : TokenType → Bool
is_string_literal string_literal = true
is_string_literal _ = false

abbrev within : ℕ → ℕ → ℕ → Bool
within low high c = leb low c && leb c high

abbrev pub is_alpha : ℕ → Bool
is_alpha c = within b'A' b'Z' c || within b'a' b'z' c

abbrev pub is_digit : ℕ → Bool
is_digit c = within b'0' b'9' c

abbrev pub is_xdigit : ℕ → Bool
is_xdigit c = is_digit c || within b'A' b'F' c || within b'a' b'f' c

abbrev pub is_space : ℕ → Bool
is_space c = c == b' ' || within 9 13 c
