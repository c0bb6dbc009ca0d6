-- ===== src/Lexer/Matchers.antt =====
-- src/Lexer/Lexer.cpp: the matchers of `nextToken`. Each gives the token and the cursor after it.
use voidscript.Base.Dict.{lookup}
use voidscript.Base.Loops.{loop}
use voidscript.Base.{
  ℕ, ◌+◌, Bool, true, false, not, ◌&&◌, ◌||◌, [], ◌∷◌, ◌++◌, Option, none, some, Bytes, ◌==◌, leb,
  length, if◌then◌else◌,
}
use voidscript.Lexer.Cursors.{
  Cursor, peek, is_at_end, advance, slice, create_token, run, skip_whitespace_and_comments,
}
use voidscript.Lexer.Tables.{
  keywords, operators, has_byte, first_match, two_char_op_types, one_char_op_types,
}
use voidscript.Lexer.Tokens.{
  TokenType, Token, identifier, variable_identifier, number, string_literal, end_of_file, unknown,
  is_alpha, is_digit, is_xdigit,
}

abbrev pub is_name_byte : ℕ → Bool
is_name_byte c = is_alpha c || is_digit c || c == b'_'

-- The type that a name gets: a keyword's where the caller asked for an identifier.
unfoldable pub name_type : TokenType → Bytes → TokenType
unfolding lookup
name_type identifier v = elim (lookup v keywords) [ none ↦ identifier | some t ↦ t ]
name_type t v = t

abbrev pub type_or_unknown : TokenType → Bytes → TokenType
type_or_unknown t [] = unknown
type_or_unknown t (c ∷ v) = name_type t (c ∷ v)

abbrev pub is_base_digit : ℕ → ℕ → Bool
is_base_digit base c =
    if base == 16
    then is_xdigit c
    else if base == 8
    then leb b'0' c && leb c b'7'
    else c == b'0' || c == b'1'

-- The base that the letter after a leading `0` announces, or 0.
abbrev pub base_of : ℕ → ℕ
base_of prefix =
    if prefix == b'x' || prefix == b'X'
    then 16
    else if prefix == b'b' || prefix == b'B'
    then 2
    else if prefix == b'o' || prefix == b'O'
    then 8
    else 0

-- The byte that an escaped byte stands for.
abbrev pub unescape_byte : ℕ → ℕ
unescape_byte e =
    if e == b'n'
    then 10
    else if e == b't'
    then 9
    else if e == b'r'
    then 13
    else if e == b'b'
    then 8
    else if e == b'f'
    then 12
    else if e == b'v'
    then 11
    else if e == b'a'
    then 7
    else if e == b'0'
    then 0
    else e

abbrev pub is_digit_or_separator : ℕ → Bool
is_digit_or_separator c = is_digit c || c == b'_'

abbrev pub or_unknown : Option TokenType → TokenType
or_unknown none = unknown
or_unknown (some t) = t

-- The state of the loop of `matchStringLiteral`; `is_done` is set by its `break`.
pub record Literal : Type 0 where
  pub cursor : Cursor
  pub text : Bytes
  pub is_done : Bool

module _ (input : Bytes) where
  -- `matchIdentifierOrKeyword`
  unfoldable pub match_identifier_or_keyword : TokenType → ℕ → Cursor → Token × Cursor
  unfolding run create_token name_type
  match_identifier_or_keyword t start s =
      let after = run input is_name_byte s in
      let name = slice input start after.position in
      let found = type_or_unknown t name in
      (create_token input found start after.position [] after, after)

  -- One round over the digits of a decimal number, with the flag `has_dot`.
  abbrev pub digits_body : Cursor × Bool → Option (Cursor × Bool)
  digits_body (s, has_dot) =
      if is_at_end input s
      then none
      else if is_digit (peek input s 0) || peek input s 0 == b'_'
      then some (advance input s, has_dot)
      else if not has_dot && peek input s 0 == b'.' && is_digit (peek input s 1)
      then some (advance input (advance input s), true)
      else none

  abbrev pub skip_sign : Bool → Cursor → Cursor
  skip_sign signed s = if signed then advance input s else s

  -- The exponent, where one with a digit follows.
  unfoldable pub match_exponent : Cursor → Cursor
  unfolding run
  match_exponent s =
      let signed = peek input s 1 == b'+' || peek input s 1 == b'-' in
      if not (is_at_end input s)
        && (peek input s 0 == b'e' || peek input s 0 == b'E')
        && is_digit (peek input s (if signed then 2 else 1))
      then run input is_digit_or_separator (skip_sign signed (advance input s))
      else s

  unfoldable pub match_decimal : Cursor → Cursor
  unfolding loop match_exponent
  match_decimal s = match_exponent (loop digits_body (length input) (s, false)).0

  -- `matchNumber`: the cursor after the number, and the token.
  unfoldable pub number_end : Cursor → Cursor
  unfolding match_decimal run
  number_end s =
      let base = base_of (peek input s 1) in
      if peek input s 0 == b'0'
        && not (is_at_end input s)
        && not (base == 0)
        && is_base_digit base (peek input s 2)
      then run input (λ c. is_base_digit base c || c == b'_') (advance input (advance input s))
      else match_decimal s

  unfoldable pub match_number : ℕ → Cursor → Token × Cursor
  unfolding number_end create_token
  match_number start s =
      let after = number_end s in (create_token input number start after.position [] after, after)

  -- One round of the loop of `matchStringLiteral`.
  abbrev pub literal_body : ℕ → Literal → Option Literal
  literal_body opening_quote l =
      let s = l.cursor in
      let c = peek input s 0 in
      let next = advance input s in
      if l.is_done || is_at_end input s
      then none
      else if c == opening_quote
      then some (record { cursor = next; text = l.text; is_done = true })
      else if c == b'\\'
      then some (record {
        cursor = advance input next;
        text = l.text ++ unescape_byte (peek input next 0) ∷ [];
        is_done = false;
      })
      else some (record { cursor = next; text = l.text ++ c ∷ []; is_done = false })

  unfoldable pub literal_end : Cursor → Literal
  unfolding loop
  literal_end s =
      loop (literal_body (peek input s 0)) (length input + 1)
        (record { cursor = advance input s; text = []; is_done = false })

  -- `matchStringLiteral`; its flag `unterminated` is never set.
  unfoldable pub match_string_literal : ℕ → Cursor → Token × Cursor
  unfolding literal_end create_token
  match_string_literal start s =
      let l = literal_end s in
      (create_token input string_literal start l.cursor.position l.text l.cursor, l.cursor)

  -- The token of one byte, at the cursor after it.
  unfoldable pub match_one_char : ℕ → ℕ → Cursor → Token × Cursor
  unfolding match_identifier_or_keyword create_token first_match
  match_one_char first_char start s =
      if first_char == b'$' && (is_alpha (peek input s 0) || peek input s 0 == b'_')
      then match_identifier_or_keyword variable_identifier start s
      else (
        create_token input (or_unknown (first_match one_char_op_types (first_char ∷ []))) start
            s.position [] s,
        s,
      )

  abbrev pub two_char_type : ℕ → Cursor → Option TokenType
  two_char_type first_char s =
      if is_at_end input s
      then none
      else first_match two_char_op_types (first_char ∷ peek input s 0 ∷ [])

  -- `matchOperatorOrPunctuation`
  unfoldable pub match_operator_or_punctuation : ℕ → Cursor → Token × Cursor
  unfolding match_one_char create_token first_match
  match_operator_or_punctuation start s =
      let first_char = peek input s 0 in
      let next = advance input s in
      elim (two_char_type first_char next) [
        | some t ↦
            let after = advance input next in
            (create_token input t start after.position [] after, after)
        | none ↦ match_one_char first_char start next
      ]

  -- The token that starts at the cursor.
  unfoldable pub match_token : Cursor → Token × Cursor
  unfolding match_identifier_or_keyword match_number match_string_literal
      match_operator_or_punctuation has_byte create_token
  match_token s =
      let start = s.position in
      let c = peek input s 0 in
      if is_at_end input s
      then (create_token input end_of_file start start [] s, s)
      else if is_alpha c || c == b'_'
      then match_identifier_or_keyword identifier start s
      else if is_digit c || (c == b'.' && is_digit (peek input s 1))
      then match_number start s
      else if c == b'"' || c == b'\''
      then match_string_literal start s
      else if has_byte operators c
      then match_operator_or_punctuation start s
      else let after = advance input s in
        (create_token input unknown start after.position [] after, after)

  -- `nextToken`
  unfoldable pub next_token : Cursor → Token × Cursor
  unfolding skip_whitespace_and_comments match_token
  next_token s = match_token (skip_whitespace_and_comments input s)
