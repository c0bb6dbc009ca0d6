-- ===== src/Lexer/Cursors.antt =====
-- src/Lexer/Lexer.cpp: the place of the lexer in the input of one namespace.
use voidscript.Base.Loops.{loop}
use voidscript.Base.{
  ℕ, suc, ◌+◌, ◌-◌, Bool, not, ◌&&◌, ◌||◌, Option, none, some, Bytes, ◌==◌, leb, get_or, length,
  take, drop, if◌then◌else◌, [], ◌∷◌,
}
use voidscript.Lexer.Tokens.{TokenType, Token, is_string_literal, is_space}

-- An element of `positions_`, `line_numbers_` and `column_numbers_`.
pub record Cursor : Type 0 where
  pub position : ℕ
  pub line : ℕ
  pub column : ℕ

abbrev pub start_cursor : Cursor
start_cursor = record { position = 0; line = 1; column = 1 }

module _ (input : Bytes) where
  -- `peek(offset)`: a zero byte past the end.
  unfoldable pub peek : Cursor → ℕ → ℕ
  peek s offset = get_or input (s.position + offset) 0

  unfoldable pub is_at_end : Cursor → Bool
  is_at_end s = leb (length input) s.position

  -- The cursor after `advance()`, whose result is `peek(0)`; it moves past the end too.
  unfoldable pub advance : Cursor → Cursor
  unfolding peek
  advance s =
      if peek s 0 == 10
      then record { position = suc s.position; line = suc s.line; column = 1 }
      else record { position = suc s.position; line = s.line; column = suc s.column }

  -- `input().substr(start, end - start)`
  abbrev pub slice : ℕ → ℕ → Bytes
  slice start finish = take (finish - start) (drop start input)

  abbrev or_lexeme : Bytes → Bytes → Bytes
  or_lexeme [] text = text
  or_lexeme (x ∷ v) text = x ∷ v

  -- `createToken`; outside the input the lexeme and the value stay empty.
  unfoldable pub create_token : TokenType → ℕ → ℕ → Bytes → Cursor → Token
  create_token t start finish v s =
      let inside = leb start finish && leb finish (length input) in
      let text = slice start finish in
      record {
        kind = t;
        value = if inside then if is_string_literal t then v else or_lexeme v text else [];
        lexeme = if inside then text else [];
        start_pos = start;
        end_pos = finish;
        line_number = s.line;
        column_number = s.column;
      }

  -- `while (!isAtEnd() && p(peek())) advance();`
  abbrev pub run_body : (ℕ → Bool) → Cursor → Option Cursor
  run_body p s = if not (is_at_end s) && p (peek s 0) then some (advance s) else none

  unfoldable pub run : (ℕ → Bool) → Cursor → Cursor
  unfolding loop
  run p s = loop (run_body p) (length input) s

  abbrev pub not_newline : ℕ → Bool
  not_newline c = not (c == 10)

  -- One round of `skipWhitespaceAndComments`.
  abbrev pub skip_body : Cursor → Option Cursor
  skip_body s =
      if is_at_end s
      then none
      else if is_space (peek s 0)
      then some (advance s)
      else if (peek s 0 == b'/' && peek s 1 == b'/') || peek s 0 == b'#'
      then some (run not_newline s)
      else none

  unfoldable pub skip_whitespace_and_comments : Cursor → Cursor
  unfolding loop run
  skip_whitespace_and_comments s = loop skip_body (length input) s
