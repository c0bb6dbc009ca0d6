-- ===== src/Tests/LexerTests.antt =====
-- src/Lexer/Lexer.cpp at fixed inputs.
use voidscript.Base.{
  ◌+◌, List, [], ◌∷◌, ◌++◌, map, Option, none, some, codes, Bytes, length, ◌≡◌, refl, inl, inr,
}
use voidscript.Lexer.Cursors.{Cursor, start_cursor, advance, peek, is_at_end}
use voidscript.Lexer.Literals.RoundTrip.{next_token-escape}
use voidscript.Lexer.Literals.Unterminated.{next_token-unterminated}
use voidscript.Lexer.Literals.{escape, Rest}
use voidscript.Lexer.Matchers.{next_token}
use voidscript.Lexer.Stream.{IsStream, tokenized, tokenize_namespace-add_namespace_input}
use voidscript.Lexer.Tokenize.{
  Lexer, token_loop, add_namespace_input, get_tokens, tokenize_namespace,
}
use voidscript.Symbols.Container.{no_scope, create}
use voidscript.Symbols.Container.Reachable.{fresh}
use voidscript.Value.{throws}
use voidscript.Lexer.Tokens.{
  TokenType, Token, keyword_int, variable_identifier, operator_assignment, number, punctuation,
  string_literal, end_of_file,
}

abbrev kinds : Option (List Token × Cursor) → List TokenType
kinds none = []
kinds (some (ts, s)) = map (λ t. t.kind) ts

abbrev statement : Bytes
statement = codes "int $x = 0x1F; // a comment"

kinds_test :
    kinds (token_loop statement (length statement + 2) start_cursor)
    ≡ keyword_int ∷ variable_identifier ∷ operator_assignment ∷ number ∷ punctuation ∷ end_of_file
      ∷ []
unfolding token_loop is_at_end peek advance
kinds_test = refl

-- A literal without a closing quote is a string literal all the same.
unterminated_test :
    kinds (token_loop (codes "\"ab") 5 start_cursor) ≡ string_literal ∷ end_of_file ∷ []
unfolding token_loop is_at_end peek advance
unterminated_test = refl

-- A backslash at the end takes the cursor past the end, and the value is lost.
trailing_backslash_test : (next_token (codes "\"ab\\") start_cursor).0.value ≡ []
unfolding next_token is_at_end peek advance
trailing_backslash_test = refl

abbrev empty_lexer : Lexer
empty_lexer = record { inputs = []; cursors = []; tokens = [] }

tokenize_namespace-add_namespace_input_example :
    (ts : List Token) × (after : Lexer) × (tokenize_namespace
        (codes "n")
        (add_namespace_input (codes "n") statement empty_lexer)
        (fresh (codes "n"))
      ≡ some (tokenized (codes "n") ts after (fresh (codes "n"))))
    × (get_tokens (codes "n") after ≡ ts)
    × IsStream statement 0 ts
tokenize_namespace-add_namespace_input_example =
    tokenize_namespace-add_namespace_input (codes "n") statement empty_lexer (fresh (codes "n"))

-- No scope, no tokens.
tokenize_throws :
    tokenize_namespace
      (codes "n")
      (add_namespace_input (codes "n") statement empty_lexer)
      (fresh (codes "m"))
    ≡ some (throws no_scope)
unfolding tokenize_namespace add_namespace_input create
tokenize_throws = refl

abbrev body : Bytes
body = b'a' ∷ b'"' ∷ b'\\' ∷ []

abbrev literal : Bytes
literal = codes "\"a\\\"\\\\\";"

at_literal : literal ≡ b'"' ∷ (escape b'"' body ++ b'"' ∷ codes ";")
unfolding escape
at_literal = refl

next_token-escape_example :
    ((next_token literal start_cursor).0.kind ≡ string_literal)
    × ((next_token literal start_cursor).0.value ≡ body)
    × ((next_token literal start_cursor).0.start_pos ≡ 0)
    × ((next_token literal start_cursor).0.end_pos ≡ 0 + length (escape b'"' body) + 2)
    × Rest literal (next_token literal start_cursor).1 (codes ";")
next_token-escape_example =
    next_token-escape literal b'"' (inl refl) start_cursor body (codes ";") at_literal

open_literal : codes "'ab" ≡ b'\'' ∷ codes "ab"
open_literal = refl

next_token-unterminated_example :
    ((next_token (codes "'ab") start_cursor).0.kind ≡ string_literal)
    × ((next_token (codes "'ab") start_cursor).0.value ≡ codes "ab")
    × ((next_token (codes "'ab") start_cursor).0.end_pos ≡ length (codes "'ab"))
next_token-unterminated_example =
    next_token-unterminated (codes "'ab") b'\'' (inr refl) start_cursor (codes "ab") open_literal
      ((refl, refl), ((refl, refl), tt))
