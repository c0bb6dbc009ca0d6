-- ===== src/Parser/Cursor.antt =====
-- The reading of tokens in src/Parser/Parser.cpp. The tokens are those from `current_token_index_`
-- on; the last one, an END_OF_FILE, is never consumed, so none are left only where the stream does
-- not end with it.
use voidscript.Base.{
  String, Bool, true, false, ◌&&◌, List, [], ◌∷◌, Bytes, bytes_eq, if◌then◌else◌, ◌==◌,
}
use voidscript.Lexer.Tokens.{
  Token, TokenType, is_eof, kind_index, punctuation, identifier, variable_identifier,
}
use voidscript.Parser.Outcome.{
  Parser, parsed, failed, syntax, standard, unexpected, pure, fail, choose, ◌>>=◌, ◌>>◌,
}

unfoldable pub is_at_end : List Token → Bool
is_at_end [] = true
is_at_end (t ∷ []) = is_eof t.kind
is_at_end (t ∷ u ∷ rest) = false

unfoldable pub current_token : Parser Token
current_token [] = failed (standard "Cannot access token at end of stream.")
current_token (t ∷ rest) = parsed (t, t ∷ rest)

-- `peekToken()`: past the end it is the last token. It is called where a token is left.
unfoldable pub peek_token : Parser Token
peek_token [] = failed (standard "Cannot peek beyond end of token stream.")
peek_token (t ∷ []) = parsed (t, t ∷ [])
peek_token (t ∷ u ∷ rest) = parsed (u, t ∷ u ∷ rest)

unfoldable pub consume_token : Parser Token
unfolding is_at_end
consume_token [] = failed (standard "Cannot consume token at end of stream.")
consume_token (t ∷ rest) =
    if is_at_end (t ∷ rest)
    then failed (standard "Cannot consume token at end of stream.")
    else parsed (t, rest)

unfoldable pub has_kind : TokenType → Token → Bool
unfolding kind_index
has_kind kind t = kind_index t.kind == kind_index kind

unfoldable pub is_token : TokenType → Bytes → Token → Bool
unfolding has_kind
is_token kind value t = has_kind kind t && bytes_eq t.value value

abbrev pub is_punctuation : Bytes → Token → Bool
is_punctuation = is_token punctuation

-- `expect` of a kind and a value: the end of the file has neither.
unfoldable pub expect_token : TokenType → Bytes → Parser Token
unfolding is_at_end current_token consume_token is_token
expect_token kind value ts =
    if is_at_end ts
    then failed (unexpected kind value)
    else (current_token >>= λ t.
          choose (is_token kind value t) consume_token (fail (unexpected kind value)))
        ts

-- `expect` of a kind.
unfoldable pub expect_kind : TokenType → Parser Token
unfolding is_at_end current_token consume_token has_kind
expect_kind kind ts =
    if is_at_end ts
    then failed (unexpected kind [])
    else (current_token >>= λ t. choose (has_kind kind t) consume_token (fail (unexpected kind [])))
        ts

-- `match` of a kind and a value.
unfoldable pub match_token : TokenType → Bytes → Parser Bool
unfolding is_at_end current_token consume_token is_token
match_token kind value ts =
    if is_at_end ts
    then parsed (false, ts)
    else (current_token >>= λ t.
          choose (is_token kind value t) (consume_token >> pure true) (pure false))
        ts

-- `parseIdentifierName`
unfoldable pub identifier_name : Bytes → Bytes
identifier_name [] = []
identifier_name (c ∷ rest) = if c == b'$' then rest else c ∷ rest

-- The name of a property or of a member, with or without a `$`.
unfoldable pub expect_name : String → Parser Bytes
unfolding current_token consume_token has_kind identifier_name
expect_name message = current_token >>= λ t.
    choose (if has_kind variable_identifier t then true else has_kind identifier t)
      (consume_token >>= λ name. pure (identifier_name name.value)) (fail (syntax message))
