-- ===== src/Parser/Lists.antt =====
-- `parseExpressionList` of src/Parser/Parser.cpp, and the members of an object literal. `expr` is
-- the parser of an expression; the fuel of a loop is more than the tokens that are left.
use voidscript.Base.{ℕ, zero, suc, Bool, true, false, Bytes, codes, length}
use voidscript.Lexer.Tokens.{
  TokenType, punctuation, keyword_int, keyword_double, keyword_float, keyword_string, keyword_null,
  keyword_boolean, keyword_object, keyword_auto, keyword_enum,
}
use voidscript.Parser.Cursor.{
  current_token, peek_token, consume_token, is_punctuation, expect_token, match_token, expect_name,
}
use voidscript.Parser.Outcome.{Parser, out_of_fuel, ◌>>=◌, ◌>>◌, pure, choose}
use voidscript.Parser.Syntax.{
  ParsedExpr, ParsedArgs, no_args, arg, ParsedMembers, no_members, member_of,
}

-- Is the current token this punctuation?
abbrev pub at_punctuation : Bytes → Parser Bool
at_punctuation text = current_token >>= λ t. pure (is_punctuation text t)

-- The keys of `Parser::variable_types`.
abbrev pub is_type_keyword : TokenType → Bool
is_type_keyword keyword_int = true
is_type_keyword keyword_double = true
is_type_keyword keyword_float = true
is_type_keyword keyword_string = true
is_type_keyword keyword_null = true
is_type_keyword keyword_boolean = true
is_type_keyword keyword_object = true
is_type_keyword keyword_auto = true
is_type_keyword keyword_enum = true
is_type_keyword _ = false

-- `parseType` at the keyword of a type: `[]` may follow. Which type it is makes no difference to an
-- expression.
unfoldable pub skip_type : Parser (Unit {0})
unfolding current_token peek_token consume_token
skip_type = consume_token >> at_punctuation (codes "[") >>= λ bracket.
    choose bracket
      (peek_token >>= λ next.
        choose (is_punctuation (codes "]") next) (consume_token >> consume_token >> pure tt)
          (pure tt))
      (pure tt)

module _ (expr : Parser ParsedExpr) where
  -- The expressions after the opening token; a comma may follow the last one.
  unfoldable pub list_items : ℕ → Bytes → Parser ParsedArgs
  unfolding match_token
  list_items zero close = λ ts. out_of_fuel
  list_items (suc fuel) close = expr >>= λ e. match_token punctuation (codes ",") >>= λ comma.
      choose comma
        (at_punctuation close >>= λ closed.
          choose closed (pure (arg e no_args))
            (list_items fuel close >>= λ rest. pure (arg e rest)))
        (pure (arg e no_args))

  unfoldable pub parse_expression_list : Bytes → Bytes → Parser ParsedArgs
  unfolding list_items expect_token
  parse_expression_list left close =
      expect_token punctuation left >> at_punctuation close >>= λ closed.
      choose closed (pure no_args) (λ ts. list_items (suc (length ts)) close ts) >>= λ args.
      expect_token punctuation close >> pure args

  -- The members of an object literal: a comma has to be followed by one.
  unfoldable pub member_items : ℕ → Parser ParsedMembers
  unfolding current_token skip_type expect_name expect_token match_token
  member_items zero = λ ts. out_of_fuel
  member_items (suc fuel) = current_token >>= λ t.
      choose (is_type_keyword t.kind) skip_type (pure tt)
      >> expect_name "Expected identifier for object key"
      >>= λ key. expect_token punctuation (codes ":") >> expr >>= λ e.
          match_token punctuation (codes ",") >>= λ comma.
          choose comma (member_items fuel >>= λ rest. pure (member_of key e rest))
            (pure (member_of key e no_members))

  -- The members after the `{`, up to the `}`.
  unfoldable pub parse_members : Parser ParsedMembers
  unfolding member_items expect_token
  parse_members = at_punctuation (codes "}") >>= λ closed.
      choose closed (pure no_members) (λ ts. member_items (suc (length ts)) ts) >>= λ ms.
      expect_token punctuation (codes "}") >> pure ms
