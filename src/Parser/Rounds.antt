-- ===== src/Parser/Rounds.antt =====
-- The branches of the loop of `parseParsedExpression` (src/Parser/Parser.cpp).
use voidscript.Base.{
  List, Bool, true, false, ◌&&◌, ◌||◌, [], ◌∷◌, none, some, codes, bytes_eq, if◌then◌else◌,
}
use voidscript.Lexer.Tokens.{
  Token, identifier, variable_identifier, keyword, string_literal, punctuation,
}
use voidscript.Parser.Cursor.{
  current_token, peek_token, consume_token, has_kind, is_punctuation, expect_token, expect_kind,
  expect_name, identifier_name,
}
use voidscript.Parser.Interpolation.{interpolate}
use voidscript.Parser.Lists.{parse_expression_list, parse_members}
use voidscript.Parser.Literals.{Numerals, from_string}
use voidscript.Parser.Operators.{Stacks, apply_higher, apply_to_parenthesis, has_parenthesis}
use voidscript.Parser.Outcome.{Parser, parsed, syntax, ◌>>=◌, ◌>>◌, pure, fail, lift, choose}
use voidscript.Parser.Shunting.{
  Shunting, Start, at_new, at_bracket, at_brace, at_arrow, at_namespace, at_close, at_open,
  at_named_call, at_operator, at_operand, at_other, full_operator, Round, again, stop,
  indexed_members, push_operand, push_operator, call_of,
}
use voidscript.Parser.Syntax.{
  ParsedExpr, literal, variable, binary, call, new_object, object, enum_access,
}
use voidscript.Value.{string}

-- `parseThisPropertyAccess`
unfoldable pub parse_this_access : Parser ParsedExpr
unfolding consume_token expect_token expect_name
parse_this_access =
    consume_token
    >> expect_token punctuation (codes "->")
    >> expect_name "Expected property name after '$this->'"
    >>= λ name. pure (binary (codes "->") (variable (codes "this")) (variable name))

-- Is the token after the next one an identifier?
unfoldable pub third_is_identifier : Parser Bool
unfolding has_kind
third_is_identifier (t ∷ u ∷ v ∷ rest) = parsed (has_kind identifier v, t ∷ u ∷ v ∷ rest)
third_is_identifier ts = parsed (false, ts)

-- An identifier: `Enum.VALUE`, or a name.
unfoldable pub parse_identifier : Token → Parser ParsedExpr
unfolding peek_token consume_token expect_kind third_is_identifier
parse_identifier t = peek_token >>= λ next. third_is_identifier >>= λ third.
    choose (is_punctuation (codes ".") next && third)
      (consume_token >> consume_token >> expect_kind identifier >>= λ v.
        pure (enum_access t.value v.value))
      (consume_token >> pure (variable t.value))

module _ (num : Numerals) where
  -- `pushOperand`, of the kinds of tokens that reach it.
  unfoldable pub operand : Token → ParsedExpr
  unfolding has_kind from_string interpolate identifier_name
  operand t =
      if has_kind string_literal t
      then elim (interpolate t.lexeme) [ some e ↦ e | none ↦ literal (string t.value) ]
      else if has_kind variable_identifier t
      then variable (identifier_name t.value)
      else literal (from_string num t.value)

  unfoldable pub parse_operand : Token → Parser ParsedExpr
  unfolding operand parse_identifier parse_this_access peek_token consume_token
  parse_operand t =
      choose (has_kind variable_identifier t && bytes_eq t.value (codes "$this"))
        (peek_token >>= λ next.
          choose (is_punctuation (codes "->") next) parse_this_access
            (consume_token >> pure (variable (codes "this"))))
        (choose (has_kind keyword t && bytes_eq t.value (codes "this"))
          (fail (
            syntax
              "Bare 'this' keyword is not allowed. Use '$this' instead for class member access."))
          (choose (has_kind identifier t) (parse_identifier t) (consume_token >> pure (operand t))))

-- The index of what stands on the output.
abbrev pub index_step : ParsedExpr → Stacks → Parser Round
index_step i (ops, []) = fail (syntax "Missing array/object for indexing")
index_step i (ops, lhs ∷ out) = pure (
    again (record {
      ops = ops;
      out = binary (codes "[]") lhs i ∷ out;
      expect_unary = false;
      at_start = false;
    }))

-- `(` opens a group.
unfoldable pub open_group : Shunting → Parser Round
unfolding consume_token
open_group s =
    consume_token >> pure (again (record s { ops = codes "(" ∷ s.ops; expect_unary = true }))

module _ (expr : Parser ParsedExpr) where
  -- `new Name(arguments)`
  unfoldable pub round_new : Shunting → Parser Round
  unfolding consume_token expect_kind parse_expression_list
  round_new s = consume_token >> expect_kind identifier >>= λ name.
      parse_expression_list expr (codes "(") (codes ")") >>= λ args.
      pure (again (push_operand (new_object name.value args) s))

  -- An array literal at the start of an expression, else an index.
  unfoldable pub round_bracket : Shunting → Parser Round
  unfolding parse_expression_list indexed_members consume_token expect_token apply_higher
  round_bracket s =
      choose s.at_start
        (parse_expression_list expr (codes "[") (codes "]") >>= λ elements.
          pure (again (push_operand (object (indexed_members 0 elements)) s)))
        (consume_token >> expr >>= λ i.
          expect_token punctuation (codes "]")
          >> lift (apply_higher (codes "[]") s.ops s.out)
          >>= λ stacks. index_step i stacks)

  -- An object literal.
  unfoldable pub round_brace : Shunting → Parser Round
  unfolding consume_token parse_members
  round_brace s = consume_token >> parse_members expr >>= λ ms.
      pure (again (record s { out = object ms ∷ s.out; expect_unary = false }))

  -- `->` with the name of a member, if one follows.
  unfoldable pub round_arrow : Shunting → Parser Round
  unfolding current_token consume_token has_kind identifier_name apply_higher
  round_arrow s = push_operator (codes "->") s >>= λ pushed. consume_token >> current_token >>= λ t.
      choose (has_kind variable_identifier t || has_kind identifier t)
        (consume_token >> pure (again (push_operand (variable (identifier_name t.value)) pushed)))
        (pure (again pushed))

  -- `::`
  unfoldable pub round_namespace : Token → Shunting → Parser Round
  unfolding consume_token apply_higher
  round_namespace t s = push_operator t.value s >>= λ pushed.
      consume_token >> pure (again (record pushed { at_start = false }))

  -- `)` closes a group of this expression, or ends the expression.
  unfoldable pub round_close : Shunting → Parser Round
  unfolding consume_token has_parenthesis apply_to_parenthesis
  round_close s =
      choose (has_parenthesis s.ops)
        (consume_token >> lift (apply_to_parenthesis s.ops s.out) >>= λ stacks.
          pure (again (record s { ops = stacks.0; out = stacks.1; expect_unary = false })))
        (pure (stop s))

  -- `(` calls what stands before it, on the output, or opens a group.
  abbrev pub open_step : Shunting → List ParsedExpr → Parser Round
  open_step s [] = open_group s
  open_step s (callee ∷ out) = choose s.expect_unary (open_group s) (
      parse_expression_list expr (codes "(") (codes ")") >>= λ args.
      lift (call_of args callee) >>= λ e. pure (again (push_operand e (record s { out = out }))))

  unfoldable pub round_open : Shunting → Parser Round
  unfolding open_group parse_expression_list
  round_open s = open_step s s.out

  -- `name(arguments)`
  unfoldable pub round_named_call : Token → Shunting → Parser Round
  unfolding consume_token parse_expression_list
  round_named_call t s =
      consume_token >> parse_expression_list expr (codes "(") (codes ")") >>= λ args.
      pure (again (record s { out = call t.value args ∷ s.out; expect_unary = false }))

  unfoldable pub round_operator : Token → Shunting → Parser Round
  unfolding full_operator consume_token apply_higher
  round_operator t s = push_operator (full_operator s.expect_unary t) s >>= λ pushed.
      consume_token >> pure (again pushed)

  unfoldable pub round_operand : Numerals → Token → Shunting → Parser Round
  unfolding parse_operand
  round_operand num t s = parse_operand num t >>= λ e. pure (again (push_operand e s))

  -- The branch that the current token takes.
  unfoldable pub round_at : Numerals → Token → Shunting → Start → Parser Round
  unfolding round_new round_bracket round_brace round_arrow round_namespace round_close round_open
      round_named_call round_operator round_operand
  round_at num t s at_new = round_new s
  round_at num t s at_bracket = round_bracket s
  round_at num t s at_brace = round_brace s
  round_at num t s at_arrow = round_arrow s
  round_at num t s at_namespace = round_namespace t s
  round_at num t s at_close = round_close s
  round_at num t s at_open = round_open s
  round_at num t s at_named_call = round_named_call t s
  round_at num t s at_operator = round_operator t s
  round_at num t s at_operand = round_operand num t s
  round_at num t s at_other = pure (stop s)
