-- ===== src/Parser/Expression.antt =====
-- `parseParsedExpression` of src/Parser/Parser.cpp. The fuel bounds the depth of expressions in
-- expressions; the rounds of a loop are bounded by the tokens that are left.
use voidscript.Base.{ℕ, zero, suc, true, List, [], ◌∷◌, codes, length}
use voidscript.Lexer.Tokens.{punctuation}
use voidscript.Parser.Cursor.{
  current_token, peek_token, consume_token, is_at_end, is_punctuation, expect_token,
}
use voidscript.Parser.Literals.{Numerals}
use voidscript.Parser.Operators.{apply_all}
use voidscript.Parser.Outcome.{
  Parser, Parsed, parsed, failed, out_of_fuel, queue_size, ◌>>=◌, ◌>>◌, pure, lift, choose,
}
use voidscript.Parser.Rounds.{round_at}
use voidscript.Parser.Shunting.{Shunting, start_of, Round, again, stop}
use voidscript.Parser.Syntax.{ParsedExpr, ternary}

abbrev pub begin : Shunting
begin = record { ops = []; out = []; expect_unary = true; at_start = true }

-- The one expression on the output.
abbrev pub only_output : List ParsedExpr → Parsed ParsedExpr
only_output (e ∷ []) = parsed e
only_output out = failed (queue_size (length out))

module _ (num : Numerals) (expr : Parser ParsedExpr) where
  -- The token after the current one is looked at in one branch only, where there is a current one.
  unfoldable pub round : Shunting → Parser Round
  unfolding current_token peek_token start_of round_at
  round s = current_token >>= λ t. peek_token >>= λ next. round_at expr num t s (start_of t next)

  unfoldable pub run_rounds : ℕ → Shunting → Parser Shunting
  unfolding round
  run_rounds zero s = λ ts. out_of_fuel
  run_rounds (suc fuel) s =
      round s >>= λ r. elim r [ again s' ↦ run_rounds fuel s' | stop s' ↦ pure s' ]

  -- `cond ? a : b`, after the condition.
  unfoldable pub parse_conditional : ParsedExpr → Parser ParsedExpr
  unfolding current_token consume_token expect_token is_at_end
  parse_conditional e ts =
      choose (is_at_end ts) (pure e)
        (current_token >>= λ t.
          choose (is_punctuation (codes "?") t)
            (consume_token >> expr >>= λ yes_branch.
              expect_token punctuation (codes ":") >> expr >>= λ no_branch.
              pure (ternary e yes_branch no_branch))
            (pure e))
        ts

  -- What follows the loop.
  unfoldable pub finish_expression : Shunting → Parser ParsedExpr
  unfolding apply_all parse_conditional
  finish_expression s =
      lift (apply_all s.ops s.out) >>= λ stacks. lift (only_output stacks.1) >>= parse_conditional

  unfoldable pub expression_of : Parser ParsedExpr
  unfolding run_rounds finish_expression
  expression_of ts = (run_rounds (suc (length ts)) begin >>= finish_expression) ts

unfoldable pub parse_expression : Numerals → ℕ → Parser ParsedExpr
unfolding expression_of
parse_expression num zero = λ ts. out_of_fuel
parse_expression num (suc fuel) = expression_of num (parse_expression num fuel)
