-- ===== src/Parser/Halts/Whole.antt =====
-- The parser of expressions (src/Parser/Parser.cpp) ends on every input.
use voidscript.Base.{ℕ, zero, suc, ◌≤◌, ◌<◌, List, [], ◌∷◌, codes, length, arith}
use voidscript.Lexer.Tokens.{Token, punctuation}
use voidscript.Parser.Cursor.{is_punctuation}
use voidscript.Parser.Expression.{
  begin, round, run_rounds, parse_conditional, finish_expression, expression_of, parse_expression,
}
use voidscript.Parser.Halts.{
  Late, Early, Leaves, leaves, fails, Leaves-le, Looks-Late, Early-Late, Early-le, Late-le,
  Late-pure, Late-choose, Late-bind, Early-bind, Late-guarded, Looks-current_token,
  Early-consume_token, Early-expect_token,
}
use voidscript.Parser.Halts.Rounds.{Moves, moves, stays, breaks, Moves-round}
use voidscript.Parser.Halts.Steps.{Looks-lift, Settled-apply_all, Settled-only_output}
use voidscript.Parser.Literals.{Numerals}
use voidscript.Parser.Outcome.{Parser, Parsed, then_parse, pure}
use voidscript.Parser.Shunting.{Shunting, Round, again, stop}
use voidscript.Parser.Syntax.{ParsedExpr, ternary}

module _ (num : Numerals) (k : ℕ) (expr : Parser ParsedExpr) (e : Early k expr) where
  Late-parse_conditional : (c : ParsedExpr) → Late (suc k) (parse_conditional num expr c)
  unfolding parse_conditional
  Late-parse_conditional c = Late-guarded _ _ (Late-pure c) (
      Late-bind _ _ (Looks-Late Looks-current_token) λ t.
        Late-choose (is_punctuation (codes "?") t) _ _
          (Early-Late (
            Early-bind _ _
              (Early-bind _ _ Early-consume_token
                λ u j r. Early-Late (Early-le (omega (arith, r)) e))
              λ yes_branch j r.
                Late-bind _ _
                  (Late-bind _ _ (Early-Late (Early-expect_token punctuation (codes ":")))
                    λ u. Early-Late (Early-le (omega (arith, r)) e))
                  λ no_branch. Late-pure (ternary c yes_branch no_branch)))
          (Late-pure c))

  Late-finish_expression : (s : Shunting) → Late (suc k) (finish_expression num expr s)
  unfolding finish_expression
  Late-finish_expression s =
      Late-bind _ _ (Looks-Late (Looks-lift _ (Settled-apply_all s.ops s.out))) λ stacks.
        Late-bind _ _ (Looks-Late (Looks-lift _ (Settled-only_output stacks.1)))
          Late-parse_conditional

  Late-run_rounds :
      (fuel m : ℕ) (s : Shunting) → m < fuel → m ≤ suc k → Late m (run_rounds num expr fuel s)
  unfolding run_rounds
  Late-run_rounds zero m s h l = absurd (omega (arith, h))
  Late-run_rounds (suc fuel) m s h l = record {
    at = λ ts q.
        go (λ j s' r. Late-run_rounds fuel j s' (omega (arith, h, r)) (omega (arith, l, r))) ts q
          (Moves-round k expr e num s ts (omega (arith, l, q)));
  }
    where
      go :
          ((j : ℕ) (s' : Shunting) → j < m → Late j (run_rounds num expr fuel s'))
          → (ts : List Token) → length ts ≤ m
          → {o : Parsed (Round × List Token)} → Moves s ts o
          → Leaves (suc (length ts)) (
              then_parse o
                λ r. elim r [ again s' ↦ run_rounds num expr fuel s' | stop s' ↦ pure s' ])
      go more ts q (moves {r = again s'} {rest} less) =
          Leaves-le (omega (arith, less))
            ((more (length rest) s' (omega (arith, q, less))).at rest (omega arith))
      go more ts q (moves {r = stop s'} less) = leaves (omega (arith, less))
      go more ts q stays = leaves (omega arith)
      go more ts q breaks = fails

  -- A run that ends before it read a token has no operand.
  Early-expression_of : Early (suc k) (expression_of num expr)
  unfolding expression_of run_rounds
  Early-expression_of = record { at = λ ts l. go ts l (Moves-round k expr e num begin ts l) }
    where
      go :
          (ts : List Token)
          → length ts ≤ suc k
          → {o : Parsed (Round × List Token)} → Moves begin ts o
          → Leaves (length ts) (
              then_parse
                (then_parse o
                  λ r. elim r [ again s' ↦ run_rounds num expr (length ts) s' | stop s' ↦ pure s' ])
                (finish_expression num expr))
      go ts l (moves {r = again s'} {rest} less) = Leaves-le less (
          (Late-bind _ _
              (Late-run_rounds (length ts) (length rest) s' less (omega (arith, l, less)))
              λ s''. Late-le (omega (arith, l, less)) (Late-finish_expression s'')).at
            rest (omega arith))
      go ts l (moves {r = stop s'} {rest} less) =
          Leaves-le less ((Late-finish_expression s').at rest (omega (arith, l, less)))
      go ts l stays = fails
      go ts l breaks = fails

Early-zero : {A : Type 0} (p : Parser A) → Leaves 0 (p []) → Early 0 p
Early-zero p h = record { at = λ ts l. go ts l }
  where
    go : (ts : List Token) → length ts ≤ 0 → Leaves (length ts) (p ts)
    go [] l = h
    go (t ∷ ts) l = absurd (omega (arith, l))

Early-parse_expression :
    (num : Numerals) (fuel k : ℕ) → k < fuel → Early k (parse_expression num fuel)
unfolding parse_expression expression_of run_rounds round
Early-parse_expression num zero k h = absurd (omega (arith, h))
Early-parse_expression num (suc fuel) zero h = Early-zero _ fails
Early-parse_expression num (suc fuel) (suc k) h =
    Early-expression_of num k (parse_expression num fuel)
      (Early-parse_expression num fuel k (omega (arith, h)))

-- With more fuel than tokens, the parser of expressions ends on every list of tokens, well formed
-- or not: with an error of the parser, or with a tree and fewer tokens left than it was given.
pub parse_expression-Leaves :
    (num : Numerals) (fuel : ℕ) (ts : List Token)
    → length ts < fuel
    → Leaves (length ts) (parse_expression num fuel ts)
parse_expression-Leaves num fuel ts h =
    (Early-parse_expression num fuel (length ts) h).at ts (omega arith)
