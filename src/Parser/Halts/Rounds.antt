-- ===== src/Parser/Halts/Rounds.antt =====
-- Each branch of the loop of `parseParsedExpression` (src/Parser/Parser.cpp) consumes a token, or
-- leaves the loop with the state unchanged.
use voidscript.Base.{
  ℕ, suc, ◌≤◌, ◌<◌, Bool, true, false, List, [], ◌∷◌, Bytes, codes, length, arith, ◌&&◌, ◌||◌,
  bytes_eq,
}
use voidscript.Lexer.Tokens.{Token, identifier, variable_identifier, keyword}
use voidscript.Parser.Cursor.{
  current_token, peek_token, consume_token, has_kind, is_punctuation, identifier_name,
}
use voidscript.Parser.Expression.{round}
use voidscript.Parser.Halts.{
  Late, Early, Looks, Seen, seen, Leaves, leaves, fails, Looks-Late, Early-Late, Early-le, Late-le,
  Early-after, Late-pure, Late-fail, Early-fail, Late-choose, Early-choose, Late-bind, Early-bind,
  Looks-bind, Looks-current_token, Looks-peek_token, Early-consume_token, Early-expect_token,
  Early-expect_kind, Early-expect_name,
}
use voidscript.Parser.Halts.Lists.{Early-parse_expression_list, Late-parse_members}
use voidscript.Parser.Halts.Steps.{
  Looks-lift, Settled-apply_higher, Settled-apply_to_parenthesis, Settled-call_of,
  Late-push_operator,
}
use voidscript.Parser.Lists.{parse_expression_list}
use voidscript.Parser.Literals.{Numerals}
use voidscript.Parser.Operators.{Stacks, has_parenthesis, apply_to_parenthesis}
use voidscript.Parser.Outcome.{
  Parser, Parsed, parsed, failed, choose, pure, lift, ◌>>=◌, ◌>>◌, ParseError,
}
use voidscript.Parser.Rounds.{
  parse_this_access, third_is_identifier, parse_identifier, operand, parse_operand, round_new,
  index_step, round_bracket, round_brace, round_arrow, round_namespace, round_close, open_group,
  open_step, round_open, round_named_call, round_operator, round_operand, round_at,
}
use voidscript.Parser.Shunting.{
  Shunting, Start, at_new, at_bracket, at_brace, at_arrow, at_namespace, at_close, at_open,
  at_named_call, at_operator, at_operand, at_other, Round, again, stop, push_operand, full_operator,
  indexed_members, start_of,
}
use voidscript.Parser.Syntax.{ParsedExpr, binary, variable, call, new_object, object, enum_access}

Looks-third_is_identifier : Looks third_is_identifier
unfolding third_is_identifier
Looks-third_is_identifier = record { at = λ ts. go ts }
  where
    go : (ts : List Token) → Seen ts (third_is_identifier ts)
    go [] = seen
    go (t ∷ []) = seen
    go (t ∷ u ∷ []) = seen
    go (t ∷ u ∷ v ∷ rest) = seen

Early-parse_this_access : {k : ℕ} → Early k parse_this_access
unfolding parse_this_access
Early-parse_this_access =
    Early-bind _ _
      (Early-bind _ _
        (Early-bind _ _ Early-consume_token λ u j r. Early-Late (Early-expect_token _ _))
        λ u j r. Early-Late (Early-expect_name _))
      λ name j r. Late-pure (binary (codes "->") (variable (codes "this")) (variable name))

Early-parse_identifier : {k : ℕ} (t : Token) → Early k (parse_identifier t)
unfolding parse_identifier
Early-parse_identifier t = Looks-bind _ _ Looks-peek_token λ next.
    Looks-bind _ _ Looks-third_is_identifier λ third.
      Early-choose (is_punctuation (codes ".") next && third) _ _
        (Early-bind _ _
          (Early-bind _ _
            (Early-bind _ _ Early-consume_token λ u j r. Early-Late Early-consume_token)
            λ u j r. Early-Late (Early-expect_kind identifier))
          λ v j r. Late-pure (enum_access t.value v.value))
        (Early-bind _ _ Early-consume_token λ u j r. Late-pure (variable t.value))

Early-parse_operand : {k : ℕ} (num : Numerals) (t : Token) → Early k (parse_operand num t)
unfolding parse_operand
Early-parse_operand num t =
    Early-choose (has_kind variable_identifier t && bytes_eq t.value (codes "$this")) _ _
      (Looks-bind _ _ Looks-peek_token λ next.
        Early-choose (is_punctuation (codes "->") next) _ _ Early-parse_this_access
          (Early-bind _ _ Early-consume_token λ u j r. Late-pure (variable (codes "this"))))
      (Early-choose (has_kind keyword t && bytes_eq t.value (codes "this")) _ _ (Early-fail _) (
        Early-choose (has_kind identifier t) _ _ (Early-parse_identifier t)
          (Early-bind _ _ Early-consume_token λ u j r. Late-pure (operand num t))))

Late-index_step : {k : ℕ} (i : ParsedExpr) (stacks : Stacks) → Late k (index_step i stacks)
Late-index_step i (ops, []) = Late-fail _
Late-index_step i (ops, lhs ∷ out) = Late-pure (
    again (record {
      ops = ops;
      out = binary (codes "[]") lhs i ∷ out;
      expect_unary = false;
      at_start = false;
    }))

Early-open_group : {k : ℕ} (s : Shunting) → Early k (open_group s)
unfolding open_group
Early-open_group s =
    Early-bind _ _ Early-consume_token
      λ u j r. Late-pure (again (record s { ops = codes "(" ∷ s.ops; expect_unary = true }))

-- A round consumes a token, or leaves the loop as it found it.
pub data Moves (s : Shunting) (ts : List Token) : Parsed (Round × List Token) → Type 0 where
  moves : {r : Round} {rest : List Token} → length rest < length ts → Moves s ts (parsed (r, rest))
  stays : Moves s ts (parsed (stop s, ts))
  breaks : {e : ParseError} → Moves s ts (failed e)

Leaves-Moves :
    (s : Shunting) (ts : List Token) {o : Parsed (Round × List Token)}
    → Leaves (length ts) o
    → Moves s ts o
Leaves-Moves s ts (leaves l) = moves l
Leaves-Moves s ts fails = breaks

module _ (expr : Parser ParsedExpr) where
  Early-round_arrow : {k : ℕ} (s : Shunting) → Early k (round_arrow expr s)
  unfolding round_arrow
  Early-round_arrow s = Early-after _ _ (Late-push_operator (codes "->") s) λ pushed.
      Early-bind _ _ (Early-bind _ _ Early-consume_token λ u j r. Looks-Late Looks-current_token)
        λ t j r.
          Late-choose (has_kind variable_identifier t || has_kind identifier t) _ _
            (Late-bind _ _ (Early-Late Early-consume_token)
              λ u. Late-pure (again (push_operand (variable (identifier_name t.value)) pushed)))
            (Late-pure (again pushed))

  Early-round_namespace : {k : ℕ} (t : Token) (s : Shunting) → Early k (round_namespace expr t s)
  unfolding round_namespace
  Early-round_namespace t s = Early-after _ _ (Late-push_operator t.value s) λ pushed.
      Early-bind _ _ Early-consume_token
        λ u j r. Late-pure (again (record pushed { at_start = false }))

  Early-round_operator : {k : ℕ} (t : Token) (s : Shunting) → Early k (round_operator expr t s)
  unfolding round_operator
  Early-round_operator t s =
      Early-after _ _ (Late-push_operator (full_operator s.expect_unary t) s)
        λ pushed. Early-bind _ _ Early-consume_token λ u j r. Late-pure (again pushed)

  Early-round_operand :
      {k : ℕ} (num : Numerals) (t : Token) (s : Shunting) → Early k (round_operand expr num t s)
  unfolding round_operand
  Early-round_operand num t s =
      Early-bind _ _ (Early-parse_operand num t) λ e j r. Late-pure (again (push_operand e s))

  Moves-round_close : (s : Shunting) (ts : List Token) → Moves s ts (round_close expr s ts)
  unfolding round_close
  Moves-round_close s ts = split (has_parenthesis s.ops)
    where
      close : Parser Round
      close = consume_token >> lift (apply_to_parenthesis s.ops s.out) >>= λ stacks.
          pure (again (record s { ops = stacks.0; out = stacks.1; expect_unary = false }))

      closes : Early (length ts) close
      closes =
          Early-bind _ _
            (Early-bind _ _ Early-consume_token
              λ u j r. Looks-Late (Looks-lift _ (Settled-apply_to_parenthesis s.ops s.out)))
            λ stacks j r.
              Late-pure (again (record s { ops = stacks.0; out = stacks.1; expect_unary = false }))

      split : (b : Bool) → Moves s ts (choose b close (pure (stop s)) ts)
      split true = Leaves-Moves s ts (closes.at ts (omega arith))
      split false = stays

module _ (k : ℕ) (expr : Parser ParsedExpr) (e : Early k expr) where
  arguments :
      (left close : Bytes) {j : ℕ}
      → j < suc (suc k)
      → Early j (parse_expression_list expr left close)
  arguments left close h =
      Early-le (omega (arith, h)) (Early-parse_expression_list k expr e left close)

  Early-round_new : (s : Shunting) → Early (suc k) (round_new expr s)
  unfolding round_new
  Early-round_new s =
      Early-bind _ _
        (Early-bind _ _ Early-consume_token λ u j r. Early-Late (Early-expect_kind identifier))
        λ name j r.
          Late-bind _ _ (Early-Late (arguments _ _ (omega (arith, r))))
            λ args. Late-pure (again (push_operand (new_object name.value args) s))

  Early-round_bracket : (s : Shunting) → Early (suc k) (round_bracket expr s)
  unfolding round_bracket
  Early-round_bracket s =
      Early-choose s.at_start _ _
        (Early-bind _ _ (arguments _ _ (omega arith))
          λ elements j r. Late-pure (again (push_operand (object (indexed_members 0 elements)) s)))
        (Early-bind _ _
          (Early-bind _ _ Early-consume_token λ u j r. Early-Late (Early-le (omega (arith, r)) e))
          λ i j r.
            Late-bind _ _
              (Late-bind _ _ (Early-Late (Early-expect_token _ _))
                λ u. Looks-Late (Looks-lift _ (Settled-apply_higher (codes "[]") s.ops s.out)))
              λ stacks. Late-index_step i stacks)

  Early-round_brace : (s : Shunting) → Early (suc k) (round_brace expr s)
  unfolding round_brace
  Early-round_brace s =
      Early-bind _ _
        (Early-bind _ _ Early-consume_token
          λ u j r. Late-le (omega (arith, r)) (Late-parse_members k expr e))
        λ ms j r. Late-pure (again (record s { out = object ms ∷ s.out; expect_unary = false }))

  Early-open_step : (s : Shunting) (out : List ParsedExpr) → Early (suc k) (open_step expr s out)
  Early-open_step s [] = Early-open_group s
  Early-open_step s (callee ∷ out) = Early-choose s.expect_unary _ _ (Early-open_group s) (
      Early-bind _ _ (arguments _ _ (omega arith)) λ args j r.
        Late-bind _ _ (Looks-Late (Looks-lift _ (Settled-call_of args callee)))
          λ made. Late-pure (again (push_operand made (record s { out = out }))))

  Early-round_named_call : (t : Token) (s : Shunting) → Early (suc k) (round_named_call expr t s)
  unfolding round_named_call
  Early-round_named_call t s =
      Early-bind _ _
        (Early-bind _ _ Early-consume_token λ u j r. Early-Late (arguments _ _ (omega (arith, r))))
        λ args j r.
          Late-pure (again (record s { out = call t.value args ∷ s.out; expect_unary = false }))

  Moves-round_at :
      (num : Numerals) (t : Token) (s : Shunting) (start : Start) (ts : List Token)
      → length ts ≤ suc k
      → Moves s ts (round_at expr num t s start ts)
  unfolding round_at round_open
  Moves-round_at num t s at_new ts l = Leaves-Moves s ts ((Early-round_new s).at ts l)
  Moves-round_at num t s at_bracket ts l = Leaves-Moves s ts ((Early-round_bracket s).at ts l)
  Moves-round_at num t s at_brace ts l = Leaves-Moves s ts ((Early-round_brace s).at ts l)
  Moves-round_at num t s at_arrow ts l = Leaves-Moves s ts ((Early-round_arrow expr s).at ts l)
  Moves-round_at num t s at_namespace ts l =
      Leaves-Moves s ts ((Early-round_namespace expr t s).at ts l)
  Moves-round_at num t s at_close ts l = Moves-round_close expr s ts
  Moves-round_at num t s at_open ts l = Leaves-Moves s ts ((Early-open_step s s.out).at ts l)
  Moves-round_at num t s at_named_call ts l =
      Leaves-Moves s ts ((Early-round_named_call t s).at ts l)
  Moves-round_at num t s at_operator ts l =
      Leaves-Moves s ts ((Early-round_operator expr t s).at ts l)
  Moves-round_at num t s at_operand ts l =
      Leaves-Moves s ts ((Early-round_operand expr num t s).at ts l)
  Moves-round_at num t s at_other ts l = stays

  pub Moves-round :
      (num : Numerals) (s : Shunting) (ts : List Token)
      → length ts ≤ suc k
      → Moves s ts (round num expr s ts)
  unfolding round current_token peek_token
  Moves-round num s [] l = breaks
  Moves-round num s (t ∷ []) l = Moves-round_at num t s (start_of t t) (t ∷ []) l
  Moves-round num s (t ∷ u ∷ rest) l = Moves-round_at num t s (start_of t u) (t ∷ u ∷ rest) l
