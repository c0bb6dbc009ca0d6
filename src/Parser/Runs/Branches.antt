-- ===== src/Parser/Runs/Branches.antt =====
-- The branch of the loop of `parseParsedExpression` (src/Parser/Parser.cpp) that a token of the grammar takes.
use voidscript.Base.{◌≡◌, refl, Bool, true, false, List, [], ◌∷◌, Bytes, codes}
use voidscript.Lexer.Tokens.{Token, is_eof, punctuation, operator_arithmetic}
use voidscript.Parser.Cursor.{consume_token}
use voidscript.Parser.Grammar.{
  Place, token, Infix, or, Prefix, neg, infix_kind, infix_text, prefix_text,
}
use voidscript.Parser.Outcome.{parsed}
use voidscript.Parser.Shunting.{Shunting, at_close, at_operator, start_of, full_operator}
use voidscript.Parser.Stacks.{prefix_operator}
use voidscript.Parser.Syntax.{ParsedExpr}

abbrev pub state : List Bytes → List ParsedExpr → Bool → Bool → Shunting
state ops out u a = record { ops = ops; out = out; expect_unary = u; at_start = a }

pub consume_ok :
    (t : Token) (rest : List Token)
    → is_eof t.kind ≡ false
    → consume_token (t ∷ rest) ≡ parsed (t, rest)
unfolding consume_token
consume_ok t [] e = rw e refl
consume_ok t (u ∷ rest) e = refl

pub start_of-punctuation_close :
    (p : Place) (next : Token) → start_of (token p punctuation (codes ")")) next ≡ at_close
unfolding start_of
start_of-punctuation_close p next = refl

pub start_of-infix :
    (p : Place) (o : Infix) (next : Token)
    → start_of (token p (infix_kind o) (infix_text o)) next ≡ at_operator
unfolding start_of
start_of-infix p or next = refl
start_of-infix p _ next = refl

pub start_of-prefix :
    (p : Place) (o : Prefix) (next : Token)
    → start_of (token p operator_arithmetic (prefix_text o)) next ≡ at_operator
unfolding start_of
start_of-prefix p neg next = refl
start_of-prefix p _ next = refl

pub full_operator-infix :
    (p : Place) (o : Infix)
    → full_operator false (token p (infix_kind o) (infix_text o)) ≡ infix_text o
unfolding full_operator
full_operator-infix p or = refl
full_operator-infix p _ = refl

pub full_operator-prefix :
    (p : Place) (o : Prefix)
    → full_operator true (token p operator_arithmetic (prefix_text o)) ≡ prefix_operator o
unfolding full_operator
full_operator-prefix p neg = refl
full_operator-prefix p _ = refl

pub infix-is_eof : (o : Infix) → is_eof (infix_kind o) ≡ false
infix-is_eof or = refl
infix-is_eof _ = refl
