-- ===== src/Tests/ParserTests.antt =====
-- Expressions from their text to their trees: src/Lexer/Lexer.cpp and src/Parser/Parser.cpp.
use voidscript.Base.{
  ◌+◌, List, [], ◌∷◌, ◌++◌, none, some, codes, Bytes, length, ◌≡◌, refl, ◌≤◌, arith, inl,
}
use voidscript.Base.Int.{pos, negsuc}
use voidscript.Lexer.Cursors.{start_cursor, advance, peek, is_at_end}
use voidscript.Lexer.Tokenize.{token_loop}
use voidscript.Lexer.Tokens.{Token, punctuation, identifier, end_of_file}
use voidscript.Parser.Cursor.{is_token}
use voidscript.Parser.Expression.{parse_expression}
use voidscript.Parser.Grammar as Grammar
use voidscript.Parser.Grammar.{
  Place, token, add, neg, name_atom, number_atom, Tree, Phrase, atom, group, prefix, infix_of,
  element, call_of, simple, conditional, given, item, last_item, phrase_tokens, phrase_meaning,
  IsGroupedPhrase, phrase_size,
}
use voidscript.Parser.Halts.{Leaves}
use voidscript.Parser.Halts.Whole.{parse_expression-Leaves}
use voidscript.Parser.Interpolation.RoundTrip.{interpolate-body_of}
use voidscript.Parser.Interpolation.Pieces.{Segment, body_of, meaning_of, AreClosed}
use voidscript.Parser.Interpolation.{interpolate}
use voidscript.Parser.Items.{IsEnd, end_at}
use voidscript.Parser.Reads.{parse_expression-phrase}
use voidscript.Parser.Shunting.{start_of}
use voidscript.Parser.Literals.RoundTrip.{from_string-to_string}
use voidscript.Value.Print.{to_string}
use voidscript.Parser.Literals.{from_string, Numerals}
use voidscript.Parser.Outcome.{Parsed, parsed, failed, out_of_fuel, queue_size, at_operator, syntax}
use voidscript.Parser.Syntax.{
  ParsedExpr, literal, variable, binary, unary, ternary, call, no_args, arg, object, member_of,
  no_members,
}
use voidscript.Tests.InterpreterTests.{zero_floats}
use voidscript.Value.{integer, string}

abbrev zero_numerals : Numerals
zero_numerals = record { floats = zero_floats; stod = λ s. none }

tokens_of : Bytes → List Token
unfolding token_loop
tokens_of text = elim (token_loop text (length text + 2) start_cursor) [
  | none ↦ []
  | some (ts, s) ↦ ts
]

abbrev tree_of : Parsed (ParsedExpr × List Token) → Parsed ParsedExpr
tree_of (parsed (e, rest)) = parsed e
tree_of (failed e) = failed e
tree_of out_of_fuel = out_of_fuel

parse_text : Bytes → Parsed ParsedExpr
unfolding tokens_of parse_expression
parse_text text = tree_of (parse_expression zero_numerals 20 (tokens_of text))

-- `*` binds more tightly than `+`, and `-` groups to the left.
parse_precedence :
    parse_text (codes "$a + $b * $c - $d;")
    ≡ parsed (
        binary
          (codes "-")
          (binary
            (codes "+")
            (variable (codes "a"))
            (binary (codes "*") (variable (codes "b")) (variable (codes "c"))))
          (variable (codes "d")))
unfolding parse_text is_at_end peek advance is_token
parse_precedence = refl

-- The conditional groups to the right.
parse_conditional_right :
    parse_text (codes "$a ? 1 : $b ? 2 : 3")
    ≡ parsed (
        ternary
          (variable (codes "a"))
          (literal (integer (pos 1)))
          (ternary (variable (codes "b")) (literal (integer (pos 2))) (literal (integer (pos 3)))))
unfolding parse_text is_at_end peek advance is_token
parse_conditional_right = refl

-- A number with a prefix.
parse_hexadecimal :
    parse_text (codes "-0xFF") ≡ parsed (unary (codes "-") (literal (integer (pos 255))))
unfolding parse_text is_at_end peek advance is_token
parse_hexadecimal = refl

-- An index takes the member access before it as its operand.
parse_member_index :
    parse_text (codes "$q->outputs[0]")
    ≡ parsed (
        binary
          (codes "[]")
          (binary (codes "->") (variable (codes "q")) (variable (codes "outputs")))
          (literal (integer (pos 0))))
unfolding parse_text is_at_end peek advance is_token
parse_member_index = refl

-- A text with a variable in it.
parse_interpolated :
    parse_text (codes "\"n: $n\"")
    ≡ parsed (
        binary
          (codes "+")
          (binary (codes "+") (literal (string [])) (literal (string (codes "n: "))))
          (variable (codes "n")))
unfolding parse_text is_at_end peek advance is_token
parse_interpolated = refl

-- A method call is `->` with a call on its right; a comma may follow the last argument.
parse_method :
    parse_text (codes "$o->m(1,)")
    ≡ parsed (
        binary
          (codes "->")
          (variable (codes "o"))
          (call (codes "m") (arg (literal (integer (pos 1))) no_args)))
unfolding parse_text is_at_end peek advance is_token
parse_method = refl

-- An object literal.
parse_object :
    parse_text (codes "{ int $k: 1, j: 2 }")
    ≡ parsed (
        object (
          member_of
            (codes "k")
            (literal (integer (pos 1)))
            (member_of (codes "j") (literal (integer (pos 2))) no_members)))
unfolding parse_text is_at_end peek advance is_token
parse_object = refl

-- The result of a call cannot be indexed at the start of an expression.
parse_call_index : parse_text (codes "foo(1)[0];") ≡ failed (queue_size 2)
unfolding parse_text is_at_end peek advance is_token
parse_call_index = refl

-- A `-` after a postfix operator is read as a prefix operator.
parse_postfix_minus : parse_text (codes "$i++ - 1;") ≡ failed (queue_size 2)
unfolding parse_text is_at_end peek advance is_token
parse_postfix_minus = refl

-- A postfix operator takes the product before it as its operand.
parse_product_postfix :
    parse_text (codes "$a * $i++")
    ≡ parsed (unary (codes "++") (binary (codes "*") (variable (codes "a")) (variable (codes "i"))))
unfolding parse_text is_at_end peek advance is_token
parse_product_postfix = refl

-- An array literal after an operator is read as an index.
parse_array_after_operator :
    parse_text (codes "1 + [2]")
    ≡ failed (at_operator "Missing operands for binary operator" (codes "+"))
unfolding parse_text is_at_end peek advance is_token
parse_array_after_operator = refl

-- A conditional in parentheses is not read.
parse_grouped_conditional :
    parse_text (codes "($a ? 1 : 2)")
    ≡ failed (syntax "Mismatched opening parenthesis encountered on operator stack.")
unfolding parse_text is_at_end peek advance is_token
parse_grouped_conditional = refl

-- Of a literal that nothing closes the last character is lost.
interpolate_unterminated :
    interpolate (codes "\"$ab")
    ≡ some (binary (codes "+") (literal (string [])) (variable (codes "a")))
unfolding interpolate
interpolate_unterminated = refl

abbrev here : Place
here = record { start_pos = 0; end_pos = 0; line_number = 1; column_number = 1 }

-- foo($b, 2) + -$q->o[0] ? $a : (1)
sample_tree : Tree
sample_tree =
    infix_of
      (call_of here (codes "foo") here
        (given (
          item (simple (atom here (name_atom (codes "b")))) here
            (last_item (simple (atom here (number_atom (codes "2")))))))
        here)
      here add
      (prefix here neg (
        element (Grammar.member_of (atom here (name_atom (codes "q"))) here here (codes "o")) here
          (simple (atom here (number_atom (codes "0")))) here))

sample : Phrase
unfolding sample_tree
sample =
    conditional sample_tree here (simple (atom here (name_atom (codes "a")))) here
      (simple (group here (atom here (number_atom (codes "1"))) here))

abbrev semicolon : List Token
semicolon = token here punctuation (codes ";") ∷ token here end_of_file [] ∷ []

sample-IsGrouped : IsGroupedPhrase sample
unfolding IsGroupedPhrase sample
sample-IsGrouped = (
  (
    (refl, tt),
    (((refl, omega arith), tt, omega arith, refl), omega arith),
    omega arith,
    omega arith,
  ),
  refl,
  tt,
)

semicolon-IsEnd : IsEnd semicolon
unfolding start_of
semicolon-IsEnd = end_at (inl λ next. refl) refl

sample-fits : phrase_size sample ≤ 20
unfolding phrase_size sample
sample-fits = omega arith

parse_expression-phrase_example :
    parse_expression zero_numerals 20 (phrase_tokens sample semicolon)
    ≡ parsed (phrase_meaning zero_numerals sample, semicolon)
parse_expression-phrase_example =
    parse_expression-phrase zero_numerals 20 sample semicolon sample-IsGrouped sample-fits
      semicolon-IsEnd

-- foo ( , with nothing after it
abbrev broken : List Token
broken =
    token here identifier (codes "foo")
    ∷ token here punctuation (codes "(")
    ∷ token here punctuation (codes ",")
    ∷ token here end_of_file []
    ∷ []

parse_expression-Leaves_example : Leaves 4 (parse_expression zero_numerals 5 broken)
parse_expression-Leaves_example = parse_expression-Leaves zero_numerals 5 broken (omega arith)

from_string-to_string_example :
    from_string zero_numerals (to_string zero_floats (integer (negsuc 2147483647)))
    ≡ integer (negsuc 2147483647)
from_string-to_string_example = from_string-to_string zero_numerals (negsuc 2147483647) refl

-- "cost \$ ${num}!"
abbrev cost_segments : List Segment
cost_segments = record { text = codes "cost $ "; first = b'n'; others = codes "um" } ∷ []

cost_segments-AreClosed : AreClosed cost_segments
unfolding AreClosed
cost_segments-AreClosed = ((refl, (refl, (refl, tt))), tt)

interpolate-body_of_example :
    interpolate (b'"' ∷ (body_of cost_segments (codes "!") ++ b'"' ∷ []))
    ≡ meaning_of cost_segments (codes "!")
interpolate-body_of_example = interpolate-body_of cost_segments (codes "!") cost_segments-AreClosed
