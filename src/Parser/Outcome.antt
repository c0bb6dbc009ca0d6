-- ===== src/Parser/Outcome.antt =====
-- How a routine of src/Parser ends: with a result, by an exception, or without fuel. The place in
-- the file that an exception tells is left out.
use voidscript.Base.{ℕ, String, Bool, List, Bytes, if◌then◌else◌}
use voidscript.Lexer.Tokens.{Token, TokenType}

-- `syntax` is a `Parser::Exception` with its text, `unexpected` one of `expect` with the token that
-- was expected, `at_operator` one that names an operator, and `standard` a `std::runtime_error`.
pub data ParseError : Type 0 where
  syntax standard : String → ParseError
  unexpected : TokenType → Bytes → ParseError
  at_operator : String → Bytes → ParseError
  queue_size : ℕ → ParseError

pub data Parsed (A : Type 0) : Type 0 where
  parsed : A → Parsed A
  failed : ParseError → Parsed A
  out_of_fuel : Parsed A

-- A parser takes the tokens from the current one on, and gives those that it leaves.
abbrev pub Parser : Type 0 → Type 0
Parser A = List Token → Parsed (A × List Token)

abbrev pub then_parse :
    {A B : Type 0} → Parsed (A × List Token) → (A → Parser B) → Parsed (B × List Token)
then_parse (parsed (a, rest)) f = f a rest
then_parse (failed e) f = failed e
then_parse out_of_fuel f = out_of_fuel

infixl 5 ◌>>=◌ ◌>>◌
abbrev pub ◌>>=◌ : {A B : Type 0} → Parser A → (A → Parser B) → Parser B
◌>>=◌ p f ts = then_parse (p ts) f

abbrev pub ◌>>◌ : {A B : Type 0} → Parser A → Parser B → Parser B
p >> q = p >>= λ _. q

abbrev pub pure : {A : Type 0} → A → Parser A
pure a ts = parsed (a, ts)

-- `reportError`
abbrev pub fail : {A : Type 0} → ParseError → Parser A
fail e ts = failed e

-- A step that reads no token.
abbrev pub lift : {A : Type 0} → Parsed A → Parser A
lift (parsed a) = pure a
lift (failed e) = fail e
lift out_of_fuel = λ ts. out_of_fuel

-- Both branches wait.
abbrev pub choose : {A : Type 0} → Bool → Parser A → Parser A → Parser A
choose b p q ts = if b then p ts else q ts
