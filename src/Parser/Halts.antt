-- ===== src/Parser/Halts.antt =====
-- Parsers that end: `Late k` ends on inputs of at most `k` tokens and leaves no more than it got,
-- `Early k` also consumes a token where it returns, and `Looks` consumes none.
pub mod Lists
pub mod Rounds
pub mod Steps
pub mod Whole
use voidscript.Base.{
  ℕ, zero, suc, ◌≤◌, ◌<◌, ◌≡◌, refl, Bool, true, false, List, [], ◌∷◌, arith, Bytes, length,
  if◌then◌else◌, String,
}
use voidscript.Lexer.Tokens.{Token, TokenType, is_eof}
use voidscript.Parser.Cursor.{
  current_token, peek_token, consume_token, expect_token, expect_kind, match_token, expect_name,
  is_at_end, identifier_name,
}
use voidscript.Parser.Outcome.{
  Parser, Parsed, parsed, failed, ParseError, then_parse, ◌>>=◌, pure, fail, lift, choose,
}

-- It ends, and leaves fewer than `n` tokens where it returns.
pub data Leaves {A : Type 0} (n : ℕ) : Parsed (A × List Token) → Type 0 where
  leaves : {a : A} {rest : List Token} → length rest < n → Leaves n (parsed (a, rest))
  fails : {e : ParseError} → Leaves n (failed e)

pub record Late {A : Type 0} (k : ℕ) (p : Parser A) : Type 0 where
  pub at : (ts : List Token) → length ts ≤ k → Leaves (suc (length ts)) (p ts)

pub record Early {A : Type 0} (k : ℕ) (p : Parser A) : Type 0 where
  pub at : (ts : List Token) → length ts ≤ k → Leaves (length ts) (p ts)

-- A parser that looks at the tokens only.
pub data Seen {A : Type 0} (ts : List Token) : Parsed (A × List Token) → Type 0 where
  seen : {a : A} → Seen ts (parsed (a, ts))
  unseen : {e : ParseError} → Seen ts (failed e)

pub record Looks {A : Type 0} (p : Parser A) : Type 0 where
  pub at : (ts : List Token) → Seen ts (p ts)

module _ {A : Type 0} where
  pub Leaves-le : {m n : ℕ} {o : Parsed (A × List Token)} → m ≤ n → Leaves m o → Leaves n o
  Leaves-le h (leaves l) = leaves (omega (arith, h, l))
  Leaves-le h fails = fails

  pub Early-le : {k m : ℕ} {p : Parser A} → m ≤ k → Early k p → Early m p
  Early-le h e = record { at = λ ts l. e.at ts (omega (arith, h, l)) }

  pub Late-le : {k m : ℕ} {p : Parser A} → m ≤ k → Late k p → Late m p
  Late-le h e = record { at = λ ts l. e.at ts (omega (arith, h, l)) }

  pub Early-Late : {k : ℕ} {p : Parser A} → Early k p → Late k p
  Early-Late e = record { at = λ ts l. Leaves-le (omega arith) (e.at ts l) }

  pub Looks-Late : {k : ℕ} {p : Parser A} → Looks p → Late k p
  Looks-Late {k} {p} e = record { at = λ ts l. go ts (e.at ts) }
    where
      go : (ts : List Token) {o : Parsed (A × List Token)} → Seen ts o → Leaves (suc (length ts)) o
      go ts seen = leaves (omega arith)
      go ts unseen = fails

  pub Late-pure : {k : ℕ} (a : A) → Late k (pure a)
  Late-pure a = record { at = λ ts l. leaves (omega arith) }

  pub Late-fail : {k : ℕ} (e : ParseError) → Late {A = A} k (fail e)
  Late-fail e = record { at = λ ts l. fails }

  pub Early-fail : {k : ℕ} (e : ParseError) → Early {A = A} k (fail e)
  Early-fail e = record { at = λ ts l. fails }

  pub Late-choose :
      {k : ℕ} (b : Bool) (p q : Parser A) → Late k p → Late k q → Late k (choose b p q)
  Late-choose true p q h l = h
  Late-choose false p q h l = l

  pub Early-choose :
      {k : ℕ} (b : Bool) (p q : Parser A) → Early k p → Early k q → Early k (choose b p q)
  Early-choose true p q h l = h
  Early-choose false p q h l = l

  module _ {B : Type 0} where
    pub Late-bind :
        {k : ℕ} (p : Parser B) (f : B → Parser A)
        → Late k p
        → ((b : B) → Late k (f b))
        → Late k (p >>= f)
    Late-bind {k} p f h next = record { at = λ ts l. go ts l (h.at ts l) }
      where
        go :
            (ts : List Token)
            → length ts ≤ k
            → {o : Parsed (B × List Token)} → Leaves (suc (length ts)) o
            → Leaves (suc (length ts)) (then_parse o f)
        go ts l (leaves {a = b} {rest} q) =
            Leaves-le (omega (arith, q)) ((next b).at rest (omega (arith, q, l)))
        go ts l fails = fails

    -- After a token was consumed there are fewer.
    pub Early-bind :
        {k : ℕ} (p : Parser B) (f : B → Parser A)
        → Early k p
        → ((b : B) (j : ℕ) → j < k → Late j (f b))
        → Early k (p >>= f)
    Early-bind {k} p f h next = record { at = λ ts l. go ts l (h.at ts l) }
      where
        go :
            (ts : List Token)
            → length ts ≤ k
            → {o : Parsed (B × List Token)} → Leaves (length ts) o
            → Leaves (length ts) (then_parse o f)
        go ts l (leaves {a = b} {rest} q) =
            Leaves-le (omega (arith, q))
              ((next b (length rest) (omega (arith, q, l))).at rest (omega arith))
        go ts l fails = fails

    pub Early-after :
        {k : ℕ} (p : Parser B) (f : B → Parser A)
        → Late k p
        → ((b : B) → Early k (f b))
        → Early k (p >>= f)
    Early-after {k} p f h next = record { at = λ ts l. go ts l (h.at ts l) }
      where
        go :
            (ts : List Token)
            → length ts ≤ k
            → {o : Parsed (B × List Token)} → Leaves (suc (length ts)) o
            → Leaves (length ts) (then_parse o f)
        go ts l (leaves {a = b} {rest} q) =
            Leaves-le (omega (arith, q)) ((next b).at rest (omega (arith, q, l)))
        go ts l fails = fails

    pub Looks-bind :
        {k : ℕ} (p : Parser B) (f : B → Parser A)
        → Looks p
        → ((b : B) → Early k (f b))
        → Early k (p >>= f)
    Looks-bind {k} p f h next = record { at = λ ts l. go ts l (h.at ts) }
      where
        go :
            (ts : List Token)
            → length ts ≤ k
            → {o : Parsed (B × List Token)} → Seen ts o
            → Leaves (length ts) (then_parse o f)
        go ts l (seen {a = b}) = (next b).at ts l
        go ts l unseen = fails

pub Looks-current_token : Looks current_token
unfolding current_token
Looks-current_token = record { at = λ ts. go ts }
  where
    go : (ts : List Token) → Seen ts (current_token ts)
    go [] = unseen
    go (t ∷ rest) = seen

pub Looks-peek_token : Looks peek_token
unfolding peek_token
Looks-peek_token = record { at = λ ts. go ts }
  where
    go : (ts : List Token) → Seen ts (peek_token ts)
    go [] = unseen
    go (t ∷ []) = seen
    go (t ∷ u ∷ rest) = seen

last : (t : Token) (e : ParseError) (b : Bool) → Leaves 1 (if b then failed e else parsed (t, []))
last t e true = fails
last t e false = leaves (omega arith)

pub Early-consume_token : {k : ℕ} → Early k consume_token
unfolding consume_token
Early-consume_token = record { at = λ ts l. go ts }
  where
    go : (ts : List Token) → Leaves (length ts) (consume_token ts)
    go [] = fails
    go (t ∷ []) = last t _ (is_eof t.kind)
    go (t ∷ u ∷ rest) = leaves (omega arith)

-- A test of the end of the input.
abbrev guarded : {A : Type 0} → Parser A → Parser A → Parser A
guarded p q ts = choose (is_at_end ts) p q ts

pub Early-guarded :
    {A : Type 0} {k : ℕ} (p q : Parser A) → Early k p → Early k q → Early k (guarded p q)
Early-guarded p q h l = record { at = λ ts m. (Early-choose (is_at_end ts) p q h l).at ts m }

pub Late-guarded :
    {A : Type 0} {k : ℕ} (p q : Parser A) → Late k p → Late k q → Late k (guarded p q)
Late-guarded p q h l = record { at = λ ts m. (Late-choose (is_at_end ts) p q h l).at ts m }

pub Early-expect_token :
    {k : ℕ} (kind : TokenType) (value : Bytes) → Early k (expect_token kind value)
unfolding expect_token
Early-expect_token kind value =
    Early-guarded _ _ (Early-fail _) (
      Looks-bind _ _ Looks-current_token λ t. Early-choose _ _ _ Early-consume_token (Early-fail _))

pub Early-expect_kind : {k : ℕ} (kind : TokenType) → Early k (expect_kind kind)
unfolding expect_kind
Early-expect_kind kind =
    Early-guarded _ _ (Early-fail _) (
      Looks-bind _ _ Looks-current_token λ t. Early-choose _ _ _ Early-consume_token (Early-fail _))

pub Late-match_token : {k : ℕ} (kind : TokenType) (value : Bytes) → Late k (match_token kind value)
unfolding match_token
Late-match_token kind value = Late-guarded _ _ (Late-pure false) (
    Late-bind _ _ (Looks-Late Looks-current_token) λ t.
      Late-choose _ _ _ (Late-bind _ _ (Early-Late Early-consume_token) λ u. Late-pure true)
        (Late-pure false))

pub Early-expect_name : {k : ℕ} (message : String) → Early k (expect_name message)
unfolding expect_name
Early-expect_name message = Looks-bind _ _ Looks-current_token λ t.
    Early-choose _ _ _
      (Early-bind _ _ Early-consume_token λ u j r. Late-pure (identifier_name u.value))
      (Early-fail _)

-- What `search` puts a parser together from.
pub ruleset halting = (
  Early-Late, Looks-Late, Late-pure, Late-fail, Early-fail, Late-choose, Early-choose, Late-bind,
  Early-bind, Looks-bind, Looks-current_token, Looks-peek_token, Early-consume_token,
  Early-expect_token, Early-expect_kind, Late-match_token, Early-expect_name,
)
