-- ===== src/Lexer/Literals/RoundTrip.antt =====
-- `nextToken` on a string literal.
use voidscript.Base.Loops.{loop}
use voidscript.Base.{
  ℕ, zero, suc, ◌+◌, ◌≤◌, ◌≡◌, refl, ap, Option, none, Bytes, length, arith, inl, inr, [], ◌∷◌,
  ◌++◌, drop, length-append,
}
use voidscript.Lexer.Advances.{position-advance}
use voidscript.Lexer.Cursors.{
  Cursor, advance, create_token, skip_body, skip_whitespace_and_comments,
}
use voidscript.Lexer.Literals.{
  escape, IsQuote, Rest, Rest-peek, Rest-advance, Rest-is_at_end, length-drop, loop-Closes, closed,
}
use voidscript.Lexer.Matchers.{Literal, literal_end, match_string_literal, match_token, next_token}
use voidscript.Lexer.Tokens.{string_literal}

length-escape : (q : ℕ) (s : Bytes) → length s ≤ length (escape q s)
unfolding escape
length-escape q [] = omega arith
length-escape q (c ∷ s) = ground (arith, length-escape q s)

module _ (input : Bytes) (q : ℕ) (quote : IsQuote q) where
  -- The cursor stands at a quoted text, and what follows it is `post`.
  abbrev pub AtLiteral : Cursor → Bytes → Bytes → Type 0
  AtLiteral s body post = Rest input s (q ∷ (escape q body ++ q ∷ post))

  pub skip-quote : (s : Cursor) (rest : Bytes) → Rest input s (q ∷ rest) → skip_body input s ≡ none
  skip-quote s rest h = elim quote [
    | inl e ↦ rw (Rest-is_at_end input s q rest h, Rest-peek input s q rest h, e) refl
    | inr e ↦ rw (Rest-is_at_end input s q rest h, Rest-peek input s q rest h, e) refl
  ]

  pub loop-none {ℓ} :
      {A : Type ℓ} (body : A → Option A) (fuel : ℕ) (a : A) → body a ≡ none → loop body fuel a ≡ a
  unfolding loop
  loop-none body zero a e = refl
  loop-none body (suc fuel) a e = rw (e, loop) refl

  pub match_token-quote :
      (s : Cursor) (rest : Bytes)
      → Rest input s (q ∷ rest)
      → match_token input s ≡ match_string_literal input s.position s
  unfolding match_token
  match_token-quote s rest h = elim quote [
    | inl e ↦ rw (Rest-is_at_end input s q rest h, Rest-peek input s q rest h, e) refl
    | inr e ↦ rw (Rest-is_at_end input s q rest h, Rest-peek input s q rest h, e) refl
  ]

  -- The literal that the lexer reads, and the place after it.
  abbrev Reads : Cursor → Bytes → Bytes → Type 0
  Reads s body post =
      (l : Literal) × (literal_end input s ≡ l)
      × (l.text ≡ body)
      × Rest input l.cursor post
      × (l.cursor.position ≡ s.position + length (escape q body) + 2)
      × (l.cursor.position ≤ length input)

  size-literal :
      (s : Cursor) (body post : Bytes)
      → AtLiteral s body post
      → length input ≡ s.position + length (escape q body) + 2 + length post
  size-literal s body post h =
      let e : length (drop s.position input) ≡ suc (length (escape q body ++ q ∷ post)) =
        ap length h in
      omega (arith, e, length-drop input s.position, length-append (escape q body) (q ∷ post))

  literal_end-Reads : (s : Cursor) (body post : Bytes) → AtLiteral s body post → Reads s body post
  unfolding literal_end
  literal_end-Reads s body post h =
      let rest = escape q body ++ q ∷ post in
      let fits = size-literal s body post h in
      let (last, e, after, moved) =
        loop-Closes input q quote (length input + 1) (advance input s) [] body post
          (omega (arith, fits, length-escape q body)) (Rest-advance input s q rest h) in
      let place : last.position ≡ s.position + length (escape q body) + 2 =
        omega (arith, moved, position-advance input s) in
      (
        closed input q quote last body,
        rw (Rest-peek input s q rest h, e) refl,
        refl,
        after,
        place,
        omega (arith, place, fits),
      )

  -- At a text that stands between two quotes of one kind, each of its quotes of that kind and of
  -- its backslashes after a backslash, the next token is a string literal whose value is the
  -- text. It ends behind the closing quote, and the input from there on is what followed.
  pub next_token-escape :
      (s : Cursor) (body post : Bytes)
      → AtLiteral s body post
      → ((next_token input s).0.kind ≡ string_literal)
        × ((next_token input s).0.value ≡ body)
        × ((next_token input s).0.start_pos ≡ s.position)
        × ((next_token input s).0.end_pos ≡ s.position + length (escape q body) + 2)
        × Rest input (next_token input s).1 post
  unfolding next_token
  next_token-escape s body post h =
      let rest = escape q body ++ q ∷ post in
      let (l, e, text, after, place, inside) = literal_end-Reads s body post h in
      let at_start : skip_whitespace_and_comments input s ≡ s =
        unfold skip_whitespace_and_comments in
        loop-none (skip_body input) (length input) s (skip-quote s rest h) in
      rw (at_start, match_token-quote s rest h)
        (unfold match_string_literal create_token in
          rw e (refl, ground (arith, text, place, inside), refl, place, after))
