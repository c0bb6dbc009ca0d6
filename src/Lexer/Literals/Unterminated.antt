-- ===== src/Lexer/Literals/Unterminated.antt =====
-- `nextToken` on a string literal that nothing closes.
use mathlib.Core.List.{append-nil, append_assoc}
use voidscript.Base.Loops.{loop}
use voidscript.Base.{
  ℕ, zero, suc, ◌+◌, ◌≤◌, ◌≡◌, false, true, refl, sym, ap, ◌∙◌, none, Bytes, ◌==◌, length, arith,
  [], ◌∷◌, ◌++◌, drop, All,
}
use voidscript.Lexer.Advances.{position-advance}
use voidscript.Lexer.Cursors.{
  Cursor, is_at_end, create_token, skip_body, skip_whitespace_and_comments, advance,
}
use voidscript.Lexer.Literals.RoundTrip.{skip-quote, loop-none, match_token-quote}
use voidscript.Lexer.Literals.{
  IsQuote, Rest, Rest-peek, Rest-advance, length-drop, reading, body-plain, loop-one,
}
use voidscript.Lexer.Matchers.{literal_body, literal_end, match_string_literal, next_token}
use voidscript.Lexer.Tokens.{string_literal}

-- A text with no quote of the one kind and no backslash.
abbrev pub IsPlain : ℕ → Bytes → Type 0
IsPlain q s = All (λ c. ((c == q) ≡ false) × ((c == b'\\') ≡ false)) s

module _ (input : Bytes) (q : ℕ) (quote : IsQuote q) where
  Rest-end : (s : Cursor) → Rest input s [] → is_at_end input s ≡ true
  unfolding is_at_end
  Rest-end s h =
      let e : length (drop s.position input) ≡ 0 = ap length h in
      ground (arith, length-drop input s.position, e)

  -- The loop reads up to the end of the input, and has met no quote there.
  abbrev RunsOut : ℕ → Cursor → Bytes → Bytes → Type 0
  RunsOut fuel s text body =
      (last : Cursor) × (loop (literal_body input q) fuel (reading input q quote s text)
        ≡ reading input q quote last (text ++ body))
      × (last.position ≡ s.position + length body)

  loop-RunsOut :
      (fuel : ℕ) (s : Cursor) (text body : Bytes)
      → length body ≤ fuel
      → Rest input s body
      → IsPlain q body
      → RunsOut fuel s text body
  loop-RunsOut fuel s text [] lt h plain =
      let stops : literal_body input q (reading input q quote s text) ≡ none =
        rw (Rest-end s h) refl in
      (
        s,
        loop-none input q quote (literal_body input q) fuel _ stops
            ∙ ap (reading input q quote s) (sym (append-nil text)),
        omega arith,
      )
  loop-RunsOut zero s text (c ∷ body) lt h plain = absurd (omega arith)
  loop-RunsOut (suc fuel) s text (c ∷ body) lt h ((n, n'), plain) =
      let (last, e, moved) =
        loop-RunsOut fuel (advance input s) (text ++ c ∷ []) body (omega arith)
          (Rest-advance input s c body h) plain in
      (
        last,
        loop-one input q quote fuel (reading input q quote s text) _
              (body-plain input q quote s text body c h n n')
            ∙ e
            ∙ ap (reading input q quote last) (append_assoc text (c ∷ []) body),
        omega (arith, moved, position-advance input s),
      )

  -- Where an opening quote is followed, up to the end of the input, by a text with no quote of its
  -- kind and no backslash, the next token is a string literal all the same: its value is the
  -- text, and it ends where the input does.
  pub next_token-unterminated :
      (s : Cursor) (body : Bytes)
      → Rest input s (q ∷ body)
      → IsPlain q body
      → ((next_token input s).0.kind ≡ string_literal)
        × ((next_token input s).0.value ≡ body)
        × ((next_token input s).0.end_pos ≡ length input)
  unfolding next_token
  next_token-unterminated s body h plain =
      let size : suc (length body) + s.position ≡ length input =
        omega (arith, ap length h, length-drop input s.position) in
      let (last, e, moved) =
        loop-RunsOut (length input + 1) (advance input s) [] body (omega (arith, size))
          (Rest-advance input s q body h) plain in
      let at_end : last.position ≡ length input =
        omega (arith, moved, size, position-advance input s) in
      let at_start : skip_whitespace_and_comments input s ≡ s =
        unfold skip_whitespace_and_comments in
        loop-none input q quote (skip_body input) (length input) s
          (skip-quote input q quote s body h) in
      let read : literal_end input s ≡ reading input q quote last body =
        unfold literal_end in rw (Rest-peek input s q body h, e) refl in
      rw (at_start, match_token-quote input q quote s body h)
        (unfold match_string_literal create_token in
          rw read (refl, ground (arith, at_end, size), at_end))
