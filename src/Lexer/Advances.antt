-- ===== src/Lexer/Advances.antt =====
-- Every operation of the lexer is a sequence of calls of `advance`.
use mathlib.Core.Path.{subst}
use voidscript.Base.Loops.{loop, loop-preserves}
use voidscript.Base.{
  ℕ, suc, ◌≤◌, Bool, true, false, not, ◌&&◌, ◌||◌, ◌≡◌, Option, none, some, Bytes, ◌==◌, length,
  if◌then◌else◌, arith,
}
use voidscript.Lexer.Cursors.{
  Cursor, peek, is_at_end, advance, run_body, run, skip_body, skip_whitespace_and_comments,
}
use voidscript.Lexer.Matchers.{
  Literal, digits_body, match_exponent, match_decimal, literal_body, literal_end,
}
use voidscript.Lexer.Tokens.{is_digit}

module _ (input : Bytes) where
  pub data Advances : Cursor → Cursor → Type 0 where
    stay : {s : Cursor} → Advances s s
    move : {s t : Cursor} → Advances (advance input s) t → Advances s t

  pub Advances-trans : {s t u : Cursor} → Advances s t → Advances t u → Advances s u
  Advances-trans stay q = q
  Advances-trans (move p) q = move (Advances-trans p q)

  pub Advances-end : {s t : Cursor} → Advances s t → Advances s (advance input t)
  Advances-end p = Advances-trans p (move stay)

  pub position-advance : (s : Cursor) → (advance input s).position ≡ suc s.position
  unfolding advance
  position-advance s = ground arith

  pub Advances-position : {s t : Cursor} → Advances s t → s.position ≤ t.position
  Advances-position {s = s} stay = omega arith
  Advances-position {s = s} (move p) = omega (arith, Advances-position p, position-advance s)

  -- What a round of a loop does to the cursor that is read from its state.
  abbrev pub Rounds {ℓ} : {A : Type ℓ} → (A → Cursor) → Cursor → Option A → Type 0
  Rounds cursor s none = Unit
  Rounds cursor s (some a) = Advances s (cursor a)

  pub Rounds-if {ℓ} :
      {A : Type ℓ} (cursor : A → Cursor) (s : Cursor) (b : Bool) (x y : Option A)
      → Rounds cursor s x
      → Rounds cursor s y
      → Rounds cursor s (if b then x else y)
  Rounds-if cursor s true x y p q = p
  Rounds-if cursor s false x y p q = q

  pub loop-Advances {ℓ} :
      {A : Type ℓ} (cursor : A → Cursor) (body : A → Option A)
      → ((a : A) → Rounds cursor (cursor a) (body a))
      → (fuel : ℕ) (a : A) → Advances (cursor a) (cursor (loop body fuel a))
  loop-Advances cursor body rounds fuel a =
      loop-preserves body (λ b. Advances (cursor a) (cursor b))
        (λ b c e q. Advances-trans q (subst (Rounds cursor (cursor b)) e (rounds b))) fuel a stay

  pub run-Advances : (p : ℕ → Bool) (s : Cursor) → Advances s (run input p s)
  unfolding run
  run-Advances p s =
      loop-Advances (λ t. t) (run_body input p)
        (λ t.
          Rounds-if (λ u. u) t (not (is_at_end input t) && p (peek input t 0)) _ _ (move stay) tt)
        (length input) s

  pub skip-Advances : (s : Cursor) → Advances s (skip_whitespace_and_comments input s)
  unfolding skip_whitespace_and_comments
  skip-Advances s =
      loop-Advances (λ t. t) (skip_body input)
        (λ t. search (Rounds-if, move, stay, run-Advances, tt) depth 20) (length input) s

  pub Advances-if :
      (s : Cursor) (b : Bool) (t u : Cursor)
      → Advances s t
      → Advances s u
      → Advances s (if b then t else u)
  Advances-if s true t u p q = p
  Advances-if s false t u p q = q

  pub exponent-Advances : (s : Cursor) → Advances s (match_exponent input s)
  unfolding match_exponent
  exponent-Advances s =
      Advances-if s _ _ _
        (Advances-trans
          (move (
            Advances-if (advance input s) (peek input s 1 == b'+' || peek input s 1 == b'-') _ _
              (move stay) stay))
          (run-Advances (λ c. is_digit c || c == b'_') _))
        stay

  pub digits-Advances :
      (fuel : ℕ) (s : Cursor) (dot : Bool) → Advances s (loop (digits_body input) fuel (s, dot)).0
  digits-Advances fuel s dot =
      loop-Advances (λ a. a.0) (digits_body input)
        (λ (t, d). search (Rounds-if, move, stay, tt) depth 20) fuel (s, dot)

  pub decimal-Advances : (s : Cursor) → Advances s (match_decimal input s)
  unfolding match_decimal
  decimal-Advances s = Advances-trans (digits-Advances (length input) s false) (exponent-Advances _)

  literal-Advances :
      (q : ℕ) (fuel : ℕ) (l : Literal)
      → Advances l.cursor (loop (literal_body input q) fuel l).cursor
  literal-Advances q fuel l =
      loop-Advances (λ a. a.cursor) (literal_body input q)
        (λ a. search (Rounds-if, move, stay, tt) depth 20) fuel l

  pub literal_end-Advances : (s : Cursor) → Advances (advance input s) (literal_end input s).cursor
  unfolding literal_end
  literal_end-Advances s = literal-Advances _ _ _
