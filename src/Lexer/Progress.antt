-- ===== src/Lexer/Progress.antt =====
-- A token other than the last takes at least one byte of the input.
use voidscript.Base.Loops.{loop}
use voidscript.Base.{
  ℕ, zero, suc, ◌<◌, Bool, true, false, ◌&&◌, ◌||◌, ◌≡◌, refl, Option, some, Bytes, ◌==◌, length,
  arith, inl, inr, Bool-cases,
}
use voidscript.Lexer.Advances.{
  Advances, stay, move, Advances-trans, Advances-if, run-Advances, loop-Advances, Rounds, Rounds-if,
  exponent-Advances,
}
use voidscript.Lexer.Cursors.{Cursor, peek, is_at_end, advance, run_body, run}
use voidscript.Lexer.Matchers.{digits_body, match_decimal, number_end, is_base_digit, base_of}
use voidscript.Lexer.Tokens.{is_digit}

module _ (input : Bytes) where
  not_at_end : (s : Cursor) → is_at_end input s ≡ false → 0 < length input
  unfolding is_at_end
  not_at_end s h = ground arith

  -- A loop that makes its first round.
  loop-progress {ℓ} :
      {A : Type ℓ} (cursor : A → Cursor) (body : A → Option A)
      → ((a : A) → Rounds input cursor (cursor a) (body a))
      → (fuel : ℕ) (a b : A) → 0 < fuel
      → body a ≡ some b
      → Advances input (cursor b) (cursor (loop body fuel a))
  unfolding loop
  loop-progress cursor body rounds zero a b h e = absurd (omega arith)
  loop-progress cursor body rounds (suc fuel) a b h e =
      rw (e, loop) (loop-Advances input cursor body rounds fuel b)

  pub run-progress :
      (p : ℕ → Bool) (s : Cursor)
      → is_at_end input s ≡ false
      → p (peek input s 0) ≡ true
      → Advances input (advance input s) (run input p s)
  unfolding run
  run-progress p s h e =
      loop-progress (λ t. t) (run_body input p) (λ t. search (Rounds-if, move, stay, tt) depth 20)
        (length input) s (advance input s) (not_at_end s h) (rw (h, e) refl)

  -- Where a decimal number starts.
  abbrev pub starts_number : Cursor → Bool
  starts_number s =
      is_digit (peek input s 0) || (peek input s 0 == b'.' && is_digit (peek input s 1))

  abbrev AfterRound : Cursor → Option (Cursor × Bool) → Type 0
  AfterRound s o = (a : Cursor × Bool) × (o ≡ some a) × Advances input (advance input s) a.0

  digits-first :
      (s : Cursor)
      → is_at_end input s ≡ false
      → starts_number s ≡ true
      → AfterRound s (digits_body input (s, false))
  digits-first s h e = elim (Bool-cases (is_digit (peek input s 0))) [
    | inl d ↦ ((advance input s, false), rw (h, d) refl, stay)
    | inr d ↦ ((advance input (advance input s), true), ground arith, move stay)
  ]

  decimal-progress :
      (s : Cursor)
      → is_at_end input s ≡ false
      → starts_number s ≡ true
      → Advances input (advance input s) (match_decimal input s)
  unfolding match_decimal
  decimal-progress s h e =
      let (a, eq, moved) = digits-first s h e in
      Advances-trans input moved (
        Advances-trans input
          (loop-progress (λ b. b.0) (digits_body input)
            (λ (t, d). search (Rounds-if, move, stay, tt) depth 20) (length input) (s, false) a
            (not_at_end s h) eq)
          (exponent-Advances input _))

  pub number-progress :
      (s : Cursor)
      → is_at_end input s ≡ false
      → starts_number s ≡ true
      → Advances input (advance input s) (number_end input s)
  unfolding number_end
  number-progress s h e =
      Advances-if input _ _ _ _
        (move (run-Advances input (λ c. is_base_digit (base_of (peek input s 1)) c || c == b'_') _))
        (decimal-progress s h e)
