-- ===== src/Lexer/Matched.antt =====
-- What `nextToken` gives: a token from the cursor to a later one, or the last token at the end.
use mathlib.Core.Path.{subst}
use voidscript.Base.Dict.{Dict, lookup}
use voidscript.Base.{
  ℕ, Bool, true, false, not, ◌&&◌, ◌||◌, ◌≡◌, refl, Option, none, some, Bytes, List, ◌==◌,
  if◌then◌else◌, arith, inl, inr, Bool-cases, Option-cases, [], ◌∷◌, bytes_eq,
}
use voidscript.Lexer.Advances.{Advances, stay, move, run-Advances, literal_end-Advances}
use voidscript.Lexer.Cursors.{Cursor, peek, is_at_end, advance, run, create_token}
use voidscript.Lexer.Matchers.{
  match_identifier_or_keyword, match_number, name_type, type_or_unknown, match_string_literal,
  match_one_char, match_operator_or_punctuation, match_token, two_char_type, is_name_byte,
  or_unknown,
}
use voidscript.Lexer.Progress.{run-progress, number-progress, starts_number}
use voidscript.Lexer.Tables.{
  keywords, operators, has_byte, match_from_vector, first_match, two_char_op_types,
  one_char_op_types,
}
use voidscript.Lexer.Tokens.{
  TokenType, Token, is_alpha, identifier, variable_identifier, number, string_literal, unknown,
  is_eof,
}

-- A type that a token other than the last has.
abbrev pub IsInner : TokenType → Type 0
IsInner t = is_eof t ≡ false

abbrev AllInner : Option TokenType → Type 0
AllInner none = Unit
AllInner (some t) = IsInner t

abbrev all_inner {ℓ} : {A : Type ℓ} → List (A × TokenType) → Bool
all_inner [] = true
all_inner ((k, t) ∷ rest) = not (is_eof t) && all_inner rest

lookup-AllInner : (v : Bytes) (d : Dict TokenType) → all_inner d ≡ true → AllInner (lookup v d)
unfolding lookup
lookup-AllInner v [] h = tt
lookup-AllInner v ((k, t) ∷ rest) h = elim (Bool-cases (bytes_eq k v)) [
  | inl e ↦ rw e (ground arith)
  | inr e ↦ rw e (lookup-AllInner v rest (ground arith))
]

first_match-AllInner :
    (v : Bytes) (d : List (List Bytes × TokenType))
    → all_inner d ≡ true
    → AllInner (first_match d v)
unfolding first_match
first_match-AllInner v [] h = tt
first_match-AllInner v ((k, t) ∷ rest) h = elim (Bool-cases (match_from_vector k v)) [
  | inl e ↦ rw e (ground arith)
  | inr e ↦ rw e (first_match-AllInner v rest (ground arith))
]

module _ (input : Bytes) where
  -- A token and the cursor after it: the token ends at that cursor, and at least one byte after
  -- the cursor where it starts.
  pub data Matched : Cursor → Token × Cursor → Type 0 where
    created :
        {s after : Cursor} (t : TokenType) (v : Bytes)
        → IsInner t
        → Advances input (advance input s) after
        → Matched s (create_token input t s.position after.position v after, after)

  Matched-if :
      (s : Cursor) (b : Bool) (x y : Token × Cursor)
      → (b ≡ true → Matched s x)
      → (b ≡ false → Matched s y)
      → Matched s (if b then x else y)
  Matched-if s true x y p q = p refl
  Matched-if s false x y p q = q refl

  type_or_unknown-IsInner :
      (v : Bytes) (t : TokenType)
      → ((w : Bytes) → IsInner (name_type t w))
      → IsInner (type_or_unknown t v)
  type_or_unknown-IsInner [] t h = refl
  type_or_unknown-IsInner (c ∷ v) t h = h (c ∷ v)

  identifier-IsInner : (w : Bytes) → IsInner (name_type identifier w)
  unfolding name_type
  identifier-IsInner w = elim (Option-cases (lookup w keywords)) [
    | inl e ↦ rw e refl
    | inr (t, e) ↦ rw e (rw e at (lookup-AllInner w keywords refl))
  ]

  variable_identifier-IsInner : (w : Bytes) → IsInner (name_type variable_identifier w)
  unfolding name_type
  variable_identifier-IsInner w = refl

  or_unknown-IsInner : (o : Option TokenType) → AllInner o → IsInner (or_unknown o)
  or_unknown-IsInner none h = refl
  or_unknown-IsInner (some t) h = h

  name-Matched :
      (t : TokenType) (s from : Cursor)
      → ((w : Bytes) → IsInner (name_type t w))
      → Advances input (advance input s) (run input is_name_byte from)
      → Matched s (match_identifier_or_keyword input t s.position from)
  unfolding match_identifier_or_keyword
  name-Matched t s from inner moved = created _ [] (type_or_unknown-IsInner _ t inner) moved

  one_char-Matched :
      (c : ℕ) (s : Cursor) → Matched s (match_one_char input c s.position (advance input s))
  unfolding match_one_char
  one_char-Matched c s =
      Matched-if s _ _ _
        (λ _.
          name-Matched variable_identifier s (advance input s) variable_identifier-IsInner
            (run-Advances input is_name_byte _))
        (λ _.
          created (or_unknown (first_match one_char_op_types (c ∷ []))) []
            (or_unknown-IsInner _ (first_match-AllInner (c ∷ []) one_char_op_types refl)) stay)

  two_char_type-AllInner : (c : ℕ) (s : Cursor) → AllInner (two_char_type input c s)
  two_char_type-AllInner c s = elim (Bool-cases (is_at_end input s)) [
    | inl e ↦ rw e tt
    | inr e ↦ rw e (first_match-AllInner (c ∷ peek input s 0 ∷ []) two_char_op_types refl)
  ]

  operator-Matched : (s : Cursor) → Matched s (match_operator_or_punctuation input s.position s)
  unfolding match_operator_or_punctuation
  operator-Matched s =
      let next = advance input s in
      let c = peek input s 0 in
      elim (Option-cases (two_char_type input c next)) [
        | inl e ↦ rw (e, match_operator_or_punctuation) (one_char-Matched c s)
        | inr (t, e) ↦
            rw (e, match_operator_or_punctuation)
              (created t [] (subst AllInner e (two_char_type-AllInner c next)) (move stay))
      ]

  number-Matched :
      (s : Cursor)
      → is_at_end input s ≡ false
      → starts_number input s ≡ true
      → Matched s (match_number input s.position s)
  unfolding match_number
  number-Matched s h e = created number [] refl (number-progress input s h e)

  literal-Matched : (s : Cursor) → Matched s (match_string_literal input s.position s)
  unfolding match_string_literal
  literal-Matched s = created string_literal _ refl (literal_end-Advances input s)

  other-Matched :
      (s : Cursor)
      → Matched s (
        create_token input unknown s.position (advance input s).position [] (advance input s),
        advance input s,
      )
  other-Matched s = created unknown [] refl stay

  abbrev starts_name : Cursor → Bool
  starts_name s = is_alpha (peek input s 0) || peek input s 0 == b'_'

  pub token-Matched : (s : Cursor) → is_at_end input s ≡ false → Matched s (match_token input s)
  unfolding match_token
  token-Matched s h =
      Matched-if s (is_at_end input s) _ _ (λ e. absurd (ground arith))
        (λ _.
          Matched-if s (starts_name s) _ _
            (λ e.
              name-Matched identifier s s identifier-IsInner
                (run-progress input is_name_byte s h (ground arith)))
            (λ _. Matched-if s _ _ _ (number-Matched s h) (λ _.
              Matched-if s (peek input s 0 == 34 || peek input s 0 == 39) _ _
                (λ _. literal-Matched s)
                (λ _.
                  Matched-if s (has_byte operators (peek input s 0)) _ _ (λ _. operator-Matched s)
                    (λ _. other-Matched s)))))
