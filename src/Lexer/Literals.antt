-- ===== src/Lexer/Literals.antt =====
-- String literals: what an escaped text is read back as.
pub mod RoundTrip
pub mod Unterminated
use mathlib.Core.List.{append-nil, append_assoc}
use voidscript.Base.Loops.{loop}
use voidscript.Base.{
  ℕ, zero, suc, ◌+◌, ◌-◌, ◌≤◌, ◌<◌, Bool, true, false, not, ◌&&◌, ◌||◌, ◌≡◌, refl, sym, ap, ◌∙◌,
  Option, none, some, Bytes, List, ◌==◌, leb, length, if◌then◌else◌, arith, inl, inr, ◌⊎◌,
  Bool-cases, [], ◌∷◌, ◌++◌, get_or, drop, length-append, drop-length-append,
}
use voidscript.Lexer.Advances.{position-advance}
use voidscript.Lexer.Cursors.{Cursor, peek, is_at_end, advance, create_token}
use voidscript.Lexer.Matchers.{
  Literal, literal_body, literal_end, match_string_literal, unescape_byte,
}
use voidscript.Lexer.Tokens.{TokenType, Token, string_literal}

-- A text inside the quotes `q`: a backslash before each quote and each backslash.
unfoldable pub escape : ℕ → Bytes → Bytes
escape q [] = []
escape q (c ∷ s) =
    let more = escape q s in if c == q || c == b'\\' then b'\\' ∷ c ∷ more else c ∷ more

-- A quote that opens a literal.
abbrev pub IsQuote : ℕ → Type 0
IsQuote q = (q ≡ b'"') ⊎ (q ≡ b'\'')

drop-suc : (s : Bytes) (p c : ℕ) (rest : Bytes) → drop p s ≡ c ∷ rest → drop (suc p) s ≡ rest
drop-suc [] zero c rest h = ground arith
drop-suc [] (suc p) c rest h = ground arith
drop-suc (x ∷ s) zero c rest h = ground arith
drop-suc (x ∷ s) (suc p) c rest h = drop-suc s p c rest h

get_or-drop : (s : Bytes) (p c : ℕ) (rest : Bytes) → drop p s ≡ c ∷ rest → get_or s p 0 ≡ c
get_or-drop [] zero c rest h = ground arith
get_or-drop [] (suc p) c rest h = ground arith
get_or-drop (x ∷ s) zero c rest h = ground arith
get_or-drop (x ∷ s) (suc p) c rest h = get_or-drop s p c rest h

pub length-drop : (s : Bytes) (p : ℕ) → length (drop p s) ≡ length s - p
length-drop s zero = omega arith
length-drop [] (suc p) = omega arith
length-drop (x ∷ s) (suc p) = omega (arith, length-drop s p)

module _ (input : Bytes) where
  -- The input from a cursor on.
  abbrev pub Rest : Cursor → Bytes → Type 0
  Rest s rest = drop s.position input ≡ rest

  pub Rest-peek : (s : Cursor) (c : ℕ) (rest : Bytes) → Rest s (c ∷ rest) → peek input s 0 ≡ c
  unfolding peek
  Rest-peek s c rest h =
      let e : s.position + 0 ≡ s.position = omega arith in
      rw e (get_or-drop input s.position c rest h)

  pub Rest-advance :
      (s : Cursor) (c : ℕ) (rest : Bytes) → Rest s (c ∷ rest) → Rest (advance input s) rest
  Rest-advance s c rest h = rw position-advance (drop-suc input s.position c rest h)

  pub Rest-is_at_end :
      (s : Cursor) (c : ℕ) (rest : Bytes) → Rest s (c ∷ rest) → is_at_end input s ≡ false
  unfolding is_at_end
  Rest-is_at_end s c rest h =
      let e : length (drop s.position input) ≡ suc (length rest) = ap length h in
      ground (arith, length-drop input s.position, e)

  module _ (q : ℕ) (quote : IsQuote q) where
    abbrev pub reading : Cursor → Bytes → Literal
    reading s text = record { cursor = s; text = text; is_done = false }

    abbrev pub closed : Cursor → Bytes → Literal
    closed s text = record { cursor = s; text = text; is_done = true }

    closed-stays :
        (fuel : ℕ) (s : Cursor) (text : Bytes)
        → loop (literal_body input q) fuel (closed s text) ≡ closed s text
    unfolding loop
    closed-stays zero s text = refl
    closed-stays (suc fuel) s text = refl

    body-quote :
        (s : Cursor) (text rest : Bytes)
        → Rest s (q ∷ rest)
        → literal_body input q (reading s text) ≡ some (closed (advance input s) text)
    body-quote s text rest h = ground (arith, Rest-peek s q rest h, Rest-is_at_end s q rest h)

    pub body-plain :
        (s : Cursor) (text rest : Bytes) (c : ℕ)
        → Rest s (c ∷ rest)
        → (c == q) ≡ false
        → (c == b'\\') ≡ false
        → literal_body input q (reading s text) ≡ some (reading (advance input s) (text ++ c ∷ []))
    body-plain s text rest c h n n' =
        rw (Rest-is_at_end s c rest h, Rest-peek s c rest h, n, n') refl

    backslash : (b'\\' == q) ≡ false
    backslash = elim quote [ inl e ↦ ground arith | inr e ↦ ground arith ]

    unescape_byte-escaped : (c : ℕ) → (c == q || c == b'\\') ≡ true → unescape_byte c ≡ c
    unescape_byte-escaped c e = elim quote [ inl e' ↦ ground arith | inr e' ↦ ground arith ]

    body-escaped :
        (s : Cursor) (text rest : Bytes) (c : ℕ)
        → Rest s (b'\\' ∷ c ∷ rest)
        → (c == q || c == b'\\') ≡ true
        → literal_body input q (reading s text)
          ≡ some (reading (advance input (advance input s)) (text ++ c ∷ []))
    body-escaped s text rest c h e =
        let next = advance input s in
        let c_next : peek input next 0 ≡ c =
          Rest-peek next c rest (Rest-advance s b'\\' (c ∷ rest) h) in
        rw
          (
            Rest-is_at_end s b'\\' (c ∷ rest) h,
            Rest-peek s b'\\' (c ∷ rest) h,
            c_next,
            backslash,
            unescape_byte-escaped c e,
          )
          refl

    -- The loop at a text that is escaped, and closed by the quote.
    abbrev pub Closes : ℕ → Cursor → Bytes → Bytes → Bytes → Type 0
    Closes fuel s text body post =
        (last : Cursor) × (loop (literal_body input q) fuel (reading s text)
          ≡ closed last (text ++ body))
        × Rest last post
        × (last.position ≡ s.position + length (escape q body) + 1)

    pub loop-one :
        (fuel : ℕ) (l m : Literal)
        → literal_body input q l ≡ some m
        → loop (literal_body input q) (suc fuel) l ≡ loop (literal_body input q) fuel m
    unfolding loop
    loop-one fuel l m e = rw (e, loop) refl

    -- The first byte of a body, escaped or not, before a rest that the loop closes.
    escaped-Closes :
        (fuel : ℕ) (s : Cursor) (text body post : Bytes) (c : ℕ)
        → (c == q || c == b'\\') ≡ true
        → Rest s (b'\\' ∷ c ∷ (escape q body ++ q ∷ post))
        → (Rest (advance input (advance input s)) (escape q body ++ q ∷ post)
            → Closes fuel (advance input (advance input s)) (text ++ c ∷ []) body post)
        → Closes (suc fuel) s text (c ∷ body) post
    unfolding escape
    escaped-Closes fuel s text body post c e h later =
        let next = advance input s in
        let rest = escape q body ++ q ∷ post in
        let (last, e', rest', moved) =
          later (Rest-advance next c rest (Rest-advance s b'\\' (c ∷ rest) h)) in
        (
          last,
          loop-one fuel (reading s text) _ (body-escaped s text rest c h e)
              ∙ e'
              ∙ ap (closed last) (append_assoc text (c ∷ []) body),
          rest',
          rw e (omega (arith, moved, position-advance input s, position-advance input next)),
        )

    plain-Closes :
        (fuel : ℕ) (s : Cursor) (text body post : Bytes) (c : ℕ)
        → (c == q || c == b'\\') ≡ false
        → Rest s (c ∷ (escape q body ++ q ∷ post))
        → (Rest (advance input s) (escape q body ++ q ∷ post)
            → Closes fuel (advance input s) (text ++ c ∷ []) body post)
        → Closes (suc fuel) s text (c ∷ body) post
    unfolding escape
    plain-Closes fuel s text body post c e h later =
        let rest = escape q body ++ q ∷ post in
        let (last, e', rest', moved) = later (Rest-advance s c rest h) in
        (
          last,
          loop-one fuel (reading s text) _
                (body-plain s text rest c h (ground arith) (ground arith))
              ∙ e'
              ∙ ap (closed last) (append_assoc text (c ∷ []) body),
          rest',
          rw e (omega (arith, moved, position-advance input s)),
        )

    pub loop-Closes :
        (fuel : ℕ) (s : Cursor) (text body post : Bytes)
        → length body < fuel
        → Rest s (escape q body ++ q ∷ post)
        → Closes fuel s text body post
    unfolding escape
    loop-Closes zero s text body post lt h = absurd (omega arith)
    loop-Closes (suc fuel) s text [] post lt h = (
      advance input s,
      loop-one fuel (reading s text) _ (body-quote s text post h)
          ∙ closed-stays fuel (advance input s) text
          ∙ ap (closed (advance input s)) (sym (append-nil text)),
      Rest-advance s q post h,
      omega (arith, position-advance input s),
    )
    loop-Closes (suc fuel) s text (c ∷ body) post lt h = elim (Bool-cases (c == q || c == b'\\')) [
      | inl e ↦ escaped-Closes fuel s text body post c e (rw e at h) (
          loop-Closes fuel (advance input (advance input s)) (text ++ c ∷ []) body post
            (omega arith))
      | inr e ↦
          plain-Closes fuel s text body post c e (rw e at h)
            (loop-Closes fuel (advance input s) (text ++ c ∷ []) body post (omega arith))
    ]
