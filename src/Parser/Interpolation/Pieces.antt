-- ===== src/Parser/Interpolation/Pieces.antt =====
-- Pieces of a text for `interpolate` (src/Parser/StringInterpolation.hpp), and single rounds of its loop.
use mathlib.Core.List.{append-nil}
use voidscript.Base.{
  ℕ, suc, ◌≡◌, refl, sym, ap, ◌∙◌, Bool, true, false, ◌||◌, List, [], ◌∷◌, ◌++◌, Option, none, some,
  Bytes, ◌==◌, if◌then◌else◌, All, arith, Bool-cases, inl, inr,
}
use voidscript.Parser.Interpolation.{
  escaped, unescape, build_reference, split_at, flush, split_parts, concatenated,
}
use voidscript.Parser.Syntax.{ParsedExpr, literal}
use voidscript.Value.{string}

-- A backslash stands before a backslash, a `$` and a quote.
abbrev pub is_special : ℕ → Bool
is_special c = c == b'\\' || c == b'$' || c == b'"'

unfoldable pub escape_text : Bytes → Bytes
escape_text [] = []
escape_text (c ∷ t) = if is_special c then b'\\' ∷ c ∷ escape_text t else c ∷ escape_text t

-- A text, and after it a reference, which is not empty.
pub record Segment : Type 0 where
  pub text : Bytes
  pub first : ℕ
  pub others : Bytes

abbrev pub reference : Segment → Bytes
reference s = s.first ∷ s.others

-- The segments and the last text, as they are written.
unfoldable pub body_of : List Segment → Bytes → Bytes
unfolding escape_text
body_of [] last = escape_text last
body_of (s ∷ more) last =
    escape_text s.text ++ (b'$' ∷ b'{' ∷ (reference s ++ (b'}' ∷ body_of more last)))

abbrev pub text_part : Bytes → List ParsedExpr
text_part [] = []
text_part (c ∷ t) = literal (string (c ∷ t)) ∷ []

unfoldable pub parts_of : List Segment → Bytes → List ParsedExpr
unfolding build_reference
parts_of [] last = text_part last
parts_of (s ∷ more) last = text_part s.text ++ build_reference (reference s) ∷ parts_of more last

-- Nothing, where there is no reference.
unfoldable pub meaning_of : List Segment → Bytes → Option ParsedExpr
unfolding parts_of
meaning_of [] last = none
meaning_of (s ∷ more) last = some (concatenated (literal (string [])) (parts_of (s ∷ more) last))

-- No reference has a `}` in it.
unfoldable pub AreClosed : List Segment → Type 0
AreClosed segments = All (λ s. All (λ c. (c == b'}') ≡ false) (reference s)) segments

unescape-plain : (c : ℕ) (s : Bytes) → (c == b'\\') ≡ false → unescape (c ∷ s) ≡ c ∷ unescape s
unfolding unescape
unescape-plain c [] h = refl
unescape-plain c (d ∷ s) h = rw h refl

pub plain-special : (c : ℕ) → is_special c ≡ false → ((c == b'\\') ≡ false) × ((c == b'$') ≡ false)
plain-special c h = (ground (arith, h), ground (arith, h))

escaped-special : (c : ℕ) → is_special c ≡ true → escaped c ≡ c
escaped-special c h = ground (arith, h)

unescape-escape_text : (t : Bytes) → unescape (escape_text t) ≡ t
unfolding escape_text unescape
unescape-escape_text [] = refl
unescape-escape_text (c ∷ t) = elim (Bool-cases (is_special c)) [
  | inl special ↦ rw (special, escaped-special c special, unescape-escape_text t) refl
  | inr plain ↦ rw plain (
      unescape-plain c (escape_text t) (plain-special c plain).0
      ∙ ap (λ u. c ∷ u) (unescape-escape_text t))
]

flush-raw :
    (x : ℕ) (raw u : Bytes) (parts : List ParsedExpr)
    → unescape (x ∷ raw) ≡ u
    → flush (x ∷ raw) parts ≡ parts ++ literal (string u) ∷ []
flush-raw x raw u parts e = ap (λ w. parts ++ literal (string w) ∷ []) e

escape_text-some : (c : ℕ) (t : Bytes) → (x : ℕ) × (raw : Bytes) × (escape_text (c ∷ t) ≡ x ∷ raw)
unfolding escape_text
escape_text-some c t = elim (Bool-cases (is_special c)) [
  | inl special ↦ (b'\\', c ∷ escape_text t, rw special refl)
  | inr plain ↦ (c, escape_text t, rw plain refl)
]

pub flush-escape_text :
    (t : Bytes) (parts : List ParsedExpr) → flush (escape_text t) parts ≡ parts ++ text_part t
unfolding escape_text
flush-escape_text [] parts = sym (append-nil parts)
flush-escape_text (c ∷ t) parts = go (escape_text-some c t)
  where
    go :
        (x : ℕ) × (raw : Bytes) × (escape_text (c ∷ t) ≡ x ∷ raw)
        → flush (escape_text (c ∷ t)) parts ≡ parts ++ literal (string (c ∷ t)) ∷ []
    go (x, raw, e) =
        ap (λ w. flush w parts) e
        ∙ flush-raw x raw (c ∷ t) parts (ap unescape (sym e) ∙ unescape-escape_text (c ∷ t))

pub split_at-closed :
    (ref rest : Bytes)
    → All (λ c. (c == b'}') ≡ false) ref
    → split_at b'}' (ref ++ b'}' ∷ rest) ≡ some (ref, rest)
unfolding split_at
split_at-closed [] rest h = refl
split_at-closed (c ∷ ref) rest (h, hs) = rw (h, split_at-closed ref rest hs) refl

pub plain-end :
    (fuel c : ℕ) (text : Bytes) (parts : List ParsedExpr) (saw : Bool)
    → split_parts (suc fuel) (c ∷ []) text parts saw
      ≡ split_parts fuel [] (text ++ c ∷ []) parts saw
unfolding split_parts
plain-end fuel c text parts saw = refl

pub plain-step :
    (fuel c d : ℕ) (r text : Bytes) (parts : List ParsedExpr) (saw : Bool)
    → (c == b'\\') ≡ false
    → (c == b'$') ≡ false
    → split_parts (suc fuel) (c ∷ d ∷ r) text parts saw
      ≡ split_parts fuel (d ∷ r) (text ++ c ∷ []) parts saw
unfolding split_parts
plain-step fuel c d r text parts saw h m = rw (h, m) refl

pub reference-step :
    (fuel x : ℕ) (s ref rest text : Bytes) (parts : List ParsedExpr) (saw : Bool)
    → split_at b'}' s ≡ some (x ∷ ref, rest)
    → split_parts (suc fuel) (b'$' ∷ b'{' ∷ s) text parts saw
      ≡ split_parts fuel rest [] (flush text parts ++ build_reference (x ∷ ref) ∷ []) true
unfolding split_parts
reference-step fuel x s ref rest text parts saw e = rw e refl
