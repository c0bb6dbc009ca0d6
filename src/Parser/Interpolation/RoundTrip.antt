-- ===== src/Parser/Interpolation/RoundTrip.antt =====
-- `interpolate` of src/Parser/StringInterpolation.hpp on a text that is put together from escaped
-- pieces and references in braces.
use voidscript.Parser.Interpolation.Pieces.{
  is_special, escape_text, Segment, reference, body_of, text_part, parts_of, meaning_of, AreClosed,
  plain-special, flush-escape_text, split_at-closed, plain-end, plain-step, reference-step,
}
use mathlib.Core.Path.{subst}
use mathlib.Core.List.{append-nil, append_assoc}
use voidscript.Base.{
  ℕ, zero, suc, ◌-◌, ◌≤◌, ◌≡◌, refl, sym, ap, ◌∙◌, Bool, true, false, List, [], ◌∷◌, ◌++◌, none,
  some, Bytes, length, length-append, take-length-append, take, ltb, ◌==◌, if◌then◌else◌, All,
  arith, Bool-cases, inl, inr,
}
use voidscript.Parser.Interpolation.{build_reference, flush, split_parts, concatenated, interpolate}
use voidscript.Parser.Syntax.{ParsedExpr, literal}
use voidscript.Value.{string}

-- With as much fuel as there are bytes, the loop comes to this.
Runs : Bytes → Bytes → List ParsedExpr → Bool → List ParsedExpr × Bool → Type 0
Runs body text parts saw out =
    (fuel : ℕ) → length body ≤ fuel → split_parts fuel body text parts saw ≡ out

Runs-end :
    (text : Bytes) (parts : List ParsedExpr) (saw : Bool)
    → Runs [] text parts saw (flush text parts, saw)
unfolding Runs split_parts
Runs-end text parts saw zero l = refl
Runs-end text parts saw (suc fuel) l = refl

module _ (rest text : Bytes) (parts : List ParsedExpr) (saw : Bool)
    (out : List ParsedExpr × Bool) where
  Runs-plain :
      (c : ℕ)
      → (c == b'\\') ≡ false
      → (c == b'$') ≡ false
      → Runs rest (text ++ c ∷ []) parts saw out
      → Runs (c ∷ rest) text parts saw out
  unfolding Runs
  Runs-plain c h m next zero l = absurd (omega (arith, l))
  Runs-plain c h m next (suc fuel) l = go rest (next fuel (omega (arith, l)))
    where
      go :
          (r : Bytes)
          → split_parts fuel r (text ++ c ∷ []) parts saw ≡ out
          → split_parts (suc fuel) (c ∷ r) text parts saw ≡ out
      go [] e = plain-end fuel c text parts saw ∙ e
      go (d ∷ r) e = plain-step fuel c d r text parts saw h m ∙ e

  Runs-escape :
      (d : ℕ)
      → Runs rest (text ++ b'\\' ∷ d ∷ []) parts saw out
      → Runs (b'\\' ∷ d ∷ rest) text parts saw out
  unfolding Runs split_parts
  Runs-escape d next zero l = absurd (omega (arith, l))
  Runs-escape d next (suc fuel) l = next fuel (omega (arith, l))

  Runs-reference :
      (x : ℕ) (ref : Bytes)
      → All (λ c. (c == b'}') ≡ false) (x ∷ ref)
      → Runs rest [] (flush text parts ++ build_reference (x ∷ ref) ∷ []) true out
      → Runs (b'$' ∷ b'{' ∷ x ∷ (ref ++ (b'}' ∷ rest))) text parts saw out
  unfolding Runs
  Runs-reference x ref h next zero l = absurd (omega (arith, l))
  Runs-reference x ref h next (suc fuel) l =
      reference-step fuel x (x ∷ (ref ++ (b'}' ∷ rest))) ref rest text parts saw
        (split_at-closed (x ∷ ref) rest h)
      ∙ next fuel (omega (arith, l, length-append ref (b'}' ∷ rest)))

Runs-text :
    (t rest text : Bytes) (parts : List ParsedExpr) (saw : Bool) (out : List ParsedExpr × Bool)
    → Runs rest (text ++ escape_text t) parts saw out
    → Runs (escape_text t ++ rest) text parts saw out
unfolding escape_text
Runs-text [] rest text parts saw out =
    λ next. subst (λ w. Runs rest w parts saw out) (append-nil text) next
Runs-text (c ∷ t) rest text parts saw out = elim (Bool-cases (is_special c)) [
  | inl special ↦ rw special (λ next. Runs-escape _ text parts saw out c (
      Runs-text t rest (text ++ b'\\' ∷ c ∷ []) parts saw out (
        subst (λ w. Runs rest w parts saw out)
          (sym (append_assoc text (b'\\' ∷ c ∷ []) (escape_text t))) next)))
  | inr plain ↦ rw plain (λ next.
      Runs-plain _ text parts saw out c (plain-special c plain).0 (plain-special c plain).1 (
        Runs-text t rest (text ++ c ∷ []) parts saw out (
          subst (λ w. Runs rest w parts saw out) (sym (append_assoc text (c ∷ []) (escape_text t)))
            next)))
]

is_given : List Segment → Bool → Bool
is_given [] saw = saw
is_given (s ∷ more) saw = true

is_given-true : (segments : List Segment) → is_given segments true ≡ true
unfolding is_given
is_given-true [] = refl
is_given-true (s ∷ more) = refl

next_parts :
    (s : Segment) (parts more : List ParsedExpr)
    → (flush (escape_text s.text) parts ++ build_reference (reference s) ∷ []) ++ more
      ≡ parts ++ (text_part s.text ++ build_reference (reference s) ∷ more)
next_parts s parts more =
    append_assoc (flush (escape_text s.text) parts) (build_reference (reference s) ∷ []) more
    ∙ ap (λ w. w ++ build_reference (reference s) ∷ more) (flush-escape_text s.text parts)
    ∙ append_assoc parts (text_part s.text) (build_reference (reference s) ∷ more)

Runs-body_of :
    (segments : List Segment) (last : Bytes) (parts : List ParsedExpr) (saw : Bool)
    → AreClosed segments
    → Runs
        (body_of segments last)
        []
        parts
        saw
        (parts ++ parts_of segments last, is_given segments saw)
unfolding body_of parts_of is_given AreClosed
Runs-body_of [] last parts saw h =
    subst (λ b. Runs b [] parts saw (parts ++ text_part last, saw)) (append-nil (escape_text last))
      (Runs-text last [] [] parts saw _ (
        subst (λ w. Runs [] (escape_text last) parts saw (w, saw)) (flush-escape_text last parts)
          (Runs-end (escape_text last) parts saw)))
Runs-body_of (s ∷ more) last parts saw (h, hs) =
    let added : List ParsedExpr =
      flush (escape_text s.text) parts ++ build_reference (reference s) ∷ [] in
    Runs-text s.text _ [] parts saw _ (
      Runs-reference (body_of more last) (escape_text s.text) parts saw _ s.first s.others h (
        subst (λ o. Runs (body_of more last) [] added true o)
          (λ i. (next_parts s parts (parts_of more last) i, is_given-true more i))
          (Runs-body_of more last added true hs)))

take-body : (b : Bytes) (q : ℕ) → take (length (b ++ q ∷ []) - 1) (b ++ q ∷ []) ≡ b
take-body b q =
    ap (λ n. take n (b ++ q ∷ [])) (omega (arith, length-append b (q ∷ [])))
    ∙ take-length-append b (q ∷ [])

interpolate-quoted :
    (rest body : Bytes) (found : List ParsedExpr × Bool)
    → ltb (length rest) 1 ≡ false
    → take (length rest - 1) rest ≡ body
    → split_parts (length body) body [] [] false ≡ found
    → interpolate (b'"' ∷ rest)
      ≡ (if found.1 then some (concatenated (literal (string [])) found.0) else none)
unfolding interpolate
interpolate-quoted rest body found h l m = rw (h, l, m) refl

split_parts-body_of :
    (segments : List Segment) (last : Bytes)
    → AreClosed segments
    → split_parts (length (body_of segments last)) (body_of segments last) [] [] false
      ≡ (parts_of segments last, is_given segments false)
unfolding Runs
split_parts-body_of segments last h =
    Runs-body_of segments last [] false h (length (body_of segments last)) (omega arith)

meaning_of-is_given :
    (segments : List Segment) (last : Bytes)
    → (if is_given segments false
        then some (concatenated (literal (string [])) (parts_of segments last))
        else none)
      ≡ meaning_of segments last
unfolding is_given meaning_of
meaning_of-is_given [] last = refl
meaning_of-is_given (s ∷ more) last = refl

-- A text in double quotes, put together from escaped pieces and references in braces, is read as
-- the concatenation of the pieces and the references in their order; without a reference it is no
-- interpolation. A reference is not empty and has no closing brace in it.
pub interpolate-body_of :
    (segments : List Segment) (last : Bytes)
    → AreClosed segments
    → interpolate (b'"' ∷ (body_of segments last ++ b'"' ∷ [])) ≡ meaning_of segments last
interpolate-body_of segments last h =
    interpolate-quoted (body_of segments last ++ b'"' ∷ []) (body_of segments last) _
      (ground (arith, length-append (body_of segments last) (b'"' ∷ [])))
      (take-body (body_of segments last) b'"') (split_parts-body_of segments last h)
    ∙ meaning_of-is_given segments last
