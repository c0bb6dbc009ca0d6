-- ===== src/Parser/Interpolation.antt =====
-- src/Parser/StringInterpolation.hpp: the variables in a double-quoted string literal.
pub mod Pieces
pub mod RoundTrip
use voidscript.Base.{
  ℕ, zero, suc, ◌-◌, Bool, true, false, ◌&&◌, ◌||◌, List, [], ◌∷◌, ◌++◌, Option, none, some, Bytes,
  codes, length, take, ltb, ◌==◌, if◌then◌else◌,
}
use voidscript.Lexer.Tokens.{is_alpha, is_digit}
use voidscript.Parser.Syntax.{ParsedExpr, literal, variable, binary}
use voidscript.Value.{string}

abbrev pub is_ident_start : ℕ → Bool
is_ident_start c = is_alpha c || c == b'_'

abbrev pub is_ident_char : ℕ → Bool
is_ident_char c = is_alpha c || is_digit c || c == b'_'

-- The character that a backslash and `c` stand for.
abbrev pub escaped : ℕ → ℕ
escaped c =
    if c == b'n'
    then 10
    else if c == b't'
    then 9
    else if c == b'r'
    then 13
    else if c == b'b'
    then 8
    else if c == b'f'
    then 12
    else if c == b'v'
    then 11
    else if c == b'a'
    then 7
    else if c == b'0'
    then 0
    else c

unfoldable pub unescape : Bytes → Bytes
unescape [] = []
unescape (c ∷ []) = c ∷ []
unescape (c ∷ d ∷ rest) = if c == b'\\' then escaped d ∷ unescape rest else c ∷ unescape (d ∷ rest)

-- A reference up to its first `->`, and the parts after each.
unfoldable pub split_arrows : Bytes → Bytes × List Bytes
split_arrows [] = ([], [])
split_arrows (c ∷ []) = (c ∷ [], [])
split_arrows (c ∷ d ∷ rest) =
    let after = split_arrows rest in
    let other = split_arrows (d ∷ rest) in
    if c == b'-' && d == b'>' then ([], after.0 ∷ after.1) else (c ∷ other.0, other.1)

abbrev pub member_chain : ParsedExpr → List Bytes → ParsedExpr
member_chain e [] = e
member_chain e (name ∷ rest) = member_chain (binary (codes "->") e (literal (string name))) rest

-- `buildReference`
unfoldable pub build_reference : Bytes → ParsedExpr
unfolding split_arrows
build_reference ref = member_chain (variable (split_arrows ref).0) (split_arrows ref).1

-- The text before the first `c`, and the text after it.
unfoldable pub split_at : ℕ → Bytes → Option (Bytes × Bytes)
split_at c [] = none
split_at c (x ∷ rest) =
    if x == c
    then some ([], rest)
    else elim (split_at c rest) [ none ↦ none | some (before, after) ↦ some (x ∷ before, after) ]

-- The identifier characters at the front, and what follows.
unfoldable pub span_ident : Bytes → Bytes × Bytes
span_ident [] = ([], [])
span_ident (c ∷ rest) =
    if is_ident_char c then (c ∷ (span_ident rest).0, (span_ident rest).1) else ([], c ∷ rest)

-- What stands after a `$`: the reference and the rest, if it is one.
unfoldable pub reference_at : Bytes → Option (Bytes × Bytes)
unfolding split_at span_ident
reference_at [] = none
reference_at (c ∷ rest) =
    if c == b'{'
    then split_at b'}' rest
    else if is_ident_start c
    then some (span_ident (c ∷ rest))
    else none

-- The literal text so far is a part of its own, unless there is none.
abbrev pub flush : Bytes → List ParsedExpr → List ParsedExpr
flush [] parts = parts
flush (c ∷ text) parts = parts ++ literal (string (unescape (c ∷ text))) ∷ []

-- The loop over the body, with its length for fuel: the literal text so far, the parts, and whether
-- there was a reference.
unfoldable pub split_parts : ℕ → Bytes → Bytes → List ParsedExpr → Bool → List ParsedExpr × Bool
unfolding unescape reference_at build_reference
split_parts zero body text parts saw = (flush text parts, saw)
split_parts (suc fuel) [] text parts saw = (flush text parts, saw)
split_parts (suc fuel) (c ∷ []) text parts saw = split_parts fuel [] (text ++ c ∷ []) parts saw
split_parts (suc fuel) (c ∷ d ∷ rest) text parts saw =
    let plain = split_parts fuel (d ∷ rest) (text ++ c ∷ []) parts saw in
    if c == b'\\'
    then split_parts fuel rest (text ++ c ∷ d ∷ []) parts saw
    else if c == b'$'
    then elim (reference_at (d ∷ rest)) [
      | none ↦ plain
      | some ([], after) ↦ plain
      | some (x ∷ ref, after) ↦
          split_parts fuel after [] (flush text parts ++ build_reference (x ∷ ref) ∷ []) true
    ]
    else plain

abbrev pub concatenated : ParsedExpr → List ParsedExpr → ParsedExpr
concatenated e [] = e
concatenated e (part ∷ rest) = concatenated (binary (codes "+") e part) rest

-- `interpolate`, of the text of a literal with its quotes.
unfoldable pub interpolate : Bytes → Option ParsedExpr
unfolding split_parts
interpolate [] = none
interpolate (c ∷ rest) =
    let body = take (length rest - 1) rest in
    let found = split_parts (length body) body [] [] false in
    if ltb (length rest) 1
    then none
    else if c == b'"'
    then (if found.1 then some (concatenated (literal (string [])) found.0) else none)
    else none
