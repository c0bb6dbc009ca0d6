-- ===== src/Parser/Literals.antt =====
-- `ValuePtr::fromString` of src/Symbols/Value.cpp: the value of the text of a literal, with
-- `std::stoi` and `std::stoll`. `std::stod` gives the bits of a number and the length that it read.
pub mod Digits
pub mod RoundTrip
use voidscript.Base.{
  ℕ, zero, suc, ◌+◌, ◌-◌, ◌*◌, ◌^◌, Bool, true, false, ◌&&◌, ◌||◌, [], ◌∷◌, Option, none, some,
  Bytes, codes, bytes_eq, length, ltb, leb, ◌==◌, if◌then◌else◌,
}
use voidscript.Base.Int.{ℤ, pos, negsuc}
use voidscript.Lexer.Tables.{has_byte}
use voidscript.Lexer.Tokens.{is_digit, is_space}
use voidscript.Value.Floats.{Floats}
use voidscript.Value.{Value, integer, double, string, boolean, null, null_type}

pub record Numerals : Type 0 where
  pub floats : Floats
  pub stod : Bytes → Option (ℕ × ℕ)

-- The value of a digit; a letter counts from ten.
abbrev pub digit_value : ℕ → ℕ
digit_value c =
    if is_digit c
    then c - b'0'
    else if leb b'a' c && leb c b'z'
    then c - b'a' + 10
    else if leb b'A' c && leb c b'Z'
    then c - b'A' + 10
    else 99

-- The digits at the front: what they denote, after `acc`, and how many there are.
unfoldable pub read_digits : ℕ → ℕ → Bytes → ℕ × ℕ
read_digits base acc [] = (acc, 0)
read_digits base acc (c ∷ rest) =
    let more = read_digits base (acc * base + digit_value c) rest in
    if ltb (digit_value c) base then (more.0, suc more.1) else (acc, 0)

abbrev pub negated : ℕ → ℤ
negated zero = pos 0
negated (suc n) = negsuc n

abbrev pub signed : Bool → ℕ → ℤ
signed true n = negated n
signed false n = pos n

-- At least one digit.
abbrev pub some_digits : ℕ × ℕ → Option (ℕ × ℕ)
some_digits (n, zero) = none
some_digits (n, suc k) = some (n, suc k)

-- A number after its sign; base 16 admits a prefix `0x` before a digit.
unfoldable pub read_unsigned : ℕ → Bytes → Option (ℕ × ℕ)
unfolding read_digits
read_unsigned base (z ∷ x ∷ d ∷ rest) =
    if base == 16 && z == b'0' && (x == b'x' || x == b'X') && ltb (digit_value d) 16
    then some ((read_digits 16 0 (d ∷ rest)).0, (read_digits 16 0 (d ∷ rest)).1 + 2)
    else some_digits (read_digits base 0 (z ∷ x ∷ d ∷ rest))
read_unsigned base s = some_digits (read_digits base 0 s)

-- A number with its sign.
abbrev pub with_sign : (ℕ → ℤ) → Option (ℕ × ℕ) → Option (ℤ × ℕ)
with_sign sign none = none
with_sign sign (some (n, k)) = some (sign n, k)

-- After a byte that was passed over.
abbrev pub one_later : Option (ℤ × ℕ) → Option (ℤ × ℕ)
one_later none = none
one_later (some (n, k)) = some (n, suc k)

-- An optional sign, and the number.
unfoldable pub read_signed : ℕ → Bytes → Option (ℤ × ℕ)
unfolding read_unsigned
read_signed base [] = none
read_signed base (c ∷ rest) =
    if c == b'-'
    then one_later (with_sign negated (read_unsigned base rest))
    else if c == b'+'
    then one_later (with_sign pos (read_unsigned base rest))
    else with_sign pos (read_unsigned base (c ∷ rest))

-- Leading white space is skipped.
unfoldable pub read_number : ℕ → Bytes → Option (ℤ × ℕ)
unfolding read_signed
read_number base [] = none
read_number base (c ∷ rest) =
    let after = read_number base rest in
    if is_space c then one_later after else read_signed base (c ∷ rest)

-- -2^bits ≤ n < 2^bits
abbrev pub within_bits : ℕ → ℤ → Bool
within_bits bits (pos n) = ltb n (2 ^ bits)
within_bits bits (negsuc n) = ltb n (2 ^ bits)

abbrev pub ranged : ℕ → Option (ℤ × ℕ) → Option (ℤ × ℕ)
ranged bits none = none
ranged bits (some (n, k)) = if within_bits bits n then some (n, k) else none

-- `std::stoll` and `std::stoi`: nothing where they throw.
unfoldable pub stoll : ℕ → Bytes → Option (ℤ × ℕ)
unfolding read_number
stoll base s = ranged 63 (read_number base s)

unfoldable pub stoi : Bytes → Option (ℤ × ℕ)
unfolding read_number
stoi s = ranged 31 (read_number 10 s)

unfoldable pub without_separators : Bytes → Bytes
without_separators [] = []
without_separators (c ∷ rest) =
    if c == b'_' then without_separators rest else c ∷ without_separators rest

-- The base that the second character of a number names.
abbrev pub prefix_base : ℕ → ℕ
prefix_base c =
    if c == b'x' || c == b'X'
    then 16
    else if c == b'b' || c == b'B'
    then 2
    else if c == b'o' || c == b'O'
    then 8
    else 0

module _ (num : Numerals) where
  abbrev pub int_or_double : ℤ → Value
  int_or_double n = if within_bits 31 n then integer n else double (num.floats.doubles.of_int n)

  -- `0xFF`, `0b1010` and `0o17`, if all of the text is read.
  unfoldable pub prefixed : Bytes → Option Value
  unfolding stoll
  prefixed (z ∷ p ∷ d ∷ rest) =
      if z == b'0' && not_zero (prefix_base p)
      then elim (stoll (prefix_base p) (d ∷ rest)) [
        | none ↦ none
        | some (n, k) ↦ if k == suc (length rest) then some (int_or_double n) else none
      ]
      else none
    where
      not_zero : ℕ → Bool
      not_zero zero = false
      not_zero (suc n) = true
  prefixed _ = none

  -- A number that is no `int`: `std::stoi` and `std::stod` of all of the text.
  unfoldable pub large_number : Bytes → Value
  unfolding stoi
  large_number s =
      let as_double : Value = elim (num.stod s) [
        | none ↦ string s
        | some (d, k) ↦ if k == length s then double d else string s
      ] in
      elim (stoi s) [
        | none ↦ as_double
        | some (n, k) ↦ if k == length s then integer n else as_double
      ]

  -- A number without a prefix, else the text itself.
  unfoldable pub plain_number : Bytes → Bytes → Value
  unfolding has_byte stoll large_number
  plain_number s ds =
      if has_byte ds b'.' || has_byte ds b'e' || has_byte ds b'E'
      then elim (num.stod ds) [ none ↦ string s | some (d, k) ↦ double d ]
      else elim (stoll 10 ds) [
        | none ↦ string s
        | some (n, k) ↦ if within_bits 31 n then integer n else large_number s
      ]

  -- `ValuePtr::fromString`
  unfoldable pub from_string : Bytes → Value
  unfolding without_separators prefixed plain_number
  from_string s =
      if bytes_eq s (codes "null")
      then null null_type
      else if bytes_eq s (codes "true")
      then boolean true
      else if bytes_eq s (codes "false")
      then boolean false
      else elim (prefixed (without_separators s)) [
        | some v ↦ v
        | none ↦ plain_number s (without_separators s)
      ]
