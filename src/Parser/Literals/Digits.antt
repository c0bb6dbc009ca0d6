-- ===== src/Parser/Literals/Digits.antt =====
-- What `ValuePtr::fromString` (src/Symbols/Value.cpp) does on decimal digits.
use voidscript.Base.{
  ℕ, zero, suc, ◌+◌, ◌-◌, ◌*◌, ◌/◌, ◌%◌, ◌<◌, ◌≤◌, ◌≡◌, refl, ap, ◌∙◌, true, false, [], ◌∷◌, ◌++◌,
  none, some, Bytes, length, ltb, ◌==◌, arith, Bool-cases, inl, inr,
}
use voidscript.Base.Int.{pos}
use voidscript.Lexer.Tables.{has_byte}
use voidscript.Lexer.Tokens.{is_space}
use voidscript.Parser.Literals.{
  Numerals, digit_value, read_digits, read_unsigned, read_number, with_sign, one_later, negated,
  some_digits, without_separators, prefix_base, prefixed,
}
use voidscript.Value.Decimal.{digits, value_from}

abbrev IsDigit : ℕ → Type 0
IsDigit c = (b'0' ≤ c) × (c < b'0' + 10)

-- All digits, and at least one.
pub data AreDigits : Bytes → Type 0 where
  one_digit : (d : ℕ) → IsDigit d → AreDigits (d ∷ [])
  more_digits : (d : ℕ) {ds : Bytes} → IsDigit d → AreDigits ds → AreDigits (d ∷ ds)

AreDigits-concat : {ds : Bytes} (d : ℕ) → AreDigits ds → IsDigit d → AreDigits (ds ++ d ∷ [])
AreDigits-concat d (one_digit e h) l = more_digits e h (one_digit d l)
AreDigits-concat d (more_digits e h hs) l = more_digits e h (AreDigits-concat d hs l)

pub digits-AreDigits : (fuel n : ℕ) → n < fuel → AreDigits (digits fuel n)
unfolding digits
digits-AreDigits zero n h = absurd (omega arith)
digits-AreDigits (suc fuel) n h = elim (Bool-cases (ltb n 10)) [
  | inl small ↦ rw small (one_digit (b'0' + n) (omega arith, ground (arith, small)))
  | inr big ↦ rw big (
      AreDigits-concat (b'0' + n % 10) (digits-AreDigits fuel (n / 10) (ground (arith, big, h)))
        (omega arith, omega arith))
]

pub without_separators-digits : {ds : Bytes} → AreDigits ds → without_separators ds ≡ ds
unfolding without_separators
without_separators-digits (one_digit d h) = ground (arith, h)
without_separators-digits (more_digits d h hs) = ground (arith, h, without_separators-digits hs)

pub small-digit : (c d : ℕ) → c < b'0' → IsDigit d → (d == c) ≡ false
small-digit c d l h = ground (arith, l, h)

pub large-digit : (c d : ℕ) → b'0' + 10 ≤ c → IsDigit d → (d == c) ≡ false
large-digit c d l h = ground (arith, l, h)

pub has_byte-digits :
    {ds : Bytes} (c : ℕ)
    → ((d : ℕ) → IsDigit d → (d == c) ≡ false)
    → AreDigits ds
    → has_byte ds c ≡ false
unfolding has_byte
has_byte-digits c other (one_digit d h) = rw (other d h) refl
has_byte-digits c other (more_digits d h hs) = rw (other d h) (has_byte-digits c other hs)

digit_value-digit : (d : ℕ) → IsDigit d → digit_value d ≡ d - b'0'
digit_value-digit d h = ground (arith, h)

digit_value-small : (d : ℕ) → IsDigit d → ltb (digit_value d) 10 ≡ true
digit_value-small d h = rw (digit_value-digit d h) (ground (arith, h))

digit_value-next : (acc d : ℕ) → IsDigit d → acc * 10 + digit_value d ≡ 10 * acc + (d - b'0')
digit_value-next acc d h = rw (digit_value-digit d h) (omega arith)

read_digits-digits :
    {ds : Bytes} (acc : ℕ) → AreDigits ds → read_digits 10 acc ds ≡ (value_from acc ds, length ds)
unfolding read_digits value_from
read_digits-digits acc (one_digit d h) = rw (digit_value-small d h, digit_value-next acc d h) refl
read_digits-digits acc (more_digits d {ds} h hs) =
    rw
      (
        digit_value-small d h,
        digit_value-next acc d h,
        read_digits-digits (10 * acc + (d - b'0')) hs,
      )
      refl

read_unsigned-ten : (s : Bytes) → read_unsigned 10 s ≡ some_digits (read_digits 10 0 s)
unfolding read_unsigned
read_unsigned-ten [] = refl
read_unsigned-ten (z ∷ []) = refl
read_unsigned-ten (z ∷ x ∷ []) = refl
read_unsigned-ten (z ∷ x ∷ d ∷ rest) = refl

pub read_unsigned-digits :
    {ds : Bytes} → AreDigits ds → read_unsigned 10 ds ≡ some (value_from 0 ds, length ds)
read_unsigned-digits (one_digit d h) =
    read_unsigned-ten (d ∷ []) ∙ ap some_digits (read_digits-digits 0 (one_digit d h))
read_unsigned-digits (more_digits d {ds} h hs) =
    read_unsigned-ten (d ∷ ds) ∙ ap some_digits (read_digits-digits 0 (more_digits d h hs))

is_space-digit : (d : ℕ) → IsDigit d → is_space d ≡ false
is_space-digit d h = ground (arith, h)

-- Neither white space nor a sign comes first.
read_number-digit :
    (d : ℕ) (ds : Bytes)
    → IsDigit d
    → read_number 10 (d ∷ ds) ≡ with_sign pos (read_unsigned 10 (d ∷ ds))
unfolding read_number
read_number-digit d ds h =
    rw (is_space-digit d h, small-digit b'-' d (omega arith) h, small-digit b'+' d (omega arith) h)
      refl

pub read_number-minus :
    (ds : Bytes) → read_number 10 (b'-' ∷ ds) ≡ one_later (with_sign negated (read_unsigned 10 ds))
unfolding read_number
read_number-minus ds = refl

pub read_number-digits :
    {ds : Bytes} → AreDigits ds → read_number 10 ds ≡ some (pos (value_from 0 ds), length ds)
read_number-digits (one_digit d h) =
    read_number-digit d [] h ∙ ap (with_sign pos) (read_unsigned-digits (one_digit d h))
read_number-digits (more_digits d {ds} h hs) =
    read_number-digit d ds h ∙ ap (with_sign pos) (read_unsigned-digits (more_digits d h hs))

prefix_base-digit : (d : ℕ) → IsDigit d → prefix_base d ≡ 0
prefix_base-digit d h = ground (arith, h)

prefixed-other :
    (num : Numerals) (z p d : ℕ) (rest : Bytes) → IsDigit p → prefixed num (z ∷ p ∷ d ∷ rest) ≡ none
unfolding prefixed
prefixed-other num z p d rest h = elim (Bool-cases (z == b'0')) [
  | inl zero_first ↦ rw (zero_first, prefix_base-digit p h) refl
  | inr other ↦ rw other refl
]

pub prefixed-digits : (num : Numerals) {ds : Bytes} → AreDigits ds → prefixed num ds ≡ none
unfolding prefixed
prefixed-digits num (one_digit d h) = refl
prefixed-digits num (more_digits d h (one_digit e l)) = refl
prefixed-digits num (more_digits d h (more_digits e l (one_digit f m))) =
    prefixed-other num d e f [] l
prefixed-digits num (more_digits d h (more_digits e l (more_digits f {ds} m hs))) =
    prefixed-other num d e f ds l

pub prefixed-minus : (num : Numerals) (ds : Bytes) → prefixed num (b'-' ∷ ds) ≡ none
unfolding prefixed
prefixed-minus num [] = refl
prefixed-minus num (d ∷ []) = refl
prefixed-minus num (d ∷ e ∷ rest) = refl
