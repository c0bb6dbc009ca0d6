-- ===== src/Parser/Literals/RoundTrip.antt =====
-- `ValuePtr::fromString` and `Value::toString` (src/Symbols/Value.cpp) on the numbers of an `int`.
use voidscript.Parser.Literals.Digits.{
  AreDigits, digits-AreDigits, without_separators-digits, small-digit, large-digit, has_byte-digits,
  read_unsigned-digits, read_number-minus, read_number-digits, prefixed-digits, prefixed-minus,
  one_digit, more_digits,
}
use voidscript.Base.{
  ℕ, suc, ◌+◌, ◌^◌, ◌<◌, ◌≤◌, ◌≡◌, refl, ap, ◌∙◌, true, false, ◌∷◌, none, some, Bytes, codes,
  bytes_eq, length, arith,
}
use voidscript.Base.Int.{ℤ, pos, negsuc}
use voidscript.Lexer.Tables.{has_byte}
use voidscript.Operators.Ints.{fits}
use voidscript.Parser.Literals.{
  Numerals, read_number, within_bits, stoll, with_sign, one_later, negated, without_separators,
  prefixed, plain_number, from_string,
}
use voidscript.Value.Decimal.{decimal, decimal_ℤ, value_from, value_from-digits}
use voidscript.Value.Print.{to_string}
use voidscript.Value.{integer}

-- What is read as an `int`, and is no number with a prefix and no word.
record IsIntText (num : Numerals) (s : Bytes) (n : ℤ) : Type 0 where
  no_separator : without_separators s ≡ s
  no_prefix : prefixed num s ≡ none
  no_point : (c : ℕ) → b'0' + 10 ≤ c → has_byte s c ≡ false
  no_dot : has_byte s b'.' ≡ false
  no_word : (w : Bytes) → (c : ℕ) → b'0' + 10 ≤ c → bytes_eq s (c ∷ w) ≡ false
  reads : read_number 10 s ≡ some (n, length s)
  fits_int : within_bits 31 n ≡ true
  fits_long : within_bits 63 n ≡ true

plain_number-IsIntText :
    (num : Numerals) (s : Bytes) (n : ℤ) → IsIntText num s n → plain_number num s s ≡ integer n
unfolding plain_number stoll
plain_number-IsIntText num s n p =
    rw
      (
        p.no_dot,
        p.no_point b'e' (omega arith),
        p.no_point b'E' (omega arith),
        p.reads,
        p.fits_long,
        p.fits_int,
      )
      refl

from_string-IsIntText :
    (num : Numerals) (s : Bytes) (n : ℤ) → IsIntText num s n → from_string num s ≡ integer n
unfolding from_string
from_string-IsIntText num s n p =
    rw
      (
        p.no_word (codes "ull") b'n' (omega arith),
        p.no_word (codes "rue") b't' (omega arith),
        p.no_word (codes "alse") b'f' (omega arith),
        p.no_separator,
        p.no_prefix,
        p.no_separator,
      )
      (plain_number-IsIntText num s n p)

value_from-decimal : (n : ℕ) → value_from 0 (decimal n) ≡ n
unfolding decimal
value_from-decimal n = value_from-digits (suc n) n (omega arith)

decimal-AreDigits : (n : ℕ) → AreDigits (decimal n)
unfolding decimal
decimal-AreDigits n = digits-AreDigits (suc n) n (omega arith)

no_word-digits :
    {ds : Bytes} (w : Bytes) (c : ℕ) → b'0' + 10 ≤ c → AreDigits ds → bytes_eq ds (c ∷ w) ≡ false
no_word-digits w c l (one_digit d h) = ground (arith, h, l)
no_word-digits w c l (more_digits d h hs) = ground (arith, h, l)

digits-IsIntText :
    (num : Numerals) {ds : Bytes} (n : ℕ)
    → AreDigits ds
    → value_from 0 ds ≡ n
    → n < 2 ^ 31
    → IsIntText num ds (pos n)
digits-IsIntText num {ds} n h e l = record {
  no_separator = without_separators-digits h;
  no_prefix = prefixed-digits num h;
  no_point = λ c m. has_byte-digits c (λ d. large-digit c d m) h;
  no_dot = has_byte-digits b'.' (λ d. small-digit b'.' d (omega arith)) h;
  no_word = λ w c m. no_word-digits w c m h;
  reads = read_number-digits h ∙ ap (λ v. some (pos v, length ds)) e;
  fits_int = ground (arith, l);
  fits_long = ground (arith, l);
}

minus-IsIntText :
    (num : Numerals) {ds : Bytes} (n : ℕ)
    → AreDigits ds
    → value_from 0 ds ≡ suc n
    → n < 2 ^ 31
    → IsIntText num (b'-' ∷ ds) (negsuc n)
unfolding without_separators has_byte
minus-IsIntText num {ds} n h e l = record {
  no_separator = ap (λ r. b'-' ∷ r) (without_separators-digits h);
  no_prefix = prefixed-minus num ds;
  no_point = λ c m. ground (arith, m, has_byte-digits c (λ d. large-digit c d m) h);
  no_dot = has_byte-digits b'.' (λ d. small-digit b'.' d (omega arith)) h;
  no_word = λ w c m. ground (arith, m);
  reads =
      read_number-minus ds
      ∙ ap (λ o. one_later (with_sign negated o)) (read_unsigned-digits h)
      ∙ ap (λ v. some (negated v, suc (length ds))) e;
  fits_int = ground (arith, l);
  fits_long = ground (arith, l);
}

-- `fromString` reads the text of every 32-bit integer back as that integer.
pub from_string-to_string :
    (num : Numerals) (n : ℤ)
    → fits n ≡ true
    → from_string num (to_string num.floats (integer n)) ≡ integer n
unfolding to_string decimal_ℤ
from_string-to_string num (pos n) h =
    from_string-IsIntText num _ (pos n)
      (digits-IsIntText num n (decimal-AreDigits n) (value_from-decimal n) (ground (arith, h)))
from_string-to_string num (negsuc n) h = from_string-IsIntText num _ (negsuc n) (
    minus-IsIntText num n (decimal-AreDigits (n + 1)) (value_from-decimal (n + 1) ∙ omega arith)
      (ground (arith, h)))
