-- ===== src/Encoding/Output.antt =====
-- What the encoders of src/Modules/BuiltIn/EncodingModule.hpp may write, and which texts
-- `hex_decode` takes.
use voidscript.Base.{
  ℕ, ◌+◌, ◌%◌, ◌<◌, ◌/◌, ◌^◌, Bool, true, ◌&&◌, ◌||◌, not, [], ◌∷◌, ◌++◌, ◌≡◌, refl, inl, inr, none,
  some, arith, Bytes, IsBytes, All, every_below, every_below_sound, ◌==◌, Bool-cases, length,
  if◌then◌else◌, get_or, leb, ap, ◌-◌, bit_and, bit_or, ◌*◌, ==_iff,
}
use voidscript.Base.Int.{pos}
use voidscript.Value.{string, integer, ok, throws, ◌>>=◌}
use voidscript.Encoding.{
  upper_digits, hex_pair, hex_val, hex_byte, unreserved, is_alnum, url_encode_loop, url_encode,
  hex_decode_loop, hex_decode, html_escape_loop, html_escape, invalid_digit, odd_length, ord, chr,
}

All-append : (P : ℕ → Type 0) (xs ys : Bytes) → All P xs → All P ys → All P (xs ++ ys)
All-append P [] ys h k = k
All-append P (x ∷ xs) ys (p, h) k = (p, All-append P xs ys h k)

-- The characters that may stand in the value of a query.
abbrev pub url_safe : ℕ → Bool
url_safe c = unreserved c || c == b'%'

abbrev both_alnum : ℕ → Bool
both_alnum c =
    is_alnum (get_or upper_digits (c / 2 ^ 4) 0)
    && is_alnum (get_or upper_digits (bit_and c 0x0f) 0)

both_alnum_table : every_below 256 both_alnum ≡ true
unfolding every_below
both_alnum_table = refl

url_safe_of_alnum :
    (a b : ℕ)
    → (is_alnum a && is_alnum b) ≡ true
    → (url_safe a ≡ true) × ((url_safe b ≡ true) × Unit {0})
url_safe_of_alnum a b h = ground arith

hex_pair-url_safe : (c : ℕ) → c < 256 → All (λ d. url_safe d ≡ true) (hex_pair upper_digits c)
unfolding hex_pair
hex_pair-url_safe c lt =
    url_safe_of_alnum (get_or upper_digits (c / 2 ^ 4) 0) (get_or upper_digits (bit_and c 0x0f) 0)
      (every_below_sound 256 both_alnum c both_alnum_table lt)

pub url_encode_loop-url_safe :
    (s : Bytes) → IsBytes s → All (λ c. url_safe c ≡ true) (url_encode_loop s)
unfolding url_encode_loop
url_encode_loop-url_safe [] h = tt
url_encode_loop-url_safe (c ∷ cs) (lt, h) = elim (Bool-cases (unreserved c)) [
  | inl plain ↦ rw plain (ground arith, url_encode_loop-url_safe cs h)
  | inr escaped ↦ rw escaped (
    refl,
    All-append _ (hex_pair upper_digits c) _ (hex_pair-url_safe c lt)
        (url_encode_loop-url_safe cs h),
  )
]

-- No raw markup character.
abbrev pub html_safe : ℕ → Bool
html_safe c = not (c == b'<' || c == b'>' || c == b'"' || c == b'\'')

pub html_escape_loop-html_safe : (s : Bytes) → All (λ c. html_safe c ≡ true) (html_escape_loop s)
unfolding html_escape_loop
html_escape_loop-html_safe [] = tt
html_escape_loop-html_safe (c ∷ cs) = ground (arith, html_escape_loop-html_safe cs)

-- The hexadecimal digits: `0` to `9`, `a` to `f`, and `A` to `F`.
abbrev pub is_hex : ℕ → Bool
is_hex c = (leb b'0' c && leb c b'9') || (leb b'a' c && leb c b'f') || (leb b'A' c && leb c b'F')

abbrev pub all_hex : Bytes → Bool
all_hex [] = true
all_hex (c ∷ cs) = is_hex c && all_hex cs

-- What a hexadecimal digit denotes: a letter counts from ten.
abbrev pub digit : ℕ → ℕ
digit c = if leb c b'9' then c - b'0' else if leb c b'F' then 10 + (c - b'A') else 10 + (c - b'a')

hex_val-digit : (c : ℕ) → hex_val c ≡ (if is_hex c then some (digit c) else none)
unfolding hex_val
hex_val-digit c = ground arith

digit-lt : (c : ℕ) → is_hex c ≡ true → digit c < 16
digit-lt c h = ground arith

-- The number that each pair of digits denotes.
abbrev pub pair_values : Bytes → Bytes
pair_values (h ∷ l ∷ rest) = (16 * digit h + digit l) ∷ pair_values rest
pair_values _ = []

shift_or_table :
    every_below 16 (λ hi. every_below 16 (λ lo. bit_or (hi * 2 ^ 4) lo == 16 * hi + lo)) ≡ true
unfolding every_below
shift_or_table = refl

shift_or : (hi lo : ℕ) → hi < 16 → lo < 16 → bit_or (hi * 2 ^ 4) lo ≡ 16 * hi + lo
shift_or hi lo h l =
    let row = every_below_sound 16 _ hi shift_or_table h in
    (==_iff _ _).0 (every_below_sound 16 (λ lo. bit_or (hi * 2 ^ 4) lo == 16 * hi + lo) lo row l)

hex_byte-digit :
    (h l : ℕ)
    → hex_byte h l ≡ (if is_hex h && is_hex l then some (16 * digit h + digit l) else none)
unfolding hex_byte
hex_byte-digit h l = elim (Bool-cases (is_hex h)) [
  | inl hi ↦ elim (Bool-cases (is_hex l)) [
    | inl lo ↦
        rw (hex_val-digit h, hex_byte, hi, hex_val-digit l, lo)
          (ap some (shift_or (digit h) (digit l) (digit-lt h hi) (digit-lt l lo)))
    | inr bad ↦ rw (hex_val-digit h, hex_byte, hi, hex_val-digit l, bad) refl
  ]
  | inr bad ↦ rw (hex_val-digit h, hex_byte, bad) refl
]

hex_decode_loop_lem :
    (s : Bytes)
    → length s % 2 ≡ 0
    → hex_decode_loop s ≡ (if all_hex s then ok (pair_values s) else throws invalid_digit)
unfolding hex_decode_loop
hex_decode_loop_lem [] even = refl
hex_decode_loop_lem (h ∷ []) even = absurd (omega arith)
hex_decode_loop_lem (h ∷ l ∷ rest) even =
    ground (arith, hex_byte-digit h l, hex_decode_loop_lem rest (omega arith))

-- On every string `hex_decode` throws the length error if the length is odd, else the digit error
-- if some character is none of `0` to `9`, `a` to `f` and `A` to `F`, and else returns the numbers
-- that the pairs of digits denote in base 16.
pub hex_decode_lem :
    (s : Bytes)
    → hex_decode (string s ∷ []) ≡ (
        if not (length s % 2 == 0)
        then throws odd_length
        else if all_hex s
        then ok (string (pair_values s))
        else throws invalid_digit)
unfolding hex_decode
hex_decode_lem s = elim (Bool-cases (length s % 2 == 0)) [
  | inl even ↦ ground (arith, hex_decode_loop_lem s ((==_iff _ _).0 even))
  | inr odd ↦ rw odd
]

-- For every string of bytes `url_encode` returns a string of letters, digits, `-`, `_`, `.`, `~`
-- and `%` only.
url_encode-url_safe :
    (s : Bytes)
    → IsBytes s
    → (t : Bytes) × (url_encode (string s ∷ []) ≡ ok (string t)) × All (λ c. url_safe c ≡ true) t
unfolding url_encode
url_encode-url_safe s h = (url_encode_loop s, refl, url_encode_loop-url_safe s h)

-- For every string `html_escape` returns a string with no `<`, `>`, `"` or `'`.
html_escape-html_safe :
    (s : Bytes)
    → (t : Bytes) × (html_escape (string s ∷ []) ≡ ok (string t)) × All (λ c. html_safe c ≡ true) t
unfolding html_escape
html_escape-html_safe s = (html_escape_loop s, refl, html_escape_loop-html_safe s)

-- `ord` undoes `chr` on the codes 0 to 255.
ord-chr :
    (n : ℕ) → n < 256 → (chr (integer (pos n) ∷ []) >>= λ v. ord (v ∷ [])) ≡ ok (integer (pos n))
unfolding chr ord
ord-chr n h = ground arith
