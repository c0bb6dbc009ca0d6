-- ===== src/Encoding.antt =====
-- src/Modules/BuiltIn/EncodingModule.hpp: URL, hexadecimal and HTML encoding, `ord` and `chr`.
-- The character classes of <cctype> are those of the C locale.
pub mod RoundTrip
pub mod Output
use voidscript.Base.{
  ℕ, zero, suc, ◌+◌, ◌-◌, ◌/◌, ◌%◌, ◌*◌, bit_and, bit_or, Bool, true, false, ◌&&◌, ◌||◌, List, [],
  ◌∷◌, ◌++◌, Option, none, some, Bytes, codes, leb, ltb, ◌==◌, if◌then◌else◌, get_or, drop, length,
  take, bytes_eq, String, not, ◌^◌,
}
use voidscript.Base.Int.{ℤ, pos, negsuc}
use voidscript.Value.{
  Error, expects_one_string, Value, integer, string, Result, ok, throws, ◌>>=◌, runtime_error,
  type_of, get_string, integer_type, string_type, get_int,
}

abbrev pub within : ℕ → ℕ → ℕ → Bool
within lo hi c = leb lo c && leb c hi

abbrev pub is_alnum : ℕ → Bool
is_alnum c = within b'0' b'9' c || within b'a' b'z' c || within b'A' b'Z' c

-- `strArg`: exactly one argument, of type string.
unfoldable pub str_arg : List Value → String → Result Bytes
unfolding get_string type_of
str_arg (v ∷ []) fn = elim (type_of v) [
  | string_type ↦ get_string v
  | _ ↦ throws (expects_one_string fn)
]
str_arg _ fn = throws (expects_one_string fn)

abbrev upper_digits : Bytes
upper_digits = codes "0123456789ABCDEF"

abbrev lower_digits : Bytes
lower_digits = codes "0123456789abcdef"

-- `hex[c >> 4]` and `hex[c & 0x0F]`
unfoldable pub hex_pair : Bytes → ℕ → Bytes
hex_pair digits c = get_or digits (c / 2 ^ 4) 0 ∷ get_or digits (bit_and c 0x0f) 0 ∷ []

abbrev pub unreserved : ℕ → Bool
unreserved c = is_alnum c || c == b'-' || c == b'_' || c == b'.' || c == b'~'

-- The loop of `UrlEncode`.
unfoldable pub url_encode_loop : Bytes → Bytes
unfolding hex_pair
url_encode_loop [] = []
url_encode_loop (c ∷ cs) =
    (if unreserved c then c ∷ [] else b'%' ∷ hex_pair upper_digits c) ++ url_encode_loop cs

unfoldable pub url_encode : List Value → Result Value
unfolding url_encode_loop str_arg
url_encode args = do text ← str_arg args "url_encode"; ok (string (url_encode_loop text))

-- `hexVal`; `none` stands for -1.
unfoldable pub hex_val : ℕ → Option ℕ
hex_val c =
    if within b'0' b'9' c
    then some (c - b'0')
    else if within b'a' b'f' c
    then some (c - b'a' + 10)
    else if within b'A' b'F' c
    then some (c - b'A' + 10)
    else none

-- `(hi << 4) | lo`, where both are digits.
unfoldable pub hex_byte : ℕ → ℕ → Option ℕ
unfolding hex_val
hex_byte h l = elim (hex_val h) [
  | none ↦ none
  | some hi ↦ elim (hex_val l) [ none ↦ none | some lo ↦ some (bit_or (hi * 2 ^ 4) lo) ]
]

abbrev plus_to_space : ℕ → ℕ
plus_to_space c = if c == b'+' then b' ' else c

-- The loop of `UrlDecode`: the test `i + 2 < in.size()` is a match on two further bytes.
unfoldable pub url_decode_loop : Bytes → Bytes
unfolding hex_byte
url_decode_loop [] = []
url_decode_loop (c ∷ []) = plus_to_space c ∷ []
url_decode_loop (c ∷ d ∷ []) = plus_to_space c ∷ url_decode_loop (d ∷ [])
url_decode_loop (c ∷ h ∷ l ∷ rest) =
    let escaped = url_decode_loop rest in
    let plain = url_decode_loop (h ∷ l ∷ rest) in
    elim (if c == b'%' then hex_byte h l else none) [
      | some b ↦ b ∷ escaped
      | none ↦ plus_to_space c ∷ plain
    ]

unfoldable pub url_decode : List Value → Result Value
unfolding url_decode_loop str_arg
url_decode args = do text ← str_arg args "url_decode"; ok (string (url_decode_loop text))

-- The loop of `HexEncode`.
unfoldable pub hex_encode_loop : Bytes → Bytes
unfolding hex_pair
hex_encode_loop [] = []
hex_encode_loop (c ∷ cs) = hex_pair lower_digits c ++ hex_encode_loop cs

unfoldable pub hex_encode : List Value → Result Value
unfolding hex_encode_loop str_arg
hex_encode args = do text ← str_arg args "hex_encode"; ok (string (hex_encode_loop text))

abbrev pub invalid_digit : Error
invalid_digit = runtime_error "hex_decode: invalid hex digit"

abbrev pub odd_length : Error
odd_length = runtime_error "hex_decode: input length must be even"

-- The loop of `HexDecode`; it runs on an even number of digits.
unfoldable pub hex_decode_loop : Bytes → Result Bytes
unfolding hex_byte
hex_decode_loop [] = ok []
hex_decode_loop (h ∷ []) = throws odd_length
hex_decode_loop (h ∷ l ∷ rest) =
    let later = hex_decode_loop rest in
    elim (hex_byte h l) [ none ↦ throws invalid_digit | some b ↦ later >>= λ bs. ok (b ∷ bs) ]

unfoldable pub hex_decode : List Value → Result Value
unfolding hex_decode_loop str_arg
hex_decode args = do
  text ← str_arg args "hex_decode"
  (if not (length text % 2 == 0)
      then throws odd_length
      else (hex_decode_loop text >>= λ bytes. ok (string bytes)))

-- The loop of `HtmlEscape`.
unfoldable pub html_escape_loop : Bytes → Bytes
html_escape_loop [] = []
html_escape_loop (c ∷ cs) =
    (if c == b'&'
      then codes "&amp;"
      else if c == b'<'
      then codes "&lt;"
      else if c == b'>'
      then codes "&gt;"
      else if c == b'"'
      then codes "&quot;"
      else if c == b'\''
      then codes "&#39;"
      else c ∷ [])
    ++ html_escape_loop cs

unfoldable pub html_escape : List Value → Result Value
unfolding html_escape_loop str_arg
html_escape args = do text ← str_arg args "html_escape"; ok (string (html_escape_loop text))

-- `in.compare(i, n, entity) == 0`, on the text from `i`.
abbrev pub starts_with : Bytes → Bytes → Bool
starts_with entity text = bytes_eq (take (length entity) text) entity

-- The entity at the head of the text: its character, and how many bytes of it follow the first.
unfoldable pub entity_at : Bytes → Option (ℕ × ℕ)
entity_at text =
    if starts_with (codes "&amp;") text
    then some (b'&', 4)
    else if starts_with (codes "&lt;") text
    then some (b'<', 3)
    else if starts_with (codes "&gt;") text
    then some (b'>', 3)
    else if starts_with (codes "&quot;") text
    then some (b'"', 5)
    else if starts_with (codes "&#39;") text
    then some (b'\'', 4)
    else none

-- The loop of `HtmlUnescape`; the first argument is how many more bytes `i += n` steps over.
unfoldable pub html_unescape_loop : ℕ → Bytes → Bytes
unfolding entity_at
html_unescape_loop skip [] = []
html_unescape_loop (suc skip) (c ∷ cs) = html_unescape_loop skip cs
html_unescape_loop zero (c ∷ cs) = elim (entity_at (c ∷ cs)) [
  | some (e, more) ↦ e ∷ html_unescape_loop more cs
  | none ↦ c ∷ html_unescape_loop 0 cs
]

unfoldable pub html_unescape : List Value → Result Value
unfolding html_unescape_loop str_arg
html_unescape args = do text ← str_arg args "html_unescape"; ok (string (html_unescape_loop 0 text))

unfoldable pub ord : List Value → Result Value
unfolding str_arg
ord args = do
  text ← str_arg args "ord"
  elim text [
    | [] ↦ throws (runtime_error "ord: expects a non-empty string")
    | c ∷ _ ↦ ok (integer (pos c))
  ]

-- `code < 0 || code > 255` throws; the byte is a string of length 1.
abbrev chr_code : ℤ → Result Value
chr_code (pos n) =
    if leb n 255 then ok (string (n ∷ [])) else throws (runtime_error "chr: code must be 0-255")
chr_code (negsuc _) = throws (runtime_error "chr: code must be 0-255")

unfoldable pub chr : List Value → Result Value
unfolding get_int type_of
chr (v ∷ []) = elim (type_of v) [
  | integer_type ↦ get_int v >>= chr_code
  | _ ↦ throws (runtime_error "chr expects one integer argument")
]
chr _ = throws (runtime_error "chr expects one integer argument")
