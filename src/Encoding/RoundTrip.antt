-- ===== src/Encoding/RoundTrip.antt =====
-- What the decoders of src/Modules/BuiltIn/EncodingModule.hpp do with the encoders' output.
use voidscript.Base.{
  ℕ, ◌%◌, ◌<◌, Bool, true, false, [], ◌∷◌, ◌++◌, ◌≡◌, refl, ap, inl, inr, Option, none, some, arith,
  Bytes, IsBytes, every_below, every_below_sound, ◌==◌, ==_iff, Bool-cases, length, get_or, bit_and,
  ◌/◌, ◌^◌, ◌∙◌,
}
use voidscript.Value.{string, ok, ◌>>=◌}
use voidscript.Encoding.{
  upper_digits, lower_digits, hex_pair, hex_byte, unreserved, url_encode_loop, url_encode,
  url_decode_loop, url_decode, hex_encode_loop, hex_encode, hex_decode_loop, hex_decode,
  html_escape_loop, html_escape, html_unescape_loop, html_unescape,
}

-- Does this digit table write the byte so that `hex_byte` reads it back?
abbrev gives : ℕ → Option ℕ → Bool
gives c none = false
gives c (some b) = b == c

abbrev reads_back : Bytes → ℕ → Bool
reads_back digits c =
    gives c (hex_byte (get_or digits (c / 2 ^ 4) 0) (get_or digits (bit_and c 0x0f) 0))

upper_table : every_below 256 (reads_back upper_digits) ≡ true
unfolding every_below hex_byte
upper_table = refl

lower_table : every_below 256 (reads_back lower_digits) ≡ true
unfolding every_below hex_byte
lower_table = refl

gives-eq : (c : ℕ) (o : Option ℕ) → gives c o ≡ true → o ≡ some c
gives-eq c none h = cc
gives-eq c (some b) h = ap some ((==_iff b c).0 h)

module _ (digits : Bytes) (table : every_below 256 (reads_back digits) ≡ true) where
  hex_byte-digits :
      (c : ℕ)
      → c < 256
      → hex_byte (get_or digits (c / 2 ^ 4) 0) (get_or digits (bit_and c 0x0f) 0) ≡ some c
  hex_byte-digits c lt = gives-eq c _ (every_below_sound 256 (reads_back digits) c table lt)

  url_decode_loop-hex_pair :
      (c : ℕ) (rest : Bytes)
      → c < 256
      → url_decode_loop (b'%' ∷ (hex_pair digits c ++ rest)) ≡ c ∷ url_decode_loop rest
  unfolding url_decode_loop hex_pair
  url_decode_loop-hex_pair c rest lt = rw (hex_byte-digits c lt, url_decode_loop)

  hex_decode_loop-hex_pair :
      (c : ℕ) (rest : Bytes)
      → c < 256
      → hex_decode_loop (hex_pair digits c ++ rest) ≡ (hex_decode_loop rest >>= λ bs. ok (c ∷ bs))
  unfolding hex_decode_loop hex_pair
  hex_decode_loop-hex_pair c rest lt = rw (hex_byte-digits c lt, hex_decode_loop)

url_decode_loop-unreserved :
    (c : ℕ) (rest : Bytes)
    → unreserved c ≡ true
    → url_decode_loop (c ∷ rest) ≡ c ∷ url_decode_loop rest
unfolding url_decode_loop
url_decode_loop-unreserved c [] h = ground arith
url_decode_loop-unreserved c (d ∷ []) h = ground arith
url_decode_loop-unreserved c (d ∷ e ∷ rest) h = ground arith

url_decode_loop-url_encode_loop : (s : Bytes) → IsBytes s → url_decode_loop (url_encode_loop s) ≡ s
unfolding url_encode_loop
url_decode_loop-url_encode_loop [] h = unfold url_decode_loop in refl
url_decode_loop-url_encode_loop (c ∷ cs) (lt, h) = elim (Bool-cases (unreserved c)) [
  | inl plain ↦
      rw plain
        (url_decode_loop-unreserved c _ plain ∙ ap (◌∷◌ c) (url_decode_loop-url_encode_loop cs h))
  | inr escaped ↦ rw escaped (
      url_decode_loop-hex_pair upper_digits upper_table c _ lt
      ∙ ap (◌∷◌ c) (url_decode_loop-url_encode_loop cs h))
]

hex_decode_loop-hex_encode_loop :
    (s : Bytes) → IsBytes s → hex_decode_loop (hex_encode_loop s) ≡ ok s
unfolding hex_encode_loop
hex_decode_loop-hex_encode_loop [] h = unfold hex_decode_loop in refl
hex_decode_loop-hex_encode_loop (c ∷ cs) (lt, h) =
    hex_decode_loop-hex_pair lower_digits lower_table c _ lt
    ∙ rw (hex_decode_loop-hex_encode_loop cs h)

length-hex_encode_loop : (s : Bytes) → length (hex_encode_loop s) % 2 ≡ 0
unfolding hex_encode_loop hex_pair
length-hex_encode_loop [] = refl
length-hex_encode_loop (c ∷ cs) = omega (arith, length-hex_encode_loop cs)

-- Decoding an URL-encoded string gives back the string, whatever bytes it holds.
pub url_decode-url_encode :
    (s : Bytes)
    → IsBytes s
    → (url_encode (string s ∷ []) >>= λ v. url_decode (v ∷ [])) ≡ ok (string s)
unfolding url_encode url_decode
url_decode-url_encode s h = rw (url_decode_loop-url_encode_loop s h)

-- Decoding a hex-encoded string gives back the string, whatever bytes it holds.
pub hex_decode-hex_encode :
    (s : Bytes)
    → IsBytes s
    → (hex_encode (string s ∷ []) >>= λ v. hex_decode (v ∷ [])) ≡ ok (string s)
unfolding hex_encode hex_decode
hex_decode-hex_encode s h = rw (length-hex_encode_loop s, hex_decode_loop-hex_encode_loop s h)

html_unescape_loop-html_escape_loop : (s : Bytes) → html_unescape_loop 0 (html_escape_loop s) ≡ s
unfolding html_escape_loop html_unescape_loop
html_unescape_loop-html_escape_loop [] = refl
html_unescape_loop-html_escape_loop (c ∷ cs) =
    ground (arith, html_unescape_loop-html_escape_loop cs)

-- Unescaping an HTML-escaped string gives back the string, whatever it holds.
pub html_unescape-html_escape :
    (s : Bytes) → (html_escape (string s ∷ []) >>= λ v. html_unescape (v ∷ [])) ≡ ok (string s)
unfolding html_escape html_unescape
html_unescape-html_escape s = rw (html_unescape_loop-html_escape_loop s)
