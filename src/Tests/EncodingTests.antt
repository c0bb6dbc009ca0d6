-- ===== src/Tests/EncodingTests.antt =====
-- src/Modules/BuiltIn/EncodingModule.hpp at fixed inputs.
use voidscript.Base.{[], ◌∷◌, codes, Bytes, IsBytes, ◌≡◌, refl, arith}
use voidscript.Encoding.Output.{hex_decode_lem}
use voidscript.Encoding.RoundTrip.{
  url_decode-url_encode, hex_decode-hex_encode, html_unescape-html_escape,
}
use voidscript.Encoding.{
  url_encode, url_decode, hex_encode, hex_decode, html_escape, html_unescape, invalid_digit,
  hex_val,
}
use voidscript.Value.{string, ok, throws, ◌>>=◌}

url_encode_test : url_encode (string (codes "a b&c") ∷ []) ≡ ok (string (codes "a%20b%26c"))
unfolding url_encode
url_encode_test = refl

url_decode_test : url_decode (string (codes "a+b%26c%2") ∷ []) ≡ ok (string (codes "a b&c%2"))
unfolding url_decode
url_decode_test = refl

hex_test : hex_decode (string (codes "6A6b") ∷ []) ≡ ok (string (codes "jk"))
unfolding hex_decode
hex_test = refl

html_test :
    html_unescape (string (codes "&lt;a&gt; &amp;lt; &x;") ∷ [])
    ≡ ok (string (codes "<a> &lt; &x;"))
unfolding html_unescape
html_test = refl

abbrev two_bytes : Bytes
two_bytes = b'&' ∷ 200 ∷ []

two_bytes-IsBytes : IsBytes two_bytes
two_bytes-IsBytes = (omega arith, (omega arith, tt))

url_decode-url_encode_example :
    (url_encode (string two_bytes ∷ []) >>= λ v. url_decode (v ∷ [])) ≡ ok (string two_bytes)
url_decode-url_encode_example = url_decode-url_encode two_bytes two_bytes-IsBytes

hex_decode-hex_encode_example :
    (hex_encode (string two_bytes ∷ []) >>= λ v. hex_decode (v ∷ [])) ≡ ok (string two_bytes)
hex_decode-hex_encode_example = hex_decode-hex_encode two_bytes two_bytes-IsBytes

html_unescape-html_escape_example :
    (html_escape (string (codes "<a>&lt;") ∷ []) >>= λ v. html_unescape (v ∷ []))
    ≡ ok (string (codes "<a>&lt;"))
html_unescape-html_escape_example = html_unescape-html_escape (codes "<a>&lt;")

hex_decode_lem_example : hex_decode (string (codes "6g") ∷ []) ≡ throws invalid_digit
unfolding hex_val
hex_decode_lem_example = hex_decode_lem (codes "6g")
