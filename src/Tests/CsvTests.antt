-- ===== src/Tests/CsvTests.antt =====
-- src/Modules/BuiltIn/CsvModule.hpp and the values of src/Symbols at fixed inputs.
use voidscript.Base.{List, [], ◌∷◌, codes, Bytes, ◌≡◌, refl, arith}
use voidscript.Csv.RoundTrip.{parse-encode, IsDelimiter}
use voidscript.Csv.{parse, encode, rows_value, parse_rows}
use voidscript.Tests.OperatorTests.{numbers}
use voidscript.Value.Maps.Arrays.{indexed-array_of}
use voidscript.Value.Maps.{indexed, array_of}
use voidscript.Value.{string, object, ok, ◌>>=◌}

parse_test :
    parse_rows b',' (codes "a,\"b,\"\"\"\n\nc")
    ≡ (codes "a" ∷ codes "b,\"" ∷ []) ∷ ([] ∷ []) ∷ (codes "c" ∷ []) ∷ []
unfolding parse_rows
parse_test = refl

semicolon-IsDelimiter : IsDelimiter b';'
semicolon-IsDelimiter = record {
  ne_quote = λ e. ground arith;
  ne_newline = λ e. ground arith;
  ne_return = λ e. ground arith;
}

abbrev two_rows : List (List Bytes)
two_rows = (codes "a;\"" ∷ [] ∷ []) ∷ ([] ∷ []) ∷ []

parse-encode_example :
    (encode numbers (rows_value two_rows ∷ string (b';' ∷ []) ∷ []) >>= λ v.
    parse (v ∷ string (b';' ∷ []) ∷ []))
    ≡ ok (rows_value two_rows)
parse-encode_example =
    parse-encode b';' semicolon-IsDelimiter numbers two_rows (λ e. cc, (λ e. cc, tt))

indexed-array_of_example :
    indexed (object (array_of (string (codes "x") ∷ string (codes "y") ∷ [])))
    ≡ string (codes "x") ∷ string (codes "y") ∷ []
indexed-array_of_example = indexed-array_of (string (codes "x") ∷ string (codes "y") ∷ [])
