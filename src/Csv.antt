-- ===== src/Csv.antt =====
-- src/Modules/BuiltIn/CsvModule.hpp: `csv_parse` and `csv_encode`.
pub mod RoundTrip
use voidscript.Base.{
  ℕ, Bool, true, false, not, ◌&&◌, ◌||◌, List, [], ◌∷◌, ◌++◌, map, Option, none, some, Bytes,
  String, codes, ◌==◌, if◌then◌else◌,
}
use voidscript.Value.{
  Value, string, object, VarType, string_type, object_type, class_type, Error, runtime_error,
  Result, ok, throws, ◌>>=◌, type_of, get_string,
}
use voidscript.Value.Floats.{Floats}
use voidscript.Value.Maps.{array_of, indexed}
use voidscript.Value.Print.{to_string}

abbrev delimiter_type : Error
delimiter_type = runtime_error "delimiter must be a string"

abbrev delimiter_size : Error
delimiter_size = runtime_error "delimiter must be a single character"

-- `delimiterOf`: the second argument, if there is one.
unfoldable pub delimiter_of : List Value → Result ℕ
unfolding type_of get_string
delimiter_of (_ ∷ v ∷ _) = elim (type_of v) [
  | string_type ↦ get_string v >>= λ d. elim d [
    | c ∷ cs ↦ elim cs [ [] ↦ ok c | _ ↦ throws delimiter_size ]
    | [] ↦ throws delimiter_size
  ]
  | _ ↦ throws delimiter_type
]
delimiter_of _ = ok b','

-- The variables of the loop of `Parse`.
pub record Parser : Type 0 where
  pub rows : List (List Bytes)
  pub row : List Bytes
  pub field : Bytes
  pub in_quotes : Bool
  pub saw_any : Bool

abbrev pub start : Parser
start = record { rows = []; row = []; field = []; in_quotes = false; saw_any = false }

abbrev pub end_field : Parser → Parser
end_field p = record p { row = p.row ++ p.field ∷ []; field = [] }

abbrev pub end_row : Parser → Parser
end_row p = record p {
  rows = p.rows ++ (p.row ++ p.field ∷ []) ∷ [];
  row = [];
  field = [];
  saw_any = false;
}

abbrev pub push : ℕ → Parser → Parser
push c p = record p { field = p.field ++ c ∷ [] }

-- The body of the loop for one character, an escaped quote aside.
unfoldable pub step : ℕ → ℕ → Parser → Parser
step delim c p =
    if p.in_quotes
    then if c == b'"' then record p { in_quotes = false } else push c p
    else if c == b'"'
    then record p { in_quotes = true; saw_any = true }
    else if c == delim
    then record (end_field p) { saw_any = true }
    else if c == b'\n'
    then end_row p
    else if c == b'\r'
    then p
    else record (push c p) { saw_any = true }

-- The loop: `""` inside quotes is one quote, and `++i` steps over the second.
unfoldable pub parse_loop : ℕ → Bytes → Parser → Parser
unfolding step
parse_loop delim [] p = p
parse_loop delim (c ∷ []) p = step delim c p
parse_loop delim (c ∷ n ∷ rest) p =
    let escaped = parse_loop delim rest (push b'"' p) in
    let plain = parse_loop delim (n ∷ rest) (step delim c p) in
    if p.in_quotes && c == b'"' && n == b'"' then escaped else plain

abbrev is_empty {ℓ} : {A : Type ℓ} → List A → Bool
is_empty [] = true
is_empty (_ ∷ _) = false

-- The trailing row, unless the input ended on a newline with nothing after it.
unfoldable pub finish : Parser → List (List Bytes)
finish p =
    if p.saw_any || not (is_empty p.field) || not (is_empty p.row) then (end_row p).rows else p.rows

unfoldable pub parse_rows : ℕ → Bytes → List (List Bytes)
unfolding parse_loop finish
parse_rows delim text = finish (parse_loop delim text start)

-- The rows as an array of arrays of strings.
abbrev pub row_value : List Bytes → Value
row_value row = object (array_of (map string row))

abbrev pub rows_value : List (List Bytes) → Value
rows_value rows = object (array_of (map row_value rows))

abbrev parse_usage : Error
parse_usage = runtime_error "csv_parse expects (string text [, string delimiter])"

unfoldable pub parse : List Value → Result Value
unfolding parse_rows delimiter_of type_of get_string
parse [] = throws parse_usage
parse (v ∷ rest) = elim (type_of v) [
  | string_type ↦ do
    text ← get_string v
    delim ← delimiter_of (v ∷ rest)
    ok (rows_value (parse_rows delim text))
  | _ ↦ throws parse_usage
]

-- `s.find(c) != npos`
unfoldable pub contains : ℕ → Bytes → Bool
contains c [] = false
contains c (x ∷ xs) = x == c || contains c xs

abbrev pub doubled : Bytes → Bytes
doubled [] = []
doubled (c ∷ cs) = (if c == b'"' then b'"' ∷ b'"' ∷ [] else c ∷ []) ++ doubled cs

unfoldable pub quote_field : ℕ → Bytes → Bytes
unfolding contains
quote_field delim s =
    if contains delim s || contains b'"' s || contains b'\n' s || contains b'\r' s
    then b'"' ∷ (doubled s ++ b'"' ∷ [])
    else s

-- The columns of one row; the flag is `c == 0`.
unfoldable pub encode_columns : ℕ → Bool → List Bytes → Bytes
unfolding quote_field
encode_columns delim first [] = []
encode_columns delim first (s ∷ ss) =
    (if first then [] else delim ∷ []) ++ (quote_field delim s ++ encode_columns delim false ss)

unfoldable pub encode_rows : ℕ → List (List Bytes) → Bytes
unfolding encode_columns
encode_rows delim [] = []
encode_rows delim (r ∷ rs) = encode_columns delim true r ++ (b'\n' ∷ encode_rows delim rs)

abbrev encode_usage : Error
encode_usage = runtime_error "csv_encode expects (array rows [, string delimiter])"

module _ (fl : Floats) where
  -- `indexed`, and `toString` on each column.
  abbrev pub columns : Value → List Bytes
  columns row = map (to_string fl) (indexed row)

  abbrev encode_array : Value → List Value → Result Value
  encode_array v rest = do
    delim ← delimiter_of (v ∷ rest)
    ok (string (encode_rows delim (map columns (indexed v))))

  unfoldable pub encode : List Value → Result Value
  unfolding encode_rows delimiter_of indexed to_string type_of
  encode [] = throws encode_usage
  encode (v ∷ rest) = elim (type_of v) [
    | object_type ↦ encode_array v rest
    | class_type ↦ encode_array v rest
    | _ ↦ throws encode_usage
  ]
