-- ===== src/Csv/RoundTrip.antt =====
-- `csv_parse` reads back what `csv_encode` writes.
use mathlib.Core.List.{append-nil, append_assoc}
use voidscript.Base.{
  ℕ, Bool, true, false, ◌||◌, List, [], ◌∷◌, ◌++◌, map, ◌≡◌, ◌≢◌, refl, ap, ◌∙◌, arith, inl, inr,
  Bool-cases, Bytes, ◌==◌, ==_iff, All,
}
use mathlib.Core.Path.{ap₂}
use voidscript.Value.Floats.{Floats}
use voidscript.Value.Maps.Arrays.{indexed-array_of}
use voidscript.Value.Print.{to_string}
use voidscript.Value.{Value, string, ok, ◌>>=◌, type_of, get_string}
use voidscript.Csv.{
  columns, Parser, step, parse_loop, finish, parse_rows, contains, doubled, quote_field,
  encode_columns, encode_rows, row_value, rows_value, parse, encode, delimiter_of,
}

-- A delimiter that is none of the characters with a meaning of their own.
pub record IsDelimiter (d : ℕ) : Type 0 where
  pub ne_quote : d ≢ b'"'
  pub ne_newline : d ≢ b'\n'
  pub ne_return : d ≢ b'\r'

abbrev at : List (List Bytes) → List Bytes → Bytes → Bool → Bool → Parser
at rows row field q b = record { rows = rows; row = row; field = field; in_quotes = q; saw_any = b }

module _ (d : ℕ) (rows : List (List Bytes)) where
  -- A character outside quotes takes one step.
  parse_loop-outside :
      (c : ℕ) (rest : Bytes) (row : List Bytes) (f : Bytes) (b : Bool)
      → parse_loop d (c ∷ rest) (at rows row f false b)
        ≡ parse_loop d rest (step d c (at rows row f false b))
  unfolding parse_loop
  parse_loop-outside c [] row f b = refl
  parse_loop-outside c (n ∷ rest) row f b = refl

  parse_loop-open :
      (rest : Bytes) (row : List Bytes) (f : Bytes) (b : Bool)
      → parse_loop d (b'"' ∷ rest) (at rows row f false b)
        ≡ parse_loop d rest (at rows row f true true)
  unfolding parse_loop step
  parse_loop-open [] row f b = refl
  parse_loop-open (n ∷ rest) row f b = refl

  parse_loop-inside :
      (c : ℕ) (rest : Bytes) (row : List Bytes) (f : Bytes)
      → (c == b'"') ≡ false
      → parse_loop d (c ∷ rest) (at rows row f true true)
        ≡ parse_loop d rest (at rows row (f ++ c ∷ []) true true)
  unfolding parse_loop step
  parse_loop-inside c [] row f h = rw h
  parse_loop-inside c (n ∷ rest) row f h = rw h

  parse_loop-escaped :
      (rest : Bytes) (row : List Bytes) (f : Bytes)
      → parse_loop d (b'"' ∷ b'"' ∷ rest) (at rows row f true true)
        ≡ parse_loop d rest (at rows row (f ++ b'"' ∷ []) true true)
  unfolding parse_loop
  parse_loop-escaped rest row f = refl

  parse_loop-close :
      (t : ℕ) (rest : Bytes) (row : List Bytes) (f : Bytes)
      → (t == b'"') ≡ false
      → parse_loop d (b'"' ∷ t ∷ rest) (at rows row f true true)
        ≡ parse_loop d (t ∷ rest) (at rows row f false true)
  unfolding parse_loop step
  parse_loop-close t rest row f h = rw h

  abbrev special : Bytes → Bool
  special s = contains d s || contains b'"' s || contains b'\n' s || contains b'\r' s

  special-cons :
      (c : ℕ) (s : Bytes)
      → special (c ∷ s) ≡ false
      → ((c == d) ≡ false)
        × ((c == b'"') ≡ false)
        × ((c == b'\n') ≡ false)
        × ((c == b'\r') ≡ false)
        × (special s ≡ false)
  unfolding contains
  special-cons c s h = ground arith

  step-plain :
      (c : ℕ) (row : List Bytes) (f : Bytes) (b : Bool)
      → (c == d) ≡ false
      → (c == b'"') ≡ false
      → (c == b'\n') ≡ false
      → (c == b'\r') ≡ false
      → step d c (at rows row f false b) ≡ at rows row (f ++ c ∷ []) false true
  unfolding step
  step-plain c row f b h k l m = rw (h, k, l, m)

  -- A field with no special character is read as it stands.
  parse_loop-plain :
      (s rest : Bytes) (row : List Bytes) (f : Bytes) (b : Bool)
      → special s ≡ false
      → (b' : Bool) × (parse_loop d (s ++ rest) (at rows row f false b)
          ≡ parse_loop d rest (at rows row (f ++ s) false b'))
  parse_loop-plain [] rest row f b h = (b, rw append-nil)
  parse_loop-plain (c ∷ s) rest row f b h =
      let (h₁, h₂, h₃, h₄, h₅) = special-cons c s h in
      let (b', ih) = parse_loop-plain s rest row (f ++ c ∷ []) true h₅ in
      (
        b',
        parse_loop-outside c (s ++ rest) row f b
            ∙ ap (parse_loop d (s ++ rest)) (step-plain c row f b h₁ h₂ h₃ h₄)
            ∙ ih
            ∙ ap (λ g. parse_loop d rest (at rows row g false b')) (append_assoc f (c ∷ []) s),
      )

  -- A quoted field is read up to its closing quote.
  parse_loop-doubled :
      (s : Bytes) (t : ℕ) (rest : Bytes) (row : List Bytes) (f : Bytes)
      → (t == b'"') ≡ false
      → parse_loop d (doubled s ++ (b'"' ∷ t ∷ rest)) (at rows row f true true)
        ≡ parse_loop d (t ∷ rest) (at rows row (f ++ s) false true)
  parse_loop-doubled [] t rest row f h = rw append-nil (parse_loop-close t rest row f h)
  parse_loop-doubled (c ∷ s) t rest row f h = elim (Bool-cases (c == b'"')) [
    | inl quote ↦
        rw (quote, (==_iff c b'"').0 quote)
          (parse_loop-escaped (doubled s ++ (b'"' ∷ t ∷ rest)) row f
            ∙ parse_loop-doubled s t rest row (f ++ b'"' ∷ []) h
            ∙ ap (λ g. parse_loop d (t ∷ rest) (at rows row g false true))
                (append_assoc f (b'"' ∷ []) s))
    | inr other ↦ rw other (
        parse_loop-inside c (doubled s ++ (b'"' ∷ t ∷ rest)) row f other
        ∙ parse_loop-doubled s t rest row (f ++ c ∷ []) h
        ∙ ap (λ g. parse_loop d (t ∷ rest) (at rows row g false true)) (append_assoc f (c ∷ []) s))
  ]

  -- What `quote_field` writes is read as the field, up to a terminator.
  parse_loop-quote_field :
      (s : Bytes) (t : ℕ) (rest : Bytes) (row : List Bytes) (b : Bool)
      → (t == b'"') ≡ false
      → (b' : Bool) × (parse_loop d (quote_field d s ++ (t ∷ rest)) (at rows row [] false b)
          ≡ parse_loop d (t ∷ rest) (at rows row s false b'))
  unfolding quote_field
  parse_loop-quote_field s t rest row b h = elim (Bool-cases (special s)) [
    | inl yes_special ↦ (
      true,
      rw (yes_special, append_assoc)
          (parse_loop-open _ row [] b ∙ parse_loop-doubled s t rest row [] h),
    )
    | inr no_special ↦ rw no_special (parse_loop-plain s (t ∷ rest) row [] b no_special)
  ]

-- The text begins with a character that is no quote.
Terminated : Bytes → Type 0
Terminated u = (t : ℕ) × (rest : Bytes) × (u ≡ t ∷ rest) × ((t == b'"') ≡ false)

module _ (d : ℕ) (valid : IsDelimiter d) where
  columns-Terminated :
      (ss : List Bytes) (rest : Bytes) → Terminated (encode_columns d false ss ++ (b'\n' ∷ rest))
  unfolding encode_columns Terminated
  columns-Terminated [] rest = (b'\n', rest, refl, refl)
  columns-Terminated (s ∷ ss) rest = (d, _, refl, ground (arith, valid.ne_quote))

  module _ (rows : List (List Bytes)) where
    parse_loop-newline :
        (rest : Bytes) (row : List Bytes) (f : Bytes) (b : Bool)
        → parse_loop d (b'\n' ∷ rest) (at rows row f false b)
          ≡ parse_loop d rest (at (rows ++ (row ++ f ∷ []) ∷ []) [] [] false false)
    parse_loop-newline rest row f b =
        parse_loop-outside d rows b'\n' rest row f b
        ∙ ap (parse_loop d rest) (unfold step in ground (arith, valid.ne_newline))

    parse_loop-delimiter :
        (rest : Bytes) (row : List Bytes) (f : Bytes) (b : Bool)
        → parse_loop d (d ∷ rest) (at rows row f false b)
          ≡ parse_loop d rest (at rows (row ++ f ∷ []) [] false true)
    parse_loop-delimiter rest row f b =
        parse_loop-outside d rows d rest row f b
        ∙ ap (parse_loop d rest) (unfold step in ground (arith, valid.ne_quote))

    parse_loop-field :
        (s u : Bytes) (row : List Bytes) (b : Bool)
        → Terminated u
        → (b' : Bool) × (parse_loop d (quote_field d s ++ u) (at rows row [] false b)
            ≡ parse_loop d u (at rows row s false b'))
    unfolding Terminated
    parse_loop-field s u row b (t, rest, e, h) =
        rw e (parse_loop-quote_field d rows s t rest row b h)

    parse_loop-columns :
        (s : Bytes) (ss : List Bytes) (rest : Bytes) (row : List Bytes) (b : Bool)
        → parse_loop d (encode_columns d false ss ++ (b'\n' ∷ rest)) (at rows row s false b)
          ≡ parse_loop d rest (at (rows ++ (row ++ s ∷ ss) ∷ []) [] [] false false)
    unfolding encode_columns
    parse_loop-columns s [] rest row b = parse_loop-newline rest row s b
    parse_loop-columns s (s' ∷ ss) rest row b =
        let u = encode_columns d false ss ++ (b'\n' ∷ rest) in
        let (b', read) = parse_loop-field s' u (row ++ s ∷ []) true (columns-Terminated ss rest) in
        rw (append_assoc (quote_field d s') (encode_columns d false ss) (b'\n' ∷ rest)) (
          parse_loop-delimiter (quote_field d s' ++ u) row s b
          ∙ read
          ∙ parse_loop-columns s' ss rest (row ++ s ∷ []) b'
          ∙ ap (λ r. parse_loop d rest (at (rows ++ r ∷ []) [] [] false false))
              (append_assoc row (s ∷ []) (s' ∷ ss)))

    parse_loop-row :
        (s : Bytes) (ss : List Bytes) (rest : Bytes)
        → parse_loop d
            (encode_columns d true (s ∷ ss) ++ (b'\n' ∷ rest))
            (at rows [] [] false false)
          ≡ parse_loop d rest (at (rows ++ (s ∷ ss) ∷ []) [] [] false false)
    unfolding encode_columns
    parse_loop-row s ss rest =
        let u = encode_columns d false ss ++ (b'\n' ∷ rest) in
        let (b', read) = parse_loop-field s u [] false (columns-Terminated ss rest) in
        rw (append_assoc (quote_field d s) (encode_columns d false ss) (b'\n' ∷ rest))
          (read ∙ parse_loop-columns s ss rest [] b')

  parse_loop-rows :
      (rs rows : List (List Bytes))
      → All (λ r. r ≢ []) rs
      → parse_loop d (encode_rows d rs) (at rows [] [] false false)
        ≡ at (rows ++ rs) [] [] false false
  unfolding encode_rows
  parse_loop-rows [] rows h = unfold parse_loop in rw append-nil
  parse_loop-rows ([] ∷ rs) rows (h, hs) = absurd (h refl)
  parse_loop-rows ((s ∷ ss) ∷ rs) rows (h, hs) =
      parse_loop-row rows s ss (encode_rows d rs)
      ∙ parse_loop-rows rs (rows ++ (s ∷ ss) ∷ []) hs
      ∙ rw append_assoc

  -- Rows of at least one column each are read back, whatever their fields hold.
  pub parse_rows-encode_rows :
      (rs : List (List Bytes)) → All (λ r. r ≢ []) rs → parse_rows d (encode_rows d rs) ≡ rs
  unfolding parse_rows finish
  parse_rows-encode_rows rs h = rw (parse_loop-rows rs [] h)

  abbrev delimiter_args : Value → List Value
  delimiter_args v = v ∷ string (d ∷ []) ∷ []

  module _ (fl : Floats) where
    map-to_string : (row : List Bytes) → map (to_string fl) (map string row) ≡ row
    unfolding to_string
    map-to_string [] = refl
    map-to_string (s ∷ ss) = ap (◌∷◌ s) (map-to_string ss)

    columns-row_value : (rs : List (List Bytes)) → map (columns fl) (map row_value rs) ≡ rs
    columns-row_value [] = refl
    columns-row_value (r ∷ rs) =
        ap₂ ◌∷◌ (rw indexed-array_of (map-to_string r)) (columns-row_value rs)

    -- For a delimiter that is no double quote and no line break, and rows of at least one field
    -- each, `csv_parse` gives back the array of arrays of strings that `csv_encode` was given,
    -- whatever characters the fields hold.
    pub parse-encode :
        (rs : List (List Bytes))
        → All (λ r. r ≢ []) rs
        → (encode fl (delimiter_args (rows_value rs)) >>= λ v. parse (delimiter_args v))
          ≡ ok (rows_value rs)
    unfolding encode parse delimiter_of type_of get_string
    parse-encode rs h = rw (indexed-array_of, columns-row_value rs, parse_rows-encode_rows rs h)
