-- ===== src/Interpreter/Scopes/Names.antt =====
-- The names of the scopes that loops and calls make, told apart by what follows the last colon.
use voidscript.Base.{
  ℕ, zero, suc, ◌+◌, ◌/◌, ◌%◌, ◌<◌, ◌≤◌, ◌≡◌, refl, sym, ap, ◌∙◌, Bool, true, false, ◌||◌, [], ◌∷◌,
  ◌++◌, arith, Bytes, bytes_eq, bytes_eq_iff, codes, ltb, ◌==◌, if◌then◌else◌, Bool-cases, inl, inr,
}
use voidscript.Interpreter.Functions.{call_scope_name}
use voidscript.Symbols.Table.{separator}
use voidscript.Value.Decimal.{decimal, decimal-injective, digits}

unfoldable pub has_colon : Bytes → Bool
has_colon [] = false
has_colon (c ∷ rest) = c == b':' || has_colon rest

after_colon : Bytes → Bytes
after_colon [] = []
after_colon (c ∷ rest) =
    let later = after_colon rest in
    if has_colon rest then later else if c == b':' then rest else c ∷ rest

has_colon-append : (a b : Bytes) → has_colon (a ++ b) ≡ (has_colon a || has_colon b)
unfolding has_colon
has_colon-append [] b = refl
has_colon-append (c ∷ a) b = ground (arith, has_colon-append a b)

-- What follows the last separator of a name.
after_colon-separator :
    (base field : Bytes)
    → has_colon field ≡ false
    → after_colon (base ++ (separator ++ field)) ≡ field
unfolding after_colon has_colon
after_colon-separator [] field h = rw h refl
after_colon-separator (c ∷ base) field h =
    let inner : has_colon (base ++ (separator ++ field)) ≡ true =
      has_colon-append base (separator ++ field) ∙ ground arith in
    rw inner (after_colon-separator base field h)

digits-has_colon : (fuel n : ℕ) → has_colon (digits fuel n) ≡ false
unfolding digits has_colon
digits-has_colon zero n = refl
digits-has_colon (suc fuel) n = elim (Bool-cases (ltb n 10)) [
  | inl small ↦ rw small (ground arith)
  | inr big ↦ rw big (
      has_colon-append (digits fuel (n / 10)) ((b'0' + n % 10) ∷ [])
      ∙ ground (arith, digits-has_colon fuel (n / 10)))
]

decimal-has_colon : (n : ℕ) → has_colon (decimal n) ≡ false
unfolding decimal
decimal-has_colon n = digits-has_colon (suc n) n

after_colon-call :
    (canonical : Bytes) (id : ℕ)
    → after_colon (call_scope_name canonical id) ≡ codes "call_" ++ decimal id
after_colon-call canonical id =
    after_colon-separator canonical (codes "call_" ++ decimal id)
      (has_colon-append (codes "call_") (decimal id) ∙ rw (decimal-has_colon id) closed)
  where
    closed : (has_colon (codes "call_") || false) ≡ false
    closed = unfold has_colon in refl

-- No scope of a call that was made before the number `next`.
abbrev pub IsNew : ℕ → Bytes → Type 0
IsNew next name =
    (canonical : Bytes) (id : ℕ) → id < next → bytes_eq name (call_scope_name canonical id) ≡ false

pub IsNew-le : {m n : ℕ} → m ≤ n → (name : Bytes) → IsNew n name → IsNew m name
IsNew-le h name new canonical id lt = new canonical id (omega arith)

bytes_ne : (a b : Bytes) → ¬ (a ≡ b) → bytes_eq a b ≡ false
bytes_ne a b ne = elim (Bool-cases (bytes_eq a b)) [
  | inl same ↦ absurd (ne ((bytes_eq_iff a b).0 same))
  | inr other ↦ other
]

-- The scope of a call is none of the earlier calls'.
pub call_scope_name-IsNew :
    (canonical : Bytes) (next : ℕ) → IsNew next (call_scope_name canonical next)
call_scope_name-IsNew canonical next other id lt =
    bytes_ne (call_scope_name canonical next) (call_scope_name other id) λ e.
      let fields : codes "call_" ++ decimal next ≡ codes "call_" ++ decimal id =
        sym (after_colon-call canonical next) ∙ ap after_colon e ∙ after_colon-call other id in
      let digits : decimal next ≡ decimal id = cc in
      absurd (omega (arith, decimal-injective next id digits))

-- The scope of a loop is none of a call's, where its own part has no colon and does not begin with
-- the letter that the part of a call begins with.
pub loop_name-IsNew :
    (base : Bytes) (first : ℕ) (field : Bytes) (next : ℕ)
    → ¬ (first ≡ b'c')
    → has_colon (first ∷ field) ≡ false
    → IsNew next (base ++ (separator ++ first ∷ field))
loop_name-IsNew base first field next ne plain canonical id lt =
    bytes_ne (base ++ (separator ++ first ∷ field)) (call_scope_name canonical id) λ e.
      let fields : first ∷ field ≡ codes "call_" ++ decimal id =
        sym (after_colon-separator base (first ∷ field) plain)
        ∙ ap after_colon e
        ∙ after_colon-call canonical id in
      absurd (ne cc)

plain-append :
    (a b : Bytes) → has_colon a ≡ false → has_colon b ≡ false → has_colon (a ++ b) ≡ false
plain-append a b h k = rw (has_colon-append a b, h, k) refl

-- The part of a name that a loop adds has no colon.
pub position-plain :
    (kind : Bytes) (line column : ℕ)
    → has_colon kind ≡ false
    → has_colon (kind ++ (decimal line ++ (codes "_" ++ decimal column))) ≡ false
position-plain kind line column h =
    plain-append kind (decimal line ++ (codes "_" ++ decimal column)) h (
      plain-append (decimal line) (codes "_" ++ decimal column) (decimal-has_colon line) (
        plain-append (codes "_") (decimal column) (unfold has_colon in refl)
          (decimal-has_colon column)))
