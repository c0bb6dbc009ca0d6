-- ===== src/Value/Decimal.antt =====
-- `std::to_string` of the integer types.
use voidscript.Base.{
  ℕ, zero, suc, ◌+◌, ◌-◌, ◌*◌, ◌/◌, ◌%◌, ◌<◌, ◌≡◌, refl, sym, ap, ◌∙◌, [], ◌∷◌, ◌++◌, arith, Bytes,
  ltb, if◌then◌else◌, Bool-cases, inl, inr,
}
use voidscript.Base.Int.{ℤ, pos, negsuc}

-- The digits of a number, with fuel for their count.
unfoldable pub digits : ℕ → ℕ → Bytes
digits zero n = []
digits (suc fuel) n =
    let more = digits fuel (n / 10) in
    if ltb n 10 then (b'0' + n) ∷ [] else more ++ (b'0' + n % 10) ∷ []

-- A number has at most as many digits as it counts, and one.
unfoldable pub decimal : ℕ → Bytes
unfolding digits
decimal n = digits (suc n) n

unfoldable pub decimal_ℤ : ℤ → Bytes
unfolding decimal
decimal_ℤ (pos n) = decimal n
decimal_ℤ (negsuc n) = b'-' ∷ decimal (n + 1)

-- The number that a list of digits denotes.
unfoldable pub value_from : ℕ → Bytes → ℕ
value_from acc [] = acc
value_from acc (d ∷ ds) = value_from (10 * acc + (d - b'0')) ds

value_from-concat :
    (acc : ℕ) (ds : Bytes) (d : ℕ)
    → value_from acc (ds ++ d ∷ []) ≡ 10 * value_from acc ds + (d - b'0')
unfolding value_from
value_from-concat acc [] d = refl
value_from-concat acc (e ∷ ds) d = value_from-concat (10 * acc + (e - b'0')) ds d

pub value_from-digits : (fuel n : ℕ) → n < fuel → value_from 0 (digits fuel n) ≡ n
unfolding digits
value_from-digits zero n h = absurd (omega arith)
value_from-digits (suc fuel) n h = elim (Bool-cases (ltb n 10)) [
  | inl small ↦ rw small (unfold value_from in ground arith)
  | inr big ↦ rw big (
      value_from-concat 0 (digits fuel (n / 10)) (b'0' + n % 10)
      ∙ ground (arith, value_from-digits fuel (n / 10)))
]

-- Two numbers are not printed alike.
pub decimal-injective : (m n : ℕ) → decimal m ≡ decimal n → m ≡ n
unfolding decimal
decimal-injective m n e =
    sym (value_from-digits (suc m) m (omega arith))
    ∙ ap (value_from 0) e
    ∙ value_from-digits (suc n) n (omega arith)
