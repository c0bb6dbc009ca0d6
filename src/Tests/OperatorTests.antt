-- ===== src/Tests/OperatorTests.antt =====
-- The operators of src/Interpreter/Nodes/Expression at fixed inputs.
use voidscript.Base.Int.{ℤ, pos, negsuc, eqb_ℤ, ◌+ℤ◌, ◌*ℤ◌}
use voidscript.Base.{
  ℕ, ◌^◌, ◌≢◌, true, false, some, ◌⊎◌, List, [], ◌∷◌, codes, ◌≡◌, refl, ◌+◌, ◌-◌, ◌*◌, ◌/◌, ◌==◌,
  ltb, leb, ◌<◌,
}
use voidscript.Operators.Access.{
  array_access, array_access-array_of, try_numeric_coerce, type_of-try_numeric_coerce,
}
use voidscript.Operators.Binary.Arithmetic.{binary-division}
use voidscript.Operators.Binary.Shifts.{binary-shifts}
use voidscript.Operators.Binary.Integers as Sums
use voidscript.Operators.Binary.Integers.{binary-arithmetic}
use voidscript.Operators.Unary.Integers.{negate, edge, Gives, unary-integer}
use voidscript.Operators.Binary.{binary, division_by_zero, modulo_by_zero}
use voidscript.Operators.Ints.Division.{magnitude}
use voidscript.Operators.Ints.{fits, quot, rem}
use voidscript.Operators.Unary.{unary}
use voidscript.Value.Floats.{Floats, Format}
use voidscript.Value.Maps.{array_of}
use voidscript.Value.{
  float_type, type_of, Value, integer, double, float, string, object, ok, throws, shift_range,
  undefined_behaviour,
}

-- A floating-point unit that knows the natural numbers only.
abbrev naturals : Format
naturals = record {
  add = λ a b. a + b;
  sub = λ a b. a - b;
  mul = λ a b. a * b;
  div = λ a b. a / b;
  neg = λ a. 0;
  eq = λ a b. a == b;
  lt = λ a b. ltb a b;
  le = λ a b. leb a b;
  one = 1;
  of_int = λ n. magnitude n;
  print = λ a. [];
}

abbrev pub numbers : Floats
numbers = record { doubles = naturals; floats = naturals; widen = λ a. a; narrow = λ a. a }

-- The least `int`, divided by -1, has no `int` for a quotient.
least_division_test :
    binary numbers "/" (integer (negsuc 2147483647)) (integer (negsuc 0)) ≡ undefined_behaviour
unfolding binary
least_division_test = refl

bitwise_test : binary numbers "&" (integer (negsuc 0)) (integer (pos 6)) ≡ ok (integer (pos 6))
unfolding binary
bitwise_test = refl

unary_test : unary numbers "-" (integer (pos 5)) ≡ ok (integer (negsuc 4))
unfolding unary
unary_test = refl

-- The greatest `int` and one.
binary-arithmetic_example :
    ((w : ℤ) × (binary numbers "+" (integer (pos 2147483647)) (integer (pos 1)) ≡ ok (integer w))
      × (fits w ≡ true)
      × Sums.Gives Sums.plus (pos 2147483647) (pos 1) w)
    ⊎ ((binary numbers "+" (integer (pos 2147483647)) (integer (pos 1)) ≡ undefined_behaviour)
        × ((w : ℤ) → Sums.Gives Sums.plus (pos 2147483647) (pos 1) w → fits w ≡ false))
binary-arithmetic_example = binary-arithmetic numbers Sums.plus (pos 2147483647) (pos 1)

binary-division_example :
    (eqb_ℤ (pos 2) (pos 0) ≡ true
      → (binary numbers "/" (integer (negsuc 6)) (integer (pos 2)) ≡ throws division_by_zero)
        × (binary numbers "%" (integer (negsuc 6)) (integer (pos 2)) ≡ throws modulo_by_zero))
    × (eqb_ℤ (pos 2) (pos 0) ≡ false
        → fits (quot (negsuc 6) (pos 2)) ≡ true
        → (binary numbers "/" (integer (negsuc 6)) (integer (pos 2))
            ≡ ok (integer (quot (negsuc 6) (pos 2))))
          × (binary numbers "%" (integer (negsuc 6)) (integer (pos 2))
              ≡ ok (integer (rem (negsuc 6) (pos 2))))
          × (quot (negsuc 6) (pos 2) *ℤ pos 2 +ℤ rem (negsuc 6) (pos 2) ≡ negsuc 6)
          × (magnitude (rem (negsuc 6) (pos 2)) < magnitude (pos 2)))
    × (eqb_ℤ (pos 2) (pos 0) ≡ false
        → fits (quot (negsuc 6) (pos 2)) ≡ false
        → (binary numbers "/" (integer (negsuc 6)) (integer (pos 2)) ≡ undefined_behaviour)
          × (binary numbers "%" (integer (negsuc 6)) (integer (pos 2)) ≡ undefined_behaviour))
binary-division_example = binary-division numbers (negsuc 6) (pos 2)

abbrev two_values : List Value
two_values = integer (pos 7) ∷ string (codes "x") ∷ []

array_access-array_of_example :
    array_access (object (array_of two_values)) (integer (pos 1)) ≡ ok (string (codes "x"))
array_access-array_of_example = array_access-array_of two_values 1

type_of-try_numeric_coerce_example : type_of (float 3) ≡ float_type
type_of-try_numeric_coerce_example =
    type_of-try_numeric_coerce numbers (double 3) (float 3) float_type
      (unfold try_numeric_coerce in refl)

binary-shifts_example :
    (((n : ℕ) → n < 32 → pos 31 ≢ pos n)
      × (binary numbers "<<" (integer (negsuc 2)) (integer (pos 31))
          ≡ throws (shift_range (pos 31) "<<"))
      × (binary numbers ">>" (integer (negsuc 2)) (integer (pos 31))
          ≡ throws (shift_range (pos 31) ">>")))
    ⊎ ((n : ℕ) × (pos 31 ≡ pos n)
        × (n < 32)
        × ((w : ℤ) × (binary numbers "<<" (integer (negsuc 2)) (integer (pos 31)) ≡ ok (integer w))
            × (fits w ≡ true)
            × ((k : ℤ) × (w +ℤ k *ℤ pos (2 ^ 32) ≡ negsuc 2 *ℤ pos (2 ^ n))))
        × ((u : ℤ) × (binary numbers ">>" (integer (negsuc 2)) (integer (pos 31)) ≡ ok (integer u))
            × (fits u ≡ true)
            × ((m : ℕ) × (m < 2 ^ n) × (u *ℤ pos (2 ^ n) +ℤ pos m ≡ negsuc 2))))
binary-shifts_example = binary-shifts numbers (negsuc 2) (pos 31) refl

-- The least `int`.
unary-integer_example :
    ((edge negate ≡ some (negsuc 2147483647))
      × (unary numbers "-" (integer (negsuc 2147483647)) ≡ undefined_behaviour))
    ⊎ ((w : ℤ) × (unary numbers "-" (integer (negsuc 2147483647)) ≡ ok (integer w))
        × (fits w ≡ true)
        × Gives negate (negsuc 2147483647) w)
unary-integer_example = unary-integer numbers negate (negsuc 2147483647) refl
