-- ===== src/Operators/Binary/Arithmetic.antt =====
-- `/` and `%` on two `int`s, and the promotion of an operand.
use voidscript.Base.{true, false, ◌≡◌, refl, ◌<◌}
use voidscript.Base.Int.{ℤ, pos, ◌+ℤ◌, ◌*ℤ◌, eqb_ℤ}
use voidscript.Operators.Binary.{divide, modulo, binary, division_by_zero, modulo_by_zero}
use voidscript.Operators.Ints.Division.{quot-rem, magnitude, magnitude-rem}
use voidscript.Operators.Ints.{fits, quot, rem}
use voidscript.Value.Floats.{Floats}
use voidscript.Value.{integer, ok, throws, undefined_behaviour}

module _ (fl : Floats) where
  -- Where the divisor is zero, `/` and `%` throw their messages; where it is not and the quotient
  -- is an `int`, they give q and m with `q * r + m = l` and m smaller than r in magnitude; where
  -- the quotient is no `int`, the behaviour of both is undefined.
  pub binary-division :
      (l r : ℤ)
      → (eqb_ℤ r (pos 0) ≡ true
          → (binary fl "/" (integer l) (integer r) ≡ throws division_by_zero)
            × (binary fl "%" (integer l) (integer r) ≡ throws modulo_by_zero))
        × (eqb_ℤ r (pos 0) ≡ false
            → fits (quot l r) ≡ true
            → (binary fl "/" (integer l) (integer r) ≡ ok (integer (quot l r)))
              × (binary fl "%" (integer l) (integer r) ≡ ok (integer (rem l r)))
              × (quot l r *ℤ r +ℤ rem l r ≡ l)
              × (magnitude (rem l r) < magnitude r))
        × (eqb_ℤ r (pos 0) ≡ false
            → fits (quot l r) ≡ false
            → (binary fl "/" (integer l) (integer r) ≡ undefined_behaviour)
              × (binary fl "%" (integer l) (integer r) ≡ undefined_behaviour))
  unfolding binary divide modulo
  binary-division l r = (
    (λ z. rw z (refl, refl)),
    (λ z f. (rw (z, f) refl, rw (z, f) refl, quot-rem l r z, magnitude-rem l r z)),
    (λ z f. (rw (z, f) refl, rw (z, f) refl)),
  )
