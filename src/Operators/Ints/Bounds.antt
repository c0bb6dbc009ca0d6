-- ===== src/Operators/Ints/Bounds.antt =====
-- The operators on `int` give a value in the range of `int`.
use native.Mathlib.Nat.{div-le_self}
use voidscript.Base.{ℕ, true, ◌≡◌, arith, ◌^◌}
use voidscript.Base.Int.{ℤ, pos, negsuc}
use voidscript.Operators.Ints.{fits, of_bits, shift_right}

pub fits-of_bits : (b : ℕ) → fits (of_bits b) ≡ true
unfolding of_bits
fits-of_bits b = ground arith

pub fits-shift_right : (l : ℤ) (r : ℕ) → fits l ≡ true → fits (shift_right l r) ≡ true
unfolding shift_right
fits-shift_right (pos n) r h = ground (arith, div-le_self n (2 ^ r))
fits-shift_right (negsuc n) r h = ground (arith, div-le_self n (2 ^ r))
