-- ===== src/Operators/Ints.antt =====
-- The C++ operators on a 32-bit `int`. Signed overflow is undefined; a shift is that of C++20.
pub mod Division
pub mod Bounds
use voidscript.Base.{
  ℕ, suc, ◌+◌, ◌-◌, ◌*◌, ◌/◌, ◌%◌, ◌^◌, bit_and, bit_or, bit_xor, Bool, true, false, ◌&&◌, ltb, leb,
  ◌==◌, if◌then◌else◌,
}
use voidscript.Base.Int.{ℤ, pos, negsuc, pos_part, neg_part, sub_ℕ, ◌+ℤ◌, ◌-ℤ◌, ◌*ℤ◌}
use voidscript.Value.{Value, integer, Result, ok, undefined_behaviour}

-- The range of `int`.
abbrev pub fits : ℤ → Bool
fits (pos n) = ltb n (2 ^ 31)
fits (negsuc n) = ltb n (2 ^ 31)

-- A result of `int` arithmetic.
abbrev pub checked : ℤ → Result Value
checked n = if fits n then ok (integer n) else undefined_behaviour

-- `l / r` and `l % r`, which round towards zero; `r` is not zero.
unfoldable pub quot : ℤ → ℤ → ℤ
quot (pos l) (pos r) = pos (l / r)
quot (pos l) (negsuc r) = sub_ℕ 0 (l / suc r)
quot (negsuc l) (pos r) = sub_ℕ 0 (suc l / r)
quot (negsuc l) (negsuc r) = pos (suc l / suc r)

unfoldable pub rem : ℤ → ℤ → ℤ
rem (pos l) (pos r) = pos (l % r)
rem (pos l) (negsuc r) = pos (l % suc r)
rem (negsuc l) (pos r) = sub_ℕ 0 (suc l % r)
rem (negsuc l) (negsuc r) = sub_ℕ 0 (suc l % suc r)

-- The bit pattern of an `int`, and the `int` of a bit pattern.
unfoldable pub to_bits : ℤ → ℕ
to_bits (pos n) = n
to_bits (negsuc n) = 2 ^ 32 - 1 - n

abbrev signed : ℕ → ℤ
signed b = if ltb b (2 ^ 31) then pos b else negsuc (2 ^ 32 - 1 - b)

unfoldable pub of_bits : ℕ → ℤ
of_bits b = signed (b % 2 ^ 32)

-- `l << r` and `l >> r`, for `0 ≤ r < 32`.
unfoldable pub shift_left : ℤ → ℕ → ℤ
unfolding to_bits of_bits
shift_left l r = of_bits (to_bits l * 2 ^ r)

unfoldable pub shift_right : ℤ → ℕ → ℤ
shift_right (pos n) r = pos (n / 2 ^ r)
shift_right (negsuc n) r = negsuc (n / 2 ^ r)
