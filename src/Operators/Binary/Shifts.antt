-- ===== src/Operators/Binary/Shifts.antt =====
-- The shifts of two `int`s: what they give, and where they throw.
use native.Mathlib.Nat.{div-add-mod, mod-lt, one-le-pow, add-mul}
use voidscript.Base.{
  ℕ, suc, ◌+◌, ◌-◌, ◌*◌, ◌/◌, ◌%◌, ◌^◌, ◌<◌, true, ◌≡◌, ◌≢◌, ◌⊎◌, refl, sym, ap, ◌∙◌, inl, inr,
  arith, Bool-cases, ltb,
}
use voidscript.Base.Int.{ℤ, pos, negsuc, sub_ℕ, ◌+ℤ◌, ◌*ℤ◌}
use voidscript.Operators.Binary.{shift_op, bitwise_int, binary}
use voidscript.Operators.Ints.Bounds.{fits-of_bits, fits-shift_right}
use voidscript.Operators.Ints.{fits, shift_left, shift_right, to_bits, of_bits}
use voidscript.Value.Floats.{Floats}
use voidscript.Value.{integer, ok, throws, shift_range}

floor-pos : (a p : ℕ) → pos (a / p) *ℤ pos p +ℤ pos (a % p) ≡ pos a
unfolding ◌+ℤ◌ ◌*ℤ◌
floor-pos a p = ground (arith, div-add-mod a p)

floor-negsuc : (a p : ℕ) → 0 < p → negsuc (a / p) *ℤ pos p +ℤ pos (p - 1 - a % p) ≡ negsuc a
unfolding ◌+ℤ◌ ◌*ℤ◌
floor-negsuc a p h = ground (arith, div-add-mod a p)

pow_two-positive : (n : ℕ) → 0 < 2 ^ n
pow_two-positive n = one-le-pow n 2 (omega arith)

shift_right-floor :
    (l : ℤ) (n : ℕ) → (m : ℕ) × (m < 2 ^ n) × (shift_right l n *ℤ pos (2 ^ n) +ℤ pos m ≡ l)
unfolding shift_right
shift_right-floor (pos a) n = (a % 2 ^ n, mod-lt a (pow_two-positive n), floor-pos a (2 ^ n))
shift_right-floor (negsuc a) n = (
  2 ^ n - 1 - a % 2 ^ n,
  omega (arith, pow_two-positive n),
  floor-negsuc a (2 ^ n) (pow_two-positive n),
)

-- The bits of a number, read as an `int`, differ from it by a multiple of 2 ^ 32.
of_bits-wraps : (b : ℕ) → (k : ℕ) × (of_bits b +ℤ pos k *ℤ pos (2 ^ 32) ≡ pos b)
unfolding of_bits ◌+ℤ◌ ◌*ℤ◌
of_bits-wraps b = elim (Bool-cases (ltb (b % 2 ^ 32) (2 ^ 31))) [
  | inl low ↦ (b / 2 ^ 32, ground arith)
  | inr high ↦ (b / 2 ^ 32 + 1, ground arith)
]

negsuc-wraps :
    (w : ℤ) (k b a p : ℕ)
    → b + suc a * p ≡ 2 ^ 32 * p
    → w +ℤ pos k *ℤ pos (2 ^ 32) ≡ pos b
    → w +ℤ sub_ℕ k p *ℤ pos (2 ^ 32) ≡ negsuc a *ℤ pos p
unfolding ◌+ℤ◌ ◌*ℤ◌
negsuc-wraps (pos x) k b a p h e = ground (arith, h, e)
negsuc-wraps (negsuc x) k b a p h e = ground (arith, h, e)

to_bits-negsuc : (a p : ℕ) → a < 2 ^ 31 → to_bits (negsuc a) * p + suc a * p ≡ 2 ^ 32 * p
unfolding to_bits
to_bits-negsuc a p h = sym (add-mul (4294967295 - a) (suc a) p) ∙ ap (λ m. m * p) (omega (arith, h))

product : (a p : ℕ) → pos (a * p) ≡ pos a *ℤ pos p
unfolding ◌*ℤ◌
product a p = ground arith

shift_left-wraps :
    (l : ℤ) (n : ℕ)
    → fits l ≡ true
    → (k : ℤ) × (shift_left l n +ℤ k *ℤ pos (2 ^ 32) ≡ l *ℤ pos (2 ^ n))
unfolding shift_left
shift_left-wraps (pos a) n h =
    let (k, e) = of_bits-wraps (to_bits (pos a) * 2 ^ n) in (pos k, e ∙ product a (2 ^ n))
shift_left-wraps (negsuc a) n h =
    let (k, e) = of_bits-wraps (to_bits (negsuc a) * 2 ^ n) in
    (sub_ℕ k (2 ^ n), negsuc-wraps _ k _ a (2 ^ n) (to_bits-negsuc a (2 ^ n) (ground (arith, h))) e)

-- For an amount of 0 to 31 places, `l << n` is an `int` that differs from l * 2 ^ n by a multiple of
-- 2 ^ 32, and `l >> n` an `int` that is l / 2 ^ n rounded down. Every other amount is refused with its
-- message, by both.
pub binary-shifts :
    (fl : Floats) (l r : ℤ)
    → fits l ≡ true
    → (((n : ℕ) → n < 32 → r ≢ pos n)
        × (binary fl "<<" (integer l) (integer r) ≡ throws (shift_range r "<<"))
        × (binary fl ">>" (integer l) (integer r) ≡ throws (shift_range r ">>")))
      ⊎ ((n : ℕ) × (r ≡ pos n)
          × (n < 32)
          × ((w : ℤ) × (binary fl "<<" (integer l) (integer r) ≡ ok (integer w))
              × (fits w ≡ true)
              × ((k : ℤ) × (w +ℤ k *ℤ pos (2 ^ 32) ≡ l *ℤ pos (2 ^ n))))
          × ((u : ℤ) × (binary fl ">>" (integer l) (integer r) ≡ ok (integer u))
              × (fits u ≡ true)
              × ((m : ℕ) × (m < 2 ^ n) × (u *ℤ pos (2 ^ n) +ℤ pos m ≡ l))))
unfolding binary bitwise_int shift_op
binary-shifts fl l (negsuc n) h = inl ((λ m lt e. cc), refl, refl)
binary-shifts fl l (pos n) h = elim (Bool-cases (ltb n 32)) [
  | inl small ↦ inr (
    n,
    refl,
    ground (arith, small),
    (shift_left l n, rw small refl, fits-of_bits (to_bits l * 2 ^ n), shift_left-wraps l n h),
    (shift_right l n, rw small refl, fits-shift_right l n h, shift_right-floor l n),
  )
  | inr large ↦ inl ((λ m lt e. ground (arith, large, lt, e)), rw large refl, rw large refl)
]
