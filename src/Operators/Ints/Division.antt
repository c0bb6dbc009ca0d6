-- ===== src/Operators/Ints/Division.antt =====
-- `quot` and `rem` divide with a remainder that has the sign of the dividend.
use native.Mathlib.Nat.{div-add-mod}
use voidscript.Base.{ℕ, false, ◌≡◌, arith, ◌<◌, suc, ◌+◌}
use voidscript.Base.Int.{ℤ, pos, negsuc, pos_part, neg_part, ◌+ℤ◌, ◌*ℤ◌, eqb_ℤ}
use voidscript.Operators.Ints.{quot, rem}

abbrev pub magnitude : ℤ → ℕ
magnitude a = pos_part a + neg_part a

pub quot-rem : (l r : ℤ) → eqb_ℤ r (pos 0) ≡ false → quot l r *ℤ r +ℤ rem l r ≡ l
unfolding quot rem ◌+ℤ◌ ◌*ℤ◌
quot-rem (pos l) (pos r) h = ground (arith, div-add-mod l r)
quot-rem (pos l) (negsuc r) h = ground (arith, div-add-mod l (suc r))
quot-rem (negsuc l) (pos r) h = ground (arith, div-add-mod (suc l) r)
quot-rem (negsuc l) (negsuc r) h = ground (arith, div-add-mod (suc l) (suc r))

pub magnitude-rem : (l r : ℤ) → eqb_ℤ r (pos 0) ≡ false → magnitude (rem l r) < magnitude r
unfolding rem
magnitude-rem (pos l) (pos r) h = ground arith
magnitude-rem (pos l) (negsuc r) h = ground arith
magnitude-rem (negsuc l) (pos r) h = ground arith
magnitude-rem (negsuc l) (negsuc r) h = ground arith
