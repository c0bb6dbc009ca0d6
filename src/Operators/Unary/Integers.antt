-- ===== src/Operators/Unary/Integers.antt =====
-- The unary operators on an `int`: what they give, and where their behaviour is undefined.
use voidscript.Base.{
  String, true, false, Option, none, some, ◌≡◌, ◌⊎◌, refl, inl, inr, arith, Bool-cases,
}
use voidscript.Base.Int.{ℤ, pos, negsuc, ◌+ℤ◌, ◌-ℤ◌}
use voidscript.Operators.Ints.{fits, checked}
use voidscript.Operators.Unary.{complement, integer_unary, unary}
use voidscript.Value.Floats.{Floats}
use voidscript.Value.{Value, integer, Result, ok, undefined_behaviour}

pub data Operator : Type 0 where
  negate identity increment decrement flip : Operator

abbrev pub operator_text : Operator → String
operator_text negate = "-"
operator_text identity = "+"
operator_text increment = "++"
operator_text decrement = "--"
operator_text flip = "~"

-- The equation between the operand and the result.
pub Gives : Operator → ℤ → ℤ → Type 0
Gives negate v w = v +ℤ w ≡ pos 0
Gives identity v w = w ≡ v
Gives increment v w = w -ℤ v ≡ pos 1
Gives decrement v w = v -ℤ w ≡ pos 1
Gives flip v w = v +ℤ w ≡ negsuc 0

-- The `int` whose result is none.
abbrev pub edge : Operator → Option ℤ
edge negate = some (negsuc 2147483647)
edge identity = none
edge increment = some (pos 2147483647)
edge decrement = some (negsuc 2147483647)
edge flip = none

-- On the one operand and the operator.
abbrev Outcome : Operator → ℤ → Result Value → Type 0
Outcome o v r =
    ((edge o ≡ some v) × (r ≡ undefined_behaviour))
    ⊎ ((w : ℤ) × (r ≡ ok (integer w)) × (fits w ≡ true) × Gives o v w)

checked-Outcome :
    (o : Operator) (v a : ℤ)
    → (fits a ≡ false → edge o ≡ some v)
    → Gives o v a
    → Outcome o v (checked a)
checked-Outcome o v a h g = elim (Bool-cases (fits a)) [
  | inl good ↦ inr (a, rw good refl, good, g)
  | inr bad ↦ inl (h bad, rw bad refl)
]

negate-edge : (v : ℤ) → fits v ≡ true → fits (pos 0 -ℤ v) ≡ false → edge negate ≡ some v
unfolding ◌-ℤ◌
negate-edge (pos n) h b = ground (arith, h, b)
negate-edge (negsuc n) h b = ground (arith, h, b)

increment-edge : (v : ℤ) → fits v ≡ true → fits (v +ℤ pos 1) ≡ false → edge increment ≡ some v
unfolding ◌+ℤ◌
increment-edge (pos n) h b = ground (arith, h, b)
increment-edge (negsuc n) h b = ground (arith, h, b)

decrement-edge : (v : ℤ) → fits v ≡ true → fits (v -ℤ pos 1) ≡ false → edge decrement ≡ some v
unfolding ◌-ℤ◌
decrement-edge (pos n) h b = ground (arith, h, b)
decrement-edge (negsuc n) h b = ground (arith, h, b)

negate-Gives : (v : ℤ) → Gives negate v (pos 0 -ℤ v)
unfolding Gives ◌+ℤ◌ ◌-ℤ◌
negate-Gives (pos n) = ground arith
negate-Gives (negsuc n) = ground arith

increment-Gives : (v : ℤ) → Gives increment v (v +ℤ pos 1)
unfolding Gives ◌+ℤ◌ ◌-ℤ◌
increment-Gives (pos n) = ground arith
increment-Gives (negsuc n) = ground arith

decrement-Gives : (v : ℤ) → Gives decrement v (v -ℤ pos 1)
unfolding Gives ◌+ℤ◌ ◌-ℤ◌
decrement-Gives (pos n) = ground arith
decrement-Gives (negsuc n) = ground arith

flip-Gives : (v : ℤ) → fits v ≡ true → (fits (complement v) ≡ true) × Gives flip v (complement v)
unfolding Gives ◌+ℤ◌
flip-Gives (pos n) h = (h, ground arith)
flip-Gives (negsuc n) h = (h, ground arith)

-- On an operand in the range of `int`, `-`, `+`, `++`, `--` and `~` give the `int` that satisfies
-- their equation: v + w = 0, w = v, w - v = 1, v - w = 1 and v + w = -1. The behaviour of `-` and
-- `--` is undefined on the least `int` and that of `++` on the greatest, and nowhere else.
pub unary-integer :
    (fl : Floats) (o : Operator) (v : ℤ)
    → fits v ≡ true
    → ((edge o ≡ some v) × (unary fl (operator_text o) (integer v) ≡ undefined_behaviour))
      ⊎ ((w : ℤ) × (unary fl (operator_text o) (integer v) ≡ ok (integer w))
          × (fits w ≡ true)
          × Gives o v w)
unfolding unary integer_unary
unary-integer fl negate v h = checked-Outcome negate v _ (negate-edge v h) (negate-Gives v)
unary-integer fl identity v h = inr (v, refl, h, unfold Gives in refl)
unary-integer fl increment v h =
    checked-Outcome increment v _ (increment-edge v h) (increment-Gives v)
unary-integer fl decrement v h =
    checked-Outcome decrement v _ (decrement-edge v h) (decrement-Gives v)
unary-integer fl flip v h = inr (complement v, refl, (flip-Gives v h).0, (flip-Gives v h).1)
