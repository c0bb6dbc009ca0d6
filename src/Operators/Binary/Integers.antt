-- ===== src/Operators/Binary/Integers.antt =====
-- `+`, `-`, `*` and the shifts on two `int`s: what they give, and where they throw or their behaviour
-- is undefined.
use voidscript.Base.{String, true, false, ◌≡◌, ◌⊎◌, refl, sym, ap, ◌∙◌, inl, inr, arith, Bool-cases}
use voidscript.Base.Int.{ℤ, pos, negsuc, ◌+ℤ◌, ◌-ℤ◌, ◌*ℤ◌}
use voidscript.Operators.Binary.{integer_op, binary}
use voidscript.Operators.Ints.{fits, checked}
use voidscript.Value.Floats.{Floats}
use voidscript.Value.{integer, ok, undefined_behaviour}

pub data Operator : Type 0 where
  plus minus times : Operator

abbrev pub operator_text : Operator → String
operator_text plus = "+"
operator_text minus = "-"
operator_text times = "*"

-- The equation between the operands and the result.
pub Gives : Operator → ℤ → ℤ → ℤ → Type 0
Gives plus l r w = w -ℤ r ≡ l
Gives minus l r w = w +ℤ r ≡ l
Gives times l r w = w ≡ l *ℤ r

add-Gives : (l r : ℤ) → Gives plus l r (l +ℤ r)
unfolding Gives ◌+ℤ◌ ◌-ℤ◌
add-Gives (pos l) (pos r) = ground arith
add-Gives (pos l) (negsuc r) = ground arith
add-Gives (negsuc l) (pos r) = ground arith
add-Gives (negsuc l) (negsuc r) = ground arith

sub-Gives : (l r : ℤ) → Gives minus l r (l -ℤ r)
unfolding Gives ◌+ℤ◌ ◌-ℤ◌
sub-Gives (pos l) (pos r) = ground arith
sub-Gives (pos l) (negsuc r) = ground arith
sub-Gives (negsuc l) (pos r) = ground arith
sub-Gives (negsuc l) (negsuc r) = ground arith

sub_add : (w r : ℤ) → w -ℤ r +ℤ r ≡ w
unfolding ◌+ℤ◌ ◌-ℤ◌
sub_add (pos l) (pos r) = ground arith
sub_add (pos l) (negsuc r) = ground arith
sub_add (negsuc l) (pos r) = ground arith
sub_add (negsuc l) (negsuc r) = ground arith

add_sub : (w r : ℤ) → w +ℤ r -ℤ r ≡ w
unfolding ◌+ℤ◌ ◌-ℤ◌
add_sub (pos l) (pos r) = ground arith
add_sub (pos l) (negsuc r) = ground arith
add_sub (negsuc l) (pos r) = ground arith
add_sub (negsuc l) (negsuc r) = ground arith

-- The result of `int` arithmetic, where just one integer satisfies the equation.
checked-Gives :
    (o : Operator) (l r a : ℤ)
    → Gives o l r a
    → ((w : ℤ) → Gives o l r w → w ≡ a)
    → ((w : ℤ) × (checked a ≡ ok (integer w)) × (fits w ≡ true) × Gives o l r w)
      ⊎ ((checked a ≡ undefined_behaviour) × ((w : ℤ) → Gives o l r w → fits w ≡ false))
checked-Gives o l r a g unique = elim (Bool-cases (fits a)) [
  | inl good ↦ inl (a, rw good refl, good, g)
  | inr bad ↦ inr (rw bad refl, λ w h. rw (unique w h) bad)
]

-- `+`, `-` and `*` on two integers give the `int` w with w - r = l, w + r = l or w = l * r; where
-- no `int` satisfies the equation their behaviour is undefined.
pub binary-arithmetic :
    (fl : Floats) (o : Operator) (l r : ℤ)
    → ((w : ℤ) × (binary fl (operator_text o) (integer l) (integer r) ≡ ok (integer w))
        × (fits w ≡ true)
        × Gives o l r w)
      ⊎ ((binary fl (operator_text o) (integer l) (integer r) ≡ undefined_behaviour)
          × ((w : ℤ) → Gives o l r w → fits w ≡ false))
unfolding binary integer_op
binary-arithmetic fl plus l r =
    checked-Gives plus l r (l +ℤ r) (add-Gives l r)
      (unfold Gives in λ w h. sym (sub_add w r) ∙ ap (λ x. x +ℤ r) h)
binary-arithmetic fl minus l r =
    checked-Gives minus l r (l -ℤ r) (sub-Gives l r)
      (unfold Gives in λ w h. sym (add_sub w r) ∙ ap (λ x. x -ℤ r) h)
binary-arithmetic fl times l r =
    checked-Gives times l r (l *ℤ r) (unfold Gives in refl) (unfold Gives in λ w h. h)
