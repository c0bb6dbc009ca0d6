-- ===== src/Base/Loops.antt =====
-- `while` loops: the body gives the next state, or nothing where the loop is left.
use Prim.Native.Nat.{ℕ, zero, suc, ◌≤◌, ◌<◌}
use mathlib.Core.Path.{◌≡◌}
use mathlib.Core.Option.{Option, none, some}
use mathlib.Core.Logic.{inl, inr}
use native.Mathlib.Omega.{arith}
use voidscript.Base.Bools.{Option-cases}

module _ {ℓ} {A : Type ℓ} where
  -- At most `fuel` rounds of the body.
  unfoldable pub loop : (A → Option A) → ℕ → A → A
  loop body zero a = a
  loop body (suc fuel) a = elim (body a) [ none ↦ a | some b ↦ loop body fuel b ]

  module _ (body : A → Option A) where
    -- What every round keeps, the loop keeps.
    pub loop-preserves {κ} :
        (P : A → Type κ)
        → ((a b : A) → body a ≡ some b → P a → P b)
        → (fuel : ℕ) (a : A) → P a
        → P (loop body fuel a)
    unfolding loop
    loop-preserves P keep zero a p = p
    loop-preserves P keep (suc fuel) a p = elim (Option-cases (body a)) [
      | inl e ↦ rw (e, loop) p
      | inr (b, e) ↦ rw (e, loop) (loop-preserves P keep fuel b (keep a b e p))
    ]

    -- With fuel for a measure that every round lowers, the loop ends where its body does.
    pub loop-stops :
        (measure : A → ℕ)
        → ((a b : A) → body a ≡ some b → measure b < measure a)
        → (fuel : ℕ) (a : A) → measure a ≤ fuel
        → body (loop body fuel a) ≡ none
    unfolding loop
    loop-stops measure less zero a h = elim (Option-cases (body a)) [
      | inl e ↦ e
      | inr (b, e) ↦ absurd (omega (arith, less a b e))
    ]
    loop-stops measure less (suc fuel) a h = elim (Option-cases (body a)) [
      | inl e ↦ rw (e, loop) e
      | inr (b, e) ↦ rw (e, loop) (loop-stops measure less fuel b (omega (arith, less a b e)))
    ]
