-- ===== src/Value/Floats.antt =====
-- The floating-point unit: the arithmetic of `double` and `float` over their bit patterns, the
-- conversions between the numeric types, and the printing of a number by `std::to_string`.
use voidscript.Base.{ℕ, Bool, Bytes}
use voidscript.Base.Int.{ℤ}

-- One binary format.
pub record Format : Type 0 where
  pub add : ℕ → ℕ → ℕ
  pub sub : ℕ → ℕ → ℕ
  pub mul : ℕ → ℕ → ℕ
  pub div : ℕ → ℕ → ℕ
  pub neg : ℕ → ℕ
  pub eq : ℕ → ℕ → Bool
  pub lt : ℕ → ℕ → Bool
  pub le : ℕ → ℕ → Bool
  pub one : ℕ
  pub of_int : ℤ → ℕ
  pub print : ℕ → Bytes

pub record Floats : Type 0 where
  pub doubles : Format
  pub floats : Format
  pub widen : ℕ → ℕ
  pub narrow : ℕ → ℕ
