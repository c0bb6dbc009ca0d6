-- ===== src/Base/Dict.antt =====
-- A `std::unordered_map` with string keys, as the list of its pairs.
use mathlib.Core.Path.{◌≡◌, refl}
use mathlib.Core.Bool.{Bool}
use mathlib.Core.List.{List, [], ◌∷◌}
use mathlib.Core.Option.{Option, none, some}
use native.Mathlib.Omega.{arith}
use voidscript.Base.Bools.{if◌then◌else◌}
use voidscript.Base.Lists.{Bytes, bytes_eq, bytes_eq_iff}

abbrev pub Dict {ℓ} : Type ℓ → Type ℓ
Dict V = List (Bytes × V)

module _ {ℓ} {V : Type ℓ} where
  unfoldable pub lookup : Bytes → Dict V → Option V
  lookup key [] = none
  lookup key ((k, v) ∷ rest) = if bytes_eq k key then some v else lookup key rest

  unfoldable pub insert : Bytes → V → Dict V → Dict V
  insert key v [] = (key, v) ∷ []
  insert key v ((k, w) ∷ rest) =
      if bytes_eq k key then (key, v) ∷ rest else (k, w) ∷ insert key v rest

  -- Every pair whose key passes the test is taken out.
  unfoldable pub erase_if : (Bytes → Bool) → Dict V → Dict V
  erase_if p [] = []
  erase_if p ((k, w) ∷ rest) = if p k then erase_if p rest else (k, w) ∷ erase_if p rest

  pub lookup-insert :
      (key j : Bytes) (v : V) (m : Dict V)
      → lookup j (insert key v m) ≡ (if bytes_eq key j then some v else lookup j m)
  unfolding lookup insert
  lookup-insert key j v [] = refl
  lookup-insert key j v ((k, w) ∷ rest) =
      ground (
        arith,
        bytes_eq_iff k key,
        bytes_eq_iff k j,
        bytes_eq_iff key j,
        lookup-insert key j v rest,
      )

  pub lookup-erase_if :
      (p : Bytes → Bool) (j : Bytes) (m : Dict V)
      → lookup j (erase_if p m) ≡ (if p j then none else lookup j m)
  unfolding lookup erase_if
  lookup-erase_if p j [] = ground arith
  lookup-erase_if p j ((k, w) ∷ rest) = ground (arith, bytes_eq_iff k j, lookup-erase_if p j rest)
