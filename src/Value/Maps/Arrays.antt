-- ===== src/Value/Maps/Arrays.antt =====
-- An array is read back as the list that it was made of.
use voidscript.Base.{
  ℕ, zero, suc, ◌+◌, ◌<◌, ◌≤◌, ◌≡◌, refl, ap, ◌∙◌, List, [], ◌∷◌, none, some, arith, Bytes,
  bytes_eq, bytes_eq_iff, ◌==◌, if◌then◌else◌, length, get_elem?,
}
use voidscript.Value.Decimal.{decimal, decimal-injective}
use voidscript.Value.Maps.{insert, find-insert, array_from, array_of, size, indexed_from, indexed}
use voidscript.Value.{Value, object, Members, end, member, find}

decimal-bytes_eq : (i j : ℕ) → bytes_eq (decimal i) (decimal j) ≡ (i == j)
decimal-bytes_eq i j = ground (arith, bytes_eq_iff (decimal i) (decimal j), decimal-injective i j)

find-insert-decimal :
    (i j : ℕ) (v : Value) (m : Members)
    → find (decimal j) (insert (decimal i) v m) ≡ (if i == j then some v else find (decimal j) m)
find-insert-decimal i j v m = rw (find-insert, decimal-bytes_eq)

find-array_from_lt :
    (r : ℕ) (vs : List Value) (m : Members) (i : ℕ)
    → i < r
    → find (decimal i) (array_from r vs m) ≡ find (decimal i) m
unfolding array_from
find-array_from_lt r [] m i h = refl
find-array_from_lt r (v ∷ vs) m i h =
    find-array_from_lt (r + 1) vs (insert (decimal r) v m) i (omega arith)
    ∙ ground (arith, find-insert-decimal r i v m)

-- No index from `r` on is a key.
abbrev Free : ℕ → Members → Type 0
Free r m = (j : ℕ) → r ≤ j → find (decimal j) m ≡ none

Free-insert : (r : ℕ) (v : Value) (m : Members) → Free r m → Free (r + 1) (insert (decimal r) v m)
Free-insert r v m free j h = ground (arith, find-insert-decimal r j v m, free j (omega arith))

find-array_from :
    (r : ℕ) (vs : List Value) (m : Members)
    → Free r m
    → (k : ℕ) → find (decimal (r + k)) (array_from r vs m) ≡ get_elem? vs k
unfolding array_from
find-array_from r [] m free k = free (r + k) (omega arith)
find-array_from r (v ∷ vs) m free zero =
    let e : r + 0 ≡ r = omega arith in
    rw e (
      find-array_from_lt (r + 1) vs (insert (decimal r) v m) r (omega arith)
      ∙ ground (arith, find-insert-decimal r r v m))
find-array_from r (v ∷ vs) m free (suc k) =
    let e : r + suc k ≡ r + 1 + k = omega arith in
    rw e (find-array_from (r + 1) vs (insert (decimal r) v m) (Free-insert r v m free) k)

pub find-array_of : (vs : List Value) (k : ℕ) → find (decimal k) (array_of vs) ≡ get_elem? vs k
unfolding array_of
find-array_of vs k =
    let e : 0 + k ≡ k = omega arith in
    rw e at (find-array_from 0 vs end (λ j h. unfold find in refl) k)

size-insert :
    (key : Bytes) (v : Value) (m : Members)
    → find key m ≡ none
    → size (insert key v m) ≡ suc (size m)
unfolding size insert find
size-insert key v end h = refl
size-insert key v (member k w rest) h = ground (arith, size-insert key v rest)

size-array_from :
    (r : ℕ) (vs : List Value) (m : Members)
    → Free r m
    → size (array_from r vs m) ≡ length vs + size m
unfolding array_from
size-array_from r [] m free = omega arith
size-array_from r (v ∷ vs) m free = omega (
  arith,
  size-insert (decimal r) v m (free r (omega arith)),
  size-array_from (r + 1) vs (insert (decimal r) v m) (Free-insert r v m free),
)

indexed_from-eq :
    (fuel i : ℕ) (vs : List Value) (m : Members)
    → length vs < fuel
    → ((k : ℕ) → find (decimal (i + k)) m ≡ get_elem? vs k)
    → indexed_from fuel i m ≡ vs
unfolding indexed_from
indexed_from-eq zero i vs m h f = absurd (omega arith)
indexed_from-eq (suc fuel) i [] m h f =
    let e : i + 0 ≡ i = omega arith in rw (rw e at (f 0), indexed_from)
indexed_from-eq (suc fuel) i (v ∷ vs) m h f =
    let e : i + 0 ≡ i = omega arith in
    rw (rw e at (f 0), indexed_from)
      (ap (◌∷◌ v) (
        indexed_from-eq fuel (i + 1) vs m (omega arith)
          (λ k. let e' : i + 1 + k ≡ i + suc k = omega arith in rw e' (f (suc k)))))

size-array_of : (vs : List Value) → length vs ≤ size (array_of vs)
unfolding array_of
size-array_of vs = omega (arith, size-array_from 0 vs end (λ j h. unfold find in refl))

-- Reading an array in index order gives the list that the array was made of.
pub indexed-array_of : (vs : List Value) → indexed (object (array_of vs)) ≡ vs
unfolding indexed
indexed-array_of vs =
    indexed_from-eq (suc (size (array_of vs))) 0 vs (array_of vs) (omega (arith, size-array_of vs))
      (λ k. let e : 0 + k ≡ k = omega arith in rw e (find-array_of vs k))
