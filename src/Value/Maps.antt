-- ===== src/Value/Maps.antt =====
-- `std::map<std::string, ValuePtr>`: insertion in the order of the keys, and the arrays of a
-- script, which are maps from the decimal indices.
pub mod Arrays
use voidscript.Base.{
  ℕ, zero, suc, ◌+◌, ◌<◌, ◌≤◌, ◌≡◌, ◌≢◌, refl, ap, ◌∙◌, Bool, true, false, ◌||◌, ◌&&◌, List, [],
  ◌∷◌, ◌++◌, Option, none, some, arith, Bytes, bytes_eq, bytes_eq_iff, ltb, ◌==◌, if◌then◌else◌,
  Bool-cases, inl, inr, length, get_elem?,
}
use voidscript.Value.Decimal.{decimal, decimal-injective}
use voidscript.Value.{Value, object, class_instance, Members, end, member, find}

-- `<` of `std::string`: lexicographic on the bytes.
unfoldable pub bytes_lt : Bytes → Bytes → Bool
bytes_lt [] [] = false
bytes_lt [] (y ∷ ys) = true
bytes_lt (x ∷ xs) [] = false
bytes_lt (x ∷ xs) (y ∷ ys) = ltb x y || (x == y && bytes_lt xs ys)

-- `map[key] = value`
unfoldable pub insert : Bytes → Value → Members → Members
unfolding bytes_lt
insert key v end = member key v end
insert key v (member k w rest) =
    let later = insert key v rest in
    if bytes_eq k key
    then member key v rest
    else if bytes_lt key k
    then member key v (member k w rest)
    else member k w later

pub find-insert :
    (key j : Bytes) (v : Value) (m : Members)
    → find j (insert key v m) ≡ (if bytes_eq key j then some v else find j m)
unfolding find insert
find-insert key j v end = refl
find-insert key j v (member k w rest) =
    ground
      (arith, bytes_eq_iff k key, bytes_eq_iff k j, bytes_eq_iff key j, find-insert key j v rest)

-- `for (size_t r = 0; r < rows.size(); ++r) map[std::to_string(r)] = rows[r];`, from index `r`.
unfoldable pub array_from : ℕ → List Value → Members → Members
array_from r [] m = m
array_from r (v ∷ vs) m = array_from (r + 1) vs (insert (decimal r) v m)

unfoldable pub array_of : List Value → Members
unfolding array_from insert decimal
array_of vs = array_from 0 vs end

-- The number of members, one more than which is fuel enough to read an array.
unfoldable pub size : Members → ℕ
size end = 0
size (member k v rest) = suc (size rest)

-- `for (size_t i = 0;; ++i)` up to the first index that is missing.
unfoldable pub indexed_from : ℕ → ℕ → Members → List Value
indexed_from zero i m = []
indexed_from (suc fuel) i m =
    let later = indexed_from fuel (i + 1) m in
    elim (find (decimal i) m) [ none ↦ [] | some v ↦ v ∷ later ]

-- `indexed`; what is no map has no members.
unfoldable pub indexed : Value → List Value
unfolding indexed_from size
indexed (object m) = indexed_from (suc (size m)) 0 m
indexed (class_instance m) = indexed_from (suc (size m)) 0 m
indexed _ = []
