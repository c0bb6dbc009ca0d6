-- ===== src/Symbols/Classes/Methods.antt =====
-- The methods of the classes of src/Symbols/SymbolContainer.cpp and .hpp: what a class has after a
-- method was added, and what `hasMethod` finds in its parents.
use voidscript.Base.{
  ℕ, zero, suc, ◌≤◌, ◌<◌, ◌≡◌, refl, true, false, ◌&&◌, List, [], ◌∷◌, ◌++◌, none, some, arith,
  Bytes, bytes_eq, bytes_eq_iff, if◌then◌else◌, All, Option-cases, Bool-cases, inl, inr,
}
use voidscript.Base.Dict.{lookup, insert, lookup-insert}
use voidscript.Symbols.Classes.Ranks.{IsReachable, IsRanked, IsReachable-IsRanked}
use voidscript.Symbols.Classes.Members.{call_method, own_method}
use voidscript.Symbols.Classes.{
  member_name, ClassInfo, Classes, MethodInfo, find_method, push_method, has_method_internal,
  has_method, was_visited, get_class_info,
}
use voidscript.Symbols.Container.{is_empty}
use voidscript.Value.{Value, ok, throws, about_name}

find_method-append :
    (name : Bytes) (ms : List MethodInfo) (m : MethodInfo)
    → find_method m.name ms ≡ none
    → find_method name (ms ++ (m ∷ []))
      ≡ (if bytes_eq m.name name then some m else find_method name ms)
unfolding find_method
find_method-append name [] m fresh = refl
find_method-append name (k ∷ ms) m fresh = ground (
  arith,
  find_method-append name ms m,
  bytes_eq_iff k.name name,
  bytes_eq_iff k.name m.name,
  bytes_eq_iff m.name name,
)

module _ {E : Type 0} where
  -- Where a method, of a script or a native one, was added to a class, the class has it under its
  -- name, and every other method of this and of the other classes is the one that was there.
  pub own_method-push_method :
      (class_name : Bytes) (m : MethodInfo) (cs cs' : Classes E)
      → push_method class_name m cs ≡ ok cs'
      → (c name : Bytes)
      → own_method c name cs'
        ≡ (if bytes_eq class_name c && bytes_eq m.name name then some m else own_method c name cs)
  unfolding own_method push_method get_class_info
  own_method-push_method class_name m cs cs' e c name = elim (Option-cases (lookup class_name cs)) [
    | inl missing ↦ absurd (ground arith)
    | inr (info, found) ↦ elim (Option-cases (find_method m.name info.methods)) [
      | inr (k, has) ↦ absurd (ground arith)
      | inl fresh ↦
          let info' : ClassInfo E = record info { methods = info.methods ++ (m ∷ []) } in
          let same : cs' ≡ insert class_name info' cs = ground arith in
          rw same (
            ground (
              arith,
              lookup-insert class_name c info' cs,
              bytes_eq_iff class_name c,
              find_method-append name info.methods m fresh,
            ))
    ]
  ]

  -- The class at some distance up from a class has a method of the name; none below it does.
  pub data HasAt (cs : Classes E) (name : Bytes) : ℕ → Bytes → Type 0 where
    own :
        {c : Bytes} (info : ClassInfo E) (m : MethodInfo)
        → lookup c cs ≡ some info
        → find_method name info.methods ≡ some m
        → HasAt cs name 0 c
    inherited :
        {n : ℕ} {c : Bytes} (info : ClassInfo E)
        → lookup c cs ≡ some info
        → find_method name info.methods ≡ none
        → is_empty info.parent_class ≡ false
        → HasAt cs name n info.parent_class
        → HasAt cs name (suc n) c

  module _ (cs : Classes E) (name : Bytes) (r : IsRanked cs) where
    abbrev Above : ℕ → List Bytes → Type 0
    Above n visited = All (λ v. n < r.rank v) visited

    not_visited :
        (c : Bytes) (visited : List Bytes)
        → Above (r.rank c) visited
        → was_visited c visited ≡ false
    unfolding was_visited
    not_visited c [] h = refl
    not_visited c (v ∷ visited) (above, h) =
        ground (arith, bytes_eq_iff v c, not_visited c visited h)

    Above-mono : (m n : ℕ) (visited : List Bytes) → m < n → Above n visited → Above m visited
    Above-mono m n [] h k = tt
    Above-mono m n (v ∷ visited) h (p, k) = (omega (arith, p, h), Above-mono m n visited h k)

    found-HasAt :
        (left : ℕ) (c : Bytes) (visited : List Bytes)
        → has_method_internal left c name visited cs ≡ true
        → (n : ℕ) × (n < left) × HasAt cs name n c
    unfolding has_method_internal
    found-HasAt zero c visited h = absurd (ground arith)
    found-HasAt (suc left) c visited h = elim (Option-cases (lookup c cs)) [
      | inl missing ↦ absurd (ground arith)
      | inr (info, found) ↦ elim (Option-cases (find_method name info.methods)) [
        | inr (m, has) ↦ (0, omega arith, own info m found has)
        | inl lacks ↦ elim (Bool-cases (is_empty info.parent_class)) [
          | inl root ↦ absurd (ground arith)
          | inr parent ↦
              let (n, less, above) =
                found-HasAt left info.parent_class (c ∷ visited) (ground arith) in
              (suc n, omega (arith, less), inherited info found lacks parent above)
        ]
      ]
    ]

    HasAt-found :
        (left n : ℕ) (c : Bytes) (visited : List Bytes)
        → HasAt cs name n c
        → n < left
        → Above (r.rank c) visited
        → has_method_internal left c name visited cs ≡ true
    unfolding has_method_internal
    HasAt-found zero n c visited d less above = absurd (omega (arith, less))
    HasAt-found (suc left) zero c visited (own info m found has) less above =
        rw (not_visited c visited above, found, has) refl
    HasAt-found (suc left) (suc n) c visited (inherited info found lacks parent d) less above =
        let (known, below) = r.parents c info found parent in
        rw (not_visited c visited above, found, lacks, parent)
          (HasAt-found left n info.parent_class (c ∷ visited) d (omega (arith, less))
            (below, Above-mono (r.rank info.parent_class) (r.rank c) visited below above))

  -- After any sequence of operations on an empty registry, `hasMethod` is true exactly where the
  -- class, or a parent no more than ten classes up, has a method of the name.
  pub has_method-HasAt :
      (cs : Classes E) (c name : Bytes)
      → IsReachable cs
      → (has_method c name cs ≡ true → (n : ℕ) × (n ≤ 10) × HasAt cs name n c)
        × ((n : ℕ) → n ≤ 10 → HasAt cs name n c → has_method c name cs ≡ true)
  unfolding has_method
  has_method-HasAt cs c name reachable =
      let r = IsReachable-IsRanked reachable in
      (
        λ h. let (n, less, at) = found-HasAt cs name r 11 c [] h in (n, omega (arith, less), at),
        λ n less at. HasAt-found cs name r 11 n c [] at (omega (arith, less)) tt,
      )

  -- After any sequence of operations on an empty registry, where a class inherits a method from a
  -- parent no more than ten classes up and has none of the name itself, `hasMethod` is true and
  -- `callMethod` throws that the method is not found.
  pub call_method-HasAt :
      (cs : Classes E) (c name : Bytes) (n : ℕ) (args : List Value)
      → IsReachable cs
      → n < 10
      → HasAt cs name (suc n) c
      → (has_method c name cs ≡ true)
        × (call_method c name args cs ≡ throws (about_name "Method not found" (member_name c name)))
  unfolding call_method get_class_info
  call_method-HasAt cs c name n args reachable less (inherited info found lacks parent d) = (
    (has_method-HasAt cs c name reachable).1 (suc n) (omega (arith, less))
        (inherited info found lacks parent d),
    ground arith,
  )
