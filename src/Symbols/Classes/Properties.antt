-- ===== src/Symbols/Classes/Properties.antt =====
-- `hasProperty` of src/Symbols/SymbolContainer.cpp, which follows the parents of a class without
-- looking for a cycle.
use voidscript.Base.{
  ℕ, zero, suc, ◌<◌, ◌≡◌, ◌∙◌, refl, Bool, true, false, none, some, arith, Bytes, length,
  Option-cases, Bool-cases, inl, inr,
}
use voidscript.Base.Dict.{lookup}
use voidscript.Symbols.Classes.Ranks.{IsReachable, IsRanked, IsReachable-IsRanked}
use voidscript.Symbols.Classes.{
  ClassInfo, Classes, PropertyInfo, find_property, has_class, has_property,
}
use voidscript.Symbols.Container.{is_empty}

module _ {E : Type 0} where
  -- A class declares a property or inherits it from its parent.
  pub data Declares (cs : Classes E) (name : Bytes) : Bytes → Type 0 where
    own :
        {c : Bytes} (info : ClassInfo E) (p : PropertyInfo E)
        → lookup c cs ≡ some info
        → find_property name info.properties ≡ some p
        → Declares cs name c
    inherited :
        {c : Bytes} (info : ClassInfo E)
        → lookup c cs ≡ some info
        → is_empty info.parent_class ≡ false
        → Declares cs name info.parent_class
        → Declares cs name c

  module _ (cs : Classes E) (name : Bytes) where
    abbrev Answers : ℕ → Bytes → Type 0
    Answers fuel c = (b : Bool) × (has_property fuel c name cs ≡ some b)

    goes_up :
        (fuel : ℕ) (c : Bytes) (info : ClassInfo E)
        → lookup c cs ≡ some info
        → find_property name info.properties ≡ none
        → is_empty info.parent_class ≡ false
        → has_property (suc fuel) c name cs ≡ has_property fuel info.parent_class name cs
    unfolding has_property
    goes_up fuel c info found lacks parent = ground arith

    -- Fuel above the rank of the class is enough.
    above-Answers : (r : IsRanked cs) (fuel : ℕ) (c : Bytes) → r.rank c < fuel → Answers fuel c
    unfolding has_property
    above-Answers r zero c h = absurd (omega (arith, h))
    above-Answers r (suc fuel) c h = elim (Option-cases (lookup c cs)) [
      | inl missing ↦ (false, ground arith)
      | inr (info, found) ↦ elim (Option-cases (find_property name info.properties)) [
        | inr (p, has) ↦ (true, ground arith)
        | inl lacks ↦ elim (Bool-cases (is_empty info.parent_class)) [
          | inl root ↦ (false, ground arith)
          | inr parent ↦
              let (known, below) = r.parents c info found parent in
              let (b, e) = above-Answers r fuel info.parent_class (omega (arith, below, h)) in
              (b, goes_up fuel c info found lacks parent ∙ e)
        ]
      ]
    ]

    -- After any sequence of operations on an empty registry, the search of a property through the
    -- parents of a class, registered or not, ends with an answer, after no more classes than there
    -- are and one.
    pub has_property-Answers :
        IsReachable cs
        → (c : Bytes) → (b : Bool) × (has_property (suc (length cs)) c name cs ≡ some b)
    unfolding has_property has_class
    has_property-Answers reachable c =
        let r = IsReachable-IsRanked reachable in
        elim (Option-cases (lookup c cs)) [
          | inl missing ↦ (false, ground arith)
          | inr (info, found) ↦
              let below = r.bounded c (rw found refl) in
              above-Answers r (suc (length cs)) c (omega (arith, below))
        ]

    found-Declares :
        (fuel : ℕ) (c : Bytes) → has_property fuel c name cs ≡ some true → Declares cs name c
    unfolding has_property
    found-Declares zero c h = absurd (ground arith)
    found-Declares (suc fuel) c h = elim (Option-cases (lookup c cs)) [
      | inl missing ↦ absurd (ground arith)
      | inr (info, found) ↦ elim (Option-cases (find_property name info.properties)) [
        | inr (p, has) ↦ own info p found has
        | inl lacks ↦ elim (Bool-cases (is_empty info.parent_class)) [
          | inl root ↦ absurd (ground arith)
          | inr parent ↦
              inherited info found parent (found-Declares fuel info.parent_class (ground arith))
        ]
      ]
    ]

    Declares-found :
        (fuel : ℕ) (c : Bytes) (b : Bool)
        → Declares cs name c
        → has_property fuel c name cs ≡ some b
        → b ≡ true
    unfolding has_property
    Declares-found zero c b d h = absurd (ground arith)
    Declares-found (suc fuel) c b (own info p found has) h = ground arith
    Declares-found (suc fuel) c b (inherited info found parent d) h =
        elim (Option-cases (find_property name info.properties)) [
          | inr (p, has) ↦ ground arith
          | inl lacks ↦ Declares-found fuel info.parent_class b d (ground arith)
        ]

    -- In every such registry, the search finds a property exactly where the class declares it or
    -- inherits it, at any distance.
    pub has_property-Declares :
        IsReachable cs
        → (c : Bytes)
        → (has_property (suc (length cs)) c name cs ≡ some true → Declares cs name c)
          × (Declares cs name c → has_property (suc (length cs)) c name cs ≡ some true)
    has_property-Declares reachable c = (
      found-Declares (suc (length cs)) c,
      λ d.
          let (b, e) = has_property-Answers reachable c in
          let same = Declares-found (suc (length cs)) c b d e in ground arith,
    )
