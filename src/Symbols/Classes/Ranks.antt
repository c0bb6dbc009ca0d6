-- ===== src/Symbols/Classes/Ranks.antt =====
-- The registry of classes of src/Symbols/SymbolContainer.cpp: sequences of its operations, after
-- which no class is among its own parents.
use mathlib.Core.Path.{subst}
use voidscript.Base.{
  ◌++◌, ℕ, suc, ◌<◌, ◌≡◌, ◌⊎◌, refl, sym, ap, ◌∙◌, Bool, true, false, List, [], ◌∷◌, Option, none,
  some, arith, Bytes, bytes_eq, bytes_eq_iff, if◌then◌else◌, length, Option-cases, Bool-cases, inl,
  inr,
}
use voidscript.Base.Dict.{Dict, lookup, insert, lookup-insert}
use voidscript.Symbols.Classes.Members.{set_object_property}
use voidscript.Symbols.Classes.{
  ClassInfo, Classes, ParameterInfo, MethodInfo, NativeMethod, new_class, has_class, register_class,
  register_class_under, add_property, push_method, add_class_method, add_native_method,
  get_class_info,
}
use voidscript.Symbols.Container.{is_empty}
use voidscript.Value.{Value, VarType, ok}

length-insert {ℓ} :
    {V : Type ℓ} (key : Bytes) (v : V) (m : Dict V)
    → length (insert key v m) ≡ elim (lookup key m) [ none ↦ suc (length m) | some w ↦ length m ]
unfolding insert lookup
length-insert key v [] = refl
length-insert key v ((k, w) ∷ rest) = ground (arith, length-insert key v rest)

module _ {E : Type 0} where
  -- The operations on the registry that change it.
  pub data Step : Classes E → Classes E → Type 0 where
    registers : (name : Bytes) {cs cs' : Classes E} → register_class name cs ≡ ok cs' → Step cs cs'
    inherits :
        (name parent : Bytes) {cs cs' : Classes E}
        → register_class_under name parent cs ≡ ok cs'
        → Step cs cs'
    adds_property :
        (class_name name : Bytes) (type : VarType) (is_private : Bool) (default : Option E)
        {cs cs' : Classes E}
        → add_property class_name name type is_private default cs ≡ ok cs'
        → Step cs cs'
    adds_method :
        (class_name name : Bytes) (type : VarType) (parameters : List ParameterInfo)
        (is_private : Bool) {cs cs' : Classes E}
        → add_class_method class_name name type parameters is_private cs ≡ ok cs'
        → Step cs cs'
    adds_native :
        (class_name name : Bytes) (native : NativeMethod) (type : VarType)
        (parameters : List ParameterInfo) (is_private : Bool) (description : Bytes)
        {cs cs' : Classes E}
        → add_native_method class_name name native type parameters is_private description cs
          ≡ ok cs'
        → Step cs cs'
    sets :
        (class_name name : Bytes) (v : Value) (cs : Classes E)
        → Step cs (set_object_property class_name name v cs)

  pub data IsReachable : Classes E → Type 0 where
    start : IsReachable []
    next : {cs cs' : Classes E} → IsReachable cs → Step cs cs' → IsReachable cs'

  abbrev ParentBelow : (Bytes → ℕ) → Classes E → Bytes → ClassInfo E → Type 0
  ParentBelow rank cs name info =
      is_empty info.parent_class ≡ false
      → (has_class info.parent_class cs ≡ true) × (rank info.parent_class < rank name)

  -- A class has a greater rank than its parent, and all are less than the number of classes.
  pub record IsRanked (cs : Classes E) : Type 0 where
    pub rank : Bytes → ℕ
    pub bounded : (name : Bytes) → has_class name cs ≡ true → rank name < length cs
    pub parents :
        (name : Bytes) (info : ClassInfo E)
        → lookup name cs ≡ some info
        → ParentBelow rank cs name info

  start-IsRanked : IsRanked []
  unfolding has_class lookup
  start-IsRanked = record {
    rank = λ name. 0;
    bounded = λ name h. ground arith;
    parents = λ name info h. ground arith;
  }

  inserted :
      (name x : Bytes) (v i : ClassInfo E) (cs : Classes E)
      → lookup x (insert name v cs) ≡ some i
      → ((bytes_eq name x ≡ true) × (i ≡ v)) ⊎ ((bytes_eq name x ≡ false) × (lookup x cs ≡ some i))
  inserted name x v i cs h = elim (Bool-cases (bytes_eq name x)) [
    | inl here ↦ inl (here, ground (arith, lookup-insert name x v cs))
    | inr elsewhere ↦ inr (elsewhere, ground (arith, lookup-insert name x v cs))
  ]

  has_class-insert :
      (name x : Bytes) (info : ClassInfo E) (cs : Classes E)
      → has_class x (insert name info cs) ≡ (if bytes_eq name x then true else has_class x cs)
  unfolding has_class
  has_class-insert name x info cs = ground (arith, lookup-insert name x info cs)

  -- A new class, whose parent is registered if it has one.
  registered-IsRanked :
      (name parent : Bytes) (cs : Classes E)
      → IsRanked cs
      → has_class name cs ≡ false
      → (is_empty parent ≡ false → has_class parent cs ≡ true)
      → IsRanked (insert name (new_class name parent) cs)
  unfolding has_class
  registered-IsRanked name parent cs r new known = record {
    rank = λ x. if bytes_eq name x then length cs else r.rank x;
    bounded = λ x h.
        ground (arith, longer, has_class-insert name x (new_class name parent) cs, r.bounded x);
    parents = parents;
  }
    where
      longer : length (insert name (new_class name parent) cs) ≡ suc (length cs)
      longer = ground (arith, length-insert name (new_class name parent) cs)

      rank : Bytes → ℕ
      rank x = if bytes_eq name x then length cs else r.rank x

      -- A class that was known ranks below the new one.
      known_before :
          (x : Bytes)
          → has_class x cs ≡ true
          → (has_class x (insert name (new_class name parent) cs) ≡ true)
            × (rank x ≡ r.rank x)
            × (r.rank x < length cs)
      known_before x h = (
        ground (arith, has_class-insert name x (new_class name parent) cs),
        ground (arith, bytes_eq_iff name x),
        r.bounded x h,
      )

      parents :
          (x : Bytes) (info : ClassInfo E)
          → lookup x (insert name (new_class name parent) cs) ≡ some info
          → ParentBelow rank (insert name (new_class name parent) cs) x info
      parents x info h e = elim (inserted name x _ info cs h) [
        | inl (here, same) ↦
            let p : info.parent_class ≡ parent = ap (λ (i : ClassInfo E). i.parent_class) same in
            let (k, l, m) = known_before parent (known (sym (ap is_empty p) ∙ e)) in
            rw (p, here, l) (k, m)
        | inr (elsewhere, before) ↦
            let (k, l) = r.parents x info before e in
            let (q, t, _) = known_before info.parent_class k in rw (elsewhere, t) (q, l)
      ]

  -- A class changed otherwise than in its parent.
  changed-IsRanked :
      (name : Bytes) (info info' : ClassInfo E) (cs : Classes E)
      → IsRanked cs
      → lookup name cs ≡ some info
      → info'.parent_class ≡ info.parent_class
      → IsRanked (insert name info' cs)
  unfolding has_class
  changed-IsRanked name info info' cs r h same = record {
    rank = r.rank;
    bounded = λ x k. ground (
      arith,
      length-insert name info' cs,
      has_class-insert name x info' cs,
      r.bounded x,
      bytes_eq_iff name x,
    );
    parents = λ x i k e. elim (inserted name x info' i cs k) [
      | inl (here, with) ↦
          let p : i.parent_class ≡ info.parent_class =
            ap (λ (j : ClassInfo E). j.parent_class) with ∙ same in
          let (q, l) = r.parents name info h (sym (ap is_empty p) ∙ e) in
          rw p (
            ground (arith, has_class-insert name info.parent_class info' cs),
            ground (arith, bytes_eq_iff name x),
          )
      | inr (elsewhere, before) ↦
          let (q, l) = r.parents x i before e in
          (ground (arith, has_class-insert name i.parent_class info' cs), l)
    ];
  }

  push_method-IsRanked :
      (name : Bytes) (m : MethodInfo) (cs cs' : Classes E)
      → push_method name m cs ≡ ok cs'
      → IsRanked cs
      → IsRanked cs'
  unfolding push_method get_class_info
  push_method-IsRanked name m cs cs' e r = elim (Option-cases (lookup name cs)) [
    | inl missing ↦ absurd (ground arith)
    | inr (info, h) ↦ subst IsRanked (ground arith) (
        changed-IsRanked name info (record info { methods = info.methods ++ (m ∷ []) }) cs r h refl)
  ]

  Step-IsRanked : {cs cs' : Classes E} → Step cs cs' → IsRanked cs → IsRanked cs'
  unfolding register_class register_class_under add_property add_class_method add_native_method
      set_object_property get_class_info
  Step-IsRanked (registers name {cs} {cs'} e) r =
      subst IsRanked (ground arith) (registered-IsRanked name [] cs r (ground arith) λ h. absurd cc)
  Step-IsRanked (inherits name parent {cs} {cs'} e) r =
      subst IsRanked (ground arith)
        (registered-IsRanked name parent cs r (ground arith) λ h. ground arith)
  Step-IsRanked (adds_property class_name name type is_private default {cs} {cs'} e) r =
      elim (Option-cases (lookup class_name cs)) [
        | inl missing ↦ absurd (ground arith)
        | inr (info, h) ↦ subst IsRanked (ground arith) (
            changed-IsRanked class_name info
              (record info {
                properties =
                    info.properties
                    ++ (record {
                      name = name;
                      type = type;
                      default_value_expr = default;
                      is_private = is_private;
                    }
                        ∷ []);
              })
              cs r h refl)
      ]
  Step-IsRanked (adds_method class_name name type parameters is_private e) r =
      push_method-IsRanked class_name _ _ _ e r
  Step-IsRanked (adds_native class_name name native type parameters is_private description e) r =
      push_method-IsRanked class_name _ _ _ e r
  Step-IsRanked (sets class_name name v cs) r = elim (Option-cases (lookup class_name cs)) [
    | inl missing ↦ subst IsRanked (ground arith) r
    | inr (info, h) ↦ subst IsRanked (ground arith) (
        changed-IsRanked class_name info
          (record info { static_properties = insert name v info.static_properties }) cs r h refl)
  ]

  pub IsReachable-IsRanked : {cs : Classes E} → IsReachable cs → IsRanked cs
  IsReachable-IsRanked start = start-IsRanked
  IsReachable-IsRanked (next r s) = Step-IsRanked s (IsReachable-IsRanked r)
