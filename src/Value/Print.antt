-- ===== src/Value/Print.antt =====
-- `Value::toString` of src/Symbols/Value.cpp. `std::to_string` of a floating-point number is part
-- of the format.
use voidscript.Base.{Bool, true, false, [], ◌∷◌, ◌++◌, Bytes, codes, some, if◌then◌else◌}
use voidscript.Value.Decimal.{decimal_ℤ}
use voidscript.Value.Floats.{Floats}
use voidscript.Value.{
  Value, integer, double, float, string, boolean, object, class_instance, null, Members, end,
  member, undefined_type, find,
}

-- `[Class name]`, if the name is there.
unfoldable pub class_text : Members → Bytes
unfolding find
class_text m = elim (find (codes "__class__") m) [
  | some (string name) ↦ codes "[Class " ++ name ++ codes "]"
  | _ ↦ codes "[Class Object]"
]

-- `"key": ` and the rest of the line.
abbrev labelled : Bytes → Bytes → Bytes
labelled key text = b'"' ∷ (key ++ (codes "\": " ++ text))

module _ (fl : Floats) where
  unfoldable mutual
    unfolding decimal_ℤ class_text

    pub to_string : Value → Bytes
    to_string (integer n) = decimal_ℤ n
    to_string (double d) = fl.doubles.print d
    to_string (float d) = fl.floats.print d
    to_string (string s) = s
    to_string (boolean b) = if b then codes "true" else codes "false"
    to_string (class_instance m) = class_text m
    to_string (object m) = b'{' ∷ (member_texts true m ++ b'}' ∷ [])
    to_string (null t) = elim t [ undefined_type ↦ codes "undefined" | _ ↦ codes "null" ]

    -- The members, with `, ` in front of all but the first.
    pub member_texts : Bool → Members → Bytes
    member_texts first end = []
    member_texts first (member key v rest) =
        (if first then [] else codes ", ")
        ++ (labelled key (to_string v) ++ member_texts false rest)
