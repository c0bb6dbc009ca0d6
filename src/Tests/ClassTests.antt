-- ===== src/Tests/ClassTests.antt =====
-- The registry of classes of src/Symbols/SymbolContainer.cpp with two classes: `B` inherits from `A`.
use voidscript.Base.Dict.{lookup}
use voidscript.Base.{
  arith, ℕ, suc, ◌≤◌, ◌≡◌, refl, Bool, true, false, ◌&&◌, [], none, some, Bytes, codes, bytes_eq,
  if◌then◌else◌, length,
}
use voidscript.Symbols.Classes.Methods.{
  own_method-push_method, has_method-HasAt, HasAt, own, inherited, call_method-HasAt,
}
use voidscript.Symbols.Classes.Properties.{has_property-Answers, has_property-Declares, Declares}
use voidscript.Symbols.Classes.Ranks.{
  IsReachable, start, next, registers, inherits, adds_property, adds_method,
}
use voidscript.Symbols.Classes.Members.{own_method, call_method}
use voidscript.Symbols.Classes.{
  find_method, new_class, Classes, MethodInfo, new_method, register_class, register_class_under,
  add_property, push_method, add_class_method, has_property, has_method, member_name,
}
use voidscript.Value.{Result, ok, throws, integer_type, about_name}

abbrev result_of : Result (Classes Unit) → Classes Unit
result_of (ok cs) = cs
result_of _ = []

abbrev a : Bytes
a = codes "A"

abbrev b : Bytes
b = codes "B"

abbrev x : Bytes
x = codes "x"

abbrev f : Bytes
f = codes "f"

abbrev f_info : MethodInfo
f_info = new_method a f none integer_type [] false []

abbrev with_a : Classes Unit
with_a = result_of (register_class a [])

abbrev with_b : Classes Unit
with_b = result_of (register_class_under b a with_a)

abbrev with_x : Classes Unit
with_x = result_of (add_property a x integer_type true none with_b)

abbrev with_f : Classes Unit
with_f = result_of (push_method a f_info with_x)

with_x-IsReachable : IsReachable with_x
unfolding register_class register_class_under add_property
with_x-IsReachable =
    next (next (next start (registers a refl)) (inherits b a refl))
      (adds_property a x integer_type true none refl)

adds_f : push_method a f_info with_x ≡ ok with_f
unfolding register_class register_class_under add_property push_method
adds_f = refl

adds_f_of_script : add_class_method a f integer_type [] false with_x ≡ ok with_f
unfolding add_class_method
adds_f_of_script = adds_f

with_f-IsReachable : IsReachable with_f
with_f-IsReachable =
    next with_x-IsReachable (adds_method a f integer_type [] false adds_f_of_script)

has_property-Answers_example : (r : Bool) × (has_property (suc (length with_x)) b x with_x ≡ some r)
has_property-Answers_example = has_property-Answers with_x x with_x-IsReachable b

has_property-Declares_example :
    (has_property (suc (length with_x)) b x with_x ≡ some true → Declares with_x x b)
    × (Declares with_x x b → has_property (suc (length with_x)) b x with_x ≡ some true)
has_property-Declares_example = has_property-Declares with_x x with_x-IsReachable b

has_method-HasAt_example :
    (has_method b f with_f ≡ true → (n : ℕ) × (n ≤ 10) × HasAt with_f f n b)
    × ((n : ℕ) → n ≤ 10 → HasAt with_f f n b → has_method b f with_f ≡ true)
has_method-HasAt_example = has_method-HasAt with_f b f with_f-IsReachable

own_method-push_method_example :
    own_method b f with_f
    ≡ (if bytes_eq a b && bytes_eq f f then some f_info else own_method b f with_x)
own_method-push_method_example = own_method-push_method a f_info with_x with_f adds_f b f

-- `B` inherits `f` from `A`.
b_has_f : HasAt with_f f 1 b
unfolding lookup find_method register_class register_class_under add_property push_method
b_has_f = inherited (new_class b a) refl refl refl (own _ f_info refl refl)

call_method-HasAt_example :
    (has_method b f with_f ≡ true)
    × (call_method b f [] with_f ≡ throws (about_name "Method not found" (member_name b f)))
call_method-HasAt_example =
    call_method-HasAt with_f b f 0 [] with_f-IsReachable (omega arith) b_has_f
