-- ===== src/Reduce/Value/Convert/Keys.antt =====
-- crates/analyzer/src/reduce/value.rs: the keys of arrays.
use phpunit_rust.Prelude.{
  [], true, ◌≡◌, ◌∙◌, refl, sym, Option, none, some, subst, some_eq, from_none,
}
use phpunit_rust.Int.{ℤ, in_i64}
use phpunit_rust.Reduce.Floats.{Floats}
use phpunit_rust.Reduce.Value.{
  Bytes, ArrayKey, int_key, str_key, Value, null, bool, int, float, str, arr, object, closure,
}
use phpunit_rust.Reduce.Value.Numeric.{canonical_int_string, print_i64}
use phpunit_rust.Reduce.Value.Numeric.Canonical.{canonical_int_string_iff}
use phpunit_rust.Reduce.Value.Convert.{to_array_key, to_php_string, key_of_string}

-- A text that is the text of no 64-bit integer.
abbrev pub NoInteger : Bytes → Type 0
NoInteger s = (i : ℤ) → ¬ ((s ≡ print_i64 i) × (in_i64 i ≡ true))

-- What the key of a value is, said of the texts of integers.
abbrev pub IsKeyOf : {fl : Floats} → Value fl → ArrayKey → Type 0
IsKeyOf (str t) (int_key i) = (t ≡ print_i64 i) × (in_i64 i ≡ true)
IsKeyOf (str t) (str_key s) = (s ≡ t) × NoInteger s
IsKeyOf v (int_key i) = Unit {0}
IsKeyOf v (str_key s) = NoInteger s

no_integer : (s : Bytes) → canonical_int_string s ≡ none → NoInteger s
no_integer s none_there i is_text =
    from_none (sym none_there ∙ (canonical_int_string_iff s i).1 is_text)

string_key :
    (fl : Floats) (s : Bytes) (o : Option ℤ)
    → canonical_int_string s ≡ o
    → IsKeyOf {fl = fl} (str s) (key_of_string s o)
string_key fl s (some i) h = (canonical_int_string_iff s i).0 h
string_key fl s none h = (refl, no_integer s h)

-- The key of a string is the 64-bit integer whose text it is, if there is one, and else the string
-- itself; and no other value has a string key that is such a text.
pub to_array_key-IsKeyOf :
    (fl : Floats) (v : Value fl) (k : ArrayKey) → to_array_key v ≡ some k → IsKeyOf v k
unfolding to_array_key
to_array_key-IsKeyOf fl null k h =
    subst (IsKeyOf {fl = fl} null) (some_eq h) (no_integer [] (unfold canonical_int_string in refl))
to_array_key-IsKeyOf fl (bool b) k h = subst (IsKeyOf {fl = fl} (bool b)) (some_eq h) tt
to_array_key-IsKeyOf fl (int i) k h = subst (IsKeyOf {fl = fl} (int i)) (some_eq h) tt
to_array_key-IsKeyOf fl (float f) k h = subst (IsKeyOf {fl = fl} (float f)) (some_eq h) tt
to_array_key-IsKeyOf fl (str s) k h =
    subst (IsKeyOf {fl = fl} (str s)) (some_eq h) (string_key fl s (canonical_int_string s) refl)
to_array_key-IsKeyOf fl (arr xs) k h = cc
to_array_key-IsKeyOf fl (object c ps a) k h = cc
to_array_key-IsKeyOf fl (closure s ps) k h = cc

-- An integer and the string that PHP casts it to are one key.
to_array_key-print :
    (fl : Floats) (i : ℤ)
    → in_i64 i ≡ true
    → (s : Bytes) → to_php_string {fl = fl} (int i) ≡ some s
    → to_array_key {fl = fl} (str s) ≡ to_array_key {fl = fl} (int i)
unfolding to_array_key to_php_string
to_array_key-print fl i h s e =
    let same : print_i64 i ≡ s = cc in rw ((canonical_int_string_iff s i).1 (sym same, h))
