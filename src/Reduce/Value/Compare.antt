-- ===== src/Reduce/Value/Compare.antt =====
-- crates/analyzer/src/reduce/value.rs: PHP's comparisons `<=>`, `==` and `===`, and the assertions
-- over them.
pub mod Flip
pub mod Laws
use phpunit_rust.Prelude.{
  ℕ, Bool, true, false, not, ◌&&◌, ◌||◌, List, [], ◌∷◌, Option, none, some, if◌then◌else◌, Ordering,
  compare, nat_eq,
}
use phpunit_rust.Int.{ℤ, pos, compare_ℤ, eq_ℤ}
use phpunit_rust.Reduce.Floats.{Floats}
use phpunit_rust.Reduce.Value.{
  Bytes, bytes_eq, bool_eq, ArrayKey, key_eq, Value, null, bool, int, float, str, arr, object,
  closure, Items, no_items, item, Props, no_props, prop, count_items, count_props, item_of, prop_of,
}
use phpunit_rust.Reduce.Value.Numeric.{NumericString, int_num, float_num, full_numeric}
use phpunit_rust.Reduce.Value.Convert.{to_bool, to_float, to_php_string, int_of_bool, num_to_float}

abbrev pub reverse : Ordering → Ordering
reverse Ordering.lt = Ordering.gt
reverse Ordering.eq = Ordering.eq
reverse Ordering.gt = Ordering.lt

abbrev pub is_equal : Ordering → Bool
is_equal Ordering.eq = true
is_equal _ = false

abbrev pub or_equal : Option Ordering → Ordering
or_equal (some o) = o
or_equal none = Ordering.eq

abbrev pub cmp_f64 : (fl : Floats) → fl.F → fl.F → Ordering
cmp_f64 fl a b = or_equal (fl.partial_cmp a b)

-- The first ordering that is not equal.
abbrev pub then_compare : Ordering → Ordering → Ordering
then_compare Ordering.eq o = o
then_compare Ordering.lt o = Ordering.lt
then_compare Ordering.gt o = Ordering.gt

unfoldable pub cmp_bytes : Bytes → Bytes → Ordering
cmp_bytes [] [] = Ordering.eq
cmp_bytes [] (b ∷ bs) = Ordering.lt
cmp_bytes (a ∷ xs) [] = Ordering.gt
cmp_bytes (a ∷ xs) (b ∷ ys) = then_compare (compare a b) (cmp_bytes xs ys)

abbrev pub or_default : Option Bytes → Bytes
or_default none = []
or_default (some s) = s

unfoldable pub cmp_numeric : {fl : Floats} → Value fl → NumericString fl → Ordering
cmp_numeric (int a) (int_num b) = compare_ℤ a b
cmp_numeric {fl} v n = cmp_f64 fl (to_float v) (num_to_float n)

unfoldable pub cmp_numeric_rev : {fl : Floats} → NumericString fl → Value fl → Ordering
cmp_numeric_rev n v = reverse (cmp_numeric v n)

unfoldable pub cmp_numeric_strings : {fl : Floats} → NumericString fl → NumericString fl → Ordering
cmp_numeric_strings (int_num a) (int_num b) = compare_ℤ a b
cmp_numeric_strings {fl} p q = cmp_f64 fl (num_to_float p) (num_to_float q)

-- A number against a string.
abbrev pub cmp_number_text : {fl : Floats} → Value fl → Bytes → Option (NumericString fl) → Ordering
cmp_number_text v s (some n) = cmp_numeric v n
cmp_number_text v s none = cmp_bytes (or_default (to_php_string v)) s

abbrev pub cmp_text_number : {fl : Floats} → Bytes → Value fl → Option (NumericString fl) → Ordering
cmp_text_number s v (some n) = cmp_numeric_rev n v
cmp_text_number s v none = cmp_bytes s (or_default (to_php_string v))

abbrev pub cmp_texts :
    {fl : Floats} → Bytes → Bytes → Option (NumericString fl) → Option (NumericString fl) → Ordering
cmp_texts s t (some p) (some q) = cmp_numeric_strings p q
cmp_texts s t none o = cmp_bytes s t
cmp_texts s t (some p) none = cmp_bytes s t

abbrev pub cmp_bools : {fl : Floats} → Value fl → Value fl → Ordering
cmp_bools v w = compare_ℤ (int_of_bool (to_bool v)) (int_of_bool (to_bool w))

unfoldable mutual
  pub php_compare : {fl : Floats} → Value fl → Value fl → Ordering
  php_compare (bool a) w = cmp_bools (bool a) w
  php_compare v (bool b) = cmp_bools v (bool b)
  php_compare null (arr y) = compare 0 (count_items y)
  php_compare (arr x) null = compare (count_items x) 0
  php_compare null w = cmp_bools null w
  php_compare v null = cmp_bools v null
  php_compare (int a) (int b) = compare_ℤ a b
  php_compare {fl} (int a) (float b) = cmp_f64 fl (fl.of_int a) b
  php_compare {fl} (float a) (int b) = cmp_f64 fl a (fl.of_int b)
  php_compare {fl} (float a) (float b) = cmp_f64 fl a b
  php_compare {fl} (int a) (str s) = cmp_number_text (int a) s (full_numeric fl s)
  php_compare {fl} (float a) (str s) = cmp_number_text (float a) s (full_numeric fl s)
  php_compare {fl} (str s) (int b) = cmp_text_number s (int b) (full_numeric fl s)
  php_compare {fl} (str s) (float b) = cmp_text_number s (float b) (full_numeric fl s)
  php_compare {fl} (str s) (str t) = cmp_texts s t (full_numeric fl s) (full_numeric fl t)
  php_compare (arr x) (arr y) =
      then_compare (compare (count_items x) (count_items y)) (compare_items x y)
  php_compare (object c x u) (object d y w) =
      if not (bytes_eq c d) || not (nat_eq (count_props x) (count_props y))
      then Ordering.gt
      else compare_props x y
  php_compare (object c x u) w = Ordering.gt
  php_compare v (object d y u) = Ordering.lt
  php_compare (closure s x) w = Ordering.gt
  php_compare v (closure t y) = Ordering.lt
  php_compare (arr x) w = Ordering.gt
  php_compare v (arr y) = Ordering.lt

  -- In the order of the left keys; a key that the right does not have ends it.
  pub compare_items : {fl : Floats} → Items fl → Items fl → Ordering
  compare_items no_items y = Ordering.eq
  compare_items (item k v xs) y = elim (item_of k y) [
    | none ↦ Ordering.gt
    | some w ↦ then_compare (php_compare v w) (compare_items xs y)
  ]

  pub compare_props : {fl : Floats} → Props fl → Props fl → Ordering
  compare_props no_props y = Ordering.eq
  compare_props (prop k v xs) y = elim (prop_of k y) [
    | none ↦ Ordering.gt
    | some w ↦ then_compare (php_compare v w) (compare_props xs y)
  ]

-- Whether the loose equality leaves the value to its last arm.
abbrev pub is_opaque : {fl : Floats} → Value fl → Bool
is_opaque (object c ps a) = true
is_opaque (closure s ps) = true
is_opaque _ = false

unfoldable mutual
  unfolding php_compare

  pub php_loose_eq : {fl : Floats} → Value fl → Value fl → Bool
  php_loose_eq (arr x) (arr y) = nat_eq (count_items x) (count_items y) && loose_items x y
  php_loose_eq (object c x u) (object d y w) =
      bytes_eq c d && (nat_eq (count_props x) (count_props y) && loose_props x y)
  php_loose_eq v w = if is_opaque v || is_opaque w then false else is_equal (php_compare v w)

  pub loose_items : {fl : Floats} → Items fl → Items fl → Bool
  loose_items no_items y = true
  loose_items (item k v xs) y = elim (item_of k y) [
    | none ↦ false
    | some w ↦ php_loose_eq v w && loose_items xs y
  ]

  pub loose_props : {fl : Floats} → Props fl → Props fl → Bool
  loose_props no_props y = true
  loose_props (prop k v xs) y = elim (prop_of k y) [
    | none ↦ false
    | some w ↦ php_loose_eq v w && loose_props xs y
  ]

unfoldable mutual
  pub php_strict_eq : {fl : Floats} → Value fl → Value fl → Bool
  php_strict_eq null null = true
  php_strict_eq (bool a) (bool b) = bool_eq a b
  php_strict_eq (int a) (int b) = eq_ℤ a b
  php_strict_eq {fl} (float a) (float b) = fl.eq a b
  php_strict_eq (str a) (str b) = bytes_eq a b
  php_strict_eq (arr a) (arr b) = nat_eq (count_items a) (count_items b) && strict_items a b
  php_strict_eq _ _ = false

  -- `zip` ends with the shorter list.
  pub strict_items : {fl : Floats} → Items fl → Items fl → Bool
  strict_items (item j v xs) (item k w ys) = key_eq j k && (php_strict_eq v w && strict_items xs ys)
  strict_items no_items y = true
  strict_items (item j v xs) no_items = true

unfoldable pub assert_same : {fl : Floats} → Value fl → Value fl → Bool
assert_same expected actual = php_strict_eq expected actual

unfoldable pub assert_equals : {fl : Floats} → Value fl → Value fl → Bool
assert_equals expected actual = php_loose_eq expected actual
