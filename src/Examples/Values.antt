-- ===== src/Examples/Values.antt =====
-- Values, keys and comparisons, with integers in place of floats.
use phpunit_rust.Prelude.{◌+◌, true, false, ◌≡◌, ◌↔◌, refl, [], ◌∷◌, some, arith}
use phpunit_rust.Int.{ℤ, pos, negsuc, eq_ℤ, compare_ℤ, in_i64, ◌+ℤ◌, ◌-ℤ◌, ◌*ℤ◌, pos_part, neg_part}
use phpunit_rust.Digits.{value_of}
use phpunit_rust.Reduce.Floats.{Floats}
use phpunit_rust.Reduce.Value.{Bytes, int_key, str_key, Value, bool, str, arr, no_items, item}
use phpunit_rust.Reduce.Value.Numeric.{
  int_num, skip_leading_ws, trim_end, trim_php_ws, span_digits, parse_i64, parse_numeric_prefix,
  full_numeric, str_leading_numeric, canonical_int_string, print_i64,
}
use phpunit_rust.Reduce.Value.Numeric.Canonical.{canonical_int_string_iff}
use phpunit_rust.Reduce.Value.Numeric.Prefix.{full_numeric-str_leading_numeric}
use phpunit_rust.Reduce.Value.Convert.{to_array_key}
use phpunit_rust.Reduce.Value.Convert.Keys.{to_array_key-IsKeyOf}
use phpunit_rust.Reduce.Value.Compare.{php_strict_eq, assert_same, assert_equals}
use phpunit_rust.Reduce.Value.Compare.Laws.{FloatLaws, assert_same-assert_equals}
use phpunit_rust.Reduce.Value.Compare.Flip.{FloatFlips}

-- Floats whose values are the integers.
abbrev pub whole : Floats
whole = record {
  F = ℤ;
  of_int = λ i. i;
  eq = eq_ℤ;
  partial_cmp = λ a b. some (compare_ℤ a b);
  is_finite = λ a. true;
  trunc = λ a. a;
  cast = λ a. a;
  parse = λ s. some (pos (value_of s 0));
  is_sign_negative = λ a. false;
  is_nan = λ a. false;
  is_infinite = λ a. false;
  exponent = λ a. pos 0;
  scientific = λ n a. (print_i64 a, pos 0);
  fixed = λ n a. print_i64 a;
  neg = λ a. pos 0 -ℤ a;
  abs = λ a. pos (pos_part a + neg_part a);
  add = ◌+ℤ◌;
  sub = ◌-ℤ◌;
  mul = ◌*ℤ◌;
  div = λ a b. a;
  powf = λ a b. a;
}

pub whole_laws : FloatLaws whole
whole_laws = record { eq-cmp = λ a b h. ground arith; cmp_self = λ a. ground arith }

pub whole_flips : FloatFlips whole
whole_flips a b = ground arith

-- `-42`.
abbrev pub minus_42 : Bytes
minus_42 = 45 ∷ 52 ∷ 50 ∷ []

-- ` 42 `.
abbrev pub spaced_42 : Bytes
spaced_42 = 32 ∷ 52 ∷ 50 ∷ 32 ∷ []

reads_42 : full_numeric whole spaced_42 ≡ some (int_num (pos 42))
unfolding full_numeric trim_php_ws skip_leading_ws trim_end parse_numeric_prefix span_digits
    parse_i64 value_of
reads_42 = refl

canonical_int_string_iff_example :
    (canonical_int_string minus_42 ≡ some (negsuc 41))
    ↔ ((minus_42 ≡ print_i64 (negsuc 41)) × (in_i64 (negsuc 41) ≡ true))
canonical_int_string_iff_example = canonical_int_string_iff minus_42 (negsuc 41)

full_numeric-str_leading_numeric_example :
    str_leading_numeric whole spaced_42 ≡ some (int_num (pos 42))
full_numeric-str_leading_numeric_example =
    full_numeric-str_leading_numeric whole spaced_42 (int_num (pos 42)) reads_42

key_of_minus_42 : to_array_key {fl = whole} (str minus_42) ≡ some (int_key (negsuc 41))
unfolding to_array_key canonical_int_string parse_i64 value_of
key_of_minus_42 = refl

to_array_key-IsKeyOf_example : (minus_42 ≡ print_i64 (negsuc 41)) × (in_i64 (negsuc 41) ≡ true)
to_array_key-IsKeyOf_example =
    to_array_key-IsKeyOf whole (str minus_42) (int_key (negsuc 41)) key_of_minus_42

-- `[0 => "-42", "k" => true]`.
abbrev table : Value whole
table = arr (item (int_key (pos 0)) (str minus_42) (item (str_key (107 ∷ [])) (bool true) no_items))

table_same : assert_same table table ≡ true
unfolding assert_same php_strict_eq
table_same = refl

assert_same-assert_equals_example : assert_equals table table ≡ true
assert_same-assert_equals_example =
    assert_same-assert_equals whole whole_laws table table (refl, tt, (refl, tt, tt)) table_same
