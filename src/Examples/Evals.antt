-- ===== src/Examples/Evals.antt =====
-- The evaluator's operations on values, with integers in place of floats.
use phpunit_rust.Prelude.{
  ℕ, true, false, ◌&&◌, ◌≡◌, ◌↔◌, refl, [], ◌∷◌, List, some, if◌then◌else◌, ◌⊎◌,
}
use phpunit_rust.Int.{ℤ, pos, negsuc, ◌*ℤ◌, ◌-ℤ◌, ◌+ℤ◌}
use phpunit_rust.Digits.{value_of}
use phpunit_rust.Reduce.Value.{
  Value, ArrayKey, int_key, str_key, key_eq, null, bool, int, str, arr, no_items, item, item_of,
  Items,
}
use phpunit_rust.Reduce.Value.Numeric.{
  skip_leading_ws, trim_end, trim_php_ws, span_digits, parse_i64, parse_numeric_prefix,
  full_numeric,
}
use phpunit_rust.Reduce.Value.Convert.{to_array_key, to_bool, to_int, i64_min, i64_max}
use phpunit_rust.Reduce.Value.Compare.{php_compare, php_loose_eq, php_strict_eq, assert_equals}
use phpunit_rust.Reduce.Value.Compare.Laws.{WellKeyed}
use phpunit_rust.Reduce.Eval.{pass, ok, panic}
use phpunit_rust.Reduce.Eval.Guards.{
  loose_eq_pair_unmodelled, comparator_eq_divergent, contains_identity_value,
  bail_if_object_mixed_loose, bail_if_comparator_divergent, bail_if_identity_in_strict_search,
}
use phpunit_rust.Reduce.Eval.Guards.Reference.{Oracle}
use phpunit_rust.Reduce.Eval.Assertions.{assertion_of, two_args, run_known, run_assertion}
use phpunit_rust.Reduce.Eval.Arith.{arithmetic_operand, coerce_number, php_div, php_mod}
use phpunit_rust.Reduce.Eval.Arith.Whole.{IsRemainder, php_div_exact, php_mod-IsRemainder}
use phpunit_rust.Reduce.Eval.Binary.{
  division, less_than, greater_than, less_than_or_equal, greater_than_or_equal, spaceship,
  apply_binary,
}
use phpunit_rust.Reduce.Eval.Binary.Panics.{apply_binary_panics}
use phpunit_rust.Reduce.Eval.Binary.Order.{apply_binary_turned}
use phpunit_rust.Reduce.Eval.Hints.{
  integer_hint, nullable_hint, is_scalar_value, bare_scalar_hint_matches, hint_leaves,
  bail_if_scalar_hint_coerces, scalar_hint_of, bail_if_coerces, guard_property, of_hint,
  scalar_hint_name,
}
use phpunit_rust.Reduce.Eval.Hints.Owned.{is_bail, is_placed, guard_property-tree}
use phpunit_rust.Reduce.Eval.Arrays.{
  build_array, build_from, key_value, plain, insert_key, stored, array_key_to_value,
  eval_array_access,
}
use phpunit_rust.Reduce.Eval.Arrays.Keyed.{eval_array_access-insert_key}
use phpunit_rust.Reduce.Eval.Builtins.{
  builtin_of, is_cursor, merge_items, merge_arrays, call_builtin, call_pure_builtin,
}
use phpunit_rust.Reduce.Eval.Builtins.Keyed.{call_pure_builtin-WellKeyed}
use phpunit_rust.Reduce.Eval.Builtins.Pure.{strict_search, array_search-in_array}
use phpunit_rust.Examples.Values.{whole, whole_flips, minus_42, spaced_42}

-- PHP's verdict on the pairs of values without a model: never equal.
abbrev never : Oracle whole
never v w = false

abbrev compared : List (Value whole)
compared = int (pos 42) ∷ str spaced_42 ∷ []

-- `null` and "0" pass as equal.
null_zero : run_assertion {fl = whole} "assertEquals" (null ∷ str (48 ∷ []) ∷ []) ≡ ok pass
unfolding run_assertion assertion_of run_known two_args bail_if_object_mixed_loose
    bail_if_comparator_divergent loose_eq_pair_unmodelled comparator_eq_divergent assert_equals
    php_loose_eq php_compare to_bool
null_zero = refl

-- `-1`.
abbrev minus_1 : List ℕ
minus_1 = 45 ∷ 49 ∷ []

apply_binary_panics_example :
    (apply_binary {fl = whole} division (int i64_min) (str minus_1) ≡ panic) ↔ (
      (division ≡ division)
      × (arithmetic_operand {fl = whole} (int i64_min) ≡ ok (int i64_min))
      × (arithmetic_operand {fl = whole} (str minus_1) ≡ ok (int (negsuc 0))))
apply_binary_panics_example = apply_binary_panics division (int i64_min) (str minus_1)

operand_42 : arithmetic_operand {fl = whole} (str spaced_42) ≡ ok (int (pos 42))
unfolding arithmetic_operand full_numeric trim_php_ws skip_leading_ws trim_end parse_numeric_prefix
    span_digits parse_i64 value_of
operand_42 = refl

operand_int : (n : ℤ) → arithmetic_operand {fl = whole} (int n) ≡ ok (int n)
unfolding arithmetic_operand coerce_number
operand_int n = refl

php_div_exact_example :
    (php_div {fl = whole} (str spaced_42) (int (negsuc 5)) ≡ ok (int (negsuc 6)))
    ↔ (negsuc 6 *ℤ negsuc 5 ≡ pos 42)
php_div_exact_example =
    php_div_exact (str spaced_42) (int (negsuc 5)) (pos 42) (negsuc 5) (negsuc 6) operand_42
      (operand_int (negsuc 5)) refl refl

php_mod-IsRemainder_example :
    (m : ℤ) × (php_mod {fl = whole} (int (negsuc 6)) (int (pos 3)) ≡ ok (int m))
    × IsRemainder (to_int {fl = whole} (int (negsuc 6))) (to_int {fl = whole} (int (pos 3))) m
unfolding to_int
php_mod-IsRemainder_example =
    php_mod-IsRemainder (int (negsuc 6)) (int (pos 3)) (int (negsuc 6)) (int (pos 3))
      (operand_int (negsuc 6)) (operand_int (pos 3)) refl

guard_property-tree_example :
    is_bail
      (guard_property {fl = whole} (scalar_hint_of (nullable_hint integer_hint)) (str minus_42))
    ≡ (is_scalar_value {fl = whole} (str minus_42)
        && is_bail (
            bail_if_scalar_hint_coerces {fl = whole}
              (nullable_hint integer_hint)
              (str minus_42)
              "property"))
unfolding is_placed
guard_property-tree_example =
    guard_property-tree (nullable_hint integer_hint) (str minus_42) "property" refl

-- An array that is written to a property of type `int`: the guard that is kept lets it pass.
array_to_int :
    (is_bail (guard_property {fl = whole} (scalar_hint_of integer_hint) (arr no_items)) ≡ false)
    × (is_bail (bail_if_scalar_hint_coerces {fl = whole} integer_hint (arr no_items) "property")
        ≡ true)
unfolding guard_property scalar_hint_of hint_leaves of_hint bail_if_coerces is_scalar_value
    bail_if_scalar_hint_coerces bare_scalar_hint_matches scalar_hint_name
array_to_int = (refl, refl)

-- `[5 => "-42", "k" => true]`.
abbrev keyed : Items whole
keyed = item (int_key (pos 5)) (str minus_42) (item (str_key (107 ∷ [])) (bool true) no_items)

-- The same, merged with `["k" => 7]`.
abbrev merged : Value whole
merged =
    arr (item (int_key (pos 0)) (str minus_42) (item (str_key (107 ∷ [])) (int (pos 7)) no_items))

abbrev to_merge : List (Value whole)
to_merge = arr keyed ∷ arr (item (str_key (107 ∷ [])) (int (pos 7)) no_items) ∷ []

merges : call_pure_builtin "array_merge" to_merge ≡ ok (some merged)
unfolding call_pure_builtin is_cursor builtin_of call_builtin merge_arrays merge_items insert_key
merges = refl

call_pure_builtin-WellKeyed_example : WellKeyed merged
call_pure_builtin-WellKeyed_example =
    call_pure_builtin-WellKeyed "array_merge" to_merge merged
      ((refl, tt, (refl, tt, tt)), ((refl, tt, tt), tt)) merges

no_identity : bail_if_identity_in_strict_search (bool true) keyed ≡ ok tt
unfolding bail_if_identity_in_strict_search contains_identity_value
no_identity = refl

array_search-in_array_example :
    ((call_pure_builtin "array_search" (strict_search (bool true) keyed) ≡ ok (some (bool false)))
      × (call_pure_builtin "in_array" (strict_search (bool true) keyed) ≡ ok (some (bool false))))
    ⊎ ((k : ArrayKey) × (v : Value whole) × (call_pure_builtin "array_search"
            (strict_search (bool true) keyed)
          ≡ ok (some (array_key_to_value k)))
        × (item_of k keyed ≡ some v)
        × (php_strict_eq v (bool true) ≡ true)
        × (call_pure_builtin "in_array" (strict_search (bool true) keyed) ≡ ok (some (bool true))))
array_search-in_array_example =
    array_search-in_array (bool true) keyed (refl, tt, (refl, tt, tt)) no_identity

key_of_5 : to_array_key {fl = whole} (int (pos 5)) ≡ some (int_key (pos 5))
unfolding to_array_key
key_of_5 = refl

eval_array_access-insert_key_example :
    eval_array_access (arr (insert_key keyed (str_key (107 ∷ [])) (int (pos 1)))) (int (pos 5)) ≡ (
      if key_eq (str_key (107 ∷ [])) (int_key (pos 5))
      then ok (stored (int (pos 1)))
      else eval_array_access (arr keyed) (int (pos 5)))
eval_array_access-insert_key_example =
    eval_array_access-insert_key keyed (str_key (107 ∷ [])) (int_key (pos 5)) (int (pos 1))
      (int (pos 5)) key_of_5

apply_binary_turned_example :
    (apply_binary {fl = whole} less_than (int (pos 7)) (str spaced_42)
      ≡ apply_binary greater_than (str spaced_42) (int (pos 7)))
    × (apply_binary {fl = whole} less_than_or_equal (int (pos 7)) (str spaced_42)
        ≡ apply_binary greater_than_or_equal (str spaced_42) (int (pos 7)))
    × ((n : ℤ) × (apply_binary {fl = whole} spaceship (str spaced_42) (int (pos 7)) ≡ ok (int n))
        × (apply_binary {fl = whole} spaceship (int (pos 7)) (str spaced_42)
            ≡ ok (int (pos 0 -ℤ n))))
apply_binary_turned_example =
    apply_binary_turned whole_flips (str spaced_42) (int (pos 7)) refl refl

-- `[-5 => true, false]`: the value without a key goes to 0, where PHP 8.3 and later put it at -4.
after_negative :
    build_array {fl = whole} (key_value (int (negsuc 4)) (bool true) ∷ plain (bool false) ∷ [])
    ≡ ok
        (arr (item (int_key (negsuc 4)) (bool true) (item (int_key (pos 0)) (bool false) no_items)))
unfolding build_array build_from insert_key stored to_array_key ◌+ℤ◌
after_negative = refl

-- `[PHP_INT_MAX => true, false]`: the next key wraps to the least integer, where PHP throws.
after_largest :
    build_array {fl = whole} (key_value (int i64_max) (bool true) ∷ plain (bool false) ∷ [])
    ≡ ok (arr (item (int_key i64_max) (bool true) (item (int_key i64_min) (bool false) no_items)))
unfolding build_array build_from insert_key stored to_array_key ◌+ℤ◌
after_largest = refl
