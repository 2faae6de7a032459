-- ===== src/Reduce/Value/Convert.antt =====
-- crates/analyzer/src/reduce/value.rs: PHP's coercions of a value.
pub mod Keys
use phpunit_rust.Prelude.{
  ℕ, ◌≤◌, Bool, true, false, not, ◌&&◌, ◌||◌, List, [], ◌∷◌, Option, none, some, if◌then◌else◌,
  Ordering, ◌-◌, ◌^◌, String, nat_eq,
}
use phpunit_rust.Int.{ℤ, pos, negsuc, eq_ℤ}
use phpunit_rust.Reduce.Floats.{Floats}
use phpunit_rust.Reduce.Value.{
  Bytes, bytes_eq, ArrayKey, int_key, str_key, Value, null, bool, int, float, str, arr, object,
  closure, Items, no_items, item, count_items,
}
use phpunit_rust.Reduce.Value.Decimal.{php_float_to_string}
use phpunit_rust.Reduce.Value.Numeric.{
  NumericString, int_num, float_num, str_leading_numeric, is_numeric_string, canonical_int_string,
  print_i64,
}

abbrev pub int_of_bool : Bool → ℤ
int_of_bool true = pos 1
int_of_bool false = pos 0

abbrev pub i64_max : ℤ
i64_max = pos (2 ^ 63 - 1)

abbrev pub i64_min : ℤ
i64_min = negsuc (2 ^ 63 - 1)

abbrev pub not_below : Option Ordering → Bool
not_below (some Ordering.gt) = true
not_below (some Ordering.eq) = true
not_below _ = false

abbrev pub not_above : Option Ordering → Bool
not_above (some Ordering.lt) = true
not_above (some Ordering.eq) = true
not_above _ = false

-- Truncation, saturated at the ends of `i64`.
unfoldable pub php_float_to_int : (fl : Floats) → fl.F → ℤ
php_float_to_int fl f =
    let t = fl.trunc f in
    if not (fl.is_finite f)
    then pos 0
    else if not_below (fl.partial_cmp t (fl.of_int i64_max))
    then i64_max
    else if not_above (fl.partial_cmp t (fl.of_int i64_min))
    then i64_min
    else fl.cast t

abbrev pub num_to_int : {fl : Floats} → NumericString fl → ℤ
num_to_int (int_num i) = i
num_to_int {fl} (float_num f) = php_float_to_int fl f

abbrev pub num_to_float : {fl : Floats} → NumericString fl → fl.F
num_to_float {fl} (int_num i) = fl.of_int i
num_to_float (float_num f) = f

abbrev pub int_or_zero : {fl : Floats} → Option (NumericString fl) → ℤ
int_or_zero none = pos 0
int_or_zero (some n) = num_to_int n

abbrev pub float_or_zero : {fl : Floats} → Option (NumericString fl) → fl.F
float_or_zero {fl} none = fl.of_int (pos 0)
float_or_zero (some n) = num_to_float n

abbrev pub is_empty_array : {fl : Floats} → Items fl → Bool
is_empty_array no_items = true
is_empty_array (item k v xs) = false

unfoldable pub type_name : {fl : Floats} → Value fl → String
type_name null = "null"
type_name (bool b) = "bool"
type_name (int i) = "int"
type_name (float f) = "float"
type_name (str s) = "string"
type_name (arr xs) = "array"
type_name (object c ps a) = "object"
type_name (closure s ps) = "object"

unfoldable pub to_bool : {fl : Floats} → Value fl → Bool
to_bool null = false
to_bool (bool b) = b
to_bool (int i) = not (eq_ℤ i (pos 0))
to_bool {fl} (float f) = not (fl.eq f (fl.of_int (pos 0)))
to_bool (str s) = not (bytes_eq s [] || bytes_eq s (48 ∷ []))
to_bool (arr xs) = not (is_empty_array xs)
to_bool (object c ps a) = true
to_bool (closure s ps) = true

unfoldable pub to_int : {fl : Floats} → Value fl → ℤ
to_int null = pos 0
to_int (bool b) = int_of_bool b
to_int (int i) = i
to_int {fl} (float f) = php_float_to_int fl f
to_int {fl} (str s) = int_or_zero (str_leading_numeric fl s)
to_int (arr xs) = int_of_bool (not (is_empty_array xs))
to_int (object c ps a) = pos 1
to_int (closure s ps) = pos 1

unfoldable pub to_float : {fl : Floats} → Value fl → fl.F
to_float {fl} null = fl.of_int (pos 0)
to_float {fl} (bool b) = fl.of_int (int_of_bool b)
to_float {fl} (int i) = fl.of_int i
to_float (float f) = f
to_float {fl} (str s) = float_or_zero (str_leading_numeric fl s)
to_float {fl} (arr xs) = fl.of_int (int_of_bool (not (is_empty_array xs)))
to_float {fl} (object c ps a) = fl.of_int (pos 1)
to_float {fl} (closure s ps) = fl.of_int (pos 1)

unfoldable pub to_php_string : {fl : Floats} → Value fl → Option Bytes
to_php_string null = some []
to_php_string (bool true) = some (49 ∷ [])
to_php_string (bool false) = some []
to_php_string (int i) = some (print_i64 i)
to_php_string {fl} (float f) = some (php_float_to_string fl f)
to_php_string (str s) = some s
to_php_string (arr xs) = none
to_php_string (object c ps a) = none
to_php_string (closure s ps) = none

abbrev pub key_of_string : Bytes → Option ℤ → ArrayKey
key_of_string s (some i) = int_key i
key_of_string s none = str_key s

unfoldable pub to_array_key : {fl : Floats} → Value fl → Option ArrayKey
to_array_key null = some (str_key [])
to_array_key (bool b) = some (int_key (int_of_bool b))
to_array_key (int i) = some (int_key i)
to_array_key {fl} (float f) = some (int_key (php_float_to_int fl f))
to_array_key (str s) = some (key_of_string s (canonical_int_string s))
to_array_key (arr xs) = none
to_array_key (object c ps a) = none
to_array_key (closure s ps) = none

unfoldable pub is_numeric : {fl : Floats} → Value fl → Bool
is_numeric (int i) = true
is_numeric (float f) = true
is_numeric {fl} (str s) = is_numeric_string fl s
is_numeric _ = false
