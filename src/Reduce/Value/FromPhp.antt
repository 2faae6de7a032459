-- ===== src/Reduce/Value/FromPhp.antt =====
-- crates/analyzer/src/concrete/value.rs: the concrete evaluator's values, and their conversion in
-- crates/analyzer/src/reduce/value.rs. A sorted map is the list of its entries.
use phpunit_rust.Prelude.{Bool, ◌≡◌, refl, String}
use phpunit_rust.Int.{ℤ}
use phpunit_rust.Reduce.Floats.{Floats}
use phpunit_rust.Reduce.Value.{
  Bytes, ArrayKey, int_key, str_key, Value, null, bool, int, float, str, arr, Items, no_items, item,
}
use phpunit_rust.Reduce.Value.Convert.{type_name}

-- `concrete::ArrayKey`.
pub data PhpKey : Type 0 where
  php_int_key : ℤ → PhpKey
  php_string_key : Bytes → PhpKey

mutual
  pub data PhpValue (fl : Floats) : Type 0 where
    php_null : PhpValue fl
    php_bool : Bool → PhpValue fl
    php_int : ℤ → PhpValue fl
    php_float : fl.F → PhpValue fl
    php_string : Bytes → PhpValue fl
    php_array : PhpItems fl → PhpValue fl

  pub data PhpItems (fl : Floats) : Type 0 where
    no_php_items : PhpItems fl
    php_item : PhpKey → PhpValue fl → PhpItems fl → PhpItems fl

unfoldable php_type_name : {fl : Floats} → PhpValue fl → String
php_type_name php_null = "null"
php_type_name (php_bool b) = "bool"
php_type_name (php_int i) = "int"
php_type_name (php_float f) = "float"
php_type_name (php_string s) = "string"
php_type_name (php_array m) = "array"

abbrev from_php_key : PhpKey → ArrayKey
from_php_key (php_int_key i) = int_key i
from_php_key (php_string_key s) = str_key s

unfoldable mutual
  from_php : {fl : Floats} → PhpValue fl → Value fl
  from_php php_null = null
  from_php (php_bool b) = bool b
  from_php (php_int i) = int i
  from_php (php_float f) = float f
  from_php (php_string s) = str s
  from_php (php_array m) = arr (from_php_items m)

  from_php_items : {fl : Floats} → PhpItems fl → Items fl
  from_php_items no_php_items = no_items
  from_php_items (php_item k v m) = item (from_php_key k) (from_php v) (from_php_items m)

-- The conversion keeps the type's name.
type_name-from_php : {fl : Floats} (v : PhpValue fl) → type_name (from_php v) ≡ php_type_name v
unfolding from_php type_name php_type_name
type_name-from_php php_null = refl
type_name-from_php (php_bool b) = refl
type_name-from_php (php_int i) = refl
type_name-from_php (php_float f) = refl
type_name-from_php (php_string s) = refl
type_name-from_php (php_array m) = refl
