-- ===== src/Reduce/Eval/Builtins.antt =====
-- crates/analyzer/src/reduce/eval.rs: `call_pure_builtin`. The names that it knows are a data type. A
-- result that is not there means that the name is of no builtin for these arguments.
pub mod Keyed
pub mod Pure
use Prim.Native.String.{◌++◌ as str_append}
use phpunit_rust.Prelude.{
  ℕ, suc, ◌+◌, Bool, true, false, not, ◌&&◌, ◌||◌, List, [], ◌∷◌, Option, none, some, if◌then◌else◌,
  String, ◌==◌,
}
use phpunit_rust.Int.{ℤ, pos, pos_part, neg_part, checked}
use phpunit_rust.Reduce.Floats.{Floats}
use phpunit_rust.Reduce.Value.{
  Bytes, ArrayKey, int_key, str_key, key_eq, Value, null, bool, int, float, str, arr, object,
  closure, Items, no_items, item, item_of, count_items,
}
use phpunit_rust.Reduce.Value.Convert.{
  to_bool, to_int, to_float, to_php_string, to_array_key, type_name,
}
use phpunit_rust.Reduce.Value.Compare.{php_strict_eq}
use phpunit_rust.Reduce.Eval.{
  BailReason, unsupported_construct, type_error, Result, ok, bail, panic, ◌>>=◌, ◌>>◌,
}
use phpunit_rust.Reduce.Eval.Guards.{bail_if_identity_in_strict_search}
use phpunit_rust.Reduce.Eval.Arith.{int_or_float}
use phpunit_rust.Reduce.Eval.Kinds.{
  is_null_value, is_str, is_int, is_float, is_bool, is_array_value,
}
use phpunit_rust.Reduce.Eval.Arrays.{insert_key, array_key_to_value, or_type_error}

pub data Builtin : Type 0 where
  strlen count abs intval is_int_fn is_string_fn is_array_fn is_bool_fn is_null_fn is_float_fn
        is_scalar gettype :
      Builtin
  boolval floatval strval reset end in_array array_search array_key_exists array_keys array_values
        array_merge :
      Builtin

unfoldable pub is_cursor : String → Bool
is_cursor s = s == "key" || s == "next" || s == "current" || s == "prev" || s == "each"

-- The names that are matched, with their aliases.
abbrev inspection_of : String → Option Builtin
inspection_of s =
    if s == "strlen"
    then some strlen
    else if s == "count" || s == "sizeof"
    then some count
    else if s == "abs"
    then some abs
    else if s == "intval"
    then some intval
    else if s == "is_int" || s == "is_integer" || s == "is_long"
    then some is_int_fn
    else if s == "is_string"
    then some is_string_fn
    else if s == "is_array"
    then some is_array_fn
    else if s == "is_bool"
    then some is_bool_fn
    else if s == "is_null"
    then some is_null_fn
    else if s == "is_float" || s == "is_double"
    then some is_float_fn
    else if s == "is_scalar"
    then some is_scalar
    else if s == "gettype"
    then some gettype
    else if s == "boolval"
    then some boolval
    else if s == "floatval" || s == "doubleval"
    then some floatval
    else if s == "strval"
    then some strval
    else none

unfoldable pub builtin_of : String → Option Builtin
builtin_of s =
    if s == "reset"
    then some reset
    else if s == "end"
    then some end
    else if s == "in_array"
    then some in_array
    else if s == "array_search"
    then some array_search
    else if s == "array_key_exists"
    then some array_key_exists
    else if s == "array_keys"
    then some array_keys
    else if s == "array_values"
    then some array_values
    else if s == "array_merge"
    then some array_merge
    else inspection_of s

-- The letters of the names of types.
unfoldable pub php_gettype : {fl : Floats} → Value fl → Bytes
php_gettype null = 78 ∷ 85 ∷ 76 ∷ 76 ∷ []
php_gettype (bool b) = 98 ∷ 111 ∷ 111 ∷ 108 ∷ 101 ∷ 97 ∷ 110 ∷ []
php_gettype (int n) = 105 ∷ 110 ∷ 116 ∷ 101 ∷ 103 ∷ 101 ∷ 114 ∷ []
php_gettype (float f) = 100 ∷ 111 ∷ 117 ∷ 98 ∷ 108 ∷ 101 ∷ []
php_gettype (str s) = 115 ∷ 116 ∷ 114 ∷ 105 ∷ 110 ∷ 103 ∷ []
php_gettype (arr xs) = 97 ∷ 114 ∷ 114 ∷ 97 ∷ 121 ∷ []
php_gettype (object c ps a) = 111 ∷ 98 ∷ 106 ∷ 101 ∷ 99 ∷ 116 ∷ []
php_gettype (closure s ps) = 111 ∷ 98 ∷ 106 ∷ 101 ∷ 99 ∷ 116 ∷ []

abbrev pub bytes_len : Bytes → ℕ
bytes_len [] = 0
bytes_len (b ∷ bs) = suc (bytes_len bs)

-- `matches!` of the four kinds of scalar that PHP's `is_scalar` names.
abbrev pub is_php_scalar : {fl : Floats} → Value fl → Bool
is_php_scalar (int n) = true
is_php_scalar (float f) = true
is_php_scalar (str s) = true
is_php_scalar (bool b) = true
is_php_scalar _ = false

abbrev pub or_false_value : {fl : Floats} → Option (Value fl) → Value fl
or_false_value (some v) = v
or_false_value none = bool false

abbrev pub first_value : {fl : Floats} → Items fl → Option (Value fl)
first_value no_items = none
first_value (item k v xs) = some v

abbrev pub last_value : {fl : Floats} → Items fl → Option (Value fl)
last_value no_items = none
last_value (item k v no_items) = some v
last_value (item k v (item l w xs)) = last_value (item l w xs)

-- Whether a value is identical to the needle, and the key of the first that is.
abbrev pub any_identical : {fl : Floats} → Value fl → Items fl → Bool
any_identical needle no_items = false
any_identical needle (item k v xs) = php_strict_eq v needle || any_identical needle xs

abbrev pub key_of_identical : {fl : Floats} → Value fl → Items fl → Option ArrayKey
key_of_identical needle no_items = none
key_of_identical needle (item k v xs) =
    if php_strict_eq v needle then some k else key_of_identical needle xs

abbrev pub has_key : {fl : Floats} → ArrayKey → Items fl → Bool
has_key key no_items = false
has_key key (item k v xs) = key_eq k key || has_key key xs

-- The items counted from `i`.
unfoldable pub keys_from : {fl : Floats} → ℕ → Items fl → Items fl
keys_from i no_items = no_items
keys_from i (item k v xs) = item (int_key (pos i)) (array_key_to_value k) (keys_from (suc i) xs)

unfoldable pub values_from : {fl : Floats} → ℕ → Items fl → Items fl
values_from i no_items = no_items
values_from i (item k v xs) = item (int_key (pos i)) v (values_from (suc i) xs)

-- What `array_merge` has gathered, with the next whole number, after one array.
unfoldable pub merge_items : {fl : Floats} → Items fl → ℕ → Items fl → Items fl × ℕ
unfolding insert_key
merge_items out next no_items = (out, next)
merge_items out next (item (int_key i) v xs) =
    merge_items (insert_key out (int_key (pos next)) v) (suc next) xs
merge_items out next (item (str_key s) v xs) = merge_items (insert_key out (str_key s) v) next xs

unfoldable pub merge_arrays : {fl : Floats} → Items fl → ℕ → List (Value fl) → Result (Items fl)
unfolding merge_items
merge_arrays out next [] = ok out
merge_arrays out next (arr xs ∷ ms) =
    let (grown, after) = merge_items out next xs in merge_arrays grown after ms
merge_arrays out next (m ∷ ms) = bail (type_error "array_merge of a non-array")

abbrev pub string_or_bail : {fl : Floats} → Value fl → Option Bytes → Result (Value fl)
string_or_bail v (some s) = ok (str s)
string_or_bail v none =
    bail (type_error (str_append "strval of a " (str_append (type_name v) " (PHP notice/fatal)")))

abbrev pub key_or_false : {fl : Floats} → Option ArrayKey → Value fl
key_or_false (some k) = array_key_to_value k
key_or_false none = bool false

-- A value that is there.
abbrev pub answer : {fl : Floats} → Value fl → Result (Option (Value fl))
answer v = ok (some v)

unfoldable pub call_builtin : {fl : Floats} → Builtin → List (Value fl) → Result (Option (Value fl))
call_builtin strlen (str s ∷ []) = answer (int (pos (bytes_len s)))
call_builtin count (arr xs ∷ []) = answer (int (pos (count_items xs)))
call_builtin {fl} abs (int i ∷ []) =
    answer (int_or_float (checked (pos (pos_part i + neg_part i))) (fl.abs (fl.of_int i)))
call_builtin {fl} abs (float f ∷ []) = answer (float (fl.abs f))
call_builtin intval (v ∷ []) = answer (int (to_int v))
call_builtin is_int_fn (v ∷ []) = answer (bool (is_int v))
call_builtin is_string_fn (v ∷ []) = answer (bool (is_str v))
call_builtin is_array_fn (v ∷ []) = answer (bool (is_array_value v))
call_builtin is_bool_fn (v ∷ []) = answer (bool (is_bool v))
call_builtin is_null_fn (v ∷ []) = answer (bool (is_null_value v))
call_builtin is_float_fn (v ∷ []) = answer (bool (is_float v))
call_builtin is_scalar (v ∷ []) = answer (bool (is_php_scalar v))
call_builtin gettype (v ∷ []) = answer (str (php_gettype v))
call_builtin boolval (v ∷ []) = answer (bool (to_bool v))
call_builtin floatval (v ∷ []) = answer (float (to_float v))
call_builtin strval (v ∷ []) = string_or_bail v (to_php_string v) >>= answer
call_builtin reset (arr xs ∷ []) = answer (or_false_value (first_value xs))
call_builtin end (arr xs ∷ []) = answer (or_false_value (last_value xs))
call_builtin in_array (needle ∷ arr hay ∷ bool true ∷ []) = do
  bail_if_identity_in_strict_search needle hay
  answer (bool (any_identical needle hay))
call_builtin in_array args =
    bail (unsupported_construct "in_array without strict=true (loose == not modelled)")
call_builtin array_search (needle ∷ arr hay ∷ bool true ∷ []) = do
  bail_if_identity_in_strict_search needle hay
  answer (key_or_false (key_of_identical needle hay))
call_builtin array_search args =
    bail (unsupported_construct "array_search without strict=true (loose == not modelled)")
call_builtin array_key_exists (k ∷ arr xs ∷ []) = do
  key ← or_type_error "array/object as array key" (to_array_key k)
  answer (bool (has_key key xs))
call_builtin array_keys (arr xs ∷ []) = answer (arr (keys_from 0 xs))
call_builtin array_values (arr xs ∷ []) = answer (arr (values_from 0 xs))
call_builtin array_merge (m ∷ ms) = do out ← merge_arrays no_items 0 (m ∷ ms); answer (arr out)
call_builtin _ args = ok none

unfoldable pub call_pure_builtin :
    {fl : Floats} → String → List (Value fl) → Result (Option (Value fl))
unfolding call_builtin
call_pure_builtin name args =
    let known = builtin_of name in
    if is_cursor name
    then bail (
        unsupported_construct (
          str_append "cursor builtin "
            (str_append name "() — Arr has no observable internal pointer")))
    else elim known [ none ↦ ok none | some b ↦ call_builtin b args ]
