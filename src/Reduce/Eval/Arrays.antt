-- ===== src/Reduce/Eval/Arrays.antt =====
-- crates/analyzer/src/reduce/eval.rs: the writes and the reads of arrays, on values that are there. The
-- next free key of an array literal overflows as `i64` does: wrapped where the source wraps it, a panic
-- where it adds with the check of overflow on.
pub mod Keyed
use Prim.Native.String.{◌++◌ as str_append}
use phpunit_rust.Prelude.{
  ℕ, suc, ◌+◌, ◌^◌, Bool, true, false, not, ◌&&◌, List, [], ◌∷◌, Option, none, some, if◌then◌else◌,
  String, leb,
}
use phpunit_rust.Int.{ℤ, pos, negsuc, eq_ℤ, ◌+ℤ◌, pos_part, neg_part}
use phpunit_rust.Reduce.Floats.{Floats}
use phpunit_rust.Reduce.Value.{
  Bytes, ArrayKey, int_key, str_key, key_eq, Value, null, bool, int, float, str, arr, object,
  closure, Items, no_items, item, item_of, mark_aliased,
}
use phpunit_rust.Reduce.Value.Convert.{to_array_key, type_name, i64_max, i64_min}
use phpunit_rust.Reduce.Eval.{
  BailReason, unsupported_construct, type_error, Result, ok, bail, panic, ◌>>=◌, ◌>>◌,
}

unfoldable pub insert_key : {fl : Floats} → Items fl → ArrayKey → Value fl → Items fl
insert_key no_items key val = item key val no_items
insert_key (item k v xs) key val =
    if key_eq k key then item k val xs else item k v (insert_key xs key val)

unfoldable pub array_key_to_value : {fl : Floats} → ArrayKey → Value fl
array_key_to_value (int_key i) = int i
array_key_to_value (str_key s) = str s

-- What `eval_object_element` makes of its value.
unfoldable pub stored : {fl : Floats} → Value fl → Value fl
unfolding mark_aliased
stored (object c ps a) = mark_aliased (object c ps a)
stored v = v

abbrev pub or_type_error {ℓ} : {A : Type ℓ} → String → Option A → Result A
or_type_error msg (some a) = ok a
or_type_error msg none = bail (type_error msg)

-- An element of an array literal whose expressions have been evaluated.
pub data ArrayElement (fl : Floats) : Type 0 where
  key_value : Value fl → Value fl → ArrayElement fl
  plain : Value fl → ArrayElement fl
  variadic missing : ArrayElement fl

abbrev pub at_least : ℤ → ℤ → Bool
at_least n m = leb (pos_part m + neg_part n) (pos_part n + neg_part m)

abbrev pub wrapping_succ : ℤ → ℤ
wrapping_succ n = if eq_ℤ n i64_max then i64_min else n +ℤ pos 1

abbrev pub checked_succ : ℤ → Result ℤ
checked_succ n = if eq_ℤ n i64_max then panic else ok (n +ℤ pos 1)

abbrev pub next_after : ArrayKey → ℤ → ℤ
next_after (int_key n) next = if at_least n next then wrapping_succ n else next
next_after (str_key s) next = next

-- The loop of `build_array`: the items so far, the next free key.
unfoldable pub build_from :
    {fl : Floats} → Items fl → ℤ → List (ArrayElement fl) → Result (Items fl)
unfolding insert_key stored
build_from items next [] = ok items
build_from items next (key_value k v ∷ es) = do
  key ← or_type_error "array used as array key" (to_array_key k)
  build_from (insert_key items key (stored v)) (next_after key next) es
build_from items next (plain v ∷ es) = do
  after ← checked_succ next
  build_from (insert_key items (int_key next) (stored v)) after es
build_from items next (variadic ∷ es) = bail (unsupported_construct "array spread (...)")
build_from items next (missing ∷ es) = build_from items next es

unfoldable pub build_array : {fl : Floats} → List (ArrayElement fl) → Result (Value fl)
unfolding build_from
build_array es = do items ← build_from no_items (pos 0) es; ok (arr items)

-- What `array_access_lookup` answers for the value that it found.
abbrev pub read_element : {fl : Floats} → Bool → Option (Value fl) → Option (Value fl)
read_element coalesce none = none
read_element true (some null) = none
read_element coalesce (some v) = some (stored v)

unfoldable pub array_access_lookup :
    {fl : Floats} → Value fl → Value fl → Bool → Result (Option (Value fl))
unfolding stored
array_access_lookup (arr items) index coalesce = do
  key ← or_type_error "array/object used as a subscript key" (to_array_key index)
  ok (read_element coalesce (item_of key items))
array_access_lookup receiver index coalesce = bail (
    type_error
      (str_append "array subscript on a non-array (" (str_append (type_name receiver) ")")))

abbrev pub or_missing : {fl : Floats} → Option (Value fl) → Result (Value fl)
or_missing (some v) = ok v
or_missing none = bail (unsupported_construct "read of a missing array key (PHP warning)")

unfoldable pub eval_array_access : {fl : Floats} → Value fl → Value fl → Result (Value fl)
unfolding array_access_lookup
eval_array_access receiver index = do
  found ← array_access_lookup receiver index false
  or_missing found
