-- ===== src/Reduce/Eval/Builtins/Keyed.antt =====
-- crates/analyzer/src/reduce/eval.rs: the keys of the arrays that the builtins answer with.
use phpunit_rust.Prelude.{
  ℕ, suc, ◌+◌, ◌<◌, arith, true, ◌≡◌, refl, subst, List, [], ◌∷◌, Option, none, some, Bool-cases,
  Option-cases, inl, inr, String,
}
use phpunit_rust.Int.{ℤ, pos, checked, pos_part, neg_part}
use phpunit_rust.Reduce.Floats.{Floats}
use phpunit_rust.Reduce.Value.{
  Bytes, ArrayKey, int_key, str_key, Value, bool, int, float, str, arr, Items, no_items, item,
  item_of,
}
use phpunit_rust.Reduce.Value.Convert.{to_array_key, to_php_string}
use phpunit_rust.Reduce.Value.Compare.Laws.{WellKeyed, WellKeyedItems}
use phpunit_rust.Reduce.Eval.{ok, bind_ok, ok_eq}
use phpunit_rust.Reduce.Eval.Guards.{bail_if_identity_in_strict_search}
use phpunit_rust.Reduce.Eval.Arith.{int_or_float}
use phpunit_rust.Reduce.Eval.Arrays.{insert_key, array_key_to_value, or_type_error}
use phpunit_rust.Reduce.Eval.Arrays.Keyed.{insert_key-WellKeyed}
use phpunit_rust.Reduce.Eval.Builtins.{
  Builtin, strlen, count, abs, intval, is_int_fn, is_string_fn, is_array_fn, is_bool_fn, is_null_fn,
  is_float_fn, is_scalar, gettype, boolval, floatval, strval, reset, end, in_array, array_search,
  array_key_exists, array_keys, array_values, array_merge, key_of_identical, keys_from, values_from,
  merge_items, merge_arrays, first_value, last_value, or_false_value, key_or_false, string_or_bail,
  call_builtin, builtin_of, is_cursor, call_pure_builtin,
}

-- The keys counted from `i` lie above those before it.
values_from-above :
    {fl : Floats} (xs : Items fl) (j i : ℕ)
    → j < i
    → item_of (int_key (pos j)) (values_from i xs) ≡ none
unfolding values_from
values_from-above no_items j i h = refl
values_from-above (item k v xs) j i h = ground (arith, values_from-above xs j (suc i))

keys_from-above :
    {fl : Floats} (xs : Items fl) (j i : ℕ)
    → j < i
    → item_of (int_key (pos j)) (keys_from i xs) ≡ none
unfolding keys_from
keys_from-above no_items j i h = refl
keys_from-above (item k v xs) j i h = ground (arith, keys_from-above xs j (suc i))

key_value-WellKeyed : (fl : Floats) (k : ArrayKey) → WellKeyed {fl = fl} (array_key_to_value k)
unfolding array_key_to_value
key_value-WellKeyed fl (int_key i) = tt
key_value-WellKeyed fl (str_key s) = tt

values_from-WellKeyed :
    {fl : Floats} (xs : Items fl) (i : ℕ) → WellKeyedItems xs → WellKeyedItems (values_from i xs)
unfolding values_from
values_from-WellKeyed no_items i h = tt
values_from-WellKeyed (item k v xs) i (own, keyed, rest) =
    (values_from-above xs i (suc i) (omega arith), keyed, values_from-WellKeyed xs (suc i) rest)

keys_from-WellKeyed : {fl : Floats} (xs : Items fl) (i : ℕ) → WellKeyedItems (keys_from i xs)
unfolding keys_from
keys_from-WellKeyed no_items i = tt
keys_from-WellKeyed {fl} (item k v xs) i = (
  keys_from-above xs i (suc i) (omega arith),
  key_value-WellKeyed fl k,
  keys_from-WellKeyed xs (suc i),
)

merge_items-WellKeyed :
    {fl : Floats} (xs out : Items fl) (next : ℕ)
    → WellKeyedItems xs
    → WellKeyedItems out
    → WellKeyedItems (merge_items out next xs).0
unfolding merge_items
merge_items-WellKeyed no_items out next h o = o
merge_items-WellKeyed (item (int_key i) v xs) out next (own, keyed, rest) o =
    merge_items-WellKeyed xs (insert_key out (int_key (pos next)) v) (suc next) rest
      (insert_key-WellKeyed out (int_key (pos next)) v o keyed)
merge_items-WellKeyed (item (str_key s) v xs) out next (own, keyed, rest) o =
    merge_items-WellKeyed xs (insert_key out (str_key s) v) next rest
      (insert_key-WellKeyed out (str_key s) v o keyed)

-- No key of the arguments occurs twice.
abbrev pub WellKeyedArguments : {fl : Floats} → List (Value fl) → Type 0
WellKeyedArguments [] = Unit {0}
WellKeyedArguments (v ∷ vs) = WellKeyed v × WellKeyedArguments vs

merge_arrays-WellKeyed :
    {fl : Floats} (ms : List (Value fl)) (out : Items fl) (next : ℕ) (r : Items fl)
    → WellKeyedArguments ms
    → WellKeyedItems out
    → merge_arrays out next ms ≡ ok r
    → WellKeyedItems r
unfolding merge_arrays
merge_arrays-WellKeyed [] out next r h o e = subst WellKeyedItems (ok_eq e) o
merge_arrays-WellKeyed (arr xs ∷ ms) out next r (own, rest) o e =
    merge_arrays-WellKeyed ms (merge_items out next xs).0 (merge_items out next xs).1 r rest
      (merge_items-WellKeyed xs out next own o) e
merge_arrays-WellKeyed (m ∷ ms) out next r h o e = cc

kept : {fl : Floats} (w v : Value fl) → WellKeyed w → ok (some w) ≡ ok (some v) → WellKeyed v
kept w v h e = let same : w ≡ v = (let inner = ok_eq e in cc) in subst WellKeyed same h

first-WellKeyed :
    {fl : Floats} (xs : Items fl) → WellKeyedItems xs → WellKeyed (or_false_value (first_value xs))
first-WellKeyed no_items h = tt
first-WellKeyed (item k v xs) h = h.1

last-WellKeyed :
    {fl : Floats} (xs : Items fl) → WellKeyedItems xs → WellKeyed (or_false_value (last_value xs))
last-WellKeyed no_items h = tt
last-WellKeyed (item k v no_items) h = h.1
last-WellKeyed (item k v (item l w xs)) h = last-WellKeyed (item l w xs) h.2

found-WellKeyed : (fl : Floats) (o : Option ArrayKey) → WellKeyed {fl = fl} (key_or_false o)
unfolding array_key_to_value
found-WellKeyed fl none = tt
found-WellKeyed fl (some k) = key_value-WellKeyed fl k

number-WellKeyed : (fl : Floats) (o : Option ℤ) (f : fl.F) → WellKeyed {fl = fl} (int_or_float o f)
number-WellKeyed fl none f = tt
number-WellKeyed fl (some n) f = tt

text-WellKeyed :
    {fl : Floats} (v w : Value fl) (o : Option Bytes) → string_or_bail v o ≡ ok w → WellKeyed w
text-WellKeyed v w none e = cc
text-WellKeyed v w (some s) e = subst WellKeyed (ok_eq e) tt

call_builtin-WellKeyed :
    {fl : Floats} (b : Builtin) (args : List (Value fl)) (v : Value fl)
    → WellKeyedArguments args
    → call_builtin b args ≡ ok (some v)
    → WellKeyed v
unfolding call_builtin
call_builtin-WellKeyed strlen (str s ∷ []) v h e = kept _ v tt e
call_builtin-WellKeyed count (arr xs ∷ []) v h e = kept _ v tt e
call_builtin-WellKeyed {fl} abs (int i ∷ []) v h e =
    kept _ v (number-WellKeyed fl (checked (pos (pos_part i + neg_part i))) (fl.abs (fl.of_int i)))
      e
call_builtin-WellKeyed abs (float f ∷ []) v h e = kept _ v tt e
call_builtin-WellKeyed intval (w ∷ []) v h e = kept _ v tt e
call_builtin-WellKeyed is_int_fn (w ∷ []) v h e = kept _ v tt e
call_builtin-WellKeyed is_string_fn (w ∷ []) v h e = kept _ v tt e
call_builtin-WellKeyed is_array_fn (w ∷ []) v h e = kept _ v tt e
call_builtin-WellKeyed is_bool_fn (w ∷ []) v h e = kept _ v tt e
call_builtin-WellKeyed is_null_fn (w ∷ []) v h e = kept _ v tt e
call_builtin-WellKeyed is_float_fn (w ∷ []) v h e = kept _ v tt e
call_builtin-WellKeyed is_scalar (w ∷ []) v h e = kept _ v tt e
call_builtin-WellKeyed gettype (w ∷ []) v h e = kept _ v tt e
call_builtin-WellKeyed boolval (w ∷ []) v h e = kept _ v tt e
call_builtin-WellKeyed floatval (w ∷ []) v h e = kept _ v tt e
call_builtin-WellKeyed strval (w ∷ []) v h e =
    let (t, made, same) = bind_ok (string_or_bail w (to_php_string w)) _ e in
    kept t v (text-WellKeyed w t (to_php_string w) made) same
call_builtin-WellKeyed reset (arr xs ∷ []) v h e = kept _ v (first-WellKeyed xs h.0) e
call_builtin-WellKeyed end (arr xs ∷ []) v h e = kept _ v (last-WellKeyed xs h.0) e
call_builtin-WellKeyed in_array (needle ∷ arr hay ∷ bool true ∷ []) v h e =
    let (u, _, made) = bind_ok (bail_if_identity_in_strict_search needle hay) _ e in
    kept _ v tt made
call_builtin-WellKeyed in_array args v h e = cc
call_builtin-WellKeyed array_search (needle ∷ arr hay ∷ bool true ∷ []) v h e =
    let (u, _, made) = bind_ok (bail_if_identity_in_strict_search needle hay) _ e in
    kept _ v (found-WellKeyed _ (key_of_identical needle hay)) made
call_builtin-WellKeyed array_search args v h e = cc
call_builtin-WellKeyed array_key_exists (k ∷ arr xs ∷ []) v h e =
    let (key, _, made) = bind_ok (or_type_error "array/object as array key" (to_array_key k)) _ e in
    kept _ v tt made
call_builtin-WellKeyed array_keys (arr xs ∷ []) v h e = kept _ v (keys_from-WellKeyed xs 0) e
call_builtin-WellKeyed array_values (arr xs ∷ []) v h e =
    kept _ v (values_from-WellKeyed xs 0 h.0) e
call_builtin-WellKeyed array_merge (m ∷ ms) v h e =
    let (out, merged, made) = bind_ok (merge_arrays no_items 0 (m ∷ ms)) _ e in
    kept (arr out) v (merge_arrays-WellKeyed (m ∷ ms) no_items 0 out h tt merged) made
call_builtin-WellKeyed _ args v h e = cc

-- No key of an array that a builtin answers with occurs twice, where none does in its arguments.
pub call_pure_builtin-WellKeyed :
    {fl : Floats} (name : String) (args : List (Value fl)) (v : Value fl)
    → WellKeyedArguments args
    → call_pure_builtin name args ≡ ok (some v)
    → WellKeyed v
unfolding call_pure_builtin
call_pure_builtin-WellKeyed name args v h e = elim (Bool-cases (is_cursor name)) [
  | inl cursor ↦ let stops = rw (call_pure_builtin, cursor) at e in cc
  | inr plain ↦ elim (Option-cases (builtin_of name)) [
    | inl none_known ↦ let nothing = rw (call_pure_builtin, plain, none_known) at e in cc
    | inr (b, known) ↦ call_builtin-WellKeyed b args v h (rw (call_pure_builtin, plain, known) at e)
  ]
]
