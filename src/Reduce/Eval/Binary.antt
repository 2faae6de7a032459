-- ===== src/Reduce/Eval/Binary.antt =====
-- crates/analyzer/src/reduce/eval.rs: what `eval_binary` does once it has both operands, and `++` and
-- `--` on a variable. The variables in scope are a map from names to values.
pub mod Panics
pub mod Order
use Prim.Native.String.{◌++◌ as str_append}
use phpunit_rust.Prelude.{
  ℕ, zero, suc, ◌+◌, Bool, true, false, not, ◌&&◌, ◌||◌, List, [], ◌∷◌, Option, none, some,
  if◌then◌else◌, String, Ordering,
}
use phpunit_rust.Int.{ℤ, pos, negsuc}
use phpunit_rust.Reduce.Floats.{Floats}
use phpunit_rust.Reduce.Value.{
  Bytes, bytes_eq, Value, null, bool, int, float, str, arr, object, closure, Props, no_props, prop,
  prop_of,
}
use phpunit_rust.Reduce.Value.Convert.{type_name}
use phpunit_rust.Reduce.Value.Compare.{php_loose_eq, php_strict_eq, php_compare}
use phpunit_rust.Reduce.Eval.{
  BailReason, unsupported_construct, unbound_variable, Result, ok, bail, panic, ◌>>=◌, ◌>>◌,
}
use phpunit_rust.Reduce.Eval.Guards.{bail_if_object_operand, bail_if_object_mixed_loose}
use phpunit_rust.Reduce.Eval.Arith.{
  checked_add, checked_sub, checked_mul, int_or_float, php_add, php_arith, php_div, php_mod,
  php_pow, php_concat,
}

-- The operators that evaluate both operands first. `unmodelled` is any that the source does not name.
pub data BinaryOperator : Type 0 where
  addition subtraction multiplication division modulo exponentiation string_concat : BinaryOperator
  equal not_equal angled_not_equal identical not_identical : BinaryOperator
  less_than greater_than less_than_or_equal greater_than_or_equal spaceship : BinaryOperator
  unmodelled : String → BinaryOperator

-- `== Ordering::Less`, `== Ordering::Greater`.
abbrev pub is_less : Ordering → Bool
is_less Ordering.lt = true
is_less _ = false

abbrev pub is_greater : Ordering → Bool
is_greater Ordering.gt = true
is_greater _ = false

abbrev pub spaceship_int : Ordering → ℤ
spaceship_int Ordering.lt = negsuc 0
spaceship_int Ordering.eq = pos 0
spaceship_int Ordering.gt = pos 1

-- A comparison behind its guard.
abbrev pub ordered : {fl : Floats} → (Ordering → Value fl) → Value fl → Value fl → Result (Value fl)
ordered g l r = bail_if_object_operand l r >>= λ _. ok (g (php_compare l r))

unfoldable pub apply_binary :
    {fl : Floats} → BinaryOperator → Value fl → Value fl → Result (Value fl)
apply_binary addition l r = php_add l r
apply_binary {fl} subtraction l r = php_arith checked_sub fl.sub l r
apply_binary {fl} multiplication l r = php_arith checked_mul fl.mul l r
apply_binary division l r = php_div l r
apply_binary modulo l r = php_mod l r
apply_binary exponentiation l r = php_pow l r
apply_binary string_concat l r = php_concat l r
apply_binary equal l r = do bail_if_object_mixed_loose l r; ok (bool (php_loose_eq l r))
apply_binary not_equal l r = do bail_if_object_mixed_loose l r; ok (bool (not (php_loose_eq l r)))
apply_binary angled_not_equal l r = do
  bail_if_object_mixed_loose l r
  ok (bool (not (php_loose_eq l r)))
apply_binary identical l r = do bail_if_object_operand l r; ok (bool (php_strict_eq l r))
apply_binary not_identical l r = do bail_if_object_operand l r; ok (bool (not (php_strict_eq l r)))
apply_binary less_than l r = ordered (λ o. bool (is_less o)) l r
apply_binary greater_than l r = ordered (λ o. bool (is_greater o)) l r
apply_binary less_than_or_equal l r = ordered (λ o. bool (not (is_greater o))) l r
apply_binary greater_than_or_equal l r = ordered (λ o. bool (not (is_less o))) l r
apply_binary spaceship l r = ordered (λ o. int (spaceship_int o)) l r
apply_binary (unmodelled s) l r = bail (unsupported_construct s)

-- `vars.insert(key, new)`.
abbrev pub insert_var : {fl : Floats} → Bytes → Value fl → Props fl → Props fl
insert_var k v no_props = prop k v no_props
insert_var k v (prop j w xs) = if bytes_eq j k then prop j v xs else prop j w (insert_var k v xs)

unfoldable pub step_value : {fl : Floats} → Bool → Value fl → Result (Value fl)
step_value {fl} true (int n) =
    ok (int_or_float (checked_add n (pos 1)) (fl.add (fl.of_int n) (fl.of_int (pos 1))))
step_value {fl} false (int n) =
    ok (int_or_float (checked_sub n (pos 1)) (fl.sub (fl.of_int n) (fl.of_int (pos 1))))
step_value {fl} true (float f) = ok (float (fl.add f (fl.of_int (pos 1))))
step_value {fl} false (float f) = ok (float (fl.sub f (fl.of_int (pos 1))))
step_value inc v = bail (
    unsupported_construct
      (str_append "++/-- on a " (str_append (type_name v) " (only numeric counters modelled)")))

abbrev or_unbound : {fl : Floats} → String → Option (Value fl) → Result (Value fl)
or_unbound name (some v) = ok v
or_unbound name none = bail (unbound_variable name)

-- `inc` selects `++`; `prefix` whether the new value is the result, or the old one.
-- `lossy` is `String::from_utf8_lossy`.
unfoldable pub incdec :
    {fl : Floats} → (Bytes → String) → Bytes → Bool → Bool → Props fl → Result (Value fl × Props fl)
incdec lossy key inc prefix vars = do
  cur ← or_unbound (lossy key) (prop_of key vars)
  new ← step_value inc cur
  ok (if prefix then new else cur, insert_var key new vars)
