-- ===== src/Reduce/Eval/Guards/Reference.antt =====
-- crates/analyzer/src/reduce/eval.rs: the comparisons that its guards stand for.
use phpunit_rust.Prelude.{Bool, true, false, ◌&&◌, Option, none, some}
use phpunit_rust.Int.{eq_ℤ}
use phpunit_rust.Reduce.Floats.{Floats}
use phpunit_rust.Reduce.Value.{
  Bytes, bytes_eq, bool_eq, key_eq, Value, null, bool, int, float, str, arr, object, closure, Items,
  no_items, item, Props, no_props, prop, item_of, prop_of,
}
use phpunit_rust.Reduce.Value.Compare.{or_default}
use phpunit_rust.Reduce.Value.Numeric.{NumericString, int_num, float_num, full_numeric}
use phpunit_rust.Reduce.Value.Convert.{to_bool, to_php_string}
use phpunit_rust.Reduce.Eval.Guards.{same_shape}

-- What decides a pair that the reducer has no model of: objects against other values, and closures.
abbrev pub Oracle : Floats → Type 0
Oracle fl = Value fl → Value fl → Bool

-- Two numbers, the whole ones exactly.
abbrev pub numbers_equal : {fl : Floats} → NumericString fl → NumericString fl → Bool
numbers_equal (int_num i) (int_num j) = eq_ℤ i j
numbers_equal {fl} (int_num i) (float_num b) = fl.eq (fl.of_int i) b
numbers_equal {fl} (float_num a) (int_num j) = fl.eq a (fl.of_int j)
numbers_equal {fl} (float_num a) (float_num b) = fl.eq a b

-- A number and a string: as numbers where the string is numeric, and else as texts.
abbrev pub number_equals_text :
    {fl : Floats} → NumericString fl → Value fl → Bytes → Option (NumericString fl) → Bool
number_equals_text {fl} n v s (some m) = numbers_equal {fl = fl} n m
number_equals_text n v s none = bytes_eq (or_default (to_php_string v)) s

abbrev pub text_equals_number :
    {fl : Floats} → Bytes → NumericString fl → Value fl → Option (NumericString fl) → Bool
text_equals_number {fl} s n v (some m) = numbers_equal {fl = fl} n m
text_equals_number s n v none = bytes_eq s (or_default (to_php_string v))

-- Two scalars as PHPUnit's comparators take them: two strings as texts, two numbers as numbers, and by
-- their truth where one is a truth value or null. PHPUnit takes null as the empty text beside a string;
-- by truth they differ at null beside "0" only.
abbrev pub scalars_equal : {fl : Floats} → Value fl → Value fl → Bool
scalars_equal (str s) (str t) = bytes_eq s t
scalars_equal (int i) (int j) = eq_ℤ i j
scalars_equal {fl} (int i) (float b) = fl.eq (fl.of_int i) b
scalars_equal {fl} (float a) (int j) = fl.eq a (fl.of_int j)
scalars_equal {fl} (float a) (float b) = fl.eq a b
scalars_equal {fl} (int i) (str s) = number_equals_text (int_num i) (int i) s (full_numeric fl s)
scalars_equal {fl} (float a) (str s) =
    number_equals_text (float_num a) (float a) s (full_numeric fl s)
scalars_equal {fl} (str s) (int i) = text_equals_number s (int_num i) (int i) (full_numeric fl s)
scalars_equal {fl} (str s) (float a) =
    text_equals_number s (float_num a) (float a) (full_numeric fl s)
scalars_equal v w = bool_eq (to_bool v) (to_bool w)

-- The verdict of PHPUnit's comparators: an array equals arrays only, and scalars are as above.
unfoldable mutual
  pub phpunit_equal : {fl : Floats} → Oracle fl → Value fl → Value fl → Bool
  phpunit_equal ask (closure s ps) w = ask (closure s ps) w
  phpunit_equal ask v (closure s ps) = ask v (closure s ps)
  phpunit_equal ask (object c ps a) (object d qs b) =
      same_shape (object c ps a) (object d qs b) && chain_props ask ps qs
  phpunit_equal ask (arr x) (arr y) = same_shape (arr x) (arr y) && chain_items ask x y
  phpunit_equal ask (object c ps a) w = ask (object c ps a) w
  phpunit_equal ask v (object d qs b) = ask v (object d qs b)
  phpunit_equal ask (arr x) w = false
  phpunit_equal ask v (arr y) = false
  phpunit_equal ask v w = scalars_equal v w

  pub chain_items : {fl : Floats} → Oracle fl → Items fl → Items fl → Bool
  chain_items ask no_items y = true
  chain_items ask (item k v xs) y =
      (elim (item_of k y) [ none ↦ false | some w ↦ phpunit_equal ask v w ]) && chain_items ask xs y

  pub chain_props : {fl : Floats} → Oracle fl → Props fl → Props fl → Bool
  chain_props ask no_props y = true
  chain_props ask (prop k v ps) y =
      (elim (prop_of k y) [ none ↦ false | some w ↦ phpunit_equal ask v w ]) && chain_props ask ps y

-- Two scalars of one kind.
abbrev pub scalars_identical : {fl : Floats} → Value fl → Value fl → Bool
scalars_identical null null = true
scalars_identical (bool b) (bool c) = bool_eq b c
scalars_identical (int i) (int j) = eq_ℤ i j
scalars_identical {fl} (float a) (float b) = fl.eq a b
scalars_identical (str s) (str t) = bytes_eq s t
scalars_identical v w = false

-- `===` of PHP: objects by their identity, which the oracle knows, arrays by their entries in order.
unfoldable mutual
  pub php_identical : {fl : Floats} → Oracle fl → Value fl → Value fl → Bool
  php_identical ask (object c ps a) (object d qs b) = ask (object c ps a) (object d qs b)
  php_identical ask (closure s ps) (closure t qs) = ask (closure s ps) (closure t qs)
  php_identical ask (arr x) (arr y) = same_shape (arr x) (arr y) && identical_items ask x y
  php_identical ask v w = scalars_identical v w

  pub identical_items : {fl : Floats} → Oracle fl → Items fl → Items fl → Bool
  identical_items ask (item j v xs) (item k w ys) =
      key_eq j k && (php_identical ask v w && identical_items ask xs ys)
  identical_items ask _ _ = true
