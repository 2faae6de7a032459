-- ===== src/Reduce/Eval/Guards/Scalars.antt =====
-- crates/analyzer/src/reduce/value.rs: `==` of two scalars beside the rules of PHP.
use phpunit_rust.Prelude.{
  Bool, true, false, ◌≡◌, refl, ◌∙◌, sym, [], ◌∷◌, Option, none, some, from_false, Ordering, arith,
}
use phpunit_rust.Int.{ℤ, compare_ℤ, eq_ℤ}
use phpunit_rust.Reduce.Floats.{Floats}
use phpunit_rust.Reduce.Value.{
  Bytes, bytes_eq, bool_eq, Value, null, bool, int, float, str, arr, object, closure,
}
use phpunit_rust.Reduce.Value.Numeric.{NumericString, int_num, float_num, full_numeric}
use phpunit_rust.Reduce.Value.Convert.{to_bool, to_float, to_php_string, int_of_bool}
use phpunit_rust.Reduce.Value.Compare.{
  reverse, is_equal, cmp_f64, cmp_bytes, cmp_numeric, cmp_numeric_rev, cmp_bools, cmp_number_text,
  cmp_text_number, or_default, php_compare,
}
use phpunit_rust.Reduce.Value.Compare.Flip.{is_scalar}
use phpunit_rust.Reduce.Eval.Guards.Reference.{
  numbers_equal, number_equals_text, text_equals_number, scalars_equal,
}

-- Two strings.
abbrev pub both_texts : {fl : Floats} → Value fl → Value fl → Bool
both_texts (str s) (str t) = true
both_texts _ _ = false

-- No float is a NaN: two floats compare as equal where they are equal.
abbrev pub NoNan : Floats → Type 0
NoNan fl = (a b : fl.F) → is_equal (cmp_f64 fl a b) ≡ fl.eq a b

pub integers_compared : (i j : ℤ) → is_equal (compare_ℤ i j) ≡ eq_ℤ i j
integers_compared i j = ground arith

bytes_compared : (s t : Bytes) → is_equal (cmp_bytes s t) ≡ bytes_eq s t
unfolding cmp_bytes
bytes_compared [] [] = refl
bytes_compared [] (b ∷ t) = refl
bytes_compared (a ∷ s) [] = refl
bytes_compared (a ∷ s) (b ∷ t) = ground (arith, bytes_compared s t)

reversed : (o : Ordering) → is_equal (reverse o) ≡ is_equal o
reversed Ordering.lt = refl
reversed Ordering.eq = refl
reversed Ordering.gt = refl

truths_compared : (b c : Bool) → is_equal (compare_ℤ (int_of_bool b) (int_of_bool c)) ≡ bool_eq b c
truths_compared true true = refl
truths_compared true false = refl
truths_compared false true = refl
truths_compared false false = refl

pub bools_compared :
    {fl : Floats} (v w : Value fl) → is_equal (cmp_bools v w) ≡ bool_eq (to_bool v) (to_bool w)
bools_compared v w = truths_compared (to_bool v) (to_bool w)

module _ (fl : Floats) (exact : NoNan fl) where
  int_compared :
      (i : ℤ) (n : NumericString fl)
      → is_equal (cmp_numeric (int i) n) ≡ numbers_equal {fl = fl} (int_num i) n
  unfolding cmp_numeric to_float
  int_compared i (int_num j) = integers_compared i j
  int_compared i (float_num b) = exact (fl.of_int i) b

  float_compared :
      (a : fl.F) (n : NumericString fl)
      → is_equal (cmp_numeric (float a) n) ≡ numbers_equal {fl = fl} (float_num a) n
  unfolding cmp_numeric to_float
  float_compared a (int_num j) = exact a (fl.of_int j)
  float_compared a (float_num b) = exact a b

  int-text :
      (i : ℤ) (s : Bytes) (o : Option (NumericString fl))
      → is_equal (cmp_number_text (int i) s o) ≡ number_equals_text (int_num i) (int i) s o
  int-text i s none = bytes_compared (or_default (to_php_string {fl = fl} (int i))) s
  int-text i s (some n) = int_compared i n

  float-text :
      (a : fl.F) (s : Bytes) (o : Option (NumericString fl))
      → is_equal (cmp_number_text (float a) s o) ≡ number_equals_text (float_num a) (float a) s o
  float-text a s none = bytes_compared (or_default (to_php_string {fl = fl} (float a))) s
  float-text a s (some n) = float_compared a n

  text-int :
      (s : Bytes) (i : ℤ) (o : Option (NumericString fl))
      → is_equal (cmp_text_number s (int i) o) ≡ text_equals_number s (int_num i) (int i) o
  unfolding cmp_numeric_rev
  text-int s i none = bytes_compared s (or_default (to_php_string {fl = fl} (int i)))
  text-int s i (some n) = reversed (cmp_numeric (int i) n) ∙ int_compared i n

  text-float :
      (s : Bytes) (a : fl.F) (o : Option (NumericString fl))
      → is_equal (cmp_text_number s (float a) o) ≡ text_equals_number s (float_num a) (float a) o
  unfolding cmp_numeric_rev
  text-float s a none = bytes_compared s (or_default (to_php_string {fl = fl} (float a)))
  text-float s a (some n) = reversed (cmp_numeric (float a) n) ∙ float_compared a n

  -- Scalars that are not two strings.
  pub scalars_compared :
      (v w : Value fl)
      → is_scalar v ≡ true
      → is_scalar w ≡ true
      → both_texts v w ≡ false
      → is_equal (php_compare v w) ≡ scalars_equal v w
  unfolding php_compare
  scalars_compared (bool b) null hv hw p = bools_compared (bool b) null
  scalars_compared (bool b) w hv hw p = bools_compared (bool b) w
  scalars_compared null (bool b) hv hw p = bools_compared null (bool b)
  scalars_compared v (bool b) hv hw p = bools_compared v (bool b)
  scalars_compared null null hv hw p = bools_compared null null
  scalars_compared null (int i) hv hw p = bools_compared null (int i)
  scalars_compared null (float a) hv hw p = bools_compared null (float a)
  scalars_compared null (str s) hv hw p = bools_compared null (str s)
  scalars_compared (int i) null hv hw p = bools_compared (int i) null
  scalars_compared (float a) null hv hw p = bools_compared (float a) null
  scalars_compared (str s) null hv hw p = bools_compared (str s) null
  scalars_compared (int i) (int j) hv hw p = integers_compared i j
  scalars_compared (int i) (float b) hv hw p = exact (fl.of_int i) b
  scalars_compared (float a) (int j) hv hw p = exact a (fl.of_int j)
  scalars_compared (float a) (float b) hv hw p = exact a b
  scalars_compared (int i) (str s) hv hw p = int-text i s (full_numeric fl s)
  scalars_compared (float a) (str s) hv hw p = float-text a s (full_numeric fl s)
  scalars_compared (str s) (int i) hv hw p = text-int s i (full_numeric fl s)
  scalars_compared (str s) (float a) hv hw p = text-float s a (full_numeric fl s)
  scalars_compared (str s) (str t) hv hw p = from_false (sym p)
  scalars_compared (arr x) w hv hw p = from_false hv
  scalars_compared (object c ps a) w hv hw p = from_false hv
  scalars_compared (closure c ps) w hv hw p = from_false hv
  scalars_compared v (arr x) hv hw p = from_false hw
  scalars_compared v (object c ps a) hv hw p = from_false hw
  scalars_compared v (closure c ps) hv hw p = from_false hw
