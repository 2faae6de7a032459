-- ===== src/Reduce/Value/Compare/Flip.antt =====
-- crates/analyzer/src/reduce/value.rs: `<=>` of two scalars, turned round.
use phpunit_rust.Prelude.{
  ℕ, Bool, true, false, ◌≡◌, refl, sym, ap, ap₂, ◌∙◌, [], ◌∷◌, Option, none, some, Ordering,
  compare, arith, from_false,
}
use phpunit_rust.Int.{ℤ, compare_ℤ}
use phpunit_rust.Reduce.Floats.{Floats}
use phpunit_rust.Reduce.Value.{Bytes, Value, null, bool, int, float, str, arr, object, closure}
use phpunit_rust.Reduce.Value.Numeric.{NumericString, int_num, float_num, full_numeric}
use phpunit_rust.Reduce.Value.Convert.{to_bool, to_php_string, int_of_bool}
use phpunit_rust.Reduce.Value.Compare.{
  reverse, cmp_f64, then_compare, cmp_bytes, cmp_numeric_rev, cmp_numeric_strings, cmp_number_text,
  cmp_text_number, cmp_texts, cmp_bools, php_compare, or_default,
}

-- The value is null, a Boolean, a number or a string.
abbrev pub is_scalar : {fl : Floats} → Value fl → Bool
is_scalar (arr x) = false
is_scalar (object c x u) = false
is_scalar (closure s x) = false
is_scalar _ = true

-- Comparing two floats the other way round.
abbrev pub FloatFlips : Floats → Type 0
FloatFlips fl = (a b : fl.F) → cmp_f64 fl b a ≡ reverse (cmp_f64 fl a b)

compare_flip : (m n : ℕ) → compare n m ≡ reverse (compare m n)
compare_flip m n = ground arith

compare_ℤ_flip : (a b : ℤ) → compare_ℤ b a ≡ reverse (compare_ℤ a b)
compare_ℤ_flip a b = ground arith

reverse_twice : (o : Ordering) → o ≡ reverse (reverse o)
reverse_twice Ordering.lt = refl
reverse_twice Ordering.eq = refl
reverse_twice Ordering.gt = refl

then_compare_flip :
    (o p : Ordering) → then_compare (reverse o) (reverse p) ≡ reverse (then_compare o p)
then_compare_flip Ordering.lt p = refl
then_compare_flip Ordering.eq p = refl
then_compare_flip Ordering.gt p = refl

cmp_bytes_flip : (a b : Bytes) → cmp_bytes b a ≡ reverse (cmp_bytes a b)
unfolding cmp_bytes
cmp_bytes_flip [] [] = refl
cmp_bytes_flip [] (b ∷ bs) = refl
cmp_bytes_flip (a ∷ xs) [] = refl
cmp_bytes_flip (a ∷ xs) (b ∷ ys) =
    ap₂ then_compare (compare_flip a b) (cmp_bytes_flip xs ys)
    ∙ then_compare_flip (compare a b) (cmp_bytes xs ys)

cmp_bools_flip : {fl : Floats} (v w : Value fl) → cmp_bools w v ≡ reverse (cmp_bools v w)
cmp_bools_flip v w = compare_ℤ_flip (int_of_bool (to_bool v)) (int_of_bool (to_bool w))

cmp_text_number_flip :
    {fl : Floats} (v : Value fl) (s : Bytes) (o : Option (NumericString fl))
    → cmp_text_number s v o ≡ reverse (cmp_number_text v s o)
unfolding cmp_numeric_rev
cmp_text_number_flip v s (some n) = refl
cmp_text_number_flip v s none = cmp_bytes_flip (or_default (to_php_string v)) s

cmp_number_text_flip :
    {fl : Floats} (s : Bytes) (v : Value fl) (o : Option (NumericString fl))
    → cmp_number_text v s o ≡ reverse (cmp_text_number s v o)
cmp_number_text_flip s v o =
    reverse_twice (cmp_number_text v s o) ∙ ap reverse (sym (cmp_text_number_flip v s o))

cmp_texts_flip :
    (fl : Floats) (flips : FloatFlips fl) (s t : Bytes) (o p : Option (NumericString fl))
    → cmp_texts t s p o ≡ reverse (cmp_texts s t o p)
unfolding cmp_numeric_strings
cmp_texts_flip fl flips s t none none = cmp_bytes_flip s t
cmp_texts_flip fl flips s t none (some q) = cmp_bytes_flip s t
cmp_texts_flip fl flips s t (some q) none = cmp_bytes_flip s t
cmp_texts_flip fl flips s t (some (int_num a)) (some (int_num b)) = compare_ℤ_flip a b
cmp_texts_flip fl flips s t (some (int_num a)) (some (float_num b)) = flips (fl.of_int a) b
cmp_texts_flip fl flips s t (some (float_num a)) (some (int_num b)) = flips a (fl.of_int b)
cmp_texts_flip fl flips s t (some (float_num a)) (some (float_num b)) = flips a b

-- Turning the operands round reverses `<=>`, for scalars of all types, where it does so for floats.
pub php_compare_flip :
    (fl : Floats) (flips : FloatFlips fl) (v w : Value fl)
    → is_scalar v ≡ true
    → is_scalar w ≡ true
    → php_compare w v ≡ reverse (php_compare v w)
unfolding php_compare
php_compare_flip fl flips null null h k = cmp_bools_flip null null
php_compare_flip fl flips null (bool b) h k = cmp_bools_flip null (bool b)
php_compare_flip fl flips null (int b) h k = cmp_bools_flip null (int b)
php_compare_flip fl flips null (float b) h k = cmp_bools_flip null (float b)
php_compare_flip fl flips null (str b) h k = cmp_bools_flip null (str b)
php_compare_flip fl flips (bool a) null h k = cmp_bools_flip (bool a) null
php_compare_flip fl flips (bool a) (bool b) h k = cmp_bools_flip (bool a) (bool b)
php_compare_flip fl flips (bool a) (int b) h k = cmp_bools_flip (bool a) (int b)
php_compare_flip fl flips (bool a) (float b) h k = cmp_bools_flip (bool a) (float b)
php_compare_flip fl flips (bool a) (str b) h k = cmp_bools_flip (bool a) (str b)
php_compare_flip fl flips (int a) null h k = cmp_bools_flip (int a) null
php_compare_flip fl flips (int a) (bool b) h k = cmp_bools_flip (int a) (bool b)
php_compare_flip fl flips (int a) (int b) h k = compare_ℤ_flip a b
php_compare_flip fl flips (int a) (float b) h k = flips (fl.of_int a) b
php_compare_flip fl flips (int a) (str b) h k = cmp_text_number_flip (int a) b (full_numeric fl b)
php_compare_flip fl flips (float a) null h k = cmp_bools_flip (float a) null
php_compare_flip fl flips (float a) (bool b) h k = cmp_bools_flip (float a) (bool b)
php_compare_flip fl flips (float a) (int b) h k = flips a (fl.of_int b)
php_compare_flip fl flips (float a) (float b) h k = flips a b
php_compare_flip fl flips (float a) (str b) h k =
    cmp_text_number_flip (float a) b (full_numeric fl b)
php_compare_flip fl flips (str a) null h k = cmp_bools_flip (str a) null
php_compare_flip fl flips (str a) (bool b) h k = cmp_bools_flip (str a) (bool b)
php_compare_flip fl flips (str a) (int b) h k = cmp_number_text_flip a (int b) (full_numeric fl a)
php_compare_flip fl flips (str a) (float b) h k =
    cmp_number_text_flip a (float b) (full_numeric fl a)
php_compare_flip fl flips (str a) (str b) h k =
    cmp_texts_flip fl flips a b (full_numeric fl a) (full_numeric fl b)
php_compare_flip fl flips (arr x) w h k = from_false h
php_compare_flip fl flips (object c x u) w h k = from_false h
php_compare_flip fl flips (closure s x) w h k = from_false h
php_compare_flip fl flips null (arr x) h k = from_false k
php_compare_flip fl flips null (object c x u) h k = from_false k
php_compare_flip fl flips null (closure s x) h k = from_false k
php_compare_flip fl flips (bool a) (arr x) h k = from_false k
php_compare_flip fl flips (bool a) (object c x u) h k = from_false k
php_compare_flip fl flips (bool a) (closure s x) h k = from_false k
php_compare_flip fl flips (int a) (arr x) h k = from_false k
php_compare_flip fl flips (int a) (object c x u) h k = from_false k
php_compare_flip fl flips (int a) (closure s x) h k = from_false k
php_compare_flip fl flips (float a) (arr x) h k = from_false k
php_compare_flip fl flips (float a) (object c x u) h k = from_false k
php_compare_flip fl flips (float a) (closure s x) h k = from_false k
php_compare_flip fl flips (str a) (arr x) h k = from_false k
php_compare_flip fl flips (str a) (object c x u) h k = from_false k
php_compare_flip fl flips (str a) (closure s x) h k = from_false k
