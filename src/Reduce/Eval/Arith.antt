-- ===== src/Reduce/Eval/Arith.antt =====
-- crates/analyzer/src/reduce/eval.rs: the arithmetic on values. `i64`'s own operations are those of the
-- integers, with the check of their range. Its `%` panics where the quotient is out of range.
pub mod Quotient
pub mod Division
pub mod Whole
use phpunit_rust.Prelude.{
  ℕ, zero, suc, ◌+◌, ◌^◌, Bool, true, false, not, ◌&&◌, ◌||◌, List, [], ◌∷◌, ◌++◌, Option, none,
  some, if◌then◌else◌, String, ltb,
}
use phpunit_rust.Int.{ℤ, pos, negsuc, eq_ℤ, checked, ◌+ℤ◌, ◌-ℤ◌, ◌*ℤ◌}
use phpunit_rust.Reduce.Floats.{Floats}
use phpunit_rust.Reduce.Value.{
  Bytes, Value, null, bool, int, float, str, arr, object, closure, Props, no_props, prop, prop_of,
}
use phpunit_rust.Reduce.Value.Convert.{
  to_int, to_float, to_php_string, type_name, int_of_bool, i64_min, i64_max,
}
use phpunit_rust.Reduce.Value.Numeric.{NumericString, int_num, float_num, full_numeric}
use phpunit_rust.Reduce.Eval.{
  BailReason, unsupported_construct, unbound_variable, type_error, division_by_zero, Result, ok,
  bail, panic, ◌>>=◌, ◌>>◌,
}
use phpunit_rust.Reduce.Eval.Arith.Quotient.{quot, rem}

abbrev pub of_numeric : {fl : Floats} → NumericString fl → Value fl
of_numeric (int_num i) = int i
of_numeric (float_num f) = float f

abbrev pub checked_neg : ℤ → Option ℤ
checked_neg n = checked (pos 0 -ℤ n)

abbrev pub checked_add : ℤ → ℤ → Option ℤ
checked_add a b = checked (a +ℤ b)

abbrev pub checked_sub : ℤ → ℤ → Option ℤ
checked_sub a b = checked (a -ℤ b)

abbrev pub checked_mul : ℤ → ℤ → Option ℤ
checked_mul a b = checked (a *ℤ b)

abbrev pow : ℤ → ℕ → ℤ
pow a zero = pos 1
pow a (suc n) = pow a n *ℤ a

abbrev pub checked_pow : ℤ → ℕ → Option ℤ
checked_pow a n = checked (pow a n)

-- The whole number, or the float where there is none.
abbrev pub int_or_float : {fl : Floats} → Option ℤ → fl.F → Value fl
int_or_float (some i) f = int i
int_or_float none f = float f

abbrev coerce_text : {fl : Floats} → Bytes → Option (NumericString fl) → Value fl
coerce_text s (some n) = of_numeric n
coerce_text {fl} s none = int (to_int {fl = fl} (str s))

unfoldable pub coerce_number : {fl : Floats} → Value fl → Value fl
coerce_number (int i) = int i
coerce_number (float f) = float f
coerce_number (bool b) = int (int_of_bool b)
coerce_number null = int (pos 0)
coerce_number {fl} (str s) = coerce_text s (full_numeric fl s)
coerce_number (arr xs) = arr xs
coerce_number (object c ps a) = object c ps a
coerce_number (closure s ps) = closure s ps

abbrev pub operand_of_text : {fl : Floats} → Option (NumericString fl) → Result (Value fl)
operand_of_text (some n) = ok (of_numeric n)
operand_of_text none = bail (type_error "non-numeric string in arithmetic (PHP 8 TypeError)")

unfoldable pub arithmetic_operand : {fl : Floats} → Value fl → Result (Value fl)
unfolding coerce_number
arithmetic_operand (int i) = ok (coerce_number (int i))
arithmetic_operand (float f) = ok (coerce_number (float f))
arithmetic_operand (bool b) = ok (coerce_number (bool b))
arithmetic_operand null = ok (coerce_number null)
arithmetic_operand {fl} (str s) = operand_of_text (full_numeric fl s)
arithmetic_operand (arr xs) = bail (type_error "array in arithmetic")
arithmetic_operand (object c ps a) = bail (type_error "object in arithmetic")
arithmetic_operand (closure s ps) = bail (type_error "object in arithmetic")

-- A number negated: what the recursive call of `php_negate` is on.
abbrev negate_number : {fl : Floats} → Value fl → Result (Value fl)
negate_number {fl} (int n) = ok (int_or_float (checked_neg n) (fl.neg (fl.of_int n)))
negate_number {fl} (float f) = ok (float (fl.neg f))
negate_number (arr xs) = bail (type_error "negate array")
negate_number _ = bail (type_error "negate object")

unfoldable pub php_negate : {fl : Floats} → Value fl → Result (Value fl)
unfolding coerce_number
php_negate (str s) = negate_number (coerce_number (str s))
php_negate (bool b) = negate_number (coerce_number (bool b))
php_negate null = negate_number (coerce_number null)
php_negate v = negate_number v

unfoldable pub php_unary_plus : {fl : Floats} → Value fl → Result (Value fl)
unfolding coerce_number
php_unary_plus (int n) = ok (int n)
php_unary_plus (float f) = ok (float f)
php_unary_plus (str s) = ok (coerce_number (str s))
php_unary_plus (bool b) = ok (coerce_number (bool b))
php_unary_plus null = ok (coerce_number null)
php_unary_plus (arr xs) = bail (type_error "unary + on array")
php_unary_plus (object c ps a) = bail (type_error "unary + on object")
php_unary_plus (closure s ps) = bail (type_error "unary + on object")

-- The operation on two numbers.
unfoldable pub arith_numbers :
    {fl : Floats} → (ℤ → ℤ → Option ℤ) → (fl.F → fl.F → fl.F) → Value fl → Value fl → Value fl
unfolding to_float
arith_numbers {fl} int_op float_op (int x) (int y) =
    int_or_float (int_op x y) (float_op (fl.of_int x) (fl.of_int y))
arith_numbers int_op float_op a b = float (float_op (to_float a) (to_float b))

unfoldable pub php_arith :
    {fl : Floats}
    → (ℤ → ℤ → Option ℤ)
    → (fl.F → fl.F → fl.F)
    → Value fl
    → Value fl
    → Result (Value fl)
unfolding arith_numbers
php_arith int_op float_op l r = do
  a ← arithmetic_operand l
  b ← arithmetic_operand r
  ok (arith_numbers int_op float_op a b)

abbrev pub is_arr : {fl : Floats} → Value fl → Bool
is_arr (arr xs) = true
is_arr _ = false

unfoldable pub php_add : {fl : Floats} → Value fl → Value fl → Result (Value fl)
php_add {fl} l r =
    if is_arr l || is_arr r
    then bail (unsupported_construct "array union (+)")
    else php_arith checked_add fl.add l r

-- `x % y`, which overflows at the least integer and -1.
abbrev pub checked_rem : ℤ → ℤ → Result ℤ
checked_rem x y = if eq_ℤ x i64_min && eq_ℤ y (negsuc 0) then panic else ok (rem x y)

unfoldable pub div_numbers : {fl : Floats} → Value fl → Value fl → Result (Value fl)
unfolding to_float
div_numbers {fl} (int x) (int y) = if eq_ℤ y (pos 0) then bail division_by_zero else (do
  m ← checked_rem x y
  ok (if eq_ℤ m (pos 0) then int (quot x y) else float (fl.div (fl.of_int x) (fl.of_int y))))
div_numbers {fl} a b =
    if fl.eq (to_float b) (fl.of_int (pos 0))
    then bail division_by_zero
    else ok (float (fl.div (to_float a) (to_float b)))

unfoldable pub php_div : {fl : Floats} → Value fl → Value fl → Result (Value fl)
php_div l r = do a ← arithmetic_operand l; b ← arithmetic_operand r; div_numbers a b

unfoldable pub mod_ints : {fl : Floats} → ℤ → ℤ → Result (Value fl)
mod_ints a b =
    if eq_ℤ b (pos 0)
    then bail division_by_zero
    else if eq_ℤ a i64_min && eq_ℤ b (negsuc 0)
    then ok (int (pos 0))
    else (checked_rem a b >>= λ m. ok (int m))

unfoldable pub php_mod : {fl : Floats} → Value fl → Value fl → Result (Value fl)
php_mod l r = do a ← arithmetic_operand l; b ← arithmetic_operand r; mod_ints (to_int a) (to_int b)

-- A power of integers where the exponent is a `u32`, and the power an `i64`.
abbrev pub int_power : ℤ → ℤ → Option ℤ
int_power a (pos e) = if ltb e (2 ^ 32) then checked_pow a e else none
int_power a (negsuc e) = none

abbrev pub pow_numbers : {fl : Floats} → Value fl → Value fl → Value fl
pow_numbers {fl} (int a) (int e) =
    int_or_float (int_power a e) (fl.powf (fl.of_int a) (fl.of_int e))
pow_numbers {fl} a b = float (fl.powf (to_float a) (to_float b))

unfoldable pub php_pow : {fl : Floats} → Value fl → Value fl → Result (Value fl)
php_pow l r = do a ← arithmetic_operand l; b ← arithmetic_operand r; ok (pow_numbers a b)

abbrev pub or_array : Option Bytes → Result Bytes
or_array (some s) = ok s
or_array none = bail (type_error "concat with array")

unfoldable pub php_concat : {fl : Floats} → Value fl → Value fl → Result (Value fl)
php_concat l r = do
  ls ← or_array (to_php_string l)
  rs ← or_array (to_php_string r)
  ok (str (ls ++ rs))
