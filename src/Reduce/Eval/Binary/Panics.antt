-- ===== src/Reduce/Eval/Binary/Panics.antt =====
-- crates/analyzer/src/reduce/eval.rs: where an operator makes the evaluator panic.
use phpunit_rust.Prelude.{
  Bool, true, false, not, ◌||◌, ◌++◌, ◌≡◌, refl, ap, ◌∙◌, Option, none, some, if◌then◌else◌, ◌↔◌,
  and_left, and_right,
}
use phpunit_rust.Int.{ℤ, pos, negsuc, eq_ℤ}
use phpunit_rust.Reduce.Floats.{Floats}
use phpunit_rust.Reduce.Value.{Bytes, Value, bool, int, str}
use phpunit_rust.Reduce.Value.Convert.{to_int, to_php_string, i64_min}
use phpunit_rust.Reduce.Value.Numeric.{full_numeric}
use phpunit_rust.Reduce.Value.Compare.{php_loose_eq, php_strict_eq, php_compare}
use phpunit_rust.Reduce.Eval.{
  BailReason, unsupported_construct, division_by_zero, Result, ok, bail, panic, ◌>>=◌,
}
use phpunit_rust.Reduce.Eval.Guards.{guard, bail_if_object_operand, bail_if_object_mixed_loose}
use phpunit_rust.Reduce.Eval.Arith.{
  arithmetic_operand, operand_of_text, or_array, checked_rem, is_arr, checked_add, checked_sub,
  checked_mul, arith_numbers, pow_numbers, php_add, php_arith, div_numbers, php_div, mod_ints,
  php_mod, php_pow, php_concat,
}
use phpunit_rust.Reduce.Eval.Arith.Quotient.{rem}
use phpunit_rust.Reduce.Eval.Arith.Whole.{overflows, php_div-div_numbers}
use phpunit_rust.Reduce.Eval.Arith.Division.{eq_ℤ_sound}
use phpunit_rust.Reduce.Eval.Binary.{
  BinaryOperator, addition, subtraction, multiplication, division, modulo, exponentiation,
  string_concat, equal, not_equal, angled_not_equal, identical, not_identical, less_than,
  greater_than, less_than_or_equal, greater_than_or_equal, spaceship, unmodelled, is_less,
  is_greater, spaceship_int, apply_binary,
}

abbrev pub panics {ℓ} : {A : Type ℓ} → Result A → Bool
panics (ok a) = false
panics (bail r) = false
panics panic = true

panics-bind {ℓ κ} :
    {A : Type ℓ} {B : Type κ} (m : Result A) (f : A → Result B)
    → panics m ≡ false
    → ((a : A) → panics (f a) ≡ false)
    → panics (m >>= f) ≡ false
panics-bind (ok a) f h k = k a
panics-bind (bail r) f h k = refl
panics-bind panic f h k = h

panics-panic {ℓ} : {A : Type ℓ} (m : Result A) → panics m ≡ false → ¬ (m ≡ panic)
panics-panic m h e = cc

guard_quiet : (b : Bool) (r : BailReason) → panics (guard b r) ≡ false
guard_quiet true r = refl
guard_quiet false r = refl

operand_quiet : {fl : Floats} (v : Value fl) → panics (arithmetic_operand v) ≡ false
unfolding arithmetic_operand
operand_quiet {fl} (str s) = elim (full_numeric fl s) as (λ o. panics (operand_of_text o) ≡ false) [
  | none ↦ refl
  | some n ↦ refl
]
operand_quiet _ = refl

or_array_quiet : (o : Option Bytes) → panics (or_array o) ≡ false
or_array_quiet none = refl
or_array_quiet (some s) = refl

-- Two operands, and a step on them that does not panic.
operands_quiet :
    {fl : Floats} (l r : Value fl) (f : Value fl → Value fl → Result (Value fl))
    → ((a b : Value fl) → panics (f a b) ≡ false)
    → panics (arithmetic_operand l >>= λ a. arithmetic_operand r >>= λ b. f a b) ≡ false
operands_quiet l r f h =
    panics-bind (arithmetic_operand l) _ (operand_quiet l)
      (λ a. panics-bind (arithmetic_operand r) _ (operand_quiet r) (λ b. h a b))

quiet_if :
    {fl : Floats} (b : Bool) (m n : Result (Value fl))
    → panics m ≡ false
    → panics n ≡ false
    → panics (if b then m else n) ≡ false
quiet_if true m n h k = h
quiet_if false m n h k = k

mod_tests_quiet :
    {fl : Floats} (stop special : Bool) (m : Result ℤ) (f : ℤ → Value fl)
    → (special ≡ false → panics m ≡ false)
    → panics (
        if stop
        then bail division_by_zero
        else (if special then ok (f (pos 0)) else (m >>= λ k. ok (f k))))
      ≡ false
mod_tests_quiet true special m f h = refl
mod_tests_quiet false true m f h = refl
mod_tests_quiet false false m f h = panics-bind m _ (h refl) (λ k. refl)

rem_quiet :
    (x y : ℤ) (special : Bool)
    → special ≡ false
    → panics (if special then panic else ok (rem x y)) ≡ false
rem_quiet x y special h = rw h refl

mod_quiet : (fl : Floats) (x y : ℤ) → panics (mod_ints {fl = fl} x y) ≡ false
unfolding mod_ints
mod_quiet fl x y =
    mod_tests_quiet (eq_ℤ y (pos 0)) (overflows x y) (checked_rem x y) int
      (rem_quiet x y (overflows x y))

abbrev is_division : BinaryOperator → Bool
is_division division = true
is_division _ = false

arith_quiet :
    {fl : Floats} (int_op : ℤ → ℤ → Option ℤ) (float_op : fl.F → fl.F → fl.F) (l r : Value fl)
    → panics (php_arith int_op float_op l r) ≡ false
unfolding php_arith
arith_quiet int_op float_op l r =
    operands_quiet l r (λ a b. ok (arith_numbers int_op float_op a b)) (λ a b. refl)

loose_quiet :
    {fl : Floats} (l r v : Value fl) → panics (bail_if_object_mixed_loose l r >>= λ _. ok v) ≡ false
unfolding bail_if_object_mixed_loose
loose_quiet l r v =
    panics-bind (bail_if_object_mixed_loose l r) (λ _. ok v) (guard_quiet _ _) (λ u. refl)

strict_quiet :
    {fl : Floats} (l r v : Value fl) → panics (bail_if_object_operand l r >>= λ _. ok v) ≡ false
unfolding bail_if_object_operand
strict_quiet l r v =
    panics-bind (bail_if_object_operand l r) (λ _. ok v) (guard_quiet _ _) (λ u. refl)

others_quiet :
    {fl : Floats} (op : BinaryOperator) (l r : Value fl)
    → is_division op ≡ false
    → panics (apply_binary op l r) ≡ false
unfolding apply_binary php_add php_mod php_pow php_concat
others_quiet {fl} addition l r h =
    quiet_if (is_arr l || is_arr r) (bail (unsupported_construct "array union (+)"))
      (php_arith checked_add fl.add l r) refl (arith_quiet checked_add fl.add l r)
others_quiet {fl} subtraction l r h = arith_quiet checked_sub fl.sub l r
others_quiet {fl} multiplication l r h = arith_quiet checked_mul fl.mul l r
others_quiet division l r h = cc
others_quiet {fl} modulo l r h =
    operands_quiet l r (λ a b. mod_ints (to_int a) (to_int b))
      (λ a b. mod_quiet fl (to_int a) (to_int b))
others_quiet exponentiation l r h = operands_quiet l r (λ a b. ok (pow_numbers a b)) (λ a b. refl)
others_quiet string_concat l r h =
    panics-bind (or_array (to_php_string l)) _ (or_array_quiet (to_php_string l)) (λ ls.
      panics-bind (or_array (to_php_string r)) (λ rs. ok (str (ls ++ rs)))
        (or_array_quiet (to_php_string r)) (λ rs. refl))
others_quiet equal l r h = loose_quiet l r (bool (php_loose_eq l r))
others_quiet not_equal l r h = loose_quiet l r (bool (not (php_loose_eq l r)))
others_quiet angled_not_equal l r h = loose_quiet l r (bool (not (php_loose_eq l r)))
others_quiet identical l r h = strict_quiet l r (bool (php_strict_eq l r))
others_quiet not_identical l r h = strict_quiet l r (bool (not (php_strict_eq l r)))
others_quiet less_than l r h = strict_quiet l r (bool (is_less (php_compare l r)))
others_quiet greater_than l r h = strict_quiet l r (bool (is_greater (php_compare l r)))
others_quiet less_than_or_equal l r h = strict_quiet l r (bool (not (is_greater (php_compare l r))))
others_quiet greater_than_or_equal l r h = strict_quiet l r (bool (not (is_less (php_compare l r))))
others_quiet spaceship l r h = strict_quiet l r (int (spaceship_int (php_compare l r)))
others_quiet (unmodelled s) l r h = refl

bind_panic {ℓ κ} :
    {A : Type ℓ} {B : Type κ} (m : Result A) (f : A → Result B)
    → panics m ≡ false
    → (m >>= f) ≡ panic
    → (a : A) × (m ≡ ok a) × (f a ≡ panic)
bind_panic (ok a) f h e = (a, refl, e)
bind_panic (bail r) f h e = cc
bind_panic panic f h e = cc

-- The tests of `php_div`.
division_tests :
    {fl : Floats} (stop special : Bool) (m : ℤ) (f : ℤ → Value fl)
    → (if stop
        then bail division_by_zero
        else ((if special then panic else ok m) >>= λ k. ok (f k)))
      ≡ panic
    → special ≡ true
division_tests true special m f h = cc
division_tests false true m f h = refl
division_tests false false m f h = cc

float_quiet :
    {fl : Floats} (b : Bool) (v : Value fl)
    → ¬ ((if b then bail division_by_zero else ok v) ≡ panic)
float_quiet true v h = cc
float_quiet false v h = cc

numbers_panic :
    {fl : Floats} (a b : Value fl)
    → div_numbers a b ≡ panic
    → (a ≡ int i64_min) × (b ≡ int (negsuc 0))
unfolding div_numbers
numbers_panic (int x) (int y) h =
    let over = division_tests (eq_ℤ y (pos 0)) (overflows x y) (rem x y) _ h in
    (
      ap int (eq_ℤ_sound x i64_min (and_left (eq_ℤ x i64_min) (eq_ℤ y (negsuc 0)) over)),
      ap int (eq_ℤ_sound y (negsuc 0) (and_right (eq_ℤ x i64_min) (eq_ℤ y (negsuc 0)) over)),
    )
numbers_panic (int x) _ h = absurd (float_quiet _ _ h)
numbers_panic _ b h = absurd (float_quiet _ _ h)

php_div_panics :
    {fl : Floats} (l r : Value fl)
    → php_div l r ≡ panic
    → (arithmetic_operand l ≡ ok (int i64_min)) × (arithmetic_operand r ≡ ok (int (negsuc 0)))
unfolding php_div
php_div_panics l r h =
    let (a, ha, rest) = bind_panic (arithmetic_operand l) _ (operand_quiet l) h in
    let (b, hb, last) = bind_panic (arithmetic_operand r) _ (operand_quiet r) rest in
    let (least, minus_one) = numbers_panic a b last in (ha ∙ ap ok least, hb ∙ ap ok minus_one)

least_panics : (fl : Floats) → div_numbers {fl = fl} (int i64_min) (int (negsuc 0)) ≡ panic
unfolding div_numbers
least_panics fl = refl

only :
    {fl : Floats} (op : BinaryOperator) (l r : Value fl)
    → apply_binary op l r ≡ panic
    → (op ≡ division)
      × (arithmetic_operand l ≡ ok (int i64_min))
      × (arithmetic_operand r ≡ ok (int (negsuc 0)))
unfolding apply_binary
only division l r h = let (a, b) = php_div_panics l r h in (refl, a, b)
only op l r h = absurd (panics-panic (apply_binary op l r) (others_quiet op l r refl) h)

-- An operator makes the evaluator panic where it divides the least whole number by -1, and only there.
pub apply_binary_panics :
    {fl : Floats} (op : BinaryOperator) (l r : Value fl)
    → (apply_binary op l r ≡ panic) ↔ (
        (op ≡ division)
        × (arithmetic_operand l ≡ ok (int i64_min))
        × (arithmetic_operand r ≡ ok (int (negsuc 0))))
unfolding apply_binary
apply_binary_panics {fl} op l r = (
  only op l r,
  λ h.
      ap (λ o. apply_binary o l r) h.0
      ∙ php_div-div_numbers l r (int i64_min) (int (negsuc 0)) h.1 h.2
      ∙ least_panics fl,
)
