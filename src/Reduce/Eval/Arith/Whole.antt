-- ===== src/Reduce/Eval/Arith/Whole.antt =====
-- crates/analyzer/src/reduce/eval.rs: `php_div` and `php_mod` on operands that are whole numbers.
use native.Mathlib.Nat.{mod-lt}
use phpunit_rust.Prelude.{
  ◌≡◌, ◌<◌, ◌≤◌, arith, refl, sym, ap, ◌∙◌, Bool, true, false, ◌&&◌, if◌then◌else◌, ◌↔◌, Bool-cases,
  inl, inr, subst, and_left, and_right,
}
use phpunit_rust.Int.{+ℤ_zero, ℤ, pos, negsuc, pos_part, neg_part, ◌+ℤ◌, ◌*ℤ◌, eq_ℤ, in_i64}
use phpunit_rust.Reduce.Floats.{Floats}
use phpunit_rust.Reduce.Value.{Value, int, float}
use phpunit_rust.Reduce.Value.Convert.{to_int, i64_min}
use phpunit_rust.Reduce.Eval.{division_by_zero, ok, bail, panic, ◌>>=◌}
use phpunit_rust.Reduce.Eval.Arith.{arithmetic_operand, div_numbers, php_div, mod_ints, php_mod}
use phpunit_rust.Reduce.Eval.Arith.Quotient.{quot, rem, abs}
use phpunit_rust.Reduce.Eval.Arith.Division.{
  quot-rem, abs-rem, rem_towards_zero, abs_positive, rem_minus_one, times_cancel, rem-times,
  eq_ℤ_sound,
}

-- What the remainder `m` of `x` by `y` is in PHP.
pub IsRemainder : ℤ → ℤ → ℤ → Type 0
IsRemainder x y m =
    ((q : ℤ) × (q *ℤ y +ℤ m ≡ x))
    × (abs m < abs y)
    × (pos_part m ≤ pos_part x)
    × (neg_part m ≤ neg_part x)

rem-IsRemainder : (x y : ℤ) → eq_ℤ y (pos 0) ≡ false → IsRemainder x y (rem x y)
unfolding IsRemainder
rem-IsRemainder x y nonzero = (
  (quot x y, quot-rem x y),
  subst (λ k. k < abs y) (sym (abs-rem x y)) (mod-lt (abs x) (abs_positive y nonzero)),
  (rem_towards_zero x y).0,
  (rem_towards_zero x y).1,
)

abbrev pub overflows : ℤ → ℤ → Bool
overflows x y = eq_ℤ x i64_min && eq_ℤ y (negsuc 0)

abbrev whole_value : (fl : Floats) → ℤ → Value fl
whole_value fl n = int n

-- The two tests of `php_mod`, and what comes of them.
mod_tests :
    {fl : Floats} (stop special : Bool) (m : ℤ)
    → stop ≡ false
    → (special ≡ true → m ≡ pos 0)
    → (if stop
        then bail division_by_zero
        else (if special
            then ok (whole_value fl (pos 0))
            else ((if special then panic else ok m) >>= λ k. ok (int k))))
      ≡ ok (int m)
mod_tests true special m h rests = cc
mod_tests false true m h rests = ap (λ k. ok (int k)) (sym (rests refl))
mod_tests false false m h rests = refl

overflow_rests : (x y : ℤ) → overflows x y ≡ true → rem x y ≡ pos 0
overflow_rests x y h =
    let minus_one = and_right (eq_ℤ x i64_min) (eq_ℤ y (negsuc 0)) h in
    ap (rem x) (eq_ℤ_sound y (negsuc 0) minus_one) ∙ rem_minus_one x

mod_ints-rem :
    {fl : Floats} (x y : ℤ) → eq_ℤ y (pos 0) ≡ false → mod_ints {fl = fl} x y ≡ ok (int (rem x y))
unfolding mod_ints
mod_ints-rem x y nonzero =
    mod_tests (eq_ℤ y (pos 0)) (overflows x y) (rem x y) nonzero (overflow_rests x y)

-- The remainder of two numeric operands, the divisor not 0 as a whole number, is there, and is that of
-- a division that truncates: it is smaller than the divisor, and lies between 0 and the dividend.
pub php_mod-IsRemainder :
    {fl : Floats} (l r a b : Value fl)
    → arithmetic_operand l ≡ ok a
    → arithmetic_operand r ≡ ok b
    → eq_ℤ (to_int b) (pos 0) ≡ false
    → (m : ℤ) × (php_mod l r ≡ ok (int m)) × IsRemainder (to_int a) (to_int b) m
unfolding php_mod
php_mod-IsRemainder l r a b hl hr nonzero = (
  rem (to_int a) (to_int b),
  rw (hl, hr) (mod_ints-rem (to_int a) (to_int b) nonzero),
  rem-IsRemainder (to_int a) (to_int b) nonzero,
)

exact_test :
    {fl : Floats} (exact : Bool) (q n : ℤ) (f : fl.F)
    → (ok (if exact then whole_value fl q else float f) ≡ ok (int n)) ↔ ((exact ≡ true) × (q ≡ n))
exact_test true q n f = (λ h. (refl, cc), λ h. ap (λ k. ok (int k)) h.1)
exact_test false q n f = (λ h. cc, λ h. cc)

-- The tests of `php_div` on whole numbers, and what comes of them.
div_tests :
    {fl : Floats} (stop special : Bool) (m q n : ℤ) (f : fl.F)
    → stop ≡ false
    → ((if stop
          then bail division_by_zero
          else ((if special then panic else ok m) >>= λ k.
              ok (if eq_ℤ k (pos 0) then whole_value fl q else float f)))
        ≡ ok (int n))
      ↔ ((special ≡ false) × (eq_ℤ m (pos 0) ≡ true) × (q ≡ n))
div_tests true special m q n f h = cc
div_tests false true m q n f h = (λ k. cc, λ k. cc)
div_tests false false m q n f h =
    let (forth, back) = exact_test (eq_ℤ m (pos 0)) q n f in
    (λ k. let (e, same) = forth k in (refl, e, same), λ k. back (k.1, k.2))

-- The quotient is exact where nothing remains.
exact-times : (x y n : ℤ) → (eq_ℤ (rem x y) (pos 0) ≡ true) × (quot x y ≡ n) → n *ℤ y ≡ x
exact-times x y n h =
    let none_left = eq_ℤ_sound (rem x y) (pos 0) h.0 in
    ap (λ q. q *ℤ y) (sym h.1)
    ∙ sym (+ℤ_zero (quot x y *ℤ y))
    ∙ ap (λ m. quot x y *ℤ y +ℤ m) (sym none_left)
    ∙ quot-rem x y

times-exact :
    (x y n : ℤ)
    → eq_ℤ y (pos 0) ≡ false
    → n *ℤ y ≡ x
    → (eq_ℤ (rem x y) (pos 0) ≡ true) × (quot x y ≡ n)
times-exact x y n nonzero e =
    let none_left : rem x y ≡ pos 0 = ap (λ k. rem k y) (sym e) ∙ rem-times n y in
    (
      ap (λ m. eq_ℤ m (pos 0)) none_left,
      times_cancel (quot x y) n y nonzero (
          sym (+ℤ_zero (quot x y *ℤ y))
          ∙ ap (λ m. quot x y *ℤ y +ℤ m) (sym none_left)
          ∙ quot-rem x y
          ∙ sym e),
    )

-- The negation of an `i64` is not the least one.
not_least : (n : ℤ) → in_i64 n ≡ true → ¬ (n *ℤ negsuc 0 ≡ i64_min)
unfolding ◌*ℤ◌
not_least n range e = let m = ap neg_part e in ground arith

overflow_range : (x y n : ℤ) → in_i64 n ≡ true → n *ℤ y ≡ x → overflows x y ≡ false
overflow_range x y n range e = elim (Bool-cases (overflows x y)) [
  | inl h ↦
      let least = eq_ℤ_sound x i64_min (and_left (eq_ℤ x i64_min) (eq_ℤ y (negsuc 0)) h) in
      let minus_one = eq_ℤ_sound y (negsuc 0) (and_right (eq_ℤ x i64_min) (eq_ℤ y (negsuc 0)) h) in
      let f : n *ℤ negsuc 0 ≡ i64_min = ap (λ k. n *ℤ k) (sym minus_one) ∙ e ∙ least in
      absurd (not_least n range f)
  | inr h ↦ h
]

div_numbers_exact :
    {fl : Floats} (x y n : ℤ)
    → eq_ℤ y (pos 0) ≡ false
    → in_i64 n ≡ true
    → (div_numbers {fl = fl} (int x) (int y) ≡ ok (int n)) ↔ (n *ℤ y ≡ x)
unfolding div_numbers
div_numbers_exact {fl} x y n nonzero range =
    let (forth, back) =
      div_tests (eq_ℤ y (pos 0)) (overflows x y) (rem x y) (quot x y) n
        (fl.div (fl.of_int x) (fl.of_int y)) nonzero in
    (
      λ h. let (_, exact, same) = forth h in exact-times x y n (exact, same),
      λ e.
          let (exact, same) = times-exact x y n nonzero e in
          back (overflow_range x y n range e, exact, same),
    )

pub php_div-div_numbers :
    {fl : Floats} (l r a b : Value fl)
    → arithmetic_operand l ≡ ok a
    → arithmetic_operand r ≡ ok b
    → php_div l r ≡ div_numbers a b
unfolding php_div
php_div-div_numbers l r a b hl hr = rw (hl, hr) refl

-- Of two operands that are whole numbers, the divisor not 0, the quotient is the whole number `n` of
-- 64 bits where `n` times the divisor is the dividend, and only there.
pub php_div_exact :
    {fl : Floats} (l r : Value fl) (x y n : ℤ)
    → arithmetic_operand l ≡ ok (int x)
    → arithmetic_operand r ≡ ok (int y)
    → eq_ℤ y (pos 0) ≡ false
    → in_i64 n ≡ true
    → (php_div l r ≡ ok (int n)) ↔ (n *ℤ y ≡ x)
php_div_exact l r x y n hl hr nonzero range =
    subst (λ t. (t ≡ ok (int n)) ↔ (n *ℤ y ≡ x))
      (sym (php_div-div_numbers l r (int x) (int y) hl hr)) (div_numbers_exact x y n nonzero range)
