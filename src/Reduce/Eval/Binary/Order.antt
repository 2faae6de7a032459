-- ===== src/Reduce/Eval/Binary/Order.antt =====
-- crates/analyzer/src/reduce/eval.rs: the comparison operators of `eval_binary` with their operands turned
-- round.
use phpunit_rust.Prelude.{true, false, not, ◌≡◌, refl, sym, ap, ◌∙◌, Ordering}
use phpunit_rust.Int.{ℤ, pos, ◌-ℤ◌}
use phpunit_rust.Reduce.Floats.{Floats}
use phpunit_rust.Reduce.Value.{Value, null, bool, int, float, str, arr, object, closure}
use phpunit_rust.Reduce.Value.Compare.{php_compare, reverse}
use phpunit_rust.Reduce.Value.Compare.Flip.{FloatFlips, is_scalar, php_compare_flip}
use phpunit_rust.Reduce.Eval.{ok}
use phpunit_rust.Reduce.Eval.Guards.{contains_identity_value, bail_if_object_operand}
use phpunit_rust.Reduce.Eval.Binary.{
  less_than, greater_than, less_than_or_equal, greater_than_or_equal, spaceship, is_less,
  is_greater, spaceship_int, ordered, apply_binary,
}

scalar-identity :
    {fl : Floats} (v : Value fl) → is_scalar v ≡ true → contains_identity_value v ≡ false
unfolding contains_identity_value
scalar-identity null h = refl
scalar-identity (bool b) h = refl
scalar-identity (int n) h = refl
scalar-identity (float f) h = refl
scalar-identity (str s) h = refl
scalar-identity (arr xs) h = cc
scalar-identity (object c ps a) h = cc
scalar-identity (closure s ps) h = cc

-- No operand of two scalars is guarded.
ordered-scalars :
    {fl : Floats} (g : Ordering → Value fl) (l r : Value fl)
    → is_scalar l ≡ true
    → is_scalar r ≡ true
    → ordered g l r ≡ ok (g (php_compare l r))
unfolding bail_if_object_operand
ordered-scalars g l r h k = rw (scalar-identity l h, scalar-identity r k) refl

less-reverse : (o : Ordering) → is_less (reverse o) ≡ is_greater o
less-reverse Ordering.lt = refl
less-reverse Ordering.eq = refl
less-reverse Ordering.gt = refl

greater-reverse : (o : Ordering) → is_greater (reverse o) ≡ is_less o
greater-reverse Ordering.lt = refl
greater-reverse Ordering.eq = refl
greater-reverse Ordering.gt = refl

spaceship-reverse : (o : Ordering) → spaceship_int (reverse o) ≡ pos 0 -ℤ spaceship_int o
unfolding ◌-ℤ◌
spaceship-reverse Ordering.lt = refl
spaceship-reverse Ordering.eq = refl
spaceship-reverse Ordering.gt = refl

-- Two comparisons whose verdicts on an ordering and on its reverse agree.
turned :
    {fl : Floats} (flips : FloatFlips fl) (f g : Ordering → Value fl) (l r : Value fl)
    → is_scalar l ≡ true
    → is_scalar r ≡ true
    → ((o : Ordering) → f (reverse o) ≡ g o)
    → ordered f r l ≡ ordered g l r
turned {fl} flips f g l r h k agree =
    ordered-scalars f r l k h
    ∙ ap (λ o. ok (f o)) (php_compare_flip fl flips l r h k)
    ∙ ap ok (agree (php_compare l r))
    ∙ sym (ordered-scalars g l r h k)

-- Between scalars, `$a < $b` is `$b > $a`, `$a <= $b` is `$b >= $a`, and `$a <=> $b` is the negation of
-- `$b <=> $a`, where turning floats round reverses their order.
pub apply_binary_turned :
    {fl : Floats} (flips : FloatFlips fl) (l r : Value fl)
    → is_scalar l ≡ true
    → is_scalar r ≡ true
    → (apply_binary less_than r l ≡ apply_binary greater_than l r)
      × (apply_binary less_than_or_equal r l ≡ apply_binary greater_than_or_equal l r)
      × ((n : ℤ) × (apply_binary spaceship l r ≡ ok (int n))
          × (apply_binary spaceship r l ≡ ok (int (pos 0 -ℤ n))))
unfolding apply_binary
apply_binary_turned {fl} flips l r h k = (
  turned flips (λ o. bool (is_less o)) (λ o. bool (is_greater o)) l r h k
      (λ o. ap bool (less-reverse o)),
  turned flips (λ o. bool (not (is_greater o))) (λ o. bool (not (is_less o))) l r h k
      (λ o. ap (λ b. bool (not b)) (greater-reverse o)),
  (
    spaceship_int (php_compare l r),
    ordered-scalars (λ o. int (spaceship_int o)) l r h k,
    ordered-scalars (λ o. int (spaceship_int o)) r l k h
        ∙ ap (λ o. ok (int (spaceship_int o))) (php_compare_flip fl flips l r h k)
        ∙ ap (λ n. ok (int n)) (spaceship-reverse (php_compare l r)),
  ),
)
