-- ===== src/Reduce/Eval/Guards/Strict.antt =====
-- crates/analyzer/src/reduce/eval.rs: `===` past its guard, beside the comparison without it.
use phpunit_rust.Prelude.{false, ◌&&◌, ◌≡◌, refl, sym, ap, ap₂, nat_eq, from_false, or_none}
use phpunit_rust.Reduce.Floats.{Floats}
use phpunit_rust.Reduce.Value.{
  key_eq, Value, arr, object, closure, Items, no_items, item, count_items,
}
use phpunit_rust.Reduce.Value.Compare.{php_strict_eq, strict_items}
use phpunit_rust.Reduce.Eval.Guards.{contains_identity_value, identity_in_items}
use phpunit_rust.Reduce.Eval.Guards.Reference.{Oracle, php_identical, identical_items}

mutual
  unfolding contains_identity_value php_strict_eq php_identical

  pub strict-identical :
      {fl : Floats} (ask : Oracle fl) (v w : Value fl)
      → contains_identity_value v ≡ false
      → php_strict_eq v w ≡ php_identical ask v w
  strict-identical ask (object c ps a) w h = from_false (sym h)
  strict-identical ask (closure s ps) w h = from_false (sym h)
  strict-identical ask (arr x) (arr y) h =
      ap (λ e. nat_eq (count_items x) (count_items y) && e) (strict_items-identical_items ask x y h)
  strict-identical ask (arr x) _ h = refl
  strict-identical ask _ _ h = refl

  strict_items-identical_items :
      {fl : Floats} (ask : Oracle fl) (x y : Items fl)
      → identity_in_items x ≡ false
      → strict_items x y ≡ identical_items ask x y
  strict_items-identical_items ask no_items y h = refl
  strict_items-identical_items ask (item j v xs) no_items h = refl
  strict_items-identical_items ask (item j v xs) (item k w ys) h =
      let (one, more) = or_none (contains_identity_value v) (identity_in_items xs) h in
      ap₂ (λ e f. key_eq j k && (e && f)) (strict-identical ask v w one)
        (strict_items-identical_items ask xs ys more)
