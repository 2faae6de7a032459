-- ===== src/Reduce/Eval/Guards.antt =====
-- crates/analyzer/src/reduce/eval.rs: which pairs of values the comparisons do not model, and the
-- guards that abstain on them.
pub mod Reference
pub mod Scalars
pub mod Loose
pub mod Chain
pub mod Strict
use phpunit_rust.Prelude.{
  ℕ, Bool, true, false, not, ◌&&◌, ◌||◌, Option, none, some, if◌then◌else◌, nat_eq,
}
use phpunit_rust.Reduce.Floats.{Floats}
use phpunit_rust.Reduce.Value.{
  bytes_eq, Value, null, bool, int, float, str, arr, object, closure, Items, no_items, item, Props,
  no_props, prop, count_items, count_props, item_of, prop_of,
}
use phpunit_rust.Reduce.Value.Compare.{php_loose_eq}
use phpunit_rust.Reduce.Eval.{BailReason, unsupported_construct, Result, ok, bail}

unfoldable mutual
  pub contains_identity_value : {fl : Floats} → Value fl → Bool
  contains_identity_value (object c ps a) = true
  contains_identity_value (closure s ps) = true
  contains_identity_value (arr xs) = identity_in_items xs
  contains_identity_value _ = false

  pub identity_in_items : {fl : Floats} → Items fl → Bool
  identity_in_items no_items = false
  identity_in_items (item k v xs) = contains_identity_value v || identity_in_items xs

unfoldable mutual
  pub contains_closure : {fl : Floats} → Value fl → Bool
  contains_closure (closure s ps) = true
  contains_closure (arr xs) = closure_in_items xs
  contains_closure (object c ps a) = closure_in_props ps
  contains_closure _ = false

  pub closure_in_items : {fl : Floats} → Items fl → Bool
  closure_in_items no_items = false
  closure_in_items (item k v xs) = contains_closure v || closure_in_items xs

  pub closure_in_props : {fl : Floats} → Props fl → Bool
  closure_in_props no_props = false
  closure_in_props (prop k v ps) = contains_closure v || closure_in_props ps

abbrev pub guard : Bool → BailReason → Result (Unit {0})
guard true r = bail r
guard false r = ok tt

abbrev identity_operand : BailReason
identity_operand =
    unsupported_construct
      "=== / assertSame on (an aggregate holding) an object (reference identity, no heap model)"

unfoldable pub bail_if_object_operand : {fl : Floats} → Value fl → Value fl → Result (Unit {0})
bail_if_object_operand a b =
    guard (contains_identity_value a || contains_identity_value b) identity_operand

-- Whether two aggregates of these sizes are compared element by element.
abbrev pub same_shape : {fl : Floats} → Value fl → Value fl → Bool
same_shape (object c ps a) (object d qs b) =
    bytes_eq c d && nat_eq (count_props ps) (count_props qs)
same_shape (arr x) (arr y) = nat_eq (count_items x) (count_items y)
same_shape _ _ = false

unfoldable mutual
  unfolding contains_closure contains_identity_value

  pub loose_eq_pair_unmodelled : {fl : Floats} → Value fl → Value fl → Bool
  loose_eq_pair_unmodelled (closure s ps) w = true
  loose_eq_pair_unmodelled v (closure s ps) = true
  loose_eq_pair_unmodelled (object c ps a) (object d qs b) =
      if same_shape (object c ps a) (object d qs b)
      then unmodelled_props ps qs
      else closure_in_props ps || closure_in_props qs
  loose_eq_pair_unmodelled (arr x) (arr y) =
      if same_shape (arr x) (arr y)
      then unmodelled_items x y
      else closure_in_items x || closure_in_items y
  loose_eq_pair_unmodelled (object c ps a) w = true
  loose_eq_pair_unmodelled v (object d qs b) = true
  loose_eq_pair_unmodelled (arr x) w = identity_in_items x || contains_identity_value w
  loose_eq_pair_unmodelled v (arr y) = contains_identity_value v || identity_in_items y
  loose_eq_pair_unmodelled v w = false

  pub unmodelled_items : {fl : Floats} → Items fl → Items fl → Bool
  unmodelled_items no_items y = false
  unmodelled_items (item k v xs) y =
      (elim (item_of k y) [ none ↦ contains_closure v | some w ↦ loose_eq_pair_unmodelled v w ])
      || unmodelled_items xs y

  pub unmodelled_props : {fl : Floats} → Props fl → Props fl → Bool
  unmodelled_props no_props y = false
  unmodelled_props (prop k v ps) y =
      (elim (prop_of k y) [ none ↦ contains_closure v | some w ↦ loose_eq_pair_unmodelled v w ])
      || unmodelled_props ps y

unfoldable pub bail_if_object_mixed_loose : {fl : Floats} → Value fl → Value fl → Result (Unit {0})
bail_if_object_mixed_loose a b = guard (loose_eq_pair_unmodelled a b) (
    unsupported_construct
      "loose == between object and non-object (PHP converts) or on a closure (reference identity) — not modelled")

unfoldable mutual
  pub comparator_eq_divergent : {fl : Floats} → Value fl → Value fl → Bool
  comparator_eq_divergent {fl} (str x) (str y) =
      not (bytes_eq x y) && php_loose_eq {fl = fl} (str x) (str y)
  comparator_eq_divergent (arr x) (arr y) = same_shape (arr x) (arr y) && divergent_items x y
  comparator_eq_divergent (object c ps a) (object d qs b) =
      same_shape (object c ps a) (object d qs b) && divergent_props ps qs
  comparator_eq_divergent (arr x) w = true
  comparator_eq_divergent v (arr y) = true
  comparator_eq_divergent v w = false

  pub divergent_items : {fl : Floats} → Items fl → Items fl → Bool
  divergent_items no_items y = false
  divergent_items (item k v xs) y =
      (elim (item_of k y) [ none ↦ false | some w ↦ comparator_eq_divergent v w ])
      || divergent_items xs y

  pub divergent_props : {fl : Floats} → Props fl → Props fl → Bool
  divergent_props no_props y = false
  divergent_props (prop k v ps) y =
      (elim (prop_of k y) [ none ↦ false | some w ↦ comparator_eq_divergent v w ])
      || divergent_props ps y

unfoldable pub bail_if_comparator_divergent :
    {fl : Floats} → Value fl → Value fl → Result (Unit {0})
bail_if_comparator_divergent a b = guard (comparator_eq_divergent a b) (
    unsupported_construct
      "assertEquals oracle is PHPUnit's comparator chain, which diverges from PHP == on this pair (array vs non-array type-reject, or a numeric-string pair compared as strings)")

unfoldable pub bail_if_identity_in_strict_search :
    {fl : Floats} → Value fl → Items fl → Result (Unit {0})
bail_if_identity_in_strict_search needle hay =
    guard (contains_identity_value needle || identity_in_items hay) (
      unsupported_construct
        "strict in_array/array_search over (an aggregate holding) an object (reference identity, no heap model)")
