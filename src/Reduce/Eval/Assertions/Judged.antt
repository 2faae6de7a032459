-- ===== src/Reduce/Eval/Assertions/Judged.antt =====
-- crates/analyzer/src/reduce/eval.rs: the outcomes of `run_assertion` beside the verdict on its arguments.
use phpunit_rust.Prelude.{Bool}
use phpunit_rust.Reduce.Floats.{Floats}
use phpunit_rust.Reduce.Value.{Value}
use phpunit_rust.Reduce.Value.Compare.{assert_same, assert_equals}
use phpunit_rust.Reduce.Eval.{Result, ok, ◌>>=◌}
use phpunit_rust.Reduce.Eval.Guards.{
  bail_if_object_operand, bail_if_object_mixed_loose, bail_if_comparator_divergent,
}
use phpunit_rust.Reduce.Eval.Guards.Reference.{Oracle}

module _ {fl : Floats} (ask : Oracle fl) where
  -- The value that is compared, behind its guards.
  strict_test : (Bool → Bool) → Value fl → Value fl → Result Bool
  strict_test g e a = bail_if_object_operand e a >>= λ _. ok (g (assert_same e a))

  loose_test : (Bool → Bool) → Value fl → Value fl → Result Bool
  loose_test g e a = bail_if_object_mixed_loose e a >>= λ _.
      bail_if_comparator_divergent e a >>= λ _. ok (g (assert_equals e a))
