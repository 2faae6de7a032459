-- ===== src/Reduce/Eval/Assertions.antt =====
-- crates/analyzer/src/reduce/eval.rs: `run_assertion`. The names that it knows are a data type.
pub mod Verdict
pub mod Judged
use phpunit_rust.Prelude.{
  ℕ, Bool, true, false, not, ◌&&◌, List, [], ◌∷◌, Option, none, some, if◌then◌else◌, String, ◌==◌,
}
use phpunit_rust.Int.{ℤ, pos, eq_ℤ}
use phpunit_rust.Reduce.Floats.{Floats}
use phpunit_rust.Reduce.Value.{
  Value, null, bool, int, float, str, arr, object, closure, count_items,
}
use phpunit_rust.Reduce.Value.Compare.{assert_same, assert_equals}
use phpunit_rust.Reduce.Eval.{
  BailReason, unsupported_construct, unknown_call, type_error, float_delta, Outcome, pass, fail,
  Result, ok, bail, ◌>>=◌, ◌>>◌,
}
use phpunit_rust.Reduce.Eval.Kinds.{is_null_value, is_literal, is_array_value}
use phpunit_rust.Reduce.Eval.Guards.{
  bail_if_object_operand, bail_if_object_mixed_loose, bail_if_comparator_divergent,
}

pub data Assertion : Type 0 where
  same not_same equals not_equals is_true is_false is_null is_not_null counted not_counted
        is_array :
      Assertion

unfoldable pub assertion_of : String → Option Assertion
assertion_of s =
    if s == "assertSame"
    then some same
    else if s == "assertEquals"
    then some equals
    else if s == "assertNotSame"
    then some not_same
    else if s == "assertNotEquals"
    then some not_equals
    else if s == "assertTrue"
    then some is_true
    else if s == "assertFalse"
    then some is_false
    else if s == "assertNull"
    then some is_null
    else if s == "assertNotNull"
    then some is_not_null
    else if s == "assertCount"
    then some counted
    else if s == "assertNotCount"
    then some not_counted
    else if s == "assertIsArray"
    then some is_array
    else none

abbrev pub is_known : Option Assertion → Bool
is_known none = false
is_known (some a) = true

unfoldable pub is_assertion_name : String → Bool
unfolding assertion_of
is_assertion_name s = is_known (assertion_of s)

unfoldable pub two_args : {fl : Floats} → List (Value fl) → Result (Value fl × Value fl)
two_args (e ∷ a ∷ []) = ok (e, a)
two_args (e ∷ a ∷ str m ∷ []) = ok (e, a)
two_args (e ∷ a ∷ d ∷ rest) = bail float_delta
two_args _ = bail (type_error "assertion expects 2 arguments")

unfoldable pub one_arg : {fl : Floats} → List (Value fl) → Result (Value fl)
one_arg (a ∷ []) = ok a
one_arg (a ∷ str m ∷ []) = ok a
one_arg _ = bail (type_error "assertion expects 1 argument")

unfoldable pub count_matches : {fl : Floats} → Value fl → Value fl → Result Bool
count_matches (int n) (arr xs) = ok (eq_ℤ (pos (count_items xs)) n)
count_matches e (arr xs) = bail (type_error "assertCount expected count is not an int")
count_matches e h =
    bail (unsupported_construct "assertCount over a non-array (Countable/iterator) haystack")

-- The closure `pass` of the source.
abbrev pub outcome : Bool → String → Outcome
outcome true desc = pass
outcome false desc = fail desc

unfoldable pub run_known : {fl : Floats} → Assertion → List (Value fl) → Result Outcome
run_known same args = do
  (e, a) ← two_args args
  bail_if_object_operand e a
  ok (outcome (assert_same e a) "assertSame")
run_known not_same args = do
  (e, a) ← two_args args
  bail_if_object_operand e a
  ok (outcome (not (assert_same e a)) "assertNotSame")
run_known equals args = do
  (e, a) ← two_args args
  bail_if_object_mixed_loose e a
  bail_if_comparator_divergent e a
  ok (outcome (assert_equals e a) "assertEquals")
run_known not_equals args = do
  (e, a) ← two_args args
  bail_if_object_mixed_loose e a
  bail_if_comparator_divergent e a
  ok (outcome (not (assert_equals e a)) "assertNotEquals")
run_known is_true args = do a ← one_arg args; ok (outcome (is_literal true a) "assertTrue")
run_known is_false args = do a ← one_arg args; ok (outcome (is_literal false a) "assertFalse")
run_known is_null args = do a ← one_arg args; ok (outcome (is_null_value a) "assertNull")
run_known is_not_null args = do
  a ← one_arg args
  ok (outcome (not (is_null_value a)) "assertNotNull")
run_known counted args = do
  (e, h) ← two_args args
  b ← count_matches e h
  ok (outcome b "assertCount")
run_known not_counted args = do
  (e, h) ← two_args args
  b ← count_matches e h
  ok (outcome (not b) "assertNotCount")
run_known is_array args = do a ← one_arg args; ok (outcome (is_array_value a) "assertIsArray")

unfoldable pub run_assertion : {fl : Floats} → String → List (Value fl) → Result Outcome
run_assertion name args = elim (assertion_of name) [
  | none ↦ bail (unknown_call name)
  | some a ↦ run_known a args
]
