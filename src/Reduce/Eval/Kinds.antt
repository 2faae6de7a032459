-- ===== src/Reduce/Eval/Kinds.antt =====
-- crates/analyzer/src/reduce/eval.rs: the tests `matches!(v, Value::…)` of the evaluator.
use phpunit_rust.Prelude.{Bool, true, false, not}
use phpunit_rust.Reduce.Floats.{Floats}
use phpunit_rust.Reduce.Value.{Value, null, bool, int, float, str, arr}

abbrev pub is_null_value : {fl : Floats} → Value fl → Bool
is_null_value null = true
is_null_value _ = false

abbrev pub is_str : {fl : Floats} → Value fl → Bool
is_str (str s) = true
is_str _ = false

abbrev pub is_int : {fl : Floats} → Value fl → Bool
is_int (int n) = true
is_int _ = false

abbrev pub is_float : {fl : Floats} → Value fl → Bool
is_float (float f) = true
is_float _ = false

abbrev pub is_bool : {fl : Floats} → Value fl → Bool
is_bool (bool b) = true
is_bool _ = false

-- `matches!(value, Value::Bool(c))`.
abbrev pub is_literal : {fl : Floats} → Bool → Value fl → Bool
is_literal true (bool b) = b
is_literal false (bool b) = not b
is_literal c _ = false

abbrev pub is_array_value : {fl : Floats} → Value fl → Bool
is_array_value (arr xs) = true
is_array_value _ = false
