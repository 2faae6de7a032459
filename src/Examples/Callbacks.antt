-- ===== src/Examples/Callbacks.antt =====
-- Builtins that take a closure, on an evaluator whose expressions are variables.
use phpunit_rust.Prelude.{ℕ, false, ◌≡◌, refl, [], ◌∷◌, Option, none, some}
use phpunit_rust.Int.{pos}
use phpunit_rust.Reduce.Value.{
  Bytes, Value, null, int, str, arr, closure, int_key, str_key, Items, no_items, item, no_props,
  prop_of,
}
use phpunit_rust.Reduce.Value.Convert.{to_bool}
use phpunit_rust.Reduce.Eval.{ok, ◌>>=◌}
use phpunit_rust.Reduce.Eval.Arrays.{array_key_to_value, stored}
use phpunit_rust.Reduce.Eval.Hints.{bail_if_scalar_return_coerces}
use phpunit_rust.Reduce.Eval.Closures.{
  Machine, MachineScope, tick, new_scope, Statement, expression_statement, parenthesized,
  closure_expression, arrow_body, normal, Parameter, find_closure_node, with_parsed_closure,
  bind_params, capture, inner_scope, invoke_parsed_closure,
}
use phpunit_rust.Reduce.Eval.Callbacks.{
  call_callback, callback_of, find_key, call_closure_builtin, call_function,
}
use phpunit_rust.Reduce.Eval.Callbacks.Searched.{
  search_with, with_answer, non_null, read_at, array_find-array_find_key,
}
use phpunit_rust.Examples.Values.{whole}

abbrev or_null : Option (Value whole) → Value whole
or_null (some v) = v
or_null none = null

abbrev parameter : ℕ → Parameter Bytes
parameter x = record {
  ellipsis = false;
  ampersand = false;
  variable = x ∷ [];
  default_value = none;
  hint = none;
}

-- `fn($v, $k) => $v`.
abbrev first_argument : Statement Bytes (Unit {0})
first_argument = expression_statement (
    parenthesized (
      closure_expression (record {
        parameter_list = parameter 118 ∷ parameter 107 ∷ [];
        return_type_hint = none;
        body = arrow_body (118 ∷ []);
      })))

abbrev machine : Machine whole
machine = record {
  Expr = Bytes;
  Stmts = Unit {0};
  Resolver = Unit {0};
  Names = Unit {0};
  parse_file = λ text. first_argument ∷ [];
  eval_expr = λ x sc. tick sc >>= λ after. ok (or_null (prop_of x sc.vars), after);
  exec_statements = λ done sc. ok (normal, sc);
  lossy = λ name. "v";
  resolve_function = λ resolver name args. ok none;
}

abbrev fresh : MachineScope machine
fresh = new_scope no_props tt

-- `[5 => 0, "k" => 7]`.
abbrev zero_then_7 : Items whole
zero_then_7 =
    item (int_key (pos 5)) (int (pos 0)) (item (str_key (107 ∷ [])) (int (pos 7)) no_items)

array_find-array_find_key_example :
    (search_with machine "array_any" zero_then_7 [] no_props fresh
      ≡ with_answer non_null (search_with machine "array_find_key" zero_then_7 [] no_props fresh))
    × (search_with machine "array_find" zero_then_7 [] no_props fresh
        ≡ with_answer
            (read_at zero_then_7)
            (search_with machine "array_find_key" zero_then_7 [] no_props fresh))
array_find-array_find_key_example =
    array_find-array_find_key machine zero_then_7 [] no_props fresh (refl, tt, (refl, tt, tt))

abbrev two_steps : MachineScope machine
two_steps = record fresh { steps = 2 }

finds :
    call_function machine "array_find_key" (arr zero_then_7 ∷ closure [] no_props ∷ []) fresh
    ≡ ok (str (107 ∷ []), two_steps)
unfolding call_function call_closure_builtin callback_of call_callback find_key array_key_to_value
    with_parsed_closure find_closure_node invoke_parsed_closure bind_params capture stored
    inner_scope new_scope tick bail_if_scalar_return_coerces to_bool
finds = refl
