-- ===== src/Reduce/Eval/Closures.antt =====
-- crates/analyzer/src/reduce/eval.rs: the scope of a body, and the invocation of a closure from its
-- source. The syntax tree and what reads it are parameters: the parser, and the evaluators of an
-- expression and of statements. A result holds the scope as the call leaves it; a bail holds none.
use Prim.Native.String.{◌++◌ as str_append}
use phpunit_rust.Prelude.{
  ℕ, suc, Bool, false, List, [], ◌∷◌, ◌++◌, Option, none, some, if◌then◌else◌, String, ltb, length,
}
use phpunit_rust.Reduce.Floats.{Floats}
use phpunit_rust.Reduce.Value.{Bytes, Value, null, Props, no_props, prop}
use phpunit_rust.Reduce.Eval.{
  unsupported_construct, unbound_variable, step_budget, other, Outcome, Result, ok, bail, ◌>>=◌,
  ◌>>◌,
}
use phpunit_rust.Reduce.Eval.Binary.{insert_var}
use phpunit_rust.Reduce.Eval.Hints.{
  Hint, OwnedScalarHint, bail_when, bail_if_scalar_hint_coerces, bail_if_scalar_return_coerces,
}
use phpunit_rust.Reduce.Eval.Arrays.{stored}

-- The resolver of calls and the table of resolved names are of types of their own.
pub record Scope (fl : Floats) (R N : Type 0) : Type 0 where
  pub vars : Props fl
  pub steps : ℕ
  pub max_steps : ℕ
  pub resolver : R
  pub names : Option N
  pub source : Option Bytes
  pub allow_this_write : Bool
  pub prop_hints : List (Bytes × OwnedScalarHint)
  pub readonly_props : List Bytes
  pub current_class : Option Bytes

unfoldable pub new_scope : {fl : Floats} {R N : Type 0} → Props fl → R → Scope fl R N
new_scope vs r = record {
  vars = vs;
  steps = 0;
  max_steps = 10000000;
  resolver = r;
  names = none;
  source = none;
  allow_this_write = false;
  prop_hints = [];
  readonly_props = [];
  current_class = none;
}

abbrev pub with_source : {fl : Floats} {R N : Type 0} → Scope fl R N → Bytes → Scope fl R N
with_source sc src = record sc { source = some src }

unfoldable pub tick : {fl : Floats} {R N : Type 0} → Scope fl R N → Result (Scope fl R N)
tick sc =
    if ltb sc.max_steps (suc sc.steps)
    then bail step_budget
    else ok (record sc { steps = suc sc.steps })

pub data Flow (fl : Floats) : Type 0 where
  normal : Flow fl
  returned : Value fl → Flow fl
  asserted : Outcome → Flow fl

pub record Parameter (E : Type 0) : Type 0 where
  pub ellipsis : Bool
  pub ampersand : Bool
  pub variable : Bytes
  pub default_value : Option E
  pub hint : Option Hint

pub data Body (E S : Type 0) : Type 0 where
  closure_body : S → Body E S
  arrow_body : E → Body E S

pub record ParsedClosureKind (E S : Type 0) : Type 0 where
  pub parameter_list : List (Parameter E)
  pub return_type_hint : Option Hint
  pub body : Body E S

pub data Expression (E S : Type 0) : Type 0 where
  closure_expression : ParsedClosureKind E S → Expression E S
  parenthesized : Expression E S → Expression E S
  other_expression : Expression E S

pub data Statement (E S : Type 0) : Type 0 where
  expression_statement : Expression E S → Statement E S
  other_statement : Statement E S

pub record Machine (fl : Floats) : Type 1 where
  pub Expr : Type 0
  pub Stmts : Type 0
  pub Resolver : Type 0
  pub Names : Type 0
  pub parse_file : Bytes → List (Statement Expr Stmts)
  pub eval_expr : Expr → Scope fl Resolver Names → Result (Value fl × Scope fl Resolver Names)
  pub exec_statements : Stmts → Scope fl Resolver Names → Result (Flow fl × Scope fl Resolver Names)
  -- `String::from_utf8_lossy`.
  pub lossy : Bytes → String
  -- The resolver's answer for a function by its name.
  pub resolve_function : Resolver → String → List (Value fl) → Result (Option (Value fl))

abbrev pub MachineScope : {fl : Floats} → Machine fl → Type 0
MachineScope {fl} m = Scope fl m.Resolver m.Names

-- A value, and the scope after it.
abbrev pub Ran : {fl : Floats} → Machine fl → Type 0
Ran {fl} m = Result (Value fl × MachineScope m)

abbrev pub Kind : {fl : Floats} → Machine fl → Type 0
Kind m = ParsedClosureKind m.Expr m.Stmts

abbrev pub unwrap_expr : {E S : Type 0} → Expression E S → Option (ParsedClosureKind E S)
unwrap_expr (closure_expression c) = some c
unwrap_expr (parenthesized e) = unwrap_expr e
unwrap_expr other_expression = none

abbrev pub or_else {ℓ} : {A : Type ℓ} → Option A → Option A → Option A
or_else (some a) b = some a
or_else none b = b

unfoldable pub find_closure_node :
    {E S : Type 0} → List (Statement E S) → Option (ParsedClosureKind E S)
find_closure_node [] = none
find_closure_node (expression_statement e ∷ ss) = or_else (unwrap_expr e) (find_closure_node ss)
find_closure_node (other_statement ∷ ss) = find_closure_node ss

-- `<?php (` and `);` around the source.
abbrev pub snippet_of : Bytes → Bytes
snippet_of src = 60 ∷ 63 ∷ 112 ∷ 104 ∷ 112 ∷ 32 ∷ 40 ∷ (src ++ 41 ∷ 59 ∷ [])

abbrev pub with_node {ℓ ℓ'} :
    {K : Type ℓ} {A : Type ℓ'} → Option K → Bytes → (K → Bytes → Result A) → Result A
with_node none full f = bail (other "closure source did not re-parse to a closure")
with_node (some kind) full f = f kind full

unfoldable pub with_parsed_closure {ℓ} :
    {fl : Floats} {A : Type ℓ} (m : Machine fl) → Bytes → (Kind m → Bytes → Result A) → Result A
unfolding find_closure_node
with_parsed_closure m src f =
    with_node (find_closure_node (m.parse_file (snippet_of src))) (snippet_of src) f

-- The captured variables, then the parameters over them.
unfoldable pub capture : {fl : Floats} → Props fl → Props fl → Props fl
capture vs no_props = vs
capture vs (prop name v ps) = capture (insert_var name v vs) ps

abbrev pub argument_of :
    {fl : Floats} (m : Machine fl) → Parameter m.Expr → List (Value fl) → MachineScope m → Ran m
argument_of m p (a ∷ args) sc = ok (a, sc)
argument_of m p [] sc = elim p.default_value [
  | some d ↦ m.eval_expr d sc
  | none ↦ bail (unbound_variable (str_append "closure parameter $" (m.lossy p.variable)))
]

abbrev pub rest_of {ℓ} : {A : Type ℓ} → List A → List A
rest_of [] = []
rest_of (x ∷ xs) = xs

abbrev pub hint_guard : {fl : Floats} → Option Hint → Value fl → Result (Unit {0})
hint_guard none v = ok tt
hint_guard (some h) v = bail_if_scalar_hint_coerces h v "closure parameter"

unfoldable pub bind_params :
    {fl : Floats} (m : Machine fl)
    → List (Parameter m.Expr)
    → List (Value fl)
    → Props fl
    → MachineScope m
    → Result (Props fl × MachineScope m)
unfolding stored bail_if_scalar_hint_coerces
bind_params m [] args vs sc = ok (vs, sc)
bind_params m (p ∷ ps) args vs sc = do
  bail_when p.ellipsis (unsupported_construct "variadic closure parameter")
  bail_when p.ampersand (unsupported_construct "by-reference closure parameter")
  (v, after) ← argument_of m p args sc
  hint_guard p.hint v
  bind_params m ps (rest_of args) (insert_var p.variable (stored v) vs) after

abbrev pub value_of_flow : {fl : Floats} {A : Type 0} → Flow fl → A → Result (Value fl × A)
value_of_flow normal after = ok (null, after)
value_of_flow (returned v) after = ok (v, after)
value_of_flow (asserted o) after = bail (unsupported_construct "assertion inside a closure body")

abbrev pub run_body : {fl : Floats} (m : Machine fl) → Body m.Expr m.Stmts → MachineScope m → Ran m
run_body m (closure_body ss) sc =
    m.exec_statements ss sc >>= λ (flow, after). value_of_flow flow after
run_body m (arrow_body e) sc = m.eval_expr e sc

-- The fresh scope of the body: the resolver and the budget of the caller.
unfoldable pub inner_scope :
    {fl : Floats} {R N : Type 0} → Props fl → Bytes → Scope fl R N → Scope fl R N
unfolding new_scope
inner_scope vs snippet sc = record (with_source (new_scope vs sc.resolver) snippet) {
  steps = sc.steps;
  max_steps = sc.max_steps;
}

unfoldable pub invoke_parsed_closure :
    {fl : Floats} (m : Machine fl)
    → Kind m
    → Bytes
    → Props fl
    → List (Value fl)
    → MachineScope m
    → Ran m
unfolding bind_params capture inner_scope bail_if_scalar_return_coerces
invoke_parsed_closure m kind snippet captured args sc = do
  bail_when (ltb (length kind.parameter_list) (length args))
      (other "more arguments than closure parameters (variadic call?)")
  (vs, bound) ← bind_params m kind.parameter_list args (capture no_props captured) sc
  (result, inner) ← run_body m kind.body (inner_scope vs snippet bound)
  bail_if_scalar_return_coerces kind.return_type_hint result
  ok (result, record bound { steps = inner.steps })

unfoldable pub invoke_closure :
    {fl : Floats} (m : Machine fl) → Bytes → Props fl → List (Value fl) → MachineScope m → Ran m
unfolding with_parsed_closure invoke_parsed_closure
invoke_closure m src captured args sc =
    with_parsed_closure m src λ kind snippet. invoke_parsed_closure m kind snippet captured args sc
