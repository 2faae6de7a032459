-- ===== src/Reduce/Eval/Hints.antt =====
-- crates/analyzer/src/reduce/eval.rs: the guards against the coercion of a scalar to a declared type. A
-- hint has a constructor for each that the source tells apart, and one for all others.
-- `OwnedScalarHint` is the form that is kept after the syntax tree has gone.
pub mod Owned
use Prim.Native.String.{◌++◌ as str_append}
use phpunit_rust.Prelude.{
  Bool, true, false, not, ◌&&◌, ◌||◌, List, [], ◌∷◌, ◌++◌, Option, none, some, if◌then◌else◌,
  String,
}
use phpunit_rust.Reduce.Floats.{Floats}
use phpunit_rust.Reduce.Value.{Value, null, bool, int, float, str, arr, object, closure}
use phpunit_rust.Reduce.Value.Convert.{type_name}
use phpunit_rust.Reduce.Eval.Kinds.{is_null_value, is_str, is_int, is_float, is_bool, is_literal}
use phpunit_rust.Reduce.Eval.{BailReason, unsupported_construct, Result, ok, bail}

pub data Hint : Type 0 where
  string_hint integer_hint float_hint bool_hint true_hint false_hint null_hint mixed_hint
        other_hint :
      Hint
  nullable_hint : Hint → Hint
  union_hint : Hint → Hint → Hint
  intersection_hint : Hint → Hint → Hint
  parenthesized_hint : Hint → Hint

unfoldable pub is_scalar_value : {fl : Floats} → Value fl → Bool
is_scalar_value (arr xs) = false
is_scalar_value (object c ps a) = false
is_scalar_value (closure s ps) = false
is_scalar_value _ = true

unfoldable pub bare_scalar_hint_matches : {fl : Floats} → Hint → Value fl → Option Bool
bare_scalar_hint_matches string_hint v = some (is_str v)
bare_scalar_hint_matches integer_hint v = some (is_int v)
bare_scalar_hint_matches float_hint v = some (is_float v)
bare_scalar_hint_matches bool_hint v = some (is_bool v)
bare_scalar_hint_matches _ v = none

-- `== Some(true)`, `== Some(false)`.
abbrev pub said_yes : Option Bool → Bool
said_yes (some b) = b
said_yes none = false

abbrev pub said_no : Option Bool → Bool
said_no (some b) = not b
said_no none = false

unfoldable pub value_matches_hint_member : {fl : Floats} → Hint → Value fl → Bool
unfolding bare_scalar_hint_matches
value_matches_hint_member string_hint v = said_yes (bare_scalar_hint_matches string_hint v)
value_matches_hint_member integer_hint v = said_yes (bare_scalar_hint_matches integer_hint v)
value_matches_hint_member float_hint v = said_yes (bare_scalar_hint_matches float_hint v)
value_matches_hint_member bool_hint v = said_yes (bare_scalar_hint_matches bool_hint v)
value_matches_hint_member true_hint v = is_literal true v
value_matches_hint_member false_hint v = is_literal false v
value_matches_hint_member null_hint v = is_null_value v
value_matches_hint_member mixed_hint v = true
value_matches_hint_member _ v = false

-- The leaves that `for_each_hint_leaf` visits, in its order.
unfoldable pub hint_leaves : Hint → List Hint
hint_leaves (union_hint l r) = hint_leaves l ++ hint_leaves r
hint_leaves (intersection_hint l r) = hint_leaves l ++ hint_leaves r
hint_leaves (nullable_hint h) = hint_leaves h
hint_leaves (parenthesized_hint h) = hint_leaves h
hint_leaves h = h ∷ []

unfoldable pub scalar_hint_name : Hint → String
scalar_hint_name string_hint = "string"
scalar_hint_name integer_hint = "int"
scalar_hint_name float_hint = "float"
scalar_hint_name bool_hint = "bool"
scalar_hint_name (nullable_hint h) = "nullable scalar"
scalar_hint_name (union_hint l r) = "scalar union"
scalar_hint_name (intersection_hint l r) = "scalar intersection"
scalar_hint_name _ = "scalar"

abbrev pub coercion : {fl : Floats} → String → String → Value fl → BailReason
coercion site name v = unsupported_construct (
    str_append "scalar " (
      str_append site (
        str_append "-type coercion (" (
          str_append name
            (str_append " on a " (str_append (type_name v) " value) not modelled"))))))

abbrev pub any_leaf {ℓ} : {A : Type ℓ} → (A → Bool) → List A → Bool
any_leaf f [] = false
any_leaf f (h ∷ hs) = f h || any_leaf f hs

abbrev pub bail_when : Bool → BailReason → Result (Unit {0})
bail_when true r = bail r
bail_when false r = ok tt

-- A union or an intersection: some scalar member does not match, and no member does.
abbrev pub members_coerce : {fl : Floats} → List Hint → Value fl → Bool
members_coerce hs v =
    any_leaf (λ h. said_no (bare_scalar_hint_matches h v)) hs
    && not (any_leaf (λ h. value_matches_hint_member h v) hs)

abbrev pub composite_guard : {fl : Floats} → Hint → Value fl → String → Result (Unit {0})
composite_guard h v site =
    if not (is_scalar_value v)
    then ok tt
    else bail_when (members_coerce (hint_leaves h) v) (coercion site (scalar_hint_name h) v)

unfoldable pub bail_if_scalar_hint_coerces :
    {fl : Floats} → Hint → Value fl → String → Result (Unit {0})
bail_if_scalar_hint_coerces (nullable_hint h) v site =
    let inner = bail_if_scalar_hint_coerces h v site in if is_null_value v then ok tt else inner
bail_if_scalar_hint_coerces (union_hint l r) v site = composite_guard (union_hint l r) v site
bail_if_scalar_hint_coerces (intersection_hint l r) v site =
    composite_guard (intersection_hint l r) v site
bail_if_scalar_hint_coerces h v site =
    bail_when (said_no (bare_scalar_hint_matches h v)) (coercion site (scalar_hint_name h) v)

-- The hint of a declared return type, where there is one.
unfoldable pub bail_if_scalar_return_coerces :
    {fl : Floats} → Option Hint → Value fl → Result (Unit {0})
unfolding bail_if_scalar_hint_coerces
bail_if_scalar_return_coerces none v = ok tt
bail_if_scalar_return_coerces (some h) v = bail_if_scalar_hint_coerces h v "return"

pub data ScalarLeaf : Type 0 where
  leaf_int leaf_float leaf_bool leaf_str lit_true lit_false lit_null leaf_mixed leaf_other :
      ScalarLeaf

unfoldable pub bare_scalar_matches : {fl : Floats} → ScalarLeaf → Value fl → Option Bool
bare_scalar_matches leaf_str v = some (is_str v)
bare_scalar_matches leaf_int v = some (is_int v)
bare_scalar_matches leaf_float v = some (is_float v)
bare_scalar_matches leaf_bool v = some (is_bool v)
bare_scalar_matches _ v = none

unfoldable pub matches_member : {fl : Floats} → ScalarLeaf → Value fl → Bool
unfolding bare_scalar_matches
matches_member leaf_int v = said_yes (bare_scalar_matches leaf_int v)
matches_member leaf_float v = said_yes (bare_scalar_matches leaf_float v)
matches_member leaf_bool v = said_yes (bare_scalar_matches leaf_bool v)
matches_member leaf_str v = said_yes (bare_scalar_matches leaf_str v)
matches_member lit_true v = is_literal true v
matches_member lit_false v = is_literal false v
matches_member lit_null v = is_null_value v
matches_member leaf_mixed v = true
matches_member leaf_other v = false

unfoldable pub of_hint : Hint → ScalarLeaf
of_hint integer_hint = leaf_int
of_hint float_hint = leaf_float
of_hint bool_hint = leaf_bool
of_hint string_hint = leaf_str
of_hint true_hint = lit_true
of_hint false_hint = lit_false
of_hint null_hint = lit_null
of_hint mixed_hint = leaf_mixed
of_hint _ = leaf_other

pub record OwnedScalarHint : Type 0 where
  pub leaves : List ScalarLeaf
  pub is_nullable : Bool
  pub name : String

abbrev pub is_nullable_hint : Hint → Bool
is_nullable_hint (nullable_hint h) = true
is_nullable_hint _ = false

abbrev pub is_null_hint : Hint → Bool
is_null_hint null_hint = true
is_null_hint _ = false

abbrev pub is_bare : ScalarLeaf → Bool
is_bare leaf_int = true
is_bare leaf_float = true
is_bare leaf_bool = true
is_bare leaf_str = true
is_bare _ = false

abbrev pub leaves_of : List Hint → List ScalarLeaf
leaves_of [] = []
leaves_of (h ∷ hs) = of_hint h ∷ leaves_of hs

unfoldable pub scalar_hint_of : Hint → Option OwnedScalarHint
unfolding hint_leaves of_hint scalar_hint_name
scalar_hint_of h =
    let hs = hint_leaves h in
    if any_leaf is_bare (leaves_of hs)
    then some (record {
      leaves = leaves_of hs;
      is_nullable = is_nullable_hint h || any_leaf is_null_hint hs;
      name = scalar_hint_name h;
    })
    else none

unfoldable pub bail_if_coerces :
    {fl : Floats} → OwnedScalarHint → Value fl → String → Result (Unit {0})
bail_if_coerces o v site =
    if not (is_scalar_value v)
    then ok tt
    else if o.is_nullable && is_null_value v
    then ok tt
    else bail_when
        (any_leaf (λ l. said_no (bare_scalar_matches l v)) o.leaves
          && not (any_leaf (λ l. matches_member l v) o.leaves))
        (coercion site o.name v)

-- The guard at the write of a property, whose hint may have been dropped.
unfoldable pub guard_property :
    {fl : Floats} → Option OwnedScalarHint → Value fl → Result (Unit {0})
unfolding bail_if_coerces
guard_property none v = ok tt
guard_property (some o) v = bail_if_coerces o v "property"
