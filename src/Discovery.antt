-- ===== src/Discovery.antt =====
-- crates/discovery/src/lib.rs: the test cases that discovery emits, and `group_by_class`, which
-- gathers them into classes. How the cases are parsed is not modelled.
pub mod Grouped
use phpunit_rust.Prelude.{
  String, Bool, ◌&&◌, ◌||◌, Option, List, [], ◌∷◌, ◌++◌, ◌==◌, if◌then◌else◌,
}

pub record TestCase : Type 0 where
  pub file : String
  pub class : String
  pub method : String
  pub data_provider : Option String
  pub groups : List String
  pub external_providers : List (String × String)
  pub is_tautological : Bool
  pub has_lifecycle_overrides : Bool
  pub depends_on : List String
  pub is_dispatch_safe : Bool
  pub fingerprint : List String
  pub is_stateful : Bool
  pub is_isolated : Bool
  pub needs_db : Bool
  pub is_functional : Bool

pub record GroupedMethod : Type 0 where
  pub name : String
  pub data_provider : Option String
  pub groups : List String
  pub external_providers : List (String × String)
  pub is_tautological : Bool
  pub depends_on : List String
  pub is_dispatch_safe : Bool
  pub fingerprint : List String

pub record TestClass : Type 0 where
  pub file : String
  pub class : String
  pub methods : List GroupedMethod
  pub has_lifecycle_overrides : Bool
  pub is_stateful : Bool
  pub is_isolated : Bool
  pub needs_db : Bool

unfoldable pub method_of : TestCase → GroupedMethod
method_of case = record {
  name = case.method;
  data_provider = case.data_provider;
  groups = case.groups;
  external_providers = case.external_providers;
  is_tautological = case.is_tautological;
  depends_on = case.depends_on;
  is_dispatch_safe = case.is_dispatch_safe;
  fingerprint = case.fingerprint;
}

-- The case joins the first group of its class and file, or founds one at the end.
unfoldable pub add_case : TestCase → List TestClass → List TestClass
add_case case [] =
    record {
      file = case.file;
      class = case.class;
      methods = method_of case ∷ [];
      has_lifecycle_overrides = case.has_lifecycle_overrides;
      is_stateful = case.is_stateful;
      is_isolated = case.is_isolated;
      needs_db = case.needs_db;
    }
    ∷ []
add_case case (g ∷ gs) =
    if g.class == case.class && g.file == case.file
    then record g {
      methods = g.methods ++ method_of case ∷ [];
      is_stateful = g.is_stateful || case.is_stateful;
      is_isolated = g.is_isolated || case.is_isolated;
      needs_db = g.needs_db || case.needs_db;
    }
      ∷ gs
    else g ∷ add_case case gs

unfoldable pub add_cases : List TestCase → List TestClass → List TestClass
add_cases [] groups = groups
add_cases (case ∷ cases) groups = add_cases cases (add_case case groups)

unfoldable pub group_by_class : List TestCase → List TestClass
group_by_class cases = add_cases cases []
