-- ===== src/Typing.antt =====
-- crates/analyzer/src/types/type_repr.rs, env.rs and narrowing.rs: the types that the tracker infers, the
-- environment of the variables, and the facts that a condition adds in its branch.
pub mod Narrowed
use phpunit_rust.Prelude.{
  String, Bool, true, false, Option, none, some, List, [], ◌∷◌, ◌++◌, ◌==◌, if◌then◌else◌,
}

-- `Type` of the source.
pub data PhpType : Type 0 where
  class_type interface_type mock_type : String → PhpType
  nullable_type : PhpType → PhpType
  union_type : PhpType → PhpType → PhpType
  this_type : PhpType
  self_ref static_ref : String → PhpType
  mixed_type : PhpType

unfoldable pub is_opaque : PhpType → Bool
is_opaque mixed_type = true
is_opaque (interface_type s) = true
is_opaque (mock_type s) = true
is_opaque _ = false

unfoldable pub non_nullable : PhpType → PhpType
non_nullable (nullable_type inner) = inner
non_nullable other_type = other_type

unfoldable pub concrete_class_fqcn : PhpType → Option String
concrete_class_fqcn (class_type c) = some c
concrete_class_fqcn (self_ref c) = some c
concrete_class_fqcn (static_ref c) = some c
concrete_class_fqcn _ = none

-- The bindings are a function of the name. A fork is the environment itself, which nothing changes.
pub record TypeEnv : Type 0 where
  pub bindings : String → Option PhpType
  pub enclosing_class : Option String

abbrev pub new_env : TypeEnv
new_env = record { bindings = λ x. none; enclosing_class = none }

unfoldable pub set_type : TypeEnv → String → PhpType → TypeEnv
set_type env var ty = record env { bindings = λ x. if var == x then some ty else env.bindings x }

unfoldable pub for_class : String → TypeEnv
unfolding set_type
for_class fqcn = set_type (record new_env { enclosing_class = some fqcn }) "$this" this_type

abbrev pub or_mixed : Option PhpType → PhpType
or_mixed (some ty) = ty
or_mixed none = mixed_type

unfoldable pub lookup : TypeEnv → String → PhpType
lookup env var = or_mixed (env.bindings var)

pub record Narrowing : Type 0 where
  pub var : String
  pub ty : PhpType

abbrev pub NarrowingSet : Type 0
NarrowingSet = List Narrowing

abbrev pub push_fact : NarrowingSet → String → PhpType → NarrowingSet
push_fact facts x t = facts ++ record { var = x; ty = t } ∷ []

abbrev pub extend : NarrowingSet → NarrowingSet → NarrowingSet
extend facts other_facts = facts ++ other_facts

unfoldable pub apply_narrowing : TypeEnv → NarrowingSet → TypeEnv
unfolding set_type
apply_narrowing env [] = env
apply_narrowing env (n ∷ ns) = apply_narrowing (set_type env n.var n.ty) ns
