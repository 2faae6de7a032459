-- ===== src/Typing/Narrowed.antt =====
-- crates/analyzer/src/types/env.rs: what an environment knows of a variable once a branch's facts hold.
use phpunit_rust.Prelude.{
  String, ◌≡◌, refl, ap, ◌∙◌, [], ◌∷◌, ◌==◌, if◌then◌else◌, Bool-cases, inl, inr,
}
use phpunit_rust.Typing.{PhpType, TypeEnv, set_type, lookup, NarrowingSet, extend, apply_narrowing}

-- The last fact of a variable, or what was known before.
abbrev pub last_fact : String → PhpType → NarrowingSet → PhpType
last_fact x before [] = before
last_fact x before (n ∷ ns) = last_fact x (if n.var == x then n.ty else before) ns

lookup-set_type :
    (env : TypeEnv) (var x : String) (ty : PhpType)
    → lookup (set_type env var ty) x ≡ (if var == x then ty else lookup env x)
unfolding lookup set_type
lookup-set_type env var x ty = elim (Bool-cases (var == x)) [
  | inl same ↦ rw same refl
  | inr other ↦ rw other refl
]

-- In a branch, a variable has the type of its last fact, and the others keep theirs.
lookup-apply_narrowing :
    (env : TypeEnv) (facts : NarrowingSet) (x : String)
    → lookup (apply_narrowing env facts) x ≡ last_fact x (lookup env x) facts
unfolding apply_narrowing
lookup-apply_narrowing env [] x = refl
lookup-apply_narrowing env (n ∷ ns) x =
    lookup-apply_narrowing (set_type env n.var n.ty) ns x
    ∙ ap (λ t. last_fact x t ns) (lookup-set_type env n.var x n.ty)

-- The facts of a conjunction apply one side after the other.
apply_narrowing-extend :
    (env : TypeEnv) (facts later : NarrowingSet)
    → apply_narrowing env (extend facts later) ≡ apply_narrowing (apply_narrowing env facts) later
unfolding apply_narrowing
apply_narrowing-extend env [] later = refl
apply_narrowing-extend env (n ∷ ns) later =
    apply_narrowing-extend (set_type env n.var n.ty) ns later
