-- ===== src/Runner/Components.antt =====
-- crates/runner/src/components.rs: `partition_by_depends`, a union-find over the names of methods. A
-- group carries its root, by which `group_index` finds it. The loop of `find` takes fuel, one more than
-- the declared dependencies.
pub mod Chained
use phpunit_rust.Prelude.{
  ℕ, zero, suc, ◌+◌, String, Bool, true, false, Option, none, some, List, [], ◌∷◌, ◌++◌, ◌==◌,
  if◌then◌else◌, nat_eq, length,
}
use phpunit_rust.Runner.Chains.{find, union, index_or}

-- `depends.get(method)`.
abbrev pub Depends : Type 0
Depends = String → Option (List String)

-- `positions.get(dep)`: of methods with one name the last is found.
unfoldable pub position : String → ℕ → List String → Option ℕ
position name i [] = none
position name i (m ∷ ms) = index_or (position name (i + 1) ms) i (m == name)

-- `(0..n).collect()`, from `i` on.
abbrev pub indices : ℕ → List String → List ℕ
indices i [] = []
indices i (m ∷ ms) = i ∷ indices (i + 1) ms

abbrev pub join : ℕ → ℕ → Option ℕ → List ℕ → List ℕ
join fuel i none parent = parent
join fuel i (some j) parent = union fuel i j parent

unfoldable pub join_deps : ℕ → List String → ℕ → List String → List ℕ → List ℕ
join_deps fuel methods i [] parent = parent
join_deps fuel methods i (dep ∷ deps) parent =
    join_deps fuel methods i deps (join fuel i (position dep 0 methods) parent)

unfoldable pub join_declared : ℕ → List String → ℕ → Option (List String) → List ℕ → List ℕ
unfolding join_deps
join_declared fuel methods i none parent = parent
join_declared fuel methods i (some deps) parent = join_deps fuel methods i deps parent

unfoldable pub join_all : ℕ → Depends → List String → ℕ → List String → List ℕ → List ℕ
unfolding join_declared
join_all fuel depends methods i [] parent = parent
join_all fuel depends methods i (m ∷ ms) parent =
    join_all fuel depends methods (i + 1) ms (join_declared fuel methods i (depends m) parent)

abbrev pub declared : Option (List String) → ℕ
declared none = 0
declared (some deps) = length deps

abbrev pub count_declared : Depends → List String → ℕ
count_declared depends [] = 0
count_declared depends (m ∷ ms) = declared (depends m) + count_declared depends ms

-- The group of a root, or a new one at the end.
unfoldable pub push_method : ℕ → String → List (ℕ × List String) → List (ℕ × List String)
push_method root m [] = (root, m ∷ []) ∷ []
push_method root m ((r, ms) ∷ groups) =
    if nat_eq r root then (r, ms ++ m ∷ []) ∷ groups else (r, ms) ∷ push_method root m groups

unfoldable pub collect :
    ℕ → ℕ → List String → List ℕ → List (ℕ × List String) → List (ℕ × List String)
unfolding push_method
collect fuel i [] parent groups = groups
collect fuel i (m ∷ ms) parent groups =
    let (after, root) = find fuel parent i in
    collect fuel (i + 1) ms after (push_method root m groups)

abbrev pub methods_of : List (ℕ × List String) → List (List String)
methods_of [] = []
methods_of ((r, ms) ∷ groups) = ms ∷ methods_of groups

unfoldable pub partition_by_depends : List String → Depends → List (List String)
unfolding collect join_all
partition_by_depends methods depends =
    let fuel = count_declared depends methods + 1 in
    let parent = join_all fuel depends methods 0 methods (indices 0 methods) in
    methods_of (collect fuel 0 methods parent [])
