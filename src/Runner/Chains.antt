-- ===== src/Runner/Chains.antt =====
-- crates/runner/src/runner.rs: `dependency_chains`, a union-find over the methods of a class. The
-- `while` loop of `find` takes fuel, one more than the declared dependencies. The groups are in the
-- order of their first methods, where the source takes a hash map's order.
pub mod Forest
pub mod Gathered
pub mod Linked
pub mod Merged
pub mod Split
use phpunit_rust.Prelude.{
  ℕ, zero, suc, ◌+◌, String, Bool, true, false, Option, none, some, List, [], ◌∷◌, ◌++◌, ◌==◌,
  if◌then◌else◌, nat_eq, length, set, map,
}
use phpunit_rust.Discovery.{GroupedMethod}

abbrev pub parent_of : List ℕ → ℕ → ℕ
parent_of [] x = x
parent_of (p ∷ ps) zero = p
parent_of (p ∷ ps) (suc x) = parent_of ps x

-- Path halving: `parent[x] = parent[parent[x]]; x = parent[x];`
unfoldable pub find : ℕ → List ℕ → ℕ → List ℕ × ℕ
find zero ps x = (ps, x)
find (suc fuel) ps x = elim (nat_eq (parent_of ps x) x) [
  | true ↦ (ps, x)
  | false ↦ let up = parent_of ps (parent_of ps x) in find fuel (set ps x up) up
]

-- `(0..n).collect()`, from `i` on.
abbrev pub count_up : ℕ → List GroupedMethod → List ℕ
count_up i [] = []
count_up i (m ∷ ms) = i ∷ count_up (i + 1) ms

-- `name_to_idx.get(name)`: of methods with one name the last is found.
abbrev pub index_or : Option ℕ → ℕ → Bool → Option ℕ
index_or (some j) i here = some j
index_or none i true = some i
index_or none i false = none

unfoldable pub name_to_idx : String → ℕ → List GroupedMethod → Option ℕ
name_to_idx name i [] = none
name_to_idx name i (m ∷ ms) = index_or (name_to_idx name (i + 1) ms) i (m.name == name)

unfoldable pub union : ℕ → ℕ → ℕ → List ℕ → List ℕ
union fuel i j ps =
    let (ps', ri) = find fuel ps i in
    let (ps'', rj) = find fuel ps' j in if nat_eq ri rj then ps'' else set ps'' ri rj

unfoldable pub link : ℕ → ℕ → Option ℕ → List ℕ → List ℕ
link fuel i none ps = ps
link fuel i (some j) ps = union fuel i j ps

unfoldable pub link_deps : ℕ → List GroupedMethod → ℕ → List String → List ℕ → List ℕ
link_deps fuel all i [] ps = ps
link_deps fuel all i (dep ∷ deps) ps =
    link_deps fuel all i deps (link fuel i (name_to_idx dep 0 all) ps)

unfoldable pub link_methods : ℕ → List GroupedMethod → ℕ → List GroupedMethod → List ℕ → List ℕ
link_methods fuel all i [] ps = ps
link_methods fuel all i (m ∷ ms) ps =
    link_methods fuel all (i + 1) ms (link_deps fuel all i m.depends_on ps)

abbrev pub edges : List GroupedMethod → ℕ
edges [] = 0
edges (m ∷ ms) = length m.depends_on + edges ms

abbrev pub Group : Type 0
Group = ℕ × List GroupedMethod

-- `groups.entry(root).or_default().push(m)`
unfoldable pub group_push : ℕ → GroupedMethod → List Group → List Group
group_push root m [] = (root, m ∷ []) ∷ []
group_push root m ((r, ms) ∷ gs) =
    if nat_eq r root then (r, ms ++ m ∷ []) ∷ gs else (r, ms) ∷ group_push root m gs

unfoldable pub collect_groups : ℕ → ℕ → List GroupedMethod → List ℕ → List Group → List Group
collect_groups fuel i [] ps gs = gs
collect_groups fuel i (m ∷ ms) ps gs =
    let (ps', root) = find fuel ps i in collect_groups fuel (i + 1) ms ps' (group_push root m gs)

abbrev pub group_methods : List Group → List (List GroupedMethod)
group_methods [] = []
group_methods ((r, ms) ∷ gs) = ms ∷ group_methods gs

unfoldable pub dependency_chains : List GroupedMethod → List (List GroupedMethod)
dependency_chains methods =
    let fuel = edges methods + 1 in
    let parent = link_methods fuel methods 0 methods (count_up 0 methods) in
    group_methods (collect_groups fuel 0 methods parent [])
