-- ===== src/Runner/Chains/Split.antt =====
-- crates/runner/src/runner.rs: how often the chains of `dependency_chains` hold a method.
use phpunit_rust.Prelude.{ℕ, ◌+◌, String, ◌≡◌, List, [], ◌∷◌, arith}
use phpunit_rust.Discovery.{GroupedMethod}
use phpunit_rust.Discovery.Grouped.{count_methods, count_methods-append}
use phpunit_rust.Runner.Chains.{
  Group, find, group_push, collect_groups, group_methods, dependency_chains, edges, link_methods,
  count_up,
}

abbrev pub count_chains : String → List (List GroupedMethod) → ℕ
count_chains m [] = 0
count_chains m (ch ∷ chs) = count_methods m ch + count_chains m chs

count-group_push :
    (m : String) (root : ℕ) (x : GroupedMethod) (gs : List Group)
    → count_chains m (group_methods (group_push root x gs))
      ≡ count_methods m (x ∷ []) + count_chains m (group_methods gs)
unfolding group_push
count-group_push m root x [] = ground arith
count-group_push m root x ((r, ms) ∷ gs) =
    ground (arith, count-group_push m root x gs, count_methods-append m ms (x ∷ []))

count-collect_groups :
    (m : String) (fuel i : ℕ) (xs : List GroupedMethod) (ps : List ℕ) (gs : List Group)
    → count_chains m (group_methods (collect_groups fuel i xs ps gs))
      ≡ count_methods m xs + count_chains m (group_methods gs)
unfolding collect_groups
count-collect_groups m fuel i [] ps gs = ground arith
count-collect_groups m fuel i (x ∷ xs) ps gs =
    let f = find fuel ps i in
    ground (
      arith,
      count-collect_groups m fuel (i + 1) xs f.0 (group_push f.1 x gs),
      count-group_push m f.1 x gs,
    )

-- The chains together hold each method name as often as the class does.
pub count_chains-dependency_chains :
    (m : String) (methods : List GroupedMethod)
    → count_chains m (dependency_chains methods) ≡ count_methods m methods
unfolding dependency_chains
count_chains-dependency_chains m methods =
    let fuel = edges methods + 1 in
    ground (
      arith,
      count-collect_groups m fuel 0 methods
          (link_methods fuel methods 0 methods (count_up 0 methods)) [],
    )
