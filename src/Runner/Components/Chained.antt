-- ===== src/Runner/Components/Chained.antt =====
-- crates/runner/src/components.rs: the groups of `partition_by_depends` beside the chains that the
-- dispatcher builds.
use mathlib.Core.List.{Permᴰ}
use phpunit_rust.Prelude.{
  ℕ, ◌+◌, ◌≡◌, refl, sym, subst, ap, ap₂, ◌∙◌, String, Bool, true, false, Option, none, some, List,
  [], ◌∷◌, ◌++◌, ◌==◌, if◌then◌else◌, nat_eq, length,
}
use phpunit_rust.Discovery.{GroupedMethod}
use phpunit_rust.Runner.Chains.{
  find, index_or, name_to_idx, count_up, link, link_deps, link_methods, edges, Group, group_push,
  collect_groups, group_methods, dependency_chains,
}
use phpunit_rust.Runner.Components.{
  Depends, position, indices, join, join_deps, join_declared, join_all, declared, count_declared,
  push_method, collect, methods_of, partition_by_depends,
}

abbrev or_none_declared : Option (List String) → List String
or_none_declared none = []
or_none_declared (some deps) = deps

-- A method with the name and what is declared for it.
abbrev pub method : Depends → String → GroupedMethod
method depends m = record {
  name = m;
  data_provider = none;
  groups = [];
  external_providers = [];
  is_tautological = false;
  depends_on = or_none_declared (depends m);
  is_dispatch_safe = true;
  fingerprint = [];
}

abbrev pub methods_with : Depends → List String → List GroupedMethod
methods_with depends [] = []
methods_with depends (m ∷ ms) = method depends m ∷ methods_with depends ms

abbrev pub names : List GroupedMethod → List String
names [] = []
names (m ∷ ms) = m.name ∷ names ms

abbrev pub chain_names : List (List GroupedMethod) → List (List String)
chain_names [] = []
chain_names (c ∷ cs) = names c ∷ chain_names cs

abbrev named_groups : List Group → List (ℕ × List String)
named_groups [] = []
named_groups ((r, ms) ∷ gs) = (r, names ms) ∷ named_groups gs

module _ (depends : Depends) where
  position-name_to_idx :
      (dep : String) (i : ℕ) (ms : List String)
      → position dep i ms ≡ name_to_idx dep i (methods_with depends ms)
  unfolding position name_to_idx
  position-name_to_idx dep i [] = refl
  position-name_to_idx dep i (m ∷ ms) =
      ap (λ o. index_or o i (m == dep)) (position-name_to_idx dep (i + 1) ms)

  indices-count_up :
      (i : ℕ) (ms : List String) → indices i ms ≡ count_up i (methods_with depends ms)
  indices-count_up i [] = refl
  indices-count_up i (m ∷ ms) = ap (λ is. i ∷ is) (indices-count_up (i + 1) ms)

  join-link :
      (fuel i : ℕ) (o : Option ℕ) (parent : List ℕ) → join fuel i o parent ≡ link fuel i o parent
  unfolding link
  join-link fuel i none parent = refl
  join-link fuel i (some j) parent = refl

  join_deps-link_deps :
      (fuel : ℕ) (all : List String) (i : ℕ) (deps : List String) (parent : List ℕ)
      → join_deps fuel all i deps parent ≡ link_deps fuel (methods_with depends all) i deps parent
  unfolding join_deps link_deps
  join_deps-link_deps fuel all i [] parent = refl
  join_deps-link_deps fuel all i (dep ∷ deps) parent =
      join_deps-link_deps fuel all i deps (join fuel i (position dep 0 all) parent)
      ∙ ap (link_deps fuel (methods_with depends all) i deps) (
          join-link fuel i (position dep 0 all) parent
          ∙ ap (λ o. link fuel i o parent) (position-name_to_idx dep 0 all))

  join_declared-link_deps :
      (fuel : ℕ) (all : List String) (i : ℕ) (o : Option (List String)) (parent : List ℕ)
      → join_declared fuel all i o parent
        ≡ link_deps fuel (methods_with depends all) i (or_none_declared o) parent
  unfolding join_declared link_deps
  join_declared-link_deps fuel all i none parent = refl
  join_declared-link_deps fuel all i (some deps) parent = join_deps-link_deps fuel all i deps parent

  join_all-link_methods :
      (fuel : ℕ) (all : List String) (i : ℕ) (ms : List String) (parent : List ℕ)
      → join_all fuel depends all i ms parent
        ≡ link_methods fuel (methods_with depends all) i (methods_with depends ms) parent
  unfolding join_all link_methods
  join_all-link_methods fuel all i [] parent = refl
  join_all-link_methods fuel all i (m ∷ ms) parent =
      join_all-link_methods fuel all (i + 1) ms (join_declared fuel all i (depends m) parent)
      ∙ ap (link_methods fuel (methods_with depends all) (i + 1) (methods_with depends ms))
          (join_declared-link_deps fuel all i (depends m) parent)

  declared-length : (o : Option (List String)) → declared o ≡ length (or_none_declared o)
  declared-length none = refl
  declared-length (some deps) = refl

  count_declared-edges :
      (ms : List String) → count_declared depends ms ≡ edges (methods_with depends ms)
  count_declared-edges [] = refl
  count_declared-edges (m ∷ ms) = ap₂ ◌+◌ (declared-length (depends m)) (count_declared-edges ms)

  names-snoc :
      (ms : List GroupedMethod) (m : GroupedMethod) → names ms ++ m.name ∷ [] ≡ names (ms ++ m ∷ [])
  names-snoc [] m = refl
  names-snoc (x ∷ ms) m = ap (λ ns. x.name ∷ ns) (names-snoc ms m)

  named_either :
      (b : Bool) (gs hs : List Group)
      → (if b then named_groups gs else named_groups hs) ≡ named_groups (if b then gs else hs)
  named_either true gs hs = refl
  named_either false gs hs = refl

  push_method-group_push :
      (root : ℕ) (m : GroupedMethod) (gs : List Group)
      → push_method root m.name (named_groups gs) ≡ named_groups (group_push root m gs)
  unfolding push_method group_push
  push_method-group_push root m [] = refl
  push_method-group_push root m ((r, ms) ∷ gs) =
      ap₂
        (λ here later. if nat_eq r root then (r, here) ∷ named_groups gs else (r, names ms) ∷ later)
        (names-snoc ms m) (push_method-group_push root m gs)
      ∙ named_either (nat_eq r root) ((r, ms ++ m ∷ []) ∷ gs) ((r, ms) ∷ group_push root m gs)

  collect-collect_groups :
      (fuel i : ℕ) (ms : List String) (parent : List ℕ) (gs : List Group)
      → collect fuel i ms parent (named_groups gs)
        ≡ named_groups (collect_groups fuel i (methods_with depends ms) parent gs)
  unfolding collect collect_groups
  collect-collect_groups fuel i [] parent gs = refl
  collect-collect_groups fuel i (m ∷ ms) parent gs =
      let (after, root) = find fuel parent i in
      ap (collect fuel (i + 1) ms after) (push_method-group_push root (method depends m) gs)
      ∙ collect-collect_groups fuel (i + 1) ms after (group_push root (method depends m) gs)

  methods_of-group_methods :
      (gs : List Group) → methods_of (named_groups gs) ≡ chain_names (group_methods gs)
  methods_of-group_methods [] = refl
  methods_of-group_methods ((r, ms) ∷ gs) = ap (λ ns. names ms ∷ ns) (methods_of-group_methods gs)

partition_by_depends-in_order :
    (ms : List String) (depends : Depends)
    → partition_by_depends ms depends ≡ chain_names (dependency_chains (methods_with depends ms))
unfolding partition_by_depends dependency_chains
partition_by_depends-in_order ms depends =
    let all = methods_with depends ms in
    let fuel = edges all + 1 in
    let parent = link_methods fuel all 0 all (count_up 0 all) in
    let linked : join_all fuel depends ms 0 ms (indices 0 ms) ≡ parent =
      join_all-link_methods depends fuel ms 0 ms (indices 0 ms)
      ∙ ap (link_methods fuel all 0 all) (indices-count_up depends 0 ms) in
    ap (λ n. methods_of (collect (n + 1) 0 ms (join_all (n + 1) depends ms 0 ms (indices 0 ms)) []))
      (count_declared-edges depends ms)
    ∙ ap (λ p. methods_of (collect fuel 0 ms p [])) linked
    ∙ ap methods_of (collect-collect_groups depends fuel 0 ms parent [])
    ∙ methods_of-group_methods depends (collect_groups fuel 0 all parent [])

Permᴰ-chain_names :
    {cs ds : List (List GroupedMethod)} → Permᴰ cs ds → Permᴰ (chain_names cs) (chain_names ds)
Permᴰ-chain_names Permᴰ.nil = Permᴰ.nil
Permᴰ-chain_names (Permᴰ.cons e p) = Permᴰ.cons (ap names e) (Permᴰ-chain_names p)
Permᴰ-chain_names (Permᴰ.swap e f) = Permᴰ.swap (ap names e) (ap names f)
Permᴰ-chain_names (Permᴰ.trans p q) = Permᴰ.trans (Permᴰ-chain_names p) (Permᴰ-chain_names q)

-- In whatever order the dispatcher gets its dependency chains of methods with the same names, that
-- depend on what is declared for their names, the groups are the names of these chains in some order.
pub partition_by_depends-dependency_chains :
    (ms : List String) (depends : Depends) (chains : List (List GroupedMethod))
    → Permᴰ (dependency_chains (methods_with depends ms)) chains
    → Permᴰ (partition_by_depends ms depends) (chain_names chains)
partition_by_depends-dependency_chains ms depends chains shuffled =
    subst (λ gs. Permᴰ gs (chain_names chains)) (sym (partition_by_depends-in_order ms depends))
      (Permᴰ-chain_names shuffled)
