-- ===== src/Runner/Queue/Kept.antt =====
-- crates/runner/src/runner.rs: the tests that `build_queue` puts into its plans or reports at once.
use phpunit_rust.Prelude.{
  ℕ, ◌+◌, ◌<◌, String, Bool, true, ◌||◌, ◌≡◌, refl, ap, none, List, [], ◌∷◌, ◌++◌, arith,
}
use phpunit_rust.Types.{TestOutcome}
use phpunit_rust.Discovery.{GroupedMethod, TestClass, TestCase, group_by_class}
use phpunit_rust.Discovery.Grouped.{
  count_methods, count_class, count_classes, count_cases, count_classes-group_by_class,
}
use phpunit_rust.Runner.Chains.{dependency_chains}
use phpunit_rust.Runner.Chains.Split.{count_chains-dependency_chains}
use phpunit_rust.Runner.Queue.Plans.{
  QueueConfig, Fingerprints, class_of, chunk_plans, chunk_plans_from, chunks_of, is_heavy, names,
  method_fp,
}
use phpunit_rust.Runner.Queue.Held.{
  held_classes, held, count_outcomes, counted, placed, held-append, count_names-names, placed-flush,
  placed-push_plans, placed-place, held-isolated_plans, held-chain_plans, held-chunks,
}
use phpunit_rust.Runner.Queue.{
  place_others, empty_filling, Filling, flush, push_plans, isolated_plans, chain_plans, heavy_plans,
  partition, is_plain, place_chains, place_rest, add_class_methods, add_class, add_classes,
  tautologies, synthetic_of, insert_class, by_cost, build_queue, target_of,
}

chunks_of_pos :
    (cfg : QueueConfig) (g : TestClass) (x : GroupedMethod)
    → is_heavy cfg g.class x ≡ true
    → 0 < chunks_of cfg g x
unfolding is_heavy chunks_of
chunks_of_pos cfg g x h = ground arith

abbrev AllHeavy : QueueConfig → String → List GroupedMethod → Type 0
AllHeavy cfg class [] = Unit {0}
AllHeavy cfg class (x ∷ xs) = (is_heavy cfg class x ≡ true) × AllHeavy cfg class xs

partition-AllHeavy :
    (cfg : QueueConfig) (class : String) (ms : List GroupedMethod)
    → AllHeavy cfg class (partition (is_heavy cfg class) ms).0
partition-AllHeavy cfg class [] = tt
partition-AllHeavy cfg class (x ∷ xs) = ground (arith, partition-AllHeavy cfg class xs)

count_methods-partition :
    (m : String) (p : GroupedMethod → Bool) (ms : List GroupedMethod)
    → count_methods m (partition p ms).0 + count_methods m (partition p ms).1 ≡ count_methods m ms
count_methods-partition m p [] = refl
count_methods-partition m p (x ∷ xs) = ground (arith, count_methods-partition m p xs)

count_outcomes-append :
    (c m : String) (os ps : List TestOutcome)
    → count_outcomes c m (os ++ ps) ≡ count_outcomes c m os + count_outcomes c m ps
count_outcomes-append c m [] ps = omega arith
count_outcomes-append c m (o ∷ os) ps = ground (arith, count_outcomes-append c m os ps)

count_outcomes-tautologies :
    (c m class : String) (ms : List GroupedMethod)
    → count_outcomes c m (tautologies class ms) ≡ counted c m class ms
count_outcomes-tautologies c m class [] = ground arith
count_outcomes-tautologies c m class (x ∷ xs) =
    ground (arith, count_outcomes-tautologies c m class xs)

bin_buf-flush : (fps : Fingerprints) (f : Filling) → (flush fps f).bin_buf ≡ []
unfolding flush
bin_buf-flush fps f = ground arith

module _ (j : ℕ) (c m : String) (cfg : QueueConfig) (fps : Fingerprints) where
  held-heavy_plans :
      (g : TestClass) (force : Bool) (ms : List GroupedMethod)
      → AllHeavy cfg g.class ms
      → held j c m (heavy_plans cfg fps g force ms) ≡ counted c m g.class ms
  unfolding chunk_plans
  held-heavy_plans g force [] h = ground arith
  held-heavy_plans g force (x ∷ xs) h =
      let n = chunks_of cfg g x in
      ground (
        arith,
        held-append j c m (chunk_plans_from cfg fps g force x n 0 n)
            (heavy_plans cfg fps g force xs),
        held-chunks j c m cfg fps g force x n (chunks_of_pos cfg g x h.0),
        held-heavy_plans g force xs h.1,
      )

  placed-place_chains :
      (g : TestClass) (force : Bool) (ms : List GroupedMethod) (f : Filling)
      → placed j c m (place_chains cfg fps g force ms f) ≡ placed j c m f + counted c m g.class ms
  unfolding place_chains
  placed-place_chains g force [] f = ground arith
  placed-place_chains g force (x ∷ xs) f =
      let chs = dependency_chains (x ∷ xs) in
      ground (
        arith,
        placed-push_plans j c m (chain_plans cfg fps g force chs) (flush fps f),
        placed-flush j c m fps f,
        held-chain_plans j c m cfg fps g force chs,
        count_chains-dependency_chains m (x ∷ xs),
      )

  placed-place_rest :
      (target : ℕ) (g : TestClass) (force : Bool) (heavy ms : List GroupedMethod) (f : Filling)
      → placed j c m (place_rest cfg fps target g force heavy ms f)
        ≡ placed j c m f + counted c m g.class ms
  unfolding place_rest class_of
  placed-place_rest target g force heavy [] f = ground arith
  placed-place_rest target g force heavy (x ∷ xs) f = ground (
    arith,
    placed-place j c m fps target force heavy (x ∷ xs) (class_of cfg g (names (x ∷ xs)) none) f,
    count_names-names j c m (x ∷ xs),
  )

  placed-place_others :
      (target : ℕ) (g : TestClass) (force : Bool) (heavy ms : List GroupedMethod) (f : Filling)
      → placed j c m (place_others cfg fps target g force heavy ms f)
        ≡ placed j c m f + counted c m g.class ms
  unfolding place_others
  placed-place_others target g force heavy ms f =
      let plain = (partition is_plain ms).0 in
      let provided = (partition is_plain ms).1 in
      let f' = place_chains cfg fps g force plain f in
      ground (
        arith,
        placed-push_plans j c m (isolated_plans cfg fps g ms) f,
        held-isolated_plans j c m cfg fps g ms,
        placed-place_rest target g force heavy ms f,
        placed-place_rest target g force heavy provided f',
        placed-place_chains g force plain f,
        count_methods-partition m is_plain ms,
      )

  placed-add_class_methods :
      (target : ℕ) (g : TestClass) (real : List GroupedMethod) (f : Filling)
      → placed j c m (add_class_methods cfg fps target g real f)
        ≡ placed j c m f + counted c m g.class real
  unfolding add_class_methods
  placed-add_class_methods target g real f =
      let heavy = (partition (is_heavy cfg g.class) real).0 in
      let others = (partition (is_heavy cfg g.class) real).1 in
      let force = g.is_stateful || g.is_isolated in
      let plans = heavy_plans cfg fps g force heavy in
      ground (
        arith,
        placed-place_others target g force heavy others (push_plans plans f),
        placed-push_plans j c m plans f,
        held-heavy_plans g force heavy (partition-AllHeavy cfg g.class real),
        count_methods-partition m (is_heavy cfg g.class) real,
      )

  placed-add_classes :
      (target : ℕ) (gs : List TestClass) (f : Filling)
      → placed j c m (add_classes cfg fps target gs f) + count_outcomes c m (synthetic_of gs)
        ≡ placed j c m f + count_classes c m gs
  unfolding add_classes add_class synthetic_of
  placed-add_classes target [] f = omega arith
  placed-add_classes target (g ∷ gs) f =
      let split = partition GroupedMethod.is_tautological g.methods in
      let f' = add_class_methods cfg fps target g split.1 f in
      ground (
        arith,
        placed-add_classes target gs f',
        placed-add_class_methods target g split.1 f,
        count_outcomes-append c m (tautologies g.class split.0) (synthetic_of gs),
        count_outcomes-tautologies c m g.class split.0,
        count_methods-partition m GroupedMethod.is_tautological g.methods,
      )

count_classes-insert_class :
    (c m : String) (g : TestClass) (gs : List TestClass)
    → count_classes c m (insert_class g gs) ≡ count_class c m g + count_classes c m gs
unfolding insert_class
count_classes-insert_class c m g [] = refl
count_classes-insert_class c m g (h ∷ hs) = ground (arith, count_classes-insert_class c m g hs)

count_classes-by_cost :
    (c m : String) (gs : List TestClass) → count_classes c m (by_cost gs) ≡ count_classes c m gs
unfolding by_cost
count_classes-by_cost c m [] = refl
count_classes-by_cost c m (g ∷ gs) =
    omega (arith, count_classes-insert_class c m g (by_cost gs), count_classes-by_cost c m gs)

pub held-build_queue :
    (cfg : QueueConfig) (cases : List TestCase) (c m : String) (j : ℕ)
    → let (queue, synthetic) = build_queue cfg cases in
      held j c m queue + count_outcomes c m synthetic ≡ count_cases c m cases
unfolding build_queue
held-build_queue cfg cases c m j =
    let groups = group_by_class cases in
    let sorted = by_cost groups in
    let fps = method_fp sorted in
    let target = target_of cfg.n_workers groups in
    let filled = add_classes cfg fps target sorted empty_filling in
    omega (
      arith,
      placed-flush j c m fps filled,
      ap (held_classes j c m) (bin_buf-flush fps filled),
      placed-add_classes j c m cfg fps target sorted empty_filling,
      count_classes-by_cost c m groups,
      count_classes-group_by_class c m cases,
    )
