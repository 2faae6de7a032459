-- ===== src/Runner/Queue.antt =====
-- crates/runner/src/runner.rs: `build_queue`, which turns the discovered cases into the work queue.
-- The local variables of its loop are a record; each of its branches is a function. The lists of
-- files and of names stand for hash sets, so their order is one of the possible ones.
pub mod Plans
pub mod Held
pub mod Kept
use phpunit_rust.Prelude.{
  ℕ, zero, suc, ◌+◌, ◌-◌, ◌*◌, ◌/◌, ◌%◌, ◌^◌, ◌≤◌, min, max, String, Bool, true, false, not, ◌||◌,
  ◌&&◌, Option, none, some, List, [], ◌∷◌, ◌++◌, ◌==◌, if◌then◌else◌, any, leb, length,
}
use phpunit_rust.Types.{BatchClass, BatchPlan, RowFilter, TestOutcome, TestStatus}
use phpunit_rust.Discovery.{GroupedMethod, TestClass, TestCase, group_by_class}
use phpunit_rust.Runner.Chains.{dependency_chains}
use Plans.{
  QueueConfig, RowCounts, row_split_threshold, row_count_for, is_heavy, chunk_plans, class_of,
  required_files_for, method_fp, mk_plan, Fingerprints, names, method_weight,
}

-- The variables of the loop over the classes.
pub record Filling : Type 0 where
  pub queue : List BatchPlan
  pub bin_buf : List BatchClass
  pub bin_methods : ℕ
  pub bin_stateful : Bool

-- A bin that holds anything becomes a plan.
abbrev flush_bin : Fingerprints → List BatchClass → Filling → Filling
flush_bin fps [] f = f
flush_bin fps (bc ∷ bcs) f = record {
  queue = f.queue ++ mk_plan fps (bc ∷ bcs) f.bin_stateful ∷ [];
  bin_buf = [];
  bin_methods = 0;
  bin_stateful = false;
}

unfoldable pub flush : Fingerprints → Filling → Filling
flush fps f = flush_bin fps f.bin_buf f

abbrev pub push_plans : List BatchPlan → Filling → Filling
push_plans plans f = record f { queue = f.queue ++ plans }

-- `method_weight` summed over the methods.
abbrev pub weight : List GroupedMethod → ℕ
weight [] = 0
weight (m ∷ ms) = method_weight m + weight ms

-- A class that fills a batch on its own is dispatched solo; a smaller one joins the bin.
unfoldable pub place :
    Fingerprints
    → ℕ
    → Bool
    → List GroupedMethod
    → List GroupedMethod
    → BatchClass
    → Filling
    → Filling
place fps target must_force_exit heavy others bc f =
    let other_cost = weight heavy + weight others - weight heavy in
    if leb target other_cost
    then push_plans (mk_plan fps (bc ∷ []) must_force_exit ∷ []) (flush fps f)
    else (let g : Filling = record f {
      bin_buf = f.bin_buf ++ bc ∷ [];
      bin_stateful = f.bin_stateful || must_force_exit;
      bin_methods = f.bin_methods + other_cost;
    } in
        if leb target g.bin_methods then flush fps g else g)

-- Each isolated method is a plan of its own, in a worker that exits after it.
abbrev pub isolated_plans :
    QueueConfig → Fingerprints → TestClass → List GroupedMethod → List BatchPlan
isolated_plans cfg fps g [] = []
isolated_plans cfg fps g (m ∷ ms) =
    mk_plan fps (class_of cfg g (m.name ∷ []) none ∷ []) true ∷ isolated_plans cfg fps g ms

abbrev pub chain_plans :
    QueueConfig → Fingerprints → TestClass → Bool → List (List GroupedMethod) → List BatchPlan
chain_plans cfg fps g force [] = []
chain_plans cfg fps g force (ch ∷ chs) =
    mk_plan fps (class_of cfg g (names ch) none ∷ []) force ∷ chain_plans cfg fps g force chs

abbrev pub heavy_plans :
    QueueConfig → Fingerprints → TestClass → Bool → List GroupedMethod → List BatchPlan
heavy_plans cfg fps g force [] = []
heavy_plans cfg fps g force (m ∷ ms) =
    chunk_plans cfg fps g force m ++ heavy_plans cfg fps g force ms

-- `iter().partition(p)`: what passes, and what does not.
abbrev pub partition {ℓ} : {A : Type ℓ} → (A → Bool) → List A → List A × List A
partition p [] = ([], [])
partition p (x ∷ xs) =
    let (yeses, nos) = partition p xs in if p x then (x ∷ yeses, nos) else (yeses, x ∷ nos)

abbrev pub is_empty {ℓ} : {A : Type ℓ} → List A → Bool
is_empty [] = true
is_empty (x ∷ xs) = false

abbrev no_provider : Option String → Bool
no_provider none = true
no_provider (some p) = false

abbrev pub is_plain : GroupedMethod → Bool
is_plain m = no_provider m.data_provider && is_empty m.external_providers

-- The methods without a provider, one plan for each dependency chain.
unfoldable pub place_chains :
    QueueConfig → Fingerprints → TestClass → Bool → List GroupedMethod → Filling → Filling
place_chains cfg fps g force [] f = f
place_chains cfg fps g force (m ∷ ms) f =
    push_plans (chain_plans cfg fps g force (dependency_chains (m ∷ ms))) (flush fps f)

-- The methods that stay together, as one batch class.
unfoldable pub place_rest :
    QueueConfig
    → Fingerprints
    → ℕ
    → TestClass
    → Bool
    → List GroupedMethod
    → List GroupedMethod
    → Filling
    → Filling
place_rest cfg fps target g force heavy [] f = f
place_rest cfg fps target g force heavy (m ∷ ms) f =
    place fps target force heavy (m ∷ ms) (class_of cfg g (names (m ∷ ms)) none) f

-- The methods of a class that are not split by rows.
unfoldable pub place_others :
    QueueConfig
    → Fingerprints
    → ℕ
    → TestClass
    → Bool
    → List GroupedMethod
    → List GroupedMethod
    → Filling
    → Filling
place_others cfg fps target g force heavy others f =
    if g.is_isolated
    then push_plans (isolated_plans cfg fps g others) f
    else if g.has_lifecycle_overrides
    then place_rest cfg fps target g force heavy others f
    else (let (plain, provided) = partition is_plain others in
        place_rest cfg fps target g force heavy provided (place_chains cfg fps g force plain f))

-- One round of the loop, for the methods that are not tautological.
unfoldable pub add_class_methods :
    QueueConfig → Fingerprints → ℕ → TestClass → List GroupedMethod → Filling → Filling
add_class_methods cfg fps target g real f =
    let (heavy, others) = partition (is_heavy cfg g.class) real in
    let force = g.is_stateful || g.is_isolated in
    place_others cfg fps target g force heavy others
      (push_plans (heavy_plans cfg fps g force heavy) f)

unfoldable pub add_class : QueueConfig → Fingerprints → ℕ → TestClass → Filling → Filling
add_class cfg fps target g f =
    add_class_methods cfg fps target g (partition GroupedMethod.is_tautological g.methods).1 f

unfoldable pub add_classes : QueueConfig → Fingerprints → ℕ → List TestClass → Filling → Filling
add_classes cfg fps target [] f = f
add_classes cfg fps target (g ∷ gs) f = add_classes cfg fps target gs (add_class cfg fps target g f)

-- The outcome of a method that is never sent to a worker.
abbrev pub tautological_outcome : String → GroupedMethod → TestOutcome
tautological_outcome class m = record {
  class = class;
  method = m.name;
  dataset = none;
  status = TestStatus.pass;
  message = some "tautological — skipped execution";
  trace = none;
  duration_ms = 0;
}

abbrev pub tautologies : String → List GroupedMethod → List TestOutcome
tautologies class [] = []
tautologies class (m ∷ ms) = tautological_outcome class m ∷ tautologies class ms

unfoldable pub synthetic_of : List TestClass → List TestOutcome
synthetic_of [] = []
synthetic_of (g ∷ gs) =
    tautologies g.class (partition GroupedMethod.is_tautological g.methods).0 ++ synthetic_of gs

-- Stable, largest class first.
unfoldable pub insert_class : TestClass → List TestClass → List TestClass
insert_class g [] = g ∷ []
insert_class g (h ∷ hs) =
    if leb (weight h.methods) (weight g.methods) then g ∷ h ∷ hs else h ∷ insert_class g hs

unfoldable pub by_cost : List TestClass → List TestClass
by_cost [] = []
by_cost (g ∷ gs) = insert_class g (by_cost gs)

abbrev pub total_methods : List TestClass → ℕ
total_methods [] = 0
total_methods (g ∷ gs) = length g.methods + total_methods gs

abbrev pub oversaturation : ℕ
oversaturation = 4

unfoldable pub target_of : ℕ → List TestClass → ℕ
target_of n_workers gs = max (total_methods gs / (max n_workers 1 * oversaturation)) 1

abbrev pub empty_filling : Filling
empty_filling = record { queue = []; bin_buf = []; bin_methods = 0; bin_stateful = false }

unfoldable pub build_queue : QueueConfig → List TestCase → List BatchPlan × List TestOutcome
build_queue cfg cases =
    let groups = group_by_class cases in
    let sorted = by_cost groups in
    let fps = method_fp sorted in
    let filled = add_classes cfg fps (target_of cfg.n_workers groups) sorted empty_filling in
    ((flush fps filled).queue, synthetic_of sorted)
