-- ===== src/Runner/Queue/Plans.antt =====
-- crates/runner/src/runner.rs: how `build_queue` makes one plan, and the row chunks of a heavy
-- data-provider method.
use phpunit_rust.Prelude.{
  ℕ, zero, suc, ◌+◌, ◌%◌, ◌^◌, min, String, Bool, true, false, ◌||◌, Option, none, some, List, [],
  ◌∷◌, if◌then◌else◌, any, leb,
}
use phpunit_rust.Types.{BatchClass, BatchPlan, RowFilter}
use phpunit_rust.Discovery.{GroupedMethod, TestClass}
use phpunit_rust.Runner.Received.{insert_text, is_text, is_test}

-- `RowCounts` of provider_enum.rs: the rows of a provider method, where they were counted.
abbrev pub RowCounts : Type 0
RowCounts = String → String → Option (Option ℕ)

-- What `build_queue` reads of the run's configuration.
pub record QueueConfig : Type 0 where
  pub class_file_index : String → Option String
  pub n_workers : ℕ
  pub row_counts : RowCounts

abbrev pub row_split_threshold : ℕ
row_split_threshold = 15

abbrev pub max_row_chunks : ℕ
max_row_chunks = 4

unfoldable pub method_weight : GroupedMethod → ℕ
method_weight m = 1

-- `*n as u32`
abbrev rows_u32 : Option (Option ℕ) → Option ℕ
rows_u32 (some (some n)) = some (n % 2 ^ 32)
rows_u32 _ = none

unfoldable pub row_count_for : QueueConfig → String → Option String → Option ℕ
row_count_for cfg class none = none
row_count_for cfg class (some provider) = rows_u32 (cfg.row_counts class provider)

abbrev at_least : ℕ → Option ℕ → Bool
at_least k none = false
at_least k (some n) = leb k n

unfoldable pub is_heavy : QueueConfig → String → GroupedMethod → Bool
is_heavy cfg class m = at_least row_split_threshold (row_count_for cfg class m.data_provider)

abbrev pub names : List GroupedMethod → List String
names [] = []
names (m ∷ ms) = m.name ∷ names ms

abbrev insert_file : Option String → List String → List String
insert_file none fs = fs
insert_file (some f) fs = insert_text f fs

unfoldable pub provider_files : QueueConfig → List (String × String) → List String → List String
provider_files cfg [] fs = fs
provider_files cfg ((fqcn, _) ∷ ps) fs =
    provider_files cfg ps (insert_file (cfg.class_file_index fqcn) fs)

abbrev no_names : List String → Bool
no_names [] = true
no_names (n ∷ ns) = false

-- The files of the external providers of the methods that are named, or of all where none is.
unfoldable pub required_files :
    QueueConfig → List String → List GroupedMethod → List String → List String
required_files cfg ns [] fs = fs
required_files cfg ns (m ∷ ms) fs = required_files cfg ns ms (
    if no_names ns || any (is_text m.name) ns
    then provider_files cfg m.external_providers fs
    else fs)

unfoldable pub required_files_for : QueueConfig → List String → List GroupedMethod → List String
required_files_for cfg ns all = required_files cfg ns all []

unfoldable pub class_of : QueueConfig → TestClass → List String → Option RowFilter → BatchClass
class_of cfg g ns filter = record {
  file = g.file;
  class = g.class;
  methods = ns;
  row_filter = filter;
  required_files = required_files_for cfg ns g.methods;
  is_isolated = g.is_isolated;
}

-- Fingerprints by class and method, the last insertion first.
abbrev pub Fingerprints : Type 0
Fingerprints = List ((String × String) × List String)

unfoldable pub fp_methods : String → List GroupedMethod → Fingerprints → Fingerprints
fp_methods class [] fps = fps
fp_methods class (m ∷ ms) fps = fp_methods class ms (((class, m.name), m.fingerprint) ∷ fps)

unfoldable pub fp_classes : List TestClass → Fingerprints → Fingerprints
fp_classes [] fps = fps
fp_classes (g ∷ gs) fps = fp_classes gs (fp_methods g.class g.methods fps)

unfoldable pub method_fp : List TestClass → Fingerprints
method_fp gs = fp_classes gs []

unfoldable pub fp_lookup : String → String → Fingerprints → List String
fp_lookup c m [] = []
fp_lookup c m ((k, fp) ∷ fps) = if is_test c m k then fp else fp_lookup c m fps

abbrev insert_all : List String → List String → List String
insert_all [] fp = fp
insert_all (s ∷ ss) fp = insert_all ss (insert_text s fp)

unfoldable pub fp_of_methods : Fingerprints → String → List String → List String → List String
fp_of_methods fps class [] fp = fp
fp_of_methods fps class (m ∷ ms) fp =
    fp_of_methods fps class ms (insert_all (fp_lookup class m fps) fp)

unfoldable pub fp_of_classes : Fingerprints → List BatchClass → List String → List String
fp_of_classes fps [] fp = fp
fp_of_classes fps (bc ∷ bcs) fp = fp_of_classes fps bcs (fp_of_methods fps bc.class bc.methods fp)

unfoldable pub mk_plan : Fingerprints → List BatchClass → Bool → BatchPlan
mk_plan fps bcs force_exit_after = record {
  classes = bcs;
  fingerprint = fp_of_classes fps bcs [];
  force_exit_after = force_exit_after;
}

abbrev rows_or_one : Option ℕ → ℕ
rows_or_one none = 1
rows_or_one (some n) = n

unfoldable pub chunks_of : QueueConfig → TestClass → GroupedMethod → ℕ
chunks_of cfg g m = min (rows_or_one (row_count_for cfg g.class m.data_provider)) max_row_chunks

-- The plans of the chunks `index`, `index + 1`, … , as many as `left`.
unfoldable pub chunk_plans_from :
    QueueConfig → Fingerprints → TestClass → Bool → GroupedMethod → ℕ → ℕ → ℕ → List BatchPlan
chunk_plans_from cfg fps g force m total index zero = []
chunk_plans_from cfg fps g force m total index (suc left) =
    mk_plan fps
      (class_of cfg g (m.name ∷ []) (some (record { chunk_index = index; total_chunks = total }))
        ∷ [])
      force
    ∷ chunk_plans_from cfg fps g force m total (index + 1) left

unfoldable pub chunk_plans :
    QueueConfig → Fingerprints → TestClass → Bool → GroupedMethod → List BatchPlan
chunk_plans cfg fps g force m =
    chunk_plans_from cfg fps g force m (chunks_of cfg g m) 0 (chunks_of cfg g m)
