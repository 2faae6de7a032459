-- ===== src/Examples/Inputs.antt =====
-- The inputs that the examples share: a class of two tests, and a pool of two slots.
use phpunit_rust.Prelude.{String, Bool, true, false, none, List, [], ◌∷◌}
use phpunit_rust.Types.{BatchClass, BatchPlan, TestOutcome, TestStatus}
use phpunit_rust.Discovery.{TestCase}
use phpunit_rust.ForkPool.{PhpForkPool}
use phpunit_rust.Runner.StopOn.{never}
use phpunit_rust.Runner.Requeue.{Attempts}
use phpunit_rust.Runner.Run.{RunConfig, World}
use phpunit_rust.Runner.Queue.Plans.{RowCounts, QueueConfig}

abbrev pub case_of : String → Bool → TestCase
case_of method tautological = record {
  file = "MoneyTest.php";
  class = "MoneyTest";
  method = method;
  data_provider = none;
  groups = [];
  external_providers = [];
  is_tautological = tautological;
  has_lifecycle_overrides = false;
  depends_on = [];
  is_dispatch_safe = true;
  fingerprint = "Money" ∷ [];
  is_stateful = false;
  is_isolated = false;
  needs_db = false;
  is_functional = false;
}

abbrev pub cases : List TestCase
cases = case_of "adds" false ∷ case_of "holds" true ∷ case_of "subtracts" false ∷ []

abbrev pub pool : PhpForkPool
pool = record {
  write_ends = true ∷ true ∷ [];
  read_ends = true ∷ true ∷ [];
  reaped = false;
  accepts = λ slot plan. true;
  sent = [];
}

abbrev pub run_config : RunConfig
run_config = record {
  autoload = "vendor/autoload.php";
  bootstrap = none;
  filter = none;
  defines = [];
  stop_on = never;
  class_file_index = λ c. none;
  n_workers = 2;
  worker_timeout = none;
}

abbrev pub no_rows : RowCounts
no_rows c p = none

abbrev pub queue_config : QueueConfig
queue_config = record { class_file_index = λ c. none; n_workers = 2; row_counts = no_rows }

abbrev pub world : World
world = record { watchdog_cause = "worker stuck"; alive = true }

abbrev pub money_class : List String → BatchClass
money_class methods = record {
  file = "MoneyTest.php";
  class = "MoneyTest";
  methods = methods;
  row_filter = none;
  required_files = [];
  is_isolated = false;
}

abbrev pub money_plan : BatchPlan
money_plan = record {
  classes = money_class ("adds" ∷ "subtracts" ∷ []) ∷ [];
  fingerprint = "Money" ∷ [];
  force_exit_after = false;
}

abbrev pub no_attempts : Attempts
no_attempts c m = 0

abbrev pub passed : String → TestOutcome
passed method = record {
  class = "MoneyTest";
  method = method;
  dataset = none;
  status = TestStatus.pass;
  message = none;
  trace = none;
  duration_ms = 3;
}
