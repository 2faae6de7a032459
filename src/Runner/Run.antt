-- ===== src/Runner/Run.antt =====
-- crates/runner/src/runner.rs: `run_resumable` around the dispatcher loop, and `run_with_profiler`.
-- The channel's events are an argument, and so is what the operating system answers about the
-- master. The reader threads, which parse lines into events, and the profiler are left out.
pub mod Seeded
pub mod Reports
use Prim.Native.String.{◌++◌ as str_append}
use text.Mathlib.Text.{find?}
use phpunit_rust.Prelude.{
  ℕ, zero, suc, ◌+◌, String, Bool, true, false, not, ◌||◌, ◌&&◌, Option, none, some, List, [], ◌∷◌,
  ◌++◌, ◌==◌, if◌then◌else◌, length, map,
}
use phpunit_rust.Types.{TestOutcome, BatchPlan}
use phpunit_rust.Discovery.{TestCase}
use phpunit_rust.ForkPool.{PhpForkPool, Result, ok, err, ◌>>=◌, len, take_reader}
use phpunit_rust.Runner.StopOn.{StopOn, Report}
use phpunit_rust.Runner.Received.{covers, nothing_received, error_outcome, Log, emit}
use phpunit_rust.Runner.Requeue.{Ledger, settle}
use phpunit_rust.Runner.Dispatch.{
  State, Settings, Event, send_plan, close, run_loop, finish, crash_cause, is_some,
}
use phpunit_rust.Runner.Queue.{build_queue}
use phpunit_rust.Runner.Queue.Plans.{RowCounts}

pub record RunConfig : Type 0 where
  pub autoload : String
  pub bootstrap : Option String
  pub filter : Option String
  pub defines : List (String × String)
  pub stop_on : StopOn
  pub class_file_index : String → Option String
  pub n_workers : ℕ
  pub worker_timeout : Option ℕ

abbrev contains : String → String → Bool
contains s t = is_some (find? s t)

unfoldable pub matches_filter : String → String → Option String → Bool
matches_filter class method none = true
matches_filter class method (some f) = contains (str_append class (str_append "::" method)) f

unfoldable pub filter_cases : Option String → List TestCase → List TestCase
filter_cases f [] = []
filter_cases f (x ∷ xs) =
    if matches_filter x.class x.method f then x ∷ filter_cases f xs else filter_cases f xs

-- `class_methods.entry(class).or_default().push(method)`
unfoldable pub push_method :
    String → String → List (String × List String) → List (String × List String)
push_method class m [] = (class, m ∷ []) ∷ []
push_method class m ((k, ms) ∷ es) =
    if k == class then (k, ms ++ m ∷ []) ∷ es else (k, ms) ∷ push_method class m es

unfoldable pub class_methods_of :
    List TestCase → List (String × List String) → List (String × List String)
class_methods_of [] es = es
class_methods_of (x ∷ xs) es = class_methods_of xs (push_method x.class x.method es)

unfoldable pub methods_lookup : List (String × List String) → String → Option (List String)
methods_lookup [] class = none
methods_lookup ((k, ms) ∷ es) class = if k == class then some ms else methods_lookup es class

-- What surrounds the run: the text of the watchdog's error, and whether the master still lives when
-- the last reader is gone.
pub record World : Type 0 where
  pub watchdog_cause : String
  pub alive : Bool

unfoldable pub settings_of : RunConfig → World → List TestCase → Settings
settings_of cfg w cases = record {
  stop_on = cfg.stop_on;
  worker_timeout = cfg.worker_timeout;
  class_methods = methods_lookup (class_methods_of cases []);
  watchdog_cause = w.watchdog_cause;
  alive = w.alive;
}

abbrev or_missing : Option PhpForkPool → Result PhpForkPool
or_missing none = err "read end missing"
or_missing (some p) = ok p

-- One reader for each slot.
unfoldable pub take_readers : ℕ → ℕ → PhpForkPool → Result PhpForkPool
take_readers zero slot p = ok p
take_readers (suc left) slot p =
    or_missing (take_reader slot p) >>= λ q. take_readers left (slot + 1) q

-- A slot's first plan, or its end.
abbrev pub seed_from : ℕ → List BatchPlan → State → Result State
seed_from slot [] s = ok (close slot s)
seed_from slot (plan ∷ rest) s = send_plan slot plan (record s { queue = rest })

unfoldable pub seed : ℕ → ℕ → State → Result State
seed zero slot s = ok s
seed (suc left) slot s = seed_from slot s.queue s >>= λ t. seed left (slot + 1) t

-- The outcomes of the tests that no worker runs.
unfoldable pub settle_all : List TestOutcome → Ledger → Ledger
settle_all [] l = l
settle_all (o ∷ os) l = settle_all os (settle o l)

abbrev pub replicate {ℓ} : {A : Type ℓ} → ℕ → A → List A
replicate zero a = []
replicate (suc n) a = a ∷ replicate n a

abbrev pub no_outcome : Ledger
no_outcome = record { received = nothing_received; log = record { progress = []; outcomes = [] } }

abbrev pub fresh_state : PhpForkPool → ℕ → List BatchPlan → State
fresh_state pool n queue = record {
  queue = queue;
  pool = pool;
  slot_open = replicate n true;
  slot_in_flight = replicate n none;
  slot_loaded = replicate n [];
  ledger = no_outcome;
  attempts = λ c m. 0;
  total = 0;
  live_readers = n;
  stopping = false;
  watchdog_fired = false;
  master_died = false;
}

-- `run_resumable` up to its loop, for the cases that pass the filter.
unfoldable pub start : PhpForkPool → RunConfig → RowCounts → List TestCase → Result State
start pool cfg row_counts cases =
    let n = len pool in
    let (queue, synthetic) =
      build_queue
        (record {
          class_file_index = cfg.class_file_index;
          n_workers = cfg.n_workers;
          row_counts = row_counts;
        })
        cases in
    take_readers n 0 pool >>= λ p. seed n 0 (fresh_state p n queue) >>= λ s.
    ok (record s { ledger = settle_all synthetic s.ledger })

unfoldable pub not_covered : Ledger → List TestCase → List TestCase
not_covered l [] = []
not_covered l (x ∷ xs) =
    if covers l.received x.class x.method then not_covered l xs else x ∷ not_covered l xs

abbrev pub unfinished_of : State → List TestCase → List TestCase
unfinished_of s cases = if s.master_died then not_covered s.ledger cases else []

pub record Resumable : Type 0 where
  pub log : Log
  pub total_duration_ms : ℕ
  pub unfinished : List TestCase

unfoldable pub run_resumable :
    PhpForkPool → List TestCase → RunConfig → RowCounts → World → List Event → Result Resumable
run_resumable pool cases cfg row_counts w events =
    let filtered = filter_cases cfg.filter cases in
    let settings = settings_of cfg w filtered in
    start pool cfg row_counts filtered >>= λ s. run_loop settings events s >>= λ t.
    (let u = finish settings t in
      ok (record {
        log = u.ledger.log;
        total_duration_ms = u.total;
        unfinished = unfinished_of u filtered;
      }))

unfoldable pub emit_unfinished : List TestCase → Log → Log
emit_unfinished [] l = l
emit_unfinished (x ∷ xs) l =
    emit_unfinished xs (emit (error_outcome x.class x.method crash_cause) l)

unfoldable pub run_with_profiler :
    PhpForkPool → List TestCase → RunConfig → RowCounts → World → List Event → Result Report
run_with_profiler pool cases cfg row_counts w events =
    run_resumable pool cases cfg row_counts w events >>= λ r. ok (record {
      outcomes = (emit_unfinished r.unfinished r.log).outcomes;
      total_duration_ms = r.total_duration_ms;
    })
