-- ===== src/Runner/StopOn.antt =====
-- crates/runner/src/runner.rs: the stopping policy, and the counts of a report.
use phpunit_rust.Prelude.{ℕ, suc, Bool, true, false, ◌&&◌, nat_eq, List, [], ◌∷◌, if◌then◌else◌}
use phpunit_rust.Types.{TestStatus, TestOutcome, pass, fail, error, skipped, incomplete, risky}

pub record StopOn : Type 0 where
  pub failure : Bool
  pub error : Bool
  pub skipped : Bool
  pub incomplete : Bool
  pub risky : Bool

-- `StopOn::default()`
abbrev pub never : StopOn
never = record {
  failure = false;
  error = false;
  skipped = false;
  incomplete = false;
  risky = false;
}

unfoldable pub on_failure : StopOn
on_failure = record never { failure = true; error = true }

unfoldable pub on_defect : StopOn
on_defect = record { failure = true; error = true; skipped = true; incomplete = true; risky = true }

unfoldable pub matches : StopOn → TestStatus → Bool
matches s fail = s.failure
matches s error = s.error
matches s skipped = s.skipped
matches s incomplete = s.incomplete
matches s risky = s.risky
matches s pass = false

abbrev pub status_eq : TestStatus → TestStatus → Bool
status_eq pass pass = true
status_eq fail fail = true
status_eq error error = true
status_eq skipped skipped = true
status_eq incomplete incomplete = true
status_eq risky risky = true
status_eq _ _ = false

pub record Report : Type 0 where
  pub outcomes : List TestOutcome
  pub total_duration_ms : ℕ

abbrev pub count_in : TestStatus → List TestOutcome → ℕ
count_in st [] = 0
count_in st (o ∷ os) = if status_eq o.status st then suc (count_in st os) else count_in st os

unfoldable pub count : TestStatus → Report → ℕ
count st r = count_in st r.outcomes

unfoldable pub is_success : Report → Bool
unfolding count
is_success r = nat_eq (count fail r) 0 && nat_eq (count error r) 0
