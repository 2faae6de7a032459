-- ===== src/Types.antt =====
-- crates/runner/src/types.rs: outcomes, batch classes and batch plans. A `PathBuf` is a text, a
-- `HashSet<String>` a list that its users treat as a set, and an `f64` of milliseconds a number of
-- a fixed fraction of a millisecond.
use phpunit_rust.Prelude.{ℕ, String, Bool, Option, List}

pub data TestStatus : Type 0 where
  pass fail error skipped incomplete risky : TestStatus

pub record TestOutcome : Type 0 where
  pub class : String
  pub method : String
  pub dataset : Option String
  pub status : TestStatus
  pub message : Option String
  pub trace : Option String
  pub duration_ms : ℕ

pub record RowFilter : Type 0 where
  pub chunk_index : ℕ
  pub total_chunks : ℕ

pub record BatchClass : Type 0 where
  pub file : String
  pub class : String
  pub methods : List String
  pub row_filter : Option RowFilter
  pub required_files : List String
  pub is_isolated : Bool

pub record BatchPlan : Type 0 where
  pub classes : List BatchClass
  pub fingerprint : List String
  pub force_exit_after : Bool
