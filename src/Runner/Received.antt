-- ===== src/Runner/Received.antt =====
-- crates/runner/src/runner.rs: `ReceivedOutcomes`, the record of every outcome that streamed back,
-- and `synth_error_outcomes`, which reports the tests of a batch that can never complete. The
-- callback `on_progress` is the list of the outcomes it was called with, beside the report's.
pub mod Laws
use phpunit_rust.Prelude.{
  ℕ, String, Bool, true, false, ◌||◌, ◌&&◌, ◌≡◌, refl, Option, none, some, List, [], ◌∷◌, ◌++◌,
  ◌==◌, if◌then◌else◌, any,
}
use phpunit_rust.Types.{TestOutcome, TestStatus, BatchClass, BatchPlan}

abbrev pub class_row : String
class_row = "<class>"

pub record ReceivedOutcomes : Type 0 where
  pub pairs : List (String × String)
  pub classes : List String

abbrev pub nothing_received : ReceivedOutcomes
nothing_received = record { pairs = []; classes = [] }

-- Whether the pair is the test `method` of `class`.
abbrev pub is_test : String → String → String × String → Bool
is_test class method p = p.0 == class && p.1 == method

abbrev pub is_text : String → String → Bool
is_text s t = t == s

-- `HashSet::insert`.
abbrev pub insert_pair : String × String → List (String × String) → List (String × String)
insert_pair p ps = if any (is_test p.0 p.1) ps then ps else p ∷ ps

abbrev pub insert_text : String → List String → List String
insert_text s ss = if any (is_text s) ss then ss else s ∷ ss

unfoldable pub record_outcome : TestOutcome → ReceivedOutcomes → ReceivedOutcomes
record_outcome o r = record {
  classes = if o.method == class_row then insert_text o.class r.classes else r.classes;
  pairs = insert_pair (o.class, o.method) r.pairs;
}

unfoldable pub covers : ReceivedOutcomes → String → String → Bool
covers r class method = any (is_text class) r.classes || any (is_test class method) r.pairs

-- The outcomes passed to `on_progress`, and those of the report.
pub record Log : Type 0 where
  pub progress : List TestOutcome
  pub outcomes : List TestOutcome

-- `on_progress(&o); outcomes.push(o);`
abbrev pub emit : TestOutcome → Log → Log
emit o l = record { progress = l.progress ++ o ∷ []; outcomes = l.outcomes ++ o ∷ [] }

-- The outcome that the runner makes up for a test that its worker did not report.
abbrev pub error_outcome : String → String → String → TestOutcome
error_outcome class method cause = record {
  class = class;
  method = method;
  dataset = none;
  status = TestStatus.error;
  message = some cause;
  trace = none;
  duration_ms = 0;
}

abbrev pub methods_or_class_row : List String → List String
methods_or_class_row [] = class_row ∷ []
methods_or_class_row (m ∷ ms) = m ∷ ms

unfoldable pub synth_methods : String → String → ReceivedOutcomes → List String → Log → Log
synth_methods class cause r [] l = l
synth_methods class cause r (m ∷ ms) l =
    synth_methods class cause r ms
      (if covers r class m then l else emit (error_outcome class m cause) l)

unfoldable pub synth_classes : String → ReceivedOutcomes → List BatchClass → Log → Log
synth_classes cause r [] l = l
synth_classes cause r (bc ∷ bcs) l =
    synth_classes cause r bcs (synth_methods bc.class cause r (methods_or_class_row bc.methods) l)

unfoldable pub synth_error_outcomes : BatchPlan → String → ReceivedOutcomes → Log → Log
synth_error_outcomes plan cause r l = synth_classes cause r plan.classes l
