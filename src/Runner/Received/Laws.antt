-- ===== src/Runner/Received/Laws.antt =====
-- crates/runner/src/runner.rs: what `ReceivedOutcomes` answers after an outcome is recorded, and
-- what `synth_error_outcomes` reports.
use phpunit_rust.Prelude.{
  String, Bool, true, ◌||◌, ◌&&◌, ◌≡◌, refl, sym, ap, ◌∙◌, inl, inr, List, [], ◌∷◌, ◌++◌, ◌==◌,
  if◌then◌else◌, any, eq_iff, Bool-cases, arith, append-nil, append_assoc, subst,
}
use phpunit_rust.Types.{TestOutcome, BatchClass, BatchPlan}
use phpunit_rust.Runner.Received.{
  ReceivedOutcomes, class_row, record_outcome, covers, Log, emit, error_outcome, is_test, is_text,
  insert_pair, insert_text, synth_methods, synth_classes, synth_error_outcomes,
  methods_or_class_row,
}

-- Whether the outcome accounts for the test: it is the test's own, or the row of its whole class.
abbrev pub accounts : String → String → TestOutcome → Bool
accounts class method o = o.class == class && (o.method == class_row || o.method == method)

any-is_text_insert :
    (c s : String) (ss : List String)
    → any (is_text c) (insert_text s ss) ≡ (s == c || any (is_text c) ss)
any-is_text_insert c s ss = elim (Bool-cases (any (is_text s) ss)) [
  | inl old ↦ elim (Bool-cases (s == c)) [
    | inl same ↦ rw (old, same) (subst (λ t. any (is_text t) ss ≡ true) ((eq_iff s c).0 same) old)
    | inr other ↦ rw (old, other)
  ]
  | inr new ↦ rw new
]

is_test-eq : (c m : String) (p : String × String) → is_test c m p ≡ true → (p.0 ≡ c) × (p.1 ≡ m)
is_test-eq c m p h = ground (arith, eq_iff p.0 c, eq_iff p.1 m)

any-is_test_insert :
    (c m : String) (p : String × String) (ps : List (String × String))
    → any (is_test c m) (insert_pair p ps) ≡ (is_test c m p || any (is_test c m) ps)
any-is_test_insert c m p ps = elim (Bool-cases (any (is_test p.0 p.1) ps)) [
  | inl old ↦ elim (Bool-cases (is_test c m p)) [
    | inl same ↦
        rw (old, same)
          (subst (λ t. any (is_test t m) ps ≡ true) (is_test-eq c m p same).0
            (subst (λ t. any (is_test p.0 t) ps ≡ true) (is_test-eq c m p same).1 old))
    | inr other ↦ rw (old, other)
  ]
  | inr new ↦ rw new
]

-- Recording an outcome adds the tests that it accounts for, and no other.
pub covers-record_outcome :
    (o : TestOutcome) (r : ReceivedOutcomes) (c m : String)
    → covers (record_outcome o r) c m ≡ (accounts c m o || covers r c m)
unfolding covers record_outcome
covers-record_outcome o r c m =
    rw any-is_test_insert (ground (arith, any-is_text_insert c o.class r.classes))

-- The tests of a plan in order, a class with no method list as its class row.
abbrev pub class_tests : String → List String → List (String × String)
class_tests class [] = []
class_tests class (m ∷ ms) = (class, m) ∷ class_tests class ms

abbrev pub plan_tests : List BatchClass → List (String × String)
plan_tests [] = []
plan_tests (bc ∷ bcs) = class_tests bc.class (methods_or_class_row bc.methods) ++ plan_tests bcs

abbrev pub uncovered : ReceivedOutcomes → List (String × String) → List (String × String)
uncovered r [] = []
uncovered r (p ∷ ps) = if covers r p.0 p.1 then uncovered r ps else p ∷ uncovered r ps

abbrev pub errors_for : String → List (String × String) → List TestOutcome
errors_for cause [] = []
errors_for cause (p ∷ ps) = error_outcome p.0 p.1 cause ∷ errors_for cause ps

-- Adds the same outcomes to both lists.
abbrev pub emit_all : List TestOutcome → Log → Log
emit_all os l = record { progress = l.progress ++ os; outcomes = l.outcomes ++ os }

emit_all-nil : (l : Log) → emit_all [] l ≡ l
emit_all-nil l =
    λ i. record { progress = append-nil l.progress i; outcomes = append-nil l.outcomes i }

emit_all-emit :
    (o : TestOutcome) (os : List TestOutcome) (l : Log)
    → emit_all os (emit o l) ≡ emit_all (o ∷ os) l
emit_all-emit o os l = simp append_assoc

emit_all-append :
    (os ps : List TestOutcome) (l : Log) → emit_all ps (emit_all os l) ≡ emit_all (os ++ ps) l
emit_all-append os ps l = simp append_assoc

uncovered-append :
    (r : ReceivedOutcomes) (ps qs : List (String × String))
    → uncovered r (ps ++ qs) ≡ uncovered r ps ++ uncovered r qs
uncovered-append r [] qs = refl
uncovered-append r (p ∷ ps) qs = ground (arith, uncovered-append r ps qs)

errors_for-append :
    (cause : String) (ps qs : List (String × String))
    → errors_for cause (ps ++ qs) ≡ errors_for cause ps ++ errors_for cause qs
errors_for-append cause [] qs = refl
errors_for-append cause (p ∷ ps) qs =
    ap (◌∷◌ (error_outcome p.0 p.1 cause)) (errors_for-append cause ps qs)

synth_methods_lem :
    (class cause : String) (r : ReceivedOutcomes) (ms : List String) (l : Log)
    → synth_methods class cause r ms l
      ≡ emit_all (errors_for cause (uncovered r (class_tests class ms))) l
unfolding synth_methods
synth_methods_lem class cause r [] l = sym (emit_all-nil l)
synth_methods_lem class cause r (m ∷ ms) l = elim (Bool-cases (covers r class m)) [
  | inl old ↦ rw old (synth_methods_lem class cause r ms l)
  | inr new ↦ rw new (
      synth_methods_lem class cause r ms (emit (error_outcome class m cause) l)
      ∙ emit_all-emit _ _ l)
]

synth_classes_lem :
    (cause : String) (r : ReceivedOutcomes) (bcs : List BatchClass) (l : Log)
    → synth_classes cause r bcs l ≡ emit_all (errors_for cause (uncovered r (plan_tests bcs))) l
unfolding synth_classes
synth_classes_lem cause r [] l = sym (emit_all-nil l)
synth_classes_lem cause r (bc ∷ bcs) l =
    let own = class_tests bc.class (methods_or_class_row bc.methods) in
    rw
      (
        uncovered-append r own (plan_tests bcs),
        errors_for-append cause (uncovered r own) (uncovered r (plan_tests bcs)),
        synth_methods_lem bc.class cause r (methods_or_class_row bc.methods) l,
      )
      (synth_classes_lem cause r bcs (emit_all (errors_for cause (uncovered r own)) l)
        ∙ emit_all-append _ _ l)

-- A batch that can never complete adds one error for each of its tests that is not covered, in
-- order and with the given cause, to the report and to what `on_progress` saw, and nothing else.
pub synth_error_outcomes_lem :
    (plan : BatchPlan) (cause : String) (r : ReceivedOutcomes) (l : Log)
    → synth_error_outcomes plan cause r l
      ≡ emit_all (errors_for cause (uncovered r (plan_tests plan.classes))) l
unfolding synth_error_outcomes
synth_error_outcomes_lem plan cause r l = synth_classes_lem cause r plan.classes l
